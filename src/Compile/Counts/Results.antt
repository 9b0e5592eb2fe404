-- ===== src/Compile/Counts/Results.antt =====
-- cpp/m3_compile.c, a round of the loop of `CompileCallArgsAndReturn` over the results: the accounts
-- once an entry is pushed and its slots are marked.
use react_native_webassembly.Common.{
  ℕ, ◌+◌, ◌≤◌, ◌<◌, ◌≢◌, sym, ap, subst, inl, inr, arith, ltb, Bool-cases, if-by,
}
use react_native_webassembly.Core.ValueType.{type_v128}
use react_native_webassembly.Compile.State.{
  Compilation, Then, then_ok, then_err, continue, max_function_slots, max_function_stack_height,
}
use react_native_webassembly.Compile.Slots.{
  get_type_num_slots, mark_each_slot, mark_slots_allocated, mark_slots_allocated_by_type,
}
use react_native_webassembly.Compile.Slots.Search.{IsFree, get_type_num_slots-positive}
use react_native_webassembly.Compile.Stack.{push}
use react_native_webassembly.Compile.Counts.Marks.{with_slots, mark_each_slot-Marked}
use react_native_webassembly.Compile.Counts.Invariant.{IsCounted}
use react_native_webassembly.Compile.Counts.Push.{with_slots-IsCounted}
use react_native_webassembly.Compile.Counts.Written.{
  with_entry, with_entry-IsCounted, push-with_entry,
}
use react_native_webassembly.Compile.Counts.Entry.{Kept, push-full}

-- The entry first and the marks after it.
marked_entry-Kept :
    {outside : ℕ → ℕ} (o : Compilation) (type slot : ℕ)
    → IsCounted outside o
    → type ≢ type_v128
    → o.slot_first_dynamic_index ≤ slot
    → IsFree o (get_type_num_slots type) slot
    → o.stack_index < max_function_stack_height
    → slot + get_type_num_slots type ≤ max_function_slots
    → Kept outside o (mark_each_slot slot (get_type_num_slots type) (with_entry o type slot)) tt
marked_entry-Kept {outside} o type slot c narrow dynamic free room fits =
    let n = get_type_num_slots type in
    let pos = get_type_num_slots-positive type in
    let q = mark_each_slot slot n (with_entry o type slot) in
    let m = mark_each_slot-Marked slot n (with_entry o type slot) fits in
    let (low, high) = m.highest c.highest in
    let counted =
      with_slots-IsCounted c type slot {counts = q.m3_slots} {max_slots = q.max_stack_slots} low
        high dynamic (omega arith) free m.counts in
    (
      subst (IsCounted outside) (sym m.only) (
          with_entry-IsCounted
            (with_slots o q.m3_slots q.slot_max_allocated_index_plus_one q.max_stack_slots) type
            slot counted (m.covered c.highest pos) narrow room),
      ap (λ (p : Compilation). p.slot_first_dynamic_index) m.only,
      ap (λ (p : Compilation). p.block) m.only,
    )

-- A result of a call, in slots that are free.
pub push_result-Kept :
    {outside : ℕ → ℕ} (o : Compilation) (type slot : ℕ)
    → IsCounted outside o
    → type ≢ type_v128
    → o.slot_first_dynamic_index ≤ slot
    → slot < max_function_slots
    → IsFree o (get_type_num_slots type) slot
    → Then
        (Kept outside o)
        (continue (push type slot o) (λ _. mark_slots_allocated_by_type slot type))
unfolding mark_slots_allocated_by_type mark_slots_allocated
push_result-Kept {outside} o type slot c narrow dynamic small free =
    elim (Bool-cases (ltb o.stack_index max_function_stack_height)) [
      | inl room ↦ rw (push-with_entry o type slot small (ground arith)) (
          if-by (Then (Kept outside o)) (ltb max_function_slots (slot + get_type_num_slots type))
            (λ outside. then_err)
            (λ fits.
              then_ok (
                marked_entry-Kept o type slot c narrow dynamic free (ground arith) (ground arith))))
      | inr full ↦ rw (push-full o type slot (ground arith)) then_err
    ]
