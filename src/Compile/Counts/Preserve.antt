-- ===== src/Compile/Counts/Preserve.antt =====
-- cpp/m3_compile.c, `PreserveRegisterIfOccupied`: what becomes of the accounts when the entry of a
-- register moves to slots.
use react_native_webassembly.Common.{
  ℕ, ◌+◌, ◌-◌, ◌≤◌, ◌<◌, ◌≡◌, ◌≢◌, refl, sym, ◌∙◌, subst, arith, ltb, if-by, Option,
}
use react_native_webassembly.Results.{Result}
use react_native_webassembly.Core.ValueType.{is_fp_type}
use react_native_webassembly.Runtime.{CodePage, Runtime}
use react_native_webassembly.Compile.State.{
  Compilation, Compile, Then, then_ok, then_err, Then-always, Then-weaken, Then-continue,
  max_function_slots,
}
use react_native_webassembly.Compile.Slots.{get_type_num_slots, mark_each_slot, allocate_slots}
use react_native_webassembly.Compile.Slots.Search.{
  Allocation, allocated, full, IsFree, round_up-ge, allocate_slots-Allocation,
  get_type_num_slots-Narrow,
}
use react_native_webassembly.Compile.Emit.{Operation, Target, emit_op, emit_slot_offset}
use react_native_webassembly.Compile.Stack.{
  move_entry, preserve_entry, preserve_register, preserve_register_if_occupied, deallocate_register,
  get_register_stack_index, get_stack_type_from_bottom, is_register_allocated, reg_select,
}
use react_native_webassembly.Compile.Counts.Marks.{mark_each_slot-Marked}
use react_native_webassembly.Compile.Counts.Invariant.{IsCounted}
use react_native_webassembly.Compile.Counts.Entry.{Kept, reg_select-small}
use react_native_webassembly.Compile.Counts.Moved.{entry_at, moved-IsCounted}

-- Emission changes the runtime and the page alone.
pub emitted-IsCounted :
    {outside : ℕ → ℕ} {o : Compilation} (rt : Runtime) (page : Option CodePage)
    → IsCounted outside o
    → IsCounted outside (record o { runtime = rt; page = page })
emitted-IsCounted rt page c = record {
  low = c.low;
  high = c.high;
  highest = c.highest;
  bytes = c.bytes;
  counts = c.counts;
  entries = c.entries;
  narrow = c.narrow;
  registers = c.registers;
}

abbrev pub KeptResult {ℓ} : {A : Type ℓ} → (ℕ → ℕ) → Compilation → Compilation → A → Type 0
KeptResult outside o p _ =
    IsCounted outside p
    × (p.slot_first_dynamic_index ≡ o.slot_first_dynamic_index)
    × (p.block ≡ o.block)

pub emit_op-Kept :
    {outside : ℕ → ℕ} (target : Target) (operation : Operation) (o : Compilation)
    → IsCounted outside o
    → Then (Kept outside o) (emit_op target operation o)
unfolding emit_op
emit_op-Kept target operation o c = Then-always _ _ (λ _. (emitted-IsCounted _ _ c, refl, refl))

pub emit_slot_offset-IsCounted :
    {outside : ℕ → ℕ} (slot : ℕ) (o : Compilation)
    → IsCounted outside o
    → IsCounted outside (emit_slot_offset slot o)
unfolding emit_slot_offset
emit_slot_offset-IsCounted slot o c = emitted-IsCounted o.runtime _ c

top_type :
    (o : Compilation) (i : ℕ) → i < o.stack_index → get_stack_type_from_bottom o i ≡ o.type_stack i
unfolding get_stack_type_from_bottom
top_type o i below = ground arith

module _ {outside : ℕ → ℕ} {o : Compilation} (c : IsCounted outside o) (r : ℕ) (two : r < 2)
    (used : o.reg_stack_index_plus_one r ≢ 0)
    (inside : o.slot_first_dynamic_index < max_function_slots) where
  Moved : Compilation → ℕ → Type 0
  Moved p slot = KeptResult outside o (entry_at p (o.reg_stack_index_plus_one r - 1) slot) slot

  mark_each_slot-Moved :
      (slot : ℕ)
      → 1 ≤ get_type_num_slots (o.type_stack (o.reg_stack_index_plus_one r - 1))
      → slot + get_type_num_slots (o.type_stack (o.reg_stack_index_plus_one r - 1))
        ≤ max_function_slots
      → o.slot_first_dynamic_index ≤ slot
      → IsFree o (get_type_num_slots (o.type_stack (o.reg_stack_index_plus_one r - 1))) slot
      → Moved
          (mark_each_slot slot
            (get_type_num_slots (o.type_stack (o.reg_stack_index_plus_one r - 1)))
            (deallocate_register r o))
          slot
  unfolding Moved
  mark_each_slot-Moved slot pos fits dynamic free =
      let n = get_type_num_slots (o.type_stack (o.reg_stack_index_plus_one r - 1)) in
      let m = mark_each_slot-Marked slot n (deallocate_register r o) fits in
      let (low, high) = m.highest c.highest in
      subst (λ p. Moved p slot) (sym m.only)
        (
          moved-IsCounted c r two used slot low high dynamic (omega arith) (m.covered c.highest pos)
              free m.counts,
          refl,
          refl,
        )

  Allocation-Moved :
      (first : ℕ) {r' : Compilation × Result ℕ}
      → 1 ≤ get_type_num_slots (o.type_stack (o.reg_stack_index_plus_one r - 1))
      → o.slot_first_dynamic_index ≤ first
      → Allocation
          (deallocate_register r o)
          (get_type_num_slots (o.type_stack (o.reg_stack_index_plus_one r - 1)))
          first
          r'
      → Then Moved r'
  Allocation-Moved first pos dynamic (allocated k fits free earlier) =
      then_ok (mark_each_slot-Moved _ pos fits (omega arith) free)
  Allocation-Moved first pos dynamic (full taken) = then_err

  allocate_slots-Moved :
      Then Moved
        (allocate_slots (o.type_stack (o.reg_stack_index_plus_one r - 1)) (deallocate_register r o))
  allocate_slots-Moved =
      let (from, to, alias) = c.registers r two used in
      let type = o.type_stack (o.reg_stack_index_plus_one r - 1) in
      let narrow = c.narrow (o.reg_stack_index_plus_one r - 1) (omega arith) (omega arith) in
      let (pos, small) = get_type_num_slots-Narrow type narrow in
      Allocation-Moved _ pos (round_up-ge _ o.slot_first_dynamic_index pos small)
        (allocate_slots-Allocation (deallocate_register r o) type narrow inside)

  move_entry-Kept :
      (target : Target) (type slot : ℕ) (p : Compilation)
      → Moved p slot
      → Then (Kept outside o) (move_entry target (o.reg_stack_index_plus_one r - 1) type slot p)
  unfolding move_entry Moved
  move_entry-Kept target type slot p (counted, first, block) =
      Then-continue _
        (if-by
          (λ (m : Compile (Unit {0})).
            Then (Kept outside o) (m (entry_at p (o.reg_stack_index_plus_one r - 1) slot)))
          (ltb type 5)
          (λ known.
            Then-weaken _ (emit_op-Kept target _ _ counted)
              (λ q _ (counted', first', block'). (counted', first' ∙ first, block' ∙ block)))
          (λ unknown. then_err))
        (λ q _ (counted', first', block').
          then_ok (emit_slot_offset-IsCounted slot q counted', first', block'))

  preserve_entry-Kept :
      (target : Target)
      → Then (Kept outside o) (
          preserve_entry target
            (o.reg_stack_index_plus_one r - 1)
            (o.type_stack (o.reg_stack_index_plus_one r - 1))
            (deallocate_register r o))
  unfolding preserve_entry
  preserve_entry-Kept target = Then-continue _ allocate_slots-Moved (λ p slot moved.
      move_entry-Kept target (o.type_stack (o.reg_stack_index_plus_one r - 1)) slot p moved)

  preserve_register-Kept : (target : Target) → Then (Kept outside o) (preserve_register target r o)
  unfolding preserve_register
  preserve_register-Kept target =
      let (from, to, alias) = c.registers r two used in
      let high = c.high in
      let index : get_register_stack_index o r ≡ o.reg_stack_index_plus_one r - 1 = omega arith in
      let type : get_stack_type_from_bottom o (o.reg_stack_index_plus_one r - 1)
          ≡ o.type_stack (o.reg_stack_index_plus_one r - 1) =
        top_type o (o.reg_stack_index_plus_one r - 1) (omega arith) in
      subst
        (λ i.
          Then (Kept outside o)
            (preserve_entry target i (get_stack_type_from_bottom o i) (deallocate_register r o)))
        (sym index)
        (subst
          (λ t.
            Then (Kept outside o) (
              preserve_entry target (o.reg_stack_index_plus_one r - 1) t (deallocate_register r o)))
          (sym type) (preserve_entry-Kept target))

-- A register's entry that moves to slots keeps the accounts of the block.
pub preserve_register_if_occupied-Kept :
    {outside : ℕ → ℕ} (target : Target) (o : Compilation) (register_type : ℕ)
    → IsCounted outside o
    → o.slot_first_dynamic_index < max_function_slots
    → Then (Kept outside o) (preserve_register_if_occupied target register_type o)
unfolding preserve_register_if_occupied
preserve_register_if_occupied-Kept {outside} target o register_type c inside =
    let r = reg_select (is_fp_type register_type) in
    if-by (Then (Kept outside o)) (is_register_allocated o r)
      (λ used.
        preserve_register-Kept c r (reg_select-small (is_fp_type register_type)) (ground arith)
          inside target)
      (λ free. then_ok (c, refl, refl))
