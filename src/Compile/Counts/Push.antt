-- ===== src/Compile/Counts/Push.antt =====
-- cpp/m3_compile.c, allocating slots and pushing entries: what becomes of the accounts.
use react_native_webassembly.Common.{
  ℕ, ◌+◌, ◌-◌, ◌≤◌, ◌<◌, ◌≡◌, ◌≢◌, sym, ◌∙◌, subst, inl, inr, arith, true, if◌then◌else◌,
}
use react_native_webassembly.Results.{Result}
use react_native_webassembly.Core.ValueType.{type_v128}
use react_native_webassembly.Compile.State.{
  Compilation, Then, then_ok, then_err, max_function_slots,
}
use react_native_webassembly.Compile.Slots.{get_type_num_slots, mark_each_slot, allocate_slots}
use react_native_webassembly.Compile.Slots.Search.{
  Allocation, allocated, full, IsFree, allocate_slots-Allocation, get_type_num_slots-Narrow,
  round_up-ge,
}
use react_native_webassembly.Compile.Counts.{within, covers}
use react_native_webassembly.Compile.Counts.Marks.{with_slots, mark_each_slot-Marked}
use react_native_webassembly.Compile.Counts.Invariant.{IsCounted, EntryOk}

pub EntryOk-higher :
    (highest highest' slot type i : ℕ) (registers : ℕ → ℕ)
    → highest ≤ highest'
    → EntryOk highest slot type i registers
    → EntryOk highest' slot type i registers
EntryOk-higher highest highest' slot type i registers h (inl fits) = inl (omega arith)
EntryOk-higher highest highest' slot type i registers h (inr alias) = inr alias

-- What the entries outside hold, and one entry more.
abbrev pub and_entry : (ℕ → ℕ) → ℕ → ℕ → ℕ → ℕ → ℕ
and_entry outside first slot type j = outside j + covers first slot type j

IsFree-within :
    (o : Compilation) (n slot j : ℕ) → IsFree o n slot → within slot n j ≡ true → o.m3_slots j ≡ 0
IsFree-within o n slot j free inside =
    let same : slot + (j - slot) ≡ j = ground arith in rw same at (free (j - slot) (ground arith))

pub marked-counts :
    (o : Compilation) (first slot type j held outside : ℕ)
    → first ≤ slot
    → slot < max_function_slots
    → IsFree o (get_type_num_slots type) slot
    → o.m3_slots j ≡ outside + held
    → (if within slot (get_type_num_slots type) j then 1 else o.m3_slots j)
      ≡ outside + covers first slot type j + held
unfolding covers
marked-counts o first slot type j held outside dynamic small free before =
    let none : within slot (get_type_num_slots type) j ≡ true → o.m3_slots j ≡ 0 =
      IsFree-within o (get_type_num_slots type) slot j free in
    ground (arith, none)

-- What an allocation leaves: the accounts with an entry for the slots still to come.
pub record Taken (outside : ℕ → ℕ) (type : ℕ) (o p : Compilation) (slot : ℕ) : Type 0 where
  pub counted : IsCounted (and_entry outside o.slot_first_dynamic_index slot type) p
  pub fits : slot + get_type_num_slots type ≤ p.slot_max_allocated_index_plus_one
  pub only : p ≡ with_slots o p.m3_slots p.slot_max_allocated_index_plus_one p.max_stack_slots

module _ {outside : ℕ → ℕ} {o : Compilation} (c : IsCounted outside o) where
  pub with_slots-IsCounted :
      (type slot : ℕ) {counts : ℕ → ℕ} {highest max_slots : ℕ}
      → o.slot_max_allocated_index_plus_one ≤ highest
      → highest ≤ max_function_slots
      → o.slot_first_dynamic_index ≤ slot
      → slot < max_function_slots
      → IsFree o (get_type_num_slots type) slot
      → ((j : ℕ) → counts j ≡ (if within slot (get_type_num_slots type) j then 1 else o.m3_slots j))
      → IsCounted
          (and_entry outside o.slot_first_dynamic_index slot type)
          (with_slots o counts highest max_slots)
  with_slots-IsCounted type slot {counts} {highest} low high dynamic small free marked = record {
    low = c.low;
    high = c.high;
    highest = high;
    bytes = λ j. let before = c.bytes j in let now = marked j in ground arith;
    counts = λ j first.
        marked j
        ∙ marked-counts o o.slot_first_dynamic_index slot type j _ (outside j) dynamic small free
            (c.counts j first);
    entries = λ i from below.
        EntryOk-higher o.slot_max_allocated_index_plus_one highest (o.wasm_stack i) (o.type_stack i)
          i o.reg_stack_index_plus_one low (c.entries i from below);
    narrow = c.narrow;
    registers = c.registers;
  }

  mark_each_slot-Taken :
      (type slot : ℕ)
      → 1 ≤ get_type_num_slots type
      → slot + get_type_num_slots type ≤ max_function_slots
      → o.slot_first_dynamic_index ≤ slot
      → IsFree o (get_type_num_slots type) slot
      → Taken outside type o (mark_each_slot slot (get_type_num_slots type) o) slot
  mark_each_slot-Taken type slot pos inside dynamic free =
      let n = get_type_num_slots type in
      let m = mark_each_slot-Marked slot n o inside in
      let (low, high) = m.highest c.highest in
      record {
        counted =
            subst (IsCounted (and_entry outside o.slot_first_dynamic_index slot type)) (sym m.only)
              (with_slots-IsCounted type slot low high dynamic (omega arith) free m.counts);
        fits = m.covered c.highest pos;
        only = m.only;
      }

  Allocation-Taken :
      (type first : ℕ) {r : Compilation × Result ℕ}
      → 1 ≤ get_type_num_slots type
      → o.slot_first_dynamic_index ≤ first
      → Allocation o (get_type_num_slots type) first r
      → Then (Taken outside type o) r
  Allocation-Taken type first pos dynamic (allocated k fits free earlier) =
      then_ok (mark_each_slot-Taken type _ pos fits (omega arith) free)
  Allocation-Taken type first pos dynamic (full taken) = then_err

  pub allocate_slots-Taken :
      (type : ℕ)
      → type ≢ type_v128
      → o.slot_first_dynamic_index < max_function_slots
      → Then (Taken outside type o) (allocate_slots type o)
  allocate_slots-Taken type narrow inside =
      let (pos, small) = get_type_num_slots-Narrow type narrow in
      Allocation-Taken type _ pos (round_up-ge _ o.slot_first_dynamic_index pos small)
        (allocate_slots-Allocation o type narrow inside)
