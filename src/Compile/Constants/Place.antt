-- ===== src/Compile/Constants/Place.antt =====
-- cpp/m3_compile.c, `PushConst`: the entry that a constant gets stands for its value.
use react_native_webassembly.Common.{
  ℕ, ◌+◌, ◌*◌, ◌^◌, ◌≤◌, ◌<◌, ◌≡◌, ◌≢◌, sym, ap, subst, arith, false, inl, inr, ◌⊎◌, Option, none,
  some, min, ◌==◌, u16,
}
use react_native_webassembly.Results.{Result}
use react_native_webassembly.Runtime.{CodePage}
use react_native_webassembly.Core.ValueType.{type_v128, is_64bit_type}
use react_native_webassembly.Compile.State.{
  Compilation, Then, Then-weaken, max_constant_table_size, slot_unused,
}
use react_native_webassembly.Compile.Slots.{
  get_type_num_slots, allocate_constant_slots, allocate_slots_within_range,
}
use react_native_webassembly.Compile.Slots.Search.{
  Found, found, none_free, search_slots-Found, get_type_num_slots-positive,
  get_type_num_slots-Narrow, round_up, round_up-ge, IsFree, IsFree-EndsFree,
  align_slot_to_type-round_up,
}
use react_native_webassembly.Compile.Emit.{Target}
use react_native_webassembly.Compile.Counts.Marks.{mark_each_slot-Marked}
use react_native_webassembly.Compile.Constants.{
  place_constant, reuse_or_place, find_constant, push_emitting, push_const,
}
use react_native_webassembly.Compile.Locals.References.{get_type_num_slots-small}
use react_native_webassembly.Compile.Constants.Search.{
  HoldsConstant, IsTable, IfSome, find_constant-Holds,
}
use react_native_webassembly.Compile.Constants.Inline.{IsCarried, emit_inline_constant-IsCarried}
use react_native_webassembly.Compile.Constants.Table.{InTable, reuse-InTable, add-InTable}

-- The end of the table: its reserved part, or its greatest size.
abbrev pub table_end : Compilation → ℕ
table_end o = min o.slot_first_dynamic_index (o.slot_first_const_index + max_constant_table_size)

-- No group of slots of the table that lies at a multiple of the size of the type is free.
abbrev pub IsTableFull : Compilation → ℕ → Type 0
IsTableFull o type =
    (j : ℕ)
    → round_up (get_type_num_slots type) o.slot_first_const_index
        + j * get_type_num_slots type
        + get_type_num_slots type
      ≤ table_end o
    → ¬ IsFree o (get_type_num_slots type)
        (round_up (get_type_num_slots type) o.slot_first_const_index + j * get_type_num_slots type)

-- The entry on top has the type, and stands for a slot of the table with the value of the constant,
-- or, where the table was full, for a dynamic slot where the code puts it.
abbrev pub Denotes : Target → Compilation → ℕ → ℕ → Compilation → Unit {0} → Type 0
Denotes target o type word p _ =
    InTable p type word ⊎ (IsTableFull o type × IsCarried target p type word)

-- The constant slots that are found lie in the table's range, and marking them leaves the table.
Found-Denotes :
    (target : Target) (o : Compilation) (word type first end_slot : ℕ) {page : CodePage}
    {r : Compilation × Result ℕ}
    → o.page ≡ some page
    → word < 2 ^ 64
    → IsTable o
    → type ≢ type_v128
    → first ≡ round_up (get_type_num_slots type) o.slot_first_const_index
    → end_slot ≡ table_end o
    → Found o (get_type_num_slots type) first end_slot r
    → Then (Denotes target o type word) (place_constant target word type r)
Found-Denotes target o word type first end_slot emits small t narrow low bounded
      (found k fits free earlier) =
    let (pos, short) = get_type_num_slots-Narrow type narrow in
    let above = round_up-ge (get_type_num_slots type) o.slot_first_const_index pos short in
    let slot = first + k * get_type_num_slots type in
    let inside = t.inside in
    let reserved = t.reserved in
    let m = mark_each_slot-Marked slot (get_type_num_slots type) o (omega arith) in
    let first_kept = ap (λ (q : Compilation). q.slot_first_const_index) m.only in
    let max_kept = ap (λ (q : Compilation). q.slot_max_const_index) m.only in
    let real : (slot == slot_unused) ≡ false =
      let pos = get_type_num_slots-positive type in ground arith in
    rw real (
      Then-weaken _ (add-InTable _ word type slot small (omega arith) (omega arith) (omega arith))
        (λ p _ in_table. inl in_table))
Found-Denotes target o word type first end_slot emits small t narrow low bounded (none_free taken) =
    let inside = t.inside in
    let full : IsTableFull o type = λ j fits all_free. taken j (omega arith) (
      IsFree-EndsFree o (get_type_num_slots type) _ (get_type_num_slots-positive type) (
        subst (λ f. IsFree o (get_type_num_slots type) (f + j * get_type_num_slots type)) (sym low)
          all_free)) in
    Then-weaken _ (emit_inline_constant-IsCarried target o word type emits inside)
      (λ p _ carried. inr (full, carried))

place-Denotes :
    (target : Target) (o : Compilation) (word type : ℕ) {page : CodePage}
    → o.page ≡ some page
    → word < 2 ^ 64
    → IsTable o
    → type ≢ type_v128
    → Then
        (Denotes target o type word)
        (place_constant target word type (allocate_constant_slots type o))
unfolding allocate_constant_slots allocate_slots_within_range
place-Denotes target o word type emits small t narrow =
    let inside = t.inside in
    let reserved = t.reserved in
    let ordered = t.ordered in
    let end_slot =
      min o.slot_first_dynamic_index (u16 (o.slot_first_const_index + max_constant_table_size)) in
    Found-Denotes target o word type _ end_slot emits small t narrow
      (align_slot_to_type-round_up o.slot_first_const_index type narrow (omega arith)) (omega arith)
      (search_slots-Found o (get_type_num_slots type) end_slot end_slot _
        (get_type_num_slots-positive type) (get_type_num_slots-small type) (omega arith)
        (omega arith))

reuse_or_place-Denotes :
    (target : Target) (o : Compilation) (word type : ℕ) (slot : Option ℕ) {page : CodePage}
    → o.page ≡ some page
    → word < 2 ^ 64
    → IsTable o
    → type ≢ type_v128
    → IfSome (HoldsConstant o (is_64bit_type type) word) slot
    → Then (Denotes target o type word) (reuse_or_place target word type slot o)
reuse_or_place-Denotes target o word type (some slot) emits small t narrow holds =
    Then-weaken _ (reuse-InTable o word type slot holds) (λ p _ in_table. inl in_table)
reuse_or_place-Denotes target o word type none emits small t narrow holds =
    place-Denotes target o word type emits small t narrow

-- Where code is emitted and `PushConst` succeeds for a type of up to 64 bits, the entry on top of the
-- stack has the type of the constant. It stands for a slot of the constant table with its value, an
-- old slot or a new one; or no group of slots of the table was free, and it stands for a dynamic slot,
-- and the page ends in the constant operation of its width, the constant, and that slot.
pub push_const-Denotes :
    (target : Target) (o : Compilation) (word type : ℕ) {page : CodePage}
    → o.page ≡ some page
    → IsTable o
    → type ≢ type_v128
    → word < 2 ^ 64
    → Then (Denotes target o type word) (push_const target word type o)
unfolding push_const
push_const-Denotes target o word type emits t narrow small =
    subst (λ m. Then (Denotes target o type word) (push_emitting target word type m o)) (sym emits)
      (reuse_or_place-Denotes target o word type (find_constant o word type) emits small t narrow
        (find_constant-Holds o word type t narrow))
