-- ===== src/Compile/Counts/Sharing.antt =====
-- cpp/m3_compile.c, `AllocateSlots`: no slot that it gives is referred to by an entry of the block.
use react_native_webassembly.Common.{
  ℕ, zero, suc, ◌+◌, ◌-◌, ◌*◌, ◌≤◌, ◌<◌, ◌≡◌, ◌≢◌, arith, ltb, ◌==◌, Bool-cases, ◌⊎◌, inl, inr,
}
use react_native_webassembly.Results.{Result}
use react_native_webassembly.Core.ValueType.{type_v128}
use react_native_webassembly.Compile.State.{
  Compilation, Then, then_ok, then_err, max_function_slots, reg0_slot_alias,
}
use react_native_webassembly.Compile.Slots.{get_type_num_slots, allocate_slots}
use react_native_webassembly.Compile.Slots.Search.{
  Allocation, allocated, full, IsFree, round_up-ge, allocate_slots-Allocation,
  get_type_num_slots-Narrow, get_type_num_slots-positive,
}
use react_native_webassembly.Compile.Counts.{covers, uses}
use react_native_webassembly.Compile.Counts.Invariant.{IsCounted}

-- A slot that is not used is used by no entry.
uses-zero :
    (slots types : ℕ → ℕ) (first base n j i : ℕ)
    → uses slots types first base n j ≡ 0
    → base ≤ i
    → i < base + n
    → covers first (slots i) (types i) j ≡ 0
unfolding uses
uses-zero slots types first base zero j i none low high = absurd (omega arith)
uses-zero slots types first base (suc n) j i none low high = elim (Bool-cases (i == base + n)) [
  | inl top ↦ let same : i ≡ base + n = ground arith in rw same (omega arith)
  | inr lower ↦
      let apart : i ≢ base + n = ground arith in
      uses-zero slots types first base n j i (omega arith) low (omega arith)
]

covers-apart :
    (first slot type j : ℕ)
    → first ≤ slot
    → slot < reg0_slot_alias
    → covers first slot type j ≡ 0
    → (slot + get_type_num_slots type ≤ j) ⊎ (j < slot)
unfolding covers
covers-apart first slot type j dynamic small none = ground arith

-- Two groups of slots have no slot in common.
abbrev pub Apart : ℕ → ℕ → ℕ → ℕ → Type 0
Apart slot n slot' n' = (slot + n ≤ slot') ⊎ (slot' + n' ≤ slot)

-- No entry of the block that stands for dynamic slots shares one with the group.
pub record IsUnshared (o : Compilation) (slot n : ℕ) : Type 0 where
  pub apart :
      (i : ℕ)
      → o.block.block_stack_index ≤ i
      → i < o.stack_index
      → o.slot_first_dynamic_index ≤ o.wasm_stack i
      → o.wasm_stack i < reg0_slot_alias
      → Apart (o.wasm_stack i) (get_type_num_slots (o.type_stack i)) slot n

module _ {outside : ℕ → ℕ} {o : Compilation} (c : IsCounted outside o) (n slot : ℕ) (pos : 1 ≤ n)
    (dynamic : o.slot_first_dynamic_index ≤ slot) (free : IsFree o n slot) where
  not_covered :
      (i k : ℕ)
      → o.block.block_stack_index ≤ i
      → i < o.stack_index
      → k < n
      → covers o.slot_first_dynamic_index (o.wasm_stack i) (o.type_stack i) (slot + k) ≡ 0
  not_covered i k from below small =
      let none = free k small in
      let counted = c.counts (slot + k) (omega arith) in
      uses-zero o.wasm_stack o.type_stack o.slot_first_dynamic_index o.block.block_stack_index
        (o.stack_index - o.block.block_stack_index) (slot + k) i (omega arith) from (omega arith)

  -- The group begins before the entry, and then ends before it.
  ends_before :
      (i : ℕ)
      → o.block.block_stack_index ≤ i
      → i < o.stack_index
      → o.slot_first_dynamic_index ≤ o.wasm_stack i
      → o.wasm_stack i < reg0_slot_alias
      → slot < o.wasm_stack i
      → slot + n ≤ o.wasm_stack i
  ends_before i from below dynamic_entry plain before =
      elim (Bool-cases (ltb (o.wasm_stack i) (slot + n))) [
        | inl overlaps ↦
            let k = o.wasm_stack i - slot in
            let same : slot + k ≡ o.wasm_stack i = omega arith in
            let none = rw same at (not_covered i k from below (ground arith)) in
            let here = get_type_num_slots-positive (o.type_stack i) in
            let split =
              covers-apart o.slot_first_dynamic_index (o.wasm_stack i) (o.type_stack i)
                (o.wasm_stack i) dynamic_entry plain none in
            absurd (elim split [ inl past ↦ omega arith | inr earlier ↦ omega arith ])
        | inr apart ↦ ground arith
      ]

  group-IsUnshared : IsUnshared o slot n
  group-IsUnshared = record {
    apart = λ i from below dynamic_entry plain.
        let same : slot + 0 ≡ slot = omega arith in
        let none = rw same at (not_covered i 0 from below pos) in
        elim (covers-apart o.slot_first_dynamic_index (o.wasm_stack i) (o.type_stack i) slot
          dynamic_entry plain none) [
            | inl past ↦ inl past
            | inr before ↦ inr (ends_before i from below dynamic_entry plain before)
          ];
  }

Allocation-IsUnshared :
    {outside : ℕ → ℕ} {o : Compilation} (n first : ℕ) {r : Compilation × Result ℕ}
    → IsCounted outside o
    → 1 ≤ n
    → o.slot_first_dynamic_index ≤ first
    → Allocation o n first r
    → Then (λ p slot. IsUnshared o slot n) r
Allocation-IsUnshared n first c pos dynamic (allocated k fits free earlier) =
    then_ok (group-IsUnshared c n (first + k * n) pos (omega arith) free)
Allocation-IsUnshared n first c pos dynamic (full taken) = then_err

-- The slots that `AllocateSlots` gives to a value of up to 64 bits are apart from those of every
-- entry of the block.
pub allocate_slots-IsUnshared :
    {outside : ℕ → ℕ} (o : Compilation) (type : ℕ)
    → IsCounted outside o
    → type ≢ type_v128
    → o.slot_first_dynamic_index < max_function_slots
    → Then (λ p slot. IsUnshared o slot (get_type_num_slots type)) (allocate_slots type o)
allocate_slots-IsUnshared o type c narrow inside =
    let (pos, small) = get_type_num_slots-Narrow type narrow in
    Allocation-IsUnshared (get_type_num_slots type) _ c pos
      (round_up-ge _ o.slot_first_dynamic_index pos small)
      (allocate_slots-Allocation o type narrow inside)
