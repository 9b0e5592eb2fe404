-- ===== src/Compile/Counts/Reference.antt =====
-- cpp/m3_compile.c, a round of the loop of `FindReferencedLocalWithinCurrentBlock`: the accounts once
-- an entry that referred to a local refers to the slots that keep the local's value.
use react_native_webassembly.Common.{
  ℕ, ◌+◌, ◌-◌, ◌≤◌, ◌<◌, ◌≡◌, ◌≢◌, ◌⊎◌, refl, sym, ap, ◌∙◌, subst, inl, inr, arith, ltb, ◌==◌,
  if-by,
}
use react_native_webassembly.Compile.State.{
  Compilation, Scope, Then, then_ok, then_err, Then-continue, Then-weaken, update,
  max_function_slots,
}
use react_native_webassembly.Compile.Slots.{
  get_type_num_slots, allocate_slots, increment_slot_usage_count,
}
use react_native_webassembly.Compile.Stack.{get_stack_type_from_bottom}
use react_native_webassembly.Compile.Copy.BlockResults.{set_slot_of}
use react_native_webassembly.Compile.Locals.{preserve_slot}
use react_native_webassembly.Compile.Counts.{covers, uses-replace}
use react_native_webassembly.Compile.Counts.Marks.{with_slots}
use react_native_webassembly.Compile.Counts.Invariant.{IsCounted}
use react_native_webassembly.Compile.Counts.Push.{Taken, and_entry, allocate_slots-Taken}
use react_native_webassembly.Compile.Counts.Written.{alias_of-high}
use react_native_webassembly.Compile.Counts.Entry.{Kept}
use react_native_webassembly.Compile.Counts.Moved.{EntryOk-moved}
use react_native_webassembly.Compile.Counts.Top.{covers-fixed}

-- Where the account for one entry more is open, an entry that stood for slots that are not dynamic
-- settles it.
set_slot_of-IsCounted :
    {outside : ℕ → ℕ} (p : Compilation) (i slot : ℕ)
    → IsCounted (and_entry outside p.slot_first_dynamic_index slot (p.type_stack i)) p
    → p.block.block_stack_index ≤ i
    → i < p.stack_index
    → p.wasm_stack i < p.slot_first_dynamic_index
    → p.slot_first_dynamic_index < max_function_slots
    → slot + get_type_num_slots (p.type_stack i) ≤ p.slot_max_allocated_index_plus_one
    → IsCounted outside (set_slot_of i slot p)
set_slot_of-IsCounted {outside} p i slot c from below fixed inside fits = record {
  low = c.low;
  high = c.high;
  highest = c.highest;
  bytes = c.bytes;
  counts = λ j first.
      let before = c.counts j first in
      let more =
        uses-replace p.wasm_stack p.type_stack p.slot_first_dynamic_index p.block.block_stack_index
          (p.stack_index - p.block.block_stack_index) i slot j from (omega arith)
          (covers-fixed p.slot_first_dynamic_index (p.wasm_stack i) (p.type_stack i) j fixed) in
      rw more (omega arith);
  entries = λ k k_from k_below.
      EntryOk-moved p.slot_max_allocated_index_plus_one p.wasm_stack i slot (p.type_stack k) k
        p.reg_stack_index_plus_one (λ here. inl (rw here fits))
        (λ elsewhere. c.entries k k_from k_below);
  narrow = c.narrow;
  registers = λ r two used.
      let (r_from, r_to, alias) = c.registers r two used in
      let high = alias_of-high r in
      let apart : p.reg_stack_index_plus_one r - 1 ≢ i = λ same.
        let fixed' : p.wasm_stack (p.reg_stack_index_plus_one r - 1) < p.slot_first_dynamic_index =
          rw same fixed in
        absurd (omega arith) in
      let kept : update p.wasm_stack i slot (p.reg_stack_index_plus_one r - 1)
          ≡ p.wasm_stack (p.reg_stack_index_plus_one r - 1) =
        ground arith in
      (r_from, r_to, kept ∙ alias);
}

-- A value of one slot that is counted once more.
increment-IsCounted :
    {outside : ℕ → ℕ} (o : Compilation) (slot type : ℕ)
    → IsCounted outside o
    → get_type_num_slots type ≡ 1
    → slot < max_function_slots
    → o.slot_first_dynamic_index ≤ slot
    → Then
        (λ p (_ : Unit {0}).
          IsCounted (and_entry outside o.slot_first_dynamic_index slot type) p
          × (p ≡ record o { m3_slots = p.m3_slots }))
        (increment_slot_usage_count slot o)
unfolding increment_slot_usage_count covers
increment-IsCounted {outside} o slot type c single inside dynamic =
    if-by
      (Then (λ (p : Compilation) (_ : Unit {0}).
        IsCounted (and_entry outside o.slot_first_dynamic_index slot type) p
        × (p ≡ record o { m3_slots = p.m3_slots })))
      (ltb (o.m3_slots slot) 0xff)
      (λ room. then_ok (
        record {
          low = c.low;
          high = c.high;
          highest = c.highest;
          bytes = λ j. let before = c.bytes j in ground arith;
          counts = λ j first. let before = c.counts j first in ground arith;
          entries = c.entries;
          narrow = c.narrow;
          registers = c.registers;
        },
        refl,
      ))
      (λ full. then_err)

-- The stack and the block are as before.
record SameStack (o p : Compilation) : Type 0 where
  slots : p.wasm_stack ≡ o.wasm_stack
  types : p.type_stack ≡ o.type_stack
  block : p.block ≡ o.block
  height : p.stack_index ≡ o.stack_index
  first : p.slot_first_dynamic_index ≡ o.slot_first_dynamic_index

same_stack :
    (o p : Compilation) (counts : ℕ → ℕ) (highest max_slots : ℕ)
    → p ≡ with_slots o counts highest max_slots
    → SameStack o p
same_stack o p counts highest max_slots e = record {
  slots = ap (λ (q : Compilation). q.wasm_stack) e;
  types = ap (λ (q : Compilation). q.type_stack) e;
  block = ap (λ (q : Compilation). q.block) e;
  height = ap (λ (q : Compilation). q.stack_index) e;
  first = ap (λ (q : Compilation). q.slot_first_dynamic_index) e;
}

settle :
    {outside : ℕ → ℕ} (o p : Compilation) (i slot : ℕ)
    → SameStack o p
    → IsCounted (and_entry outside o.slot_first_dynamic_index slot (o.type_stack i)) p
    → o.block.block_stack_index ≤ i
    → i < o.stack_index
    → o.wasm_stack i < o.slot_first_dynamic_index
    → o.slot_first_dynamic_index < max_function_slots
    → slot + get_type_num_slots (o.type_stack i) ≤ p.slot_max_allocated_index_plus_one
    → Kept outside o (set_slot_of i slot p) tt
settle {outside} o p i slot same c from below fixed inside fits =
    let first = same.first in
    let height = same.height in
    let type : p.type_stack i ≡ o.type_stack i = ap (λ (f : ℕ → ℕ). f i) same.types in
    let place : p.wasm_stack i ≡ o.wasm_stack i = ap (λ (f : ℕ → ℕ). f i) same.slots in
    let base : p.block.block_stack_index ≡ o.block.block_stack_index =
      ap (λ (b : Scope). b.block_stack_index) same.block in
    let counted : IsCounted (and_entry outside p.slot_first_dynamic_index slot (p.type_stack i)) p =
      subst (λ f. IsCounted (and_entry outside f slot (p.type_stack i)) p) (sym first)
        (subst (λ t. IsCounted (and_entry outside o.slot_first_dynamic_index slot t) p) (sym type)
          c) in
    let fits' : slot + get_type_num_slots (p.type_stack i) ≤ p.slot_max_allocated_index_plus_one =
      subst (λ t. slot + get_type_num_slots t ≤ p.slot_max_allocated_index_plus_one) (sym type)
        fits in
    (
      set_slot_of-IsCounted p i slot counted (omega arith) (omega arith) (omega arith) (omega arith)
          fits',
      first,
      same.block,
    )

type_from_bottom :
    (o : Compilation) (i : ℕ) → i < o.stack_index → get_stack_type_from_bottom o i ≡ o.type_stack i
unfolding get_stack_type_from_bottom
type_from_bottom o i below = ground arith

-- The slot that keeps the value: none yet, for the first reference, or one that others share, where
-- the value is of one slot.
abbrev pub IsShareable : Compilation → ℕ → ℕ → ℕ → Type 0
IsShareable o local_slot preserved i =
    (preserved ≡ local_slot)
    ⊎ ((get_type_num_slots (o.type_stack i) ≡ 1)
        × (o.slot_first_dynamic_index ≤ preserved)
        × (preserved + 1 ≤ o.slot_max_allocated_index_plus_one))

pub preserve_slot-Kept :
    {outside : ℕ → ℕ} (o : Compilation) (local_slot preserved i : ℕ)
    → IsCounted outside o
    → o.block.block_stack_index ≤ i
    → i < o.stack_index
    → o.wasm_stack i ≡ local_slot
    → local_slot < o.slot_first_dynamic_index
    → o.slot_first_dynamic_index < max_function_slots
    → IsShareable o local_slot preserved i
    → Then
        (λ q slot. Kept outside o (set_slot_of i slot q) tt)
        (preserve_slot local_slot preserved i o)
unfolding preserve_slot
preserve_slot-Kept {outside} o local_slot preserved i c from below refers fixed inside share =
    let fixed_entry : o.wasm_stack i < o.slot_first_dynamic_index = omega arith in
    if-by (Then (λ (q : Compilation) (slot : ℕ). Kept outside o (set_slot_of i slot q) tt))
      (preserved == local_slot)
      (λ first.
        Then-weaken _
          (subst (λ t. Then (Taken outside (o.type_stack i) o) (allocate_slots t o))
            (sym (type_from_bottom o i below))
            (allocate_slots-Taken c (o.type_stack i) (c.narrow i from below) inside))
          (λ q slot t.
            settle o q i slot (same_stack o q _ _ _ t.only) t.counted from below fixed_entry inside
              t.fits))
      (λ again. elim share [
        | inl none_yet ↦
            absurd (let apart : preserved ≢ local_slot = ground arith in apart none_yet)
        | inr (single, dynamic, fits) ↦
            let highest = c.highest in
            Then-continue _
              (increment-IsCounted o preserved (o.type_stack i) c single (omega arith) dynamic)
              (λ q _ (counted, only).
                let kept = ap (λ (r : Compilation). r.slot_max_allocated_index_plus_one) only in
                then_ok (
                  settle o q i preserved (same_stack o q _ _ _ only) counted from below fixed_entry
                    inside (omega arith)))
      ])
