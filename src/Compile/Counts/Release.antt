-- ===== src/Compile/Counts/Release.antt =====
-- cpp/m3_compile.c, `Pop`: the accounts once an entry is given back.
use react_native_webassembly.Common.{
  ℕ, zero, suc, ◌+◌, ◌-◌, ◌≤◌, ◌<◌, ◌≡◌, ◌≢◌, refl, sym, ◌∙◌, inl, inr, arith, false, leb, if-by,
}
use react_native_webassembly.Compile.State.{
  Compilation, Done, done, update, max_function_slots, reg0_slot_alias,
}
use react_native_webassembly.Compile.Slots.{get_type_num_slots, deallocate_slot}
use react_native_webassembly.Compile.Slots.Search.{get_type_num_slots-positive}
use react_native_webassembly.Compile.Stack.{release_entry, is_register_slot_alias}
use react_native_webassembly.Compile.Counts.{covers, covers-alias, uses, decrement_slots-counts}
use react_native_webassembly.Compile.Counts.Invariant.{IsCounted, EntryOk, alias_of}
use react_native_webassembly.Compile.Counts.Written.{alias_of-high}
use react_native_webassembly.Compile.Counts.Top.{
  uses-top, EntryOk-forget, alias_of-injective, decremented, covers-fixed, Popped, not_top,
}

module _ {outside : ℕ → ℕ} {o : Compilation} (c : IsCounted outside o)
    (some_left : o.block.block_stack_index < o.stack_index) where
  counts_without_top :
      (j : ℕ)
      → o.slot_first_dynamic_index ≤ j
      → o.m3_slots j
        ≡ outside j
          + (covers o.slot_first_dynamic_index
                (o.wasm_stack (o.stack_index - 1))
                (o.type_stack (o.stack_index - 1))
                j
              + uses o.wasm_stack o.type_stack o.slot_first_dynamic_index o.block.block_stack_index
                  (o.stack_index - 1 - o.block.block_stack_index)
                  j)
  counts_without_top j first =
      rw
        (sym (
          uses-top o.wasm_stack o.type_stack o.slot_first_dynamic_index o.block.block_stack_index
            o.stack_index j some_left))
        (c.counts j first)

  -- The registers, where the entry on top stands for none of them.
  registers_below :
      o.wasm_stack (o.stack_index - 1) < reg0_slot_alias
      → (r : ℕ) → r < 2
      → o.reg_stack_index_plus_one r ≢ 0
      → (o.block.block_stack_index < o.reg_stack_index_plus_one r)
        × (o.reg_stack_index_plus_one r ≤ o.stack_index - 1)
        × (o.wasm_stack (o.reg_stack_index_plus_one r - 1) ≡ alias_of r)
  registers_below plain r two used =
      let (from, to, there) = c.registers r two used in
      let high = alias_of-high r in
      let apart : o.wasm_stack (o.stack_index - 1) ≢ alias_of r = λ same. omega arith in
      (from, not_top o.wasm_stack o.stack_index _ (alias_of r) to there apart, there)

  pop_slot-IsCounted :
      o.slot_first_dynamic_index ≤ o.wasm_stack (o.stack_index - 1)
      → o.wasm_stack (o.stack_index - 1) < max_function_slots
      → IsCounted outside (
          deallocate_slot
            (o.wasm_stack (o.stack_index - 1))
            (o.type_stack (o.stack_index - 1))
            (record o { stack_index = o.stack_index - 1 }))
  unfolding deallocate_slot
  pop_slot-IsCounted dynamic small = record {
    low = omega arith;
    high = let h = c.high in omega arith;
    highest = c.highest;
    bytes = λ j.
        let before = c.bytes j in
        let now =
          decrement_slots-counts (o.wasm_stack (o.stack_index - 1))
            (get_type_num_slots (o.type_stack (o.stack_index - 1))) o.m3_slots j in
        ground arith;
    counts = λ j first.
        decrement_slots-counts (o.wasm_stack (o.stack_index - 1))
          (get_type_num_slots (o.type_stack (o.stack_index - 1))) o.m3_slots j
        ∙ decremented o.slot_first_dynamic_index (o.wasm_stack (o.stack_index - 1))
            (o.type_stack (o.stack_index - 1)) j _ (outside j) o.m3_slots dynamic small (c.bytes j)
            (counts_without_top j first);
    entries = λ i from below. c.entries i from (omega arith);
    narrow = λ i from below. c.narrow i from (omega arith);
    registers = registers_below (omega arith);
  }

  pop_fixed-IsCounted :
      o.wasm_stack (o.stack_index - 1) < o.slot_first_dynamic_index
      → o.wasm_stack (o.stack_index - 1) < max_function_slots
      → IsCounted outside (record o { stack_index = o.stack_index - 1 })
  pop_fixed-IsCounted fixed small = record {
    low = omega arith;
    high = let h = c.high in omega arith;
    highest = c.highest;
    bytes = c.bytes;
    counts = λ j first.
        let none =
          covers-fixed o.slot_first_dynamic_index (o.wasm_stack (o.stack_index - 1))
            (o.type_stack (o.stack_index - 1)) j fixed in
        let before = counts_without_top j first in omega arith;
    entries = λ i from below. c.entries i from (omega arith);
    narrow = λ i from below. c.narrow i from (omega arith);
    registers = registers_below (omega arith);
  }

  pop_alias-IsCounted :
      (r : ℕ)
      → r < 2
      → o.wasm_stack (o.stack_index - 1) ≡ alias_of r
      → o.reg_stack_index_plus_one r ≡ suc (o.stack_index - 1)
      → IsCounted outside (record o {
        stack_index = o.stack_index - 1;
        reg_stack_index_plus_one = update o.reg_stack_index_plus_one r 0;
      })
  pop_alias-IsCounted r two alias known = record {
    low = omega arith;
    high = let h = c.high in omega arith;
    highest = c.highest;
    bytes = c.bytes;
    counts = λ j first.
        let high = alias_of-high r in
        let none =
          covers-alias o.slot_first_dynamic_index (o.wasm_stack (o.stack_index - 1))
            (o.type_stack (o.stack_index - 1)) j (omega arith) in
        let before = counts_without_top j first in omega arith;
    entries = λ i from below.
        EntryOk-forget o.slot_max_allocated_index_plus_one (o.wasm_stack i) (o.type_stack i) i r
          o.reg_stack_index_plus_one two (λ same. omega arith) (c.entries i from (omega arith));
    narrow = λ i from below. c.narrow i from (omega arith);
    registers = λ s small used.
        let apart : s ≢ r = λ same. used (ground arith) in
        let kept : update o.reg_stack_index_plus_one r 0 s ≡ o.reg_stack_index_plus_one s =
          ground arith in
        let (from, to, there) = c.registers s small (rw kept at used) in
        let other : o.wasm_stack (o.stack_index - 1) ≢ alias_of s =
          λ same. apart (alias_of-injective s r small two (sym same ∙ alias)) in
        rw kept (from, not_top o.wasm_stack o.stack_index _ (alias_of s) to there other, there);
  }

  release_slot :
      o.wasm_stack (o.stack_index - 1) + get_type_num_slots (o.type_stack (o.stack_index - 1))
        ≤ o.slot_max_allocated_index_plus_one
      → Done (Popped outside o) (
          release_entry
            (o.wasm_stack (o.stack_index - 1))
            (o.type_stack (o.stack_index - 1))
            (record o { stack_index = o.stack_index - 1 }))
  unfolding deallocate_slot
  release_slot fits =
      let pos = get_type_num_slots-positive (o.type_stack (o.stack_index - 1)) in
      let highest = c.highest in
      let plain : is_register_slot_alias (o.wasm_stack (o.stack_index - 1)) ≡ false =
        ground arith in
      let known : leb o.slot_max_allocated_index_plus_one (o.wasm_stack (o.stack_index - 1))
          ≡ false =
        ground arith in
      rw (plain, known)
        (if-by (Done (Popped outside o))
          (leb o.slot_first_dynamic_index (o.wasm_stack (o.stack_index - 1)))
          (λ dynamic. done (pop_slot-IsCounted (ground arith) (omega arith), refl, refl, refl))
          (λ fixed. done (pop_fixed-IsCounted (ground arith) (omega arith), refl, refl, refl)))

  release_register :
      (r : ℕ)
      → r < 2
      → o.wasm_stack (o.stack_index - 1) ≡ alias_of r
      → o.reg_stack_index_plus_one r ≡ suc (o.stack_index - 1)
      → Done (Popped outside o) (
          release_entry
            (o.wasm_stack (o.stack_index - 1))
            (o.type_stack (o.stack_index - 1))
            (record o { stack_index = o.stack_index - 1 }))
  release_register zero two alias known =
      rw alias (done (pop_alias-IsCounted 0 two alias known, refl, refl, refl))
  release_register (suc zero) two alias known =
      rw alias (done (pop_alias-IsCounted 1 two alias known, refl, refl, refl))
  release_register (suc (suc r)) two alias known = absurd (omega arith)

  pub release_entry-Popped :
      EntryOk o.slot_max_allocated_index_plus_one
        (o.wasm_stack (o.stack_index - 1))
        (o.type_stack (o.stack_index - 1))
        (o.stack_index - 1)
        o.reg_stack_index_plus_one
      → Done (Popped outside o) (
          release_entry
            (o.wasm_stack (o.stack_index - 1))
            (o.type_stack (o.stack_index - 1))
            (record o { stack_index = o.stack_index - 1 }))
  release_entry-Popped (inl fits) = release_slot fits
  release_entry-Popped (inr (inl (alias, known))) = release_register 0 (omega arith) alias known
  release_entry-Popped (inr (inr (alias, known))) = release_register 1 (omega arith) alias known
