-- ===== src/Compile/Counts/Moved.antt =====
-- cpp/m3_compile.c, `PreserveRegisterIfOccupied`: the accounts once an entry moves to slots.
use react_native_webassembly.Common.{
  ℕ, suc, ◌+◌, ◌-◌, ◌≤◌, ◌<◌, ◌≡◌, ◌≢◌, sym, ap, ◌∙◌, inl, arith, if◌then◌else◌, ◌==◌, if-by,
}
use react_native_webassembly.Compile.State.{Compilation, update, max_function_slots}
use react_native_webassembly.Compile.Slots.{get_type_num_slots}
use react_native_webassembly.Compile.Slots.Search.{IsFree}
use react_native_webassembly.Compile.Counts.{covers-alias, within, uses-replace}
use react_native_webassembly.Compile.Counts.Marks.{with_slots}
use react_native_webassembly.Compile.Counts.Invariant.{IsCounted, EntryOk}
use react_native_webassembly.Compile.Counts.Push.{EntryOk-higher, marked-counts}
use react_native_webassembly.Compile.Counts.Written.{alias_of-high}
use react_native_webassembly.Compile.Counts.Top.{EntryOk-forget, alias_of-injective}

-- The state without the register, the slots marked and the entry on them.
abbrev pub moved : Compilation → ℕ → ℕ → (ℕ → ℕ) → ℕ → ℕ → Compilation
moved o r slot counts highest max_slots = record (with_slots o counts highest max_slots) {
  reg_stack_index_plus_one = update o.reg_stack_index_plus_one r 0;
  wasm_stack = update o.wasm_stack (o.reg_stack_index_plus_one r - 1) slot;
}

abbrev pub entry_at : Compilation → ℕ → ℕ → Compilation
entry_at p k slot = record p { wasm_stack = update p.wasm_stack k slot }

pub EntryOk-moved :
    (highest : ℕ) (slots : ℕ → ℕ) (k slot type i : ℕ) (registers : ℕ → ℕ)
    → (i ≡ k → EntryOk highest slot type i registers)
    → (i ≢ k → EntryOk highest (slots i) type i registers)
    → EntryOk highest (update slots k slot i) type i registers
EntryOk-moved highest slots k slot type i registers here elsewhere =
    if-by (λ s. EntryOk highest s type i registers) (i == k) (λ same. here (ground arith))
      (λ apart. elsewhere (ground arith))

module _ {outside : ℕ → ℕ} {o : Compilation} (c : IsCounted outside o) (r : ℕ) (two : r < 2)
    (used : o.reg_stack_index_plus_one r ≢ 0) where
  pub moved-IsCounted :
      (slot : ℕ) {counts : ℕ → ℕ} {highest max_slots : ℕ}
      → o.slot_max_allocated_index_plus_one ≤ highest
      → highest ≤ max_function_slots
      → o.slot_first_dynamic_index ≤ slot
      → slot < max_function_slots
      → slot + get_type_num_slots (o.type_stack (o.reg_stack_index_plus_one r - 1)) ≤ highest
      → IsFree o (get_type_num_slots (o.type_stack (o.reg_stack_index_plus_one r - 1))) slot
      → ((j : ℕ)
          → counts j ≡ (
              if within slot
                (get_type_num_slots (o.type_stack (o.reg_stack_index_plus_one r - 1)))
                j
              then 1
              else o.m3_slots j))
      → IsCounted outside (moved o r slot counts highest max_slots)
  moved-IsCounted slot {counts} {highest} low high dynamic small fits free marked =
      let (from, to, alias) = c.registers r two used in
      let k = o.reg_stack_index_plus_one r - 1 in
      let known : o.reg_stack_index_plus_one r ≡ suc k = omega arith in
      let alias_high = alias_of-high r in
      record {
        low = c.low;
        high = c.high;
        highest = high;
        bytes = λ j. let before = c.bytes j in let now = marked j in ground arith;
        counts = λ j first.
            let more =
              uses-replace o.wasm_stack o.type_stack o.slot_first_dynamic_index
                o.block.block_stack_index (o.stack_index - o.block.block_stack_index) k slot j
                (omega arith) (omega arith)
                (covers-alias o.slot_first_dynamic_index (o.wasm_stack k) (o.type_stack k) j
                  (omega arith)) in
            let now =
              marked j
              ∙ marked-counts o o.slot_first_dynamic_index slot (o.type_stack k) j _ (outside j)
                  dynamic small free (c.counts j first) in
            rw more (omega arith);
        entries = λ i from_base below.
            EntryOk-moved highest o.wasm_stack k slot (o.type_stack i) i
              (update o.reg_stack_index_plus_one r 0) (λ here. inl (rw here fits))
              (λ elsewhere.
                EntryOk-forget highest (o.wasm_stack i) (o.type_stack i) i r
                  o.reg_stack_index_plus_one two (λ same. elsewhere (omega arith))
                  (EntryOk-higher o.slot_max_allocated_index_plus_one highest (o.wasm_stack i)
                    (o.type_stack i) i o.reg_stack_index_plus_one low
                    (c.entries i from_base below)));
        narrow = c.narrow;
        registers = λ s s_two s_used.
            let apart : s ≢ r = λ same. s_used (ground arith) in
            let kept : update o.reg_stack_index_plus_one r 0 s ≡ o.reg_stack_index_plus_one s =
              ground arith in
            let (s_from, s_to, there) = c.registers s s_two (rw kept at s_used) in
            let other : o.reg_stack_index_plus_one s - 1 ≢ k = λ same.
              apart (alias_of-injective s r s_two two (sym there ∙ ap o.wasm_stack same ∙ alias)) in
            let entry : update o.wasm_stack k slot (o.reg_stack_index_plus_one s - 1)
                ≡ o.wasm_stack (o.reg_stack_index_plus_one s - 1) =
              ground arith in
            rw kept (s_from, s_to, entry ∙ there);
      }
