-- ===== src/Compile/Counts/Written.antt =====
-- cpp/m3_compile.c, `Push` and `PushRegister`: the entry that they write, and its account.
use react_native_webassembly.Common.{
  ℕ, zero, suc, ◌+◌, ◌-◌, ◌≤◌, ◌<◌, ◌≡◌, ◌≢◌, refl, sym, ap, ◌∙◌, inl, inr, arith, true, false, ltb,
  ◌==◌, u16, if-by, Bool-cases,
}
use react_native_webassembly.Results.{ok}
use react_native_webassembly.Core.ValueType.{type_v128}
use react_native_webassembly.Compile.State.{
  Compilation, update, max_function_slots, max_function_stack_height, reg0_slot_alias,
}
use react_native_webassembly.Compile.Slots.{get_type_num_slots}
use react_native_webassembly.Compile.Stack.{push, is_register_slot_alias}
use react_native_webassembly.Compile.Counts.{covers, covers-alias, uses, uses-update}
use react_native_webassembly.Compile.Counts.Invariant.{IsCounted, EntryOk, alias_of}
use react_native_webassembly.Compile.Counts.Push.{and_entry}

uses-push :
    (slots types : ℕ → ℕ) (first base height slot type j : ℕ)
    → base ≤ height
    → uses (update slots height slot) (update types height type) first base (height + 1 - base) j
      ≡ covers first slot type j + uses slots types first base (height - base) j
unfolding uses
uses-push slots types first base height slot type j low =
    let more : height + 1 - base ≡ suc (height - base) = omega arith in
    let top : base + (height - base) ≡ height = omega arith in
    let slot_now : update slots height slot height ≡ slot = ground arith in
    let type_now : update types height type height ≡ type = ground arith in
    let rest =
      uses-update slots types first base (height - base) height slot type j (omega arith) in
    rw (more, top, slot_now, type_now, rest) refl

EntryOk-update :
    (highest : ℕ) (slots types : ℕ → ℕ) (height slot type i : ℕ) (registers : ℕ → ℕ)
    → (i ≡ height → EntryOk highest slot type i registers)
    → (i ≢ height → EntryOk highest (slots i) (types i) i registers)
    → EntryOk highest (update slots height slot i) (update types height type i) i registers
EntryOk-update highest slots types height slot type i registers top lower =
    elim (Bool-cases (i == height)) [
      | inl same ↦
          let slot_now : update slots height slot i ≡ slot = ground arith in
          let type_now : update types height type i ≡ type = ground arith in
          rw (slot_now, type_now) (top (ground arith))
      | inr apart ↦
          let slot_kept : update slots height slot i ≡ slots i = ground arith in
          let type_kept : update types height type i ≡ types i = ground arith in
          rw (slot_kept, type_kept) (lower (ground arith))
    ]

narrow-update :
    (types : ℕ → ℕ) (height type i : ℕ)
    → type ≢ type_v128
    → (i ≢ height → types i ≢ type_v128)
    → update types height type i ≢ type_v128
narrow-update types height type i top lower =
    if-by (λ t. t ≢ type_v128) (i == height) (λ same. top) (λ apart. lower (ground arith))

-- The entry that `Push` writes, for slots.
abbrev pub with_entry : Compilation → ℕ → ℕ → Compilation
with_entry o type slot = record o {
  stack_index = o.stack_index + 1;
  wasm_stack = update o.wasm_stack o.stack_index slot;
  type_stack = update o.type_stack o.stack_index type;
}

module _ (o : Compilation) (type slot : ℕ) where
  pub with_entry-IsCounted :
      {outside : ℕ → ℕ}
      → IsCounted (and_entry outside o.slot_first_dynamic_index slot type) o
      → slot + get_type_num_slots type ≤ o.slot_max_allocated_index_plus_one
      → type ≢ type_v128
      → o.stack_index < max_function_stack_height
      → IsCounted outside (with_entry o type slot)
  with_entry-IsCounted {outside} c fits narrow room = record {
    low = let l = c.low in omega arith;
    high = omega arith;
    highest = c.highest;
    bytes = c.bytes;
    counts = λ j first.
        let now =
          uses-push o.wasm_stack o.type_stack o.slot_first_dynamic_index o.block.block_stack_index
            o.stack_index slot type j c.low in
        let before = c.counts j first in rw now (omega arith);
    entries = λ i from below.
        EntryOk-update o.slot_max_allocated_index_plus_one o.wasm_stack o.type_stack o.stack_index
          slot type i o.reg_stack_index_plus_one (λ top. inl fits)
          (λ apart. c.entries i from (omega arith));
    narrow = λ i from below.
        narrow-update o.type_stack o.stack_index type i narrow
          (λ apart. c.narrow i from (omega arith));
    registers = λ r two used.
        let (from, to, alias) = c.registers r two used in
        let kept : update o.wasm_stack o.stack_index slot (o.reg_stack_index_plus_one r - 1)
            ≡ o.wasm_stack (o.reg_stack_index_plus_one r - 1) =
          ground arith in
        (from, omega arith, kept ∙ alias);
  }

  pub push-with_entry :
      slot < max_function_slots
      → o.stack_index < max_function_stack_height
      → push type slot o ≡ (with_entry o type slot, ok tt)
  unfolding push
  push-with_entry small room =
      let here : u16 (o.stack_index + 1) ≡ o.stack_index + 1 = omega arith in
      let plain : is_register_slot_alias slot ≡ false = ground arith in
      let fits : ltb o.stack_index max_function_stack_height ≡ true = ground arith in
      rw (fits, plain, here) refl

-- The entry that `PushRegister` writes.
abbrev pub with_register : Compilation → ℕ → ℕ → Compilation
with_register o type r = record o {
  stack_index = o.stack_index + 1;
  wasm_stack = update o.wasm_stack o.stack_index (alias_of r);
  type_stack = update o.type_stack o.stack_index type;
  reg_stack_index_plus_one = update o.reg_stack_index_plus_one r (o.stack_index + 1);
}

EntryOk-register :
    (highest slot type i r v : ℕ) (registers : ℕ → ℕ)
    → r < 2
    → registers r ≡ 0
    → EntryOk highest slot type i registers
    → EntryOk highest slot type i (update registers r v)
EntryOk-register highest slot type i r v registers two free (inl fits) = inl fits
EntryOk-register highest slot type i zero v registers two free (inr (inl (alias, known))) =
    absurd (omega arith)
EntryOk-register highest slot type i (suc r) v registers two free (inr (inl (alias, known))) =
    let kept : update registers (suc r) v 0 ≡ registers 0 = ground arith in
    inr (inl (alias, kept ∙ known))
EntryOk-register highest slot type i zero v registers two free (inr (inr (alias, known))) =
    let kept : update registers 0 v 1 ≡ registers 1 = ground arith in
    inr (inr (alias, kept ∙ known))
EntryOk-register highest slot type i (suc zero) v registers two free (inr (inr (alias, known))) =
    absurd (omega arith)
EntryOk-register highest slot type i (suc (suc r)) v registers two free (inr (inr (alias, known))) =
    absurd (omega arith)

EntryOk-alias :
    (highest type i r : ℕ) (registers : ℕ → ℕ)
    → r < 2
    → registers r ≡ suc i
    → EntryOk highest (alias_of r) type i registers
EntryOk-alias highest type i zero registers two known = inr (inl (refl, known))
EntryOk-alias highest type i (suc zero) registers two known = inr (inr (refl, known))
EntryOk-alias highest type i (suc (suc r)) registers two known = absurd (omega arith)

pub alias_of-high : (r : ℕ) → reg0_slot_alias ≤ alias_of r
alias_of-high zero = omega arith
alias_of-high (suc r) = omega arith

module _ (o : Compilation) (type r : ℕ) (two : r < 2) where
  pub with_register-IsCounted :
      {outside : ℕ → ℕ}
      → IsCounted outside o
      → o.reg_stack_index_plus_one r ≡ 0
      → type ≢ type_v128
      → o.stack_index < max_function_stack_height
      → IsCounted outside (with_register o type r)
  with_register-IsCounted {outside} c free narrow room = record {
    low = let l = c.low in omega arith;
    high = omega arith;
    highest = c.highest;
    bytes = c.bytes;
    counts = λ j first.
        let now =
          uses-push o.wasm_stack o.type_stack o.slot_first_dynamic_index o.block.block_stack_index
            o.stack_index (alias_of r) type j c.low in
        let uncounted =
          covers-alias o.slot_first_dynamic_index (alias_of r) type j (alias_of-high r) in
        let before = c.counts j first in rw (now, uncounted) (omega arith);
    entries = λ i from below.
        EntryOk-update o.slot_max_allocated_index_plus_one o.wasm_stack o.type_stack o.stack_index
          (alias_of r) type i (update o.reg_stack_index_plus_one r (o.stack_index + 1))
          (λ top.
            EntryOk-alias o.slot_max_allocated_index_plus_one type i r
              (update o.reg_stack_index_plus_one r (o.stack_index + 1)) two (ground arith))
          (λ apart.
            EntryOk-register o.slot_max_allocated_index_plus_one (o.wasm_stack i) (o.type_stack i) i
              r (o.stack_index + 1) o.reg_stack_index_plus_one two free
              (c.entries i from (omega arith)));
    narrow = λ i from below.
        narrow-update o.type_stack o.stack_index type i narrow
          (λ apart. c.narrow i from (omega arith));
    registers = λ s small used. elim (Bool-cases (s == r)) [
      | inl same ↦
          let same : s ≡ r = ground arith in
          let known : update o.reg_stack_index_plus_one r (o.stack_index + 1) s
              ≡ o.stack_index + 1 =
            ground arith in
          let top : update o.wasm_stack o.stack_index (alias_of r) (o.stack_index + 1 - 1)
              ≡ alias_of r =
            ground arith in
          let low = c.low in rw known (omega arith, omega arith, top ∙ ap alias_of (sym same))
      | inr apart ↦
          let kept : update o.reg_stack_index_plus_one r (o.stack_index + 1) s
              ≡ o.reg_stack_index_plus_one s =
            ground arith in
          let (from, to, alias) = c.registers s small (rw kept at used) in
          let lower : update o.wasm_stack o.stack_index (alias_of r)
                (o.reg_stack_index_plus_one s - 1)
              ≡ o.wasm_stack (o.reg_stack_index_plus_one s - 1) =
            ground arith in
          rw kept (from, omega arith, lower ∙ alias)
    ];
  }
