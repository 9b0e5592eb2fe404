-- ===== src/Compile/Counts/Entry.antt =====
-- cpp/m3_compile.c, `Push` and `PushRegister`: what becomes of the accounts.
use react_native_webassembly.Common.{
  ℕ, ◌+◌, ◌≤◌, ◌<◌, ◌≡◌, ◌≢◌, refl, inl, inr, arith, Bool, true, false, if◌then◌else◌, ltb, u16,
  Bool-cases,
}
use react_native_webassembly.Results.{ok, err, function_stack_overflow}
use react_native_webassembly.Core.ValueType.{type_v128, is_fp_type}
use react_native_webassembly.Compile.State.{
  Compilation, Then, then_ok, then_err, max_function_stack_height, reg0_slot_alias, fp0_slot_alias,
}
use react_native_webassembly.Compile.Slots.{get_type_num_slots}
use react_native_webassembly.Compile.Slots.Search.{get_type_num_slots-positive}
use react_native_webassembly.Compile.Stack.{push, push_register, reg_select}
use react_native_webassembly.Compile.Counts.Invariant.{IsCounted}
use react_native_webassembly.Compile.Counts.Push.{and_entry}
use react_native_webassembly.Compile.Counts.Written.{
  with_entry-IsCounted, push-with_entry, with_register, with_register-IsCounted,
}

push-alias :
    (o : Compilation) (type : ℕ) (is_fp : Bool)
    → o.stack_index < max_function_stack_height
    → push type (if is_fp then fp0_slot_alias else reg0_slot_alias) o
      ≡ (with_register o type (reg_select is_fp), ok tt)
unfolding push
push-alias o type true room =
    let here : u16 (o.stack_index + 1) ≡ o.stack_index + 1 = omega arith in
    let fits : ltb o.stack_index max_function_stack_height ≡ true = ground arith in
    rw (fits, here) refl
push-alias o type false room =
    let here : u16 (o.stack_index + 1) ≡ o.stack_index + 1 = omega arith in
    let fits : ltb o.stack_index max_function_stack_height ≡ true = ground arith in
    rw (fits, here) refl

pub push_register-with_register :
    (o : Compilation) (type : ℕ)
    → o.stack_index < max_function_stack_height
    → push_register type o ≡ (with_register o type (reg_select (is_fp_type type)), ok tt)
unfolding push_register
push_register-with_register o type room = push-alias o type (is_fp_type type) room

-- A block's accounts are right, and the block is the same.
abbrev pub Kept : (ℕ → ℕ) → Compilation → Compilation → Unit {0} → Type 0
Kept outside o p _ =
    IsCounted outside p
    × (p.slot_first_dynamic_index ≡ o.slot_first_dynamic_index)
    × (p.block ≡ o.block)

pub push-full :
    (o : Compilation) (type slot : ℕ)
    → max_function_stack_height ≤ o.stack_index
    → push type slot o
      ≡ (record o { stack_index = u16 (o.stack_index + 1) }, err function_stack_overflow)
unfolding push
push-full o type slot h =
    let full : ltb o.stack_index max_function_stack_height ≡ false = ground arith in rw full refl

-- Where a push succeeds, the account for one entry more is settled.
pub push-IsCounted :
    {outside : ℕ → ℕ} (o : Compilation) (type slot : ℕ)
    → IsCounted (and_entry outside o.slot_first_dynamic_index slot type) o
    → slot + get_type_num_slots type ≤ o.slot_max_allocated_index_plus_one
    → type ≢ type_v128
    → Then (Kept outside o) (push type slot o)
push-IsCounted {outside} o type slot c fits narrow =
    elim (Bool-cases (ltb o.stack_index max_function_stack_height)) [
      | inl room ↦
          let highest = c.highest in
          let pos = get_type_num_slots-positive type in
          rw (push-with_entry o type slot (omega arith) (ground arith))
            (then_ok (with_entry-IsCounted o type slot c fits narrow (ground arith), refl, refl))
      | inr full ↦ rw (push-full o type slot (ground arith)) then_err
    ]

pub reg_select-small : (is_fp : Bool) → reg_select is_fp < 2
reg_select-small true = omega arith
reg_select-small false = omega arith

pub push_register-IsCounted :
    {outside : ℕ → ℕ} (o : Compilation) (type : ℕ)
    → IsCounted outside o
    → o.reg_stack_index_plus_one (reg_select (is_fp_type type)) ≡ 0
    → type ≢ type_v128
    → Then (Kept outside o) (push_register type o)
unfolding push_register
push_register-IsCounted o type c free narrow =
    elim (Bool-cases (ltb o.stack_index max_function_stack_height)) [
      | inl room ↦ rw (push_register-with_register o type (ground arith)) (
          then_ok (
            with_register-IsCounted o type (reg_select (is_fp_type type))
                (reg_select-small (is_fp_type type)) c free narrow (ground arith),
            refl,
            refl,
          ))
      | inr full ↦ rw (push-full o type _ (ground arith)) then_err
    ]
