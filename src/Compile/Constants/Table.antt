-- ===== src/Compile/Constants/Table.antt =====
-- cpp/m3_compile.c, `PushConst`: a constant that is in the table, or that gets a place in it.
use react_native_webassembly.Common.{
  ℕ, ◌+◌, ◌-◌, ◌*◌, ◌/◌, ◌^◌, ◌≤◌, ◌<◌, ◌≡◌, refl, ap, ◌∙◌, arith, Bool, true, false, max, ltb,
  if◌then◌else◌, if-by, u16, u32,
}
use react_native_webassembly.Core.ValueType.{is_64bit_type}
use react_native_webassembly.Compile.State.{
  Compilation, Then, then_ok, then_err, Then-continue, Then-weaken, update, max_function_slots,
  max_function_stack_height,
}
use react_native_webassembly.Compile.Slots.{get_type_num_slots}
use react_native_webassembly.Compile.Slots.Search.{get_type_num_slots-positive}
use react_native_webassembly.Compile.Stack.{push, write_entry, is_register_slot_alias}
use react_native_webassembly.Compile.Constants.{read_constant, write_constant, add_constant}
use react_native_webassembly.Compile.Constants.Search.{HoldsConstant}

-- What an operation of the type reads of a word.
abbrev pub value_of : Bool → ℕ → ℕ
value_of wide word = if wide then word else u32 word

-- The entry on top has the type, and stands for a slot of the table with that value.
pub record InTable (p : Compilation) (type word : ℕ) : Type 0 where
  pub typed : p.type_stack (p.stack_index - 1) ≡ type
  pub low : p.slot_first_const_index ≤ p.wasm_stack (p.stack_index - 1)
  pub high : p.wasm_stack (p.stack_index - 1) < p.slot_max_const_index
  pub value :
      value_of (is_64bit_type type) (
        read_constant p
          (is_64bit_type type)
          (p.wasm_stack (p.stack_index - 1) - p.slot_first_const_index))
      ≡ value_of (is_64bit_type type) word

-- What a push leaves: the entry on top, and the table and the page as before.
pub record PushedTop (o p : Compilation) (type slot : ℕ) : Type 0 where
  pub slot_on_top : p.wasm_stack (p.stack_index - 1) ≡ slot
  pub type_on_top : p.type_stack (p.stack_index - 1) ≡ type
  pub first_kept : p.slot_first_const_index ≡ o.slot_first_const_index
  pub max_kept : p.slot_max_const_index ≡ o.slot_max_const_index
  pub dynamic_kept : p.slot_first_dynamic_index ≡ o.slot_first_dynamic_index
  pub constants_kept : p.constants ≡ o.constants
  pub page_kept : p.page ≡ o.page

write_entry-PushedTop :
    (o : Compilation) (type slot : ℕ)
    → o.stack_index < max_function_stack_height
    → PushedTop o (write_entry o.stack_index type slot o) type slot
write_entry-PushedTop o type slot room =
    let here : u16 (o.stack_index + 1) - 1 ≡ o.stack_index = omega arith in
    let slot_now : update o.wasm_stack o.stack_index slot o.stack_index ≡ slot = ground arith in
    let type_now : update o.type_stack o.stack_index type o.stack_index ≡ type = ground arith in
    if-by (λ p. PushedTop o p type slot) (is_register_slot_alias slot)
      (λ alias. record {
        slot_on_top = rw here slot_now;
        type_on_top = rw here type_now;
        first_kept = refl;
        max_kept = refl;
        dynamic_kept = refl;
        constants_kept = refl;
        page_kept = refl;
      })
      (λ plain. record {
        slot_on_top = rw here slot_now;
        type_on_top = rw here type_now;
        first_kept = refl;
        max_kept = refl;
        dynamic_kept = refl;
        constants_kept = refl;
        page_kept = refl;
      })

pub push-PushedTop :
    (o : Compilation) (type slot : ℕ) → Then (λ p _. PushedTop o p type slot) (push type slot o)
unfolding push
push-PushedTop o type slot =
    if-by (Then (λ (p : Compilation) (_ : Unit {0}). PushedTop o p type slot))
      (ltb o.stack_index max_function_stack_height)
      (λ room. then_ok (write_entry-PushedTop o type slot (ground arith))) (λ full. then_err)

read_constant-cong :
    (o p : Compilation) (wide : Bool) (i : ℕ)
    → p.constants ≡ o.constants
    → read_constant p wide i ≡ read_constant o wide i
read_constant-cong o p true i e = ap (λ (f : ℕ → ℕ). f i + 2 ^ 32 * f (i + 1)) e
read_constant-cong o p false i e = ap (λ (f : ℕ → ℕ). f i) e

write_constant-read :
    (o : Compilation) (wide : Bool) (i word : ℕ)
    → word < 2 ^ 64
    → value_of wide (read_constant (write_constant wide i word o) wide i) ≡ value_of wide word
write_constant-read o true i word small =
    let low : update (update o.constants i (u32 word)) (i + 1) (u32 (word / 2 ^ 32)) i ≡ u32 word =
      ground arith in
    let high : update (update o.constants i (u32 word)) (i + 1) (u32 (word / 2 ^ 32)) (i + 1)
        ≡ u32 (word / 2 ^ 32) =
      ground arith in
    rw (low, high) (omega arith)
write_constant-read o false i word small =
    let now : update o.constants i (u32 word) i ≡ u32 word = ground arith in rw now (omega arith)

-- A constant that is in the table already.
pub reuse-InTable :
    (o : Compilation) (word type slot : ℕ)
    → HoldsConstant o (is_64bit_type type) word slot
    → Then (λ p _. InTable p type word) (push type slot o)
reuse-InTable o word type slot (low, high, same) =
    Then-weaken _ (push-PushedTop o type slot) (λ p _ t.
      let top = t.slot_on_top in
      let first = t.first_kept in
      let highest = t.max_kept in
      let index : p.wasm_stack (p.stack_index - 1) - p.slot_first_const_index
          ≡ slot - o.slot_first_const_index =
        omega arith in
      let value =
        ap (read_constant p (is_64bit_type type)) index
        ∙ read_constant-cong o p (is_64bit_type type) (slot - o.slot_first_const_index)
            t.constants_kept
        ∙ same in
      record {
        typed = t.type_on_top;
        low = omega arith;
        high = omega arith;
        value = ap (value_of (is_64bit_type type)) value;
      })

read_constant-max :
    (p : Compilation) (wide : Bool) (i highest : ℕ)
    → read_constant (record p { slot_max_const_index = highest }) wide i ≡ read_constant p wide i
read_constant-max p true i highest = refl
read_constant-max p false i highest = refl

write_constant-table :
    (o : Compilation) (wide : Bool) (i word : ℕ)
    → ((write_constant wide i word o).slot_first_const_index ≡ o.slot_first_const_index)
      × ((write_constant wide i word o).slot_max_const_index ≡ o.slot_max_const_index)
write_constant-table o true i word = (refl, refl)
write_constant-table o false i word = (refl, refl)

-- A constant that gets a slot of the table.
pub add-InTable :
    (o : Compilation) (word type slot : ℕ)
    → word < 2 ^ 64
    → o.slot_first_const_index ≤ slot
    → slot + get_type_num_slots type ≤ max_function_slots
    → o.slot_max_const_index ≤ max_function_slots
    → Then (λ p _. InTable p type word) (add_constant word type slot o)
unfolding add_constant
add-InTable o word type slot small low fits table =
    let wide = is_64bit_type type in
    let i = slot - o.slot_first_const_index in
    let cast : u16 i ≡ i = omega arith in
    let pos = get_type_num_slots-positive type in
    let (first_kept, max_kept) = write_constant-table o wide (u16 i) word in
    let written = write_constant wide (u16 i) word o in
    Then-continue _ (push-PushedTop written type slot) (λ p _ t.
      let top = t.slot_on_top in
      let first = t.first_kept in
      let highest = t.max_kept in
      let index : p.wasm_stack (p.stack_index - 1) - p.slot_first_const_index ≡ u16 i =
        omega arith in
      let value =
        ap (read_constant p wide) index
        ∙ read_constant-cong written p wide (u16 i) t.constants_kept in
      then_ok (record {
        typed = t.type_on_top;
        low = omega arith;
        high = omega arith;
        value =
            ap (value_of wide) (
              read_constant-max p wide (p.wasm_stack (p.stack_index - 1) - p.slot_first_const_index)
                (u16 (max (slot + get_type_num_slots type) p.slot_max_const_index))
              ∙ value)
            ∙ write_constant-read o wide (u16 i) word small;
      }))
