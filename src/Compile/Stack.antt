-- ===== src/Compile/Stack.antt =====
-- cpp/m3_compile.h and cpp/m3_compile.c, the compiler's stack of value locations and the two
-- registers: reading it, pushing and popping.
use react_native_webassembly.Common.{
  ℕ, zero, suc, ◌+◌, ◌-◌, ◌^◌, Bool, true, false, ◌&&◌, ◌||◌, not, Option, none, some, ltb, leb,
  ◌==◌, if◌then◌else◌, u16,
}
use react_native_webassembly.Results.{
  ok, err, function_stack_overflow, function_stack_underrun, type_mismatch,
}
use react_native_webassembly.Core.ValueType.{type_none, type_i64, type_f64, is_fp_type}
use react_native_webassembly.Compile.State.{
  Compilation, Compile, ◌>>=◌, ◌>>◌, return, throw, modify, continue, update,
  max_function_stack_height, reg0_slot_alias, fp0_slot_alias, slot_unused, register_unallocated,
}
use react_native_webassembly.Compile.Slots.{get_type_num_slots, allocate_slots, deallocate_slot}
use react_native_webassembly.Compile.Emit.{Target, by_type, op_set_slot, emit_op, emit_slot_offset}

-- `IsRegisterSlotAlias`, `IsFpRegisterSlotAlias`, and the register that an alias stands for.
abbrev pub is_register_slot_alias : ℕ → Bool
is_register_slot_alias slot = leb reg0_slot_alias slot && not (slot == slot_unused)

abbrev pub is_fp_register_slot_alias : ℕ → Bool
is_fp_register_slot_alias slot = slot == fp0_slot_alias

abbrev pub reg_select : Bool → ℕ
reg_select is_fp = if is_fp then 1 else 0

abbrev pub is_register_allocated : Compilation → ℕ → Bool
is_register_allocated o register = not (o.reg_stack_index_plus_one register == register_unallocated)

-- `AllocateRegister`, `DeallocateRegister`, `GetRegisterStackIndex`
abbrev pub allocate_register : ℕ → ℕ → Compilation → Compilation
allocate_register register stack_index o = record o {
  reg_stack_index_plus_one = update o.reg_stack_index_plus_one register (u16 (stack_index + 1));
}

abbrev pub deallocate_register : ℕ → Compilation → Compilation
deallocate_register register o = record o {
  reg_stack_index_plus_one = update o.reg_stack_index_plus_one register register_unallocated;
}

abbrev pub get_register_stack_index : Compilation → ℕ → ℕ
get_register_stack_index o register = u16 (o.reg_stack_index_plus_one register + (2 ^ 16 - 1))

-- `GetStackTopIndex`; `none` is -1.
unfoldable pub get_stack_top_index : Compilation → Option ℕ
get_stack_top_index o = if o.stack_index == 0 then none else some (o.stack_index - 1)

-- `GetStackTypeFromTop`: the items below `stack_first_dynamic_index` are hidden.
unfoldable pub get_stack_type_from_top : Compilation → ℕ → ℕ
get_stack_type_from_top o offset =
    let from_top = u16 (offset + 1) in
    let index = o.stack_index - from_top in
    if leb from_top o.stack_index && leb o.stack_first_dynamic_index index
    then o.type_stack index
    else type_none

abbrev pub get_stack_top_type : Compilation → ℕ
get_stack_top_type o = get_stack_type_from_top o 0

-- `GetStackTypeFromBottom`
unfoldable pub get_stack_type_from_bottom : Compilation → ℕ → ℕ
get_stack_type_from_bottom o offset =
    if ltb offset o.stack_index then o.type_stack offset else type_none

-- `IsStackIndexInRegister`; a negative index is `none`.
unfoldable pub is_stack_index_in_register : Compilation → Option ℕ → Bool
is_stack_index_in_register o none = false
is_stack_index_in_register o (some i) = ltb i o.stack_index && leb reg0_slot_alias (o.wasm_stack i)

-- The index that many places below the top, or `none` below the bottom.
abbrev pub below_top : Compilation → ℕ → Option ℕ
below_top o places = if ltb places o.stack_index then some (o.stack_index - suc places) else none

-- `IsStackTopInRegister`, `IsStackTopMinus1InRegister`, `IsStackTopMinus2InRegister`
abbrev pub is_stack_top_in_register : Compilation → Bool
is_stack_top_in_register o = is_stack_index_in_register o (below_top o 0)

abbrev pub is_stack_top_minus_1_in_register : Compilation → Bool
is_stack_top_minus_1_in_register o = is_stack_index_in_register o (below_top o 1)

abbrev pub is_stack_top_minus_2_in_register : Compilation → Bool
is_stack_top_minus_2_in_register o = is_stack_index_in_register o (below_top o 2)

abbrev pub is_stack_top_in_slot : Compilation → Bool
is_stack_top_in_slot o = not (is_stack_top_in_register o)

abbrev pub is_stack_polymorphic : Compilation → Bool
is_stack_polymorphic o = o.block.is_polymorphic

-- `GetNumBlockValuesOnStack`
abbrev pub get_num_block_values_on_stack : Compilation → ℕ
get_num_block_values_on_stack o = u16 (o.stack_index + (2 ^ 16 - o.block.block_stack_index))

abbrev pub slot_at : Compilation → Option ℕ → ℕ
slot_at o none = slot_unused
slot_at o (some i) = o.wasm_stack i

-- `GetStackTopSlotNumber`
unfoldable pub get_stack_top_slot_number : Compilation → ℕ
unfolding get_stack_top_index
get_stack_top_slot_number o = slot_at o (get_stack_top_index o)

-- `GetSlotForStackIndex`
unfoldable pub get_slot_for_stack_index : Compilation → ℕ → ℕ
get_slot_for_stack_index o stack_index =
    if ltb stack_index o.stack_index then o.wasm_stack stack_index else slot_unused

-- `GetExtraSlotForStackIndex`
unfoldable pub get_extra_slot_for_stack_index : Compilation → ℕ → ℕ
unfolding get_slot_for_stack_index get_stack_type_from_bottom
get_extra_slot_for_stack_index o stack_index =
    let base_slot = get_slot_for_stack_index o stack_index in
    let type = get_stack_type_from_bottom o stack_index in
    if base_slot == slot_unused then base_slot else u16 (base_slot + (get_type_num_slots type - 1))

-- The entry that `Push` writes, and the register that it stands for.
abbrev pub write_entry : ℕ → ℕ → ℕ → Compilation → Compilation
write_entry stack_index type slot o =
    let o' = record o {
      stack_index = u16 (stack_index + 1);
      wasm_stack = update o.wasm_stack stack_index slot;
      type_stack = update o.type_stack stack_index type;
    } in
    if is_register_slot_alias slot
    then allocate_register (reg_select (is_fp_register_slot_alias slot)) stack_index o'
    else o'

-- `Push`: the stack index moves also where the stack is full.
unfoldable pub push : ℕ → ℕ → Compile (Unit {0})
push type slot o =
    if ltb o.stack_index max_function_stack_height
    then (write_entry o.stack_index type slot o, ok tt)
    else (record o { stack_index = u16 (o.stack_index + 1) }, err function_stack_overflow)

-- `PushRegister`
unfoldable pub push_register : ℕ → Compile (Unit {0})
unfolding push
push_register type = push type (if is_fp_type type then fp0_slot_alias else reg0_slot_alias)

-- What `Pop` gives back once the entry is taken.
abbrev pub release_entry : ℕ → ℕ → Compile (Unit {0})
release_entry slot type o =
    if is_register_slot_alias slot
    then (deallocate_register (reg_select (is_fp_register_slot_alias slot)) o, ok tt)
    else if leb o.slot_max_allocated_index_plus_one slot
    then (o, err function_stack_underrun)
    else if leb o.slot_first_dynamic_index slot
    then (deallocate_slot slot type o, ok tt)
    else (o, ok tt)

-- `Pop`
unfoldable pub pop : Compile (Unit {0})
pop o =
    let top = o.stack_index - 1 in
    if ltb o.block.block_stack_index o.stack_index
    then release_entry (o.wasm_stack top) (o.type_stack top) (record o { stack_index = top })
    else if is_stack_polymorphic o
    then (o, ok tt)
    else (o, err function_stack_underrun)

-- `PopType`
unfoldable pub pop_type : ℕ → Compile (Unit {0})
unfolding pop get_stack_type_from_top
pop_type type o =
    if type == get_stack_top_type o || is_stack_polymorphic o then pop o else (o, err type_mismatch)

-- `_PushAllocatedSlotAndEmit`
unfoldable pub push_allocated_slot_and_emit_if : Bool → ℕ → Compile (Unit {0})
unfolding allocate_slots push emit_slot_offset
push_allocated_slot_and_emit_if emits type = do
  slot ← allocate_slots type
  push type slot
  modify (if emits then emit_slot_offset slot else λ o. o)

abbrev pub push_allocated_slot_and_emit : ℕ → Compile (Unit {0})
push_allocated_slot_and_emit = push_allocated_slot_and_emit_if true

abbrev pub push_allocated_slot : ℕ → Compile (Unit {0})
push_allocated_slot = push_allocated_slot_and_emit_if false

-- The loop of `UnwindBlockStack`, on fuel for a turn each.
unfoldable pub unwind_from : ℕ → Compile (Unit {0})
unfolding pop
unwind_from zero o = (o, ok tt)
unwind_from (suc fuel) o =
    let rest = continue (pop o) (λ _. unwind_from fuel) in
    if ltb o.block.block_stack_index o.stack_index then rest else (o, ok tt)

-- `UnwindBlockStack`
unfoldable pub unwind_block_stack : Compile (Unit {0})
unfolding unwind_from
unwind_block_stack o = unwind_from o.stack_index o

-- `SetStackPolymorphic`
unfoldable pub set_stack_polymorphic : Compile (Unit {0})
unfolding unwind_block_stack
set_stack_polymorphic o =
    unwind_block_stack (record o { block = record o.block { is_polymorphic = true } })

module _ (target : Target) where
  -- The entry at the index stands for the slot from now on, and the value is copied there.
  unfoldable pub move_entry : ℕ → ℕ → ℕ → Compile (Unit {0})
  unfolding emit_op emit_slot_offset
  move_entry stack_index type slot = do
    modify (λ p. record p { wasm_stack = update p.wasm_stack stack_index slot })
    if ltb type 5 then emit_op target (by_type op_set_slot type) else throw function_stack_overflow
    modify (emit_slot_offset slot)

  unfoldable pub preserve_entry : ℕ → ℕ → Compile (Unit {0})
  unfolding move_entry allocate_slots
  preserve_entry stack_index type o = continue (allocate_slots type o) (move_entry stack_index type)

  -- The entry of a register moves to a slot of the frame.
  unfoldable pub preserve_register : ℕ → Compile (Unit {0})
  unfolding get_stack_type_from_bottom preserve_entry
  preserve_register register o =
      let stack_index = get_register_stack_index o register in
      preserve_entry stack_index (get_stack_type_from_bottom o stack_index)
        (deallocate_register register o)

  -- `PreserveRegisterIfOccupied`
  unfoldable pub preserve_register_if_occupied : ℕ → Compile (Unit {0})
  unfolding preserve_register
  preserve_register_if_occupied register_type o =
      let register = reg_select (is_fp_type register_type) in
      if is_register_allocated o register then preserve_register register o else (o, ok tt)

  -- `PreserveRegisters`
  unfoldable pub preserve_registers : Compile (Unit {0})
  unfolding preserve_register_if_occupied
  preserve_registers = do
    preserve_register_if_occupied type_f64
    preserve_register_if_occupied type_i64

  -- Keep the register where the top of the stack is in it, or nothing is.
  abbrev pub preserve_unless_top : ℕ → ℕ → ℕ → Compile (Unit {0})
  preserve_unless_top stack_top register register_type o =
      if is_register_allocated o register && not (get_register_stack_index o register == stack_top)
      then preserve_register_if_occupied register_type o
      else (o, ok tt)

  abbrev pub preserve_all_but : Option ℕ → Compile (Unit {0})
  preserve_all_but none = return tt
  preserve_all_but (some stack_top) = do
    preserve_unless_top stack_top 0 type_i64
    preserve_unless_top stack_top 1 type_f64

  -- `PreserveNonTopRegisters`
  unfoldable pub preserve_non_top_registers : Compile (Unit {0})
  unfolding preserve_register_if_occupied get_stack_top_index
  preserve_non_top_registers o = preserve_all_but (get_stack_top_index o) o
