-- ===== src/Compile/Copy.antt =====
-- cpp/m3_compile.c, copies between slots: of single values, of the results of a block and of the
-- values that a function returns.
pub mod BlockResults
use react_native_webassembly.Common.{
  ℕ, ◌+◌, ◌-◌, ◌^◌, Bool, true, false, ◌||◌, not, Option, some, ltb, ◌==◌, if◌then◌else◌, u16,
}
use react_native_webassembly.Results.{Result, ok, err}
use react_native_webassembly.Core.ValueType.{is_64bit_type}
use react_native_webassembly.Compile.State.{
  Compilation, Compile, ◌>>=◌, ◌>>◌, return, modify, gets, continue,
}
use react_native_webassembly.Compile.Emit.{
  Operation, Target, by_type, op_set_slot, op_preserve_set_slot, op_set_register, op_copy_slot_32,
  op_copy_slot_64, op_preserve_copy_slot_32, op_preserve_copy_slot_64, emit_op, emit_slot_offset,
}
use react_native_webassembly.Compile.Stack.{
  get_stack_type_from_bottom, get_stack_top_type, is_stack_index_in_register,
  is_stack_top_in_register, get_slot_for_stack_index, get_stack_top_slot_number, pop, pop_type,
  push_register, preserve_register_if_occupied, get_stack_type_from_top, get_stack_top_index,
}

abbrev pub emit_slot_unless : Bool → ℕ → Compile (Unit {0})
emit_slot_unless in_register slot = modify (if in_register then (λ o. o) else emit_slot_offset slot)

-- `EmitSlotNumOfStackTopAndPop`
unfoldable pub emit_slot_num_of_stack_top_and_pop : Compile (Unit {0})
unfolding emit_slot_offset is_stack_index_in_register get_stack_top_slot_number pop
emit_slot_num_of_stack_top_and_pop o =
    continue (emit_slot_unless (is_stack_top_in_register o) (get_stack_top_slot_number o) o)
      (λ _. pop)

-- The operation that copies a value to a slot.
abbrev pub copy_operation : Bool → ℕ → Operation
copy_operation in_register type =
    if in_register
    then by_type op_set_slot type
    else if is_64bit_type type
    then op_copy_slot_64
    else op_copy_slot_32

abbrev pub preserve_operation : Bool → ℕ → Operation
preserve_operation in_register type =
    if in_register
    then by_type op_preserve_set_slot type
    else if is_64bit_type type
    then op_preserve_copy_slot_64
    else op_preserve_copy_slot_32

module _ (target : Target) where
  -- `CopyStackIndexToSlot`
  unfoldable pub copy_stack_index_to_slot : ℕ → ℕ → Compile (Unit {0})
  unfolding get_stack_type_from_bottom is_stack_index_in_register get_slot_for_stack_index emit_op
      emit_slot_offset is_64bit_type
  copy_stack_index_to_slot dest_slot stack_index o =
      let type = get_stack_type_from_bottom o stack_index in
      let in_register = is_stack_index_in_register o (some stack_index) in
      let src_slot = get_slot_for_stack_index o stack_index in
      continue (emit_op target (copy_operation in_register type) o)
        (λ _. do modify (emit_slot_offset dest_slot); emit_slot_unless in_register src_slot)

  -- `CopyStackTopToSlot`: the index -1 of an empty stack is cast to a u16.
  unfoldable pub copy_stack_top_to_slot : ℕ → Compile (Unit {0})
  unfolding copy_stack_index_to_slot
  copy_stack_top_to_slot dest_slot o =
      copy_stack_index_to_slot dest_slot (u16 (o.stack_index + (2 ^ 16 - 1))) o

  -- `PreservedCopyTopSlot`
  unfoldable pub preserved_copy_top_slot : ℕ → ℕ → Compile (Unit {0})
  unfolding get_stack_type_from_top is_stack_index_in_register get_stack_top_slot_number emit_op
      emit_slot_offset is_64bit_type
  preserved_copy_top_slot dest_slot preserve_slot o =
      let in_register = is_stack_top_in_register o in
      let operation = preserve_operation in_register (get_stack_top_type o) in
      let src_slot = get_stack_top_slot_number o in
      continue (emit_op target operation o) (λ _. do
        modify (emit_slot_offset dest_slot)
        emit_slot_unless in_register src_slot
        modify (emit_slot_offset preserve_slot))

  abbrev pub move_top_to_register : ℕ → Compile (Unit {0})
  move_top_to_register type = do pop_type type; push_register type

  -- `CopyStackTopToRegister`
  unfoldable pub copy_stack_top_to_register : Bool → Compile (Unit {0})
  unfolding get_stack_type_from_top is_stack_index_in_register preserve_register_if_occupied emit_op
      get_stack_top_slot_number emit_slot_offset pop_type push_register
  copy_stack_top_to_register update_stack o =
      let type = get_stack_top_type o in
      let copy : Compile (Unit {0}) = do
        preserve_register_if_occupied target type
        emit_op target (by_type op_set_register type)
        modify (λ p. emit_slot_offset (get_stack_top_slot_number p) p)
        if update_stack then move_top_to_register type else return tt
      in if is_stack_top_in_register o then (o, ok tt) else copy o
