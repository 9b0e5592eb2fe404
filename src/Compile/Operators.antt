-- ===== src/Compile/Operators.antt =====
-- cpp/m3_compile.c, the compilers of single instructions: operators, conversions, loads and stores,
-- select, drop, globals and the operations on linear memory.
use react_native_webassembly.Common.{
  ℕ, ◌+◌, ◌*◌, Bool, false, ◌&&◌, ◌||◌, not, Option, none, some, leb, ◌==◌, if◌then◌else◌,
  get_elem?,
}
use react_native_webassembly.Results.{
  ok, err, unknown_opcode, no_operation_for_opcode, function_stack_underrun,
  setting_immutable_global, global_index_out_of_bounds,
}
use react_native_webassembly.Core.Leb.{read_leb_i7, try_leb}
use react_native_webassembly.Core.ValueType.{
  type_none, type_i32, type_f64, is_fp_type, is_int_type, is_64bit_type,
}
use react_native_webassembly.Module.{Global}
use react_native_webassembly.Compile.State.{
  Compilation, Compile, ◌>>=◌, ◌>>◌, return, throw, modify, gets, continue, max_function_slots,
  slot_unused,
}
use react_native_webassembly.Compile.Emit.{
  Operation, Target, by_type, null_operation, op_get_global_s32, op_get_global_s64,
  op_set_global_s32, op_set_global_s64, op_set_global, op_unreachable, op_int_select, op_fp_select,
  op_mem_size, op_mem_grow, op_mem_copy, op_mem_fill, emit_op, emit_slot_offset, emit_pointer,
  emit_constant32,
}
use react_native_webassembly.Compile.Stack.{
  get_stack_type_from_top, get_stack_top_type, get_stack_top_slot_number,
  is_stack_index_in_register, is_stack_top_in_register, is_stack_top_minus_1_in_register,
  is_stack_top_minus_2_in_register, is_stack_top_in_slot, is_register_allocated, reg_select,
  is_stack_polymorphic, pop, pop_type, push_register, push_allocated_slot_and_emit,
  preserve_register_if_occupied, set_stack_polymorphic,
}
use react_native_webassembly.Compile.Copy.{
  emit_slot_num_of_stack_top_and_pop, emit_slot_unless, copy_stack_top_to_register,
}
use react_native_webassembly.Compile.Locals.{next_u32, advance}

-- `M3OpInfo`: whether `stackOffset` is zero and whether it is negative, the type, and the operations,
-- `none` for NULL.
pub record OpInfo : Type 0 where
  pub offset_is_zero : Bool
  pub offset_is_negative : Bool
  pub type : ℕ
  pub operations : ℕ → Option Operation

abbrev pub opcode_get_global : ℕ
opcode_get_global = 0x23

abbrev pub opcode_memory_copy : ℕ
opcode_memory_copy = 0xfc0a

unfoldable pub next_i7 : Compile ℕ
unfolding read_leb_i7
next_i7 o = advance (try_leb (read_leb_i7 o.wasm)) o

module _ (target : Target) where
  -- Registers move out of the way where the operation does not consume them.
  abbrev pub preserve_if : Bool → ℕ → Compile (Unit {0})
  preserve_if needed type o =
      if needed then preserve_register_if_occupied target type o else (o, ok tt)

  -- The operation for the places of the two operands on top of the stack.
  abbrev pub select_operation : OpInfo → Compilation → Option Operation
  select_operation info o =
      if info.offset_is_zero
      then if is_stack_top_in_register o then info.operations 0 else info.operations 1
      else if is_stack_top_in_register o
      then if is_stack_top_minus_1_in_register o then info.operations 3 else info.operations 0
      else if is_stack_top_minus_1_in_register o
      then elim (info.operations 1) [ none ↦ info.operations 0 | some op ↦ some op ]
      else info.operations 2

  -- No operand is in a register.
  abbrev pub needs_register : OpInfo → Compilation → Bool
  needs_register info o =
      not (is_stack_top_in_register o)
      && (info.offset_is_zero || not (is_stack_top_minus_1_in_register o))

  abbrev pub emit_operator : OpInfo → Option Operation → Compile (Unit {0})
  emit_operator info none = throw no_operation_for_opcode
  emit_operator info (some op) = do
    emit_op target op
    emit_slot_num_of_stack_top_and_pop
    if info.offset_is_negative then emit_slot_num_of_stack_top_and_pop else return tt
    if info.type == type_none then return tt else push_register info.type

  -- `Compile_Operator`
  unfoldable pub compile_operator : Option OpInfo → Compile (Unit {0})
  unfolding preserve_register_if_occupied get_stack_type_from_top is_stack_index_in_register emit_op
      emit_slot_num_of_stack_top_and_pop push_register is_fp_type is_int_type
  compile_operator none = throw unknown_opcode
  compile_operator (some info) = do
    compares ← gets (λ o. is_fp_type (get_stack_top_type o) && is_int_type info.type)
    preserve_if compares info.type
    op ← gets (select_operation info)
    needed ← gets (needs_register info)
    preserve_if needed info.type
    emit_operator info op

  abbrev pub operation_or_null : Option Operation → Operation
  operation_or_null none = null_operation
  operation_or_null (some op) = op

  -- `Compile_Convert`
  unfoldable pub compile_convert : Option OpInfo → Compile (Unit {0})
  unfolding emit_op emit_slot_num_of_stack_top_and_pop push_register is_fp_type
      is_stack_index_in_register
  compile_convert none = throw unknown_opcode
  compile_convert (some info) = do
    dest_in_slot ← gets (λ o. is_register_allocated o (reg_select (is_fp_type info.type)))
    source_in_slot ← gets is_stack_top_in_slot
    emit_op target (
        operation_or_null
          (info.operations (reg_select dest_in_slot * 2 + reg_select source_in_slot)))
    emit_slot_num_of_stack_top_and_pop
    if dest_in_slot then push_allocated_slot_and_emit info.type else push_register info.type

  -- `Compile_Load_Store`
  unfoldable pub compile_load_store : Option OpInfo → Compile (Unit {0})
  unfolding next_u32 compile_operator emit_constant32 is_fp_type
  compile_load_store info = do
    align_hint ← next_u32
    memory_offset ← next_u32
    preserve_if (elim info [ none ↦ false | some i ↦ is_fp_type i.type ]) type_f64
    compile_operator info
    modify (emit_constant32 memory_offset)

  -- An operand of select: the place of the one in a register, or its slot.
  abbrev pub take_operand : ℕ → ℕ → Compile (ℕ × ℕ)
  take_operand i op_index o =
      let taken =
        if is_stack_top_in_register o
        then (i, slot_unused)
        else (op_index, get_stack_top_slot_number o) in
      continue (pop o) (λ _. return taken)

  -- `EmitSlotOffset` where `IsValidSlot`.
  abbrev pub emit_valid_slot : ℕ → Compile (Unit {0})
  emit_valid_slot slot = emit_slot_unless (leb max_function_slots slot) slot

  -- The status of `EmitOp` is dropped.
  abbrev pub emit_select : Operation → ℕ → ℕ → ℕ → ℕ → Compile (Unit {0})
  emit_select op type slot₀ slot₁ slot₂ = do
    modify (λ o. (emit_op target op o).0)
    emit_valid_slot slot₀
    emit_valid_slot slot₁
    emit_valid_slot slot₂
    push_register type

  -- Select between floats; the selector may be in the other register.
  unfoldable pub compile_fp_select : ℕ → Compile (Unit {0})
  unfolding preserve_register_if_occupied is_stack_index_in_register get_stack_top_slot_number pop
      emit_op emit_slot_offset push_register
  compile_fp_select type = do
    consumes ← gets (λ o. is_stack_top_minus_1_in_register o || is_stack_top_minus_2_in_register o)
    preserve_if (not consumes) type
    selector_in_reg ← gets is_stack_top_in_register
    slot₀ ← gets get_stack_top_slot_number
    pop
    (index₁, slot₁) ← take_operand 1 0
    (index₂, slot₂) ← take_operand 2 index₁
    emit_select (op_fp_select type selector_in_reg index₂) type slot₀ slot₁ slot₂

  -- Select between integers.
  unfoldable pub compile_int_select : ℕ → Compile (Unit {0})
  unfolding preserve_register_if_occupied is_stack_index_in_register get_stack_top_slot_number pop
      emit_op emit_slot_offset push_register
  compile_int_select type = do
    consumes ← gets (λ o.
        is_stack_top_in_register o
        || (is_stack_top_minus_1_in_register o || is_stack_top_minus_2_in_register o))
    preserve_if (not consumes) type
    (index₀, slot₀) ← take_operand 0 3
    (index₁, slot₁) ← take_operand 1 index₀
    (index₂, slot₂) ← take_operand 2 index₁
    emit_select (op_int_select type index₂) type slot₀ slot₁ slot₂

  -- `Compile_Select`; on a polymorphic stack the operation may be NULL.
  unfoldable pub compile_select : Compile (Unit {0})
  unfolding compile_fp_select compile_int_select get_stack_type_from_top is_fp_type is_int_type
  compile_select o =
      let type = get_stack_type_from_top o 1 in
      if is_fp_type type
      then compile_fp_select type o
      else if is_int_type type
      then compile_int_select type o
      else if is_stack_polymorphic o
      then emit_select null_operation type slot_unused slot_unused slot_unused o
      else (o, err function_stack_underrun)

  -- `Compile_Unreachable`
  unfoldable pub compile_unreachable : Compile (Unit {0})
  unfolding emit_op set_stack_polymorphic
  compile_unreachable = do emit_op target op_unreachable; set_stack_polymorphic

  -- `Compile_GetGlobal`
  unfoldable pub compile_get_global : ℕ → Global → Compile (Unit {0})
  unfolding emit_op emit_pointer is_64bit_type
  compile_get_global index global = do
    emit_op target (if is_64bit_type global.type then op_get_global_s64 else op_get_global_s32)
    modify (emit_pointer (target.address_of_global index))
    push_allocated_slot_and_emit global.type

  abbrev pub set_global_operation : Compilation → Operation
  set_global_operation o =
      let type = get_stack_top_type o in
      if is_stack_top_in_register o
      then by_type op_set_global type
      else if is_64bit_type type
      then op_set_global_s64
      else op_set_global_s32

  -- `Compile_SetGlobal`
  unfoldable pub compile_set_global : ℕ → Global → Compile (Unit {0})
  unfolding emit_op emit_pointer emit_slot_num_of_stack_top_and_pop get_stack_type_from_top
      is_64bit_type is_stack_index_in_register
  compile_set_global index global =
      let store : Compile (Unit {0}) = do
        op ← gets set_global_operation
        emit_op target op
        modify (emit_pointer (target.address_of_global index))
        emit_slot_num_of_stack_top_and_pop
      in if global.is_mutable then store else throw setting_immutable_global

  abbrev pub on_global : ℕ → ℕ → Option Global → Compile (Unit {0})
  on_global opcode index none = throw global_index_out_of_bounds
  on_global opcode index (some global) =
      if opcode == opcode_get_global
      then compile_get_global index global
      else compile_set_global index global

  -- `Compile_GetSetGlobal`
  unfoldable pub compile_get_set_global : ℕ → Compile (Unit {0})
  unfolding next_u32 compile_get_global compile_set_global
  compile_get_set_global opcode = do
    index ← next_u32
    global ← gets (λ o. get_elem? o.wasm_module.globals index)
    on_global opcode index global

  -- `Compile_Memory_Size`
  unfoldable pub compile_memory_size : Compile (Unit {0})
  unfolding next_i7 preserve_register_if_occupied emit_op push_register
  compile_memory_size = do
    reserved ← next_i7
    preserve_register_if_occupied target type_i32
    emit_op target op_mem_size
    push_register type_i32

  -- `Compile_Memory_Grow`
  unfoldable pub compile_memory_grow : Compile (Unit {0})
  unfolding next_i7 copy_stack_top_to_register pop_type emit_op push_register
  compile_memory_grow = do
    reserved ← next_i7
    copy_stack_top_to_register target false
    pop_type type_i32
    emit_op target op_mem_grow
    push_register type_i32

  -- `Compile_Memory_CopyFill`
  unfoldable pub compile_memory_copy_fill : ℕ → Compile (Unit {0})
  unfolding next_u32 copy_stack_top_to_register emit_op pop_type emit_slot_num_of_stack_top_and_pop
  compile_memory_copy_fill opcode = do
    source_memory ← if opcode == opcode_memory_copy then next_u32 else return 0
    target_memory ← next_u32
    copy_stack_top_to_register target false
    emit_op target (if opcode == opcode_memory_copy then op_mem_copy else op_mem_fill)
    pop_type type_i32
    emit_slot_num_of_stack_top_and_pop
    emit_slot_num_of_stack_top_and_pop
