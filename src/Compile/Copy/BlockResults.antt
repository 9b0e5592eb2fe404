-- ===== src/Compile/Copy/BlockResults.antt =====
-- cpp/m3_compile.c, `CopyStackSlotsR`, `ResolveBlockResults` and `ReturnValues`.
use react_native_webassembly.Common.{
  ℕ, zero, suc, ◌+◌, ◌-◌, ◌*◌, ◌^◌, Bool, false, ◌&&◌, ◌||◌, not, Option, none, some, ltb, leb,
  ◌==◌, if◌then◌else◌, u16,
}
use react_native_webassembly.Results.{
  ok, err, function_stack_overflow, type_count_mismatch, type_mismatch,
}
use react_native_webassembly.Core.ValueType.{type_none, type_i64, is_fp_type}
use react_native_webassembly.FuncTypes.{
  get_func_type_num_params, get_func_type_num_results, get_func_type_result_type,
}
use react_native_webassembly.Compile.State.{
  Compilation, Compile, Scope, ◌>>◌, return, throw, modify, continue, update, max_function_slots,
}
use react_native_webassembly.Compile.Slots.{get_type_num_slots, align_slot_to_type, touch_slot}
use react_native_webassembly.Compile.Emit.{Target}
use react_native_webassembly.Compile.Stack.{
  get_stack_type_from_bottom, get_stack_type_from_top, get_stack_top_type, get_slot_for_stack_index,
  get_extra_slot_for_stack_index, get_num_block_values_on_stack, is_stack_polymorphic, pop,
}
use react_native_webassembly.Compile.Copy.{copy_stack_index_to_slot, copy_stack_top_to_register}

-- c_waOp_block, c_waOp_loop, c_waOp_if, c_waOp_else; c_ioSlotCount
abbrev pub opcode_block : ℕ
opcode_block = 0x02

abbrev pub opcode_loop : ℕ
opcode_loop = 0x03

abbrev pub opcode_if : ℕ
opcode_if = 0x04

abbrev pub opcode_else : ℕ
opcode_else = 0x05

abbrev pub io_slot_count : ℕ
io_slot_count = 2

-- Copying to the target would overwrite what the entry at `check_index` stands for.
unfoldable pub collides : Compilation → ℕ → ℕ → ℕ → Bool
unfolding get_slot_for_stack_index get_extra_slot_for_stack_index
collides o target_slot extra_slot check_index =
    let other_slot1 = get_slot_for_stack_index o check_index in
    let other_slot2 = get_extra_slot_for_stack_index o check_index in
    target_slot == other_slot1
    || (target_slot == other_slot2 || (target_slot + extra_slot == other_slot1))

-- The search for collisions, over the indices that are left.
unfoldable pub find_collision : ℕ → Compilation → ℕ → ℕ → ℕ → Option ℕ
unfolding collides
find_collision zero o target_slot extra_slot check_index = none
find_collision (suc num_left) o target_slot extra_slot check_index =
    let rest = find_collision num_left o target_slot extra_slot (check_index + 1) in
    if collides o target_slot extra_slot check_index then some check_index else rest

abbrev pub set_slot_of : ℕ → ℕ → Compilation → Compilation
set_slot_of stack_index slot o = record o { wasm_stack = update o.wasm_stack stack_index slot }

module _ (target : Target) where
  -- The entry at `check_index` moves to the temporary slots.
  unfoldable pub move_aside : ℕ → ℕ → Compile (Unit {0})
  unfolding copy_stack_index_to_slot get_type_num_slots
  move_aside temp_slot check_index =
      if leb max_function_slots temp_slot then throw function_stack_overflow else do
        copy_stack_index_to_slot target temp_slot check_index
        modify (set_slot_of check_index temp_slot)
        modify (touch_slot (u16 (temp_slot + get_type_num_slots type_i64) - 1))

  -- What makes room for a copy: the entry that collides, if there is one, moves aside. The temporary
  -- slot that is free next is returned.
  abbrev pub make_room : Option ℕ → ℕ → Compile ℕ
  make_room none temp_slot = return temp_slot
  make_room (some check_index) temp_slot = do
    move_aside temp_slot check_index
    return (u16 (temp_slot + get_type_num_slots type_i64))

  abbrev pub restore_collision : Compilation → Option ℕ → Compilation → Compilation
  restore_collision before none o = o
  restore_collision before (some check_index) o =
      set_slot_of check_index (get_slot_for_stack_index before check_index) o

  -- `CopyStackSlotsR`: `num_left` is the number of indices up to `i_endStackIndex`.
  unfoldable pub copy_stack_slots_r : ℕ → ℕ → ℕ → ℕ → Compile (Unit {0})
  unfolding move_aside find_collision copy_stack_index_to_slot get_type_num_slots
      get_slot_for_stack_index get_stack_type_from_bottom
  copy_stack_slots_r zero target_index stack_index temp_slot o = (o, ok tt)
  copy_stack_slots_r (suc num_left) target_index stack_index temp_slot o =
      let src_slot = get_slot_for_stack_index o stack_index in
      let extra_slot = get_type_num_slots (get_stack_type_from_bottom o stack_index) - 1 in
      let target_slot = get_slot_for_stack_index o target_index in
      let collision =
        if target_slot == src_slot
        then none
        else find_collision num_left o target_slot extra_slot (stack_index + 1) in
      let copy : ℕ → Compile ℕ = λ temp. do
        copy_stack_index_to_slot target target_slot stack_index
        modify (set_slot_of stack_index target_slot)
        return temp
      in let prepared =
          if target_slot == src_slot
          then (o, ok temp_slot)
          else continue (make_room collision temp_slot o) copy in
        continue prepared (λ temp. do
          copy_stack_slots_r num_left (u16 (target_index + 1)) (stack_index + 1) temp
          modify (set_slot_of stack_index src_slot)
          modify (restore_collision o collision))

  -- The copies of `ResolveBlockResults`. A float on top goes to its register, and the range of the
  -- other copies ends below it.
  unfoldable pub resolve_values : Bool → ℕ → ℕ → Compile (Unit {0})
  unfolding copy_stack_slots_r copy_stack_top_to_register align_slot_to_type get_stack_type_from_top
      is_fp_type
  resolve_values is_loop slot_records num_values o =
      let to_register = not is_loop && is_fp_type (get_stack_top_type o) in
      let end_index = u16 (o.stack_index + (if to_register then 2 ^ 16 - 1 else 0)) in
      continue (if to_register then copy_stack_top_to_register target false o else (o, ok tt))
        (λ _ p.
          copy_stack_slots_r num_values slot_records (u16 (end_index + (2 ^ 16 - num_values)))
            (align_slot_to_type p.max_stack_slots type_i64) p)

  -- `ResolveBlockResults`
  unfoldable pub resolve_block_results : Scope → Bool → Compile (Unit {0})
  unfolding resolve_values
  resolve_block_results scope is_branch o =
      let is_loop = scope.opcode == opcode_loop && is_branch in
      let num_params = get_func_type_num_params scope.type in
      let num_values = if is_loop then num_params else get_func_type_num_results scope.type in
      let slot_records =
        if is_loop then scope.exit_stack_index else u16 (scope.exit_stack_index + num_params) in
      let block_height = get_num_block_values_on_stack o in
      let mismatch =
        if is_branch then ltb block_height num_values else not (block_height == num_values) in
      if mismatch
      then (o, err type_count_mismatch)
      else if num_values == 0
      then (o, ok tt)
      else resolve_values is_loop slot_records num_values o

  -- The type of a value to return; below the bottom of a polymorphic stack any type will do.
  abbrev pub returned_type : Compilation → ℕ → ℕ → ℕ
  returned_type o return_type i =
      let stack_type = get_stack_type_from_top o i in
      if is_stack_polymorphic o && stack_type == type_none then return_type else stack_type

  -- The loop of `ReturnValues` over the results from the last to the first.
  unfoldable pub return_each : ℕ → Scope → ℕ → ℕ → ℕ → Compile (Unit {0})
  unfolding copy_stack_index_to_slot get_stack_type_from_top get_func_type_result_type
  return_each zero scope i return_slot stack_top o = (o, ok tt)
  return_each (suc num_left) scope i return_slot stack_top o =
      let return_type = get_func_type_result_type scope.type num_left in
      let slot = return_slot - io_slot_count in
      let copied =
        continue (copy_stack_index_to_slot target slot stack_top o)
          (λ _. return_each num_left scope (i + 1) slot (u16 (stack_top + (2 ^ 16 - 1)))) in
      let checked = return_each num_left scope (i + 1) return_slot stack_top o in
      if return_type == returned_type o return_type i
      then if is_stack_polymorphic o then checked else copied
      else (o, err type_mismatch)

  -- `while (numReturns--) Pop (o)`
  unfoldable pub pop_each : ℕ → Compile (Unit {0})
  unfolding pop
  pop_each zero o = (o, ok tt)
  pop_each (suc num_left) o = continue (pop o) (λ _. pop_each num_left)

  -- `ReturnValues`
  unfoldable pub return_values : Scope → Bool → Compile (Unit {0})
  unfolding return_each pop_each
  return_values scope is_branch o =
      let num_returns = get_func_type_num_results scope.type in
      let block_height = get_num_block_values_on_stack o in
      let mismatch =
        if is_branch then ltb block_height num_returns else not (block_height == num_returns) in
      let top = u16 (o.stack_index + (2 ^ 16 - 1)) in
      if not (is_stack_polymorphic o) && mismatch
      then (o, err type_count_mismatch)
      else continue (return_each num_returns scope 0 (u16 (num_returns * io_slot_count)) top o)
          (λ _. if is_branch then return tt else pop_each num_returns)
