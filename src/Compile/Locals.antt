-- ===== src/Compile/Locals.antt =====
-- cpp/m3_compile.c, locals: reading and writing them, and the copies that keep the values which the
-- stack refers to; the scopes of blocks.
pub mod References
use react_native_webassembly.Common.{
  ℕ, zero, suc, ◌+◌, ◌-◌, Bool, true, false, not, Option, none, some, List, [], ◌∷◌, ltb, leb, ◌==◌,
  if◌then◌else◌, u16, u32,
}
use react_native_webassembly.Results.{
  Result, ok, err, local_index_out_of_bounds, invalid_block_depth,
}
use react_native_webassembly.Core.Read.{Bytes}
use react_native_webassembly.Core.Leb.{LebRead, read_leb_u32, try_leb}
use react_native_webassembly.Core.ValueType.{is_64bit_type}
use react_native_webassembly.FuncTypes.{get_func_type_num_params}
use react_native_webassembly.Compile.State.{
  Compilation, Compile, CompiledFunction, Scope, ◌>>=◌, ◌>>◌, return, throw, modify, gets, continue,
}
use react_native_webassembly.Compile.Slots.{allocate_slots, increment_slot_usage_count}
use react_native_webassembly.Compile.Emit.{
  Target, op_copy_slot_32, op_copy_slot_64, emit_op, emit_slot_offset,
}
use react_native_webassembly.Compile.Stack.{
  get_slot_for_stack_index, get_stack_type_from_bottom, push, pop,
}
use react_native_webassembly.Compile.Copy.{copy_stack_top_to_slot, preserved_copy_top_slot}
use react_native_webassembly.Compile.Copy.BlockResults.{opcode_block, set_slot_of}

abbrev pub opcode_tee_local : ℕ
opcode_tee_local = 0x22

-- A read of the code: it moves on where it succeeds.
abbrev pub advance {ℓ} : {A : Type ℓ} → Result (A × Bytes) → Compile A
advance (ok (value, rest)) o = (record o { wasm = rest }, ok value)
advance (err e) o = (o, err e)

unfoldable pub next_u32 : Compile ℕ
unfolding read_leb_u32
next_u32 o = advance (try_leb (read_leb_u32 o.wasm)) o

-- `GetFunctionNumArgsAndLocals`
unfoldable pub get_function_num_args_and_locals : Option CompiledFunction → ℕ
unfolding get_func_type_num_params
get_function_num_args_and_locals none = 0
get_function_num_args_and_locals (some f) =
    u32 (f.num_locals + get_func_type_num_params f.func_type)

-- The scopes out to the nearest one that is not a plain block.
unfoldable pub restart_index : Scope → List Scope → ℕ
restart_index scope [] = scope.block_stack_index
restart_index scope (outer ∷ scopes) =
    let rest = restart_index outer scopes in
    if scope.opcode == opcode_block then rest else scope.block_stack_index

-- The slot that keeps the local's value: a new one at the first reference, which the others share.
unfoldable pub preserve_slot : ℕ → ℕ → ℕ → Compile ℕ
unfolding get_stack_type_from_bottom allocate_slots increment_slot_usage_count
preserve_slot local_slot preserved i o =
    if preserved == local_slot
    then allocate_slots (get_stack_type_from_bottom o i) o
    else continue (increment_slot_usage_count preserved o) (λ _. return preserved)

-- The loop of `FindReferencedLocalWithinCurrentBlock`
unfoldable pub preserve_references : ℕ → ℕ → ℕ → ℕ → Compile ℕ
unfolding preserve_slot
preserve_references zero local_slot preserved i o = (o, ok preserved)
preserve_references (suc num_left) local_slot preserved i o =
    let moved =
      continue (preserve_slot local_slot preserved i o)
        (λ slot p. preserve_references num_left local_slot slot (i + 1) (set_slot_of i slot p)) in
    let skipped = preserve_references num_left local_slot preserved (i + 1) o in
    if o.wasm_stack i == local_slot then moved else skipped

-- `FindReferencedLocalWithinCurrentBlock`; `o_preservedSlotNumber` is returned.
unfoldable pub find_referenced_local_within_current_block : ℕ → Compile ℕ
unfolding restart_index preserve_references
find_referenced_local_within_current_block local_slot o =
    let start_index = restart_index o.block o.outer in
    preserve_references (o.stack_index - start_index) local_slot (u16 local_slot) start_index o

-- `GetBlockScope`
unfoldable pub get_block_scope : Scope → List Scope → ℕ → Result Scope
get_block_scope scope outer zero = ok scope
get_block_scope scope [] (suc depth) = err invalid_block_depth
get_block_scope scope (next ∷ outer) (suc depth) = get_block_scope next outer depth

module _ (target : Target) where
  abbrev pub check_local : ℕ → Compile (Unit {0})
  check_local local_index o =
      if ltb local_index (get_function_num_args_and_locals o.function)
      then (o, ok tt)
      else (o, err local_index_out_of_bounds)

  -- The copy of the top of the stack to a local, and before it that of the local to where its value
  -- is preserved.
  abbrev pub write_local : ℕ → ℕ → Compile (Unit {0})
  write_local local_slot preserve_slot =
      if preserve_slot == local_slot
      then copy_stack_top_to_slot target local_slot
      else preserved_copy_top_slot target local_slot preserve_slot

  -- `Compile_SetLocal`
  unfoldable pub compile_set_local : ℕ → Compile (Unit {0})
  unfolding next_u32 get_function_num_args_and_locals get_slot_for_stack_index
      find_referenced_local_within_current_block copy_stack_top_to_slot preserved_copy_top_slot pop
  compile_set_local opcode = do
    local_index ← next_u32
    check_local local_index
    local_slot ← gets (λ o. get_slot_for_stack_index o local_index)
    preserve_slot ← find_referenced_local_within_current_block local_slot
    write_local local_slot preserve_slot
    if opcode == opcode_tee_local then return tt else pop

  -- `Compile_GetLocal`: the stack refers to the slot of the local.
  unfoldable pub compile_get_local : Compile (Unit {0})
  unfolding next_u32 get_function_num_args_and_locals get_slot_for_stack_index
      get_stack_type_from_bottom push
  compile_get_local = do
    local_index ← next_u32
    check_local local_index
    type ← gets (λ o. get_stack_type_from_bottom o local_index)
    slot ← gets (λ o. get_slot_for_stack_index o local_index)
    push type slot

  -- The copy of a local to where its value is preserved; the status of `EmitOp` is dropped.
  abbrev pub copy_local : ℕ → ℕ → ℕ → Compilation → Compilation
  copy_local preserved_slot slot type o =
      let op = if is_64bit_type type then op_copy_slot_64 else op_copy_slot_32 in
      emit_slot_offset slot (emit_slot_offset preserved_slot (emit_op target op o).0)

  abbrev pub preserve_local : ℕ → Compile (Unit {0})
  preserve_local i o =
      let slot = get_slot_for_stack_index o i in
      continue (find_referenced_local_within_current_block slot o) (λ preserved p. (
        if preserved == slot
            then p
            else copy_local preserved slot (get_stack_type_from_bottom p i) p,
        ok tt,
      ))

  -- The loop of `PreserveArgsAndLocals`
  unfoldable pub preserve_locals_from : ℕ → ℕ → Compile (Unit {0})
  unfolding get_slot_for_stack_index find_referenced_local_within_current_block
      get_stack_type_from_bottom emit_op emit_slot_offset is_64bit_type
  preserve_locals_from zero i o = (o, ok tt)
  preserve_locals_from (suc num_left) i o =
      continue (preserve_local i o) (λ _. preserve_locals_from num_left (i + 1))

  -- `PreserveArgsAndLocals`
  unfoldable pub preserve_args_and_locals : Compile (Unit {0})
  unfolding preserve_locals_from get_function_num_args_and_locals
  preserve_args_and_locals o =
      if ltb o.stack_first_dynamic_index o.stack_index
      then preserve_locals_from (get_function_num_args_and_locals o.function) 0 o
      else (o, ok tt)
