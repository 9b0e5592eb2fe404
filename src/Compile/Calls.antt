-- ===== src/Compile/Calls.antt =====
-- cpp/m3_compile.c, calls and returns: the layout of a callee's frame, calls of functions and
-- through the table, the end of a function, and its locals.
use react_native_webassembly.Common.{
  ℕ, zero, suc, ◌+◌, ◌-◌, ◌*◌, ◌^◌, Bool, true, false, Option, none, some, max, ◌==◌, if◌then◌else◌,
  get_elem?, u16, u32,
}
use react_native_webassembly.Results.{
  Result, ok, err, function_lookup_failed, function_import_missing, function_type_out_of_bounds,
  malloc_failed_code_page,
}
use react_native_webassembly.Core.ValueType.{type_i32, type_i64, normalize_type}
use react_native_webassembly.Runtime.{CodePage, FuncType, Runtime}
use react_native_webassembly.FuncTypes.{
  deref, get_func_type_num_params, get_func_type_num_results, get_func_type_result_type,
}
use react_native_webassembly.CodePages.{
  acquire_code_page_with_capacity, emit_word, release_code_page,
}
use react_native_webassembly.Module.{Function, Module, module_get_function}
use react_native_webassembly.Compile.State.{Compile, ◌>>=◌, ◌>>◌, return, modify, gets, continue}
use react_native_webassembly.Compile.Slots.{
  align_slot_to_type, get_max_used_slot_plus_one, mark_slots_allocated_by_type,
}
use react_native_webassembly.Compile.Emit.{
  Target, op_return, op_call, op_compile, op_call_indirect, op_call_raw_function, emit_op,
  emit_pointer, emit_slot_offset,
}
use react_native_webassembly.Compile.Stack.{
  get_stack_top_slot_number, is_stack_index_in_register, is_stack_top_in_register,
  is_stack_polymorphic, pop, push, push_allocated_slot, preserve_register_if_occupied,
  set_stack_polymorphic,
}
use react_native_webassembly.Compile.Copy.{copy_stack_top_to_slot}
use react_native_webassembly.Compile.Copy.BlockResults.{io_slot_count, return_values}
use react_native_webassembly.Compile.Locals.{next_u32, get_block_scope}
use react_native_webassembly.Compile.Operators.{next_i7, preserve_if}

abbrev pub lift {ℓ} : {A : Type ℓ} → Result A → Compile A
lift r o = (o, r)

-- The top of the frame that a call gives to the callee.
unfoldable pub get_call_slot : Compile ℕ
unfolding get_max_used_slot_plus_one align_slot_to_type
get_call_slot o =
    let o' = get_max_used_slot_plus_one o in
    (o', ok (align_slot_to_type (max 1 o'.slot_max_allocated_index_plus_one) type_i64))

-- The results of the call on the stack, from the first.
unfoldable pub push_results : ℕ → Option FuncType → ℕ → ℕ → Compile (Unit {0})
unfolding push mark_slots_allocated_by_type get_func_type_result_type
push_results zero type i slot o = (o, ok tt)
push_results (suc num_left) type i slot o =
    let result_type = get_func_type_result_type type i in
    continue (push result_type slot o) (λ _ p.
      continue (mark_slots_allocated_by_type slot result_type p)
        (λ _. push_results num_left type (i + 1) (u16 (slot + io_slot_count))))

abbrev pub func_type_at : Module → Runtime → ℕ → Option FuncType
func_type_at m rt index = elim (get_elem? m.func_types index) [
  | none ↦ none
  | some ref ↦ deref rt.environment.func_types ref
]

abbrev pub func_type_of : Runtime → Function → Option FuncType
func_type_of rt f = elim f.func_type [
  | none ↦ none
  | some ref ↦ deref rt.environment.func_types ref
]

module _ (target : Target) where
  -- The arguments, from the last, each in slots of their own at the end of the callee's frame.
  unfoldable pub copy_args : ℕ → ℕ → Compile (Unit {0})
  unfolding copy_stack_top_to_slot pop
  copy_args zero arg_top o = (o, ok tt)
  copy_args (suc num_left) arg_top o =
      let slot = u16 (arg_top + (2 ^ 16 - io_slot_count)) in
      continue (copy_stack_top_to_slot target slot o)
        (λ _ p. continue (pop p) (λ _. copy_args num_left slot))

  -- `CompileCallArgsAndReturn`; the offset of the callee's frame is returned.
  unfoldable pub compile_call_args_and_return : Option FuncType → Bool → Compile ℕ
  unfolding get_call_slot pop copy_args push_results
  compile_call_args_and_return type is_indirect =
      let num_args = get_func_type_num_params type in
      let num_rets = get_func_type_num_results type in
      do
        top_slot ← get_call_slot
        if is_indirect then pop else return tt
        copy_args num_args (u16 (top_slot + (num_args + num_rets) * io_slot_count))
        push_results num_rets type 0 top_slot
        return top_slot

  abbrev pub emit_call : ℕ → Function → ℕ → Compile (Unit {0})
  emit_call index f slot_top = elim f.compiled [
    | some pc ↦ do
      emit_op target op_call
      modify (emit_pointer pc)
      modify (emit_slot_offset slot_top)
    | none ↦ do
      emit_op target op_compile
      modify (emit_pointer (target.address_of_function index))
      modify (emit_slot_offset slot_top)
  ]

  -- A function belongs to a module as soon as it has a body or is linked.
  abbrev pub has_module : Function → Bool
  has_module f = elim f.wasm [
    | some body ↦ true
    | none ↦ elim f.compiled [ some pc ↦ true | none ↦ false ]
  ]

  abbrev pub call_function : ℕ → Option Function → Compile (Unit {0})
  call_function index none o = (o, err function_lookup_failed)
  call_function index (some f) o =
      let call : Compile (Unit {0}) = do
        slot_top ← compile_call_args_and_return (func_type_of o.runtime f) false
        emit_call index f slot_top
      in if has_module f then call o else (o, err function_import_missing)

  -- `Compile_Call`
  unfoldable pub compile_call : Compile (Unit {0})
  unfolding next_u32 compile_call_args_and_return emit_op emit_pointer emit_slot_offset
      module_get_function
  compile_call = do
    index ← next_u32
    function ← gets (λ o. module_get_function o.wasm_module index)
    call_function index function

  abbrev pub call_through : ℕ → Option ℕ → Compile (Unit {0})
  call_through type_index none o = (o, err function_type_out_of_bounds)
  call_through type_index (some type_ref) o =
      let call : Compile (Unit {0}) = do
        preserve_if target (is_stack_top_in_register o) type_i32
        table_index_slot ← gets get_stack_top_slot_number
        exec_top ←
            compile_call_args_and_return (func_type_at o.wasm_module o.runtime type_index) true
        emit_op target op_call_indirect
        modify (emit_slot_offset table_index_slot)
        modify (emit_pointer target.address_of_module)
        modify (emit_pointer (target.address_of_type type_ref))
        modify (emit_slot_offset exec_top)
      in call o

  -- `Compile_CallIndirect`
  unfoldable pub compile_call_indirect : Compile (Unit {0})
  unfolding next_u32 preserve_register_if_occupied is_stack_index_in_register
      get_stack_top_slot_number compile_call_args_and_return emit_op emit_slot_offset emit_pointer
  compile_call_indirect = do
    type_index ← next_u32
    table_index ← next_u32
    type_ref ← gets (λ o. get_elem? o.wasm_module.func_types type_index)
    call_through type_index type_ref

  -- `Compile_Return`
  unfoldable pub compile_return : Compile (Unit {0})
  unfolding get_block_scope return_values emit_op set_stack_polymorphic
  compile_return o =
      let leave : Compile (Unit {0}) = do
        function_scope ← lift (get_block_scope o.block o.outer o.block.depth)
        return_values target function_scope true
        emit_op target op_return
        set_stack_polymorphic
      in if is_stack_polymorphic o then (o, ok tt) else leave o

  -- `Compile_End`; an expression belongs to no function.
  unfoldable pub compile_end : Compile (Unit {0})
  unfolding return_values emit_op
  compile_end o =
      let return_from : Compile (Unit {0}) = elim o.function [
        | none ↦ return tt
        | some f ↦ return_values target o.block false
      ] in
      let leave : Compile (Unit {0}) = do return_from; emit_op target op_return
      in if o.block.depth == 0 then leave o else (o, ok tt)

  abbrev pub raw_function : ℕ → ℕ → ℕ → Option CodePage × Runtime → Runtime × Result ℕ
  raw_function function io_function userdata (none, rt) = (rt, err malloc_failed_code_page)
  raw_function function io_function userdata (some page, rt) =
      let p₁ = emit_word page (target.word_of op_call_raw_function) in
      let p₂ = emit_word (emit_word (emit_word p₁ function) io_function) userdata in
      (release_code_page rt (some p₂), ok (target.pc_of page))

  -- `CompileRawFunction`: the code that calls a native function; its address is returned.
  unfoldable pub compile_raw_function : ℕ → ℕ → ℕ → Runtime → Runtime × Result ℕ
  unfolding acquire_code_page_with_capacity emit_word release_code_page
  compile_raw_function function io_function userdata rt =
      raw_function function io_function userdata
        (acquire_code_page_with_capacity (target.allocated rt) rt 4)

-- `while (varCount--) PushAllocatedSlot (o, localType)`
unfoldable pub push_locals : ℕ → ℕ → Compile (Unit {0})
push_locals zero type o = (o, ok tt)
push_locals (suc num_left) type o =
    continue (push_allocated_slot type o) (λ _. push_locals num_left type)

-- The loop of `CompileLocals` over the groups of locals; their number is returned.
unfoldable pub compile_local_groups : ℕ → ℕ → Compile ℕ
unfolding next_u32 next_i7 normalize_type push_locals
compile_local_groups zero num_locals o = (o, ok num_locals)
compile_local_groups (suc num_left) num_locals o =
    let group : Compile ℕ = do
      var_count ← next_u32
      wa_type ← next_i7
      local_type ← lift (normalize_type wa_type)
      push_locals var_count local_type
      return (u32 (num_locals + var_count))
    in continue (group o) (compile_local_groups num_left)

-- `CompileLocals`
unfoldable pub compile_locals : Compile (Unit {0})
unfolding next_u32 compile_local_groups
compile_locals = do
  num_local_blocks ← next_u32
  num_locals ← compile_local_groups num_local_blocks 0
  modify (λ o. record o {
    function = elim o.function [
      | none ↦ none
      | some f ↦ some (record f { num_locals = num_locals })
    ];
  })
