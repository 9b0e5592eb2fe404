-- ===== src/Compile/Tests.antt =====
-- A compilation for the theorems on cpp/m3_compile.c, and the theorems at it.
use react_native_webassembly.Common.{
  ℕ, inl, ◌≤◌, ◌≡◌, ◌≢◌, refl, arith, true, false, none, some, [], ◌∷◌, replicate,
}
use react_native_webassembly.Core.ValueType.{type_i32, type_i64, type_v128, is_64bit_type}
use react_native_webassembly.Runtime.{CodePage, Runtime}
use react_native_webassembly.Module.{new_module}
use react_native_webassembly.CodePages.Capacity.{HasRoom}
use react_native_webassembly.Compile.State.{Compilation, Scope, Then, Done, update, reg0_slot_alias}
use react_native_webassembly.Compile.Slots.{
  get_type_num_slots, align_slot_to_type, allocate_slots, increment_slot_usage_count,
  deallocate_slot,
}
use react_native_webassembly.Compile.Slots.Search.{Allocation, round_up, allocate_slots-Allocation}
use react_native_webassembly.Compile.Emit.{Target, op_return, emit_op}
use react_native_webassembly.Compile.Emit.Room.{emit_words, emit_op-HasRoom}
use react_native_webassembly.Compile.Stack.{
  get_stack_top_index, is_stack_index_in_register, push, unwind_block_stack,
}
use react_native_webassembly.Compile.Constants.{push_const}
use react_native_webassembly.Compile.Constants.Search.{IsTable}
use react_native_webassembly.Compile.Constants.Place.{Denotes, push_const-Denotes}
use react_native_webassembly.Compile.Copy.BlockResults.{set_slot_of}
use react_native_webassembly.Compile.Locals.{
  preserve_slot, find_referenced_local_within_current_block,
}
use react_native_webassembly.Compile.Locals.References.{
  outward, outermost, Unreferenced, find_referenced_local-Unreferenced,
  increment_slot_usage_count-unbalanced,
}
use react_native_webassembly.Compile.Counts.Steps.{
  BlockSteps, push_fixed, preserve_reference, start, next, IsFreshBlock, IsFreshBlock-IsCounted,
  BlockSteps-balanced,
}
use react_native_webassembly.Compile.Operations.Types.{listed_typing, typing, get_op_info-typing}
use react_native_webassembly.Compile.Operations.Selection.{Selected, select_operation-Selected}
use react_native_webassembly.Compile.Counts.Sharing.{IsUnshared, allocate_slots-IsUnshared}

abbrev target : Target
target = record {
  word_of = λ op. 1;
  pc_of = λ page. page.line_index;
  allocated = λ rt. true;
  address_of_global = λ i. i;
  address_of_function = λ i. i;
  address_of_type = λ i. i;
  address_of_module = 0;
}

abbrev runtime : Runtime
runtime = record {
  environment = record { func_types = []; pages_released = [] };
  pages_open = [];
  pages_full = [];
  num_code_pages = 0;
  num_active_code_pages = 0;
  stack = 0;
  num_stack_slots = 0;
  memory = record {
    mallocated = none;
    num_pages = 0;
    max_pages = 0;
    reservation = none;
    reservation_bytes = 0;
    committed_bytes = 0;
  };
  memory_limit = 0;
  call_depth = 0;
  new_code_page_sequence = 0;
}

abbrev page : CodePage
page = record { sequence = 1; line_index = 0; num_lines = 20; code = replicate 20 0 }

abbrev function_scope : Scope
function_scope = record {
  depth = 0;
  exit_stack_index = 0;
  block_stack_index = 1;
  type = none;
  opcode = 0;
  is_polymorphic = false;
}

-- A function with one local, an i64 in slots 2 and 3, and room for constants in slots 4 and 5.
abbrev fresh : Compilation
fresh = record {
  runtime = runtime;
  wasm_module = new_module;
  wasm = [];
  block = function_scope;
  outer = [];
  function = none;
  page = some page;
  stack_first_dynamic_index = 1;
  stack_index = 1;
  slot_first_const_index = 4;
  slot_max_const_index = 4;
  slot_first_local_index = 2;
  slot_first_dynamic_index = 6;
  max_stack_slots = 6;
  constants = λ i. 0;
  wasm_stack = λ i. 2;
  type_stack = λ i. type_i64;
  m3_slots = λ i. 0;
  slot_max_allocated_index_plus_one = 6;
  reg_stack_index_plus_one = λ r. 0;
  previous_opcode = 0;
}

fresh-IsFreshBlock : IsFreshBlock fresh
fresh-IsFreshBlock = record {
  empty = refl;
  height = omega arith;
  highest = omega arith;
  inside = omega arith;
  bytes = λ j. omega arith;
  registers = λ r two. refl;
}

i64_narrow : type_i64 ≢ type_v128
i64_narrow e = omega arith

-- The local is pushed, then written: its value on the stack moves to slots of its own.
abbrev with_local : Compilation
with_local = (push type_i64 2 fresh).0

abbrev with_slots_for_it : Compilation
with_slots_for_it = (preserve_slot 2 2 1 with_local).0

abbrev preserved : Compilation
preserved = set_slot_of 1 6 with_slots_for_it

two_steps : BlockSteps target fresh preserved
unfolding push preserve_slot align_slot_to_type
two_steps = next (next start (push_fixed type_i64 2 i64_narrow (omega arith) (omega arith) refl)) (
    preserve_reference with_slots_for_it 2 2 1 6 (omega arith) (omega arith) refl (omega arith)
      (inl refl) refl refl)

BlockSteps-balanced_example :
    Done
      (λ q _. (q.stack_index ≡ 1) × ((j : ℕ) → 6 ≤ j → q.m3_slots j ≡ 0))
      (unwind_block_stack preserved)
BlockSteps-balanced_example = BlockSteps-balanced two_steps fresh-IsFreshBlock

allocate_slots-Allocation_example :
    Allocation fresh
      (get_type_num_slots type_i64)
      (round_up (get_type_num_slots type_i64) 6)
      (allocate_slots type_i64 fresh)
allocate_slots-Allocation_example =
    allocate_slots-Allocation fresh type_i64 i64_narrow (omega arith)

allocate_slots-IsUnshared_example :
    Then
      (λ p slot. IsUnshared fresh slot (get_type_num_slots type_i64))
      (allocate_slots type_i64 fresh)
allocate_slots-IsUnshared_example =
    allocate_slots-IsUnshared fresh type_i64 (IsFreshBlock-IsCounted fresh fresh-IsFreshBlock)
      i64_narrow (omega arith)

-- The local is on the stack twice.
abbrev block_scope : Scope
block_scope = record function_scope { depth = 1; block_stack_index = 2; opcode = 0x02 }

-- The second time within a plain block.
abbrev in_a_block : Compilation
in_a_block = record fresh { stack_index = 3; block = block_scope; outer = function_scope ∷ [] }

find_referenced_local-Unreferenced_example :
    Then (Unreferenced in_a_block 2 1 2) (find_referenced_local_within_current_block 2 in_a_block)
find_referenced_local-Unreferenced_example =
    find_referenced_local-Unreferenced 2 in_a_block function_scope
      (outward block_scope function_scope function_scope [] refl (outermost function_scope))
      (omega arith) (omega arith)

-- The local's value once the first reference has its slots.
abbrev in_use : Compilation
in_use = record fresh { m3_slots = λ i. 1 }

increment_slot_usage_count-unbalanced_example :
    Then
      (λ p _.
        let first = deallocate_slot 6 type_i64 p in
        let second = deallocate_slot 6 type_i64 first in
        (first.m3_slots 6 ≡ 1)
        × (first.m3_slots 7 ≡ 0)
        × (second.m3_slots 6 ≡ 0)
        × (second.m3_slots 7 ≡ 255))
      (increment_slot_usage_count 6 in_use)
unfolding get_type_num_slots is_64bit_type
increment_slot_usage_count-unbalanced_example =
    increment_slot_usage_count-unbalanced in_use 6 type_i64 refl refl refl

fresh-IsTable : IsTable fresh
fresh-IsTable = record { ordered = omega arith; reserved = omega arith; inside = omega arith }

push_const-Denotes_example :
    Then (Denotes target fresh type_i64 77) (push_const target 77 type_i64 fresh)
push_const-Denotes_example =
    push_const-Denotes target fresh 77 type_i64 refl fresh-IsTable i64_narrow (omega arith)

emit_op-HasRoom_example :
    Then (λ p _. HasRoom 2 (emit_words (4 ∷ 5 ∷ []) p.page)) (emit_op target op_return fresh)
emit_op-HasRoom_example = emit_op-HasRoom target op_return fresh (4 ∷ 5 ∷ []) refl (omega arith)

get_op_info-typing_example : listed_typing 0x6a ≡ typing 0x6a
get_op_info-typing_example = get_op_info-typing 0x6a (omega arith) (omega arith)

-- An i32 in its register on top of another in a slot.
abbrev register_on_slot : Compilation
register_on_slot = record fresh {
  stack_index = 2;
  wasm_stack = update (λ i. 5) 1 reg0_slot_alias;
  type_stack = λ i. type_i32;
  reg_stack_index_plus_one = update (λ r. 0) 0 2;
}

select_operation-Selected_example : Selected target 0x6a register_on_slot
unfolding is_stack_index_in_register get_stack_top_index
select_operation-Selected_example =
    select_operation-Selected target 0x6a register_on_slot (omega arith) (omega arith) refl
