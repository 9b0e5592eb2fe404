-- ===== src/Compile/Operations/Entry.antt =====
-- cpp/m3_compile.c, an entry of the table of operations: the macros that list its operations, and
-- which function compiles it.
use react_native_webassembly.Common.{ℕ, zero, suc, Option, none, some, ◌==◌, leb}
use react_native_webassembly.Core.ValueType.{type_none}
use react_native_webassembly.Compile.Emit.{Operation, listed}
use react_native_webassembly.Compile.Operators.{OpInfo}

-- `any`, (u8) -1
abbrev pub type_any : ℕ
type_any = 0xff

-- `d_emptyOpList` and the other macros
pub data OpList : Type 0 where
  empty_op_list log_op log_op2 unary_op_list bin_op_list store_fp_op_list : OpList
  commutative_bin_op_list convert_op_list : OpList

-- The field `compiler`; `by_operator` is NULL, for which `Compile_Operator` is taken.
pub data Compiler : Type 0 where
  by_branch by_branch_table by_call by_call_indirect : Compiler
  by_const_f32 by_const_f64 by_const_i32 by_const_i64 : Compiler
  by_convert by_drop by_end by_get_local : Compiler
  by_get_set_global by_if by_load_store by_loop_or_block : Compiler
  by_memory_copy_fill by_memory_grow by_memory_size by_nop : Compiler
  by_operator by_return by_select by_set_local : Compiler
  by_unreachable by_extended_opcode : Compiler

-- `M3OpInfo` as the table has it; the offset is the bit pattern of the i8.
pub record TableEntry : Type 0 where
  pub stack_offset : ℕ
  pub type : ℕ
  pub op_list : OpList
  pub compiler : Compiler

-- `M3OP` and `M3OP_RESERVED`
abbrev pub op_info : ℕ → ℕ → OpList → Compiler → TableEntry
op_info stack_offset type op_list compiler = record {
  stack_offset = stack_offset;
  type = type;
  op_list = op_list;
  compiler = compiler;
}

abbrev pub reserved : TableEntry
reserved = op_info 0 type_none empty_op_list by_operator

-- The operation at a place of the list, `none` for NULL.
unfoldable pub operation_at : OpList → ℕ → ℕ → Option Operation
operation_at log_op opcode zero = some (listed opcode 0)
operation_at log_op2 opcode zero = some (listed opcode 0)
operation_at log_op2 opcode (suc zero) = some (listed opcode 1)
operation_at unary_op_list opcode zero = some (listed opcode 0)
operation_at unary_op_list opcode (suc zero) = some (listed opcode 1)
operation_at bin_op_list opcode zero = some (listed opcode 0)
operation_at bin_op_list opcode (suc zero) = some (listed opcode 1)
operation_at bin_op_list opcode (suc (suc zero)) = some (listed opcode 2)
operation_at store_fp_op_list opcode zero = some (listed opcode 0)
operation_at store_fp_op_list opcode (suc zero) = some (listed opcode 1)
operation_at store_fp_op_list opcode (suc (suc zero)) = some (listed opcode 2)
operation_at store_fp_op_list opcode (suc (suc (suc zero))) = some (listed opcode 3)
operation_at commutative_bin_op_list opcode zero = some (listed opcode 0)
operation_at commutative_bin_op_list opcode (suc (suc zero)) = some (listed opcode 2)
operation_at convert_op_list opcode zero = some (listed opcode 0)
operation_at convert_op_list opcode (suc zero) = some (listed opcode 1)
operation_at convert_op_list opcode (suc (suc zero)) = some (listed opcode 2)
operation_at convert_op_list opcode (suc (suc (suc zero))) = some (listed opcode 3)
operation_at op_list opcode place = none

-- The entry as the operators read it.
abbrev pub info_of : ℕ → TableEntry → OpInfo
info_of opcode entry = record {
  offset_is_zero = entry.stack_offset == 0;
  offset_is_negative = leb 0x80 entry.stack_offset;
  type = entry.type;
  operations = operation_at entry.op_list opcode;
}
