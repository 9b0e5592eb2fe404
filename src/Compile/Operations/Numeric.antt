-- ===== src/Compile/Operations/Numeric.antt =====
-- cpp/m3_compile.c, `c_operations`: comparisons and integers, from opcode 0x45.
use react_native_webassembly.Common.{List, [], ◌∷◌}
use react_native_webassembly.Core.ValueType.{type_i32, type_i64}
use react_native_webassembly.Compile.Operations.Entry.{
  TableEntry, op_info, unary_op_list, bin_op_list, commutative_bin_op_list, by_operator,
}

-- Comparisons and integers, from opcode 0x45.
abbrev pub integer_operations : List TableEntry
integer_operations =
    op_info 0 type_i32 unary_op_list by_operator
    ∷ op_info 0xff type_i32 commutative_bin_op_list by_operator
    ∷ op_info 0xff type_i32 commutative_bin_op_list by_operator
    ∷ op_info 0xff type_i32 bin_op_list by_operator
    ∷ op_info 0xff type_i32 bin_op_list by_operator
    ∷ op_info 0xff type_i32 bin_op_list by_operator
    ∷ op_info 0xff type_i32 bin_op_list by_operator
    ∷ op_info 0xff type_i32 bin_op_list by_operator
    ∷ op_info 0xff type_i32 bin_op_list by_operator
    ∷ op_info 0xff type_i32 bin_op_list by_operator
    ∷ op_info 0xff type_i32 bin_op_list by_operator
    ∷ op_info 0 type_i32 unary_op_list by_operator
    ∷ op_info 0xff type_i32 commutative_bin_op_list by_operator
    ∷ op_info 0xff type_i32 commutative_bin_op_list by_operator
    ∷ op_info 0xff type_i32 bin_op_list by_operator
    ∷ op_info 0xff type_i32 bin_op_list by_operator
    ∷ op_info 0xff type_i32 bin_op_list by_operator
    ∷ op_info 0xff type_i32 bin_op_list by_operator
    ∷ op_info 0xff type_i32 bin_op_list by_operator
    ∷ op_info 0xff type_i32 bin_op_list by_operator
    ∷ op_info 0xff type_i32 bin_op_list by_operator
    ∷ op_info 0xff type_i32 bin_op_list by_operator
    ∷ op_info 0xff type_i32 commutative_bin_op_list by_operator
    ∷ op_info 0xff type_i32 commutative_bin_op_list by_operator
    ∷ op_info 0xff type_i32 bin_op_list by_operator
    ∷ op_info 0xff type_i32 bin_op_list by_operator
    ∷ op_info 0xff type_i32 bin_op_list by_operator
    ∷ op_info 0xff type_i32 bin_op_list by_operator
    ∷ op_info 0xff type_i32 commutative_bin_op_list by_operator
    ∷ op_info 0xff type_i32 commutative_bin_op_list by_operator
    ∷ op_info 0xff type_i32 bin_op_list by_operator
    ∷ op_info 0xff type_i32 bin_op_list by_operator
    ∷ op_info 0xff type_i32 bin_op_list by_operator
    ∷ op_info 0xff type_i32 bin_op_list by_operator
    ∷ op_info 0 type_i32 unary_op_list by_operator
    ∷ op_info 0 type_i32 unary_op_list by_operator
    ∷ op_info 0 type_i32 unary_op_list by_operator
    ∷ op_info 0xff type_i32 commutative_bin_op_list by_operator
    ∷ op_info 0xff type_i32 bin_op_list by_operator
    ∷ op_info 0xff type_i32 commutative_bin_op_list by_operator
    ∷ op_info 0xff type_i32 bin_op_list by_operator
    ∷ op_info 0xff type_i32 bin_op_list by_operator
    ∷ op_info 0xff type_i32 bin_op_list by_operator
    ∷ op_info 0xff type_i32 bin_op_list by_operator
    ∷ op_info 0xff type_i32 commutative_bin_op_list by_operator
    ∷ op_info 0xff type_i32 commutative_bin_op_list by_operator
    ∷ op_info 0xff type_i32 commutative_bin_op_list by_operator
    ∷ op_info 0xff type_i32 bin_op_list by_operator
    ∷ op_info 0xff type_i32 bin_op_list by_operator
    ∷ op_info 0xff type_i32 bin_op_list by_operator
    ∷ op_info 0xff type_i32 bin_op_list by_operator
    ∷ op_info 0xff type_i32 bin_op_list by_operator
    ∷ op_info 0 type_i64 unary_op_list by_operator
    ∷ op_info 0 type_i64 unary_op_list by_operator
    ∷ op_info 0 type_i64 unary_op_list by_operator
    ∷ op_info 0xff type_i64 commutative_bin_op_list by_operator
    ∷ op_info 0xff type_i64 bin_op_list by_operator
    ∷ op_info 0xff type_i64 commutative_bin_op_list by_operator
    ∷ op_info 0xff type_i64 bin_op_list by_operator
    ∷ op_info 0xff type_i64 bin_op_list by_operator
    ∷ op_info 0xff type_i64 bin_op_list by_operator
    ∷ op_info 0xff type_i64 bin_op_list by_operator
    ∷ op_info 0xff type_i64 commutative_bin_op_list by_operator
    ∷ op_info 0xff type_i64 commutative_bin_op_list by_operator
    ∷ op_info 0xff type_i64 commutative_bin_op_list by_operator
    ∷ op_info 0xff type_i64 bin_op_list by_operator
    ∷ op_info 0xff type_i64 bin_op_list by_operator
    ∷ op_info 0xff type_i64 bin_op_list by_operator
    ∷ op_info 0xff type_i64 bin_op_list by_operator
    ∷ op_info 0xff type_i64 bin_op_list by_operator
    ∷ []
