-- ===== src/Compile/Operations/Float.antt =====
-- cpp/m3_compile.c, `c_operations`: floats and conversions, from opcode 0x8b.
use react_native_webassembly.Common.{List, [], ◌∷◌}
use react_native_webassembly.Core.ValueType.{type_none, type_i32, type_i64, type_f32, type_f64}
use react_native_webassembly.Compile.Operations.Entry.{
  TableEntry, op_info, reserved, empty_op_list, unary_op_list, bin_op_list, commutative_bin_op_list,
  convert_op_list, by_convert, by_memory_copy_fill, by_operator,
}

-- Floats and conversions, from opcode 0x8b.
abbrev pub float_operations : List TableEntry
float_operations =
    op_info 0 type_f32 unary_op_list by_operator
    ∷ op_info 0 type_f32 unary_op_list by_operator
    ∷ op_info 0 type_f32 unary_op_list by_operator
    ∷ op_info 0 type_f32 unary_op_list by_operator
    ∷ op_info 0 type_f32 unary_op_list by_operator
    ∷ op_info 0 type_f32 unary_op_list by_operator
    ∷ op_info 0 type_f32 unary_op_list by_operator
    ∷ op_info 0xff type_f32 commutative_bin_op_list by_operator
    ∷ op_info 0xff type_f32 bin_op_list by_operator
    ∷ op_info 0xff type_f32 commutative_bin_op_list by_operator
    ∷ op_info 0xff type_f32 bin_op_list by_operator
    ∷ op_info 0xff type_f32 commutative_bin_op_list by_operator
    ∷ op_info 0xff type_f32 commutative_bin_op_list by_operator
    ∷ op_info 0xff type_f32 bin_op_list by_operator
    ∷ op_info 0 type_f64 unary_op_list by_operator
    ∷ op_info 0 type_f64 unary_op_list by_operator
    ∷ op_info 0 type_f64 unary_op_list by_operator
    ∷ op_info 0 type_f64 unary_op_list by_operator
    ∷ op_info 0 type_f64 unary_op_list by_operator
    ∷ op_info 0 type_f64 unary_op_list by_operator
    ∷ op_info 0 type_f64 unary_op_list by_operator
    ∷ op_info 0xff type_f64 commutative_bin_op_list by_operator
    ∷ op_info 0xff type_f64 bin_op_list by_operator
    ∷ op_info 0xff type_f64 commutative_bin_op_list by_operator
    ∷ op_info 0xff type_f64 bin_op_list by_operator
    ∷ op_info 0xff type_f64 commutative_bin_op_list by_operator
    ∷ op_info 0xff type_f64 commutative_bin_op_list by_operator
    ∷ op_info 0xff type_f64 bin_op_list by_operator
    ∷ op_info 0 type_i32 unary_op_list by_operator
    ∷ op_info 0 type_i32 convert_op_list by_convert
    ∷ op_info 0 type_i32 convert_op_list by_convert
    ∷ op_info 0 type_i32 convert_op_list by_convert
    ∷ op_info 0 type_i32 convert_op_list by_convert
    ∷ op_info 0 type_i64 unary_op_list by_operator
    ∷ op_info 0 type_i64 unary_op_list by_operator
    ∷ op_info 0 type_i64 convert_op_list by_convert
    ∷ op_info 0 type_i64 convert_op_list by_convert
    ∷ op_info 0 type_i64 convert_op_list by_convert
    ∷ op_info 0 type_i64 convert_op_list by_convert
    ∷ op_info 0 type_f32 convert_op_list by_convert
    ∷ op_info 0 type_f32 convert_op_list by_convert
    ∷ op_info 0 type_f32 convert_op_list by_convert
    ∷ op_info 0 type_f32 convert_op_list by_convert
    ∷ op_info 0 type_f32 unary_op_list by_operator
    ∷ op_info 0 type_f64 convert_op_list by_convert
    ∷ op_info 0 type_f64 convert_op_list by_convert
    ∷ op_info 0 type_f64 convert_op_list by_convert
    ∷ op_info 0 type_f64 convert_op_list by_convert
    ∷ op_info 0 type_f64 unary_op_list by_operator
    ∷ op_info 0 type_i32 convert_op_list by_convert
    ∷ op_info 0 type_i64 convert_op_list by_convert
    ∷ op_info 0 type_f32 convert_op_list by_convert
    ∷ op_info 0 type_f64 convert_op_list by_convert
    ∷ op_info 0 type_i32 unary_op_list by_operator
    ∷ op_info 0 type_i32 unary_op_list by_operator
    ∷ op_info 0 type_i64 unary_op_list by_operator
    ∷ op_info 0 type_i64 unary_op_list by_operator
    ∷ op_info 0 type_i64 unary_op_list by_operator
    ∷ []

-- `c_operationsFC`: the operations behind the prefix 0xfc.
abbrev pub extended_operations : List TableEntry
extended_operations =
    op_info 0 type_i32 convert_op_list by_convert
    ∷ op_info 0 type_i32 convert_op_list by_convert
    ∷ op_info 0 type_i32 convert_op_list by_convert
    ∷ op_info 0 type_i32 convert_op_list by_convert
    ∷ op_info 0 type_i64 convert_op_list by_convert
    ∷ op_info 0 type_i64 convert_op_list by_convert
    ∷ op_info 0 type_i64 convert_op_list by_convert
    ∷ op_info 0 type_i64 convert_op_list by_convert
    ∷ reserved
    ∷ reserved
    ∷ op_info 0 type_none empty_op_list by_memory_copy_fill
    ∷ op_info 0 type_none empty_op_list by_memory_copy_fill
    ∷ []
