-- ===== src/Compile/Operations/Control.antt =====
-- cpp/m3_compile.c, `c_operations`: control, locals, globals, memory and constants, from opcode 0.
use react_native_webassembly.Common.{List, [], ◌∷◌}
use react_native_webassembly.Core.ValueType.{type_none, type_i32, type_i64, type_f32, type_f64}
use react_native_webassembly.Compile.Operations.Entry.{
  TableEntry, op_info, reserved, type_any, empty_op_list, log_op, log_op2, unary_op_list,
  bin_op_list, store_fp_op_list, by_branch, by_branch_table, by_call, by_call_indirect,
  by_const_f32, by_const_f64, by_const_i32, by_const_i64, by_drop, by_end, by_get_local,
  by_get_set_global, by_if, by_load_store, by_loop_or_block, by_memory_grow, by_memory_size, by_nop,
  by_return, by_select, by_set_local, by_unreachable,
}

-- Control, locals, globals, memory and constants, from opcode 0.
abbrev pub control_operations : List TableEntry
control_operations =
    op_info 0 type_none log_op by_unreachable
    ∷ op_info 0 type_none empty_op_list by_nop
    ∷ op_info 0 type_none empty_op_list by_loop_or_block
    ∷ op_info 0 type_none log_op by_loop_or_block
    ∷ op_info 0xff type_none empty_op_list by_if
    ∷ op_info 0 type_none empty_op_list by_nop
    ∷ reserved
    ∷ reserved
    ∷ reserved
    ∷ reserved
    ∷ reserved
    ∷ op_info 0 type_none empty_op_list by_end
    ∷ op_info 0 type_none log_op by_branch
    ∷ op_info 0xff type_none log_op2 by_branch
    ∷ op_info 0xff type_none log_op by_branch_table
    ∷ op_info 0 type_any log_op by_return
    ∷ op_info 0 type_any log_op by_call
    ∷ op_info 0 type_any log_op by_call_indirect
    ∷ op_info 0 type_any empty_op_list by_call
    ∷ op_info 0 type_any empty_op_list by_call_indirect
    ∷ reserved
    ∷ reserved
    ∷ reserved
    ∷ reserved
    ∷ reserved
    ∷ reserved
    ∷ op_info 0xff type_none empty_op_list by_drop
    ∷ op_info 0xfe type_any empty_op_list by_select
    ∷ reserved
    ∷ reserved
    ∷ reserved
    ∷ reserved
    ∷ op_info 1 type_any empty_op_list by_get_local
    ∷ op_info 1 type_none empty_op_list by_set_local
    ∷ op_info 0 type_any empty_op_list by_set_local
    ∷ op_info 1 type_none empty_op_list by_get_set_global
    ∷ op_info 1 type_none empty_op_list by_get_set_global
    ∷ reserved
    ∷ reserved
    ∷ reserved
    ∷ op_info 0 type_i32 unary_op_list by_load_store
    ∷ op_info 0 type_i64 unary_op_list by_load_store
    ∷ op_info 0 type_f32 unary_op_list by_load_store
    ∷ op_info 0 type_f64 unary_op_list by_load_store
    ∷ op_info 0 type_i32 unary_op_list by_load_store
    ∷ op_info 0 type_i32 unary_op_list by_load_store
    ∷ op_info 0 type_i32 unary_op_list by_load_store
    ∷ op_info 0 type_i32 unary_op_list by_load_store
    ∷ op_info 0 type_i64 unary_op_list by_load_store
    ∷ op_info 0 type_i64 unary_op_list by_load_store
    ∷ op_info 0 type_i64 unary_op_list by_load_store
    ∷ op_info 0 type_i64 unary_op_list by_load_store
    ∷ op_info 0 type_i64 unary_op_list by_load_store
    ∷ op_info 0 type_i64 unary_op_list by_load_store
    ∷ op_info 0xfe type_none bin_op_list by_load_store
    ∷ op_info 0xfe type_none bin_op_list by_load_store
    ∷ op_info 0xfe type_none store_fp_op_list by_load_store
    ∷ op_info 0xfe type_none store_fp_op_list by_load_store
    ∷ op_info 0xfe type_none bin_op_list by_load_store
    ∷ op_info 0xfe type_none bin_op_list by_load_store
    ∷ op_info 0xfe type_none bin_op_list by_load_store
    ∷ op_info 0xfe type_none bin_op_list by_load_store
    ∷ op_info 0xfe type_none bin_op_list by_load_store
    ∷ op_info 1 type_i32 log_op by_memory_size
    ∷ op_info 1 type_i32 log_op by_memory_grow
    ∷ op_info 1 type_i32 log_op by_const_i32
    ∷ op_info 1 type_i64 log_op by_const_i64
    ∷ op_info 1 type_f32 empty_op_list by_const_f32
    ∷ op_info 1 type_f64 empty_op_list by_const_f64
    ∷ []
