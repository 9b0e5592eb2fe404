-- ===== src/Compile/Operations.antt =====
-- cpp/m3_compile.c, the table of operations and `GetOpInfo`.
pub mod Entry
pub mod Control
pub mod Numeric
pub mod Float
pub mod Types
pub mod Selection
use react_native_webassembly.Common.{
  ℕ, ◌-◌, ◌/◌, ◌%◌, ◌^◌, Option, none, some, ◌++◌, ltb, ◌==◌, if◌then◌else◌, get_elem?, List,
}
use react_native_webassembly.Compile.Operations.Entry.{
  TableEntry, Compiler, reserved, op_info, empty_op_list, by_extended_opcode,
}
use react_native_webassembly.Compile.Operations.Control.{control_operations}
use react_native_webassembly.Compile.Operations.Numeric.{integer_operations}
use react_native_webassembly.Compile.Operations.Float.{float_operations, extended_operations}

abbrev pub opcode_extended : ℕ
opcode_extended = 0xfc

-- `c_operations` up to its last instruction.
abbrev pub operations : List TableEntry
operations = control_operations ++ integer_operations ++ float_operations

-- `c_operations [opcode]`: behind the instructions the array is zero up to the entry at the prefix of
-- extended opcodes, which is its last.
abbrev pub operation_entry : ℕ → Option TableEntry
operation_entry opcode =
    if ltb opcode 0xc5
    then get_elem? operations opcode
    else if opcode == opcode_extended
    then some (op_info 0 6 empty_op_list by_extended_opcode)
    else if ltb opcode opcode_extended
    then some reserved
    else none

-- `GetOpInfo`, on a u16.
unfoldable pub get_op_info : ℕ → Option TableEntry
get_op_info opcode =
    if opcode / 2 ^ 8 == 0
    then operation_entry opcode
    else if opcode / 2 ^ 8 == opcode_extended
    then get_elem? extended_operations (opcode % 2 ^ 8)
    else none
