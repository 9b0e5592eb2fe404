-- ===== src/Lib.antt =====
-- The WebAssembly interpreter that this repository owns and patches (cpp/m3_*.c, cpp/PATCHES.md),
-- behind the JavaScript interface of src/ and the glue of cpp/react-native-webassembly.cpp, which
-- are not modelled.
--
-- A binary comes in through cpp/m3_parse.c, which reads it with the readers of cpp/m3_core.c, fills
-- a module (cpp/m3_module.c) and interns its signatures in the environment (cpp/m3_env.c,
-- cpp/m3_function.c). A runtime holds linear memory and code pages. Loading a module fills the memory
-- and the module's table; its imports are linked to host functions (cpp/m3_bind.c); running code
-- grows, copies and fills the memory (cpp/m3_exec.h). The compiler (cpp/m3_compile.c) reads the code of
-- a function, keeps for each value on the stack the slot or register that it is in, and emits
-- operations into code pages (cpp/m3_code.c, cpp/m3_env.c).
--
--   Common     lists, Boolean tests, words and bits that the other files share
--   Results    M3Result of cpp/wasm3.h and the macros of cpp/m3_exception.h
--   Core       cpp/m3_core.c: value types (NormalizeType), readers, LEB128 (Core/Leb), Read_utf8
--   Runtime    the records M3Memory, M3CodePage, M3FuncType, M3Environment and M3Runtime
--   Memory     ResizeMemory and InitMemory of cpp/m3_env.c, with the patch that keeps memory in
--              place, and op_MemSize, op_MemGrow, op_MemCopy, op_MemFill of cpp/m3_exec.h
--   CodePages  NewCodePage and EmitWord of cpp/m3_code.c; acquiring and releasing in cpp/m3_env.c
--   FuncTypes  AreFuncTypesEqual and the accessors of cpp/m3_function.c, Environment_AddFuncType and
--              m3_NewEnvironment of cpp/m3_env.c
--   Module     the records of a module and cpp/m3_module.c
--   Parse      cpp/m3_parse.c: the sections on types (Parse/Types), functions (Parse/Functions,
--              Parse/Imports), data (Parse/Data) and names (Parse/Names), and m3_ParseModule
--              (Parse/Sections)
--   Load       InitGlobals, InitDataSegments, InitElements and m3_LoadModule of cpp/m3_env.c, and
--              the lookup of globals and functions there (Load/Globals)
--   Compile    cpp/m3_compile.c: M3Compilation (Compile/State), the slots of the frame
--              (Compile/Slots), emission (Compile/Emit), the stack and the registers
--              (Compile/Stack), constants, locals, copies between slots and the results of
--              blocks (Compile/Copy), single instructions (Compile/Operators), calls and returns
--              (Compile/Calls), the table of operations (Compile/Operations); Compile/Counts
--              proves the accounts of slots
--   Bind       cpp/m3_bind.c: signature strings, and the linking of imports to host functions
--
-- Integers are natural numbers with the wrap-around of their width written out; a signed integer is
-- its bit pattern. A pair of pointers into the binary is the list of the bytes between them. An
-- interned signature is named by its place in the environment. What the operating system answers
-- (mmap, mprotect, realloc, calloc for a code page) is an argument; the small allocations of the
-- parser are taken to succeed. Where the code would follow a NULL pointer the model returns
-- `null_pointer`, and where it would read behind an array `past_the_array`. Floating point, the
-- release of memory, and output for debugging are left out. The walk over an initial expression,
-- CompileBlockStatements of cpp/m3_compile.c without a runtime, is a parameter of the parser, and
-- its evaluation, EvaluateExpression of cpp/m3_env.c, a parameter of the loading;
-- CompileRawFunction of cpp/m3_compile.c is a parameter of the linking. What is proved holds for
-- each. The compiler's model stops at single instructions: branches, CompileBlock,
-- CompileBlockStatements and CompileFunction are not modelled. The steps of a block in
-- Compile/Counts are operations of the stack, not whole instructions. The addresses of code and of
-- objects that it emits are parameters.
--
-- Two loops of the parser run on fuel, one for the sections and one for the subsections of names.
-- Each round takes a byte or more, so the number of bytes, which is the fuel they are given, is
-- enough. In the compiler the search for slots has fuel for each slot up to the end of its range, and
-- the unwinding of the stack for each entry, which is enough since each turn passes one or more. The
-- other loops count, or go through a list.
pub mod Common
pub mod Results
pub mod Core
pub mod Runtime
pub mod Memory
pub mod CodePages
pub mod Compile
pub mod FuncTypes
pub mod Module
pub mod Parse
pub mod Load
pub mod Bind
