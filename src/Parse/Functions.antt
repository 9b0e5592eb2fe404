-- ===== src/Parse/Functions.antt =====
-- cpp/m3_parse.c, the sections on functions: `ParseSection_Function`,
-- `ParseSection_Export`, `ParseSection_Start` and `ParseSection_Code`.
use react_native_webassembly.Common.{
  ℕ, ◌+◌, ◌-◌, ◌^◌, none, some, [], ◌∷◌, ◌++◌, not, ltb, leb, ◌==◌, if◌then◌else◌, length,
  get_elem?, set, take, drop, u32,
}
use react_native_webassembly.Results.{
  null_pointer, Result, ok, err, ◌>>=◌, ◌>>◌, throwif, wasm_malformed, too_many_functions,
  too_many_exports, start_function_out_of_bounds, mismatched_function_count, wasm_section_overrun,
  wasm_section_underrun,
}
use react_native_webassembly.Core.Read.{Bytes, read_u8}
use react_native_webassembly.Core.Leb.{read_leb_u32, try_leb}
use react_native_webassembly.Core.Loop.{for_loop}
use react_native_webassembly.Core.Utf8.{read_utf8}
use react_native_webassembly.Module.{
  Function, Module, module_prealloc_functions, module_get_function, write_function,
  module_add_function,
}

-- A section's parser keeps the module and what is left of the section.
abbrev pub Parsing : Type 0
Parsing = Module × Bytes

abbrev pub max_sane_functions_count : ℕ
max_sane_functions_count = 1000000

abbrev pub max_sane_exports_count : ℕ
max_sane_exports_count = 100000

abbrev pub max_duplicate_function_impl : ℕ
max_duplicate_function_impl = 3

abbrev pub kind_function : ℕ
kind_function = 0

abbrev pub kind_global : ℕ
kind_global = 3

-- A round of the loop of `ParseSection_Function`.
unfoldable pub parse_function : Parsing → Result Parsing
unfolding read_leb_u32 module_add_function
parse_function (m, bytes) = do
  (func_type_index, bytes) ← try_leb (read_leb_u32 bytes)
  m ← module_add_function m func_type_index none
  ok (m, bytes)

-- `ParseSection_Function`
unfoldable pub parse_section_function : Module → Bytes → Result Module
unfolding read_leb_u32 parse_function module_prealloc_functions
parse_section_function m bytes = do
  (num_functions, bytes) ← try_leb (read_leb_u32 bytes)
  throwif too_many_functions (ltb max_sane_functions_count num_functions)
  let prepared = module_prealloc_functions m (u32 (m.num_functions + num_functions))
  (m, rest) ← for_loop (λ i. parse_function) num_functions 0 (prepared, bytes)
  ok m

-- The function takes the name if it has room for one more.
unfoldable pub export_function : Bytes → Function → Function
export_function utf8 f =
    if ltb (length f.names) max_duplicate_function_impl
    then record f { names = f.names ++ (some utf8 ∷ []); export_name = some utf8 }
    else f

unfoldable pub name_exported_function : Module → Bytes → ℕ → Result Module
unfolding export_function module_get_function
name_exported_function m utf8 index = elim (module_get_function m index) [
  | none ↦ err wasm_malformed
  | some f ↦ ok (write_function m index (export_function utf8 f))
]

unfoldable pub name_exported_global : Module → Bytes → ℕ → Result Module
name_exported_global m utf8 index = elim (get_elem? m.globals index) [
  | none ↦ err wasm_malformed
  | some g ↦ ok (record m { globals = set m.globals index (record g { name = some utf8 }) })
]

-- What an export does to the module: those of memories and tables are read only.
unfoldable pub add_export : Module → Bytes → ℕ → ℕ → Result Module
unfolding name_exported_function name_exported_global
add_export m utf8 export_kind index =
    if export_kind == kind_function
    then name_exported_function m utf8 index
    else if export_kind == kind_global
    then name_exported_global m utf8 index
    else ok m

-- A round of the loop of `ParseSection_Export`.
unfoldable pub parse_export : Parsing → Result Parsing
unfolding read_utf8 read_u8 read_leb_u32 add_export
parse_export (m, bytes) = do
  (utf8, bytes) ← read_utf8 bytes
  (export_kind, bytes) ← read_u8 bytes
  (index, bytes) ← try_leb (read_leb_u32 bytes)
  m ← add_export m utf8 export_kind index
  ok (m, bytes)

-- `ParseSection_Export`
unfoldable pub parse_section_export : Module → Bytes → Result Module
unfolding read_leb_u32 parse_export
parse_section_export m bytes = do
  (num_exports, bytes) ← try_leb (read_leb_u32 bytes)
  throwif too_many_exports (ltb max_sane_exports_count num_exports)
  (m, rest) ← for_loop (λ i. parse_export) num_exports 0 (m, bytes)
  ok m

-- `ParseSection_Start`
unfoldable pub parse_section_start : Module → Bytes → Result Module
unfolding read_leb_u32
parse_section_start m bytes = do
  (start_func_index, bytes) ← try_leb (read_leb_u32 bytes)
  if ltb start_func_index m.num_functions
      then ok (record m { start_function = start_func_index })
      else err start_function_out_of_bounds

-- The body of one function, from `start` to its end, goes to the function; NULL is not tested for.
unfoldable pub set_wasm : Module → ℕ → Bytes → Result Module
unfolding module_get_function
set_wasm m index body = elim (module_get_function m index) [
  | none ↦ err null_pointer
  | some f ↦ ok (write_function m index (record f { wasm = some body }))
]

abbrev pub continue_with : Bytes → Result Module → Result Parsing
continue_with rest parsed = parsed >>= λ m. ok (m, rest)

-- A round of the loop of `ParseSection_Code`.
unfoldable pub parse_code : ℕ → Parsing → Result Parsing
unfolding read_leb_u32 set_wasm
parse_code f (m, start) = do
  (size, bytes) ← try_leb (read_leb_u32 start)
  if size == 0
      then ok (m, bytes)
      else if leb size (length bytes)
      then continue_with (drop size bytes) (
          set_wasm m (u32 (f + m.num_func_imports))
            (take (length start - (length bytes - size)) start))
      else err wasm_section_overrun

-- `ParseSection_Code`
unfoldable pub parse_section_code : Module → Bytes → Result Module
unfolding read_leb_u32 parse_code
parse_section_code m bytes = do
  (num_functions, bytes) ← try_leb (read_leb_u32 bytes)
  throwif mismatched_function_count
      (not (num_functions == u32 (m.num_functions + 2 ^ 32 - m.num_func_imports)))
  (m, rest) ← for_loop parse_code num_functions 0 (m, bytes)
  if length rest == 0 then ok m else err wasm_section_underrun
