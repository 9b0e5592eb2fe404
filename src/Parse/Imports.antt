-- ===== src/Parse/Imports.antt =====
-- cpp/m3_parse.c, `ParseSection_Import`, with the types of memories and globals.
use react_native_webassembly.Common.{
  ℕ, ◌+◌, Bool, true, none, some, not, ltb, ◌==◌, if◌then◌else◌, u32,
}
use react_native_webassembly.Results.{
  Result, ok, err, ◌>>=◌, ◌>>◌, throwif, wasm_malformed, too_many_imports,
}
use react_native_webassembly.Core.Read.{Bytes, read_u8}
use react_native_webassembly.Core.Leb.{read_leb_u32, read_leb_u7, read_leb_i7, try_leb, leb_read}
use react_native_webassembly.Core.Loop.{for_loop}
use react_native_webassembly.Core.Utf8.{read_utf8}
use react_native_webassembly.Core.ValueType.{normalize_type}
use react_native_webassembly.Module.{
  ImportInfo, Global, MemoryInfo, Module, module_add_global, module_prealloc_functions,
  module_add_function,
}
use react_native_webassembly.Parse.Functions.{Parsing, kind_function, kind_global}

abbrev pub max_sane_imports_count : ℕ
max_sane_imports_count = 100000

abbrev pub kind_table : ℕ
kind_table = 1

abbrev pub kind_memory : ℕ
kind_memory = 2

-- `ParseType_Memory`
unfoldable pub parse_type_memory : Bytes → Result (MemoryInfo × Bytes)
unfolding read_leb_u32 read_leb_u7
parse_type_memory bytes = do
  (flag, bytes) ← try_leb (read_leb_u7 bytes)
  (init_pages, bytes) ← try_leb (read_leb_u32 bytes)
  (max_pages, bytes) ← try_leb (if flag == 0 then leb_read none 0 bytes else read_leb_u32 bytes)
  ok (record { init_pages = init_pages; max_pages = max_pages }, bytes)

-- The four kinds of import, behind the names and the kind.
unfoldable pub parse_import_function : ImportInfo → Parsing → Result Parsing
unfolding read_leb_u32 module_add_function
parse_import_function import (m, bytes) = do
  (type_index, bytes) ← try_leb (read_leb_u32 bytes)
  m ← module_add_function m type_index (some import)
  ok (record m { num_func_imports = u32 (m.num_func_imports + 1) }, bytes)

unfoldable pub parse_import_memory : Parsing → Result Parsing
unfolding parse_type_memory
parse_import_memory (m, bytes) = do
  (info, bytes) ← parse_type_memory bytes
  ok (record m { memory_info = info; memory_imported = true }, bytes)

-- The type of a global and whether it is mutable.
unfoldable pub parse_global_type : Bytes → Result (ℕ × Bool × Bytes)
unfolding read_leb_u7 read_leb_i7 normalize_type
parse_global_type bytes = do
  (wa_type, bytes) ← try_leb (read_leb_i7 bytes)
  type ← normalize_type wa_type
  (is_mutable, bytes) ← try_leb (read_leb_u7 bytes)
  ok (type, not (is_mutable == 0), bytes)

-- A global as `Module_AddGlobal` makes it, with its import.
abbrev pub new_global : ℕ → Bool → Bool → ImportInfo → Global
new_global type is_mutable imported import = record {
  import = import;
  value = 0;
  name = none;
  init_expr = none;
  init_expr_size = 0;
  type = type;
  imported = imported;
  is_mutable = is_mutable;
}

unfoldable pub parse_import_global : ImportInfo → Parsing → Result Parsing
unfolding parse_global_type module_add_global
parse_import_global import (m, bytes) = do
  (type, is_mutable, bytes) ← parse_global_type bytes
  ok (module_add_global m (new_global type is_mutable true import), bytes)

-- A round of the loop of `ParseSection_Import`: a table's type is not read.
unfoldable pub parse_import : Parsing → Result Parsing
unfolding read_utf8 read_u8 parse_import_function parse_import_memory parse_import_global
parse_import (m, bytes) = do
  (module_utf8, bytes) ← read_utf8 bytes
  (field_utf8, bytes) ← read_utf8 bytes
  (import_kind, bytes) ← read_u8 bytes
  let import : ImportInfo = record { module_utf8 = some module_utf8; field_utf8 = some field_utf8 }
  if import_kind == kind_function
      then parse_import_function import (m, bytes)
      else if import_kind == kind_table
      then ok (m, bytes)
      else if import_kind == kind_memory
      then parse_import_memory (m, bytes)
      else if import_kind == kind_global
      then parse_import_global import (m, bytes)
      else err wasm_malformed

-- `ParseSection_Import`
unfoldable pub parse_section_import : Module → Bytes → Result Module
unfolding read_leb_u32 parse_import module_prealloc_functions
parse_section_import m bytes = do
  (num_imports, bytes) ← try_leb (read_leb_u32 bytes)
  throwif too_many_imports (ltb max_sane_imports_count num_imports)
  (m, rest) ←
      for_loop (λ i. parse_import) num_imports 0 (module_prealloc_functions m num_imports, bytes)
  ok m
