-- ===== src/Module.antt =====
-- The module of cpp/m3_env.h and its functions in cpp/m3_module.c. An array is the list of its
-- elements; a pointer into the binary is the list of the bytes from there on.
pub mod Validity
use react_native_webassembly.Common.{
  ℕ, ◌+◌, ◌-◌, ◌^◌, Bool, false, ◌&&◌, Option, none, some, List, [], ◌∷◌, ◌++◌, leb, ltb, ◌==◌,
  if◌then◌else◌, length, get_elem?, set, replicate, u32,
}
use react_native_webassembly.Results.{Result, ok, err, null_pointer, type_sig_out_of_bounds}
use react_native_webassembly.Core.Read.{Bytes}
use react_native_webassembly.FuncTypes.{TypeRef}

-- `M3ImportInfo`
pub record ImportInfo : Type 0 where
  pub module_utf8 : Option Bytes
  pub field_utf8 : Option Bytes

-- The parts of `M3Function` that the parser fills; `names` holds the first `numNames` of the array.
pub record Function : Type 0 where
  pub import : ImportInfo
  pub wasm : Option Bytes
  pub names : List (Option Bytes)
  pub export_name : Option Bytes
  pub func_type : Option TypeRef
  pub compiled : Option ℕ

-- `M3Global`; the union of the values is its bit pattern.
pub record Global : Type 0 where
  pub import : ImportInfo
  pub value : ℕ
  pub name : Option Bytes
  pub init_expr : Option Bytes
  pub init_expr_size : ℕ
  pub type : ℕ
  pub imported : Bool
  pub is_mutable : Bool

-- `M3DataSegment`; its field `data` is `bytes`.
pub record DataSegment : Type 0 where
  pub init_expr : Bytes
  pub init_expr_size : ℕ
  pub memory_region : ℕ
  pub size : ℕ
  pub bytes : Bytes

-- `M3MemoryInfo`
pub record MemoryInfo : Type 0 where
  pub init_pages : ℕ
  pub max_pages : ℕ

-- `M3Module`: `functions` has `allFunctions` elements, the first `numFunctions` in use; the lengths
-- of the other lists are the counts beside them. `start_function` is the bit pattern of an i32.
pub record Module : Type 0 where
  pub func_types : List TypeRef
  pub num_func_imports : ℕ
  pub num_functions : ℕ
  pub functions : List Function
  pub start_function : ℕ
  pub data_segments : List DataSegment
  pub globals : List Global
  pub num_element_segments : ℕ
  pub element_section : Bytes
  pub table : List (Option ℕ)
  pub memory_info : MemoryInfo
  pub memory_imported : Bool

abbrev pub no_import : ImportInfo
no_import = record { module_utf8 = none; field_utf8 = none }

-- Memory from `calloc`.
abbrev pub zeroed_function : Function
zeroed_function = record {
  import = no_import;
  wasm = none;
  names = [];
  export_name = none;
  func_type = none;
  compiled = none;
}

-- What `m3_ParseModule` starts from.
abbrev pub new_module : Module
new_module = record {
  func_types = [];
  num_func_imports = 0;
  num_functions = 0;
  functions = [];
  start_function = 2 ^ 32 - 1;
  data_segments = [];
  globals = [];
  num_element_segments = 0;
  element_section = [];
  table = [];
  memory_info = record { init_pages = 0; max_pages = 0 };
  memory_imported = false;
}

-- `Module_AddGlobal`, where memory is there, with the global as its callers fill it in.
unfoldable pub module_add_global : Module → Global → Module
module_add_global m global = record m { globals = m.globals ++ (global ∷ []) }

-- `Module_PreallocFunctions`, where memory is there.
unfoldable pub module_prealloc_functions : Module → ℕ → Module
module_prealloc_functions m total_functions =
    if ltb (length m.functions) total_functions
    then record m {
      functions = m.functions ++ replicate (total_functions - length m.functions) zeroed_function;
    }
    else m

-- `Module_GetFunction`
unfoldable pub module_get_function : Module → ℕ → Option Function
module_get_function m index =
    if ltb index m.num_functions then get_elem? m.functions index else none

-- A write through the pointer that `Module_GetFunction` returns.
abbrev pub write_function : Module → ℕ → Function → Module
write_function m index f = record m { functions = set m.functions index f }

-- The function that an import describes, if it has no name yet.
unfoldable pub describe_import : Option ImportInfo → Function → Function
describe_import none f = f
describe_import (some info) f =
    if length f.names == 0 then record f { import = info; names = info.field_utf8 ∷ [] } else f

-- `Module_AddFunction`
unfoldable pub module_add_function : Module → ℕ → Option ImportInfo → Result Module
unfolding module_prealloc_functions module_get_function describe_import
module_add_function m type_index import_info =
    let index = m.num_functions in
    let m =
      module_prealloc_functions (record m { num_functions = u32 (index + 1) }) (u32 (index + 1)) in
    elim (get_elem? m.func_types type_index) [
      | none ↦ err type_sig_out_of_bounds
      | some ft ↦ elim (module_get_function m index) [
        | none ↦ err null_pointer
        | some f ↦ ok (
            write_function m index (describe_import import_info (record f { func_type = some ft })))
      ]
    ]
