-- ===== src/Load/Tests.antt =====
-- A module with data, elements and globals for `m3_LoadModule` of cpp/m3_env.c, and the theorems on
-- loading at it.
use react_native_webassembly.Common.{
  ℕ, ◌≡◌, refl, inl, arith, true, false, none, some, [], ◌∷◌, length, take,
}
use react_native_webassembly.Results.{
  Result, ok, err, wasm_underrun, malloc_failed, data_segment_out_of_bounds,
}
use react_native_webassembly.Core.Read.{Bytes}
use react_native_webassembly.Core.ValueType.{type_i32}
use react_native_webassembly.Runtime.{Block, Runtime}
use react_native_webassembly.Memory.{SystemReply}
use react_native_webassembly.Memory.InPlace.{IsPlaced}
use react_native_webassembly.Module.{
  Function, Global, DataSegment, Module, new_module, no_import, zeroed_function,
}
use react_native_webassembly.Load.{store_segments, init_element_segment, init_elements, load_module}
use react_native_webassembly.Load.Segments.{
  byte_or, store_segments_in_bounds, store_segments-last_byte,
}
use react_native_webassembly.Load.Table.{IsTable, init_elements-IsTable}
use react_native_webassembly.Load.Safety.{load_module-IsSafe}
use react_native_webassembly.Load.Globals.{
  find_function, find_global, TaggedValue, get_global, set_global,
}
use react_native_webassembly.Load.Globals.Names.{Named, IsImportedAs, IsInternalAs}
use react_native_webassembly.Load.Globals.Search.{
  IsPreferred, find_function-IsPreferred, find_global-IsPreferred, set_global-get_global,
}

-- An expression that is one `i32.const` of one byte.
abbrev const_only : Module → ℕ → Bytes → Result (ℕ × Bytes)
const_only m type (op ∷ value ∷ end ∷ rest) = ok (value, rest)
const_only m type _ = err wasm_underrun

abbrev segment : ℕ → Bytes → DataSegment
segment offset bytes = record {
  init_expr = 0x41 ∷ offset ∷ 0x0b ∷ [];
  init_expr_size = 3;
  memory_region = 0;
  size = length bytes;
  bytes = bytes;
}

abbrev named : Function
named = record zeroed_function {
  names = some (0x66 ∷ []) ∷ [];
  export_name = some (0x67 ∷ []);
  func_type = some 0;
}

abbrev counter : Global
counter = record {
  import = no_import;
  value = 7;
  name = some (0x6e ∷ []);
  init_expr = some (0x41 ∷ 0x05 ∷ 0x0b ∷ []);
  init_expr_size = 3;
  type = type_i32;
  imported = false;
  is_mutable = true;
}

-- One element segment: functions 0 and 0 from place 1 on.
abbrev loaded : Module
loaded = record new_module {
  func_types = 0 ∷ [];
  num_functions = 1;
  functions = named ∷ [];
  globals = counter ∷ [];
  data_segments = segment 4 (9 ∷ 8 ∷ []) ∷ segment 5 (7 ∷ []) ∷ [];
  num_element_segments = 1;
  element_section = 0 ∷ 0x41 ∷ 0x01 ∷ 0x0b ∷ 2 ∷ 0 ∷ 0 ∷ [];
  memory_info = record { init_pages = 1; max_pages = 2 };
}

abbrev block : Block
block = record { address = 4096; max_stack = 0; length = 16; cells = λ i. 0 }

abbrev after : Block
after = (store_segments const_only loaded loaded.data_segments block).0

store_segments_in_bounds_example :
    (after.address ≡ 4096) × (after.length ≡ 16) × (after.cells 16 ≡ 0)
store_segments_in_bounds_example =
    store_segments_in_bounds const_only loaded loaded.data_segments block 16 (omega arith)

stored_both : store_segments const_only loaded loaded.data_segments block ≡ (after, ok tt)
unfolding store_segments
stored_both = refl

-- The second segment overwrites the last byte of the first.
store_segments-last_byte_example : after.cells 5 ≡ byte_or 0 (some 7)
store_segments-last_byte_example =
    store_segments-last_byte const_only loaded loaded.data_segments block after 5 stored_both

out_of_bounds :
    (store_segments const_only loaded (segment 15 (1 ∷ 2 ∷ []) ∷ []) block).1
    ≡ err data_segment_out_of_bounds
unfolding store_segments
out_of_bounds = refl

abbrev roomy : Module
roomy = record loaded { table = none ∷ none ∷ none ∷ [] }

init_elements-IsTable_example : IsTable 1 0 (init_elements const_only loaded).0
init_elements-IsTable_example =
    init_elements-IsTable const_only loaded (refl, tt, omega arith, omega arith)

table_filled : (init_elements const_only loaded).0.table ≡ none ∷ some 0 ∷ some 0 ∷ []
unfolding init_elements
table_filled = refl

-- An empty segment for a module without elements is refused as if memory had run out.
empty_segment :
    (init_element_segment const_only loaded (0 ∷ 0x41 ∷ 0x00 ∷ 0x0b ∷ 0 ∷ [])).1 ≡ err malloc_failed
unfolding init_element_segment
empty_segment = refl

abbrev fresh : Runtime
fresh = record {
  environment = record { func_types = []; pages_released = [] };
  pages_open = [];
  pages_full = [];
  num_code_pages = 0;
  num_active_code_pages = 0;
  stack = 0;
  num_stack_slots = 0;
  memory = record {
    mallocated = none;
    num_pages = 0;
    max_pages = 0;
    reservation = none;
    reservation_bytes = 0;
    committed_bytes = 0;
  };
  memory_limit = 0;
  call_depth = 0;
  new_code_page_sequence = 0;
}

abbrev granted : SystemReply
granted = record { mmap = some 4096; mprotect = true; realloc = none }

fresh-IsPlaced : IsPlaced fresh.memory
fresh-IsPlaced = record { in_place = tt; within = inl refl }

load_module-IsSafe_example :
    IsPlaced (load_module const_only granted fresh false loaded).0.0.memory
    × IsTable 1 0 (load_module const_only granted fresh false loaded).0.1
load_module-IsSafe_example =
    load_module-IsSafe const_only granted fresh false loaded fresh-IsPlaced
      (refl, tt, omega arith, omega arith)

load_succeeds : (load_module const_only granted fresh false loaded).1 ≡ ok tt
unfolding load_module
load_succeeds = refl

find_function-IsPreferred_example :
    IsPreferred
      (λ (f : Function). Named (0x66 ∷ []) f.export_name)
      (IsInternalAs (0x66 ∷ []))
      (take loaded.num_functions loaded.functions)
      (find_function loaded (0x66 ∷ []))
find_function-IsPreferred_example = find_function-IsPreferred loaded (0x66 ∷ [])

find_global-IsPreferred_example :
    IsPreferred
      (λ (g : Global). Named (0x6e ∷ []) g.name)
      (IsImportedAs (0x6e ∷ []))
      loaded.globals
      (find_global loaded (0x6e ∷ []))
find_global-IsPreferred_example = find_global-IsPreferred loaded (0x6e ∷ [])

found_function : find_function loaded (0x66 ∷ []) ≡ some 0
unfolding find_function
found_function = refl

found_global : find_global loaded (0x6e ∷ []) ≡ some 0
unfolding find_global
found_global = refl

abbrev nine : TaggedValue
nine = record { type = type_i32; bits = 9 }

set_nine : set_global (some counter) nine ≡ ok (record counter { value = 9 })
unfolding set_global
set_nine = refl

set_global-get_global_example : get_global (some (record counter { value = 9 })) ≡ ok nine
set_global-get_global_example =
    set_global-get_global counter (record counter { value = 9 }) nine set_nine
