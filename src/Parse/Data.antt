-- ===== src/Parse/Data.antt =====
-- cpp/m3_parse.c, the sections on memory and globals: `ParseSection_Memory`,
-- `ParseSection_Global`, `ParseSection_Element` and `ParseSection_Data`.
use react_native_webassembly.Common.{
  ℕ, ◌-◌, false, none, some, List, [], ◌∷◌, ◌++◌, not, ltb, leb, ◌==◌, if◌then◌else◌, length, drop,
  u32,
}
use react_native_webassembly.Results.{
  Status, Result, ok, ◌>>=◌, ◌>>◌, throwif, too_many_memory_sections, too_many_globals,
  too_many_element_segments, too_many_data_segments, wasm_missing_init_expr, data_segment_underflow,
}
use react_native_webassembly.Core.Read.{Bytes}
use react_native_webassembly.Core.Leb.{LebRead, read_leb_u32, read_leb_u7, try_leb}
use react_native_webassembly.Core.Loop.{for_loop}
use react_native_webassembly.Module.{Module, MemoryInfo, DataSegment, no_import, module_add_global}
use react_native_webassembly.Parse.Functions.{Parsing}
use react_native_webassembly.Parse.Imports.{parse_global_type, new_global}

abbrev pub max_sane_globals_count : ℕ
max_sane_globals_count = 1000000

abbrev pub max_sane_element_segments : ℕ
max_sane_element_segments = 10000000

abbrev pub max_sane_data_segments : ℕ
max_sane_data_segments = 100000

-- What `ParseType_Memory` has written when it returns, an error included: `ParseSection_Memory`
-- does not look at the result. A failed reader writes its value too.
unfoldable pub written_memory_info : MemoryInfo → Bytes → MemoryInfo
unfolding read_leb_u32 read_leb_u7
written_memory_info info bytes =
    let flag = read_leb_u7 bytes in
    let init = read_leb_u32 flag.rest in
    let maximum = read_leb_u32 init.rest in after flag.result flag.value init maximum
  where
    after : Status → ℕ → LebRead → LebRead → MemoryInfo
    after (some e) flag init maximum = info
    after none flag init maximum = record {
      init_pages = init.value;
      max_pages = elim init.result [
        | some e ↦ info.max_pages
        | none ↦ if flag == 0 then 0 else maximum.value
      ];
    }

-- `ParseSection_Memory`
unfoldable pub parse_section_memory : Module → Bytes → Result Module
unfolding read_leb_u32 written_memory_info
parse_section_memory m bytes = do
  (num_memories, bytes) ← try_leb (read_leb_u32 bytes)
  throwif too_many_memory_sections (not (num_memories == 1))
  ok (record m { memory_info = written_memory_info m.memory_info bytes })

-- `ParseSection_Element`
unfoldable pub parse_section_element : Module → Bytes → Result Module
unfolding read_leb_u32
parse_section_element m bytes = do
  (num_segments, bytes) ← try_leb (read_leb_u32 bytes)
  throwif too_many_element_segments (ltb max_sane_element_segments num_segments)
  ok (record m { element_section = bytes; num_element_segments = num_segments })

module _ (walk : Bytes → Result Bytes) where
  -- `Parse_InitExpr` and the size of what it passed over, which is not just an `end`.
  unfoldable pub parse_init_expr : Bytes → Result (ℕ × Bytes)
  parse_init_expr bytes = do
    rest ← walk bytes
    let size = u32 (length bytes - length rest)
    throwif wasm_missing_init_expr (leb size 1)
    ok (size, rest)

  -- A round of the loop of `ParseSection_Global`.
  unfoldable pub parse_global : Parsing → Result Parsing
  unfolding parse_global_type module_add_global parse_init_expr
  parse_global (m, bytes) = do
    (type, is_mutable, bytes) ← parse_global_type bytes
    (size, rest) ← parse_init_expr bytes
    let global = new_global type is_mutable false no_import
    ok (module_add_global m (record global { init_expr = some bytes; init_expr_size = size }), rest)

  -- `ParseSection_Global`
  unfoldable pub parse_section_global : Module → Bytes → Result Module
  unfolding read_leb_u32 parse_global
  parse_section_global m bytes = do
    (num_globals, bytes) ← try_leb (read_leb_u32 bytes)
    throwif too_many_globals (ltb max_sane_globals_count num_globals)
    (m, rest) ← for_loop (λ i. parse_global) num_globals 0 (m, bytes)
    ok m

  -- A round of the loop of `ParseSection_Data`.
  unfoldable pub parse_data_segment : List DataSegment × Bytes → Result (List DataSegment × Bytes)
  unfolding read_leb_u32 parse_init_expr
  parse_data_segment (segments, bytes) = do
    (memory_region, bytes) ← try_leb (read_leb_u32 bytes)
    (init_expr_size, rest) ← parse_init_expr bytes
    (size, data_bytes) ← try_leb (read_leb_u32 rest)
    let segment : DataSegment = record {
      init_expr = bytes;
      init_expr_size = init_expr_size;
      memory_region = memory_region;
      size = size;
      bytes = data_bytes;
    }
    throwif data_segment_underflow (ltb (length data_bytes) size)
    ok (segments ++ (segment ∷ []), drop size data_bytes)

  -- `ParseSection_Data`
  unfoldable pub parse_section_data : Module → Bytes → Result Module
  unfolding read_leb_u32 parse_data_segment
  parse_section_data m bytes = do
    (num_data_segments, bytes) ← try_leb (read_leb_u32 bytes)
    throwif too_many_data_segments (ltb max_sane_data_segments num_data_segments)
    (segments, rest) ← for_loop (λ i. parse_data_segment) num_data_segments 0 ([], bytes)
    ok (record m { data_segments = segments })
