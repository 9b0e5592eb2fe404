-- ===== src/Load.antt =====
-- cpp/m3_env.c, `m3_LoadModule`: globals, data segments and the table of a module. `evaluate` stands
-- for `EvaluateExpression`, which compiles and runs an initial expression of a type: the bits of its
-- value and the bytes behind it, or its error.
pub mod Segments
pub mod Table
pub mod Globals
pub mod Safety
mod Tests
use react_native_webassembly.Common.{
  ℕ, zero, suc, ◌+◌, ◌-◌, ◌^◌, Bool, true, false, ◌&&◌, Option, none, some, List, [], ◌∷◌, ◌++◌,
  ltb, leb, ◌==◌, if◌then◌else◌, length, get_elem?, get_or, set, take, replicate,
}
use react_native_webassembly.Results.{
  Status, Result, ok, err, ◌>>=◌, and_then, null_pointer, module_already_linked, malloc_failed,
  unallocated_linear_memory, data_segment_out_of_bounds, table_underflow, table_overflow,
  function_index_out_of_range, element_table_index,
}
use react_native_webassembly.Core.Read.{Bytes}
use react_native_webassembly.Core.Leb.{read_leb_u32, try_leb}
use react_native_webassembly.Core.ValueType.{type_i32}
use react_native_webassembly.Runtime.{Block, Memory, Runtime}
use react_native_webassembly.Memory.{SystemReply, init_memory}
use react_native_webassembly.Module.{Module, Global, DataSegment}

abbrev pub max_sane_table_size : ℕ
max_sane_table_size = 10000000

-- An i32 offset is negative.
abbrev pub is_negative : ℕ → Bool
is_negative offset = leb (2 ^ 31) offset

abbrev pub set_global_value : Module → ℕ → Global → ℕ → Module
set_global_value m i g value = record m { globals = set m.globals i (record g { value = value }) }

-- `memcpy` of a segment to its place.
abbrev pub stored : Block → ℕ → ℕ → Bytes → Block
stored block offset size bytes = record block {
  cells = λ i.
      if leb offset i && ltb i (offset + size) then get_or bytes (i - offset) 0 else block.cells i;
}

-- A segment at its offset, if it is in bounds.
unfoldable pub place_segment : DataSegment → Block → ℕ → Result Block
place_segment segment block offset =
    if is_negative offset
    then err data_segment_out_of_bounds
    else if leb (offset + segment.size) block.length
    then ok (stored block offset segment.size segment.bytes)
    else err data_segment_out_of_bounds

-- Room in the table for `end` elements; NULL pointers fill it, and it never gets shorter.
abbrev pub grow_table : Module → ℕ → Module
grow_table m end = record m { table = m.table ++ replicate (end - length m.table) none }

-- The loop over the functions of an element segment, from place `at` on.
unfoldable pub store_elements : ℕ → ℕ → Module → Bytes → Module × Result Bytes
unfolding read_leb_u32
store_elements zero at m bytes = (m, ok bytes)
store_elements (suc n) at m bytes =
    and_then m (try_leb (read_leb_u32 bytes)) (λ (function_index, rest).
      elim (leb m.num_functions function_index) [
        | true ↦ (m, err function_index_out_of_range)
        | false ↦
            store_elements n (suc at) (record m { table = set m.table at (some function_index) })
              rest
      ])

module _ (evaluate : Module → ℕ → Bytes → Result (ℕ × Bytes)) where
  -- The loop of `InitGlobals`, from global `i` on.
  unfoldable pub init_globals_from : ℕ → ℕ → Module → Module × Result (Unit {0})
  init_globals_from zero i m = (m, ok tt)
  init_globals_from (suc n) i m = elim (get_elem? m.globals i) [
    | none ↦ (m, err null_pointer)
    | some g ↦ elim g.init_expr [
      | none ↦ init_globals_from n (suc i) m
      | some start ↦
          and_then m (evaluate m g.type (take g.init_expr_size start))
            (λ (value, rest). init_globals_from n (suc i) (set_global_value m i g value))
    ]
  ]

  -- `InitGlobals`
  unfoldable pub init_globals : Module → Module × Result (Unit {0})
  unfolding init_globals_from
  init_globals m = init_globals_from (length m.globals) 0 m

  -- A round of the loop of `InitDataSegments`.
  unfoldable pub init_data_segment : Module → DataSegment → Block → Result Block
  unfolding place_segment
  init_data_segment m segment block = do
    (offset, rest) ← evaluate m type_i32 (take segment.init_expr_size segment.init_expr)
    place_segment segment block offset

  unfoldable pub store_segments : Module → List DataSegment → Block → Block × Result (Unit {0})
  unfolding init_data_segment
  store_segments m [] block = (block, ok tt)
  store_segments m (segment ∷ segments) block =
      and_then block (init_data_segment m segment block)
        (λ block'. store_segments m segments block')

  -- `InitDataSegments`: the segments in front of one that fails stay stored.
  unfoldable pub init_data_segments : Memory → Module → Memory × Result (Unit {0})
  unfolding store_segments
  init_data_segments mem m = elim mem.mallocated [
    | none ↦ (mem, err unallocated_linear_memory)
    | some block ↦
        let (block', result) = store_segments m m.data_segments block in
        (record mem { mallocated = some block' }, result)
  ]

  -- A round of the loop of `InitElements`. A table without elements is a NULL pointer.
  unfoldable pub init_element_segment : Module → Bytes → Module × Result Bytes
  unfolding read_leb_u32 store_elements
  init_element_segment m bytes = and_then m (try_leb (read_leb_u32 bytes)) (λ (index, bytes).
      elim (index == 0) [
        | false ↦ (m, err element_table_index)
        | true ↦ and_then m (evaluate m type_i32 bytes) (λ (offset, bytes).
            elim (is_negative offset) [
              | true ↦ (m, err table_underflow)
              | false ↦ and_then m (try_leb (read_leb_u32 bytes)) (λ (num_elements, bytes).
                  elim (ltb max_sane_table_size (num_elements + offset)) [
                    | true ↦ (m, err table_overflow)
                    | false ↦
                        let m' = grow_table m (num_elements + offset) in
                        elim (length m'.table == 0) [
                          | true ↦ (m', err malloc_failed)
                          | false ↦ store_elements num_elements offset m' bytes
                        ]
                  ])
            ])
      ])

  unfoldable pub init_elements_from : ℕ → Module → Bytes → Module × Result (Unit {0})
  unfolding init_element_segment
  init_elements_from zero m bytes = (m, ok tt)
  init_elements_from (suc n) m bytes =
      let (m', result) = init_element_segment m bytes in
      and_then m' result (λ rest. init_elements_from n m' rest)

  -- `InitElements`
  unfoldable pub init_elements : Module → Module × Result (Unit {0})
  unfolding init_elements_from
  init_elements m = init_elements_from m.num_element_segments m m.element_section

  -- `m3_LoadModule` up to the list of the runtime's modules: `linked` says whether the module has a
  -- runtime already. What the steps before an error did is not undone.
  unfoldable pub load_module :
      SystemReply → Runtime → Bool → Module → (Runtime × Module) × Result (Unit {0})
  unfolding init_memory init_globals init_data_segments init_elements
  load_module reply rt true m = ((rt, m), err module_already_linked)
  load_module reply rt false m =
      let (status, rt') =
        init_memory reply rt m.memory_imported m.memory_info.init_pages m.memory_info.max_pages in
      elim status [
        | some e ↦ ((rt', m), err e)
        | none ↦
            let (m', globals) = init_globals m in
            and_then (rt', m') globals
              (λ u.
                let (mem, data_done) = init_data_segments rt'.memory m' in
                and_then (record rt' { memory = mem }, m') data_done
                  (λ u.
                    let (m'', result) = init_elements m' in
                    ((record rt' { memory = mem }, m''), result)))
      ]
