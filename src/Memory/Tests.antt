-- ===== src/Memory/Tests.antt =====
-- Concrete resizes of cpp/m3_env.c, and the theorems on linear memory at concrete states.
use react_native_webassembly.Common.{
  ℕ, ◌+◌, ◌-◌, ◌*◌, ◌^◌, ◌≡◌, ◌≤◌, ◌<◌, ◌⊎◌, refl, arith, none, some, true, false, [], u32,
}
use react_native_webassembly.Results.{malloc_failed, err, trap_out_of_bounds_memory_access, ok}
use react_native_webassembly.Runtime.{Block, Memory, Runtime}
use react_native_webassembly.Memory.{
  SystemReply, mem_page_size, minus_one, resize_memory, mem_grow, mem_copy, mem_fill,
}
use react_native_webassembly.Memory.Access.{mem_copy_outcome, mem_fill_outcome}
use react_native_webassembly.Memory.InPlace.{
  IsPlaced, AtBase, MemorySteps, start, next, grow, MemorySteps-AtBase,
}
use react_native_webassembly.Memory.Growth.{
  IsSized, Resized, view, length_of, resize_memory-Resized, mem_grow-view,
}
use react_native_webassembly.Memory.Faults.{mem_grow_shrinks, resize_memory-full}

abbrev grants : SystemReply
grants = record { mmap = some 4096; mprotect = true; realloc = some 8192 }

abbrev refuses : SystemReply
refuses = record { mmap = none; mprotect = false; realloc = none }

abbrev no_memory : ℕ → Memory
no_memory pages = record {
  mallocated = none;
  num_pages = 0;
  max_pages = pages;
  reservation = none;
  reservation_bytes = 0;
  committed_bytes = 0;
}

abbrev runtime : Memory → Runtime
runtime mem = record {
  environment = record { func_types = []; pages_released = [] };
  pages_open = [];
  pages_full = [];
  num_code_pages = 0;
  num_active_code_pages = 0;
  stack = 64;
  num_stack_slots = 1024;
  memory = mem;
  memory_limit = 0;
  call_depth = 0;
  new_code_page_sequence = 0;
}

-- Two pages in a reservation for ten.
abbrev two_pages : Block
two_pages = record { address = 4096; max_stack = 4160; length = 131072; cells = λ i. 0 }

abbrev placed : Memory
placed = record {
  mallocated = some two_pages;
  num_pages = 2;
  max_pages = 10;
  reservation = some 4096;
  reservation_bytes = 655384;
  committed_bytes = 131096;
}

first_resize : (resize_memory grants (runtime (no_memory 10)) 2).1.memory ≡ placed
unfolding resize_memory
first_resize = refl

grow_past_maximum : (mem_grow grants (runtime placed) 9).0 ≡ minus_one
unfolding mem_grow
grow_past_maximum = refl

fallback : (resize_memory refuses (runtime (no_memory 10)) 2).0 ≡ some malloc_failed
unfolding resize_memory
fallback = refl

placed-IsPlaced : IsPlaced placed
placed-IsPlaced = ground arith

placed-AtBase : AtBase 4096 placed
placed-AtBase = (refl, refl)

placed-IsSized : IsSized (runtime placed) two_pages
placed-IsSized = ground arith

mem_copy_outcome_example :
    ((mem_copy two_pages 4 0 131070 ≡ err trap_out_of_bounds_memory_access)
      × ((131072 < 131070 + u32 4) ⊎ (131072 < 0 + u32 4)))
    ⊎ ((mem' : Block) × (mem_copy two_pages 4 0 131070 ≡ ok mem')
        × (131070 + u32 4 ≤ 131072)
        × (0 + u32 4 ≤ 131072)
        × ((j : ℕ) → j < u32 4 → mem'.cells (131070 + j) ≡ 0)
        × ((i : ℕ) → (i < 131070) ⊎ (131070 + u32 4 ≤ i) → mem'.cells i ≡ 0)
        × (mem'.length ≡ 131072))
mem_copy_outcome_example = mem_copy_outcome two_pages 4 0 131070

mem_fill_outcome_example :
    ((mem_fill two_pages 4 7 16 ≡ err trap_out_of_bounds_memory_access) × (131072 < 16 + u32 4))
    ⊎ ((mem' : Block) × (mem_fill two_pages 4 7 16 ≡ ok mem')
        × (16 + u32 4 ≤ 131072)
        × ((j : ℕ) → j < u32 4 → mem'.cells (16 + j) ≡ 7)
        × ((i : ℕ) → (i < 16) ⊎ (16 + u32 4 ≤ i) → mem'.cells i ≡ 0)
        × (mem'.length ≡ 131072))
mem_fill_outcome_example = mem_fill_outcome two_pages 4 7 16

-- A refused growth, then one that the system grants.
abbrev after_growths : Runtime
after_growths = (mem_grow grants (mem_grow refuses (runtime placed) 3).1 3).1

two_growths : MemorySteps (runtime placed) after_growths
two_growths = next (next start (grow refuses (runtime placed) 3)) (grow grants _ 3)

MemorySteps-AtBase_example : AtBase 4096 after_growths.memory
MemorySteps-AtBase_example = MemorySteps-AtBase two_growths placed-AtBase

resize_memory-Resized_example :
    let r = resize_memory grants (runtime placed) 5 in Resized (runtime placed) 5 r.0 r.1.memory
resize_memory-Resized_example = resize_memory-Resized grants (runtime placed) 5

mem_grow-view_example :
    let (result, rt') = mem_grow grants (runtime placed) 3 in
    ((i : ℕ) → view rt'.memory i ≡ view placed i)
    × (((result ≡ 2)
          × (rt'.memory.num_pages ≡ 5)
          × (length_of rt'.memory.mallocated ≡ 5 * mem_page_size))
        ⊎ ((result ≡ minus_one)
            × (rt'.memory.num_pages ≡ 2)
            × (rt'.memory.mallocated ≡ some two_pages)))
mem_grow-view_example =
    mem_grow-view grants (runtime placed) two_pages placed-IsSized (λ i h. refl) 3 (omega arith)

mem_grow_shrinks_example :
    let (result, rt') = mem_grow refuses (runtime placed) (2 ^ 32 - 1) in
    (result ≡ 2)
    × (rt'.memory.num_pages ≡ 1)
    × (length_of rt'.memory.mallocated ≡ 1 * mem_page_size)
mem_grow_shrinks_example =
    mem_grow_shrinks refuses (runtime placed) 4096 two_pages 1 placed-IsSized placed-IsPlaced refl
      (omega arith) (omega arith) (omega arith)

-- The largest memory that a module may declare.
abbrev largest : Memory
largest = record placed { max_pages = 65536; reservation_bytes = 4294967320 }

resize_memory-full_example :
    let (status, rt') = resize_memory refuses (runtime largest) 65536 in
    (status ≡ none) × (rt'.memory.num_pages ≡ 65536) × (length_of rt'.memory.mallocated ≡ 0)
resize_memory-full_example =
    resize_memory-full refuses (runtime largest) 4096 refl refl refl (omega arith) (omega arith)
