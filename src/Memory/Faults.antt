-- ===== src/Memory/Faults.antt =====
-- Two inputs at which `ResizeMemory` of cpp/m3_env.c and `op_MemGrow` of cpp/m3_exec.h leave
-- WebAssembly's rules: both come from 32-bit arithmetic on page counts.
use react_native_webassembly.Common.{ℕ, ◌-◌, ◌*◌, ◌^◌, ◌≡◌, ◌≤◌, ◌<◌, arith, none, some}
use react_native_webassembly.Runtime.{Address, Block, Runtime}
use react_native_webassembly.Memory.{
  SystemReply, mem_page_size, header_size, resize_memory, mem_grow,
}
use react_native_webassembly.Memory.InPlace.{IsPlaced}
use react_native_webassembly.Memory.Growth.{IsSized, length_of}

-- Growing by 2 ^ 32 - k pages, which must fail, takes k pages away and reports success: the sum of
-- the pages wraps. The memory that the program had above is out of bounds from then on.
pub mem_grow_shrinks :
    (reply : SystemReply) (rt : Runtime) (base : Address) (block : Block) (k : ℕ)
    → IsSized rt block
    → IsPlaced rt.memory
    → rt.memory.reservation ≡ some base
    → rt.memory.num_pages ≤ rt.memory.max_pages
    → 0 < k
    → k ≤ rt.memory.num_pages
    → let (result, rt') = mem_grow reply rt (2 ^ 32 - k) in
      (result ≡ rt.memory.num_pages)
      × (rt'.memory.num_pages ≡ rt.memory.num_pages - k)
      × (length_of rt'.memory.mallocated ≡ (rt.memory.num_pages - k) * mem_page_size)
unfolding mem_grow
mem_grow_shrinks reply rt base block k v placed reserved most pos small =
    ground (arith, v.unlimited, v.allocated, v.sized, v.few, placed.in_place, placed.within)

-- A memory of 65536 pages is accepted and has no byte at all: the size in bytes wraps to 0.
pub resize_memory-full :
    (reply : SystemReply) (rt : Runtime) (base : Address)
    → rt.memory_limit ≡ 0
    → rt.memory.max_pages ≡ 65536
    → rt.memory.reservation ≡ some base
    → header_size ≤ rt.memory.committed_bytes
    → rt.memory.committed_bytes ≤ rt.memory.reservation_bytes
    → let (status, rt') = resize_memory reply rt 65536 in
      (status ≡ none) × (rt'.memory.num_pages ≡ 65536) × (length_of rt'.memory.mallocated ≡ 0)
unfolding resize_memory
resize_memory-full reply rt base unlimited most reserved committed within = ground arith
