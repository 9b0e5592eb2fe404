-- ===== src/Memory/Growth.antt =====
-- What a resize of cpp/m3_env.c and `op_MemGrow` of cpp/m3_exec.h make of the contents.
use react_native_webassembly.Common.{
  ℕ, sym, subst, Option-cases, inl, inr, ◌+◌, ◌*◌, ◌≡◌, ◌≤◌, ◌<◌, ◌⊎◌, arith, Option, none, some,
  u32, ltb, if◌then◌else◌,
}
use react_native_webassembly.Results.{Status}
use react_native_webassembly.Runtime.{Address, Block, Memory, Runtime}
use react_native_webassembly.Memory.{
  SystemReply, limited, page_bytes, mem_page_size, minus_one, max_linear_memory_pages, reserve,
  resize_reserved, resize_memory, mem_grow, cells_of,
}

abbrev pub length_of : Option Block → ℕ
length_of none = 0
length_of (some block) = block.length

-- The bytes that a program sees: those below `length`, and nothing past them.
abbrev pub view : Memory → ℕ → ℕ
view mem i = if ltb i (length_of mem.mallocated) then cells_of mem.mallocated i else 0

-- The bytes of so many pages under a limit, where 0 is none; those of 65536 pages wrap to none.
pub record HasLength (limit pages length : ℕ) : Type 0 where
  pub whole : pages < 65536 → limit ≡ 0 → length ≡ pages * 65536
  pub under : pages < 65536 → 0 < limit → pages * 65536 ≤ limit → length ≡ pages * 65536
  pub cut : pages < 65536 → 0 < limit → limit ≤ pages * 65536 → length ≡ limit
  pub wrapped : pages ≡ 65536 → length ≡ 0

limited-HasLength : (limit pages : ℕ) → HasLength limit pages (limited limit (page_bytes pages))
limited-HasLength limit pages = record {
  whole = λ few none. ground arith;
  under = λ few some fits. ground arith;
  cut = λ few some less. ground arith;
  wrapped = λ full. ground arith;
}

-- A failed resize keeps the pages and the block; a successful one sets both.
abbrev pub Resized : Runtime → ℕ → Status → Memory → Type 0
Resized rt n none mem =
    (mem.num_pages ≡ n)
    × HasLength rt.memory_limit n (length_of mem.mallocated)
    × (n ≤ rt.memory.max_pages)
    × (n ≤ max_linear_memory_pages)
Resized rt n (some e) mem =
    (mem.num_pages ≡ rt.memory.num_pages) × (mem.mallocated ≡ rt.memory.mallocated)

-- The same with the length as the code computes it.
abbrev ResizedTo : Runtime → ℕ → Status → Memory → Type 0
ResizedTo rt n none mem =
    (mem.num_pages ≡ n)
    × (length_of mem.mallocated ≡ limited rt.memory_limit (page_bytes n))
    × (n ≤ rt.memory.max_pages)
    × (n ≤ max_linear_memory_pages)
ResizedTo rt n (some e) mem =
    (mem.num_pages ≡ rt.memory.num_pages) × (mem.mallocated ≡ rt.memory.mallocated)

module _ (reply : SystemReply) (rt : Runtime) where
  reserve-keeps :
      ((reserve reply rt).mallocated ≡ rt.memory.mallocated)
      × ((reserve reply rt).num_pages ≡ rt.memory.num_pages)
  unfolding reserve
  reserve-keeps = ground arith

  resize_memory-limited :
      (n : ℕ) → let r = resize_memory reply rt n in ResizedTo rt n r.0 r.1.memory
  unfolding resize_memory resize_reserved
  resize_memory-limited n = ground (arith, reserve-keeps)

  ResizedTo-Resized :
      (n : ℕ) (status : Status) (mem : Memory) → ResizedTo rt n status mem → Resized rt n status mem
  ResizedTo-Resized n none mem (pages, length, most, few) = (
    pages,
    subst (HasLength rt.memory_limit n) (sym length) (limited-HasLength rt.memory_limit n),
    most,
    few,
  )
  ResizedTo-Resized n (some e) mem kept = kept

  -- On every branch a resize either sets the pages, at most the maximum and 65536, and the length, or
  -- reports an error and keeps the pages and the block. The length is 65536 bytes a page, cut to the
  -- memory limit where there is one, and 0 for the 65536 pages whose size wraps.
  pub resize_memory-Resized :
      (n : ℕ) → let r = resize_memory reply rt n in Resized rt n r.0 r.1.memory
  resize_memory-Resized n =
      let r = resize_memory reply rt n in
      ResizedTo-Resized n r.0 r.1.memory (resize_memory-limited n)

-- The state that the operations keep where there is no memory limit: the block is as long as its
-- pages, which are fewer than 65536.
pub record IsSized (rt : Runtime) (block : Block) : Type 0 where
  pub unlimited : rt.memory_limit ≡ 0
  pub allocated : rt.memory.mallocated ≡ some block
  pub sized : block.length ≡ rt.memory.num_pages * mem_page_size
  pub few : rt.memory.num_pages < max_linear_memory_pages

-- Behind the block, what is reserved has not been written.
abbrev pub IsClean : Option Address → Block → Type 0
IsClean none block = Unit {0}
IsClean (some base) block = (i : ℕ) → block.length ≤ i → block.cells i ≡ 0

module _ (reply : SystemReply) (rt : Runtime) (block : Block) (v : IsSized rt block)
    (clean : IsClean rt.memory.reservation block) where
  resize_memory-view :
      (n i : ℕ)
      → rt.memory.num_pages ≤ n
      → n < max_linear_memory_pages
      → view (resize_memory reply rt n).1.memory i ≡ view rt.memory i
  unfolding resize_memory
  resize_memory-view n i more few = elim (Option-cases rt.memory.reservation) [
    | inl unreserved ↦ ground (arith, v.unlimited, v.allocated, v.sized, v.few)
    | inr (base, reserved) ↦
        let zero : (i : ℕ) → block.length ≤ i → block.cells i ≡ 0 =
          subst (λ r. IsClean r block) reserved clean in
        ground (arith, zero i, v.unlimited, v.allocated, v.sized, v.few)
  ]

  -- `memory.grow` as WebAssembly specifies it, where no limit is set, the sum stays below 65536 pages,
  -- and, if memory is reserved, what lies behind its end is zero, as pages are that nothing has
  -- written: it returns the old size and adds the pages, or returns -1 and keeps size and block;
  -- either way every byte reads as before, and the bytes of new pages read zero.
  pub mem_grow-view :
      (r0 : ℕ)
      → rt.memory.num_pages + u32 r0 < max_linear_memory_pages
      → let (result, rt') = mem_grow reply rt r0 in
        ((i : ℕ) → view rt'.memory i ≡ view rt.memory i)
        × (((result ≡ rt.memory.num_pages)
              × (rt'.memory.num_pages ≡ rt.memory.num_pages + u32 r0)
              × (length_of rt'.memory.mallocated ≡ (rt.memory.num_pages + u32 r0) * mem_page_size))
            ⊎ ((result ≡ minus_one)
                × (rt'.memory.num_pages ≡ rt.memory.num_pages)
                × (rt'.memory.mallocated ≡ rt.memory.mallocated)))
  unfolding mem_grow
  mem_grow-view r0 few = ground (
    arith,
    resize_memory-limited reply rt (u32 (rt.memory.num_pages + u32 r0)),
    v.unlimited,
    v.sized,
    v.allocated,
  )
