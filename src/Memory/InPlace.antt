-- ===== src/Memory/InPlace.antt =====
-- Linear memory of cpp/m3_env.c stays where it was first allocated.
use react_native_webassembly.Common.{ℕ, ◌+◌, ◌≡◌, ◌≤◌, arith, Option, none, some, u32, ◌⊎◌}
use react_native_webassembly.Results.{ok}
use react_native_webassembly.Runtime.{Address, Block, Memory, Runtime}
use react_native_webassembly.Memory.{
  SystemReply, limited, page_bytes, header_size, reserve, resize_reserved, resize_memory, mem_grow,
  mem_copy, mem_fill,
}

-- The block lies at the start of the reservation, and what is committed covers it.
abbrev pub InPlace : Option Address → Option Block → ℕ → Type 0
InPlace (some base) (some block) committed =
    (block.address ≡ base) × (block.length + header_size ≤ committed)
InPlace _ _ committed = Unit {0}

pub record IsPlaced (mem : Memory) : Type 0 where
  pub in_place : InPlace mem.reservation mem.mallocated mem.committed_bytes
  pub within : (mem.reservation ≡ none) ⊎ (mem.committed_bytes ≤ mem.reservation_bytes)

module _ (reply : SystemReply) (rt : Runtime) where
  reserve-IsPlaced : IsPlaced rt.memory → IsPlaced (reserve reply rt)
  unfolding reserve
  reserve-IsPlaced v = ground arith

  resize_reserved-IsPlaced :
      (mem : Memory) (num_pages bytes : ℕ)
      → IsPlaced mem
      → IsPlaced (resize_reserved reply rt mem num_pages bytes).1
  unfolding resize_reserved
  resize_reserved-IsPlaced mem n bytes v = ground arith

  -- A resize keeps the block at the start of its reservation and within what is committed, and that
  -- within what is reserved, on every branch.
  pub resize_memory-IsPlaced :
      (num_pages : ℕ) → IsPlaced rt.memory → IsPlaced (resize_memory reply rt num_pages).1.memory
  unfolding resize_memory
  resize_memory-IsPlaced n v = ground (
    arith,
    reserve-IsPlaced v,
    resize_reserved-IsPlaced (reserve reply rt) n (limited rt.memory_limit (page_bytes n)),
  )

abbrev pub address_of : Option Block → Option Address
address_of none = none
address_of (some block) = some block.address

-- The block is allocated at `base`, the start of a reservation.
abbrev pub AtBase : Address → Memory → Type 0
AtBase base mem = (mem.reservation ≡ some base) × (address_of mem.mallocated ≡ some base)

module _ (reply : SystemReply) (rt : Runtime) {base : Address} where
  resize_memory-AtBase :
      (n : ℕ) → AtBase base rt.memory → AtBase base (resize_memory reply rt n).1.memory
  unfolding resize_memory
  resize_memory-AtBase n h = ground arith

  mem_grow-AtBase : (r0 : ℕ) → AtBase base rt.memory → AtBase base (mem_grow reply rt r0).1.memory
  unfolding mem_grow
  mem_grow-AtBase r0 h = ground (arith, resize_memory-AtBase (u32 (rt.memory.num_pages + u32 r0)) h)

mem_copy-address :
    (mem : Block) (r0 source destination : ℕ) {mem' : Block}
    → mem_copy mem r0 source destination ≡ ok mem'
    → mem'.address ≡ mem.address
unfolding mem_copy
mem_copy-address mem r0 source destination h = ground arith

mem_fill-address :
    (mem : Block) (r0 byte destination : ℕ) {mem' : Block}
    → mem_fill mem r0 byte destination ≡ ok mem'
    → mem'.address ≡ mem.address
unfolding mem_fill
mem_fill-address mem r0 byte destination h = ground arith

abbrev pub with_block : Runtime → Block → Runtime
with_block rt block = record rt { memory = record rt.memory { mallocated = some block } }

-- What running code does to linear memory: it grows it, under any answers of the system, and writes
-- into it.
pub data MemoryStep : Runtime → Runtime → Type 0 where
  grow : (reply : SystemReply) (rt : Runtime) (r0 : ℕ) → MemoryStep rt (mem_grow reply rt r0).1
  copy :
      (rt : Runtime) (mem mem' : Block) (r0 source destination : ℕ)
      → rt.memory.mallocated ≡ some mem
      → mem_copy mem r0 source destination ≡ ok mem'
      → MemoryStep rt (with_block rt mem')
  fill :
      (rt : Runtime) (mem mem' : Block) (r0 byte destination : ℕ)
      → rt.memory.mallocated ≡ some mem
      → mem_fill mem r0 byte destination ≡ ok mem'
      → MemoryStep rt (with_block rt mem')

pub data MemorySteps (rt : Runtime) : Runtime → Type 0 where
  start : MemorySteps rt rt
  next : {rt' rt'' : Runtime} → MemorySteps rt rt' → MemoryStep rt' rt'' → MemorySteps rt rt''

MemoryStep-AtBase :
    {base : Address} {rt rt' : Runtime}
    → MemoryStep rt rt'
    → AtBase base rt.memory
    → AtBase base rt'.memory
MemoryStep-AtBase (grow reply rt r0) h = mem_grow-AtBase reply rt r0 h
MemoryStep-AtBase (copy rt mem mem' r0 source destination e done) h =
    ground (arith, mem_copy-address mem r0 source destination done)
MemoryStep-AtBase (fill rt mem mem' r0 byte destination e done) h =
    ground (arith, mem_fill-address mem r0 byte destination done)

-- Once linear memory lies in a reservation it never moves: after any sequence of growths, copies
-- and fills, whatever the system answers and whether the growths succeed, the block is allocated
-- at the same address, the start of the same reservation.
pub MemorySteps-AtBase :
    {base : Address} {rt rt' : Runtime}
    → MemorySteps rt rt'
    → AtBase base rt.memory
    → AtBase base rt'.memory
MemorySteps-AtBase start h = h
MemorySteps-AtBase (next steps step) h = MemoryStep-AtBase step (MemorySteps-AtBase steps h)

-- The first resize puts the block at the start of the reservation that `mmap` gives, if it
-- succeeds.
resize_memory-first_AtBase :
    (reply : SystemReply) (rt : Runtime) (n : ℕ) {base : Address} {rt' : Runtime}
    → rt.memory.mallocated ≡ none
    → rt.memory.reservation ≡ none
    → reply.mmap ≡ some base
    → resize_memory reply rt n ≡ (none, rt')
    → AtBase base rt'.memory
unfolding resize_memory
resize_memory-first_AtBase reply rt n fresh unreserved mapped h = ground arith
