-- ===== src/Memory.antt =====
-- cpp/m3_env.c (`ResizeMemory`) and the memory operations of cpp/m3_exec.h, with the patch that
-- keeps linear memory in place (`M3_NONMOVING_POSIX`).
pub mod Access
pub mod InPlace
mod Tests
pub mod Faults
pub mod Growth
use react_native_webassembly.Common.{
  ℕ, ◌+◌, ◌-◌, ◌*◌, ◌^◌, ◌%◌, min, Bool, ◌&&◌, Option, none, some, ltb, leb, ◌==◌, if◌then◌else◌,
  u8, u32,
}
use react_native_webassembly.Results.{
  Status, Result, ok, err, malloc_failed, wasm_memory_overflow, linear_memory_limit,
  trap_out_of_bounds_memory_access,
}
use react_native_webassembly.Runtime.{Address, Block, Memory, Runtime}

-- d_m3MemPageSize, sizeof (M3MemoryHeader), d_m3MaxLinearMemoryPages, sizeof (m3slot_t)
abbrev pub mem_page_size : ℕ
mem_page_size = 65536

abbrev pub header_size : ℕ
header_size = 24

abbrev pub max_linear_memory_pages : ℕ
max_linear_memory_pages = 65536

abbrev pub slot_size : ℕ
slot_size = 4

-- What the operating system answers during one resize: the address that `mmap` returns unless it
-- is MAP_FAILED, whether `mprotect` returns 0, and the address that `realloc` returns unless it is
-- NULL.
pub record SystemReply : Type 0 where
  pub mmap : Option Address
  pub mprotect : Bool
  pub realloc : Option Address

-- `numPages * d_m3MemPageSize` multiplies two 32-bit operands.
abbrev pub page_bytes : ℕ → ℕ
page_bytes num_pages = u32 (num_pages * mem_page_size)

-- `M3_MIN (numPageBytes, io_runtime->memoryLimit)`, where there is a limit.
abbrev pub limited : ℕ → ℕ → ℕ
limited limit bytes = if limit == 0 then bytes else min bytes limit

-- The reservation that the first resize makes, if `mmap` gives one. The sums are of 64-bit operands
-- that are far below 2 ^ 64.
unfoldable pub reserve : SystemReply → Runtime → Memory
reserve reply rt =
    let mem = rt.memory in
    let bytes = mem.max_pages * mem_page_size + header_size in
    let reserve_bytes =
      if rt.memory_limit == 0 then bytes else min bytes (rt.memory_limit + header_size) in
    elim mem.reservation [
      | some base ↦ mem
      | none ↦ elim mem.mallocated [
        | some block ↦ mem
        | none ↦ elim reply.mmap [
          | none ↦ mem
          | some base ↦ record mem {
            reservation = some base;
            reservation_bytes = reserve_bytes;
            committed_bytes = 0;
          }
        ]
      ]
    ]

-- The bytes of a block; anonymous pages that nothing has written are zero.
abbrev pub cells_of : Option Block → ℕ → ℕ
cells_of none i = 0
cells_of (some block) i = block.cells i

abbrev pub max_stack_of : Runtime → ℕ
max_stack_of rt = rt.stack + slot_size * rt.num_stack_slots

-- The branch of a reservation at `base`.
unfoldable pub commit : SystemReply → Runtime → Memory → Address → ℕ → ℕ → Status × Memory
commit reply rt mem base num_pages bytes =
    let num_bytes = bytes + header_size in
    let grown = record mem {
      committed_bytes =
          if ltb mem.committed_bytes num_bytes then num_bytes else mem.committed_bytes;
      mallocated = some (record {
        address = base;
        max_stack = max_stack_of rt;
        length = bytes;
        cells = cells_of mem.mallocated;
      });
      num_pages = num_pages;
    } in
    if ltb mem.reservation_bytes num_bytes
    then (some wasm_memory_overflow, mem)
    else if ltb mem.committed_bytes num_bytes
    then (if reply.mprotect then (none, grown) else (some malloc_failed, mem))
    else (none, grown)

-- `m3_Realloc`: no call when the size stays; else the first bytes are kept, and zeros follow.
abbrev pub realloc_block : SystemReply → Memory → ℕ → ℕ → Option Address
realloc_block reply mem num_bytes previous =
    if num_bytes == previous
    then (elim mem.mallocated [ none ↦ none | some block ↦ some block.address ])
    else reply.realloc

-- `numPreviousBytes`
abbrev pub previous_bytes : Memory → ℕ
previous_bytes mem =
    let bytes = page_bytes mem.num_pages in if bytes == 0 then 0 else bytes + header_size

-- The fallback without a reservation.
unfoldable pub reallocate : SystemReply → Runtime → Memory → ℕ → ℕ → Status × Memory
reallocate reply rt mem num_pages bytes =
    let num_bytes = bytes + header_size in
    let previous = previous_bytes mem in
    elim (realloc_block reply mem num_bytes previous) [
      | none ↦ (some malloc_failed, mem)
      | some address ↦ (
        none,
        record mem {
          mallocated = some (record {
            address = address;
            max_stack = max_stack_of rt;
            length = bytes;
            cells = λ i. if ltb (i + header_size) previous then cells_of mem.mallocated i else 0;
          });
          num_pages = num_pages;
        },
      )
    ]

unfoldable pub resize_reserved : SystemReply → Runtime → Memory → ℕ → ℕ → Status × Memory
unfolding commit reallocate
resize_reserved reply rt mem num_pages bytes = elim mem.reservation [
  | some base ↦ commit reply rt mem base num_pages bytes
  | none ↦ reallocate reply rt mem num_pages bytes
]

abbrev pub with_memory : Runtime → Status × Memory → Status × Runtime
with_memory rt (status, mem) = (status, record rt { memory = mem })

-- `ResizeMemory`
unfoldable pub resize_memory : SystemReply → Runtime → ℕ → Status × Runtime
unfolding reserve resize_reserved
resize_memory reply rt num_pages =
    if leb num_pages rt.memory.max_pages
    then (if ltb max_linear_memory_pages num_pages
        then (some linear_memory_limit, rt)
        else with_memory rt (
            resize_reserved reply rt (reserve reply rt) num_pages
              (limited rt.memory_limit (page_bytes num_pages))))
    else (some wasm_memory_overflow, rt)

-- `InitMemory`, for the `M3MemoryInfo` of a module that declares its memory itself.
unfoldable pub init_memory : SystemReply → Runtime → Bool → ℕ → ℕ → Status × Runtime
unfolding resize_memory
init_memory reply rt memory_imported init_pages max_pages =
    if memory_imported
    then (none, rt)
    else let mem = rt.memory in
      let pages = if max_pages == 0 then 65536 else max_pages in
      resize_memory reply (record rt { memory = record mem { max_pages = pages } }) init_pages

-- op_MemSize: the register `_r0` is an i64, kept as its bit pattern.
unfoldable pub mem_size : Runtime → ℕ
mem_size rt = rt.memory.num_pages

abbrev pub minus_one : ℕ
minus_one = 2 ^ 64 - 1

abbrev pub grow_result : ℕ → Status → ℕ
grow_result old none = old
grow_result old (some e) = minus_one

-- op_MemGrow: the new `_r0`, and the runtime whose `memory.mallocated` becomes `_mem`.
unfoldable pub mem_grow : SystemReply → Runtime → ℕ → ℕ × Runtime
unfolding resize_memory
mem_grow reply rt r0 =
    let num_pages_to_grow = u32 r0 in
    let old = rt.memory.num_pages in
    let (status, rt') = resize_memory reply rt (u32 (old + num_pages_to_grow)) in
    if num_pages_to_grow == 0 then (old, rt) else (grow_result old status, rt')

-- `memmove` and `memset` on the bytes behind the header.
abbrev pub moved : Block → ℕ → ℕ → ℕ → Block
moved mem size source destination = record mem {
  cells = λ i.
      if leb destination i && ltb i (destination + size)
      then mem.cells (source + (i - destination))
      else mem.cells i;
}

abbrev pub filled : Block → ℕ → ℕ → ℕ → Block
filled mem size byte destination = record mem {
  cells = λ i. if leb destination i && ltb i (destination + size) then u8 byte else mem.cells i;
}

-- op_MemCopy on the block behind `_mem`; the two offsets are u32 slots widened to 64 bits.
unfoldable pub mem_copy : Block → ℕ → ℕ → ℕ → Result Block
mem_copy mem r0 source destination =
    let size = u32 r0 in
    if leb (destination + size) mem.length
    then (if leb (source + size) mem.length
        then ok (moved mem size source destination)
        else err trap_out_of_bounds_memory_access)
    else err trap_out_of_bounds_memory_access

-- op_MemFill
unfoldable pub mem_fill : Block → ℕ → ℕ → ℕ → Result Block
mem_fill mem r0 byte destination =
    let size = u32 r0 in
    if leb (destination + size) mem.length
    then ok (filled mem size byte destination)
    else err trap_out_of_bounds_memory_access
