-- ===== src/Memory/Access.antt =====
-- `op_MemCopy` and `op_MemFill` of cpp/m3_exec.h: bounds and effect.
use react_native_webassembly.Common.{
  ℕ, ◌+◌, ◌-◌, ◌≡◌, ◌≤◌, ◌<◌, ◌⊎◌, inl, inr, refl, arith, u8, u32,
}
use native.Mathlib.Decide.{dec_le}
use react_native_webassembly.Results.{ok, err, trap_out_of_bounds_memory_access}
use react_native_webassembly.Runtime.{Block}
use react_native_webassembly.Memory.{moved, filled, mem_copy, mem_fill}

add-sub : (d j : ℕ) → d + j - d ≡ j
add-sub d j = omega arith

moved_inside :
    (mem : Block) (size source destination j : ℕ)
    → j < size
    → (moved mem size source destination).cells (destination + j) ≡ mem.cells (source + j)
moved_inside mem size source destination j h = ground (arith, add-sub destination j)

-- A copy stops exactly where one of the two ranges leaves the memory, and then has no effect. Else
-- the destination reads what the source read before, overlapping ranges included, and every
-- other byte and the length stay.
pub mem_copy_outcome :
    (mem : Block) (r0 source destination : ℕ)
    → ((mem_copy mem r0 source destination ≡ err trap_out_of_bounds_memory_access)
        × ((mem.length < destination + u32 r0) ⊎ (mem.length < source + u32 r0)))
      ⊎ ((mem' : Block) × (mem_copy mem r0 source destination ≡ ok mem')
          × (destination + u32 r0 ≤ mem.length)
          × (source + u32 r0 ≤ mem.length)
          × ((j : ℕ) → j < u32 r0 → mem'.cells (destination + j) ≡ mem.cells (source + j))
          × ((i : ℕ) → (i < destination) ⊎ (destination + u32 r0 ≤ i) → mem'.cells i ≡ mem.cells i)
          × (mem'.length ≡ mem.length))
unfolding mem_copy
mem_copy_outcome mem r0 source destination = elim (dec_le (destination + u32 r0) mem.length) [
  | no out ↦ inl (ground arith, inl (omega arith))
  | yes h ↦ elim (dec_le (source + u32 r0) mem.length) [
    | no out ↦ inl (ground arith, inr (omega arith))
    | yes k ↦ inr (
      moved mem (u32 r0) source destination,
      ground arith,
      h,
      k,
      (λ j lt. moved_inside mem (u32 r0) source destination j lt),
      (λ i out. ground arith),
      refl,
    )
  ]
]

-- A fill stops exactly where its range leaves the memory. Else the range reads the low byte of the
-- value, and every other byte and the length stay.
pub mem_fill_outcome :
    (mem : Block) (r0 byte destination : ℕ)
    → ((mem_fill mem r0 byte destination ≡ err trap_out_of_bounds_memory_access)
        × (mem.length < destination + u32 r0))
      ⊎ ((mem' : Block) × (mem_fill mem r0 byte destination ≡ ok mem')
          × (destination + u32 r0 ≤ mem.length)
          × ((j : ℕ) → j < u32 r0 → mem'.cells (destination + j) ≡ u8 byte)
          × ((i : ℕ) → (i < destination) ⊎ (destination + u32 r0 ≤ i) → mem'.cells i ≡ mem.cells i)
          × (mem'.length ≡ mem.length))
unfolding mem_fill
mem_fill_outcome mem r0 byte destination = elim (dec_le (destination + u32 r0) mem.length) [
  | no out ↦ inl (ground arith, omega arith)
  | yes h ↦ inr (
    filled mem (u32 r0) byte destination,
    ground arith,
    h,
    (λ j lt. ground arith),
    (λ i out. ground arith),
    refl,
  )
]
