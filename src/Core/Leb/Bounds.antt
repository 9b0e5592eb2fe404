-- ===== src/Core/Leb/Bounds.antt =====
-- The LEB128 readers of cpp/m3_core.c on any input: which result they return, and how far they go.
use react_native_webassembly.Common.{
  ℕ, suc, ◌+◌, ◌*◌, ◌/◌, ◌≤◌, ◌<◌, ◌≡◌, refl, arith, [], ◌∷◌, none, some, inl, inr, Bool-cases,
  bit_and, length, ltb, leb, ◌==◌, if◌then◌else◌,
}
use mathlib.Core.Path.{subst₂}
use native.Mathlib.Nat.{add-zero}
use react_native_webassembly.Results.{Status, wasm_underrun, leb_overflow}
use react_native_webassembly.Core.Read.{Bytes}
use react_native_webassembly.Core.Leb.{
  add_group, leb_unsigned_loop, read_leb_unsigned, leb_signed_loop, read_leb_signed,
}

-- The bytes at the front that have their top bit set.
pub continuation : Bytes → ℕ
continuation [] = 0
continuation (b ∷ bs) = let more = suc (continuation bs) in if bit_and b 0x80 == 0 then 0 else more

-- What the readers return from a run of `run` such bytes among `len`, for a width of `bits`.
abbrev pub leb_status : ℕ → ℕ → ℕ → Status
leb_status bits run len =
    if leb bits (7 * run)
    then some leb_overflow
    else if ltb run len
    then none
    else some wasm_underrun

-- How many bytes are taken: the run and its last byte, no more than fill the width.
abbrev pub leb_taken : ℕ → ℕ → ℕ → ℕ
leb_taken bits run len =
    if leb bits (7 * run) then (bits + 6) / 7 else if ltb run len then suc run else len

-- The status and the number of bytes taken, in the three ways that a round of a loop goes on: it
-- stands behind `j` bytes, with `c` more continuation bytes among `n`.
abbrev pub Outcome : ℕ → ℕ → ℕ → Status → Bytes → Type 0
Outcome bits run len status rest =
    (status ≡ leb_status bits run len) × (length rest + leb_taken bits run len ≡ len)

module _ (bits j n : ℕ) (rest : Bytes) (h : 7 * j < bits) (e : length rest ≡ n) where
  ended : Outcome bits (0 + j) (0 + j) (some wasm_underrun) []
  ended = ground arith

  last : Outcome bits (0 + j) (suc n + j) none rest
  last = ground arith

  full : (c : ℕ) → bits ≤ 7 * j + 7 → Outcome bits (suc c + j) (suc n + j) (some leb_overflow) rest
  full c k = ground arith

later :
    (bits j c n : ℕ) (status : Status) (rest : Bytes)
    → Outcome bits (c + suc j) (n + suc j) status rest
    → Outcome bits (suc c + j) (suc n + j) status rest
later bits j c n status rest =
    subst₂ (λ a b. Outcome bits a b status rest) (omega arith) (omega arith)

module _ (bits : ℕ) where
  leb_unsigned_loop-Outcome :
      (bytes : Bytes) (value shift j : ℕ)
      → shift ≡ 7 * j
      → 7 * j < bits
      → Outcome bits
          (continuation bytes + j)
          (length bytes + j)
          (leb_unsigned_loop bits bytes value shift).result
          (leb_unsigned_loop bits bytes value shift).rest
  unfolding leb_unsigned_loop continuation
  leb_unsigned_loop-Outcome [] value shift j e h = ended bits j 0 [] h refl
  leb_unsigned_loop-Outcome (b ∷ bytes) value shift j e h =
      elim (Bool-cases (bit_and b 0x80 == 0)) [
        | inl done ↦ rw done (last bits j (length bytes) bytes h refl)
        | inr more ↦ rw more (elim (Bool-cases (leb bits (shift + 7))) [
          | inl over ↦ rw over (full bits j (length bytes) bytes h refl _ (ground arith))
          | inr under ↦ rw under (
              later bits j _ _ _ _ (
                leb_unsigned_loop-Outcome bytes (add_group value b shift) (shift + 7) (suc j)
                  (omega arith) (ground arith)))
        ])
      ]

  leb_signed_loop-Outcome :
      (bytes : Bytes) (value shift j : ℕ)
      → shift ≡ 7 * j
      → 7 * j < bits
      → Outcome bits
          (continuation bytes + j)
          (length bytes + j)
          (leb_signed_loop bits bytes value shift).result
          (leb_signed_loop bits bytes value shift).rest
  unfolding leb_signed_loop continuation
  leb_signed_loop-Outcome [] value shift j e h = ended bits j 0 [] h refl
  leb_signed_loop-Outcome (b ∷ bytes) value shift j e h = elim (Bool-cases (bit_and b 0x80 == 0)) [
    | inl done ↦ rw done (last bits j (length bytes) bytes h refl)
    | inr more ↦ rw more (elim (Bool-cases (leb bits (shift + 7))) [
      | inl over ↦ rw over (full bits j (length bytes) bytes h refl _ (ground arith))
      | inr under ↦ rw under (
          later bits j _ _ _ _ (
            leb_signed_loop-Outcome bytes (add_group value b shift) (shift + 7) (suc j)
              (omega arith) (ground arith)))
    ])
  ]

-- On every input and at every width the two readers return the status that the run of continuation
-- bytes decides: an overflow when the run fills the width, an underrun when the input ends in it,
-- and otherwise success. They take the run and the byte behind it, and never more than fill the
-- width.
pub read_leb-Outcome :
    (bits : ℕ) (bytes : Bytes)
    → 0 < bits
    → let unsigned = read_leb_unsigned bits bytes in
      let signed = read_leb_signed bits bytes in
      Outcome bits (continuation bytes) (length bytes) unsigned.result unsigned.rest
      × Outcome bits (continuation bytes) (length bytes) signed.result signed.rest
unfolding read_leb_unsigned read_leb_signed
read_leb-Outcome bits bytes h = (
  simp add-zero at (leb_unsigned_loop-Outcome bits bytes 0 0 0 refl (omega arith)),
  simp add-zero at (leb_signed_loop-Outcome bits bytes 0 0 0 refl (omega arith)),
)
