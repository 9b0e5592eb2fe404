-- ===== src/Common/Powers.antt =====
-- A field that is shifted into a 64-bit word, as arithmetic.
use Prim.Native.Nat.{ℕ, zero, suc, ◌+◌, ◌-◌, ◌*◌, ◌/◌, ◌%◌, ◌^◌, ◌≤◌, ◌<◌, bit_or}
use mathlib.Core.Path.{◌≡◌, ap, ◌∙◌}
use native.Mathlib.Nat.{pow-suc, one-le-pow, div-add-mod, mod-lt, add-suc, add-zero}
use native.Mathlib.Omega.{arith}
use react_native_webassembly.Common.Bits.{bit_or_low_field}
use react_native_webassembly.Common.Word.{◌<<<◌, u64}

pub pow-add : (a b : ℕ) → 2 ^ (a + b) ≡ 2 ^ a * 2 ^ b
pow-add a zero = rw add-zero (omega arith)
pow-add a (suc b) =
    ap (λ (t : ℕ). 2 ^ t) (add-suc a b)
    ∙ omega (
      arith,
      pow-suc 2 (a + b),
      pow-suc 2 b,
      pow-add a b,
      ap (λ (t : ℕ). 2 ^ a * t) (pow-suc 2 b),
    )

pub pow_split64 : (s : ℕ) → s ≤ 64 → 2 ^ (64 - s) * 2 ^ s ≡ 2 ^ 64
pow_split64 s h = omega (arith, pow-add (64 - s) s, ap (λ (t : ℕ). 2 ^ t) (sum_64 s h))
  where
    sum_64 : (s : ℕ) → s ≤ 64 → 64 - s + s ≡ 64
    sum_64 s h = omega arith

pub two_pow_pos : (s : ℕ) → 0 < 2 ^ s
two_pow_pos s = one-le-pow s 2 (omega arith)

scaled_lt : (r d p : ℕ) → r < d → r * p + p ≤ d * p
scaled_lt r d p h = grind arith

module _ (x s : ℕ) (h : s ≤ 64) where
  shifted_fits : x % 2 ^ (64 - s) * 2 ^ s + 2 ^ s ≤ 2 ^ 64
  shifted_fits = omega (
    arith,
    pow_split64 s h,
    scaled_lt (x % 2 ^ (64 - s)) (2 ^ (64 - s)) (2 ^ s) (mod-lt x (two_pow_pos (64 - s))),
  )

  shifted_sum : x * 2 ^ s ≡ x / 2 ^ (64 - s) * 2 ^ 64 + x % 2 ^ (64 - s) * 2 ^ s
  shifted_sum = omega (
    arith,
    ap (λ (t : ℕ). t * 2 ^ s) (div-add-mod x (2 ^ (64 - s))),
    ap (λ (t : ℕ). x / 2 ^ (64 - s) * t) (pow_split64 s h),
  )

  shifted_mod : u64 (x <<< s) ≡ x % 2 ^ (64 - s) * 2 ^ s
  shifted_mod = omega (arith, shifted_sum, shifted_fits, two_pow_pos s)

  -- `acc |= x << s` on a 64-bit word is an addition when `acc` fits `s` bits.
  pub bit_or_shifted : (acc : ℕ) → acc < 2 ^ s → bit_or acc (u64 (x <<< s)) ≡ u64 (acc + x * 2 ^ s)
  bit_or_shifted acc fits =
      ap (bit_or acc) shifted_mod
      ∙ bit_or_low_field s (x % 2 ^ (64 - s)) acc fits
      ∙ omega (arith, shifted_sum, shifted_fits)

pub two_pow_le64 : (s : ℕ) → s ≤ 64 → 2 ^ s ≤ 2 ^ 64
two_pow_le64 s h =
    omega (arith, pow_split64 s h, scaled_pos (2 ^ (64 - s)) (2 ^ s) (two_pow_pos (64 - s)))
  where
    scaled_pos : (d p : ℕ) → 0 < d → p ≤ d * p
    scaled_pos d p h = grind arith
