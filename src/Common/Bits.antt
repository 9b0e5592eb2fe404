-- ===== src/Common/Bits.antt =====
-- `|` of disjoint fields and `&` with a low mask, as arithmetic, at every width.
use Prim.Native.Nat.{ℕ, zero, suc, ◌+◌, ◌*◌, ◌/◌, ◌%◌, ◌^◌, ◌≤◌, ◌<◌, min, max, bit_and, bit_or}
use Prim.Native.Nat.{digits, bitwise, bit_and-bitwise, bit_or-bitwise}
use mathlib.Core.Path.{◌≡◌, refl, ap}
use mathlib.Core.Bool.{Bool, true, false}
use mathlib.Core.Logic.{ite}
use mathlib.Core.WellFounded
use native.Mathlib.Decide.{ℕ_discrete}
use native.Mathlib.Nat.{le_refl, pow-suc}
use native.Mathlib.Omega.{arith}
use react_native_webassembly.Common.Order.{lt_wf}
use react_native_webassembly.Common.Word.{◌<<<◌, low_mask}

-- `bitwise` runs `digits` on as much fuel as its left operand counts. Halving uses less than that,
-- so two runs with enough fuel agree, and one digit can be split off.
module _ (rest : ℕ → ℕ) (digit : ℕ → ℕ → ℕ) where
  enough_fuel :
      (x y fuel more : ℕ)
      → x ≤ fuel
      → x ≤ more
      → digits rest digit fuel x y ≡ digits rest digit more x y
  enough_fuel zero y zero zero h k = refl
  enough_fuel zero y zero (suc more) h k = refl
  enough_fuel zero y (suc fuel) zero h k = refl
  enough_fuel zero y (suc fuel) (suc more) h k = refl
  enough_fuel (suc x) y zero more h k = absurd (omega arith)
  enough_fuel (suc x) y (suc fuel) zero h k = absurd (omega arith)
  enough_fuel (suc x) y (suc fuel) (suc more) h k =
      let halves = enough_fuel (suc x / 2) (y / 2) fuel more (omega arith) (omega arith) in
      rw halves

  split_digit :
      (x y : ℕ)
      → bitwise rest digit (suc x) y
        ≡ bitwise rest digit (suc x / 2) (y / 2) * 2 + digit (suc x % 2) (y % 2)
  split_digit x y =
      let half = suc x / 2 in
      omega (arith, enough_fuel half (y / 2) x half (omega arith) (le_refl half))

-- The lowest digit of `|` and of `&`.
bit_or_step : (x y : ℕ) → bit_or x y ≡ bit_or (x / 2) (y / 2) * 2 + max (x % 2) (y % 2)
bit_or_step (suc x) y = simp bit_or-bitwise (split_digit (λ low. low) max x y)
bit_or_step zero y = simp bit_or-bitwise (omega arith)

bit_and_step : (x y : ℕ) → bit_and x y ≡ bit_and (x / 2) (y / 2) * 2 + min (x % 2) (y % 2)
bit_and_step (suc x) y = simp bit_and-bitwise (split_digit (λ low. 0) min x y)
bit_and_step zero y = simp bit_and-bitwise (omega arith)

-- What zero does on the right, for both at once.
right_zero : (x : ℕ) → (bit_or x 0 ≡ x) × (bit_and x 0 ≡ 0)
right_zero x = WellFounded.induction lt_wf x halved
  where
    halved :
        (y : ℕ)
        → ((half : ℕ) → half < y → (bit_or half 0 ≡ half) × (bit_and half 0 ≡ 0))
        → (bit_or y 0 ≡ y) × (bit_and y 0 ≡ 0)
    halved zero smaller = (refl, refl)
    halved (suc y) smaller =
        let (above, none_above) = smaller (suc y / 2) (omega arith) in
        (
          omega (arith, bit_or_step (suc y) 0, above),
          omega (arith, bit_and_step (suc y) 0, none_above),
        )

pub bit_or-zero : (x : ℕ) → bit_or x 0 ≡ x
bit_or-zero x = (right_zero x).0

bit_and-zero : (x : ℕ) → bit_and x 0 ≡ 0
bit_and-zero x = (right_zero x).1

zero-bit_or : (x : ℕ) → bit_or 0 x ≡ x
zero-bit_or x = bit_or-bitwise 0 x

double_shift : (q k : ℕ) → q * 2 ^ suc k ≡ 2 * (q * 2 ^ k)
double_shift q k =
    let doubled : q * 2 ^ suc k ≡ q * (2 ^ k * 2) = ap (λ (power : ℕ). q * power) (pow-suc 2 k) in
    omega (arith, doubled)

-- A field below bit `at` and one that is shifted above it: `|` adds them.
pub bit_or_low_field :
    (at high low : ℕ) → low < 2 ^ at → bit_or low (high <<< at) ≡ high * 2 ^ at + low
bit_or_low_field (suc at) high low below =
    let halves = bit_or_low_field at high (low / 2) (omega arith) in
    ground (arith, halves, double_shift high at, bit_or_step low (high * 2 ^ suc at))
bit_or_low_field zero high low below = ground (arith, zero-bit_or high)

-- A mask of the low bits leaves the lower of two such fields.
mask_keeps :
    (width high low : ℕ) → low < 2 ^ width → bit_and (high * 2 ^ width + low) (low_mask width) ≡ low
mask_keeps (suc width) high low below =
    let halves = mask_keeps width high (low / 2) (omega arith) in
    let digit = bit_and_step (high * 2 ^ suc width + low) (low_mask (suc width)) in
    ground (arith, halves, digit, double_shift high width, pow-suc 2 width)
mask_keeps zero high low below = rw bit_and-zero (omega arith)

-- Facts about one byte, checked at every value.
module _ (f g : ℕ → ℕ) where
  agree_below : ℕ → Bool
  unfolding ℕ_discrete
  agree_below zero = true
  agree_below (suc n) = ite (ℕ_discrete (f n) (g n)) (agree_below n) false

  agree_below→eq : (n : ℕ) → agree_below n ≡ true → (i : ℕ) → i < n → f i ≡ g i
  unfolding agree_below
  agree_below→eq zero e i h = absurd (omega arith)
  agree_below→eq (suc n) e i h = ground (arith, agree_below→eq n (ground arith) i)

pub low_seven : (b : ℕ) → bit_and b 0x7f ≡ b % 128
low_seven b = ground (arith, mask_keeps 7 (b / 128) (b % 128) (omega arith))

pub top_bit : (b : ℕ) → b < 256 → bit_and b 0x80 ≡ b / 128 * 128
unfolding agree_below
top_bit = agree_below→eq _ _ 256 refl

pub sign_bit : (b : ℕ) → b < 256 → bit_and b 0x40 ≡ b / 64 % 2 * 64
unfolding agree_below
sign_bit = agree_below→eq _ _ 256 refl
