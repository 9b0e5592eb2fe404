-- ===== src/Core/Leb/Signed.antt =====
-- `ReadLebSigned` of cpp/m3_core.c: two's complement through the groups of seven bits.
use react_native_webassembly.Common.{
  ℕ, suc, ◌+◌, ◌-◌, ◌*◌, ◌/◌, ◌%◌, ◌^◌, ◌≤◌, ◌<◌, ◌≡◌, refl, ap, ◌∙◌, arith, Bool, true, false,
  List, [], ◌∷◌, ◌++◌, map, none, length, All, u64,
}
use react_native_webassembly.Common.Bits.{top_bit, sign_bit}
use react_native_webassembly.Common.Powers.{bit_or_shifted, two_pow_pos, two_pow_le64}
use native.Mathlib.Nat.{zero-add}
use native.Mathlib.Decide.{dec_lt}
use react_native_webassembly.Core.Read.{Bytes}
use react_native_webassembly.Core.Leb.Groups.{
  IsGroup, group_bytes, groups_value, inner_groups, last_group, encode_signed, complement,
  pattern_of, groups_value-groups, inner_groups-IsGroup, length-inner_groups, last_group-lt,
  groups_value-complement,
}
use react_native_webassembly.Core.Leb.Unsigned.{
  add_group_sum, group_bound, add_inner_group, regroup,
}
use react_native_webassembly.Core.Leb.{
  leb_read, add_group, sign_extend, leb_signed_loop, read_leb_signed, read_leb_i7, read_leb_i32,
  read_leb_i64,
}

module _ (max_num_bits value shift : ℕ) (bytes : Bytes) where
  last_round :
      (byte : ℕ)
      → byte < 128
      → leb_signed_loop max_num_bits (byte ∷ bytes) value shift
        ≡ leb_read none (sign_extend (add_group value byte shift) byte (shift + 7)) bytes
  unfolding leb_signed_loop
  last_round byte h = ground (arith, top_bit byte)

  inner_round :
      (byte : ℕ)
      → 128 ≤ byte
      → byte < 256
      → shift + 7 < max_num_bits
      → leb_signed_loop max_num_bits (byte ∷ bytes) value shift
        ≡ leb_signed_loop max_num_bits bytes (add_group value byte shift) (shift + 7)
  unfolding leb_signed_loop
  inner_round byte h hb more = ground (arith, top_bit byte)

-- What the loop returns for the groups `cs` and a last group `g`, read from bit `shift` on.
abbrev signed_read : ℕ → ℕ → List ℕ → ℕ → ℕ
signed_read value shift cs g =
    sign_extend (u64 (value + groups_value cs g * 2 ^ shift)) g (shift + 7 * suc (length cs))

leb_signed_loop-groups :
    (max_num_bits value shift : ℕ) (cs : List ℕ) (g : ℕ) (rest : Bytes)
    → max_num_bits ≤ 64
    → value < 2 ^ shift
    → All IsGroup cs
    → IsGroup g
    → shift + 7 * length cs < max_num_bits
    → leb_signed_loop max_num_bits (group_bytes cs g ++ rest) value shift
      ≡ leb_read none (signed_read value shift cs g) rest
leb_signed_loop-groups m value shift [] g rest hm fits hcs hg room =
    last_round m value shift rest g hg
    ∙ rw (add_group_sum value shift fits g g (omega arith) (omega arith))
leb_signed_loop-groups m value shift (c ∷ cs) g rest hm fits (hc, hcs) hg room =
    inner_round m value shift (group_bytes cs g ++ rest) (c + 128) (omega arith) (omega arith)
      (omega arith)
    ∙ rw (add_inner_group value shift fits (c + 128) c (omega arith) (omega arith)) (
        leb_signed_loop-groups m (value + c * 2 ^ shift) (shift + 7) cs g rest hm
          (group_bound value shift fits c hc) hcs hg (omega arith)
        ∙ rw (regroup value c (groups_value cs g) shift, later_shift shift (length cs)))
  where
    later_shift : (s n : ℕ) → s + 7 + 7 * suc n ≡ s + 7 * suc (suc n)
    later_shift s n = omega arith

-- A last group with bit 6 clear leaves the value.
sign_extend-positive : (value g shift : ℕ) → g < 64 → sign_extend value g shift ≡ value
sign_extend-positive value g shift h = ground (arith, sign_bit g)

-- With bit 6 set, the bits from `shift` on are filled with ones.
sign_extend-negative :
    (value g shift : ℕ)
    → 64 ≤ g
    → IsGroup g
    → value < 2 ^ shift
    → shift < 64
    → sign_extend value g shift ≡ value + 2 ^ 64 - 2 ^ shift
sign_extend-negative value g shift h hg fits hs = ground (
  arith,
  sign_bit g,
  bit_or_shifted (2 ^ 64 - 1) shift (omega arith) value fits,
  two_pow_le64 shift (omega arith),
  two_pow_pos shift,
)

sign_extend-full : (value g shift : ℕ) → 64 ≤ shift → sign_extend value g shift ≡ value
sign_extend-full value g shift h = ground arith

length-map : (f : ℕ → ℕ) (xs : List ℕ) → length (map f xs) ≡ length xs
length-map f [] = refl
length-map f (x ∷ xs) = ap suc (length-map f xs)

map-IsGroup : (cs : List ℕ) → All IsGroup (map complement cs)
map-IsGroup [] = tt
map-IsGroup (c ∷ cs) = (omega arith, map-IsGroup cs)

-- The negative case on any groups: of ten groups only 64 bits are kept, of fewer the sign is spread.
signed_read-negative :
    (cs : List ℕ) (g n : ℕ)
    → All IsGroup cs
    → g < 64
    → length cs ≤ 9
    → groups_value cs g ≡ n
    → n < 2 ^ 63
    → signed_read 0 0 (map complement cs) (complement g) ≡ 2 ^ 64 - 1 - n
signed_read-negative cs g n hcs hg short e small = rw length-map (spread (dec_lt (7 * bits) 64))
  where
    bits : ℕ
    bits = suc (length cs)

    low : ℕ
    low = groups_value (map complement cs) (complement g)

    total : low + n + 1 ≡ 2 ^ (7 * bits)
    total = omega (arith, groups_value-complement cs g hcs (omega arith))

    spread :
        Dec (7 * bits < 64)
        → sign_extend (u64 (0 + low * 2 ^ 0)) (complement g) (0 + 7 * bits) ≡ 2 ^ 64 - 1 - n
    spread (yes less) = omega (
      arith,
      total,
      two_pow_le64 (7 * bits) (omega arith),
      two_pow_le64 (0 + 7 * bits) (omega arith),
      sign_extend-negative (u64 (0 + low * 2 ^ 0)) (complement g) (0 + 7 * bits) (omega arith)
          (omega arith)
          (omega (arith, total, two_pow_le64 (7 * bits) (omega arith), plus_zero bits))
          (omega arith),
      plus_zero bits,
    )
      where
        plus_zero : (b : ℕ) → 2 ^ (0 + 7 * b) ≡ 2 ^ (7 * b)
        plus_zero b = rw zero-add
    spread (no more) = omega (
      arith,
      total,
      ap (λ (t : ℕ). 2 ^ (7 * t)) (ten bits (omega arith) more),
      sign_extend-full (u64 (0 + low * 2 ^ 0)) (complement g) (0 + 7 * bits) (omega arith),
    )
      where
        ten : (b : ℕ) → b ≤ 10 → ¬ (7 * b < 64) → b ≡ 10
        ten b short more = omega arith

module _ (k n : ℕ) (hk : k ≤ 9) (fits : n < 64 * 128 ^ k) (small : n < 2 ^ 63) (rest : Bytes) where
  last_small : last_group 64 k n < 64
  last_small = last_group-lt 64 k n fits

  encoding_read :
      (max_num_bits : ℕ) (negative : Bool)
      → max_num_bits ≤ 64
      → 7 * k < max_num_bits
      → read_leb_signed max_num_bits (encode_signed k negative n ++ rest)
        ≡ leb_read none (pattern_of 64 negative n) rest
  unfolding read_leb_signed
  encoding_read m false hm room =
      leb_signed_loop-groups m 0 0 (inner_groups 64 k n) (last_group 64 k n) rest hm (omega arith)
        (inner_groups-IsGroup 64 k n) (omega (arith, last_small))
        (omega (arith, length-inner_groups 64 k n))
      ∙ ap (λ v. leb_read none v rest)
          (sign_extend-positive _ _ _ last_small ∙ omega (arith, groups_value-groups 64 k n))
  encoding_read m true hm room =
      leb_signed_loop-groups m 0 0 (map complement (inner_groups 64 k n))
        (complement (last_group 64 k n)) rest hm (omega arith) (map-IsGroup _) (omega arith)
        (rw length-map (omega (arith, length-inner_groups 64 k n)))
      ∙ ap (λ v. leb_read none v rest)
          (signed_read-negative (inner_groups 64 k n) (last_group 64 k n) n
            (inner_groups-IsGroup 64 k n) last_small (omega (arith, length-inner_groups 64 k n))
            (groups_value-groups 64 k n) small)

-- `ReadLEB_i64` reads back every 64-bit two's complement number from its signed encoding, and
-- leaves what follows.
pub read_leb_i64-encode_signed :
    (negative : Bool) (n : ℕ) (rest : Bytes)
    → n < 2 ^ 63
    → read_leb_i64 (encode_signed 9 negative n ++ rest)
      ≡ leb_read none (pattern_of 64 negative n) rest
unfolding read_leb_i64
read_leb_i64-encode_signed negative n rest h =
    encoding_read 9 n (omega arith) (omega arith) h rest 64 negative (omega arith) (omega arith)

low_pattern :
    (negative : Bool) (n : ℕ)
    → n < 2 ^ 31
    → pattern_of 64 negative n % 2 ^ 32 ≡ pattern_of 32 negative n
low_pattern false n h = omega arith
low_pattern true n h = omega arith

-- `ReadLEB_i32` does so for every 32-bit number.
pub read_leb_i32-encode_signed :
    (negative : Bool) (n : ℕ) (rest : Bytes)
    → n < 2 ^ 31
    → read_leb_i32 (encode_signed 4 negative n ++ rest)
      ≡ leb_read none (pattern_of 32 negative n) rest
unfolding read_leb_i32
read_leb_i32-encode_signed negative n rest h =
    rw
      (encoding_read 4 n (omega arith) (omega arith) (omega arith) rest 32 negative (omega arith)
        (omega arith))
      (ap (λ t. leb_read none t rest) (low_pattern negative n h))

-- The types and forms of the binary are one byte: `ReadLEB_i7` extends bit 6 to the i8.
pub read_leb_i7-byte :
    (b : ℕ) (rest : Bytes)
    → b < 128
    → read_leb_i7 (b ∷ rest) ≡ leb_read none (b + b / 64 * 128) rest
unfolding read_leb_i7
read_leb_i7-byte b rest h =
    rw (leb_signed_loop-groups 7 0 0 [] b rest (omega arith) (omega arith) tt h (omega arith))
      (ap (λ t. leb_read none t rest) (extended (dec_lt b 64)))
  where
    extended : Dec (b < 64) → sign_extend (u64 (0 + b * 2 ^ 0)) b 7 % 2 ^ 8 ≡ b + b / 64 * 128
    extended (yes positive) = omega (arith, sign_extend-positive (u64 (0 + b * 2 ^ 0)) b 7 positive)
    extended (no negative) = omega (
      arith,
      sign_extend-negative (u64 (0 + b * 2 ^ 0)) b 7 (omega arith) h (omega arith) (omega arith),
    )
