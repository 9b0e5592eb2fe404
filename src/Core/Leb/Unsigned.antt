-- ===== src/Core/Leb/Unsigned.antt =====
-- `ReadLebUnsigned` of cpp/m3_core.c against the groups of seven bits that the format defines.
use react_native_webassembly.Common.{
  ℕ, suc, ◌+◌, ◌*◌, ◌%◌, ◌^◌, ◌≤◌, ◌<◌, ◌≡◌, ap, ◌∙◌, arith, List, [], ◌∷◌, ◌++◌, none, length, All,
  u64,
}
use react_native_webassembly.Common.Bits.{low_seven, top_bit}
use react_native_webassembly.Common.Powers.{bit_or_shifted, two_pow_le64}
use native.Mathlib.Nat.{pow-suc}
use react_native_webassembly.Core.Read.{Bytes}
use react_native_webassembly.Core.Leb.Groups.{
  IsGroup, group_bytes, groups_value, shift_seven, inner_groups, last_group, encode_unsigned,
  groups_value-groups, inner_groups-IsGroup, length-inner_groups, last_group-lt,
}
use react_native_webassembly.Core.Leb.{
  leb_read, add_group, leb_unsigned_loop, read_leb_unsigned, read_leb_u32,
}

module _ (value shift : ℕ) (fits : value < 2 ^ shift) where
  -- The group that is read last may be cut at bit 64.
  pub add_group_sum :
      (byte g : ℕ)
      → byte % 128 ≡ g
      → shift ≤ 64
      → add_group value byte shift ≡ u64 (value + g * 2 ^ shift)
  add_group_sum byte g e hs = rw (low_seven, e) (bit_or_shifted g shift hs value fits)

  pub group_bound : (c : ℕ) → IsGroup c → value + c * 2 ^ shift < 2 ^ (shift + 7)
  group_bound c hc = grind (arith, shift_seven shift)

  pub add_inner_group :
      (byte c : ℕ)
      → byte % 128 ≡ c
      → shift + 7 ≤ 64
      → add_group value byte shift ≡ value + c * 2 ^ shift
  add_inner_group byte c e hs = omega (
    arith,
    add_group_sum byte c e (omega arith),
    group_bound c (omega arith),
    two_pow_le64 (shift + 7) hs,
  )

-- One round of the loop, on a last byte and on any other.
module _ (max_num_bits value shift : ℕ) (bytes : Bytes) where
  pub last_round :
      (byte : ℕ)
      → byte < 128
      → leb_unsigned_loop max_num_bits (byte ∷ bytes) value shift
        ≡ leb_read none (add_group value byte shift) bytes
  unfolding leb_unsigned_loop
  last_round byte h = ground (arith, top_bit byte)

  pub inner_round :
      (byte : ℕ)
      → 128 ≤ byte
      → byte < 256
      → shift + 7 < max_num_bits
      → leb_unsigned_loop max_num_bits (byte ∷ bytes) value shift
        ≡ leb_unsigned_loop max_num_bits bytes (add_group value byte shift) (shift + 7)
  unfolding leb_unsigned_loop
  inner_round byte h hb more = ground (arith, top_bit byte)

pub regroup :
    (value c v s : ℕ) → value + (c + 128 * v) * 2 ^ s ≡ value + c * 2 ^ s + v * 2 ^ (s + 7)
regroup value c v s = omega (arith, ap (λ (t : ℕ). v * t) (shift_seven s))

leb_unsigned_loop-groups :
    (max_num_bits value shift : ℕ) (cs : List ℕ) (g : ℕ) (rest : Bytes)
    → max_num_bits ≤ 64
    → value < 2 ^ shift
    → All IsGroup cs
    → IsGroup g
    → shift + 7 * length cs < max_num_bits
    → leb_unsigned_loop max_num_bits (group_bytes cs g ++ rest) value shift
      ≡ leb_read none (u64 (value + groups_value cs g * 2 ^ shift)) rest
leb_unsigned_loop-groups m value shift [] g rest hm fits hcs hg room =
    last_round m value shift rest g hg
    ∙ ap (λ v. leb_read none v rest)
        (add_group_sum value shift fits g g (omega arith) (omega arith))
leb_unsigned_loop-groups m value shift (c ∷ cs) g rest hm fits (hc, hcs) hg room =
    inner_round m value shift (group_bytes cs g ++ rest) (c + 128) (omega arith) (omega arith)
      (omega arith)
    ∙ rw (add_inner_group value shift fits (c + 128) c (omega arith) (omega arith)) (
        leb_unsigned_loop-groups m (value + c * 2 ^ shift) (shift + 7) cs g rest hm
          (group_bound value shift fits c hc) hcs hg (omega arith)
        ∙ rw (regroup value c (groups_value cs g) shift))

-- Every sequence of groups that fits the width is read as the number that it stands for, padded
-- forms included, up to the cut at 64 bits; what follows the last group is left.
pub read_leb_unsigned-group_bytes :
    (max_num_bits : ℕ) (cs : List ℕ) (g : ℕ) (rest : Bytes)
    → max_num_bits ≤ 64
    → All IsGroup cs
    → IsGroup g
    → 7 * length cs < max_num_bits
    → read_leb_unsigned max_num_bits (group_bytes cs g ++ rest)
      ≡ leb_read none (u64 (groups_value cs g)) rest
unfolding read_leb_unsigned
read_leb_unsigned-group_bytes m cs g rest hm hcs hg room =
    leb_unsigned_loop-groups m 0 0 cs g rest hm (omega arith) hcs hg (omega arith)
    ∙ ap (λ v. leb_read none (u64 v) rest) (unit (groups_value cs g))
  where
    unit : (v : ℕ) → 0 + v * 2 ^ 0 ≡ v
    unit v = omega arith

module _ (k v : ℕ) (rest : Bytes) (small : v < 128 ^ suc k) where
  encoding_read :
      (max_num_bits : ℕ)
      → max_num_bits ≤ 64
      → 7 * k < max_num_bits
      → read_leb_unsigned max_num_bits (encode_unsigned k v ++ rest) ≡ leb_read none (u64 v) rest
  encoding_read m hm room =
      read_leb_unsigned-group_bytes m (inner_groups 128 k v) (last_group 128 k v) rest hm
        (inner_groups-IsGroup 128 k v) (last_group-lt 128 k v (omega (arith, pow-suc 128 k)))
        (omega (arith, length-inner_groups 128 k v))
      ∙ rw (groups_value-groups 128 k v)

-- `ReadLEB_u32` reads back every 32-bit number from its encoding, and leaves what follows.
pub read_leb_u32-encode_unsigned :
    (v : ℕ) (rest : Bytes)
    → v < 2 ^ 32
    → read_leb_u32 (encode_unsigned 4 v ++ rest) ≡ leb_read none v rest
unfolding read_leb_u32
read_leb_u32-encode_unsigned v rest h =
    rw (encoding_read 4 v rest (omega arith) 32 (omega arith) (omega arith))
      (ap (λ t. leb_read none t rest) (omega arith))
