-- ===== src/Core/Leb/Groups.antt =====
-- The encodings of the LEB128 format: a number cut into groups of seven bits, lowest first.
use react_native_webassembly.Common.{
  ℕ, zero, suc, ◌+◌, ◌-◌, ◌*◌, ◌/◌, ◌%◌, ◌^◌, ◌≤◌, ◌<◌, ◌≡◌, refl, ap, ◌∙◌, arith, Bool, true,
  false, List, [], ◌∷◌, map, length, All, ltb, if◌then◌else◌,
}
use react_native_webassembly.Common.Powers.{pow-add}
use react_native_webassembly.Core.Read.{Bytes}
use native.Mathlib.Nat.{pow-suc}

abbrev pub IsGroup : ℕ → Type 0
IsGroup g = g < 128

-- The bytes of the groups `gs` and a last group `g`: every byte but the last has its top bit set.
abbrev pub group_bytes : List ℕ → ℕ → Bytes
group_bytes [] g = g ∷ []
group_bytes (c ∷ cs) g = (c + 128) ∷ group_bytes cs g

-- The number that the groups stand for, lowest group first.
abbrev pub groups_value : List ℕ → ℕ → ℕ
groups_value [] g = g
groups_value (c ∷ cs) g = c + 128 * groups_value cs g

pub shift_seven : (s : ℕ) → 2 ^ (s + 7) ≡ 128 * 2 ^ s
shift_seven s = omega (arith, pow-add s 7)

pub pow_groups : (n : ℕ) → 2 ^ (7 * suc n) ≡ 128 * 2 ^ (7 * n)
pow_groups n = ap (λ (t : ℕ). 2 ^ t) (one_more n) ∙ shift_seven (7 * n)
  where
    one_more : (n : ℕ) → 7 * suc n ≡ 7 * n + 7
    one_more n = omega arith

-- The groups of `v` before the last, which is the first below `limit`; at most `k` of them.
pub inner_groups : ℕ → ℕ → ℕ → List ℕ
inner_groups limit zero v = []
inner_groups limit (suc k) v =
    let rest = inner_groups limit k (v / 128) in if ltb v limit then [] else v % 128 ∷ rest

pub last_group : ℕ → ℕ → ℕ → ℕ
last_group limit zero v = v
last_group limit (suc k) v =
    let rest = last_group limit k (v / 128) in if ltb v limit then v else rest

quotient_lt : (limit k v : ℕ) → v < limit * 128 ^ suc k → v / 128 < limit * 128 ^ k
quotient_lt limit k v h = omega (arith, ap (λ (t : ℕ). limit * t) (pow-suc 128 k))

module _ (limit : ℕ) where
  pub groups_value-groups :
      (k v : ℕ) → groups_value (inner_groups limit k v) (last_group limit k v) ≡ v
  unfolding inner_groups last_group
  groups_value-groups zero v = refl
  groups_value-groups (suc k) v = ground (arith, groups_value-groups k (v / 128))

  pub inner_groups-IsGroup : (k v : ℕ) → All IsGroup (inner_groups limit k v)
  unfolding inner_groups
  inner_groups-IsGroup zero v = tt
  inner_groups-IsGroup (suc k) v = ground (arith, inner_groups-IsGroup k (v / 128))

  pub length-inner_groups : (k v : ℕ) → length (inner_groups limit k v) ≤ k
  unfolding inner_groups
  length-inner_groups zero v = omega arith
  length-inner_groups (suc k) v = ground (arith, length-inner_groups k (v / 128))

  pub last_group-lt : (k v : ℕ) → v < limit * 128 ^ k → last_group limit k v < limit
  unfolding last_group
  last_group-lt zero v h = omega arith
  last_group-lt (suc k) v h = ground (arith, last_group-lt k (v / 128) (quotient_lt limit k v h))

-- The encoding of an unsigned number in at most `k + 1` bytes.
abbrev pub encode_unsigned : ℕ → ℕ → Bytes
encode_unsigned k v = group_bytes (inner_groups 128 k v) (last_group 128 k v)

-- The groups of -(n + 1) are those of `n`, each taken from 127.
abbrev pub complement : ℕ → ℕ
complement c = 127 - c

-- The encoding of `n`, or of -(n + 1), in at most `k + 1` bytes. The last group is below 64, so
-- that its bit 6 is the sign.
abbrev pub encode_signed : ℕ → Bool → ℕ → Bytes
encode_signed k false n = group_bytes (inner_groups 64 k n) (last_group 64 k n)
encode_signed k true n =
    group_bytes (map complement (inner_groups 64 k n)) (complement (last_group 64 k n))

-- The pattern of `width` bits that stands for `n`, or for -(n + 1).
abbrev pub pattern_of : ℕ → Bool → ℕ → ℕ
pattern_of width false n = n
pattern_of width true n = 2 ^ width - 1 - n

-- A number of `k + 1` groups has 7 * (k + 1) bits.
pub groups_value-lt :
    (cs : List ℕ) (g : ℕ)
    → All IsGroup cs
    → IsGroup g
    → groups_value cs g < 2 ^ (7 * suc (length cs))
groups_value-lt [] g h hg = omega arith
groups_value-lt (c ∷ cs) g (hc, h) hg =
    omega (arith, groups_value-lt cs g h hg, pow_groups (suc (length cs)))

pub groups_value-complement :
    (cs : List ℕ) (g : ℕ)
    → All IsGroup cs
    → IsGroup g
    → groups_value (map complement cs) (complement g) + groups_value cs g + 1
      ≡ 2 ^ (7 * suc (length cs))
groups_value-complement [] g h hg = omega arith
groups_value-complement (c ∷ cs) g (hc, h) hg =
    omega (arith, groups_value-complement cs g h hg, pow_groups (suc (length cs)))
