-- ===== src/Compile/Constants/Search.antt =====
-- cpp/m3_compile.c, `PushConst`: what a constant's place on the stack stands for.
use react_native_webassembly.Common.{
  ℕ, zero, suc, ◌+◌, ◌-◌, ◌^◌, ◌≤◌, ◌<◌, ◌≡◌, ◌≢◌, sym, subst, arith, Bool, true, ◌&&◌, Option,
  none, some, ltb, leb, ◌==◌, if-by, u16,
}
use react_native_webassembly.Core.ValueType.{type_v128, type_i64, is_64bit_type}
use react_native_webassembly.Compile.State.{Compilation}
use react_native_webassembly.Compile.Slots.{
  get_type_num_slots, align_slot_to_type, is_slot_allocated,
}
use react_native_webassembly.Compile.Constants.{
  read_constant, find_wide_constant, find_narrow_constant, find_constant,
}

-- The slot is in the table and holds the word.
abbrev pub HoldsConstant : Compilation → Bool → ℕ → ℕ → Type 0
HoldsConstant o wide word slot =
    (o.slot_first_const_index ≤ slot)
    × (slot < o.slot_max_const_index)
    × (read_constant o wide (slot - o.slot_first_const_index) ≡ word)

-- The table lies in the frame, and below the dynamic slots.
pub record IsTable (o : Compilation) : Type 0 where
  pub ordered : o.slot_first_const_index ≤ o.slot_max_const_index
  pub reserved : o.slot_max_const_index ≤ o.slot_first_dynamic_index
  pub inside : o.slot_first_dynamic_index < 4000

-- What holds of the value that is found, if one is.
abbrev pub IfSome {ℓ} : (ℕ → Type ℓ) → Option ℕ → Type ℓ
IfSome P none = Unit
IfSome P (some a) = P a

find_wide_constant-Holds :
    (fuel : ℕ) (o : Compilation) (word slot : ℕ)
    → o.slot_first_const_index ≤ slot
    → o.slot_max_const_index < 2 ^ 15
    → slot < 2 ^ 15
    → IfSome (HoldsConstant o true word) (find_wide_constant fuel o word slot)
unfolding find_wide_constant
find_wide_constant-Holds zero o word slot low small near = tt
find_wide_constant-Holds (suc fuel) o word slot low small near =
    if-by (IfSome (HoldsConstant o true word)) (ltb (slot + 1) o.slot_max_const_index)
      (λ inside.
        let next : u16 (slot + 2) ≡ slot + 2 = omega arith in
        if-by (IfSome (HoldsConstant o true word))
          ((is_slot_allocated o slot && is_slot_allocated o (slot + 1))
            && read_constant o true (slot - o.slot_first_const_index) == word)
          (λ here. (low, ground arith, ground arith))
          (λ elsewhere.
            rw next
              (find_wide_constant-Holds fuel o word (slot + 2) (omega arith) small (ground arith))))
      (λ outside. tt)

find_narrow_constant-Holds :
    (num_left : ℕ) (o : Compilation) (is_64bit : Bool) (word i : ℕ)
    → o.slot_first_const_index + i + num_left ≤ o.slot_max_const_index
    → o.slot_max_const_index < 2 ^ 15
    → IfSome (HoldsConstant o is_64bit word) (find_narrow_constant num_left o is_64bit word i)
unfolding find_narrow_constant
find_narrow_constant-Holds zero o is_64bit word i fits small = tt
find_narrow_constant-Holds (suc num_left) o is_64bit word i fits small =
    let slot : u16 (o.slot_first_const_index + i) ≡ o.slot_first_const_index + i = omega arith in
    if-by (IfSome (HoldsConstant o is_64bit word))
      (is_slot_allocated o (u16 (o.slot_first_const_index + i))
        && read_constant o is_64bit i == word)
      (λ here.
        let back : o.slot_first_const_index + i - o.slot_first_const_index ≡ i = omega arith in
        rw (slot, back) (omega arith, omega arith, ground arith))
      (λ elsewhere. find_narrow_constant-Holds num_left o is_64bit word (i + 1) (omega arith) small)

align-ge :
    (slot type : ℕ)
    → slot < 4000
    → (slot ≤ align_slot_to_type slot type) × (align_slot_to_type slot type ≤ slot + 3)
unfolding align_slot_to_type get_type_num_slots is_64bit_type
align-ge slot type h = ground arith

pub two_slots_wide : (type : ℕ) → get_type_num_slots type ≡ 2 → is_64bit_type type ≡ true
unfolding get_type_num_slots
two_slots_wide type e = ground arith

num_used :
    (o : Compilation)
    → IsTable o
    → u16 (o.slot_max_const_index + (2 ^ 16 - o.slot_first_const_index))
      ≡ o.slot_max_const_index - o.slot_first_const_index
num_used o t =
    let ordered = t.ordered in let reserved = t.reserved in let inside = t.inside in omega arith

-- The search ends at a slot of the table that holds the word, or at none.
pub find_constant-Holds :
    (o : Compilation) (word type : ℕ)
    → IsTable o
    → type ≢ type_v128
    → IfSome (HoldsConstant o (is_64bit_type type) word) (find_constant o word type)
unfolding find_constant
find_constant-Holds o word type t narrow =
    let ordered = t.ordered in
    let reserved = t.reserved in
    let inside = t.inside in
    let (low, near) = align-ge o.slot_first_const_index type_i64 (omega arith) in
    let used = num_used o t in
    if-by (IfSome (HoldsConstant o (is_64bit_type type) word))
      (get_type_num_slots type == 2
        && leb 2 (u16 (o.slot_max_const_index + (2 ^ 16 - o.slot_first_const_index))))
      (λ two.
        let wide = two_slots_wide type (ground arith) in
        subst
          (λ b. IfSome (HoldsConstant o b word) (
            find_wide_constant (u16 (o.slot_max_const_index + (2 ^ 16 - o.slot_first_const_index)))
              o word (align_slot_to_type o.slot_first_const_index type_i64)))
          (sym wide) (find_wide_constant-Holds _ o word _ low (omega arith) (omega arith)))
      (λ other.
        if-by (IfSome (HoldsConstant o (is_64bit_type type) word)) (get_type_num_slots type == 1)
          (λ one.
            find_narrow_constant-Holds _ o (is_64bit_type type) word 0 (omega arith) (omega arith))
          (λ none. tt))
