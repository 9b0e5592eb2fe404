-- ===== src/Compile/Counts.antt =====
-- cpp/m3_compile.c, the usage counts of slots (`m3Slots`) against the entries of the stack that
-- refer to them.
pub mod Marks
pub mod Push
pub mod Written
pub mod Entry
pub mod Top
pub mod Release
pub mod Pop
pub mod Moved
pub mod Reference
pub mod Results
pub mod Preserve
pub mod Steps
pub mod Sharing
pub mod Invariant
use react_native_webassembly.Common.{
  ℕ, zero, suc, ◌+◌, ◌-◌, ◌^◌, ◌≤◌, ◌<◌, ◌≡◌, refl, ap, ap₂, ◌≢◌, arith, Bool, true, false, ◌&&◌,
  not, ◌⊎◌, inl, inr, sym, Bool-cases, ltb, leb, ◌==◌, if◌then◌else◌, u8,
}
use react_native_webassembly.Compile.State.{update, reg0_slot_alias, fp0_slot_alias}
use react_native_webassembly.Compile.Slots.{get_type_num_slots, decrement_slots}

abbrev pub within : ℕ → ℕ → ℕ → Bool
within slot n j = leb slot j && ltb j (slot + n)

-- How often an entry counts for slot `j`: once, where its slots are dynamic ones and `j` is among them.
unfoldable pub covers : ℕ → ℕ → ℕ → ℕ → ℕ
covers first slot type j =
    if (leb first slot && ltb slot reg0_slot_alias) && within slot (get_type_num_slots type) j
    then 1
    else 0

-- The entries of a block that refer to slot `j`: `n` of them from the index `base` on.
unfoldable pub uses : (ℕ → ℕ) → (ℕ → ℕ) → ℕ → ℕ → ℕ → ℕ → ℕ
unfolding covers
uses slots types first base zero j = 0
uses slots types first base (suc n) j =
    covers first (slots (base + n)) (types (base + n)) j + uses slots types first base n j

pub uses-cong :
    {slots slots' types types' : ℕ → ℕ} (first base n j : ℕ)
    → ((i : ℕ) → i < base + n → slots i ≡ slots' i)
    → ((i : ℕ) → i < base + n → types i ≡ types' i)
    → uses slots types first base n j ≡ uses slots' types' first base n j
unfolding uses
uses-cong first base zero j same_slots same_types = refl
uses-cong first base (suc n) j same_slots same_types =
    let slot = same_slots (base + n) (omega arith) in
    let type = same_types (base + n) (omega arith) in
    let rest =
      uses-cong first base n j (λ i h. same_slots i (omega arith))
        (λ i h. same_types i (omega arith)) in
    ap₂ ◌+◌ (ap₂ (λ s t. covers first s t j) slot type) rest

-- Entries past the end do not count.
pub uses-update :
    (slots types : ℕ → ℕ) (first base n i slot type j : ℕ)
    → base + n ≤ i
    → uses (update slots i slot) (update types i type) first base n j
      ≡ uses slots types first base n j
uses-update slots types first base n i slot type j h =
    uses-cong first base n j (λ k below. ground arith) (λ k below. ground arith)

covers-alias : (first slot type j : ℕ) → reg0_slot_alias ≤ slot → covers first slot type j ≡ 0
unfolding covers
covers-alias first slot type j h = ground arith

-- An entry in the block that counted for no slot, once it refers to one.
pub uses-replace :
    (slots types : ℕ → ℕ) (first base n i slot j : ℕ)
    → base ≤ i
    → i < base + n
    → covers first (slots i) (types i) j ≡ 0
    → uses (update slots i slot) types first base n j
      ≡ covers first slot (types i) j + uses slots types first base n j
unfolding uses
uses-replace slots types first base zero i slot j low high none = absurd (omega arith)
uses-replace slots types first base (suc n) i slot j low high none =
    elim (Bool-cases (i == base + n)) [
      | inl top ↦
          let same : i ≡ base + n = ground arith in
          let now : update slots i slot (base + n) ≡ slot = ground arith in
          let lower =
            uses-cong {slots = update slots i slot} {slots' = slots} {types = types}
              {types' = types} first base n j (λ k below. ground arith) (λ k below. refl) in
          rw (now, lower, sym same, none) (omega arith)
      | inr lower ↦
          let kept : update slots i slot (base + n) ≡ slots (base + n) = ground arith in
          let apart : i ≢ base + n = ground arith in
          let rest = uses-replace slots types first base n i slot j low (omega arith) none in
          rw (kept, rest) (omega arith)
    ]

pub decrement_slots-counts :
    (slot n : ℕ) (counts : ℕ → ℕ) (j : ℕ)
    → decrement_slots slot n counts j ≡ (if within slot n j then u8 (counts j + 255) else counts j)
unfolding decrement_slots
decrement_slots-counts slot zero counts j = ground arith
decrement_slots-counts slot (suc n) counts j =
    let rest =
      decrement_slots-counts (slot + 1) n (update counts slot (u8 (counts slot + 255))) j in
    ground (arith, rest)
