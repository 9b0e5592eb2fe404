-- ===== src/Compile/Counts/Top.antt =====
-- cpp/m3_compile.c, the entry on top of the stack apart from those below it.
use react_native_webassembly.Common.{
  ℕ, zero, suc, ◌+◌, ◌-◌, ◌^◌, ◌≤◌, ◌<◌, ◌≡◌, ◌≢◌, refl, ◌∙◌, subst, inl, inr, arith, if◌then◌else◌,
  ◌==◌, u8, Bool-cases,
}
use react_native_webassembly.Compile.State.{Compilation, update, max_function_slots}
use react_native_webassembly.Compile.Slots.{get_type_num_slots}
use react_native_webassembly.Compile.Counts.{within, covers, uses}
use react_native_webassembly.Compile.Counts.Invariant.{IsCounted, EntryOk, alias_of}

-- The entry on top apart from those below it.
pub uses-top :
    (slots types : ℕ → ℕ) (first base height j : ℕ)
    → base < height
    → uses slots types first base (height - base) j
      ≡ covers first (slots (height - 1)) (types (height - 1)) j
        + uses slots types first base (height - 1 - base) j
unfolding uses
uses-top slots types first base height j low =
    let more : height - base ≡ suc (height - 1 - base) = omega arith in
    let top : base + (height - 1 - base) ≡ height - 1 = omega arith in rw (more, top) refl

pub EntryOk-forget :
    (highest slot type i r : ℕ) (registers : ℕ → ℕ)
    → r < 2
    → registers r ≢ suc i
    → EntryOk highest slot type i registers
    → EntryOk highest slot type i (update registers r 0)
EntryOk-forget highest slot type i r registers two other (inl fits) = inl fits
EntryOk-forget highest slot type i zero registers two other (inr (inl (alias, known))) =
    absurd (other known)
EntryOk-forget highest slot type i (suc r) registers two other (inr (inl (alias, known))) =
    let kept : update registers (suc r) 0 0 ≡ registers 0 = ground arith in
    inr (inl (alias, kept ∙ known))
EntryOk-forget highest slot type i zero registers two other (inr (inr (alias, known))) =
    let kept : update registers 0 0 1 ≡ registers 1 = ground arith in
    inr (inr (alias, kept ∙ known))
EntryOk-forget highest slot type i (suc zero) registers two other (inr (inr (alias, known))) =
    absurd (other known)
EntryOk-forget highest slot type i (suc (suc r)) registers two other (inr (inr (alias, known))) =
    absurd (omega arith)

pub alias_of-injective : (r s : ℕ) → r < 2 → s < 2 → alias_of r ≡ alias_of s → r ≡ s
alias_of-injective zero zero r_two s_two e = refl
alias_of-injective zero (suc s) r_two s_two e = absurd (omega arith)
alias_of-injective (suc r) zero r_two s_two e = absurd (omega arith)
alias_of-injective (suc r) (suc s) r_two s_two e = omega arith

pub decremented :
    (first slot type j held outside : ℕ) (counts : ℕ → ℕ)
    → first ≤ slot
    → slot < max_function_slots
    → counts j < 2 ^ 8
    → counts j ≡ outside + (covers first slot type j + held)
    → (if within slot (get_type_num_slots type) j then u8 (counts j + 255) else counts j)
      ≡ outside + held
unfolding covers
decremented first slot type j held outside counts dynamic small byte before = ground arith

pub covers-fixed : (first slot type j : ℕ) → slot < first → covers first slot type j ≡ 0
unfolding covers
covers-fixed first slot type j below = ground arith

-- A block's accounts with one entry less.
abbrev pub Popped : (ℕ → ℕ) → Compilation → Compilation → Unit {0} → Type 0
Popped outside o p _ =
    IsCounted outside p
    × (p.slot_first_dynamic_index ≡ o.slot_first_dynamic_index)
    × (p.block ≡ o.block)
    × (p.stack_index ≡ o.stack_index - 1)

-- A register that stands for another entry than the one on top.
pub not_top :
    (slots : ℕ → ℕ) (height register alias : ℕ)
    → register ≤ height
    → slots (register - 1) ≡ alias
    → slots (height - 1) ≢ alias
    → register ≤ height - 1
not_top slots height register alias to there apart = elim (Bool-cases (register == height)) [
  | inl top ↦
      let same : register ≡ height = ground arith in
      absurd (apart (subst (λ k. slots (k - 1) ≡ alias) same there))
  | inr lower ↦ ground arith
]
