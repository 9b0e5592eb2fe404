-- ===== src/Compile/Counts/Pop.antt =====
-- cpp/m3_compile.c, `Pop` and `UnwindBlockStack`: what becomes of the accounts.
use react_native_webassembly.Common.{
  ℕ, zero, suc, ◌+◌, ◌-◌, ◌≤◌, ◌<◌, ◌≡◌, refl, ap, ◌∙◌, inl, inr, arith, true, false, ltb, if-by,
  Bool-cases,
}
use react_native_webassembly.Compile.State.{
  Compilation, Scope, Then, then_ok, then_err, Then-weaken, Done, done, Done-Then, Done-continue,
  Done-weaken,
}
use react_native_webassembly.Compile.Stack.{
  is_stack_polymorphic, pop, unwind_from, unwind_block_stack,
}
use react_native_webassembly.Compile.Counts.Invariant.{IsCounted}
use react_native_webassembly.Compile.Counts.Entry.{Kept}
use react_native_webassembly.Compile.Counts.Top.{Popped}
use react_native_webassembly.Compile.Counts.Release.{release_entry-Popped}

-- While the block has an entry left `Pop` succeeds, and gives back what the entry held.
pub pop-Popped :
    {outside : ℕ → ℕ} (o : Compilation)
    → IsCounted outside o
    → o.block.block_stack_index < o.stack_index
    → Done (Popped outside o) (pop o)
unfolding pop
pop-Popped o c some_left =
    let some : ltb o.block.block_stack_index o.stack_index ≡ true = ground arith in
    rw some
      (release_entry-Popped c some_left (c.entries (o.stack_index - 1) (omega arith) (omega arith)))

-- Where the block has none, `Pop` fails, or leaves a polymorphic stack as it is.
pop-empty :
    {outside : ℕ → ℕ} (o : Compilation)
    → IsCounted outside o
    → ltb o.block.block_stack_index o.stack_index ≡ false
    → Then (Kept outside o) (pop o)
unfolding pop
pop-empty {outside} o c none = rw none (
    if-by (Then (Kept outside o)) (is_stack_polymorphic o) (λ polymorphic. then_ok (c, refl, refl))
      (λ plain. then_err))

pub pop-Kept :
    {outside : ℕ → ℕ} (o : Compilation) → IsCounted outside o → Then (Kept outside o) (pop o)
pop-Kept o c = elim (Bool-cases (ltb o.block.block_stack_index o.stack_index)) [
  | inl left ↦
      Then-weaken (pop o) (Done-Then (pop o) (pop-Popped o c (ground arith)))
        (λ p _ (counted, first, block, height). (counted, first, block))
  | inr none ↦ pop-empty o c none
]

abbrev pub Unwound : (ℕ → ℕ) → Compilation → Compilation → Unit {0} → Type 0
Unwound outside o p _ =
    IsCounted outside p
    × (p.slot_first_dynamic_index ≡ o.slot_first_dynamic_index)
    × (p.block ≡ o.block)
    × (p.stack_index ≡ o.block.block_stack_index)

unwind_from-Unwound :
    {outside : ℕ → ℕ} (fuel : ℕ) (o : Compilation)
    → IsCounted outside o
    → o.stack_index ≤ fuel + o.block.block_stack_index
    → Done (Unwound outside o) (unwind_from fuel o)
unfolding unwind_from
unwind_from-Unwound zero o c enough = let low = c.low in done (c, refl, refl, omega arith)
unwind_from-Unwound {outside} (suc fuel) o c enough =
    if-by (Done (Unwound outside o)) (ltb o.block.block_stack_index o.stack_index)
      (λ left.
        Done-continue (pop o) (pop-Popped o c (ground arith))
          (λ p _ (counted, first, block, height).
            let base = ap (λ (s : Scope). s.block_stack_index) block in
            Done-weaken (unwind_from fuel p) (unwind_from-Unwound fuel p counted (omega arith))
              (λ q _ (counted', first', block', height').
                (counted', first' ∙ first, block' ∙ block, height' ∙ base))))
      (λ none. let low = c.low in done (c, refl, refl, ground arith))

-- `UnwindBlockStack` succeeds and ends at the height where the block began, with the slots given back
-- that the block's entries held: what is left in use is what the entries outside hold.
pub unwind_block_stack-Unwound :
    {outside : ℕ → ℕ} (o : Compilation)
    → IsCounted outside o
    → Done (Unwound outside o) (unwind_block_stack o)
unfolding unwind_block_stack
unwind_block_stack-Unwound o c = unwind_from-Unwound o.stack_index o c (omega arith)
