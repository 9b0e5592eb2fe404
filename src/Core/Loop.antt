-- ===== src/Core/Loop.antt =====
-- `for (u32 i = start; i < start + count; ++i)` around a body that can fail.
use react_native_webassembly.Common.{ℕ, zero, suc}
use react_native_webassembly.Results.{Result, ok, ◌>>=◌, Holds, holds_ok, Holds-bind}

abbrev pub for_loop {ℓ} : {A : Type ℓ} → (ℕ → A → Result A) → ℕ → ℕ → A → Result A
for_loop body zero i state = ok state
for_loop body (suc count) i state = body i state >>= λ state'. for_loop body count (suc i) state'

-- What every round keeps, the loop keeps.
pub for_loop-Holds {ℓ κ} :
    {A : Type ℓ} {P : A → Type κ} (body : ℕ → A → Result A)
    → ((i : ℕ) (s : A) → P s → Holds P (body i s))
    → (count i : ℕ) (s : A) → P s
    → Holds P (for_loop body count i s)
for_loop-Holds body step zero i s p = holds_ok p
for_loop-Holds body step (suc count) i s p =
    Holds-bind (body i s) (step i s p) (λ t q. for_loop-Holds body step count (suc i) t q)
