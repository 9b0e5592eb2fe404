-- ===== src/Parse/Interning.antt =====
-- cpp/m3_parse.c changes the environment only by adding signatures.
use react_native_webassembly.Common.{
  ℕ, zero, suc, ◌≤◌, ◌<◌, ◌≡◌, arith, some, List, [], ◌∷◌, ◌++◌, ltb, ◌==◌, Bool, true, false,
  if◌then◌else◌, length, All,
}
use react_native_webassembly.Results.{Result, ok, err, and_then-by, Holds, holds_ok, holds_err}
use react_native_webassembly.Core.Read.{Bytes}
use react_native_webassembly.Core.Leb.{read_leb_u32, try_leb}
use react_native_webassembly.Runtime.{FuncType, Environment}
use react_native_webassembly.FuncTypes.{TypeRef, deref, environment_add_func_type}
use react_native_webassembly.FuncTypes.Interning.{
  IsInterned, deref-lt, environment_add_func_type-IsInterned, environment_add_func_type-keeps,
  environment_add_func_type-SameType, environment_add_func_type-grows,
}
use react_native_webassembly.Module.{Module}
use react_native_webassembly.Module.Validity.{IsValid, IsValid-mono}
use react_native_webassembly.Parse.Types.{
  parse_func_type, parse_types, max_sane_types_count, with_func_types, parse_section_type,
}

-- One environment after another: the list stays free of equal signatures if it is, what a reference
-- stands for stays, and the list is not shorter.
pub record Extends (before after : Environment) : Type 0 where
  pub interned : IsInterned before.func_types → IsInterned after.func_types
  pub keeps :
      (ref : TypeRef) (t : FuncType)
      → deref before.func_types ref ≡ some t
      → deref after.func_types ref ≡ some t
  pub grows : length before.func_types ≤ length after.func_types

pub Extends-refl : (env : Environment) → Extends env env
Extends-refl env = record { interned = λ h. h; keeps = λ ref t h. h; grows = omega arith }

pub Extends-trans : {a b c : Environment} → Extends a b → Extends b c → Extends a c
Extends-trans h k = record {
  interned = λ i. k.interned (h.interned i);
  keeps = λ ref t i. k.keeps ref t (h.keeps ref t i);
  grows = omega (arith, h.grows, k.grows);
}

add-Extends : (env : Environment) (t : FuncType) → Extends env (environment_add_func_type env t).1
add-Extends env t = record {
  interned = environment_add_func_type-IsInterned env t;
  keeps = λ ref u. environment_add_func_type-keeps env t ref;
  grows = environment_add_func_type-grows env t;
}

add-lt :
    (env : Environment) (t : FuncType)
    → (environment_add_func_type env t).0 < length (environment_add_func_type env t).1.func_types
add-lt env t =
    let (u, at, same) = environment_add_func_type-SameType env t in
    deref-lt (environment_add_func_type env t).1.func_types (environment_add_func_type env t).0 at

All-mono :
    (n n' : ℕ) (refs : List TypeRef) → n ≤ n' → All (λ r. r < n) refs → All (λ r. r < n') refs
All-mono n n' [] k h = tt
All-mono n n' (r ∷ refs) k h = (omega (arith, h.0), All-mono n n' refs k h.1)

All-append :
    (n : ℕ) (refs : List TypeRef) (ref : TypeRef)
    → All (λ r. r < n) refs
    → ref < n
    → All (λ r. r < n) (refs ++ (ref ∷ []))
All-append n [] ref h k = (k, tt)
All-append n (r ∷ refs) ref h k = (h.0, All-append n refs ref h.1 k)

-- What the parser of the types leaves behind, with references into the environment it leaves.
abbrev Typed : Environment → Environment × Result (List TypeRef) → Type 0
Typed env out =
    Extends env out.0 × Holds (λ refs. All (λ r. r < length out.0.func_types) refs) out.1

parse_types-Typed :
    (n : ℕ) (env : Environment) (refs : List TypeRef) (bytes : Bytes)
    → All (λ r. r < length env.func_types) refs
    → Typed env (parse_types n env refs bytes)
unfolding parse_types
parse_types-Typed zero env refs bytes h = (Extends-refl env, holds_ok h)
parse_types-Typed (suc n) env refs bytes h =
    and_then-by (Typed env) env (parse_func_type bytes) (λ e. (Extends-refl env, holds_err))
      (λ p e.
        let added = environment_add_func_type env p.0 in
        let here = add-Extends env p.0 in
        let later = parse_types-Typed n added.1 (refs ++ (added.0 ∷ [])) p.1 (
          All-append (length added.1.func_types) refs added.0
            (All-mono (length env.func_types) (length added.1.func_types) refs here.grows h)
            (add-lt env p.0)) in
        (Extends-trans here later.0, later.1))

-- What a section leaves behind: a later environment, and a module that is valid over it.
abbrev pub Parsed : Environment → Environment × Result Module → Type 0
Parsed env out = Extends env out.0 × Holds (IsValid (length out.0.func_types)) out.1

pub parse_section_type-Parsed :
    (env : Environment) (m : Module) (bytes : Bytes)
    → IsValid (length env.func_types) m
    → Parsed env (parse_section_type env m bytes)
unfolding parse_section_type
parse_section_type-Parsed env m bytes h =
    and_then-by (Parsed env) env (try_leb (read_leb_u32 bytes)) (λ e. (Extends-refl env, holds_err))
      (λ r e.
        either (ltb max_sane_types_count r.0) (Extends-refl env, holds_err)
          (either (r.0 == 0) (Extends-refl env, holds_ok h)
            (typed (parse_types r.0 env [] r.1) (parse_types-Typed r.0 env [] r.1 tt))))
  where
    typed :
        (out : Environment × Result (List TypeRef))
        → Typed env out
        → Parsed env (out.0, with_func_types m out.1)
    typed (env', ok refs) (x, holds_ok refs_ok) =
        let valid = IsValid-mono (length env.func_types) (length env'.func_types) m x.grows h in
        (x, holds_ok (refs_ok, valid.1, valid.2, valid.3))
    typed (env', err e) (x, k) = (x, holds_err)

    either :
        (b : Bool) {p q : Environment × Result Module}
        → Parsed env p
        → Parsed env q
        → Parsed env (if b then p else q)
    either true h k = h
    either false h k = k
