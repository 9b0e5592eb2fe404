-- ===== src/FuncTypes/Interning.antt =====
-- Interned signatures of cpp/m3_env.c: equal references are equal signatures.
use react_native_webassembly.Common.{
  subst, ℕ, ◌+◌, ◌≡◌, ◌≤◌, ◌<◌, ◌↔◌, inl, inr, refl, sym, ◌∙◌, arith, true, false, none, some,
  Option, List, [], ◌∷◌, ◌==◌, if◌then◌else◌, Bool-cases, Option-cases, length, take,
}
use mathlib.Core.Option.{some-injective}
use react_native_webassembly.Runtime.{FuncType, Environment}
use react_native_webassembly.FuncTypes.{
  TypeRef, bytes_equal, are_func_types_equal, find_func_type, environment_add_func_type, deref,
}

pub bytes_equal→eq : (xs ys : List ℕ) → bytes_equal xs ys ≡ true → xs ≡ ys
unfolding bytes_equal
bytes_equal→eq [] [] h = refl
bytes_equal→eq [] (y ∷ ys) h = cc
bytes_equal→eq (x ∷ xs) [] h = cc
bytes_equal→eq (x ∷ xs) (y ∷ ys) h = ground (arith, bytes_equal→eq xs ys)

pub bytes_equal_refl : (xs : List ℕ) → bytes_equal xs xs ≡ true
unfolding bytes_equal
bytes_equal_refl [] = refl
bytes_equal_refl (x ∷ xs) = ground (arith, bytes_equal_refl xs)

-- The same numbers of results and arguments, and the same types.
abbrev pub SameType : FuncType → FuncType → Type 0
SameType a b =
    (a.num_rets ≡ b.num_rets)
    × (a.num_args ≡ b.num_args)
    × (take (a.num_rets + a.num_args) a.types ≡ take (b.num_rets + b.num_args) b.types)

pub are_func_types_equal_iff : (a b : FuncType) → (are_func_types_equal a b ≡ true) ↔ SameType a b
are_func_types_equal_iff a b = (to, from)
  where
    size : ℕ
    size = a.num_rets + a.num_args

    to : are_func_types_equal a b ≡ true → SameType a b
    to h =
        unfold are_func_types_equal in
        ground (arith, bytes_equal→eq (take size a.types) (take size b.types))

    from : SameType a b → are_func_types_equal a b ≡ true
    from h = unfold are_func_types_equal in ground (arith, bytes_equal_refl (take size a.types))

SameType-sym : (a b : FuncType) → SameType a b → SameType b a
SameType-sym a b (r, n, t) = (sym r, sym n, sym t)

SameType-trans : (a b c : FuncType) → SameType a b → SameType b c → SameType a c
SameType-trans a b c (r, n, t) (r', n', t') = (r ∙ r', n ∙ n', t ∙ t')

-- No two references stand for the same signature.
abbrev pub IsInterned : List FuncType → Type 0
IsInterned ts =
    (p q : TypeRef) (a b : FuncType)
    → deref ts p ≡ some a
    → deref ts q ≡ some b
    → SameType a b
    → p ≡ q

pub deref-lt :
    (ts : List FuncType) (ref : TypeRef) {t : FuncType} → deref ts ref ≡ some t → ref < length ts
unfolding deref
deref-lt [] ref h = cc
deref-lt (u ∷ ts) ref {t} h = ground (arith, deref-lt ts ref {t = t})

-- One step of the search, while equality stays shut.
find_func_type-cons :
    (u : FuncType) (us : List FuncType) (t : FuncType)
    → find_func_type (u ∷ us) t
      ≡ (if are_func_types_equal u t then some (length us) else find_func_type us t)
find_func_type-cons u us t = unfold find_func_type in refl

deref-cons :
    (u : FuncType) (us : List FuncType) (ref : TypeRef)
    → deref (u ∷ us) ref ≡ (if ref == length us then some u else deref us ref)
unfolding deref
deref-cons u us ref = refl

-- What the search finds is there and equal; where it finds nothing, nothing equal is there.
find_func_type-some :
    (ts : List FuncType) (t : FuncType) {ref : TypeRef}
    → find_func_type ts t ≡ some ref
    → (u : FuncType) × (deref ts ref ≡ some u) × (are_func_types_equal u t ≡ true)
find_func_type-some [] t h = unfold find_func_type in cc
find_func_type-some (v ∷ ts) t {ref} h = elim (Bool-cases (are_func_types_equal v t)) [
  | inl e ↦ (v, ground (arith, deref-cons v ts ref, find_func_type-cons v ts t), e)
  | inr e ↦
      let found : find_func_type ts t ≡ some ref = ground (arith, find_func_type-cons v ts t) in
      let (u, at, same) = find_func_type-some ts t {ref = ref} found in
      (u, ground (arith, deref-cons v ts ref, deref-lt ts ref {t = u}), same)
]

find_func_type-none :
    (ts : List FuncType) (t : FuncType) (ref : TypeRef) {u : FuncType}
    → find_func_type ts t ≡ none
    → deref ts ref ≡ some u
    → are_func_types_equal u t ≡ false
find_func_type-none [] t ref h k = unfold deref in cc
find_func_type-none (v ∷ ts) t ref {u} h k =
    ground
      (arith, find_func_type-cons v ts t, deref-cons v ts ref, find_func_type-none ts t ref {u = u})

-- A signature that none of the list equals may stand in front of it.
cons-IsInterned :
    (ts : List FuncType) (t : FuncType)
    → find_func_type ts t ≡ none
    → IsInterned ts
    → IsInterned (t ∷ ts)
cons-IsInterned ts t new h p q a b at_p at_q same = elim (Bool-cases (p == length ts)) [
  | inl last_p ↦ elim (Bool-cases (q == length ts)) [
    | inl last_q ↦ ground arith
    | inr old_q ↦
        let is_t : t ≡ a = some-injective t a (ground (arith, deref-cons t ts p)) in
        let found : deref ts q ≡ some b = ground (arith, deref-cons t ts q) in
        absurd (differs q b found (SameType-sym t b (subst (λ c. SameType c b) (sym is_t) same)))
  ]
  | inr old_p ↦
      let found : deref ts p ≡ some a = ground (arith, deref-cons t ts p) in
      elim (Bool-cases (q == length ts)) [
        | inl last_q ↦
            let is_t : t ≡ b = some-injective t b (ground (arith, deref-cons t ts q)) in
            absurd (differs p a found (subst (SameType a) (sym is_t) same))
        | inr old_q ↦ h p q a b found (ground (arith, deref-cons t ts q)) same
      ]
]
  where
    differs : (r : TypeRef) (u : FuncType) → deref ts r ≡ some u → ¬ SameType u t
    differs r u at s =
        let equal = (are_func_types_equal_iff u t).1 s in
        let unequal = find_func_type-none ts t r {u = u} new at in ground arith

-- Adding a signature keeps the list of signatures free of equal ones.
pub environment_add_func_type-IsInterned :
    (env : Environment) (t : FuncType)
    → IsInterned env.func_types
    → IsInterned (environment_add_func_type env t).1.func_types
unfolding environment_add_func_type
environment_add_func_type-IsInterned env t h = go (find_func_type env.func_types t) refl
  where
    go :
        (found : Option TypeRef)
        → find_func_type env.func_types t ≡ found
        → IsInterned
            (elim found as (λ _. TypeRef × Environment) [
              | some ref ↦ (ref, env)
              | none ↦ (length env.func_types, record env { func_types = t ∷ env.func_types })
            ]).1.func_types
    go none e = cons-IsInterned env.func_types t e h
    go (some ref) e = h

-- A reference that was valid before an addition stands for the same signature after it.
pub environment_add_func_type-keeps :
    (env : Environment) (t : FuncType) (ref : TypeRef) {u : FuncType}
    → deref env.func_types ref ≡ some u
    → deref (environment_add_func_type env t).1.func_types ref ≡ some u
unfolding environment_add_func_type
environment_add_func_type-keeps env t ref {u} h =
    ground (arith, deref-cons t env.func_types ref, deref-lt env.func_types ref {t = u})

-- The list of signatures never gets shorter.
pub environment_add_func_type-grows :
    (env : Environment) (t : FuncType)
    → length env.func_types ≤ length (environment_add_func_type env t).1.func_types
unfolding environment_add_func_type
environment_add_func_type-grows env t = ground arith

-- The reference that an addition returns stands, in the environment after it, for a signature with
-- the same numbers of results and arguments and the same types as the one that was asked for.
pub environment_add_func_type-SameType :
    (env : Environment) (t : FuncType)
    → (u : FuncType) × (deref
          (environment_add_func_type env t).1.func_types
          (environment_add_func_type env t).0
        ≡ some u)
      × SameType u t
unfolding environment_add_func_type
environment_add_func_type-SameType env t = elim (Option-cases (find_func_type env.func_types t)) [
  | inl e ↦
      (t, ground (arith, deref-cons t env.func_types (length env.func_types)), (refl, refl, refl))
  | inr (ref, e) ↦
      let (u, at, same) = find_func_type-some env.func_types t e in
      (u, ground arith, (are_func_types_equal_iff u t).0 same)
]

interned_references :
    (ts : List FuncType) (p q : TypeRef) (s t u v : FuncType)
    → IsInterned ts
    → deref ts p ≡ some u
    → SameType u s
    → deref ts q ≡ some v
    → SameType v t
    → (p ≡ q) ↔ SameType s t
interned_references ts p q s t u v h at_p like_s at_q like_t = (
  λ e.
      let same : u ≡ v =
        some-injective u v (sym at_p ∙ subst (λ r. deref ts r ≡ some v) (sym e) at_q) in
      SameType-trans s u t (SameType-sym u s like_s) (subst (λ w. SameType w t) (sym same) like_t),
  λ e.
      h p q u v at_p at_q
        (SameType-trans u s v like_s (SameType-trans s t v e (SameType-sym v t like_t))),
)

-- In an environment without equal signatures `Environment_AddFuncType` gives two signatures, one
-- after the other, the same reference just if they have the same numbers of results and arguments
-- and the same types: comparing the pointers, as the indirect call does, compares the signatures.
pub environment_add_func_type-same_iff :
    (env : Environment) (s t : FuncType)
    → IsInterned env.func_types
    → let (p, env') = environment_add_func_type env s in
      let (q, env'') = environment_add_func_type env' t in (p ≡ q) ↔ SameType s t
environment_add_func_type-same_iff env s t h =
    let (p, env') = environment_add_func_type env s in
    let (q, env'') = environment_add_func_type env' t in
    let (u, at_p, like_s) = environment_add_func_type-SameType env s in
    let (v, at_q, like_t) = environment_add_func_type-SameType env' t in
    interned_references env''.func_types p q s t u v
      (environment_add_func_type-IsInterned env' t (environment_add_func_type-IsInterned env s h))
      (environment_add_func_type-keeps env' t p at_p) like_s at_q like_t
