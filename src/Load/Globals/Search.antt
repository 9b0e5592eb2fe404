-- ===== src/Load/Globals/Search.antt =====
-- Which global or function cpp/m3_env.c finds for a name, and what a global holds once it is set.
use react_native_webassembly.Common.{
  ℕ, suc, ◌≡◌, ◌⊎◌, inl, inr, refl, arith, Bool, true, false, Option, none, some, List, [], ◌∷◌,
  if◌then◌else◌, get_elem?, take, All, u32,
}
use react_native_webassembly.Results.{ok}
use react_native_webassembly.Core.Read.{Bytes}
use react_native_webassembly.Module.{Module, Function, Global}
use react_native_webassembly.Load.Globals.Names.{
  Decides, Named, IsImportedAs, IsInternalAs, is_named-Decides, imported_as-Decides,
  internal_as-Decides,
}
use react_native_webassembly.Load.Globals.{
  is_named, find_first, first_or, imported_as, find_global, internal_as, find_function, TaggedValue,
  is_32bit, get_global, set_global,
}

-- The first element with a property, or there is none.
abbrev pub IsFirst : {A : Type 0} → (A → Type 0) → List A → Option ℕ → Type 0
IsFirst P xs none = All (λ x. ¬ P x) xs
IsFirst {A = A} P xs (some i) =
    (x : A) × (get_elem? xs i ≡ some x) × P x × All (λ y. ¬ P y) (take i xs)

find_first-IsFirst :
    {A : Type 0} (test : A → Bool) (P : A → Type 0)
    → Decides test P
    → (xs : List A) → IsFirst P xs (find_first test xs)
find_first-IsFirst test P d [] = tt
find_first-IsFirst test P d (x ∷ xs) =
    go (test x) refl (find_first test xs) (find_first-IsFirst test P d xs)
  where
    fails : test x ≡ false → ¬ P x
    fails e p = let passes = d.complete x p in ground arith

    go :
        (b : Bool)
        → test x ≡ b
        → (later : Option ℕ) → IsFirst P xs later
        → IsFirst P
            (x ∷ xs)
            (elim b [ true ↦ some 0 | false ↦ elim later [ none ↦ none | some i ↦ some (suc i) ] ])
    go true e later h = (x, refl, d.sound x e, tt)
    go false e none h = (fails e, h)
    go false e (some i) h = (h.0, h.1, h.2, (fails e, h.3))

-- The first with one property, or else, as none has it, the first with another.
abbrev pub IsPreferred : {A : Type 0} → (A → Type 0) → (A → Type 0) → List A → Option ℕ → Type 0
IsPreferred better other xs found =
    ((i : ℕ) × (found ≡ some i) × IsFirst better xs (some i))
    ⊎ (IsFirst better xs none × IsFirst other xs found)

first_or-IsPreferred :
    {A : Type 0} (test later_test : A → Bool) (better other : A → Type 0)
    → Decides test better
    → Decides later_test other
    → (xs : List A)
    → IsPreferred better other xs (first_or (find_first test xs) (find_first later_test xs))
first_or-IsPreferred test later_test better other d e xs =
    go (find_first test xs) (find_first-IsFirst test better d xs)
  where
    go :
        (found : Option ℕ)
        → IsFirst better xs found
        → IsPreferred better other xs (first_or found (find_first later_test xs))
    go none h = inr (h, find_first-IsFirst later_test other e xs)
    go (some i) h = inl (i, refl, h)

-- `v_FindFunction` returns the first function in use that is exported under the name; where there is
-- none it returns the first that is not imported and has the name among its names, or NULL if there
-- is none. Names are compared as C strings, up to the first zero.
pub find_function-IsPreferred :
    (m : Module) (name : Bytes)
    → IsPreferred
        (λ (f : Function). Named name f.export_name)
        (IsInternalAs name)
        (take m.num_functions m.functions)
        (find_function m name)
unfolding find_function
find_function-IsPreferred m name =
    let named = is_named-Decides name in
    first_or-IsPreferred (λ (f : Function). is_named name f.export_name) (internal_as name)
      (λ (f : Function). Named name f.export_name) (IsInternalAs name)
      (record {
        sound = λ f. named.sound f.export_name;
        complete = λ f. named.complete f.export_name;
      })
      (internal_as-Decides name) (take m.num_functions m.functions)

-- `m3_FindGlobal` returns the first global that is exported under the name; where there is none it
-- returns the first that is imported, from any module, under the name, or NULL if there is none.
-- Names are compared as C strings, up to the first zero.
pub find_global-IsPreferred :
    (m : Module) (name : Bytes)
    → IsPreferred
        (λ (g : Global). Named name g.name)
        (IsImportedAs name)
        m.globals
        (find_global m name)
unfolding find_global
find_global-IsPreferred m name =
    let named = is_named-Decides name in
    first_or-IsPreferred (λ (g : Global). is_named name g.name) (imported_as name)
      (λ (g : Global). Named name g.name) (IsImportedAs name)
      (record { sound = λ g. named.sound g.name; complete = λ g. named.complete g.name })
      (imported_as-Decides name) m.globals

-- The bits of a value as wide as its type.
abbrev pub fitted : TaggedValue → TaggedValue
fitted v = record v { bits = if is_32bit v.type then u32 v.bits else v.bits }

-- `m3_GetGlobal` reads back what `m3_SetGlobal` wrote, in the width of its type.
pub set_global-get_global :
    (g g' : Global) (value : TaggedValue)
    → set_global (some g) value ≡ ok g'
    → get_global (some g') ≡ ok (fitted value)
unfolding set_global get_global
set_global-get_global g g' value e = ground arith
