-- ===== src/Load/Globals/Names.antt =====
-- The names by which cpp/m3_env.c finds globals and functions: C strings, the exported name, and the
-- name of an import or of a function that is not imported.
use react_native_webassembly.Common.{
  ℕ, zero, suc, ◌≡◌, ◌≢◌, ◌⊎◌, inl, inr, refl, sym, ap, ◌∙◌, subst, arith, Bool, true, false, ◌&&◌,
  ◌||◌, not, Option, none, some, List, [], ◌∷◌, ◌++◌, ◌==◌, if◌then◌else◌, get_elem?, All,
  Bool-cases,
}
use react_native_webassembly.Core.Read.{Bytes}
use react_native_webassembly.Core.Utf8.{c_string}
use react_native_webassembly.FuncTypes.{bytes_equal}
use react_native_webassembly.FuncTypes.Interning.{bytes_equal→eq, bytes_equal_refl}
use react_native_webassembly.Module.{Function, Global}
use react_native_webassembly.Load.Globals.{is_named, is_some, any_named, imported_as, internal_as}

-- The text of a C string: its bytes up to the first zero, or all where there is none.
abbrev pub HasText : Bytes → Bytes → Type 0
HasText s text = All (λ b. b ≢ 0) text × ((s ≡ text) ⊎ ((rest : Bytes) × (s ≡ text ++ (0 ∷ rest))))

c_string-HasText : (s : Bytes) → HasText s (c_string s)
c_string-HasText [] = (tt, inl refl)
c_string-HasText (b ∷ bs) = go (b == 0) refl (c_string-HasText bs)
  where
    go :
        (z : Bool)
        → (b == 0) ≡ z
        → HasText bs (c_string bs)
        → HasText (b ∷ bs) (if z then [] else b ∷ c_string bs)
    go true e h = let zero : b ≡ 0 = ground arith in (tt, inr (bs, ap (λ c. c ∷ bs) zero))
    go false e (apart, inl whole) = ((ground arith, apart), inl (ap (λ s. b ∷ s) whole))
    go false e (apart, inr (rest, cut)) = ((ground arith, apart), inr (rest, ap (λ s. b ∷ s) cut))

text_whole : (text : Bytes) → All (λ b. b ≢ 0) text → c_string text ≡ text
text_whole [] h = refl
text_whole (b ∷ text) (apart, h) =
    let nonzero : (b == 0) ≡ false = ground arith in rw (nonzero, text_whole text h) refl

text_cut : (text rest : Bytes) → All (λ b. b ≢ 0) text → c_string (text ++ (0 ∷ rest)) ≡ text
text_cut [] rest h = refl
text_cut (b ∷ text) rest (apart, h) =
    let nonzero : (b == 0) ≡ false = ground arith in rw (nonzero, text_cut text rest h) refl

HasText-c_string : (s text : Bytes) → HasText s text → c_string s ≡ text
HasText-c_string s text (apart, inl whole) = ap c_string whole ∙ text_whole text apart
HasText-c_string s text (apart, inr (rest, cut)) = ap c_string cut ∙ text_cut text rest apart

-- A name is there, and has the same text as the one that is looked for.
abbrev pub Named : Bytes → Option Bytes → Type 0
Named name found =
    (s : Bytes) × (found ≡ some s) × ((text : Bytes) × HasText s text × HasText name text)

-- A test decides a property.
pub record Decides {ℓ} {A : Type ℓ} (test : A → Bool) (P : A → Type 0) : Type ℓ where
  pub sound : (x : A) → test x ≡ true → P x
  pub complete : (x : A) → P x → test x ≡ true

pub is_named-Decides : (name : Bytes) → Decides (is_named name) (Named name)
unfolding is_named
is_named-Decides name = record { sound = to; complete = from }
  where
    to : (found : Option Bytes) → is_named name found ≡ true → Named name found
    to none h = cc
    to (some s) h =
        let same = bytes_equal→eq (c_string s) (c_string name) h in
        (
          s,
          refl,
          (c_string s, c_string-HasText s, subst (HasText name) (sym same) (c_string-HasText name)),
        )

    from : (found : Option Bytes) → Named name found → is_named name found ≡ true
    from found (s, there, (text, of_s, of_name)) =
        let same : c_string name ≡ c_string s =
          HasText-c_string name text of_name ∙ sym (HasText-c_string s text of_s) in
        ap (is_named name) there
        ∙ ap (bytes_equal (c_string s)) same
        ∙ bytes_equal_refl (c_string s)

-- The global is imported, under the name.
abbrev pub IsImportedAs : Bytes → Global → Type 0
IsImportedAs name g =
    ((from : Bytes) × (g.import.module_utf8 ≡ some from)) × Named name g.import.field_utf8

-- One of the names is the name.
abbrev pub AnyNamed : Bytes → List (Option Bytes) → Type 0
AnyNamed name names =
    (i : ℕ) × ((found : Option Bytes) × (get_elem? names i ≡ some found) × Named name found)

-- The function is not imported, and has the name.
abbrev pub IsInternalAs : Bytes → Function → Type 0
IsInternalAs name f =
    (f.import.module_utf8 ≡ none) × (f.import.field_utf8 ≡ none) × AnyNamed name f.names

is_some-true : (o : Option Bytes) → is_some o ≡ true → (s : Bytes) × (o ≡ some s)
is_some-true none h = cc
is_some-true (some s) h = (s, refl)

is_some-false : (o : Option Bytes) → is_some o ≡ false → o ≡ none
is_some-false none h = refl
is_some-false (some s) h = cc

and-true : (a b : Bool) → (a && b) ≡ true → (a ≡ true) × (b ≡ true)
and-true true b h = (refl, h)
and-true false b h = cc

or-false : (a b : Bool) → not (a || b) ≡ true → (a ≡ false) × (b ≡ false)
or-false true b h = cc
or-false false true h = cc
or-false false false h = (refl, refl)

pub imported_as-Decides : (name : Bytes) → Decides (imported_as name) (IsImportedAs name)
imported_as-Decides name = record {
  sound = λ g h.
      let (imported, named) =
        and-true (is_some g.import.module_utf8) (is_named name g.import.field_utf8) h in
      (
        is_some-true g.import.module_utf8 imported,
        (is_named-Decides name).sound g.import.field_utf8 named,
      );
  complete = λ g (imported, named).
      let there : is_some g.import.module_utf8 ≡ true = ap is_some imported.1 in
      rw there ((is_named-Decides name).complete g.import.field_utf8 named);
}

any_named_sound :
    (name : Bytes) (names : List (Option Bytes)) → any_named name names ≡ true → AnyNamed name names
any_named_sound name [] h = cc
any_named_sound name (n ∷ names) h = elim (Bool-cases (is_named name n)) [
  | inl here ↦ (0, (n, refl, (is_named-Decides name).sound n here))
  | inr not_here ↦
      let later : any_named name names ≡ true = ground arith in
      let (i, found) = any_named_sound name names later in (suc i, found)
]

any_named_complete :
    (name : Bytes) (names : List (Option Bytes)) (i : ℕ) (found : Option Bytes)
    → get_elem? names i ≡ some found
    → Named name found
    → any_named name names ≡ true
any_named_complete name [] i found at named = cc
any_named_complete name (n ∷ names) zero found at named =
    let here : is_named name found ≡ true = (is_named-Decides name).complete found named in
    ground arith
any_named_complete name (n ∷ names) (suc i) found at named =
    let later = any_named_complete name names i found at named in ground arith

pub internal_as-Decides : (name : Bytes) → Decides (internal_as name) (IsInternalAs name)
internal_as-Decides name = record {
  sound = λ f h.
      let (apart, named) =
        and-true (not (is_some f.import.module_utf8 || is_some f.import.field_utf8))
          (any_named name f.names) h in
      let (module_none, field_none) =
        or-false (is_some f.import.module_utf8) (is_some f.import.field_utf8) apart in
      (
        is_some-false f.import.module_utf8 module_none,
        is_some-false f.import.field_utf8 field_none,
        any_named_sound name f.names named,
      );
  complete = λ f (no_module, no_field, (i, (found, at, named))).
      let module_none : is_some f.import.module_utf8 ≡ false = ap is_some no_module in
      let field_none : is_some f.import.field_utf8 ≡ false = ap is_some no_field in
      rw (module_none, field_none) (any_named_complete name f.names i found at named);
}
