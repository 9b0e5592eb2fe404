-- ===== src/Parse/Order.antt =====
-- The order of the sections that cpp/m3_parse.c accepts, and the end of its loops.
use react_native_webassembly.Common.{
  subst, ==_iff, ap, ◌∙◌, ℕ, zero, suc, ◌+◌, ◌-◌, ◌≤◌, ◌<◌, ◌≡◌, ◌≢◌, refl, arith, Bool, true,
  false, none, some, List, [], ◌∷◌, ltb, leb, ◌==◌, if◌then◌else◌, length, length-drop, get_elem?,
  get_elem?-drop, take, drop, All,
}
use react_native_webassembly.Results.{
  Status, Result, ok, err, throwif, >>=-cong, and_then-cong, Holds, holds_ok, holds_err, Holds-then,
  Holds-bind, Holds-value, checked, misordered_wasm_section, wasm_malformed,
}
use react_native_webassembly.Core.Read.{Bytes}
use react_native_webassembly.Core.Leb.{LebRead, read_leb_u32, read_leb_u7, try_leb}
use react_native_webassembly.Core.Leb.Bounds.{read_leb-Outcome}
use react_native_webassembly.Runtime.{Environment}
use react_native_webassembly.Module.{Module}
use react_native_webassembly.Parse.Names.{parse_name_payload, parse_names}
use react_native_webassembly.Parse.Sections.{
  sections_order, find_section, expect_section, parse_module_section, parse_section_header,
  parse_sections,
}

-- What the search for a section comes to: the array's place behind the one where the section
-- stands, or an error and the section is at none of the places that are left.
abbrev pub Placed : List ℕ → ℕ → ℕ → Result ℕ → Type 0
Placed order expected section (ok next) =
    (expected < next) × (next ≤ 12) × (get_elem? order (next - 1 - expected) ≡ some section)
Placed order expected section (err e) =
    (e ≡ misordered_wasm_section) × All (λ o. o ≢ section) (take (12 - expected) order)

-- A round of the search: the three ways that it goes.
find_section-round :
    (o : ℕ) (order : List ℕ) (expected section : ℕ) (b c : Bool) (more : Result ℕ)
    → (o == section) ≡ b
    → leb 12 (expected + 1) ≡ c
    → expected ≤ 12
    → (expected ≡ 12 → o ≢ section)
    → (expected < 12 → Placed order (expected + 1) section more)
    → Placed
        (o ∷ order)
        expected
        section
        (if b then ok (expected + 1) else if c then err misordered_wasm_section else more)
find_section-round o order expected section true c more eb ec k last later = (
  omega arith,
  ground (arith, last),
  subst (λ i. get_elem? (o ∷ order) i ≡ some section)
      (let zero_index : 0 ≡ expected + 1 - 1 - expected = omega arith in zero_index)
      (let same : o ≡ section = (==_iff o section).0 eb in ap some same),
)
find_section-round o order expected section false true more eb ec k last later =
    (refl, only (12 - expected) (ground arith))
  where
    only : (n : ℕ) → n ≤ 1 → All (λ o. o ≢ section) (take n (o ∷ order))
    only zero h = tt
    only (suc zero) h = (ground arith, tt)
    only (suc (suc n)) h = absurd (omega arith)
find_section-round o order expected section false false (ok next) eb ec k last later =
    let (more, top, at) = later (ground arith) in
    (
      omega (arith, more),
      top,
      subst (λ i. get_elem? (o ∷ order) i ≡ some section)
          (let next_index : suc (next - 1 - (expected + 1)) ≡ next - 1 - expected =
              omega (arith, more) in
            next_index)
          at,
    )
find_section-round o order expected section false false (err e) eb ec k last later =
    let below : expected < 12 = ground arith in
    let (same, left) = later below in
    (
      same,
      subst (λ n. All (λ o. o ≢ section) (take n (o ∷ order)))
          (let count : suc (12 - (expected + 1)) ≡ 12 - expected = omega (arith, below) in count)
          (ground arith, left),
    )

find_section-Placed :
    (order : List ℕ) (expected section : ℕ)
    → length order + expected ≡ 13
    → get_elem? order (12 - expected) ≡ some 0
    → section ≢ 0
    → expected ≤ 12
    → Placed order expected section (find_section order expected section)
unfolding find_section
find_section-Placed [] expected section h z k low = absurd (omega arith)
find_section-Placed (o ∷ order) expected section h z k low =
    find_section-round o order expected section (o == section) (leb 12 (expected + 1))
      (find_section order (expected + 1) section) refl refl (omega arith)
      (λ e same.
        let at : get_elem? (o ∷ order) 0 ≡ some 0 =
          subst (λ i. get_elem? (o ∷ order) i ≡ some 0)
            (let first : 12 - expected ≡ 0 = omega arith in first) z in
        k (ground (arith, at)))
      (λ below.
        find_section-Placed order (expected + 1) section (omega arith)
          (subst (λ i. get_elem? (o ∷ order) i ≡ some 0)
            (let next : 12 - expected ≡ suc (12 - (expected + 1)) = omega (arith, below) in next) z)
          k (omega (arith, below)))

-- From each place of the array on, the search for a section of a type other than 0 never reads past
-- the array. If it succeeds, the section stands at a place that was not passed before, and the next
-- search starts behind it, so no section comes twice or out of order; if it fails, the error is
-- `misordered_wasm_section` and the section is at none of the places that were left.
pub expect_section-Placed :
    (expected section : ℕ)
    → expected ≤ 12
    → section ≢ 0
    → Placed (drop expected sections_order) expected section (expect_section expected section)
unfolding expect_section
expect_section-Placed expected section h k =
    let custom : false ≡ (section == 0) = ground (arith, k) in
    let rest = drop expected sections_order in
    subst
      (λ b.
        Placed rest expected section
          (if b then ok expected else find_section rest expected section))
      custom
      (find_section-Placed rest expected section
        (omega (arith, length-drop expected sections_order))
        (get_elem?-drop expected sections_order (12 - expected) ∙ placeholder) k h)
  where
    placeholder : get_elem? sections_order (expected + (12 - expected)) ≡ some 0
    placeholder =
        let last : 12 ≡ expected + (12 - expected) = omega arith in
        subst (λ i. get_elem? sections_order i ≡ some 0) last refl

-- The bytes that a reader takes.
leb_read-shrinks :
    (n : ℕ) (r : LebRead)
    → length r.rest ≤ n
    → Holds (λ (s : ℕ × Bytes). length s.1 ≤ n) (try_leb r)
leb_read-shrinks n r h = go r.result
  where
    go : (s : Status) → Holds (λ (s : ℕ × Bytes). length s.1 ≤ n) (checked s (r.value, r.rest))
    go none = holds_ok h
    go (some e) = holds_err

read_leb_u7-shrinks :
    (b : ℕ) (bytes : Bytes)
    → Holds (λ r. length r.1 ≤ length bytes) (try_leb (read_leb_u7 (b ∷ bytes)))
unfolding read_leb_u7
read_leb_u7-shrinks b bytes =
    leb_read-shrinks (length bytes) (read_leb_u7 (b ∷ bytes))
      (ground (arith, (read_leb-Outcome 7 (b ∷ bytes) (omega arith)).0.1))

read_leb_u32-shrinks :
    (bytes : Bytes) → Holds (λ r. length r.1 ≤ length bytes) (try_leb (read_leb_u32 bytes))
unfolding read_leb_u32
read_leb_u32-shrinks bytes =
    leb_read-shrinks (length bytes) (read_leb_u32 bytes)
      (omega (arith, (read_leb-Outcome 32 bytes (omega arith)).0.1))

-- Fuel for a byte each is enough for the loop of `ParseSection_Name`: more of it makes no difference.
pub parse_names-any_fuel :
    (fuel fuel' : ℕ) (m : Module) (bytes : Bytes)
    → length bytes ≤ fuel
    → length bytes ≤ fuel'
    → parse_names fuel m bytes ≡ parse_names fuel' m bytes
unfolding parse_names
parse_names-any_fuel fuel fuel' m [] h h' = refl
parse_names-any_fuel zero fuel' m (b ∷ bytes) h h' = absurd (omega arith)
parse_names-any_fuel (suc fuel) zero m (b ∷ bytes) h h' = absurd (omega arith)
parse_names-any_fuel (suc fuel) (suc fuel') m (b ∷ bytes) h h' =
    >>=-cong (try_leb (read_leb_u7 (b ∷ bytes))) (λ t e.
      >>=-cong (try_leb (read_leb_u32 t.1)) (λ r e'.
        >>=-cong (parse_name_payload t.0 m r.1) (λ m' k.
          let short : length (drop r.0 r.1) ≤ length bytes = omega (
            arith,
            length-drop r.0 r.1,
            Holds-value (λ r. length r.1 ≤ length bytes) (try_leb (read_leb_u7 (b ∷ bytes)))
                (read_leb_u7-shrinks b bytes) e,
            Holds-value (λ r. length r.1 ≤ length t.1) (try_leb (read_leb_u32 t.1))
                (read_leb_u32-shrinks t.1) e',
          ) in
          parse_names-any_fuel fuel fuel' m' (drop r.0 r.1) (omega (arith, short, h))
            (omega (arith, short, h')))))

-- A header leaves less than it was given.
parse_section_header-shrinks :
    (expected b : ℕ) (bytes : Bytes)
    → Holds (λ h. length h.3 ≤ length bytes) (parse_section_header expected (b ∷ bytes))
unfolding parse_section_header
parse_section_header-shrinks expected b bytes =
    Holds-bind (try_leb (read_leb_u7 (b ∷ bytes))) (read_leb_u7-shrinks b bytes) (λ t short.
      Holds-then (expect_section expected t.0) (λ next.
        Holds-bind (try_leb (read_leb_u32 t.1)) (read_leb_u32-shrinks t.1) (λ r shorter.
          Holds-then (throwif wasm_malformed (ltb (length r.1) r.0))
            (λ u. holds_ok (omega (arith, length-drop r.0 r.1, short, shorter))))))

module _ (walk : Bytes → Result Bytes) where
  -- Fuel for a byte each is enough for the loop of `m3_ParseModule`: more of it makes no difference.
  pub parse_sections-any_fuel :
      (fuel fuel' : ℕ) (env : Environment) (m : Module) (expected : ℕ) (bytes : Bytes)
      → length bytes ≤ fuel
      → length bytes ≤ fuel'
      → parse_sections walk fuel env m expected bytes
        ≡ parse_sections walk fuel' env m expected bytes
  unfolding parse_sections
  parse_sections-any_fuel fuel fuel' env m expected [] h h' = refl
  parse_sections-any_fuel zero fuel' env m expected (b ∷ bytes) h h' = absurd (omega arith)
  parse_sections-any_fuel (suc fuel) zero env m expected (b ∷ bytes) h h' = absurd (omega arith)
  parse_sections-any_fuel (suc fuel) (suc fuel') env m expected (b ∷ bytes) h h' =
      and_then-cong env (parse_section_header expected (b ∷ bytes)) (λ head e.
        let out = parse_module_section walk env m head.0 head.2 in
        let short =
          Holds-value (λ h. length h.3 ≤ length bytes) (parse_section_header expected (b ∷ bytes))
            (parse_section_header-shrinks expected b bytes) e in
        and_then-cong out.0 out.1 (λ m' k.
          parse_sections-any_fuel fuel fuel' out.0 m' head.1 head.3 (omega (arith, short, h))
            (omega (arith, short, h'))))
