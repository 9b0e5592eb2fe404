-- ===== src/Load/Table.antt =====
-- The table of a module, which `InitElements` of cpp/m3_env.c fills.
use react_native_webassembly.Common.{
  sym, subst, ◌∙◌, ℕ, zero, suc, ◌+◌, ◌-◌, ◌≤◌, ◌<◌, ◌≡◌, refl, arith, Bool, true, false, Option,
  none, some, List, [], ◌∷◌, ◌++◌, ltb, leb, ◌==◌, length, length-append, length-replicate,
  length-set, get_elem?, get_elem?-set_ne, get_elem?-set_self, ◌⊎◌, inl, inr, set, replicate, All,
}
use react_native_webassembly.Results.{Result, and_then-by, Holds, holds_err, Holds-of}
use react_native_webassembly.Core.Read.{Bytes}
use react_native_webassembly.Core.Leb.{read_leb_u32, try_leb}
use react_native_webassembly.Core.ValueType.{type_i32}
use react_native_webassembly.Module.{Module}
use react_native_webassembly.Load.{
  max_sane_table_size, is_negative, grow_table, store_elements, init_element_segment,
  init_elements_from, init_elements,
}

-- An element is NULL or one of the `n` functions.
abbrev pub Refers : ℕ → Option ℕ → Type 0
Refers n none = Unit {0}
Refers n (some f) = f < n

-- A table over the functions of the module, no longer than is sane and no shorter than `size`.
abbrev pub IsTable : ℕ → ℕ → Module → Type 0
IsTable n size m =
    (m.num_functions ≡ n)
    × All (Refers n) m.table
    × (length m.table ≤ max_sane_table_size)
    × (size ≤ length m.table)

All-set :
    (n i f : ℕ) (table : List (Option ℕ))
    → f < n
    → All (Refers n) table
    → All (Refers n) (set table i (some f))
All-set n i f [] k h = tt
All-set n zero f (e ∷ table) k h = (k, h.1)
All-set n (suc i) f (e ∷ table) k h = (h.0, All-set n i f table k h.1)

All-grow :
    (n k : ℕ) (table : List (Option ℕ))
    → All (Refers n) table
    → All (Refers n) (table ++ replicate k none)
All-grow n zero [] h = tt
All-grow n (suc k) [] h = (tt, All-grow n k [] tt)
All-grow n k (e ∷ table) h = (h.0, All-grow n k table h.1)

grow_table-IsTable :
    (n size end : ℕ) (m : Module)
    → IsTable n size m
    → end ≤ max_sane_table_size
    → IsTable n size (grow_table m end)
grow_table-IsTable n size end m h sane = (
  h.0,
  All-grow n (end - length m.table) m.table h.1,
  omega (arith, added, count, h.2),
  omega (arith, added, count, h.3),
)
  where
    nulls : List (Option ℕ)
    nulls = replicate (end - length m.table) none

    added : length (grow_table m end).table ≡ length m.table + length nulls
    added = length-append m.table nulls

    count : length nulls ≡ end - length m.table
    count = length-replicate (end - length m.table) none

either :
    {A : Type 0} (P : A → Type 0) (b : Bool) {x y : A}
    → (b ≡ true → P x)
    → (b ≡ false → P y)
    → P (elim b [ true ↦ x | false ↦ y ])
either P true h k = h refl
either P false h k = k refl

-- A segment writes no place in front of its offset.
store_elements-below :
    (count at : ℕ) (m : Module) (bytes : Bytes) (i : ℕ)
    → i < at
    → get_elem? (store_elements count at m bytes).0.table i ≡ get_elem? m.table i
unfolding store_elements
store_elements-below zero at m bytes i h = refl
store_elements-below (suc count) at m bytes i h =
    let Same : Module × Result Bytes → Type 0 =
      λ out. get_elem? out.0.table i ≡ get_elem? m.table i in
    and_then-by Same m (try_leb (read_leb_u32 bytes)) (λ e. refl)
      (λ r e.
        either Same (leb m.num_functions r.0) (λ out. refl)
          (λ fits.
            store_elements-below count (suc at) (record m { table = set m.table at (some r.0) }) r.1
              i (omega arith)
            ∙ get_elem?-set_ne m.table at i (some r.0) (λ same. omega (arith, same))))

abbrev pub IsFilled : ℕ → Option (Option ℕ) → Type 0
IsFilled n (some (some f)) = f < n
IsFilled n _ = ⊥

-- When the functions of an element segment are stored in a table that has room for them, each place
-- of the segment's range holds a function of the module.
pub store_elements-IsFilled :
    (count at : ℕ) (m : Module) (bytes : Bytes) (i : ℕ)
    → at + count ≤ length m.table
    → at ≤ i
    → i < at + count
    → let (m', result) = store_elements count at m bytes in
      Holds (λ rest. IsFilled m.num_functions (get_elem? m'.table i)) result
unfolding store_elements
store_elements-IsFilled zero at m bytes i room low high = absurd (omega arith)
store_elements-IsFilled (suc count) at m bytes i room low high =
    let Filled : Module × Result Bytes → Type 0 =
      λ out. Holds (λ rest. IsFilled m.num_functions (get_elem? out.0.table i)) out.1 in
    and_then-by Filled m (try_leb (read_leb_u32 bytes)) (λ e. holds_err)
      (λ r e.
        either Filled (leb m.num_functions r.0) (λ out. holds_err)
          (λ fits.
            let m' : Module = record m { table = set m.table at (some r.0) } in
            elim (le_or_lt at i low) [
              | inl same ↦
                  let out = store_elements count (suc at) m' r.1 in
                  Holds-of (λ rest. IsFilled m.num_functions (get_elem? out.0.table i)) out.1
                    (λ rest k.
                      subst (λ j. IsFilled m.num_functions (get_elem? out.0.table j)) same
                        (subst (IsFilled m.num_functions)
                          (sym (
                            store_elements-below count (suc at) m' r.1 at (omega arith)
                            ∙ get_elem?-set_self m.table at (some r.0) (omega arith)))
                          (ground arith)))
              | inr later ↦
                  store_elements-IsFilled count (suc at) m' r.1 i
                    (omega (arith, length-set m.table at (some r.0))) later (omega arith)
            ]))
  where
    le_or_lt : (at i : ℕ) → at ≤ i → (at ≡ i) ⊎ (suc at ≤ i)
    le_or_lt at i low = ground arith

module _ (n size : ℕ) where
  abbrev Kept : {A : Type 0} → Module × Result A → Type 0
  Kept out = IsTable n size out.0

  store_elements-IsTable :
      (count at : ℕ) (m : Module) (bytes : Bytes)
      → IsTable n size m
      → Kept (store_elements count at m bytes)
  unfolding store_elements
  store_elements-IsTable zero at m bytes h = h
  store_elements-IsTable (suc count) at m bytes h =
      and_then-by Kept m (try_leb (read_leb_u32 bytes)) (λ e. h)
        (λ r e.
          either Kept (leb m.num_functions r.0) (λ out. h)
            (λ fits.
              store_elements-IsTable count (suc at) (record m { table = set m.table at (some r.0) })
                r.1
                (
                  h.0,
                  All-set n at r.0 m.table (ground (arith, h.0)) h.1,
                  omega (arith, length-set m.table at (some r.0), h.2),
                  omega (arith, length-set m.table at (some r.0), h.3),
                )))

  module _ (evaluate : Module → ℕ → Bytes → Result (ℕ × Bytes)) where
    init_element_segment-IsTable :
        (m : Module) (bytes : Bytes)
        → IsTable n size m
        → Kept (init_element_segment evaluate m bytes)
    unfolding init_element_segment
    init_element_segment-IsTable m bytes h =
        and_then-by Kept m (try_leb (read_leb_u32 bytes)) (λ e. h)
          (λ r e.
            either Kept (r.0 == 0)
              (λ e.
                and_then-by Kept m (evaluate m type_i32 r.1) (λ e. h)
                  (λ o e.
                    either Kept (is_negative o.0) (λ e. h)
                      (λ e.
                        and_then-by Kept m (try_leb (read_leb_u32 o.1)) (λ e. h)
                          (λ c e.
                            either Kept (ltb max_sane_table_size (c.0 + o.0)) (λ e. h)
                              (λ e.
                                let grown =
                                  grow_table-IsTable n size (c.0 + o.0) m h (ground arith) in
                                either Kept (length (grow_table m (c.0 + o.0)).table == 0)
                                  (λ e. grown)
                                  (λ e.
                                    store_elements-IsTable c.0 o.0 (grow_table m (c.0 + o.0)) c.1
                                      grown))))))
              (λ e. h))

    pub init_elements_from-IsTable :
        (count : ℕ) (m : Module) (bytes : Bytes)
        → IsTable n size m
        → Kept (init_elements_from evaluate count m bytes)
    unfolding init_elements_from
    init_elements_from-IsTable zero m bytes h = h
    init_elements_from-IsTable (suc count) m bytes h =
        let out = init_element_segment evaluate m bytes in
        let here = init_element_segment-IsTable m bytes h in
        and_then-by Kept out.0 out.1 (λ e. here)
          (λ rest e. init_elements_from-IsTable count out.0 rest here)

-- Whatever the element section holds and wherever it fails, `InitElements` leaves a table whose
-- elements are NULL or functions of the module, that is no longer than 10000000 elements, and that
-- is no shorter than before.
pub init_elements-IsTable :
    (evaluate : Module → ℕ → Bytes → Result (ℕ × Bytes)) (m : Module)
    → IsTable m.num_functions (length m.table) m
    → IsTable m.num_functions (length m.table) (init_elements evaluate m).0
unfolding init_elements
init_elements-IsTable evaluate m h =
    init_elements_from-IsTable m.num_functions (length m.table) evaluate m.num_element_segments m
      m.element_section h
