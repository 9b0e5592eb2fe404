-- ===== src/Load/Safety.antt =====
-- cpp/m3_env.c, `m3_LoadModule` as a whole: linear memory and the table, wherever it stops.
use react_native_webassembly.Common.{
  All, ap, sym, ◌==◌, if◌then◌else◌, subst, ℕ, zero, suc, ◌≡◌, refl, ◌∙◌, arith, Bool, true, false,
  Option, none, some, List, length, get_elem?, take,
}
use react_native_webassembly.Results.{Result, and_then-by}
use react_native_webassembly.Core.Read.{Bytes}
use react_native_webassembly.Runtime.{Block, Memory, Runtime}
use react_native_webassembly.Memory.{SystemReply, init_memory}
use react_native_webassembly.Memory.InPlace.{IsPlaced, InPlace, resize_memory-IsPlaced}
use react_native_webassembly.Module.{Module}
use react_native_webassembly.Load.{
  set_global_value, init_globals_from, init_globals, store_segments, init_data_segments,
  load_module,
}
use react_native_webassembly.Load.Segments.{Within, store_segments-Within}
use react_native_webassembly.Load.Table.{IsTable, Refers, init_elements_from-IsTable}

init_memory-IsPlaced :
    (reply : SystemReply) (rt : Runtime) (imported : Bool) (init most : ℕ)
    → IsPlaced rt.memory
    → IsPlaced (init_memory reply rt imported init most).1.memory
unfolding init_memory
init_memory-IsPlaced reply rt true init most h = h
init_memory-IsPlaced reply rt false init most h =
    let pages = if most == 0 then 65536 else most in
    resize_memory-IsPlaced reply (record rt { memory = record rt.memory { max_pages = pages } })
      init (record { in_place = h.in_place; within = h.within })

InPlace-Within :
    (base : Option ℕ) (before after : Block) (committed : ℕ)
    → Within before after
    → InPlace base (some before) committed
    → InPlace base (some after) committed
InPlace-Within none before after committed w h = tt
InPlace-Within (some base) before after committed w h =
    (w.address ∙ h.0, omega (arith, w.sized, h.1))

at_option {ℓ} :
    {A : Type ℓ} {B : Type 0} (P : B → Type 0) (o : Option A) {x : B} {f : A → B}
    → (o ≡ none → P x)
    → ((a : A) → o ≡ some a → P (f a))
    → P (elim o [ none ↦ x | some a ↦ f a ])
at_option P none h k = h refl
at_option P (some a) h k = k a refl

module _ (evaluate : Module → ℕ → Bytes → Result (ℕ × Bytes)) where
  init_data_segments-IsPlaced :
      (mem : Memory) (m : Module) → IsPlaced mem → IsPlaced (init_data_segments evaluate mem m).0
  unfolding init_data_segments
  init_data_segments-IsPlaced mem m h =
      at_option (λ (out : Memory × Result (Unit {0})). IsPlaced out.0) mem.mallocated (λ e. h)
        (λ block e. record {
          in_place =
              InPlace-Within mem.reservation block
                (store_segments evaluate m m.data_segments block).0 mem.committed_bytes
                (store_segments-Within evaluate m m.data_segments block)
                (subst (λ b. InPlace mem.reservation b mem.committed_bytes) e h.in_place);
          within = h.within;
        })

  -- The loop over the globals changes nothing but their values.
  abbrev SameTable : Module → Module → Type 0
  SameTable m m' = (m'.table ≡ m.table) × (m'.num_functions ≡ m.num_functions)

  init_globals_from-SameTable :
      (n i : ℕ) (m : Module) → SameTable m (init_globals_from evaluate n i m).0
  unfolding init_globals_from
  init_globals_from-SameTable zero i m = (refl, refl)
  init_globals_from-SameTable (suc n) i m =
      let P : Module × Result (Unit {0}) → Type 0 = λ out. SameTable m out.0 in
      at_option P (get_elem? m.globals i) (λ e. (refl, refl))
        (λ g e.
          at_option P g.init_expr (λ e. init_globals_from-SameTable n (suc i) m)
            (λ start e.
              and_then-by P m (evaluate m g.type (take g.init_expr_size start)) (λ e. (refl, refl))
                (λ r e. init_globals_from-SameTable n (suc i) (set_global_value m i g r.0))))

  abbrev Safe : ℕ → ℕ → (Runtime × Module) × Result (Unit {0}) → Type 0
  Safe n size out = IsPlaced out.0.0.memory × IsTable n size out.0.1

  -- Loading a module leaves linear memory at the start of its reservation and within what is
  -- committed and reserved, and a table of NULL pointers and functions of the module that is not
  -- shorter than before, wherever an error stops it.
  pub load_module-IsSafe :
      (reply : SystemReply) (rt : Runtime) (linked : Bool) (m : Module)
      → IsPlaced rt.memory
      → IsTable m.num_functions (length m.table) m
      → let ((rt', m'), result) = load_module evaluate reply rt linked m in
        IsPlaced rt'.memory × IsTable m.num_functions (length m.table) m'
  unfolding load_module
  load_module-IsSafe reply rt true m h k = (h, k)
  load_module-IsSafe reply rt false m h k =
      let start =
        init_memory reply rt m.memory_imported m.memory_info.init_pages m.memory_info.max_pages in
      let placed =
        init_memory-IsPlaced reply rt m.memory_imported m.memory_info.init_pages
          m.memory_info.max_pages h in
      let P = Safe m.num_functions (length m.table) in
      let globals = init_globals evaluate m in
      let k' = SameTable-IsTable globals.0 (init_globals_from-SameTable (length m.globals) 0 m) in
      let segments = init_data_segments evaluate start.1.memory globals.0 in
      let placed' = init_data_segments-IsPlaced start.1.memory globals.0 placed in
      let rt' : Runtime = record start.1 { memory = segments.0 } in
      at_option P start.0
        (λ e.
          and_then-by P (start.1, globals.0) globals.1 (λ e. (placed, k'))
            (λ u e.
              and_then-by P (rt', globals.0) segments.1 (λ e. (placed', k'))
                (λ u e. (
                  placed',
                  init_elements_from-IsTable m.num_functions (length m.table) evaluate
                      globals.0.num_element_segments globals.0 globals.0.element_section k',
                ))))
        (λ e u. (placed, k))
    where
      SameTable-IsTable :
          (m' : Module) → SameTable m m' → IsTable m.num_functions (length m.table) m'
      SameTable-IsTable m' same = (
        same.1,
        subst (All (Refers m.num_functions)) (sym same.0) k.1,
        omega (arith, ap (λ (t : List (Option ℕ)). length t) same.0, k.2),
        omega (arith, ap (λ (t : List (Option ℕ)). length t) same.0),
      )
