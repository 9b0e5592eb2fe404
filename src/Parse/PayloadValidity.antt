-- ===== src/Parse/PayloadValidity.antt =====
-- The sections of cpp/m3_parse.c on data and names keep a module valid.
use react_native_webassembly.Common.{
  subst, ℕ, zero, suc, ◌≡◌, refl, arith, Option, none, some, [], ◌∷◌, ltb, ◌==◌, not, length, drop,
}
use react_native_webassembly.Results.{
  Result, throwif, Holds, holds_ok, Holds-then, Holds-bind, Holds-if, too_many_memory_sections,
  too_many_element_segments, too_many_globals, too_many_data_segments, too_many_names,
}
use react_native_webassembly.Core.Read.{Bytes}
use react_native_webassembly.Core.Leb.{read_leb_u32, read_leb_u7, try_leb}
use react_native_webassembly.Core.Loop.{for_loop, for_loop-Holds}
use react_native_webassembly.Core.Utf8.{read_utf8, c_string}
use react_native_webassembly.FuncTypes.{bytes_equal}
use react_native_webassembly.Module.{Function, Module, module_get_function, write_function}
use react_native_webassembly.Module.Validity.{
  IsValid, IsUsed, module_get_function-IsUsed, write_function-IsValid,
}
use react_native_webassembly.Parse.Functions.{Parsing, max_sane_functions_count}
use react_native_webassembly.Parse.Imports.{parse_global_type}
use react_native_webassembly.Parse.Data.{
  parse_section_memory, parse_section_element, parse_init_expr, parse_global, parse_section_global,
  parse_data_segment, parse_section_data, max_sane_element_segments, max_sane_globals_count,
  max_sane_data_segments,
}
use react_native_webassembly.Parse.Names.{
  name_function, set_name, parse_function_name, parse_name_payload, parse_names, parse_section_name,
  name_section, parse_section_custom,
}

module _ (n : ℕ) where
  abbrev Valid : Parsing → Type 0
  Valid s = IsValid n s.0

  pub parse_section_memory-IsValid :
      (m : Module) (bytes : Bytes) → IsValid n m → Holds (IsValid n) (parse_section_memory m bytes)
  unfolding parse_section_memory
  parse_section_memory-IsValid m bytes h =
      Holds-then (try_leb (read_leb_u32 bytes))
        (λ r. Holds-then (throwif too_many_memory_sections (not (r.0 == 1))) (λ u. holds_ok h))

  pub parse_section_element-IsValid :
      (m : Module) (bytes : Bytes) → IsValid n m → Holds (IsValid n) (parse_section_element m bytes)
  unfolding parse_section_element
  parse_section_element-IsValid m bytes h = Holds-then (try_leb (read_leb_u32 bytes)) (λ r.
      Holds-then (throwif too_many_element_segments (ltb max_sane_element_segments r.0))
        (λ u. holds_ok h))

  parse_global-IsValid :
      (walk : Bytes → Result Bytes) (s : Parsing) → Valid s → Holds Valid (parse_global walk s)
  unfolding parse_global
  parse_global-IsValid walk (m, bytes) h =
      Holds-then (parse_global_type bytes)
        (λ t. Holds-then (parse_init_expr walk t.2) (λ r. holds_ok h))

  pub parse_section_global-IsValid :
      (walk : Bytes → Result Bytes) (m : Module) (bytes : Bytes)
      → IsValid n m
      → Holds (IsValid n) (parse_section_global walk m bytes)
  unfolding parse_section_global
  parse_section_global-IsValid walk m bytes h = Holds-then (try_leb (read_leb_u32 bytes)) (λ r.
      Holds-then (throwif too_many_globals (ltb max_sane_globals_count r.0)) (λ u.
        Holds-bind {Q = Valid} (for_loop (λ i. parse_global walk) r.0 0 (m, r.1))
          (for_loop-Holds {P = Valid} (λ i. parse_global walk) (λ i. parse_global-IsValid walk) r.0
            0 (m, r.1) h)
          (λ s h'. holds_ok h')))

  pub parse_section_data-IsValid :
      (walk : Bytes → Result Bytes) (m : Module) (bytes : Bytes)
      → IsValid n m
      → Holds (IsValid n) (parse_section_data walk m bytes)
  unfolding parse_section_data
  parse_section_data-IsValid walk m bytes h = Holds-then (try_leb (read_leb_u32 bytes)) (λ r.
      Holds-then (throwif too_many_data_segments (ltb max_sane_data_segments r.0)) (λ u.
        Holds-then (for_loop (λ i. parse_data_segment walk) r.0 0 ([], r.1)) (λ s. holds_ok h)))

  name_function-IsUsed :
      (name : Bytes) (f : Function) → IsUsed n f → IsUsed n (name_function name f)
  unfolding name_function
  name_function-IsUsed name f h = ground (arith, h.0, h.1)

  set_name-IsValid :
      (m : Module) (i : ℕ) (name : Bytes) → IsValid n m → IsValid n (set_name m i name)
  set_name-IsValid m i name h = go (module_get_function m i) refl
    where
      go :
          (found : Option Function)
          → module_get_function m i ≡ found
          → IsValid n (set_name m i name)
      go none e = unfold set_name in ground arith
      go (some f) e =
          let (k, used) = module_get_function-IsUsed n m i h e in
          let same : write_function m i (name_function name f) ≡ set_name m i name =
            unfold set_name in ground arith in
          subst (IsValid n) same (
            write_function-IsValid n m i (name_function name f) h k
              (name_function-IsUsed name f used))

  parse_function_name-IsValid : (s : Parsing) → Valid s → Holds Valid (parse_function_name s)
  unfolding parse_function_name
  parse_function_name-IsValid (m, bytes) h =
      Holds-then (try_leb (read_leb_u32 bytes))
        (λ r. Holds-then (read_utf8 r.1) (λ s. holds_ok (set_name-IsValid m r.0 s.0 h)))

  parse_name_payload-IsValid :
      (name_type : ℕ) (m : Module) (bytes : Bytes)
      → IsValid n m
      → Holds (IsValid n) (parse_name_payload name_type m bytes)
  unfolding parse_name_payload
  parse_name_payload-IsValid name_type m bytes h =
      Holds-if (name_type == 1)
        (λ e. Holds-then (try_leb (read_leb_u32 bytes)) (λ r.
          Holds-then (throwif too_many_names (ltb max_sane_functions_count r.0)) (λ u.
            Holds-bind {Q = Valid} (for_loop (λ i. parse_function_name) r.0 0 (m, r.1))
              (for_loop-Holds {P = Valid} (λ i. parse_function_name)
                (λ i. parse_function_name-IsValid) r.0 0 (m, r.1) h)
              (λ s h'. holds_ok h'))))
        (λ e. holds_ok h)

  parse_names-IsValid :
      (fuel : ℕ) (m : Module) (bytes : Bytes)
      → IsValid n m
      → Holds (IsValid n) (parse_names fuel m bytes)
  unfolding parse_names
  parse_names-IsValid fuel m [] h = holds_ok h
  parse_names-IsValid zero m (b ∷ bytes) h = holds_ok h
  parse_names-IsValid (suc fuel) m (b ∷ bytes) h =
      Holds-then (try_leb (read_leb_u7 (b ∷ bytes))) (λ t.
        Holds-then (try_leb (read_leb_u32 t.1)) (λ r.
          Holds-bind (parse_name_payload t.0 m r.1) (parse_name_payload-IsValid t.0 m r.1 h)
            (λ m' h'. parse_names-IsValid fuel m' (drop r.0 r.1) h')))

  pub parse_section_custom-IsValid :
      (m : Module) (bytes : Bytes) → IsValid n m → Holds (IsValid n) (parse_section_custom m bytes)
  unfolding parse_section_custom parse_section_name
  parse_section_custom-IsValid m bytes h = Holds-then (read_utf8 bytes) (λ r.
      Holds-if (bytes_equal (c_string r.0) name_section)
        (λ e. parse_names-IsValid (length r.1) m r.1 h) (λ e. holds_ok h))
