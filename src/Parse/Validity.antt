-- ===== src/Parse/Validity.antt =====
-- The sections of cpp/m3_parse.c keep a module valid.
use react_native_webassembly.Common.{
  subst, ℕ, suc, ◌+◌, ◌-◌, ◌^◌, ◌≤◌, ◌≡◌, inr, refl, arith, Bool, true, false, not, Option, none,
  some, [], ◌∷◌, leb, ltb, ◌==◌, if◌then◌else◌, length, length-append, take, u32,
}
use react_native_webassembly.Results.{
  null_pointer, err, ok, Result, ok, throwif, Holds, holds_ok, holds_err, Holds-bind, Holds-then,
  Holds-of, Holds-if, too_many_functions, too_many_imports, too_many_exports,
  mismatched_function_count,
}
use react_native_webassembly.Core.Read.{Bytes, read_u8}
use react_native_webassembly.Core.Leb.{read_leb_u32, try_leb}
use react_native_webassembly.Core.Loop.{for_loop, for_loop-Holds}
use react_native_webassembly.Core.Utf8.{read_utf8}
use react_native_webassembly.Module.{
  ImportInfo, Function, Module, module_add_function, module_prealloc_functions, module_get_function,
  write_function,
}
use react_native_webassembly.Module.Validity.{
  IsValid, IsUsed, module_add_function-IsValid, module_prealloc_functions-IsValid,
  write_function-IsValid, module_get_function-IsUsed,
}
use react_native_webassembly.Parse.Functions.{
  Parsing, max_sane_functions_count, max_sane_exports_count, kind_function, kind_global,
  parse_function, parse_section_function, export_function, name_exported_function,
  name_exported_global, add_export, parse_export, parse_section_export, parse_section_start,
  set_wasm, parse_code, parse_section_code,
}
use react_native_webassembly.Parse.Imports.{
  max_sane_imports_count, kind_table, kind_memory, parse_type_memory, parse_import_function,
  parse_import_memory, parse_global_type, parse_import_global, parse_import, parse_section_import,
}

module _ (n : ℕ) where
  abbrev StillValid : Parsing → Type 0
  StillValid s = IsValid n s.0

  parse_function-IsValid : (s : Parsing) → StillValid s → Holds StillValid (parse_function s)
  unfolding parse_function
  parse_function-IsValid (m, bytes) h = Holds-then (try_leb (read_leb_u32 bytes)) (λ r.
      Holds-bind (module_add_function m r.0 none)
        (Holds-of (IsValid n) (module_add_function m r.0 none)
          (λ m' e. (module_add_function-IsValid n m r.0 none h e).0))
        (λ m' h'. holds_ok h'))

  pub parse_section_function-IsValid :
      (m : Module) (bytes : Bytes)
      → IsValid n m
      → Holds (IsValid n) (parse_section_function m bytes)
  unfolding parse_section_function
  parse_section_function-IsValid m bytes h = Holds-then (try_leb (read_leb_u32 bytes)) (λ r.
      Holds-then (throwif too_many_functions (ltb max_sane_functions_count r.0)) (λ u.
        Holds-bind {Q = StillValid} (for_loop (λ i. parse_function) r.0 0 (room r.0, r.1))
          (for_loop-Holds {P = StillValid} (λ i. parse_function) (λ i. parse_function-IsValid) r.0 0
            (room r.0, r.1) (module_prealloc_functions-IsValid n m (u32 (m.num_functions + r.0)) h))
          (λ s h'. holds_ok h')))
    where
      room : ℕ → Module
      room count = module_prealloc_functions m (u32 (m.num_functions + count))

  parse_import_function-IsValid :
      (import : ImportInfo) (s : Parsing)
      → StillValid s
      → Holds StillValid (parse_import_function import s)
  unfolding parse_import_function
  parse_import_function-IsValid import (m, bytes) h =
      Holds-then (try_leb (read_leb_u32 bytes)) (λ r.
        Holds-bind (module_add_function m r.0 (some import))
          (Holds-of (λ m'. IsValid n m' × (suc m'.num_func_imports ≤ m'.num_functions))
            (module_add_function m r.0 (some import))
            (λ m' e.
              let (v, c, i) = module_add_function-IsValid n m r.0 (some import) h e in
              (v, omega (arith, c, i, h.2))))
          (λ m' h'. holds_ok (h'.0.0, h'.0.1, omega (arith, h'.1), h'.0.3)))

  parse_import_memory-IsValid :
      (s : Parsing) → StillValid s → Holds StillValid (parse_import_memory s)
  unfolding parse_import_memory
  parse_import_memory-IsValid (m, bytes) h = Holds-then (parse_type_memory bytes) (λ r. holds_ok h)

  parse_import_global-IsValid :
      (import : ImportInfo) (s : Parsing)
      → StillValid s
      → Holds StillValid (parse_import_global import s)
  unfolding parse_import_global
  parse_import_global-IsValid import (m, bytes) h =
      Holds-then (parse_global_type bytes) (λ r. holds_ok h)

  either :
      (b : Bool) {r s : Result Parsing}
      → Holds StillValid r
      → Holds StillValid s
      → Holds StillValid (if b then r else s)
  either true h k = h
  either false h k = k

  parse_import-IsValid : (s : Parsing) → StillValid s → Holds StillValid (parse_import s)
  unfolding parse_import
  parse_import-IsValid (m, bytes) h = Holds-then (read_utf8 bytes) (λ r.
      Holds-then (read_utf8 r.1) (λ f. Holds-then (read_u8 f.1) (λ k.
        either (k.0 == kind_function) (parse_import_function-IsValid (info r.0 f.0) (m, k.1) h) (
          either (k.0 == kind_table) (holds_ok h) (
            either (k.0 == kind_memory) (parse_import_memory-IsValid (m, k.1) h) (
              either (k.0 == kind_global) (parse_import_global-IsValid (info r.0 f.0) (m, k.1) h)
                holds_err))))))
    where
      info : Bytes → Bytes → ImportInfo
      info r f = record { module_utf8 = some r; field_utf8 = some f }

  pub parse_section_import-IsValid :
      (m : Module) (bytes : Bytes) → IsValid n m → Holds (IsValid n) (parse_section_import m bytes)
  unfolding parse_section_import
  parse_section_import-IsValid m bytes h = Holds-then (try_leb (read_leb_u32 bytes)) (λ r.
      Holds-then (throwif too_many_imports (ltb max_sane_imports_count r.0)) (λ u.
        Holds-bind {Q = StillValid}
          (for_loop (λ i. parse_import) r.0 0 (module_prealloc_functions m r.0, r.1))
          (for_loop-Holds {P = StillValid} (λ i. parse_import) (λ i. parse_import-IsValid) r.0 0
            (module_prealloc_functions m r.0, r.1) (module_prealloc_functions-IsValid n m r.0 h))
          (λ s h'. holds_ok h')))

  export_function-IsUsed :
      (utf8 : Bytes) (f : Function) → IsUsed n f → IsUsed n (export_function utf8 f)
  unfolding export_function
  export_function-IsUsed utf8 f h = ground (arith, length-append f.names (some utf8 ∷ []), h.0, h.1)

  add_export-IsValid :
      (m : Module) (utf8 : Bytes) (kind index : ℕ)
      → IsValid n m
      → Holds (IsValid n) (add_export m utf8 kind index)
  unfolding add_export
  add_export-IsValid m utf8 kind index h =
      Holds-if (kind == kind_function)
        (λ e.
          Holds-of (IsValid n) (name_exported_function m utf8 index)
            (λ m' e. named (module_get_function m index) refl e))
        (λ e.
          Holds-if (kind == kind_global)
            (λ e.
              Holds-of (IsValid n) (name_exported_global m utf8 index)
                (λ m' e. unfold name_exported_global in ground arith))
            (λ e. holds_ok h))
    where
      named :
          (found : Option Function) {m' : Module}
          → module_get_function m index ≡ found
          → name_exported_function m utf8 index ≡ ok m'
          → IsValid n m'
      named none e k = unfold name_exported_function in ground arith
      named (some f) {m'} e k =
          let (i, used) = module_get_function-IsUsed n m index h e in
          let same : write_function m index (export_function utf8 f) ≡ m' =
            unfold name_exported_function in ground arith in
          subst (IsValid n) same (
            write_function-IsValid n m index (export_function utf8 f) h i
              (export_function-IsUsed utf8 f used))

  parse_export-IsValid : (s : Parsing) → StillValid s → Holds StillValid (parse_export s)
  unfolding parse_export
  parse_export-IsValid (m, bytes) h = Holds-then (read_utf8 bytes) (λ r.
      Holds-then (read_u8 r.1) (λ k. Holds-then (try_leb (read_leb_u32 k.1)) (λ i.
        Holds-bind (add_export m r.0 k.0 i.0) (add_export-IsValid m r.0 k.0 i.0 h)
          (λ m' h'. holds_ok h'))))

  pub parse_section_export-IsValid :
      (m : Module) (bytes : Bytes) → IsValid n m → Holds (IsValid n) (parse_section_export m bytes)
  unfolding parse_section_export
  parse_section_export-IsValid m bytes h = Holds-then (try_leb (read_leb_u32 bytes)) (λ r.
      Holds-then (throwif too_many_exports (ltb max_sane_exports_count r.0)) (λ u.
        Holds-bind {Q = StillValid} (for_loop (λ i. parse_export) r.0 0 (m, r.1))
          (for_loop-Holds {P = StillValid} (λ i. parse_export) (λ i. parse_export-IsValid) r.0 0
            (m, r.1) h)
          (λ s h'. holds_ok h')))

  pub parse_section_start-IsValid :
      (m : Module) (bytes : Bytes) → IsValid n m → Holds (IsValid n) (parse_section_start m bytes)
  unfolding parse_section_start
  parse_section_start-IsValid m bytes h = Holds-then (try_leb (read_leb_u32 bytes)) (λ r.
      Holds-if (ltb r.0 m.num_functions) (λ e. holds_ok (h.0, h.1, h.2, inr (ground arith)))
        (λ e. holds_err))

  set_wasm-IsValid :
      (m : Module) (i : ℕ) (body : Bytes) → IsValid n m → Holds (IsValid n) (set_wasm m i body)
  set_wasm-IsValid m i body h = go (module_get_function m i) refl
    where
      go :
          (found : Option Function)
          → module_get_function m i ≡ found
          → Holds (IsValid n) (set_wasm m i body)
      go none e =
          let same : err null_pointer ≡ set_wasm m i body = unfold set_wasm in ground arith in
          subst (Holds (IsValid n)) same holds_err
      go (some f) e =
          let (k, used) = module_get_function-IsUsed n m i h e in
          let same : ok (write_function m i (record f { wasm = some body })) ≡ set_wasm m i body =
            unfold set_wasm in ground arith in
          subst (Holds (IsValid n)) same
            (holds_ok (write_function-IsValid n m i (record f { wasm = some body }) h k used))

  parse_code-IsValid : (i : ℕ) (s : Parsing) → StillValid s → Holds StillValid (parse_code i s)
  unfolding parse_code
  parse_code-IsValid i (m, start) h = Holds-then (try_leb (read_leb_u32 start)) (λ r.
      either (r.0 == 0) (holds_ok h) (
        either (leb r.0 (length r.1))
          (Holds-bind _
            (set_wasm-IsValid m (u32 (i + m.num_func_imports))
              (take (length start - (length r.1 - r.0)) start) h)
            (λ m' h'. holds_ok h'))
          holds_err))

  pub parse_section_code-IsValid :
      (m : Module) (bytes : Bytes) → IsValid n m → Holds (IsValid n) (parse_section_code m bytes)
  unfolding parse_section_code
  parse_section_code-IsValid m bytes h = Holds-then (try_leb (read_leb_u32 bytes)) (λ r.
      Holds-then
        (throwif mismatched_function_count
          (not (r.0 == u32 (m.num_functions + 2 ^ 32 - m.num_func_imports))))
        (λ u.
          Holds-bind {Q = StillValid} (for_loop parse_code r.0 0 (m, r.1))
            (for_loop-Holds {P = StillValid} parse_code parse_code-IsValid r.0 0 (m, r.1) h)
            (λ s h'. Holds-if (length s.1 == 0) (λ e. holds_ok h') (λ e. holds_err))))
