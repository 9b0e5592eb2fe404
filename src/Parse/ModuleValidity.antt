-- ===== src/Parse/ModuleValidity.antt =====
-- cpp/m3_parse.c, `m3_ParseModule`: the module that it returns is valid, and the environment has
-- only grown, whatever it returns.
use react_native_webassembly.Common.{
  some, subst, ℕ, zero, suc, ◌≡◌, refl, Bool, true, false, [], ◌∷◌, ◌==◌, if◌then◌else◌, length,
}
use react_native_webassembly.Results.{
  Result, ok, and_then-by, Holds, holds_ok, holds_err, Holds-value,
}
use react_native_webassembly.Core.Read.{Bytes}
use react_native_webassembly.Runtime.{Environment, FuncType}
use react_native_webassembly.FuncTypes.{TypeRef, deref}
use react_native_webassembly.FuncTypes.Interning.{IsInterned}
use react_native_webassembly.Module.{Module, new_module}
use react_native_webassembly.Module.Validity.{IsValid, new_module-IsValid}
use react_native_webassembly.Parse.Sections.{
  parse_module_section, parse_section_header, parse_sections, parse_preamble, parse_module,
}
use react_native_webassembly.Parse.Validity.{
  parse_section_function-IsValid, parse_section_import-IsValid, parse_section_export-IsValid,
  parse_section_start-IsValid, parse_section_code-IsValid,
}
use react_native_webassembly.Parse.Interning.{
  Extends-refl, Extends-trans, Parsed, parse_section_type-Parsed,
}
use react_native_webassembly.Parse.PayloadValidity.{
  parse_section_custom-IsValid, parse_section_memory-IsValid, parse_section_global-IsValid,
  parse_section_element-IsValid, parse_section_data-IsValid,
}

-- A section that leaves the environment alone.
abbrev unchanged :
    (env : Environment) {r : Result Module}
    → Holds (IsValid (length env.func_types)) r
    → Parsed env (env, r)
unchanged env h = (Extends-refl env, h)

either :
    (env : Environment) (b : Bool) {p q : Environment × Result Module}
    → Parsed env p
    → Parsed env q
    → Parsed env (if b then p else q)
either env true h k = h
either env false h k = k

module _ (walk : Bytes → Result Bytes) where
  parse_module_section-Parsed :
      (env : Environment) (m : Module) (section : ℕ) (bytes : Bytes)
      → IsValid (length env.func_types) m
      → Parsed env (parse_module_section walk env m section bytes)
  unfolding parse_module_section
  parse_module_section-Parsed env m section bytes h =
      let n = length env.func_types in
      either env (section == 0) (unchanged env (parse_section_custom-IsValid n m bytes h)) (
        either env (section == 1) (parse_section_type-Parsed env m bytes h) (
          either env (section == 2) (unchanged env (parse_section_import-IsValid n m bytes h)) (
            either env (section == 3) (unchanged env (parse_section_function-IsValid n m bytes h)) (
              either env (section == 5) (unchanged env (parse_section_memory-IsValid n m bytes h)) (
                either env (section == 6)
                  (unchanged env (parse_section_global-IsValid n walk m bytes h))
                  (either env (section == 7)
                    (unchanged env (parse_section_export-IsValid n m bytes h))
                    (either env (section == 8)
                      (unchanged env (parse_section_start-IsValid n m bytes h))
                      (either env (section == 9)
                        (unchanged env (parse_section_element-IsValid n m bytes h))
                        (either env (section == 10)
                          (unchanged env (parse_section_code-IsValid n m bytes h))
                          (either env (section == 11)
                            (unchanged env (parse_section_data-IsValid n walk m bytes h))
                            (unchanged env (holds_ok h))))))))))))

  parse_sections-Parsed :
      (fuel : ℕ) (env : Environment) (m : Module) (expected : ℕ) (bytes : Bytes)
      → IsValid (length env.func_types) m
      → Parsed env (parse_sections walk fuel env m expected bytes)
  unfolding parse_sections
  parse_sections-Parsed fuel env m expected [] h = unchanged env (holds_ok h)
  parse_sections-Parsed zero env m expected (b ∷ bytes) h = unchanged env (holds_ok h)
  parse_sections-Parsed (suc fuel) env m expected (b ∷ bytes) h =
      and_then-by (Parsed env) env (parse_section_header expected (b ∷ bytes))
        (λ e. unchanged env holds_err)
        (λ head e.
          let out = parse_module_section walk env m head.0 head.2 in
          let here = parse_module_section-Parsed env m head.0 head.2 h in
          and_then-by (Parsed env) out.0 out.1 (λ e. (here.0, holds_err))
            (λ m' e.
              let later =
                parse_sections-Parsed fuel out.0 m' head.1 head.3
                  (Holds-value (IsValid (length out.0.func_types)) out.1 here.1 e) in
              (Extends-trans here.0 later.0, later.1)))

  parse_module-Parsed :
      (env : Environment) (bytes : Bytes) → Parsed env (parse_module walk env bytes)
  unfolding parse_module
  parse_module-Parsed env bytes =
      and_then-by (Parsed env) env (parse_preamble bytes) (λ e. unchanged env holds_err)
        (λ pos e.
          parse_sections-Parsed (length pos) env new_module 0 pos
            (new_module-IsValid (length env.func_types)))

  -- A module that `m3_ParseModule` returns is valid over the environment that it leaves: its types
  -- are signatures of the environment, each of its functions has one of them and no more than three
  -- names, the imports are among the functions, and a start function is one of them.
  pub parse_module-IsValid :
      (env env' : Environment) (bytes : Bytes) (m : Module)
      → parse_module walk env bytes ≡ (env', ok m)
      → IsValid (length env'.func_types) m
  parse_module-IsValid env env' bytes m e =
      let (x, h) = subst (Parsed env) e (parse_module-Parsed env bytes) in
      Holds-value (IsValid (length env'.func_types)) (ok m) h refl

  -- Whatever `m3_ParseModule` is given and returns, the environment stays free of equal signatures.
  pub parse_module-IsInterned :
      (env : Environment) (bytes : Bytes)
      → IsInterned env.func_types
      → IsInterned (parse_module walk env bytes).0.func_types
  parse_module-IsInterned env bytes = (parse_module-Parsed env bytes).0.interned

  -- Whatever `m3_ParseModule` is given and returns, a reference to a signature that was in the
  -- environment stands for the same signature after it.
  pub parse_module-keeps :
      (env : Environment) (bytes : Bytes) (ref : TypeRef) {t : FuncType}
      → deref env.func_types ref ≡ some t
      → deref (parse_module walk env bytes).0.func_types ref ≡ some t
  parse_module-keeps env bytes ref {t} = (parse_module-Parsed env bytes).0.keeps ref t
