-- ===== src/Parse/Tests.antt =====
-- A small binary for cpp/m3_parse.c, and the theorems on the parser at it.
use react_native_webassembly.Common.{
  inr, ℕ, ◌≡◌, refl, arith, false, none, some, [], ◌∷◌, ◌==◌, if◌then◌else◌, drop,
}
use react_native_webassembly.Results.{Result, ok, err, wasm_underrun, misordered_wasm_section}
use react_native_webassembly.Core.Read.{Bytes}
use react_native_webassembly.Core.ValueType.{type_i32}
use react_native_webassembly.Runtime.{FuncType, Environment}
use react_native_webassembly.Module.{
  Function, Global, Module, new_module, no_import, zeroed_function, module_add_function,
}
use react_native_webassembly.Module.Validity.{IsValid, module_add_function-IsValid}
use react_native_webassembly.Parse.Names.{parse_names}
use react_native_webassembly.Parse.Sections.{
  sections_order, expect_section, parse_sections, parse_module,
}
use react_native_webassembly.Parse.ModuleValidity.{
  parse_module-IsValid, parse_module-IsInterned, parse_module-keeps,
}
use react_native_webassembly.FuncTypes.{deref, environment_add_func_type}
use react_native_webassembly.FuncTypes.Interning.{IsInterned, environment_add_func_type-IsInterned}
use react_native_webassembly.Parse.Order.{
  Placed, expect_section-Placed, parse_names-any_fuel, parse_sections-any_fuel,
}

-- An initial expression without an `end` inside it.
abbrev to_end : Bytes → Result Bytes
to_end [] = err wasm_underrun
to_end (b ∷ bs) = let rest = to_end bs in if b == 0x0b then ok bs else rest

-- One signature, one function, one global, an export "f", a start function and the code.
abbrev sections : Bytes
sections =
    0x01 ∷ 0x06 ∷ 0x01 ∷ 0x60 ∷ 0x01 ∷ 0x7f ∷ 0x01 ∷ 0x7f ∷ 0x03 ∷ 0x02 ∷ 0x01 ∷ 0x00 ∷ 0x06 ∷ 0x06
    ∷ 0x01 ∷ 0x7f ∷ 0x00 ∷ 0x41 ∷ 0x05 ∷ 0x0b ∷ 0x07 ∷ 0x05 ∷ 0x01 ∷ 0x01 ∷ 0x66 ∷ 0x00 ∷ 0x00
    ∷ 0x08 ∷ 0x01 ∷ 0x00 ∷ 0x0a ∷ 0x04 ∷ 0x01 ∷ 0x02 ∷ 0x00 ∷ 0x0b ∷ []

abbrev binary : Bytes
binary = 0x00 ∷ 0x61 ∷ 0x73 ∷ 0x6d ∷ 0x01 ∷ 0x00 ∷ 0x00 ∷ 0x00 ∷ sections

abbrev empty_env : Environment
empty_env = record { func_types = []; pages_released = [] }

abbrev unary : FuncType
unary = record { num_rets = 1; num_args = 1; types = type_i32 ∷ type_i32 ∷ [] }

abbrev unary_env : Environment
unary_env = record { func_types = unary ∷ []; pages_released = [] }

abbrev exported : Function
exported = record zeroed_function {
  wasm = some (0x02 ∷ 0x00 ∷ 0x0b ∷ []);
  names = some (0x66 ∷ []) ∷ [];
  export_name = some (0x66 ∷ []);
  func_type = some 0;
}

abbrev five : Global
five = record {
  import = no_import;
  value = 0;
  name = none;
  init_expr = some (0x41 ∷ 0x05 ∷ 0x0b ∷ []);
  init_expr_size = 3;
  type = type_i32;
  imported = false;
  is_mutable = false;
}

abbrev parsed : Module
parsed = record new_module {
  func_types = 0 ∷ [];
  num_functions = 1;
  functions = exported ∷ [];
  start_function = 0;
  globals = five ∷ [];
}

parse_binary : parse_module to_end empty_env binary ≡ (unary_env, ok parsed)
unfolding parse_module
parse_binary = refl

parse_module-IsValid_example : IsValid 1 parsed
parse_module-IsValid_example =
    parse_module-IsValid to_end empty_env unary_env binary parsed parse_binary

unary_env-IsInterned : IsInterned unary_env.func_types
unfolding environment_add_func_type
unary_env-IsInterned =
    environment_add_func_type-IsInterned empty_env unary (λ p q a b at_p. unfold deref in cc)

parse_module-IsInterned_example : IsInterned (parse_module to_end unary_env binary).0.func_types
parse_module-IsInterned_example =
    parse_module-IsInterned to_end unary_env binary unary_env-IsInterned

unary_at : deref unary_env.func_types 0 ≡ some unary
unfolding deref
unary_at = refl

parse_module-keeps_example :
    deref (parse_module to_end unary_env binary).0.func_types 0 ≡ some unary
parse_module-keeps_example = parse_module-keeps to_end unary_env binary 0 {t = unary} unary_at

-- The code section before the start section.
misordered :
    parse_module to_end empty_env (
      0x00 ∷ 0x61 ∷ 0x73 ∷ 0x6d ∷ 0x01 ∷ 0x00 ∷ 0x00 ∷ 0x00 ∷ 0x0a ∷ 0x01 ∷ 0x00 ∷ 0x08 ∷ 0x01
      ∷ 0x00 ∷ [])
    ≡ (empty_env, err misordered_wasm_section)
unfolding parse_module
misordered = refl

expect_section-Placed_example : Placed (drop 9 sections_order) 9 10 (expect_section 9 10)
expect_section-Placed_example = expect_section-Placed 9 10 (omega arith) (λ e. omega arith)

-- A name for the function, in a name section.
abbrev names : Bytes
names = 0x01 ∷ 0x04 ∷ 0x01 ∷ 0x00 ∷ 0x01 ∷ 0x67 ∷ []

parse_names-any_fuel_example : parse_names 9 parsed names ≡ parse_names 6 parsed names
parse_names-any_fuel_example = parse_names-any_fuel 9 6 parsed names (omega arith) (omega arith)

parse_sections-any_fuel_example :
    parse_sections to_end 40 empty_env new_module 0 sections
    ≡ parse_sections to_end 36 empty_env new_module 0 sections
parse_sections-any_fuel_example =
    parse_sections-any_fuel to_end 40 36 empty_env new_module 0 sections (omega arith) (omega arith)

abbrev second : Function
second = record zeroed_function { func_type = some 0 }

add_second :
    module_add_function parsed 0 none
    ≡ ok (record parsed { num_functions = 2; functions = exported ∷ second ∷ [] })
unfolding module_add_function
add_second = refl

parsed-IsValid : IsValid 1 parsed
parsed-IsValid =
    ((omega arith, tt), ((omega arith, omega arith), tt), omega arith, inr (omega arith))

module_add_function-IsValid_example :
    IsValid 1 (record parsed { num_functions = 2; functions = exported ∷ second ∷ [] })
    × ◌≡◌ {A = ℕ} 2 2
    × ◌≡◌ {A = ℕ} 0 0
module_add_function-IsValid_example =
    module_add_function-IsValid 1 parsed 0 none parsed-IsValid add_second
