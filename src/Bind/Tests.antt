-- ===== src/Bind/Tests.antt =====
-- Signature strings of cpp/m3_bind.c, and the theorems on them at one.
use react_native_webassembly.Common.{ℕ, ◌≡◌, ◌↔◌, refl, arith, some, none, true, [], ◌∷◌}
use react_native_webassembly.Results.{
  Result, ok, err, malformed_function_signature, function_lookup_failed,
  function_signature_mismatch,
}
use react_native_webassembly.Runtime.{FuncType, Environment}
use react_native_webassembly.FuncTypes.Interning.{SameType}
use react_native_webassembly.Module.{Function, Module, new_module, zeroed_function}
use react_native_webassembly.Bind.{
  signature_to_func_type, validate_signature, find_and_link_function,
}
use react_native_webassembly.Bind.RoundTrip.{
  signature_of, func_type_of, signature_to_func_type-signature_of, validate_signature_iff,
}

-- "i(*I )": a pointer is an i32.
pointer_argument :
    signature_to_func_type (0x69 ∷ 0x28 ∷ 0x2a ∷ 0x49 ∷ 0x20 ∷ 0x29 ∷ [])
    ≡ ok (record { num_rets = 1; num_args = 2; types = 1 ∷ 1 ∷ 2 ∷ [] })
unfolding signature_to_func_type
pointer_argument = refl

-- "v"
too_short : signature_to_func_type (0x76 ∷ []) ≡ err malformed_function_signature
unfolding signature_to_func_type
too_short = refl

signature_to_func_type-signature_of_example :
    signature_to_func_type (signature_of (1 ∷ []) (2 ∷ 4 ∷ []))
    ≡ ok (record { num_rets = 1; num_args = 2; types = 1 ∷ 2 ∷ 4 ∷ [] })
signature_to_func_type-signature_of_example =
    signature_to_func_type-signature_of (1 ∷ []) (2 ∷ 4 ∷ []) ((omega arith, omega arith), tt)
      ((omega arith, omega arith), ((omega arith, omega arith), tt)) (omega arith)

abbrev of_two : FuncType
of_two = record { num_rets = 1; num_args = 2; types = 1 ∷ 2 ∷ 4 ∷ [] }

validate_signature_iff_example :
    (validate_signature of_two (signature_of (1 ∷ []) (2 ∷ 4 ∷ [])) ≡ ok tt)
    ↔ SameType (func_type_of (1 ∷ []) (2 ∷ 4 ∷ [])) of_two
validate_signature_iff_example =
    validate_signature_iff of_two (1 ∷ []) (2 ∷ 4 ∷ []) ((omega arith, omega arith), tt)
      ((omega arith, omega arith), ((omega arith, omega arith), tt)) (omega arith)

abbrev host : Function
host = record zeroed_function {
  import = record { module_utf8 = some (0x65 ∷ []); field_utf8 = some (0x66 ∷ []) };
  func_type = some 0;
}

abbrev importing : Module
importing = record new_module {
  func_types = 0 ∷ [];
  num_functions = 1;
  functions = host ∷ [];
  num_func_imports = 1;
}

abbrev one_type : Environment
one_type = record { func_types = of_two ∷ []; pages_released = [] }

-- A host function that is compiled to address 64.
abbrev compiled_at : Module → ℕ → Module × Result (Unit {0})
compiled_at m i = (record m { functions = record host { compiled = some 64 } ∷ [] }, ok tt)

-- "*", "f", "i(IF)"
links :
    (find_and_link_function compiled_at one_type
      (0x2a ∷ [])
      (0x66 ∷ [])
      (some (0x69 ∷ 0x28 ∷ 0x49 ∷ 0x46 ∷ 0x29 ∷ []))
      true
      importing).1
    ≡ ok tt
unfolding find_and_link_function
links = refl

-- "e", "f", "v()"
refuses :
    find_and_link_function compiled_at one_type
      (0x65 ∷ [])
      (0x66 ∷ [])
      (some (0x76 ∷ 0x28 ∷ 0x29 ∷ []))
      true
      importing
    ≡ (importing, err function_signature_mismatch)
unfolding find_and_link_function
refuses = refl

-- "d", "f"
not_found :
    find_and_link_function compiled_at one_type (0x64 ∷ []) (0x66 ∷ []) none true importing
    ≡ (importing, err function_lookup_failed)
unfolding find_and_link_function
not_found = refl
