-- ===== src/FuncTypes/Tests.antt =====
-- Instances of the theorems on the signatures of cpp/m3_env.c, and runs of its functions.
use react_native_webassembly.Common.{◌≡◌, ◌↔◌, refl, [], ◌∷◌}
use react_native_webassembly.Core.ValueType.{type_i32, type_i64}
use react_native_webassembly.Runtime.{FuncType, Environment}
use react_native_webassembly.FuncTypes.{TypeRef, environment_add_func_type, new_environment, deref}
use react_native_webassembly.FuncTypes.Interning.{
  SameType, IsInterned, environment_add_func_type-IsInterned, environment_add_func_type-same_iff,
}

abbrev binary : FuncType
binary = record { num_rets = 1; num_args = 2; types = type_i32 ∷ type_i32 ∷ type_i64 ∷ [] }

abbrev unary : FuncType
unary = record { num_rets = 1; num_args = 1; types = type_i64 ∷ type_i64 ∷ [] }

abbrev no_types : Environment
no_types = record { func_types = []; pages_released = [] }

abbrev one_type : Environment
one_type = record { func_types = binary ∷ []; pages_released = [] }

abbrev two_types : Environment
two_types = record { func_types = unary ∷ binary ∷ []; pages_released = [] }

two_types-IsInterned : IsInterned two_types.func_types
unfolding environment_add_func_type
two_types-IsInterned =
    environment_add_func_type-IsInterned one_type unary
      (environment_add_func_type-IsInterned no_types binary (λ p q a b at_p. unfold deref in cc))

environment_add_func_type-same_iff_example : ◌≡◌ {A = TypeRef} 0 1 ↔ SameType binary unary
unfolding environment_add_func_type
environment_add_func_type-same_iff_example =
    environment_add_func_type-same_iff two_types binary unary two_types-IsInterned

-- A signature that is there already is not added again.
add_again : environment_add_func_type two_types binary ≡ (0, two_types)
unfolding environment_add_func_type
add_again = refl

-- The environment starts with the five signatures of the simple blocks.
new_environment_refs : new_environment.0 ≡ 0 ∷ 1 ∷ 2 ∷ 3 ∷ 4 ∷ []
unfolding new_environment
new_environment_refs = refl
