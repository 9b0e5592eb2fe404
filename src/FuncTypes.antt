-- ===== src/FuncTypes.antt =====
-- The signatures of cpp/m3_function.c, and their interning in cpp/m3_env.c. An `IM3FuncType` is the
-- number of signatures that the environment held when this one was added: its place, counted from
-- the oldest, which later additions do not move.
pub mod Interning
mod Tests
use react_native_webassembly.Common.{
  ℕ, zero, suc, ◌+◌, ◌-◌, Bool, true, false, ◌&&◌, Option, none, some, List, [], ◌∷◌, map, ltb,
  ◌==◌, if◌then◌else◌, length, get_elem?, get_or, take,
}
use react_native_webassembly.Core.ValueType.{
  type_none, type_i32, type_i64, type_f32, type_f64, type_unknown,
}
use react_native_webassembly.Runtime.{FuncType, Environment}

abbrev pub TypeRef : Type 0
TypeRef = ℕ

-- `memcmp (…) == 0` over as many bytes.
unfoldable pub bytes_equal : List ℕ → List ℕ → Bool
bytes_equal [] [] = true
bytes_equal [] (y ∷ ys) = false
bytes_equal (x ∷ xs) [] = false
bytes_equal (x ∷ xs) (y ∷ ys) = x == y && bytes_equal xs ys

-- `AreFuncTypesEqual`
unfoldable pub are_func_types_equal : FuncType → FuncType → Bool
unfolding bytes_equal
are_func_types_equal a b =
    if a.num_rets == b.num_rets && a.num_args == b.num_args
    then bytes_equal (take (a.num_rets + a.num_args) a.types)
        (take (a.num_rets + a.num_args) b.types)
    else false

-- `GetFuncTypeNumParams` and `GetFuncTypeNumResults`; NULL is `none`.
unfoldable pub get_func_type_num_params : Option FuncType → ℕ
get_func_type_num_params none = 0
get_func_type_num_params (some t) = t.num_args

unfoldable pub get_func_type_num_results : Option FuncType → ℕ
get_func_type_num_results none = 0
get_func_type_num_results (some t) = t.num_rets

-- `GetFuncTypeParamType`
unfoldable pub get_func_type_param_type : Option FuncType → ℕ → ℕ
get_func_type_param_type none index = type_unknown
get_func_type_param_type (some t) index =
    if ltb index t.num_args then get_or t.types (t.num_rets + index) type_unknown else type_unknown

-- `GetFuncTypeResultType`
unfoldable pub get_func_type_result_type : Option FuncType → ℕ → ℕ
get_func_type_result_type none index = type_unknown
get_func_type_result_type (some t) index =
    if ltb index t.num_rets then get_or t.types index type_unknown else type_unknown

-- The search of `Environment_AddFuncType` through the linked list, newest first.
unfoldable pub find_func_type : List FuncType → FuncType → Option TypeRef
unfolding are_func_types_equal
find_func_type [] t = none
find_func_type (u ∷ us) t =
    let found = find_func_type us t in if are_func_types_equal u t then some (length us) else found

-- `Environment_AddFuncType`: an equal signature that is there already, or else the new one.
unfoldable pub environment_add_func_type : Environment → FuncType → TypeRef × Environment
unfolding find_func_type
environment_add_func_type env t = elim (find_func_type env.func_types t) [
  | some found ↦ (found, env)
  | none ↦ (length env.func_types, record env { func_types = t ∷ env.func_types })
]

-- The signature that a reference stands for: `* ref`.
unfoldable pub deref : List FuncType → TypeRef → Option FuncType
deref [] ref = none
deref (t ∷ ts) ref = if ref == length ts then some t else deref ts ref

-- The signatures of `m3_NewEnvironment`: one for each type that a simple block can return. Their
-- references are `retFuncTypes`.
abbrev pub ret_func_type : ℕ → FuncType
ret_func_type t = record {
  num_rets = if t == type_none then 0 else 1;
  num_args = 0;
  types = t ∷ [];
}

unfoldable pub add_ret_func_types : Environment → List ℕ → List TypeRef × Environment
unfolding environment_add_func_type
add_ret_func_types env [] = ([], env)
add_ret_func_types env (t ∷ ts) =
    let (ref, env') = environment_add_func_type env (ret_func_type t) in
    let (refs, env'') = add_ret_func_types env' ts in (ref ∷ refs, env'')

-- `m3_NewEnvironment`, where memory is there.
unfoldable pub new_environment : List TypeRef × Environment
unfolding add_ret_func_types
new_environment =
    add_ret_func_types (record { func_types = []; pages_released = [] })
      (type_none ∷ type_i32 ∷ type_i64 ∷ type_f32 ∷ type_f64 ∷ [])
