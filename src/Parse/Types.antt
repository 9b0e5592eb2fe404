-- ===== src/Parse/Types.antt =====
-- cpp/m3_parse.c, `ParseSection_Type`, where memory is there.
use react_native_webassembly.Common.{
  ℕ, zero, suc, ◌+◌, ◌-◌, ◌^◌, List, [], ◌∷◌, ◌++◌, not, ltb, ◌==◌, if◌then◌else◌,
}
use react_native_webassembly.Results.{
  Result, ok, err, ◌>>=◌, ◌>>◌, throwif, and_then, wasm_malformed, too_many_args_rets,
  too_many_types,
}
use react_native_webassembly.Core.Read.{Bytes}
use react_native_webassembly.Core.Leb.{read_leb_u32, read_leb_i7, try_leb}
use react_native_webassembly.Core.ValueType.{normalize_type}
use react_native_webassembly.Runtime.{FuncType, Environment}
use react_native_webassembly.FuncTypes.{TypeRef, environment_add_func_type}
use react_native_webassembly.Module.{Module}

abbrev pub max_sane_types_count : ℕ
max_sane_types_count = 1000000

abbrev pub max_sane_function_arg_ret_count : ℕ
max_sane_function_arg_ret_count = 1000

-- The loops over the argument and the result types.
unfoldable pub parse_value_types : ℕ → Bytes → Result (List ℕ × Bytes)
unfolding read_leb_i7 normalize_type
parse_value_types zero bytes = ok ([], bytes)
parse_value_types (suc n) bytes = do
  (wasm_type, bytes) ← try_leb (read_leb_i7 bytes)
  type ← normalize_type wasm_type
  (types, bytes) ← parse_value_types n bytes
  ok (type ∷ types, bytes)

-- One signature: a round of the loop up to `Environment_AddFuncType`.
unfoldable pub parse_func_type : Bytes → Result (FuncType × Bytes)
unfolding read_leb_u32 read_leb_i7 parse_value_types
parse_func_type bytes = do
  (form, bytes) ← try_leb (read_leb_i7 bytes)
  throwif wasm_malformed (not (form == 2 ^ 8 - 32))
  (num_args, bytes) ← try_leb (read_leb_u32 bytes)
  throwif too_many_args_rets (ltb max_sane_function_arg_ret_count num_args)
  (arg_types, bytes) ← parse_value_types num_args bytes
  (num_rets, bytes) ← try_leb (read_leb_u32 bytes)
  throwif too_many_args_rets (ltb max_sane_function_arg_ret_count (num_rets + num_args))
  (ret_types, bytes) ← parse_value_types num_rets bytes
  ok (record { num_rets = num_rets; num_args = num_args; types = ret_types ++ arg_types }, bytes)

-- The loop: the environment keeps what was added before an error.
unfoldable pub parse_types :
    ℕ → Environment → List TypeRef → Bytes → Environment × Result (List TypeRef)
unfolding parse_func_type environment_add_func_type
parse_types zero env refs bytes = (env, ok refs)
parse_types (suc n) env refs bytes = and_then env (parse_func_type bytes) (λ (t, bytes').
    let (ref, env') = environment_add_func_type env t in
    parse_types n env' (refs ++ (ref ∷ [])) bytes')

abbrev pub with_func_types : Module → Result (List TypeRef) → Result Module
with_func_types m (err e) = err e
with_func_types m (ok refs) = ok (record m { func_types = refs })

-- `ParseSection_Type`
unfoldable pub parse_section_type : Environment → Module → Bytes → Environment × Result Module
unfolding read_leb_u32 parse_types
parse_section_type env m bytes = and_then env (try_leb (read_leb_u32 bytes)) (λ (num_types, bytes').
    if ltb max_sane_types_count num_types
    then (env, err too_many_types)
    else if num_types == 0
    then (env, ok m)
    else (let (env', refs) = parse_types num_types env [] bytes' in (env', with_func_types m refs)))
