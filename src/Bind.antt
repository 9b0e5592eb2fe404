-- ===== src/Bind.antt =====
-- cpp/m3_bind.c: the signature strings of host functions, and the imports that they are linked to.
-- A string is the list of its characters, without the zero at its end.
pub mod RoundTrip
mod Tests
use react_native_webassembly.Common.{
  ℕ, zero, suc, ◌+◌, ◌-◌, Bool, true, false, ◌&&◌, ◌||◌, not, Option, none, some, List, [], ◌∷◌,
  ◌++◌, ltb, leb, ◌==◌, if◌then◌else◌, length, get_elem?,
}
use react_native_webassembly.Results.{
  Result, ok, err, ◌>>=◌, ◌>>◌, throwif, and_then, too_many_args_rets, malformed_function_signature,
  unknown_argument_type_char, return_count_overflow, arg_count_overflow,
  function_signature_mismatch, module_not_linked, function_lookup_failed, null_pointer,
}
use react_native_webassembly.Core.Read.{Bytes}
use react_native_webassembly.Core.ValueType.{
  type_none, type_i32, type_i64, type_f32, type_f64, type_unknown,
}
use react_native_webassembly.Runtime.{FuncType, Environment}
use react_native_webassembly.FuncTypes.{are_func_types_equal, deref}
use react_native_webassembly.Module.{Module, Function}
use react_native_webassembly.Parse.Types.{max_sane_function_arg_ret_count}
use react_native_webassembly.Load.Globals.{is_named}

-- '(', ')' and ' '
abbrev pub open_paren : ℕ
open_paren = 0x28

abbrev pub close_paren : ℕ
close_paren = 0x29

abbrev pub space : ℕ
space = 0x20

-- `ConvertTypeCharToTypeId`: 'v', 'i', 'I', 'f', 'F' and '*'.
unfoldable pub convert_type_char_to_type_id : ℕ → ℕ
convert_type_char_to_type_id code =
    if code == 0x76
    then type_none
    else if code == 0x69
    then type_i32
    else if code == 0x49
    then type_i64
    else if code == 0x66
    then type_f32
    else if code == 0x46
    then type_f64
    else if code == 0x2a
    then type_i32
    else type_unknown

-- The signature with one more result, or one more argument; the list of the types grows at its end.
abbrev pub add_ret : FuncType → ℕ → FuncType
add_ret t type = record t { num_rets = t.num_rets + 1; types = t.types ++ (type ∷ []) }

abbrev pub add_arg : FuncType → ℕ → FuncType
add_arg t type = record t { num_args = t.num_args + 1; types = t.types ++ (type ∷ []) }

-- A character that stands for a type.
unfoldable pub add_type : ℕ → Bool → FuncType → ℕ → Result FuncType
unfolding convert_type_char_to_type_id
add_type max_num_types parsing_rets t type_char =
    let type = convert_type_char_to_type_id type_char in
    if type == type_unknown
    then err unknown_argument_type_char
    else if type == type_none
    then ok t
    else if parsing_rets
    then (if leb max_num_types t.num_rets then err return_count_overflow else ok (add_ret t type))
    else if leb max_num_types (t.num_rets + t.num_args)
    then err arg_count_overflow
    else ok (add_arg t type)

-- The loop of `SignatureToFuncType`.
unfoldable pub parse_signature : ℕ → Bool → FuncType → List ℕ → Result FuncType
unfolding add_type
parse_signature max_num_types parsing_rets t [] = ok t
parse_signature max_num_types parsing_rets t (type_char ∷ sig) = elim (type_char == open_paren) [
  | true ↦ parse_signature max_num_types false t sig
  | false ↦ elim (type_char == space) [
    | true ↦ parse_signature max_num_types parsing_rets t sig
    | false ↦ elim (type_char == close_paren) [
      | true ↦ ok t
      | false ↦ add_type max_num_types parsing_rets t type_char >>= λ t'.
          parse_signature max_num_types parsing_rets t' sig
    ]
  ]
]

abbrev pub no_types : FuncType
no_types = record { num_rets = 0; num_args = 0; types = [] }

-- `SignatureToFuncType`, where memory is there and neither pointer is NULL.
unfoldable pub signature_to_func_type : List ℕ → Result FuncType
unfolding parse_signature
signature_to_func_type signature = do
  throwif malformed_function_signature (ltb (length signature) 2)
  throwif too_many_args_rets (ltb max_sane_function_arg_ret_count (length signature - 2))
  parse_signature (length signature - 2) true no_types signature

-- `ValidateSignature`, for the signature of the function.
unfoldable pub validate_signature : FuncType → List ℕ → Result (Unit {0})
unfolding signature_to_func_type are_func_types_equal
validate_signature func_type signature = do
  ftype ← signature_to_func_type signature
  throwif function_signature_mismatch (not (are_func_types_equal ftype func_type))

-- "*"
abbrev pub wildcard : Bytes
wildcard = 0x2a ∷ []

-- An import with this field, of this module or of any.
unfoldable pub is_import_of : Bytes → Bytes → Function → Bool
unfolding is_named
is_import_of module_name function_name f = elim f.import.module_utf8 [
  | none ↦ false
  | some module_utf8 ↦
      is_named function_name f.import.field_utf8
      && (is_named wildcard (some module_name) || is_named module_name (some module_utf8))
]

-- `ValidateSignature`, where there is a signature string.
unfoldable pub validate_link : Environment → Option (List ℕ) → Function → Result (Unit {0})
unfolding validate_signature deref
validate_link env none f = ok tt
validate_link env (some signature) f = elim f.func_type [
  | none ↦ err null_pointer
  | some ref ↦ elim (deref env.func_types ref) [
    | none ↦ err null_pointer
    | some func_type ↦ validate_signature func_type signature
  ]
]

-- `compile_raw` stands for `CompileRawFunction` of cpp/m3_compile.c, which compiles the call of the
-- host function into the function at an index.
module _ (compile_raw : Module → ℕ → Module × Result (Unit {0})) (env : Environment)
    (module_name function_name : Bytes) (signature : Option (List ℕ)) where
  -- The loop of `FindAndLinkFunction`, from function `i` on: `found` says whether one was linked.
  unfoldable pub link_from : ℕ → ℕ → Bool → Module → Module × Result (Unit {0})
  unfolding is_import_of validate_link
  link_from zero i found m = (m, if found then ok tt else err function_lookup_failed)
  link_from (suc n) i found m = elim (get_elem? m.functions i) [
    | none ↦ (m, err null_pointer)
    | some f ↦ elim (is_import_of module_name function_name f) [
      | false ↦ link_from n (suc i) found m
      | true ↦ and_then m (validate_link env signature f) (λ u.
          let (m', result) = compile_raw m i in
          and_then m' result (λ u. link_from n (suc i) true m'))
    ]
  ]

  -- `FindAndLinkFunction`; `linked` says whether the module has a runtime.
  unfoldable pub find_and_link_function : Bool → Module → Module × Result (Unit {0})
  unfolding link_from
  find_and_link_function false m = (m, err module_not_linked)
  find_and_link_function true m = link_from m.num_functions 0 false m
