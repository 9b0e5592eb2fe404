-- ===== src/Load/Globals.antt =====
-- cpp/m3_env.c, finding and setting globals and finding functions by name: `m3_FindGlobal`,
-- `m3_GetGlobal`, `m3_SetGlobal` and `v_FindFunction`. A pointer to a global or a function is its
-- index.
pub mod Names
pub mod Search
use react_native_webassembly.Common.{
  ℕ, zero, suc, ◌+◌, ◌*◌, ◌/◌, ◌%◌, ◌^◌, Bool, true, false, ◌&&◌, ◌||◌, not, Option, none, some,
  List, [], ◌∷◌, ◌==◌, if◌then◌else◌, take, u32,
}
use react_native_webassembly.Results.{
  Result, ok, err, global_lookup_failed, global_type_mismatch, invalid_type_id,
}
use react_native_webassembly.Core.Read.{Bytes}
use react_native_webassembly.Core.Utf8.{c_string}
use react_native_webassembly.Core.ValueType.{type_i32, type_i64, type_f32, type_f64, type_none}
use react_native_webassembly.FuncTypes.{bytes_equal}
use react_native_webassembly.Module.{Module, Function, Global}

-- `s and strcmp (s, name) == 0`
unfoldable pub is_named : Bytes → Option Bytes → Bool
unfolding bytes_equal
is_named name none = false
is_named name (some s) = bytes_equal (c_string s) (c_string name)

abbrev pub is_some : Option Bytes → Bool
is_some none = false
is_some (some s) = true

-- The index of the first element that passes a test.
abbrev pub find_first {ℓ} : {A : Type ℓ} → (A → Bool) → List A → Option ℕ
find_first test [] = none
find_first test (x ∷ xs) = elim (test x) [
  | true ↦ some 0
  | false ↦ elim (find_first test xs) [ none ↦ none | some i ↦ some (suc i) ]
]

abbrev pub first_or : Option ℕ → Option ℕ → Option ℕ
first_or (some i) later = some i
first_or none later = later

abbrev pub imported_as : Bytes → Global → Bool
imported_as name g = is_some g.import.module_utf8 && is_named name g.import.field_utf8

-- `m3_FindGlobal`: the exports, then the imports.
unfoldable pub find_global : Module → Bytes → Option ℕ
unfolding is_named
find_global m name =
    first_or (find_first (λ (g : Global). is_named name g.name) m.globals)
      (find_first (imported_as name) m.globals)

abbrev pub any_named : Bytes → List (Option Bytes) → Bool
any_named name [] = false
any_named name (n ∷ names) = is_named name n || any_named name names

-- A function that is not imported has the name.
abbrev pub internal_as : Bytes → Function → Bool
internal_as name f =
    not (is_some f.import.module_utf8 || is_some f.import.field_utf8) && any_named name f.names

-- `v_FindFunction`: the exported functions, then the internal ones.
unfoldable pub find_function : Module → Bytes → Option ℕ
unfolding is_named
find_function m name =
    let functions = take m.num_functions m.functions in
    first_or (find_first (λ (f : Function). is_named name f.export_name) functions)
      (find_first (internal_as name) functions)

-- `M3TaggedValue`: the type, and the bits that the union holds.
pub record TaggedValue : Type 0 where
  pub type : ℕ
  pub bits : ℕ

abbrev pub is_32bit : ℕ → Bool
is_32bit type = type == type_i32 || type == type_f32

abbrev pub is_value_type : ℕ → Bool
is_value_type type = is_32bit type || (type == type_i64 || type == type_f64)

-- `m3_GetGlobal`: what it writes to the tagged value.
unfoldable pub get_global : Option Global → Result TaggedValue
get_global none = err global_lookup_failed
get_global (some g) =
    if is_value_type g.type
    then ok (record { type = g.type; bits = if is_32bit g.type then u32 g.value else g.value })
    else err invalid_type_id

-- A write to the low half of the union leaves the high half.
abbrev pub write_bits : ℕ → ℕ → ℕ → ℕ
write_bits type old new = if is_32bit type then old / 2 ^ 32 * 2 ^ 32 + u32 new else new

-- `m3_SetGlobal`: the global after it. Whether it is mutable is not asked.
unfoldable pub set_global : Option Global → TaggedValue → Result Global
set_global none value = err global_lookup_failed
set_global (some g) value =
    if not (g.type == value.type)
    then err global_type_mismatch
    else if is_value_type value.type
    then ok (record g { value = write_bits value.type g.value value.bits })
    else err invalid_type_id

-- `m3_GetGlobalType`
unfoldable pub get_global_type : Option Global → ℕ
get_global_type none = type_none
get_global_type (some g) = g.type
