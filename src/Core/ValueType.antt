-- ===== src/Core/ValueType.antt =====
-- cpp/m3_core.c, the value types. A type is the u8 that the code stores; a type byte of the binary
-- is the i8 that `ReadLEB_i7` returns, as its bit pattern below 2 ^ 8.
use react_native_webassembly.Common.{
  ℕ, ◌-◌, ◌^◌, Bool, ◌||◌, true, false, ltb, ◌==◌, if◌then◌else◌, u8,
}
use react_native_webassembly.Results.{Result, ok, err, invalid_type_id}

-- enum M3ValueType
abbrev pub type_none : ℕ
type_none = 0

abbrev pub type_i32 : ℕ
type_i32 = 1

abbrev pub type_i64 : ℕ
type_i64 = 2

abbrev pub type_f32 : ℕ
type_f32 = 3

abbrev pub type_f64 : ℕ
type_f64 = 4

abbrev pub type_v128 : ℕ
type_v128 = 5

abbrev pub type_unknown : ℕ
type_unknown = 6

-- `NormalizeType`: `u8 type = -i_convolutedWasmType`.
unfoldable pub normalize_type : ℕ → Result ℕ
normalize_type wasm_type =
    let type = u8 (2 ^ 8 - wasm_type) in
    if type == 0x40
    then ok type_none
    else if ltb type type_i32 || ltb type_v128 type
    then err invalid_type_id
    else ok type

unfoldable pub is_fp_type : ℕ → Bool
is_fp_type t = t == type_f32 || t == type_f64

unfoldable pub is_int_type : ℕ → Bool
is_int_type t = t == type_i32 || t == type_i64

-- Pointers are 8 bytes wide.
unfoldable pub is_64bit_type : ℕ → Bool
is_64bit_type t =
    if t == type_i64 || t == type_f64
    then true
    else if t == type_i32 || (t == type_f32 || t == type_none)
    then false
    else true

-- `SizeOfType`
unfoldable pub size_of_type : ℕ → ℕ
size_of_type t = if t == type_i32 || t == type_f32 then 4 else 8
