-- ===== src/Core/Leb.antt =====
-- cpp/m3_core.c, the LEB128 readers. They write their value and advance `* io_bytes` whatever they
-- return, so a read has all three; signed values are their bit patterns.
pub mod Groups
pub mod Unsigned
pub mod Signed
pub mod Bounds
mod Tests
use react_native_webassembly.Common.{
  ℕ, ◌+◌, ◌-◌, ◌^◌, bit_and, bit_or, List, [], ◌∷◌, none, some, ◌&&◌, not, ltb, leb, ◌==◌,
  if◌then◌else◌, u8, u32, u64, ◌<<<◌,
}
use react_native_webassembly.Results.{Status, Result, checked, wasm_underrun, leb_overflow}
use react_native_webassembly.Core.Read.{Bytes}

pub record LebRead : Type 0 where
  pub result : Status
  pub value : ℕ
  pub rest : Bytes

abbrev pub leb_read : Status → ℕ → Bytes → LebRead
leb_read result value rest = record { result = result; value = value; rest = rest }

-- `value |= ((byte & 0x7f) << shift)`
abbrev pub add_group : ℕ → ℕ → ℕ → ℕ
add_group value byte shift = bit_or value (u64 (bit_and byte 0x7f <<< shift))

unfoldable pub leb_unsigned_loop : ℕ → Bytes → ℕ → ℕ → LebRead
leb_unsigned_loop max_num_bits [] value shift = leb_read (some wasm_underrun) value []
leb_unsigned_loop max_num_bits (byte ∷ bytes) value shift =
    let value' = add_group value byte shift in
    let shift' = shift + 7 in
    let more = leb_unsigned_loop max_num_bits bytes value' shift' in
    if bit_and byte 0x80 == 0
    then leb_read none value' bytes
    else if leb max_num_bits shift'
    then leb_read (some leb_overflow) value' bytes
    else more

-- `ReadLebUnsigned`
unfoldable pub read_leb_unsigned : ℕ → Bytes → LebRead
unfolding leb_unsigned_loop
read_leb_unsigned max_num_bits bytes = leb_unsigned_loop max_num_bits bytes 0 0

-- `value |= (~extend << shift)` where the last byte has its sign bit set.
abbrev pub sign_extend : ℕ → ℕ → ℕ → ℕ
sign_extend value byte shift =
    if not (bit_and byte 0x40 == 0) && ltb shift 64
    then bit_or value (u64 ((2 ^ 64 - 1) <<< shift))
    else value

unfoldable pub leb_signed_loop : ℕ → Bytes → ℕ → ℕ → LebRead
leb_signed_loop max_num_bits [] value shift = leb_read (some wasm_underrun) value []
leb_signed_loop max_num_bits (byte ∷ bytes) value shift =
    let value' = add_group value byte shift in
    let shift' = shift + 7 in
    let more = leb_signed_loop max_num_bits bytes value' shift' in
    if bit_and byte 0x80 == 0
    then leb_read none (sign_extend value' byte shift') bytes
    else if leb max_num_bits shift'
    then leb_read (some leb_overflow) value' bytes
    else more

-- `ReadLebSigned`
unfoldable pub read_leb_signed : ℕ → Bytes → LebRead
unfolding leb_signed_loop
read_leb_signed max_num_bits bytes = leb_signed_loop max_num_bits bytes 0 0

-- The cast of the value that `ReadLEB_u32` and the others make.
abbrev pub cast_value : (ℕ → ℕ) → LebRead → LebRead
cast_value cast r = record r { value = cast r.value }

-- `ReadLEB_u32`
unfoldable pub read_leb_u32 : Bytes → LebRead
unfolding read_leb_unsigned
read_leb_u32 bytes = cast_value u32 (read_leb_unsigned 32 bytes)

-- `ReadLEB_u7`
unfoldable pub read_leb_u7 : Bytes → LebRead
unfolding read_leb_unsigned
read_leb_u7 bytes = cast_value u8 (read_leb_unsigned 7 bytes)

-- `ReadLEB_i7`
unfoldable pub read_leb_i7 : Bytes → LebRead
unfolding read_leb_signed
read_leb_i7 bytes = cast_value u8 (read_leb_signed 7 bytes)

-- `ReadLEB_i32`
unfoldable pub read_leb_i32 : Bytes → LebRead
unfolding read_leb_signed
read_leb_i32 bytes = cast_value u32 (read_leb_signed 32 bytes)

-- `ReadLEB_i64`
unfoldable pub read_leb_i64 : Bytes → LebRead
unfolding read_leb_signed
read_leb_i64 bytes = read_leb_signed 64 bytes

-- A read inside `_ (…)`: the value and the rest, or the error.
abbrev pub try_leb : LebRead → Result (ℕ × Bytes)
try_leb r = checked r.result (r.value, r.rest)
