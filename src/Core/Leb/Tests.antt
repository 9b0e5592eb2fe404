-- ===== src/Core/Leb/Tests.antt =====
-- Concrete reads of cpp/m3_core.c, and the theorems on them at concrete inputs.
use react_native_webassembly.Common.{ℕ, ◌≡◌, refl, arith, true, none, some, List, [], ◌∷◌, ◌++◌}
use react_native_webassembly.Results.{leb_overflow, wasm_underrun}
use react_native_webassembly.Core.Leb.{
  leb_read, read_leb_unsigned, read_leb_signed, read_leb_u32, read_leb_i32, read_leb_i64,
}
use react_native_webassembly.Core.Leb.Groups.{
  group_bytes, encode_unsigned, encode_signed, pattern_of,
}
use react_native_webassembly.Core.Leb.Unsigned.{
  read_leb_unsigned-group_bytes, read_leb_u32-encode_unsigned,
}
use react_native_webassembly.Core.Leb.Signed.{
  read_leb_i64-encode_signed, read_leb_i32-encode_signed,
}
use react_native_webassembly.Core.Leb.Bounds.{continuation, Outcome, read_leb-Outcome}

read_624485 : read_leb_u32 (0xe5 ∷ 0x8e ∷ 0x26 ∷ 7 ∷ []) ≡ leb_read none 624485 (7 ∷ [])
unfolding read_leb_u32
read_624485 = refl

read_minus_123456 : read_leb_i32 (0xc0 ∷ 0xbb ∷ 0x78 ∷ []) ≡ leb_read none 4294843840 []
unfolding read_leb_i32
read_minus_123456 = refl

-- The bits of the fifth byte above bit 31 are dropped without an error.
read_wide : read_leb_u32 (0x81 ∷ 0x80 ∷ 0x80 ∷ 0x80 ∷ 0x7f ∷ []) ≡ leb_read none 4026531841 []
unfolding read_leb_u32
read_wide = refl

read_long :
    read_leb_u32 (0x80 ∷ 0x80 ∷ 0x80 ∷ 0x80 ∷ 0x80 ∷ 0 ∷ [])
    ≡ leb_read (some leb_overflow) 0 (0 ∷ [])
unfolding read_leb_u32
read_long = refl

read_cut : read_leb_u32 (0x81 ∷ []) ≡ leb_read (some wasm_underrun) 1 []
unfolding read_leb_u32
read_cut = refl

read_leb_unsigned-group_bytes_example :
    read_leb_unsigned 32 (group_bytes (1 ∷ 0 ∷ []) 0 ++ 9 ∷ []) ≡ leb_read none 1 (9 ∷ [])
read_leb_unsigned-group_bytes_example =
    read_leb_unsigned-group_bytes 32 (1 ∷ 0 ∷ []) 0 (9 ∷ []) (omega arith) (omega arith)
      (omega arith) (omega arith)

read_leb_u32-encode_unsigned_example :
    read_leb_u32 (encode_unsigned 4 624485 ++ 7 ∷ []) ≡ leb_read none 624485 (7 ∷ [])
read_leb_u32-encode_unsigned_example = read_leb_u32-encode_unsigned 624485 (7 ∷ []) (omega arith)

read_leb_i64-encode_signed_example :
    read_leb_i64 (encode_signed 9 true 123455 ++ []) ≡ leb_read none (pattern_of 64 true 123455) []
read_leb_i64-encode_signed_example = read_leb_i64-encode_signed true 123455 [] (omega arith)

read_leb_i32-encode_signed_example :
    read_leb_i32 (encode_signed 4 true 123455 ++ []) ≡ leb_read none (pattern_of 32 true 123455) []
read_leb_i32-encode_signed_example = read_leb_i32-encode_signed true 123455 [] (omega arith)

read_leb-Outcome_example :
    let cut : List ℕ = 0x81 ∷ [] in
    Outcome 32
      (continuation cut)
      1
      (read_leb_unsigned 32 cut).result
      (read_leb_unsigned 32 cut).rest
    × Outcome 32 (continuation cut) 1 (read_leb_signed 32 cut).result (read_leb_signed 32 cut).rest
read_leb-Outcome_example = read_leb-Outcome 32 (0x81 ∷ []) (omega arith)
