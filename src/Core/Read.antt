-- ===== src/Core/Read.antt =====
-- cpp/m3_core.c, the fixed-width readers. A pair of pointers `io_bytes`, `i_end` is the list of the
-- bytes between them; what a reader leaves in `* io_bytes` is the list that it returns.
use react_native_webassembly.Common.{
  ℕ, ◌+◌, ◌*◌, ◌^◌, ◌<◌, List, [], ◌∷◌, leb, length, take, drop, if◌then◌else◌,
}
use react_native_webassembly.Results.{Result, ok, err, wasm_underrun}

abbrev pub Bytes : Type 0
Bytes = List ℕ

abbrev pub IsByte : ℕ → Type 0
IsByte b = b < 256

-- A little-endian word: what `memcpy` into an integer gives on the targets.
unfoldable pub little_endian : Bytes → ℕ
little_endian [] = 0
little_endian (b ∷ bs) = b + 2 ^ 8 * little_endian bs

-- `Read_u8`
unfoldable pub read_u8 : Bytes → Result (ℕ × Bytes)
read_u8 [] = err wasm_underrun
read_u8 (b ∷ bs) = ok (b, bs)

-- `Read_u32`
unfoldable pub read_u32 : Bytes → Result (ℕ × Bytes)
unfolding little_endian
read_u32 bytes =
    if leb 4 (length bytes)
    then ok (little_endian (take 4 bytes), drop 4 bytes)
    else err wasm_underrun

-- `Read_u64`
unfoldable pub read_u64 : Bytes → Result (ℕ × Bytes)
unfolding little_endian
read_u64 bytes =
    if leb 8 (length bytes)
    then ok (little_endian (take 8 bytes), drop 8 bytes)
    else err wasm_underrun
