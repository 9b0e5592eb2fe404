-- ===== src/Core/Utf8.antt =====
-- cpp/m3_core.c, `Read_utf8`, where memory is there for the string.
use react_native_webassembly.Common.{ℕ, [], ◌∷◌, leb, length, take, drop, if◌then◌else◌, ◌==◌}
use react_native_webassembly.Results.{Result, ok, err, ◌>>=◌, wasm_underrun, missing_utf8}
use react_native_webassembly.Core.Read.{Bytes}
use react_native_webassembly.Core.Leb.{read_leb_u32, try_leb}

abbrev pub max_sane_utf8_length : ℕ
max_sane_utf8_length = 10000

-- The string and the bytes behind it.
unfoldable pub read_utf8 : Bytes → Result (Bytes × Bytes)
unfolding read_leb_u32
read_utf8 bytes = do
  (size, ptr) ← try_leb (read_leb_u32 bytes)
  if leb size max_sane_utf8_length
      then (if leb size (length ptr) then ok (take size ptr, drop size ptr) else err wasm_underrun)
      else err missing_utf8

-- What `strcmp` and the other string functions see of it: the bytes before the first zero.
abbrev pub c_string : Bytes → Bytes
c_string [] = []
c_string (b ∷ bs) = let more = c_string bs in if b == 0 then [] else b ∷ more
