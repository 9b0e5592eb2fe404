-- ===== src/Parse/Sections.antt =====
-- cpp/m3_parse.c, `ParseModuleSection` and `m3_ParseModule`. The environment is changed by the
-- type section and stays changed when the module is refused.
use react_native_webassembly.Common.{
  ℕ, zero, suc, ◌+◌, List, [], ◌∷◌, not, ltb, leb, ◌==◌, if◌then◌else◌, length, take, drop,
}
use react_native_webassembly.Results.{
  Result, ok, err, ◌>>=◌, ◌>>◌, throwif, and_then, wasm_malformed, incompatible_wasm_version,
  misordered_wasm_section, past_the_array,
}
use react_native_webassembly.Core.Read.{Bytes, read_u32}
use react_native_webassembly.Core.Leb.{read_leb_u32, read_leb_u7, try_leb}
use react_native_webassembly.Runtime.{Environment}
use react_native_webassembly.Module.{Module, new_module}
use react_native_webassembly.Parse.Types.{parse_section_type}
use react_native_webassembly.Parse.Functions.{
  parse_section_function, parse_section_export, parse_section_start, parse_section_code,
}
use react_native_webassembly.Parse.Imports.{parse_section_import}
use react_native_webassembly.Parse.Data.{
  parse_section_memory, parse_section_global, parse_section_element, parse_section_data,
}
use react_native_webassembly.Parse.Names.{parse_section_custom}

-- `sectionsOrder`; the last element is a placeholder.
abbrev pub sections_order : List ℕ
sections_order = 1 ∷ 2 ∷ 3 ∷ 4 ∷ 5 ∷ 6 ∷ 7 ∷ 8 ∷ 9 ∷ 12 ∷ 10 ∷ 11 ∷ 0 ∷ []

-- The loop that looks for a section from `expected` on: `order` is the rest of the array, and a
-- read behind it is `past_the_array`.
unfoldable pub find_section : List ℕ → ℕ → ℕ → Result ℕ
find_section [] expected section = err past_the_array
find_section (o ∷ order) expected section =
    let more = find_section order (expected + 1) section in
    if o == section
    then ok (expected + 1)
    else if leb 12 (expected + 1)
    then err misordered_wasm_section
    else more

-- The next expected section: a custom section stands anywhere.
unfoldable pub expect_section : ℕ → ℕ → Result ℕ
unfolding find_section
expect_section expected section =
    if section == 0
    then ok expected
    else find_section (drop expected sections_order) expected section

-- The head of a section: its type, the next expected one, its payload and what follows.
unfoldable pub parse_section_header : ℕ → Bytes → Result (ℕ × ℕ × Bytes × Bytes)
unfolding read_leb_u7 read_leb_u32 expect_section
parse_section_header expected pos = do
  (section, pos) ← try_leb (read_leb_u7 pos)
  expected ← expect_section expected section
  (section_length, pos) ← try_leb (read_leb_u32 pos)
  throwif wasm_malformed (ltb (length pos) section_length)
  ok (section, expected, take section_length pos, drop section_length pos)

-- The magic number and the version, and what follows.
unfoldable pub parse_preamble : Bytes → Result Bytes
unfolding read_u32
parse_preamble bytes = do
  (magic, pos) ← read_u32 bytes
  (version, pos) ← read_u32 pos
  throwif wasm_malformed (not (magic == 0x6d736100))
  throwif incompatible_wasm_version (not (version == 1))
  ok pos

module _ (walk : Bytes → Result Bytes) where
  -- `ParseModuleSection`
  unfoldable pub parse_module_section :
      Environment → Module → ℕ → Bytes → Environment × Result Module
  unfolding parse_section_custom parse_section_type parse_section_import parse_section_function
      parse_section_memory parse_section_global parse_section_export parse_section_start
      parse_section_element parse_section_code parse_section_data
  parse_module_section env m section_type bytes =
      if section_type == 0
      then (env, parse_section_custom m bytes)
      else if section_type == 1
      then parse_section_type env m bytes
      else if section_type == 2
      then (env, parse_section_import m bytes)
      else if section_type == 3
      then (env, parse_section_function m bytes)
      else if section_type == 5
      then (env, parse_section_memory m bytes)
      else if section_type == 6
      then (env, parse_section_global walk m bytes)
      else if section_type == 7
      then (env, parse_section_export m bytes)
      else if section_type == 8
      then (env, parse_section_start m bytes)
      else if section_type == 9
      then (env, parse_section_element m bytes)
      else if section_type == 10
      then (env, parse_section_code m bytes)
      else if section_type == 11
      then (env, parse_section_data walk m bytes)
      else (env, ok m)

  -- The loop of `m3_ParseModule`; a round takes a byte or more, so the length is fuel enough.
  unfoldable pub parse_sections : ℕ → Environment → Module → ℕ → Bytes → Environment × Result Module
  unfolding parse_section_header parse_module_section
  parse_sections fuel env m expected [] = (env, ok m)
  parse_sections zero env m expected (b ∷ pos) = (env, ok m)
  parse_sections (suc fuel) env m expected (b ∷ pos) =
      and_then env (parse_section_header expected (b ∷ pos)) (λ (section, expected', payload, rest).
        let (env', parsed) = parse_module_section env m section payload in
        and_then env' parsed (λ m'. parse_sections fuel env' m' expected' rest))

  -- `m3_ParseModule`, where memory is there.
  unfoldable pub parse_module : Environment → Bytes → Environment × Result Module
  unfolding parse_preamble parse_sections
  parse_module env bytes =
      and_then env (parse_preamble bytes) (λ pos. parse_sections (length pos) env new_module 0 pos)
