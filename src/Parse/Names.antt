-- ===== src/Parse/Names.antt =====
-- cpp/m3_parse.c, the custom sections: `ParseSection_Name` and `ParseSection_Custom`. The library
-- never sets `customSectionHandler`, so a section with another name is passed over.
use react_native_webassembly.Common.{
  ℕ, zero, suc, none, some, [], ◌∷◌, ltb, ◌==◌, if◌then◌else◌, length, drop,
}
use react_native_webassembly.Results.{Result, ok, ◌>>=◌, ◌>>◌, throwif, too_many_names}
use react_native_webassembly.Core.Read.{Bytes}
use react_native_webassembly.Core.Leb.{read_leb_u32, read_leb_u7, try_leb}
use react_native_webassembly.Core.Loop.{for_loop}
use react_native_webassembly.Core.Utf8.{read_utf8, c_string}
use react_native_webassembly.FuncTypes.{bytes_equal}
use react_native_webassembly.Module.{Function, Module, module_get_function, write_function}
use react_native_webassembly.Parse.Functions.{Parsing, max_sane_functions_count}

-- The name is for a function that has none.
unfoldable pub name_function : Bytes → Function → Function
name_function name f = if length f.names == 0 then record f { names = some name ∷ [] } else f

unfoldable pub set_name : Module → ℕ → Bytes → Module
unfolding module_get_function name_function
set_name m index name = elim (module_get_function m index) [
  | none ↦ m
  | some f ↦ write_function m index (name_function name f)
]

-- A round of the loop over the names.
unfoldable pub parse_function_name : Parsing → Result Parsing
unfolding read_leb_u32 read_utf8 set_name
parse_function_name (m, bytes) = do
  (index, bytes) ← try_leb (read_leb_u32 bytes)
  (name, bytes) ← read_utf8 bytes
  ok (set_name m index name, bytes)

-- The payload of a subsection: type 1 holds the names of functions.
unfoldable pub parse_name_payload : ℕ → Module → Bytes → Result Module
unfolding read_leb_u32 parse_function_name
parse_name_payload name_type m bytes = if name_type == 1 then names else ok m
  where
    names : Result Module
    names = do
      (num_names, bytes) ← try_leb (read_leb_u32 bytes)
      throwif too_many_names (ltb max_sane_functions_count num_names)
      (m, rest) ← for_loop (λ i. parse_function_name) num_names 0 (m, bytes)
      ok m

-- The loop of `ParseSection_Name`; a round takes a byte or more, so the length is fuel enough.
unfoldable pub parse_names : ℕ → Module → Bytes → Result Module
unfolding read_leb_u32 read_leb_u7 parse_name_payload
parse_names fuel m [] = ok m
parse_names zero m (b ∷ bytes) = ok m
parse_names (suc fuel) m (b ∷ bytes) = do
  (name_type, payload) ← try_leb (read_leb_u7 (b ∷ bytes))
  (payload_length, start) ← try_leb (read_leb_u32 payload)
  m ← parse_name_payload name_type m start
  parse_names fuel m (drop payload_length start)

-- `ParseSection_Name`
unfoldable pub parse_section_name : Module → Bytes → Result Module
unfolding parse_names
parse_section_name m bytes = parse_names (length bytes) m bytes

-- "name"
abbrev pub name_section : Bytes
name_section = 0x6e ∷ 0x61 ∷ 0x6d ∷ 0x65 ∷ []

-- `ParseSection_Custom`
unfoldable pub parse_section_custom : Module → Bytes → Result Module
unfolding read_utf8 bytes_equal parse_section_name
parse_section_custom m bytes = do
  (name, bytes) ← read_utf8 bytes
  if bytes_equal (c_string name) name_section then parse_section_name m bytes else ok m
