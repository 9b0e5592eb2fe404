-- ===== src/CodePages.antt =====
-- cpp/m3_code.c and the page lists of cpp/m3_env.c: pages of metacode, and who holds them.
pub mod Capacity
pub mod Accounting
mod Tests
use react_native_webassembly.Common.{
  get_or, ℕ, suc, ◌+◌, ◌-◌, ◌*◌, ◌/◌, ◌^◌, Bool, Option, none, some, List, [], ◌∷◌, ◌++◌, map, ltb,
  leb, ◌==◌, if◌then◌else◌, set, length, replicate, u32,
}
use react_native_webassembly.Runtime.{CodePage, Environment, Runtime}

-- d_m3CodePageAlignSize, sizeof (M3CodePageHeader), sizeof (code_t),
-- d_m3CodePageFreeLinesThreshold, UINT_MAX
abbrev pub align_size : ℕ
align_size = 32 * 1024

abbrev pub page_header_size : ℕ
page_header_size = 24

abbrev pub code_size : ℕ
code_size = 8

abbrev pub free_lines_threshold : ℕ
free_lines_threshold = 4 + 2

abbrev pub uint_max : ℕ
uint_max = 2 ^ 32 - 1

-- The size of a page for that many lines, before and after `& ~(d_m3CodePageAlignSize-1)`, which
-- clears the bits below the alignment.
abbrev pub raw_page_size : ℕ → ℕ
raw_page_size min_num_lines = u32 (page_header_size + code_size * min_num_lines)

abbrev pub aligned_page_size : ℕ → ℕ
aligned_page_size size = u32 (size + (align_size - 1)) / align_size * align_size

abbrev pub new_page : Runtime → ℕ → CodePage × Runtime
new_page rt page_size =
    let sequence = u32 (rt.new_code_page_sequence + 1) in
    let num_lines = (page_size - page_header_size) / code_size in
    (
      record {
        sequence = sequence;
        line_index = 0;
        num_lines = num_lines;
        code = replicate num_lines 0;
      },
      record rt { new_code_page_sequence = sequence },
    )

-- `NewCodePage`; `allocated` is whether `m3_Malloc` gives memory.
unfoldable pub new_code_page : Bool → Runtime → ℕ → Option CodePage × Runtime
new_code_page allocated rt min_num_lines =
    let size = raw_page_size min_num_lines in
    let page_size = aligned_page_size size in
    let (page, rt') = new_page rt page_size in
    if ltb (uint_max / code_size) min_num_lines
    then (none, rt)
    else if ltb size page_header_size
    then (none, rt)
    else if page_size == 0
    then (none, rt)
    else if allocated
    then (some page, rt')
    else (none, rt)

-- `NumFreeLines`
unfoldable pub num_free_lines : CodePage → ℕ
num_free_lines page = page.num_lines - page.line_index

-- `EmitWord_impl` and `EmitWord64`, on a target with 64-bit pointers.
unfoldable pub emit_word : CodePage → ℕ → CodePage
emit_word page word = record page {
  code = set page.code page.line_index word;
  line_index = page.line_index + 1;
}

-- `EmitWord32` writes the low half of the line.
unfoldable pub emit_word32 : CodePage → ℕ → CodePage
unfolding emit_word
emit_word32 page word =
    emit_word page (get_or page.code page.line_index 0 / 2 ^ 32 * 2 ^ 32 + u32 word)

-- `RemoveCodePageOfCapacity`: the first page with room, and the list without it.
unfoldable pub remove_code_page_of_capacity : List CodePage → ℕ → Option CodePage × List CodePage
unfolding num_free_lines
remove_code_page_of_capacity [] min_line_count = (none, [])
remove_code_page_of_capacity (page ∷ pages) min_line_count =
    let (found, rest) = remove_code_page_of_capacity pages min_line_count in
    if leb min_line_count (num_free_lines page) then (some page, pages) else (found, page ∷ rest)

-- `Environment_AcquireCodePage`
unfoldable pub environment_acquire_code_page : Environment → ℕ → Option CodePage × Environment
unfolding remove_code_page_of_capacity
environment_acquire_code_page env min_line_count =
    let (page, pages) = remove_code_page_of_capacity env.pages_released min_line_count in
    (page, record env { pages_released = pages })

abbrev pub reset_page : CodePage → CodePage
reset_page page = record page { line_index = 0 }

-- `Environment_ReleaseCodePages`: the pages are reset, and stand in front of the released ones.
unfoldable pub environment_release_code_pages : Environment → List CodePage → Environment
environment_release_code_pages env pages = record env {
  pages_released = map reset_page pages ++ env.pages_released;
}

abbrev pub count_page : Option CodePage × Runtime → Option CodePage × Runtime
count_page (none, rt) = (none, rt)
count_page (some page, rt) = (some page, record rt { num_code_pages = u32 (rt.num_code_pages + 1) })

-- A page that the environment has, or else a new one.
abbrev pub released_or_new : Bool → ℕ → Option CodePage → Runtime → Option CodePage × Runtime
released_or_new allocated min_line_count (some page) rt = (some page, rt)
released_or_new allocated min_line_count none rt = new_code_page allocated rt min_line_count

-- The page that `AcquireCodePageWithCapacity` finds where no open page has room.
unfoldable pub fetch_code_page : Bool → Runtime → ℕ → Option CodePage × Runtime
unfolding environment_acquire_code_page new_code_page
fetch_code_page allocated rt min_line_count =
    let (released, env) = environment_acquire_code_page rt.environment min_line_count in
    count_page (released_or_new allocated min_line_count released (record rt { environment = env }))

abbrev pub activate : Option CodePage × Runtime → Option CodePage × Runtime
activate (none, rt) = (none, rt)
activate (some page, rt) =
    (some page, record rt { num_active_code_pages = u32 (rt.num_active_code_pages + 1) })

-- `AcquireCodePageWithCapacity`
unfoldable pub acquire_code_page_with_capacity : Bool → Runtime → ℕ → Option CodePage × Runtime
unfolding remove_code_page_of_capacity fetch_code_page
acquire_code_page_with_capacity allocated rt min_line_count =
    let (found, pages) = remove_code_page_of_capacity rt.pages_open min_line_count in
    activate (elim found [
      | some page ↦ (some page, record rt { pages_open = pages })
      | none ↦ fetch_code_page allocated rt min_line_count
    ])

-- `AcquireCodePage`
unfoldable pub acquire_code_page : Bool → Runtime → Option CodePage × Runtime
unfolding acquire_code_page_with_capacity
acquire_code_page allocated rt = acquire_code_page_with_capacity allocated rt free_lines_threshold

-- `ReleaseCodePageNoTrack`, for a page that is not NULL.
unfoldable pub release_code_page_no_track : Runtime → CodePage → Runtime
unfolding num_free_lines
release_code_page_no_track rt page =
    if ltb (num_free_lines page) free_lines_threshold
    then record rt { pages_full = page ∷ rt.pages_full }
    else record rt { pages_open = page ∷ rt.pages_open }

-- `ReleaseCodePage`
unfoldable pub release_code_page : Runtime → Option CodePage → Runtime
unfolding release_code_page_no_track
release_code_page rt none = rt
release_code_page rt (some page) =
    let rt' = release_code_page_no_track rt page in
    record rt' { num_active_code_pages = u32 (rt'.num_active_code_pages + (2 ^ 32 - 1)) }
