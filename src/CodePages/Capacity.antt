-- ===== src/CodePages/Capacity.antt =====
-- The room of the pages that cpp/m3_code.c makes and cpp/m3_env.c hands out.
use react_native_webassembly.Common.{
  ℕ, ◌≤◌, ◌<◌, ◌≡◌, ◌⊎◌, arith, Bool, true, Option, none, some, List, [], ◌∷◌, inl, inr,
}
use native.Mathlib.Decide.{dec_le}
use react_native_webassembly.Runtime.{CodePage, Runtime}
use react_native_webassembly.CodePages.{
  new_page, raw_page_size, aligned_page_size, new_code_page, num_free_lines,
  remove_code_page_of_capacity, environment_acquire_code_page, acquire_code_page_with_capacity,
}

-- The most lines of a page whose aligned size fits 32 bits.
abbrev pub most_lines : ℕ
most_lines = 536866813

-- While memory is there, a new page fails exactly for more lines than 32 bits can size; up to there
-- it has at least the lines that were asked for, all of them free.
pub new_code_page_room :
    (rt : Runtime) (min_num_lines : ℕ)
    → ((min_num_lines ≤ most_lines)
        × ((page : CodePage) × ((new_code_page true rt min_num_lines).0 ≡ some page)
            × (min_num_lines ≤ num_free_lines page)))
      ⊎ ((most_lines < min_num_lines) × (new_code_page true rt min_num_lines ≡ (none, rt)))
unfolding new_code_page num_free_lines
new_code_page_room rt n = elim (dec_le n most_lines) [
  | yes h ↦
      inl (h, ((new_page rt (aligned_page_size (raw_page_size n))).0, ground arith, omega arith))
  | no h ↦ inr (omega arith, ground arith)
]

-- Every page that is not `none` has the room.
abbrev pub HasRoom : ℕ → Option CodePage → Type 0
HasRoom n none = Unit {0}
HasRoom n (some page) = n ≤ num_free_lines page

remove_code_page_of_capacity-HasRoom :
    (pages : List CodePage) (n : ℕ) → HasRoom n (remove_code_page_of_capacity pages n).0
unfolding remove_code_page_of_capacity
remove_code_page_of_capacity-HasRoom [] n = tt
remove_code_page_of_capacity-HasRoom (page ∷ pages) n =
    ground (arith, remove_code_page_of_capacity-HasRoom pages n)

new_code_page-HasRoom :
    (allocated : Bool) (rt : Runtime) (n : ℕ) → HasRoom n (new_code_page allocated rt n).0
unfolding new_code_page num_free_lines
new_code_page-HasRoom allocated rt n = ground arith

-- A page that is handed out has the room that was asked for, wherever it comes from.
pub acquire_code_page_with_capacity-HasRoom :
    (allocated : Bool) (rt : Runtime) (n : ℕ)
    → HasRoom n (acquire_code_page_with_capacity allocated rt n).0
unfolding acquire_code_page_with_capacity
acquire_code_page_with_capacity-HasRoom allocated rt n = ground (
  arith,
  remove_code_page_of_capacity-HasRoom rt.pages_open n,
  remove_code_page_of_capacity-HasRoom rt.environment.pages_released n,
  new_code_page-HasRoom allocated
      (record rt { environment = (environment_acquire_code_page rt.environment n).1 }) n,
)
