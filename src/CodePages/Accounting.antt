-- ===== src/CodePages/Accounting.antt =====
-- The book-keeping of the pages in cpp/m3_env.c: the count that its debug build asserts, and the
-- split into open and full pages.
use react_native_webassembly.Common.{
  ℕ, ◌+◌, ◌%◌, ◌^◌, ◌≤◌, ◌<◌, ◌≡◌, refl, ap, arith, Bool, Bool-cases, inl, inr, leb, Option, none,
  some, List, [], ◌∷◌, length, All,
}
use mathlib.Core.List.{Perm}
use mathlib.Core.List.Perm
use react_native_webassembly.Runtime.{CodePage, Runtime}
use react_native_webassembly.CodePages.{
  free_lines_threshold, num_free_lines, new_code_page, remove_code_page_of_capacity,
  environment_acquire_code_page, acquire_code_page_with_capacity, release_code_page,
}

-- Taking a page out of a list leaves the others; where there is none the list stays.
abbrev pub Removed : List CodePage → Option CodePage × List CodePage → Type 0
Removed pages (none, rest) = pages ≡ rest
Removed pages (some page, rest) = Perm pages (page ∷ rest)

Removed-cons :
    (page : CodePage) (pages : List CodePage) (found : Option CodePage) (rest : List CodePage)
    → Removed pages (found, rest)
    → Removed (page ∷ pages) (found, page ∷ rest)
Removed-cons page pages none rest h = ap (◌∷◌ page) h
Removed-cons page pages (some found) rest h =
    Perm.trans (Perm.cons page h) (Perm.swap found page rest)

remove_code_page_of_capacity-Removed :
    (pages : List CodePage) (n : ℕ) → Removed pages (remove_code_page_of_capacity pages n)
unfolding remove_code_page_of_capacity
remove_code_page_of_capacity-Removed [] n = refl
remove_code_page_of_capacity-Removed (page ∷ pages) n =
    elim (Bool-cases (leb n (num_free_lines page))) [
      | inl room ↦ rw room (Perm.refl (page ∷ pages))
      | inr full ↦
          rw full (Removed-cons page pages _ _ (remove_code_page_of_capacity-Removed pages n))
    ]

module _ (P : CodePage → Type 0) where
  remove_code_page_of_capacity-All :
      (pages : List CodePage) (n : ℕ) → All P pages → All P (remove_code_page_of_capacity pages n).1
  unfolding remove_code_page_of_capacity
  remove_code_page_of_capacity-All [] n h = tt
  remove_code_page_of_capacity-All (page ∷ pages) n (h, hs) =
      ground (arith, remove_code_page_of_capacity-All pages n hs)

-- How many pages `remove_code_page_of_capacity` takes.
abbrev found_count : Option CodePage → ℕ
found_count none = 0
found_count (some page) = 1

length-remove_code_page_of_capacity :
    (pages : List CodePage) (n : ℕ)
    → let r = remove_code_page_of_capacity pages n in length pages ≡ found_count r.0 + length r.1
unfolding remove_code_page_of_capacity
length-remove_code_page_of_capacity [] n = refl
length-remove_code_page_of_capacity (page ∷ pages) n =
    ground (arith, length-remove_code_page_of_capacity pages n)

-- `numOpen + numFull + numActiveCodePages == numCodePages`, on 32-bit counters.
abbrev pub IsCounted : Runtime → Type 0
IsCounted rt =
    (length rt.pages_open + length rt.pages_full + rt.num_active_code_pages) % 2 ^ 32
    ≡ rt.num_code_pages % 2 ^ 32

-- The open pages have room for an operation, the full ones do not.
pub record IsSplit (rt : Runtime) : Type 0 where
  pub open_room : All (λ page. free_lines_threshold ≤ num_free_lines page) rt.pages_open
  pub full_room : All (λ page. num_free_lines page < free_lines_threshold) rt.pages_full

new_code_page-lists :
    (allocated : Bool) (rt : Runtime) (n : ℕ)
    → let rt' = (new_code_page allocated rt n).1 in
      (rt'.pages_open ≡ rt.pages_open)
      × (rt'.pages_full ≡ rt.pages_full)
      × (rt'.num_code_pages ≡ rt.num_code_pages)
      × (rt'.num_active_code_pages ≡ rt.num_active_code_pages)
unfolding new_code_page
new_code_page-lists allocated rt n = ground arith

module _ (allocated : Bool) (rt : Runtime) (n : ℕ) where
  acquire_code_page_with_capacity-IsCounted :
      IsCounted rt → IsCounted (acquire_code_page_with_capacity allocated rt n).1
  unfolding acquire_code_page_with_capacity
  acquire_code_page_with_capacity-IsCounted h = ground (
    arith,
    length-remove_code_page_of_capacity rt.pages_open n,
    new_code_page-lists allocated
        (record rt { environment = (environment_acquire_code_page rt.environment n).1 }) n,
  )

  acquire_code_page_with_capacity-IsSplit :
      IsSplit rt → IsSplit (acquire_code_page_with_capacity allocated rt n).1
  unfolding acquire_code_page_with_capacity
  acquire_code_page_with_capacity-IsSplit h = ground (
    arith,
    remove_code_page_of_capacity-All (λ page. free_lines_threshold ≤ num_free_lines page)
        rt.pages_open n h.open_room,
    new_code_page-lists allocated
        (record rt { environment = (environment_acquire_code_page rt.environment n).1 }) n,
  )

module _ (rt : Runtime) (page : Option CodePage) where
  release_code_page-IsCounted : IsCounted rt → IsCounted (release_code_page rt page)
  unfolding release_code_page
  release_code_page-IsCounted h = ground arith

  release_code_page-IsSplit : IsSplit rt → IsSplit (release_code_page rt page)
  unfolding release_code_page
  release_code_page-IsSplit h = ground arith

-- What compilation does with pages.
pub data PageStep : Runtime → Runtime → Type 0 where
  acquire :
      (allocated : Bool) (rt : Runtime) (n : ℕ)
      → PageStep rt (acquire_code_page_with_capacity allocated rt n).1
  release : (rt : Runtime) (page : Option CodePage) → PageStep rt (release_code_page rt page)

pub data PageSteps (rt : Runtime) : Runtime → Type 0 where
  start : PageSteps rt rt
  next : {rt' rt'' : Runtime} → PageSteps rt rt' → PageStep rt' rt'' → PageSteps rt rt''

PageStep-keeps :
    {rt rt' : Runtime} → PageStep rt rt' → IsCounted rt × IsSplit rt → IsCounted rt' × IsSplit rt'
PageStep-keeps (acquire allocated rt n) (count, split) = (
  acquire_code_page_with_capacity-IsCounted allocated rt n count,
  acquire_code_page_with_capacity-IsSplit allocated rt n split,
)
PageStep-keeps (release rt page) (count, split) =
    (release_code_page-IsCounted rt page count, release_code_page-IsSplit rt page split)

-- Through any sequence of acquired and released pages the numbers of open, full and active pages
-- add up to the number of pages, as 32-bit counters, and the open pages are those with room for
-- an operation.
pub PageSteps-keeps :
    {rt rt' : Runtime} → PageSteps rt rt' → IsCounted rt → IsSplit rt → IsCounted rt' × IsSplit rt'
PageSteps-keeps start count split = (count, split)
PageSteps-keeps (next steps step) count split =
    PageStep-keeps step (PageSteps-keeps steps count split)
