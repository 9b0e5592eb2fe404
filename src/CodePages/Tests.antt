-- ===== src/CodePages/Tests.antt =====
-- Pages of cpp/m3_code.c at concrete sizes, and the theorems on them at concrete states.
use react_native_webassembly.Common.{ℕ, ◌≡◌, refl, arith, false, none, some, [], ◌∷◌, replicate}
use react_native_webassembly.Runtime.{CodePage, Runtime}
use react_native_webassembly.CodePages.{
  num_free_lines, emit_word, acquire_code_page_with_capacity, release_code_page,
}
use react_native_webassembly.CodePages.Capacity.{HasRoom, acquire_code_page_with_capacity-HasRoom}
use react_native_webassembly.CodePages.Accounting.{
  IsCounted, IsSplit, start, next, acquire, release, PageSteps-keeps,
}

abbrev page : ℕ → ℕ → CodePage
page line_index num_lines = record {
  sequence = 1;
  line_index = line_index;
  num_lines = num_lines;
  code = replicate num_lines 0;
}

abbrev idle : Runtime
idle = record {
  environment = record { func_types = []; pages_released = page 0 4 ∷ page 0 20 ∷ [] };
  pages_open = page 2 10 ∷ [];
  pages_full = page 9 10 ∷ [];
  num_code_pages = 2;
  num_active_code_pages = 0;
  stack = 64;
  num_stack_slots = 1024;
  memory = record {
    mallocated = none;
    num_pages = 0;
    max_pages = 0;
    reservation = none;
    reservation_bytes = 0;
    committed_bytes = 0;
  };
  memory_limit = 0;
  call_depth = 0;
  new_code_page_sequence = 3;
}

skips_small_pages : (acquire_code_page_with_capacity false idle 12).0 ≡ some (page 0 20)
unfolding acquire_code_page_with_capacity
skips_small_pages = refl

no_page_left : (acquire_code_page_with_capacity false idle 30).0 ≡ none
unfolding acquire_code_page_with_capacity
no_page_left = refl

emitted : (emit_word (page 1 3) 7).code ≡ 0 ∷ 7 ∷ 0 ∷ []
unfolding emit_word
emitted = refl

idle-IsCounted : IsCounted idle
idle-IsCounted = refl

idle-IsSplit : IsSplit idle
unfolding num_free_lines
idle-IsSplit = ground arith

acquire_code_page_with_capacity-HasRoom_example :
    HasRoom 12 (acquire_code_page_with_capacity false idle 12).0
acquire_code_page_with_capacity-HasRoom_example =
    acquire_code_page_with_capacity-HasRoom false idle 12

abbrev acquired_and_released : Runtime
acquired_and_released =
    release_code_page (acquire_code_page_with_capacity false idle 12).1 (some (page 18 20))

PageSteps-keeps_example : IsCounted acquired_and_released × IsSplit acquired_and_released
PageSteps-keeps_example =
    PageSteps-keeps (next (next start (acquire false idle 12)) (release _ (some (page 18 20))))
      idle-IsCounted idle-IsSplit
