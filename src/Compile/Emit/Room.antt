-- ===== src/Compile/Emit/Room.antt =====
-- cpp/m3_compile.c, `EmitOp`: room in the code page.
use react_native_webassembly.Common.{
  ℕ, suc, ◌+◌, ◌≤◌, ◌≡◌, sym, subst, arith, List, [], ◌∷◌, length, Option, none, some, ltb, u32,
  if-by,
}
use react_native_webassembly.Results.{ok, err}
use react_native_webassembly.Runtime.{CodePage, Runtime}
use react_native_webassembly.CodePages.{num_free_lines, emit_word, free_lines_threshold}
use react_native_webassembly.CodePages.Capacity.{HasRoom, acquire_code_page_with_capacity-HasRoom}
use react_native_webassembly.Compile.State.{Compilation, Then, then_ok, then_err}
use react_native_webassembly.Compile.Emit.{
  Operation, Target, Emitted, bridge, ensure_code_page_num_lines, then_word, emit_into, emit_op,
  word_into,
}

-- A page with that much room, where no error came.
abbrev Roomy : ℕ → Emitted → Type 0
Roomy n (rt, page, ok _) = n ≤ num_free_lines page
Roomy n (rt, page, err e) = Unit

bridge-Roomy :
    (target : Target) (page : CodePage) (n : ℕ) (acquired : Option CodePage × Runtime)
    → HasRoom n acquired.0
    → Roomy n (bridge target page acquired)
bridge-Roomy target page n (none, rt) h = tt
bridge-Roomy target page n (some new, rt) h = h

ensure_code_page_num_lines-Roomy :
    (target : Target) (n : ℕ) (rt : Runtime) (page : CodePage)
    → Roomy (u32 (n + 2)) (ensure_code_page_num_lines target n rt page)
unfolding ensure_code_page_num_lines
ensure_code_page_num_lines-Roomy target n rt page =
    if-by (Roomy (u32 (n + 2))) (ltb (num_free_lines page) (u32 (n + 2)))
      (λ low.
        bridge-Roomy target page (u32 (n + 2)) _
          (acquire_code_page_with_capacity-HasRoom (target.allocated rt) rt (u32 (n + 2))))
      (λ room. ground arith)

then_word-Roomy :
    (target : Target) (word n : ℕ) (emitted : Emitted)
    → Roomy (suc n) emitted
    → Roomy n (then_word target word emitted)
unfolding num_free_lines emit_word
then_word-Roomy target word n (rt, page, ok done) h = omega arith
then_word-Roomy target word n (rt, page, err e) h = tt

-- The words that follow an operation.
abbrev pub emit_words : List ℕ → Option CodePage → Option CodePage
emit_words [] page = page
emit_words (word ∷ words) page = emit_words words (word_into word page)

emit_words-HasRoom :
    (words : List ℕ) (n : ℕ) (page : Option CodePage)
    → HasRoom (length words + n) page
    → HasRoom n (emit_words words page)
unfolding num_free_lines emit_word
emit_words-HasRoom [] n page h = let same : 0 + n ≡ n = omega arith in rw same at h
emit_words-HasRoom (word ∷ words) n none h = emit_words-HasRoom words n none (tt)
emit_words-HasRoom (word ∷ words) n (some page) h =
    emit_words-HasRoom words n (some (emit_word page word)) (omega arith)

Roomy-HasRoom :
    (n : ℕ) (words : List ℕ) (o : Compilation) (emitted : Emitted)
    → length words + n ≤ 7
    → Roomy 7 emitted
    → Then
        (λ p _. HasRoom n (emit_words words p.page))
        (record o { runtime = emitted.0; page = some emitted.1 }, emitted.2)
Roomy-HasRoom n words o (rt, page, ok done) few h =
    then_ok (emit_words-HasRoom words n (some page) (omega arith))
Roomy-HasRoom n words o (rt, page, err e) few h = then_err

-- Where `EmitOp` succeeds and a page is open, up to five words may follow the operation and the page
-- still has the two lines that a bridge to another page takes.
pub emit_op-HasRoom :
    (target : Target) (operation : Operation) (o : Compilation) (words : List ℕ) {page : CodePage}
    → o.page ≡ some page
    → length words ≤ 5
    → Then (λ p _. HasRoom 2 (emit_words words p.page)) (emit_op target operation o)
unfolding emit_op
emit_op-HasRoom target operation o words {page} emits few =
    subst
      (λ m.
        Then (λ (p : Compilation) (_ : Unit {0}). HasRoom 2 (emit_words words p.page))
          (let (rt, page', done) = emit_into target operation o.runtime m in
            (record o { runtime = rt; page = page' }, done)))
      (sym emits)
      (Roomy-HasRoom 2 words o _ (omega arith) (
        then_word-Roomy target (target.word_of operation) 7
          (ensure_code_page_num_lines target free_lines_threshold o.runtime page)
          (ensure_code_page_num_lines-Roomy target free_lines_threshold o.runtime page)))
