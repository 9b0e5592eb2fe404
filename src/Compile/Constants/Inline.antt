-- ===== src/Compile/Constants/Inline.antt =====
-- cpp/m3_compile.c, `PushConst`: a constant that the code carries.
use react_native_webassembly.Common.{
  ℕ, ◌-◌, ◌≤◌, ◌<◌, ◌≡◌, refl, sym, ap, ap₂, ◌∙◌, subst, arith, Bool, true, false, Option, some,
  if◌then◌else◌,
}
use react_native_webassembly.Results.{ok, err}
use react_native_webassembly.Runtime.{CodePage}
use react_native_webassembly.Core.ValueType.{is_64bit_type}
use react_native_webassembly.Compile.State.{
  Compilation, Then, then_ok, then_err, Then-continue, Then-weaken, max_function_slots,
}
use react_native_webassembly.Compile.Emit.{
  Operation, Target, Emitted, op_const32, op_const64, ensure_code_page_num_lines, then_word,
  emit_into, word_into, word32_into, emit_op, emit_slot_offset, emit_pointer, emit_constant32,
}
use react_native_webassembly.CodePages.{free_lines_threshold}
use react_native_webassembly.Compile.Stack.{push_allocated_slot_and_emit_if}
use react_native_webassembly.Compile.Constants.{emit_inline_constant}
use react_native_webassembly.Compile.Constants.Table.{push-PushedTop}
use react_native_webassembly.Compile.Locals.References.{allocate_slots-Allocated}

-- What the code carries: the operation for the width, the constant in that width, and the slot that
-- it goes to.
abbrev pub inline_words : Target → Bool → ℕ → ℕ → CodePage → Option CodePage
inline_words target true word slot start =
    word32_into slot (word_into word (word_into (target.word_of op_const64) (some start)))
inline_words target false word slot start =
    word32_into slot (word32_into word (word_into (target.word_of op_const32) (some start)))

-- The entry on top has the type and stands for a dynamic slot, and the last words of the page put the
-- constant there.
pub record IsCarried (target : Target) (p : Compilation) (type word : ℕ) : Type 0 where
  pub typed : p.type_stack (p.stack_index - 1) ≡ type
  pub dynamic : p.slot_first_dynamic_index ≤ p.wasm_stack (p.stack_index - 1)
  pub start : CodePage
  pub carried :
      p.page
      ≡ inline_words target (is_64bit_type type) word (p.wasm_stack (p.stack_index - 1)) start

-- An operation is the last word of a page.
abbrev EndsIn : Target → Operation → Compilation → Compilation → Unit {0} → Type 0
EndsIn target operation o p _ =
    (p.slot_first_dynamic_index ≡ o.slot_first_dynamic_index)
    × (start : CodePage) × (p.page ≡ word_into (target.word_of operation) (some start))

emit_op-EndsIn :
    (target : Target) (operation : Operation) (o : Compilation) {page : CodePage}
    → o.page ≡ some page
    → Then (EndsIn target operation o) (emit_op target operation o)
unfolding emit_op
emit_op-EndsIn target operation o {page} open_page =
    subst
      (λ m.
        let r = emit_into target operation o.runtime m in
        Then (EndsIn target operation o) (record o { runtime = r.0; page = r.1 }, r.2))
      (sym open_page)
      (after (ensure_code_page_num_lines target free_lines_threshold o.runtime page))
  where
    after :
        (e : Emitted)
        → let r = then_word target (target.word_of operation) e in
          Then (EndsIn target operation o) (record o { runtime = r.0; page = some r.1 }, r.2)
    after (rt, page', ok done) = then_ok (refl, page', refl)
    after (rt, page', err e) = then_err

-- An entry for slots just allocated, whose number is the last word.
push_allocated-top :
    (type : ℕ) (o : Compilation)
    → o.slot_first_dynamic_index < max_function_slots
    → Then
        (λ p _.
          (p.type_stack (p.stack_index - 1) ≡ type)
          × (p.slot_first_dynamic_index ≤ p.wasm_stack (p.stack_index - 1))
          × (p.page ≡ word32_into (p.wasm_stack (p.stack_index - 1)) o.page))
        (push_allocated_slot_and_emit_if true type o)
unfolding push_allocated_slot_and_emit_if emit_slot_offset
push_allocated-top type o inside =
    Then-continue _ (allocate_slots-Allocated o type inside) (λ p slot (dynamic, stack, same, page).
      Then-continue _ (push-PushedTop p type slot) (λ q _ t.
        let top = t.slot_on_top in
        let kept = t.dynamic_kept in
        then_ok
          (t.type_on_top, omega arith, ap₂ word32_into (sym t.slot_on_top) (t.page_kept ∙ page))))

emit_word-dynamic :
    (wide : Bool) (word : ℕ) (o : Compilation)
    → ((if wide then emit_pointer word else emit_constant32 word) o).slot_first_dynamic_index
      ≡ o.slot_first_dynamic_index
unfolding emit_pointer emit_constant32
emit_word-dynamic true word o = refl
emit_word-dynamic false word o = refl

-- The three words, in the order in which they are emitted.
emitted_words :
    (target : Target) (wide : Bool) (word slot : ℕ) (start : CodePage) (p : Compilation)
    → p.page ≡ word_into (target.word_of (if wide then op_const64 else op_const32)) (some start)
    → word32_into slot ((if wide then emit_pointer word else emit_constant32 word) p).page
      ≡ inline_words target wide word slot start
unfolding emit_pointer emit_constant32
emitted_words target true word slot start p e = ap (λ m. word32_into slot (word_into word m)) e
emitted_words target false word slot start p e = ap (λ m. word32_into slot (word32_into word m)) e

pub emit_inline_constant-IsCarried :
    (target : Target) (o : Compilation) (word type : ℕ) {page : CodePage}
    → o.page ≡ some page
    → o.slot_first_dynamic_index < max_function_slots
    → Then (λ p _. IsCarried target p type word) (emit_inline_constant target word type o)
unfolding emit_inline_constant
emit_inline_constant-IsCarried target o word type open_page inside =
    Then-continue _ (emit_op-EndsIn target _ o open_page) (λ p _ (same, start, ends).
      let kept = emit_word-dynamic (is_64bit_type type) word p in
      Then-weaken _ (push_allocated-top type _ (omega arith)) (λ q _ (typed, dynamic, page).
        record {
          typed = typed;
          dynamic = dynamic;
          start = start;
          carried = page ∙ emitted_words target (is_64bit_type type) word _ start p ends;
        }))
