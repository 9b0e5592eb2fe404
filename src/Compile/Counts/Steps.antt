-- ===== src/Compile/Counts/Steps.antt =====
-- cpp/m3_compile.c, sequences of the stack's operations within a block.
use react_native_webassembly.Common.{
  ℕ, ◌+◌, ◌-◌, ◌^◌, ◌≤◌, ◌<◌, ◌≡◌, ◌≢◌, refl, sym, ap, ◌∙◌, subst, arith, Bool, if-by,
}
use react_native_webassembly.Results.{ok}
use react_native_webassembly.Core.ValueType.{type_v128, is_fp_type}
use react_native_webassembly.Compile.State.{
  Compilation, Scope, continue, Then, then_ok, Then-weaken, Then-value, Then-continue, Done,
  Done-weaken, max_function_slots, max_function_stack_height,
}
use react_native_webassembly.Compile.Slots.{get_type_num_slots, mark_slots_allocated_by_type}
use react_native_webassembly.Compile.Emit.{Operation, Target, emit_op, emit_slot_offset}
use react_native_webassembly.Compile.Stack.{
  push, push_register, push_allocated_slot_and_emit_if, pop, preserve_register_if_occupied,
  reg_select, unwind_block_stack,
}
use react_native_webassembly.Compile.Counts.{uses}
use react_native_webassembly.Compile.Counts.Invariant.{IsCounted}
use react_native_webassembly.Compile.Counts.Push.{Taken, and_entry, allocate_slots-Taken}
use react_native_webassembly.Compile.Counts.Entry.{Kept, push-IsCounted, push_register-IsCounted}
use react_native_webassembly.Compile.Counts.Reference.{IsShareable, preserve_slot-Kept}
use react_native_webassembly.Compile.Counts.Results.{push_result-Kept}
use react_native_webassembly.Compile.Slots.Search.{IsFree}
use react_native_webassembly.Compile.Copy.BlockResults.{set_slot_of}
use react_native_webassembly.Compile.Locals.{preserve_slot}
use react_native_webassembly.Compile.Counts.Pop.{pop-Kept, unwind_block_stack-Unwound}
use react_native_webassembly.Compile.Counts.Top.{covers-fixed}
use react_native_webassembly.Compile.Counts.Preserve.{
  emit_op-Kept, emit_slot_offset-IsCounted, preserve_register_if_occupied-Kept,
}

-- The entry for slots just allocated.
Taken-push :
    {outside : ℕ → ℕ} (o p : Compilation) (type slot : ℕ)
    → Taken outside type o p slot
    → type ≢ type_v128
    → Then (Kept outside o) (push type slot p)
Taken-push {outside} o p type slot t narrow =
    let first : p.slot_first_dynamic_index ≡ o.slot_first_dynamic_index =
      ap (λ (q : Compilation). q.slot_first_dynamic_index) t.only in
    let block : p.block ≡ o.block = ap (λ (q : Compilation). q.block) t.only in
    let counted = subst (λ f. IsCounted (and_entry outside f slot type) p) (sym first) t.counted in
    Then-weaken _ (push-IsCounted p type slot counted t.fits narrow)
      (λ q _ (counted', first', block'). (counted', first' ∙ first, block' ∙ block))

IsCounted-outside :
    {outside outside' : ℕ → ℕ} {o : Compilation}
    → IsCounted outside o
    → ((j : ℕ) → o.slot_first_dynamic_index ≤ j → outside j ≡ outside' j)
    → IsCounted outside' o
IsCounted-outside c same = record {
  low = c.low;
  high = c.high;
  highest = c.highest;
  bytes = c.bytes;
  counts = λ j first. let e = same j first in let before = c.counts j first in omega arith;
  entries = c.entries;
  narrow = c.narrow;
  registers = c.registers;
}

-- Without entries of the block, the counts are those of outside.
counts_at_base :
    {outside : ℕ → ℕ} {o : Compilation}
    → IsCounted outside o
    → (j : ℕ) → o.slot_first_dynamic_index ≤ j
    → o.stack_index ≡ o.block.block_stack_index
    → o.m3_slots j ≡ outside j
unfolding uses
counts_at_base {outside} {o} c j first e =
    let none : o.stack_index - o.block.block_stack_index ≡ 0 = omega arith in
    let now = c.counts j first in
    let rest : uses o.wasm_stack o.type_stack o.slot_first_dynamic_index o.block.block_stack_index
          (o.stack_index - o.block.block_stack_index) j
        ≡ 0 =
      rw none refl in
    omega arith

no_uses :
    (o : Compilation) (j : ℕ)
    → o.stack_index ≡ o.block.block_stack_index
    → o.m3_slots j
      ≡ o.m3_slots j
        + uses o.wasm_stack o.type_stack o.slot_first_dynamic_index o.block.block_stack_index
            (o.stack_index - o.block.block_stack_index)
            j
unfolding uses
no_uses o j e =
    let none : o.stack_index - o.block.block_stack_index ≡ 0 = omega arith in rw none (omega arith)

pub push_allocated-Kept :
    {outside : ℕ → ℕ} (emits : Bool) (type : ℕ) (o : Compilation)
    → IsCounted outside o
    → o.slot_first_dynamic_index < max_function_slots
    → type ≢ type_v128
    → Then (Kept outside o) (push_allocated_slot_and_emit_if emits type o)
unfolding push_allocated_slot_and_emit_if emit_slot_offset
push_allocated-Kept {outside} emits type o c inside narrow =
    Then-continue _ (allocate_slots-Taken c type narrow inside) (λ p slot t.
      Then-continue _ (Taken-push o p type slot t narrow) (λ q _ (counted, first, block).
        if-by (λ (f : Compilation → Compilation). Then (Kept outside o) (f q, ok tt)) emits
          (λ _. then_ok (emit_slot_offset-IsCounted slot q counted, first, block))
          (λ _. then_ok (counted, first, block))))

-- Operations of the stack inside a block, where they succeed: entries for slots just allocated, for a
-- free register, and for slots that are not dynamic (locals and constants); taking an entry; moving
-- that of a register to slots; emission; and the rounds of two loops, over the references to a local
-- that is written and over the results of a call.
pub data BlockStep (target : Target) (o p : Compilation) : Type 0 where
  push_slot :
      (emits : Bool) (type : ℕ)
      → type ≢ type_v128
      → push_allocated_slot_and_emit_if emits type o ≡ (p, ok tt)
      → BlockStep target o p
  push_in_register :
      (type : ℕ)
      → type ≢ type_v128
      → o.reg_stack_index_plus_one (reg_select (is_fp_type type)) ≡ 0
      → push_register type o ≡ (p, ok tt)
      → BlockStep target o p
  push_fixed :
      (type slot : ℕ)
      → type ≢ type_v128
      → slot < o.slot_first_dynamic_index
      → slot + get_type_num_slots type ≤ o.slot_max_allocated_index_plus_one
      → push type slot o ≡ (p, ok tt)
      → BlockStep target o p
  pop_entry : pop o ≡ (p, ok tt) → BlockStep target o p
  preserve :
      (register_type : ℕ)
      → preserve_register_if_occupied target register_type o ≡ (p, ok tt)
      → BlockStep target o p
  emit_operation :
      (operation : Operation) → emit_op target operation o ≡ (p, ok tt) → BlockStep target o p
  emit_slot : (slot : ℕ) → emit_slot_offset slot o ≡ p → BlockStep target o p
  -- a round of the loop of `FindReferencedLocalWithinCurrentBlock`, at an entry of the block
  preserve_reference :
      (q : Compilation) (local_slot preserved i slot : ℕ)
      → o.block.block_stack_index ≤ i
      → i < o.stack_index
      → o.wasm_stack i ≡ local_slot
      → local_slot < o.slot_first_dynamic_index
      → IsShareable o local_slot preserved i
      → preserve_slot local_slot preserved i o ≡ (q, ok slot)
      → set_slot_of i slot q ≡ p
      → BlockStep target o p
  -- a round of the loop over the results of a call
  push_result :
      (type slot : ℕ)
      → type ≢ type_v128
      → o.slot_first_dynamic_index ≤ slot
      → slot < max_function_slots
      → IsFree o (get_type_num_slots type) slot
      → continue (push type slot o) (λ _. mark_slots_allocated_by_type slot type) ≡ (p, ok tt)
      → BlockStep target o p

pub data BlockSteps (target : Target) (o : Compilation) : Compilation → Type 0 where
  start : BlockSteps target o o
  next : {p q : Compilation} → BlockSteps target o p → BlockStep target p q → BlockSteps target o q

push_fixed-Kept :
    {outside : ℕ → ℕ} (type slot : ℕ) (o : Compilation)
    → IsCounted outside o
    → type ≢ type_v128
    → slot < o.slot_first_dynamic_index
    → slot + get_type_num_slots type ≤ o.slot_max_allocated_index_plus_one
    → Then (Kept outside o) (push type slot o)
push_fixed-Kept {outside} type slot o c narrow fixed fits =
    push-IsCounted o type slot
      (IsCounted-outside c (λ j first.
        let none = covers-fixed o.slot_first_dynamic_index slot type j fixed in omega arith))
      fits narrow

emit_slot_offset-Kept :
    {outside : ℕ → ℕ} (slot : ℕ) (o : Compilation)
    → IsCounted outside o
    → Kept outside o (emit_slot_offset slot o) tt
unfolding emit_slot_offset
emit_slot_offset-Kept slot o c = (emit_slot_offset-IsCounted slot o c, refl, refl)

BlockStep-Kept :
    {outside : ℕ → ℕ} {target : Target} {o p : Compilation}
    → BlockStep target o p
    → IsCounted outside o
    → o.slot_first_dynamic_index < max_function_slots
    → Kept outside o p tt
BlockStep-Kept {o = o} (push_slot emits type narrow e) c inside =
    Then-value (push_allocated-Kept emits type o c inside narrow) e
BlockStep-Kept {o = o} (push_in_register type narrow free e) c inside =
    Then-value (push_register-IsCounted o type c free narrow) e
BlockStep-Kept {o = o} (push_fixed type slot narrow fixed fits e) c inside =
    Then-value (push_fixed-Kept type slot o c narrow fixed fits) e
BlockStep-Kept {o = o} (pop_entry e) c inside = Then-value (pop-Kept o c) e
BlockStep-Kept {target = target} {o = o} (preserve register_type e) c inside =
    Then-value (preserve_register_if_occupied-Kept target o register_type c inside) e
BlockStep-Kept {target = target} {o = o} (emit_operation operation e) c inside =
    Then-value (emit_op-Kept target operation o c) e
BlockStep-Kept {outside = outside} {o = o} (emit_slot slot e) c inside =
    subst (λ q. Kept outside o q tt) e (emit_slot_offset-Kept slot o c)
BlockStep-Kept {outside = outside} {o = o}
      (preserve_reference q local_slot preserved i slot from below refers fixed share e last) c
      inside =
    subst (λ r. Kept outside o r tt) last
      (Then-value
        (preserve_slot-Kept o local_slot preserved i c from below refers fixed inside share) e)
BlockStep-Kept {o = o} (push_result type slot narrow dynamic small free e) c inside =
    Then-value (push_result-Kept o type slot c narrow dynamic small free) e

pub BlockSteps-Kept :
    {outside : ℕ → ℕ} {target : Target} {o p : Compilation}
    → BlockSteps target o p
    → IsCounted outside o
    → o.slot_first_dynamic_index < max_function_slots
    → Kept outside o p tt
BlockSteps-Kept start c inside = (c, refl, refl)
BlockSteps-Kept (next steps step) c inside =
    let (counted, first, block) = BlockSteps-Kept steps c inside in
    let (counted', first', block') = BlockStep-Kept step counted (rw first inside) in
    (counted', first' ∙ first, block' ∙ block)

-- A block begins: it has no entry yet, and no register is in use.
pub record IsFreshBlock (o : Compilation) : Type 0 where
  pub empty : o.stack_index ≡ o.block.block_stack_index
  pub height : o.stack_index ≤ max_function_stack_height
  pub highest : o.slot_max_allocated_index_plus_one ≤ max_function_slots
  pub inside : o.slot_first_dynamic_index < max_function_slots
  pub bytes : (j : ℕ) → o.m3_slots j < 2 ^ 8
  pub registers : (r : ℕ) → r < 2 → o.reg_stack_index_plus_one r ≡ 0

pub IsFreshBlock-IsCounted : (o : Compilation) → IsFreshBlock o → IsCounted o.m3_slots o
unfolding uses
IsFreshBlock-IsCounted o f = record {
  low = let e = f.empty in omega arith;
  high = f.height;
  highest = f.highest;
  bytes = f.bytes;
  counts = λ j first. no_uses o j f.empty;
  entries = λ i from below. let e = f.empty in absurd (omega arith);
  narrow = λ i from below. let e = f.empty in absurd (omega arith);
  registers = λ r two used. absurd (used (f.registers r two));
}

-- Take any sequence of these operations in a block, each where it succeeds: pushing an entry of up to
-- 64 bits for slots just allocated, for a free register, for the slots of a local or a constant, or
-- for free slots that are then marked, as the results of a call are; `Pop`;
-- `PreserveRegisterIfOccupied`; `EmitOp` and `EmitSlotOffset`; and, as `local.set` and `local.tee` do,
-- letting an entry of the block that refers to a local refer to new slots, or, where its value takes
-- one slot, to a slot that other entries share. Then `UnwindBlockStack` succeeds, ends at the height
-- where the block began, and leaves every dynamic slot with the usage count that it had at the
-- beginning. That a value of two slots is shared is not among the operations.
pub BlockSteps-balanced :
    {target : Target} {o p : Compilation}
    → BlockSteps target o p
    → IsFreshBlock o
    → Done
        (λ q _.
          (q.stack_index ≡ o.stack_index)
          × ((j : ℕ) → o.slot_first_dynamic_index ≤ j → q.m3_slots j ≡ o.m3_slots j))
        (unwind_block_stack p)
BlockSteps-balanced {o = o} {p = p} steps f =
    let (counted, first, block) = BlockSteps-Kept steps (IsFreshBlock-IsCounted o f) f.inside in
    Done-weaken (unwind_block_stack p) (unwind_block_stack-Unwound p counted)
      (λ q _ (counted', first', block', height).
        let base = ap (λ (s : Scope). s.block_stack_index) block in
        let empty = f.empty in
        let base' = ap (λ (s : Scope). s.block_stack_index) block' in
        (omega arith, λ j dynamic. counts_at_base counted' j (omega arith) (omega arith)))
