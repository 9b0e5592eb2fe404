-- ===== src/Compile/Locals/References.antt =====
-- cpp/m3_compile.c, `FindReferencedLocalWithinCurrentBlock`: what the stack refers to after it, and
-- the usage counts of the slots that several references share.
use react_native_webassembly.Common.{
  ℕ, zero, suc, ◌+◌, ◌-◌, ◌*◌, ◌≤◌, ◌<◌, ◌≡◌, ◌≢◌, refl, sym, ap, ◌∙◌, arith, true, ltb, ◌==◌,
  if-by, Bool-cases, u16, inl, inr, subst, List, [], ◌∷◌,
}
use react_native_webassembly.Results.{Result}
use react_native_webassembly.Core.ValueType.{is_64bit_type}
use react_native_webassembly.Compile.State.{
  Compilation, Scope, Then, then_ok, then_err, Then-continue, Then-weaken, update,
  max_function_slots,
}
use react_native_webassembly.Compile.Slots.{
  get_type_num_slots, allocate_slots, allocate_slots_within_range, align_slot_to_type,
  increment_slot_usage_count, deallocate_slot, decrement_slots, mark_each_slot,
}
use react_native_webassembly.Compile.Slots.Search.{
  Found, found, none_free, search_slots-Found, get_type_num_slots-positive,
}
use react_native_webassembly.Compile.Stack.{get_stack_type_from_bottom}
use react_native_webassembly.Compile.Copy.BlockResults.{set_slot_of}
use react_native_webassembly.Compile.Counts.Marks.{mark_each_slot-Marked}
use react_native_webassembly.Compile.Locals.{
  preserve_slot, preserve_references, find_referenced_local_within_current_block, restart_index,
}

-- Where an allocation succeeds: a slot past the fixed ones, and the stack and the page as before.
abbrev pub Allocated : Compilation → Compilation → ℕ → Type 0
Allocated o p slot =
    (o.slot_first_dynamic_index ≤ slot)
    × (p.wasm_stack ≡ o.wasm_stack)
    × (p.slot_first_dynamic_index ≡ o.slot_first_dynamic_index)
    × (p.page ≡ o.page)

pub get_type_num_slots-small : (type : ℕ) → get_type_num_slots type ≤ 4
unfolding get_type_num_slots is_64bit_type
get_type_num_slots-small type = ground arith

pub align-ge : (slot type : ℕ) → slot < max_function_slots → slot ≤ align_slot_to_type slot type
unfolding align_slot_to_type get_type_num_slots is_64bit_type
align-ge slot type h = ground arith

mark_each_slot-stack :
    (slot n : ℕ) (o : Compilation)
    → slot + n ≤ max_function_slots
    → ((mark_each_slot slot n o).wasm_stack ≡ o.wasm_stack)
      × ((mark_each_slot slot n o).slot_first_dynamic_index ≡ o.slot_first_dynamic_index)
      × ((mark_each_slot slot n o).page ≡ o.page)
mark_each_slot-stack slot n o h =
    let m = mark_each_slot-Marked slot n o h in
    (
      ap (λ (q : Compilation). q.wasm_stack) m.only,
      ap (λ (q : Compilation). q.slot_first_dynamic_index) m.only,
      ap (λ (q : Compilation). q.page) m.only,
    )

Found-Allocated :
    (o : Compilation) (n first : ℕ) {r : Compilation × Result ℕ}
    → o.slot_first_dynamic_index ≤ first
    → Found o n first max_function_slots r
    → Then (Allocated o) r
Found-Allocated o n first low (found k fits free earlier) =
    let (stack, dynamic, page) = mark_each_slot-stack (first + k * n) n o fits in
    then_ok (omega arith, stack, dynamic, page)
Found-Allocated o n first low (none_free taken) = then_err

pub allocate_slots-Allocated :
    (o : Compilation) (type : ℕ)
    → o.slot_first_dynamic_index < max_function_slots
    → Then (Allocated o) (allocate_slots type o)
unfolding allocate_slots allocate_slots_within_range
allocate_slots-Allocated o type inside =
    Found-Allocated o (get_type_num_slots type) _ (align-ge o.slot_first_dynamic_index type inside)
      (search_slots-Found o (get_type_num_slots type) max_function_slots max_function_slots _
        (get_type_num_slots-positive type) (get_type_num_slots-small type) (omega arith)
        (omega arith))

increment-Allocated :
    (o : Compilation) (slot : ℕ)
    → Then
        (λ p _.
          (p.wasm_stack ≡ o.wasm_stack) × (p.slot_first_dynamic_index ≡ o.slot_first_dynamic_index))
        (increment_slot_usage_count slot o)
unfolding increment_slot_usage_count
increment-Allocated o slot =
    if-by
      (Then (λ (p : Compilation) (_ : Unit {0}).
        (p.wasm_stack ≡ o.wasm_stack) × (p.slot_first_dynamic_index ≡ o.slot_first_dynamic_index)))
      (ltb (o.m3_slots slot) 0xff) (λ room. then_ok (refl, refl)) (λ full. then_err)

-- A slot for a reference: not the local's own, and the stack as before.
abbrev pub Preserved : Compilation → ℕ → Compilation → ℕ → Type 0
Preserved o local_slot p slot =
    (slot ≢ local_slot)
    × (p.wasm_stack ≡ o.wasm_stack)
    × (p.slot_first_dynamic_index ≡ o.slot_first_dynamic_index)

preserve_slot-Preserved :
    (o : Compilation) (local_slot preserved i : ℕ)
    → local_slot < o.slot_first_dynamic_index
    → o.slot_first_dynamic_index < max_function_slots
    → Then (Preserved o local_slot) (preserve_slot local_slot preserved i o)
unfolding preserve_slot
preserve_slot-Preserved o local_slot preserved i fixed inside =
    if-by (Then (Preserved o local_slot)) (preserved == local_slot)
      (λ first.
        Then-weaken _ (allocate_slots-Allocated o (get_stack_type_from_bottom o i) inside)
          (λ p slot (dynamic, stack, same, page). ((λ e. omega arith), stack, same)))
      (λ again.
        Then-continue _ (increment-Allocated o preserved)
          (λ p _ (stack, same). then_ok ((λ e. ground arith), stack, same)))

-- No entry from `i` to `i + n` refers to the slot, and those below `i` are as before.
abbrev pub Unreferenced : Compilation → ℕ → ℕ → ℕ → Compilation → ℕ → Type 0
Unreferenced o local_slot i n p _ =
    ((k : ℕ) → i ≤ k → k < i + n → p.wasm_stack k ≢ local_slot)
    × ((k : ℕ) → k < i → p.wasm_stack k ≡ o.wasm_stack k)

Unreferenced-suc :
    (o o' : Compilation) (local_slot i n : ℕ) (p : Compilation) (slot : ℕ)
    → o'.wasm_stack i ≢ local_slot
    → ((k : ℕ) → k < i → o'.wasm_stack k ≡ o.wasm_stack k)
    → Unreferenced o' local_slot (i + 1) n p slot
    → Unreferenced o local_slot i (suc n) p slot
Unreferenced-suc o o' local_slot i n p slot here below (later, kept) = (
  λ k from to. elim (Bool-cases (k == i)) [
    | inl same ↦
        let same : k ≡ i = ground arith in
        λ e. here (sym (kept i (omega arith)) ∙ ap p.wasm_stack (sym same) ∙ e)
    | inr apart ↦ let apart : k ≢ i = ground arith in later k (omega arith) (omega arith)
  ],
  λ k lower. kept k (omega arith) ∙ below k lower,
)

preserve_references-Unreferenced :
    (n local_slot preserved i : ℕ) (o : Compilation)
    → local_slot < o.slot_first_dynamic_index
    → o.slot_first_dynamic_index < max_function_slots
    → Then (Unreferenced o local_slot i n) (preserve_references n local_slot preserved i o)
unfolding preserve_references
preserve_references-Unreferenced zero local_slot preserved i o fixed inside =
    then_ok ((λ k from to. absurd (omega arith)), (λ k lower. refl))
preserve_references-Unreferenced (suc n) local_slot preserved i o fixed inside =
    if-by (Then (Unreferenced o local_slot i (suc n))) (o.wasm_stack i == local_slot)
      (λ refers.
        Then-continue _ (preserve_slot-Preserved o local_slot preserved i fixed inside)
          (λ p slot (other, stack, same).
            let written : update p.wasm_stack i slot i ≡ slot = ground arith in
            Then-weaken _
              (preserve_references-Unreferenced n local_slot slot (i + 1) (set_slot_of i slot p)
                (rw same fixed) (rw same inside))
              (λ q slot' unreferenced.
                Unreferenced-suc o (set_slot_of i slot p) local_slot i n q slot'
                  (λ e. other (sym written ∙ e))
                  (λ k lower.
                    let kept : update p.wasm_stack i slot k ≡ p.wasm_stack k = ground arith in
                    kept ∙ ap (λ (f : ℕ → ℕ). f k) stack)
                  unreferenced)))
      (λ differs.
        Then-weaken _
          (preserve_references-Unreferenced n local_slot preserved (i + 1) o fixed inside)
          (λ q slot' unreferenced.
            Unreferenced-suc o o local_slot i n q slot' (ground arith) (λ k lower. refl)
              unreferenced))

-- The scope where a branch could enter again: going out through plain blocks, the first that is not
-- one, or the outermost.
pub data Restarts : Scope → List Scope → Scope → Type 0 where
  here : (scope : Scope) (outer : List Scope) → scope.opcode ≢ 0x02 → Restarts scope outer scope
  outermost : (scope : Scope) → Restarts scope [] scope
  outward :
      (scope next last : Scope) (outer : List Scope)
      → scope.opcode ≡ 0x02
      → Restarts next outer last
      → Restarts scope (next ∷ outer) last

restart_index-Restarts :
    {scope : Scope} {outer : List Scope} {last : Scope}
    → Restarts scope outer last
    → restart_index scope outer ≡ last.block_stack_index
unfolding restart_index
restart_index-Restarts (here scope [] other) = refl
restart_index-Restarts (here scope (next ∷ outer) other) = ground arith
restart_index-Restarts (outermost scope) = refl
restart_index-Restarts (outward scope next last outer plain more) =
    let rest = restart_index-Restarts more in ground arith

-- Going out from the current block through plain blocks, take the first scope that is not one, or the
-- outermost. After `FindReferencedLocalWithinCurrentBlock` no entry from the start of that scope on
-- refers to the local, and the entries below are as before: the local may be written.
pub find_referenced_local-Unreferenced :
    (local_slot : ℕ) (o : Compilation) (scope : Scope)
    → Restarts o.block o.outer scope
    → local_slot < o.slot_first_dynamic_index
    → o.slot_first_dynamic_index < max_function_slots
    → Then
        (Unreferenced o local_slot scope.block_stack_index
          (o.stack_index - scope.block_stack_index))
        (find_referenced_local_within_current_block local_slot o)
unfolding find_referenced_local_within_current_block
find_referenced_local-Unreferenced local_slot o scope restarts fixed inside =
    subst
      (λ i.
        Then
          (Unreferenced o local_slot scope.block_stack_index
            (o.stack_index - scope.block_stack_index))
          (preserve_references (o.stack_index - i) local_slot (u16 local_slot) i o))
      (sym (restart_index-Restarts restarts))
      (preserve_references-Unreferenced (o.stack_index - scope.block_stack_index) local_slot
        (u16 local_slot) scope.block_stack_index o fixed inside)

-- Two slots given back, from a count of 2 and of 1.
decrement_twice :
    (counts : ℕ → ℕ) (slot : ℕ)
    → counts slot ≡ 2
    → counts (slot + 1) ≡ 1
    → (decrement_slots slot 2 counts slot ≡ 1)
      × (decrement_slots slot 2 counts (slot + 1) ≡ 0)
      × (decrement_slots slot 2 (decrement_slots slot 2 counts) slot ≡ 0)
      × (decrement_slots slot 2 (decrement_slots slot 2 counts) (slot + 1) ≡ 255)
unfolding decrement_slots
decrement_twice counts slot first second = ground arith

-- A 64-bit value that two entries share is counted twice in its first slot and once in its second:
-- `IncrementSlotUsageCount` takes one slot, `DeallocateSlot` all of them. So the first entry that is
-- taken frees the second slot while the value is in use, and the other one wraps its count to 255,
-- after which the slot is never free again.
pub increment_slot_usage_count-unbalanced :
    (o : Compilation) (slot type : ℕ)
    → get_type_num_slots type ≡ 2
    → o.m3_slots slot ≡ 1
    → o.m3_slots (slot + 1) ≡ 1
    → Then
        (λ p _.
          let first = deallocate_slot slot type p in
          let second = deallocate_slot slot type first in
          (first.m3_slots slot ≡ 1)
          × (first.m3_slots (slot + 1) ≡ 0)
          × (second.m3_slots slot ≡ 0)
          × (second.m3_slots (slot + 1) ≡ 255))
        (increment_slot_usage_count slot o)
unfolding increment_slot_usage_count deallocate_slot
increment_slot_usage_count-unbalanced o slot type wide first second =
    let room : ltb (o.m3_slots slot) 0xff ≡ true = ground arith in
    let one : update o.m3_slots slot (o.m3_slots slot + 1) slot ≡ 2 = ground arith in
    let other : update o.m3_slots slot (o.m3_slots slot + 1) (slot + 1) ≡ 1 = ground arith in
    rw (room, wide)
      (then_ok (decrement_twice (update o.m3_slots slot (o.m3_slots slot + 1)) slot one other))
