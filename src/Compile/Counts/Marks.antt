-- ===== src/Compile/Counts/Marks.antt =====
-- cpp/m3_compile.c, `MarkSlotsAllocated`: what marking changes.
use react_native_webassembly.Common.{ℕ, zero, suc, ◌+◌, ◌≤◌, ◌≡◌, refl, arith, if◌then◌else◌, u16}
use react_native_webassembly.Compile.State.{Compilation, max_function_slots}
use react_native_webassembly.Compile.Slots.{mark_slot_allocated, mark_each_slot}
use react_native_webassembly.Compile.Counts.{within}

-- The state with other counts and other marks.
abbrev pub with_slots : Compilation → (ℕ → ℕ) → ℕ → ℕ → Compilation
with_slots o counts highest max_slots = record o {
  m3_slots = counts;
  slot_max_allocated_index_plus_one = highest;
  max_stack_slots = max_slots;
}

pub record Marked (o o' : Compilation) (slot n : ℕ) : Type 0 where
  pub only : o' ≡ with_slots o o'.m3_slots o'.slot_max_allocated_index_plus_one o'.max_stack_slots
  pub counts : (j : ℕ) → o'.m3_slots j ≡ (if within slot n j then 1 else o.m3_slots j)
  pub highest :
      o.slot_max_allocated_index_plus_one ≤ max_function_slots
      → (o.slot_max_allocated_index_plus_one ≤ o'.slot_max_allocated_index_plus_one)
        × (o'.slot_max_allocated_index_plus_one ≤ max_function_slots)
  pub covered :
      o.slot_max_allocated_index_plus_one ≤ max_function_slots
      → 1 ≤ n
      → slot + n ≤ o'.slot_max_allocated_index_plus_one

mark_each_slot-none : (slot : ℕ) (o : Compilation) → Marked o (mark_each_slot slot 0 o) slot 0
unfolding mark_each_slot
mark_each_slot-none slot o = record {
  only = refl;
  counts = λ j. ground arith;
  highest = λ h. (omega arith, h);
  covered = λ h pos. absurd (omega arith);
}

covered-suc :
    (slot n : ℕ) {highest : ℕ}
    → slot + 1 ≤ highest
    → (1 ≤ n → slot + 1 + n ≤ highest)
    → slot + suc n ≤ highest
covered-suc slot zero first later = omega arith
covered-suc slot (suc n) first later = let rest = later (omega arith) in omega arith

-- Marking one slot more.
Marked-suc :
    (slot n : ℕ) {o o' : Compilation}
    → slot + suc n ≤ max_function_slots
    → Marked (mark_slot_allocated slot o) o' (slot + 1) n
    → Marked o o' slot (suc n)
unfolding mark_slot_allocated
Marked-suc slot n {o} h m = record {
  only = m.only;
  counts = λ j. let rest = m.counts j in ground arith;
  highest = λ small. let (low, high) = m.highest (omega arith) in (omega arith, omega arith);
  covered = λ small pos.
      let (low, high) = m.highest (omega arith) in
      covered-suc slot n (omega arith) (m.covered (omega arith));
}

pub mark_each_slot-Marked :
    (slot n : ℕ) (o : Compilation)
    → slot + n ≤ max_function_slots
    → Marked o (mark_each_slot slot n o) slot n
unfolding mark_each_slot
mark_each_slot-Marked slot zero o h = mark_each_slot-none slot o
mark_each_slot-Marked slot (suc n) o h =
    let next : u16 (slot + 1) ≡ slot + 1 = omega arith in
    rw next (
      Marked-suc slot n h
        (mark_each_slot-Marked (slot + 1) n (mark_slot_allocated slot o) (omega arith)))
