-- ===== src/Compile/Slots/Search.antt =====
-- cpp/m3_compile.c, `AllocateSlotsWithinRange`: what the search for free slots finds.
use react_native_webassembly.Common.{
  ℕ, zero, suc, ◌+◌, ◌-◌, ◌*◌, ◌/◌, ◌≤◌, ◌<◌, ◌≡◌, subst, sym, ◌^◌, ◌≢◌, arith, true, false, ltb,
  u16, if-by,
}
use react_native_webassembly.Results.{Result, ok, err, function_stack_overflow}
use react_native_webassembly.Core.ValueType.{type_v128, is_64bit_type}
use react_native_webassembly.Compile.State.{Compilation, max_function_slots}
use react_native_webassembly.Compile.Slots.{
  get_type_num_slots, align_slot_to_type, mark_each_slot, mark_slots_allocated, search_slots,
  allocate_slots_within_range, allocate_slots, is_group_free,
}

-- The first and the last slot of the group are free.
abbrev pub EndsFree : Compilation → ℕ → ℕ → Type 0
EndsFree o n slot = (o.m3_slots slot ≡ 0) × (o.m3_slots (slot + (n - 1)) ≡ 0)

-- What a search from `first`, a multiple of `n`, up to `end_slot` finds: the first group of `n` slots
-- that is free at both ends, or none.
pub data Found (o : Compilation) (n first end_slot : ℕ) : Compilation × Result ℕ → Type 0 where
  found :
      (k : ℕ)
      → first + k * n + n ≤ end_slot
      → EndsFree o n (first + k * n)
      → ((j : ℕ) → j < k → ¬ EndsFree o n (first + j * n))
      → Found o n first end_slot (mark_each_slot (first + k * n) n o, ok (first + k * n))
  none_free :
      ((j : ℕ) → first + j * n + n ≤ end_slot → ¬ EndsFree o n (first + j * n))
      → Found o n first end_slot (o, err function_stack_overflow)

group_shift : (n first k : ℕ) → first + suc k * n ≡ first + n + k * n
group_shift n first k = omega arith

module _ (o : Compilation) (n first end_slot : ℕ) where
  earlier_taken :
      (k : ℕ)
      → ¬ EndsFree o n first
      → ((j : ℕ) → j < k → ¬ EndsFree o n (first + n + j * n))
      → (j : ℕ) → j < suc k
      → ¬ EndsFree o n (first + j * n)
  earlier_taken k taken earlier zero below free =
      let same : first + 0 * n ≡ first = omega arith in taken (subst (EndsFree o n) same free)
  earlier_taken k taken earlier (suc j) below free =
      earlier j (omega arith) (subst (EndsFree o n) (group_shift n first j) free)

  all_taken :
      ¬ EndsFree o n first
      → ((j : ℕ) → first + n + j * n + n ≤ end_slot → ¬ EndsFree o n (first + n + j * n))
      → (j : ℕ) → first + j * n + n ≤ end_slot
      → ¬ EndsFree o n (first + j * n)
  all_taken taken later zero fits free =
      let same : first + 0 * n ≡ first = omega arith in taken (subst (EndsFree o n) same free)
  all_taken taken later (suc j) fits free =
      later j (omega (arith, group_shift n first j))
        (subst (EndsFree o n) (group_shift n first j) free)

  -- What lies behind a group that is not free is found behind it.
  Found-later :
      {r : Compilation × Result ℕ}
      → ¬ EndsFree o n first
      → Found o n (first + n) end_slot r
      → Found o n first end_slot r
  Found-later taken (found k fits free earlier) =
      let same = group_shift n first k in
      subst (λ s. Found o n first end_slot (mark_each_slot s n o, ok s)) same
        (found (suc k) (omega (arith, same)) (rw same free) (earlier_taken k taken earlier))
  Found-later taken (none_free later) = none_free (all_taken taken later)

  Found-here :
      first + n ≤ end_slot
      → EndsFree o n first
      → Found o n first end_slot (mark_each_slot first n o, ok first)
  Found-here fits free =
      let same : first + 0 * n ≡ first = omega arith in
      subst (λ s. Found o n first end_slot (mark_each_slot s n o, ok s)) same
        (found 0 (omega arith) (rw same free) (λ j below. absurd (omega arith)))

  Found-nowhere : end_slot < first + n → Found o n first end_slot (o, err function_stack_overflow)
  Found-nowhere short = none_free (λ j fits free. omega arith)

mark_slots_allocated-within :
    (slot n : ℕ) (o : Compilation)
    → slot + n ≤ max_function_slots
    → (mark_slots_allocated slot n o).0 ≡ mark_each_slot slot n o
unfolding mark_slots_allocated
mark_slots_allocated-within slot n o h = ground arith

is_group_free-EndsFree :
    (o : Compilation) (n slot : ℕ) → is_group_free o slot (n - 1) ≡ true → EndsFree o n slot
is_group_free-EndsFree o n slot e = ground arith

not_is_group_free :
    (o : Compilation) (n slot : ℕ)
    → slot + (n - 1) < max_function_slots
    → is_group_free o slot (n - 1) ≡ false
    → ¬ EndsFree o n slot
not_is_group_free o n slot h e free = ground arith

-- Fuel for a slot each is enough.
pub search_slots-Found :
    (o : Compilation) (n end_slot fuel first : ℕ)
    → 1 ≤ n
    → n ≤ 4
    → end_slot ≤ max_function_slots
    → end_slot ≤ fuel + first
    → Found o n first end_slot (search_slots fuel n first end_slot o)
unfolding search_slots
search_slots-Found o n end_slot zero first pos small bounded enough =
    Found-nowhere o n first end_slot (omega arith)
search_slots-Found o n end_slot (suc fuel) first pos small bounded enough =
    if-by (Found o n first end_slot) (ltb (first + (n - 1)) end_slot)
      (λ inside.
        let fits : first + n ≤ end_slot = ground arith in
        let next : u16 (first + n) ≡ first + n = omega arith in
        let rest =
          search_slots-Found o n end_slot fuel (first + n) pos small bounded (omega arith) in
        if-by (Found o n first end_slot) (is_group_free o first (n - 1))
          (λ free.
            rw (mark_slots_allocated-within first n o (omega arith))
              (Found-here o n first end_slot fits (is_group_free-EndsFree o n first free)))
          (λ taken. rw next (
            Found-later o n first end_slot (not_is_group_free o n first (omega arith) taken) rest)))
      (λ outside. Found-nowhere o n first end_slot (ground arith))

-- Every slot of the group is free.
abbrev pub IsFree : Compilation → ℕ → ℕ → Type 0
IsFree o n slot = (i : ℕ) → i < n → o.m3_slots (slot + i) ≡ 0

EndsFree-IsFree :
    (o : Compilation) (n slot : ℕ) → 1 ≤ n → n ≤ 2 → EndsFree o n slot → IsFree o n slot
EndsFree-IsFree o n slot pos small (free_first, free_last) zero below =
    let same : slot + 0 ≡ slot = omega arith in rw same free_first
EndsFree-IsFree o n slot pos small (free_first, free_last) (suc i) below =
    let same : slot + suc i ≡ slot + (n - 1) = omega arith in rw same free_last

pub IsFree-EndsFree : (o : Compilation) (n slot : ℕ) → 1 ≤ n → IsFree o n slot → EndsFree o n slot
IsFree-EndsFree o n slot pos free =
    let same : slot + 0 ≡ slot = omega arith in
    (rw same at (free 0 (omega arith)), free (n - 1) (omega arith))

-- The first multiple of `n` from `slot` on.
abbrev pub round_up : ℕ → ℕ → ℕ
round_up n slot = (slot + (n - 1)) / n * n

round_up-le : (n slot : ℕ) → 1 ≤ n → n ≤ 2 → round_up n slot ≤ slot + 1
round_up-le zero slot pos small = absurd (omega arith)
round_up-le (suc zero) slot pos small = omega arith
round_up-le (suc (suc zero)) slot pos small = omega arith
round_up-le (suc (suc (suc n))) slot pos small = absurd (omega arith)

pub round_up-ge : (n slot : ℕ) → 1 ≤ n → n ≤ 2 → slot ≤ round_up n slot
round_up-ge zero slot pos small = absurd (omega arith)
round_up-ge (suc zero) slot pos small = omega arith
round_up-ge (suc (suc zero)) slot pos small = omega arith
round_up-ge (suc (suc (suc n))) slot pos small = absurd (omega arith)

-- The result of an allocation of `n` slots from `first` on: the slots of the first free group, marked,
-- or, where no group is free, the error and the state as before.
pub data Allocation (o : Compilation) (n first : ℕ) : Compilation × Result ℕ → Type 0 where
  allocated :
      (k : ℕ)
      → first + k * n + n ≤ max_function_slots
      → IsFree o n (first + k * n)
      → ((j : ℕ) → j < k → ¬ IsFree o n (first + j * n))
      → Allocation o n first (mark_each_slot (first + k * n) n o, ok (first + k * n))
  full :
      ((j : ℕ) → first + j * n + n ≤ max_function_slots → ¬ IsFree o n (first + j * n))
      → Allocation o n first (o, err function_stack_overflow)

Found-Allocation :
    (o : Compilation) (n first : ℕ) {r : Compilation × Result ℕ}
    → 1 ≤ n
    → n ≤ 2
    → Found o n first max_function_slots r
    → Allocation o n first r
Found-Allocation o n first pos small (found k fits free earlier) =
    allocated k fits (EndsFree-IsFree o n _ pos small free)
      (λ j below all_free. earlier j below (IsFree-EndsFree o n _ pos all_free))
Found-Allocation o n first pos small (none_free taken) =
    full (λ j fits all_free. taken j fits (IsFree-EndsFree o n _ pos all_free))

pub get_type_num_slots-positive : (type : ℕ) → 1 ≤ get_type_num_slots type
unfolding get_type_num_slots is_64bit_type
get_type_num_slots-positive type = ground arith

pub get_type_num_slots-Narrow :
    (type : ℕ) → type ≢ type_v128 → (1 ≤ get_type_num_slots type) × (get_type_num_slots type ≤ 2)
unfolding get_type_num_slots is_64bit_type
get_type_num_slots-Narrow type h = ground arith

mod_small : (m : ℕ) → m < 2 ^ 16 → u16 m ≡ m
mod_small m h = omega arith

pub align_slot_to_type-round_up :
    (slot type : ℕ)
    → type ≢ type_v128
    → slot < max_function_slots
    → align_slot_to_type slot type ≡ round_up (get_type_num_slots type) slot
unfolding align_slot_to_type
align_slot_to_type-round_up slot type narrow inside =
    let (pos, small) = get_type_num_slots-Narrow type narrow in
    let near = round_up-le (get_type_num_slots type) slot pos small in
    mod_small (round_up (get_type_num_slots type) slot) (omega arith)

-- A value of up to 64 bits gets the first group of slots from the first dynamic slot on that lies at
-- a multiple of its size, within the frame and is free throughout; where there is none, and only
-- there, the function is refused and nothing changes.
pub allocate_slots-Allocation :
    (o : Compilation) (type : ℕ)
    → type ≢ type_v128
    → o.slot_first_dynamic_index < max_function_slots
    → Allocation o
        (get_type_num_slots type)
        (round_up (get_type_num_slots type) o.slot_first_dynamic_index)
        (allocate_slots type o)
unfolding allocate_slots allocate_slots_within_range
allocate_slots-Allocation o type narrow inside =
    let n = get_type_num_slots type in
    let (pos, small) = get_type_num_slots-Narrow type narrow in
    let first = round_up n o.slot_first_dynamic_index in
    subst
      (λ slot. Allocation o n first (search_slots max_function_slots n slot max_function_slots o))
      (sym (align_slot_to_type-round_up o.slot_first_dynamic_index type narrow inside))
      (Found-Allocation o n first pos small (
        search_slots-Found o n max_function_slots max_function_slots first pos (omega arith)
          (omega arith) (omega arith)))
