-- ===== src/Compile/Slots.antt =====
-- cpp/m3_compile.c, the slots of the frame: their usage counts and the search for free ones. A slot
-- is 4 bytes wide (d_m3Use32BitSlots).
pub mod Search
use react_native_webassembly.Common.{
  ℕ, zero, suc, ◌+◌, ◌-◌, ◌*◌, ◌/◌, Bool, true, false, ◌&&◌, not, min, max, ltb, leb, ◌==◌,
  if◌then◌else◌, u8, u16,
}
use react_native_webassembly.Results.{
  Result, ok, err, function_stack_overflow, slot_usage_count_overflow,
}
use react_native_webassembly.Core.ValueType.{type_v128, is_64bit_type}
use react_native_webassembly.Compile.State.{
  Compilation, Compile, ◌>>=◌, ◌>>◌, return, throw, modify, continue, update, max_function_slots,
  max_constant_table_size,
}

-- `GetTypeNumSlots`
unfoldable pub get_type_num_slots : ℕ → ℕ
unfolding is_64bit_type
get_type_num_slots type = if type == type_v128 then 4 else if is_64bit_type type then 2 else 1

-- `AlignSlotToType`: the number of slots is a power of two, and `& ~mask` clears the bits below it.
unfoldable pub align_slot_to_type : ℕ → ℕ → ℕ
unfolding get_type_num_slots
align_slot_to_type slot type =
    let num_slots = get_type_num_slots type in
    u16 ((slot + (num_slots - 1)) / num_slots * num_slots)

abbrev pub is_slot_allocated : Compilation → ℕ → Bool
is_slot_allocated o slot = not (o.m3_slots slot == 0)

abbrev pub is_constant_slot : Compilation → ℕ → Bool
is_constant_slot o slot = leb o.slot_first_const_index slot && ltb slot o.slot_max_const_index

-- `TouchSlot`
abbrev pub touch_slot : ℕ → Compilation → Compilation
touch_slot slot o = record o { max_stack_slots = u16 (max o.max_stack_slots (slot + 1)) }

-- `MarkSlotAllocated`
unfoldable pub mark_slot_allocated : ℕ → Compilation → Compilation
mark_slot_allocated slot o = touch_slot slot (record o {
  m3_slots = update o.m3_slots slot 1;
  slot_max_allocated_index_plus_one = u16 (max o.slot_max_allocated_index_plus_one (slot + 1));
})

-- The loop of `MarkSlotsAllocated`
unfoldable pub mark_each_slot : ℕ → ℕ → Compilation → Compilation
unfolding mark_slot_allocated
mark_each_slot slot zero o = o
mark_each_slot slot (suc num_slots) o =
    mark_each_slot (u16 (slot + 1)) num_slots (mark_slot_allocated slot o)

-- `MarkSlotsAllocated`
unfoldable pub mark_slots_allocated : ℕ → ℕ → Compile (Unit {0})
unfolding mark_each_slot
mark_slots_allocated slot num_slots o =
    if ltb max_function_slots (slot + num_slots)
    then (o, err function_stack_overflow)
    else (mark_each_slot slot num_slots o, ok tt)

-- `MarkSlotsAllocatedByType`
unfoldable pub mark_slots_allocated_by_type : ℕ → ℕ → Compile (Unit {0})
unfolding mark_slots_allocated
mark_slots_allocated_by_type slot type = mark_slots_allocated slot (get_type_num_slots type)

-- The test of `AllocateSlotsWithinRange`: the first and the last slot of the group are free.
abbrev pub is_group_free : Compilation → ℕ → ℕ → Bool
is_group_free o i search_offset =
    ltb (i + search_offset) max_function_slots
    && (o.m3_slots i == 0 && o.m3_slots (i + search_offset) == 0)

-- The loop of `AllocateSlotsWithinRange`, on fuel for a turn each. Its status of
-- `MarkSlotsAllocated` is dropped, as in the source.
unfoldable pub search_slots : ℕ → ℕ → ℕ → ℕ → Compile ℕ
unfolding mark_slots_allocated
search_slots zero num_slots i end_slot o = (o, err function_stack_overflow)
search_slots (suc fuel) num_slots i end_slot o =
    let rest = search_slots fuel num_slots (u16 (i + num_slots)) end_slot o in
    if ltb (i + (num_slots - 1)) end_slot
    then if is_group_free o i (num_slots - 1)
      then ((mark_slots_allocated i num_slots o).0, ok i)
      else rest
    else (o, err function_stack_overflow)

-- `AllocateSlotsWithinRange`; the slot that it finds is returned.
unfoldable pub allocate_slots_within_range : ℕ → ℕ → ℕ → Compile ℕ
unfolding search_slots
allocate_slots_within_range type start_slot end_slot =
    search_slots end_slot (get_type_num_slots type) (align_slot_to_type start_slot type) end_slot

-- `AllocateSlots`
unfoldable pub allocate_slots : ℕ → Compile ℕ
unfolding allocate_slots_within_range
allocate_slots type o =
    allocate_slots_within_range type o.slot_first_dynamic_index max_function_slots o

-- `AllocateConstantSlots`
unfoldable pub allocate_constant_slots : ℕ → Compile ℕ
unfolding allocate_slots_within_range
allocate_constant_slots type o =
    let max_table_index = u16 (o.slot_first_const_index + max_constant_table_size) in
    allocate_slots_within_range type o.slot_first_const_index
      (min o.slot_first_dynamic_index max_table_index) o

-- `IncrementSlotUsageCount`
unfoldable pub increment_slot_usage_count : ℕ → Compile (Unit {0})
increment_slot_usage_count slot o =
    if ltb (o.m3_slots slot) 0xff
    then (record o { m3_slots = update o.m3_slots slot (o.m3_slots slot + 1) }, ok tt)
    else (o, err slot_usage_count_overflow)

-- The loop of `DeallocateSlot`: each count is a u8.
unfoldable pub decrement_slots : ℕ → ℕ → (ℕ → ℕ) → ℕ → ℕ
decrement_slots slot zero counts = counts
decrement_slots slot (suc num_slots) counts =
    decrement_slots (slot + 1) num_slots (update counts slot (u8 (counts slot + 255)))

-- `DeallocateSlot`
unfoldable pub deallocate_slot : ℕ → ℕ → Compilation → Compilation
unfolding decrement_slots
deallocate_slot slot type o = record o {
  m3_slots = decrement_slots slot (get_type_num_slots type) o.m3_slots;
}

-- The loop of `GetMaxUsedSlotPlusOne` as far down as the first dynamic slot.
unfoldable pub max_used_from : (ℕ → ℕ) → ℕ → ℕ → ℕ
max_used_from counts first zero = zero
max_used_from counts first (suc slot) =
    let rest = max_used_from counts first slot in
    if ltb first (suc slot) then if counts slot == 0 then rest else suc slot else suc slot

-- `GetMaxUsedSlotPlusOne`, which keeps what it finds.
unfoldable pub get_max_used_slot_plus_one : Compilation → Compilation
unfolding max_used_from
get_max_used_slot_plus_one o = record o {
  slot_max_allocated_index_plus_one =
      max_used_from o.m3_slots o.slot_first_dynamic_index o.slot_max_allocated_index_plus_one;
}
