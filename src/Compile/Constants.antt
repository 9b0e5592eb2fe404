-- ===== src/Compile/Constants.antt =====
-- cpp/m3_compile.c, constants: the table of slots that `PushConst` fills and searches, and the
-- reservation of its slots.
pub mod Search
pub mod Table
pub mod Inline
pub mod Place
use react_native_webassembly.Common.{
  ℕ, zero, suc, ◌+◌, ◌-◌, ◌*◌, ◌/◌, ◌^◌, Bool, true, false, ◌&&◌, ◌||◌, Option, none, some, [], ◌∷◌,
  max, ltb, leb, ◌==◌, if◌then◌else◌, u16, u32, u64,
}
use react_native_webassembly.Results.{Result, ok, err, function_stack_overflow}
use react_native_webassembly.Core.Read.{Bytes, read_u32, read_u64}
use react_native_webassembly.Core.Leb.{read_leb_i32, read_leb_i64, try_leb}
use react_native_webassembly.Core.ValueType.{type_i32, type_i64, type_f32, type_f64, is_64bit_type}
use react_native_webassembly.Runtime.{CodePage}
use react_native_webassembly.Compile.State.{
  Compilation, Compile, ◌>>=◌, ◌>>◌, return, modify, gets, continue, update, slot_unused,
  max_constant_table_size, max_function_slots,
}
use react_native_webassembly.Compile.Slots.{
  get_type_num_slots, align_slot_to_type, is_slot_allocated, allocate_constant_slots,
}
use react_native_webassembly.Compile.Emit.{
  Target, op_const32, op_const64, emit_op, emit_constant32, emit_pointer,
}
use react_native_webassembly.Compile.Stack.{push, push_allocated_slot_and_emit}

-- `memcpy` from the table: one slot, or two of them, the low half first.
abbrev pub read_constant : Compilation → Bool → ℕ → ℕ
read_constant o true i = o.constants i + 2 ^ 32 * o.constants (i + 1)
read_constant o false i = o.constants i

-- `memcpy` into the table.
abbrev pub write_constant : Bool → ℕ → ℕ → Compilation → Compilation
write_constant true i word o = record o {
  constants = update (update o.constants i (u32 word)) (i + 1) (u32 (word / 2 ^ 32));
}
write_constant false i word o = record o { constants = update o.constants i (u32 word) }

-- The loop over pairs of slots in `PushConst`, on fuel for a turn each.
unfoldable pub find_wide_constant : ℕ → Compilation → ℕ → ℕ → Option ℕ
find_wide_constant zero o word slot = none
find_wide_constant (suc fuel) o word slot =
    let rest = find_wide_constant fuel o word (u16 (slot + 2)) in
    if ltb (slot + 1) o.slot_max_const_index
    then if (is_slot_allocated o slot && is_slot_allocated o (slot + 1))
        && read_constant o true (slot - o.slot_first_const_index) == word
      then some slot
      else rest
    else none

-- The loop over single slots in `PushConst`.
unfoldable pub find_narrow_constant : ℕ → Compilation → Bool → ℕ → ℕ → Option ℕ
find_narrow_constant zero o is_64bit word i = none
find_narrow_constant (suc num_left) o is_64bit word i =
    let rest = find_narrow_constant num_left o is_64bit word (i + 1) in
    let slot = u16 (o.slot_first_const_index + i) in
    if is_slot_allocated o slot && read_constant o is_64bit i == word then some slot else rest

-- The search for a constant slot that holds the word already.
unfoldable pub find_constant : Compilation → ℕ → ℕ → Option ℕ
unfolding find_wide_constant find_narrow_constant get_type_num_slots is_64bit_type
    align_slot_to_type
find_constant o word type =
    let num_used = u16 (o.slot_max_const_index + (2 ^ 16 - o.slot_first_const_index)) in
    if get_type_num_slots type == 2 && leb 2 num_used
    then find_wide_constant num_used o word (align_slot_to_type o.slot_first_const_index type_i64)
    else if get_type_num_slots type == 1
    then find_narrow_constant num_used o (is_64bit_type type) word 0
    else none

-- A constant that gets a slot of the table.
unfoldable pub add_constant : ℕ → ℕ → ℕ → Compile (Unit {0})
unfolding push get_type_num_slots is_64bit_type
add_constant word type slot = do
  modify (λ o. write_constant (is_64bit_type type) (u16 (slot - o.slot_first_const_index)) word o)
  push type slot
  modify (λ o. record o {
    slot_max_const_index = u16 (max (slot + get_type_num_slots type) o.slot_max_const_index);
  })

module _ (target : Target) where
  -- A constant that the code carries.
  unfoldable pub emit_inline_constant : ℕ → ℕ → Compile (Unit {0})
  unfolding emit_op emit_pointer emit_constant32 is_64bit_type
  emit_inline_constant word type = do
    emit_op target (if is_64bit_type type then op_const64 else op_const32)
    modify (if is_64bit_type type then emit_pointer word else emit_constant32 word)
    push_allocated_slot_and_emit type

  -- A slot of the table for the constant, or none left.
  abbrev pub place_constant : ℕ → ℕ → Compilation × Result ℕ → Compilation × Result (Unit {0})
  place_constant word type (o, err e) = emit_inline_constant word type o
  place_constant word type (o, ok slot) =
      if slot == slot_unused
      then emit_inline_constant word type o
      else add_constant word type slot o

  abbrev pub reuse_or_place : ℕ → ℕ → Option ℕ → Compile (Unit {0})
  reuse_or_place word type (some slot) o = push type slot o
  reuse_or_place word type none o = place_constant word type (allocate_constant_slots type o)

  -- Nothing is pushed where no code is emitted.
  abbrev pub push_emitting : ℕ → ℕ → Option CodePage → Compile (Unit {0})
  push_emitting word type none o = (o, ok tt)
  push_emitting word type (some page) o = reuse_or_place word type (find_constant o word type) o

  -- `PushConst`
  unfoldable pub push_const : ℕ → ℕ → Compile (Unit {0})
  unfolding find_constant add_constant emit_inline_constant
  push_const word type o = push_emitting word type o.page o

  -- The rest of `Compile_Const_…` once the literal is read.
  abbrev pub push_read : (ℕ → ℕ) → ℕ → Result (ℕ × Bytes) → Compile (Unit {0})
  push_read widen type (ok (value, rest)) o =
      push_const (widen value) type (record o { wasm = rest })
  push_read widen type (err e) o = (o, err e)

  -- `Compile_Const_i32`: the i32 is passed as a u64, with its sign extended.
  unfoldable pub compile_const_i32 : Compile (Unit {0})
  unfolding push_const
  compile_const_i32 o =
      push_read (λ v. if ltb v (2 ^ 31) then v else v + (2 ^ 64 - 2 ^ 32)) type_i32
        (try_leb (read_leb_i32 o.wasm)) o

  -- `Compile_Const_i64`
  unfoldable pub compile_const_i64 : Compile (Unit {0})
  unfolding push_const
  compile_const_i64 o = push_read (λ v. v) type_i64 (try_leb (read_leb_i64 o.wasm)) o

  -- `Compile_Const_f32` and `Compile_Const_f64`, on the bits of the number.
  unfoldable pub compile_const_f32 : Compile (Unit {0})
  unfolding push_const
  compile_const_f32 o = push_read (λ v. v) type_f32 (read_u32 o.wasm) o

  unfoldable pub compile_const_f64 : Compile (Unit {0})
  unfolding push_const
  compile_const_f64 o = push_read (λ v. v) type_f64 (read_u64 o.wasm) o

-- The slots that a byte of the code asks for, if it is taken for the opcode of a constant.
abbrev pub slots_of_opcode : ℕ → ℕ
slots_of_opcode code =
    if code == 0x41 || code == 0x43 then 1 else if code == 0x42 || code == 0x44 then 2 else 0

-- The scan of `ReserveConstants`
unfoldable pub count_constant_slots : Bytes → ℕ → ℕ
count_constant_slots [] num_constant_slots = num_constant_slots
count_constant_slots (code ∷ wasm) num_constant_slots =
    let num_slots = num_constant_slots + slots_of_opcode code in
    let rest = count_constant_slots wasm num_slots in
    if leb max_constant_table_size num_slots then num_constant_slots else rest

-- `ReserveConstants`
unfoldable pub reserve_constants : Compile (Unit {0})
unfolding count_constant_slots align_slot_to_type
reserve_constants o =
    let num_slots = align_slot_to_type (count_constant_slots o.wasm 0) type_i64 in
    let o' = record o { slot_first_dynamic_index = u16 (o.slot_first_const_index + num_slots) } in
    if leb max_function_slots o'.slot_first_dynamic_index
    then (o', err function_stack_overflow)
    else (o', ok tt)
