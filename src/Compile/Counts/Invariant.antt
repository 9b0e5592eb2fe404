-- ===== src/Compile/Counts/Invariant.antt =====
-- cpp/m3_compile.c, the accounts of the compiler within a block: usage counts, entries of the stack
-- and registers.
use react_native_webassembly.Common.{ℕ, zero, suc, ◌+◌, ◌-◌, ◌^◌, ◌≤◌, ◌<◌, ◌≡◌, ◌≢◌, ◌⊎◌}
use react_native_webassembly.Core.ValueType.{type_v128}
use react_native_webassembly.Compile.State.{
  Compilation, max_function_slots, max_function_stack_height, reg0_slot_alias, fp0_slot_alias,
}
use react_native_webassembly.Compile.Slots.{get_type_num_slots}
use react_native_webassembly.Compile.Counts.{uses}

-- The alias of a register.
abbrev pub alias_of : ℕ → ℕ
alias_of zero = reg0_slot_alias
alias_of (suc n) = fp0_slot_alias

-- An entry stands for slots that were allocated at some time, or for a register, and then the
-- register knows it.
abbrev pub EntryOk : ℕ → ℕ → ℕ → ℕ → (ℕ → ℕ) → Type 0
EntryOk highest slot type i registers =
    (slot + get_type_num_slots type ≤ highest)
    ⊎ ((slot ≡ alias_of 0) × (registers 0 ≡ suc i))
    ⊎ ((slot ≡ alias_of 1) × (registers 1 ≡ suc i))

-- Beside what the entries outside the block hold, each dynamic slot is counted as often as entries of
-- the block refer to it.
pub record IsCounted (outside : ℕ → ℕ) (o : Compilation) : Type 0 where
  pub low : o.block.block_stack_index ≤ o.stack_index
  pub high : o.stack_index ≤ max_function_stack_height
  pub highest : o.slot_max_allocated_index_plus_one ≤ max_function_slots
  pub bytes : (j : ℕ) → o.m3_slots j < 2 ^ 8
  pub counts :
      (j : ℕ)
      → o.slot_first_dynamic_index ≤ j
      → o.m3_slots j
        ≡ outside j
          + uses o.wasm_stack o.type_stack o.slot_first_dynamic_index o.block.block_stack_index
              (o.stack_index - o.block.block_stack_index)
              j
  pub entries :
      (i : ℕ)
      → o.block.block_stack_index ≤ i
      → i < o.stack_index
      → EntryOk o.slot_max_allocated_index_plus_one
          (o.wasm_stack i)
          (o.type_stack i)
          i
          o.reg_stack_index_plus_one
  pub narrow :
      (i : ℕ) → o.block.block_stack_index ≤ i → i < o.stack_index → o.type_stack i ≢ type_v128
  pub registers :
      (r : ℕ)
      → r < 2
      → o.reg_stack_index_plus_one r ≢ 0
      → (o.block.block_stack_index < o.reg_stack_index_plus_one r)
        × (o.reg_stack_index_plus_one r ≤ o.stack_index)
        × (o.wasm_stack (o.reg_stack_index_plus_one r - 1) ≡ alias_of r)
