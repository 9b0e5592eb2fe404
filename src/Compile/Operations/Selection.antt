-- ===== src/Compile/Operations/Selection.antt =====
-- cpp/m3_compile.c, `Compile_Operator`: the choice of the operation from the table's entry.
use react_native_webassembly.Common.{
  ℕ, zero, suc, ◌⊎◌, ◌-◌, ◌≤◌, ◌<◌, Bool, true, false, ◌&&◌, Option, none, some, ◌≡◌, ◌==◌, ◌∙◌,
  refl, sym, ap, subst, arith, if◌then◌else◌, Option-cases, inl, inr,
}
use mathlib.Core.Option.{bind, some-injective, none-ne-some}
use react_native_webassembly.Compile.State.{Compilation}
use react_native_webassembly.Compile.Emit.{Operation, Target, listed}
use react_native_webassembly.Compile.Stack.{
  is_stack_top_in_register, is_stack_top_minus_1_in_register,
}
use react_native_webassembly.Compile.Operators.{select_operation}
use react_native_webassembly.Compile.Operations.{get_op_info}
use react_native_webassembly.Compile.Operations.Entry.{
  TableEntry, OpList, operation_at, info_of, unary_op_list, bin_op_list, commutative_bin_op_list,
}
use react_native_webassembly.Compile.Operations.Types.{values, values-agree}

-- The list of operations is one for as many operands as the entry's offset says.
abbrev fits_offset : ℕ → OpList → Bool
fits_offset offset unary_op_list = offset == 0
fits_offset offset bin_op_list = offset == 0xff
fits_offset offset commutative_bin_op_list = offset == 0xff
fits_offset offset op_list = false

abbrev fit_of : Option TableEntry → Option Bool
fit_of found = bind found λ entry. some (fits_offset entry.stack_offset entry.op_list)

abbrev listed_fit : ℕ → Option Bool
listed_fit opcode = fit_of (get_op_info opcode)

all_fit : values listed_fit 0x45 98 ≡ values (λ opcode. some true) 0x45 98
unfolding get_op_info bind
all_fit = refl

-- The choice, from the places of the two operands.
abbrev choose : Bool → (ℕ → Option Operation) → Bool → Bool → Option Operation
choose of_one operations top below =
    if of_one
    then if top then operations 0 else operations 1
    else if top
    then if below then operations 3 else operations 0
    else if below
    then elim (operations 1) [ none ↦ operations 0 | some op ↦ some op ]
    else operations 2

binary_offset : (offset : ℕ) → (offset == 0xff) ≡ true → (offset == 0) ≡ false
binary_offset offset binary = ground arith

-- Where the operation at a place of a list finds its operands: whether the top of the stack is in a
-- register, and whether the entry below is. The suffixes of the operations' names say it: `_r` and
-- `_s`, or `_rs`, `_sr` and `_ss` with the top first; a commutative operation has `_rs` for both.
abbrev pub Reads : OpList → ℕ → Bool → Bool → Type 0
Reads unary_op_list zero top below = top ≡ true
Reads unary_op_list (suc zero) top below = top ≡ false
Reads bin_op_list zero top below = (top ≡ true) × (below ≡ false)
Reads bin_op_list (suc zero) top below = (top ≡ false) × (below ≡ true)
Reads bin_op_list (suc (suc zero)) top below = (top ≡ false) × (below ≡ false)
Reads commutative_bin_op_list zero top below =
    ((top ≡ true) × (below ≡ false)) ⊎ ((top ≡ false) × (below ≡ true))
Reads commutative_bin_op_list (suc (suc zero)) top below = (top ≡ false) × (below ≡ false)
Reads op_list place top below = true ≡ false

abbrev Chosen : ℕ → ℕ → OpList → Bool → Bool → Type 0
Chosen offset opcode op_list top below =
    (place : ℕ) × (choose (offset == 0) (operation_at op_list opcode) top below
      ≡ some (listed opcode place))
    × Reads op_list place top below

choose-Chosen :
    (offset opcode : ℕ) (op_list : OpList) (top below : Bool)
    → fits_offset offset op_list ≡ true
    → (top && below) ≡ false
    → Chosen offset opcode op_list top below
unfolding operation_at
choose-Chosen offset opcode unary_op_list true below fits apart = (0, rw fits refl, refl)
choose-Chosen offset opcode unary_op_list false below fits apart = (1, rw fits refl, refl)
choose-Chosen offset opcode bin_op_list true false fits apart =
    (0, rw (binary_offset offset fits) refl, (refl, refl))
choose-Chosen offset opcode bin_op_list false true fits apart =
    (1, rw (binary_offset offset fits) refl, (refl, refl))
choose-Chosen offset opcode bin_op_list false false fits apart =
    (2, rw (binary_offset offset fits) refl, (refl, refl))
choose-Chosen offset opcode commutative_bin_op_list true false fits apart =
    (0, rw (binary_offset offset fits) refl, inl (refl, refl))
choose-Chosen offset opcode commutative_bin_op_list false true fits apart =
    (0, rw (binary_offset offset fits) refl, inr (refl, refl))
choose-Chosen offset opcode commutative_bin_op_list false false fits apart =
    (2, rw (binary_offset offset fits) refl, (refl, refl))
choose-Chosen offset opcode op_list top below fits apart = ground arith

-- The table has an operation for the instruction, and the one that is selected reads its operands
-- from the places where they are.
pub record Selected (target : Target) (opcode : ℕ) (o : Compilation) : Type 0 where
  pub entry : TableEntry
  pub place : ℕ
  pub found : get_op_info opcode ≡ some entry
  pub selected : select_operation target (info_of opcode entry) o ≡ some (listed opcode place)
  pub reads :
      Reads entry.op_list place (is_stack_top_in_register o) (is_stack_top_minus_1_in_register o)

fit-Selected :
    (target : Target) (opcode : ℕ) (o : Compilation)
    → listed_fit opcode ≡ some true
    → (is_stack_top_in_register o && is_stack_top_minus_1_in_register o) ≡ false
    → Selected target opcode o
unfolding bind
fit-Selected target opcode o fit apart = elim (Option-cases (get_op_info opcode)) [
  | inl missing ↦ absurd (none-ne-some true (sym (ap fit_of missing) ∙ fit))
  | inr (entry, known) ↦
      let fits : fits_offset entry.stack_offset entry.op_list ≡ true =
        some-injective (fits_offset entry.stack_offset entry.op_list) true
          (sym (ap fit_of known) ∙ fit) in
      let chosen =
        choose-Chosen entry.stack_offset opcode entry.op_list (is_stack_top_in_register o)
          (is_stack_top_minus_1_in_register o) fits apart in
      record {
        entry = entry;
        place = chosen.0;
        found = known;
        selected = chosen.1;
        reads = chosen.2;
      }
]

-- For an instruction from i32.eqz to f64.copysign, unless both entries on top of the stack are in
-- registers, `Compile_Operator` selects an operation of the table that reads the top of the stack,
-- and where it takes two operands the entry below, from the register or slot where it is.
pub select_operation-Selected :
    (target : Target) (opcode : ℕ) (o : Compilation)
    → 0x45 ≤ opcode
    → opcode < 0xa7
    → (is_stack_top_in_register o && is_stack_top_minus_1_in_register o) ≡ false
    → Selected target opcode o
select_operation-Selected target opcode o least most apart =
    let fit : listed_fit opcode ≡ some true =
      subst (λ k. listed_fit k ≡ some true) (omega arith)
        (values-agree listed_fit (λ k. some true) 0x45 98 all_fit (opcode - 0x45) (omega arith)) in
    fit-Selected target opcode o fit apart
