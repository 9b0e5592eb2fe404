-- ===== src/Compile/Operations/Types.antt =====
-- cpp/m3_compile.c, `c_operations`: the instructions that the table alone describes, against the
-- types that WebAssembly gives them.
use react_native_webassembly.Common.{
  ℕ, zero, suc, ◌+◌, ◌-◌, ◌≤◌, ◌<◌, Option, some, ◌≡◌, refl, sym, ap, ◌∙◌, ltb, leb, ◌==◌, ◌||◌,
  ◌&&◌, if◌then◌else◌, subst, List, [], ◌∷◌, get_elem?, arith,
}
use mathlib.Core.Option.{bind, some-injective}
use react_native_webassembly.Core.ValueType.{type_i32, type_i64, type_f32, type_f64}
use react_native_webassembly.Compile.Operations.{get_op_info}

-- The number of operands: tests against zero, operators of one operand and conversions take one.
abbrev pub num_operands : ℕ → ℕ
num_operands opcode =
    if opcode == 0x45 || opcode == 0x50
    then 1
    else if ltb opcode 0x67
    then 2
    else if ltb opcode 0x6a || (leb 0x79 opcode && ltb opcode 0x7c)
    then 1
    else if (leb 0x8b opcode && ltb opcode 0x92) || (leb 0x99 opcode && ltb opcode 0xa0)
    then 1
    else if leb 0xa7 opcode
    then 1
    else 2

-- The type of the result: a comparison gives an i32, arithmetic the type of its operands, and a
-- conversion the type it is named after.
abbrev pub conversion_type : ℕ → ℕ
conversion_type opcode =
    if ltb opcode 0xac
    then type_i32
    else if ltb opcode 0xb2
    then type_i64
    else if ltb opcode 0xb7
    then type_f32
    else if ltb opcode 0xbc
    then type_f64
    else if opcode == 0xbc || opcode == 0xc0 || opcode == 0xc1
    then type_i32
    else if opcode == 0xbe
    then type_f32
    else if opcode == 0xbf
    then type_f64
    else type_i64

abbrev pub result_type : ℕ → ℕ
result_type opcode =
    if ltb opcode 0x79
    then type_i32
    else if ltb opcode 0x8b
    then type_i64
    else if ltb opcode 0x99
    then type_f32
    else if ltb opcode 0xa7
    then type_f64
    else conversion_type opcode

-- The change of the stack's height, as the bit pattern of an i8, and the type.
abbrev pub typing : ℕ → Option (ℕ × ℕ)
typing opcode = some ((if num_operands opcode == 1 then 0 else 0xff), result_type opcode)

abbrev pub listed_typing : ℕ → Option (ℕ × ℕ)
listed_typing opcode = bind (get_op_info opcode) λ entry. some (entry.stack_offset, entry.type)

-- The values of a function from a number on.
module _ {ℓ} {A : Type ℓ} where
  abbrev pub values : (ℕ → A) → ℕ → ℕ → List A
  values f first zero = []
  values f first (suc n) = f first ∷ values f (suc first) n

  values-at :
      (f : ℕ → A) (first n i : ℕ) → i < n → get_elem? (values f first n) i ≡ some (f (first + i))
  values-at f first zero i h = elim h [ ]
  values-at f first (suc n) zero h = ap (λ k. some (f k)) (omega arith)
  values-at f first (suc n) (suc i) h =
      values-at f (suc first) n i (omega arith) ∙ ap (λ k. some (f k)) (omega arith)

  pub values-agree :
      (f g : ℕ → A) (first n : ℕ)
      → values f first n ≡ values g first n
      → (i : ℕ) → i < n
      → f (first + i) ≡ g (first + i)
  values-agree f g first n same i h =
      some-injective (f (first + i)) (g (first + i))
        (sym (values-at f first n i h) ∙ ap (λ xs. get_elem? xs i) same ∙ values-at g first n i h)

all_listed : values listed_typing 0x45 128 ≡ values typing 0x45 128
unfolding get_op_info bind
all_listed = refl

-- An instruction from i32.eqz to i64.extend32_s stands in the table with the change of the stack's
-- height and with the result type that WebAssembly gives it.
pub get_op_info-typing :
    (opcode : ℕ) → 0x45 ≤ opcode → opcode < 0xc5 → listed_typing opcode ≡ typing opcode
get_op_info-typing opcode least most =
    subst (λ k. listed_typing k ≡ typing k) (omega arith)
      (values-agree listed_typing typing 0x45 128 all_listed (opcode - 0x45) (omega arith))
