-- ===== src/Compile/State.antt =====
-- The state of the compiler: `M3Compilation` and `M3CompilationScope` of cpp/m3_compile.h, and the
-- functions of cpp/m3_compile.c as steps on it. Arrays are functions of the index.
use react_native_webassembly.Common.{
  ℕ, Bool, true, false, Option, List, ◌==◌, if◌then◌else◌, ◌≡◌, refl, subst,
}
use react_native_webassembly.Results.{Error, Result, ok, err}
use react_native_webassembly.Core.Read.{Bytes}
use react_native_webassembly.Runtime.{CodePage, FuncType, Runtime}
use react_native_webassembly.Module.{Module}

-- d_m3MaxFunctionStackHeight, d_m3MaxFunctionSlots, d_m3MaxConstantTableSize
abbrev pub max_function_stack_height : ℕ
max_function_stack_height = 2000

abbrev pub max_function_slots : ℕ
max_function_slots = 4000

abbrev pub max_constant_table_size : ℕ
max_constant_table_size = 120

-- d_m3Reg0SlotAlias, d_m3Fp0SlotAlias, c_slotUnused, c_m3RegisterUnallocated
abbrev pub reg0_slot_alias : ℕ
reg0_slot_alias = 60000

abbrev pub fp0_slot_alias : ℕ
fp0_slot_alias = 60002

abbrev pub slot_unused : ℕ
slot_unused = 0xffff

abbrev pub register_unallocated : ℕ
register_unallocated = 0

-- `M3CompilationScope`, without the addresses of code in it (`pc`, `patches`).
pub record Scope : Type 0 where
  pub depth : ℕ
  pub exit_stack_index : ℕ
  pub block_stack_index : ℕ
  pub type : Option FuncType
  pub opcode : ℕ
  pub is_polymorphic : Bool

-- What the compiler reads and writes of the `M3Function` that it compiles.
pub record CompiledFunction : Type 0 where
  pub func_type : Option FuncType
  pub num_locals : ℕ
  pub num_ret_slots : ℕ

-- `M3Compilation`; `outer` holds the scopes that `block.outer` leads to, the nearest first, and
-- `wasm` the bytes from `wasm` to `wasmEnd`.
pub record Compilation : Type 0 where
  pub runtime : Runtime
  pub wasm_module : Module
  pub wasm : Bytes
  pub block : Scope
  pub outer : List Scope
  pub function : Option CompiledFunction
  pub page : Option CodePage
  pub stack_first_dynamic_index : ℕ
  pub stack_index : ℕ
  pub slot_first_const_index : ℕ
  pub slot_max_const_index : ℕ
  pub slot_first_local_index : ℕ
  pub slot_first_dynamic_index : ℕ
  pub max_stack_slots : ℕ
  pub constants : ℕ → ℕ
  pub wasm_stack : ℕ → ℕ
  pub type_stack : ℕ → ℕ
  pub m3_slots : ℕ → ℕ
  pub slot_max_allocated_index_plus_one : ℕ
  pub reg_stack_index_plus_one : ℕ → ℕ
  pub previous_opcode : ℕ

-- A write to an array.
abbrev pub update : (ℕ → ℕ) → ℕ → ℕ → ℕ → ℕ
update f i v j = if j == i then v else f j

-- A function of the compiler: it changes the state, also where it fails.
abbrev pub Compile {ℓ} : Type ℓ → Type ℓ
Compile A = Compilation → Compilation × Result A

abbrev pub continue {ℓ κ} :
    {A : Type ℓ} {B : Type κ} → Compilation × Result A → (A → Compile B) → Compilation × Result B
continue (o, ok a) next = next a o
continue (o, err e) next = (o, err e)

infixl 5 ◌>>=◌ ◌>>◌
abbrev pub ◌>>=◌ {ℓ κ} : {A : Type ℓ} {B : Type κ} → Compile A → (A → Compile B) → Compile B
◌>>=◌ m next o = continue (m o) next

abbrev pub ◌>>◌ {κ} : {B : Type κ} → Compile (Unit {0}) → Compile B → Compile B
◌>>◌ m next o = continue (m o) (λ _. next)

abbrev pub return {ℓ} : {A : Type ℓ} → A → Compile A
return a o = (o, ok a)

abbrev pub throw {ℓ} : {A : Type ℓ} → Error → Compile A
throw e o = (o, err e)

-- A read of the state, and a change of it that cannot fail.
abbrev pub gets {ℓ} : {A : Type ℓ} → (Compilation → A) → Compile A
gets f o = (o, ok (f o))

abbrev pub modify : (Compilation → Compilation) → Compile (Unit {0})
modify f o = (f o, ok tt)

-- What a function makes true where it succeeds.
pub data Then {ℓ κ} {A : Type ℓ} (P : Compilation → A → Type κ)
    : Compilation × Result A → Type (ℓ ⊔ κ) where
  then_ok : {o : Compilation} {a : A} → P o a → Then P (o, ok a)
  then_err : {o : Compilation} {e : Error} → Then P (o, err e)

pub Then-continue {ℓ κ μ ν} :
    {A : Type ℓ} {B : Type κ} {Q : Compilation → A → Type μ} {P : Compilation → B → Type ν}
    (r : Compilation × Result A) {next : A → Compile B}
    → Then Q r
    → ((o : Compilation) (a : A) → Q o a → Then P (next a o))
    → Then P (continue r next)
Then-continue (o, ok a) (then_ok q) k = k o a q
Then-continue (o, err e) h k = then_err

pub Then-if {ℓ κ} :
    {A : Type ℓ} {P : Compilation → A → Type κ} (b : Bool) {r s : Compilation × Result A}
    → (b ≡ true → Then P r)
    → (b ≡ false → Then P s)
    → Then P (if b then r else s)
Then-if true h k = h refl
Then-if false h k = k refl

pub Then-of {ℓ κ} :
    {A : Type ℓ} {P : Compilation → A → Type κ} (r : Compilation × Result A)
    → ((o : Compilation) (a : A) → r ≡ (o, ok a) → P o a)
    → Then P r
Then-of (o, ok a) h = then_ok (h o a refl)
Then-of (o, err e) h = then_err

-- The same, of a function that does succeed.
pub data Done {ℓ κ} {A : Type ℓ} (P : Compilation → A → Type κ)
    : Compilation × Result A → Type (ℓ ⊔ κ) where
  done : {o : Compilation} {a : A} → P o a → Done P (o, ok a)

pub Done-Then {ℓ κ} :
    {A : Type ℓ} {P : Compilation → A → Type κ} (r : Compilation × Result A) → Done P r → Then P r
Done-Then (o, ok a) (done p) = then_ok p
Done-Then (o, err e) h = elim h [ ]

pub Done-continue {ℓ κ μ ν} :
    {A : Type ℓ} {B : Type κ} {Q : Compilation → A → Type μ} {P : Compilation → B → Type ν}
    (r : Compilation × Result A) {next : A → Compile B}
    → Done Q r
    → ((o : Compilation) (a : A) → Q o a → Done P (next a o))
    → Done P (continue r next)
Done-continue (o, ok a) (done q) k = k o a q
Done-continue (o, err e) h k = elim h [ ]

pub Done-weaken {ℓ κ μ} :
    {A : Type ℓ} {P : Compilation → A → Type κ} {Q : Compilation → A → Type μ}
    (r : Compilation × Result A)
    → Done P r
    → ((o : Compilation) (a : A) → P o a → Q o a)
    → Done Q r
Done-weaken (o, ok a) (done p) k = done (k o a p)
Done-weaken (o, err e) h k = elim h [ ]

pub Then-weaken {ℓ κ μ} :
    {A : Type ℓ} {P : Compilation → A → Type κ} {Q : Compilation → A → Type μ}
    (r : Compilation × Result A)
    → Then P r
    → ((o : Compilation) (a : A) → P o a → Q o a)
    → Then Q r
Then-weaken (o, ok a) (then_ok p) k = then_ok (k o a p)
Then-weaken (o, err e) h k = then_err

-- What holds of the state whatever the status is.
pub Then-always {ℓ κ} :
    {A : Type ℓ} {P : Compilation → A → Type κ} (o : Compilation) (r : Result A)
    → ((a : A) → P o a)
    → Then P (o, r)
Then-always o (ok a) h = then_ok (h a)
Then-always o (err e) h = then_err

Then-ok {ℓ κ} :
    {A : Type ℓ} {P : Compilation → A → Type κ} {o : Compilation} {a : A} → Then P (o, ok a) → P o a
Then-ok (then_ok p) = p

pub Then-value {ℓ κ} :
    {A : Type ℓ} {P : Compilation → A → Type κ} {r : Compilation × Result A} {o : Compilation}
    {a : A}
    → Then P r
    → r ≡ (o, ok a)
    → P o a
Then-value {P = P} h e = Then-ok (subst (Then P) e h)

pub Done-ok {ℓ κ} :
    {A : Type ℓ} {P : Compilation → A → Type κ} (r : Compilation × Result A)
    → Done P r
    → (o : Compilation) × (a : A) × (r ≡ (o, ok a)) × P o a
Done-ok (o, ok a) (done p) = (o, a, refl, p)
Done-ok (o, err e) h = elim h [ ]
