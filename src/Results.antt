-- ===== src/Results.antt =====
-- The results of cpp/wasm3.h (`M3Result`, a constant string or NULL) and the macros of
-- cpp/m3_exception.h that hand them on.
use react_native_webassembly.Common.{
  Bool, true, false, if◌then◌else◌, Option, none, some, ◌≡◌, refl, ap, subst,
}

-- The constants `m3Err_…` that the modelled code returns, and the strings that it writes in place;
-- `null_pointer` and `past_the_array` are no results of the library: what the program does there is
-- not defined.
pub data Error : Type 0 where
  malloc_failed incompatible_wasm_version wasm_malformed misordered_wasm_section : Error
  wasm_underrun wasm_missing_init_expr leb_overflow missing_utf8 : Error
  wasm_section_underrun wasm_section_overrun invalid_type_id too_many_memory_sections : Error
  too_many_args_rets module_already_linked function_lookup_failed : Error
  function_stack_overflow function_stack_underrun malloc_failed_code_page : Error
  type_mismatch missing_compiled_code wasm_memory_overflow argument_count_mismatch : Error
  global_lookup_failed global_type_mismatch unknown_opcode : Error
  trap_out_of_bounds_memory_access trap_division_by_zero trap_integer_overflow : Error
  trap_indirect_call_type_mismatch trap_table_index_out_of_range : Error
  trap_table_element_is_null trap_stack_overflow : Error
  too_many_types too_many_functions too_many_imports too_many_exports too_many_globals : Error
  too_many_element_segments too_many_data_segments too_many_names : Error
  start_function_out_of_bounds mismatched_function_count data_segment_underflow : Error
  type_sig_out_of_bounds linear_memory_limit unallocated_linear_memory : Error
  data_segment_out_of_bounds table_underflow table_overflow function_index_out_of_range : Error
  element_table_index no_modules_loaded unknown_argument_type function_not_called : Error
  unknown_return_type slot_usage_count_overflow : Error
  malformed_function_signature unknown_argument_type_char return_count_overflow : Error
  arg_count_overflow function_signature_mismatch module_not_linked : Error
  type_count_mismatch setting_immutable_global global_index_out_of_bounds : Error
  local_index_out_of_bounds invalid_block_depth no_operation_for_opcode no_compiler : Error
  restricted_opcode function_import_missing function_type_out_of_bounds : Error
  null_pointer past_the_array : Error

-- A function that returns `m3Err_none` and a value, or an error.
pub data Result {ℓ} (A : Type ℓ) : Type ℓ where
  ok : A → Result A
  err : Error → Result A

-- `_ (TRY)`: go on after success, hand an error to the caller.
infixl 5 ◌>>=◌ ◌>>◌
abbrev pub ◌>>=◌ {ℓ μ} : {S : Type ℓ} {T : Type μ} → Result S → (S → Result T) → Result T
err e >>= next = err e
ok value >>= next = next value

abbrev pub ◌>>◌ {μ} : {T : Type μ} → Result (Unit {0}) → Result T → Result T
first >> next = first >>= λ none_left. next

-- `_throwif (ERROR, COND)`
abbrev pub throwif : Error → Bool → Result (Unit {0})
throwif e true = err e
throwif e false = ok tt

-- An `M3Result` with nothing beside it.
abbrev pub Status : Type 0
Status = Option Error

-- `_ (TRY)` over a status and the value that was written through a pointer.
abbrev pub checked {ℓ} : {A : Type ℓ} → Status → A → Result A
checked none a = ok a
checked (some e) a = err e

-- `_ (TRY)` beside a state that stays changed when the rest is left out.
abbrev pub and_then {ℓ κ μ} :
    {S : Type ℓ} {A : Type κ} {B : Type μ} → S → Result A → (A → S × Result B) → S × Result B
and_then s (ok a) f = f a
and_then s (err e) f = (s, err e)

pub and_then-by {ℓ κ μ ν} :
    {S : Type ℓ} {A : Type κ} {B : Type μ} (P : S × Result B → Type ν) (s : S) (m : Result A)
    {f : A → S × Result B}
    → ((e : Error) → P (s, err e))
    → ((a : A) → m ≡ ok a → P (f a))
    → P (and_then s m f)
and_then-by P s (ok a) h k = k a refl
and_then-by P s (err e) h k = h e

pub and_then-cong {ℓ κ μ} :
    {S : Type ℓ} {A : Type κ} {B : Type μ} (s : S) (m : Result A) {f g : A → S × Result B}
    → ((a : A) → m ≡ ok a → f a ≡ g a)
    → and_then s m f ≡ and_then s m g
and_then-cong s (ok a) h = h a refl
and_then-cong s (err e) h = refl

pub >>=-cong {ℓ κ} :
    {A : Type ℓ} {B : Type κ} (m : Result A) {f g : A → Result B}
    → ((a : A) → m ≡ ok a → f a ≡ g a)
    → (m >>= f) ≡ (m >>= g)
>>=-cong (ok a) h = h a refl
>>=-cong (err e) h = refl

-- What holds of the value, if there is one.
pub data Holds {ℓ κ} {A : Type ℓ} (P : A → Type κ) : Result A → Type (ℓ ⊔ κ) where
  holds_ok : {a : A} → P a → Holds P (ok a)
  holds_err : {e : Error} → Holds P (err e)

abbrev ok_or {ℓ} : {A : Type ℓ} → A → Result A → A
ok_or d (ok a) = a
ok_or d (err e) = d

-- A test whose outcome the two branches may use.
pub Holds-if {ℓ κ} :
    {A : Type ℓ} {P : A → Type κ} (b : Bool) {r s : Result A}
    → (b ≡ true → Holds P r)
    → (b ≡ false → Holds P s)
    → Holds P (if b then r else s)
Holds-if true h k = h refl
Holds-if false h k = k refl

pub Holds-value {ℓ κ} :
    {A : Type ℓ} (P : A → Type κ) (r : Result A) {a : A} → Holds P r → r ≡ ok a → P a
Holds-value P (ok b) {a} (holds_ok p) e = let same : b ≡ a = ap (ok_or b) e in subst P same p
Holds-value P (err x) h e = cc

-- A fact on the first of two steps serves the second.
pub Holds-bind {ℓ κ μ ν} :
    {A : Type ℓ} {B : Type κ} {Q : A → Type μ} {P : B → Type ν} (m : Result A) {f : A → Result B}
    → Holds Q m
    → ((a : A) → Q a → Holds P (f a))
    → Holds P (m >>= f)
Holds-bind (ok a) (holds_ok q) k = k a q
Holds-bind (err e) h k = holds_err

-- Nothing need be known of the first step.
pub Holds-then {ℓ κ ν} :
    {A : Type ℓ} {B : Type κ} {P : B → Type ν} (m : Result A) {f : A → Result B}
    → ((a : A) → Holds P (f a))
    → Holds P (m >>= f)
Holds-then (ok a) k = k a
Holds-then (err e) k = holds_err

pub Holds-of {ℓ κ} :
    {A : Type ℓ} (P : A → Type κ) (r : Result A) → ((a : A) → r ≡ ok a → P a) → Holds P r
Holds-of P (ok a) k = holds_ok (k a refl)
Holds-of P (err e) k = holds_err
