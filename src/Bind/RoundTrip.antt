-- ===== src/Bind/RoundTrip.antt =====
-- The signature strings of cpp/m3_bind.c against the signatures that they are written for.
use react_native_webassembly.Common.{
  not, ◌↔◌, ap, sym, ◌∙◌, ℕ, suc, ◌+◌, ◌-◌, ◌≤◌, ◌<◌, ◌≡◌, refl, arith, Bool, true, false, List, [],
  ◌∷◌, ◌++◌, append_assoc, append-nil, ltb, ◌==◌, if◌then◌else◌, length, length-append, All,
}
use react_native_webassembly.Results.{
  Result, ok, ◌>>=◌, throwif, function_signature_mismatch, malformed_function_signature,
  too_many_args_rets,
}
use react_native_webassembly.Runtime.{FuncType}
use react_native_webassembly.FuncTypes.{are_func_types_equal}
use react_native_webassembly.FuncTypes.Interning.{SameType, are_func_types_equal_iff}
use react_native_webassembly.Bind.{
  add_ret, add_arg, add_type, parse_signature, validate_signature, no_types, signature_to_func_type,
  open_paren, close_paren,
}

-- A type of a value: i32, i64, f32 or f64.
abbrev pub IsValue : ℕ → Type 0
IsValue type = (1 ≤ type) × (type ≤ 4)

-- The character of a type.
abbrev pub char_of : ℕ → ℕ
char_of type =
    if type == 1 then 0x69 else if type == 2 then 0x49 else if type == 3 then 0x66 else 0x46

abbrev pub chars_of : List ℕ → List ℕ
chars_of [] = []
chars_of (type ∷ types) = char_of type ∷ chars_of types

-- A signature string: the results, and the arguments in parentheses.
abbrev pub signature_of : List ℕ → List ℕ → List ℕ
signature_of rets args = chars_of rets ++ (open_paren ∷ (chars_of args ++ (close_paren ∷ [])))

add_type-ret :
    (limit type : ℕ) (t : FuncType)
    → IsValue type
    → t.num_rets < limit
    → add_type limit true t (char_of type) ≡ ok (add_ret t type)
unfolding add_type
add_type-ret limit type t v h = ground arith

add_type-arg :
    (limit type : ℕ) (t : FuncType)
    → IsValue type
    → t.num_rets + t.num_args < limit
    → add_type limit false t (char_of type) ≡ ok (add_arg t type)
unfolding add_type
add_type-arg limit type t v h = ground arith

-- A character of a type is none of those that the loop looks for.
parse_signature-char :
    (limit type : ℕ) (rets : Bool) (t : FuncType) (sig : List ℕ) {t' : FuncType}
    → IsValue type
    → add_type limit rets t (char_of type) ≡ ok t'
    → parse_signature limit rets t (char_of type ∷ sig) ≡ parse_signature limit rets t' sig
unfolding parse_signature
parse_signature-char limit type rets t sig v e = ground (arith, e)

-- The signature with results or arguments behind those that it has.
abbrev more_rets : FuncType → List ℕ → FuncType
more_rets t rets = record t { num_rets = t.num_rets + length rets; types = t.types ++ rets }

abbrev more_args : FuncType → List ℕ → FuncType
more_args t args = record t { num_args = t.num_args + length args; types = t.types ++ args }

FuncType-ext :
    (a b : FuncType) → a.num_rets ≡ b.num_rets → a.num_args ≡ b.num_args → a.types ≡ b.types → a ≡ b
FuncType-ext a b r n t = ground arith

parse_signature-rets :
    (limit : ℕ) (rets : List ℕ) (t : FuncType) (rest : List ℕ)
    → All IsValue rets
    → t.num_rets + length rets ≤ limit
    → parse_signature limit true t (chars_of rets ++ rest)
      ≡ parse_signature limit true (more_rets t rets) rest
parse_signature-rets limit [] t rest v h =
    ap (λ (u : FuncType). parse_signature limit true u rest)
      (FuncType-ext t (more_rets t []) (omega arith) refl (sym (append-nil t.types)))
parse_signature-rets limit (type ∷ rets) t rest v h =
    parse_signature-char limit type true t (chars_of rets ++ rest) v.0
      (add_type-ret limit type t v.0 (omega arith))
    ∙ parse_signature-rets limit rets (add_ret t type) rest v.1 (omega arith)
    ∙ ap (λ (u : FuncType). parse_signature limit true u rest)
        (FuncType-ext (more_rets (add_ret t type) rets) (more_rets t (type ∷ rets)) (omega arith)
          refl (append_assoc t.types (type ∷ []) rets))

parse_signature-args :
    (limit : ℕ) (args : List ℕ) (t : FuncType) (rest : List ℕ)
    → All IsValue args
    → t.num_rets + (t.num_args + length args) ≤ limit
    → parse_signature limit false t (chars_of args ++ rest)
      ≡ parse_signature limit false (more_args t args) rest
parse_signature-args limit [] t rest v h =
    ap (λ (u : FuncType). parse_signature limit false u rest)
      (FuncType-ext t (more_args t []) refl (omega arith) (sym (append-nil t.types)))
parse_signature-args limit (type ∷ args) t rest v h =
    parse_signature-char limit type false t (chars_of args ++ rest) v.0
      (add_type-arg limit type t v.0 (omega arith))
    ∙ parse_signature-args limit args (add_arg t type) rest v.1 (omega arith)
    ∙ ap (λ (u : FuncType). parse_signature limit false u rest)
        (FuncType-ext (more_args (add_arg t type) args) (more_args t (type ∷ args)) refl
          (omega arith) (append_assoc t.types (type ∷ []) args))

length-chars_of : (types : List ℕ) → length (chars_of types) ≡ length types
length-chars_of [] = refl
length-chars_of (type ∷ types) = ap suc (length-chars_of types)

length-signature_of :
    (rets args : List ℕ) → length (signature_of rets args) ≡ length rets + (length args + 2)
length-signature_of rets args = omega (
  arith,
  length-append (chars_of rets) (open_paren ∷ (chars_of args ++ (close_paren ∷ []))),
  length-append (chars_of args) (close_paren ∷ []),
  length-chars_of rets,
  length-chars_of args,
)

past_open :
    (limit : ℕ) (t : FuncType) (rest : List ℕ)
    → parse_signature limit true t (open_paren ∷ rest) ≡ parse_signature limit false t rest
unfolding parse_signature
past_open limit t rest = refl

at_close : (limit : ℕ) (t : FuncType) → parse_signature limit false t (close_paren ∷ []) ≡ ok t
unfolding parse_signature
at_close limit t = refl

-- The tests of the length, passed.
signature_to_func_type-guarded :
    (sig : List ℕ) (limit : ℕ)
    → length sig ≡ limit + 2
    → limit ≤ 1000
    → signature_to_func_type sig ≡ parse_signature limit true no_types sig
unfolding signature_to_func_type
signature_to_func_type-guarded sig limit e h =
    passed (length sig) (λ n. parse_signature n true no_types sig) e
  where
    passed :
        (n : ℕ) (parse : ℕ → Result FuncType)
        → n ≡ limit + 2
        → (throwif malformed_function_signature (ltb n 2) >>= λ u.
            throwif too_many_args_rets (ltb 1000 (n - 2)) >>= λ u. parse (n - 2))
          ≡ parse limit
    passed n parse e =
        let same : n - 2 ≡ limit = omega (arith, e) in ground (arith, e, h, ap parse same)

-- `SignatureToFuncType` reads the string that is written for results and arguments of value types, at
-- most 1000 of them, as the signature with these results and arguments.
pub signature_to_func_type-signature_of :
    (rets args : List ℕ)
    → All IsValue rets
    → All IsValue args
    → length rets + length args ≤ 1000
    → signature_to_func_type (signature_of rets args)
      ≡ ok (record { num_rets = length rets; num_args = length args; types = rets ++ args })
signature_to_func_type-signature_of rets args v w h =
    let limit = length rets + length args in
    let behind = chars_of args ++ (close_paren ∷ []) in
    let results = more_rets no_types rets in
    signature_to_func_type-guarded (signature_of rets args) limit
      (omega (arith, length-signature_of rets args)) h
    ∙ parse_signature-rets limit rets no_types (open_paren ∷ behind) v (omega arith)
    ∙ past_open limit results behind
    ∙ parse_signature-args limit args results (close_paren ∷ []) w (omega arith)
    ∙ at_close limit (more_args results args)
    ∙ ap ok (
        FuncType-ext (more_args results args)
          (record { num_rets = length rets; num_args = length args; types = rets ++ args })
          (omega arith) (omega arith) refl)

-- The signature with these results and arguments.
abbrev pub func_type_of : List ℕ → List ℕ → FuncType
func_type_of rets args = record {
  num_rets = length rets;
  num_args = length args;
  types = rets ++ args;
}

-- Linking with the string that is written for results and arguments of value types, at most 1000 of
-- them, is accepted just for a function with these results and arguments.
pub validate_signature_iff :
    (t : FuncType) (rets args : List ℕ)
    → All IsValue rets
    → All IsValue args
    → length rets + length args ≤ 1000
    → (validate_signature t (signature_of rets args) ≡ ok tt) ↔ SameType (func_type_of rets args) t
validate_signature_iff t rets args v w h = (
  (λ e.
      (are_func_types_equal_iff (func_type_of rets args) t).0
        (from_ok (are_func_types_equal (func_type_of rets args) t) (sym computed ∙ e))),
  λ same.
      computed
      ∙ ap (λ b. throwif function_signature_mismatch (not b))
          ((are_func_types_equal_iff (func_type_of rets args) t).1 same),
)
  where
    computed :
        validate_signature t (signature_of rets args)
        ≡ throwif function_signature_mismatch
            (not (are_func_types_equal (func_type_of rets args) t))
    computed =
        unfold validate_signature in
        ap
          (λ (r : Result FuncType).
            r >>= λ ftype. throwif function_signature_mismatch (not (are_func_types_equal ftype t)))
          (signature_to_func_type-signature_of rets args v w h)

    from_ok : (b : Bool) → throwif function_signature_mismatch (not b) ≡ ok tt → b ≡ true
    from_ok true e = refl
    from_ok false e = cc
