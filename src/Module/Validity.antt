-- ===== src/Module/Validity.antt =====
-- What the parser of cpp/m3_parse.c keeps of a module, and the functions of cpp/m3_module.c.
use react_native_webassembly.Common.{
  subst, sym, ℕ, zero, suc, ◌+◌, ◌-◌, ◌^◌, ◌≤◌, ◌<◌, ◌≡◌, ◌⊎◌, inl, refl, arith, Option, none, some,
  List, [], ◌∷◌, ◌++◌, length, get_elem?, set, replicate, length-append, length-replicate, All, u32,
}
use react_native_webassembly.Results.{ok}
use react_native_webassembly.FuncTypes.{TypeRef}
use react_native_webassembly.Module.{
  ImportInfo, Function, Module, zeroed_function, new_module, write_function,
  module_prealloc_functions, module_get_function, describe_import, module_add_function,
}

-- A reference to one of the `n` signatures of the environment.
abbrev pub HasType : ℕ → Option TypeRef → Type 0
HasType n none = ⊥
HasType n (some ref) = ref < n

-- A function in use has no more names than there is room for, and a signature.
abbrev pub IsUsed : ℕ → Function → Type 0
IsUsed n f = (length f.names ≤ 3) × HasType n f.func_type

-- The first `used` functions of the array are in use, and the others are as `calloc` made them.
abbrev pub AreUsed : ℕ → ℕ → List Function → Type 0
AreUsed n zero [] = Unit {0}
AreUsed n zero (f ∷ fs) = (f ≡ zeroed_function) × AreUsed n zero fs
AreUsed n (suc used) [] = ⊥
AreUsed n (suc used) (f ∷ fs) = IsUsed n f × AreUsed n used fs

-- A module over an environment with `n` signatures: its types are among them, its functions are in
-- use as far as it counts them, the imports are among them, and a start function is one of them.
abbrev pub IsValid : ℕ → Module → Type 0
IsValid n m =
    All (λ ref. ref < n) m.func_types
    × AreUsed n m.num_functions m.functions
    × (m.num_func_imports ≤ m.num_functions)
    × ((m.start_function ≡ 2 ^ 32 - 1) ⊎ (m.start_function < m.num_functions))

pub new_module-IsValid : (n : ℕ) → IsValid n new_module
new_module-IsValid n = (tt, tt, omega arith, inl refl)

pub AreUsed-length : (n used : ℕ) (fs : List Function) → AreUsed n used fs → used ≤ length fs
AreUsed-length n zero fs h = omega arith
AreUsed-length n (suc used) [] h = absurd h
AreUsed-length n (suc used) (f ∷ fs) h = omega (arith, AreUsed-length n used fs h.1)

pub AreUsed-get :
    (n used : ℕ) (fs : List Function) (i : ℕ) {f : Function}
    → AreUsed n used fs
    → i < used
    → get_elem? fs i ≡ some f
    → IsUsed n f
AreUsed-get n zero fs i h k e = absurd (omega arith)
AreUsed-get n (suc used) [] i h k e = absurd h
AreUsed-get n (suc used) (g ∷ fs) zero {f} h k e = ground arith
AreUsed-get n (suc used) (g ∷ fs) (suc i) {f} h k e =
    AreUsed-get n used fs i {f = f} h.1 (omega arith) e

pub AreUsed-set :
    (n used : ℕ) (fs : List Function) (i : ℕ) (f : Function)
    → AreUsed n used fs
    → i < used
    → IsUsed n f
    → AreUsed n used (set fs i f)
AreUsed-set n zero fs i f h k e = absurd (omega arith)
AreUsed-set n (suc used) [] i f h k e = absurd h
AreUsed-set n (suc used) (g ∷ fs) zero f h k e = (e, h.1)
AreUsed-set n (suc used) (g ∷ fs) (suc i) f h k e =
    (h.0, AreUsed-set n used fs i f h.1 (omega arith) e)

pub AreUsed-next :
    (n used : ℕ) (fs : List Function) (f : Function)
    → AreUsed n used fs
    → used < length fs
    → IsUsed n f
    → AreUsed n (suc used) (set fs used f)
AreUsed-next n zero [] f h k e = absurd (omega arith)
AreUsed-next n zero (g ∷ fs) f h k e = (e, h.1)
AreUsed-next n (suc used) [] f h k e = absurd h
AreUsed-next n (suc used) (g ∷ fs) f h k e = (h.0, AreUsed-next n used fs f h.1 (omega arith) e)

-- The first function that is not in use is as `calloc` made it.
pub AreUsed-zeroed :
    (n used : ℕ) (fs : List Function) {f : Function}
    → AreUsed n used fs
    → get_elem? fs used ≡ some f
    → f ≡ zeroed_function
AreUsed-zeroed n zero [] h e = cc
AreUsed-zeroed n zero (g ∷ fs) h e = ground arith
AreUsed-zeroed n (suc used) [] h e = absurd h
AreUsed-zeroed n (suc used) (g ∷ fs) {f} h e = AreUsed-zeroed n used fs {f = f} h.1 e

pub AreUsed-replicate : (n k : ℕ) → AreUsed n 0 (replicate k zeroed_function)
AreUsed-replicate n zero = tt
AreUsed-replicate n (suc k) = (refl, AreUsed-replicate n k)

pub AreUsed-append :
    (n used : ℕ) (fs : List Function) (k : ℕ)
    → AreUsed n used fs
    → AreUsed n used (fs ++ replicate k zeroed_function)
AreUsed-append n zero [] k h = AreUsed-replicate n k
AreUsed-append n zero (f ∷ fs) k h = (h.0, AreUsed-append n zero fs k h.1)
AreUsed-append n (suc used) [] k h = absurd h
AreUsed-append n (suc used) (f ∷ fs) k h = (h.0, AreUsed-append n used fs k h.1)

HasType-mono : (n n' : ℕ) (ref : Option TypeRef) → n ≤ n' → HasType n ref → HasType n' ref
HasType-mono n n' none h k = k
HasType-mono n n' (some ref) h k = omega arith

pub AreUsed-mono :
    (n n' used : ℕ) (fs : List Function) → n ≤ n' → AreUsed n used fs → AreUsed n' used fs
AreUsed-mono n n' zero [] k h = tt
AreUsed-mono n n' zero (f ∷ fs) k h = (h.0, AreUsed-mono n n' zero fs k h.1)
AreUsed-mono n n' (suc used) [] k h = h
AreUsed-mono n n' (suc used) (f ∷ fs) k h =
    ((h.0.0, HasType-mono n n' f.func_type k h.0.1), AreUsed-mono n n' used fs k h.1)

All-get :
    (n : ℕ) (refs : List TypeRef) (i : ℕ) {ref : TypeRef}
    → All (λ r. r < n) refs
    → get_elem? refs i ≡ some ref
    → ref < n
All-get n [] i h e = cc
All-get n (r ∷ refs) zero h e = ground arith
All-get n (r ∷ refs) (suc i) {ref} h e = All-get n refs i {ref = ref} h.1 e

describe_import-IsUsed :
    (n : ℕ) (info : Option ImportInfo) (f : Function) {ref : TypeRef}
    → f ≡ zeroed_function
    → ref < n
    → IsUsed n (describe_import info (record f { func_type = some ref }))
unfolding describe_import
describe_import-IsUsed n none f e k = ground arith
describe_import-IsUsed n (some info) f e k = ground arith

prealloc-AreUsed :
    (n : ℕ) (m : Module) (used total : ℕ)
    → AreUsed n used m.functions
    → AreUsed n used (module_prealloc_functions m total).functions
unfolding module_prealloc_functions
prealloc-AreUsed n m used total h =
    ground (arith, AreUsed-append n used m.functions (total - length m.functions) h)

prealloc-room :
    (m : Module) (total : ℕ) → total ≤ length (module_prealloc_functions m total).functions
unfolding module_prealloc_functions
prealloc-room m total = ground (
  arith,
  length-append m.functions (replicate (total - length m.functions) zeroed_function),
  length-replicate (total - length m.functions) zeroed_function,
)

-- Making room leaves a module valid.
pub module_prealloc_functions-IsValid :
    (n : ℕ) (m : Module) (total : ℕ) → IsValid n m → IsValid n (module_prealloc_functions m total)
unfolding module_prealloc_functions
module_prealloc_functions-IsValid n m total h =
    ground (arith, prealloc-AreUsed n m m.num_functions total h.1)

pub module_get_function-some :
    (m : Module) (i : ℕ) {f : Function}
    → module_get_function m i ≡ some f
    → (i < m.num_functions) × (get_elem? m.functions i ≡ some f)
unfolding module_get_function
module_get_function-some m i h = ground arith

-- `Module_AddFunction` keeps the module valid, and counts one function more.
pub module_add_function-IsValid :
    (n : ℕ) (m : Module) (type_index : ℕ) (info : Option ImportInfo) {m' : Module}
    → IsValid n m
    → module_add_function m type_index info ≡ ok m'
    → IsValid n m'
      × (m'.num_functions ≡ suc m.num_functions)
      × (m'.num_func_imports ≡ m.num_func_imports)
module_add_function-IsValid n m type_index info {m'} h e =
    go (get_elem? m.func_types type_index) (module_get_function room m.num_functions) refl refl
  where
    counted : Module
    counted = record m { num_functions = u32 (m.num_functions + 1) }

    room : Module
    room = module_prealloc_functions counted (u32 (m.num_functions + 1))

    still_used : AreUsed n m.num_functions room.functions
    still_used = prealloc-AreUsed n counted m.num_functions (u32 (m.num_functions + 1)) h.1

    fields :
        (room.func_types ≡ m.func_types)
        × (room.num_functions ≡ u32 (m.num_functions + 1))
        × (room.num_func_imports ≡ m.num_func_imports)
        × (room.start_function ≡ m.start_function)
    fields = unfold module_prealloc_functions in ground arith

    go :
        (type : Option TypeRef) (found : Option Function)
        → get_elem? m.func_types type_index ≡ type
        → module_get_function room m.num_functions ≡ found
        → IsValid n m'
          × (m'.num_functions ≡ suc m.num_functions)
          × (m'.num_func_imports ≡ m.num_func_imports)
    go none found a b = unfold module_add_function in ground arith
    go (some ref) none a b = unfold module_add_function in ground arith
    go (some ref) (some f) a b =
        subst
          (λ t.
            IsValid n t
            × (t.num_functions ≡ suc m.num_functions)
            × (t.num_func_imports ≡ m.num_func_imports))
          same
          (
            (
              ground (arith, fields),
              subst (λ k. AreUsed n k (set room.functions m.num_functions new)) (sym counts)
                  (AreUsed-next n m.num_functions room.functions new still_used
                    (omega
                      (arith, counts, prealloc-room counted (u32 (m.num_functions + 1)), fields))
                    used),
              ground (arith, fields, counts),
              ground (arith, fields, counts),
            ),
            counts,
            fields.2,
          )
      where
        new : Function
        new = describe_import info (record f { func_type = some ref })

        found :
            (m.num_functions < room.num_functions)
            × (get_elem? room.functions m.num_functions ≡ some f)
        found = module_get_function-some room m.num_functions b

        counts : room.num_functions ≡ suc m.num_functions
        counts = omega (arith, fields, found.0)

        same : write_function room m.num_functions new ≡ m'
        same = unfold module_add_function in ground arith

        used : IsUsed n new
        used =
            describe_import-IsUsed n info f
              (AreUsed-zeroed n m.num_functions room.functions still_used found.1)
              (All-get n m.func_types type_index h.0 a)

-- A write to a function in use.
pub write_function-IsValid :
    (n : ℕ) (m : Module) (i : ℕ) (f : Function)
    → IsValid n m
    → i < m.num_functions
    → IsUsed n f
    → IsValid n (write_function m i f)
write_function-IsValid n m i f h k used =
    (h.0, AreUsed-set n m.num_functions m.functions i f h.1 k used, h.2, h.3)

-- What `Module_GetFunction` returns is in use.
pub module_get_function-IsUsed :
    (n : ℕ) (m : Module) (i : ℕ) {f : Function}
    → IsValid n m
    → module_get_function m i ≡ some f
    → (i < m.num_functions) × IsUsed n f
module_get_function-IsUsed n m i {f} h e =
    let (k, at) = module_get_function-some m i e in
    (k, AreUsed-get n m.num_functions m.functions i {f = f} h.1 k at)

-- More signatures leave a module valid.
pub IsValid-mono : (n n' : ℕ) (m : Module) → n ≤ n' → IsValid n m → IsValid n' m
IsValid-mono n n' m k h =
    (All-mono m.func_types h.0, AreUsed-mono n n' m.num_functions m.functions k h.1, h.2, h.3)
  where
    All-mono : (refs : List TypeRef) → All (λ r. r < n) refs → All (λ r. r < n') refs
    All-mono [] h = tt
    All-mono (r ∷ refs) h = (omega (arith, h.0), All-mono refs h.1)
