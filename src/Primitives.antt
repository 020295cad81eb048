-- ===== src/Primitives.antt =====
-- scheme14/scheme14.cpp, section 11: the primitives on pairs and lists. Each takes its arguments in
-- the order of the call.
pub mod Identity
pub mod Equality
pub mod Radix
pub mod Numbers
pub mod Vectors
pub mod Strings
pub mod Numerals
pub mod Nesting
pub mod Control
pub mod Table
use text.Mathlib.Text.{◌==◌ as str_eq}
use secd_scheme.Prelude.{
  ℕ, zero, suc, Bool, true, false, ◌&&◌, Option, none, some, List, [], ◌∷◌, ◌++◌, length, reverse,
  Addr, fetch, ◌==◌, if◌then◌else◌, String, ℤ, pos, negsuc,
}
use secd_scheme.Value.{
  EnvName, interaction, report, null_env, Value, nil, eof, boolean, integer, flonum, symbol,
  primitive, special_form, environment, object, Object, pair, Message, Heap,
}
use secd_scheme.Effect.{M, pure, throw, gets, alloc, ◌>>=◌, ◌>>◌, out_of_fuel}
use secd_scheme.Pairs.{Walk, walk_from, pair_of, make_pair, list_onto, list_from}
use secd_scheme.Syntax.{in_range, look}
use secd_scheme.Step.{write_object}

-- need_args: as in the source, an upper bound of zero is no bound.
unfoldable pub need_args : String → ℕ → ℕ → ℕ → M (Unit {0})
unfolding in_range
need_args who argc lo hi = if in_range lo hi argc then pure tt else throw (Message.wrong_count who)

-- prim_type_error
abbrev pub type_error {ℓ} : {A : Type ℓ} → String → M A
type_error who = throw (Message.wrong_type who)

-- The i-th argument of a call whose arguments were counted.
unfoldable pub arg : ℕ → List Value → Value
arg i [] = nil
arg zero (v ∷ vs) = v
arg (suc i) (v ∷ vs) = arg i vs

-- The car and the cdr of a pair, or a type error.
unfoldable pub parts : String → Value → M (Value × Value)
unfolding look
parts who v = do p ← look v; elim p [ none ↦ type_error who | some q ↦ pure q ]

unfoldable pub prim_cons : List Value → M Value
unfolding need_args arg make_pair
prim_cons args = do need_args "cons" (length args) 2 2; make_pair (arg 0 args) (arg 1 args)

unfoldable pub prim_car : List Value → M Value
unfolding need_args arg parts
prim_car args = do need_args "car" (length args) 1 1; p ← parts "car" (arg 0 args); pure (p.0)

unfoldable pub prim_cdr : List Value → M Value
unfolding need_args arg parts
prim_cdr args = do need_args "cdr" (length args) 1 1; p ← parts "cdr" (arg 0 args); pure (p.1)

-- A write to the pair at a value that was seen to be one.
unfoldable pub write_pair : Value → Value → Value → M (Unit {0})
unfolding write_object
write_pair (object a) x d = write_object a (pair x d)
write_pair _ x d = pure tt

unfoldable pub prim_set_car : List Value → M Value
unfolding need_args arg parts write_pair
prim_set_car args = do
  need_args "set-car!" (length args) 2 2
  p ← parts "set-car!" (arg 0 args)
  write_pair (arg 0 args) (arg 1 args) p.1
  pure (arg 1 args)

unfoldable pub prim_set_cdr : List Value → M Value
unfolding need_args arg parts write_pair
prim_set_cdr args = do
  need_args "set-cdr!" (length args) 2 2
  p ← parts "set-cdr!" (arg 0 args)
  write_pair (arg 0 args) p.0 (arg 1 args)
  pure (arg 1 args)

-- cxr: `true` is a car; the accessors are applied from the last to the first.
unfoldable pub cxr : String → List Bool → Value → M Value
unfolding parts
cxr who [] v = pure v
cxr who (is_car ∷ path) v = do
  inner ← cxr who path v
  p ← parts who inner
  pure (if is_car then p.0 else p.1)

unfoldable pub prim_cxr : String → List Bool → List Value → M Value
unfolding need_args arg cxr
prim_cxr who path args = do need_args who (length args) 1 1; cxr who path (arg 0 args)

unfoldable pub prim_list : List Value → M Value
unfolding list_from
prim_list args = list_from args

abbrev pub proper? : Walk → Option (List Value)
proper? (Walk.proper xs) = some xs
proper? _ = none

-- is_proper_list, with the elements
unfoldable pub proper_list : Value → M (Option (List Value))
unfolding walk_from
proper_list v = gets (λ h. proper? (walk_from h.objects v))

unfoldable pub prim_length : List Value → M Value
unfolding need_args arg proper_list
prim_length args = do
  need_args "length" (length args) 1 1
  xs ← proper_list (arg 0 args)
  elim xs [ none ↦ type_error "length" | some ys ↦ pure (integer (pos (length ys))) ]

abbrev pub is_some {ℓ} : {A : Type ℓ} → Option A → Bool
is_some none = false
is_some (some a) = true

unfoldable pub prim_listp : List Value → M Value
unfolding need_args arg proper_list
prim_listp args = do
  need_args "list?" (length args) 1 1
  xs ← proper_list (arg 0 args)
  pure (boolean (is_some xs))

-- The loop of `append` along one argument, which does not look for a cycle.
unfoldable pub collect : ℕ → Value → M (List Value)
unfolding look
collect zero ls = λ h. out_of_fuel
collect (suc fuel) nil = pure []
collect (suc fuel) ls = do
  p ← look ls
  elim p [ none ↦ type_error "append" | some (a, d) ↦ do rest ← collect fuel d; pure (a ∷ rest) ]

-- All but the last argument are copied in front of the last.
unfoldable pub append_onto : ℕ → Value → List Value → M Value
unfolding collect list_onto
append_onto fuel ls [] = pure ls
append_onto fuel ls (next ∷ more) = do
  xs ← collect fuel ls
  tail ← append_onto fuel next more
  list_onto xs tail

unfoldable pub prim_append : List Value → M Value
unfolding append_onto
prim_append [] = pure nil
prim_append (ls ∷ more) = do fuel ← gets (λ h. suc (length h.objects)); append_onto fuel ls more

unfoldable pub same_integer : ℤ → ℤ → Bool
same_integer (pos m) (pos n) = m == n
same_integer (negsuc m) (negsuc n) = m == n
same_integer _ _ = false

unfoldable pub same_env : EnvName → EnvName → Bool
same_env interaction interaction = true
same_env report report = true
same_env null_env null_env = true
same_env _ _ = false

-- eqv_values: integers by value, doubles by their bits, everything else by identity.
unfoldable pub eqv_values : Value → Value → Bool
unfolding same_integer same_env
eqv_values nil nil = true
eqv_values eof eof = true
eqv_values (boolean true) (boolean true) = true
eqv_values (boolean false) (boolean false) = true
eqv_values (integer m) (integer n) = same_integer m n
eqv_values (flonum m) (flonum n) = m == n
eqv_values (symbol s) (symbol t) = str_eq s t
eqv_values (primitive s) (primitive t) = str_eq s t
eqv_values (special_form s) (special_form t) = str_eq s t
eqv_values (environment d) (environment e) = same_env d e
eqv_values (object a) (object b) = a == b
eqv_values _ _ = false

unfoldable pub prim_eq : List Value → M Value
unfolding eqv_values
prim_eq (x ∷ (y ∷ [])) = pure (boolean (eqv_values x y))
prim_eq _ = pure (boolean false)

-- The loop of `memq`, which does not look for a cycle.
unfoldable pub memq_loop : ℕ → Value → Value → M Value
unfolding look eqv_values
memq_loop zero x ls = λ h. out_of_fuel
memq_loop (suc fuel) x nil = pure (boolean false)
memq_loop (suc fuel) x ls = do
  p ← look ls
  elim p [
    | none ↦ type_error "memq"
    | some (a, d) ↦ if eqv_values a x then pure ls else memq_loop fuel x d
  ]

unfoldable pub prim_memq : List Value → M Value
unfolding need_args arg memq_loop
prim_memq args = do
  need_args "memq" (length args) 2 2
  fuel ← gets (λ h. suc (length h.objects))
  memq_loop fuel (arg 0 args) (arg 1 args)

-- An entry of an association list whose key is `x`; an element that is no pair is passed over.
abbrev pub has_key : Value → Option (Value × Value) → Bool
has_key x none = false
has_key x (some (k, v)) = eqv_values k x

unfoldable pub assq_loop : ℕ → Value → Value → M Value
unfolding look eqv_values
assq_loop zero x ls = λ h. out_of_fuel
assq_loop (suc fuel) x nil = pure (boolean false)
assq_loop (suc fuel) x ls = do
  p ← look ls
  elim p [
    | none ↦ type_error "assq"
    | some (e, d) ↦ do q ← look e; if has_key x q then pure e else assq_loop fuel x d
  ]

unfoldable pub prim_assq : List Value → M Value
unfolding need_args arg assq_loop
prim_assq args = do
  need_args "assq" (length args) 2 2
  fuel ← gets (λ h. suc (length h.objects))
  assq_loop fuel (arg 0 args) (arg 1 args)
