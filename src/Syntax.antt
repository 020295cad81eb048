-- ===== src/Syntax.antt =====
-- scheme14/scheme14.cpp, section 6: the checks of a form before it is rewritten or compiled.
use secd_scheme.Prelude.{
  ℕ, zero, suc, Bool, true, false, ◌&&◌, ◌||◌, not, Option, none, some, List, [], ◌∷◌, reverse,
  length, ltb, ◌==◌, if◌then◌else◌, String,
}
use secd_scheme.Value.{Value, nil, symbol, Message}
use secd_scheme.Effect.{M, pure, throw, gets, expect, ◌>>=◌, out_of_fuel}
use secd_scheme.Pairs.{pair_of, is_nil, Walk, walk_from}

-- `is_pair`, with the car and the cdr
unfoldable pub look : Value → M (Option (Value × Value))
look v = gets (λ h. pair_of h.objects v)

abbrev pub first {ℓ} : {A B : Type ℓ} → Option (A × B) → Option A
first none = none
first (some (a, b)) = some a

abbrev pub second {ℓ} : {A B : Type ℓ} → Option (A × B) → Option B
second none = none
second (some (a, b)) = some b

-- `car` and `cdr` of section 3: an internal error at what is no pair
unfoldable pub car : Value → M Value
unfolding look
car v = do p ← look v; expect (first p)

unfoldable pub cdr : Value → M Value
unfolding look
cdr v = do p ← look v; expect (second p)

unfoldable pub syntax_error {ℓ} : {A : Type ℓ} → String → M A
syntax_error form = throw (Message.bad_syntax form)

abbrev pub walk_length : Walk → Option ℕ
walk_length (Walk.proper xs) = some (length xs)
walk_length _ = none

-- The length of a list, where it is one.
unfoldable pub form_arity : Value → M (Option ℕ)
form_arity rest = gets (λ h. walk_length (walk_from h.objects rest))

-- `max` zero is no limit.
unfoldable pub in_range : ℕ → ℕ → ℕ → Bool
in_range min max n = not (ltb n min || (not (max == 0) && ltb max n))

unfoldable pub check_count : String → ℕ → ℕ → Option ℕ → M (Unit {0})
unfolding in_range syntax_error
check_count form min max none = syntax_error form
check_count form min max (some n) = if in_range min max n then pure tt else syntax_error form

unfoldable pub check_arity : String → Value → ℕ → ℕ → M (Unit {0})
unfolding form_arity check_count
check_arity form rest min max = do n ← form_arity rest; check_count form min max n

unfoldable pub is_symbol : Value → Bool
is_symbol (symbol s) = true
is_symbol _ = false

-- (variable expression)
unfoldable pub binding_ok : Value → M Bool
unfolding look is_symbol is_nil
binding_ok one = do
  p ← look one
  elim p [
    | none ↦ pure false
    | some (name, d) ↦ do
      q ← look d
      elim q [ none ↦ pure false | some (e, tail) ↦ pure (is_symbol name && is_nil tail) ]
  ]

-- The loop has no check for a cycle.
unfoldable pub check_each_binding : ℕ → String → Value → M (Unit {0})
unfolding look is_nil binding_ok syntax_error
check_each_binding zero form b = λ h. out_of_fuel
check_each_binding (suc fuel) form b = if is_nil b then pure tt else (do
  p ← look b
  elim p [
    | none ↦ syntax_error form
    | some (one, d) ↦ do
      good ← binding_ok one
      if good then check_each_binding fuel form d else syntax_error form
  ])

unfoldable pub check_bindings : String → Value → M (Unit {0})
unfolding check_each_binding
check_bindings form bindings = do
  fuel ← gets (λ h. suc (length h.objects))
  check_each_binding fuel form bindings

abbrev pub Params : Type 0
Params = List String × Option String

-- (x y), (x . r) and r; `none` where a parameter is no symbol.
unfoldable pub extract_loop : ℕ → List String → Value → M (Option Params)
unfolding look
extract_loop zero fixed ps = λ h. out_of_fuel
extract_loop (suc fuel) fixed nil = pure (some (reverse fixed, none))
extract_loop (suc fuel) fixed (symbol r) = pure (some (reverse fixed, some r))
extract_loop (suc fuel) fixed ps = do
  p ← look ps
  elim p [ some (symbol x, d) ↦ extract_loop fuel (x ∷ fixed) d | _ ↦ pure none ]

unfoldable pub extract_params : Value → M (Option Params)
unfolding extract_loop
extract_params ps = do fuel ← gets (λ h. suc (length h.objects)); extract_loop fuel [] ps
