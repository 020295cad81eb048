-- ===== src/Reader/Number.antt =====
-- scheme14/scheme14.cpp, section 5 (`parse_number`): which tokens are numbers. The conversions of the
-- libraries are parameters: the constructor of `BigInt` from a text, which throws on a text that it
-- takes for no number, and `std::from_chars` and `strtod`, which give the bits of a double.
use text.Mathlib.Text.{◌==◌ as str_eq}
use secd_scheme.Prelude.{
  ℕ, suc, ◌==◌, Bool, true, false, ◌&&◌, ◌||◌, Option, none, some, [], ◌∷◌, if◌then◌else◌, ℤ, Char,
  code, Text, of_list, is_digit,
}
use secd_scheme.Value.{Value, integer, flonum}
use secd_scheme.Effect.{M, pure, ◌>>=◌, internal_error, Fault}

-- What `from_chars` makes of a text: a double, a number that no double is near, or less than all
-- of the text.
pub data Converted : Type 0 where
  double : ℕ → Converted
  beyond unread : Converted

-- How many digits a text starts with, and what follows them.
unfoldable pub skip_digits : Text → ℕ × Text
unfolding is_digit
skip_digits [] = (0, [])
skip_digits (c ∷ s) =
    let (n, rest) = skip_digits s in if is_digit c then (suc n, rest) else (0, c ∷ s)

unfoldable pub is_sign : Char → Bool
is_sign c = code c == b'+' || code c == b'-'

unfoldable pub skip_sign : Text → Text
unfolding is_sign
skip_sign [] = []
skip_sign (c ∷ s) = if is_sign c then s else c ∷ s

unfoldable pub drop_plus : Text → Text
drop_plus [] = []
drop_plus (c ∷ s) = if code c == b'+' then s else c ∷ s

-- After the digits: whether there is a fraction, its digits, and what follows.
unfoldable pub fraction : Text → Bool × (ℕ × Text)
unfolding skip_digits
fraction [] = (false, (0, []))
fraction (c ∷ s) = if code c == b'.' then (true, skip_digits s) else (false, (0, c ∷ s))

-- After the fraction: whether there is an exponent, and what follows; `none` is an exponent with no
-- digit.
unfoldable pub exponent : Text → Option (Bool × Text)
unfolding skip_digits skip_sign
exponent [] = some (false, [])
exponent (c ∷ s) =
    let (n, rest) = skip_digits (skip_sign s) in
    if code c == b'e' || code c == b'E'
    then (if n == 0 then none else some (true, rest))
    else some (false, c ∷ s)

-- Whether a token that is a number is a real.
unfoldable pub number_end : Bool → Option (Bool × Text) → Option Bool
number_end real none = none
number_end real (some (exp, [])) = some (real || exp)
number_end real (some (exp, c ∷ s)) = none

-- The scan of a token: `none` for a symbol, or whether the number is a real.
unfoldable pub number_kind : Text → Option Bool
unfolding skip_sign skip_digits fraction exponent number_end
number_kind tok =
    let (n, after) = skip_digits (skip_sign tok) in
    let (real, (m, rest)) = fraction after in
    if n == 0 && m == 0 then none else number_end real (exponent rest)

-- The bits of the doubles that have a spelling of their own.
unfoldable pub special : Text → Option ℕ
special tok =
    if str_eq (of_list tok) "+inf.0"
    then some 9218868437227405312
    else if str_eq (of_list tok) "-inf.0"
    then some 18442240474082181120
    else if str_eq (of_list tok) "+nan.0" || str_eq (of_list tok) "-nan.0"
    then some 9221120237041090560
    else none

module _ (big_int : Text → Option ℤ) (from_chars : Text → Converted) (strtod : Text → ℕ) where
  unfoldable pub make_int_from_text : Text → M Value
  make_int_from_text s = elim (big_int s) [
    | none ↦ internal_error Fault.library
    | some z ↦ pure (integer z)
  ]

  unfoldable pub real_of : Text → Converted → Option Value
  real_of body (double d) = some (flonum d)
  real_of body Converted.beyond = some (flonum (strtod body))
  real_of body Converted.unread = none

  unfoldable pub parse_number : Text → M (Option Value)
  unfolding special number_kind make_int_from_text real_of drop_plus
  parse_number tok = elim (special tok) [
    | some d ↦ pure (some (flonum d))
    | none ↦ elim (number_kind tok) [
      | none ↦ pure none
      | some true ↦ pure (real_of (drop_plus tok) (from_chars (drop_plus tok)))
      | some false ↦ do z ← make_int_from_text (drop_plus tok); pure (some z)
    ]
  ]
