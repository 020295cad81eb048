-- ===== src/Primitives/Numerals.antt =====
-- scheme14/scheme14.cpp, section 11: `number->string` and `string->number`.
pub mod Laws
use secd_scheme.Prelude.{
  ℕ, ◌==◌, Bool, true, false, ◌||◌, Option, none, some, List, [], ◌∷◌, length, if◌then◌else◌,
  String, ℤ, pos, negsuc, Text,
}
use secd_scheme.Value.{Value, integer, flonum, boolean, object, string, Message}
use secd_scheme.Effect.{M, pure, throw, alloc, ◌>>=◌, ◌>>◌}
use secd_scheme.Printer.{int_text, format_flonum}
use secd_scheme.Reader.Number.{Converted, parse_number}
use secd_scheme.Primitives.{need_args, type_error, arg}
use secd_scheme.Primitives.Numbers.{num_of}
use secd_scheme.Primitives.Radix.{exact_int_to_radix, exact_int_from_radix}
use secd_scheme.Primitives.Strings.{str_of}

abbrev pub is_radix : ℕ → Bool
is_radix n = n == 2 || n == 8 || n == 10 || n == 16

-- radix_of
unfoldable pub radix_of : Value → String → M ℕ
unfolding num_of
radix_of v who = do
  z ← num_of who v
  elim z [
    | pos n ↦ if is_radix n then pure n else throw (Message.out_of_range who)
    | negsuc n ↦ throw (Message.out_of_range who)
  ]

-- The radix of a call, which is 10 if the second argument is left out.
unfoldable pub given_radix : List Value → String → M ℕ
unfolding radix_of
given_radix (v ∷ (r ∷ [])) who = radix_of r who
given_radix _ who = pure 10

module _ (shortest : ℕ → Text) where
  -- The text of a number in a radix. Only integers have one in a radix other than 10.
  unfoldable pub number_text : Value → List Value → M Text
  unfolding int_text format_flonum given_radix exact_int_to_radix
  number_text (integer z) args = do
    radix ← given_radix args "number->string"
    pure (if radix == 10 then int_text z else exact_int_to_radix z radix)
  number_text (flonum d) args = do
    radix ← given_radix args "number->string"
    if radix == 10 then pure (format_flonum shortest d) else type_error "number->string"
  number_text _ args = type_error "number->string"

  unfoldable pub prim_number_to_string : List Value → M Value
  unfolding need_args arg number_text alloc
  prim_number_to_string args = do
    need_args "number->string" (length args) 1 2
    s ← number_text (arg 0 args) args
    alloc (string s)

-- The number that was read, or #f.
abbrev pub or_false : Option Value → Value
or_false none = boolean false
or_false (some v) = v

abbrev pub integer_or_false : Option ℤ → Value
integer_or_false none = boolean false
integer_or_false (some z) = integer z

module _ (big_int : Text → Option ℤ) (from_chars : Text → Converted) (strtod : Text → ℕ) where
  unfoldable pub prim_string_to_number : List Value → M Value
  unfolding need_args arg str_of given_radix parse_number exact_int_from_radix
  prim_string_to_number args = do
    need_args "string->number" (length args) 1 2
    s ← str_of (arg 0 args) "string->number"
    radix ← given_radix args "string->number"
    if radix == 10
        then (do v ← parse_number big_int from_chars strtod s; pure (or_false v))
        else pure (integer_or_false (exact_int_from_radix radix s))
