-- ===== src/Primitives/Table/Data.antt =====
-- scheme14/scheme14.cpp, section 11: the table's entries for numbers, strings and vectors, for `equal?`
-- and `eval`.
use text.Mathlib.Text.{◌==◌ as str_eq}
use secd_scheme.Prelude.{ℕ, true, false, Bool, Option, ℤ, Text, List, String, if◌then◌else◌}
use secd_scheme.Value.{Value}
use secd_scheme.Effect.{M}
use secd_scheme.Reader.Number.{Converted}
use secd_scheme.Primitives.Control.{prim_eval}
use secd_scheme.Primitives.Equality.{prim_equal}
use secd_scheme.Primitives.Numbers.{
  Cmp, prim_add, prim_sub, prim_mul, prim_div, prim_quotient, prim_remainder, prim_modulo,
  compare_chain,
}
use secd_scheme.Primitives.Numerals.{prim_number_to_string, prim_string_to_number}
use secd_scheme.Primitives.Strings.{
  Order, prim_string_length, prim_string_ref, prim_string_set, prim_make_string, prim_string_append,
  prim_substring, string_compare, prim_char_to_integer, prim_string_to_list, prim_list_to_string,
  prim_symbol_to_string, prim_string_to_symbol,
}
use secd_scheme.Primitives.Vectors.{
  prim_make_vector, prim_vector, prim_vector_length, prim_vector_ref, prim_vector_set,
  prim_vector_to_list, prim_list_to_vector,
}

-- What the language and the libraries do on doubles and on the texts of numbers.
pub record Library : Type 0 where
  pub double_of : ℤ → ℕ
  pub add : ℕ → ℕ → ℕ
  pub sub : ℕ → ℕ → ℕ
  pub mul : ℕ → ℕ → ℕ
  pub div : ℕ → ℕ → ℕ
  pub negate : ℕ → ℕ
  pub cmp : ℕ → ℕ → Cmp
  pub shortest : ℕ → Text
  pub big_int : Text → Option ℤ
  pub from_chars : Text → Converted
  pub strtod : Text → ℕ

-- The tests of the comparisons.
abbrev pub is_equal : Cmp → Bool
is_equal Cmp.equal = true
is_equal _ = false

abbrev pub is_less : Cmp → Bool
is_less Cmp.less = true
is_less _ = false

abbrev pub is_greater : Cmp → Bool
is_greater Cmp.greater = true
is_greater _ = false

abbrev pub at_most : Cmp → Bool
at_most Cmp.less = true
at_most Cmp.equal = true
at_most _ = false

abbrev pub at_least : Cmp → Bool
at_least Cmp.greater = true
at_least Cmp.equal = true
at_least _ = false

abbrev pub order_is_equal : Order → Bool
order_is_equal Order.equal = true
order_is_equal _ = false

abbrev pub order_is_less : Order → Bool
order_is_less Order.less = true
order_is_less _ = false

abbrev pub order_is_greater : Order → Bool
order_is_greater Order.greater = true
order_is_greater _ = false

abbrev pub order_at_most : Order → Bool
order_at_most Order.less = true
order_at_most Order.equal = true
order_at_most _ = false

abbrev pub order_at_least : Order → Bool
order_at_least Order.greater = true
order_at_least Order.equal = true
order_at_least _ = false

-- `fuel` is for `equal?`, which does not end on some heaps.
module _ (lib : Library) (fuel : ℕ) (others : String → List Value → M Value) where
  unfoldable pub vector_primitives : String → List Value → M Value
  vector_primitives name =
      if str_eq name "make-vector"
      then prim_make_vector
      else if str_eq name "vector"
      then prim_vector
      else if str_eq name "vector-length"
      then prim_vector_length
      else if str_eq name "vector-ref"
      then prim_vector_ref
      else if str_eq name "vector-set!"
      then prim_vector_set
      else if str_eq name "vector->list"
      then prim_vector_to_list
      else if str_eq name "list->vector"
      then prim_list_to_vector
      else if str_eq name "equal?"
      then prim_equal fuel
      else if str_eq name "eval"
      then prim_eval
      else others name

  unfoldable pub string_primitives : String → List Value → M Value
  unfolding vector_primitives
  string_primitives name =
      if str_eq name "string-length"
      then prim_string_length
      else if str_eq name "string-ref"
      then prim_string_ref
      else if str_eq name "string-set!"
      then prim_string_set
      else if str_eq name "make-string"
      then prim_make_string
      else if str_eq name "string-append"
      then prim_string_append
      else if str_eq name "substring"
      then prim_substring
      else if str_eq name "string=?"
      then string_compare "string=?" order_is_equal
      else if str_eq name "string<?"
      then string_compare "string<?" order_is_less
      else if str_eq name "string>?"
      then string_compare "string>?" order_is_greater
      else if str_eq name "string<=?"
      then string_compare "string<=?" order_at_most
      else if str_eq name "string>=?"
      then string_compare "string>=?" order_at_least
      else if str_eq name "char->integer"
      then prim_char_to_integer
      else if str_eq name "string->list"
      then prim_string_to_list
      else if str_eq name "list->string"
      then prim_list_to_string
      else if str_eq name "symbol->string"
      then prim_symbol_to_string
      else if str_eq name "string->symbol"
      then prim_string_to_symbol
      else if str_eq name "number->string"
      then prim_number_to_string lib.shortest
      else if str_eq name "string->number"
      then prim_string_to_number lib.big_int lib.from_chars lib.strtod
      else vector_primitives name

  unfoldable pub number_primitives : String → List Value → M Value
  unfolding string_primitives
  number_primitives name =
      if str_eq name "+"
      then prim_add lib.double_of lib.add
      else if str_eq name "-"
      then prim_sub lib.double_of lib.negate lib.sub
      else if str_eq name "*"
      then prim_mul lib.double_of lib.mul
      else if str_eq name "/"
      then prim_div lib.double_of lib.div
      else if str_eq name "quotient"
      then prim_quotient
      else if str_eq name "remainder"
      then prim_remainder
      else if str_eq name "modulo"
      then prim_modulo
      else if str_eq name "="
      then compare_chain lib.double_of lib.cmp "=" is_equal
      else if str_eq name "<"
      then compare_chain lib.double_of lib.cmp "<" is_less
      else if str_eq name ">"
      then compare_chain lib.double_of lib.cmp ">" is_greater
      else if str_eq name "<="
      then compare_chain lib.double_of lib.cmp "<=" at_most
      else if str_eq name ">="
      then compare_chain lib.double_of lib.cmp ">=" at_least
      else string_primitives name
