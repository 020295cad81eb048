-- ===== src/Safety/Data/Entries.antt =====
-- The entries of the table for strings and vectors are safe.
use secd_scheme.Prelude.{ℕ, Bool, true, false, Option, none, some, List, String, ℤ, Text}
use secd_scheme.Value.{Value}
use secd_scheme.Effect.{M, pure, internal_error, ◌>>=◌}
use secd_scheme.Reader.Number.{
  Converted, special, number_kind, real_of, drop_plus, parse_number, make_int_from_text,
}
use secd_scheme.Primitives.Numerals.{prim_number_to_string, prim_string_to_number}
use secd_scheme.Primitives.Strings.{
  Order, prim_string_length, prim_string_ref, prim_make_string, prim_string_append, prim_substring,
  string_compare, prim_char_to_integer, prim_string_to_list, prim_list_to_string,
  prim_symbol_to_string, prim_string_to_symbol,
}
use secd_scheme.Primitives.Vectors.{
  prim_make_vector, prim_vector, prim_vector_length, prim_vector_ref, prim_vector_to_list,
  prim_list_to_vector,
}
use secd_scheme.Safety.Actions.{faults}
use secd_scheme.Safety.Sound.{Sound, Sound-pure, Sound-bind}
use secd_scheme.Safety.Rules.{Sound-option}
use secd_scheme.Safety.Data.Texts.{
  text_rules, Sound-fill_char, Sound-end_of, Sound-append_texts, Sound-list_of_chars,
  Sound-chars_of_list, Sound-symbol_name, Sound-given_radix, Sound-number_text,
}

ruleset entry_rules = (
  text_rules, Sound-fill_char, Sound-end_of, Sound-append_texts, Sound-list_of_chars,
  Sound-chars_of_list, Sound-symbol_name, Sound-given_radix, Sound-number_text,
)

pub Sound-string_length : (args : List Value) → Sound (prim_string_length args)
unfolding prim_string_length
Sound-string_length args = search entry_rules depth 16

pub Sound-string_ref : (args : List Value) → Sound (prim_string_ref args)
unfolding prim_string_ref
Sound-string_ref args = search entry_rules depth 16

pub Sound-make_string : (args : List Value) → Sound (prim_make_string args)
unfolding prim_make_string
Sound-make_string args = search entry_rules depth 16

pub Sound-string_append : (args : List Value) → Sound (prim_string_append args)
unfolding prim_string_append
Sound-string_append args = search entry_rules depth 16

pub Sound-substring : (args : List Value) → Sound (prim_substring args)
unfolding prim_substring
Sound-substring args = search entry_rules depth 16

pub Sound-char_to_integer : (args : List Value) → Sound (prim_char_to_integer args)
unfolding prim_char_to_integer
Sound-char_to_integer args = search entry_rules depth 16

pub Sound-string_to_list : (args : List Value) → Sound (prim_string_to_list args)
unfolding prim_string_to_list
Sound-string_to_list args = search entry_rules depth 16

pub Sound-list_to_string : (args : List Value) → Sound (prim_list_to_string args)
unfolding prim_list_to_string
Sound-list_to_string args = search entry_rules depth 16

pub Sound-symbol_to_string : (args : List Value) → Sound (prim_symbol_to_string args)
unfolding prim_symbol_to_string
Sound-symbol_to_string args = search entry_rules depth 16

pub Sound-string_to_symbol : (args : List Value) → Sound (prim_string_to_symbol args)
unfolding prim_string_to_symbol
Sound-string_to_symbol args = search entry_rules depth 16

pub Sound-make_vector : (args : List Value) → Sound (prim_make_vector args)
unfolding prim_make_vector
Sound-make_vector args = search entry_rules depth 16

pub Sound-vector : (args : List Value) → Sound (prim_vector args)
unfolding prim_vector
Sound-vector args = search entry_rules depth 16

pub Sound-vector_length : (args : List Value) → Sound (prim_vector_length args)
unfolding prim_vector_length
Sound-vector_length args = search entry_rules depth 16

pub Sound-vector_ref : (args : List Value) → Sound (prim_vector_ref args)
unfolding prim_vector_ref
Sound-vector_ref args = search entry_rules depth 16

pub Sound-vector_to_list : (args : List Value) → Sound (prim_vector_to_list args)
unfolding prim_vector_to_list
Sound-vector_to_list args = search entry_rules depth 16

pub Sound-list_to_vector : (args : List Value) → Sound (prim_list_to_vector args)
unfolding prim_list_to_vector
Sound-list_to_vector args = search entry_rules depth 16

pub Sound-string_compare :
    (who : String) (test : Order → Bool) (args : List Value) → Sound (string_compare who test args)
unfolding string_compare
Sound-string_compare who test args = search entry_rules depth 16

pub Sound-number_to_string :
    (shortest : ℕ → Text) (args : List Value) → Sound (prim_number_to_string shortest args)
unfolding prim_number_to_string
Sound-number_to_string shortest args = search entry_rules depth 16

module _ (big_int : Text → Option ℤ) (from_chars : Text → Converted) (strtod : Text → ℕ) where
  Sound-make_int : (s : Text) → Sound (make_int_from_text big_int from_chars strtod s)
  unfolding make_int_from_text internal_error
  Sound-make_int s =
      Sound-option (big_int s) _ _ (record { at = λ h good. faults tt }) (λ z. Sound-pure _)

  Sound-parse_number : (s : Text) → Sound (parse_number big_int from_chars strtod s)
  unfolding parse_number
  Sound-parse_number s = Sound-option (special s) _ _ (kinds (number_kind s)) (λ d. Sound-pure _)
    where
      kinds :
          (k : Option Bool)
          → Sound (elim k as (λ x. M (Option Value)) [
            | none ↦ pure none
            | some true ↦
                pure (real_of big_int from_chars strtod (drop_plus s) (from_chars (drop_plus s)))
            | some false ↦ do
              z ← make_int_from_text big_int from_chars strtod (drop_plus s)
              pure (some z)
          ])
      kinds none = Sound-pure _
      kinds (some true) = Sound-pure _
      kinds (some false) = Sound-bind _ _ (Sound-make_int _) (λ z. Sound-pure _)

  pub Sound-string_to_number :
      (args : List Value) → Sound (prim_string_to_number big_int from_chars strtod args)
  unfolding prim_string_to_number
  Sound-string_to_number args = search (entry_rules, Sound-parse_number) depth 16
