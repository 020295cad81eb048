-- ===== src/Safety/Data/Table.antt =====
-- Every entry of the table for numbers, strings and vectors, and `equal?` and `eval`, are safe.
use secd_scheme.Prelude.{ℕ, none, some, Option, Bool, [], ◌∷◌, List, String}
use secd_scheme.Value.{Value, boolean, Heap}
use secd_scheme.Effect.{M, Result, ok, out_of_fuel, internal_error}
use secd_scheme.Primitives.Control.{prim_eval}
use secd_scheme.Primitives.Equality.{equal_values, prim_equal}
use secd_scheme.Primitives.Table.Data.{
  Library, vector_primitives, string_primitives, number_primitives,
}
use secd_scheme.Safety.Growth.{HeapOk, Grows-refl}
use secd_scheme.Safety.Actions.{Safe, Any, returns, runs_out, faults}
use secd_scheme.Safety.Sound.{Sound}
use secd_scheme.Safety.Programs.{PrimsOk}
use secd_scheme.Safety.Rules.{if_primitive}
use secd_scheme.Safety.Data.Numbers.{
  Sound-quotient, Sound-remainder, Sound-modulo, Sound-add, Sound-mul, Sound-sub, Sound-div,
  Sound-compare_chain,
}
use secd_scheme.Safety.Data.Sets.{Sound-string_set, Sound-vector_set}
use secd_scheme.Safety.Data.Entries.{
  Sound-string_length, Sound-string_ref, Sound-make_string, Sound-string_append, Sound-substring,
  Sound-char_to_integer, Sound-string_to_list, Sound-list_to_string, Sound-symbol_to_string,
  Sound-string_to_symbol, Sound-make_vector, Sound-vector, Sound-vector_length, Sound-vector_ref,
  Sound-vector_to_list, Sound-list_to_vector, Sound-string_compare, Sound-number_to_string,
  Sound-string_to_number,
}

Sound-equal : (fuel : ℕ) (args : List Value) → Sound (prim_equal fuel args)
unfolding prim_equal
Sound-equal fuel (x ∷ (y ∷ [])) = record {
  at = λ h good. compared h good (equal_values fuel h.objects [] x y);
}
  where
    compared :
        (h : Heap)
        → HeapOk h
        → (o : Option Bool)
        → Safe {A = Value} h Any
            (elim o as (λ x. Result Value) [ none ↦ out_of_fuel | some b ↦ ok (boolean b) h ])
    compared h good none = runs_out
    compared h good (some b) = returns good (Grows-refl h) tt
Sound-equal fuel [] = record { at = λ h good. returns good (Grows-refl h) tt }
Sound-equal fuel (x ∷ []) = record { at = λ h good. returns good (Grows-refl h) tt }
Sound-equal fuel (x ∷ (y ∷ (z ∷ vs))) = record { at = λ h good. returns good (Grows-refl h) tt }

Sound-eval : (args : List Value) → Sound (prim_eval args)
unfolding prim_eval internal_error
Sound-eval args = record { at = λ h good. faults tt }

module _ (lib : Library) (fuel : ℕ) (others : String → List Value → M Value)
    (others_ok : PrimsOk others) where
  Sound-vectors :
      (name : String) (args : List Value) → Sound (vector_primitives lib fuel others name args)
  unfolding vector_primitives
  Sound-vectors name args =
      search
        (
          if_primitive, Sound-make_vector, Sound-vector, Sound-vector_length, Sound-vector_ref,
          Sound-vector_to_list, Sound-list_to_vector, Sound-vector_set, Sound-equal, Sound-eval,
          others_ok,
        )
        depth 32

  Sound-strings :
      (name : String) (args : List Value) → Sound (string_primitives lib fuel others name args)
  unfolding string_primitives
  Sound-strings name args =
      search
        (
          if_primitive, Sound-string_length, Sound-string_ref, Sound-make_string,
          Sound-string_append, Sound-substring, Sound-char_to_integer, Sound-string_to_list,
          Sound-list_to_string, Sound-symbol_to_string, Sound-string_to_symbol, Sound-string_set,
          Sound-string_compare, Sound-number_to_string, Sound-string_to_number, Sound-vectors,
        )
        depth 40

  pub Sound-numbers :
      (name : String) (args : List Value) → Sound (number_primitives lib fuel others name args)
  unfolding number_primitives
  Sound-numbers name args =
      search
        (
          if_primitive, Sound-quotient, Sound-remainder, Sound-modulo, Sound-add, Sound-mul,
          Sound-sub, Sound-div, Sound-compare_chain, Sound-strings,
        )
        depth 32
