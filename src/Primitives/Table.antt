-- ===== src/Primitives/Table.antt =====
-- scheme14/scheme14.cpp, section 11: the table that binds a name to its primitive. The entries that
-- are not modelled are a parameter: predicates on types and exactness, rounding, the functions of
-- <cmath>, input and output, tracing, and those that ask for the state of the interpreter.
pub mod Data
use text.Mathlib.Text.{◌==◌ as str_eq}
use secd_scheme.Primitives.Table.Data.{Library, number_primitives}
use secd_scheme.Prelude.{ℕ, true, false, List, [], ◌∷◌, String, if◌then◌else◌}
use secd_scheme.Value.{Value}
use secd_scheme.Effect.{M}
use secd_scheme.Primitives.{
  prim_cons, prim_car, prim_cdr, prim_set_car, prim_set_cdr, prim_cxr, prim_list, prim_length,
  prim_listp, prim_append, prim_eq, prim_memq, prim_assq,
}
use secd_scheme.Primitives.Control.{
  prim_values, prim_values_to_list, prim_wind_push, prim_wind_pop, prim_wind_top_after,
  prim_raise_error, prim_current_exception_handler, prim_set_exception_handler, prim_error_objectp,
  prim_abort_exception,
}

module _ (lib : Library) (fuel : ℕ) (others : String → List Value → M Value) where
  unfoldable pub control_primitives : String → List Value → M Value
  unfolding number_primitives
  control_primitives name =
      if str_eq name "values"
      then prim_values
      else if str_eq name "%values->list"
      then prim_values_to_list
      else if str_eq name "%wind-push"
      then prim_wind_push
      else if str_eq name "%wind-pop"
      then prim_wind_pop
      else if str_eq name "%wind-top-after"
      then prim_wind_top_after
      else if str_eq name "error"
      then prim_raise_error
      else if str_eq name "%current-exception-handler"
      then prim_current_exception_handler
      else if str_eq name "%set-exception-handler!"
      then prim_set_exception_handler
      else if str_eq name "error-object?"
      then prim_error_objectp
      else if str_eq name "%abort-exception"
      then prim_abort_exception
      else number_primitives lib fuel others name

  -- The table looks names up by a hash; the names are distinct, so the order does not matter.
  unfoldable pub search_primitives : String → List Value → M Value
  unfolding control_primitives
  search_primitives name =
      if str_eq name "length"
      then prim_length
      else if str_eq name "append"
      then prim_append
      else if str_eq name "list?"
      then prim_listp
      else if str_eq name "memq"
      then prim_memq
      else if str_eq name "memv"
      then prim_memq
      else if str_eq name "assq"
      then prim_assq
      else if str_eq name "eq?"
      then prim_eq
      else if str_eq name "eqv?"
      then prim_eq
      else control_primitives name

  unfoldable pub primitives : String → List Value → M Value
  unfolding search_primitives
  primitives name =
      if str_eq name "cons"
      then prim_cons
      else if str_eq name "car"
      then prim_car
      else if str_eq name "cdr"
      then prim_cdr
      else if str_eq name "set-car!"
      then prim_set_car
      else if str_eq name "set-cdr!"
      then prim_set_cdr
      else if str_eq name "caar"
      then prim_cxr "caar" (true ∷ true ∷ [])
      else if str_eq name "cadr"
      then prim_cxr "cadr" (true ∷ false ∷ [])
      else if str_eq name "cdar"
      then prim_cxr "cdar" (false ∷ true ∷ [])
      else if str_eq name "cddr"
      then prim_cxr "cddr" (false ∷ false ∷ [])
      else if str_eq name "caddr"
      then prim_cxr "caddr" (true ∷ false ∷ false ∷ [])
      else if str_eq name "cdddr"
      then prim_cxr "cdddr" (false ∷ false ∷ false ∷ [])
      else if str_eq name "list"
      then prim_list
      else search_primitives name
