-- ===== src/Expand/Quasi.antt =====
-- scheme14/scheme14.cpp, section 7: quasiquotation.
use text.Mathlib.Text.{◌==◌ as str_eq}
use secd_scheme.Prelude.{
  ℕ, zero, suc, ◌+◌, ◌-◌, String, Bool, true, false, Option, none, some, List, [], ◌∷◌, fetch, ◌==◌,
  if◌then◌else◌,
}
use secd_scheme.Value.{Value, nil, symbol, object, Object, vector}
use secd_scheme.Effect.{M, pure, gets, ◌>>=◌, out_of_fuel}
use secd_scheme.Pairs.{list_from}
use secd_scheme.Syntax.{look, syntax_error}

pub data QqKind : Type 0 where
  quasiquote unquote splice : QqKind

unfoldable pub qq_kind_of : Value → Option QqKind
qq_kind_of (symbol s) =
    if str_eq s "quasiquote"
    then some QqKind.quasiquote
    else if str_eq s "unquote"
    then some QqKind.unquote
    else if str_eq s "splice"
    then some QqKind.splice
    else none
qq_kind_of _ = none

abbrev pub qq_name : QqKind → String
qq_name QqKind.quasiquote = "quasiquote"
qq_name QqKind.unquote = "unquote"
qq_name QqKind.splice = "splice"

abbrev pub is_active_splice : QqKind → ℕ → Bool
is_active_splice QqKind.splice depth = depth == 1
is_active_splice _ depth = false

-- The one argument of a form.
unfoldable pub one_argument : Value → M Value
unfolding look
one_argument rest = do
  q ← look rest
  elim q [ some (arg, nil) ↦ pure arg | _ ↦ syntax_error "quasiquote" ]

unfoldable pub take_kind : Option QqKind → Value → M (Option (QqKind × Value))
unfolding one_argument
take_kind none rest = pure none
take_kind (some k) rest = do arg ← one_argument rest; pure (some (k, arg))

-- qq_take_form: a list that one of the three symbols heads is syntax, with one argument.
unfoldable pub qq_take_form : Value → M (Option (QqKind × Value))
unfolding look qq_kind_of take_kind
qq_take_form cur = do
  p ← look cur
  elim p [ none ↦ pure none | some (head, rest) ↦ take_kind (qq_kind_of head) rest ]

unfoldable pub qq_quote_of : Value → M Value
qq_quote_of x = list_from (symbol "quote" ∷ x ∷ [])

-- (cons (quote name) (cons expanded (quote NIL)))
unfoldable pub qq_wrap : String → Value → M Value
unfolding qq_quote_of
qq_wrap name expanded = do
  n ← qq_quote_of (symbol name)
  e ← qq_quote_of nil
  inner ← list_from (symbol "cons" ∷ expanded ∷ e ∷ [])
  list_from (symbol "cons" ∷ n ∷ inner ∷ [])

abbrev pub elements_of : Option Object → Option (List Value)
elements_of (some (vector xs)) = some xs
elements_of _ = none

abbrev pub vector_elements : List Object → Value → Option (List Value)
vector_elements os (object a) = elements_of (fetch a os)
vector_elements os _ = none

-- The code for a form that was recognised; `transfer` is the recursion.
unfoldable pub qq_form_code : (Value → ℕ → M Value) → QqKind → Value → ℕ → M Value
unfolding qq_wrap
qq_form_code transfer QqKind.quasiquote arg depth = do
  e ← transfer arg (depth + 1)
  qq_wrap "quasiquote" e
qq_form_code transfer k arg depth =
    if depth == 1 then pure arg else (do e ← transfer arg (depth - 1); qq_wrap (qq_name k) e)

unfoldable pub qq_atom : (Value → ℕ → M Value) → Value → ℕ → Option (List Value) → M Value
unfolding qq_quote_of
qq_atom transfer x depth none = qq_quote_of x
qq_atom transfer x depth (some xs) = do
  l ← list_from xs
  e ← transfer l depth
  list_from (symbol "list->vector" ∷ e ∷ [])

-- An element of the list, and whether it is spliced in.
unfoldable pub qq_item :
    (Value → ℕ → M Value) → Value → ℕ → Option (QqKind × Value) → M (Bool × Value)
unfolding qq_form_code qq_quote_of look
qq_item transfer a depth (some (k, arg)) =
    if is_active_splice k depth
    then pure (true, arg)
    else (do e ← qq_form_code transfer k arg depth; pure (false, e))
qq_item transfer a depth none = do
  p ← look a
  elim p [
    | none ↦ do e ← qq_quote_of a; pure (false, e)
    | some _ ↦ do e ← transfer a depth; pure (false, e)
  ]

abbrev pub joiner : Bool → String
joiner true = "append"
joiner false = "cons"

-- A rest of the list that is syntax itself is the tail.
unfoldable pub qq_rest :
    (Value → ℕ → M Value) → Value → Value → ℕ → Option (QqKind × Value) → M Value
unfolding qq_form_code qq_item
qq_rest transfer a d depth (some (k, arg)) =
    if is_active_splice k depth
    then syntax_error "quasiquote"
    else qq_form_code transfer k arg depth
qq_rest transfer a d depth none = do
  form ← qq_take_form a
  (spliced, e) ← qq_item transfer a depth form
  out ← transfer d depth
  list_from (symbol (joiner spliced) ∷ e ∷ out ∷ [])

-- The fuel bounds how deep and how far along the cdrs the walk goes.
unfoldable pub qq_transfer : ℕ → Value → ℕ → M Value
unfolding qq_atom qq_rest qq_take_form look
qq_transfer zero x depth = λ h. out_of_fuel
qq_transfer (suc fuel) x depth = do
  p ← look x
  elim p [
    | none ↦ do xs ← gets (λ h. vector_elements h.objects x); qq_atom (qq_transfer fuel) x depth xs
    | some (a, d) ↦ do form ← qq_take_form x; qq_rest (qq_transfer fuel) a d depth form
  ]
