-- ===== src/Expand/Do.antt =====
-- scheme14/scheme14.cpp, section 7: `do`, and the definitions at the head of a body.
use secd_scheme.Prelude.{none, some, List, [], ◌∷◌, ◌++◌, map, if◌then◌else◌}
use secd_scheme.Value.{Value, symbol}
use secd_scheme.Effect.{M, pure, ◌>>=◌, ◌>>◌}
use secd_scheme.Pairs.{list_to_vector, list_from, make_pair, is_nil}
use secd_scheme.Syntax.{look, car, cdr, syntax_error, check_arity, is_symbol}
use secd_scheme.Expand.Build.{make_gensym, make_begin_form, each}
use secd_scheme.Expand.Cond.{is_symbol_named}

-- A variable of `do` with its init and its step.
pub record Spec : Type 0 where
  pub name : Value
  pub init : Value
  pub next : Value

-- A step that is no list is an internal error: the source takes its `car` unchecked.
unfoldable pub step_of : Value → Value → M Value
step_of name tail = if is_nil tail then pure name else car tail

unfoldable pub read_spec : Value → M Spec
unfolding step_of look is_symbol
read_spec v = do
  p ← look v
  elim p [
    | none ↦ syntax_error "do"
    | some (name, d) ↦
        if is_symbol name
        then (do
          q ← look d
          elim q [
            | none ↦ syntax_error "do"
            | some (init, tail) ↦ do
              next ← step_of name tail
              pure (record { name = name; init = init; next = next })
          ])
        else syntax_error "do"
  ]

unfoldable pub do_loop : List Spec → Value → Value → Value → M Value
do_loop specs test results body = do
  loop_name ← make_gensym "loop"
  commands ← list_to_vector body "do"
  recur ← list_from (loop_name ∷ map (λ s. s.next) specs)
  result_forms ← list_to_vector results "do"
  result ← make_begin_form result_forms
  again ← make_begin_form (commands ++ recur ∷ [])
  if_expr ← list_from (symbol "if" ∷ test ∷ result ∷ again ∷ [])
  vars ← list_from (map (λ s. s.name) specs)
  lambda_expr ← list_from (symbol "lambda" ∷ vars ∷ if_expr ∷ [])
  binding ← list_from (loop_name ∷ lambda_expr ∷ [])
  bindings ← list_from (binding ∷ [])
  call ← list_from (loop_name ∷ map (λ s. s.init) specs)
  list_from (symbol "letrec" ∷ bindings ∷ call ∷ [])

-- (do ((v init step) ...) (test result ...) body ...)
unfoldable pub expand_do : Value → M Value
unfolding read_spec do_loop
expand_do form = do
  rest ← cdr form
  check_arity "do" rest 2 0
  var_form ← car rest
  more ← cdr rest
  test_form ← car more
  body ← cdr more
  p ← look test_form
  elim p [
    | none ↦ syntax_error "do"
    | some (test, results) ↦ do
      vs ← list_to_vector var_form "do"
      specs ← each read_spec vs
      do_loop specs test results body
  ]

-- The binding that an internal definition stands for. What follows `define`, and what follows a
-- variable, is taken apart unchecked where it is not nil.
unfoldable pub define_binding : Value → Value → M Value
unfolding look is_symbol is_nil
define_binding lhs rhs_tail =
    if is_symbol lhs
    then (if is_nil rhs_tail
        then syntax_error "define"
        else (do e ← car rhs_tail; list_from (lhs ∷ e ∷ [])))
    else (do
      p ← look lhs
      elim p [
        | none ↦ syntax_error "define"
        | some (name, params) ↦
            if is_symbol name
            then (do
              inner ← make_pair params rhs_tail
              lambda_expr ← make_pair (symbol "lambda") inner
              list_from (name ∷ lambda_expr ∷ []))
            else syntax_error "define"
      ])

unfoldable pub read_define : Value → M Value
unfolding define_binding is_nil
read_define drest =
    if is_nil drest
    then syntax_error "define"
    else (do lhs ← car drest; rhs_tail ← cdr drest; define_binding lhs rhs_tail)

-- The bindings of the definitions that lead a body, and the forms after them.
unfoldable pub leading_defines : List Value → M (List Value × List Value)
unfolding read_define is_symbol_named look
leading_defines [] = pure ([], [])
leading_defines (form ∷ forms) = do
  p ← look form
  elim p [
    | none ↦ pure ([], form ∷ forms)
    | some (head, drest) ↦
        if is_symbol_named head "define"
        then (do b ← read_define drest; (bs, rest) ← leading_defines forms; pure (b ∷ bs, rest))
        else pure ([], form ∷ forms)
  ]

abbrev pub letrec_forms : List Value → List Value
letrec_forms [] = symbol ":undef" ∷ []
letrec_forms forms = forms

unfoldable pub letrec_body : Value → List Value → List Value → M Value
letrec_body body [] rest = pure body
letrec_body body bs rest = do
  bindings ← list_from bs
  form ← list_from (symbol "letrec" ∷ bindings ∷ letrec_forms rest)
  list_from (form ∷ [])

unfoldable pub scan_out_defines : Value → M Value
unfolding leading_defines letrec_body
scan_out_defines body = do
  forms ← list_to_vector body "lambda body"
  (bs, rest) ← leading_defines forms
  letrec_body body bs rest
