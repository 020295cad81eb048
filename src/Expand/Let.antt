-- ===== src/Expand/Let.antt =====
-- scheme14/scheme14.cpp, section 7: `let`, `let*` and `letrec`.
use secd_scheme.Prelude.{none, some, List, [], ◌∷◌, ◌++◌, map, if◌then◌else◌}
use secd_scheme.Value.{Value, symbol}
use secd_scheme.Effect.{M, pure, ◌>>=◌, ◌>>◌}
use secd_scheme.Pairs.{list_to_vector, list_from, make_pair}
use secd_scheme.Syntax.{look, car, cdr, syntax_error, check_arity, check_bindings, is_symbol}
use secd_scheme.Expand.Build.{make_begin_form, binding_parts, each}

-- (lambda (v ...) . body) and the inits
unfoldable pub lambda_of : Value → Value → M (Value × List Value)
lambda_of bindings body = do
  bs ← list_to_vector bindings "let"
  parts ← each binding_parts bs
  params ← list_from (map (λ p. p.0) parts)
  inner ← make_pair params body
  lambda_expr ← make_pair (symbol "lambda") inner
  pure (lambda_expr, map (λ p. p.1) parts)

unfoldable pub expand_named_let : Value → Value → M Value
unfolding lambda_of
expand_named_let name body = do
  p ← look body
  elim p [
    | none ↦ syntax_error "let"
    | some (bindings, real_body) ↦ do
      check_bindings "let" bindings
      (lambda_expr, inits) ← lambda_of bindings real_body
      binding ← list_from (name ∷ lambda_expr ∷ [])
      bindings' ← list_from (binding ∷ [])
      call ← list_from (name ∷ inits)
      list_from (symbol "letrec" ∷ bindings' ∷ call ∷ [])
  ]

-- (let ((v e) ...) body ...) -> ((lambda (v ...) body ...) e ...)
unfoldable pub expand_plain_let : Value → Value → M Value
unfolding lambda_of
expand_plain_let bindings body = do
  check_bindings "let" bindings
  (lambda_expr, inits) ← lambda_of bindings body
  list_from (lambda_expr ∷ inits)

unfoldable pub expand_let : Value → M Value
unfolding expand_named_let expand_plain_let
expand_let form = do
  rest ← cdr form
  check_arity "let" rest 1 0
  bindings ← car rest
  body ← cdr rest
  if is_symbol bindings then expand_named_let bindings body else expand_plain_let bindings body

-- (let* (b1 b2 ...) body ...) -> (let (b1) (let* (b2 ...) (begin body ...)))
unfoldable pub let_star_of : List Value → Value → M Value
let_star_of [] body_form = pure body_form
let_star_of (b ∷ []) body_form = do
  bs ← list_from (b ∷ [])
  list_from (symbol "let" ∷ bs ∷ body_form ∷ [])
let_star_of (b ∷ rest) body_form = do
  tail ← list_from rest
  nested ← list_from (symbol "let*" ∷ tail ∷ body_form ∷ [])
  bs ← list_from (b ∷ [])
  list_from (symbol "let" ∷ bs ∷ nested ∷ [])

unfoldable pub expand_let_star : Value → M Value
unfolding let_star_of
expand_let_star form = do
  rest ← cdr form
  check_arity "let*" rest 1 0
  bindings ← car rest
  body ← cdr rest
  check_bindings "let*" bindings
  bs ← list_to_vector bindings "let*"
  forms ← list_to_vector body "let*"
  body_form ← make_begin_form forms
  let_star_of bs body_form

unfoldable pub undef_binding : Value → M Value
undef_binding b = do name ← car b; list_from (name ∷ symbol ":undef" ∷ [])

unfoldable pub assignment : Value → M Value
assignment b = do (name, e) ← binding_parts b; list_from (symbol "set!" ∷ name ∷ e ∷ [])

-- (letrec ((v e) ...) body ...) -> (let ((v :undef) ...) (begin (set! v e) ... body ...))
unfoldable pub expand_letrec : Value → M Value
unfolding undef_binding assignment
expand_letrec form = do
  rest ← cdr form
  check_arity "letrec" rest 1 0
  bindings ← car rest
  body ← cdr rest
  check_bindings "letrec" bindings
  bs ← list_to_vector bindings "letrec"
  undefs ← each undef_binding bs
  sets ← each assignment bs
  forms ← list_to_vector body "letrec"
  let_bindings ← list_from undefs
  seq ← make_begin_form (sets ++ forms)
  list_from (symbol "let" ∷ let_bindings ∷ seq ∷ [])
