-- ===== src/Expand/Cond.antt =====
-- scheme14/scheme14.cpp, section 7: `and`, `or`, `cond` and `case`.
use text.Mathlib.Text.{◌==◌ as str_eq}
use secd_scheme.Prelude.{
  ℕ, zero, suc, String, Bool, true, false, not, none, some, List, [], ◌∷◌, length, if◌then◌else◌,
}
use secd_scheme.Value.{Value, nil, boolean, symbol}
use secd_scheme.Effect.{M, pure, gets, ◌>>=◌, ◌>>◌, out_of_fuel}
use secd_scheme.Pairs.{list_to_vector, list_from, make_pair, is_nil}
use secd_scheme.Syntax.{look, car, cdr, syntax_error, check_arity}
use secd_scheme.Expand.Build.{make_gensym, make_begin_form}

unfoldable pub is_symbol_named : Value → String → Bool
is_symbol_named (symbol s) name = str_eq s name
is_symbol_named _ name = false

-- (and x y ...) -> (if x (and y ...) #f), from the last operand on
unfoldable pub and_of : List Value → M Value
and_of [] = pure (boolean true)
and_of (x ∷ []) = pure x
and_of (x ∷ (y ∷ ys)) = do
  out ← and_of (y ∷ ys)
  list_from (symbol "if" ∷ x ∷ out ∷ boolean false ∷ [])

unfoldable pub expand_and : Value → M Value
unfolding and_of
expand_and form = do rest ← cdr form; xs ← list_to_vector rest "and"; and_of xs

-- (let ((t test)) (if t then else))
unfoldable pub let_if : Value → Value → Value → Value → M Value
let_if t test then_e else_e = do
  b ← list_from (t ∷ test ∷ [])
  bs ← list_from (b ∷ [])
  branch ← list_from (symbol "if" ∷ t ∷ then_e ∷ else_e ∷ [])
  list_from (symbol "let" ∷ bs ∷ branch ∷ [])

-- A temporary for each operand but the last, taken from the outside.
unfoldable pub or_temps : List Value → M (List (Value × Value))
or_temps [] = pure []
or_temps (x ∷ []) = pure []
or_temps (x ∷ xs) = do t ← make_gensym "or"; rest ← or_temps xs; pure ((t, x) ∷ rest)

unfoldable pub or_chain : List (Value × Value) → Value → M Value
unfolding let_if
or_chain [] last = pure last
or_chain ((t, x) ∷ rest) last = do out ← or_chain rest last; let_if t x t out

unfoldable pub last_of : Value → List Value → Value
last_of x [] = x
last_of x (y ∷ ys) = last_of y ys

unfoldable pub or_of : List Value → M Value
unfolding or_temps or_chain last_of
or_of [] = pure (boolean false)
or_of (x ∷ xs) = do temps ← or_temps (x ∷ xs); or_chain temps (last_of x xs)

unfoldable pub expand_or : Value → M Value
unfolding or_of
expand_or form = do rest ← cdr form; xs ← list_to_vector rest "or"; or_of xs

-- A clause of `cond`: `temp` where the value of the test is kept, `recv` after `=>`.
pub data Clause : Type 0 where
  else_clause : Value → Clause
  value_clause : Value → Value → Clause
  arrow_clause : Value → Value → Value → Clause
  body_clause : Value → Value → Clause

unfoldable pub read_body : Value → Value → M Clause
unfolding is_symbol_named
read_body test body = do
  p ← look body
  elim p [
    | none ↦ pure (body_clause test body)
    | some (b, tail) ↦ if not (is_symbol_named b "=>") then pure (body_clause test body) else (do
      q ← look tail
      elim q [
        | some (recv, nil) ↦ do t ← make_gensym "cond"; pure (arrow_clause test recv t)
        | _ ↦ syntax_error "cond"
      ])
  ]

unfoldable pub read_clause : Value → Value → M Clause
unfolding is_symbol_named read_body
read_clause test body =
    if is_symbol_named test "else"
    then pure (else_clause body)
    else if is_nil body
    then (do t ← make_gensym "cond"; pure (value_clause test t))
    else read_body test body

abbrev pub is_else : Clause → Bool
is_else (else_clause b) = true
is_else _ = false

-- The clauses up to the first `else`.
unfoldable pub read_clauses : ℕ → Value → M (List Clause)
unfolding read_clause
read_clauses zero cur = λ h. out_of_fuel
read_clauses (suc fuel) cur = if is_nil cur then pure [] else (do
  p ← look cur
  elim p [
    | none ↦ syntax_error "cond"
    | some (cl, next) ↦ do
      q ← look cl
      elim q [
        | none ↦ syntax_error "cond"
        | some (test, body) ↦ do
          c ← read_clause test body
          if is_else c then pure (c ∷ []) else (do rest ← read_clauses fuel next; pure (c ∷ rest))
      ]
  ])

unfoldable pub clause_code : Clause → Value → M Value
unfolding let_if
clause_code (else_clause body) out = do forms ← list_to_vector body "cond"; make_begin_form forms
clause_code (value_clause test t) out = let_if t test t out
clause_code (arrow_clause test recv t) out = do
  call ← list_from (recv ∷ t ∷ [])
  let_if t test call out
clause_code (body_clause test body) out = do
  forms ← list_to_vector body "cond"
  seq ← make_begin_form forms
  list_from (symbol "if" ∷ test ∷ seq ∷ out ∷ [])

unfoldable pub clauses_code : List Clause → M Value
unfolding clause_code
clauses_code [] = pure (symbol ":undef")
clauses_code (c ∷ cs) = do out ← clauses_code cs; clause_code c out

unfoldable pub expand_cond : Value → M Value
unfolding read_clauses clauses_code
expand_cond form = do
  rest ← cdr form
  fuel ← gets (λ h. suc (length h.objects))
  clauses ← read_clauses fuel rest
  clauses_code clauses

-- ((d ...) body ...) -> ((memv t '(d ...)) body ...)
unfoldable pub case_clause : Value → Value → Value → M Value
unfolding is_symbol_named
case_clause t head body =
    if is_symbol_named head "else"
    then (do forms ← list_to_vector body "case"; list_from (symbol "else" ∷ forms))
    else (do
      quoted ← list_from (symbol "quote" ∷ head ∷ [])
      test ← list_from (symbol "memv" ∷ t ∷ quoted ∷ [])
      forms ← list_to_vector body "case"
      list_from (test ∷ forms))

unfoldable pub case_clauses : ℕ → Value → Value → M (List Value)
unfolding case_clause
case_clauses zero t cur = λ h. out_of_fuel
case_clauses (suc fuel) t cur = if is_nil cur then pure [] else (do
  p ← look cur
  elim p [
    | none ↦ syntax_error "case"
    | some (cl, next) ↦ do
      q ← look cl
      elim q [
        | none ↦ syntax_error "case"
        | some (head, body) ↦ do
          c ← case_clause t head body
          rest ← case_clauses fuel t next
          pure (c ∷ rest)
      ]
  ])

unfoldable pub expand_case : Value → M Value
unfolding case_clauses
expand_case form = do
  rest ← cdr form
  check_arity "case" rest 1 0
  key ← car rest
  clauses ← cdr rest
  t ← make_gensym "case"
  fuel ← gets (λ h. suc (length h.objects))
  cs ← case_clauses fuel t clauses
  b ← list_from (t ∷ key ∷ [])
  bs ← list_from (b ∷ [])
  cond_clauses ← list_from cs
  cond_form ← make_pair (symbol "cond") cond_clauses
  list_from (symbol "let" ∷ bs ∷ cond_form ∷ [])
