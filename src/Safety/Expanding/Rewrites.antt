-- ===== src/Safety/Expanding/Rewrites.antt =====
-- Each rewriting of section 7 is safe on every good heap.
use secd_scheme.Prelude.{ℕ, zero, suc, Option, none, some, List, [], ◌∷◌}
use secd_scheme.Value.{Value, nil}
use secd_scheme.Effect.{M, ◌>>=◌, pure}
use secd_scheme.Expand.Let.{
  lambda_of, expand_named_let, expand_plain_let, expand_let, let_star_of, expand_let_star,
  undef_binding, assignment, expand_letrec,
}
use secd_scheme.Expand.Cond.{
  and_of, expand_and, let_if, or_temps, or_chain, last_of, or_of, expand_or, Clause, else_clause,
  value_clause, arrow_clause, body_clause, read_body, read_clause, read_clauses, clause_code,
  clauses_code, expand_cond, case_clause, case_clauses, expand_case,
}
use secd_scheme.Expand.Build.{make_gensym}
use secd_scheme.Syntax.{syntax_error}
use secd_scheme.Safety.Sound.{Sound, Sound-pure, Sound-fuel, Sound-if, Sound-bind, Sound-list_from}
use secd_scheme.Safety.Expanding.{expand_rules, Sound-look, Sound-syntax_error, Sound-make_gensym}

Sound-lambda_of : (bindings body : Value) → Sound (lambda_of bindings body)
unfolding lambda_of
Sound-lambda_of bindings body = search expand_rules depth 12

Sound-let_star_of : (bs : List Value) (body : Value) → Sound (let_star_of bs body)
unfolding let_star_of
Sound-let_star_of [] body = Sound-pure body
Sound-let_star_of (b ∷ []) body = search expand_rules depth 12
Sound-let_star_of (b ∷ (c ∷ bs)) body = search expand_rules depth 12

pub Sound-expand_let_star : (form : Value) → Sound (expand_let_star form)
unfolding expand_let_star
Sound-expand_let_star form = search (expand_rules, Sound-let_star_of) depth 16

Sound-expand_named_let : (name body : Value) → Sound (expand_named_let name body)
unfolding expand_named_let
Sound-expand_named_let name body = Sound-bind _ _ (Sound-look body) (elim [
  | none ↦ Sound-syntax_error _
  | some (bindings, real_body) ↦ search (expand_rules, Sound-lambda_of) depth 16
])

Sound-expand_plain_let : (bindings body : Value) → Sound (expand_plain_let bindings body)
unfolding expand_plain_let
Sound-expand_plain_let bindings body = search (expand_rules, Sound-lambda_of) depth 16

pub Sound-expand_let : (form : Value) → Sound (expand_let form)
unfolding expand_let
Sound-expand_let form =
    search (expand_rules, Sound-expand_named_let, Sound-expand_plain_let) depth 16

Sound-undef_binding : (b : Value) → Sound (undef_binding b)
unfolding undef_binding
Sound-undef_binding b = search expand_rules depth 12

Sound-assignment : (b : Value) → Sound (assignment b)
unfolding assignment
Sound-assignment b = search expand_rules depth 12

pub Sound-expand_letrec : (form : Value) → Sound (expand_letrec form)
unfolding expand_letrec
Sound-expand_letrec form = search (expand_rules, Sound-undef_binding, Sound-assignment) depth 24

Sound-and_of : (xs : List Value) → Sound (and_of xs)
unfolding and_of
Sound-and_of [] = Sound-pure _
Sound-and_of (x ∷ []) = Sound-pure x
Sound-and_of (x ∷ (y ∷ ys)) = Sound-bind _ _ (Sound-and_of (y ∷ ys)) (λ out. Sound-list_from _)

pub Sound-expand_and : (form : Value) → Sound (expand_and form)
unfolding expand_and
Sound-expand_and form = search (expand_rules, Sound-and_of) depth 12

Sound-let_if : (t test then_e else_e : Value) → Sound (let_if t test then_e else_e)
unfolding let_if
Sound-let_if t test then_e else_e = search expand_rules depth 12

Sound-or_temps : (xs : List Value) → Sound (or_temps xs)
unfolding or_temps
Sound-or_temps [] = Sound-pure []
Sound-or_temps (x ∷ []) = Sound-pure []
Sound-or_temps (x ∷ (y ∷ xs)) =
    Sound-bind _ _ (Sound-make_gensym "or")
      (λ t. Sound-bind _ _ (Sound-or_temps (y ∷ xs)) (λ rest. Sound-pure _))

Sound-or_chain : (temps : List (Value × Value)) (last : Value) → Sound (or_chain temps last)
unfolding or_chain
Sound-or_chain [] last = Sound-pure last
Sound-or_chain ((t, x) ∷ rest) last =
    Sound-bind _ _ (Sound-or_chain rest last) (λ out. Sound-let_if t x t out)

Sound-or_of : (xs : List Value) → Sound (or_of xs)
unfolding or_of
Sound-or_of [] = Sound-pure _
Sound-or_of (x ∷ xs) =
    Sound-bind _ _ (Sound-or_temps (x ∷ xs)) (λ temps. Sound-or_chain temps (last_of x xs))

pub Sound-expand_or : (form : Value) → Sound (expand_or form)
unfolding expand_or
Sound-expand_or form = search (expand_rules, Sound-or_of) depth 12

Sound-read_body : (test body : Value) → Sound (read_body test body)
unfolding read_body
Sound-read_body test body = Sound-bind _ _ (Sound-look body) (elim [
  | none ↦ Sound-pure _
  | some (b, tail) ↦
      Sound-if _ _ _ (Sound-pure _) (Sound-bind _ _ (Sound-look tail) (arrow_target test))
])
  where
    arrow_target :
        (test : Value) (q : Option (Value × Value))
        → Sound (elim q as (λ x. M Clause) [
          | some (recv, nil) ↦ (make_gensym "cond" >>= λ t. pure (arrow_clause test recv t))
          | _ ↦ syntax_error "cond"
        ])
    arrow_target test none = Sound-syntax_error _
    arrow_target test (some (recv, nil)) =
        Sound-bind _ _ (Sound-make_gensym "cond") (λ t. Sound-pure _)
    arrow_target test (some (recv, _)) = Sound-syntax_error _

Sound-read_clause : (test body : Value) → Sound (read_clause test body)
unfolding read_clause
Sound-read_clause test body = search (expand_rules, Sound-read_body) depth 12

Sound-read_clauses : (fuel : ℕ) (cur : Value) → Sound (read_clauses fuel cur)
unfolding read_clauses
Sound-read_clauses zero cur = Sound-fuel
Sound-read_clauses (suc fuel) cur = Sound-if _ _ _ (Sound-pure []) (
    Sound-bind _ _ (Sound-look cur) (elim [
      | none ↦ Sound-syntax_error _
      | some (cl, next) ↦ Sound-bind _ _ (Sound-look cl) (elim [
        | none ↦ Sound-syntax_error _
        | some (test, body) ↦ Sound-bind _ _ (Sound-read_clause test body) (λ c.
            Sound-if _ _ _ (Sound-pure _)
              (Sound-bind _ _ (Sound-read_clauses fuel next) (λ rest. Sound-pure _)))
      ])
    ]))

Sound-clause_code : (c : Clause) (out : Value) → Sound (clause_code c out)
unfolding clause_code
Sound-clause_code (else_clause body) out = search expand_rules depth 12
Sound-clause_code (value_clause test t) out = Sound-let_if t test t out
Sound-clause_code (arrow_clause test recv t) out = search (expand_rules, Sound-let_if) depth 12
Sound-clause_code (body_clause test body) out = search expand_rules depth 12

Sound-clauses_code : (cs : List Clause) → Sound (clauses_code cs)
unfolding clauses_code
Sound-clauses_code [] = Sound-pure _
Sound-clauses_code (c ∷ cs) =
    Sound-bind _ _ (Sound-clauses_code cs) (λ out. Sound-clause_code c out)

pub Sound-expand_cond : (form : Value) → Sound (expand_cond form)
unfolding expand_cond
Sound-expand_cond form = search (expand_rules, Sound-read_clauses, Sound-clauses_code) depth 12

Sound-case_clause : (t head body : Value) → Sound (case_clause t head body)
unfolding case_clause
Sound-case_clause t head body = search expand_rules depth 12

Sound-case_clauses : (fuel : ℕ) (t cur : Value) → Sound (case_clauses fuel t cur)
unfolding case_clauses
Sound-case_clauses zero t cur = Sound-fuel
Sound-case_clauses (suc fuel) t cur = Sound-if _ _ _ (Sound-pure []) (
    Sound-bind _ _ (Sound-look cur) (elim [
      | none ↦ Sound-syntax_error _
      | some (cl, next) ↦ Sound-bind _ _ (Sound-look cl) (elim [
        | none ↦ Sound-syntax_error _
        | some (head, body) ↦
            Sound-bind _ _ (Sound-case_clause t head body)
              (λ c. Sound-bind _ _ (Sound-case_clauses fuel t next) (λ rest. Sound-pure _))
      ])
    ]))

pub Sound-expand_case : (form : Value) → Sound (expand_case form)
unfolding expand_case
Sound-expand_case form = search (expand_rules, Sound-case_clauses) depth 24
