-- ===== src/Safety/Expanding/Forms.antt =====
-- `do`, internal definitions, quasiquotation and the choice of a rewriting are safe on every good heap.
use secd_scheme.Prelude.{ℕ, zero, suc, Option, none, some, List, [], ◌∷◌, String, if◌then◌else◌}
use secd_scheme.Value.{Value, nil, symbol}
use secd_scheme.Effect.{M, ◌>>=◌, pure}
use secd_scheme.Syntax.{syntax_error, car, is_symbol}
use secd_scheme.Pairs.{is_nil, list_from, make_pair}
use secd_scheme.Expand.Do.{
  step_of, read_spec, do_loop, expand_do, define_binding, read_define, leading_defines, letrec_body,
  scan_out_defines, Spec,
}
use secd_scheme.Expand.Quasi.{
  QqKind, qq_kind_of, one_argument, take_kind, qq_take_form, qq_quote_of, qq_wrap, qq_form_code,
  qq_atom, qq_item, qq_rest, qq_transfer,
}
use secd_scheme.Expand.{expand_quasiquote, expand_named, expand_form_1}
use secd_scheme.Value.{Heap}
use secd_scheme.Safety.Growth.{HeapOk}
use secd_scheme.Safety.Actions.{Safe, Any}
use secd_scheme.Safety.Sound.{
  Sound, Sound-pure, Sound-fuel, Sound-gets, Sound-if, Sound-bind, Sound-list_from, Sound-make_pair,
}
use secd_scheme.Safety.Expanding.{
  expand_rules, Sound-look, Sound-car, Sound-cdr, Sound-syntax_error,
}
use secd_scheme.Safety.Expanding.Rewrites.{
  Sound-expand_let, Sound-expand_let_star, Sound-expand_letrec, Sound-expand_and, Sound-expand_or,
  Sound-expand_cond, Sound-expand_case,
}

Sound-step_of : (name tail : Value) → Sound (step_of name tail)
unfolding step_of
Sound-step_of name tail = search expand_rules

Sound-read_spec : (v : Value) → Sound (read_spec v)
unfolding read_spec
Sound-read_spec v = Sound-bind _ _ (Sound-look v) (elim [
  | none ↦ Sound-syntax_error _
  | some (name, d) ↦
      Sound-if _ _ _
        (Sound-bind _ _ (Sound-look d) (elim [
          | none ↦ Sound-syntax_error _
          | some (init, tail) ↦ Sound-bind _ _ (Sound-step_of name tail) (λ next. Sound-pure _)
        ]))
        (Sound-syntax_error _)
])

Sound-do_loop :
    (specs : List Spec) (test results body : Value) → Sound (do_loop specs test results body)
unfolding do_loop
Sound-do_loop specs test results body = search expand_rules depth 32

Sound-expand_do : (form : Value) → Sound (expand_do form)
unfolding expand_do
Sound-expand_do form = Sound-bind _ _ (Sound-cdr form) (λ rest.
    Sound-bind _ _ (search expand_rules) (λ _. Sound-bind _ _ (Sound-car rest) (λ var_form.
      Sound-bind _ _ (Sound-cdr rest) (λ more. Sound-bind _ _ (Sound-car more) (λ test_form.
        Sound-bind _ _ (Sound-cdr more) (λ body. Sound-bind _ _ (Sound-look test_form) (elim [
          | none ↦ Sound-syntax_error _
          | some (test, results) ↦ search (expand_rules, Sound-read_spec, Sound-do_loop) depth 12
        ])))))))

of_name :
    (lhs rhs_tail : Value)
    → Sound (
        if is_nil rhs_tail
        then syntax_error "define"
        else (do e ← car rhs_tail; list_from (lhs ∷ e ∷ [])))
of_name lhs rhs_tail =
    Sound-if _ _ _ (Sound-syntax_error _)
      (Sound-bind _ _ (Sound-car rhs_tail) (λ e. Sound-list_from _))

of_procedure :
    (name params rhs_tail : Value)
    → Sound (
        if is_symbol name
        then (do
          inner ← make_pair params rhs_tail
          lambda_expr ← make_pair (symbol "lambda") inner
          list_from (name ∷ lambda_expr ∷ []))
        else syntax_error "define")
of_procedure name params rhs_tail =
    Sound-if _ _ _
      (Sound-bind _ _ (Sound-make_pair _ _)
        (λ inner. Sound-bind _ _ (Sound-make_pair _ _) (λ e. Sound-list_from _)))
      (Sound-syntax_error _)

Sound-define_binding : (lhs rhs_tail : Value) → Sound (define_binding lhs rhs_tail)
unfolding define_binding
Sound-define_binding lhs rhs_tail = Sound-if _ _ _ (of_name lhs rhs_tail) (
    Sound-bind _ _ (Sound-look lhs) (elim [
      | none ↦ Sound-syntax_error _
      | some (name, params) ↦ of_procedure name params rhs_tail
    ]))

Sound-read_define : (drest : Value) → Sound (read_define drest)
unfolding read_define
Sound-read_define drest = search (expand_rules, Sound-define_binding) depth 12

Sound-leading_defines : (forms : List Value) → Sound (leading_defines forms)
unfolding leading_defines
Sound-leading_defines [] = Sound-pure _
Sound-leading_defines (form ∷ forms) = Sound-bind _ _ (Sound-look form) (elim [
  | none ↦ Sound-pure _
  | some (head, drest) ↦
      Sound-if _ _ _
        (Sound-bind _ _ (Sound-read_define drest)
          (λ b. Sound-bind _ _ (Sound-leading_defines forms) (λ p. Sound-pure _)))
        (Sound-pure _)
])

Sound-letrec_body : (body : Value) (bs rest : List Value) → Sound (letrec_body body bs rest)
unfolding letrec_body
Sound-letrec_body body [] rest = Sound-pure body
Sound-letrec_body body (b ∷ bs) rest = search expand_rules depth 12

pub Sound-scan_out_defines : (body : Value) → Sound (scan_out_defines body)
unfolding scan_out_defines
Sound-scan_out_defines body =
    search (expand_rules, Sound-leading_defines, Sound-letrec_body) depth 12

Sound-one_argument : (rest : Value) → Sound (one_argument rest)
unfolding one_argument
Sound-one_argument rest = Sound-bind _ _ (Sound-look rest) (λ q. only q)
  where
    only :
        (q : Option (Value × Value))
        → Sound (elim q as (λ x. M Value) [
          | some (arg, nil) ↦ pure arg
          | _ ↦ syntax_error "quasiquote"
        ])
    only none = Sound-syntax_error _
    only (some (arg, nil)) = Sound-pure arg
    only (some (arg, _)) = Sound-syntax_error _

Sound-take_kind : (k : Option QqKind) (rest : Value) → Sound (take_kind k rest)
unfolding take_kind
Sound-take_kind none rest = Sound-pure none
Sound-take_kind (some k) rest = Sound-bind _ _ (Sound-one_argument rest) (λ arg. Sound-pure _)

Sound-qq_take_form : (cur : Value) → Sound (qq_take_form cur)
unfolding qq_take_form
Sound-qq_take_form cur =
    Sound-bind _ _ (Sound-look cur)
      (elim [ none ↦ Sound-pure none | some (head, rest) ↦ Sound-take_kind (qq_kind_of head) rest ])

Sound-qq_quote_of : (x : Value) → Sound (qq_quote_of x)
unfolding qq_quote_of
Sound-qq_quote_of x = Sound-list_from _

Sound-qq_wrap : (name : String) (e : Value) → Sound (qq_wrap name e)
unfolding qq_wrap
Sound-qq_wrap name e = search (expand_rules) depth 12

module _ (transfer : Value → ℕ → M Value) (st : (x : Value) (d : ℕ) → Sound (transfer x d)) where
  Sound-qq_form_code :
      (k : QqKind) (arg : Value) (depth : ℕ) → Sound (qq_form_code transfer k arg depth)
  unfolding qq_form_code
  Sound-qq_form_code QqKind.quasiquote arg depth =
      Sound-bind _ _ (st arg _) (λ e. Sound-qq_wrap _ e)
  Sound-qq_form_code _ arg depth =
      Sound-if _ _ _ (Sound-pure arg) (Sound-bind _ _ (st arg _) (λ e. Sound-qq_wrap _ e))

  Sound-qq_atom :
      (x : Value) (depth : ℕ) (xs : Option (List Value)) → Sound (qq_atom transfer x depth xs)
  unfolding qq_atom
  Sound-qq_atom x depth none = Sound-qq_quote_of x
  Sound-qq_atom x depth (some xs) =
      Sound-bind _ _ (Sound-list_from xs)
        (λ l. Sound-bind _ _ (st l depth) (λ e. Sound-list_from _))

  Sound-qq_item :
      (a : Value) (depth : ℕ) (form : Option (QqKind × Value))
      → Sound (qq_item transfer a depth form)
  unfolding qq_item
  Sound-qq_item a depth (some (k, arg)) =
      Sound-if _ _ _ (Sound-pure _)
        (Sound-bind _ _ (Sound-qq_form_code k arg depth) (λ e. Sound-pure _))
  Sound-qq_item a depth none = Sound-bind _ _ (Sound-look a) (elim [
    | none ↦ Sound-bind _ _ (Sound-qq_quote_of a) (λ e. Sound-pure _)
    | some _ ↦ Sound-bind _ _ (st a depth) (λ e. Sound-pure _)
  ])

  Sound-qq_rest :
      (a d : Value) (depth : ℕ) (form : Option (QqKind × Value))
      → Sound (qq_rest transfer a d depth form)
  unfolding qq_rest
  Sound-qq_rest a d depth (some (k, arg)) =
      Sound-if _ _ _ (Sound-syntax_error _) (Sound-qq_form_code k arg depth)
  Sound-qq_rest a d depth none = Sound-bind _ _ (Sound-qq_take_form a) (λ form.
      Sound-bind _ _ (Sound-qq_item a depth form)
        (λ item. Sound-bind _ _ (st d depth) (λ out. Sound-list_from _)))

Sound-qq_transfer : (fuel : ℕ) (x : Value) (depth : ℕ) → Sound (qq_transfer fuel x depth)
unfolding qq_transfer
Sound-qq_transfer zero x depth = Sound-fuel
Sound-qq_transfer (suc fuel) x depth = Sound-bind _ _ (Sound-look x) (elim [
  | none ↦
      Sound-bind _ _ (Sound-gets _)
        (λ xs. Sound-qq_atom (qq_transfer fuel) (Sound-qq_transfer fuel) x depth xs)
  | some (a, d) ↦
      Sound-bind _ _ (Sound-qq_take_form x)
        (λ form. Sound-qq_rest (qq_transfer fuel) (Sound-qq_transfer fuel) a d depth form)
])

Sound-expand_quasiquote : (fuel : ℕ) (form : Value) → Sound (expand_quasiquote fuel form)
unfolding expand_quasiquote
Sound-expand_quasiquote fuel form = search (expand_rules, Sound-qq_transfer) depth 12

Sound-expand_named : (fuel : ℕ) (name : String) (form : Value) → Sound (expand_named fuel name form)
unfolding expand_named
Sound-expand_named fuel name form =
    search
      (
        Sound-if, Sound-pure, Sound-expand_let, Sound-expand_let_star, Sound-expand_letrec,
        Sound-expand_and, Sound-expand_or, Sound-expand_cond, Sound-expand_case, Sound-expand_do,
        Sound-expand_quasiquote,
      )
      depth 12

pub Sound-expand_form_1 : (fuel : ℕ) (form : Value) → Sound (expand_form_1 fuel form)
unfolding expand_form_1
Sound-expand_form_1 fuel form = Sound-bind _ _ (Sound-look form) (λ p. chosen p)
  where
    chosen :
        (p : Option (Value × Value))
        → Sound (elim p as (λ x. M Value) [
          | some (symbol name, rest) ↦ expand_named fuel name form
          | _ ↦ pure form
        ])
    chosen none = Sound-pure form
    chosen (some (symbol name, rest)) = Sound-expand_named fuel name form
    chosen (some (_, rest)) = Sound-pure form

-- On every good heap, the rewriting of any form, with any fuel, is safe: where it returns or raises an
-- error the heap is good again, and it meets none of the machine's internal errors.
pub Safe-expand_form_1 :
    (fuel : ℕ) (form : Value) (h : Heap) → HeapOk h → Safe h Any (expand_form_1 fuel form h)
Safe-expand_form_1 fuel form = (Sound-expand_form_1 fuel form).at
