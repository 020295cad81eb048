-- ===== src/Safety/Compiling/Forms.antt =====
-- The compilation of definitions, assignments, calls and whole expressions.
use secd_scheme.Prelude.{
  ℕ, suc, ◌≡◌, refl, Bool, true, false, Option, none, some, List, [], ◌∷◌, String, length, Addr,
  arith,
}
use secd_scheme.Value.{
  Value, symbol, lset, ldc, def, defm, gset, ldf, callcc, tcallcc, Code, empty, ◌▷◌,
}
use secd_scheme.Effect.{M, ◌>>=◌, pure, gets}
use secd_scheme.Syntax.{car, cdr, syntax_error, in_range}
use secd_scheme.Step.{cell_at}
use secd_scheme.Typing.{Kind, body, InstrOk}
use secd_scheme.Compile.Forms.{
  CompileEnv, find_place, on_last, name_closure, Form, form_of, tail_op, compile_lambda,
  comp_definition, comp_define, comp_assignment, target_name, comp_set, comp_callcc, apply_code,
  comp_apply, transformer_of, macro_expand, comp_application, comp_call, comp_form, comp_pair,
  comp_expr,
}
use secd_scheme.Safety.Actions.{Safe-weaken}
use secd_scheme.Safety.Shape.{shape, Emits}
use secd_scheme.Safety.Emitting.{one-Emits, then-Emits, apply-Emits, call-Emits, named-Emits}
use secd_scheme.Safety.Sound.{Sound, Sound-pure, Sound-gets, Sound-bind, Sound-list_to_vector}
use secd_scheme.Safety.Gives.{
  Gives, Gives-pure, Gives-syntax_error, Gives-if, Gives-bind, Gives-after, Gives-checked,
}
use secd_scheme.Safety.Expanding.{Sound-look, Sound-car, Sound-cdr, Sound-check_arity}
use secd_scheme.Safety.Expanding.Forms.{Sound-expand_form_1}
use secd_scheme.Safety.Compiling.{
  Sound-narrow, Sound-compile_global, LocalPlace, Gives-find_place, Gives-variable,
}
use secd_scheme.Safety.Compiling.Bodies.{
  Gives-comp_body, Gives-compile_lambda, Gives-comp_each, Gives-comp_if,
}

Gives-any :
    (env : CompileEnv) (tail : Bool) {m : M Code}
    → Gives (Emits env false) m
    → Gives (Emits env tail) m
Gives-any env tail g = record {
  at = λ h good. Safe-weaken (g.at h good) (λ c h' typed k d rest t r. typed k d rest (λ e. cc) r);
}

module _ (apply_macro : Value → List Value → M Value)
    (macro_sound : (f : Value) (xs : List Value) → Sound (apply_macro f xs)) (fuel : ℕ)
    (rec : Value → CompileEnv → Bool → M Code)
    (rec_gives : (e : Value) (env : CompileEnv) (tail : Bool)
      → Gives (Emits env tail) (rec e env tail)) where
  Gives-definition :
      (lhs rhs_tail : Value) (env : CompileEnv)
      → Gives (λ p. Emits env false p.1) (comp_definition apply_macro fuel rec lhs rhs_tail env)
  unfolding comp_definition
  Gives-definition (symbol name) rhs_tail env = Gives-if _ (Gives-syntax_error _) (
      Gives-after (Sound-cdr _) (λ more.
        Gives-if _
          (Gives-after (Sound-car _)
            (λ e. Gives-bind (rec_gives e env false) (λ c typed. Gives-pure _ typed)))
          (Gives-syntax_error _)))
  Gives-definition lhs rhs_tail env = Gives-after (Sound-look lhs) of_pair
    where
      of_pair :
          (p : Option (Value × Value))
          → Gives
              (λ p. Emits env false p.1)
              (elim p as (λ x. M (String × Code)) [
                | some (symbol name, params) ↦ do
                  t ← compile_lambda apply_macro fuel rec params rhs_tail env
                  pure (name, ldf t false ▷ empty)
                | _ ↦ syntax_error "define"
              ])
      of_pair none = Gives-syntax_error _
      of_pair (some (symbol name, params)) =
          Gives-bind
            (Gives-compile_lambda apply_macro macro_sound fuel rec rec_gives params rhs_tail env)
            (λ t fits.
              Gives-pure _ (one-Emits env false (ldf t false) (λ k d. InstrOk.ldf_ok fits)))
      of_pair (some (_, params)) = Gives-syntax_error _

  Gives-comp_define :
      (is_macro : Bool) (rest : Value) (env : CompileEnv)
      → Gives (Emits env false) (comp_define apply_macro fuel rec is_macro rest env)
  unfolding comp_define
  Gives-comp_define is_macro rest env = Gives-after (Sound-gets _) (λ e.
      Gives-if _ (Gives-syntax_error _) (
        Gives-after (Sound-check_arity _ _ _ _) (λ _. Gives-after (Sound-car _) (λ lhs.
          Gives-after (Sound-cdr _) (λ rhs_tail.
            Gives-bind (Gives-definition lhs rhs_tail env) (λ p typed.
              Gives-after (Sound-compile_global p.0) (λ a. Gives-pure _ (
                then-Emits env false (on_last (name_closure p.0) p.1)
                  (tail_op is_macro (defm a) (def a)) (named-Emits env p.0 p.1 typed)
                  (λ k d t. stores is_macro a k d)))))))))
    where
      stores :
          (b : Bool) (a : Addr) (k : Kind) (d : ℕ)
          → InstrOk k (shape env) (suc d) (tail_op b (defm a) (def a)) (suc d)
      stores true a k d = InstrOk.defm_ok (omega arith)
      stores false a k d = InstrOk.def_ok (omega arith)

  Gives-assignment :
      (name : String) (env : CompileEnv) (c : Code)
      → Emits env false c
      → (l : Option (ℕ × ℕ)) → LocalPlace env l
      → Gives (Emits env false) (comp_assignment name l c)
  unfolding comp_assignment
  Gives-assignment name env c typed (some (i, j)) place = Gives-pure _ (
      then-Emits env false c (lset i j) typed
        (λ k d t. InstrOk.lset_ok (place i j refl) (omega arith)))
  Gives-assignment name env c typed none e = Gives-after (Sound-gets _) (λ table.
      Gives-if _ (Gives-syntax_error _) (
        Gives-after (Sound-compile_global name) (λ a.
          Gives-pure _
            (then-Emits env false c (gset a) typed (λ k d t. InstrOk.gset_ok (omega arith))))))

  Gives-comp_set :
      (rest : Value) (env : CompileEnv)
      → Gives (Emits env false) (comp_set apply_macro fuel rec rest env)
  unfolding comp_set
  Gives-comp_set rest env =
      Gives-after (Sound-check_arity _ _ _ _)
        (λ _. Gives-after (Sound-car _) (λ target. of_target (target_name target)))
    where
      of_target :
          (t : Option String)
          → Gives (Emits env false) (elim t as (λ x. M Code) [
            | none ↦ syntax_error "set!"
            | some name ↦ do
              more ← cdr rest
              e ← car more
              c ← rec e env false
              do l ← find_place name env; comp_assignment name l c
          ])
      of_target none = Gives-syntax_error _
      of_target (some name) = Gives-after (Sound-cdr _) (λ more. Gives-after (Sound-car _) (λ e.
          Gives-bind (rec_gives e env false) (λ c typed.
            Gives-bind (Gives-find_place name env) (Gives-assignment name env c typed))))

  Gives-comp_callcc :
      (rest : Value) (env : CompileEnv) (tail : Bool)
      → Gives (Emits env tail) (comp_callcc apply_macro fuel rec rest env tail)
  unfolding comp_callcc
  Gives-comp_callcc rest env tail = Gives-after (Sound-check_arity _ _ _ _) (λ _.
      Gives-after (Sound-car _) (λ proc. Gives-bind (rec_gives proc env false) (λ c typed.
        Gives-pure _ (then-Emits env tail c (tail_op tail tcallcc callcc) typed (captures tail)))))
    where
      captures :
          (b : Bool) (k : Kind) (d : ℕ)
          → (b ≡ true → k ≡ body)
          → InstrOk k (shape env) (suc d) (tail_op b tcallcc callcc) (suc d)
      captures true k d t = InstrOk.tcallcc_ok (t refl) (omega arith)
      captures false k d t = InstrOk.callcc_ok (omega arith)

  Gives-apply_code :
      (xs : List Value) (env : CompileEnv) (tail : Bool)
      → in_range 2 0 (length xs) ≡ true
      → Gives (Emits env tail) (apply_code apply_macro fuel rec xs env tail)
  unfolding apply_code in_range
  Gives-apply_code [] env tail e = cc
  Gives-apply_code (f ∷ []) env tail e = cc
  Gives-apply_code (f ∷ (x ∷ xs)) env tail e =
      Gives-bind (Gives-comp_each apply_macro macro_sound fuel rec rec_gives (x ∷ xs) env)
        (λ cs many. Gives-after (Sound-narrow _) (λ _.
          Gives-bind (rec_gives f env false) (λ c typed.
            Gives-pure _ (apply-Emits env tail (length (x ∷ xs)) cs c (omega arith) many typed))))

  Gives-comp_apply :
      (rest : Value) (env : CompileEnv) (tail : Bool)
      → Gives (Emits env tail) (comp_apply apply_macro fuel rec rest env tail)
  unfolding comp_apply
  Gives-comp_apply rest env tail =
      Gives-checked "apply" "apply" rest 2 0 (λ xs. apply_code apply_macro fuel rec xs env tail)
        (λ xs inside. Gives-apply_code xs env tail inside)

  Sound-macro_expand :
      (expr head rest : Value) → Sound (macro_expand apply_macro fuel rec expr head rest)
  unfolding macro_expand transformer_of
  Sound-macro_expand expr head rest = Sound-bind _ _ (Sound-transformer_of head) (elim [
    | none ↦ Sound-pure none
    | some proc ↦
        Sound-bind _ _ (Sound-list_to_vector _ _)
          (λ args. Sound-bind _ _ (macro_sound proc args) (λ out. Sound-pure _))
  ])
    where
      of_cell :
          (found : Option Addr)
          → Sound (elim found as (λ x. M (Option Value)) [
            | none ↦ pure none
            | some a ↦ gets (λ h. (cell_at a h).transformer)
          ])
      of_cell none = Sound-pure none
      of_cell (some a) = Sound-gets _

      Sound-transformer_of : (head : Value) → Sound (transformer_of head)
      Sound-transformer_of (symbol name) =
          Sound-bind _ _ (Sound-gets _) (λ e. Sound-bind _ _ (Sound-gets _) of_cell)
      Sound-transformer_of _ = Sound-pure none

  Gives-comp_call :
      (expr head rest : Value) (env : CompileEnv) (tail : Bool)
      → Gives (Emits env tail) (comp_call apply_macro fuel rec expr head rest env tail)
  unfolding comp_call comp_application
  Gives-comp_call expr head rest env tail = Gives-after (Sound-macro_expand expr head rest) (elim [
    | some out ↦ rec_gives out env tail
    | none ↦ Gives-after (Sound-list_to_vector _ _) (λ args.
        Gives-bind (Gives-comp_each apply_macro macro_sound fuel rec rec_gives args env) (λ cs many.
          Gives-bind (rec_gives head env false) (λ c typed.
            Gives-after (Sound-narrow _)
              (λ _. Gives-pure _ (call-Emits env tail (length args) cs c many typed)))))
  ])

  Gives-comp_form :
      (f : Form) (expr head rest : Value) (env : CompileEnv) (tail : Bool)
      → Gives (Emits env tail) (comp_form apply_macro fuel rec f expr head rest env tail)
  unfolding comp_form
  Gives-comp_form Form.quote expr head rest env tail = Gives-after (Sound-check_arity _ _ _ _) (λ _.
      Gives-after (Sound-car _)
        (λ v. Gives-pure _ (one-Emits env tail (ldc v) (λ k d. InstrOk.ldc_ok))))
  Gives-comp_form Form.trace expr head rest env tail =
      Gives-pure _ (one-Emits env tail _ (λ k d. InstrOk.ldc_ok))
  Gives-comp_form Form.rewritten expr head rest env tail =
      Gives-after (Sound-expand_form_1 fuel expr) (λ out. rec_gives out env tail)
  Gives-comp_form Form.if_form expr head rest env tail =
      Gives-comp_if apply_macro macro_sound fuel rec rec_gives rest env tail
  Gives-comp_form Form.begin_form expr head rest env tail =
      Gives-comp_body apply_macro macro_sound fuel rec rec_gives rest env tail
  Gives-comp_form Form.lambda_form expr head rest env tail =
      Gives-after (Sound-check_arity _ _ _ _) (λ _. Gives-after (Sound-car _) (λ params.
        Gives-after (Sound-cdr _) (λ b.
          Gives-bind (Gives-compile_lambda apply_macro macro_sound fuel rec rec_gives params b env)
            (λ t fits.
              Gives-pure _ (one-Emits env tail (ldf t false) (λ k d. InstrOk.ldf_ok fits))))))
  Gives-comp_form (Form.define_form is_macro) expr head rest env tail =
      Gives-any env tail (Gives-comp_define is_macro rest env)
  Gives-comp_form Form.set_form expr head rest env tail =
      Gives-any env tail (Gives-comp_set rest env)
  Gives-comp_form Form.callcc_form expr head rest env tail = Gives-comp_callcc rest env tail
  Gives-comp_form Form.apply_form expr head rest env tail = Gives-comp_apply rest env tail
  Gives-comp_form Form.call_form expr head rest env tail = Gives-comp_call expr head rest env tail

  -- One form, where its parts are compiled well.
  pub Gives-comp_expr :
      (expr : Value) (env : CompileEnv) (tail : Bool)
      → Gives (Emits env tail) (comp_expr apply_macro fuel rec expr env tail)
  unfolding comp_expr comp_pair
  Gives-comp_expr (symbol name) env tail =
      Gives-bind (Gives-find_place name env) (Gives-variable name env tail)
  Gives-comp_expr expr env tail = Gives-after (Sound-look expr) (elim [
    | none ↦ Gives-pure _ (one-Emits env tail (ldc expr) (λ k d. InstrOk.ldc_ok))
    | some (head, rest) ↦ Gives-comp_form (form_of head) expr head rest env tail
  ])
