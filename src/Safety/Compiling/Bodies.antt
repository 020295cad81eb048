-- ===== src/Safety/Compiling/Bodies.antt =====
-- The compilation of bodies, procedures, operands and conditionals.
use secd_scheme.Prelude.{ℕ, Bool, true, false, Option, none, some, List, [], ◌∷◌, length}
use secd_scheme.Value.{Value, nil, ldc, Code}
use secd_scheme.Effect.{M}
use secd_scheme.Syntax.{Params}
use secd_scheme.Typing.{InstrOk}
use secd_scheme.Compile.Forms.{
  CompileEnv, frame_of, comp_forms, comp_sequence, comp_body, lambda_template, compile_lambda,
  comp_each, comp_if,
}
use secd_scheme.Safety.Shape.{Emits}
use secd_scheme.Safety.Emitting.{
  EmitsMany, Fits, one-Emits, sequence-Emits, none-EmitsMany, more-EmitsMany, body-Fits, if-Emits,
}
use secd_scheme.Safety.Sound.{Sound, Sound-pure, Sound-if, Sound-list_to_vector}
use secd_scheme.Safety.Gives.{Gives, Gives-pure, Gives-syntax_error, Gives-bind, Gives-after}
use secd_scheme.Safety.Expanding.{Sound-car, Sound-cdr, Sound-check_arity}
use secd_scheme.Safety.Expanding.Forms.{Sound-scan_out_defines}
use secd_scheme.Safety.Compiling.{Sound-extract_params}

module _ (apply_macro : Value → List Value → M Value)
    (macro_sound : (f : Value) (xs : List Value) → Sound (apply_macro f xs)) (fuel : ℕ)
    (rec : Value → CompileEnv → Bool → M Code)
    (rec_gives : (e : Value) (env : CompileEnv) (tail : Bool)
      → Gives (Emits env tail) (rec e env tail)) where
  pub Gives-comp_forms :
      (form : Value) (forms : List Value) (env : CompileEnv) (tail : Bool)
      → Gives (Emits env tail) (comp_forms apply_macro fuel rec form forms env tail)
  unfolding comp_forms
  Gives-comp_forms form [] env tail = rec_gives form env tail
  Gives-comp_forms form (next ∷ forms) env tail = Gives-bind (rec_gives form env false) (λ c typed.
      Gives-bind (Gives-comp_forms next forms env tail)
        (λ rest after. Gives-pure _ (sequence-Emits env tail c rest typed after)))

  pub Gives-sequence :
      (forms : List Value) (env : CompileEnv) (tail : Bool)
      → Gives (Emits env tail) (comp_sequence apply_macro fuel rec forms env tail)
  unfolding comp_sequence
  Gives-sequence [] env tail = Gives-pure _ (one-Emits env tail (ldc nil) (λ k d. InstrOk.ldc_ok))
  Gives-sequence (form ∷ forms) env tail = Gives-comp_forms form forms env tail

  pub Gives-comp_body :
      (b : Value) (env : CompileEnv) (tail : Bool)
      → Gives (Emits env tail) (comp_body apply_macro fuel rec b env tail)
  unfolding comp_body
  Gives-comp_body b env tail =
      Gives-after (Sound-list_to_vector _ _) (λ forms. Gives-sequence forms env tail)

  pub Gives-compile_lambda :
      (ps b : Value) (env : CompileEnv)
      → Gives (Fits env) (compile_lambda apply_macro fuel rec ps b env)
  unfolding compile_lambda lambda_template
  Gives-compile_lambda ps b env = Gives-after (Sound-extract_params ps) of_params
    where
      of_params :
          (ps : Option Params) → Gives (Fits env) (lambda_template apply_macro fuel rec ps b env)
      of_params none = Gives-syntax_error _
      of_params (some ps) = Gives-after (Sound-scan_out_defines b) (λ b'.
          Gives-bind (Gives-comp_body b' (frame_of ps ∷ env) true)
            (λ c typed. Gives-pure _ (body-Fits env ps "" c typed)))

  pub Gives-comp_each :
      (xs : List Value) (env : CompileEnv)
      → Gives (EmitsMany env (length xs)) (comp_each apply_macro fuel rec xs env)
  unfolding comp_each
  Gives-comp_each [] env = Gives-pure _ (none-EmitsMany env)
  Gives-comp_each (x ∷ xs) env = Gives-bind (rec_gives x env false) (λ c typed.
      Gives-bind (Gives-comp_each xs env)
        (λ rest after. Gives-pure _ (more-EmitsMany env (length xs) c rest typed after)))

  pub Gives-comp_if :
      (rest : Value) (env : CompileEnv) (tail : Bool)
      → Gives (Emits env tail) (comp_if apply_macro fuel rec rest env tail)
  unfolding comp_if
  Gives-comp_if rest env tail = Gives-after (Sound-check_arity _ _ _ _) (λ _.
      Gives-after (Sound-car _) (λ test. Gives-after (Sound-cdr _) (λ more.
        Gives-after (Sound-car _) (λ then_e. Gives-after (Sound-cdr _) (λ last.
          Gives-after (Sound-if _ _ _ (Sound-pure nil) (Sound-car last)) (λ else_e.
            Gives-bind (rec_gives test env false) (λ c tc.
              Gives-bind (rec_gives then_e env tail) (λ ct tt'.
                Gives-bind (rec_gives else_e env tail)
                  (λ cf tf. Gives-pure _ (if-Emits env tail c ct cf tc tt' tf))))))))))
