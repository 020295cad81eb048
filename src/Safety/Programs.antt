-- ===== src/Safety/Programs.antt =====
-- Whole programs: the compiler, the machine, `eval` and the macros together.
use secd_scheme.Prelude.{ℕ, zero, suc, refl, Bool, true, false, none, List, [], ◌∷◌, String, arith}
use secd_scheme.Value.{EnvName, Value, rtn, stop, Code, empty, ◌▷◌, Heap}
use secd_scheme.Effect.{Result, M}
use secd_scheme.Run.{apply_callable}
use secd_scheme.Typing.{program, body, CodeOk, last, rtn_ok, stop_ok, any_dump}
use secd_scheme.Compile.Forms.{CompileEnv}
use secd_scheme.Compile.{comp, set_back, with_table, compile_top, compile_eval}
use secd_scheme.Program.{eval_at, eval_top, eval_forms}
use secd_scheme.Safety.Growth.{HeapOk, Grows}
use secd_scheme.Safety.Actions.{
  Any, Safe, returns, raises, faults, exits, runs_out, Safe-bind, same_HeapOk,
}
use secd_scheme.Safety.Shape.{Emits}
use secd_scheme.Safety.Sound.{Sound, Sound-pure, Sound-bind}
use secd_scheme.Safety.Gives.{Gives, Gives-pure, Gives-fuel, Gives-bind}
use secd_scheme.Safety.Compiling.Forms.{Gives-comp_expr}
use secd_scheme.Safety.Calls.{EngineOk}
use secd_scheme.Safety.Runs.{Safe-run_code, Safe-apply_callable}

-- What a primitive may do: all but the machine's own internal errors, on a heap that stays good.
abbrev pub PrimsOk : (String → List Value → M Value) → Type 0
PrimsOk prims = (name : String) (args : List Value) → Sound (prims name args)

-- The table is set back, so the growth of the heap from the one with the other table is growth from the
-- one before it.
Grows-set_back :
    {h h' : Heap} (e : EnvName)
    → Grows (record h { compile_table = e }) h'
    → Grows h (record h' { compile_table = h.compile_table })
Grows-set_back e g = record {
  frames_stay = g.frames_stay;
  continuations_stay = g.continuations_stay;
  scratches_stay = g.scratches_stay;
  table_stays = refl;
}

Safe-set_back :
    {h : Heap} {Q : Code → Type 0} (e : EnvName) {r : Result Code}
    → Safe (record h { compile_table = e }) (λ c h'. Q c) r
    → Safe h (λ c h'. Q c) (set_back h.compile_table r)
unfolding set_back
Safe-set_back e (returns good g q) = returns (same_HeapOk refl refl good) (Grows-set_back e g) q
Safe-set_back e (raises good g) = raises (same_HeapOk refl refl good) (Grows-set_back e g)
Safe-set_back e (faults x) = faults x
Safe-set_back e exits = exits
Safe-set_back e runs_out = runs_out

Gives-with_table :
    {Q : Code → Type 0} (e : EnvName) (m : M Code) → Gives Q m → Gives Q (with_table e m)
unfolding with_table
Gives-with_table e m g = record {
  at = λ h good.
      Safe-set_back e (g.at (record h { compile_table = e }) (same_HeapOk refl refl good));
}

module _ (apply_macro : Value → List Value → M Value)
    (macro_sound : (f : Value) (xs : List Value) → Sound (apply_macro f xs)) where
  Gives-comp :
      (fuel : ℕ) (expr : Value) (env : CompileEnv) (tail : Bool)
      → Gives (Emits env tail) (comp apply_macro fuel expr env tail)
  unfolding comp
  Gives-comp zero expr env tail = Gives-fuel
  Gives-comp (suc fuel) expr env tail =
      Gives-comp_expr apply_macro macro_sound fuel (comp apply_macro fuel) (Gives-comp fuel) expr
        env tail

  Gives-compile_eval :
      (fuel : ℕ) (expr : Value) (e : EnvName)
      → Gives (CodeOk body [] 0) (compile_eval apply_macro fuel expr e)
  unfolding compile_eval
  Gives-compile_eval fuel expr e = Gives-with_table e _ (
      Gives-bind (Gives-comp fuel expr [] true) (λ c typed.
        Gives-pure _ (typed body 0 (rtn ▷ empty) (λ _. refl) (last (rtn_ok refl (omega arith))))))

  Gives-compile_top :
      (fuel : ℕ) (expr : Value) → Gives (CodeOk program [] 0) (compile_top apply_macro fuel expr)
  unfolding compile_top
  Gives-compile_top fuel expr = Gives-with_table EnvName.interaction _ (
      Gives-bind (Gives-comp fuel expr [] false)
        (λ c typed. Gives-pure _ (typed program 0 (stop ▷ empty) (λ e. cc) (last (stop_ok refl)))))

module _ (apply_macro : Value → List Value → M Value)
    (macro_sound : (f : Value) (xs : List Value) → Sound (apply_macro f xs)) where
  -- On every good heap, if the macros' transformers are safe, the compilation of an expression is safe,
  -- and code that it returns pushes one value wherever it is put: it reads and writes locals only
  -- within the frames of the compile environment, its calls find their operands, every branch
  -- comes back, and there is a tail call or a return inside it only if it was compiled in a tail position.
  pub Safe-comp :
      (fuel : ℕ) (expr : Value) (env : CompileEnv) (tail : Bool) (h : Heap)
      → HeapOk h
      → Safe h (λ c h'. Emits env tail c) (comp apply_macro fuel expr env tail h)
  Safe-comp fuel expr env tail = (Gives-comp apply_macro macro_sound fuel expr env tail).at

  -- On every good heap, if the macros' transformers are safe, the compilation for `eval` is safe, and the
  -- code that it returns is that of a procedure's body without a frame: it ends by a return, over
  -- a value.
  pub Safe-compile_eval :
      (fuel : ℕ) (expr : Value) (e : EnvName) (h : Heap)
      → HeapOk h
      → Safe h (λ c h'. CodeOk body [] 0 c) (compile_eval apply_macro fuel expr e h)
  Safe-compile_eval fuel expr e = (Gives-compile_eval apply_macro macro_sound fuel expr e).at

module _ (prims : String → List Value → M Value) (prims_ok : PrimsOk prims) where
  pub EngineOk-eval_at : (fuel : ℕ) → EngineOk prims (eval_at prims fuel)
  unfolding eval_at
  EngineOk-eval_at zero = record {
    prims_safe = λ name args. (prims_ok name args).at;
    eval_safe = λ expr e h good. runs_out;
  }
  EngineOk-eval_at (suc fuel) = record {
    prims_safe = λ name args. (prims_ok name args).at;
    eval_safe = λ expr e.
        (Gives-compile_eval (apply_callable prims (eval_at prims fuel) fuel)
          (λ f xs. record {
            at = λ h good. Safe-apply_callable (EngineOk-eval_at fuel) fuel f xs good;
          })
          fuel expr e).at;
  }

  Sound-apply_callable :
      (fuel : ℕ) (f : Value) (xs : List Value)
      → Sound (apply_callable prims (eval_at prims fuel) fuel f xs)
  Sound-apply_callable fuel f xs = record {
    at = λ h good. Safe-apply_callable (EngineOk-eval_at fuel) fuel f xs good;
  }

  pub Sound-eval_top : (fuel : ℕ) (expr : Value) → Sound (eval_top prims fuel expr)
  unfolding eval_top
  Sound-eval_top fuel expr = record {
    at = λ h good.
        Safe-bind h (compile_top (apply_callable prims (eval_at prims fuel) fuel) fuel expr) _
          ((Gives-compile_top _ (Sound-apply_callable fuel) fuel expr).at h good)
          (λ c h' good' g typed.
            Safe-run_code (EngineOk-eval_at fuel) fuel c none [] program good' typed tt
              (λ os fs. any_dump));
  }

  Sound-eval_forms : (fuel : ℕ) (exprs : List Value) → Sound (eval_forms prims fuel exprs)
  unfolding eval_forms
  Sound-eval_forms fuel [] = Sound-pure tt
  Sound-eval_forms fuel (expr ∷ exprs) =
      Sound-bind _ _ (Sound-eval_top fuel expr) (λ _. Sound-eval_forms fuel exprs)

  pub Safe-eval_forms :
      (fuel : ℕ) (exprs : List Value) (h : Heap)
      → HeapOk h
      → Safe h Any (eval_forms prims fuel exprs h)
  Safe-eval_forms fuel exprs = (Sound-eval_forms fuel exprs).at
