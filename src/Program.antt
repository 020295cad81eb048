-- ===== src/Program.antt =====
-- scheme14/scheme14.cpp, section 10 (`eval_top`) and the loops over the expressions that were read:
-- the machine, `eval` and the macros call the compiler, and the compiler calls the machine, so the
-- circle is cut by fuel. The primitives are a parameter.
use secd_scheme.Prelude.{ℕ, zero, suc, List, [], ◌∷◌, String, none}
use secd_scheme.Value.{EnvName, Value, Code}
use secd_scheme.Effect.{M, ◌>>=◌, ◌>>◌, pure, out_of_fuel}
use secd_scheme.Run.{run_code, apply_callable}
use secd_scheme.Compile.{compile_top, compile_eval}

module _ (prims : String → List Value → M Value) where
  -- `eval` compiles, and the macros in its argument run on a machine of their own.
  unfoldable pub eval_at : ℕ → Value → EnvName → M Code
  unfolding compile_eval
  eval_at zero expr e = λ h. out_of_fuel
  eval_at (suc fuel) expr e = compile_eval (apply_callable prims (eval_at fuel) fuel) fuel expr e

  -- eval_top
  unfoldable pub eval_top : ℕ → Value → M Value
  unfolding compile_top run_code eval_at apply_callable
  eval_top fuel expr = do
    c ← compile_top (apply_callable prims (eval_at fuel) fuel) fuel expr
    run_code prims (eval_at fuel) fuel c none

  -- The expressions of a file or of an input, in turn; an error leaves out the rest.
  unfoldable pub eval_forms : ℕ → List Value → M (Unit {0})
  unfolding eval_top
  eval_forms fuel [] = pure tt
  eval_forms fuel (expr ∷ exprs) = eval_top fuel expr >> eval_forms fuel exprs
