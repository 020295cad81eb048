-- ===== src/Compile.antt =====
-- scheme14/scheme14.cpp, section 8: the compiler. A function returns the instructions that the source
-- appends to `code`. Compilation recurs through rewritten forms, so it takes fuel; applying a macro
-- is a parameter.
pub mod Forms
pub mod Scopes
use text.Mathlib.Text.{◌==◌ as str_eq}
use secd_scheme.Prelude.{
  ℕ, zero, suc, String, Bool, true, false, Option, none, some, List, [], ◌∷◌, length, if◌then◌else◌,
}
use secd_scheme.Value.{
  EnvName, Value, nil, symbol, object, Instr, ldc, rtn, stop, Code, empty, ◌▷◌, Heap,
}
use secd_scheme.Effect.{Result, ok, raise, fault, exit, M, pure, gets, ◌>>=◌, ◌>>◌, out_of_fuel}
use secd_scheme.Syntax.{look}
use Forms.{CompileEnv, ◌▷▷◌, comp_expr}

-- `CompileTableGuard`: the table is set for the compilation, and set back however it ends.
unfoldable pub set_back : EnvName → Result Code → Result Code
set_back e (ok c h) = ok c (record h { compile_table = e })
set_back e (raise x h) = raise x (record h { compile_table = e })
set_back e r = r

unfoldable pub with_table : EnvName → M Code → M Code
unfolding set_back
with_table e m h = set_back h.compile_table (m (record h { compile_table = e }))

module _ (apply_macro : Value → List Value → M Value) where
  unfoldable pub comp : ℕ → Value → CompileEnv → Bool → M Code
  unfolding comp_expr
  comp zero expr env tail = λ h. out_of_fuel
  comp (suc fuel) expr env tail = comp_expr apply_macro fuel (comp fuel) expr env tail

  unfoldable pub compile_top : ℕ → Value → M Code
  unfolding comp with_table
  compile_top fuel expr =
      with_table EnvName.interaction (do c ← comp fuel expr [] false; pure (c ▷▷ (stop ▷ empty)))

  unfoldable pub compile_eval : ℕ → Value → EnvName → M Code
  unfolding comp with_table
  compile_eval fuel expr e = with_table e (do c ← comp fuel expr [] true; pure (c ▷▷ (rtn ▷ empty)))
