-- ===== src/Expand.antt =====
-- scheme14/scheme14.cpp, section 7: forms are rewritten into more basic ones, one step at a time.
pub mod Build
pub mod Let
pub mod Shape
pub mod Cond
pub mod Do
pub mod Quasi
use text.Mathlib.Text.{◌==◌ as str_eq}
use secd_scheme.Prelude.{ℕ, String, Bool, true, false, Option, none, some, if◌then◌else◌}
use secd_scheme.Value.{Value, symbol}
use secd_scheme.Effect.{M, pure, ◌>>=◌, ◌>>◌}
use secd_scheme.Syntax.{look, car, cdr, check_arity}
use Let.{expand_let, expand_let_star, expand_letrec}
use Cond.{expand_and, expand_or, expand_cond, expand_case}
use Do.{expand_do}
use Quasi.{qq_transfer}

unfoldable pub expand_quasiquote : ℕ → Value → M Value
unfolding qq_transfer
expand_quasiquote fuel form = do
  rest ← cdr form
  check_arity "quasiquote" rest 1 1
  x ← car rest
  qq_transfer fuel x 1

-- The rewriting that a name asks for; `fuel` is for `quasiquote` alone.
unfoldable pub expand_named : ℕ → String → Value → M Value
unfolding expand_quasiquote expand_let expand_let_star expand_letrec expand_and expand_or
    expand_cond expand_case expand_do
expand_named fuel name form =
    if str_eq name "let"
    then expand_let form
    else if str_eq name "let*"
    then expand_let_star form
    else if str_eq name "letrec"
    then expand_letrec form
    else if str_eq name "and"
    then expand_and form
    else if str_eq name "or"
    then expand_or form
    else if str_eq name "cond"
    then expand_cond form
    else if str_eq name "case"
    then expand_case form
    else if str_eq name "do"
    then expand_do form
    else if str_eq name "quasiquote"
    then expand_quasiquote fuel form
    else pure form

unfoldable pub expand_form_1 : ℕ → Value → M Value
unfolding expand_named
expand_form_1 fuel form = do
  p ← look form
  elim p [ some (symbol name, rest) ↦ expand_named fuel name form | _ ↦ pure form ]
