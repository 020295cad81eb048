-- ===== src/Safety/Compiling.antt =====
-- The compiler's functions are safe, and the code that they return passes the checks: it pushes one
-- value in frames of the compile environment's shape. Here: names and parameters.
pub mod Bodies
pub mod Forms
use secd_scheme.Prelude.{
  ℕ, zero, suc, ◌+◌, ◌^◌, ◌<◌, ◌≤◌, ◌≡◌, refl, sym, Bool, true, false, not, ◌&&◌, ◌||◌, Option,
  none, some, List, [], ◌∷◌, String, if◌then◌else◌, length, Addr, ltb, ltb→lt, ◌==◌, arith,
  Bool-cases, inl, inr,
}
use secd_scheme.Value.{
  EnvName, interaction, report, null_env, Value, nil, boolean, symbol, object, Instr, ld, lset, ldc,
  ldg, def, defm, gset, ldf, app, tapp, args_ap, sel, selr, apply, tapply, rtn, join, pop, callcc,
  tcallcc, stop, Code, empty, ◌▷◌, Template, template, Heap,
}
use secd_scheme.Effect.{Fault, Result, ok, M, ◌>>=◌, ◌>>◌, pure, gets, internal_error, out_of_fuel}
use secd_scheme.Pairs.{is_nil, list_to_vector}
use secd_scheme.Syntax.{
  look, car, cdr, syntax_error, in_range, check_arity, Params, extract_loop, extract_params,
}
use secd_scheme.Expand.Do.{scan_out_defines}
use secd_scheme.Expand.{expand_form_1}
use secd_scheme.Step.{global_cell, find_name}
use secd_scheme.Typing.{Kind, body, Shape, Local, CodeOk, InstrOk}
use secd_scheme.Compile.Forms.{
  CompileEnv, ◌▷▷◌, place_of, location_of, check_place, find_place, narrow, table_of, loose_cell,
  missing_cell, compile_global, on_last, mark, name_closure, Form, form_of, frame_of, tail_op,
  comp_variable, is_interaction, comp_forms, comp_sequence, comp_body, lambda_template,
  compile_lambda, comp_each, comp_if, comp_definition, comp_define, comp_assignment, target_name,
  comp_set, comp_callcc, apply_code, comp_apply, transformer_of, macro_expand, comp_application,
  comp_call, comp_form, comp_pair, comp_expr,
}
use secd_scheme.Safety.Growth.{HeapOk, Grows-refl}
use secd_scheme.Safety.Actions.{Safe, returns, faults, Any, same_HeapOk, same_Grows}
use secd_scheme.Safety.Shape.{shape, Emits, FitsPlace, checked-Local}
use secd_scheme.Safety.Emitting.{
  EmitsMany, Fits, one-Emits, then-Emits, sequence-Emits, none-EmitsMany, more-EmitsMany, body-Fits,
  if-Emits, apply-Emits, call-Emits, named-Emits,
}
use secd_scheme.Safety.Sound.{
  Sound, sound_rules, Sound-pure, Sound-throw, Sound-fuel, Sound-gets, Sound-if, Sound-bind,
  Sound-list_to_vector,
}
use secd_scheme.Safety.Gives.{
  Gives, Gives-pure, Gives-syntax_error, Gives-fuel, Gives-if, Gives-bind, Gives-after,
  Gives-weaken, Gives-checked,
}
use secd_scheme.Safety.Expanding.{
  expand_rules, Sound-look, Sound-car, Sound-cdr, Sound-syntax_error, Sound-check_arity,
}
use secd_scheme.Safety.Expanding.Forms.{Sound-scan_out_defines, Sound-expand_form_1}

pub Sound-narrow : (n : ℕ) → Sound (narrow n)
unfolding narrow internal_error
Sound-narrow n =
    Sound-if (ltb n (2 ^ 16)) _ (internal_error Fault.too_wide) (Sound-pure tt)
      (record { at = λ h good. faults {x = Fault.too_wide} tt })

Sound-loose_cell : (name : String) → Sound (loose_cell name)
Sound-loose_cell name = record {
  at = λ h good. returns (same_HeapOk refl refl good) (same_Grows refl refl refl) tt;
}

Sound-global_cell : (name : String) → Sound (global_cell name)
unfolding global_cell
Sound-global_cell name = record { at = λ h good. of_cell h good (find_name name h.globals) }
  where
    of_cell :
        (h : Heap)
        → HeapOk h
        → (found : Option Addr)
        → Safe h Any (elim found as (λ x. Result Addr) [
          | some a ↦ ok a h
          | none ↦ ok (length h.cells) (record h {
            cells = (record { value = none; transformer = none; name = name }) ∷ h.cells;
            globals = (name, length h.cells) ∷ h.globals;
          })
        ])
    of_cell h good (some a) = returns good (Grows-refl h) tt
    of_cell h good none = returns (same_HeapOk refl refl good) (same_Grows refl refl refl) tt

pub Sound-missing_cell : (e : EnvName) (name : String) → Sound (missing_cell e name)
Sound-missing_cell interaction name = Sound-global_cell name
Sound-missing_cell report name = Sound-loose_cell name
Sound-missing_cell null_env name = Sound-loose_cell name

pub Sound-compile_global : (name : String) → Sound (compile_global name)
unfolding compile_global
Sound-compile_global name = Sound-bind _ _ (Sound-gets _) (λ e.
    Sound-bind _ _ (Sound-gets _)
      (elim [ some a ↦ Sound-pure a | none ↦ Sound-missing_cell e name ]))

Sound-extract_loop :
    (fuel : ℕ) (fixed : List String) (ps : Value) → Sound (extract_loop fuel fixed ps)
unfolding extract_loop
Sound-extract_loop zero fixed ps = Sound-fuel
Sound-extract_loop (suc fuel) fixed nil = Sound-pure _
Sound-extract_loop (suc fuel) fixed (symbol r) = Sound-pure _
Sound-extract_loop (suc fuel) fixed ps =
    Sound-bind _ _ (Sound-look ps) (next (λ x d. Sound-extract_loop fuel (x ∷ fixed) d))
  where
    next :
        ((x : String) (d : Value) → Sound (extract_loop fuel (x ∷ fixed) d))
        → (p : Option (Value × Value))
        → Sound (elim p as (λ x. M (Option Params)) [
          | some (symbol x, d) ↦ extract_loop fuel (x ∷ fixed) d
          | _ ↦ pure none
        ])
    next more none = Sound-pure none
    next more (some (symbol x, d)) = more x d
    next more (some (_, d)) = Sound-pure none

pub Sound-extract_params : (ps : Value) → Sound (extract_params ps)
unfolding extract_params
Sound-extract_params ps = Sound-bind _ _ (Sound-gets _) (λ fuel. Sound-extract_loop fuel [] ps)

-- A place, if there is one, lies in the frames of the environment.
abbrev pub LocalPlace : CompileEnv → Option (ℕ × ℕ) → Type 0
LocalPlace env l = (i j : ℕ) → l ≡ some (i, j) → Local (shape env) i j

Gives-narrow : (n : ℕ) → Gives (λ _. n < 2 ^ 16) (narrow n)
unfolding narrow internal_error
Gives-narrow n = elim (Bool-cases (ltb n (2 ^ 16))) [
  | inl e ↦ rw e (Gives-pure tt (ltb→lt n (2 ^ 16) e))
  | inr e ↦ rw e (record { at = λ h good. faults tt })
]

Gives-check_place : (l : Option (ℕ × ℕ)) → Gives (λ _. FitsPlace l) (check_place l)
unfolding check_place
Gives-check_place none = Gives-pure tt (λ i j e. cc)
Gives-check_place (some (a, b)) =
    Gives-bind (Gives-narrow a) (λ _ p. Gives-weaken (Gives-narrow b) (λ _ q. fits p q))
  where
    fits : a < 2 ^ 16 → b < 2 ^ 16 → FitsPlace (some (a, b))
    fits p q i j e =
        let first : a ≡ i = cc in
        let second : b ≡ j = cc in (omega (arith, first, p), omega (arith, second, q))

pub Gives-find_place :
    (name : String) (env : CompileEnv) → Gives (LocalPlace env) (find_place name env)
unfolding find_place
Gives-find_place name env =
    Gives-bind (Gives-check_place (place_of name env))
      (λ _ fits. Gives-pure _ (checked-Local name env fits))

pub Gives-variable :
    (name : String) (env : CompileEnv) (tail : Bool) (l : Option (ℕ × ℕ))
    → LocalPlace env l
    → Gives (Emits env tail) (comp_variable name env l)
unfolding comp_variable
Gives-variable name env tail (some (i, j)) place =
    Gives-pure _ (one-Emits env tail (ld i j) (λ k d. InstrOk.ld_ok (place i j refl)))
Gives-variable name env tail none place =
    Gives-after (Sound-compile_global name)
      (λ a. Gives-pure _ (one-Emits env tail (ldg a) (λ k d. InstrOk.ldg_ok)))
