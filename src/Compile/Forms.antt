-- ===== src/Compile/Forms.antt =====
-- scheme14/scheme14.cpp, section 8: the compilation of one form; `rec` compiles its parts.
use text.Mathlib.Text.{◌==◌ as str_eq}
use secd_scheme.Prelude.{
  ℕ, suc, ◌%◌, ◌^◌, String, Bool, true, false, ◌||◌, not, Option, none, some, List, [], ◌∷◌, ◌++◌,
  length, Addr, ltb, if◌then◌else◌,
}
use secd_scheme.Value.{
  EnvName, interaction, report, null_env, Value, nil, boolean, symbol, Instr, ld, lset, ldc, ldg,
  def, defm, gset, ldf, app, tapp, args_ap, sel, selr, apply, tapply, rtn, join, pop, callcc,
  tcallcc, Code, empty, ◌▷◌, Template, template, GlobalTable, Heap,
}
use secd_scheme.Effect.{Fault, ok, M, pure, internal_error, gets, ◌>>=◌, ◌>>◌}
use secd_scheme.Pairs.{list_to_vector, same_object, is_nil}
use secd_scheme.Syntax.{look, car, cdr, syntax_error, check_arity, Params, extract_params}
use secd_scheme.Expand.{expand_form_1}
use secd_scheme.Expand.Do.{scan_out_defines}
use secd_scheme.Step.{cell_at, find_name, global_cell}

abbrev pub CompileEnv : Type 0
CompileEnv = List (List String)

infixr 66 ◌▷▷◌
unfoldable pub ◌▷▷◌ : Code → Code → Code
empty ▷▷ c = c
(i ▷ b) ▷▷ c = i ▷ (b ▷▷ c)

abbrev pub after_first : Option ℕ → Option ℕ
after_first none = none
after_first (some j) = some (suc j)

unfoldable pub index_of : String → List String → Option ℕ
index_of name [] = none
index_of name (x ∷ xs) = if str_eq x name then some 0 else after_first (index_of name xs)

abbrev pub nearest : Option ℕ → Option (ℕ × ℕ) → Option (ℕ × ℕ)
nearest (some j) outer = some (0, j)
nearest none (some (i, j)) = some (suc i, j)
nearest none none = none

-- The loops of location_of: the first frame that has the name, and its first place there.
unfoldable pub place_of : String → CompileEnv → Option (ℕ × ℕ)
unfolding index_of
place_of name [] = none
place_of name (frame ∷ env) = nearest (index_of name frame) (place_of name env)

-- Both numbers are cast to 16 bits.
abbrev pub wrap : Option (ℕ × ℕ) → Option (ℕ × ℕ)
wrap none = none
wrap (some (i, j)) = some (i % 2 ^ 16, j % 2 ^ 16)

unfoldable pub location_of : String → CompileEnv → Option (ℕ × ℕ)
unfolding place_of
location_of name env = wrap (place_of name env)

-- The 16-bit operands of an instruction.
unfoldable pub narrow : ℕ → M (Unit {0})
narrow n = if ltb n (2 ^ 16) then pure tt else internal_error Fault.too_wide

abbrev pub table_of : EnvName → Heap → GlobalTable
table_of interaction h = h.globals
table_of report h = h.report_globals
table_of null_env h = h.null_globals

-- A cell of its own for a name that another table does not have.
abbrev pub loose_cell : String → M Addr
loose_cell name h =
    ok (length h.cells)
      (record h { cells = (record { value = none; transformer = none; name = name }) ∷ h.cells })

abbrev pub missing_cell : EnvName → String → M Addr
missing_cell interaction name = global_cell name
missing_cell _ name = loose_cell name

unfoldable pub compile_global : String → M Addr
unfolding global_cell find_name
compile_global name = do
  e ← gets (λ h. h.compile_table)
  found ← gets (λ h. find_name name (table_of e h))
  elim found [ some a ↦ pure a | none ↦ missing_cell e name ]

-- A change of the last instruction, where there is one.
unfoldable pub on_last : (Instr → Instr) → Code → Code
on_last f empty = empty
on_last f (i ▷ empty) = f i ▷ empty
on_last f (i ▷ (j ▷ c)) = i ▷ on_last f (j ▷ c)

-- The application that follows consumes the closure.
unfoldable pub mark : Instr → Instr
mark (ldf t b) = ldf t true
mark i = i

unfoldable pub rename : String → Template → Template
rename name (template ps r body old) = template ps r body name

-- name_last_closure
unfoldable pub name_closure : String → Instr → Instr
unfolding rename
name_closure name (ldf t b) = ldf (rename name t) b
name_closure name i = i

pub data Form : Type 0 where
  quote trace rewritten if_form begin_form lambda_form set_form callcc_form apply_form call_form :
      Form
  define_form : Bool → Form

unfoldable pub is_rewritten : String → Bool
is_rewritten h =
    str_eq h "quasiquote"
    || str_eq h "let"
    || str_eq h "let*"
    || str_eq h "letrec"
    || str_eq h "and"
    || str_eq h "or"
    || str_eq h "cond"
    || str_eq h "case"
    || str_eq h "do"

-- The form that a head asks for, before any macro.
unfoldable pub form_of : Value → Form
unfolding is_rewritten
form_of (symbol h) =
    if str_eq h "quote"
    then Form.quote
    else if str_eq h "trace-print" || str_eq h "compile-print"
    then Form.trace
    else if is_rewritten h
    then Form.rewritten
    else if str_eq h "if"
    then Form.if_form
    else if str_eq h "begin"
    then Form.begin_form
    else if str_eq h "lambda"
    then Form.lambda_form
    else if str_eq h "define"
    then Form.define_form false
    else if str_eq h "define-macro"
    then Form.define_form true
    else if str_eq h "set!"
    then Form.set_form
    else if str_eq h "call/cc" || str_eq h "call-with-current-continuation"
    then Form.callcc_form
    else if str_eq h "apply"
    then Form.apply_form
    else Form.call_form
form_of _ = Form.call_form

abbrev pub frame_of : Params → List String
frame_of (fixed, none) = fixed
frame_of (fixed, some r) = fixed ++ r ∷ []

abbrev pub tail_op : Bool → Instr → Instr → Instr
tail_op true t u = t
tail_op false t u = u

unfoldable pub check_place : Option (ℕ × ℕ) → M (Unit {0})
unfolding narrow
check_place none = pure tt
check_place (some (i, j)) = do narrow i; narrow j

-- The call of location_of. Where the casts lose something, the model stops.
unfoldable pub find_place : String → CompileEnv → M (Option (ℕ × ℕ))
unfolding check_place location_of
find_place name env = do check_place (place_of name env); pure (location_of name env)

unfoldable pub comp_variable : String → CompileEnv → Option (ℕ × ℕ) → M Code
comp_variable name env (some (i, j)) = pure (ld i j ▷ empty)
comp_variable name env none = do a ← compile_global name; pure (ldg a ▷ empty)

unfoldable pub is_interaction : EnvName → Bool
is_interaction interaction = true
is_interaction _ = false

unfoldable pub comp_assignment : String → Option (ℕ × ℕ) → Code → M Code
comp_assignment name (some (i, j)) c = pure (c ▷▷ (lset i j ▷ empty))
comp_assignment name none c = do
  e ← gets (λ h. h.compile_table)
  if not (is_interaction e)
      then syntax_error "set!"
      else (do a ← compile_global name; pure (c ▷▷ (gset a ▷ empty)))

abbrev pub target_name : Value → Option String
target_name (symbol name) = some name
target_name _ = none

-- The transformer of the macro that the head names, where it names one.
unfoldable pub transformer_of : Value → M (Option Value)
transformer_of (symbol name) = do
  e ← gets (λ h. h.compile_table)
  found ← gets (λ h. find_name name (table_of e h))
  elim found [ none ↦ pure none | some a ↦ gets (λ h. (cell_at a h).transformer) ]
transformer_of _ = pure none

module _ (apply_macro : Value → List Value → M Value) (fuel : ℕ)
    (rec : Value → CompileEnv → Bool → M Code) where
  -- comp_body: all but the last form are compiled for effect.
  unfoldable pub comp_forms : Value → List Value → CompileEnv → Bool → M Code
  comp_forms form [] env tail = rec form env tail
  comp_forms form (next ∷ forms) env tail = do
    c ← rec form env false
    rest ← comp_forms next forms env tail
    pure (c ▷▷ (pop ▷ rest))

  unfoldable pub comp_sequence : List Value → CompileEnv → Bool → M Code
  unfolding comp_forms
  comp_sequence [] env tail = pure (ldc nil ▷ empty)
  comp_sequence (form ∷ forms) env tail = comp_forms form forms env tail

  unfoldable pub comp_body : Value → CompileEnv → Bool → M Code
  unfolding comp_sequence
  comp_body body env tail = do forms ← list_to_vector body "body"; comp_sequence forms env tail

  unfoldable pub lambda_template : Option Params → Value → CompileEnv → M Template
  unfolding comp_body
  lambda_template none body env = syntax_error "lambda"
  lambda_template (some ps) body env = do
    body' ← scan_out_defines body
    c ← comp_body body' (frame_of ps ∷ env) true
    pure (template ps.0 ps.1 (c ▷▷ (rtn ▷ empty)) "")

  unfoldable pub compile_lambda : Value → Value → CompileEnv → M Template
  unfolding lambda_template
  compile_lambda params_expr body env = do
    ps ← extract_params params_expr
    lambda_template ps body env

  -- The parts, from the left, each leaving its value.
  unfoldable pub comp_each : List Value → CompileEnv → M Code
  comp_each [] env = pure empty
  comp_each (x ∷ xs) env = do c ← rec x env false; rest ← comp_each xs env; pure (c ▷▷ rest)

  unfoldable pub comp_if : Value → CompileEnv → Bool → M Code
  comp_if rest env tail = do
    check_arity "if" rest 2 3
    test ← car rest
    more ← cdr rest
    then_e ← car more
    last ← cdr more
    else_e ← (if is_nil last then pure nil else car last)
    c ← rec test env false
    ct ← rec then_e env tail
    cf ← rec else_e env tail
    let over = tail_op tail rtn join
    let branch =
        tail_op tail (selr (ct ▷▷ (over ▷ empty)) (cf ▷▷ (over ▷ empty)))
          (sel (ct ▷▷ (over ▷ empty)) (cf ▷▷ (over ▷ empty)))
    pure (c ▷▷ (branch ▷ empty))

  -- The value of a definition, by the shape of what is defined.
  unfoldable pub comp_definition : Value → Value → CompileEnv → M (String × Code)
  comp_definition (symbol name) rhs_tail env =
      if is_nil rhs_tail then syntax_error "define" else (do
        more ← cdr rhs_tail
        if is_nil more
            then (do e ← car rhs_tail; c ← rec e env false; pure (name, c))
            else syntax_error "define")
  comp_definition lhs rhs_tail env = do
    p ← look lhs
    elim p [
      | some (symbol name, params) ↦ do
        t ← compile_lambda params rhs_tail env
        pure (name, ldf t false ▷ empty)
      | _ ↦ syntax_error "define"
    ]

  unfoldable pub comp_define : Bool → Value → CompileEnv → M Code
  unfolding comp_definition
  comp_define is_macro rest env = do
    e ← gets (λ h. h.compile_table)
    if not (is_interaction e) then syntax_error "define" else (do
      check_arity "define" rest 1 0
      lhs ← car rest
      rhs_tail ← cdr rest
      (name, c) ← comp_definition lhs rhs_tail env
      a ← compile_global name
      pure (on_last (name_closure name) c ▷▷ (tail_op is_macro (defm a) (def a) ▷ empty)))

  unfoldable pub comp_set : Value → CompileEnv → M Code
  unfolding find_place comp_assignment
  comp_set rest env = do
    check_arity "set!" rest 2 2
    target ← car rest
    elim (target_name target) [
      | none ↦ syntax_error "set!"
      | some name ↦ do
        more ← cdr rest
        e ← car more
        c ← rec e env false
        l ← find_place name env
        comp_assignment name l c
    ]

  unfoldable pub comp_callcc : Value → CompileEnv → Bool → M Code
  comp_callcc rest env tail = do
    check_arity "call/cc" rest 1 1
    proc ← car rest
    c ← rec proc env false
    pure (c ▷▷ (tail_op tail tcallcc callcc ▷ empty))

  unfoldable pub apply_code : List Value → CompileEnv → Bool → M Code
  unfolding comp_each
  apply_code [] env tail = internal_error Fault.accessor
  apply_code (f ∷ args) env tail = do
    cs ← comp_each args env
    narrow (length args)
    c ← rec f env false
    pure (cs ▷▷ (args_ap (length args) ▷ (c ▷▷ (tail_op tail tapply apply ▷ empty))))

  unfoldable pub comp_apply : Value → CompileEnv → Bool → M Code
  unfolding apply_code
  comp_apply rest env tail = do
    check_arity "apply" rest 2 0
    xs ← list_to_vector rest "apply"
    apply_code xs env tail

  -- macro_expand_1_expr: `none` where the form is not a macro's, or is what its macro returned.
  unfoldable pub macro_expand : Value → Value → Value → M (Option Value)
  unfolding transformer_of
  macro_expand expr head rest = do
    t ← transformer_of head
    elim t [
      | none ↦ pure none
      | some proc ↦ do
        args ← list_to_vector rest "macro call"
        out ← apply_macro proc args
        pure (if same_object out expr then none else some out)
    ]

  unfoldable pub comp_application : Value → Value → CompileEnv → Bool → M Code
  unfolding comp_each
  comp_application head rest env tail = do
    args ← list_to_vector rest "application"
    cs ← comp_each args env
    c ← rec head env false
    narrow (length args)
    pure (cs ▷▷ (on_last mark c ▷▷ (tail_op tail (tapp (length args)) (app (length args)) ▷ empty)))

  unfoldable pub comp_call : Value → Value → Value → CompileEnv → Bool → M Code
  unfolding macro_expand comp_application
  comp_call expr head rest env tail = do
    expanded ← macro_expand expr head rest
    elim expanded [ some out ↦ rec out env tail | none ↦ comp_application head rest env tail ]

  unfoldable pub comp_form : Form → Value → Value → Value → CompileEnv → Bool → M Code
  unfolding comp_if comp_body compile_lambda comp_define comp_set comp_callcc comp_apply comp_call
  comp_form Form.quote expr head rest env tail = do
    check_arity "quote" rest 1 1
    v ← car rest
    pure (ldc v ▷ empty)
  comp_form Form.trace expr head rest env tail = pure (ldc (boolean true) ▷ empty)
  comp_form Form.rewritten expr head rest env tail = do
    out ← expand_form_1 fuel expr
    rec out env tail
  comp_form Form.if_form expr head rest env tail = comp_if rest env tail
  comp_form Form.begin_form expr head rest env tail = comp_body rest env tail
  comp_form Form.lambda_form expr head rest env tail = do
    check_arity "lambda" rest 1 0
    params ← car rest
    body ← cdr rest
    t ← compile_lambda params body env
    pure (ldf t false ▷ empty)
  comp_form (Form.define_form is_macro) expr head rest env tail = comp_define is_macro rest env
  comp_form Form.set_form expr head rest env tail = comp_set rest env
  comp_form Form.callcc_form expr head rest env tail = comp_callcc rest env tail
  comp_form Form.apply_form expr head rest env tail = comp_apply rest env tail
  comp_form Form.call_form expr head rest env tail = comp_call expr head rest env tail

  unfoldable pub comp_pair : Value → CompileEnv → Bool → Option (Value × Value) → M Code
  unfolding comp_form
  comp_pair expr env tail none = pure (ldc expr ▷ empty)
  comp_pair expr env tail (some (head, rest)) = comp_form (form_of head) expr head rest env tail

  -- A value that is no symbol and no pair stands for itself.
  unfoldable pub comp_expr : Value → CompileEnv → Bool → M Code
  unfolding comp_pair find_place comp_variable
  comp_expr (symbol name) env tail = do l ← find_place name env; comp_variable name env l
  comp_expr expr env tail = do p ← look expr; comp_pair expr env tail p
