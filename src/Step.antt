-- ===== src/Step.antt =====
-- scheme14/scheme14.cpp, section 10: `do_call`, the instructions, and the loop `run` with its
-- handler of errors. The primitives' bodies and the compiler, which `eval` calls, are parameters.
pub mod Cells
pub mod Continuations
use text.Mathlib.Text.{◌==◌ as str_eq}
use secd_scheme.Prelude.{
  ℕ, zero, suc, ◌+◌, ◌-◌, Bool, true, false, ◌&&◌, ◌||◌, not, Option, none, some, List, [], ◌∷◌,
  ◌++◌, reverse, Addr, fetch, update, length, take, drop, resize, get_elem?, set, ltb, leb, ◌==◌,
  if◌then◌else◌, String,
}
use secd_scheme.Value.{
  EnvName, Value, nil, boolean, symbol, primitive, environment, object, Env, Instr, ld, lset, ldc,
  ldg, def, defm, gset, ldf, app, tapp, args_ap, sel, selr, apply, tapply, rtn, join, pop, callcc,
  tcallcc, stop, Code, empty, ◌▷◌, Template, body_of, Frame, DumpEntry, Snapshot, Message,
  SchemeError, Object, blank_closure, closure, continuation, macro, error_object, Cell, Heap,
  GlobalTable,
}
use secd_scheme.Effect.{
  Fault, Result, ok, raise, fault, exit, out_of_fuel, M, pure, throw, internal_error, gets, alloc,
  ◌>>=◌, ◌>>◌,
}
use secd_scheme.Pairs.{list_to_vector, list_from}
use secd_scheme.Machine.{
  Vm, Next, go, halt, env_at, make_frame, winds_match, build_rewind_code, arguments, first_argument,
  restore, capture, return_point, enter,
}

-- A cell that is not there reads as unbound.
unfoldable pub cell_at : Addr → Heap → Cell
cell_at a h = elim (fetch a h.cells) [
  | none ↦ record { value = none; transformer = none; name = "" }
  | some c ↦ c
]

abbrev pub write_cell : Addr → Cell → M (Unit {0})
write_cell a c h = ok tt (record h { cells = update a c h.cells })

unfoldable pub find_name : String → GlobalTable → Option Addr
find_name name [] = none
find_name name ((n, a) ∷ t) = if str_eq n name then some a else find_name name t

-- global_cell: a name that has no cell gets an unbound one.
unfoldable pub global_cell : String → M Addr
unfolding find_name
global_cell name h = elim (find_name name h.globals) [
  | some a ↦ ok a h
  | none ↦ ok (length h.cells) (record h {
    cells = (record { value = none; transformer = none; name = name }) ∷ h.cells;
    globals = (name, length h.cells) ∷ h.globals;
  })
]

-- is_true
unfoldable pub is_true : Value → Bool
is_true (boolean false) = false
is_true _ = true

-- handler_installed
abbrev pub handler_installed : Heap → Bool
handler_installed h = is_true h.handler

abbrev pub object_of : Value → Heap → Option Object
object_of (object a) h = fetch a h.objects
object_of _ h = none

-- LD and LSET: the position must lie in the frame.
unfoldable pub local : Option (Addr × Frame) → ℕ → M Value
local none j = internal_error Fault.local_range
local (some (a, f)) j = elim (get_elem? f.vals j) [
  | none ↦ internal_error Fault.local_range
  | some v ↦ pure v
]

unfoldable pub set_local : Option (Addr × Frame) → ℕ → Value → M (Unit {0})
set_local none j v = internal_error Fault.local_range
set_local (some (a, f)) j v =
    if ltb j (length f.vals)
    then (λ h. ok tt (record h { frames = update a (record f { vals = set f.vals j v }) h.frames }))
    else internal_error Fault.local_range

abbrev pub bound_value : String → Option Value → M Value
bound_value name none = throw (Message.unbound_variable name)
bound_value name (some v) = pure v

unfoldable pub bound : Cell → M Value
bound c = bound_value c.name c.value

unfoldable pub write_object : Addr → Object → M (Unit {0})
write_object a o h = ok tt (record h { objects = update a o h.objects })

unfoldable pub push : Vm → Value → M Next
push vm v = pure (go (record vm { stack = v ∷ vm.stack }))

unfoldable pub top : List Value → M (Value × List Value)
top [] = internal_error Fault.underflow
top (v ∷ s) = pure (v, s)

-- ARGS-AP: the last of the `k` operands is a list, and the others go in front of it.
unfoldable pub pack : Vm → ℕ → List Value → M Next
pack vm k [] = internal_error Fault.underflow
pack vm k (tail ∷ s) =
    if k == 0 || ltb (suc (length s)) k then internal_error Fault.underflow else (do
      acc ← list_to_vector tail "apply"
      lst ← list_from (arguments (k - 1) s ++ acc)
      pure (go (record vm { stack = lst ∷ drop (k - 1) s })))

unfoldable pub return_value : Vm → List DumpEntry → M Next
return_value vm [] = pure (halt (first_argument vm.stack))
return_value vm (back ∷ dump) = pure (
    go (record vm {
      stack = first_argument vm.stack ∷ resize vm.base vm.stack;
      dump = dump;
      env = back.env;
      code = back.code;
      base = back.base;
    }))

-- SEL leaves a return point on the dump, and SELR does not.
unfoldable pub select : Vm → Code → Code → Bool → List Value → M Next
select vm t f returns [] = internal_error Fault.underflow
select vm t f returns (cond ∷ s) = pure (
    go (record vm {
      stack = s;
      dump = if returns then return_point vm ∷ vm.dump else vm.dump;
      code = if is_true cond then t else f;
    }))

-- JOIN: the environment and the floor are still those of the return point.
unfoldable pub end_branch : Vm → List DumpEntry → M Next
end_branch vm [] = internal_error Fault.dump_underflow
end_branch vm (back ∷ dump) = pure (go (record vm { dump = dump; code = back.code }))

abbrev pub is_closure : Option Object → Bool
is_closure (some (closure t e)) = true
is_closure (some blank_closure) = true
is_closure _ = false

-- DEFM wraps a closure as a macro.
unfoldable pub macro_value : Value → M Value
macro_value v = do o ← gets (object_of v); if is_closure o then alloc (macro v) else pure v

-- A continuation whose nesting of `dynamic-wind` differs is called again by the code that unwinds.
unfoldable pub call_continuation : Vm → Value → Snapshot → Value → M Next
call_continuation vm k snap v = do
  now ← gets (λ h. h.winds)
  if winds_match now snap.winds
      then pure (go (restore vm snap v))
      else (do c ← build_rewind_code k snap v; pure (go (record vm { code = c })))

module _ (prims : String → List Value → M Value) (compile_eval : Value → EnvName → M Code) where
  -- vm_enter_eval: the second argument is an environment.
  unfoldable pub eval_in : Vm → Value → Value → ℕ → Bool → M Next
  eval_in vm expr (environment e) argp tail = do
    c ← compile_eval expr e
    pure (go (enter vm c none argp tail))
  eval_in vm expr other argp tail = throw (Message.wrong_type "eval")

  unfoldable pub enter_eval : Vm → List Value → ℕ → Bool → M Next
  enter_eval vm (expr ∷ (env ∷ [])) argp tail = eval_in vm expr env argp tail
  enter_eval vm _ argp tail = throw (Message.wrong_count "eval")

  unfoldable pub call_primitive : Vm → String → ℕ → Bool → M Next
  unfolding enter_eval
  call_primitive vm name n tail =
      if str_eq name "eval"
      then enter_eval vm (arguments n vm.stack) (length vm.stack - n) tail
      else (do
        out ← prims name (arguments n vm.stack)
        pure (go (record vm { stack = out ∷ resize (length vm.stack - n) vm.stack })))

  unfoldable pub call_object : Vm → Addr → ℕ → Bool → Option Object → M Next
  unfolding call_continuation
  call_object vm a n tail (some (continuation snap)) =
      call_continuation vm (object a) snap (first_argument (arguments n vm.stack))
  call_object vm a n tail (some (closure t env)) = do
    frame ← make_frame t env (arguments n vm.stack)
    pure (go (enter vm (body_of t) frame (length vm.stack - n) tail))
  call_object vm a n tail (some blank_closure) = internal_error Fault.null_template
  call_object vm a n tail _ = throw (Message.not_a_procedure (object a))

  -- The callee is popped, and the `n` arguments are on the stack.
  unfoldable pub do_call : Vm → Value → ℕ → Bool → M Next
  unfolding call_primitive call_object
  do_call vm (primitive name) n tail = call_primitive vm name n tail
  do_call vm (object a) n tail = do o ← gets (λ h. fetch a h.objects); call_object vm a n tail o
  do_call vm callee n tail = throw (Message.not_a_procedure callee)

  -- APP and TAPP: the callee is on top of its arguments.
  unfoldable pub call : Vm → ℕ → Bool → List Value → M Next
  unfolding do_call
  call vm n tail [] = internal_error Fault.underflow
  call vm n tail (callee ∷ s) =
      if ltb (length s) n
      then internal_error Fault.underflow
      else do_call (record vm { stack = s }) callee n tail

  -- APPLY and TAPPLY: the callee is on top of the list of its arguments.
  unfoldable pub apply_list : Vm → Bool → List Value → M Next
  unfolding do_call
  apply_list vm tail (callee ∷ (lst ∷ s)) = do
    args ← list_to_vector lst "apply"
    do_call (record vm { stack = reverse args ++ s }) callee (length args) tail
  apply_list vm tail _ = internal_error Fault.underflow

  -- CALLCC and TCALLCC: the continuation has copies of the stack and of the dump.
  unfoldable pub call_cc : Vm → Bool → List Value → M Next
  unfolding do_call
  call_cc vm tail [] = internal_error Fault.underflow
  call_cc vm tail (proc ∷ s) = do
    snap ← gets (capture (record vm { stack = s }))
    k ← alloc (continuation snap)
    do_call (record vm { stack = k ∷ s }) proc 1 tail

  -- One instruction; `vm.code` is what follows it.
  unfoldable pub exec : Vm → Instr → M Next
  unfolding call apply_list call_cc
  exec vm (ld i j) = do fs ← gets (λ h. h.frames); v ← local (env_at i fs vm.env) j; push vm v
  exec vm (ldc v) = push vm v
  exec vm (ldg a) = do c ← gets (cell_at a); v ← bound c; push vm v
  exec vm (ldf t true) = do write_object vm.scratch (closure t vm.env); push vm (object vm.scratch)
  exec vm (ldf t false) = do v ← alloc (closure t vm.env); push vm v
  exec vm (app n) = call vm n false vm.stack
  exec vm (tapp n) = call vm n true vm.stack
  exec vm (args_ap k) = pack vm k vm.stack
  exec vm apply = apply_list vm false vm.stack
  exec vm tapply = apply_list vm true vm.stack
  exec vm rtn = return_value vm vm.dump
  exec vm (sel t f) = select vm t f true vm.stack
  exec vm (selr t f) = select vm t f false vm.stack
  exec vm join = end_branch vm vm.dump
  exec vm pop = do (v, s) ← top vm.stack; pure (go (record vm { stack = s }))
  exec vm (def a) = do
    (v, s) ← top vm.stack
    c ← gets (cell_at a)
    write_cell a (record c { value = some v })
    pure (go (record vm { stack = symbol c.name ∷ s }))
  exec vm (defm a) = do
    (v, s) ← top vm.stack
    c ← gets (cell_at a)
    m ← macro_value v
    write_cell a (record c { value = some m; transformer = some v })
    pure (go (record vm { stack = symbol c.name ∷ s }))
  exec vm (lset i j) = do
    (v, s) ← top vm.stack
    fs ← gets (λ h. h.frames)
    set_local (env_at i fs vm.env) j v
    pure (go vm)
  exec vm (gset a) = do
    (v, s) ← top vm.stack
    c ← gets (cell_at a)
    write_cell a (record c { value = some v })
    pure (go vm)
  exec vm callcc = call_cc vm false vm.stack
  exec vm tcallcc = call_cc vm true vm.stack
  exec vm stop = pure (halt (first_argument vm.stack))

  -- One round of the loop, without its handler.
  unfoldable pub step : Vm → Code → M Next
  unfolding exec
  step vm empty = internal_error Fault.code_exhausted
  step vm (i ▷ c) = exec (record vm { code = c }) i
