-- ===== src/Safety/Calls.antt =====
-- Calls: of a primitive, of a closure, of a continuation, and of anything else.
use text.Mathlib.Text.{◌==◌ as str_eq}
use secd_scheme.Prelude.{
  ℕ, suc, ◌+◌, ◌-◌, ◌≤◌, ◌≡◌, refl, subst, inl, inr, Bool, true, false, Option, none, some, List,
  [], ◌∷◌, length, resize, length-resize, Addr, fetch, arith, Bool-cases, String,
}
use secd_scheme.Value.{
  EnvName, Value, primitive, environment, object, Env, ldc, app, Code, empty, ◌▷◌, body_of,
  DumpEntry, Frame, Snapshot, Object, blank_closure, closure, continuation, Heap,
}
use secd_scheme.Effect.{M, pure, ◌>>=◌, gets, internal_error, Fault}
use secd_scheme.Machine.{
  Vm, Next, go, halt, call_thunks, rewind_thunks, rewind_code, build_rewind_code, winds_match,
  arguments, first_argument, restore, enter, make_frame,
}
use secd_scheme.Step.{eval_in, enter_eval, call_primitive, call_continuation, call_object, do_call}
use secd_scheme.Typing.{
  Kind, body, rewind, Shape, frame_size, CodeOk, step, jump, ldc_ok, app_ok, pop_ok, EnvOk, DumpOk,
  no_caller, caller, unwinding, SnapshotOk, resumable,
}
use secd_scheme.Safety.Growth.{
  ScratchAt, HeapOk, Grows, EnvOk-Grows, DumpOk-Grows, MachineOk, running,
}
use secd_scheme.Safety.Actions.{
  Safe, returns, faults, Any, Safe-pure, Safe-throw, Safe-bind, same_HeapOk, same_Grows,
}
use secd_scheme.Safety.Frames.{Safe-make_frame}

-- What the machine asks of the primitives and of the compiler.
pub record EngineOk (prims : String → List Value → M Value)
    (compile_eval : Value → EnvName → M Code) : Type 0 where
  pub prims_safe :
      (name : String) (args : List Value) (h : Heap) → HeapOk h → Safe h Any (prims name args h)
  pub eval_safe :
      (expr : Value) (e : EnvName) (h : Heap)
      → HeapOk h
      → Safe h (λ c h'. CodeOk body [] 0 c) (compile_eval expr e h)

abbrev pub NextOk : Next → Heap → Type 0
NextOk (go vm) h = MachineOk h vm
NextOk (halt v) h = Unit

null_call : (h : Heap) → Safe h NextOk (internal_error Fault.null_template h)
unfolding internal_error
null_call h = faults tt

-- The machine at a call: the callee is popped, `n` arguments and `d` operands are on the stack, and
-- the code that follows expects a result.
pub data CallOk (h : Heap) (vm : Vm) (n : ℕ) (tail : Bool) : Type 0 where
  calling :
      {k : Kind} {Γ : Shape} (d : ℕ)
      → ScratchAt h.objects vm.scratch
      → CodeOk k Γ (suc d) vm.code
      → length vm.stack ≡ vm.base + (n + d)
      → EnvOk h.frames vm.env Γ
      → DumpOk h.objects h.frames k Γ vm.base vm.dump
      → (tail ≡ true → k ≡ body)
      → CallOk h vm n tail

pub CallOk-Grows :
    {h h' : Heap} {vm : Vm} {n : ℕ} {tail : Bool}
    → Grows h h'
    → CallOk h vm n tail
    → CallOk h' vm n tail
CallOk-Grows {vm = vm} g (calling {Γ = Γ} d s c l e r t) =
    calling d (g.scratches_stay vm.scratch s) c l (EnvOk-Grows g Γ vm.env e) (DumpOk-Grows g r) t

-- The body of a procedure looks at no frame of its caller.
DumpOk-body :
    {os : List Object} {fs : List Frame} {k : Kind} {Γ : Shape} (Γ' : Shape) {base : ℕ}
    {dump : List DumpEntry}
    → k ≡ body
    → DumpOk os fs k Γ base dump
    → DumpOk os fs body Γ' base dump
DumpOk-body Γ' e no_caller = no_caller
DumpOk-body Γ' e (caller d c b env r) = caller d c b env r
DumpOk-body Γ' e (DumpOk.any_dump) = cc
DumpOk-body Γ' e (DumpOk.branching c r) = cc
DumpOk-body Γ' e (unwinding k) = cc

-- Entering the body of a procedure: the caller's operands are kept below the new floor, or thrown
-- away by a tail call.
pub enter-MachineOk :
    {h : Heap} {n : ℕ} (tail : Bool) (vm : Vm) (c : Code) (env : Env) (Γ : Shape)
    → CodeOk body Γ 0 c
    → EnvOk h.frames env Γ
    → CallOk h vm n tail
    → MachineOk h (enter vm c env (length vm.stack - n) tail)
unfolding enter
enter-MachineOk true vm c env Γ typed fits (calling d s code l e r t) =
    running 0 s typed (omega (arith, length-resize vm.base vm.stack (omega arith))) fits
      (DumpOk-body Γ (t refl) r)
enter-MachineOk {n = n} false vm c env Γ typed fits (calling d s code l e r t) =
    running 0 s typed (omega (arith, length-resize (length vm.stack - n) vm.stack (omega arith)))
      fits (caller d code (omega arith) e r)

pub result-MachineOk :
    {h : Heap} {n : ℕ} {tail : Bool} (vm : Vm) (v : Value)
    → CallOk h vm n tail
    → MachineOk h (record vm { stack = v ∷ resize (length vm.stack - n) vm.stack })
result-MachineOk {n = n} vm v (calling d s code l e r t) =
    running (suc d) s code
      (omega (arith, length-resize (length vm.stack - n) vm.stack (omega arith))) e r

-- The code of an unwinding, whatever lies below it on the stack.
call_thunks-CodeOk :
    (a : Addr) (v : Value) (d : ℕ) (thunks : List Value)
    → CodeOk (rewind a) [] d (call_thunks thunks (ldc v ▷ (ldc (object a) ▷ (app 1 ▷ empty))))
unfolding call_thunks
call_thunks-CodeOk a v d [] = step ldc_ok (jump a refl (omega arith) refl)
call_thunks-CodeOk a v d (t ∷ ts) = step ldc_ok (
    step (app_ok (omega arith)) (
      step (pop_ok (omega arith)) (
        subst
          (λ (n : ℕ).
            CodeOk (rewind a) [] n (call_thunks ts (ldc v ▷ (ldc (object a) ▷ (app 1 ▷ empty)))))
          (omega arith) (call_thunks-CodeOk a v d ts))))

restore-MachineOk :
    {h : Heap} (vm : Vm) (s : Snapshot) (v : Value)
    → ScratchAt h.objects vm.scratch
    → SnapshotOk h.objects h.frames s
    → MachineOk h (restore vm s v)
restore-MachineOk vm s v scratch (resumable d c l e r) = running (suc d) scratch c (omega arith) e r

-- A continuation is resumed, or the code that unwinds to it is entered with the operands left.
pub Safe-call_continuation :
    (h : Heap) (vm : Vm) (a : Addr) (s : Snapshot) (v : Value)
    → HeapOk h
    → ScratchAt h.objects vm.scratch
    → fetch a h.objects ≡ some (continuation s)
    → vm.base ≤ length vm.stack
    → Safe h NextOk (call_continuation vm (object a) s v h)
unfolding call_continuation build_rewind_code rewind_code ◌>>=◌ gets pure
Safe-call_continuation h vm a s v good scratch at room =
    elim (Bool-cases (winds_match h.winds s.winds)) [
      | inl same ↦ rw same (
          returns good (same_Grows refl refl refl)
            (restore-MachineOk vm s v scratch (good.objects_ok a (continuation s) at)))
      | inr differ ↦ rw differ (
          returns (same_HeapOk refl refl good) (same_Grows refl refl refl) (
            running (length vm.stack - vm.base) scratch
              (call_thunks-CodeOk a v (length vm.stack - vm.base) (rewind_thunks h.winds s.winds))
              (omega arith) tt (unwinding (s, at))))
    ]

module _ {prims : String → List Value → M Value} {compile_eval : Value → EnvName → M Code}
    (engine : EngineOk prims compile_eval) (h : Heap) (vm : Vm) (n : ℕ) (tail : Bool)
    (good : HeapOk h) (fits : CallOk h vm n tail) where
  Safe-eval_in :
      (expr env : Value)
      → Safe h NextOk (eval_in prims compile_eval vm expr env (length vm.stack - n) tail h)
  unfolding eval_in
  Safe-eval_in expr (environment e) =
      Safe-bind h (compile_eval expr e) _ (engine.eval_safe expr e h good) (λ c h' good' g typed.
        Safe-pure _ good' (enter-MachineOk tail vm c none [] typed tt (CallOk-Grows g fits)))
  Safe-eval_in expr _ = Safe-throw _ good

  Safe-enter_eval :
      (args : List Value)
      → Safe h NextOk (enter_eval prims compile_eval vm args (length vm.stack - n) tail h)
  unfolding enter_eval
  Safe-enter_eval [] = Safe-throw _ good
  Safe-enter_eval (expr ∷ []) = Safe-throw _ good
  Safe-enter_eval (expr ∷ (env ∷ [])) = Safe-eval_in expr env
  Safe-enter_eval (expr ∷ (env ∷ (more ∷ args))) = Safe-throw _ good

  Safe-call_primitive :
      (name : String) → Safe h NextOk (call_primitive prims compile_eval vm name n tail h)
  unfolding call_primitive
  Safe-call_primitive name = elim (Bool-cases (str_eq name "eval")) [
    | inl is_eval ↦ rw is_eval (Safe-enter_eval (arguments n vm.stack))
    | inr other ↦ rw other (
        Safe-bind h (prims name (arguments n vm.stack)) _
          (engine.prims_safe name (arguments n vm.stack) h good)
          (λ out h' good' g q. Safe-pure _ good' (result-MachineOk vm out (CallOk-Grows g fits))))
  ]

  scratch_of : ScratchAt h.objects vm.scratch
  scratch_of = go_scratch fits
    where
      go_scratch : CallOk h vm n tail → ScratchAt h.objects vm.scratch
      go_scratch (calling d s c l e r t) = s

  room_of : vm.base ≤ length vm.stack
  room_of = go_room fits
    where
      go_room : CallOk h vm n tail → vm.base ≤ length vm.stack
      go_room (calling d s c l e r t) = omega arith

  Safe-call_object :
      (a : Addr) (o : Option Object)
      → fetch a h.objects ≡ o
      → Safe h NextOk (call_object prims compile_eval vm a n tail o h)
  unfolding call_object
  Safe-call_object a (some (continuation s)) at =
      Safe-call_continuation h vm a s (first_argument (arguments n vm.stack)) good scratch_of at
        room_of
  Safe-call_object a (some (closure t env)) at =
      let (Γ, inside, typed) = good.objects_ok a (closure t env) at in
      Safe-bind h (make_frame t env (arguments n vm.stack)) _
        (Safe-make_frame h t env (arguments n vm.stack) Γ good inside)
        (λ frame h' good' g q. Safe-pure _ good' (
          enter-MachineOk tail vm (body_of t) frame (frame_size t ∷ Γ) typed q
            (CallOk-Grows g fits)))
  Safe-call_object a (some blank_closure) at = null_call h
  Safe-call_object a _ at = Safe-throw _ good

  pub Safe-do_call :
      (callee : Value) → Safe h NextOk (do_call prims compile_eval vm callee n tail h)
  unfolding do_call ◌>>=◌ gets
  Safe-do_call (primitive name) = Safe-call_primitive name
  Safe-do_call (object a) = Safe-call_object a (fetch a h.objects) refl
  Safe-do_call _ = Safe-throw _ good
