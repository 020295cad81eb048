-- ===== src/Safety/Runs.antt =====
-- A whole run: the loop with its handler, and the transformer of a macro.
use mathlib.Core.Bool.{not, ◌||◌}
use secd_scheme.Prelude.{
  ℕ, zero, suc, ◌+◌, ◌≡◌, refl, inl, inr, Option, none, some, List, [], ◌∷◌, length, Addr, fetch,
  arith, Bool-cases, String, fetch-alloc_self, ltb,
}
use secd_scheme.Value.{
  Frame, EnvName, Value, primitive, object, Env, Code, body_of, Object, blank_closure, closure,
  error_object, Heap, Message,
}
use secd_scheme.Effect.{Result, ok, M, gets, alloc, internal_error, ◌>>=◌}
use secd_scheme.Machine.{Vm, Next, go, halt, make_frame}
use secd_scheme.Step.{cell_at, global_cell, handler_installed, find_name}
use secd_scheme.Run.{
  throw_final, raise_code, abandon_to, abandon_to_raise, catch, leave_run, tick, loop, run,
  run_code, apply_object, apply_callable,
}
use secd_scheme.Typing.{
  Kind, program, body, DumpOk, Shape, frame_size, CodeOk, step, last, ldc_ok, app_ok, stop_ok,
  any_dump, no_caller, EnvOk,
}
use secd_scheme.Safety.Growth.{
  IsScratch, HeapOk, Grows-refl, Grows-trans, ScratchAt, MachineOk, running, jumping, EnvOk-Grows,
}
use secd_scheme.Safety.Actions.{
  Safe, returns, raises, faults, exits, runs_out, Any, Safe-pure, Safe-throw, Safe-bind, Safe-gets,
  Safe-alloc, Safe-Grows, same_HeapOk, same_Grows, Grows-alloc, HeapOk-alloc,
}
use secd_scheme.Safety.Frames.{Safe-make_frame}
use secd_scheme.Safety.Calls.{EngineOk, NextOk}
use secd_scheme.Safety.Instr.{Safe-step}

scratch_at : {h : Heap} {vm : Vm} → MachineOk h vm → ScratchAt h.objects vm.scratch
scratch_at (running d s c l e r) = s
scratch_at (jumping s c e k r) = s

raise_code-CodeOk : (obj handler : Value) → CodeOk program [] 0 (raise_code obj handler)
unfolding raise_code
raise_code-CodeOk obj handler =
    step ldc_ok (step ldc_ok (step (app_ok (omega arith)) (last (stop_ok refl))))

Safe-throw_final :
    {A : Type 0} {Q : A → Heap → Type 0} (h : Heap) (m : Message)
    → HeapOk h
    → Safe h Q (throw_final m h)
unfolding throw_final
Safe-throw_final h m good = raises good (Grows-refl h)

Safe-global_cell : (h : Heap) (name : String) → HeapOk h → Safe h Any (global_cell name h)
unfolding global_cell
Safe-global_cell h name good =
    elim (find_name name h.globals)
      as (λ o. Safe h Any (elim o as (λ x. Result Addr) [
        | none ↦ ok (length h.cells) (record h {
          cells = (record { value = none; transformer = none; name = name }) ∷ h.cells;
          globals = (name, length h.cells) ∷ h.globals;
        })
        | some a ↦ ok a h
      ])) [
        | none ↦ returns (same_HeapOk refl refl good) (same_Grows refl refl refl) tt
        | some a ↦ returns good (Grows-refl h) tt
      ]

Safe-abandon_to :
    (h : Heap) (vm : Vm) (obj : Value) (handler : Option Value)
    → HeapOk h
    → ScratchAt h.objects vm.scratch
    → Safe h NextOk (abandon_to vm obj handler h)
unfolding abandon_to
Safe-abandon_to h vm obj none good scratch = Safe-throw_final h _ good
Safe-abandon_to h vm obj (some handler) good scratch =
    Safe-pure _ good (running 0 scratch (raise_code-CodeOk obj handler) (omega arith) tt any_dump)

Safe-abandon_to_raise :
    (h : Heap) (vm : Vm) (obj : Value)
    → HeapOk h
    → ScratchAt h.objects vm.scratch
    → Safe h NextOk (abandon_to_raise vm obj h)
unfolding abandon_to_raise
Safe-abandon_to_raise h vm obj good scratch =
    Safe-bind h (global_cell "raise") _ (Safe-global_cell h "raise" good) (λ a h' good' g q.
      Safe-gets h' (cell_at a) _
        (Safe-abandon_to h' vm obj _ good' (g.scratches_stay vm.scratch scratch)))

Safe-catch :
    {h : Heap} (vm : Vm) {r : Result Next}
    → ScratchAt h.objects vm.scratch
    → Safe h NextOk r
    → Safe h NextOk (catch vm r)
unfolding catch
Safe-catch vm scratch (returns good g q) = returns good g q
Safe-catch {h} vm scratch (raises {e = e} {h' = h'} good g) =
    elim (Bool-cases (not e.catchable || ltb 1 h'.run_depth || not (handler_installed h'))) [
      | inl final ↦ rw final (raises good g)
      | inr caught ↦ rw caught (
          Safe-Grows g (
            Safe-bind h' (alloc (error_object e.message)) (abandon_to_raise vm)
              (Safe-alloc h' (error_object e.message) good tt)
              (λ obj h₂ good₂ g₂ q.
                Safe-abandon_to_raise h₂ vm obj good₂
                  (g₂.scratches_stay vm.scratch (g.scratches_stay vm.scratch scratch)))))
    ]
Safe-catch vm scratch (faults x) = faults x
Safe-catch vm scratch exits = exits
Safe-catch vm scratch runs_out = runs_out

Safe-leave_run : {h : Heap} {r : Result Value} → Safe h Any r → Safe h Any (leave_run r)
unfolding leave_run
Safe-leave_run (returns good g q) =
    returns (same_HeapOk refl refl good) (Grows-trans g (same_Grows refl refl refl)) tt
Safe-leave_run (raises good g) =
    raises (same_HeapOk refl refl good) (Grows-trans g (same_Grows refl refl refl))
Safe-leave_run (faults x) = faults x
Safe-leave_run exits = exits
Safe-leave_run runs_out = runs_out

module _ {prims : String → List Value → M Value} {compile_eval : Value → EnvName → M Code}
    (engine : EngineOk prims compile_eval) where
  Safe-tick :
      {h : Heap} (vm : Vm)
      → HeapOk h
      → MachineOk h vm
      → Safe h NextOk (tick prims compile_eval vm h)
  unfolding tick
  Safe-tick vm good m = Safe-catch vm (scratch_at m) (Safe-step engine vm good m)

  Safe-loop :
      {h : Heap} (fuel : ℕ) (vm : Vm)
      → HeapOk h
      → MachineOk h vm
      → Safe h Any (loop prims compile_eval fuel vm h)
  unfolding loop
  Safe-loop zero vm good m = runs_out
  Safe-loop {h} (suc fuel) vm good m =
      Safe-bind h (tick prims compile_eval vm) _ (Safe-tick vm good m) (elim [
        | go vm' ↦ λ h' good' g m'. Safe-loop fuel vm' good' m'
        | halt v ↦ λ h' good' g q. Safe-pure v good' tt
      ])

  pub Safe-run :
      {h : Heap} (fuel : ℕ) (vm : Vm)
      → HeapOk h
      → MachineOk h vm
      → Safe h Any (run prims compile_eval fuel vm h)
  unfolding run
  Safe-run {h} fuel vm good m = Safe-leave_run (
      Safe-Grows (same_Grows refl refl refl)
        (Safe-loop fuel vm (same_HeapOk refl refl good) (entered m)))
    where
      entered : MachineOk h vm → MachineOk (record h { run_depth = h.run_depth + 1 }) vm
      entered (running d s c l e r) = running d s c l e r
      entered (jumping s c e k r) = jumping s c e k r

  -- Checked code on a new machine.
  pub Safe-run_code :
      {h : Heap} (fuel : ℕ) (c : Code) (env : Env) (Γ : Shape) (k : Kind)
      → HeapOk h
      → CodeOk k Γ 0 c
      → EnvOk h.frames env Γ
      → ((os : List Object) (fs : List Frame) → DumpOk os fs k Γ 0 [])
      → Safe h Any (run_code prims compile_eval fuel c env h)
  unfolding run_code
  Safe-run_code {h} fuel c env Γ k good typed fits dump_ok =
      let g = Grows-alloc h blank_closure in
      Safe-Grows g (
        Safe-run fuel _ (HeapOk-alloc h blank_closure good tt) (
          running 0 (blank_closure, fetch-alloc_self blank_closure h.objects, IsScratch.is_blank)
            typed (omega arith) (EnvOk-Grows g Γ env fits) (dump_ok _ _)))

  Safe-apply_object :
      {h : Heap} (fuel : ℕ) (a : Addr) (args : List Value) (o : Option Object)
      → HeapOk h
      → fetch a h.objects ≡ o
      → Safe h Any (apply_object prims compile_eval fuel (object a) args o h)
  unfolding apply_object internal_error
  Safe-apply_object {h} fuel a args (some (closure t env)) good at =
      let (Γ, inside, typed) = good.objects_ok a (closure t env) at in
      Safe-bind h (make_frame t env args) _ (Safe-make_frame h t env args Γ good inside)
        (λ frame h' good' g q.
          Safe-run_code fuel (body_of t) frame (frame_size t ∷ Γ) body good' typed q
            (λ os fs. no_caller))
  Safe-apply_object fuel a args (some blank_closure) good at = faults tt
  Safe-apply_object fuel a args _ good at = Safe-throw _ good

  -- The transformer of a macro, or a primitive in its place.
  pub Safe-apply_callable :
      {h : Heap} (fuel : ℕ) (proc : Value) (args : List Value)
      → HeapOk h
      → Safe h Any (apply_callable prims compile_eval fuel proc args h)
  unfolding apply_callable ◌>>=◌ gets
  Safe-apply_callable {h} fuel (primitive name) args good = engine.prims_safe name args h good
  Safe-apply_callable {h} fuel (object a) args good = Safe-apply_object fuel a args _ good refl
  Safe-apply_callable fuel _ args good = Safe-throw _ good
