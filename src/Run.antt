-- ===== src/Run.antt =====
-- scheme14/scheme14.cpp, section 10: the loop `run`, its handler of errors, and `apply_callable`,
-- which runs a macro's transformer.
use secd_scheme.Prelude.{
  ℕ, zero, suc, ◌+◌, ◌-◌, false, ◌||◌, not, Option, none, some, List, [], ◌∷◌, length, ltb, fetch,
  if◌then◌else◌, String,
}
use secd_scheme.Value.{
  EnvName, Value, primitive, object, ldc, app, stop, Code, empty, ◌▷◌, body_of, Message, Object,
  blank_closure, closure, error_object,
}
use secd_scheme.Effect.{
  Fault, Result, ok, raise, out_of_fuel, M, pure, throw, internal_error, gets, alloc, ◌>>=◌,
}
use secd_scheme.Machine.{Vm, Next, go, halt, make_frame}
use secd_scheme.Step.{cell_at, global_cell, handler_installed, step}

-- `throw` with `catchable` false
unfoldable pub throw_final {ℓ} : {A : Type ℓ} → Message → M A
throw_final m h = raise (record { message = m; catchable = false }) h

-- abandon_to_raise: the code that is left is dropped, and the dump stays.
unfoldable pub raise_code : Value → Value → Code
raise_code obj handler = ldc obj ▷ (ldc handler ▷ (app 1 ▷ (stop ▷ empty)))

unfoldable pub abandon_to : Vm → Value → Option Value → M Next
abandon_to vm obj none = throw_final Message.raise_undefined
abandon_to vm obj (some handler) =
    pure (go (record vm { stack = []; env = none; code = raise_code obj handler; base = 0 }))

unfoldable pub abandon_to_raise : Vm → Value → M Next
abandon_to_raise vm obj = do
  a ← global_cell "raise"
  c ← gets (cell_at a)
  abandon_to vm obj c.value

-- The handler of `run`: an error that may be caught goes to the procedure `raise`.
unfoldable pub catch : Vm → Result Next → Result Next
catch vm (raise e h) =
    if not e.catchable || ltb 1 h.run_depth || not (handler_installed h)
    then raise e h
    else (alloc (error_object e.message) >>= abandon_to_raise vm) h
catch vm r = r

-- `Depth`: the count of nested runs goes down again however the run ends.
unfoldable pub leave_run : Result Value → Result Value
leave_run (ok v h) = ok v (record h { run_depth = h.run_depth - 1 })
leave_run (raise e h) = raise e (record h { run_depth = h.run_depth - 1 })
leave_run r = r

module _ (prims : String → List Value → M Value) (compile_eval : Value → EnvName → M Code) where
  unfoldable pub tick : Vm → M Next
  unfolding step catch
  tick vm h = catch vm (step prims compile_eval vm vm.code h)

  unfoldable pub loop : ℕ → Vm → M Value
  unfolding tick
  loop zero vm = λ h. out_of_fuel
  loop (suc fuel) vm = tick vm >>= λ next. elim next [ go vm' ↦ loop fuel vm' | halt v ↦ pure v ]

  unfoldable pub run : ℕ → Vm → M Value
  unfolding loop leave_run
  run fuel vm h = leave_run (loop fuel vm (record h { run_depth = h.run_depth + 1 }))

  -- A new machine, whose scratch closure has no template yet.
  unfoldable pub run_code : ℕ → Code → Option ℕ → M Value
  unfolding run
  run_code fuel c env h =
      run fuel
        (record {
          stack = [];
          dump = [];
          env = env;
          scratch = length h.objects;
          code = c;
          base = 0;
        })
        (record h { objects = blank_closure ∷ h.objects })

  unfoldable pub apply_object : ℕ → Value → List Value → Option Object → M Value
  unfolding run_code
  apply_object fuel proc args (some (closure t env)) = do
    frame ← make_frame t env args
    run_code fuel (body_of t) frame
  apply_object fuel proc args (some blank_closure) = internal_error Fault.null_template
  apply_object fuel proc args _ = throw (Message.not_a_transformer proc)

  -- apply_callable
  unfoldable pub apply_callable : ℕ → Value → List Value → M Value
  unfolding apply_object
  apply_callable fuel (primitive name) args = prims name args
  apply_callable fuel (object a) args = do
    o ← gets (λ h. fetch a h.objects)
    apply_object fuel (object a) args o
  apply_callable fuel proc args = throw (Message.not_a_transformer proc)
