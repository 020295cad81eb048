-- ===== src/Safety/Instr.antt =====
-- Each instruction of checked code, the call at the end of an unwinding, and a step of the machine.
use secd_scheme.Prelude.{
  ℕ, suc, ◌+◌, ◌-◌, ◌≤◌, ◌<◌, ◌≡◌, refl, ap, subst, inl, inr, true, false, ◌||◌, some, List, [],
  ◌∷◌, ◌++◌, length, length-resize, Addr, arith, Bool-cases, String, length-drop, drop, ltb, ge→ltb,
  ◌==◌,
}
use secd_scheme.Value.{
  EnvName, Value, symbol, object, Instr, app, Code, empty, ◌▷◌, Template, body_of, DumpEntry, Frame,
  Object, closure, Heap,
}
use secd_scheme.Effect.{M, pure, ◌>>=◌, gets, alloc}
use secd_scheme.Pairs.{list_to_vector, list_from}
use secd_scheme.Machine.{Vm, env_at, arguments}
use secd_scheme.Step.{
  cell_at, write_cell, is_true, local, set_local, bound, write_object, push, call_object, top, pack,
  return_value, select, end_branch, is_closure, object_of, macro_value, do_call, call, apply_list,
  call_cc, exec,
}
use secd_scheme.Step
use secd_scheme.Typing.{
  Kind, body, branch, rewind, Shape, frame_size, CodeOk, step, last, jump, InstrOk, ld_ok, lset_ok,
  ldc_ok, ldg_ok, def_ok, defm_ok, gset_ok, ldf_ok, app_ok, tapp_ok, args_ok, apply_ok, tapply_ok,
  sel_ok, pop_ok, callcc_ok, tcallcc_ok, LastOk, rtn_ok, join_ok, stop_ok, selr_ok, IsContinuation,
  DumpOk, any_dump, no_caller, caller, branching, unwinding,
}
use secd_scheme.Safety.Growth.{IsScratch, ScratchAt, HeapOk, MachineOk, running, jumping}
use secd_scheme.Safety.Actions.{
  Safe, returns, Any, Safe-pure, Safe-bind, Safe-gets, Safe-alloc, Safe-list_to_vector,
  Safe-list_from, Grows-update, HeapOk-update,
}
use secd_scheme.Safety.Frames.{Safe-local, Safe-set_local}
use secd_scheme.Safety.Calls.{EngineOk, NextOk, Safe-call_continuation}
use secd_scheme.Safety.Steps.{
  Facts, Facts-Grows, with_stack, Safe-go, Safe-push, Safe-top, Safe-bound, Safe-write_cell,
  Safe-macro_value, Safe-call, Safe-apply_list, Safe-call_cc,
}

Safe-pack :
    {h : Heap} {k : Kind} {Γ : Shape} {d n : ℕ} (vm : Vm) (s : List Value)
    → HeapOk h
    → Facts h vm k Γ d
    → length s ≡ vm.base + d
    → 0 < n
    → n ≤ d
    → CodeOk k Γ (suc (d - n)) vm.code
    → Safe h NextOk (pack vm n s h)
unfolding pack
Safe-pack vm [] good f size pos le typed = absurd (omega arith)
Safe-pack {h} {n = n} vm (tail ∷ s) good f size pos le typed = rw (enough) (
    Safe-bind h (list_to_vector tail "apply") _ (Safe-list_to_vector tail "apply" h good)
      (λ acc h₁ good₁ g₁ q.
        Safe-bind h₁ (list_from (arguments (n - 1) s ++ acc)) _
          (Safe-list_from (arguments (n - 1) s ++ acc) h₁ good₁)
          (λ lst h₂ good₂ g₂ q₂.
            Safe-go (record vm { stack = lst ∷ drop (n - 1) s }) good₂
              (with_stack (lst ∷ drop (n - 1) s) (Facts-Grows g₂ (Facts-Grows g₁ f))
                (omega (arith, length-drop (n - 1) s)))
              typed)))
  where
    enough : (n == 0 || ltb (suc (length s)) n) ≡ false
    enough = ground arith

Safe-select :
    {h : Heap} {k : Kind} {Γ : Shape} {d : ℕ} (vm : Vm) (t f : Code) (s : List Value)
    → HeapOk h
    → Facts h vm k Γ d
    → length s ≡ vm.base + d
    → 0 < d
    → CodeOk (branch d) Γ (d - 1) t
    → CodeOk (branch d) Γ (d - 1) f
    → CodeOk k Γ d vm.code
    → Safe h NextOk (select vm t f true s h)
unfolding select
Safe-select vm t f [] good facts size pos tt_ok ff_ok typed = absurd (omega arith)
Safe-select {d = d} vm t f (cond ∷ s) good facts size pos tt_ok ff_ok typed =
    let callers = branching typed facts.callers in
    elim (Bool-cases (is_true cond)) [
      | inl e ↦
          rw e (
            Safe-pure _ good (running (d - 1) facts.scratch tt_ok (omega arith) facts.fits callers))
      | inr e ↦
          rw e (
            Safe-pure _ good (running (d - 1) facts.scratch ff_ok (omega arith) facts.fits callers))
    ]

Safe-select_tail :
    {h : Heap} {Γ : Shape} {d : ℕ} (vm : Vm) (t f : Code) (s : List Value)
    → HeapOk h
    → Facts h vm body Γ d
    → length s ≡ vm.base + d
    → 0 < d
    → CodeOk body Γ (d - 1) t
    → CodeOk body Γ (d - 1) f
    → Safe h NextOk (select vm t f false s h)
unfolding select
Safe-select_tail vm t f [] good facts size pos tt_ok ff_ok = absurd (omega arith)
Safe-select_tail {d = d} vm t f (cond ∷ s) good facts size pos tt_ok ff_ok =
    elim (Bool-cases (is_true cond)) [
      | inl e ↦ rw e (
          Safe-pure _ good
            (running (d - 1) facts.scratch tt_ok (omega arith) facts.fits facts.callers))
      | inr e ↦ rw e (
          Safe-pure _ good
            (running (d - 1) facts.scratch ff_ok (omega arith) facts.fits facts.callers))
    ]

Safe-return_value :
    {h : Heap} {k : Kind} {Γ : Shape} {d : ℕ} (vm : Vm) {dump : List DumpEntry}
    → HeapOk h
    → Facts h vm k Γ d
    → k ≡ body
    → DumpOk h.objects h.frames k Γ vm.base dump
    → Safe h NextOk (return_value vm dump h)
unfolding return_value
Safe-return_value vm good f e any_dump = cc
Safe-return_value vm good f e no_caller = Safe-pure _ good tt
Safe-return_value vm good f e (caller d typed size fits callers) = Safe-pure _ good (
    running (suc d) f.scratch typed
      (omega (arith, f.size, length-resize vm.base vm.stack (omega (arith, f.size)))) fits callers)
Safe-return_value vm good f e (branching c r) = cc
Safe-return_value vm good f e (unwinding k) = cc

Safe-end_branch :
    {h : Heap} {k : Kind} {Γ : Shape} {d : ℕ} (vm : Vm) {dump : List DumpEntry}
    → HeapOk h
    → Facts h vm k Γ d
    → k ≡ branch d
    → DumpOk h.objects h.frames k Γ vm.base dump
    → Safe h NextOk (end_branch vm dump h)
unfolding end_branch
Safe-end_branch vm good f e any_dump = cc
Safe-end_branch vm good f e no_caller = cc
Safe-end_branch vm good f e (caller d typed size fits callers) = cc
Safe-end_branch {d = d} vm good f e (branching {d = d'} typed callers) =
    Safe-pure _ good
      (running d' f.scratch typed (omega (arith, f.size, branch_injective e)) f.fits callers)
  where
    branch_injective : {m n : ℕ} → branch m ≡ branch n → m ≡ n
    branch_injective p = cc
Safe-end_branch vm good f e (unwinding k) = cc

Safe-write_scratch :
    (h : Heap) (vm : Vm) (t : Template) {k : Kind} (Γ : Shape) {d : ℕ}
    → HeapOk h
    → Facts h vm k Γ d
    → CodeOk body (frame_size t ∷ Γ) 0 (body_of t)
    → Safe h Any (write_object vm.scratch (closure t vm.env) h)
unfolding write_object
Safe-write_scratch h vm t Γ good f typed =
    returns
      (HeapOk-update h vm.scratch (closure t vm.env) good IsScratch.is_closure f.scratch
        (Γ, f.fits, typed))
      (Grows-update h vm.scratch (closure t vm.env) IsScratch.is_closure f.scratch) tt

unwinding_to :
    {os : List Object} {fs : List Frame} {k : Kind} {Γ : Shape} {base : ℕ} {dump : List DumpEntry}
    (a : Addr)
    → k ≡ rewind a
    → DumpOk os fs k Γ base dump
    → IsContinuation os a
unwinding_to a e any_dump = cc
unwinding_to a e no_caller = cc
unwinding_to a e (caller d c b env r) = cc
unwinding_to a e (branching c r) = cc
unwinding_to {os} a e (unwinding {a = b} k) = subst (IsContinuation os) (same b e) k
  where
    same : (b : Addr) → rewind b ≡ rewind a → b ≡ a
    same b p = cc

about_to_jump :
    {h : Heap} {k : Kind} {Γ : Shape} {d : ℕ} (vm : Vm) (a : Addr) (s : List Value)
    → vm.stack ≡ s
    → k ≡ rewind a
    → vm.code ≡ app 1 ▷ empty
    → 0 < length s
    → vm.base ≤ length s
    → Facts h vm k Γ d
    → MachineOk h (record vm { stack = object a ∷ vm.stack })
about_to_jump vm a [] e p c pos room f = absurd (omega arith)
about_to_jump vm a (v ∷ s) e p c pos room f =
    jumping f.scratch c (ap (λ (t : List Value). object a ∷ t) e) (unwinding_to a p f.callers)
      (omega arith)

same-Facts :
    {h : Heap} {vm : Vm} {k : Kind} {Γ : Shape} {d : ℕ} {c : Code}
    → Facts h vm k Γ d
    → Facts h (record vm { code = c }) k Γ d
same-Facts f = record { scratch = f.scratch; size = f.size; fits = f.fits; callers = f.callers }

module _ {prims : String → List Value → M Value} {compile_eval : Value → EnvName → M Code}
    (engine : EngineOk prims compile_eval) where
  Safe-exec :
      {h : Heap} {k : Kind} {Γ : Shape} {d d' : ℕ} {i : Instr} (vm : Vm)
      → HeapOk h
      → Facts h vm k Γ d
      → InstrOk k Γ d i d'
      → CodeOk k Γ d' vm.code
      → Safe h NextOk (exec prims compile_eval vm i h)
  unfolding exec
  Safe-exec {h} {Γ = Γ} vm good f (ld_ok {i = i} {j = j} l) typed =
      Safe-gets h (λ h. h.frames) _
        (Safe-bind h (local (env_at i h.frames vm.env) j) _
          (Safe-local h Γ vm.env i j good f.fits l)
          (λ v h' good' g q. Safe-push vm v good' (Facts-Grows g f) typed))
  Safe-exec {h} {Γ = Γ} vm good f (lset_ok {i = i} {j = j} l pos) typed =
      Safe-bind h (top vm.stack) _ (Safe-top vm.stack good (omega (arith, f.size)))
        (λ p h' good' g q.
          let f' = Facts-Grows g f in
          Safe-gets h' (λ h. h.frames) _
            (Safe-bind h' (set_local (env_at i h'.frames vm.env) j p.0) _
              (Safe-set_local h' Γ vm.env i j p.0 good' f'.fits l)
              (λ u h₂ good₂ g₂ q₂. Safe-go vm good₂ (Facts-Grows g₂ f') typed)))
  Safe-exec vm good f (ldc_ok {v = v}) typed = Safe-push vm v good f typed
  Safe-exec {h} vm good f (ldg_ok {a = a}) typed = Safe-gets h (cell_at a) _ (
      Safe-bind h (bound (cell_at a h)) _ (Safe-bound h (cell_at a h) good)
        (λ v h' good' g q. Safe-push vm v good' (Facts-Grows g f) typed))
  Safe-exec {h} vm good f (def_ok {a = a} pos) typed =
      Safe-bind h (top vm.stack) _ (Safe-top vm.stack good (omega (arith, f.size)))
        (λ p h' good' g q. Safe-gets h' (cell_at a) _ (
          Safe-bind h' (write_cell a (record (cell_at a h') { value = some p.0 })) _
            (Safe-write_cell h' a _ good')
            (λ u h₂ good₂ g₂ q₂.
              Safe-go _ good₂
                (with_stack (symbol (cell_at a h').name ∷ p.1) (Facts-Grows g₂ (Facts-Grows g f))
                  (omega (arith, f.size, ap (λ (s : List Value). length s) q.0)))
                typed)))
  Safe-exec {h} vm good f (defm_ok {a = a} pos) typed =
      Safe-bind h (top vm.stack) _ (Safe-top vm.stack good (omega (arith, f.size)))
        (λ p h' good' g q. Safe-gets h' (cell_at a) _ (
          Safe-bind h' (macro_value p.0) _ (Safe-macro_value h' p.0 good') (λ m h₁ good₁ g₁ q₁.
            Safe-bind h₁
              (write_cell a (record (cell_at a h') { value = some m; transformer = some p.0 })) _
              (Safe-write_cell h₁ a _ good₁)
              (λ u h₂ good₂ g₂ q₂.
                Safe-go _ good₂
                  (with_stack (symbol (cell_at a h').name ∷ p.1)
                    (Facts-Grows g₂ (Facts-Grows g₁ (Facts-Grows g f)))
                    (omega (arith, f.size, ap (λ (s : List Value). length s) q.0)))
                  typed))))
  Safe-exec {h} vm good f (gset_ok {a = a} pos) typed =
      Safe-bind h (top vm.stack) _ (Safe-top vm.stack good (omega (arith, f.size)))
        (λ p h' good' g q. Safe-gets h' (cell_at a) _ (
          Safe-bind h' (write_cell a (record (cell_at a h') { value = some p.0 })) _
            (Safe-write_cell h' a _ good')
            (λ u h₂ good₂ g₂ q₂. Safe-go vm good₂ (Facts-Grows g₂ (Facts-Grows g f)) typed)))
  Safe-exec {h} {Γ = Γ} vm good f (ldf_ok {t = t} {b = true} body_typed) typed =
      Safe-bind h (write_object vm.scratch (closure t vm.env)) _
        (Safe-write_scratch h vm t Γ good f body_typed)
        (λ u h' good' g q. Safe-push vm (object vm.scratch) good' (Facts-Grows g f) typed)
  Safe-exec {h} {Γ = Γ} vm good f (ldf_ok {t = t} {b = false} body_typed) typed =
      Safe-bind h (alloc (closure t vm.env)) _
        (Safe-alloc h (closure t vm.env) good (Γ, f.fits, body_typed))
        (λ v h' good' g q. Safe-push vm v good' (Facts-Grows g f) typed)
  Safe-exec vm good f (app_ok lt) typed =
      Safe-call engine vm false vm.stack good f f.size lt typed (λ p. cc)
  Safe-exec vm good f (tapp_ok e lt) typed =
      Safe-call engine vm true vm.stack good f f.size lt typed (λ p. e)
  Safe-exec vm good f (args_ok pos le) typed = Safe-pack vm vm.stack good f f.size pos le typed
  Safe-exec vm good f (apply_ok le) typed =
      Safe-apply_list engine vm false vm.stack good f f.size le typed (λ p. cc)
  Safe-exec vm good f (tapply_ok e le) typed =
      Safe-apply_list engine vm true vm.stack good f f.size le typed (λ p. e)
  Safe-exec vm good f (sel_ok {t = t} {f = e} pos on off) typed =
      Safe-select vm t e vm.stack good f f.size pos on off typed
  Safe-exec {h} {d = d} vm good f (pop_ok pos) typed =
      Safe-bind h (top vm.stack) _ (Safe-top vm.stack good (omega (arith, f.size)))
        (λ p h' good' g q.
          Safe-go _ good'
            (with_stack p.1 (Facts-Grows g f)
              (omega (arith, f.size, ap (λ (s : List Value). length s) q.0)))
            typed)
  Safe-exec vm good f (callcc_ok pos) typed =
      Safe-call_cc engine vm false vm.stack good f f.size pos typed (λ p. cc)
  Safe-exec vm good f (tcallcc_ok e pos) typed =
      Safe-call_cc engine vm true vm.stack good f f.size pos typed (λ p. e)

  Safe-exec_last :
      {h : Heap} {k : Kind} {Γ : Shape} {d : ℕ} {i : Instr} (vm : Vm)
      → HeapOk h
      → Facts h vm k Γ d
      → LastOk k Γ d i
      → Safe h NextOk (exec prims compile_eval vm i h)
  unfolding exec
  Safe-exec_last vm good f (rtn_ok e pos) = Safe-return_value vm good f e f.callers
  Safe-exec_last vm good f (join_ok e) = Safe-end_branch vm good f e f.callers
  Safe-exec_last vm good f (stop_ok e) = Safe-pure _ good tt
  Safe-exec_last {h} {Γ = Γ} {d = d} vm good f (selr_ok {t = t} {f = e} p pos on off) =
      Safe-select_tail vm t e vm.stack good (subst (λ (k : Kind). Facts h vm k Γ d) p f) f.size pos
        on off

  -- The code that is left, with `vm` holding it.
  Safe-step_running :
      {h : Heap} {k : Kind} {Γ : Shape} {d : ℕ} {c : Code} (vm : Vm)
      → HeapOk h
      → Facts h vm k Γ d
      → CodeOk k Γ d c
      → Safe h NextOk (Step.step prims compile_eval vm c h)
  unfolding Step.step pure push
  Safe-step_running vm good f (step {i = i} {c = c} one rest) =
      Safe-exec (record vm { code = c }) good (same-Facts f) one rest
  Safe-step_running vm good f (last {c = c} one) =
      Safe-exec_last (record vm { code = c }) good (same-Facts f) one
  Safe-step_running {h} {d = d} vm good f (jump {c = c} a p pos e) = Safe-pure _ good (
      about_to_jump (record vm { code = c }) a vm.stack refl p e (omega (arith, f.size))
        (omega (arith, f.size)) (same-Facts f))

  -- The machine calls the continuation that the unwinding has pushed.
  Safe-step_jumping :
      {h : Heap} (vm : Vm) (a : Addr) (v : Value) (s : List Value)
      → HeapOk h
      → ScratchAt h.objects vm.scratch
      → IsContinuation h.objects a
      → vm.base ≤ length s + 1
      → Safe h NextOk (call prims compile_eval vm 1 false (object a ∷ (v ∷ s)) h)
  unfolding call do_call call_object ◌>>=◌ gets
  Safe-step_jumping {h} vm a v s good scratch (snap, at) room =
      rw (ge→ltb (suc (length s)) 1 (omega arith), at)
        (Safe-call_continuation h (record vm { stack = v ∷ s }) a snap _ good scratch at
          (omega arith))

  -- If the primitives and the compiler are safe, one step of a good machine on a good heap is safe,
  -- whatever its instruction is: the next machine and heap are good, an error that it raises leaves
  -- a good heap, and it is none of the machine's own internal errors.
  pub Safe-step :
      {h : Heap} (vm : Vm)
      → HeapOk h
      → MachineOk h vm
      → Safe h NextOk (Step.step prims compile_eval vm vm.code h)
  Safe-step vm good (running d scratch typed size fits callers) =
      Safe-step_running vm good
        (record { scratch = scratch; size = size; fits = fits; callers = callers }) typed
  Safe-step {h} vm good (jumping {a = a} {v = v} {s = s} scratch code stack at room) = rw code (
      unfold Step.step exec in
      rw stack (Safe-step_jumping (record vm { code = empty }) a v s good scratch at room))
