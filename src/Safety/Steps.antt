-- ===== src/Safety/Steps.antt =====
-- The parts of an instruction: what is known of the machine before it, pushing, popping and calling.
use secd_scheme.Prelude.{
  ℕ, suc, ◌+◌, ◌-◌, ◌≤◌, ◌<◌, ◌≡◌, refl, subst, inl, inr, Bool, true, Option, none, some, List, [],
  ◌∷◌, ◌++◌, length, Addr, arith, Bool-cases, String, reverse, length-append, length-reverse,
  ge→ltb,
}
use secd_scheme.Value.{EnvName, Value, Code, continuation, macro, Heap, Cell}
use secd_scheme.Effect.{M, pure, ◌>>=◌, gets, alloc}
use secd_scheme.Pairs.{list_to_vector}
use secd_scheme.Machine.{Vm, go, capture}
use secd_scheme.Step.{
  write_cell, bound, bound_value, push, top, is_closure, object_of, macro_value, call, apply_list,
  call_cc,
}
use secd_scheme.Typing.{Kind, body, Shape, CodeOk, EnvOk, DumpOk, resumable}
use secd_scheme.Safety.Growth.{ScratchAt, HeapOk, Grows, EnvOk-Grows, DumpOk-Grows, running}
use secd_scheme.Safety.Actions.{
  Safe, returns, Any, Safe-pure, Safe-throw, Safe-bind, Safe-gets, Safe-alloc, Safe-weaken,
  Safe-list_to_vector, same_HeapOk, same_Grows,
}
use secd_scheme.Safety.Calls.{EngineOk, NextOk, calling, Safe-do_call}

-- What is known of the machine with `d` operands, besides its code.
pub record Facts (h : Heap) (vm : Vm) (k : Kind) (Γ : Shape) (d : ℕ) : Type 0 where
  pub scratch : ScratchAt h.objects vm.scratch
  pub size : length vm.stack ≡ vm.base + d
  pub fits : EnvOk h.frames vm.env Γ
  pub callers : DumpOk h.objects h.frames k Γ vm.base vm.dump

pub Facts-Grows :
    {h h' : Heap} {vm : Vm} {k : Kind} {Γ : Shape} {d : ℕ}
    → Grows h h'
    → Facts h vm k Γ d
    → Facts h' vm k Γ d
Facts-Grows {vm = vm} {Γ = Γ} g f = record {
  scratch = g.scratches_stay vm.scratch f.scratch;
  size = f.size;
  fits = EnvOk-Grows g Γ vm.env f.fits;
  callers = DumpOk-Grows g f.callers;
}

pub with_stack :
    {h : Heap} {vm : Vm} {k : Kind} {Γ : Shape} {d d' : ℕ} (s : List Value)
    → Facts h vm k Γ d
    → length s ≡ vm.base + d'
    → Facts h (record vm { stack = s }) k Γ d'
with_stack s f e = record { scratch = f.scratch; size = e; fits = f.fits; callers = f.callers }

pub Safe-go :
    {h : Heap} {k : Kind} {Γ : Shape} {d : ℕ} (vm : Vm)
    → HeapOk h
    → Facts h vm k Γ d
    → CodeOk k Γ d vm.code
    → Safe h NextOk (pure (go vm) h)
Safe-go {d = d} vm good f typed =
    Safe-pure (go vm) good (running d f.scratch typed f.size f.fits f.callers)

pub Safe-push :
    {h : Heap} {k : Kind} {Γ : Shape} {d : ℕ} (vm : Vm) (v : Value)
    → HeapOk h
    → Facts h vm k Γ d
    → CodeOk k Γ (suc d) vm.code
    → Safe h NextOk (push vm v h)
unfolding push
Safe-push vm v good f typed =
    Safe-go (record vm { stack = v ∷ vm.stack }) good
      (with_stack (v ∷ vm.stack) f (omega (arith, f.size))) typed

-- The operand on top, where there is one.
pub Safe-top :
    {h : Heap} (s : List Value)
    → HeapOk h
    → 0 < length s
    → Safe h (λ p h'. (s ≡ p.0 ∷ p.1) × (h' ≡ h)) (top s h)
unfolding top
Safe-top [] good some_left = absurd (omega arith)
Safe-top (v ∷ s) good some_left = Safe-pure (v, s) good (refl, refl)

Safe-bound_value :
    (h : Heap) (name : String) (v : Option Value) → HeapOk h → Safe h Any (bound_value name v h)
Safe-bound_value h name none good = Safe-throw _ good
Safe-bound_value h name (some v) good = Safe-pure v good tt

pub Safe-bound : (h : Heap) (c : Cell) → HeapOk h → Safe h Any (bound c h)
unfolding bound
Safe-bound h c good = Safe-bound_value h c.name c.value good

pub Safe-write_cell : (h : Heap) (a : Addr) (c : Cell) → HeapOk h → Safe h Any (write_cell a c h)
Safe-write_cell h a c good = returns (same_HeapOk refl refl good) (same_Grows refl refl refl) tt

pub Safe-macro_value : (h : Heap) (v : Value) → HeapOk h → Safe h Any (macro_value v h)
unfolding macro_value ◌>>=◌ gets
Safe-macro_value h v good = elim (Bool-cases (is_closure (object_of v h))) [
  | inl yes_closure ↦ rw yes_closure (Safe-weaken (Safe-alloc h (macro v) good tt) (λ a h' q. tt))
  | inr other ↦ rw other (Safe-pure v good tt)
]

module _ {prims : String → List Value → M Value} {compile_eval : Value → EnvName → M Code}
    (engine : EngineOk prims compile_eval) where
  -- A call of what is on top of `n` arguments.
  pub Safe-call :
      {h : Heap} {k : Kind} {Γ : Shape} {d n : ℕ} (vm : Vm) (tail : Bool) (s : List Value)
      → HeapOk h
      → Facts h vm k Γ d
      → length s ≡ vm.base + d
      → n < d
      → CodeOk k Γ (d - n) vm.code
      → (tail ≡ true → k ≡ body)
      → Safe h NextOk (call prims compile_eval vm n tail s h)
  unfolding call
  Safe-call vm tail [] good f size lt typed t = absurd (omega arith)
  Safe-call {h} {k} {Γ} {d} {n} vm tail (callee ∷ s) good f size lt typed t =
      rw (ge→ltb (length s) n (omega arith)) (
        Safe-do_call engine h (record vm { stack = s }) n tail good
          (calling (d - n - 1) f.scratch
            (subst (λ (m : ℕ). CodeOk k Γ m vm.code) (omega arith) typed) (omega arith) f.fits
            f.callers t)
          callee)

  pub Safe-apply_list :
      {h : Heap} {k : Kind} {Γ : Shape} {d : ℕ} (vm : Vm) (tail : Bool) (s : List Value)
      → HeapOk h
      → Facts h vm k Γ d
      → length s ≡ vm.base + d
      → 2 ≤ d
      → CodeOk k Γ (d - 1) vm.code
      → (tail ≡ true → k ≡ body)
      → Safe h NextOk (apply_list prims compile_eval vm tail s h)
  unfolding apply_list
  Safe-apply_list vm tail [] good f size le typed t = absurd (omega arith)
  Safe-apply_list vm tail (callee ∷ []) good f size le typed t = absurd (omega arith)
  Safe-apply_list {h} {k} {Γ} {d} vm tail (callee ∷ (lst ∷ s)) good f size le typed t =
      Safe-bind h (list_to_vector lst "apply") _ (Safe-list_to_vector lst "apply" h good)
        (λ args h' good' g q.
          let f' = Facts-Grows g f in
          Safe-do_call engine h' (record vm { stack = reverse args ++ s }) (length args) tail good'
            (calling (d - 2) f'.scratch
              (subst (λ (m : ℕ). CodeOk k Γ m vm.code) (omega arith) typed)
              (omega (arith, length-append (reverse args) s, length-reverse args)) f'.fits
              f'.callers t)
            callee)

  pub Safe-call_cc :
      {h : Heap} {k : Kind} {Γ : Shape} {d : ℕ} (vm : Vm) (tail : Bool) (s : List Value)
      → HeapOk h
      → Facts h vm k Γ d
      → length s ≡ vm.base + d
      → 0 < d
      → CodeOk k Γ d vm.code
      → (tail ≡ true → k ≡ body)
      → Safe h NextOk (call_cc prims compile_eval vm tail s h)
  unfolding call_cc
  Safe-call_cc vm tail [] good f size le typed t = absurd (omega arith)
  Safe-call_cc {h} {k} {Γ} {d} vm tail (proc ∷ s) good f size le typed t =
      let typed' : CodeOk k Γ (suc (d - 1)) vm.code =
        subst (λ (m : ℕ). CodeOk k Γ m vm.code) (omega arith) typed in
      let snap = capture (record vm { stack = s }) h in
      Safe-gets h (capture (record vm { stack = s })) _ (
        Safe-bind h (alloc (continuation snap)) _
          (Safe-alloc h (continuation snap) good
            (unfold capture in resumable (d - 1) typed' (omega arith) f.fits f.callers))
          (λ kv h' good' g q.
            let f' = Facts-Grows g f in
            Safe-do_call engine h' (record vm { stack = kv ∷ s }) 1 tail good'
              (calling (d - 1) f'.scratch typed' (omega arith) f'.fits f'.callers t) proc))
