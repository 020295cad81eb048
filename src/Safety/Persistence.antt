-- ===== src/Safety/Persistence.antt =====
-- What a whole evaluation leaves as it was: the continuations that the heap holds, and the table of
-- globals that the compiler uses.
use secd_scheme.Prelude.{
  ℕ, ◌≡◌, Bool, true, Option, none, some, List, ◌∷◌, String, length, fetch-alloc_self, subst,
}
use secd_scheme.Value.{Value, object, continuation, Heap}
use secd_scheme.Effect.{Result, ok, raise, M}
use secd_scheme.Machine.{Vm, go, winds_match, capture}
use secd_scheme.Step.{do_call, call_cc}
use secd_scheme.Step.Continuations.{do_call-call_cc}
use secd_scheme.Program.{eval_at, eval_forms}
use secd_scheme.Safety.Growth.{HeapOk, Grows}
use secd_scheme.Safety.Actions.{Safe, returns, raises, faults, exits, runs_out}
use secd_scheme.Safety.Programs.{PrimsOk, Safe-eval_forms}

-- The heap that an action ends in, whether it returns or raises an error.
abbrev pub heap_after {ℓ} : {A : Type ℓ} → Result A → Option Heap
heap_after (ok a h) = some h
heap_after (raise e h) = some h
heap_after _ = none

the_heap : {x y : Heap} → ◌≡◌ {A = Option Heap} (some x) (some y) → x ≡ y
the_heap p = cc

Grows-Safe {ℓ} :
    {A : Type ℓ} {Q : A → Heap → Type 0} {h h' : Heap} {r : Result A}
    → Safe h Q r
    → heap_after r ≡ some h'
    → Grows h h'
Grows-Safe {h = h} (returns good g q) e = subst (λ (x : Heap). Grows h x) (the_heap e) g
Grows-Safe {h = h} (raises good g) e = subst (λ (x : Heap). Grows h x) (the_heap e) g
Grows-Safe (faults x) e = cc
Grows-Safe exits e = cc
Grows-Safe runs_out e = cc

module _ (prims : String → List Value → M Value) (prims_ok : PrimsOk prims) where
  -- If every primitive is safe: `call/cc` over the operands `s` makes a continuation and calls its
  -- procedure with it. If the heap with the continuation is good, then whatever expressions are
  -- evaluated on it, to their end or up to an error, and if the nesting of `dynamic-wind` is then the
  -- one of that moment, a call of the continuation with the value `v`, by any machine, brings back the
  -- operands, the dump, the environment, the code and the floor of that moment, with `v` on the
  -- operands, and does not change the heap.
  pub eval_forms-call_cc :
      (fuel : ℕ) (exprs : List Value) (vm : Vm) (tail : Bool) (proc : Value) (s : List Value)
      (h h' : Heap) (vm' : Vm) (tail' : Bool) (v : Value) (s' : List Value)
      → HeapOk
          (record h { objects = continuation (capture (record vm { stack = s }) h) ∷ h.objects })
      → heap_after (
          eval_forms prims fuel exprs
            (record h { objects = continuation (capture (record vm { stack = s }) h) ∷ h.objects }))
        ≡ some h'
      → winds_match h'.winds h.winds ≡ true
      → (call_cc prims (eval_at prims fuel) vm tail (proc ∷ s) h
          ≡ do_call prims
              (eval_at prims fuel)
              (record vm { stack = object (length h.objects) ∷ s })
              proc
              1
              tail
              (record h {
                objects = continuation (capture (record vm { stack = s }) h) ∷ h.objects;
              }))
        × (do_call prims
              (eval_at prims fuel)
              (record vm' { stack = v ∷ s' })
              (object (length h.objects))
              1
              tail'
              h'
            ≡ ok
                (go (record vm' {
                  stack = v ∷ s;
                  dump = vm.dump;
                  env = vm.env;
                  code = vm.code;
                  base = vm.base;
                }))
                h')
  eval_forms-call_cc fuel exprs vm tail proc s h h' vm' tail' v s' good ends same =
      let k = continuation (capture (record vm { stack = s }) h) in
      let g =
        Grows-Safe
          (Safe-eval_forms prims prims_ok fuel exprs (record h { objects = k ∷ h.objects }) good)
          ends in
      do_call-call_cc prims (eval_at prims fuel) vm tail proc s h vm' tail' v s' h'
        (g.continuations_stay (length h.objects) _ (fetch-alloc_self k h.objects)) same

  -- If every primitive is safe: however the evaluation of any expressions on a good heap ends, with a
  -- result or with an error, the compiler's table is the one that it was before.
  pub eval_forms-compile_table :
      (fuel : ℕ) (exprs : List Value) (h h' : Heap)
      → HeapOk h
      → heap_after (eval_forms prims fuel exprs h) ≡ some h'
      → h'.compile_table ≡ h.compile_table
  eval_forms-compile_table fuel exprs h h' good ends =
      (Grows-Safe (Safe-eval_forms prims prims_ok fuel exprs h good) ends).table_stays
