-- ===== src/Step/Continuations.antt =====
-- What a continuation keeps, and what its call brings back.
use secd_scheme.Prelude.{◌≡◌, refl, Bool, true, some, List, ◌∷◌, String, length, fetch}
use secd_scheme.Value.{EnvName, Value, object, Code, continuation, Heap}
use secd_scheme.Effect.{ok, M, alloc, gets, pure, ◌>>=◌}
use secd_scheme.Machine.{Vm, go, winds_match, first_argument, capture}
use secd_scheme.Step.{call_continuation, call_object, do_call, call_cc}

module _ (prims : String → List Value → M Value) (compile_eval : Value → EnvName → M Code) where
  -- `call/cc` over the operands `s` makes a continuation at a new address and calls its procedure with
  -- it. Where a later heap still holds that continuation, and the nesting of `dynamic-wind` is the
  -- one of that moment, a call of it with the value `v`, by any machine, brings back the operands, the
  -- dump, the environment, the code and the floor of that moment, with `v` on the operands, and does
  -- not change the heap, so it can be called again.
  pub do_call-call_cc :
      (vm : Vm) (tail : Bool) (proc : Value) (s : List Value) (h : Heap) (vm' : Vm) (tail' : Bool)
      (v : Value) (s' : List Value) (h' : Heap)
      → fetch (length h.objects) h'.objects
        ≡ some (continuation (capture (record vm { stack = s }) h))
      → winds_match h'.winds h.winds ≡ true
      → (call_cc prims compile_eval vm tail (proc ∷ s) h
          ≡ do_call prims compile_eval
              (record vm { stack = object (length h.objects) ∷ s })
              proc
              1
              tail
              (record h {
                objects = continuation (capture (record vm { stack = s }) h) ∷ h.objects;
              }))
        × (do_call prims compile_eval
              (record vm' { stack = v ∷ s' })
              (object (length h.objects))
              1
              tail'
              h'
            ≡ ok
                (go (record vm' {
                  stack = v ∷ s;
                  dump = vm.dump;
                  env = vm.env;
                  code = vm.code;
                  base = vm.base;
                }))
                h')
  unfolding call_cc do_call call_object call_continuation capture first_argument alloc gets pure
      ◌>>=◌
  do_call-call_cc vm tail proc s h vm' tail' v s' h' there same = (refl, rw (there, same) refl)
