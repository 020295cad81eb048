-- ===== src/Machine/Returning.antt =====
-- What a procedure call does to its caller's state.
use secd_scheme.Prelude.{
  ℕ, ◌-◌, ◌≡◌, refl, sym, ap, ◌∙◌, false, List, [], ◌∷◌, ◌++◌, length, drop, resize, length-append,
  arith,
}
use secd_scheme.Value.{Value, Env, Code, Heap}
use secd_scheme.Effect.{ok, pure}
use secd_scheme.Machine.{Vm, go, enter, first_argument}
use secd_scheme.Step.{return_value}

drop-append : (xs ys : List Value) (n : ℕ) → n ≡ length xs → drop n (xs ++ ys) ≡ ys
drop-append [] ys n e = rw e refl
drop-append (x ∷ xs) ys n e = rw e (drop-append xs ys (length xs) refl)

resize-append : (xs ys : List Value) (n : ℕ) → n ≡ length ys → resize n (xs ++ ys) ≡ ys
unfolding resize
resize-append xs ys n e = drop-append xs ys _ (omega (arith, length-append xs ys, e))

-- A call takes its `n` arguments from the stack, and when its body ends with the value `v` on top, over
-- whatever else it left there, the caller goes on after the call with its code, its environment, its
-- floor and its dump as they were, and with `v` in the arguments' place.
pub return-enter :
    (vm : Vm) (c c' : Code) (env env' : Env) (args s left : List Value) (v : Value) (h : Heap)
    → vm.stack ≡ args ++ s
    → return_value
        (record (enter vm c env (length vm.stack - length args) false) {
          stack = v ∷ (left ++ resize (length vm.stack - length args) vm.stack);
          code = c';
          env = env';
        })
        (enter vm c env (length vm.stack - length args) false).dump
        h
      ≡ ok (go (record vm { stack = v ∷ s })) h
unfolding return_value enter first_argument pure
return-enter vm c c' env env' args s left v h e =
    let k = length vm.stack - length args in
    let size : k ≡ length s = omega (arith, ap length e, length-append args s) in
    let below : resize k vm.stack ≡ s = ap (resize k) e ∙ resize-append args s k size in
    let all : resize k (v ∷ (left ++ resize k vm.stack)) ≡ s =
      resize-append (v ∷ left) (resize k vm.stack) k (size ∙ ap length (sym below)) ∙ below in
    ap (λ (t : List Value). ok (go (record vm { stack = v ∷ t })) h) all
