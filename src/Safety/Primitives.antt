-- ===== src/Safety/Primitives.antt =====
-- The primitives leave the closures, the continuations and the frames of the heap as they are: they
-- satisfy what the machine asks of them.
use secd_scheme.Prelude.{
  ℕ, zero, suc, ◌≡◌, refl, Bool, Option, none, some, List, [], ◌∷◌, length, fetch, String,
}
use secd_scheme.Value.{Value, nil, object, Object, pair, Heap, Message}
use secd_scheme.Effect.{M, pure, throw, gets, ◌>>=◌}
use secd_scheme.Pairs.{pair_of, as_pair?}
use secd_scheme.Syntax.{look}
use secd_scheme.Run.{throw_final}
use secd_scheme.Primitives.{
  arg, parts, prim_cons, prim_car, prim_cdr, write_pair, prim_set_car, prim_set_cdr, cxr, prim_cxr,
  prim_list, proper_list, prim_length, prim_listp, collect, append_onto, prim_append, prim_eq,
  memq_loop, prim_memq, has_key, assq_loop, prim_assq,
}
use secd_scheme.Primitives.Control.{
  prim_values, values?, prim_values_to_list, prim_wind_push, prim_wind_pop, prim_wind_top_after,
  prim_raise_error, prim_current_exception_handler, prim_set_exception_handler, error_of,
  prim_error_objectp, prim_abort_exception,
}
use secd_scheme.Primitives.Table.{control_primitives, search_primitives, primitives}
use secd_scheme.Safety.Growth.{HeapOk, Grows-refl}
use secd_scheme.Safety.Actions.{Safe, raises, Any, Safe-pure, Safe-throw, Safe-bind, Safe-weaken}
use secd_scheme.Safety.Sound.{
  Sound, sound_rules, Sound-pure, Sound-throw, Sound-fuel, Sound-gets, Sound-if, Sound-bind,
  Sound-list_from, Sound-make_pair,
}
use secd_scheme.Safety.Expanding.{Sound-look}
use secd_scheme.Safety.Programs.{PrimsOk}
use secd_scheme.Primitives.Table.Data.{Library}
use secd_scheme.Safety.Writes.{Safe-write_object}
use secd_scheme.Safety.Rules.{
  Sound-need_args, Sound-alloc, Sound-list_onto, Sound-option, Sound-set, if_primitive,
}
use secd_scheme.Safety.Data.Table.{Sound-numbers}

pair_at : (o : Option Object) (q : Value × Value) → as_pair? o ≡ some q → o ≡ some (pair q.0 q.1)
pair_at none q e = cc
pair_at (some (pair a d)) (x, y) e = cc
pair_at (some _) q e = cc

Safe-write_pair :
    (h : Heap) (v : Value) (q : Value × Value) (x d : Value)
    → HeapOk h
    → pair_of h.objects v ≡ some q
    → Safe h Any (write_pair v x d h)
unfolding write_pair pair_of
Safe-write_pair h (object a) q x d good e =
    let there = pair_at (fetch a h.objects) q e in
    Safe-write_object h a (pair q.0 q.1) (pair x d) good there tt tt
Safe-write_pair h _ q x d good e = Safe-pure tt good tt

Safe-parts :
    (h : Heap) (who : String) (v : Value)
    → HeapOk h
    → Safe h (λ q h'. pair_of h'.objects v ≡ some q) (parts who v h)
unfolding parts look gets ◌>>=◌
Safe-parts h who v good = found (pair_of h.objects v) refl
  where
    found :
        (p : Option (Value × Value))
        → pair_of h.objects v ≡ p
        → Safe h
            (λ q h'. pair_of h'.objects v ≡ some q)
            ((elim p as (λ x. M (Value × Value)) [
              | none ↦ throw (Message.wrong_type who)
              | some q ↦ pure q
            ])
              h)
    found none e = Safe-throw _ good
    found (some q) e = Safe-pure q good e

Sound-parts : (who : String) (v : Value) → Sound (parts who v)
Sound-parts who v = record { at = λ h good. Safe-weaken (Safe-parts h who v good) (λ q h' e. tt) }

-- A pair is looked at, written and a value returned.
Sound-rewrite :
    (who : String) (v result : Value) (x d : Value × Value → Value)
    → Sound (parts who v >>= λ p. write_pair v (x p) (d p) >>= λ _. pure result)
Sound-rewrite who v result x d = record {
  at = λ h good. Safe-bind h (parts who v) _ (Safe-parts h who v good) (λ q h' good' g e.
      Safe-bind h' (write_pair v (x q) (d q)) _ (Safe-write_pair h' v q (x q) (d q) good' e)
        (λ _ h'' good'' g' t. Safe-pure result good'' tt));
}

Sound-cxr : (who : String) (path : List Bool) (v : Value) → Sound (cxr who path v)
unfolding cxr
Sound-cxr who [] v = Sound-pure v
Sound-cxr who (is_car ∷ path) v =
    Sound-bind _ _ (Sound-cxr who path v)
      (λ inner. Sound-bind _ _ (Sound-parts who inner) (λ p. Sound-pure _))

Sound-proper_list : (v : Value) → Sound (proper_list v)
unfolding proper_list
Sound-proper_list v = Sound-gets _

Sound-collect : (fuel : ℕ) (ls : Value) → Sound (collect fuel ls)
unfolding collect
Sound-collect zero ls = Sound-fuel
Sound-collect (suc fuel) nil = Sound-pure []
Sound-collect (suc fuel) ls = Sound-bind _ _ (Sound-look ls) (elim [
  | none ↦ Sound-throw _
  | some (a, d) ↦ Sound-bind _ _ (Sound-collect fuel d) (λ rest. Sound-pure _)
])

Sound-append_onto : (fuel : ℕ) (ls : Value) (more : List Value) → Sound (append_onto fuel ls more)
unfolding append_onto
Sound-append_onto fuel ls [] = Sound-pure ls
Sound-append_onto fuel ls (next ∷ more) =
    Sound-bind _ _ (Sound-collect fuel ls)
      (λ xs. Sound-bind _ _ (Sound-append_onto fuel next more) (λ tail. Sound-list_onto xs tail))

Sound-memq_loop : (fuel : ℕ) (x ls : Value) → Sound (memq_loop fuel x ls)
unfolding memq_loop
Sound-memq_loop zero x ls = Sound-fuel
Sound-memq_loop (suc fuel) x nil = Sound-pure _
Sound-memq_loop (suc fuel) x ls = Sound-bind _ _ (Sound-look ls) (elim [
  | none ↦ Sound-throw _
  | some (a, d) ↦ Sound-if _ _ _ (Sound-pure _) (Sound-memq_loop fuel x d)
])

Sound-assq_loop : (fuel : ℕ) (x ls : Value) → Sound (assq_loop fuel x ls)
unfolding assq_loop
Sound-assq_loop zero x ls = Sound-fuel
Sound-assq_loop (suc fuel) x nil = Sound-pure _
Sound-assq_loop (suc fuel) x ls = Sound-bind _ _ (Sound-look ls) (elim [
  | none ↦ Sound-throw _
  | some (e, d) ↦
      Sound-bind _ _ (Sound-look e)
        (λ q. Sound-if (has_key x q) _ _ (Sound-pure _) (Sound-assq_loop fuel x d))
])

ruleset prim_rules = (
  sound_rules, Sound-look, Sound-parts, Sound-need_args, Sound-cxr, Sound-proper_list,
  Sound-append_onto, Sound-memq_loop, Sound-assq_loop,
)

Sound-cons : (args : List Value) → Sound (prim_cons args)
unfolding prim_cons
Sound-cons args = search prim_rules depth 12

Sound-prim_car : (args : List Value) → Sound (prim_car args)
unfolding prim_car
Sound-prim_car args = search prim_rules depth 12

Sound-prim_cdr : (args : List Value) → Sound (prim_cdr args)
unfolding prim_cdr
Sound-prim_cdr args = search prim_rules depth 12

Sound-set_car : (args : List Value) → Sound (prim_set_car args)
unfolding prim_set_car
Sound-set_car args =
    Sound-bind _ _ (Sound-need_args "set-car!" (length args) 2 2)
      (λ _. Sound-rewrite "set-car!" _ _ (λ p. arg 1 args) (λ p. p.1))

Sound-set_cdr : (args : List Value) → Sound (prim_set_cdr args)
unfolding prim_set_cdr
Sound-set_cdr args =
    Sound-bind _ _ (Sound-need_args "set-cdr!" (length args) 2 2)
      (λ _. Sound-rewrite "set-cdr!" _ _ (λ p. p.0) (λ p. arg 1 args))

Sound-prim_cxr :
    (who : String) (path : List Bool) (args : List Value) → Sound (prim_cxr who path args)
unfolding prim_cxr
Sound-prim_cxr who path args = search prim_rules depth 12

Sound-prim_list : (args : List Value) → Sound (prim_list args)
unfolding prim_list
Sound-prim_list args = Sound-list_from args

Sound-length : (args : List Value) → Sound (prim_length args)
unfolding prim_length
Sound-length args = Sound-bind _ _ (Sound-need_args "length" (length args) 1 1) (λ _.
    Sound-bind _ _ (Sound-proper_list _) (elim [ none ↦ Sound-throw _ | some ys ↦ Sound-pure _ ]))

Sound-listp : (args : List Value) → Sound (prim_listp args)
unfolding prim_listp
Sound-listp args = search prim_rules depth 12

Sound-append : (args : List Value) → Sound (prim_append args)
unfolding prim_append
Sound-append [] = Sound-pure nil
Sound-append (ls ∷ more) = search prim_rules depth 12

Sound-eq : (args : List Value) → Sound (prim_eq args)
unfolding prim_eq
Sound-eq (x ∷ (y ∷ [])) = Sound-pure _
Sound-eq _ = Sound-pure _

Sound-memq : (args : List Value) → Sound (prim_memq args)
unfolding prim_memq
Sound-memq args = search prim_rules depth 12

Sound-assq : (args : List Value) → Sound (prim_assq args)
unfolding prim_assq
Sound-assq args = search prim_rules depth 12

Sound-values : (args : List Value) → Sound (prim_values args)
unfolding prim_values
Sound-values (v ∷ []) = Sound-pure v
Sound-values [] = Sound-alloc _ (λ os fs. tt)
Sound-values (v ∷ (w ∷ vs)) = Sound-alloc _ (λ os fs. tt)

Sound-values_to_list : (args : List Value) → Sound (prim_values_to_list args)
unfolding prim_values_to_list
Sound-values_to_list args = Sound-bind _ _ (Sound-need_args "%values->list" (length args) 1 1) (λ _.
    Sound-bind _ _ (Sound-gets _)
      (λ o. Sound-option (values? o) _ _ (Sound-make_pair _ _) (λ vs. Sound-list_from vs)))

Sound-wind_push : (args : List Value) → Sound (prim_wind_push args)
unfolding prim_wind_push
Sound-wind_push args =
    Sound-bind _ _ (Sound-need_args "%wind-push" (length args) 2 2)
      (λ _. Sound-set _ (λ h. (_, nil, refl, refl, refl, refl)))

Sound-wind_pop : (args : List Value) → Sound (prim_wind_pop args)
unfolding prim_wind_pop
Sound-wind_pop args =
    Sound-bind _ _ (Sound-need_args "%wind-pop" (length args) 0 0)
      (λ _. Sound-set _ (λ h. (_, nil, refl, refl, refl, refl)))

Sound-wind_top_after : (args : List Value) → Sound (prim_wind_top_after args)
unfolding prim_wind_top_after
Sound-wind_top_after args = search prim_rules depth 12

Sound-raise_error : (args : List Value) → Sound (prim_raise_error args)
unfolding prim_raise_error
Sound-raise_error args = search prim_rules depth 12

Sound-current_handler : (args : List Value) → Sound (prim_current_exception_handler args)
unfolding prim_current_exception_handler
Sound-current_handler args = search prim_rules depth 12

Sound-set_handler : (args : List Value) → Sound (prim_set_exception_handler args)
unfolding prim_set_exception_handler
Sound-set_handler args =
    Sound-bind _ _ (Sound-need_args "%set-exception-handler!" (length args) 1 1)
      (λ _. Sound-set _ (λ h. (_, nil, refl, refl, refl, refl)))

Sound-error_objectp : (args : List Value) → Sound (prim_error_objectp args)
unfolding prim_error_objectp
Sound-error_objectp args = Sound-bind _ _ (Sound-need_args "error-object?" (length args) 1 1) (λ _.
    Sound-bind _ _ (Sound-gets _)
      (λ o. Sound-option (error_of o) _ _ (Sound-pure _) (λ m. Sound-pure _)))

Sound-final : (m : Message) → Sound (throw_final {A = Value} m)
unfolding throw_final
Sound-final m = record { at = λ h good. raises good (Grows-refl h) }

Sound-abort : (args : List Value) → Sound (prim_abort_exception args)
unfolding prim_abort_exception
Sound-abort args = Sound-bind _ _ (Sound-need_args "%abort-exception" (length args) 1 1) (λ _.
    Sound-bind _ _ (Sound-gets _)
      (λ o. Sound-option (error_of o) _ _ (Sound-final _) (λ m. Sound-final _)))

module _ (lib : Library) (fuel : ℕ) (others : String → List Value → M Value)
    (others_ok : PrimsOk others) where
  Sound-control :
      (name : String) (args : List Value) → Sound (control_primitives lib fuel others name args)
  unfolding control_primitives
  Sound-control name args =
      search
        (
          if_primitive,
          Sound-values,
          Sound-values_to_list,
          Sound-wind_push,
          Sound-wind_pop,
          Sound-wind_top_after,
          Sound-raise_error,
          Sound-current_handler,
          Sound-set_handler,
          Sound-error_objectp,
          Sound-abort,
          Sound-numbers lib fuel others others_ok,
        )
        depth 32

  Sound-search :
      (name : String) (args : List Value) → Sound (search_primitives lib fuel others name args)
  unfolding search_primitives
  Sound-search name args =
      search
        (
          if_primitive, Sound-length, Sound-append, Sound-listp, Sound-memq, Sound-assq, Sound-eq,
          Sound-control,
        )
        depth 32

  pub primitives-PrimsOk : PrimsOk (primitives lib fuel others)
  unfolding primitives
  primitives-PrimsOk name args =
      search
        (
          if_primitive, Sound-cons, Sound-prim_car, Sound-prim_cdr, Sound-set_car, Sound-set_cdr,
          Sound-prim_cxr, Sound-prim_list, Sound-search,
        )
        depth 32

  -- If the primitives that the table leaves to its parameter are safe, all are: on every good heap a
  -- primitive, whatever its arguments are, returns or raises an error on a good heap, or exits, or runs
  -- out of fuel, or ends by an internal error that is none of the machine's checks. The table holds the
  -- primitives on pairs, lists, numbers, strings, vectors, winds, handlers and multiple values,
  -- `equal?` and `eval`, with those that write to a pair, a string or a vector.
  pub Safe-primitives :
      (name : String) (args : List Value) (h : Heap)
      → HeapOk h
      → Safe h Any (primitives lib fuel others name args h)
  Safe-primitives name args = (primitives-PrimsOk name args).at
