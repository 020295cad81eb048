-- ===== src/Primitives/Nesting.antt =====
-- The record of the nesting of `dynamic-wind`.
use secd_scheme.Prelude.{ℕ, ◌+◌, ◌≡◌, refl, ap, List, [], ◌∷◌, ◌++◌, length, String, arith, ge→ltb}
use secd_scheme.Syntax.{in_range}
use secd_scheme.Value.{Value, nil, WindEntry, Heap}
use secd_scheme.Effect.{ok, pure, gets, ◌>>=◌}
use secd_scheme.Primitives.{need_args, arg}
use secd_scheme.Primitives.Control.{
  drop_last, last_after, prim_wind_push, prim_wind_pop, prim_wind_top_after,
}

drop_last-append : {A : Type 0} (xs : List A) (x : A) → drop_last (xs ++ x ∷ []) ≡ xs
unfolding drop_last
drop_last-append [] x = refl
drop_last-append (y ∷ []) x = refl
drop_last-append (y ∷ (z ∷ xs)) x = ap (λ ys. y ∷ ys) (drop_last-append (z ∷ xs) x)

last_after-append : (ws : List WindEntry) (w : WindEntry) → last_after (ws ++ w ∷ []) ≡ w.after
unfolding last_after
last_after-append [] w = refl
last_after-append (v ∷ []) w = refl
last_after-append (v ∷ (x ∷ ws)) w = last_after-append (x ∷ ws) w

-- A bound of zero is no bound.
need_none : (who : String) (n : ℕ) → need_args who n 0 0 ≡ pure tt
unfolding need_args in_range
need_none who n = rw (ge→ltb n 0 (omega arith)) refl

-- Entering and leaving: after a push, the innermost `after` is the one that was pushed, and a pop, with
-- any number of arguments, takes the nesting back to what it was; only the count of ids goes on.
pub wind_pop-wind_push :
    (before after : Value) (args : List Value) (h : Heap)
    → (h' : Heap) × (prim_wind_push (before ∷ (after ∷ [])) h ≡ ok nil h')
      × (prim_wind_top_after [] h' ≡ ok after h')
      × (prim_wind_pop args h' ≡ ok nil (record h { wind_next = h.wind_next + 1 }))
unfolding prim_wind_push prim_wind_pop prim_wind_top_after need_args arg ◌>>=◌ pure gets
wind_pop-wind_push before after args h =
    let w : WindEntry = record { before = before; after = after; id = h.wind_next } in
    let h' : Heap = record h { winds = h.winds ++ w ∷ []; wind_next = h.wind_next + 1 } in
    (
      h',
      refl,
      ap (λ (v : Value). ok v h') (last_after-append h.winds w),
      rw (need_none "%wind-pop" (length args)) (
          ap
            (λ (ws : List WindEntry). ok nil (record h { winds = ws; wind_next = h.wind_next + 1 }))
            (drop_last-append h.winds w)),
    )
