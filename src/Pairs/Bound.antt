-- ===== src/Pairs/Bound.antt =====
-- A proper list has at most as many pairs as the heap has objects.
use secd_scheme.Prelude.{
  ℕ, zero, suc, ◌+◌, ◌≤◌, ◌<◌, ◌≡◌, sym, ap, ◌∙◌, List, [], ◌∷◌, length, ltb, ltb→lt, ltb→ge,
  Bool-cases, inl, inr, arith,
}
use secd_scheme.Value.{Value, object, Object}
use secd_scheme.Pairs.Termination.{twice, reach, address, IsPair, IsPair-object}
use secd_scheme.Pairs.Chains.{Segment, Chain, same_length}

-- What is left of a chain after some steps.
reach-Chain :
    (os : List Object) (k : ℕ) (v : Value) (xs : List Value)
    → Chain os v xs
    → k ≤ length xs
    → (ys : List Value) × Chain os (reach os k v) ys × (k + length ys ≡ length xs)
unfolding reach
reach-Chain os zero v xs c le = (xs, c, omega arith)
reach-Chain os (suc k) v [] c le = absurd (omega (arith, le))
reach-Chain os (suc k) v (x ∷ xs) (Segment.link e c) le =
    let (ys, rest, l) = reach-Chain os k _ xs c (omega (arith, le)) in
    (ys, rw e rest, omega (arith, l))

reach-IsPair :
    (os : List Object) (k : ℕ) (v : Value) (xs : List Value)
    → Chain os v xs
    → k < length xs
    → IsPair os (reach os k v)
reach-IsPair os k v xs c lt = begins (reach-Chain os k v xs c (omega (arith, lt)))
  where
    begins :
        (ys : List Value) × Chain os (reach os k v) ys × (k + length ys ≡ length xs)
        → IsPair os (reach os k v)
    begins ([], c', l) = absurd (omega (arith, l, lt))
    begins (y ∷ ys, Segment.link e c', l) = (_, e)

pub length-Chain :
    (os : List Object) (v : Value) (xs : List Value) → Chain os v xs → length xs ≤ length os
length-Chain os v xs c = elim (Bool-cases (ltb (length os) (length xs))) [
  | inr few ↦ ltb→ge (length os) (length xs) few
  | inl many ↦
      let more = ltb→lt (length os) (length xs) many in
      let (i, j, lt, le, same) =
        twice (length os) (λ k. address (reach os k v))
          (λ k le.
            (IsPair-object os (reach os k v)
              (reach-IsPair os k v xs c (omega (arith, le, more)))).1) in
      let at_i =
        (IsPair-object os (reach os i v)
          (reach-IsPair os i v xs c (omega (arith, lt, le, more)))).0 in
      let at_j =
        (IsPair-object os (reach os j v) (reach-IsPair os j v xs c (omega (arith, le, more)))).0 in
      let (ys, ci, li) = reach-Chain os i v xs c (omega (arith, lt, le, more)) in
      let (zs, cj, lj) = reach-Chain os j v xs c (omega (arith, le, more)) in
      let equal = same_length (at_i ∙ ap object same ∙ sym at_j) ci cj in
      absurd (omega (arith, equal, li, lj, lt))
]
