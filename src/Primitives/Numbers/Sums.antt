-- ===== src/Primitives/Numbers/Sums.antt =====
-- The fast path of the arithmetic does not show: wherever it breaks off, integers give what big
-- numbers give, and what is no number is refused.
use secd_scheme.Prelude.{
  ℕ, ◌≡◌, refl, Bool, true, false, ◌&&◌, List, [], ◌∷◌, ◌++◌, map, String, ℤ, pos, Bool-cases, inl,
  inr,
}
use secd_scheme.Value.{Value, integer, flonum, Message, SchemeError, Heap}
use secd_scheme.Effect.{ok, raise, pure, throw, ◌>>=◌}
use secd_scheme.Primitives.Numbers.{
  ◌+ℤ◌, ◌-ℤ◌, ◌*ℤ◌, fits_fixnum, num_of, any_inexact, fast, fold_big, slow, prim_add, prim_mul,
  sub_from, prim_sub,
}

-- What `op` makes of a number and the numbers after it, from the left.
abbrev pub fold_from : (ℤ → ℤ → ℤ) → ℤ → List ℤ → ℤ
fold_from op acc [] = acc
fold_from op acc (z ∷ zs) = fold_from op (op acc z) zs

fold_big-integers :
    (who : String) (op : ℤ → ℤ → ℤ) (acc : ℤ) (zs : List ℤ) (h : Heap)
    → fold_big who op acc (map integer zs) h ≡ ok (fold_from op acc zs) h
unfolding fold_big num_of pure ◌>>=◌
fold_big-integers who op acc [] h = refl
fold_big-integers who op acc (z ∷ zs) h = fold_big-integers who op (op acc z) zs h

any_inexact-integers :
    (who : String) (zs : List ℤ) (h : Heap) → any_inexact who (map integer zs) h ≡ ok false h
unfolding any_inexact pure
any_inexact-integers who [] h = refl
any_inexact-integers who (z ∷ zs) h = any_inexact-integers who zs h

module _ (double_of : ℤ → ℕ) (who : String) (op : ℤ → ℤ → ℤ) (opd : ℕ → ℕ → ℕ) where
  slow-integers :
      (acc : ℤ) (zs : List ℤ) (h : Heap)
      → slow double_of who op opd (acc, map integer zs) h ≡ ok (integer (fold_from op acc zs)) h
  unfolding slow pure ◌>>=◌
  slow-integers acc [] h = refl
  slow-integers acc (z ∷ zs) h =
      rw (any_inexact-integers who (z ∷ zs) h, fold_big-integers who op acc (z ∷ zs) h) refl

  fast-integers :
      (acc : ℤ) (zs : List ℤ) (h : Heap)
      → slow double_of who op opd (fast op acc (map integer zs)) h
        ≡ ok (integer (fold_from op acc zs)) h
  unfolding fast
  fast-integers acc [] h = slow-integers acc [] h
  fast-integers acc (z ∷ zs) h = elim (Bool-cases (fits_fixnum z && fits_fixnum (op acc z))) [
    | inl fits ↦ rw (fits, fast) (fast-integers (op acc z) zs h)
    | inr big ↦ rw (big, fast) (slow-integers acc (z ∷ zs) h)
  ]

-- On exact integers `+`, `*` and `-` return the exact sum, product and difference, whatever the sizes
-- are: the fast path for fixnums, which breaks off at the first argument or result that is no fixnum,
-- does not show.
pub arithmetic-integers :
    (double_of : ℤ → ℕ) (negate : ℕ → ℕ) (opd : ℕ → ℕ → ℕ) (zs : List ℤ) (x y : ℤ) (h : Heap)
    → (prim_add double_of opd (map integer zs) h ≡ ok (integer (fold_from ◌+ℤ◌ (pos 0) zs)) h)
      × (prim_mul double_of opd (map integer zs) h ≡ ok (integer (fold_from ◌*ℤ◌ (pos 1) zs)) h)
      × (prim_sub double_of negate opd (map integer (x ∷ (y ∷ zs))) h
          ≡ ok (integer (fold_from ◌-ℤ◌ x (y ∷ zs))) h)
unfolding prim_add prim_mul prim_sub
arithmetic-integers double_of negate opd zs x y h = (
  fast-integers double_of "+" ◌+ℤ◌ opd (pos 0) zs h,
  fast-integers double_of "*" ◌*ℤ◌ opd (pos 1) zs h,
  from_first (fits_fixnum x) refl,
)
  where
    from_first :
        (b : Bool)
        → fits_fixnum x ≡ b
        → sub_from double_of opd (integer x) (map integer (y ∷ zs)) h
          ≡ ok (integer (fold_from ◌-ℤ◌ x (y ∷ zs))) h
    from_first true e = rw (e, sub_from) (fast-integers double_of "-" ◌-ℤ◌ opd x (y ∷ zs) h)
    from_first false e = rw (e, sub_from) (slow-integers double_of "-" ◌-ℤ◌ opd x (y ∷ zs) h)

abbrev pub is_number : Value → Bool
is_number (integer z) = true
is_number (flonum d) = true
is_number _ = false

abbrev pub refusal : String → SchemeError
refusal who = record { message = Message.wrong_type who; catchable = true }

any_inexact-refuses :
    (who : String) (front : List Value) (v : Value) (back : List Value) (h : Heap)
    → is_number v ≡ false
    → any_inexact who (front ++ (v ∷ back)) h ≡ raise (refusal who) h
unfolding any_inexact pure throw ◌>>=◌
any_inexact-refuses who [] (integer z) back h e = cc
any_inexact-refuses who [] (flonum d) back h e = cc
any_inexact-refuses who [] _ back h e = refl
any_inexact-refuses who (integer z ∷ front) v back h e = any_inexact-refuses who front v back h e
any_inexact-refuses who (flonum d ∷ front) v back h e =
    rw (any_inexact-refuses who front v back h e) refl
any_inexact-refuses who (_ ∷ front) v back h e = refl

module _ (double_of : ℤ → ℕ) (who : String) (op : ℤ → ℤ → ℤ) (opd : ℕ → ℕ → ℕ) where
  slow-refuses :
      (acc : ℤ) (front : List Value) (v : Value) (back : List Value) (h : Heap)
      → is_number v ≡ false
      → slow double_of who op opd (acc, front ++ (v ∷ back)) h ≡ raise (refusal who) h
  unfolding slow ◌>>=◌
  slow-refuses acc [] v back h e = rw (any_inexact-refuses who [] v back h e) refl
  slow-refuses acc (x ∷ front) v back h e = rw (any_inexact-refuses who (x ∷ front) v back h e) refl

  fast-refuses :
      (acc : ℤ) (front : List Value) (v : Value) (back : List Value) (h : Heap)
      → is_number v ≡ false
      → slow double_of who op opd (fast op acc (front ++ (v ∷ back))) h ≡ raise (refusal who) h
  unfolding fast
  fast-refuses acc [] (integer z) back h e = cc
  fast-refuses acc [] (flonum d) back h e = cc
  fast-refuses acc [] v back h e = slow-refuses acc [] v back h e
  fast-refuses acc (integer z ∷ front) v back h e =
      elim (Bool-cases (fits_fixnum z && fits_fixnum (op acc z))) [
        | inl fits ↦ rw (fits, fast) (fast-refuses (op acc z) front v back h e)
        | inr big ↦ rw (big, fast) (slow-refuses acc (integer z ∷ front) v back h e)
      ]
  fast-refuses acc (x ∷ front) v back h e = slow-refuses acc (x ∷ front) v back h e

-- An argument of `+` or `*` that is no number, wherever it stands and whatever numbers are around it,
-- makes the call a type error of that operation, and the heap is not changed.
pub arithmetic-refuses :
    (double_of : ℤ → ℕ) (opd : ℕ → ℕ → ℕ) (front : List Value) (v : Value) (back : List Value)
    (h : Heap)
    → is_number v ≡ false
    → (prim_add double_of opd (front ++ (v ∷ back)) h ≡ raise (refusal "+") h)
      × (prim_mul double_of opd (front ++ (v ∷ back)) h ≡ raise (refusal "*") h)
unfolding prim_add prim_mul
arithmetic-refuses double_of opd front v back h e = (
  fast-refuses double_of "+" ◌+ℤ◌ opd (pos 0) front v back h e,
  fast-refuses double_of "*" ◌*ℤ◌ opd (pos 1) front v back h e,
)
