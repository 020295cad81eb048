-- ===== src/Primitives/Numbers.antt =====
-- scheme14/scheme14.cpp, section 11: the arithmetic of exact integers, with its fast path for fixnums,
-- and where it turns to doubles. The operations on doubles are parameters.
pub mod Sums
pub mod Division
use secd_scheme.Prelude.{
  ℕ, zero, suc, ◌+◌, ◌-◌, ◌*◌, ◌/◌, ◌%◌, ◌^◌, ◌==◌, ltb, Bool, true, false, ◌&&◌, ◌||◌, List, [],
  ◌∷◌, length, if◌then◌else◌, String, ℤ, pos, negsuc, pos_part, neg_part, sub_ℕ,
}
use secd_scheme.Value.{Value, boolean, integer, flonum, Message}
use secd_scheme.Effect.{M, pure, throw, ◌>>=◌, ◌>>◌}
use secd_scheme.Primitives.{need_args, type_error, arg}

infixl 60 ◌+ℤ◌ ◌-ℤ◌
infixl 70 ◌*ℤ◌
abbrev pub ◌+ℤ◌ : ℤ → ℤ → ℤ
a +ℤ b = sub_ℕ (pos_part a + pos_part b) (neg_part a + neg_part b)

abbrev pub ◌-ℤ◌ : ℤ → ℤ → ℤ
a -ℤ b = sub_ℕ (pos_part a + neg_part b) (neg_part a + pos_part b)

abbrev pub ◌*ℤ◌ : ℤ → ℤ → ℤ
a *ℤ b =
    sub_ℕ (pos_part a * pos_part b + neg_part a * neg_part b)
      (pos_part a * neg_part b + neg_part a * pos_part b)

-- FIXNUM_MIN is -2^62 and FIXNUM_MAX is 2^62 - 1.
unfoldable pub fits_fixnum : ℤ → Bool
fits_fixnum (pos n) = ltb n (2 ^ 62)
fits_fixnum (negsuc n) = ltb n (2 ^ 62)

-- num_of
unfoldable pub num_of : String → Value → M ℤ
num_of who (integer z) = pure z
num_of who _ = type_error who

-- any_inexact, which refuses what is no number
unfoldable pub any_inexact : String → List Value → M Bool
any_inexact who [] = pure false
any_inexact who (integer z ∷ vs) = any_inexact who vs
any_inexact who (flonum d ∷ vs) = any_inexact who vs >> pure true
any_inexact who (v ∷ vs) = type_error who

-- The fast path: as long as the arguments and the results are fixnums. A result that overflows a
-- machine word is no fixnum.
unfoldable pub fast : (ℤ → ℤ → ℤ) → ℤ → List Value → ℤ × List Value
unfolding fits_fixnum
fast op acc [] = (acc, [])
fast op acc (integer z ∷ vs) =
    let rest = fast op (op acc z) vs in
    if fits_fixnum z && fits_fixnum (op acc z) then rest else (acc, integer z ∷ vs)
fast op acc (v ∷ vs) = (acc, v ∷ vs)

-- The slow path over big numbers.
unfoldable pub fold_big : String → (ℤ → ℤ → ℤ) → ℤ → List Value → M ℤ
unfolding num_of
fold_big who op acc [] = pure acc
fold_big who op acc (v ∷ vs) = do z ← num_of who v; fold_big who op (op acc z) vs

module _ (double_of : ℤ → ℕ) where
  -- to_double
  unfoldable pub to_double : String → Value → M ℕ
  to_double who (integer z) = pure (double_of z)
  to_double who (flonum d) = pure d
  to_double who _ = type_error who

  unfoldable pub fold_double : String → (ℕ → ℕ → ℕ) → ℕ → List Value → M ℕ
  unfolding to_double
  fold_double who op acc [] = pure acc
  fold_double who op acc (v ∷ vs) = do d ← to_double who v; fold_double who op (op acc d) vs

  -- What is left of the arguments behind the fast path.
  unfoldable pub slow : String → (ℤ → ℤ → ℤ) → (ℕ → ℕ → ℕ) → ℤ × List Value → M Value
  unfolding any_inexact fold_big fold_double
  slow who op opd (acc, []) = pure (integer acc)
  slow who op opd (acc, v ∷ vs) = do
    inexact ← any_inexact who (v ∷ vs)
    if inexact
        then (do d ← fold_double who opd (double_of acc) (v ∷ vs); pure (flonum d))
        else (do z ← fold_big who op acc (v ∷ vs); pure (integer z))

  unfoldable pub prim_add : (ℕ → ℕ → ℕ) → List Value → M Value
  unfolding fast slow
  prim_add opd args = slow "+" ◌+ℤ◌ opd (fast ◌+ℤ◌ (pos 0) args)

  unfoldable pub prim_mul : (ℕ → ℕ → ℕ) → List Value → M Value
  unfolding fast slow
  prim_mul opd args = slow "*" ◌*ℤ◌ opd (fast ◌*ℤ◌ (pos 1) args)

  -- The first argument of `-`, which decides by itself between the fast path and the others.
  unfoldable pub sub_from : (ℕ → ℕ → ℕ) → Value → List Value → M Value
  unfolding fast slow any_inexact fold_double fold_big fits_fixnum
  sub_from opd (integer z) vs =
      if fits_fixnum z then slow "-" ◌-ℤ◌ opd (fast ◌-ℤ◌ z vs) else slow "-" ◌-ℤ◌ opd (z, vs)
  sub_from opd (flonum d) vs = do any_inexact "-" vs; e ← fold_double "-" opd d vs; pure (flonum e)
  sub_from opd v vs = type_error "-"

  unfoldable pub prim_sub : (ℕ → ℕ) → (ℕ → ℕ → ℕ) → List Value → M Value
  unfolding need_args sub_from
  prim_sub negate opd [] = do need_args "-" 0 1 0; pure (integer (pos 0))
  prim_sub negate opd (integer z ∷ []) = pure (integer (pos 0 -ℤ z))
  prim_sub negate opd (flonum d ∷ []) = pure (flonum (negate d))
  prim_sub negate opd (v ∷ []) = type_error "-"
  prim_sub negate opd (v ∷ (w ∷ vs)) = sub_from opd v (w ∷ vs)

-- The result of a comparison; two doubles may be unordered.
pub data Cmp : Type 0 where
  less equal greater unordered : Cmp

unfoldable pub cmp_int : ℤ → ℤ → Cmp
cmp_int a b =
    let m = pos_part a + neg_part b in
    let n = pos_part b + neg_part a in
    if ltb m n then Cmp.less else if ltb n m then Cmp.greater else Cmp.equal

module _ (double_of : ℤ → ℕ) (cmp_double : ℕ → ℕ → Cmp) where
  unfoldable pub num_cmp : String → Value → Value → M Cmp
  unfolding cmp_int to_double
  num_cmp who (integer a) (integer b) = pure (cmp_int a b)
  num_cmp who (flonum a) y = do b ← to_double double_of who y; pure (cmp_double a b)
  num_cmp who x (flonum b) = do a ← to_double double_of who x; pure (cmp_double a b)
  num_cmp who x y = type_error who

  -- DEFINE_NUM_CMP: each argument against the next, up to the first pair that fails.
  unfoldable pub compare_chain : String → (Cmp → Bool) → List Value → M Value
  unfolding num_cmp
  compare_chain who test [] = pure (boolean true)
  compare_chain who test (x ∷ []) = pure (boolean true)
  compare_chain who test (x ∷ (y ∷ vs)) = do
    c ← num_cmp who x y
    if test c then compare_chain who test (y ∷ vs) else pure (boolean false)

-- BigInt's `/`: towards zero
abbrev pub quotℤ : ℤ → ℤ → ℤ
quotℤ (pos a) (pos b) = pos (a / b)
quotℤ (pos a) (negsuc b) = sub_ℕ 0 (a / suc b)
quotℤ (negsuc a) (pos b) = sub_ℕ 0 (suc a / b)
quotℤ (negsuc a) (negsuc b) = pos (suc a / suc b)

-- BigInt's `%`, with the sign of the dividend
abbrev pub remℤ : ℤ → ℤ → ℤ
remℤ (pos a) (pos b) = pos (a % b)
remℤ (pos a) (negsuc b) = pos (a % suc b)
remℤ (negsuc a) (pos b) = sub_ℕ 0 (suc a % b)
remℤ (negsuc a) (negsuc b) = sub_ℕ 0 (suc a % suc b)

unfoldable pub is_zero : ℤ → Bool
is_zero (pos zero) = true
is_zero _ = false

unfoldable pub is_below_zero : ℤ → Bool
is_below_zero (pos n) = false
is_below_zero (negsuc n) = true

-- The shape of `quotient`, `remainder` and `modulo`.
unfoldable pub divide : String → (ℤ → ℤ → ℤ) → List Value → M Value
unfolding need_args arg num_of is_zero
divide who op args = do
  need_args who (length args) 2 2
  x ← num_of who (arg 0 args)
  y ← num_of who (arg 1 args)
  if is_zero y then throw (Message.domain who) else pure (integer (op x y))

-- The loop of `/` over exact integers.
unfoldable pub fold_div : ℤ → List Value → M ℤ
unfolding num_of is_zero
fold_div acc [] = pure acc
fold_div acc (v ∷ vs) = do
  d ← num_of "/" v
  if is_zero d then throw (Message.domain "/") else fold_div (quotℤ acc d) vs

unfoldable pub prim_div : (ℤ → ℕ) → (ℕ → ℕ → ℕ) → List Value → M Value
unfolding any_inexact to_double fold_double num_of fold_div
prim_div double_of opd [] = throw (Message.domain "/")
prim_div double_of opd (v ∷ []) = throw (Message.domain "/")
prim_div double_of opd (v ∷ (w ∷ vs)) = do
  inexact ← any_inexact "/" (v ∷ (w ∷ vs))
  if inexact
      then (do
        d ← to_double double_of "/" v
        e ← fold_double double_of "/" opd d (w ∷ vs)
        pure (flonum e))
      else (do acc ← num_of "/" v; z ← fold_div acc (w ∷ vs); pure (integer z))

unfoldable pub prim_quotient : List Value → M Value
unfolding divide
prim_quotient args = divide "quotient" quotℤ args

unfoldable pub prim_remainder : List Value → M Value
unfolding divide
prim_remainder args = divide "remainder" remℤ args

-- The remainder, moved to the sign of the divisor.
unfoldable pub modℤ : ℤ → ℤ → ℤ
unfolding is_below_zero is_zero
modℤ x y =
    let r = remℤ x y in
    if (is_below_zero r && not_below y) || (not_below r && not_zero r && is_below_zero y)
    then r +ℤ y
    else r
  where
    not_below : ℤ → Bool
    not_below z = if is_below_zero z then false else true

    not_zero : ℤ → Bool
    not_zero z = if is_zero z then false else true

unfoldable pub prim_modulo : List Value → M Value
unfolding divide modℤ
prim_modulo args = divide "modulo" modℤ args
