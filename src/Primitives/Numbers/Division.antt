-- ===== src/Primitives/Numbers/Division.antt =====
-- Division of integers.
use native.Mathlib.Nat.{div-add-mod', mod-lt}
use secd_scheme.Prelude.{
  ℕ, zero, suc, ◌+◌, ◌*◌, ◌<◌, ◌≡◌, ◌≢◌, ◌⊎◌, inl, inr, refl, if◌then◌else◌, [], ◌∷◌, String, Bool,
  true, false, ℤ, pos, negsuc, pos_part, neg_part, arith,
}
use secd_scheme.Value.{integer, Heap}
use secd_scheme.Effect.{ok, pure, throw, ◌>>=◌}
use secd_scheme.Syntax.{in_range}
use secd_scheme.Primitives.{need_args, arg}
use secd_scheme.Primitives.Numbers.{
  ◌+ℤ◌, ◌*ℤ◌, quotℤ, remℤ, modℤ, num_of, is_zero, divide, prim_quotient, prim_remainder,
  prim_modulo,
}

quot_rem : (x y : ℤ) → (quotℤ x y *ℤ y) +ℤ remℤ x y ≡ x
quot_rem (pos a) (pos b) = ground (arith, div-add-mod' a b)
quot_rem (pos a) (negsuc b) = ground (arith, div-add-mod' a (suc b))
quot_rem (negsuc a) (pos b) = ground (arith, div-add-mod' (suc a) b)
quot_rem (negsuc a) (negsuc b) = ground (arith, div-add-mod' (suc a) (suc b))

abbrev pub size_of : ℤ → ℕ
size_of z = pos_part z + neg_part z

-- Two numbers that are not of different signs.
abbrev pub Agrees : ℤ → ℤ → Type 0
Agrees a b = (pos_part a * neg_part b ≡ 0) × (neg_part a * pos_part b ≡ 0)

rem_bound : (x y : ℤ) → y ≢ pos 0 → size_of (remℤ x y) < size_of y
rem_bound x (pos zero) n = absurd (n refl)
rem_bound (pos a) (pos (suc b)) n = ground (arith, mod-lt a {m = suc b})
rem_bound (pos a) (negsuc b) n = ground (arith, mod-lt a {m = suc b})
rem_bound (negsuc a) (pos (suc b)) n = ground (arith, mod-lt (suc a) {m = suc b})
rem_bound (negsuc a) (negsuc b) n = ground (arith, mod-lt (suc a) {m = suc b})

rem_sign : (x y : ℤ) → Agrees x (remℤ x y)
rem_sign (pos a) (pos b) = (ground arith, ground arith)
rem_sign (pos a) (negsuc b) = (ground arith, ground arith)
rem_sign (negsuc a) (pos b) = (ground arith, ground arith)
rem_sign (negsuc a) (negsuc b) = (ground arith, ground arith)

mod_bound : (x y : ℤ) → y ≢ pos 0 → size_of (modℤ x y) < size_of y
unfolding modℤ
mod_bound x (pos zero) n = absurd (n refl)
mod_bound (pos a) (pos (suc b)) n = ground (arith, mod-lt a {m = suc b})
mod_bound (pos a) (negsuc b) n = ground (arith, mod-lt a {m = suc b})
mod_bound (negsuc a) (pos (suc b)) n = ground (arith, mod-lt (suc a) {m = suc b})
mod_bound (negsuc a) (negsuc b) n = ground (arith, mod-lt (suc a) {m = suc b})

mod_sign : (x y : ℤ) → y ≢ pos 0 → Agrees y (modℤ x y)
unfolding modℤ
mod_sign x (pos zero) n = absurd (n refl)
mod_sign (pos a) (pos (suc b)) n = (ground arith, ground arith)
mod_sign (pos a) (negsuc b) n =
    (ground (arith, mod-lt a {m = suc b}), ground (arith, mod-lt a {m = suc b}))
mod_sign (negsuc a) (pos (suc b)) n =
    (ground (arith, mod-lt (suc a) {m = suc b}), ground (arith, mod-lt (suc a) {m = suc b}))
mod_sign (negsuc a) (negsuc b) n = (ground arith, ground arith)

mod_rem : (x y : ℤ) → (modℤ x y ≡ remℤ x y) ⊎ (modℤ x y ≡ remℤ x y +ℤ y)
unfolding modℤ
mod_rem x y = moved _ (remℤ x y) (remℤ x y +ℤ y)
  where
    moved : (b : Bool) (r s : ℤ) → ((if b then s else r) ≡ r) ⊎ ((if b then s else r) ≡ s)
    moved true r s = inr refl
    moved false r s = inl refl

divides :
    (who : String) (op : ℤ → ℤ → ℤ) (x y : ℤ) (h : Heap)
    → y ≢ pos 0
    → divide who op (integer x ∷ (integer y ∷ [])) h ≡ ok (integer (op x y)) h
unfolding divide need_args arg num_of is_zero pure throw ◌>>=◌ in_range
divides who op x (pos zero) h n = absurd (n refl)
divides who op x (pos (suc b)) h n = refl
divides who op x (negsuc b) h n = refl

-- On integers, with a divisor that is not zero, `quotient` and `remainder` return numbers that multiply
-- and add up to the dividend; the remainder is smaller than the divisor and never of the dividend's
-- other sign. `modulo` returns that remainder or the remainder and the divisor added; it is smaller
-- than the divisor too, and never of the divisor's other sign. The heap is not changed.
pub division :
    (x y : ℤ) (h : Heap)
    → y ≢ pos 0
    → (q : ℤ) × (r : ℤ) × (m : ℤ) × (prim_quotient (integer x ∷ (integer y ∷ [])) h
        ≡ ok (integer q) h)
      × (prim_remainder (integer x ∷ (integer y ∷ [])) h ≡ ok (integer r) h)
      × (prim_modulo (integer x ∷ (integer y ∷ [])) h ≡ ok (integer m) h)
      × ((q *ℤ y) +ℤ r ≡ x)
      × (size_of r < size_of y)
      × Agrees x r
      × ((m ≡ r) ⊎ (m ≡ r +ℤ y))
      × (size_of m < size_of y)
      × Agrees y m
unfolding prim_quotient prim_remainder prim_modulo
division x y h n = (
  quotℤ x y,
  remℤ x y,
  modℤ x y,
  divides "quotient" quotℤ x y h n,
  divides "remainder" remℤ x y h n,
  divides "modulo" modℤ x y h n,
  quot_rem x y,
  rem_bound x y n,
  rem_sign x y,
  mod_rem x y,
  mod_bound x y n,
  mod_sign x y n,
)
