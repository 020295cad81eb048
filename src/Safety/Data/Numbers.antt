-- ===== src/Safety/Data/Numbers.antt =====
-- The primitives on numbers are safe.
use secd_scheme.Prelude.{ℕ, Bool, true, false, List, [], ◌∷◌, String, ℤ}
use secd_scheme.Value.{Value, integer, flonum}
use secd_scheme.Primitives.Numbers.{
  Cmp, num_of, any_inexact, fold_big, to_double, fold_double, slow, prim_add, prim_mul, sub_from,
  prim_sub, num_cmp, compare_chain, divide, is_zero, fold_div, prim_div, prim_quotient,
  prim_remainder, prim_modulo, quotℤ, modℤ, remℤ,
}
use secd_scheme.Safety.Sound.{Sound, sound_rules, Sound-pure, Sound-throw, Sound-if, Sound-bind}
use secd_scheme.Safety.Rules.{Sound-need_args}

pub Sound-num_of : (who : String) (v : Value) → Sound (num_of who v)
unfolding num_of
Sound-num_of who (integer z) = Sound-pure z
Sound-num_of who _ = Sound-throw _

Sound-any_inexact : (who : String) (vs : List Value) → Sound (any_inexact who vs)
unfolding any_inexact
Sound-any_inexact who [] = Sound-pure false
Sound-any_inexact who (integer z ∷ vs) = Sound-any_inexact who vs
Sound-any_inexact who (flonum d ∷ vs) =
    Sound-bind _ _ (Sound-any_inexact who vs) (λ _. Sound-pure true)
Sound-any_inexact who (_ ∷ vs) = Sound-throw _

Sound-fold_big :
    (who : String) (op : ℤ → ℤ → ℤ) (acc : ℤ) (vs : List Value) → Sound (fold_big who op acc vs)
unfolding fold_big
Sound-fold_big who op acc [] = Sound-pure acc
Sound-fold_big who op acc (v ∷ vs) =
    Sound-bind _ _ (Sound-num_of who v) (λ z. Sound-fold_big who op (op acc z) vs)

Sound-fold_div : (acc : ℤ) (vs : List Value) → Sound (fold_div acc vs)
unfolding fold_div
Sound-fold_div acc [] = Sound-pure acc
Sound-fold_div acc (v ∷ vs) =
    Sound-bind _ _ (Sound-num_of "/" v)
      (λ d. Sound-if (is_zero d) _ _ (Sound-throw _) (Sound-fold_div (quotℤ acc d) vs))

Sound-divide : (who : String) (op : ℤ → ℤ → ℤ) (args : List Value) → Sound (divide who op args)
unfolding divide
Sound-divide who op args = search (sound_rules, Sound-need_args, Sound-num_of) depth 12

pub Sound-quotient : (args : List Value) → Sound (prim_quotient args)
unfolding prim_quotient
Sound-quotient args = Sound-divide "quotient" quotℤ args

pub Sound-remainder : (args : List Value) → Sound (prim_remainder args)
unfolding prim_remainder
Sound-remainder args = Sound-divide "remainder" remℤ args

pub Sound-modulo : (args : List Value) → Sound (prim_modulo args)
unfolding prim_modulo
Sound-modulo args = Sound-divide "modulo" modℤ args

module _ (double_of : ℤ → ℕ) where
  Sound-to_double : (who : String) (v : Value) → Sound (to_double double_of who v)
  unfolding to_double
  Sound-to_double who (integer z) = Sound-pure _
  Sound-to_double who (flonum d) = Sound-pure d
  Sound-to_double who _ = Sound-throw _

  Sound-fold_double :
      (who : String) (op : ℕ → ℕ → ℕ) (acc : ℕ) (vs : List Value)
      → Sound (fold_double double_of who op acc vs)
  unfolding fold_double
  Sound-fold_double who op acc [] = Sound-pure acc
  Sound-fold_double who op acc (v ∷ vs) =
      Sound-bind _ _ (Sound-to_double who v) (λ d. Sound-fold_double who op (op acc d) vs)

  Sound-slow :
      (who : String) (op : ℤ → ℤ → ℤ) (opd : ℕ → ℕ → ℕ) (rest : ℤ × List Value)
      → Sound (slow double_of who op opd rest)
  unfolding slow
  Sound-slow who op opd (acc, []) = Sound-pure _
  Sound-slow who op opd (acc, v ∷ vs) =
      search (sound_rules, Sound-any_inexact, Sound-fold_double, Sound-fold_big) depth 12

  pub Sound-add : (opd : ℕ → ℕ → ℕ) (args : List Value) → Sound (prim_add double_of opd args)
  unfolding prim_add
  Sound-add opd args = Sound-slow _ _ _ _

  pub Sound-mul : (opd : ℕ → ℕ → ℕ) (args : List Value) → Sound (prim_mul double_of opd args)
  unfolding prim_mul
  Sound-mul opd args = Sound-slow _ _ _ _

  Sound-sub_from :
      (opd : ℕ → ℕ → ℕ) (v : Value) (vs : List Value) → Sound (sub_from double_of opd v vs)
  unfolding sub_from
  Sound-sub_from opd (integer z) vs = search (Sound-if, Sound-slow) depth 6
  Sound-sub_from opd (flonum d) vs =
      search (sound_rules, Sound-any_inexact, Sound-fold_double) depth 12
  Sound-sub_from opd _ vs = Sound-throw _

  pub Sound-sub :
      (negate : ℕ → ℕ) (opd : ℕ → ℕ → ℕ) (args : List Value)
      → Sound (prim_sub double_of negate opd args)
  unfolding prim_sub
  Sound-sub negate opd [] = Sound-bind _ _ (Sound-need_args "-" 0 1 0) (λ _. Sound-pure _)
  Sound-sub negate opd (integer z ∷ []) = Sound-pure _
  Sound-sub negate opd (flonum d ∷ []) = Sound-pure _
  Sound-sub negate opd (_ ∷ []) = Sound-throw _
  Sound-sub negate opd (v ∷ (w ∷ vs)) = Sound-sub_from opd v (w ∷ vs)

  pub Sound-div : (opd : ℕ → ℕ → ℕ) (args : List Value) → Sound (prim_div double_of opd args)
  unfolding prim_div
  Sound-div opd [] = Sound-throw _
  Sound-div opd (v ∷ []) = Sound-throw _
  Sound-div opd (v ∷ (w ∷ vs)) =
      search
        (
          sound_rules, Sound-any_inexact, Sound-fold_double, Sound-to_double, Sound-num_of,
          Sound-fold_div,
        )
        depth 12

  module _ (cmp : ℕ → ℕ → Cmp) where
    Sound-num_cmp : (who : String) (x y : Value) → Sound (num_cmp double_of cmp who x y)
    unfolding num_cmp
    Sound-num_cmp who (integer a) (integer b) = Sound-pure _
    Sound-num_cmp who (flonum a) y = Sound-bind _ _ (Sound-to_double who y) (λ b. Sound-pure _)
    Sound-num_cmp who (integer a) (flonum b) =
        Sound-bind _ _ (Sound-to_double who (integer a)) (λ c. Sound-pure _)
    Sound-num_cmp who x (flonum b) = Sound-bind _ _ (Sound-to_double who x) (λ a. Sound-pure _)
    Sound-num_cmp who _ _ = Sound-throw _

    pub Sound-compare_chain :
        (who : String) (test : Cmp → Bool) (args : List Value)
        → Sound (compare_chain double_of cmp who test args)
    unfolding compare_chain
    Sound-compare_chain who test [] = Sound-pure _
    Sound-compare_chain who test (x ∷ []) = Sound-pure _
    Sound-compare_chain who test (x ∷ (y ∷ vs)) =
        Sound-bind _ _ (Sound-num_cmp who x y)
          (λ c. Sound-if (test c) _ _ (Sound-compare_chain who test (y ∷ vs)) (Sound-pure _))
