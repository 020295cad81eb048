-- ===== src/Safety/Gives.antt =====
-- Actions that are safe on every good heap and whose value satisfies a predicate: the compiler's
-- functions, with what they promise of the code they return.
use secd_scheme.Prelude.{
  ℕ, ◌≡◌, refl, Bool, true, false, Option, none, some, List, String, if◌then◌else◌, length,
  Bool-cases, inl, inr,
}
use secd_scheme.Value.{Value, Heap}
use secd_scheme.Effect.{M, ◌>>=◌, ◌>>◌, pure, out_of_fuel}
use secd_scheme.Pairs.{Walk, list_to_vector, walk_from}
use secd_scheme.Syntax.{in_range, check_count, check_arity, syntax_error, form_arity, walk_length}
use secd_scheme.Safety.Growth.{HeapOk}
use secd_scheme.Safety.Actions.{
  Safe, runs_out, Safe-pure, Safe-throw, Safe-bind, Safe-gets, Safe-weaken,
}
use secd_scheme.Safety.Sound.{Sound}

-- Wherever it is run, the action is safe, and a value that it returns satisfies `Q`.
pub record Gives {ℓ} {A : Type ℓ} (Q : A → Type 0) (m : M A) : Type ℓ where
  pub at : (h : Heap) → HeapOk h → Safe h (λ a h'. Q a) (m h)

module _ {ℓ} {A : Type ℓ} {Q : A → Type 0} where
  pub Gives-pure : (a : A) → Q a → Gives Q (pure a)
  Gives-pure a q = record { at = λ h good. Safe-pure a good q }

  pub Gives-syntax_error : (form : String) → Gives Q (syntax_error form)
  unfolding syntax_error
  Gives-syntax_error form = record { at = λ h good. Safe-throw _ good }

  pub Gives-fuel : Gives Q (λ h. out_of_fuel)
  Gives-fuel = record { at = λ h good. runs_out }

  pub Gives-if : (b : Bool) {m n : M A} → Gives Q m → Gives Q n → Gives Q (if b then m else n)
  Gives-if true gm gn = gm
  Gives-if false gm gn = gn

  pub Gives-weaken : {R : A → Type 0} {m : M A} → Gives R m → ((a : A) → R a → Q a) → Gives Q m
  Gives-weaken g f = record { at = λ h good. Safe-weaken (g.at h good) (λ a h' r. f a r) }

module _ {ℓ κ} {A : Type ℓ} {B : Type κ} {P : A → Type 0} {Q : B → Type 0} where
  pub Gives-bind :
      {m : M A} {f : A → M B} → Gives P m → ((a : A) → P a → Gives Q (f a)) → Gives Q (m >>= f)
  Gives-bind {m} {f} gm gf = record {
    at = λ h good. Safe-bind h m f (gm.at h good) (λ a h' good' g q. (gf a q).at h' good');
  }

module _ {ℓ κ} {A : Type ℓ} {B : Type κ} {Q : B → Type 0} where
  pub Gives-after :
      {m : M A} {f : A → M B} → Sound m → ((a : A) → Gives Q (f a)) → Gives Q (m >>= f)
  Gives-after {m} {f} sm gf = record {
    at = λ h good. Safe-bind h m f (sm.at h good) (λ a h' good' g q. (gf a).at h' good');
  }

-- The arity that a check has passed is the length of the list that is read next.
Safe-check_count :
    (form : String) (min max : ℕ) (n : Option ℕ) (h : Heap)
    → HeapOk h
    → Safe h
        (λ _ h'. (h' ≡ h) × ((k : ℕ) × (n ≡ some k) × (in_range min max k ≡ true)))
        (check_count form min max n h)
unfolding check_count syntax_error
Safe-check_count form min max none h good = Safe-throw _ good
Safe-check_count form min max (some k) h good = elim (Bool-cases (in_range min max k)) [
  | inl inside ↦ rw inside (Safe-pure tt good (refl, (k, refl, inside)))
  | inr outside ↦ rw outside (Safe-throw _ good)
]

Safe-arity :
    (form who : String) (ls : Value) (min max : ℕ) (h : Heap)
    → HeapOk h
    → Safe h
        (λ _ h'.
          (xs : List Value) × (walk_from h'.objects ls ≡ Walk.proper xs)
          × (in_range min max (length xs) ≡ true))
        (check_arity form ls min max h)
unfolding check_arity form_arity
Safe-arity form who ls min max h good = Safe-gets h _ _ (
    Safe-weaken (Safe-check_count form min max (walk_length (walk_from h.objects ls)) h good)
      (λ _ h' (same, (k, e, inside)).
        let (xs, w, l) = of_length (walk_from h.objects ls) k e in (xs, rw same w, rw l inside)))
  where
    of_length :
        (w : Walk) (k : ℕ)
        → walk_length w ≡ some k
        → (xs : List Value) × (w ≡ Walk.proper xs) × (length xs ≡ k)
    of_length (Walk.proper xs) k e = (xs, refl, cc)
    of_length Walk.improper k e = cc
    of_length Walk.circular k e = cc
    of_length Walk.endless k e = cc

module _ {ℓ} {B : Type ℓ} {Q : B → Type 0} where
  -- A checked list, read next, has a length that passed the check.
  pub Gives-checked :
      (form who : String) (ls : Value) (min max : ℕ) (f : List Value → M B)
      → ((xs : List Value) → in_range min max (length xs) ≡ true → Gives Q (f xs))
      → Gives Q (check_arity form ls min max >> (list_to_vector ls who >>= f))
  unfolding list_to_vector
  Gives-checked form who ls min max f gf = record {
    at = λ h good.
        Safe-bind h (check_arity form ls min max) (λ _. list_to_vector ls who >>= f)
          (Safe-arity form who ls min max h good)
          (λ _ h' good' g (xs, w, inside).
            Safe-bind {Q = λ ys _. in_range min max (length ys) ≡ true} h' (list_to_vector ls who) f
              (rw w (Safe-pure xs good' inside)) (λ ys h'' good'' g' q. (gf ys q).at h'' good''));
  }
