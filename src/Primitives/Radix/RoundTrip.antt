-- ===== src/Primitives/Radix/RoundTrip.antt =====
-- What is written in a radix is read back in it.
use mathlib.Core.List.{reverse-cons}
use native.Mathlib.Nat.{div-add-mod', mod-lt, div-lt_iff_lt-mul}
use secd_scheme.Prelude.{
  ℕ, zero, suc, ◌+◌, ◌*◌, ◌/◌, ◌%◌, ◌≤◌, ◌<◌, ◌==◌, ltb, lt→ltb, ltb→ge, ltb→lt, ◌≡◌, refl, sym, ap,
  ◌∙◌, true, false, none, some, [], ◌∷◌, ◌++◌, reverse, if◌then◌else◌, ℤ, pos, negsuc, Char, Text,
  chars, digit_char, digits, Bool-cases, Option-cases, inl, inr, arith,
}
use secd_scheme.Printer.{int_text}
use secd_scheme.Reader.Number.{is_sign}
use secd_scheme.Primitives.Radix.{
  radix_digit, radix_loop, radix_text, exact_int_to_radix, from_digits, signed,
  exact_int_from_radix,
}

radix_digit-digit_char : (d : ℕ) → d < 16 → radix_digit (digit_char d) ≡ some d
unfolding radix_digit
radix_digit-digit_char zero lt = refl
radix_digit-digit_char (suc zero) lt = refl
radix_digit-digit_char (suc (suc zero)) lt = refl
radix_digit-digit_char (suc (suc (suc zero))) lt = refl
radix_digit-digit_char (suc (suc (suc (suc zero)))) lt = refl
radix_digit-digit_char (suc (suc (suc (suc (suc zero))))) lt = refl
radix_digit-digit_char (suc (suc (suc (suc (suc (suc zero)))))) lt = refl
radix_digit-digit_char (suc (suc (suc (suc (suc (suc (suc zero))))))) lt = refl
radix_digit-digit_char (suc (suc (suc (suc (suc (suc (suc (suc d)))))))) lt =
    upper d (omega (arith, lt))
  where
    upper :
        (d : ℕ)
        → d < 8
        → radix_digit (digit_char (suc (suc (suc (suc (suc (suc (suc (suc d)))))))))
          ≡ some (suc (suc (suc (suc (suc (suc (suc (suc d))))))))
    upper zero lt = refl
    upper (suc zero) lt = refl
    upper (suc (suc zero)) lt = refl
    upper (suc (suc (suc zero))) lt = refl
    upper (suc (suc (suc (suc zero)))) lt = refl
    upper (suc (suc (suc (suc (suc zero))))) lt = refl
    upper (suc (suc (suc (suc (suc (suc zero)))))) lt = refl
    upper (suc (suc (suc (suc (suc (suc (suc zero))))))) lt = refl
    upper (suc (suc (suc (suc (suc (suc (suc (suc d)))))))) lt = absurd (omega (arith, lt))

from_digits-cons :
    (radix m d : ℕ) (c : Char) (s : Text)
    → radix_digit c ≡ some d
    → d < radix
    → from_digits radix m (c ∷ s) ≡ from_digits radix (m * radix + d) s
unfolding from_digits
from_digits-cons radix m d c s e lt = rw (e, lt→ltb d radix lt, from_digits) refl

from_digits-some :
    (radix m n : ℕ) (c : Char) (s : Text)
    → from_digits radix m (c ∷ s) ≡ some n
    → (d : ℕ) × (radix_digit c ≡ some d)
      × (d < radix)
      × (from_digits radix (m * radix + d) s ≡ some n)
unfolding from_digits
from_digits-some radix m n c s e = elim (Option-cases (radix_digit c)) [
  | inl p ↦ let bad : none ≡ some n = rw (p, from_digits) at e in cc
  | inr (d, p) ↦ elim (Bool-cases (ltb d radix)) [
    | inl lt ↦ (d, p, ltb→lt d radix lt, rw (p, lt, from_digits) at e)
    | inr ge ↦ let bad : none ≡ some n = rw (p, ge, from_digits) at e in cc
  ]
]

from_digits-nil : (radix m : ℕ) → from_digits radix m [] ≡ some m
unfolding from_digits
from_digits-nil radix m = refl

some_is : (m n : ℕ) → some m ≡ some n → m ≡ n
some_is m n e = cc

-- One more digit at the end.
from_digits-snoc :
    (radix m n d : ℕ) (s : Text)
    → d < radix
    → d < 16
    → from_digits radix m s ≡ some n
    → from_digits radix m (s ++ (digit_char d ∷ [])) ≡ some (n * radix + d)
from_digits-snoc radix m n d [] lt small e =
    let same : m ≡ n = some_is m n (sym (from_digits-nil radix m) ∙ e) in
    from_digits-cons radix m d (digit_char d) [] (radix_digit-digit_char d small) lt
    ∙ from_digits-nil radix (m * radix + d)
    ∙ ap (λ k. some (k * radix + d)) same
from_digits-snoc radix m n d (c ∷ s) lt small e =
    let (k, p, below, rest) = from_digits-some radix m n c s e in
    from_digits-cons radix m k c (s ++ (digit_char d ∷ [])) p below
    ∙ from_digits-snoc radix (m * radix + k) n d s lt small rest

smaller : (radix n : ℕ) → 1 < radix → suc n / radix ≤ n
smaller zero n lo = absurd (omega (arith, lo))
smaller (suc zero) n lo = absurd (omega (arith, lo))
smaller (suc (suc k)) n lo =
    let grown : suc n < suc n * suc (suc k) = grind arith in
    let halved : suc n / suc (suc k) < suc n =
      (div-lt_iff_lt-mul {k = suc (suc k)} {x = suc n} {y = suc n} (omega arith)).1 grown in
    omega (arith, halved)

nonzero : (n : ℕ) → (suc n == 0) ≡ false
nonzero n = ground arith

radix_loop-suc :
    (fuel radix n : ℕ)
    → radix_loop (suc fuel) radix (suc n)
      ≡ digit_char (suc n % radix) ∷ radix_loop fuel radix (suc n / radix)
unfolding radix_loop
radix_loop-suc fuel radix n = rw (nonzero n) refl

-- The digits that are written are read as the number.
radix_loop-Reads :
    (fuel radix n : ℕ)
    → 1 < radix
    → radix ≤ 16
    → n ≤ fuel
    → from_digits radix 0 (reverse (radix_loop fuel radix n)) ≡ some n
unfolding radix_loop
radix_loop-Reads zero radix zero lo hi le = from_digits-nil radix 0
radix_loop-Reads zero radix (suc n) lo hi le = absurd (omega (arith, le))
radix_loop-Reads (suc fuel) radix zero lo hi le = from_digits-nil radix 0
radix_loop-Reads (suc fuel) radix (suc n) lo hi le =
    let d = suc n % radix in
    let below : d < radix = mod-lt (suc n) (omega (arith, lo)) in
    let front =
      radix_loop-Reads fuel radix (suc n / radix) lo hi (omega (arith, smaller radix n lo, le)) in
    ap (λ t. from_digits radix 0 (reverse t)) (radix_loop-suc fuel radix n)
    ∙ ap (λ t. from_digits radix 0 t)
        (reverse-cons (digit_char d) (radix_loop fuel radix (suc n / radix)))
    ∙ (from_digits-snoc radix 0 (suc n / radix) d _ below (omega (arith, below, hi)) front
        ∙ ap some (div-add-mod' (suc n) radix))

digit_no_sign : (c : Char) (d : ℕ) → radix_digit c ≡ some d → is_sign c ≡ false
unfolding radix_digit is_sign
digit_no_sign c d e = ground arith

from_radix-plain :
    (radix : ℕ) (c : Char) (s : Text)
    → is_sign c ≡ false
    → exact_int_from_radix radix (c ∷ s) ≡ signed false (from_digits radix 0 (c ∷ s))
unfolding exact_int_from_radix
from_radix-plain radix c [] e = rw e refl
from_radix-plain radix c (d ∷ s) e = rw e refl

signed-pos : (n : ℕ) → signed false (some n) ≡ some (pos n)
unfolding signed
signed-pos n = refl

-- Digits with no sign are read as what the loop makes of them.
from_radix-pos :
    (radix n : ℕ) (s : Text)
    → (s ≡ [] → ⊥)
    → from_digits radix 0 s ≡ some n
    → exact_int_from_radix radix s ≡ some (pos n)
from_radix-pos radix n [] solid e = absurd (solid refl)
from_radix-pos radix n (c ∷ s) solid e =
    let (d, p, below, rest) = from_digits-some radix 0 n c s e in
    from_radix-plain radix c s (digit_no_sign c d p) ∙ ap (signed false) e ∙ signed-pos n

from_radix-neg :
    (radix n : ℕ) (s : Text)
    → (s ≡ [] → ⊥)
    → from_digits radix 0 s ≡ some (suc n)
    → exact_int_from_radix radix ("-" ∷ s) ≡ some (negsuc n)
unfolding exact_int_from_radix signed
from_radix-neg radix n [] solid e = absurd (solid refl)
from_radix-neg radix n (c ∷ s) solid e = ap (signed true) e

radix_text-suc :
    (radix n : ℕ) → radix_text radix (suc n) ≡ reverse (radix_loop (suc n) radix (suc n))
unfolding radix_text
radix_text-suc radix n =
    ap (λ b. if b then chars "0" else reverse (radix_loop (suc n) radix (suc n))) (nonzero n)

radix_text-Reads :
    (radix n : ℕ)
    → 1 < radix
    → radix ≤ 16
    → (radix_text radix n ≡ [] → ⊥) × (from_digits radix 0 (radix_text radix n) ≡ some n)
unfolding radix_text
radix_text-Reads radix zero lo hi = (
  λ e. cc,
  from_digits-cons radix 0 0 "0" [] (radix_digit-digit_char 0 (omega arith)) (omega (arith, lo))
      ∙ from_digits-nil radix (0 * radix + 0)
      ∙ ap some (omega arith),
)
radix_text-Reads radix (suc n) lo hi =
    let read = radix_loop-Reads (suc n) radix (suc n) lo hi (omega arith) in
    let read' : from_digits radix 0 (radix_text radix (suc n)) ≡ some (suc n) =
      ap (λ t. from_digits radix 0 t) (radix_text-suc radix n) ∙ read in
    (λ e. no_digits (sym (ap (λ t. from_digits radix 0 t) e) ∙ read'), read')
  where
    no_digits : from_digits radix 0 [] ≡ some (suc n) → ⊥
    no_digits e =
        let bad : 0 ≡ suc n = some_is 0 (suc n) (sym (from_digits-nil radix 0) ∙ e) in
        omega (arith, bad)

-- In any radix from 2 to 16, `exact_int_from_radix` reads what `exact_int_to_radix` writes: every integer,
-- of any size and sign, comes back.
pub exact_int_from_radix-exact_int_to_radix :
    (z : ℤ) (radix : ℕ)
    → 1 < radix
    → radix ≤ 16
    → exact_int_from_radix radix (exact_int_to_radix z radix) ≡ some z
unfolding exact_int_to_radix
exact_int_from_radix-exact_int_to_radix (pos n) radix lo hi =
    let (solid, read) = radix_text-Reads radix n lo hi in
    from_radix-pos radix n (radix_text radix n) solid read
exact_int_from_radix-exact_int_to_radix (negsuc n) radix lo hi =
    let (solid, read) = radix_text-Reads radix (suc n) lo hi in
    from_radix-neg radix n (radix_text radix (suc n)) solid read

snoc_solid : (s : Text) (c : Char) → (s ++ (c ∷ [])) ≡ [] → ⊥
snoc_solid [] c e = cc
snoc_solid (d ∷ s) c e = cc

-- The decimal text of the printer.
digits-Reads :
    (fuel n : ℕ) → n < fuel → (digits fuel n ≡ [] → ⊥) × (from_digits 10 0 (digits fuel n) ≡ some n)
unfolding digits
digits-Reads zero n lt = absurd (omega (arith, lt))
digits-Reads (suc fuel) n lt = elim (Bool-cases (ltb n 10)) [
  | inl small ↦
      let below = ltb→lt n 10 small in
      let step = from_digits-snoc 10 0 0 n [] below (omega (arith, below)) (from_digits-nil 10 0) in
      rw small (λ e. cc, step ∙ ap some (omega arith))
  | inr large ↦
      let (solid, read) = digits-Reads fuel (n / 10) (omega (arith, ltb→ge n 10 large, lt)) in
      let below : n % 10 < 10 = omega arith in
      rw large (
        snoc_solid (digits fuel (n / 10)) (digit_char (n % 10)),
        from_digits-snoc 10 0 (n / 10) (n % 10) (digits fuel (n / 10)) below (omega (arith, below))
              read
            ∙ ap some (div-add-mod' n 10),
      )
]

-- The radix 10 reads what the printer writes.
pub exact_int_from_radix-int_text : (z : ℤ) → exact_int_from_radix 10 (int_text z) ≡ some z
unfolding int_text
exact_int_from_radix-int_text (pos n) =
    let (solid, read) = digits-Reads (suc n) n (omega arith) in
    from_radix-pos 10 n (digits (suc n) n) solid read
exact_int_from_radix-int_text (negsuc n) =
    let (solid, read) = digits-Reads (suc (suc n)) (suc n) (omega arith) in
    from_radix-neg 10 n (digits (suc (suc n)) (suc n)) solid read
