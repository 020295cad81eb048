-- ===== src/Reader/Integers.antt =====
-- The decimal text of an integer is a token, and the reader's grammar takes it for an integer.
use text.Mathlib.Text.{◌==◌ as str_eq}
use text.Mathlib.TextEquality.{eq_iff}
use secd_scheme.Prelude.{
  ℕ, zero, suc, ◌<◌, ◌/◌, ◌%◌, ltb, ◌==◌, ◌≡◌, refl, ap, true, false, Option, none, some, [], ◌∷◌,
  ◌++◌, if◌then◌else◌, String, ℤ, pos, negsuc, Char, code, Text, of_list, arith, Bool-cases, inl,
  inr, ltb→ge, is_digit, digits, digit_char, length,
}
use secd_scheme.Value.{integer, Heap}
use secd_scheme.Effect.{ok, pure, ◌>>=◌}
use secd_scheme.Printer.{int_text}
use secd_scheme.Reader.Number.{
  Converted, skip_digits, is_sign, skip_sign, drop_plus, fraction, exponent, number_end,
  number_kind, special, make_int_from_text, parse_number,
}
use secd_scheme.Reader.{is_space, is_delimiter, named_atom}
use secd_scheme.Reader.Tokens.{in_token}
use secd_scheme.Reader.Steps.{Token, lone_dot}

-- A text of digits, with one at least.
pub data Digits : Text → Type 0 where
  last : {c : Char} → is_digit c ≡ true → Digits (c ∷ [])
  digit : {c : Char} {s : Text} → is_digit c ≡ true → Digits s → Digits (c ∷ s)

digit_char-Digit : (n : ℕ) → n < 10 → is_digit (digit_char n) ≡ true
unfolding is_digit
digit_char-Digit zero lt = refl
digit_char-Digit (suc zero) lt = refl
digit_char-Digit (suc (suc zero)) lt = refl
digit_char-Digit (suc (suc (suc zero))) lt = refl
digit_char-Digit (suc (suc (suc (suc zero)))) lt = refl
digit_char-Digit (suc (suc (suc (suc (suc zero))))) lt = refl
digit_char-Digit (suc (suc (suc (suc (suc (suc zero)))))) lt = refl
digit_char-Digit (suc (suc (suc (suc (suc (suc (suc zero))))))) lt = refl
digit_char-Digit (suc (suc (suc (suc (suc (suc (suc (suc zero)))))))) lt = refl
digit_char-Digit (suc (suc (suc (suc (suc (suc (suc (suc (suc zero))))))))) lt = refl
digit_char-Digit (suc (suc (suc (suc (suc (suc (suc (suc (suc (suc n)))))))))) lt =
    absurd (omega (arith, lt))

Digits-snoc : {s : Text} (c : Char) → Digits s → is_digit c ≡ true → Digits (s ++ (c ∷ []))
Digits-snoc c (Digits.last d) e = Digits.digit d (Digits.last e)
Digits-snoc c (Digits.digit d t) e = Digits.digit d (Digits-snoc c t e)

digits-Digits : (fuel n : ℕ) → n < fuel → Digits (digits fuel n)
unfolding digits
digits-Digits zero n lt = absurd (omega (arith, lt))
digits-Digits (suc fuel) n lt =
    elim (Bool-cases (ltb n 10))
      as (λ b. Digits (
        if ltb n 10
        then digit_char n ∷ []
        else digits fuel (n / 10) ++ (digit_char (n % 10) ∷ []))) [
          | inl small ↦ rw small (Digits.last (digit_char-Digit n (ground arith)))
          | inr large ↦ rw large (
              Digits-snoc (digit_char (n % 10))
                (digits-Digits fuel (n / 10) (omega (arith, ltb→ge n 10 large, lt)))
                (digit_char-Digit (n % 10) (omega arith)))
        ]

-- What the scan of a token asks of the characters of a number.
digit_facts :
    (c : Char)
    → is_digit c ≡ true
    → (is_delimiter c ≡ false)
      × (is_sign c ≡ false)
      × ((code c == b'+') ≡ false)
      × ((code c == b'#') ≡ false)
      × ((code c == b'.') ≡ false)
unfolding is_digit is_delimiter is_sign is_space
digit_facts c d = (ground arith, ground arith, ground arith, ground arith, ground arith)

Digits-in_token : {s : Text} → Digits s → in_token s ≡ true
unfolding in_token
Digits-in_token (Digits.last {c = c} d) = rw ((digit_facts c d).0) refl
Digits-in_token (Digits.digit {c = c} d t) = rw ((digit_facts c d).0) (Digits-in_token t)

skip_digits-Digits : {s : Text} → Digits s → skip_digits s ≡ (length s, [])
unfolding skip_digits
skip_digits-Digits (Digits.last d) = rw d refl
skip_digits-Digits (Digits.digit d t) = rw (skip_digits-Digits t, d) refl

skip_sign-Digits : {s : Text} → Digits s → skip_sign s ≡ s
unfolding skip_sign
skip_sign-Digits (Digits.last {c = c} d) = rw ((digit_facts c d).1) refl
skip_sign-Digits (Digits.digit {c = c} d t) = rw ((digit_facts c d).1) refl

length-Digits : {s : Text} → Digits s → (length s == 0) ≡ false
length-Digits (Digits.last d) = ground arith
length-Digits (Digits.digit d t) = ground arith

-- A sign, or nothing, and digits.
pub data Numeral : Text → Type 0 where
  plain : {s : Text} → Digits s → Numeral s
  minus : {s : Text} → Digits s → Numeral ("-" ∷ s)

pub int_text-Numeral : (z : ℤ) → Numeral (int_text z)
unfolding int_text
int_text-Numeral (pos n) = Numeral.plain (digits-Digits (suc n) n (omega arith))
int_text-Numeral (negsuc n) = Numeral.minus (digits-Digits (suc (suc n)) (suc n) (omega arith))

number_kind-Numeral : {s : Text} → Numeral s → number_kind s ≡ some false
unfolding number_kind fraction exponent number_end
number_kind-Numeral (Numeral.plain d) =
    rw (skip_sign-Digits d, number_kind, skip_digits-Digits d, length-Digits d) refl
number_kind-Numeral (Numeral.minus d) =
    unfold skip_sign is_sign in rw (number_kind, skip_digits-Digits d, length-Digits d) refl

drop_plus-Numeral : {s : Text} → Numeral s → drop_plus s ≡ s
unfolding drop_plus
drop_plus-Numeral (Numeral.plain (Digits.last {c = c} d)) = rw ((digit_facts c d).2) refl
drop_plus-Numeral (Numeral.plain (Digits.digit {c = c} d t)) = rw ((digit_facts c d).2) refl
drop_plus-Numeral (Numeral.minus d) = refl

-- Texts whose n-th characters differ.
abbrev nth_code : ℕ → String → ℕ
nth_code n String.[] = 0
nth_code zero (String.◌∷◌ c s) = code c
nth_code (suc n) (String.◌∷◌ c s) = nth_code n s

differs : (n : ℕ) (s t : String) → (nth_code n s == nth_code n t) ≡ false → str_eq s t ≡ false
differs n s t e = elim (Bool-cases (str_eq s t)) [
  | inl same ↦
      let both : nth_code n s ≡ nth_code n t = ap (nth_code n) ((eq_iff s t).0 same) in
      absurd (ground arith)
  | inr differ ↦ differ
]

-- A numeral starts with a digit, or with a minus and a digit.
Signs : Text → Type 0
Signs s =
    ((nth_code 0 (of_list s) == b'n') ≡ false)
    × ((nth_code 0 (of_list s) == b't') ≡ false)
    × ((nth_code 0 (of_list s) == b'f') ≡ false)
    × ((nth_code 0 (of_list s) == b'+') ≡ false)
    × ((nth_code 1 (of_list s) == b'i') ≡ false)
    × ((nth_code 1 (of_list s) == b'n') ≡ false)

digit_is : (c : Char) (n : ℕ) → is_digit c ≡ true → b'9' < n → (code c == n) ≡ false
unfolding is_digit
digit_is c n d lt = ground arith

digit_not_plus : (c : Char) → is_digit c ≡ true → (code c == b'+') ≡ false
unfolding is_digit
digit_not_plus c d = ground arith

Numeral-Signs : {s : Text} → Numeral s → Signs s
unfolding Signs
Numeral-Signs (Numeral.plain (Digits.last {c = c} d)) = (
  digit_is c _ d (omega arith),
  digit_is c _ d (omega arith),
  digit_is c _ d (omega arith),
  digit_not_plus c d,
  refl,
  refl,
)
Numeral-Signs (Numeral.plain (Digits.digit {c = c} d (Digits.last {c = e} f))) = (
  digit_is c _ d (omega arith),
  digit_is c _ d (omega arith),
  digit_is c _ d (omega arith),
  digit_not_plus c d,
  digit_is e _ f (omega arith),
  digit_is e _ f (omega arith),
)
Numeral-Signs (Numeral.plain (Digits.digit {c = c} d (Digits.digit {c = e} f t))) = (
  digit_is c _ d (omega arith),
  digit_is c _ d (omega arith),
  digit_is c _ d (omega arith),
  digit_not_plus c d,
  digit_is e _ f (omega arith),
  digit_is e _ f (omega arith),
)
Numeral-Signs (Numeral.minus (Digits.last {c = e} f)) =
    (refl, refl, refl, refl, digit_is e _ f (omega arith), digit_is e _ f (omega arith))
Numeral-Signs (Numeral.minus (Digits.digit {c = e} f t)) =
    (refl, refl, refl, refl, digit_is e _ f (omega arith), digit_is e _ f (omega arith))

named_atom-Numeral : {s : Text} → Numeral s → named_atom (of_list s) ≡ none
unfolding named_atom Signs
named_atom-Numeral {s} d =
    let (n, t, f, p, i, m) = Numeral-Signs d in
    rw
      (
        differs 0 (of_list s) "nil" n,
        differs 0 (of_list s) "true" t,
        differs 0 (of_list s) "false" f,
      )
      refl

special-Numeral : {s : Text} → Numeral s → special s ≡ none
unfolding special Signs
special-Numeral {s} d =
    let (n, t, f, p, i, m) = Numeral-Signs d in
    rw
      (
        differs 0 (of_list s) "+inf.0" p,
        differs 1 (of_list s) "-inf.0" i,
        differs 0 (of_list s) "+nan.0" p,
        differs 1 (of_list s) "-nan.0" m,
      )
      refl

in_token-Numeral : {s : Text} → Numeral s → in_token s ≡ true
in_token-Numeral (Numeral.plain d) = Digits-in_token d
in_token-Numeral (Numeral.minus d) = unfold in_token is_delimiter is_space in Digits-in_token d

digit_no_dot : (c : Char) (s : Text) → is_digit c ≡ true → lone_dot c s ≡ false
digit_no_dot c [] d = (digit_facts c d).4
digit_no_dot c (e ∷ s) d = refl

minus_no_dot : {s : Text} → Digits s → lone_dot "-" s ≡ false
minus_no_dot (Digits.last d) = refl
minus_no_dot (Digits.digit d t) = refl

-- The text of an integer is a token.
pub Numeral-Token : {s : Text} → Numeral s → (c : Char) × (t : Text) × (s ≡ c ∷ t) × Token c t
Numeral-Token (Numeral.plain (Digits.last {c = c} d)) = (
  c,
  [],
  refl,
  record {
    whole = Digits-in_token (Digits.last d);
    no_hash = (digit_facts c d).3;
    no_dot = digit_no_dot c [] d;
  },
)
Numeral-Token (Numeral.plain (Digits.digit {c = c} {s = s} d t)) = (
  c,
  s,
  refl,
  record {
    whole = Digits-in_token (Digits.digit d t);
    no_hash = (digit_facts c d).3;
    no_dot = digit_no_dot c s d;
  },
)
Numeral-Token (Numeral.minus {s = s} d) = (
  "-",
  s,
  refl,
  record { whole = in_token-Numeral (Numeral.minus d); no_hash = refl; no_dot = minus_no_dot d },
)

pub named_atom-int_text : (z : ℤ) → named_atom (of_list (int_text z)) ≡ none
named_atom-int_text z = named_atom-Numeral (int_text-Numeral z)

module _ (big_int : Text → Option ℤ) (from_chars : Text → Converted) (strtod : Text → ℕ) where
  -- The text that the printer gives to an integer is parsed as that integer, with no change of the heap, if
  -- the constructor of big numbers reads that text as that integer.
  pub parse_number-int_text :
      (z : ℤ) (h : Heap)
      → big_int (int_text z) ≡ some z
      → parse_number big_int from_chars strtod (int_text z) h ≡ ok (some (integer z)) h
  unfolding parse_number make_int_from_text pure ◌>>=◌
  parse_number-int_text z h back =
      let num = int_text-Numeral z in
      rw
        (
          parse_number,
          special-Numeral num,
          number_kind-Numeral num,
          drop_plus-Numeral num,
          make_int_from_text,
          back,
        )
        refl
