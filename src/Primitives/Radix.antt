-- ===== src/Primitives/Radix.antt =====
-- scheme14/scheme14.cpp, section 11: exact integers in a radix, as `number->string` writes them and
-- `string->number` reads them.
pub mod RoundTrip
use secd_scheme.Prelude.{
  ℕ, zero, suc, ◌+◌, ◌-◌, ◌*◌, ◌/◌, ◌%◌, ◌==◌, leb, ltb, Bool, true, false, ◌&&◌, ◌||◌, Option,
  none, some, List, [], ◌∷◌, reverse, if◌then◌else◌, ℤ, pos, negsuc, Char, code, Text, chars,
  digit_char,
}
use secd_scheme.Reader.Number.{is_sign}

unfoldable pub radix_digit : Char → Option ℕ
radix_digit c =
    if leb b'0' (code c) && leb (code c) b'9'
    then some (code c - b'0')
    else if leb b'a' (code c) && leb (code c) b'f'
    then some (10 + (code c - b'a'))
    else if leb b'A' (code c) && leb (code c) b'F'
    then some (10 + (code c - b'A'))
    else none

-- The digits from the last to the first; a number has no more of them than its value.
unfoldable pub radix_loop : ℕ → ℕ → ℕ → Text
radix_loop zero radix n = []
radix_loop (suc fuel) radix n =
    let rest = radix_loop fuel radix (n / radix) in
    if n == 0 then [] else digit_char (n % radix) ∷ rest

unfoldable pub radix_text : ℕ → ℕ → Text
unfolding radix_loop
radix_text radix n = if n == 0 then chars "0" else reverse (radix_loop n radix n)

unfoldable pub exact_int_to_radix : ℤ → ℕ → Text
unfolding radix_text
exact_int_to_radix (pos n) radix = radix_text radix n
exact_int_to_radix (negsuc n) radix = "-" ∷ radix_text radix (suc n)

-- The loop over the digits, with the value of those that were read.
unfoldable pub from_digits : ℕ → ℕ → Text → Option ℕ
unfolding radix_digit
from_digits radix n [] = some n
from_digits radix n (c ∷ s) = elim (radix_digit c) [
  | none ↦ none
  | some d ↦ elim (ltb d radix) [ true ↦ from_digits radix (n * radix + d) s | false ↦ none ]
]

unfoldable pub signed : Bool → Option ℕ → Option ℤ
signed neg none = none
signed true (some (suc n)) = some (negsuc n)
signed neg (some n) = some (pos n)

unfoldable pub exact_int_from_radix : ℕ → Text → Option ℤ
unfolding from_digits signed is_sign
exact_int_from_radix radix [] = none
exact_int_from_radix radix (c ∷ []) =
    if is_sign c then none else signed false (from_digits radix 0 (c ∷ []))
exact_int_from_radix radix (c ∷ (d ∷ s)) =
    if is_sign c
    then signed (code c == b'-') (from_digits radix 0 (d ∷ s))
    else signed false (from_digits radix 0 (c ∷ (d ∷ s)))
