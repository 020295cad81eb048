-- ===== src/Prelude/Texts.antt =====
-- Texts as lists of characters: what the reader takes and the printer writes. A character stands for
-- one byte.
use Prim.Native.Nat.{ℕ, zero, suc, ◌/◌, ◌%◌}
use Prim.Native.Char.{Char, code}
use Prim.Native.String.{String}
use mathlib.Core.Path.{◌≡◌, refl, ap}
use mathlib.Core.Bool.{Bool, ◌&&◌}
use mathlib.Core.List.{List, [], ◌∷◌, ◌++◌}
use mathlib.Core.Option.{Option, none, some}
use text.Mathlib.TextBridge.{of_list}
use secd_scheme.Prelude.Lists.{get_elem?}
use secd_scheme.Prelude.Tests.{leb, ltb, if◌then◌else◌}

abbrev pub Text : Type 0
Text = List Char

abbrev pub chars : String → Text
chars String.[] = []
chars (String.◌∷◌ c s) = c ∷ chars s

pub chars-of_list : (s : Text) → chars (of_list s) ≡ s
chars-of_list [] = refl
chars-of_list (c ∷ s) = ap (λ t. c ∷ t) (chars-of_list s)

pub of_list-chars : (s : String) → of_list (chars s) ≡ s
of_list-chars String.[] = refl
of_list-chars (String.◌∷◌ c s) = ap (λ t. String.◌∷◌ c t) (of_list-chars s)

unfoldable pub is_digit : Char → Bool
is_digit c = leb b'0' (code c) && leb (code c) b'9'

abbrev pub digits_of_radix : Text
digits_of_radix = chars "0123456789abcdef"

abbrev char_or : Option Char → Char
char_or none = "?"
char_or (some c) = c

abbrev pub digit_char : ℕ → Char
digit_char d = char_or (get_elem? digits_of_radix d)

-- The decimal digits of a number; it has no more digits than its value and one.
unfoldable pub digits : ℕ → ℕ → Text
digits zero n = []
digits (suc fuel) n =
    let front = digits fuel (n / 10) in
    if ltb n 10 then digit_char n ∷ [] else front ++ (digit_char (n % 10) ∷ [])

try_digits : of_list (digits 5 1024) ≡ "1024"
unfolding digits
try_digits = refl
