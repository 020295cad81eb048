-- ===== src/Primitives/Numerals/Laws.antt =====
-- `string->number` after `number->string`.
use secd_scheme.Prelude.{
  ℕ, ◌==◌, ◌≡◌, ◌<◌, ◌≤◌, refl, true, Option, some, [], ◌∷◌, length, ℤ, pos, Text, Addr, fetch,
  fetch-alloc_self, String, if◌then◌else◌, Bool-cases, inl, inr, arith,
}
use secd_scheme.Value.{integer, object, string, Heap}
use secd_scheme.Effect.{ok, pure, alloc, ◌>>=◌}
use secd_scheme.Syntax.{in_range}
use secd_scheme.Printer.{int_text}
use secd_scheme.Reader.Number.{Converted}
use secd_scheme.Reader.Integers.{parse_number-int_text}
use secd_scheme.Primitives.{need_args, arg}
use secd_scheme.Primitives.Numbers.{num_of}
use secd_scheme.Primitives.Radix.{exact_int_to_radix}
use secd_scheme.Primitives.Radix.RoundTrip.{exact_int_from_radix-exact_int_to_radix}
use secd_scheme.Primitives.Strings.Laws.{str_of-string}
use secd_scheme.Primitives.Numerals.{
  is_radix, radix_of, given_radix, number_text, prim_number_to_string, prim_string_to_number,
}

radix_of-pos :
    (r : ℕ) (who : String) (h : Heap)
    → is_radix r ≡ true
    → radix_of (integer (pos r)) who h ≡ ok r h
unfolding radix_of num_of pure ◌>>=◌
radix_of-pos r who h e = rw e refl

radix_bounds : (r : ℕ) → is_radix r ≡ true → (1 < r) × (r ≤ 16)
radix_bounds r e = (ground arith, ground arith)

module _ (shortest : ℕ → Text) where
  number_text-radix :
      (z : ℤ) (r : ℕ) (h : Heap)
      → is_radix r ≡ true
      → number_text shortest (integer z) (integer z ∷ (integer (pos r) ∷ [])) h
        ≡ ok (if r == 10 then int_text z else exact_int_to_radix z r) h
  unfolding number_text given_radix pure ◌>>=◌
  number_text-radix z r h e = rw (radix_of-pos r "number->string" h e) refl

module _ (big_int : Text → Option ℤ) (from_chars : Text → Converted) (strtod : Text → ℕ) where
  -- A string that holds the text of the number in the radix.
  read_number :
      (z : ℤ) (r : ℕ) (a : Addr) (h : Heap)
      → is_radix r ≡ true
      → big_int (int_text z) ≡ some z
      → fetch a h.objects ≡ some (string (if r == 10 then int_text z else exact_int_to_radix z r))
      → prim_string_to_number big_int from_chars strtod (object a ∷ (integer (pos r) ∷ [])) h
        ≡ ok (integer z) h
  unfolding prim_string_to_number given_radix need_args arg in_range pure ◌>>=◌
  read_number z r a h e back there = elim (Bool-cases (r == 10)) [
    | inl ten ↦
        rw
          (
            str_of-string h a _ "string->number" there,
            radix_of-pos r "string->number" h e,
            ten,
            parse_number-int_text big_int from_chars strtod z h back,
          )
          refl
    | inr other ↦
        rw
          (
            str_of-string h a _ "string->number" there,
            radix_of-pos r "string->number" h e,
            other,
            exact_int_from_radix-exact_int_to_radix z r (radix_bounds r e).0 (radix_bounds r e).1,
          )
          refl
  ]

  -- In the radices 2, 8, 10 and 16, `string->number` returns the integer that `number->string` wrote, if
  -- the constructor of big numbers reads the decimal text of that integer.
  pub string_to_number-number_to_string :
      (shortest : ℕ → Text) (z : ℤ) (r : ℕ) (h : Heap)
      → is_radix r ≡ true
      → big_int (int_text z) ≡ some z
      → (b : Addr) × (h' : Heap) × (prim_number_to_string shortest
            (integer z ∷ (integer (pos r) ∷ []))
            h
          ≡ ok (object b) h')
        × (prim_string_to_number big_int from_chars strtod (object b ∷ (integer (pos r) ∷ [])) h'
            ≡ ok (integer z) h')
  unfolding prim_number_to_string need_args arg in_range alloc pure ◌>>=◌
  string_to_number-number_to_string shortest z r h e back =
      let t : Text = if r == 10 then int_text z else exact_int_to_radix z r in
      let h' : Heap = record h { objects = string t ∷ h.objects } in
      (
        length h.objects,
        h',
        rw (number_text-radix shortest z r h e) refl,
        read_number z r (length h.objects) h' e back (fetch-alloc_self (string t) h.objects),
      )
