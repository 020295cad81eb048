-- ===== src/Reader/RoundTrip.antt =====
-- Writing a value and reading the text: the reader returns a value that is `equal?` to it.
use mathlib.Core.List.{append-nil}
use secd_scheme.Prelude.{
  ℕ, ◌*◌, ◌≤◌, ◌≡◌, refl, sym, ap, ◌∙◌, true, Option, some, [], ◌++◌, inl, inr, ℤ, Text, arith,
}
use secd_scheme.Value.{Value, Heap, Message}
use secd_scheme.Effect.{ok}
use secd_scheme.Datum.{Datum, size, Shows, Shows-Kept, Kept}
use secd_scheme.Datum.Spelling.{text_of}
use secd_scheme.Printer.{atom_text, to_string, int_text}
use secd_scheme.Printer.Data.{to_string-Shows}
use secd_scheme.Reader.Number.{Converted}
use secd_scheme.Reader.{at_delimiter, read_expr}
use secd_scheme.Reader.Data.{Readable, read-text}
use secd_scheme.Primitives.Equality.{equal_values}
use secd_scheme.Primitives.Equality.Data.{equal_values-Shows}

module _ (big_int : Text → Option ℤ) (from_chars : Text → Converted) (strtod : Text → ℕ)
    (shortest : ℕ → Text) (render : Message → Text)
    (reads_int : (z : ℤ) → big_int (int_text z) ≡ some z) where
  -- If the text of an integer is taken for that integer by the big number library, then in front of a
  -- delimiter, or at the end, the reader takes the text of a readable tree: with fuel of twice the size
  -- of the tree it returns a value that shows the tree and leaves what follows, and every object that
  -- the heap held stays as it was.
  pub read_expr-text_of :
      (d : Datum) (rest : Text) (h : Heap)
      → Readable d
      → at_delimiter rest ≡ true
      → (fuel : ℕ) → 2 * size d ≤ fuel
      → (v : Value) × (h' : Heap) × (read_expr big_int from_chars strtod fuel
            (text_of (atom_text shortest render) d ++ rest)
            h
          ≡ ok (some v, rest) h')
        × Kept h.objects h'.objects
        × Shows h'.objects v d
  read_expr-text_of d rest h can delim fuel le =
      read-text big_int from_chars strtod shortest render reads_int d can rest h delim fuel le

  -- If the text of an integer is taken for that integer by the big number library, then a value that
  -- shows a readable tree is written as a text which the reader takes whole, for a value that `equal?`
  -- does not tell from the first; fuel of three times the size of the tree is enough for each.
  pub read_expr-to_string :
      (h : Heap) (v : Value) (d : Datum)
      → Shows h.objects v d
      → Readable d
      → (fuel : ℕ) → 3 * size d ≤ fuel
      → (t : Text) × (w : Value) × (h' : Heap) × (to_string shortest render fuel h.objects v
          ≡ some t)
        × (read_expr big_int from_chars strtod fuel t h ≡ ok (some w, []) h')
        × (equal_values fuel h'.objects [] v w ≡ some true)
  read_expr-to_string h v d s can fuel le =
      let t = text_of (atom_text shortest render) d in
      let (w, h', e, k, r) =
        read_expr-text_of d [] h can (unfold at_delimiter in refl) fuel (omega (arith, le)) in
      (
        t,
        w,
        h',
        to_string-Shows shortest render h.objects v d s fuel (omega (arith, le)),
        ap (λ (x : Text). read_expr big_int from_chars strtod fuel x h) (sym (append-nil t)) ∙ e,
        elim (equal_values-Shows h'.objects v w d d (Shows-Kept h.objects h'.objects k d v s) r fuel
            le) [ inl (p, q) ↦ q | inr (n, q) ↦ absurd (n refl) ],
      )
