-- ===== src/Datum/Spelling.antt =====
-- The text of a tree, given the spelling of its atoms.
use mathlib.Core.List.{append_assoc}
use secd_scheme.Prelude.{◌++◌, ◌∷◌, ◌≡◌, refl, ap, Text, chars}
use secd_scheme.Value.{Value}
use secd_scheme.Datum.{
  Datum, Rest, Items, atom, text, list, vector, end, dotted, more, no_items, item,
}

module _ (spell : Value → Text) where
  unfoldable mutual
    pub text_of : Datum → Text
    text_of (atom v) = spell v
    text_of (text s) = "\"" ∷ s ++ chars "\""
    text_of (list d r) = chars "(" ++ (text_of d ++ rest_text r)
    text_of (vector no_items) = chars "#()"
    text_of (vector (item d ds)) = chars "#(" ++ (text_of d ++ items_text ds)

    -- What follows an element of a list, with the closing parenthesis.
    pub rest_text : Rest → Text
    rest_text end = chars ")"
    rest_text (dotted d) = chars " . " ++ (text_of d ++ chars ")")
    rest_text (more d r) = chars " " ++ (text_of d ++ rest_text r)

    pub items_text : Items → Text
    items_text no_items = chars ")"
    items_text (item d ds) = chars " " ++ (text_of d ++ items_text ds)

  -- The text of a tree in front of another text, part by part.
  pub text_of-atom : (v : Value) (u : Text) → (text_of (atom v) ++ u) ≡ spell v ++ u
  unfolding text_of
  text_of-atom v u = refl

  pub rest_text-end : (u : Text) → (rest_text end ++ u) ≡ ")" ∷ u
  unfolding text_of
  rest_text-end u = refl

  pub items_text-none : (u : Text) → (items_text no_items ++ u) ≡ ")" ∷ u
  unfolding text_of
  items_text-none u = refl

  pub text_of-text : (s u : Text) → (text_of (text s) ++ u) ≡ "\"" ∷ ((s ++ chars "\"") ++ u)
  unfolding text_of
  text_of-text s u = refl

  pub text_of-list :
      (d : Datum) (r : Rest) (u : Text)
      → (text_of (list d r) ++ u) ≡ "(" ∷ (text_of d ++ (rest_text r ++ u))
  unfolding text_of
  text_of-list d r u = ap (λ s. "(" ∷ s) (append_assoc (text_of d) (rest_text r) u)

  pub rest_text-dotted :
      (d : Datum) (u : Text)
      → (rest_text (dotted d) ++ u) ≡ " " ∷ ("." ∷ (" " ∷ (text_of d ++ (")" ∷ u))))
  unfolding text_of
  rest_text-dotted d u = ap (λ s. " " ∷ ("." ∷ (" " ∷ s))) (append_assoc (text_of d) (chars ")") u)

  pub rest_text-more :
      (d : Datum) (r : Rest) (u : Text)
      → (rest_text (more d r) ++ u) ≡ " " ∷ (text_of d ++ (rest_text r ++ u))
  unfolding text_of
  rest_text-more d r u = ap (λ s. " " ∷ s) (append_assoc (text_of d) (rest_text r) u)

  pub items_text-item :
      (d : Datum) (ds : Items) (u : Text)
      → (items_text (item d ds) ++ u) ≡ " " ∷ (text_of d ++ (items_text ds ++ u))
  unfolding text_of
  items_text-item d ds u = ap (λ s. " " ∷ s) (append_assoc (text_of d) (items_text ds) u)

  pub text_of-vector_empty : (u : Text) → (text_of (vector no_items) ++ u) ≡ "#" ∷ ("(" ∷ (")" ∷ u))
  unfolding text_of
  text_of-vector_empty u = refl

  pub text_of-vector :
      (d : Datum) (ds : Items) (u : Text)
      → (text_of (vector (item d ds)) ++ u) ≡ "#" ∷ ("(" ∷ (text_of d ++ (items_text ds ++ u)))
  unfolding text_of
  text_of-vector d ds u = ap (λ s. "#" ∷ ("(" ∷ s)) (append_assoc (text_of d) (items_text ds) u)
