-- ===== src/Reader/Steps.antt =====
-- Single steps of the reader on the text of a tree: where an item starts, how a string ends, and
-- the list that is made of the items.
use mathlib.Core.List.{reverse-cons}
use secd_scheme.Prelude.{
  ℕ, suc, ◌==◌, ◌≡◌, refl, ap, ◌∙◌, Bool, true, false, ◌||◌, Option, some, List, [], ◌∷◌, ◌++◌,
  reverse, length, if◌then◌else◌, ℤ, Char, code, Text, chars, arith, fetch-alloc, fetch-alloc_self,
}
use secd_scheme.Value.{Value, nil, object, Object, pair, string, vector, Heap}
use secd_scheme.Effect.{Result, ok, pure, alloc, ◌>>=◌}
use secd_scheme.Pairs.{make_pair, list_onto}
use secd_scheme.Datum.{Datum, Rest, more, Shows, ShowsRest, Shows-Kept, ShowsRest-Kept, Kept}
use secd_scheme.Reader.Number.{Converted}
use secd_scheme.Reader.{
  is_space, is_delimiter, at_delimiter, skip, start_of, at_dot, string_body, with_char, read_string,
  read_expr, read_list, read_vector,
}
use secd_scheme.Reader.Tokens.{in_token, in_token-cons, skip-solid, delimiter-space}

-- whether a token is a dot by itself
abbrev pub lone_dot : Char → Text → Bool
lone_dot c [] = code c == b'.'
lone_dot c (d ∷ s) = false

-- A token that is no delimiter of lists or vectors.
pub record Token (c : Char) (s : Text) : Type 0 where
  pub whole : in_token (c ∷ s) ≡ true
  pub no_hash : (code c == b'#') ≡ false
  pub no_dot : lone_dot c s ≡ false

-- An item of a list or a vector starts here.
pub record Opens (c : Char) (s : Text) : Type 0 where
  pub solid : skip false (c ∷ s) ≡ c ∷ s
  pub not_close : (code c == b')') ≡ false
  pub not_dot : at_dot c s ≡ false

not_close-token : (c : Char) → is_delimiter c ≡ false → (code c == b')') ≡ false
unfolding is_delimiter
not_close-token c e = ground arith

dot-token :
    (c : Char) (s rest : Text)
    → in_token s ≡ true
    → lone_dot c s ≡ false
    → at_dot c (s ++ rest) ≡ false
unfolding at_dot at_delimiter
dot-token c [] rest all e = rw e refl
dot-token c (d ∷ s) rest all e = rw ((in_token-cons d s all).0) (ground arith)

pub Opens-Token : {c : Char} {s : Text} (rest : Text) → Token c s → Opens c (s ++ rest)
Opens-Token {c} {s} rest t =
    let (one, all) = in_token-cons c s t.whole in
    let (solid, plain) = delimiter-space c one in
    record {
      solid = skip-solid c (s ++ rest) solid plain;
      not_close = not_close-token c one;
      not_dot = dot-token c s rest all t.no_dot;
    }

-- A string of the source with no quote and no escape.
unfoldable pub no_quote : Text → Bool
no_quote [] = true
no_quote (c ∷ s) = if code c == b'"' || code c == b'\\' then false else no_quote s

no_quote-cons :
    (c : Char) (s : Text)
    → no_quote (c ∷ s) ≡ true
    → ((code c == b'"') ≡ false) × ((code c == b'\\') ≡ false) × (no_quote s ≡ true)
unfolding no_quote
no_quote-cons c s e = (ground arith, ground arith, ground arith)

body_char :
    (c n : Char) (s : Text)
    → (code c == b'"') ≡ false
    → (code c == b'\\') ≡ false
    → string_body (c ∷ (n ∷ s)) ≡ with_char c (string_body (n ∷ s))
unfolding string_body
body_char c n s p q = rw (p, q, string_body) refl

pub string_body-no_quote :
    (s rest : Text) → no_quote s ≡ true → string_body ((s ++ chars "\"") ++ rest) ≡ some (s, rest)
unfolding string_body no_quote
string_body-no_quote [] [] e = refl
string_body-no_quote [] (c ∷ rest) e = refl
string_body-no_quote (c ∷ []) rest e =
    let (p, q, all) = no_quote-cons c [] e in
    body_char c "\"" rest p q ∙ ap (with_char c) (string_body-no_quote [] rest refl)
string_body-no_quote (c ∷ (d ∷ s)) rest e =
    let (p, q, all) = no_quote-cons c (d ∷ s) e in
    body_char c d ((s ++ chars "\"") ++ rest) p q
    ∙ ap (with_char c) (string_body-no_quote (d ∷ s) rest all)

pub Kept-alloc : (o : Object) (os : List Object) → Kept os (o ∷ os)
Kept-alloc o os a x f = fetch-alloc a o os f

pub Kept-trans : (os os' os'' : List Object) → Kept os os' → Kept os' os'' → Kept os os''
Kept-trans os os' os'' f g a x e = g a x (f a x e)

-- The items that were read, from the last to the first, and what they show.
abbrev pub AllShow : List Object → List Value → List Datum → Type 0
AllShow os [] [] = Unit
AllShow os (v ∷ vs) (d ∷ ds) = Shows os v d × AllShow os vs ds
AllShow os _ _ = ⊥

pub AllShow-Kept :
    (os os' : List Object)
    → Kept os os'
    → (vs : List Value) (ds : List Datum) → AllShow os vs ds
    → AllShow os' vs ds
AllShow-Kept os os' k [] [] s = tt
AllShow-Kept os os' k [] (d ∷ ds) s = absurd s
AllShow-Kept os os' k (v ∷ vs) [] s = absurd s
AllShow-Kept os os' k (v ∷ vs) (d ∷ ds) (s, t) =
    (Shows-Kept os os' k d v s, AllShow-Kept os os' k vs ds t)

abbrev pub pile : List Datum → Rest → Rest
pile [] r = r
pile (d ∷ ds) r = pile ds (more d r)

list_onto-snoc :
    (xs : List Value) (x tail : Value) (h : Heap)
    → list_onto (xs ++ (x ∷ [])) tail h ≡ (make_pair x tail >>= λ t. list_onto xs t) h
unfolding list_onto ◌>>=◌ pure make_pair alloc
list_onto-snoc [] x tail h = refl
list_onto-snoc (y ∷ xs) x tail h = rw (list_onto-snoc xs x tail h) refl

-- The list of the items that were read, in front of a tail.
pub list_onto-pile :
    (vs : List Value) (ds : List Datum) (tail : Value) (r : Rest) (h : Heap)
    → AllShow h.objects vs ds
    → ShowsRest h.objects tail r
    → (v : Value) × (h' : Heap) × (list_onto (reverse vs) tail h ≡ ok v h')
      × Kept h.objects h'.objects
      × ShowsRest h'.objects v (pile ds r)
unfolding list_onto pure
list_onto-pile [] [] tail r h all s = (tail, h, refl, λ a o f. f, s)
list_onto-pile [] (d ∷ ds) tail r h all s = absurd all
list_onto-pile (v ∷ vs) [] tail r h all s = absurd all
list_onto-pile (v ∷ vs) (d ∷ ds) tail r h (one, all) s =
    let h1 : Heap = record h { objects = pair v tail ∷ h.objects } in
    let keep : Kept h.objects h1.objects = Kept-alloc (pair v tail) h.objects in
    let here : ShowsRest h1.objects (object (length h.objects)) (more d r) =
      unfold Shows in
      (
        length h.objects,
        v,
        tail,
        refl,
        fetch-alloc_self (pair v tail) h.objects,
        Shows-Kept h.objects h1.objects keep d v one,
        ShowsRest-Kept h.objects h1.objects keep r tail s,
      ) in
    let (w, h', e, k, t) =
      list_onto-pile vs ds (object (length h.objects)) (more d r) h1
        (AllShow-Kept h.objects h1.objects keep vs ds all) here in
    (
      w,
      h',
      rw (reverse-cons v vs) (
          list_onto-snoc (reverse vs) v tail h
          ∙ unfold make_pair in unfold alloc in unfold ◌>>=◌ in e),
      Kept-trans h.objects h1.objects h'.objects keep k,
      t,
    )

module _ (big_int : Text → Option ℤ) (from_chars : Text → Converted) (strtod : Text → ℕ) where
  -- What a reading returns: a value of this kind and the text behind it, in a heap that has kept
  -- every object.
  abbrev pub Reads :
      List Object → (List Object → Value → Type 0) → Text → Result (Option Value × Text) → Type 0
  Reads os P rest r =
      (v : Value) × (h' : Heap) × (r ≡ ok (some v, rest) h') × Kept os h'.objects × P h'.objects v

  pub read_list-space :
      (fuel : ℕ) (vs : List Value) (s : Text) (h : Heap)
      → read_list big_int from_chars strtod (suc fuel) vs (" " ∷ s) h
        ≡ read_list big_int from_chars strtod (suc fuel) vs s h
  unfolding read_list skip is_space
  read_list-space fuel vs s h = refl

  pub read_vector-space :
      (fuel : ℕ) (vs : List Value) (s : Text) (h : Heap)
      → read_vector big_int from_chars strtod (suc fuel) vs (" " ∷ s) h
        ≡ read_vector big_int from_chars strtod (suc fuel) vs s h
  unfolding read_list skip is_space
  read_vector-space fuel vs s h = refl

  pub read_expr-space :
      (fuel : ℕ) (s : Text) (h : Heap)
      → read_expr big_int from_chars strtod (suc fuel) (" " ∷ s) h
        ≡ read_expr big_int from_chars strtod (suc fuel) s h
  unfolding read_list skip is_space
  read_expr-space fuel s h = refl

  pub read_list-item :
      (fuel : ℕ) (vs : List Value) (c : Char) (s u : Text) (v : Value) (h h' : Heap)
      → Opens c s
      → read_expr big_int from_chars strtod fuel (c ∷ s) h ≡ ok (some v, u) h'
      → read_list big_int from_chars strtod (suc fuel) vs (c ∷ s) h
        ≡ read_list big_int from_chars strtod fuel (v ∷ vs) u h'
  unfolding ◌>>=◌ read_list
  read_list-item fuel vs c s u v h h' o e = rw (o.solid, o.not_close, o.not_dot, read_list, e) refl

  pub read_vector-item :
      (fuel : ℕ) (vs : List Value) (c : Char) (s u : Text) (v : Value) (h h' : Heap)
      → Opens c s
      → read_expr big_int from_chars strtod fuel (c ∷ s) h ≡ ok (some v, u) h'
      → read_vector big_int from_chars strtod (suc fuel) vs (c ∷ s) h
        ≡ read_vector big_int from_chars strtod fuel (v ∷ vs) u h'
  unfolding ◌>>=◌ read_list
  read_vector-item fuel vs c s u v h h' o e = rw (o.solid, o.not_close, read_vector, e) refl

  pub read_list-close :
      (fuel : ℕ) (vs : List Value) (s : Text) (v : Value) (h h' : Heap)
      → list_onto (reverse vs) nil h ≡ ok v h'
      → read_list big_int from_chars strtod (suc fuel) vs (")" ∷ s) h ≡ ok (some v, s) h'
  unfolding read_list skip is_space ◌>>=◌ pure
  read_list-close fuel vs s v h h' e = rw e refl

  pub read_vector-close :
      (fuel : ℕ) (vs : List Value) (s : Text) (h : Heap)
      → read_vector big_int from_chars strtod (suc fuel) vs (")" ∷ s) h
        ≡ ok
            (some (object (length h.objects)), s)
            (record h { objects = vector (reverse vs) ∷ h.objects })
  unfolding read_list skip is_space ◌>>=◌ pure alloc
  read_vector-close fuel vs s h = refl

  pub read_list-dot :
      (fuel : ℕ) (x : Value) (vs : List Value) (s u : Text) (tail v : Value) (h h1 h' : Heap)
      → read_expr big_int from_chars strtod (suc fuel) s h ≡ ok (some tail, ")" ∷ u) h1
      → list_onto (reverse (x ∷ vs)) tail h1 ≡ ok v h'
      → read_list big_int from_chars strtod
          (suc (suc (suc fuel)))
          (x ∷ vs)
          (" " ∷ ("." ∷ (" " ∷ s)))
          h
        ≡ ok (some v, u) h'
  unfolding read_list skip is_space ◌>>=◌ pure at_dot at_delimiter is_delimiter
  read_list-dot fuel x vs s u tail v h h1 h' e f = rw (e, f) refl

  pub read_expr-list :
      (fuel : ℕ) (s : Text) (h : Heap)
      → read_expr big_int from_chars strtod (suc fuel) ("(" ∷ s) h
        ≡ read_list big_int from_chars strtod fuel [] s h
  unfolding read_list skip is_space start_of
  read_expr-list fuel s h = refl

  pub read_expr-vector :
      (fuel : ℕ) (s : Text) (h : Heap)
      → read_expr big_int from_chars strtod (suc fuel) ("#" ∷ ("(" ∷ s)) h
        ≡ read_vector big_int from_chars strtod fuel [] s h
  unfolding read_list skip is_space start_of
  read_expr-vector fuel s h = refl

  pub read_expr-string :
      (fuel : ℕ) (s rest : Text) (h : Heap)
      → no_quote s ≡ true
      → read_expr big_int from_chars strtod (suc fuel) ("\"" ∷ ((s ++ chars "\"") ++ rest)) h
        ≡ ok (some (object (length h.objects)), rest) (record h { objects = string s ∷ h.objects })
  unfolding read_list skip is_space start_of read_string ◌>>=◌ pure alloc
  read_expr-string fuel s rest h e = rw (string_body-no_quote s rest e, read_string) refl
