-- ===== src/Reader/Data.antt =====
-- What the printer wrote is read back: the reader takes the text of a tree for a value that shows the
-- tree, and leaves what follows it.
use mathlib.Core.List.{append_assoc, append-nil, reverse-cons}
use secd_scheme.Prelude.{
  ℕ, zero, suc, ◌+◌, ◌*◌, ◌≤◌, ◌≡◌, refl, sym, ap, subst, ◌∙◌, true, Option, none, some, List, [],
  ◌∷◌, ◌++◌, reverse, length, String, ℤ, Char, Text, chars, of_list, arith, fetch, fetch-alloc_self,
  Addr, spend, of_list-chars,
}
use secd_scheme.Value.{
  Value, nil, eof, boolean, integer, flonum, symbol, primitive, special_form, environment, object,
  Object, string, Heap, Message,
}
use secd_scheme.Effect.{Result, ok, pure, ◌>>=◌}
use secd_scheme.Datum.{
  Datum, Rest, Items, atom, text, list, end, dotted, more, no_items, item, size, size_rest,
  size_items, size_pos, IsAtom, CanEnd, Shows, ShowsRest, ShowsItems, Shows-Kept, Kept,
}
use secd_scheme.Datum.Spelling.{
  text_of, rest_text, items_text, text_of-atom, rest_text-end, items_text-none, text_of-text,
  text_of-list, rest_text-dotted, rest_text-more, items_text-item, text_of-vector_empty,
  text_of-vector,
}
use secd_scheme.Printer.{atom_text, int_text}
use secd_scheme.Reader.Number.{Converted, special, number_kind, parse_number}
use secd_scheme.Reader.{
  skip, is_space, at_dot, is_delimiter, at_delimiter, named_atom, atom_of, or_symbol, read_expr,
  read_list, read_vector,
}
use secd_scheme.Reader.Tokens.{read_expr-token}
use secd_scheme.Reader.Integers.{
  int_text-Numeral, Numeral-Token, parse_number-int_text, named_atom-int_text,
}
use secd_scheme.Reader.Steps.{
  Token, Opens, Opens-Token, no_quote, AllShow, AllShow-Kept, pile, list_onto-pile, Kept-alloc,
  Kept-trans, Reads, read_list-space, read_vector-space, read_list-item, read_vector-item,
  read_list-close, read_vector-close, read_list-dot, read_expr-list, read_expr-vector,
  read_expr-string,
}

-- A symbol whose name the reader takes for a symbol.
pub record IsName (s : String) : Type 0 where
  pub head : Char
  pub others : Text
  pub spelled : chars s ≡ head ∷ others
  pub is_token : Token head others
  pub not_named : named_atom s ≡ none
  pub not_special : special (head ∷ others) ≡ none
  pub not_number : number_kind (head ∷ others) ≡ none

-- The atoms whose text is read back: integers, and symbols with such a name.
abbrev pub CanRead : Value → Type 0
CanRead (integer z) = Unit
CanRead (symbol s) = IsName s
CanRead _ = ⊥

-- The trees whose text is read back.
unfoldable mutual
  pub Readable : Datum → Type 0
  Readable (atom v) = CanRead v
  Readable (text s) = no_quote s ≡ true
  Readable (list d r) = Readable d × ReadableRest r
  Readable (Datum.vector ds) = ReadableItems ds

  pub ReadableRest : Rest → Type 0
  ReadableRest end = Unit
  ReadableRest (dotted d) = CanEnd d × Readable d
  ReadableRest (more d r) = Readable d × ReadableRest r

  pub ReadableItems : Items → Type 0
  ReadableItems no_items = Unit
  ReadableItems (item d ds) = Readable d × ReadableItems ds

atom_text-at :
    (shortest : ℕ → Text) (render : Message → Text) (z : ℤ)
    → atom_text shortest render (integer z) ≡ int_text z
unfolding atom_text
atom_text-at shortest render z = refl

-- What stands behind an element of a list or a vector is a delimiter.
at_delimiter-rest :
    (spell : Value → Text) (r : Rest) (u : Text) → at_delimiter (rest_text spell r ++ u) ≡ true
unfolding rest_text at_delimiter is_delimiter
at_delimiter-rest spell end u = refl
at_delimiter-rest spell (dotted d) u = refl
at_delimiter-rest spell (more d r) u = refl

at_delimiter-items :
    (spell : Value → Text) (ds : Items) (u : Text) → at_delimiter (items_text spell ds ++ u) ≡ true
unfolding rest_text at_delimiter is_delimiter
at_delimiter-items spell no_items u = refl
at_delimiter-items spell (item d ds) u = refl

-- The text of an atom that can be read is a token.
atom-Token :
    (shortest : ℕ → Text) (render : Message → Text) (w : Value)
    → CanRead w
    → (c : Char) × (t : Text) × (atom_text shortest render w ≡ c ∷ t) × Token c t
unfolding atom_text
atom-Token shortest render (integer z) can = Numeral-Token (int_text-Numeral z)
atom-Token shortest render (symbol s) can = (can.head, can.others, can.spelled, can.is_token)
atom-Token shortest render nil can = absurd can
atom-Token shortest render eof can = absurd can
atom-Token shortest render (boolean b) can = absurd can
atom-Token shortest render (flonum d) can = absurd can
atom-Token shortest render (primitive s) can = absurd can
atom-Token shortest render (special_form s) can = absurd can
atom-Token shortest render (environment e) can = absurd can
atom-Token shortest render (object a) can = absurd can

Opens-quote : (s : Text) → Opens "\"" s
unfolding skip is_space at_dot
Opens-quote s = record { solid = refl; not_close = refl; not_dot = refl }

Opens-paren : (s : Text) → Opens "(" s
unfolding skip is_space at_dot
Opens-paren s = record { solid = refl; not_close = refl; not_dot = refl }

Opens-hash : (s : Text) → Opens "#" s
unfolding skip is_space at_dot
Opens-hash s = record { solid = refl; not_close = refl; not_dot = refl }

-- An item starts with the first character of its text.
Opens-text :
    (shortest : ℕ → Text) (render : Message → Text) (d : Datum) (u : Text)
    → Readable d
    → (c : Char) × (s : Text) × ((text_of (atom_text shortest render) d ++ u) ≡ c ∷ s) × Opens c s
unfolding Readable
Opens-text shortest render (atom w) u can =
    let (c, t, e, tok) = atom-Token shortest render w can in
    (c, t ++ u, unfold text_of in ap (λ (x : Text). x ++ u) e, Opens-Token u tok)
Opens-text shortest render (text s) u can =
    ("\"", _, text_of-text (atom_text shortest render) s u, Opens-quote _)
Opens-text shortest render (list d r) u can =
    ("(", _, text_of-list (atom_text shortest render) d r u, Opens-paren _)
Opens-text shortest render (Datum.vector no_items) u can =
    ("#", _, text_of-vector_empty (atom_text shortest render) u, Opens-hash _)
Opens-text shortest render (Datum.vector (item d ds)) u can =
    ("#", _, text_of-vector (atom_text shortest render) d ds u, Opens-hash _)

module _ (big_int : Text → Option ℤ) (from_chars : Text → Converted) (strtod : Text → ℕ)
    (shortest : ℕ → Text) (render : Message → Text)
    (reads_int : (z : ℤ) → big_int (int_text z) ≡ some z) where
  abbrev spell : Value → Text
  spell = atom_text shortest render

  abbrev spelled_text : Datum → Text
  spelled_text d = text_of (atom_text shortest render) d

  abbrev ReadsValue : Datum → Type 0
  ReadsValue d =
      Readable d
      → (rest : Text) (h : Heap) → at_delimiter rest ≡ true
      → (fuel : ℕ) → 2 * size d ≤ fuel
      → Reads big_int from_chars strtod h.objects (λ os v. Shows os v d) rest
          (read_expr big_int from_chars strtod fuel (text_of spell d ++ rest) h)

  abbrev ReadsRest : Rest → Type 0
  ReadsRest r =
      ReadableRest r
      → (v : Value) (vs : List Value) (d : Datum) (ds : List Datum) (rest : Text) (h : Heap)
      → AllShow h.objects (v ∷ vs) (d ∷ ds)
      → (fuel : ℕ) → 2 * size_rest r + 1 ≤ fuel
      → Reads big_int from_chars strtod h.objects (λ os w. ShowsRest os w (pile (d ∷ ds) r)) rest
          (read_list big_int from_chars strtod fuel (v ∷ vs) (rest_text spell r ++ rest) h)

  -- A vector of these items behind the values that were read.
  abbrev ShowsBehind : List Value → Items → List Object → Value → Type 0
  ShowsBehind vs ds os v =
      (a : Addr) × (ws : List Value) × (v ≡ object a)
      × (fetch a os ≡ some (Object.vector (reverse vs ++ ws)))
      × ShowsItems os ws ds

  abbrev ReadsItems : Items → Type 0
  ReadsItems ds =
      ReadableItems ds
      → (vs : List Value) (rest : Text) (h : Heap) → (fuel : ℕ) → 2 * size_items ds + 1 ≤ fuel
      → Reads big_int from_chars strtod h.objects (ShowsBehind vs ds) rest
          (read_vector big_int from_chars strtod fuel vs (items_text spell ds ++ rest) h)

  atom_of-cons :
      (c : Char) (t : Text) (o : Option Value) (h : Heap)
      → named_atom (of_list (c ∷ t)) ≡ none
      → parse_number big_int from_chars strtod (c ∷ t) h ≡ ok o h
      → atom_of big_int from_chars strtod (c ∷ t) h ≡ ok (or_symbol (c ∷ t) o) h
  unfolding atom_of pure ◌>>=◌
  atom_of-cons c t o h n p = rw (n, p, atom_of) refl

  atom_of-token :
      (tok : Text) (c : Char) (t : Text) (o : Option Value) (h : Heap)
      → tok ≡ c ∷ t
      → named_atom (of_list tok) ≡ none
      → parse_number big_int from_chars strtod tok h ≡ ok o h
      → atom_of big_int from_chars strtod tok h ≡ ok (or_symbol tok o) h
  atom_of-token tok c t o h e =
      subst
        (λ x.
          named_atom (of_list x) ≡ none
          → parse_number big_int from_chars strtod x h ≡ ok o h
          → atom_of big_int from_chars strtod x h ≡ ok (or_symbol x o) h)
        (sym e) (atom_of-cons c t o h)

  parse_number-none :
      (tok : Text) (h : Heap)
      → special tok ≡ none
      → number_kind tok ≡ none
      → parse_number big_int from_chars strtod tok h ≡ ok none h
  unfolding parse_number pure
  parse_number-none tok h e f = rw (e, f, parse_number) refl

  -- An atom's text is that atom.
  atom_of-text :
      (w : Value) (h : Heap)
      → CanRead w
      → atom_of big_int from_chars strtod (atom_text shortest render w) h ≡ ok w h
  unfolding atom_text
  atom_of-text (integer z) h can =
      let (c, t, e, tok) = Numeral-Token (int_text-Numeral z) in
      atom_of-token (int_text z) c t (some (integer z)) h e (named_atom-int_text z)
        (parse_number-int_text big_int from_chars strtod z h (reads_int z))
  atom_of-text (symbol s) h can =
      let back : of_list (chars s) ≡ s = of_list-chars s in
      atom_of-token (chars s) can.head can.others none h can.spelled (rw back can.not_named) (
        parse_number-none (chars s) h (rw can.spelled can.not_special)
          (rw can.spelled can.not_number))
      ∙ rw back refl
  atom_of-text nil h can = absurd can
  atom_of-text eof h can = absurd can
  atom_of-text (boolean b) h can = absurd can
  atom_of-text (flonum d) h can = absurd can
  atom_of-text (primitive s) h can = absurd can
  atom_of-text (special_form s) h can = absurd can
  atom_of-text (environment e) h can = absurd can
  atom_of-text (object a) h can = absurd can

  CanRead-IsAtom : (w : Value) → CanRead w → IsAtom w
  CanRead-IsAtom (object a) can = absurd can
  CanRead-IsAtom _ can = tt

  read_expr-atom :
      (tok rest : Text) (c : Char) (t : Text) (w : Value) (fuel : ℕ) (h : Heap)
      → tok ≡ c ∷ t
      → Token c t
      → at_delimiter rest ≡ true
      → atom_of big_int from_chars strtod tok h ≡ ok w h
      → read_expr big_int from_chars strtod (suc fuel) (tok ++ rest) h ≡ ok (some w, rest) h
  unfolding ◌>>=◌ pure
  read_expr-atom tok rest c t w fuel h e token delim =
      subst
        (λ x.
          atom_of big_int from_chars strtod x h ≡ ok w h
          → read_expr big_int from_chars strtod (suc fuel) (x ++ rest) h ≡ ok (some w, rest) h)
        (sym e)
        (λ q.
          ap (λ m. m h)
            (read_expr-token big_int from_chars strtod c t rest fuel token.whole token.no_hash
              delim)
          ∙ rw q refl)

  Reads-from :
      (os : List Object) (P : List Object → Value → Type 0) (rest : Text)
      (r r' : Result (Option Value × Text))
      → r ≡ r'
      → Reads big_int from_chars strtod os P rest r'
      → Reads big_int from_chars strtod os P rest r
  Reads-from os P rest r r' p (v, h', e, k, s) = (v, h', p ∙ e, k, s)

  -- The reader takes an item, and what follows the item is read in the heap that it left.
  read_items :
      (d : Datum)
      → ReadsValue d
      → Readable d
      → (u : Text) (h : Heap) → at_delimiter u ≡ true
      → (fuel : ℕ) → 2 * size d ≤ fuel
      → (v : Value) × (h' : Heap) × Kept h.objects h'.objects
        × Shows h'.objects v d
        × ((vs : List Value)
            → read_list big_int from_chars strtod (suc fuel) vs (spelled_text d ++ u) h
              ≡ read_list big_int from_chars strtod fuel (v ∷ vs) u h')
        × ((vs : List Value)
            → read_vector big_int from_chars strtod (suc fuel) vs (spelled_text d ++ u) h
              ≡ read_vector big_int from_chars strtod fuel (v ∷ vs) u h')
  read_items d ih can u h delim fuel le =
      let (v, h', e, k, s) = ih can u h delim fuel le in
      let (c, t, q, o) = Opens-text shortest render d u can in
      let e' : read_expr big_int from_chars strtod fuel (c ∷ t) h ≡ ok (some v, u) h' =
        ap (λ x. read_expr big_int from_chars strtod fuel x h) (sym q) ∙ e in
      (
        v,
        h',
        k,
        s,
        λ vs.
            ap (λ x. read_list big_int from_chars strtod (suc fuel) vs x h) q
            ∙ read_list-item big_int from_chars strtod fuel vs c t u v h h' o e',
        λ vs.
            ap (λ x. read_vector big_int from_chars strtod (suc fuel) vs x h) q
            ∙ read_vector-item big_int from_chars strtod fuel vs c t u v h h' o e',
      )

  -- An element of a list and what follows it, behind the elements that were read.
  read-cell :
      (d : Datum) (r : Rest)
      → ReadsValue d
      → ReadsRest r
      → Readable d
      → ReadableRest r
      → (vs : List Value) (ds : List Datum) (rest : Text) (h : Heap) → AllShow h.objects vs ds
      → (fuel : ℕ) → 1 + 2 * size d + 2 * size_rest r ≤ fuel
      → Reads big_int from_chars strtod h.objects
          (λ os w. ShowsRest os w (pile ds (more d r)))
          rest
          (read_list big_int from_chars strtod fuel vs
            (spelled_text d ++ (rest_text spell r ++ rest))
            h)
  read-cell d r one two can cans vs ds rest h all = spend _ (omega arith) λ fuel le.
      let u = rest_text spell r ++ rest in
      let (v, h1, k1, s1, e1, f1) =
        read_items d one can u h (at_delimiter-rest spell r rest) fuel (omega (arith, le)) in
      let (w, h2, e2, k2, s2) =
        two cans v vs d ds rest h1 (s1, AllShow-Kept h.objects h1.objects k1 vs ds all) fuel
          (omega (arith, le, size_pos d)) in
      (w, h2, e1 vs ∙ e2, Kept-trans h.objects h1.objects h2.objects k1 k2, s2)

  read_vector-first :
      (ds : Items) (fuel : ℕ) (u : Text) (h : Heap)
      → read_expr big_int from_chars strtod (suc (suc fuel)) (spelled_text (Datum.vector ds) ++ u) h
        ≡ read_vector big_int from_chars strtod (suc fuel) [] (items_text spell ds ++ u) h
  read_vector-first no_items fuel u h =
      ap (λ t. read_expr big_int from_chars strtod (suc (suc fuel)) t h)
        (text_of-vector_empty spell u)
      ∙ read_expr-vector big_int from_chars strtod (suc fuel) (")" ∷ u) h
      ∙ unfold rest_text in refl
  read_vector-first (item d ds) fuel u h =
      ap (λ t. read_expr big_int from_chars strtod (suc (suc fuel)) t h)
        (text_of-vector spell d ds u)
      ∙ read_expr-vector big_int from_chars strtod (suc fuel) _ h
      ∙ sym (read_vector-space big_int from_chars strtod fuel [] _ h)
      ∙ sym (
          ap (λ t. read_vector big_int from_chars strtod (suc fuel) [] t h)
            (items_text-item spell d ds u))

  ShowsBehind-cons :
      (os : List Object) (v w : Value) (vs : List Value) (d : Datum) (ds : Items)
      → Shows os v d
      → ShowsBehind (v ∷ vs) ds os w
      → ShowsBehind vs (item d ds) os w
  unfolding Shows
  ShowsBehind-cons os v w vs d ds s (a, ws, e, f, t) = (
    a,
    v ∷ ws,
    e,
    f
        ∙ ap (λ x. some (Object.vector x))
            (ap (λ (x : List Value). x ++ ws) (reverse-cons v vs)
              ∙ append_assoc (reverse vs) (v ∷ []) ws),
    (v, ws, refl, s, t),
  )

  read-vector : (ds : Items) → ReadsItems ds → ReadsValue (Datum.vector ds)
  unfolding Readable Shows size
  read-vector ds ih can rest h delim zero le = absurd (omega (arith, le))
  read-vector ds ih can rest h delim (suc zero) le = absurd (omega (arith, le))
  read-vector ds ih can rest h delim (suc (suc fuel)) le =
      let (v, h', e, k, (a, ws, p, f, s)) = ih can [] rest h (suc fuel) (omega (arith, le)) in
      (v, h', read_vector-first ds fuel rest h ∙ e, k, (a, ws, p, f, s))

  read-dotted : (e : Datum) → ReadsValue e → ReadsRest (dotted e)
  unfolding Readable Shows size at_delimiter is_delimiter
  read-dotted e ih (may, can) v vs d ds rest h all zero le = absurd (omega (arith, le))
  read-dotted e ih (may, can) v vs d ds rest h all (suc zero) le = absurd (omega (arith, le))
  read-dotted e ih (may, can) v vs d ds rest h all (suc (suc zero)) le = absurd (omega (arith, le))
  read-dotted e ih (may, can) v vs d ds rest h all (suc (suc (suc fuel))) le =
      let (tail, h1, e1, k1, s1) = ih can (")" ∷ rest) h refl (suc fuel) (omega (arith, le)) in
      let (w, h2, e2, k2, s2) =
        list_onto-pile (v ∷ vs) (d ∷ ds) tail (dotted e) h1
          (AllShow-Kept h.objects h1.objects k1 (v ∷ vs) (d ∷ ds) all) (may, s1) in
      (
        w,
        h2,
        ap (λ t. read_list big_int from_chars strtod (suc (suc (suc fuel))) (v ∷ vs) t h)
              (rest_text-dotted spell e rest)
            ∙ read_list-dot big_int from_chars strtod fuel v vs _ rest tail w h h1 h2 e1 e2,
        Kept-trans h.objects h1.objects h2.objects k1 k2,
        s2,
      )

  mutual
    unfolding Readable Shows size

    pub read-text : (d : Datum) → ReadsValue d
    read-text (atom w) can = λ rest h delim. spend _ (omega arith) λ fuel le.
        let (c, t, e, token) = atom-Token shortest render w can in
        (
          w,
          h,
          ap (λ t. read_expr big_int from_chars strtod (suc fuel) t h) (text_of-atom spell w rest)
              ∙ read_expr-atom (atom_text shortest render w) rest c t w fuel h e token delim
                  (atom_of-text w h can),
          λ a o f. f,
          (refl, CanRead-IsAtom w can),
        )
    read-text (text s) can = λ rest h delim. spend _ (omega arith) λ fuel le. (
      object (length h.objects),
      record h { objects = string s ∷ h.objects },
      ap (λ t. read_expr big_int from_chars strtod (suc fuel) t h) (text_of-text spell s rest)
          ∙ read_expr-string big_int from_chars strtod fuel s rest h can,
      Kept-alloc (string s) h.objects,
      (length h.objects, refl, fetch-alloc_self (string s) h.objects),
    )
    read-text (list d r) (can, cans) = λ rest h delim. spend _ (omega arith) λ fuel le.
        Reads-from _ _ _ _ _
          (ap (λ t. read_expr big_int from_chars strtod (suc fuel) t h)
              (text_of-list spell d r rest)
            ∙ read_expr-list big_int from_chars strtod fuel _ h)
          (read-cell d r (read-text d) (read-rest r) can cans [] [] rest h tt fuel
            (omega (arith, le)))
    read-text (Datum.vector ds) can = read-vector ds (read-items ds) can

    read-rest : (r : Rest) → ReadsRest r
    read-rest end can = λ v vs d ds rest h all. spend _ (omega arith) λ fuel le.
        let (w, h', e, k, s) = list_onto-pile (v ∷ vs) (d ∷ ds) nil end h all refl in
        (
          w,
          h',
          ap (λ t. read_list big_int from_chars strtod (suc fuel) (v ∷ vs) t h)
                (rest_text-end spell rest)
              ∙ read_list-close big_int from_chars strtod fuel (v ∷ vs) rest w h h' e,
          k,
          s,
        )
    read-rest (dotted e) can = read-dotted e (read-text e) can
    read-rest (more e r) (can, cans) = λ v vs d ds rest h all. spend _ (omega arith) λ fuel le.
        Reads-from _ _ _ _ _
          (ap (λ t. read_list big_int from_chars strtod (suc fuel) (v ∷ vs) t h)
              (rest_text-more spell e r rest)
            ∙ read_list-space big_int from_chars strtod fuel (v ∷ vs) _ h)
          (read-cell e r (read-text e) (read-rest r) can cans (v ∷ vs) (d ∷ ds) rest h all
            (suc fuel) (omega (arith, le)))

    read-items : (ds : Items) → ReadsItems ds
    read-items no_items can vs rest h = spend _ (omega arith) λ fuel le. (
      object (length h.objects),
      record h { objects = Object.vector (reverse vs) ∷ h.objects },
      ap (λ t. read_vector big_int from_chars strtod (suc fuel) vs t h) (items_text-none spell rest)
          ∙ read_vector-close big_int from_chars strtod fuel vs rest h,
      Kept-alloc (Object.vector (reverse vs)) h.objects,
      (
        length h.objects,
        [],
        refl,
        fetch-alloc_self (Object.vector (reverse vs)) h.objects
            ∙ ap (λ x. some (Object.vector x)) (sym (append-nil (reverse vs))),
        refl,
      ),
    )
    read-items (item d ds) (can, cans) vs rest h = spend _ (omega arith) λ fuel le.
        let u = items_text spell ds ++ rest in
        let (v, h1, k1, s1, f1, e1) =
          read_items d (read-text d) can u h (at_delimiter-items spell ds rest) fuel
            (omega (arith, le)) in
        let (w, h2, e2, k2, s2) =
          read-items ds cans (v ∷ vs) rest h1 fuel (omega (arith, le, size_pos d)) in
        (
          w,
          h2,
          ap (λ t. read_vector big_int from_chars strtod (suc fuel) vs t h)
                (items_text-item spell d ds rest)
              ∙ read_vector-space big_int from_chars strtod fuel vs _ h
              ∙ e1 vs
              ∙ e2,
          Kept-trans h.objects h1.objects h2.objects k1 k2,
          ShowsBehind-cons h2.objects v w vs d ds (Shows-Kept h1.objects h2.objects k2 d v s1) s2,
        )
