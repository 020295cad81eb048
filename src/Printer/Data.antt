-- ===== src/Printer/Data.antt =====
-- The printer writes the text of the tree that a value shows: what it meets below a value is never on
-- the path, since a pair or a vector on the path shows a larger tree.
use mathlib.Core.List.{append_assoc}
use secd_scheme.Prelude.{
  ℕ, suc, ◌+◌, ◌*◌, ◌≤◌, ◌<◌, ◌≡◌, refl, ap, subst, ◌∙◌, inl, inr, Bool, true, false, if◌then◌else◌,
  none, some, List, [], ◌∷◌, ◌++◌, Addr, fetch, ◌==◌, ==_iff, Bool-cases, spend, Text, chars, arith,
}
use secd_scheme.Value.{Value, nil, object, Object, pair, string, Message}
use secd_scheme.Pairs.{pair_of, is_nil}
use secd_scheme.Datum.{
  Datum, Rest, Items, atom, text, list, vector, end, dotted, more, no_items, item, size, size_rest,
  size_items, size_pos, IsAtom, CanEnd, Shows, ShowsRest, ShowsItems, Shows-unique,
}
use secd_scheme.Datum.Spelling.{text_of, rest_text, items_text}
use secd_scheme.Printer.{
  joined, write_items, on_path, atom_text, write_value, write_list, to_string,
}

-- Every address on the path shows a tree that is larger than the bound.
abbrev Above : List Object → ℕ → List Addr → Type 0
Above os n [] = Unit
Above os n (a ∷ path) = ((d : Datum) × Shows os (object a) d × (n < size d)) × Above os n path

Above-le :
    (os : List Object) (m n : ℕ) (path : List Addr) → m ≤ n → Above os n path → Above os m path
Above-le os m n [] le up = tt
Above-le os m n (a ∷ path) le ((d, s, lt), up) =
    ((d, s, omega (arith, le, lt)), Above-le os m n path le up)

on_path-Above :
    (os : List Object) (path : List Addr) (a : Addr) (d : Datum)
    → Shows os (object a) d
    → Above os (size d) path
    → on_path a path ≡ false
unfolding on_path
on_path-Above os [] a d s up = refl
on_path-Above os (b ∷ path) a d s ((e, t, lt), up) = elim (Bool-cases (a == b)) [
  | inl same ↦
      let equal : d ≡ e =
        Shows-unique os d e (object b) (subst (λ c. Shows os (object c) d) ((==_iff a b).0 same) s)
          t in
      absurd (omega (arith, lt, ap size equal))
  | inr differ ↦ rw differ (on_path-Above os path a d s up)
]

CanEnd-tail :
    (os : List Object) (d : Datum) (v : Value)
    → CanEnd d
    → Shows os v d
    → (pair_of os v ≡ none) × (is_nil v ≡ false)
unfolding Shows pair_of is_nil
CanEnd-tail os (atom nil) v c s = absurd c
CanEnd-tail os (atom (object a)) v c (e, i) = absurd i
CanEnd-tail os (atom w) v c (e, i) = (rw e refl, rw e refl)
CanEnd-tail os (text t) v c (a, e, f) = (rw (e, f) refl, rw e refl)
CanEnd-tail os (list d r) v c s = absurd c
CanEnd-tail os (vector ds) v c (a, vs, e, f, s) = (rw (e, f) refl, rw e refl)

pair_of-fetch :
    (os : List Object) (a : Addr) (x d : Value)
    → fetch a os ≡ some (pair x d)
    → pair_of os (object a) ≡ some (x, d)
unfolding pair_of
pair_of-fetch os a x d f = rw f refl

-- The path below a pair.
below_list :
    (os : List Object) (path : List Addr) (a : Addr) (d : Datum) (r : Rest)
    → Shows os (object a) (list d r)
    → Above os (size (list d r)) path
    → Above os (size d) (a ∷ path) × Above os (size_rest r) (a ∷ path)
unfolding size
below_list os path a d r s up = (
  ((list d r, s, omega arith), Above-le os _ _ path (omega arith) up),
  ((list d r, s, omega (arith)), Above-le os _ _ path (omega arith) up),
)

below_vector :
    (os : List Object) (path : List Addr) (a : Addr) (ds : Items)
    → Shows os (object a) (vector ds)
    → Above os (size (vector ds)) path
    → Above os (size_items ds) (a ∷ path)
unfolding size
below_vector os path a ds s up =
    ((vector ds, s, omega arith), Above-le os _ _ path (omega arith) up)

module _ (shortest : ℕ → Text) (render : Message → Text) where
  abbrev spelled : Datum → Text
  spelled d = text_of (atom_text shortest render) d

  abbrev WritesValue : Datum → Type 0
  WritesValue d =
      (os : List Object) (path : List Addr) (v : Value)
      → Shows os v d
      → Above os (size d) path
      → (fuel : ℕ) → 2 * size d ≤ fuel
      → write_value shortest render fuel os path v ≡ some (spelled d)

  abbrev WritesRest : Rest → Type 0
  WritesRest r =
      (os : List Object) (path : List Addr) (v : Value)
      → ShowsRest os v r
      → Above os (size_rest r) path
      → (fuel : ℕ) → 2 * size_rest r + 1 ≤ fuel
      → write_list shortest render fuel os path false v
        ≡ some (rest_text (atom_text shortest render) r)

  abbrev WritesItems : Items → Type 0
  WritesItems ds =
      (os : List Object) (path : List Addr) (vs : List Value)
      → ShowsItems os vs ds
      → Above os (size_items ds) path
      → (fuel : ℕ) → 2 * size_items ds ≤ fuel
      → (t : Text) × (write_items (write_value shortest render fuel os path) false vs ≡ some t)
        × ((t ++ chars ")") ≡ items_text (atom_text shortest render) ds)

  write_atom :
      (w : Value)
      → IsAtom w
      → (os : List Object) (path : List Addr) (fuel : ℕ)
      → write_value shortest render (suc fuel) os path w ≡ some (atom_text shortest render w)
  unfolding write_value
  write_atom (object a) i os path fuel = absurd i
  write_atom _ i os path fuel = refl

  write_text :
      (os : List Object) (path : List Addr) (fuel : ℕ) (a : Addr) (t : Text)
      → fetch a os ≡ some (string t)
      → write_value shortest render (suc fuel) os path (object a) ≡ some (spelled (text t))
  unfolding write_value text_of
  write_text os path fuel a t f = rw (f, write_value) refl

  write_open :
      (os : List Object) (path : List Addr) (fuel : ℕ) (a : Addr) (x d : Value)
      → fetch a os ≡ some (pair x d)
      → write_value shortest render (suc fuel) os path (object a)
        ≡ joined (some (chars "(")) (write_list shortest render fuel os path true (object a))
  unfolding write_value
  write_open os path fuel a x d f = rw (f, write_value) refl

  write_vector :
      (os : List Object) (path : List Addr) (fuel : ℕ) (a : Addr) (vs : List Value)
      → fetch a os ≡ some (Object.vector vs)
      → on_path a path ≡ false
      → write_value shortest render (suc fuel) os path (object a)
        ≡ joined (some (chars "#(")) (
            joined
              (write_items (write_value shortest render fuel os (a ∷ path)) true vs)
              (some (chars ")")))
  unfolding write_value
  write_vector os path fuel a vs f off = rw (f, off, write_value) refl

  wrote_cell :
      (os : List Object) (path : List Addr) (fuel : ℕ) (first : Bool) (a : Addr) (x d : Value)
      (t u : Text)
      → fetch a os ≡ some (pair x d)
      → on_path a path ≡ false
      → write_value shortest render fuel os (a ∷ path) x ≡ some t
      → write_list shortest render fuel os (a ∷ path) false d ≡ some u
      → write_list shortest render (suc fuel) os path first (object a)
        ≡ some ((if first then [] else " " ∷ []) ++ (t ++ u))
  unfolding write_value
  wrote_cell os path fuel first a x d t u f off one two =
      rw (pair_of-fetch os a x d f, off, one, two, write_list) refl

  write_tail :
      (os : List Object) (path : List Addr) (fuel : ℕ) (v : Value) (t : Text)
      → pair_of os v ≡ none
      → is_nil v ≡ false
      → write_value shortest render fuel os path v ≡ some t
      → write_list shortest render (suc fuel) os path false v
        ≡ some (chars " . " ++ (t ++ chars ")"))
  unfolding write_value
  write_tail os path fuel v t p n one = rw (p, n, one, write_list) refl

  write_end :
      (os : List Object) (path : List Addr) (fuel : ℕ) (v : Value)
      → v ≡ nil
      → write_list shortest render (suc fuel) os path false v ≡ some (chars ")")
  unfolding write_value pair_of is_nil
  write_end os path fuel v e = rw e refl

  -- A pair, from what is written of its car and of its cdr.
  wrote_pair :
      (d : Datum) (r : Rest)
      → WritesValue d
      → WritesRest r
      → (os : List Object) (path : List Addr) (first : Bool) (a : Addr)
      → Shows os (object a) (list d r)
      → Above os (size (list d r)) path
      → (fuel : ℕ) → 1 + 2 * size d + 2 * size_rest r ≤ fuel
      → write_list shortest render fuel os path first (object a)
        ≡ some (
            (if first then [] else " " ∷ [])
            ++ (spelled d ++ rest_text (atom_text shortest render) r))
  unfolding Shows
  wrote_pair d r one two os path first a (b, x, tail, e, f, s, t) up =
      let here : fetch a os ≡ some (pair x tail) = cc in
      let shown : Shows os (object a) (list d r) = (b, x, tail, e, f, s, t) in
      let (up_car, up_cdr) = below_list os path a d r shown up in
      spend _ (omega arith) λ fuel le.
        wrote_cell os path fuel first a x tail _ _ here
          (on_path-Above os path a (list d r) shown up)
          (one os (a ∷ path) x s up_car fuel (omega (arith, le)))
          (two os (a ∷ path) tail t up_cdr fuel (omega (arith, le, size_pos d)))

  mutual
    unfolding text_of size Shows write_items

    write_value-Writes : (d : Datum) → WritesValue d
    write_value-Writes (atom w) os path v (e, i) up =
        spend _ (omega arith) λ f le. rw e (write_atom w i os path f)
    write_value-Writes (text t) os path v (a, e, f) up =
        spend _ (omega arith) λ fuel le. rw e (write_text os path fuel a t f)
    write_value-Writes (list d r) os path v (a, x, tail, e, f, s, t) up =
        let cells =
          wrote_pair d r (write_value-Writes d) (write_list-Writes r) os path true a
            (a, x, tail, refl, f, s, t) up in
        spend _ (omega arith)
          λ fuel le. rw (e, write_open os path fuel a x tail f, cells fuel (omega (arith, le))) refl
    write_value-Writes (vector no_items) os path v (a, vs, e, f, s) up =
        let off = on_path-Above os path a (vector no_items) (a, vs, refl, f, s) up in
        spend _ (omega arith) λ fuel le. rw (e, write_vector os path fuel a vs f off, s) refl
    write_value-Writes (vector (item d ds)) os path v (a, vs, e, f, (x, xs, p, s, t)) up =
        let shown : Shows os (object a) (vector (item d ds)) = (a, vs, refl, f, (x, xs, p, s, t)) in
        let off = on_path-Above os path a (vector (item d ds)) shown up in
        let below = below_vector os path a (item d ds) shown up in
        spend _ (omega arith) λ fuel le.
          let one =
            write_value-Writes d os (a ∷ path) x s (Above-le os _ _ (a ∷ path) (omega arith) below)
              fuel (omega (arith, le)) in
          let (u, two, q) =
            write_items-Writes ds os (a ∷ path) xs t
              (Above-le os _ _ (a ∷ path) (omega arith) below) fuel (omega (arith, le)) in
          rw (e, write_vector os path fuel a vs f off, p, write_items, one, two)
            (ap (λ y. some (chars "#(" ++ y))
              (append_assoc (spelled d) u (chars ")") ∙ ap (λ y. spelled d ++ y) q))

    write_list-Writes : (r : Rest) → WritesRest r
    write_list-Writes end os path v e up =
        spend _ (omega arith) λ fuel le. write_end os path fuel v e
    write_list-Writes (dotted d) os path v (c, s) up = spend _ (omega arith) λ fuel le.
        let (p, n) = CanEnd-tail os d v c s in
        write_tail os path fuel v _ p n (
          write_value-Writes d os path v s (Above-le os _ _ path (omega arith) up) fuel
            (omega (arith, le)))
    write_list-Writes (more d r) os path v (a, x, tail, e, f, s, t) up = λ fuel le. rw e (
        wrote_pair d r (write_value-Writes d) (write_list-Writes r) os path false a
          (a, x, tail, refl, f, s, t) up fuel (omega (arith, le)))

    write_items-Writes : (ds : Items) → WritesItems ds
    write_items-Writes no_items os path vs e up fuel le = ([], rw e refl, refl)
    write_items-Writes (item d ds) os path vs (x, xs, p, s, t) up fuel le =
        let one =
          write_value-Writes d os path x s (Above-le os _ _ path (omega arith) up) fuel
            (omega (arith, le)) in
        let (u, two, q) =
          write_items-Writes ds os path xs t (Above-le os _ _ path (omega arith) up) fuel
            (omega (arith, le)) in
        (
          chars " " ++ (spelled d ++ u),
          rw (p, write_items, one, two) refl,
          ap (λ y. chars " " ++ y)
              (append_assoc (spelled d) u (chars ")") ∙ ap (λ y. spelled d ++ y) q),
        )

  -- With fuel of twice the size of the tree that a value shows, the printer writes the text of the
  -- tree, whatever else the heap holds.
  pub to_string-Shows :
      (os : List Object) (v : Value) (d : Datum)
      → Shows os v d
      → (fuel : ℕ) → 2 * size d ≤ fuel
      → to_string shortest render fuel os v ≡ some (text_of (atom_text shortest render) d)
  unfolding to_string
  to_string-Shows os v d s fuel le = write_value-Writes d os [] v s tt fuel le
