-- ===== src/Pairs/Chains.antt =====
-- What the walks along the cdrs find: the elements of a chain of pairs that ends in nil.
use mathlib.Core.List.{reverse-cons, append_assoc, append-nil}
use secd_scheme.Prelude.{
  ℕ, zero, suc, ◌+◌, ◌≤◌, ◌<◌, ◌≡◌, ◌≢◌, refl, sym, ap, subst, ◌∙◌, true, false, Option, none, some,
  List, [], ◌∷◌, ◌++◌, reverse, length, fetch, fetch-alloc, fetch-alloc_self, arith, ==_iff, String,
  Bool-cases, Option-cases, inl, inr,
}
use secd_scheme.Value.{Value, nil, object, Object, pair, Heap}
use secd_scheme.Effect.{Result, ok, pure, throw, alloc, ◌>>=◌}
use secd_scheme.Pairs.Termination.{walk_from_ends}
use secd_scheme.Pairs.{
  cdr_or, elements, as_pair?, pair_of, is_nil, same_object, Walk, finish, walk, walk_from,
  list_to_vector, make_pair, list_onto, list_from,
}

-- The value is a chain of pairs that holds these elements and ends in `tail`.
pub data Segment (os : List Object) (tail : Value) : Value → List Value → Type 0 where
  end : {v : Value} → v ≡ tail → Segment os tail v []
  link :
      {v a d : Value} {xs : List Value}
      → pair_of os v ≡ some (a, d)
      → Segment os tail d xs
      → Segment os tail v (a ∷ xs)

-- A proper list of these elements.
abbrev pub Chain : List Object → Value → List Value → Type 0
Chain os v xs = Segment os nil v xs

nil_no_pair : (os : List Object) (p : Value × Value) → pair_of os nil ≡ some p → ⊥
unfolding pair_of
nil_no_pair os p e = cc

ends_none : (os : List Object) (v : Value) → v ≡ nil → pair_of os v ≡ none
unfolding pair_of
ends_none os v e = rw e refl

finish-nil : (v : Value) (acc : List Value) → v ≡ nil → finish v acc ≡ Walk.proper (reverse acc)
unfolding finish is_nil
finish-nil v acc e = rw e refl

the_same_cdr :
    (a d b e : Value) → ◌≡◌ {A = Option (Value × Value)} (some (a, d)) (some (b, e)) → d ≡ e
the_same_cdr a d b e p = cc

-- Two chains from one value are of the same length.
pub same_length :
    {os : List Object} {v w : Value} {xs ys : List Value}
    → v ≡ w
    → Chain os v xs
    → Chain os w ys
    → length xs ≡ length ys
same_length e (Segment.end p) (Segment.end q) = refl
same_length {os} e (Segment.end p) (Segment.link q r) =
    absurd (nil_no_pair os _ (ap (pair_of os) (sym p ∙ e) ∙ q))
same_length {os} e (Segment.link q r) (Segment.end p) =
    absurd (nil_no_pair os _ (ap (pair_of os) (sym (e ∙ p)) ∙ q))
same_length {os} e (Segment.link {a = a} {d = d} p r) (Segment.link {a = b} {d = c} q s) =
    ap suc (same_length (the_same_cdr a d b c (sym p ∙ ap (pair_of os) e ∙ q)) r s)

same_object→≡ : (v w : Value) → same_object v w ≡ true → v ≡ w
unfolding same_object
same_object→≡ (object a) (object b) e = ap object ((==_iff a b).0 e)
same_object→≡ v w e = cc

-- A chain that is behind another is not at the same pair.
apart :
    {os : List Object} {v w : Value} {xs ys : List Value}
    → Chain os v xs
    → Chain os w ys
    → length xs < length ys
    → same_object v w ≡ false
apart {os} {v} {w} c d lt = elim (Bool-cases (same_object v w)) [
  | inl same ↦ absurd (omega (arith, same_length (same_object→≡ v w same) c d, lt))
  | inr differ ↦ differ
]

reverse-acc :
    (a b : Value) (acc xs : List Value)
    → (reverse (b ∷ (a ∷ acc)) ++ xs) ≡ reverse acc ++ (a ∷ (b ∷ xs))
reverse-acc a b acc xs =
    rw (reverse-cons b (a ∷ acc), reverse-cons a acc)
      (append_assoc (reverse acc ++ a ∷ []) (b ∷ []) xs
        ∙ append_assoc (reverse acc) (a ∷ []) (b ∷ xs))

-- The two pointers of the walk never meet on a chain, and it collects all its elements.
walk-Chain :
    (fuel : ℕ) (os : List Object) (slow fast : Value) (ss xs acc : List Value)
    → Chain os slow ss
    → Chain os fast xs
    → length xs ≤ length ss
    → walk fuel os slow fast acc ≢ Walk.endless
    → walk fuel os slow fast acc ≡ Walk.proper (reverse acc ++ xs)
unfolding walk finish is_nil
walk-Chain zero os slow fast ss xs acc cs cf le ends = absurd (ends refl)
walk-Chain (suc fuel) os slow fast ss xs acc cs (Segment.end p) le ends =
    rw (ends_none os fast p, walk)
      (finish-nil fast acc p ∙ ap Walk.proper (sym (append-nil (reverse acc))))
walk-Chain (suc fuel) os slow fast ss xs acc cs (Segment.link {a = a} {d = d} q (Segment.end p)) le
      ends =
    rw (q, ends_none os d p, walk) (finish-nil d (a ∷ acc) p ∙ ap Walk.proper (reverse-cons a acc))
walk-Chain (suc fuel) os slow fast ss xs acc (Segment.end z) (Segment.link q (Segment.link r t)) le
      ends =
    absurd (omega (arith, le))
walk-Chain (suc fuel) os slow fast ss xs acc (Segment.link {d = d} {xs = ys} y z)
      (Segment.link {a = a} q (Segment.link {a = b} {d = e} {xs = zs} r t)) le ends =
    rw (q, r, y, apart t z (omega (arith, le)), walk, y)
      (walk-Chain fuel os d e ys zs (b ∷ (a ∷ acc)) z t (omega (arith, le))
          (λ e. ends (rw (q, r, y, apart t z (omega (arith, le)), walk, y) e))
        ∙ ap Walk.proper (reverse-acc a b acc zs))

pub walk_from-Chain :
    (os : List Object) (v : Value) (xs : List Value)
    → Chain os v xs
    → walk_from os v ≡ Walk.proper xs
unfolding walk_from
walk_from-Chain os v xs c =
    walk-Chain (suc (length os)) os v v xs xs [] c c (omega arith) (walk_from_ends os v)

-- A proper list is read with no error and enough fuel, whatever its length and whatever else the heap
-- holds: the result is its elements in their order, and the heap is not changed.
pub list_to_vector-Chain :
    (h : Heap) (v : Value) (xs : List Value) (who : String)
    → Chain h.objects v xs
    → list_to_vector v who h ≡ ok xs h
unfolding list_to_vector pure
list_to_vector-Chain h v xs who c = rw (walk_from-Chain h.objects v xs c) refl

pub pair_of-alloc :
    (os : List Object) (o : Object) (v : Value) (p : Value × Value)
    → pair_of os v ≡ some p
    → pair_of (o ∷ os) v ≡ some p
unfolding pair_of
pair_of-alloc os o (object a) p e = old (fetch a os) refl e
  where
    old :
        (f : Option Object)
        → fetch a os ≡ f
        → as_pair? f ≡ some p
        → as_pair? (fetch a (o ∷ os)) ≡ some p
    old (some x) there q = rw (fetch-alloc a o os there) q
    old none there q = cc
pair_of-alloc os o v p e = cc

pub Segment-alloc :
    {os : List Object} {tail v : Value} {xs : List Value} (o : Object)
    → Segment os tail v xs
    → Segment (o ∷ os) tail v xs
Segment-alloc o (Segment.end p) = Segment.end p
Segment-alloc {os} o (Segment.link q r) =
    Segment.link (pair_of-alloc os o _ _ q) (Segment-alloc o r)

-- What `list_onto` returns: a chain, in a heap that has as many objects more as there are elements.
abbrev pub Built : Heap → Value → List Value → Result Value → Type 0
Built h tail xs r =
    (v : Value) × (h' : Heap) × (r ≡ ok v h')
    × (length h'.objects ≡ length xs + length h.objects)
    × ((ys : List Value) → Chain h.objects tail ys → Chain h'.objects v (xs ++ ys))

pub list_onto-Built :
    (xs : List Value) (tail : Value) (h : Heap) → Built h tail xs (list_onto xs tail h)
unfolding list_onto make_pair alloc pair_of ◌>>=◌ pure
list_onto-Built [] tail h = (tail, h, refl, omega arith, λ ys c. c)
list_onto-Built (x ∷ xs) tail h =
    let (v, h', e, l, c) = list_onto-Built xs tail h in
    (
      object (length h'.objects),
      record h' { objects = pair x v ∷ h'.objects },
      rw e refl,
      omega (arith, l),
      λ ys t.
          Segment.link (ap as_pair? (fetch-alloc_self (pair x v) h'.objects))
            (Segment-alloc (pair x v) (c ys t)),
    )

-- On any heap `list_from` returns a list that `list_to_vector` reads back: the same elements in their
-- order, with no error and enough fuel, and reading changes nothing.
pub list_to_vector-list_from :
    (xs : List Value) (who : String) (h : Heap)
    → (v : Value) × (h' : Heap) × (list_from xs h ≡ ok v h') × (list_to_vector v who h' ≡ ok xs h')
unfolding list_from
list_to_vector-list_from xs who h =
    let (v, h', e, l, c) = list_onto-Built xs nil h in
    (
      v,
      h',
      e,
      list_to_vector-Chain h' v xs who (
          subst (λ (ys : List Value). Chain h'.objects v ys) (append-nil xs)
            (c [] (Segment.end refl))),
    )

the_elements : (xs ys : List Value) → Walk.proper xs ≡ Walk.proper ys → ys ≡ xs
the_elements xs ys e = cc

finish-proper :
    (v : Value) (acc ys : List Value)
    → finish v acc ≡ Walk.proper ys
    → (v ≡ nil) × (ys ≡ reverse acc)
unfolding finish is_nil
finish-proper nil acc ys e = (refl, the_elements (reverse acc) ys e)
finish-proper v acc ys e = cc

-- What the walk collects is what the chain holds.
proper-Chain :
    (fuel : ℕ) (os : List Object) (slow fast : Value) (acc ys : List Value)
    → walk fuel os slow fast acc ≡ Walk.proper ys
    → (xs : List Value) × Chain os fast xs × (ys ≡ reverse acc ++ xs)
unfolding walk
proper-Chain zero os slow fast acc ys e = cc
proper-Chain (suc fuel) os slow fast acc ys e = elim (Option-cases (pair_of os fast)) [
  | inl p ↦
      let (n, r) = finish-proper fast acc ys (rw (p, walk) at e) in
      ([], Segment.end n, r ∙ sym (append-nil (reverse acc)))
  | inr ((a, d), p) ↦ elim (Option-cases (pair_of os d)) [
    | inl q ↦
        let (n, r) = finish-proper d (a ∷ acc) ys (rw (p, q, walk) at e) in
        (a ∷ [], Segment.link p (Segment.end n), r ∙ reverse-cons a acc)
    | inr ((b, f), q) ↦ elim (Bool-cases (same_object f (cdr_or (pair_of os slow) slow))) [
      | inl met ↦ absurd (no_circle ys (rw (p, q, met, walk) at e))
      | inr go_on ↦
          let (xs, c, r) =
            proper-Chain fuel os (cdr_or (pair_of os slow) slow) f (b ∷ (a ∷ acc)) ys
              (rw (p, q, go_on, walk) at e) in
          (a ∷ (b ∷ xs), Segment.link p (Segment.link q c), r ∙ reverse-acc a b acc xs)
    ]
  ]
]
  where
    no_circle : (ys : List Value) → Walk.circular ≡ Walk.proper ys → ⊥
    no_circle ys e = cc

-- What `list_to_vector` returns, if it returns, are the elements of a proper list that stands there, and
-- the heap is not changed.
pub Chain-list_to_vector :
    (h h' : Heap) (v : Value) (xs : List Value) (who : String)
    → list_to_vector v who h ≡ ok xs h'
    → Chain h.objects v xs × (h' ≡ h)
unfolding list_to_vector walk_from pure throw
Chain-list_to_vector h h' v xs who e = of_walk (walk_from h.objects v) refl e
  where
    returned : (zs : List Value) → ok zs h ≡ ok xs h' → (zs ≡ xs) × (h' ≡ h)
    returned zs e = (cc, cc)

    of_walk :
        (w : Walk)
        → walk_from h.objects v ≡ w
        → elements who w h ≡ ok xs h'
        → Chain h.objects v xs × (h' ≡ h)
    of_walk (Walk.proper zs) found e =
        let (ys, c, r) = proper-Chain (suc (length h.objects)) h.objects v v [] zs found in
        let (same, stay) = returned zs e in
        (subst (λ (l : List Value). Chain h.objects v l) (sym r ∙ same) c, stay)
    of_walk _ found e = cc
