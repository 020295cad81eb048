-- ===== src/Primitives/Equality/Data.antt =====
-- `equal?` decides whether two values show the same tree.
use secd_scheme.Prelude.{
  ℕ, zero, suc, ◌+◌, ◌*◌, ◌≤◌, ◌==◌, ==_iff, ◌≡◌, ◌≢◌, ◌⊎◌, inl, inr, refl, sym, ap, subst, ◌∙◌,
  Bool, true, false, Option, none, some, List, [], ◌∷◌, length, Addr, fetch, Bool-cases, Text,
  arith,
}
use secd_scheme.Value.{Value, nil, object, Object, pair, string, vector}
use secd_scheme.Datum.{
  Datum, Rest, Items, atom, text, list, end, dotted, more, no_items, item, size, size_rest,
  size_items, size_pos, IsAtom, Shows, ShowsRest, ShowsItems, Shows-unique, kind, kind_at, kind_of,
  kind-Shows, kind-ShowsRest, kind_CanEnd, atom_kind,
}
use secd_scheme.Primitives.{eqv_values}
use secd_scheme.Primitives.Identity.{eqv_values_iff}
use secd_scheme.Primitives.Equality.{
  same_text, SeenMap, find, Both, both_of, all_equal, equal_values, equal_pairs, equal_tails,
}
use secd_scheme.Primitives.Equality.Parts.{
  Decides, Decides-from, Decides-map, Decides-both, Above, Above-le, find-Above, same_text-Decides,
  whole, whole-Shows, whole-injective, pairs_at, both_of-unlike,
}

abbrev DecidesValue : ℕ → Type 0
DecidesValue fuel =
    (os : List Object) (seen : SeenMap) (x y : Value) (d e : Datum)
    → Shows os x d
    → Shows os y e
    → Above os (size d) seen
    → 3 * size d ≤ fuel + 2
    → Decides (d ≡ e) (equal_values fuel os seen x y)

abbrev DecidesPairs : ℕ → Type 0
DecidesPairs fuel =
    (os : List Object) (seen : SeenMap) (a : Addr) (x t : Value) (b : Addr) (y u : Value)
    (d e : Datum) (r q : Rest)
    → fetch a os ≡ some (pair x t)
    → Shows os x d
    → ShowsRest os t r
    → Shows os y e
    → ShowsRest os u q
    → Above os (size (list d r)) seen
    → 3 * (size d + size_rest r) ≤ fuel
    → Decides ((d ≡ e) × (r ≡ q)) (equal_pairs fuel os seen a x t b y u)

abbrev DecidesTails : ℕ → Type 0
DecidesTails fuel =
    (os : List Object) (seen : SeenMap) (t u : Value) (r q : Rest)
    → ShowsRest os t r
    → ShowsRest os u q
    → Above os (size (whole r)) seen
    → 2 + 3 * size_rest r ≤ fuel
    → Decides (r ≡ q) (equal_tails fuel os seen t u (both_of os t u))

-- Two values that are the same, or unlike.
eqv_unique :
    (os : List Object) (x y : Value) (d e : Datum)
    → Shows os x d
    → Shows os y e
    → eqv_values x y ≡ true
    → d ≡ e
eqv_unique os x y d e s t same =
    Shows-unique os d e y (subst (λ z. Shows os z d) ((eqv_values_iff x y).0 same) s) t

equal-same :
    (fuel : ℕ) (os : List Object) (seen : SeenMap) (x y : Value)
    → eqv_values x y ≡ true
    → equal_values (suc fuel) os seen x y ≡ some true
unfolding equal_values
equal-same fuel os seen x y same = rw (same, equal_values) refl

equal-unlike :
    (fuel : ℕ) (os : List Object) (seen : SeenMap) (x y : Value)
    → eqv_values x y ≡ false
    → both_of os x y ≡ Both.unlike
    → equal_values (suc fuel) os seen x y ≡ some false
unfolding equal_values
equal-unlike fuel os seen x y differ b = rw (differ, b, equal_values) refl

equal-texts :
    (fuel : ℕ) (os : List Object) (seen : SeenMap) (x y : Value) (a b : Addr) (s t : Text)
    → eqv_values x y ≡ false
    → x ≡ object a
    → fetch a os ≡ some (string s)
    → y ≡ object b
    → fetch b os ≡ some (string t)
    → equal_values (suc fuel) os seen x y ≡ some (same_text s t)
unfolding equal_values both_of
equal-texts fuel os seen x y a b s t differ e f g h =
    let both : both_of os x y ≡ Both.texts s t = rw (e, g, f, h) refl in
    rw (differ, both, equal_values) refl

equal-pair :
    (fuel : ℕ) (os : List Object) (seen : SeenMap) (x y : Value) (a b : Addr) (v d w e : Value)
    → eqv_values x y ≡ false
    → x ≡ object a
    → fetch a os ≡ some (pair v d)
    → y ≡ object b
    → fetch b os ≡ some (pair w e)
    → equal_values (suc fuel) os seen x y ≡ equal_pairs fuel os seen a v d b w e
unfolding equal_values both_of
equal-pair fuel os seen x y a b v d w e differ p f q h =
    let both : both_of os x y ≡ Both.pairs a v d b w e = rw (p, q, f, h) refl in
    rw (differ, both, equal_values) refl

equal-vectors :
    (fuel : ℕ) (os : List Object) (seen : SeenMap) (x y : Value) (a b : Addr) (vs ws : List Value)
    → eqv_values x y ≡ false
    → x ≡ object a
    → fetch a os ≡ some (vector vs)
    → y ≡ object b
    → fetch b os ≡ some (vector ws)
    → find a seen ≡ none
    → equal_values (suc fuel) os seen x y ≡ (elim (length vs == length ws) [
      | true ↦ all_equal (equal_values fuel os ((a, b) ∷ seen)) vs ws
      | false ↦ some false
    ])
unfolding equal_values both_of
equal-vectors fuel os seen x y a b vs ws differ p f q h fresh =
    let both : both_of os x y ≡ Both.vectors a vs b ws = rw (p, q, f, h) refl in
    rw (differ, both, fresh, equal_values) refl

both_of-atom : (os : List Object) (x y w : Value) → x ≡ w → IsAtom w → both_of os x y ≡ Both.unlike
unfolding both_of
both_of-atom os x y (object a) e i = absurd i
both_of-atom os x y nil e i = rw e refl
both_of-atom os x y w e i = rw e refl

-- The elements of two vectors, given that each pair of elements is decided.
all_equal-Decides :
    (os : List Object) (bound : ℕ) (eq : Value → Value → Option Bool)
    → ((x y : Value) (d e : Datum)
        → Shows os x d
        → Shows os y e
        → size d ≤ bound
        → Decides (d ≡ e) (eq x y))
    → (vs ws : List Value) (ds es : Items) → ShowsItems os vs ds
    → ShowsItems os ws es
    → size_items ds ≤ bound
    → length vs ≡ length ws
    → Decides (ds ≡ es) (all_equal eq vs ws)
unfolding all_equal Shows size
all_equal-Decides os bound eq k vs ws no_items no_items s t le l = inl (rw s refl, refl)
all_equal-Decides os bound eq k vs ws no_items (item e es) s (w, us, q, h, t) le l =
    absurd
      (omega (arith, ap (λ (z : List Value). length z) s, ap (λ (z : List Value). length z) q, l))
all_equal-Decides os bound eq k vs ws (item d ds) no_items (v, xs, p, h, s) t le l =
    absurd
      (omega (arith, ap (λ (z : List Value). length z) t, ap (λ (z : List Value). length z) p, l))
all_equal-Decides os bound eq k vs ws (item d ds) (item e es) (v, xs, p, g, s) (w, us, q, h, t) le
      l =
    rw (p, q)
      (Decides-both (eq v w) (all_equal eq xs us) (k v w d e g h (omega (arith, le)))
        (λ same. all_equal-Decides os bound eq k xs us ds es s t (omega (arith, le)) (
          omega
            (arith, l, ap (λ (z : List Value). length z) p, ap (λ (z : List Value). length z) q)))
        (λ p q. cc) (λ r. (cc, cc)))

abbrev count : Items → ℕ
count no_items = 0
count (item d ds) = suc (count ds)

count-Shows :
    (os : List Object) (vs : List Value) (ds : Items) → ShowsItems os vs ds → length vs ≡ count ds
unfolding Shows
count-Shows os vs no_items e = rw e refl
count-Shows os vs (item d ds) (v, ws, e, s, t) = rw e (ap suc (count-Shows os ws ds t))

-- Two trees of different kinds are shown by values that `equal?` tells apart at once.
kinds_differ :
    (fuel : ℕ) (os : List Object) (seen : SeenMap) (x y : Value) (d e : Datum)
    → Shows os x d
    → Shows os y e
    → eqv_values x y ≡ false
    → kind_of d ≢ kind_of e
    → Decides (d ≡ e) (equal_values (suc fuel) os seen x y)
kinds_differ fuel os seen x y d e s t differ n = inr (
  equal-unlike fuel os seen x y differ
      (both_of-unlike os x y (λ k. n (sym (kind-Shows os d x s) ∙ k ∙ kind-Shows os e y t))),
  λ p. n (ap kind_of p),
)

-- An atom is equal to the same atom alone.
atom-Decides :
    (fuel : ℕ) (os : List Object) (seen : SeenMap) (x y w : Value) (e : Datum)
    → Shows os x (atom w)
    → Shows os y e
    → eqv_values x y ≡ false
    → Decides (atom w ≡ e) (equal_values (suc fuel) os seen x y)
unfolding Shows
atom-Decides fuel os seen x y w e (p, i) t differ = inr (
  equal-unlike fuel os seen x y differ (both_of-atom os x y w p i),
  λ same.
      let (q, j) : (y ≡ w) × IsAtom w = subst (Shows os y) (sym same) t in
      let one : eqv_values x y ≡ true = (eqv_values_iff x y).1 (p ∙ sym q) in cc,
)

vectors-Decide :
    (fuel : ℕ)
    → DecidesValue fuel
    → (os : List Object) (seen : SeenMap) (x y : Value) (ds es : Items)
    → Shows os x (Datum.vector ds)
    → Shows os y (Datum.vector es)
    → eqv_values x y ≡ false
    → Above os (size (Datum.vector ds)) seen
    → 3 * size (Datum.vector ds) ≤ suc fuel + 2
    → Decides (Datum.vector ds ≡ Datum.vector es) (equal_values (suc fuel) os seen x y)
unfolding Shows size
vectors-Decide fuel ih os seen x y ds es (a, vs, p, f, s) (b, ws, q, h, t) differ up le =
    let fresh = find-Above os seen a (Datum.vector ds) (a, vs, refl, f, s) up in
    let step = equal-vectors fuel os seen x y a b vs ws differ p f q h fresh in
    elim (Bool-cases (length vs == length ws)) [
      | inl same ↦
          let len = (==_iff (length vs) (length ws)).0 same in
          let below : Above os (size_items ds) ((a, b) ∷ seen) = (
            (Datum.vector ds, (a, vs, refl, f, s), omega arith),
            Above-le os _ _ seen (omega arith) up,
          ) in
          let items =
            all_equal-Decides os (size_items ds) (equal_values fuel os ((a, b) ∷ seen))
              (λ v w d e k l small.
                ih os ((a, b) ∷ seen) v w d e k l (Above-le os _ _ ((a, b) ∷ seen) small below)
                  (omega (arith, small, le)))
              vs ws ds es s t (omega arith) len in
          Decides-from (rw same at step) (Decides-map (λ e. ap Datum.vector e) (λ e. cc) items)
      | inr other ↦ inr (
        rw other at step,
        λ e.
            let items : ds ≡ es = cc in
            let len : length vs ≡ length ws =
              count-Shows os vs ds s ∙ ap count items ∙ sym (count-Shows os ws es t) in
            let bad : (length vs == length ws) ≡ true = (==_iff (length vs) (length ws)).1 len in
            cc,
      )
    ]

-- A round of `equal_values` on two values that are not the same pointer or number.
value-Decides :
    (fuel : ℕ)
    → DecidesValue fuel
    → DecidesPairs fuel
    → (os : List Object) (seen : SeenMap) (x y : Value) (d e : Datum) → Shows os x d
    → Shows os y e
    → eqv_values x y ≡ false
    → Above os (size d) seen
    → 3 * size d ≤ suc fuel + 2
    → Decides (d ≡ e) (equal_values (suc fuel) os seen x y)
unfolding Shows size
value-Decides fuel ih pairs os seen x y (atom w) e s t differ up le =
    atom-Decides fuel os seen x y w e s t differ
value-Decides fuel ih pairs os seen x y (text s) (text t) (a, p, f) (b, q, h) differ up le =
    Decides-from (equal-texts fuel os seen x y a b s t differ p f q h)
      (Decides-map (λ e. ap text e) (λ e. cc) (same_text-Decides s t))
value-Decides fuel ih pairs os seen x y (list d r) (list e u) (a, v, l, p, f, s, t)
      (b, w, m, q, h, s', t') differ up le =
    Decides-from (equal-pair fuel os seen x y a b v l w m differ p f q h) (
      Decides-map (λ (g, k). cc) (λ e. (cc, cc))
        (pairs os seen a v l b w m d e r u f s t s' t' up (omega (arith, le))))
value-Decides fuel ih pairs os seen x y (Datum.vector ds) (Datum.vector es) s t differ up le =
    vectors-Decide fuel ih os seen x y ds es s t differ up le
value-Decides fuel ih pairs os seen x y d (atom w) s t differ up le =
    kinds_differ fuel os seen x y d (atom w) s t differ (λ e. omega (arith, e, atom_kind w))
value-Decides fuel ih pairs os seen x y d e s t differ up le =
    kinds_differ fuel os seen x y d e s t differ (λ e. omega (arith, e))

pair_step :
    (fuel : ℕ) (os : List Object) (seen : SeenMap) (a : Addr) (x t : Value) (b : Addr) (y u : Value)
    → find a seen ≡ none
    → equal_pairs (suc fuel) os seen a x t b y u
      ≡ (elim (equal_values fuel os ((a, b) ∷ seen) x y) [
        | none ↦ none
        | some false ↦ some false
        | some true ↦ elim (eqv_values t u) [
          | true ↦ some true
          | false ↦ equal_tails fuel os ((a, b) ∷ seen) t u (both_of os t u)
        ]
      ])
unfolding equal_values
pair_step fuel os seen a x t b y u fresh = rw (fresh, equal_pairs) refl

size_whole : (r : Rest) → size (whole r) ≤ 1 + size_rest r
unfolding size
size_whole end = omega arith
size_whole (dotted d) = omega arith
size_whole (more d r) = omega arith

pairs-Decide : (fuel : ℕ) → DecidesValue fuel → DecidesTails fuel → DecidesPairs (suc fuel)
unfolding Shows size
pairs-Decide fuel ih tails os seen a x t b y u d e r q f s sr s' sq up le =
    let fresh = find-Above os seen a (list d r) (a, x, t, refl, f, s, sr) up in
    let below : Above os (size d + size_rest r) ((a, b) ∷ seen) =
      ((list d r, (a, x, t, refl, f, s, sr), omega arith), Above-le os _ _ seen (omega arith) up) in
    let smaller : size (whole r) ≤ size d + size_rest r = omega (arith, size_whole r, size_pos d) in
    Decides-from (pair_step fuel os seen a x t b y u fresh) (
      Decides-both _ _
        (ih os ((a, b) ∷ seen) x y d e s s' (Above-le os _ _ ((a, b) ∷ seen) (omega arith) below)
          (omega (arith, le)))
        (λ same. after fresh below smaller) (λ g k. (g, k)) (λ g. g))
  where
    after :
        find a seen ≡ none
        → Above os (size d + size_rest r) ((a, b) ∷ seen)
        → size (whole r) ≤ size d + size_rest r
        → Decides (r ≡ q) (elim (eqv_values t u) [
          | true ↦ some true
          | false ↦ equal_tails fuel os ((a, b) ∷ seen) t u (both_of os t u)
        ])
    after fresh below smaller = elim (Bool-cases (eqv_values t u)) [
      | inl same ↦ rw same (
          inl (
            refl,
            whole-injective os t u r q sr sq (
                eqv_unique os t u (whole r) (whole q) (whole-Shows os t r sr)
                  (whole-Shows os u q sq) same),
          ))
      | inr differ ↦ rw differ (
          tails os ((a, b) ∷ seen) t u r q sr sq (Above-le os _ _ ((a, b) ∷ seen) smaller below)
            (omega (arith, le, size_pos d)))
    ]

tails_on :
    (fuel : ℕ) (os : List Object) (seen : SeenMap) (t u : Value) (a : Addr) (v d : Value) (b : Addr)
    (w e : Value)
    → equal_tails (suc fuel) os seen t u (Both.pairs a v d b w e)
      ≡ equal_pairs fuel os seen a v d b w e
unfolding equal_values
tails_on fuel os seen t u a v d b w e = refl

tails_texts :
    (fuel : ℕ) (os : List Object) (seen : SeenMap) (t u : Value) (x y : Text)
    → equal_tails (suc fuel) os seen t u (Both.texts x y) ≡ equal_values fuel os seen t u
unfolding equal_values
tails_texts fuel os seen t u x y = refl

tails_vectors :
    (fuel : ℕ) (os : List Object) (seen : SeenMap) (t u : Value) (a : Addr) (x : List Value)
    (b : Addr) (y : List Value)
    → equal_tails (suc fuel) os seen t u (Both.vectors a x b y) ≡ equal_values fuel os seen t u
unfolding equal_values
tails_vectors fuel os seen t u a x b y = refl

tails_unlike :
    (fuel : ℕ) (os : List Object) (seen : SeenMap) (t u : Value)
    → equal_tails (suc fuel) os seen t u Both.unlike ≡ equal_values fuel os seen t u
unfolding equal_values
tails_unlike fuel os seen t u = refl

dotted_no_pair :
    (os : List Object) (t : Value) (e : Datum) → ShowsRest os t (dotted e) → kind os t ≡ 1 → ⊥
unfolding Shows
dotted_no_pair os t e (c, s) k = (kind_CanEnd e c).1 (sym (kind-Shows os e t s) ∙ k)

-- A rest that a pair shows is not at its end.
more-pair :
    (os : List Object) (t : Value) (r : Rest)
    → ShowsRest os t r
    → kind os t ≡ 1
    → (e : Datum) × (s : Rest) × (r ≡ more e s)
more-pair os t (more e u) s k = (e, u, refl)
more-pair os t end s k = absurd (omega (arith, kind-ShowsRest os end t s, k))
more-pair os t (dotted e) s k = absurd (dotted_no_pair os t e s k)

rest-pair :
    (os : List Object) (t : Value) (a : Addr) (x d : Value) (r : Rest)
    → ShowsRest os t r
    → t ≡ object a
    → fetch a os ≡ some (pair x d)
    → (e : Datum) × (s : Rest) × (r ≡ more e s) × Shows os x e × ShowsRest os d s
unfolding Shows
rest-pair os t a x d r s e f =
    let (g, u, p) = more-pair os t r s (ap (kind os) e ∙ ap kind_at f) in
    let (b, y, l, q, h, one, rest) : ShowsRest os t (more g u) = subst (ShowsRest os t) p s in
    let same : y ≡ x = cc in
    let tails : l ≡ d = cc in
    (g, u, p, subst (λ z. Shows os z g) same one, subst (λ z. ShowsRest os z u) tails rest)

-- Two tails that are pairs, with which the loop goes on.
more-Decides :
    (fuel : ℕ)
    → DecidesPairs fuel
    → (os : List Object) (seen : SeenMap) (t u : Value) (r q : Rest) → ShowsRest os t r
    → ShowsRest os u q
    → Above os (size (whole r)) seen
    → 2 + 3 * size_rest r ≤ suc fuel
    → (a : Addr) (v d : Value) (b : Addr) (w e : Value) → both_of os t u ≡ Both.pairs a v d b w e
    → Decides (r ≡ q) (equal_pairs fuel os seen a v d b w e)
unfolding size
more-Decides fuel pairs os seen t u r q s k up le a v d b w e p =
    let (x, f, y, g) = pairs_at os t u a b v d w e p in
    let (d1, r1, m1, h1, t1) = rest-pair os t a v d r s x f in
    let (d2, r2, m2, h2, t2) = rest-pair os u b w e q k y g in
    let up' : Above os (size (list d1 r1)) seen =
      subst (λ z. Above os (size (whole z)) seen) m1 up in
    let sizes : size_rest r ≡ 1 + size d1 + size_rest r1 = ap size_rest m1 in
    Decides-map (λ (g, k). cc) (λ e. (cc, cc))
      (pairs os seen a v d b w e d1 d2 r1 r2 f h1 t1 h2 t2 up' (omega (arith, le, sizes)))

ended-Decides :
    (fuel : ℕ)
    → DecidesValue fuel
    → (os : List Object) (seen : SeenMap) (t u : Value) (r q : Rest) → ShowsRest os t r
    → ShowsRest os u q
    → Above os (size (whole r)) seen
    → 2 + 3 * size_rest r ≤ suc fuel
    → Decides (r ≡ q) (equal_values fuel os seen t u)
ended-Decides fuel ih os seen t u r q s k up le =
    Decides-map (whole-injective os t u r q s k) (λ e. ap whole e)
      (ih os seen t u (whole r) (whole q) (whole-Shows os t r s) (whole-Shows os u q k) up
        (omega (arith, le, size_whole r)))

tails-Decide : (fuel : ℕ) → DecidesValue fuel → DecidesPairs fuel → DecidesTails (suc fuel)
tails-Decide fuel ih pairs os seen t u r q s k up le = by_parts (both_of os t u) refl
  where
    by_parts :
        (b : Both) → both_of os t u ≡ b → Decides (r ≡ q) (equal_tails (suc fuel) os seen t u b)
    by_parts (Both.pairs a v d b w e) p =
        Decides-from (tails_on fuel os seen t u a v d b w e)
          (more-Decides fuel pairs os seen t u r q s k up le a v d b w e p)
    by_parts (Both.texts x y) p =
        Decides-from (tails_texts fuel os seen t u x y)
          (ended-Decides fuel ih os seen t u r q s k up le)
    by_parts (Both.vectors a x b y) p =
        Decides-from (tails_vectors fuel os seen t u a x b y)
          (ended-Decides fuel ih os seen t u r q s k up le)
    by_parts Both.unlike p =
        Decides-from (tails_unlike fuel os seen t u)
          (ended-Decides fuel ih os seen t u r q s k up le)

decides : (fuel : ℕ) → DecidesValue fuel × DecidesPairs fuel × DecidesTails fuel
decides zero = (
  λ os seen x y d e s t up le. absurd (omega (arith, le, size_pos d)),
  λ os seen a x t b y u d e r q f s sr s' sq up le. absurd (omega (arith, le, size_pos d)),
  λ os seen t u r q s k up le. absurd (omega (arith, le)),
)
decides (suc fuel) =
    let (values, pairs, tails) = decides fuel in
    (
      λ os seen x y d e s t up le. elim (Bool-cases (eqv_values x y)) [
        | inl same ↦ inl (equal-same fuel os seen x y same, eqv_unique os x y d e s t same)
        | inr differ ↦ value-Decides fuel values pairs os seen x y d e s t differ up le
      ],
      pairs-Decide fuel values tails,
      tails-Decide fuel values pairs,
    )

-- `equal?` on two values that show trees returns whether the trees are the same, with fuel of three
-- times the size of the first.
pub equal_values-Shows :
    (os : List Object) (x y : Value) (d e : Datum)
    → Shows os x d
    → Shows os y e
    → (fuel : ℕ) → 3 * size d ≤ fuel
    → ((d ≡ e) × (equal_values fuel os [] x y ≡ some true))
      ⊎ ((d ≢ e) × (equal_values fuel os [] x y ≡ some false))
equal_values-Shows os x y d e s t fuel le =
    elim ((decides fuel).0 os [] x y d e s t tt (omega (arith, le))) [
      | inl (p, q) ↦ inl (q, p)
      | inr (p, n) ↦ inr (n, p)
    ]
