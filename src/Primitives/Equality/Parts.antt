-- ===== src/Primitives/Equality/Parts.antt =====
-- What the comparison of two trees comes down to: answers that are right, the map of what is being
-- compared, and which kinds of values are compared part by part.
use package.text.Mathlib.TextEquality.{Char-path}
use secd_scheme.Prelude.{
  ℕ, ◌≤◌, ◌<◌, ◌==◌, ==_iff, ◌≡◌, ◌≢◌, ◌⊎◌, inl, inr, refl, sym, ap, subst, ◌∙◌, Bool, true, false,
  Option, none, some, List, [], ◌∷◌, Addr, fetch, Bool-cases, code, Text, arith,
}
use secd_scheme.Value.{Value, nil, object, Object, pair, string, vector}
use secd_scheme.Datum.{
  Datum, Rest, atom, list, end, dotted, more, size, CanEnd, Shows, ShowsRest, Shows-unique, kind,
  kind_at,
}
use secd_scheme.Primitives.Equality.{same_text, SeenMap, find, Both, both_at, both_of}

-- The answer is right: true where the statement holds, false where it does not.
abbrev pub Decides : Type 0 → Option Bool → Type 0
Decides P r = ((r ≡ some true) × P) ⊎ ((r ≡ some false) × (P → ⊥))

pub Decides-from : {P : Type 0} {r r' : Option Bool} → r ≡ r' → Decides P r' → Decides P r
Decides-from e (inl (p, q)) = inl (e ∙ p, q)
Decides-from e (inr (p, q)) = inr (e ∙ p, q)

pub Decides-map : {P Q : Type 0} {r : Option Bool} → (P → Q) → (Q → P) → Decides P r → Decides Q r
Decides-map f g (inl (p, q)) = inl (p, f q)
Decides-map f g (inr (p, q)) = inr (p, λ y. q (g y))

-- A trial of one part and, if it holds, of another.
pub Decides-both :
    {P Q R : Type 0} (r s : Option Bool)
    → Decides P r
    → (P → Decides Q s)
    → (P → Q → R)
    → (R → P × Q)
    → Decides R (elim r [ none ↦ none | some false ↦ some false | some true ↦ s ])
Decides-both r s (inl (e, p)) k f g = rw e (Decides-map (f p) (λ x. (g x).1) (k p))
Decides-both r s (inr (e, n)) k f g = inr (rw e refl, λ x. n ((g x).0))

-- Every address of the map shows a tree that is larger than the bound.
abbrev pub Above : List Object → ℕ → SeenMap → Type 0
Above os n [] = Unit
Above os n ((a, b) ∷ seen) = ((d : Datum) × Shows os (object a) d × (n < size d)) × Above os n seen

pub Above-le :
    (os : List Object) (m n : ℕ) (seen : SeenMap) → m ≤ n → Above os n seen → Above os m seen
Above-le os m n [] le up = tt
Above-le os m n ((a, b) ∷ seen) le ((d, s, lt), up) =
    ((d, s, omega (arith, le, lt)), Above-le os m n seen le up)

pub find-Above :
    (os : List Object) (seen : SeenMap) (a : Addr) (d : Datum)
    → Shows os (object a) d
    → Above os (size d) seen
    → find a seen ≡ none
unfolding find
find-Above os [] a d s up = refl
find-Above os ((b, c) ∷ seen) a d s ((e, t, lt), up) = elim (Bool-cases (a == b)) [
  | inl same ↦
      let equal : d ≡ e =
        Shows-unique os d e (object b) (subst (λ c. Shows os (object c) d) ((==_iff a b).0 same) s)
          t in
      absurd (omega (arith, lt, ap size equal))
  | inr differ ↦ rw differ (find-Above os seen a d s up)
]

same_text→≡ : (s t : Text) → same_text s t ≡ true → s ≡ t
unfolding same_text
same_text→≡ [] [] e = refl
same_text→≡ (c ∷ s) (d ∷ t) e = elim (Bool-cases (code c == code d)) [
  | inl same ↦
      let one = Char-path c d ((==_iff (code c) (code d)).0 same) in
      let others = same_text→≡ s t (rw (same, same_text) at e) in cc
  | inr differ ↦ let bad : false ≡ true = rw (differ, same_text) at e in cc
]
same_text→≡ [] (d ∷ t) e = cc
same_text→≡ (c ∷ s) [] e = cc

same_text_self : (s : Text) → same_text s s ≡ true
unfolding same_text
same_text_self [] = refl
same_text_self (c ∷ s) = rw ((==_iff (code c) (code c)).1 refl) (same_text_self s)

pub same_text-Decides : (s t : Text) → Decides (s ≡ t) (some (same_text s t))
same_text-Decides s t = elim (Bool-cases (same_text s t)) [
  | inl same ↦ inl (ap some same, same_text→≡ s t same)
  | inr differ ↦ inr (
    ap some differ,
    λ e.
        let same : same_text s t ≡ true = subst (λ u. same_text s u ≡ true) e (same_text_self s) in
        cc,
  )
]

-- A rest as the tree that the tail shows.
abbrev pub whole : Rest → Datum
whole end = atom nil
whole (dotted d) = d
whole (more d r) = list d r

pub whole-Shows :
    (os : List Object) (v : Value) (r : Rest) → ShowsRest os v r → Shows os v (whole r)
unfolding Shows
whole-Shows os v end e = (e, tt)
whole-Shows os v (dotted d) (c, s) = s
whole-Shows os v (more d r) s = s

pub whole-injective :
    (os : List Object) (v w : Value) (r u : Rest)
    → ShowsRest os v r
    → ShowsRest os w u
    → whole r ≡ whole u
    → r ≡ u
unfolding Shows
whole-injective os v w end end s t e = refl
whole-injective os v w (dotted d) (dotted f) s t e = ap dotted e
whole-injective os v w end (dotted f) s (c, t) e = absurd (subst CanEnd (sym e) c)
whole-injective os v w (dotted d) end (c, s) t e = absurd (subst CanEnd e c)
whole-injective os v w (more d r) (dotted f) s (c, t) e = absurd (subst CanEnd (sym e) c)
whole-injective os v w (dotted d) (more f u) (c, s) t e = absurd (subst CanEnd e c)
whole-injective os v w end (more f u) s t e = cc
whole-injective os v w (more d r) end s t e = cc
whole-injective os v w (more d r) (more f u) s t e = cc

-- What has parts that can be compared.
both_at-pairs :
    (a b a' b' : Addr) (o p : Option Object) (v d w e : Value)
    → both_at a o b p ≡ Both.pairs a' v d b' w e
    → (a ≡ a') × (o ≡ some (pair v d)) × (b ≡ b') × (p ≡ some (pair w e))
both_at-pairs a b a' b' (some (pair x y)) (some (pair z u)) v d w e q = (cc, cc, cc, cc)
both_at-pairs a b a' b' (some (string s)) (some (string t)) v d w e q = cc
both_at-pairs a b a' b' (some (vector s)) (some (vector t)) v d w e q = cc
both_at-pairs a b a' b' _ _ v d w e q = cc

pub pairs_at :
    (os : List Object) (x y : Value) (a b : Addr) (v d w e : Value)
    → both_of os x y ≡ Both.pairs a v d b w e
    → (x ≡ object a)
      × (fetch a os ≡ some (pair v d))
      × (y ≡ object b)
      × (fetch b os ≡ some (pair w e))
unfolding both_of
pairs_at os (object c) (object f) a b v d w e q =
    let (p, o, r, t) = both_at-pairs c f a b (fetch c os) (fetch f os) v d w e q in
    (ap object p, rw (← p) o, ap object r, rw (← r) t)
pairs_at os _ _ a b v d w e q = cc

both_at-unlike :
    (a b : Addr) (o p : Option Object) → kind_at o ≢ kind_at p → both_at a o b p ≡ Both.unlike
both_at-unlike a b (some (pair x d)) (some (pair y e)) n = absurd (n refl)
both_at-unlike a b (some (string s)) (some (string t)) n = absurd (n refl)
both_at-unlike a b (some (vector s)) (some (vector t)) n = absurd (n refl)
both_at-unlike a b _ _ n = refl

pub both_of-unlike :
    (os : List Object) (x y : Value) → kind os x ≢ kind os y → both_of os x y ≡ Both.unlike
unfolding both_of
both_of-unlike os (object a) (object b) n = both_at-unlike a b (fetch a os) (fetch b os) n
both_of-unlike os _ _ n = refl
