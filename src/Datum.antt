-- ===== src/Datum.antt =====
-- What the printer writes and the reader reads, without the heap: a tree of atoms, strings, lists and
-- vectors. `Shows` says that a value of a heap represents a tree; it is the specification that the
-- printer, the reader and `equal?` (scheme14/scheme14.cpp, sections 4, 5 and 11) are compared with.
pub mod Spelling
use secd_scheme.Prelude.{
  ℕ, zero, suc, ◌+◌, ◌≡◌, refl, sym, ap, ◌∙◌, ◌≤◌, ◌<◌, Bool, true, false, Option, none, some, List,
  [], ◌∷◌, ◌++◌, Addr, fetch, fetch-alloc, Char, Text, chars, arith,
}
use secd_scheme.Value.{Value, nil, object, Object, pair, string}
use secd_scheme.Pairs.{pair_of, is_nil, as_pair?}

mutual
  pub data Datum : Type 0 where
    atom : Value → Datum
    text : Text → Datum
    list : Datum → Rest → Datum
    vector : Items → Datum

  -- What follows an element of a list.
  pub data Rest : Type 0 where
    end : Rest
    dotted : Datum → Rest
    more : Datum → Rest → Rest

  pub data Items : Type 0 where
    no_items : Items
    item : Datum → Items → Items

unfoldable mutual
  pub size : Datum → ℕ
  size (atom v) = 1
  size (text s) = 1
  size (list d r) = 1 + size d + size_rest r
  size (vector ds) = 1 + size_items ds

  pub size_rest : Rest → ℕ
  size_rest end = 0
  size_rest (dotted d) = 1 + size d
  size_rest (more d r) = 1 + size d + size_rest r

  pub size_items : Items → ℕ
  size_items no_items = 0
  size_items (item d ds) = size d + size_items ds

pub size_pos : (d : Datum) → 0 < size d
unfolding size
size_pos (atom v) = omega arith
size_pos _ = omega arith

abbrev pub IsAtom : Value → Type 0
IsAtom (object a) = ⊥
IsAtom _ = Unit

-- What can stand behind a dot: another list would be a longer list, and nil would be no tail.
abbrev pub CanEnd : Datum → Type 0
CanEnd (atom nil) = ⊥
CanEnd (atom _) = Unit
CanEnd (list d r) = ⊥
CanEnd _ = Unit

module _ (os : List Object) where
  unfoldable mutual
    pub Shows : Value → Datum → Type 0
    Shows v (atom w) = (v ≡ w) × IsAtom w
    Shows v (text s) = (a : Addr) × (v ≡ object a) × (fetch a os ≡ some (string s))
    Shows v (list d r) =
        (a : Addr) × (x : Value) × (tail : Value) × (v ≡ object a)
        × (fetch a os ≡ some (pair x tail))
        × Shows x d
        × ShowsRest tail r
    Shows v (vector ds) =
        (a : Addr) × (vs : List Value) × (v ≡ object a)
        × (fetch a os ≡ some (Object.vector vs))
        × ShowsItems vs ds

    pub ShowsRest : Value → Rest → Type 0
    ShowsRest v end = v ≡ nil
    ShowsRest v (dotted d) = CanEnd d × Shows v d
    ShowsRest v (more d r) =
        (a : Addr) × (x : Value) × (tail : Value) × (v ≡ object a)
        × (fetch a os ≡ some (pair x tail))
        × Shows x d
        × ShowsRest tail r

    pub ShowsItems : List Value → Items → Type 0
    ShowsItems vs no_items = vs ≡ []
    ShowsItems vs (item d ds) =
        (v : Value) × (ws : List Value) × (vs ≡ v ∷ ws) × Shows v d × ShowsItems ws ds

-- Every object stays where it is.
abbrev pub Kept : List Object → List Object → Type 0
Kept os os' = (a : Addr) (o : Object) → fetch a os ≡ some o → fetch a os' ≡ some o

module _ (os os' : List Object) (kept : Kept os os') where
  mutual
    unfolding Shows

    pub Shows-Kept : (d : Datum) (v : Value) → Shows os v d → Shows os' v d
    Shows-Kept (atom w) v s = s
    Shows-Kept (text t) v (a, e, f) = (a, e, kept a _ f)
    Shows-Kept (list d r) v (a, x, tail, e, f, s, t) =
        (a, x, tail, e, kept a _ f, Shows-Kept d x s, ShowsRest-Kept r tail t)
    Shows-Kept (vector ds) v (a, vs, e, f, s) = (a, vs, e, kept a _ f, ShowsItems-Kept ds vs s)

    pub ShowsRest-Kept : (r : Rest) (v : Value) → ShowsRest os v r → ShowsRest os' v r
    ShowsRest-Kept end v e = e
    ShowsRest-Kept (dotted d) v (c, s) = (c, Shows-Kept d v s)
    ShowsRest-Kept (more d r) v (a, x, tail, e, f, s, t) =
        (a, x, tail, e, kept a _ f, Shows-Kept d x s, ShowsRest-Kept r tail t)

    pub ShowsItems-Kept :
        (ds : Items) (vs : List Value) → ShowsItems os vs ds → ShowsItems os' vs ds
    ShowsItems-Kept no_items vs e = e
    ShowsItems-Kept (item d ds) vs (v, ws, e, s, t) =
        (v, ws, e, Shows-Kept d v s, ShowsItems-Kept ds ws t)

-- The kinds of value that a tree can show.
abbrev pub kind_at : Option Object → ℕ
kind_at none = 0
kind_at (some (pair x d)) = 1
kind_at (some (string s)) = 2
kind_at (some (Object.vector vs)) = 3
kind_at (some _) = 4

abbrev pub kind : List Object → Value → ℕ
kind os (object a) = kind_at (fetch a os)
kind os nil = 5
kind os _ = 6

abbrev pub kind_of : Datum → ℕ
kind_of (atom nil) = 5
kind_of (atom _) = 6
kind_of (text s) = 2
kind_of (list d r) = 1
kind_of (vector ds) = 3

pub atom_kind : (w : Value) → 5 ≤ kind_of (atom w)
atom_kind nil = omega arith
atom_kind _ = omega arith

kind_atom : (os : List Object) (w : Value) → IsAtom w → kind os w ≡ kind_of (atom w)
kind_atom os nil i = refl
kind_atom os (object a) i = absurd i
kind_atom os _ i = refl

pub kind-Shows : (os : List Object) (d : Datum) (v : Value) → Shows os v d → kind os v ≡ kind_of d
unfolding Shows
kind-Shows os (atom w) v (e, i) = ap (kind os) e ∙ kind_atom os w i
kind-Shows os (text t) v (a, e, f) = ap (kind os) e ∙ ap kind_at f
kind-Shows os (list d r) v (a, x, tail, e, f, s, t) = ap (kind os) e ∙ ap kind_at f
kind-Shows os (vector ds) v (a, vs, e, f, s) = ap (kind os) e ∙ ap kind_at f

-- The kinds of the ends of a list.
abbrev pub kind_of_rest : Rest → ℕ
kind_of_rest end = 5
kind_of_rest (dotted d) = kind_of d
kind_of_rest (more d r) = 1

pub kind-ShowsRest :
    (os : List Object) (r : Rest) (v : Value) → ShowsRest os v r → kind os v ≡ kind_of_rest r
unfolding Shows
kind-ShowsRest os end v e = ap (kind os) e
kind-ShowsRest os (dotted d) v (c, s) = kind-Shows os d v s
kind-ShowsRest os (more d r) v (a, x, tail, e, f, s, t) = ap (kind os) e ∙ ap kind_at f

pub kind_CanEnd : (d : Datum) → CanEnd d → (kind_of d ≡ 5 → ⊥) × (kind_of d ≡ 1 → ⊥)
kind_CanEnd (atom nil) c = absurd c
kind_CanEnd (atom _) c = (λ e. omega (arith, e), λ e. omega (arith, e))
kind_CanEnd (text s) c = (λ e. omega (arith, e), λ e. omega (arith, e))
kind_CanEnd (list d r) c = absurd c
kind_CanEnd (vector ds) c = (λ e. omega (arith, e), λ e. omega (arith, e))

apart : (vs : List Value) (v : Value) (ws : List Value) → vs ≡ [] → vs ≡ v ∷ ws → ⊥
apart vs v ws p q = cc

module _ (os : List Object) where
  -- A value shows one tree at most.
  mutual
    unfolding Shows

    pub Shows-unique : (d e : Datum) (v : Value) → Shows os v d → Shows os v e → d ≡ e
    Shows-unique (atom w) (atom u) v (p, i) (q, j) = cc
    Shows-unique (text s) (text t) v (a, p, f) (b, q, g) = cc
    Shows-unique (list d r) (list e u) v (a, x, y, p, f, s, t) (b, z, w, q, g, s', t') =
        let same : x ≡ z = cc in
        let tails : y ≡ w = cc in
        let one = Shows-unique d e z (rw same at s) s' in
        let two = ShowsRest-unique r u w (rw tails at t) t' in cc
    Shows-unique (vector ds) (vector es) v (a, xs, p, f, s) (b, ys, q, g, t) =
        let same : xs ≡ ys = cc in let one = ShowsItems-unique ds es ys (rw same at s) t in cc
    Shows-unique (atom w) e v s t =
        absurd (omega (arith, atom_kind w, kind-Shows os (atom w) v s, kind-Shows os e v t))
    Shows-unique d (atom u) v s t =
        absurd (omega (arith, atom_kind u, kind-Shows os d v s, kind-Shows os (atom u) v t))
    Shows-unique d e v s t = absurd (omega (arith, kind-Shows os d v s, kind-Shows os e v t))

    pub ShowsRest-unique : (r u : Rest) (v : Value) → ShowsRest os v r → ShowsRest os v u → r ≡ u
    ShowsRest-unique end end v s t = refl
    ShowsRest-unique (dotted d) (dotted e) v (c, s) (k, t) = ap dotted (Shows-unique d e v s t)
    ShowsRest-unique (more d r) (more e u) v (a, x, y, p, f, s, t) (b, z, w, q, g, s', t') =
        let same : x ≡ z = cc in
        let tails : y ≡ w = cc in
        let one = Shows-unique d e z (rw same at s) s' in
        let two = ShowsRest-unique r u w (rw tails at t) t' in cc
    ShowsRest-unique (more d r) (dotted e) v s (c, t) =
        absurd ((kind_CanEnd e c).1 (sym (kind-Shows os e v t) ∙ kind-ShowsRest os (more d r) v s))
    ShowsRest-unique (dotted d) (more e u) v (c, s) t =
        absurd ((kind_CanEnd d c).1 (sym (kind-Shows os d v s) ∙ kind-ShowsRest os (more e u) v t))
    ShowsRest-unique end (dotted e) v s (c, t) =
        absurd ((kind_CanEnd e c).0 (sym (kind-Shows os e v t) ∙ ap (kind os) s))
    ShowsRest-unique (dotted d) end v (c, s) t =
        absurd ((kind_CanEnd d c).0 (sym (kind-Shows os d v s) ∙ ap (kind os) t))
    ShowsRest-unique r u v s t =
        absurd (omega (arith, kind-ShowsRest os r v s, kind-ShowsRest os u v t))

    pub ShowsItems-unique :
        (ds es : Items) (vs : List Value) → ShowsItems os vs ds → ShowsItems os vs es → ds ≡ es
    ShowsItems-unique no_items no_items vs s t = refl
    ShowsItems-unique (item d ds) (item e es) vs (v, ws, p, s, t) (w, us, q, s', t') =
        let same : v ≡ w = cc in
        let others : ws ≡ us = cc in
        let one = Shows-unique d e w (rw same at s) s' in
        let two = ShowsItems-unique ds es us (rw others at t) t' in cc
    ShowsItems-unique no_items (item e es) vs s (w, us, q, s', t') = absurd (apart vs w us s q)
    ShowsItems-unique (item d ds) no_items vs (v, ws, p, s, t) q = absurd (apart vs v ws q p)
