-- ===== src/Expand/Shape.antt =====
-- What `let` is rewritten to.
use secd_scheme.Prelude.{
  ℕ, zero, suc, ◌<◌, ◌≡◌, refl, ap, false, some, List, [], ◌∷◌, map, length, fetch-alloc_self,
  String, arith, ge→ltb,
}
use secd_scheme.Value.{Value, nil, symbol, object, Object, pair, Heap}
use secd_scheme.Effect.{ok, pure, alloc, gets, expect, ◌>>=◌}
use secd_scheme.Pairs.{pair_of, as_pair?, is_nil, make_pair, list_onto, list_from}
use secd_scheme.Pairs.Bound.{length-Chain}
use secd_scheme.Pairs.Chains.{
  Segment, Chain, pair_of-alloc, Segment-alloc, walk_from-Chain, list_to_vector-Chain,
}
use secd_scheme.Syntax.{
  look, car, cdr, is_symbol, in_range, form_arity, check_count, check_arity, binding_ok,
  check_each_binding, check_bindings,
}
use secd_scheme.Expand.Build.{binding_parts, each}
use secd_scheme.Expand.Let.{lambda_of, expand_plain_let, expand_let}

-- Every pair of the first heap is the same pair of the second.
abbrev pub PairsStay : Heap → Heap → Type 0
PairsStay h h' =
    (v : Value) (p : Value × Value) → pair_of h.objects v ≡ some p → pair_of h'.objects v ≡ some p

Chain-PairsStay :
    (h h' : Heap) {v : Value} {xs : List Value}
    → PairsStay h h'
    → Chain h.objects v xs
    → Chain h'.objects v xs
Chain-PairsStay h h' stay (Segment.end e) = Segment.end e
Chain-PairsStay h h' stay (Segment.link e c) =
    Segment.link (stay _ _ e) (Chain-PairsStay h h' stay c)

abbrev with_pair : Value → Value → Heap → Heap
with_pair a d h = record h { objects = pair a d ∷ h.objects }

new_pair :
    (a d : Value) (h : Heap)
    → pair_of (with_pair a d h).objects (object (length h.objects)) ≡ some (a, d)
unfolding pair_of
new_pair a d h = ap as_pair? (fetch-alloc_self (pair a d) h.objects)

-- A list that is made anew.
abbrev MakesList : List Value → Heap → Type 0
MakesList xs h =
    (v : Value) × (h' : Heap) × (list_from xs h ≡ ok v h') × Chain h'.objects v xs × PairsStay h h'

list_from-MakesList : (xs : List Value) (h : Heap) → MakesList xs h
unfolding list_from list_onto make_pair alloc pure ◌>>=◌
list_from-MakesList [] h = (nil, h, refl, Segment.end refl, λ v p e. e)
list_from-MakesList (x ∷ xs) h =
    let (v, h', e, c, stay) = list_from-MakesList xs h in
    (
      object (length h'.objects),
      with_pair x v h',
      rw e refl,
      Segment.link (new_pair x v h') (Segment-alloc (pair x v) c),
      λ w p at. pair_of-alloc h'.objects (pair x v) w p (stay w p at),
    )

-- The forms are bindings of these names to these expressions.
abbrev pub AreBindings : List Object → List Value → List (String × Value) → Type 0
AreBindings os [] [] = Unit {0}
AreBindings os (b ∷ bs) ((x, e) ∷ ps) =
    (d : Value) × (pair_of os b ≡ some (symbol x, d))
    × (pair_of os d ≡ some (e, nil))
    × AreBindings os bs ps
AreBindings os _ _ = ⊥

abbrev pub names_of : List (String × Value) → List Value
names_of = map (λ p. symbol (p.0))

abbrev pub inits_of : List (String × Value) → List Value
inits_of = map (λ p. p.1)

parts_of : List (String × Value) → List (Value × Value)
parts_of = map (λ p. (symbol (p.0), p.1))

not_nil :
    (os : List Object) (v : Value) (p : Value × Value) → pair_of os v ≡ some p → is_nil v ≡ false
unfolding is_nil pair_of
not_nil os nil p e = cc
not_nil os v p e = refl

checked :
    (fuel : ℕ) (h : Heap) (v : Value) (bs : List Value) (ps : List (String × Value))
    → Chain h.objects v bs
    → AreBindings h.objects bs ps
    → length bs < fuel
    → check_each_binding fuel "let" v h ≡ ok tt h
unfolding check_each_binding binding_ok is_symbol is_nil look gets pure ◌>>=◌
checked zero h v bs ps c are lt = absurd (omega (arith, lt))
checked (suc fuel) h v [] ps (Segment.end e) are lt = rw e refl
checked (suc fuel) h v (b ∷ bs) ((x, i) ∷ ps) (Segment.link e c) (d, at_b, at_d, rest) lt =
    rw (not_nil h.objects v _ e, e, at_b, at_d) (checked fuel h _ bs ps c rest (omega (arith, lt)))
checked (suc fuel) h v (b ∷ bs) [] (Segment.link e c) are lt = absurd are

car_read : (h : Heap) (v a d : Value) → pair_of h.objects v ≡ some (a, d) → car v h ≡ ok a h
unfolding car look gets expect pure ◌>>=◌
car_read h v a d e = rw e refl

cdr_read : (h : Heap) (v a d : Value) → pair_of h.objects v ≡ some (a, d) → cdr v h ≡ ok d h
unfolding cdr look gets expect pure ◌>>=◌
cdr_read h v a d e = rw e refl

binding_read :
    (h : Heap) (b d e : Value) (x : String)
    → pair_of h.objects b ≡ some (symbol x, d)
    → pair_of h.objects d ≡ some (e, nil)
    → binding_parts b h ≡ ok (symbol x, e) h
unfolding binding_parts pure ◌>>=◌
binding_read h b d e x at_b at_d =
    rw (car_read h b (symbol x) d at_b, cdr_read h b (symbol x) d at_b, car_read h d e nil at_d)
      refl

parts_read :
    (h : Heap) (bs : List Value) (ps : List (String × Value))
    → AreBindings h.objects bs ps
    → each binding_parts bs h ≡ ok (parts_of ps) h
unfolding each parts_of pure ◌>>=◌
parts_read h [] [] are = refl
parts_read h (b ∷ bs) ((x, e) ∷ ps) (d, at_b, at_d, rest) =
    rw (binding_read h b d e x at_b at_d, parts_read h bs ps rest) refl
parts_read h [] (p ∷ ps) are = absurd are
parts_read h (b ∷ bs) [] are = absurd are

let_arity :
    (h : Heap) (rest bindings body : Value) (forms : List Value)
    → pair_of h.objects rest ≡ some (bindings, body)
    → Chain h.objects body forms
    → check_arity "let" rest 1 0 h ≡ ok tt h
unfolding check_arity form_arity check_count in_range gets pure ◌>>=◌
let_arity h rest bindings body forms at c =
    rw
      (
        walk_from-Chain h.objects rest (bindings ∷ forms) (Segment.link at c),
        ge→ltb (suc (length forms)) 1 (omega arith),
      )
      refl

pair_no_name :
    (os : List Object) (v : Value) (p : Value × Value) → pair_of os v ≡ some p → is_symbol v ≡ false
unfolding is_symbol pair_of
pair_no_name os (symbol x) p e = cc
pair_no_name os v p e = refl

no_name : (os : List Object) (v : Value) (xs : List Value) → Chain os v xs → is_symbol v ≡ false
unfolding is_symbol
no_name os v [] (Segment.end e) = rw e refl
no_name os v (x ∷ xs) (Segment.link e c) = pair_no_name os v _ e

first_parts : (ps : List (String × Value)) → map (λ p. p.0) (parts_of ps) ≡ names_of ps
unfolding parts_of
first_parts [] = refl
first_parts (p ∷ ps) = ap (λ vs. symbol (p.0) ∷ vs) (first_parts ps)

second_parts : (ps : List (String × Value)) → map (λ p. p.1) (parts_of ps) ≡ inits_of ps
unfolding parts_of
second_parts [] = refl
second_parts (p ∷ ps) = ap (λ vs. p.1 ∷ vs) (second_parts ps)

new_PairsStay : (a d : Value) (h : Heap) → PairsStay h (with_pair a d h)
new_PairsStay a d h v p at = pair_of-alloc h.objects (pair a d) v p at

-- The value is ((lambda (name ...) . body) init ...).
abbrev pub IsCall : Value → List (String × Value) → Value → Heap → Type 0
IsCall body ps v h =
    (f : Value) × (inner : Value) × (params : Value) × Chain h.objects v (f ∷ inits_of ps)
    × (pair_of h.objects f ≡ some (symbol "lambda", inner))
    × (pair_of h.objects inner ≡ some (params, body))
    × Chain h.objects params (names_of ps)

module _ (h : Heap) (bindings body : Value) (bs : List Value) (ps : List (String × Value))
    (listed : Chain h.objects bindings bs) (are : AreBindings h.objects bs ps) where
  bindings_checked : check_bindings "let" bindings h ≡ ok tt h
  unfolding check_bindings gets ◌>>=◌
  bindings_checked =
      checked (suc (length h.objects)) h bindings bs ps listed are
        (omega (arith, length-Chain h.objects bindings bs listed))

  plain_let-IsCall :
      (v : Value) × (h' : Heap) × (expand_plain_let bindings body h ≡ ok v h') × IsCall body ps v h'
  unfolding expand_plain_let lambda_of make_pair alloc pure ◌>>=◌
  plain_let-IsCall =
      let (params, h1, e1, c1, s1) = list_from-MakesList (names_of ps) h in
      let inner : Value = object (length h1.objects) in
      let h2 : Heap = with_pair params body h1 in
      let f : Value = object (length h2.objects) in
      let h3 : Heap = with_pair (symbol "lambda") inner h2 in
      let (v, h4, e4, c4, s4) = list_from-MakesList (f ∷ inits_of ps) h3 in
      let s3 = new_PairsStay (symbol "lambda") inner h2 in
      let s2 = new_PairsStay params body h1 in
      (
        v,
        h4,
        rw
            (
              bindings_checked,
              list_to_vector-Chain h bindings bs "let" listed,
              parts_read h bs ps are,
              first_parts ps,
              e1,
              second_parts ps,
              e4,
            )
            refl,
        (
          f,
          inner,
          params,
          c4,
          s4 f _ (new_pair (symbol "lambda") inner h2),
          s4 inner _ (s3 inner _ (new_pair params body h1)),
          Chain-PairsStay h3 h4 s4 (Chain-PairsStay h2 h3 s3 (Chain-PairsStay h1 h2 s2 c1)),
        ),
      )

  -- A `let` form that is a proper list, whose bindings are a proper list of names with expressions, is
  -- rewritten, with no error and enough fuel, to the call of a lambda expression: the new form is a list
  -- of that expression and the initial expressions in their order, and the expression is the symbol
  -- `lambda`, a list of the names in their order, and the body of the `let`.
  pub expand_let-IsCall :
      (form head rest : Value) (forms : List Value)
      → pair_of h.objects form ≡ some (head, rest)
      → pair_of h.objects rest ≡ some (bindings, body)
      → Chain h.objects body forms
      → (v : Value) × (h' : Heap) × (expand_let form h ≡ ok v h') × IsCall body ps v h'
  unfolding expand_let ◌>>=◌
  expand_let-IsCall form head rest forms at_form at_rest proper =
      let (v, h', e, is) = plain_let-IsCall in
      (
        v,
        h',
        rw
            (
              cdr_read h form head rest at_form,
              let_arity h rest bindings body forms at_rest proper,
              car_read h rest bindings body at_rest,
              cdr_read h rest bindings body at_rest,
              no_name h.objects bindings bs listed,
            )
            e,
        is,
      )
