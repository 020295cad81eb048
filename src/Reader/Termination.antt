-- ===== src/Reader/Termination.antt =====
-- The reader ends on every text: each value that it returns has used some of the text.
use secd_scheme.Prelude.{
  ℕ, zero, suc, ◌+◌, ◌*◌, ◌≤◌, ◌<◌, ◌==◌, ◌≡◌, refl, subst, ◌⊎◌, Bool, true, false, ◌&&◌, ◌||◌,
  Option, none, some, List, [], ◌∷◌, reverse, if◌then◌else◌, length, String, ℤ, Char, code, Text,
  of_list, arith, Bool-cases, Option-cases, inl, inr,
}
use secd_scheme.Value.{Value, nil, symbol, SchemeError, Heap}
use secd_scheme.Effect.{
  Result, ok, raise, fault, out_of_fuel, M, pure, throw, alloc, continue, ◌>>=◌, internal_error,
  Fault,
}
use secd_scheme.Pairs.{list_onto}
use secd_scheme.Pairs.Chains.{list_onto-Built}
use secd_scheme.Reader.Number.{
  Converted, parse_number, special, number_kind, make_int_from_text, drop_plus,
}
use secd_scheme.Reader.{
  is_space, is_delimiter, skip, Start, after_comma, after_hash, start_of, at_dot, string_body,
  with_char, escape, token, named_atom, or_symbol, atom_of, read_atom, read_string, read_expr,
  read_abbrev, read_list, read_tail, read_vector, read_forms, reading, read_all, at_delimiter,
  is_true_letter, is_false_letter,
}

-- A reading that ends; a value has used some of a text of this length.
data Ends (n : ℕ) : Result (Option Value × Text) → Type 0 where
  at_end : {s : Text} {h : Heap} → Ends n (ok (none, s) h)
  took : {v : Value} {s : Text} {h : Heap} → length s < n → Ends n (ok (some v, s) h)
  raised : {e : SchemeError} {h : Heap} → Ends n (raise e h)
  faulted : {x : Fault} → Ends n (fault x)

Ends-le : {m n : ℕ} {r : Result (Option Value × Text)} → m ≤ n → Ends m r → Ends n r
Ends-le le at_end = at_end
Ends-le le (took lt) = took (omega (arith, le, lt))
Ends-le le raised = raised
Ends-le le faulted = faulted

-- What goes on with the value and the text that a reading returned.
Ends-bind :
    {m n : ℕ} (r : Result (Option Value × Text)) (f : Option Value × Text → M (Option Value × Text))
    → Ends m r
    → ((s : Text) (h : Heap) → Ends n (f (none, s) h))
    → ((v : Value) (s : Text) (h : Heap) → length s < m → Ends n (f (some v, s) h))
    → Ends n (continue r f)
Ends-bind r f (at_end {s = s} {h = h}) k l = k s h
Ends-bind r f (took {v = v} {s = s} {h = h} lt) k l = l v s h lt
Ends-bind r f raised k l = raised
Ends-bind r f faulted k l = faulted

-- What holds of both branches.
by_bool {ℓ κ} :
    {A : Type ℓ} (P : A → Type κ) (b : Bool) (x y : A)
    → P x
    → P y
    → P (elim b [ true ↦ x | false ↦ y ])
by_bool P true x y p q = p
by_bool P false x y p q = q

by_if {ℓ κ} :
    {A : Type ℓ} (P : A → Type κ) (b : Bool) (x y : A) → P x → P y → P (if b then x else y)
by_if P true x y p q = p
by_if P false x y p q = q

length-skip : (b : Bool) (s : Text) → length (skip b s) ≤ length s
unfolding skip
length-skip b [] = omega arith
length-skip true (c ∷ s) =
    by_bool (λ t. length t ≤ suc (length s)) (code c == b'\n') (skip false s) (skip true s)
      (omega (arith, length-skip false s)) (omega (arith, length-skip true s))
length-skip false (c ∷ s) =
    by_bool (λ t. length t ≤ suc (length s)) (is_space c) (skip false s) _
      (omega (arith, length-skip false s))
      (by_bool (λ t. length t ≤ suc (length s)) (code c == b';') (skip true s) (c ∷ s)
        (omega (arith, length-skip true s)) (omega arith))

-- What follows the characters that tell what stands in front.
Fits : ℕ → Start → Type 0
Fits n (Start.opened t) = length t ≤ n
Fits n (Start.closed t) = length t ≤ n
Fits n (Start.quoted t) = length t ≤ n
Fits n (Start.vector_opened t) = length t ≤ n
Fits n (Start.abbreviated head t) = length t ≤ n
Fits n (Start.literal b t) = length t ≤ n
Fits n Start.atom = Unit

Fits-if : (n : ℕ) (b : Bool) (x y : Start) → Fits n x → Fits n y → Fits n (if b then x else y)
Fits-if n b x y p q = by_if (Fits n) b x y p q

Fits-comma : (s : Text) → Fits (length s) (after_comma s)
unfolding Fits after_comma
Fits-comma [] = omega arith
Fits-comma (c ∷ s) = Fits-if _ (code c == b'@') _ _ (omega arith) (omega arith)

Fits-hash : (s : Text) → Fits (length s) (after_hash s)
unfolding Fits after_hash
Fits-hash [] = tt
Fits-hash (c ∷ s) = Fits-if (suc (length s)) (code c == b'(') _ _ (omega arith) (
    Fits-if (suc (length s)) ((is_true_letter c || is_false_letter c) && at_delimiter s)
      (Start.literal (is_true_letter c) s) Start.atom (omega arith) tt)

Fits-start_of : (c : Char) (s : Text) → Fits (length s) (start_of c s)
unfolding Fits start_of
Fits-start_of c s =
    let n = length s in
    Fits-if n (code c == b'(') _ _ (omega arith) (
      Fits-if n (code c == b')') _ _ (omega arith) (
        Fits-if n (code c == b'"') _ _ (omega arith) (
          Fits-if n (code c == b'\'') _ _ (omega arith) (
            Fits-if n (code c == b'`') _ _ (omega arith) (
              Fits-if n (code c == b',') _ _ (Fits-comma s)
                (Fits-if n (code c == b'#') _ _ (Fits-hash s) tt))))))

length-token : (s : Text) → length ((token s).1) ≤ length s
unfolding token
length-token [] = omega arith
length-token (c ∷ s) =
    by_if (λ (p : Text × Text). length (p.1) ≤ suc (length s)) (is_delimiter c) ([], c ∷ s)
      (c ∷ (token s).0, (token s).1) (omega arith) (omega (arith, length-token s))

-- A token that has a character has used it.
took-token :
    (s : Text) (c : Char) (t : Text) → (token s).0 ≡ c ∷ t → length ((token s).1) < length s
unfolding token
took-token [] c t e = cc
took-token (d ∷ s) c t e = elim (Bool-cases (is_delimiter d)) [
  | inl p ↦ let bad : [] ≡ c ∷ t = rw (p, token) at e in cc
  | inr p ↦ rw (p, token, length) (omega (arith, length-token s))
]

-- A string ends behind its quote.
BodyFits : ℕ → Option (Text × Text) → Type 0
BodyFits n none = Unit
BodyFits n (some (s, rest)) = length rest ≤ n

BodyFits-char :
    (m n : ℕ) (c : Char) (o : Option (Text × Text))
    → m ≤ n
    → BodyFits m o
    → BodyFits n (with_char c o)
unfolding BodyFits
BodyFits-char m n c none le f = tt
BodyFits-char m n c (some (s, rest)) le f = omega (arith, le, f)

string_body-Fits : (s : Text) → BodyFits (length s) (string_body s)
unfolding BodyFits string_body
string_body-Fits [] = tt
string_body-Fits (c ∷ []) =
    by_if (BodyFits 1) (code c == b'"') (some ([], [])) none (omega arith) tt
string_body-Fits (c ∷ (d ∷ s)) =
    by_bool (BodyFits (suc (suc (length s)))) (code c == b'"') (some ([], d ∷ s)) _ (omega arith) (
      by_bool (BodyFits (suc (suc (length s)))) (code c == b'\\')
        (with_char (escape d) (string_body s)) (with_char c (string_body (d ∷ s)))
        (BodyFits-char _ _ (escape d) (string_body s) (omega arith) (string_body-Fits s))
        (BodyFits-char _ _ c (string_body (d ∷ s)) (omega arith) (string_body-Fits (d ∷ s))))

Ends-list_onto :
    (n : ℕ) (xs : List Value) (tail : Value) (s : Text) (h : Heap)
    → length s < n
    → Ends n ((list_onto xs tail >>= λ out. pure (some out, s)) h)
unfolding ◌>>=◌ pure
Ends-list_onto n xs tail s h lt = let (v, h', e, l, c) = list_onto-Built xs tail h in rw e (took lt)

read_string-Ends : (s : Text) (n : ℕ) (h : Heap) → length s < n → Ends n (read_string s h)
unfolding read_string ◌>>=◌ pure alloc throw BodyFits
read_string-Ends s n h lt = elim (Option-cases (string_body s)) [
  | inl e ↦ rw (e, read_string) raised
  | inr ((body, rest), e) ↦
      let fits : BodyFits (length s) (some (body, rest)) =
        subst (BodyFits (length s)) e (string_body-Fits s) in
      rw (e, read_string) (took (omega (arith, lt, fits)))
]

Text-cases : (s : Text) → (s ≡ []) ⊎ ((c : Char) × (t : Text) × (s ≡ c ∷ t))
Text-cases [] = inl refl
Text-cases (c ∷ t) = inr (c, t, refl)

-- An action that ends.
data Done {ℓ} {A : Type ℓ} : Result A → Type ℓ where
  done : {a : A} {h : Heap} → Done (ok a h)
  threw : {e : SchemeError} {h : Heap} → Done (raise e h)
  broke : {x : Fault} → Done (fault x)

reading-Done : {A : Type 0} (r : Result A) → Done r → reading r ≡ out_of_fuel → ⊥
unfolding reading
reading-Done r done e = cc
reading-Done r threw e = cc
reading-Done r broke e = cc

module _ (big_int : Text → Option ℤ) (from_chars : Text → Converted) (strtod : Text → ℕ) where
  make_int-Done : (s : Text) (h : Heap) → Done (make_int_from_text big_int from_chars strtod s h)
  unfolding make_int_from_text internal_error pure
  make_int-Done s h = elim (Option-cases (big_int s)) [
    | inl e ↦ rw (e, make_int_from_text) broke
    | inr (z, e) ↦ rw (e, make_int_from_text) done
  ]

  Done-map :
      {A : Type 0} {B : Type 0} (r : Result A) (f : A → B)
      → Done r
      → Done (continue r (λ a. pure (f a)))
  unfolding pure
  Done-map r f done = done
  Done-map r f threw = threw
  Done-map r f broke = broke

  parse_number-Done : (s : Text) (h : Heap) → Done (parse_number big_int from_chars strtod s h)
  unfolding parse_number pure ◌>>=◌
  parse_number-Done s h = elim (Option-cases (special s)) [
    | inr (d, e) ↦ rw (e, parse_number) done
    | inl e ↦ elim (Option-cases (number_kind s)) [
      | inl f ↦ rw (e, f, parse_number) done
      | inr (true, f) ↦ rw (e, f, parse_number) done
      | inr (false, f) ↦
          rw (e, f, parse_number)
            (Done-map (make_int_from_text big_int from_chars strtod (drop_plus s) h) some
              (make_int-Done (drop_plus s) h))
    ]
  ]

  atom_of-Done : (s : Text) (h : Heap) → Done (atom_of big_int from_chars strtod s h)
  unfolding atom_of throw pure ◌>>=◌
  atom_of-Done [] h = threw
  atom_of-Done (c ∷ s) h = elim (Option-cases (named_atom (of_list (c ∷ s)))) [
    | inr (v, e) ↦ rw (e, atom_of) done
    | inl e ↦
        rw (e, atom_of)
          (Done-map (parse_number big_int from_chars strtod (c ∷ s) h) (or_symbol (c ∷ s))
            (parse_number-Done (c ∷ s) h))
  ]

  Ends-Done :
      (n : ℕ) (r : Result Value) (s : Text)
      → length s < n
      → Done r
      → Ends n (continue r (λ v. pure (some v, s)))
  unfolding pure
  Ends-Done n r s lt done = took lt
  Ends-Done n r s lt threw = raised
  Ends-Done n r s lt broke = faulted

  read_atom-Ends :
      (s : Text) (n : ℕ) (h : Heap)
      → length s ≤ n
      → Ends n (read_atom big_int from_chars strtod s h)
  unfolding read_atom atom_of throw ◌>>=◌
  read_atom-Ends s n h le = by_token ((token s).0) refl
    where
      by_token : (t : Text) → (token s).0 ≡ t → Ends n (read_atom big_int from_chars strtod s h)
      by_token [] e = rw (e, read_atom) raised
      by_token (c ∷ t) e =
          rw (e, read_atom)
            (Ends-Done n (atom_of big_int from_chars strtod (c ∷ t) h) ((token s).1)
              (omega (arith, le, took-token s c t e)) (atom_of-Done (c ∷ t) h))

  abbrev EndsExpr : ℕ → Type 0
  EndsExpr fuel =
      (s : Text) (h : Heap)
      → 2 * length s + 1 ≤ fuel
      → Ends (length s) (read_expr big_int from_chars strtod fuel s h)

  abbrev EndsAbbrev : ℕ → Type 0
  EndsAbbrev fuel =
      (head : String) (s : Text) (h : Heap)
      → 2 * length s + 2 ≤ fuel
      → Ends (length s) (read_abbrev big_int from_chars strtod fuel head s h)

  -- The three loops: of a list, of what follows its dot, and of a vector.
  abbrev EndsLoop : (List Value → Text → M (Option Value × Text)) → ℕ → Type 0
  EndsLoop loop fuel =
      (vs : List Value) (s : Text) (h : Heap)
      → 2 * length s + 2 ≤ fuel
      → Ends (length s) (loop vs s h)

  abbrev EndsList : ℕ → Type 0
  EndsList fuel = EndsLoop (read_list big_int from_chars strtod fuel) fuel

  abbrev EndsTail : ℕ → Type 0
  EndsTail fuel = EndsLoop (read_tail big_int from_chars strtod fuel) fuel

  abbrev EndsVector : ℕ → Type 0
  EndsVector fuel = EndsLoop (read_vector big_int from_chars strtod fuel) fuel

  expr-round : (fuel : ℕ) → EndsAbbrev fuel → EndsList fuel → EndsVector fuel → EndsExpr (suc fuel)
  unfolding read_expr pure throw Fits
  expr-round fuel abbrevs lists vectors s h le = by_skip (skip false s) refl
    where
      by_start :
          (c : Char) (rest : Text) (t : Start)
          → skip false s ≡ c ∷ rest
          → start_of c rest ≡ t
          → length rest < length s
          → Fits (length rest) t
          → Ends (length s) (read_expr big_int from_chars strtod (suc fuel) s h)
      by_start c rest (Start.opened t) e f lt fit =
          rw (e, f, read_expr)
            (Ends-le (omega (arith, lt, fit)) (lists [] t h (omega (arith, lt, fit, le))))
      by_start c rest (Start.closed t) e f lt fit = rw (e, f, read_expr) raised
      by_start c rest (Start.quoted t) e f lt fit =
          rw (e, f, read_expr) (read_string-Ends t (length s) h (omega (arith, lt, fit)))
      by_start c rest (Start.vector_opened t) e f lt fit =
          rw (e, f, read_expr)
            (Ends-le (omega (arith, lt, fit)) (vectors [] t h (omega (arith, lt, fit, le))))
      by_start c rest (Start.abbreviated head t) e f lt fit =
          rw (e, f, read_expr)
            (Ends-le (omega (arith, lt, fit)) (abbrevs head t h (omega (arith, lt, fit, le))))
      by_start c rest (Start.literal b t) e f lt fit =
          rw (e, f, read_expr) (took (omega (arith, lt, fit)))
      by_start c rest Start.atom e f lt fit =
          rw (e, f, read_expr) (read_atom-Ends (c ∷ rest) (length s) h (omega (arith, lt)))

      by_skip :
          (t : Text)
          → skip false s ≡ t
          → Ends (length s) (read_expr big_int from_chars strtod (suc fuel) s h)
      by_skip [] e = rw (e, read_expr) at_end
      by_skip (c ∷ rest) e =
          let lt : length (c ∷ rest) ≤ length s =
            subst (λ t. length t ≤ length s) e (length-skip false s) in
          by_start c rest (start_of c rest) e refl (omega (arith, lt)) (Fits-start_of c rest)

  abbrev-round : (fuel : ℕ) → EndsExpr fuel → EndsAbbrev (suc fuel)
  unfolding read_expr throw ◌>>=◌
  abbrev-round fuel exprs head s h le =
      Ends-bind (read_expr big_int from_chars strtod fuel s h) _ (exprs s h (omega (arith, le)))
        (λ t h'. raised)
        (λ v t h' lt. Ends-list_onto (length s) (symbol head ∷ (v ∷ [])) nil t h' lt)

  list-round : (fuel : ℕ) → EndsExpr fuel → EndsList fuel → EndsTail fuel → EndsList (suc fuel)
  unfolding read_expr throw ◌>>=◌
  list-round fuel exprs lists tails vs s h le = by_skip (skip false s) refl
    where
      by_skip :
          (t : Text)
          → skip false s ≡ t
          → Ends (length s) (read_list big_int from_chars strtod (suc fuel) vs s h)
      by_skip [] e = rw (e, read_list) raised
      by_skip (c ∷ rest) e =
          let lt : length (c ∷ rest) ≤ length s =
            subst (λ t. length t ≤ length s) e (length-skip false s) in
          elim (Bool-cases (code c == b')')) [
            | inl close ↦
                rw (e, close, read_list)
                  (Ends-list_onto (length s) (reverse vs) nil rest h (omega (arith, lt)))
            | inr item ↦ elim (Bool-cases (at_dot c rest)) [
              | inl dot ↦
                  rw (e, item, dot, read_list)
                    (Ends-le (omega (arith, lt)) (tails vs rest h (omega (arith, lt, le))))
              | inr next ↦
                  rw (e, item, next, read_list)
                    (Ends-bind (read_expr big_int from_chars strtod fuel (c ∷ rest) h) _
                      (exprs (c ∷ rest) h (omega (arith, lt, le))) (λ t h'. raised)
                      (λ v t h' less.
                        Ends-le (omega (arith, lt, less))
                          (lists (v ∷ vs) t h' (omega (arith, lt, less, le)))))
            ]
          ]

  vector-round : (fuel : ℕ) → EndsExpr fuel → EndsVector fuel → EndsVector (suc fuel)
  unfolding read_expr throw ◌>>=◌ pure alloc
  vector-round fuel exprs vectors vs s h le = by_skip (skip false s) refl
    where
      by_skip :
          (t : Text)
          → skip false s ≡ t
          → Ends (length s) (read_vector big_int from_chars strtod (suc fuel) vs s h)
      by_skip [] e = rw (e, read_vector) raised
      by_skip (c ∷ rest) e =
          let lt : length (c ∷ rest) ≤ length s =
            subst (λ t. length t ≤ length s) e (length-skip false s) in
          elim (Bool-cases (code c == b')')) [
            | inl close ↦ rw (e, close, read_vector) (took (omega (arith, lt)))
            | inr item ↦
                rw (e, item, read_vector)
                  (Ends-bind (read_expr big_int from_chars strtod fuel (c ∷ rest) h) _
                    (exprs (c ∷ rest) h (omega (arith, lt, le))) (λ t h'. raised)
                    (λ v t h' less.
                      Ends-le (omega (arith, lt, less))
                        (vectors (v ∷ vs) t h' (omega (arith, lt, less, le)))))
          ]

  tail-round : (fuel : ℕ) → EndsExpr fuel → EndsTail (suc fuel)
  unfolding read_expr throw ◌>>=◌
  tail-round fuel exprs [] s h le = raised
  tail-round fuel exprs (v ∷ vs) s h le =
      Ends-bind (read_expr big_int from_chars strtod fuel s h) _ (exprs s h (omega (arith, le)))
        (λ t h'. raised)
        (λ w t h' less. elim (Text-cases (skip false t)) [
          | inl e ↦ rw e raised
          | inr (c, rest, e) ↦
              let lt : length (c ∷ rest) ≤ length t =
                subst (λ u. length u ≤ length t) e (length-skip false t) in
              elim (Bool-cases (code c == b')')) [
                | inl close ↦
                    rw (e, close)
                      (Ends-list_onto (length s) (reverse (v ∷ vs)) w rest h'
                        (omega (arith, less, lt)))
                | inr other ↦ rw (e, other) raised
              ]
        ])

  rounds :
      (fuel : ℕ) → EndsExpr fuel × EndsAbbrev fuel × EndsList fuel × EndsTail fuel × EndsVector fuel
  rounds zero = (
    λ s h le. absurd (omega (arith, le)),
    λ head s h le. absurd (omega (arith, le)),
    λ vs s h le. absurd (omega (arith, le)),
    λ vs s h le. absurd (omega (arith, le)),
    λ vs s h le. absurd (omega (arith, le)),
  )
  rounds (suc fuel) =
      let (exprs, abbrevs, lists, tails, vectors) = rounds fuel in
      (
        expr-round fuel abbrevs lists vectors,
        abbrev-round fuel exprs,
        list-round fuel exprs lists tails,
        tail-round fuel exprs,
        vector-round fuel exprs vectors,
      )

  forms-after :
      (fuel n : ℕ) (r : Result (Option Value × Text))
      → Ends n r
      → ((s : Text) (h : Heap)
          → length s < n
          → Done (read_forms big_int from_chars strtod fuel s h))
      → Done {A = List Value} (
          continue r (λ p. elim (p.0) [
            | none ↦ pure []
            | some v ↦ read_forms big_int from_chars strtod fuel (p.1) >>= λ vs. pure (v ∷ vs)
          ]))
  unfolding pure ◌>>=◌
  forms-after fuel n r at_end ih = done
  forms-after fuel n r (took {v = v} {s = t} {h = h} less) ih =
      Done-map (read_forms big_int from_chars strtod fuel t h) (λ vs. v ∷ vs) (ih t h less)
  forms-after fuel n r raised ih = threw
  forms-after fuel n r faulted ih = broke

  forms-Done :
      (fuel : ℕ) (s : Text) (h : Heap)
      → length s < fuel
      → Done (read_forms big_int from_chars strtod fuel s h)
  unfolding read_forms pure ◌>>=◌
  forms-Done zero s h lt = absurd (omega (arith, lt))
  forms-Done (suc fuel) s h lt =
      forms-after fuel (length s) _ ((rounds (2 * length s + 2)).0 s h (omega arith))
        (λ t h' less. forms-Done fuel t h' (omega (arith, lt, less)))

  -- `read_all` ends on every text: the fuel that it starts with is enough, so it returns the
  -- expressions, raises an error of the reader, or stops where the number library throws.
  pub read_all_ends :
      (s : Text) (h : Heap) → read_all big_int from_chars strtod s h ≡ out_of_fuel → ⊥
  unfolding read_all
  read_all_ends s h e =
      reading-Done (read_forms big_int from_chars strtod (suc (length s)) s h)
        (forms-Done (suc (length s)) s h (omega arith)) e
