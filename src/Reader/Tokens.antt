-- ===== src/Reader/Tokens.antt =====
-- A token that is followed by a delimiter is read whole.
use secd_scheme.Prelude.{
  ℕ, suc, ◌==◌, ◌≡◌, refl, Bool, true, false, Option, some, [], ◌∷◌, ◌++◌, if◌then◌else◌, ℤ, Char,
  code, Text, arith, Bool-cases, inl, inr,
}
use secd_scheme.Effect.{pure, ◌>>=◌}
use secd_scheme.Reader.Number.{Converted}
use secd_scheme.Reader.{
  is_space, is_delimiter, at_delimiter, skip, Start, start_of, token, atom_of, read_atom, read_expr,
}

-- whether no character ends a token
unfoldable pub in_token : Text → Bool
unfolding is_delimiter
in_token [] = true
in_token (c ∷ s) = if is_delimiter c then false else in_token s

pub in_token-cons :
    (c : Char) (s : Text) → in_token (c ∷ s) ≡ true → (is_delimiter c ≡ false) × (in_token s ≡ true)
unfolding in_token
in_token-cons c s e = elim (Bool-cases (is_delimiter c)) [
  | inl d ↦ let bad : false ≡ true = rw (d, in_token) at e in cc
  | inr d ↦ (d, rw (d, in_token) at e)
]

pub token-append :
    (tok rest : Text)
    → in_token tok ≡ true
    → at_delimiter rest ≡ true
    → token (tok ++ rest) ≡ (tok, rest)
unfolding token at_delimiter
token-append [] [] e d = refl
token-append [] (c ∷ s) e d = rw d refl
token-append (c ∷ tok) rest e d =
    let (one, all) = in_token-cons c tok e in rw (token-append tok rest all d, one, token) refl

pub skip-solid :
    (c : Char) (s : Text)
    → is_space c ≡ false
    → (code c == b';') ≡ false
    → skip false (c ∷ s) ≡ c ∷ s
unfolding skip
skip-solid c s e d = rw (e, d, skip) refl

pub delimiter-space :
    (c : Char) → is_delimiter c ≡ false → (is_space c ≡ false) × ((code c == b';') ≡ false)
unfolding is_delimiter
delimiter-space c e = (ground arith, ground arith)

start_of-atom :
    (c : Char) (s : Text)
    → is_delimiter c ≡ false
    → (code c == b'#') ≡ false
    → start_of c s ≡ Start.atom
unfolding start_of is_delimiter
start_of-atom c s e d = ground arith

module _ (big_int : Text → Option ℤ) (from_chars : Text → Converted) (strtod : Text → ℕ) where
  pub read_expr-token :
      (c : Char) (tok rest : Text) (fuel : ℕ)
      → in_token (c ∷ tok) ≡ true
      → (code c == b'#') ≡ false
      → at_delimiter rest ≡ true
      → read_expr big_int from_chars strtod (suc fuel) ((c ∷ tok) ++ rest)
        ≡ atom_of big_int from_chars strtod (c ∷ tok) >>= λ v. pure (some v, rest)
  unfolding read_expr read_atom
  read_expr-token c tok rest fuel e not_hash d =
      let (one, all) = in_token-cons c tok e in
      let (solid, plain) = delimiter-space c one in
      rw
        (
          skip-solid c (tok ++ rest) solid plain,
          start_of-atom c (tok ++ rest) one not_hash,
          token-append (c ∷ tok) rest e d,
          read_expr,
        )
        refl
