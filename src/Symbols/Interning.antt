-- ===== src/Symbols/Interning.antt =====
-- Interning: one name has one symbol, whatever symbols are made in between.
use text.Mathlib.Text.{◌==◌ as str_eq}
use text.Mathlib.TextEquality.{eq_iff}
use secd_scheme.Prelude.{
  ◌≡◌, refl, sym, ap, ◌∙◌, ◌↔◌, ◌⊎◌, arith, none, some, List, [], ◌∷◌, String, length, Addr, fetch,
  fetch-alloc, fetch-alloc_self, Bool-cases, Option-cases, inl, inr,
}
use secd_scheme.Symbols.{SymbolTable, has_name, find_symbol, make_symbol, make_symbols}

-- The address is an entry of the table.
pub data Listed (a : Addr) : List Addr → Type 0 where
  here : {rest : List Addr} → Listed a (a ∷ rest)
  there : {b : Addr} {rest : List Addr} → Listed a rest → Listed a (b ∷ rest)

-- Every symbol is in the table, and no two have one name.
pub record IsInterned (t : SymbolTable) : Type 0 where
  pub all_listed : (a : Addr) (s : String) → fetch a t.names ≡ some s → Listed a t.entries
  pub distinct :
      (a b : Addr) (s : String) → fetch a t.names ≡ some s → fetch b t.names ≡ some s → a ≡ b

-- What the search finds has the name.
find_symbol-some :
    (name : String) (names : List String) (entries : List Addr) (a : Addr)
    → find_symbol name names entries ≡ some a
    → fetch a names ≡ some name
unfolding find_symbol
find_symbol-some name names [] a e = cc
find_symbol-some name names (b ∷ entries) a e = elim (Option-cases (fetch b names)) [
  | inl p ↦ find_symbol-some name names entries a (rw (p, find_symbol) at e)
  | inr (s, p) ↦ elim (Bool-cases (str_eq s name)) [
    | inl q ↦
        let same : some b ≡ some a = rw (p, q, find_symbol) at e in
        let named : s ≡ name = (eq_iff s name).0 q in
        let found : a ≡ b = cc in rw found (p ∙ ap some named)
    | inr q ↦ find_symbol-some name names entries a (rw (p, q, find_symbol) at e)
  ]
]

-- A search that finds nothing has seen every entry.
find_symbol-none :
    (name : String) (names : List String) (entries : List Addr) (a : Addr)
    → find_symbol name names entries ≡ none
    → Listed a entries
    → fetch a names ≡ some name
    → ⊥
unfolding find_symbol
find_symbol-none name names [] a e l p = elim l [ ]
find_symbol-none name names (b ∷ entries) a e Listed.here p =
    let bad : some b ≡ none = rw (p, (eq_iff name name).1 refl, find_symbol) at e in cc
find_symbol-none name names (b ∷ entries) a e (Listed.there l) p =
    elim (Bool-cases (has_name name (fetch b names))) [
      | inl q ↦ let bad : some b ≡ none = rw (q, find_symbol) at e in cc
      | inr q ↦ find_symbol-none name names entries a (rw (q, find_symbol) at e) l p
    ]

-- The table after a symbol is made, and the name of the symbol.
abbrev Made : String → SymbolTable → Addr → SymbolTable → Type 0
Made name t a t' =
    IsInterned t'
    × (fetch a t'.names ≡ some name)
    × ((b : Addr) (s : String) → fetch b t.names ≡ some s → fetch b t'.names ≡ some s)

abbrev with_symbol : String → SymbolTable → SymbolTable
with_symbol name t = record { names = name ∷ t.names; entries = length t.names ∷ t.entries }

new_or_old :
    (a : Addr) (name s : String) (names : List String)
    → fetch a (name ∷ names) ≡ some s
    → ((a ≡ length names) × (name ≡ s)) ⊎ (fetch a names ≡ some s)
unfolding fetch
new_or_old a name s names p = ground arith

new-Made :
    (name : String) (t : SymbolTable)
    → IsInterned t
    → ((a : Addr) → fetch a t.names ≡ some name → ⊥)
    → Made name t (length t.names) (with_symbol name t)
new-Made name t good fresh = (
  record {
    all_listed = λ a s p. elim (new_or_old a name s t.names p) [
      | inl (at_end, same) ↦ rw at_end Listed.here
      | inr old ↦ Listed.there (good.all_listed a s old)
    ];
    distinct = λ a b s p q. elim (new_or_old a name s t.names p) [
      | inl (at_end, same) ↦ elim (new_or_old b name s t.names q) [
        | inl (also, _) ↦ at_end ∙ sym also
        | inr old ↦ absurd (fresh b (old ∙ ap some (sym same)))
      ]
      | inr old ↦ elim (new_or_old b name s t.names q) [
        | inl (_, same) ↦ absurd (fresh a (old ∙ ap some (sym same)))
        | inr also ↦ good.distinct a b s old also
      ]
    ];
  },
  fetch-alloc_self name t.names,
  λ b s p. fetch-alloc b name t.names p,
)

make_symbol-Made :
    (name : String) (t : SymbolTable)
    → IsInterned t
    → Made name t ((make_symbol name t).0) ((make_symbol name t).1)
unfolding make_symbol
make_symbol-Made name t good = elim (Option-cases (find_symbol name t.names t.entries)) [
  | inr (a, e) ↦ rw e (good, find_symbol-some name t.names t.entries a e, λ b s p. p)
  | inl e ↦ rw e (
      new-Made name t good
        (λ a p. find_symbol-none name t.names t.entries a e (good.all_listed a name p) p))
]

make_symbols_keep :
    (names : List String) (t : SymbolTable)
    → IsInterned t
    → IsInterned (make_symbols names t)
      × ((b : Addr) (s : String)
          → fetch b t.names ≡ some s
          → fetch b (make_symbols names t).names ≡ some s)
unfolding make_symbols
make_symbols_keep [] t good = (good, λ b s p. p)
make_symbols_keep (name ∷ names) t good =
    let (next, named, stay) = make_symbol-Made name t good in
    let (last, later) = make_symbols_keep names ((make_symbol name t).1) next in
    (last, λ b s p. later b s (stay b s p))

one_name :
    (a b : Addr) (s r : String) (names : List String)
    → fetch a names ≡ some s
    → fetch b names ≡ some r
    → a ≡ b
    → s ≡ r
one_name a b s r names p q e =
    let both : some s ≡ some r = sym p ∙ ap (λ x. fetch x names) e ∙ q in cc

-- A table in which every symbol is listed and no two have one name stays so whatever symbols are made.
-- A name's symbol, and the symbol that is made from a name after any others, are the same object if
-- the names are equal, and different objects if they are not.
pub make_symbol-make_symbol :
    (name other : String) (names : List String) (t : SymbolTable)
    → IsInterned t
    → IsInterned (make_symbols names ((make_symbol name t).1))
      × (((make_symbol other (make_symbols names ((make_symbol name t).1))).0
            ≡ (make_symbol name t).0)
          ↔ (other ≡ name))
make_symbol-make_symbol name other names t good =
    let (next, named, stay) = make_symbol-Made name t good in
    let (last, later) = make_symbols_keep names ((make_symbol name t).1) next in
    let t2 : SymbolTable = make_symbols names ((make_symbol name t).1) in
    let (end, other_named, kept) = make_symbol-Made other t2 last in
    let still = kept ((make_symbol name t).0) name (later ((make_symbol name t).0) name named) in
    (
      last,
      (
        λ same. one_name _ _ other name ((make_symbol other t2).1).names other_named still same,
        λ same. end.distinct _ _ name (other_named ∙ ap some same) still,
      ),
    )
