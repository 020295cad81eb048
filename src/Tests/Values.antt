-- ===== src/Tests/Values.antt =====
-- The theorems on numbers, vectors and strings at concrete inputs.
use secd_scheme.Prelude.{
  String, ℕ, ◌+◌, ◌<◌, ◌==◌, ◌≡◌, ◌≢◌, ◌↔◌, ◌⊎◌, refl, false, List, [], ◌∷◌, ◌++◌, map, some, pos,
  negsuc, ℤ, Addr, fetch, arith, chars, if◌then◌else◌,
}
use secd_scheme.Value.{
  interaction, Value, nil, integer, flonum, symbol, object, boolean, string, vector, Heap,
}
use secd_scheme.Effect.{ok, raise}
use secd_scheme.Symbols.{SymbolTable, make_symbol, make_symbols}
use secd_scheme.Symbols.Interning.{IsInterned, make_symbol-make_symbol}
use secd_scheme.Primitives.Numbers.{
  ◌+ℤ◌, ◌-ℤ◌, ◌*ℤ◌, prim_add, prim_mul, prim_sub, prim_quotient, prim_remainder, prim_modulo,
}
use secd_scheme.Primitives.Numbers.Sums.{
  fold_from, arithmetic-integers, arithmetic-refuses, refusal,
}
use secd_scheme.Primitives.Numbers.Division.{size_of, Agrees, division}
use secd_scheme.Primitives.Vectors.{
  undef, prim_vector_ref, prim_vector_set, prim_vector_to_list, prim_list_to_vector,
}
use secd_scheme.Primitives.Vectors.Laws.{
  vector_ref-vector_set, vector-bounds, range_error, list_to_vector-vector_to_list,
}
use secd_scheme.Primitives.Strings.{prim_string_to_list, prim_list_to_string}
use secd_scheme.Primitives.Strings.Laws.{list_to_string-string_to_list}

abbrev three_elements : List Value
three_elements = integer (pos 10) ∷ (symbol "b" ∷ (integer (pos 30) ∷ []))

-- a vector of three elements, and a string
abbrev stored : Heap
stored = record {
  objects = vector three_elements ∷ string (chars "abc") ∷ [];
  frames = [];
  cells = [];
  globals = [];
  report_globals = [];
  null_globals = [];
  compile_table = interaction;
  gensyms = 0;
  winds = [];
  wind_next = 0;
  handler = boolean false;
  run_depth = 0;
}

abbrev double_of : ℤ → ℕ
double_of z = 0

abbrev plus : ℕ → ℕ → ℕ
plus a b = a + b

abbrev flip : ℕ → ℕ
flip d = d

-- 2^62 - 1 and 2 overflow a fixnum.
abbrev large : List ℤ
large = pos 4611686018427387903 ∷ (pos 2 ∷ (negsuc 0 ∷ []))

arithmetic-integers_example :
    (prim_add double_of plus (map integer large) stored
      ≡ ok (integer (fold_from ◌+ℤ◌ (pos 0) large)) stored)
    × (prim_mul double_of plus (map integer large) stored
        ≡ ok (integer (fold_from ◌*ℤ◌ (pos 1) large)) stored)
    × (prim_sub double_of flip plus (map integer (pos 3 ∷ (pos 5 ∷ large))) stored
        ≡ ok (integer (fold_from ◌-ℤ◌ (pos 3) (pos 5 ∷ large))) stored)
arithmetic-integers_example = arithmetic-integers double_of flip plus large (pos 3) (pos 5) stored

arithmetic-refuses_example :
    (prim_add double_of plus ((integer (pos 1) ∷ (flonum 7 ∷ [])) ++ (nil ∷ [])) stored
      ≡ raise (refusal "+") stored)
    × (prim_mul double_of plus ((integer (pos 1) ∷ (flonum 7 ∷ [])) ++ (nil ∷ [])) stored
        ≡ raise (refusal "*") stored)
arithmetic-refuses_example =
    arithmetic-refuses double_of plus (integer (pos 1) ∷ (flonum 7 ∷ [])) nil [] stored refl

two_apart : pos 2 ≢ pos 0
two_apart e = cc

division_example :
    (q : ℤ) × (r : ℤ) × (m : ℤ) × (prim_quotient
        (integer (negsuc 6) ∷ (integer (pos 2) ∷ []))
        stored
      ≡ ok (integer q) stored)
    × (prim_remainder (integer (negsuc 6) ∷ (integer (pos 2) ∷ [])) stored ≡ ok (integer r) stored)
    × (prim_modulo (integer (negsuc 6) ∷ (integer (pos 2) ∷ [])) stored ≡ ok (integer m) stored)
    × ((q *ℤ pos 2) +ℤ r ≡ negsuc 6)
    × (size_of r < size_of (pos 2))
    × Agrees (negsuc 6) r
    × ((m ≡ r) ⊎ (m ≡ r +ℤ pos 2))
    × (size_of m < size_of (pos 2))
    × Agrees (pos 2) m
division_example = division (negsuc 6) (pos 2) stored two_apart

vector_ref-vector_set_example :
    (h' : Heap) × (prim_vector_set (object 1 ∷ (integer (pos 1) ∷ (nil ∷ []))) stored ≡ ok undef h')
    × (prim_vector_ref (object 1 ∷ (integer (pos 2) ∷ [])) h'
        ≡ ok (if 1 == 2 then nil else integer (pos 30)) h')
unfolding fetch
vector_ref-vector_set_example =
    vector_ref-vector_set stored 1 three_elements 1 2 nil (integer (pos 30)) refl (omega arith)
      (omega arith) refl

vector-bounds_example :
    (prim_vector_ref (object 1 ∷ (integer (pos 3) ∷ [])) stored
      ≡ raise (range_error "vector-ref") stored)
    × (prim_vector_ref (object 1 ∷ (integer (negsuc 0) ∷ [])) stored
        ≡ raise (range_error "vector-ref") stored)
    × (prim_vector_set (object 1 ∷ (integer (pos 3) ∷ (nil ∷ []))) stored
        ≡ raise (range_error "vector-set!") stored)
    × (prim_vector_set (object 1 ∷ (integer (negsuc 0) ∷ (nil ∷ []))) stored
        ≡ raise (range_error "vector-set!") stored)
unfolding fetch
vector-bounds_example =
    vector-bounds stored 1 three_elements 3 0 nil refl (omega arith) (omega arith) (omega arith)

list_to_vector-vector_to_list_example :
    (l : Value) × (h1 : Heap) × (b : Addr) × (h2 : Heap) × (prim_vector_to_list
        (object 1 ∷ [])
        stored
      ≡ ok l h1)
    × (prim_list_to_vector (l ∷ []) h1 ≡ ok (object b) h2)
    × (fetch b h2.objects ≡ some (vector three_elements))
unfolding fetch
list_to_vector-vector_to_list_example = list_to_vector-vector_to_list stored 1 three_elements refl

list_to_string-string_to_list_example :
    (l : Value) × (h1 : Heap) × (b : Addr) × (h2 : Heap) × (prim_string_to_list
        (object 0 ∷ [])
        stored
      ≡ ok l h1)
    × (prim_list_to_string (l ∷ []) h1 ≡ ok (object b) h2)
    × (fetch b h2.objects ≡ some (string (chars "abc")))
unfolding fetch
list_to_string-string_to_list_example = list_to_string-string_to_list stored 0 (chars "abc") refl

abbrev no_symbols : SymbolTable
no_symbols = record { names = []; entries = [] }

no_symbols-IsInterned : IsInterned no_symbols
unfolding fetch
no_symbols-IsInterned = record { all_listed = λ a s p. cc; distinct = λ a b s p q. cc }

make_symbol-make_symbol_example :
    IsInterned (make_symbols ("c" ∷ []) ((make_symbol "b" no_symbols).1))
    × (((make_symbol "b" (make_symbols ("c" ∷ []) ((make_symbol "b" no_symbols).1))).0
          ≡ (make_symbol "b" no_symbols).0)
        ↔ ◌≡◌ {A = String} "b" "b")
make_symbol-make_symbol_example =
    make_symbol-make_symbol "b" "b" ("c" ∷ []) no_symbols no_symbols-IsInterned
