-- ===== src/Primitives/Equality.antt =====
-- scheme14/scheme14.cpp, section 11 (`equal?`): the comparison of two values by their structure. The
-- map holds, for each pair or vector that is being compared, what it is compared with, and a
-- value that is met again below itself is equal to that alone.
pub mod Parts
pub mod Data
use secd_scheme.Prelude.{
  ℕ, zero, suc, ◌==◌, Bool, true, false, Option, none, some, List, [], ◌∷◌, length, Addr, fetch,
  if◌then◌else◌, Char, code, Text,
}
use secd_scheme.Value.{Value, object, Object, pair, string, vector}
use secd_scheme.Effect.{M, Result, ok, out_of_fuel, pure}
use secd_scheme.Value.{boolean}
use secd_scheme.Primitives.{eqv_values}

unfoldable pub same_text : Text → Text → Bool
same_text [] [] = true
same_text (c ∷ s) (d ∷ t) = if code c == code d then same_text s t else false
same_text _ _ = false

abbrev pub SeenMap : Type 0
SeenMap = List (Addr × Addr)

unfoldable pub find : Addr → SeenMap → Option Addr
find a [] = none
find a ((b, c) ∷ seen) = if a == b then some c else find a seen

-- Two values of one kind that has parts, or two that are not.
pub data Both : Type 0 where
  texts : Text → Text → Both
  vectors : Addr → List Value → Addr → List Value → Both
  pairs : Addr → Value → Value → Addr → Value → Value → Both
  unlike : Both

abbrev pub both_at : Addr → Option Object → Addr → Option Object → Both
both_at a (some (string s)) b (some (string t)) = Both.texts s t
both_at a (some (vector vs)) b (some (vector ws)) = Both.vectors a vs b ws
both_at a (some (pair x d)) b (some (pair y e)) = Both.pairs a x d b y e
both_at a _ b _ = Both.unlike

unfoldable pub both_of : List Object → Value → Value → Both
both_of os (object a) (object b) = both_at a (fetch a os) b (fetch b os)
both_of os _ _ = Both.unlike

-- The elements of two vectors of one length, up to the first that differ.
unfoldable pub all_equal : (Value → Value → Option Bool) → List Value → List Value → Option Bool
all_equal eq (v ∷ vs) (w ∷ ws) = elim (eq v w) [
  | none ↦ none
  | some false ↦ some false
  | some true ↦ all_equal eq vs ws
]
all_equal eq _ _ = some true

-- `none` is running out of fuel. Two values that are one pointer, or one number, are equal at once.
unfoldable mutual
  unfolding eqv_values both_of same_text all_equal find

  pub equal_values : ℕ → List Object → SeenMap → Value → Value → Option Bool
  equal_values zero os seen x y = none
  equal_values (suc fuel) os seen x y = elim (eqv_values x y) [
    | true ↦ some true
    | false ↦ elim (both_of os x y) [
      | Both.texts s t ↦ some (same_text s t)
      | Both.vectors a vs b ws ↦ elim (find a seen) [
        | some c ↦ some (c == b)
        | none ↦ elim (length vs == length ws) [
          | true ↦ all_equal (equal_values fuel os ((a, b) ∷ seen)) vs ws
          | false ↦ some false
        ]
      ]
      | Both.pairs a v d b w e ↦ equal_pairs fuel os seen a v d b w e
      | Both.unlike ↦ some false
    ]
  ]

  -- The loop along the cdrs of two pairs. A pair and a value of another kind are `unlike`.
  pub equal_pairs :
      ℕ → List Object → SeenMap → Addr → Value → Value → Addr → Value → Value → Option Bool
  equal_pairs zero os seen a x d b y e = none
  equal_pairs (suc fuel) os seen a x d b y e = elim (find a seen) [
    | some c ↦ some (c == b)
    | none ↦ elim (equal_values fuel os ((a, b) ∷ seen) x y) [
      | none ↦ none
      | some false ↦ some false
      | some true ↦ elim (eqv_values d e) [
        | true ↦ some true
        | false ↦ equal_tails fuel os ((a, b) ∷ seen) d e (both_of os d e)
      ]
    ]
  ]

  -- The loop goes on with two pairs; two other values end it.
  pub equal_tails : ℕ → List Object → SeenMap → Value → Value → Both → Option Bool
  equal_tails zero os seen d e both = none
  equal_tails (suc fuel) os seen d e (Both.pairs a v d' b w e') =
      equal_pairs fuel os seen a v d' b w e'
  equal_tails (suc fuel) os seen d e _ = equal_values fuel os seen d e

-- `equal?` with any other number of arguments than two is false.
unfoldable pub prim_equal : ℕ → List Value → M Value
unfolding equal_values
prim_equal fuel (x ∷ (y ∷ [])) h = elim (equal_values fuel h.objects [] x y) [
  | none ↦ out_of_fuel
  | some b ↦ ok (boolean b) h
]
prim_equal fuel _ h = ok (boolean false) h
