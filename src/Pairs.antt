-- ===== src/Pairs.antt =====
-- scheme14/scheme14.cpp, sections 3, 6 and 11: pairs, and the walks along the cdrs of a list that
-- find a cycle by two pointers (`list_to_vector`, `form_arity`, `is_proper_list`).
pub mod Chains
pub mod Termination
pub mod Deciding
pub mod Bound
use secd_scheme.Prelude.{
  ℕ, zero, suc, ◌+◌, Bool, true, false, Option, none, some, List, [], ◌∷◌, reverse, Addr, fetch,
  length, ◌==◌, if◌then◌else◌, String,
}
use secd_scheme.Value.{Value, nil, object, Object, pair, Heap, Message}
use secd_scheme.Effect.{
  M, pure, throw, gets, expect, alloc, ◌>>=◌, ◌>>◌, internal_error, out_of_fuel,
}

abbrev pub as_pair? : Option Object → Option (Value × Value)
as_pair? none = none
as_pair? (some (pair a d)) = some (a, d)
as_pair? (some _) = none

-- `is_pair`, with the car and the cdr
unfoldable pub pair_of : List Object → Value → Option (Value × Value)
pair_of os (object a) = as_pair? (fetch a os)
pair_of os _ = none

unfoldable pub is_nil : Value → Bool
is_nil nil = true
is_nil _ = false

-- `fast == slow` on the pointers of a walk, where `slow` is a pair
unfoldable pub same_object : Value → Value → Bool
same_object (object a) (object b) = a == b
same_object _ _ = false

-- How a walk along the cdrs ends: the elements, a tail that is not nil, or a cycle.
pub data Walk : Type 0 where
  proper : List Value → Walk
  improper circular endless : Walk

unfoldable pub finish : Value → List Value → Walk
unfolding is_nil
finish tail acc = if is_nil tail then Walk.proper (reverse acc) else Walk.improper

abbrev pub cdr_or : Option (Value × Value) → Value → Value
cdr_or none v = v
cdr_or (some (a, d)) v = d

-- One round of the source's loop takes two elements and moves `slow` by one.
unfoldable pub walk : ℕ → List Object → Value → Value → List Value → Walk
unfolding pair_of same_object finish
walk zero os slow fast acc = Walk.endless
walk (suc fuel) os slow fast acc = elim (pair_of os fast) [
  | none ↦ finish fast acc
  | some (a, d) ↦ elim (pair_of os d) [
    | none ↦ finish d (a ∷ acc)
    | some (b, e) ↦ elim (same_object e (cdr_or (pair_of os slow) slow)) [
      | true ↦ Walk.circular
      | false ↦ walk fuel os (cdr_or (pair_of os slow) slow) e (b ∷ (a ∷ acc))
    ]
  ]
]

-- A pair that the walk meets twice is on a cycle, and then the pointers meet: a round for each object
-- of the heap and one more is enough.
unfoldable pub walk_from : List Object → Value → Walk
unfolding walk
walk_from os v = walk (suc (length os)) os v v []

abbrev pub elements : String → Walk → M (List Value)
elements who (Walk.proper xs) = pure xs
elements who Walk.improper = throw (Message.improper_list who)
elements who Walk.circular = throw (Message.circular_list who)
elements who Walk.endless = λ h. out_of_fuel

unfoldable pub list_to_vector : Value → String → M (List Value)
unfolding walk_from pure throw gets ◌>>=◌
list_to_vector ls who = do w ← gets (λ h. walk_from h.objects ls); elements who w

unfoldable pub make_pair : Value → Value → M Value
unfolding alloc
make_pair a d = alloc (pair a d)

-- The pairs are made from the last element on.
unfoldable pub list_onto : List Value → Value → M Value
unfolding make_pair ◌>>=◌ pure
list_onto [] tail = pure tail
list_onto (x ∷ xs) tail = do out ← list_onto xs tail; make_pair x out

unfoldable pub list_from : List Value → M Value
unfolding list_onto
list_from xs = list_onto xs nil
