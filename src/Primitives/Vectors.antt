-- ===== src/Primitives/Vectors.antt =====
-- scheme14/scheme14.cpp, section 11: vectors, and the integers that are used as an index.
pub mod Laws
use secd_scheme.Prelude.{
  ℕ, zero, suc, ◌^◌, ltb, Bool, true, false, Option, none, some, List, [], ◌∷◌, length, get_elem?,
  set, Addr, fetch, ◌==◌, ◌||◌, if◌then◌else◌, String, ℤ, pos, negsuc,
}
use secd_scheme.Value.{Value, nil, integer, symbol, object, Object, vector, Message, Heap}
use secd_scheme.Effect.{M, pure, throw, gets, alloc, expect, ◌>>=◌, ◌>>◌}
use secd_scheme.Pairs.{list_from, list_to_vector}
use secd_scheme.Step.{write_object}
use secd_scheme.Primitives.{need_args, type_error, arg}

abbrev pub vector_at : Option Object → Option (List Value)
vector_at (some (vector vs)) = some vs
vector_at _ = none

-- The elements of the value, if it is a vector.
unfoldable pub items_of : Value → M (Option (List Value))
items_of (object a) = gets (λ h. vector_at (fetch a h.objects))
items_of _ = pure none

unfoldable pub vec_of : Value → String → M (List Value)
unfolding items_of
vec_of v who = do vs ← items_of v; elim vs [ none ↦ type_error who | some xs ↦ pure xs ]

-- ll_of: an integer that fits 64 bits with a sign
unfoldable pub ll_of : Value → String → M ℤ
ll_of (integer (pos n)) who = if ltb n (2 ^ 63) then pure (pos n) else throw (Message.domain who)
ll_of (integer (negsuc n)) who =
    if ltb n (2 ^ 63) then pure (negsuc n) else throw (Message.domain who)
ll_of _ who = type_error who

-- An index below a limit, or a range error.
unfoldable pub index_below : ℤ → ℕ → String → M ℕ
index_below (pos i) limit who = if ltb i limit then pure i else throw (Message.out_of_range who)
index_below (negsuc i) limit who = throw (Message.out_of_range who)

abbrev pub undef : Value
undef = symbol ":undef"

unfoldable pub write_elements : Value → List Value → M (Unit {0})
unfolding write_object
write_elements (object a) vs = write_object a (vector vs)
write_elements _ vs = pure tt

unfoldable pub repeated : ℕ → Value → List Value
repeated zero v = []
repeated (suc n) v = v ∷ repeated n v

-- The length of a new vector, or a range error.
unfoldable pub count_of : ℤ → String → M ℕ
count_of (pos n) who = pure n
count_of (negsuc n) who = throw (Message.domain who)

abbrev pub fill_of : List Value → Value
fill_of (len ∷ (v ∷ [])) = v
fill_of _ = nil

unfoldable pub prim_make_vector : List Value → M Value
unfolding need_args arg ll_of count_of repeated alloc
prim_make_vector args = do
  need_args "make-vector" (length args) 1 2
  len ← ll_of (arg 0 args) "make-vector"
  n ← count_of len "make-vector"
  alloc (vector (repeated n (fill_of args)))

unfoldable pub prim_vector : List Value → M Value
unfolding alloc
prim_vector args = alloc (vector args)

unfoldable pub prim_vector_length : List Value → M Value
unfolding need_args arg vec_of
prim_vector_length args = do
  need_args "vector-length" (length args) 1 1
  vs ← vec_of (arg 0 args) "vector-length"
  pure (integer (pos (length vs)))

unfoldable pub prim_vector_ref : List Value → M Value
unfolding need_args arg vec_of ll_of index_below expect
prim_vector_ref args = do
  need_args "vector-ref" (length args) 2 2
  vs ← vec_of (arg 0 args) "vector-ref"
  z ← ll_of (arg 1 args) "vector-ref"
  i ← index_below z (length vs) "vector-ref"
  expect (get_elem? vs i)

unfoldable pub prim_vector_set : List Value → M Value
unfolding need_args arg vec_of ll_of index_below write_elements
prim_vector_set args = do
  need_args "vector-set!" (length args) 3 3
  vs ← vec_of (arg 0 args) "vector-set!"
  z ← ll_of (arg 1 args) "vector-set!"
  i ← index_below z (length vs) "vector-set!"
  write_elements (arg 0 args) (set vs i (arg 2 args))
  pure undef

unfoldable pub prim_vector_to_list : List Value → M Value
unfolding need_args arg vec_of list_from
prim_vector_to_list args = do
  need_args "vector->list" (length args) 1 1
  vs ← vec_of (arg 0 args) "vector->list"
  list_from vs

-- The source makes the vector before it walks the list, and drops it if the list is refused.
unfoldable pub prim_list_to_vector : List Value → M Value
unfolding need_args arg list_to_vector alloc
prim_list_to_vector args = do
  need_args "list->vector" (length args) 1 1
  vs ← list_to_vector (arg 0 args) "list->vector"
  alloc (vector vs)
