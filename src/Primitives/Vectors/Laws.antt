-- ===== src/Primitives/Vectors/Laws.antt =====
-- What vectors hold: reading after writing, the bounds, and the way to lists and back.
use secd_scheme.Prelude.{
  ℕ, zero, suc, ◌≤◌, ◌<◌, ◌^◌, ◌==◌, lt→ltb, ge→ltb, ◌≡◌, refl, true, some, List, [], ◌∷◌, length,
  length-set, get_elem?, set, Addr, fetch, fetch-update_self, update, fetch-alloc_self,
  if◌then◌else◌, String, pos, negsuc, arith,
}
use secd_scheme.Value.{Value, integer, object, vector, Heap, Message, SchemeError}
use secd_scheme.Effect.{ok, raise, pure, throw, gets, alloc, expect, ◌>>=◌}
use secd_scheme.Step.{write_object}
use secd_scheme.Syntax.{in_range}
use secd_scheme.Pairs.Chains.{list_to_vector-list_from}
use secd_scheme.Primitives.{need_args, arg}
use secd_scheme.Primitives.Vectors.{
  items_of, vec_of, ll_of, index_below, undef, write_elements, prim_vector_ref, prim_vector_set,
  prim_vector_to_list, prim_list_to_vector,
}

get_elem?-set :
    (vs : List Value) (i j : ℕ) (v : Value)
    → i < length vs
    → get_elem? (set vs i v) j ≡ (if i == j then some v else get_elem? vs j)
get_elem?-set [] i j v lt = absurd (omega (arith, lt))
get_elem?-set (x ∷ vs) zero zero v lt = refl
get_elem?-set (x ∷ vs) zero (suc j) v lt = ground arith
get_elem?-set (x ∷ vs) (suc i) zero v lt = ground arith
get_elem?-set (x ∷ vs) (suc i) (suc j) v lt =
    ground (arith, get_elem?-set vs i j v (omega (arith, lt)))

vec_of-vector :
    (h : Heap) (a : Addr) (vs : List Value) (who : String)
    → fetch a h.objects ≡ some (vector vs)
    → vec_of (object a) who h ≡ ok vs h
unfolding vec_of items_of gets pure ◌>>=◌
vec_of-vector h a vs who e = rw e refl

ref-vector :
    (h : Heap) (a : Addr) (vs : List Value) (i : ℕ) (v : Value)
    → fetch a h.objects ≡ some (vector vs)
    → i < 2 ^ 63
    → i < length vs
    → get_elem? vs i ≡ some v
    → prim_vector_ref (object a ∷ (integer (pos i) ∷ [])) h ≡ ok v h
unfolding prim_vector_ref need_args arg in_range ll_of index_below expect pure ◌>>=◌
ref-vector h a vs i v e small lt g =
    rw (vec_of-vector h a vs "vector-ref" e, lt→ltb i (2 ^ 63) small, lt→ltb i (length vs) lt, g)
      refl

set-vector :
    (h : Heap) (a : Addr) (vs : List Value) (i : ℕ) (v : Value)
    → fetch a h.objects ≡ some (vector vs)
    → i < 2 ^ 63
    → i < length vs
    → prim_vector_set (object a ∷ (integer (pos i) ∷ (v ∷ []))) h
      ≡ ok undef (record h { objects = update a (vector (set vs i v)) h.objects })
unfolding prim_vector_set need_args arg in_range ll_of index_below write_elements write_object pure
    ◌>>=◌
set-vector h a vs i v e small lt =
    rw (vec_of-vector h a vs "vector-set!" e, lt→ltb i (2 ^ 63) small, lt→ltb i (length vs) lt) refl

get_elem?-lt : (vs : List Value) (i : ℕ) (w : Value) → get_elem? vs i ≡ some w → i < length vs
get_elem?-lt [] i w e = cc
get_elem?-lt (x ∷ vs) zero w e = omega arith
get_elem?-lt (x ∷ vs) (suc i) w e = omega (arith, get_elem?-lt vs i w e)

-- In a vector whose length fits an index, `vector-set!` at an index below the length returns the
-- undefined symbol, and `vector-ref` then reads the new element at that index and the old element at
-- every other.
pub vector_ref-vector_set :
    (h : Heap) (a : Addr) (vs : List Value) (i j : ℕ) (v w : Value)
    → fetch a h.objects ≡ some (vector vs)
    → length vs ≤ 2 ^ 63
    → i < length vs
    → get_elem? vs j ≡ some w
    → (h' : Heap) × (prim_vector_set (object a ∷ (integer (pos i) ∷ (v ∷ []))) h ≡ ok undef h')
      × (prim_vector_ref (object a ∷ (integer (pos j) ∷ [])) h' ≡ ok (if i == j then v else w) h')
vector_ref-vector_set h a vs i j v w e fits lt old =
    let below = get_elem?-lt vs j w old in
    let new : get_elem? (set vs i v) j ≡ some (if i == j then v else w) =
      ground (arith, get_elem?-set vs i j v lt, old) in
    (
      record h { objects = update a (vector (set vs i v)) h.objects },
      set-vector h a vs i v e (omega (arith, lt, fits)) lt,
      ref-vector _ a (set vs i v) j _ (fetch-update_self a (vector (set vs i v)) h.objects e)
          (omega (arith, below, fits)) (omega (arith, below, length-set vs i v)) new,
    )

abbrev pub range_error : String → SchemeError
range_error who = record { message = Message.out_of_range who; catchable = true }

-- An index that is negative, or not below the length, makes `vector-ref` and `vector-set!` a range
-- error if it fits 64 bits, and nothing is written.
pub vector-bounds :
    (h : Heap) (a : Addr) (vs : List Value) (i k : ℕ) (v : Value)
    → fetch a h.objects ≡ some (vector vs)
    → length vs ≤ i
    → i < 2 ^ 63
    → k < 2 ^ 63
    → (prim_vector_ref (object a ∷ (integer (pos i) ∷ [])) h ≡ raise (range_error "vector-ref") h)
      × (prim_vector_ref (object a ∷ (integer (negsuc k) ∷ [])) h
          ≡ raise (range_error "vector-ref") h)
      × (prim_vector_set (object a ∷ (integer (pos i) ∷ (v ∷ []))) h
          ≡ raise (range_error "vector-set!") h)
      × (prim_vector_set (object a ∷ (integer (negsuc k) ∷ (v ∷ []))) h
          ≡ raise (range_error "vector-set!") h)
unfolding prim_vector_ref prim_vector_set need_args arg in_range ll_of index_below pure throw ◌>>=◌
vector-bounds h a vs i k v e past small less = (
  rw (vec_of-vector h a vs "vector-ref" e, lt→ltb i (2 ^ 63) small, ge→ltb i (length vs) past) refl,
  rw (vec_of-vector h a vs "vector-ref" e, lt→ltb k (2 ^ 63) less) refl,
  rw (vec_of-vector h a vs "vector-set!" e, lt→ltb i (2 ^ 63) small, ge→ltb i (length vs) past)
      refl,
  rw (vec_of-vector h a vs "vector-set!" e, lt→ltb k (2 ^ 63) less) refl,
)

-- `list->vector` of what `vector->list` returns is a new vector of the same elements, whatever vector it
-- is.
pub list_to_vector-vector_to_list :
    (h : Heap) (a : Addr) (vs : List Value)
    → fetch a h.objects ≡ some (vector vs)
    → (l : Value) × (h1 : Heap) × (b : Addr) × (h2 : Heap) × (prim_vector_to_list (object a ∷ []) h
        ≡ ok l h1)
      × (prim_list_to_vector (l ∷ []) h1 ≡ ok (object b) h2)
      × (fetch b h2.objects ≡ some (vector vs))
unfolding prim_vector_to_list prim_list_to_vector need_args arg in_range alloc pure ◌>>=◌
list_to_vector-vector_to_list h a vs e =
    let (l, h1, made, read) = list_to_vector-list_from vs "list->vector" h in
    (
      l,
      h1,
      length h1.objects,
      record h1 { objects = vector vs ∷ h1.objects },
      rw (vec_of-vector h a vs "vector->list" e) made,
      rw read refl,
      fetch-alloc_self (vector vs) h1.objects,
    )
