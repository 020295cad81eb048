-- ===== src/Safety/Data/Sets.antt =====
-- `string-set!` and `vector-set!` are safe.
use secd_scheme.Prelude.{
  ℕ, ◌≡◌, Bool, true, false, Option, none, some, List, [], ◌∷◌, length, String, ℤ, pos, negsuc,
  if◌then◌else◌, fetch, Option-cases, inl, inr, Text, set, Bool-cases,
}
use secd_scheme.Value.{Value, integer, object, Object, string, vector, Heap, Message, SchemeError}
use secd_scheme.Effect.{M, ok, raise, pure, throw, gets, ◌>>=◌}
use secd_scheme.Syntax.{in_range}
use secd_scheme.Primitives.{need_args, arg}
use secd_scheme.Primitives.Strings.{
  string_at, string_text, str_of, char_of, replace_text, prim_string_set,
}
use secd_scheme.Primitives.Vectors.{
  vector_at, items_of, vec_of, ll_of, index_below, write_elements, prim_vector_set,
}
use secd_scheme.Safety.Growth.{HeapOk}
use secd_scheme.Safety.Actions.{Safe, Any, Safe-pure, Safe-bind}
use secd_scheme.Safety.Sound.{Sound}
use secd_scheme.Safety.Writes.{Safe-write_object, OnlyReads, seen, refused, Safe-read}

-- A call that writes looks at its arguments first, and the heap is the same until it writes.
need_args-reads : (who : String) (n lo hi : ℕ) (h : Heap) → OnlyReads h (need_args who n lo hi h)
unfolding need_args pure throw
need_args-reads who n lo hi h = elim (Bool-cases (in_range lo hi n)) [
  | inl e ↦ rw e seen
  | inr e ↦ rw e refused
]

module _ (h : Heap) (good : HeapOk h) where
  str_of-reads : (v : Value) (who : String) → OnlyReads h (str_of v who h)
  unfolding str_of string_text gets pure throw ◌>>=◌
  str_of-reads (object a) who = elim (Option-cases (string_at (fetch a h.objects))) [
    | inl e ↦ rw e refused
    | inr (s, e) ↦ rw e seen
  ]
  str_of-reads _ who = refused

  vec_of-reads : (v : Value) (who : String) → OnlyReads h (vec_of v who h)
  unfolding vec_of items_of gets pure throw ◌>>=◌
  vec_of-reads (object a) who = elim (Option-cases (vector_at (fetch a h.objects))) [
    | inl e ↦ rw e refused
    | inr (s, e) ↦ rw e seen
  ]
  vec_of-reads _ who = refused

  char_of-reads : (s : Text) (who : String) → OnlyReads h (char_of s who h)
  unfolding char_of pure throw
  char_of-reads [] who = refused
  char_of-reads (c ∷ s) who = seen

  test-reads :
      {A : Type 0} (b : Bool) (x : A) (m : Message)
      → OnlyReads h ((if b then pure x else throw m) h)
  unfolding pure throw
  test-reads true x m = seen
  test-reads false x m = refused

  ll_of-reads : (v : Value) (who : String) → OnlyReads h (ll_of v who h)
  unfolding ll_of throw
  ll_of-reads (integer (pos n)) who = test-reads _ (pos n) _
  ll_of-reads (integer (negsuc n)) who = test-reads _ (negsuc n) _
  ll_of-reads _ who = refused

  index_below-reads : (z : ℤ) (n : ℕ) (who : String) → OnlyReads h (index_below z n who h)
  unfolding index_below throw
  index_below-reads (pos i) n who = test-reads _ i _
  index_below-reads (negsuc i) n who = refused

  text_at : (o : Option Object) (s : Text) → string_at o ≡ some s → o ≡ some (string s)
  text_at (some (string t)) s e = cc
  text_at none s e = cc
  text_at (some _) s e = cc

  items_at : (o : Option Object) (vs : List Value) → vector_at o ≡ some vs → o ≡ some (vector vs)
  items_at (some (vector ws)) vs e = cc
  items_at none vs e = cc
  items_at (some _) vs e = cc

  Safe-replace_text :
      (v : Value) (who : String) (s t : Text)
      → str_of v who h ≡ ok s h
      → Safe h Any (replace_text v t h)
  unfolding replace_text str_of string_text gets pure throw ◌>>=◌
  Safe-replace_text (object a) who s t seen_text =
      elim (Option-cases (string_at (fetch a h.objects))) [
        | inl e ↦ absurd (no_error (rw e at seen_text))
        | inr (s', e) ↦ Safe-write_object h a (string s') (string t) good (text_at _ s' e) tt tt
      ]
    where
      no_error : {e : SchemeError} → raise e h ≡ ok s h → ⊥
      no_error p = cc
  Safe-replace_text _ who s t e = unfold pure in Safe-pure tt good tt

  Safe-write_elements :
      (v : Value) (who : String) (vs ws : List Value)
      → vec_of v who h ≡ ok vs h
      → Safe h Any (write_elements v ws h)
  unfolding write_elements vec_of items_of gets pure throw ◌>>=◌
  Safe-write_elements (object a) who vs ws seen_items =
      elim (Option-cases (vector_at (fetch a h.objects))) [
        | inl e ↦ absurd (no_error (rw e at seen_items))
        | inr (vs', e) ↦
            Safe-write_object h a (vector vs') (vector ws) good (items_at _ vs' e) tt tt
      ]
    where
      no_error : {e : SchemeError} → raise e h ≡ ok vs h → ⊥
      no_error p = cc
  Safe-write_elements _ who vs ws e = unfold pure in Safe-pure tt good tt

  read :
      {A B : Type 0} (m : M A) (f : A → M B)
      → OnlyReads h (m h)
      → ((a : A) → m h ≡ ok a h → Safe h Any (f a h))
      → Safe h Any ((m >>= f) h)
  read m f r k = Safe-read m f good r k

pub Sound-string_set : (args : List Value) → Sound (prim_string_set args)
unfolding prim_string_set
Sound-string_set args = record {
  at = λ h good. read h good _ _ (need_args-reads "string-set!" (length args) 3 3 h) (λ _ _.
      read h good _ _ (str_of-reads h good (arg 0 args) "string-set!") (λ s found.
        read h good _ _ (str_of-reads h good (arg 2 args) "string-set!") (λ t _.
          read h good _ _ (char_of-reads h good t "string-set!") (λ c _.
            read h good _ _ (ll_of-reads h good (arg 1 args) "string-set!") (λ z _.
              read h good _ _ (index_below-reads h good z (length s) "string-set!") (λ i _.
                Safe-bind h (replace_text (arg 0 args) (set s i c)) _
                  (Safe-replace_text h good (arg 0 args) "string-set!" s (set s i c) found)
                  (λ _ h' good' g q. Safe-pure _ good' tt)))))));
}

pub Sound-vector_set : (args : List Value) → Sound (prim_vector_set args)
unfolding prim_vector_set
Sound-vector_set args = record {
  at = λ h good. read h good _ _ (need_args-reads "vector-set!" (length args) 3 3 h) (λ _ _.
      read h good _ _ (vec_of-reads h good (arg 0 args) "vector-set!") (λ vs found.
        read h good _ _ (ll_of-reads h good (arg 1 args) "vector-set!") (λ z _.
          read h good _ _ (index_below-reads h good z (length vs) "vector-set!") (λ i _.
            Safe-bind h (write_elements (arg 0 args) (set vs i (arg 2 args))) _
              (Safe-write_elements h good (arg 0 args) "vector-set!" vs (set vs i (arg 2 args))
                found)
              (λ _ h' good' g q. Safe-pure _ good' tt)))));
}
