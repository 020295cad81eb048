-- ===== src/Safety/Writes.antt =====
-- A write to a pair, a string or a vector keeps what the machine relies on.
use secd_scheme.Prelude.{
  ◌≡◌, refl, sym, subst, ◌∙◌, inl, inr, some, List, Addr, fetch, update, fetch-update, update_keeps,
}
use secd_scheme.Value.{
  Frame, Snapshot, Object, pair, string, vector, continuation, Heap, SchemeError,
}
use secd_scheme.Effect.{Result, ok, raise, fault, exit, out_of_fuel, M, continue, ◌>>=◌}
use secd_scheme.Step.{write_object}
use secd_scheme.Safety.Growth.{
  IsScratch, is_blank, is_closure, ObjectOk, HeapOk, Grows, Grows-refl, ObjectOk-Grows,
}
use secd_scheme.Safety.Actions.{Safe, returns, raises, Any}

-- An object that the machine does not call.
abbrev pub IsPlain : Object → Type 0
IsPlain (pair a d) = Unit {0}
IsPlain (string s) = Unit {0}
IsPlain (vector vs) = Unit {0}
IsPlain _ = ⊥

no_continuation : (o : Object) (s : Snapshot) → IsPlain o → some o ≡ some (continuation s) → ⊥
no_continuation (pair a d) s p e = cc
no_continuation (string t) s p e = cc
no_continuation (vector vs) s p e = cc
no_continuation _ s p e = absurd p

no_scratch : (o y : Object) → IsPlain o → IsScratch y → some o ≡ some y → ⊥
no_scratch (pair a d) y p is_blank e = cc
no_scratch (pair a d) y p is_closure e = cc
no_scratch (string t) y p is_blank e = cc
no_scratch (string t) y p is_closure e = cc
no_scratch (vector vs) y p is_blank e = cc
no_scratch (vector vs) y p is_closure e = cc
no_scratch _ y p is e = absurd p

plain_ObjectOk : (os : List Object) (fs : List Frame) (o : Object) → IsPlain o → ObjectOk os fs o
plain_ObjectOk os fs (pair a d) p = tt
plain_ObjectOk os fs (string t) p = tt
plain_ObjectOk os fs (vector vs) p = tt
plain_ObjectOk os fs _ p = absurd p

module _ (h : Heap) (a : Addr) (o o' : Object) (there : fetch a h.objects ≡ some o)
    (plain : IsPlain o) where
  Grows-write : Grows h (record h { objects = update a o' h.objects })
  Grows-write = record {
    frames_stay = λ b f at. (f, at, refl, refl);
    continuations_stay = λ b s at. elim (update_keeps a b o' h.objects at) [
      | inl stays ↦ stays
      | inr (same, new) ↦ absurd (no_continuation o s plain (sym there ∙ rw (← same) at at))
    ];
    scratches_stay = λ b (y, at, is). elim (update_keeps a b o' h.objects at) [
      | inl stays ↦ (y, stays, is)
      | inr (same, new) ↦ absurd (no_scratch o y plain is (sym there ∙ rw (← same) at at))
    ];
    table_stays = refl;
  }

  HeapOk-write : HeapOk h → IsPlain o' → HeapOk (record h { objects = update a o' h.objects })
  HeapOk-write good plain' = record {
    objects_ok = λ b x at. elim (fetch-update a b o' h.objects at) [
      | inl e ↦
          subst (ObjectOk (update a o' h.objects) h.frames) e
            (plain_ObjectOk (update a o' h.objects) h.frames o' plain')
      | inr old ↦ ObjectOk-Grows Grows-write x (good.objects_ok b x old)
    ];
  }

pub Safe-write_object :
    (h : Heap) (a : Addr) (o o' : Object)
    → HeapOk h
    → fetch a h.objects ≡ some o
    → IsPlain o
    → IsPlain o'
    → Safe h Any (write_object a o' h)
unfolding write_object
Safe-write_object h a o o' good there plain plain' =
    returns (HeapOk-write h a o o' there plain good plain') (Grows-write h a o o' there plain) tt

-- An action that only looks at the heap.
pub data OnlyReads {ℓ} {A : Type ℓ} (h : Heap) : Result A → Type ℓ where
  seen : {a : A} → OnlyReads h (ok a h)
  refused : {e : SchemeError} → OnlyReads h (raise e h)

pub Safe-read {ℓ κ} :
    {A : Type ℓ} {B : Type κ} {Q : B → Heap → Type 0} {h : Heap} (m : M A) (f : A → M B)
    → HeapOk h
    → OnlyReads h (m h)
    → ((a : A) → m h ≡ ok a h → Safe h Q (f a h))
    → Safe h Q ((m >>= f) h)
unfolding ◌>>=◌
Safe-read {A = A} {Q = Q} {h = h} m f good r k = ended (m h) refl r
  where
    ended : (x : Result A) → m h ≡ x → OnlyReads h x → Safe h Q (continue x f)
    ended (ok a h) e OnlyReads.seen = k a e
    ended (raise x h) e OnlyReads.refused = raises good (Grows-refl h)
    ended (fault x) e s = elim s [ ]
    ended (exit n) e s = elim s [ ]
    ended out_of_fuel e s = elim s [ ]
