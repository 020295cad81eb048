-- ===== src/Safety/Actions.antt =====
-- What an action on a good heap may end with: a good heap that has grown from the first, also where
-- it raises; none of the machine's own internal errors. The rules are one for each way to build an
-- action, so that a proof follows the code.
use secd_scheme.Prelude.{
  ℕ, ◌≡◌, refl, sym, subst, ◌∙◌, inl, inr, some, List, [], ◌∷◌, length, Addr, fetch, update,
  fetch-alloc, fetch-alloc_self, fetch-cons, fetch-update, update_keeps, String,
}
use secd_scheme.Value.{
  Value, object, Snapshot, Object, pair, continuation, Heap, Message, SchemeError,
}
use secd_scheme.Effect.{
  Fault, Result, ok, raise, fault, exit, out_of_fuel, M, continue, ◌>>=◌, pure, throw, gets, alloc,
}
use secd_scheme.Pairs.{Walk, elements, list_to_vector, walk_from, make_pair, list_onto, list_from}
use secd_scheme.Safety.Growth.{
  IsScratch, ScratchAt, ObjectOk, HeapOk, Grows, Grows-refl, Grows-trans, ObjectOk-Grows,
}

-- The internal errors that are none of the machine's checks of its own code: an accessor on a value of
-- another kind, a scratch closure that no instruction has filled, an operand that is too wide, an
-- exception of another library, and `eval` entered as an ordinary primitive.
abbrev pub OutsideMachine : Fault → Type 0
OutsideMachine Fault.accessor = Unit
OutsideMachine Fault.null_template = Unit
OutsideMachine Fault.too_wide = Unit
OutsideMachine Fault.library = Unit
OutsideMachine Fault.eval_entered = Unit
OutsideMachine _ = ⊥

pub data Safe {ℓ} {A : Type ℓ} (h : Heap) (Q : A → Heap → Type 0) : Result A → Type ℓ where
  returns : {a : A} {h' : Heap} → HeapOk h' → Grows h h' → Q a h' → Safe h Q (ok a h')
  raises : {e : SchemeError} {h' : Heap} → HeapOk h' → Grows h h' → Safe h Q (raise e h')
  faults : {x : Fault} → OutsideMachine x → Safe h Q (fault x)
  exits : {n : ℕ} → Safe h Q (exit n)
  runs_out : Safe h Q out_of_fuel

-- The action is safe on every good heap that has grown from `h`.
abbrev pub Any {ℓ} : {A : Type ℓ} → A → Heap → Type 0
Any a h = Unit {0}

module _ {ℓ} {A : Type ℓ} where
  pub Safe-Grows :
      {h h' : Heap} {Q : A → Heap → Type 0} {r : Result A} → Grows h h' → Safe h' Q r → Safe h Q r
  Safe-Grows g (returns good g' q) = returns good (Grows-trans g g') q
  Safe-Grows g (raises good g') = raises good (Grows-trans g g')
  Safe-Grows g (faults x) = faults x
  Safe-Grows g exits = exits
  Safe-Grows g runs_out = runs_out

  pub Safe-pure :
      {h : Heap} {Q : A → Heap → Type 0} (a : A) → HeapOk h → Q a h → Safe h Q (pure a h)
  unfolding pure
  Safe-pure {h} a good q = returns good (Grows-refl h) q

  pub Safe-throw :
      {h : Heap} {Q : A → Heap → Type 0} (m : Message) → HeapOk h → Safe h Q (throw m h)
  unfolding throw
  Safe-throw {h} m good = raises good (Grows-refl h)

module _ {ℓ κ} {A : Type ℓ} {B : Type κ} {Q : A → Heap → Type 0} {R : B → Heap → Type 0} where
  pub Safe-continue :
      {h : Heap} {r : Result A} (f : A → M B)
      → Safe h Q r
      → ((a : A) (h' : Heap) → HeapOk h' → Grows h h' → Q a h' → Safe h' R (f a h'))
      → Safe h R (continue r f)
  Safe-continue f (returns {a = a} {h' = h'} good g q) k = Safe-Grows g (k a h' good g q)
  Safe-continue f (raises good g) k = raises good g
  Safe-continue f (faults x) k = faults x
  Safe-continue f exits k = exits
  Safe-continue f runs_out k = runs_out

  pub Safe-bind :
      (h : Heap) (m : M A) (f : A → M B)
      → Safe h Q (m h)
      → ((a : A) (h' : Heap) → HeapOk h' → Grows h h' → Q a h' → Safe h' R (f a h'))
      → Safe h R ((m >>= f) h)
  unfolding ◌>>=◌
  Safe-bind h m f s k = Safe-continue f s k

module _ {ℓ κ} {A : Type ℓ} {B : Type κ} {R : B → Heap → Type 0} where
  pub Safe-gets :
      (h : Heap) (g : Heap → A) (f : A → M B) → Safe h R (f (g h) h) → Safe h R ((gets g >>= f) h)
  unfolding ◌>>=◌ gets
  Safe-gets h g f s = s

-- A heap with the same objects and frames is as good.
pub same_HeapOk :
    {h h' : Heap} → h'.objects ≡ h.objects → h'.frames ≡ h.frames → HeapOk h → HeapOk h'
same_HeapOk p q good = record {
  objects_ok = λ a o at. rw (p, q) (good.objects_ok a o (rw p at at));
}

pub same_Grows :
    {h h' : Heap}
    → h'.objects ≡ h.objects
    → h'.frames ≡ h.frames
    → h'.compile_table ≡ h.compile_table
    → Grows h h'
same_Grows p q r = record {
  frames_stay = λ a f at. (f, rw q at, refl, refl);
  continuations_stay = λ a s at. rw p at;
  scratches_stay = λ a at. rw p at;
  table_stays = r;
}

-- Allocation.
pub Grows-alloc : (h : Heap) (o : Object) → Grows h (record h { objects = o ∷ h.objects })
Grows-alloc h o = record {
  frames_stay = λ a f at. (f, at, refl, refl);
  continuations_stay = λ a s at. fetch-alloc a o h.objects at;
  scratches_stay = λ a (x, at, is). (x, fetch-alloc a o h.objects at, is);
  table_stays = refl;
}

pub HeapOk-alloc :
    (h : Heap) (o : Object)
    → HeapOk h
    → ObjectOk h.objects h.frames o
    → HeapOk (record h { objects = o ∷ h.objects })
HeapOk-alloc h o good fits = record {
  objects_ok = λ a x at. elim (fetch-cons a o h.objects at) [
    | inl e ↦ subst (ObjectOk (o ∷ h.objects) h.frames) e (ObjectOk-Grows (Grows-alloc h o) o fits)
    | inr old ↦ ObjectOk-Grows (Grows-alloc h o) x (good.objects_ok a x old)
  ];
}

pub Safe-alloc :
    (h : Heap) (o : Object)
    → HeapOk h
    → ObjectOk h.objects h.frames o
    → Safe h (λ v h'. (a : Addr) × (v ≡ object a) × (fetch a h'.objects ≡ some o)) (alloc o h)
unfolding alloc
Safe-alloc h o good fits =
    returns (HeapOk-alloc h o good fits) (Grows-alloc h o)
      (length h.objects, refl, fetch-alloc_self o h.objects)

pub Safe-weaken {ℓ} :
    {A : Type ℓ} {h : Heap} {Q R : A → Heap → Type 0} {r : Result A}
    → Safe h Q r
    → ((a : A) (h' : Heap) → Q a h' → R a h')
    → Safe h R r
Safe-weaken (returns good g q) k = returns good g (k _ _ q)
Safe-weaken (raises good g) k = raises good g
Safe-weaken (faults x) k = faults x
Safe-weaken exits k = exits
Safe-weaken runs_out k = runs_out

-- Writes to the scratch closure, to a frame and to the fields that the invariant does not read.
pub Grows-update :
    (h : Heap) (a : Addr) (o : Object)
    → IsScratch o
    → ScratchAt h.objects a
    → Grows h (record h { objects = update a o h.objects })
Grows-update h a o is (x, there, was) = record {
  frames_stay = λ b f at. (f, at, refl, refl);
  continuations_stay = λ b s at. elim (update_keeps a b o h.objects at) [
    | inl stays ↦ stays
    | inr (same, new) ↦ absurd (not_continuation was (sym there ∙ rw (← same) at at))
  ];
  scratches_stay = λ b (y, at, wy). elim (update_keeps a b o h.objects at) [
    | inl stays ↦ (y, stays, wy)
    | inr (same, new) ↦ (o, new, is)
  ];
  table_stays = refl;
}
  where
    not_continuation :
        {y : Object} {s : Snapshot} → IsScratch y → some y ≡ some (continuation s) → ⊥
    not_continuation IsScratch.is_blank e = cc
    not_continuation IsScratch.is_closure e = cc

pub HeapOk-update :
    (h : Heap) (a : Addr) (o : Object)
    → HeapOk h
    → IsScratch o
    → ScratchAt h.objects a
    → ObjectOk h.objects h.frames o
    → HeapOk (record h { objects = update a o h.objects })
HeapOk-update h a o good is at fits =
    let g = Grows-update h a o is at in
    record {
      objects_ok = λ b x there. elim (fetch-update a b o h.objects there) [
        | inl e ↦ subst (ObjectOk (update a o h.objects) h.frames) e (ObjectOk-Grows g o fits)
        | inr old ↦ ObjectOk-Grows g x (good.objects_ok b x old)
      ];
    }

-- Lists.
pub Safe-make_pair : (a d : Value) (h : Heap) → HeapOk h → Safe h Any (make_pair a d h)
unfolding make_pair
Safe-make_pair a d h good = Safe-weaken (Safe-alloc h (pair a d) good tt) (λ a h' q. tt)

pub Safe-list_onto :
    (xs : List Value) (tail : Value) (h : Heap) → HeapOk h → Safe h Any (list_onto xs tail h)
unfolding list_onto
Safe-list_onto [] tail h good = Safe-pure _ good tt
Safe-list_onto (x ∷ xs) tail h good =
    Safe-bind h (list_onto xs tail) (make_pair x) (Safe-list_onto xs tail h good)
      (λ out h' good' g q. Safe-make_pair x out h' good')

pub Safe-list_from : (xs : List Value) (h : Heap) → HeapOk h → Safe h Any (list_from xs h)
unfolding list_from
Safe-list_from xs h good = Safe-list_onto xs Value.nil h good

Safe-elements : (who : String) (w : Walk) (h : Heap) → HeapOk h → Safe h Any (elements who w h)
Safe-elements who (Walk.proper xs) h good = Safe-pure _ good tt
Safe-elements who Walk.improper h good = Safe-throw _ good
Safe-elements who Walk.circular h good = Safe-throw _ good
Safe-elements who Walk.endless h good = runs_out

pub Safe-list_to_vector :
    (ls : Value) (who : String) (h : Heap) → HeapOk h → Safe h Any (list_to_vector ls who h)
unfolding list_to_vector
Safe-list_to_vector ls who h good = Safe-elements who (walk_from h.objects ls) h good
