-- ===== src/Pairs/Deciding.antt =====
-- scheme14/scheme14.cpp, section 3: `list_to_vector` tells the proper lists from all other values.
use secd_scheme.Prelude.{◌≡◌, ◌⊎◌, refl, sym, ◌∙◌, true, List, String, inl, inr}
use secd_scheme.Value.{Value, Heap, Message, SchemeError}
use secd_scheme.Effect.{ok, raise, throw, pure}
use secd_scheme.Pairs.{Walk, walk_from, list_to_vector}
use secd_scheme.Pairs.Termination.{walk_from_ends}
use secd_scheme.Pairs.Chains.{Chain, Chain-list_to_vector, list_to_vector-Chain}

-- The call returns the elements of a proper list that starts at the value.
abbrev pub ReadsList : Value → String → Heap → Type 0
ReadsList v who h = (xs : List Value) × Chain h.objects v xs × (list_to_vector v who h ≡ ok xs h)

-- The call raises a catchable error, and no proper list starts at the value.
abbrev pub RefusesList : Value → String → Heap → Type 0
RefusesList v who h =
    (e : SchemeError) × (e.catchable ≡ true)
    × (list_to_vector v who h ≡ raise e h)
    × ((xs : List Value) → Chain h.objects v xs → ⊥)

raised :
    (v : Value) (who : String) (h : Heap) (m : Message)
    → list_to_vector v who h ≡ throw m h
    → RefusesList v who h
unfolding throw
raised v who h m r = (
  record { message = m; catchable = true },
  refl,
  r,
  λ xs chain. unlike xs (sym (list_to_vector-Chain h v xs who chain) ∙ r),
)
  where
    unlike : (xs : List Value) → ok xs h ≡ throw m h → ⊥
    unlike xs bad = cc

-- On every heap and every value `list_to_vector` ends, with the heap as it was: it returns the elements
-- of a proper list that starts at the value, or it raises an error that a program can catch and no
-- proper list starts there.
pub list_to_vector_ends :
    (v : Value) (who : String) (h : Heap) → ReadsList v who h ⊎ RefusesList v who h
unfolding list_to_vector pure
list_to_vector_ends v who h = ended (walk_from h.objects v) refl
  where
    ended : (w : Walk) → walk_from h.objects v ≡ w → ReadsList v who h ⊎ RefusesList v who h
    ended (Walk.proper xs) e =
        let r : list_to_vector v who h ≡ ok xs h = rw e refl in
        inl (xs, (Chain-list_to_vector h h v xs who r).0, r)
    ended Walk.improper e = inr (raised v who h (Message.improper_list who) (rw e refl))
    ended Walk.circular e = inr (raised v who h (Message.circular_list who) (rw e refl))
    ended Walk.endless e = absurd (walk_from_ends h.objects v e)
