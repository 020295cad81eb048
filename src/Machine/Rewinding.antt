-- ===== src/Machine/Rewinding.antt =====
-- The thunks that run when a continuation is called in another nesting of `dynamic-wind`.
use mathlib.Core.Bool.{false≢true}
use mathlib.Core.List.{head-eq_of_cons-eq, tail-eq_of_cons-eq}
use secd_scheme.Prelude.{
  ℕ, suc, ◌↔◌, ◌≡◌, refl, sym, ap, ◌∙◌, true, false, List, [], ◌∷◌, ◌++◌, map, reverse, drop,
  length, ◌==◌, ==_self, ==_iff, Bool-cases, inl, inr,
}
use secd_scheme.Value.{WindEntry}
use secd_scheme.Machine.{winds_match, common, rewind_thunks}

-- The nestings part at once: one of them is empty, or their outermost frames are not the same.
abbrev pub Apart : List WindEntry → List WindEntry → Type 0
Apart (w ∷ ws) (x ∷ xs) = (w.id == x.id) ≡ false
Apart _ _ = Unit {0}

common-shared :
    (shared now want : List WindEntry)
    → Apart now want
    → common (shared ++ now) (shared ++ want) ≡ length shared
unfolding common
common-shared [] [] want a = refl
common-shared [] (w ∷ ws) [] a = refl
common-shared [] (w ∷ ws) (x ∷ xs) a = rw a refl
common-shared (s ∷ shared) now want a = rw (==_self s.id) (ap suc (common-shared shared now want a))

drop-shared : (shared rest : List WindEntry) → drop (length shared) (shared ++ rest) ≡ rest
drop-shared [] rest = refl
drop-shared (s ∷ shared) rest = drop-shared shared rest

-- Where two nestings share their outer frames, `shared`, and part after them, the thunks that run are
-- the `after` of the frames that are left, the innermost first, and then the `before` of those
-- that are entered, the outermost first; the shared frames are not left.
pub rewind_thunks-shared :
    (shared now want : List WindEntry)
    → Apart now want
    → rewind_thunks (shared ++ now) (shared ++ want)
      ≡ map (λ (w : WindEntry). w.after) (reverse now) ++ map (λ (w : WindEntry). w.before) want
unfolding rewind_thunks
rewind_thunks-shared shared now want a =
    rw (common-shared shared now want a, drop-shared shared now, drop-shared shared want) refl

cons_eq : {m n : ℕ} {ms ns : List ℕ} → m ≡ n → ms ≡ ns → (m ∷ ms) ≡ n ∷ ns
cons_eq p q = λ i. p i ∷ q i

-- The test that says that no thunk has to run is the one that the frames have the same ids, from
-- the outermost to the innermost.
pub winds_match_iff :
    (now want : List WindEntry)
    → (winds_match now want ≡ true)
      ↔ (map (λ (w : WindEntry). w.id) now ≡ map (λ (w : WindEntry). w.id) want)
unfolding winds_match
winds_match_iff [] [] = (λ _. refl, λ _. refl)
winds_match_iff [] (x ∷ xs) = (λ e. cc, λ e. cc)
winds_match_iff (w ∷ ws) [] = (λ e. cc, λ e. cc)
winds_match_iff (w ∷ ws) (x ∷ xs) =
    let (f, g) = winds_match_iff ws xs in
    elim (Bool-cases (w.id == x.id)) [
      | inl same ↦
          rw same (λ e. cons_eq ((==_iff w.id x.id).0 same) (f e), λ e. g (tail-eq_of_cons-eq e))
      | inr differ ↦ rw differ (
        λ e. cc,
        λ e. absurd (false≢true (sym differ ∙ (==_iff w.id x.id).1 (head-eq_of_cons-eq e))),
      )
    ]
