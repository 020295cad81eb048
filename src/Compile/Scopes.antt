-- ===== src/Compile/Scopes.antt =====
-- Lexical addressing: the position that the compiler computes for a name is where the machine finds
-- the value that the name has in the named environment.
use text.Mathlib.Text.{◌==◌ as str_eq}
use secd_scheme.Prelude.{
  ℕ, suc, ◌≡◌, refl, sym, ap, ◌∙◌, Option, none, some, List, [], ◌∷◌, String, length, get_elem?,
  get_elem?-some, Addr, fetch, if◌then◌else◌, Bool-cases, Option-cases, arith, inl, inr,
}
use secd_scheme.Value.{Value, Env, Frame, Heap}
use secd_scheme.Effect.{ok, pure}
use secd_scheme.Machine.{env_at}
use secd_scheme.Step.{local}
use secd_scheme.Compile.Forms.{CompileEnv, after_first, index_of, nearest, place_of, location_of}
use secd_scheme.Safety.Shape.{index_of-lt, IsNarrow, location_of-place_of}

-- The value of a name in one frame: that of its first occurrence among the parameters.
abbrev pub value_in : String → List String → List Value → Option Value
value_in name [] vals = none
value_in name (x ∷ xs) [] = none
value_in name (x ∷ xs) (v ∷ vals) = if str_eq x name then some v else value_in name xs vals

abbrev pub or_else : Option Value → Option Value → Option Value
or_else none other = other
or_else (some v) other = some v

-- The value of a name: that of the innermost frame that has it.
abbrev pub value_of : String → CompileEnv → List (List Value) → Option Value
value_of name [] rows = none
value_of name (frame ∷ env) [] = none
value_of name (frame ∷ env) (row ∷ rows) =
    or_else (value_in name frame row) (value_of name env rows)

-- The frames of an environment of the machine hold these rows, one for each frame of the names.
abbrev pub Holds : List Frame → Env → CompileEnv → List (List Value) → Type 0
Holds fs e [] [] = Unit {0}
Holds fs none (frame ∷ env) (row ∷ rows) = ⊥
Holds fs (some a) (frame ∷ env) (row ∷ rows) =
    (f : Frame) × (fetch a fs ≡ some f)
    × (f.vals ≡ row)
    × (length row ≡ length frame)
    × Holds fs f.next env rows
Holds fs e _ _ = ⊥

abbrev row_value : Option ℕ → List Value → Option Value
row_value none row = none
row_value (some j) row = get_elem? row j

after_first-row :
    (o : Option ℕ) (v : Value) (row : List Value)
    → row_value (after_first o) (v ∷ row) ≡ row_value o row
after_first-row none v row = refl
after_first-row (some j) v row = refl

-- In one frame.
index_of-value_in :
    (name : String) (xs : List String) (row : List Value)
    → length row ≡ length xs
    → row_value (index_of name xs) row ≡ value_in name xs row
unfolding index_of
index_of-value_in name [] row e = refl
index_of-value_in name (x ∷ xs) [] e = cc
index_of-value_in name (x ∷ xs) (v ∷ row) e = elim (Bool-cases (str_eq x name)) [
  | inl here ↦ rw here refl
  | inr below ↦
      rw below (
        after_first-row (index_of name xs) v row ∙ index_of-value_in name xs row (omega (arith, e)))
]

-- What the machine reads at the place of a name, if it has one, and the value of the name.
abbrev pub Reads : String → CompileEnv → List (List Value) → Env → Heap → Option (ℕ × ℕ) → Type 0
Reads name env rows e h none = value_of name env rows ≡ none
Reads name env rows e h (some (i, j)) =
    (v : Value) × (value_of name env rows ≡ some v) × (local (env_at i h.frames e) j h ≡ ok v h)

env_at-zero :
    (fs : List Frame) (a : Addr) (f : Frame)
    → fetch a fs ≡ some f
    → env_at 0 fs (some a) ≡ some (a, f)
unfolding env_at
env_at-zero fs a f p = rw (p, env_at) refl

env_at-suc :
    (i : ℕ) (fs : List Frame) (a : Addr) (f : Frame)
    → fetch a fs ≡ some f
    → env_at (suc i) fs (some a) ≡ env_at i fs f.next
unfolding env_at
env_at-suc i fs a f p = rw (p, env_at) refl

local-some :
    (a : Addr) (f : Frame) (j : ℕ) (v : Value) (h : Heap)
    → get_elem? f.vals j ≡ some v
    → local (some (a, f)) j h ≡ ok v h
unfolding local pure
local-some a f j v h r = rw (r, local) refl

-- In the innermost frame.
top_Reads :
    (name : String) (frame : List String) (env : CompileEnv) (row : List Value)
    (rows : List (List Value)) (a : Addr) (f : Frame) (h : Heap) (j : ℕ)
    → fetch a h.frames ≡ some f
    → f.vals ≡ row
    → length row ≡ length frame
    → index_of name frame ≡ some j
    → Reads name (frame ∷ env) (row ∷ rows) (some a) h (some (0, j))
top_Reads name frame env row rows a f h j p vals size top =
    let (v, there) = get_elem?-some row j (omega (arith, index_of-lt name frame j top, size)) in
    let named : value_in name frame row ≡ some v =
      sym (index_of-value_in name frame row size)
      ∙ ap (λ (o : Option ℕ). row_value o row) top
      ∙ there in
    (
      v,
      rw named refl,
      rw (env_at-zero h.frames a f p)
          (local-some a f j v h (ap (λ (vs : List Value). get_elem? vs j) vals ∙ there)),
    )

-- In a frame around it.
outer_Reads :
    (name : String) (frame : List String) (env : CompileEnv) (row : List Value)
    (rows : List (List Value)) (a : Addr) (f : Frame) (h : Heap)
    → fetch a h.frames ≡ some f
    → value_in name frame row ≡ none
    → (l : Option (ℕ × ℕ)) → Reads name env rows f.next h l
    → Reads name (frame ∷ env) (row ∷ rows) (some a) h (nearest none l)
outer_Reads name frame env row rows a f h p missing none r = rw missing r
outer_Reads name frame env row rows a f h p missing (some (i, j)) (v, named, at) =
    (v, rw missing named, rw (env_at-suc i h.frames a f p) at)

place_of-Reads :
    (name : String) (env : CompileEnv) (rows : List (List Value)) (e : Env) (h : Heap)
    → Holds h.frames e env rows
    → Reads name env rows e h (place_of name env)
unfolding place_of
place_of-Reads name [] [] e h holds = refl
place_of-Reads name [] (row ∷ rows) e h holds = absurd holds
place_of-Reads name (frame ∷ env) [] none h holds = absurd holds
place_of-Reads name (frame ∷ env) [] (some a) h holds = absurd holds
place_of-Reads name (frame ∷ env) (row ∷ rows) none h holds = absurd holds
place_of-Reads name (frame ∷ env) (row ∷ rows) (some a) h (f, p, vals, size, rest) =
    elim (Option-cases (index_of name frame)) [
      | inr (j, top) ↦ rw top (top_Reads name frame env row rows a f h j p vals size top)
      | inl below ↦
          let missing : value_in name frame row ≡ none =
            sym (index_of-value_in name frame row size)
            ∙ ap (λ (o : Option ℕ). row_value o row) below in
          rw below (
            outer_Reads name frame env row rows a f h p missing (place_of name env)
              (place_of-Reads name env rows f.next h rest))
    ]

-- In an environment of at most 65536 frames of at most 65536 names, the compiler's place for a name and
-- the named environment agree: where `location_of` finds the name, the machine reads at that place
-- the value that the innermost frame with the name gives it, and where it finds none, no frame has
-- the name.
pub location_of-Reads :
    (name : String) (env : CompileEnv) (rows : List (List Value)) (e : Env) (h : Heap)
    → IsNarrow env
    → Holds h.frames e env rows
    → Reads name env rows e h (location_of name env)
location_of-Reads name env rows e h narrow holds =
    rw (location_of-place_of name env narrow) (place_of-Reads name env rows e h holds)
