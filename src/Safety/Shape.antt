-- ===== src/Safety/Shape.antt =====
-- How the compiler's own functions on code and on compile environments fit the checks of the code.
use text.Mathlib.Text.{◌==◌ as str_eq}
use native.Mathlib.Nat.{mod-eq_of_lt}
use secd_scheme.Prelude.{
  ℕ, suc, ◌^◌, ◌≤◌, ◌<◌, ◌≡◌, refl, sym, ap, ◌∙◌, Bool, true, Option, none, some, List, [], ◌∷◌,
  map, length, arith, String, ◌⊎◌, inl, inr, Bool-cases, Option-cases,
}
use secd_scheme.Value.{
  Value, object, Instr, ldc, app, Code, empty, ◌▷◌, Template, template, body_of,
}
use secd_scheme.Typing.{
  Kind, body, Shape, Local, frame_size, CodeOk, step, last, jump, InstrOk, LastOk, ldf_ok,
}
use secd_scheme.Compile.Forms.{
  CompileEnv, ◌▷▷◌, after_first, index_of, nearest, place_of, wrap, location_of, on_last, mark,
  rename, name_closure,
}

-- The shape of the frames that a compile environment describes.
abbrev pub shape : CompileEnv → Shape
shape = map (λ (frame : List String). length frame)

-- A piece of code that pushes one value, whatever follows it; a tail call only in a body.
abbrev pub Emits : CompileEnv → Bool → Code → Type 0
Emits env tail c =
    (k : Kind) (d : ℕ) (rest : Code)
    → (tail ≡ true → k ≡ body)
    → CodeOk k (shape env) (suc d) rest
    → CodeOk k (shape env) d (c ▷▷ rest)

after_first-some :
    (o : Option ℕ) (j : ℕ) → after_first o ≡ some j → (i : ℕ) × (o ≡ some i) × (j ≡ suc i)
after_first-some none j e = cc
after_first-some (some i) j e = (i, refl, cc)

-- The place of a name is a place of its frame.
pub index_of-lt :
    (name : String) (xs : List String) (j : ℕ) → index_of name xs ≡ some j → j < length xs
unfolding index_of
index_of-lt name [] j e = cc
index_of-lt name (x ∷ xs) j e = elim (Bool-cases (str_eq x name)) [
  | inl here ↦ ground (arith, here)
  | inr below ↦
      let (i, found, next) = after_first-some (index_of name xs) j (rw below at e) in
      omega (arith, index_of-lt name xs i found)
]

nearest-some :
    (o : Option ℕ) (p : Option (ℕ × ℕ)) (i j : ℕ)
    → nearest o p ≡ some (i, j)
    → ((i ≡ 0) × (o ≡ some j)) ⊎ ((i' : ℕ) × (i ≡ suc i') × (p ≡ some (i', j)))
nearest-some (some k) p i j e = inl (ground arith, ground arith)
nearest-some none (some (i', k)) i j e = inr (i', ground arith, ground arith)
nearest-some none none i j e = cc

-- A place that the loops find lies in the frames of the environment.
pub place_of-Local :
    (name : String) (env : CompileEnv) (i j : ℕ)
    → place_of name env ≡ some (i, j)
    → Local (shape env) i j
unfolding place_of
place_of-Local name [] i j e = cc
place_of-Local name (frame ∷ env) i j e =
    elim (nearest-some (index_of name frame) (place_of name env) i j e) [
      | inl (top, found) ↦ rw top (length frame, refl, index_of-lt name frame j found)
      | inr (i', below, found) ↦ rw below (place_of-Local name env i' j found)
    ]

-- Every frame has at most 65536 names.
abbrev pub NarrowFrames : CompileEnv → Type 0
NarrowFrames [] = Unit {0}
NarrowFrames (frame ∷ env) = (length frame ≤ 2 ^ 16) × NarrowFrames env

-- An environment whose places fit 16 bits.
abbrev pub IsNarrow : CompileEnv → Type 0
IsNarrow env = (length env ≤ 2 ^ 16) × NarrowFrames env

place_of-lt :
    (name : String) (env : CompileEnv) (i j : ℕ)
    → NarrowFrames env
    → place_of name env ≡ some (i, j)
    → (i < length env) × (j < 2 ^ 16)
unfolding place_of
place_of-lt name [] i j n e = cc
place_of-lt name (frame ∷ env) i j (n, m) e =
    elim (nearest-some (index_of name frame) (place_of name env) i j e) [
      | inl (top, found) ↦ (omega (arith, top), omega (arith, index_of-lt name frame j found, n))
      | inr (i', below, found) ↦
          let (lt, fits) = place_of-lt name env i' j m found in (omega (arith, below, lt), fits)
    ]

wrap-fits : (i j : ℕ) → i < 2 ^ 16 → j < 2 ^ 16 → wrap (some (i, j)) ≡ some (i, j)
wrap-fits i j p q = rw (mod-eq_of_lt p, mod-eq_of_lt q) refl

-- In such an environment the casts lose nothing.
pub location_of-place_of :
    (name : String) (env : CompileEnv) → IsNarrow env → location_of name env ≡ place_of name env
unfolding location_of
location_of-place_of name env (n, m) = elim (Option-cases (place_of name env)) [
  | inl missing ↦ rw missing refl
  | inr ((i, j), found) ↦
      let (lt, fits) = place_of-lt name env i j m found in
      rw found (wrap-fits i j (omega (arith, lt, n)) fits)
]

-- In an environment of at most 65536 frames of at most 65536 names, a place that `location_of` returns
-- lies in the frames of the environment.
pub location_of-Local :
    (name : String) (env : CompileEnv) (i j : ℕ)
    → IsNarrow env
    → location_of name env ≡ some (i, j)
    → Local (shape env) i j
location_of-Local name env i j narrow e =
    place_of-Local name env i j (sym (location_of-place_of name env narrow) ∙ e)

-- The place fits 16 bits, if there is one.
abbrev pub FitsPlace : Option (ℕ × ℕ) → Type 0
FitsPlace l = (i j : ℕ) → l ≡ some (i, j) → (i < 2 ^ 16) × (j < 2 ^ 16)

-- A place that has passed the check is what the loops found.
pub checked-Local :
    (name : String) (env : CompileEnv)
    → FitsPlace (place_of name env)
    → (a b : ℕ) → location_of name env ≡ some (a, b)
    → Local (shape env) a b
unfolding location_of
checked-Local name env fits a b e = elim (Option-cases (place_of name env)) [
  | inl missing ↦
      let bad : ◌≡◌ {A = Option (ℕ × ℕ)} none (some (a, b)) = ap wrap (sym missing) ∙ e in cc
  | inr ((i, j), found) ↦
      let (p, q) = fits i j found in
      place_of-Local name env a b (found ∙ sym (wrap-fits i j p q) ∙ ap wrap (sym found) ∙ e)
]

-- A change of closures alone, such as the mark or the name of one.
pub record Harmless (f : Instr → Instr) : Type 0 where
  pub keeps :
      {k : Kind} {Γ : Shape} {d d' : ℕ} {i : Instr} → InstrOk k Γ d i d' → InstrOk k Γ d (f i) d'
  pub keeps_last : {k : Kind} {Γ : Shape} {d : ℕ} {i : Instr} → LastOk k Γ d i → LastOk k Γ d (f i)
  pub keeps_ldc : (v : Value) → f (ldc v) ≡ ldc v
  pub keeps_app : (n : ℕ) → f (app n) ≡ app n

after_append :
    (c rest : Code) (i : Instr)
    → (i ▷ (c ▷▷ rest)) ≡ app 1 ▷ empty
    → (i ≡ app 1) × (c ≡ empty) × (rest ≡ empty)
unfolding ◌▷▷◌
after_append empty rest i e = (cc, refl, cc)
after_append (j ▷ c) rest i e = cc

last_call :
    (f : Instr → Instr)
    → Harmless f
    → (j : Instr) (c rest : Code) → j ≡ app 1
    → c ≡ empty
    → rest ≡ empty
    → (on_last f (j ▷ c) ▷▷ rest) ≡ app 1 ▷ empty
unfolding on_last ◌▷▷◌
last_call f harmless j c rest first done end =
    (λ i. on_last f (first i ▷ done i) ▷▷ end i)
    ∙ ap (λ (x : Instr). x ▷ empty) (harmless.keeps_app 1)

pub on_last-CodeOk :
    (f : Instr → Instr)
    → Harmless f
    → {k : Kind} {Γ : Shape} {d : ℕ} (c rest : Code) → CodeOk k Γ d (c ▷▷ rest)
    → CodeOk k Γ d (on_last f c ▷▷ rest)
unfolding on_last ◌▷▷◌
on_last-CodeOk f harmless empty rest typed = typed
on_last-CodeOk f harmless (i ▷ empty) rest (step one more) = step (harmless.keeps one) more
on_last-CodeOk f harmless (i ▷ empty) rest (last one) = last (harmless.keeps_last one)
on_last-CodeOk f harmless (i ▷ empty) rest (jump a e pos c) =
    rw (harmless.keeps_ldc (object a)) (jump a e pos c)
on_last-CodeOk f harmless (i ▷ (j ▷ c)) rest (step one more) =
    step one (on_last-CodeOk f harmless (j ▷ c) rest more)
on_last-CodeOk f harmless (i ▷ (j ▷ c)) rest (last one) = last one
on_last-CodeOk f harmless (i ▷ (j ▷ c)) rest (jump a e pos p) =
    let (first, done, end) = after_append c rest j p in
    jump a e pos (last_call f harmless j c rest first done end)

mark_keeps :
    {k : Kind} {Γ : Shape} {d d' : ℕ} {i : Instr} → InstrOk k Γ d i d' → InstrOk k Γ d (mark i) d'
unfolding mark
mark_keeps (ldf_ok b) = ldf_ok b
mark_keeps (InstrOk.ld_ok l) = InstrOk.ld_ok l
mark_keeps (InstrOk.lset_ok l p) = InstrOk.lset_ok l p
mark_keeps InstrOk.ldc_ok = InstrOk.ldc_ok
mark_keeps InstrOk.ldg_ok = InstrOk.ldg_ok
mark_keeps (InstrOk.def_ok p) = InstrOk.def_ok p
mark_keeps (InstrOk.defm_ok p) = InstrOk.defm_ok p
mark_keeps (InstrOk.gset_ok p) = InstrOk.gset_ok p
mark_keeps (InstrOk.app_ok p) = InstrOk.app_ok p
mark_keeps (InstrOk.tapp_ok e p) = InstrOk.tapp_ok e p
mark_keeps (InstrOk.args_ok p q) = InstrOk.args_ok p q
mark_keeps (InstrOk.apply_ok p) = InstrOk.apply_ok p
mark_keeps (InstrOk.tapply_ok e p) = InstrOk.tapply_ok e p
mark_keeps (InstrOk.sel_ok p t f) = InstrOk.sel_ok p t f
mark_keeps (InstrOk.pop_ok p) = InstrOk.pop_ok p
mark_keeps (InstrOk.callcc_ok p) = InstrOk.callcc_ok p
mark_keeps (InstrOk.tcallcc_ok e p) = InstrOk.tcallcc_ok e p

mark_keeps_last :
    {k : Kind} {Γ : Shape} {d : ℕ} {i : Instr} → LastOk k Γ d i → LastOk k Γ d (mark i)
unfolding mark
mark_keeps_last (LastOk.rtn_ok e p) = LastOk.rtn_ok e p
mark_keeps_last (LastOk.join_ok e) = LastOk.join_ok e
mark_keeps_last (LastOk.stop_ok e) = LastOk.stop_ok e
mark_keeps_last (LastOk.selr_ok e p t f) = LastOk.selr_ok e p t f

pub mark-Harmless : Harmless mark
unfolding mark
mark-Harmless = record {
  keeps = mark_keeps;
  keeps_last = mark_keeps_last;
  keeps_ldc = λ v. refl;
  keeps_app = λ n. refl;
}

rename_fits :
    (name : String) (t : Template) {Γ : Shape}
    → CodeOk body (frame_size t ∷ Γ) 0 (body_of t)
    → CodeOk body (frame_size (rename name t) ∷ Γ) 0 (body_of (rename name t))
unfolding rename
rename_fits name (template ps r b old) typed = typed

name_keeps :
    (name : String) {k : Kind} {Γ : Shape} {d d' : ℕ} {i : Instr}
    → InstrOk k Γ d i d'
    → InstrOk k Γ d (name_closure name i) d'
unfolding name_closure
name_keeps name (ldf_ok {t = t} b) = ldf_ok (rename_fits name t b)
name_keeps name (InstrOk.ld_ok l) = InstrOk.ld_ok l
name_keeps name (InstrOk.lset_ok l p) = InstrOk.lset_ok l p
name_keeps name InstrOk.ldc_ok = InstrOk.ldc_ok
name_keeps name InstrOk.ldg_ok = InstrOk.ldg_ok
name_keeps name (InstrOk.def_ok p) = InstrOk.def_ok p
name_keeps name (InstrOk.defm_ok p) = InstrOk.defm_ok p
name_keeps name (InstrOk.gset_ok p) = InstrOk.gset_ok p
name_keeps name (InstrOk.app_ok p) = InstrOk.app_ok p
name_keeps name (InstrOk.tapp_ok e p) = InstrOk.tapp_ok e p
name_keeps name (InstrOk.args_ok p q) = InstrOk.args_ok p q
name_keeps name (InstrOk.apply_ok p) = InstrOk.apply_ok p
name_keeps name (InstrOk.tapply_ok e p) = InstrOk.tapply_ok e p
name_keeps name (InstrOk.sel_ok p t f) = InstrOk.sel_ok p t f
name_keeps name (InstrOk.pop_ok p) = InstrOk.pop_ok p
name_keeps name (InstrOk.callcc_ok p) = InstrOk.callcc_ok p
name_keeps name (InstrOk.tcallcc_ok e p) = InstrOk.tcallcc_ok e p

name_keeps_last :
    (name : String) {k : Kind} {Γ : Shape} {d : ℕ} {i : Instr}
    → LastOk k Γ d i
    → LastOk k Γ d (name_closure name i)
unfolding name_closure
name_keeps_last name (LastOk.rtn_ok e p) = LastOk.rtn_ok e p
name_keeps_last name (LastOk.join_ok e) = LastOk.join_ok e
name_keeps_last name (LastOk.stop_ok e) = LastOk.stop_ok e
name_keeps_last name (LastOk.selr_ok e p t f) = LastOk.selr_ok e p t f

pub name_closure-Harmless : (name : String) → Harmless (name_closure name)
unfolding name_closure
name_closure-Harmless name = record {
  keeps = name_keeps name;
  keeps_last = name_keeps_last name;
  keeps_ldc = λ v. refl;
  keeps_app = λ n. refl;
}
