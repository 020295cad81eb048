-- ===== src/Safety/Emitting.antt =====
-- How pieces of code that the compiler emits fit together, in the terms of the checks of code.
use secd_scheme.Prelude.{
  ℕ, suc, ◌+◌, ◌-◌, ◌<◌, ◌≡◌, refl, ap, subst, Bool, true, false, none, some, List, [], ◌∷◌, ◌++◌,
  length, arith, String,
}
use secd_scheme.Value.{
  Instr, app, tapp, args_ap, sel, selr, apply, tapply, rtn, join, pop, Code, empty, ◌▷◌, Template,
  template, body_of,
}
use secd_scheme.Syntax.{Params}
use secd_scheme.Typing.{Kind, body, branch, Shape, frame_size, CodeOk, step, last, InstrOk, LastOk}
use secd_scheme.Compile.Forms.{CompileEnv, ◌▷▷◌, on_last, mark, name_closure, frame_of, tail_op}
use secd_scheme.Safety.Shape.{shape, Emits, on_last-CodeOk, mark-Harmless, name_closure-Harmless}

pub append_assoc : (a b c : Code) → ((a ▷▷ b) ▷▷ c) ≡ (a ▷▷ (b ▷▷ c))
unfolding ◌▷▷◌
append_assoc empty b c = refl
append_assoc (i ▷ a) b c = ap (λ (x : Code). i ▷ x) (append_assoc a b c)

-- A piece of code that pushes `n` values.
abbrev pub EmitsMany : CompileEnv → ℕ → Code → Type 0
EmitsMany env n c =
    (k : Kind) (d : ℕ) (rest : Code)
    → CodeOk k (shape env) (n + d) rest
    → CodeOk k (shape env) d (c ▷▷ rest)

-- A template whose body can run in a frame of its own.
abbrev pub Fits : CompileEnv → Template → Type 0
Fits env t = CodeOk body (frame_size t ∷ shape env) 0 (body_of t)

at_depth : {k : Kind} {Γ : Shape} {d d' : ℕ} {c : Code} → d ≡ d' → CodeOk k Γ d c → CodeOk k Γ d' c
at_depth {k} {Γ} {c = c} e typed = subst (λ (m : ℕ). CodeOk k Γ m c) e typed

never : {A : Type 0} → false ≡ true → A
never e = cc

module _ (env : CompileEnv) where
  pub one-Emits :
      (tail : Bool) (i : Instr)
      → ((k : Kind) (d : ℕ) → InstrOk k (shape env) d i (suc d))
      → Emits env tail (i ▷ empty)
  unfolding ◌▷▷◌
  one-Emits tail i typed k d rest t r = step (typed k d) r

  -- A piece of code, and then an instruction on the value that it leaves.
  pub then-Emits :
      (tail : Bool) (c : Code) (i : Instr)
      → Emits env false c
      → ((k : Kind) (d : ℕ) → (tail ≡ true → k ≡ body) → InstrOk k (shape env) (suc d) i (suc d))
      → Emits env tail (c ▷▷ (i ▷ empty))
  unfolding ◌▷▷◌
  then-Emits tail c i typed one k d rest t r =
      rw (append_assoc c (i ▷ empty) rest) (typed k d (i ▷ rest) never (step (one k d t) r))

  pub sequence-Emits :
      (tail : Bool) (c rest : Code)
      → Emits env false c
      → Emits env tail rest
      → Emits env tail (c ▷▷ (pop ▷ rest))
  unfolding ◌▷▷◌
  sequence-Emits tail c more typed after k d rest t r = rw (append_assoc c (pop ▷ more) rest) (
      typed k d (pop ▷ (more ▷▷ rest)) never
        (step (InstrOk.pop_ok (omega arith)) (at_depth (omega arith) (after k d rest t r))))

  pub none-EmitsMany : EmitsMany env 0 empty
  unfolding ◌▷▷◌
  none-EmitsMany k d rest r = at_depth (omega arith) r

  pub more-EmitsMany :
      (n : ℕ) (c rest : Code)
      → Emits env false c
      → EmitsMany env n rest
      → EmitsMany env (suc n) (c ▷▷ rest)
  more-EmitsMany n c more typed after k d rest r =
      rw (append_assoc c more rest)
        (typed k d (more ▷▷ rest) never (after k (suc d) rest (at_depth (omega arith) r)))

  pub body-Fits :
      (ps : Params) (name : String) (c : Code)
      → Emits (frame_of ps ∷ env) true c
      → Fits env (template ps.0 ps.1 (c ▷▷ (rtn ▷ empty)) name)
  body-Fits (fixed, none) name c typed =
      subst (λ (m : ℕ). CodeOk body (m ∷ shape env) 0 (c ▷▷ (rtn ▷ empty))) (omega arith)
        (typed body 0 (rtn ▷ empty) (λ _. refl) (last (LastOk.rtn_ok refl (omega arith))))
  body-Fits (fixed, some r) name c typed =
      subst (λ (m : ℕ). CodeOk body (m ∷ shape env) 0 (c ▷▷ (rtn ▷ empty))) (ends fixed r)
        (typed body 0 (rtn ▷ empty) (λ _. refl) (last (LastOk.rtn_ok refl (omega arith))))
    where
      ends : (xs : List String) (x : String) → length (xs ++ x ∷ []) ≡ length xs + 1
      ends [] x = refl
      ends (y ∷ ys) x = omega (arith, ends ys x)

  pub if-Emits :
      (tail : Bool) (c ct cf : Code)
      → Emits env false c
      → Emits env tail ct
      → Emits env tail cf
      → Emits env tail (
          c
          ▷▷ (tail_op tail
                (selr
                  (ct ▷▷ (tail_op tail rtn join ▷ empty))
                  (cf ▷▷ (tail_op tail rtn join ▷ empty)))
                (sel
                  (ct ▷▷ (tail_op tail rtn join ▷ empty))
                  (cf ▷▷ (tail_op tail rtn join ▷ empty)))
              ▷ empty))
  unfolding ◌▷▷◌
  if-Emits true c ct cf tc tt' tf k d rest t r =
      rw (append_assoc c (selr (ct ▷▷ (rtn ▷ empty)) (cf ▷▷ (rtn ▷ empty)) ▷ empty) rest) (
        tc k d _ never (
          last (
            LastOk.selr_ok (t refl) (omega arith) (at_depth (omega arith) (leaf ct tt'))
              (at_depth (omega arith) (leaf cf tf)))))
    where
      leaf : (b : Code) → Emits env true b → CodeOk body (shape env) d (b ▷▷ (rtn ▷ empty))
      leaf b tb = tb body d (rtn ▷ empty) (λ _. refl) (last (LastOk.rtn_ok refl (omega arith)))
  if-Emits false c ct cf tc tt' tf k d rest t r =
      rw (append_assoc c (sel (ct ▷▷ (join ▷ empty)) (cf ▷▷ (join ▷ empty)) ▷ empty) rest) (
        tc k d _ never (
          step
            (InstrOk.sel_ok (omega arith) (at_depth (omega arith) (leaf ct tt'))
              (at_depth (omega arith) (leaf cf tf)))
            r))
    where
      leaf :
          (b : Code)
          → Emits env false b
          → CodeOk (branch (suc d)) (shape env) d (b ▷▷ (join ▷ empty))
      leaf b tb = tb (branch (suc d)) d (join ▷ empty) never (last (LastOk.join_ok refl))

  pub apply-Emits :
      (tail : Bool) (n : ℕ) (cs c : Code)
      → 0 < n
      → EmitsMany env n cs
      → Emits env false c
      → Emits env tail (cs ▷▷ (args_ap n ▷ (c ▷▷ (tail_op tail tapply apply ▷ empty))))
  unfolding ◌▷▷◌
  apply-Emits tail n cs c pos many typed k d rest t r =
      rw
        (
          append_assoc cs (args_ap n ▷ (c ▷▷ (tail_op tail tapply apply ▷ empty))) rest,
          append_assoc c (tail_op tail tapply apply ▷ empty) rest,
        )
        (many k d _ (
          step (InstrOk.args_ok pos (omega arith))
            (at_depth (omega arith) (typed k (suc d) _ never (call tail t)))))
    where
      call :
          (b : Bool)
          → (b ≡ true → k ≡ body)
          → CodeOk k (shape env) (suc (suc d)) (tail_op b tapply apply ▷ rest)
      call true s = step (InstrOk.tapply_ok (s refl) (omega arith)) (at_depth (omega arith) r)
      call false s = step (InstrOk.apply_ok (omega arith)) (at_depth (omega arith) r)

  pub call-Emits :
      (tail : Bool) (n : ℕ) (cs c : Code)
      → EmitsMany env n cs
      → Emits env false c
      → Emits env tail (cs ▷▷ (on_last mark c ▷▷ (tail_op tail (tapp n) (app n) ▷ empty)))
  unfolding ◌▷▷◌
  call-Emits tail n cs c many typed k d rest t r =
      rw
        (
          append_assoc cs (on_last mark c ▷▷ (tail_op tail (tapp n) (app n) ▷ empty)) rest,
          append_assoc (on_last mark c) (tail_op tail (tapp n) (app n) ▷ empty) rest,
        )
        (many k d _ (
          on_last-CodeOk mark mark-Harmless c (tail_op tail (tapp n) (app n) ▷ rest)
            (typed k (n + d) _ never (call tail t))))
    where
      here : CodeOk k (shape env) (suc (n + d) - n) rest
      here = at_depth (omega arith) r

      call :
          (b : Bool)
          → (b ≡ true → k ≡ body)
          → CodeOk k (shape env) (suc (n + d)) (tail_op b (tapp n) (app n) ▷ rest)
      call true s = step (InstrOk.tapp_ok (s refl) (omega arith)) here
      call false s = step (InstrOk.app_ok (omega arith)) here

  -- The closure of a definition takes the name that is defined.
  pub named-Emits :
      (name : String) (c : Code)
      → Emits env false c
      → Emits env false (on_last (name_closure name) c)
  named-Emits name c typed k d rest t r =
      on_last-CodeOk (name_closure name) (name_closure-Harmless name) c rest (typed k d rest t r)
