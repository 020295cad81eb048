-- ===== src/Safety/Frames.antt =====
-- Frames: making one for a call, finding one by its depth, and writing to one.
use secd_scheme.Prelude.{
  ℕ, zero, suc, ◌+◌, ◌≤◌, ◌<◌, ◌≡◌, refl, sym, subst, ◌∙◌, inl, inr, none, some, List, [], ◌∷◌,
  ◌++◌, length, set, take, drop, Addr, fetch, update, arith, fetch-alloc, fetch-alloc_self,
  update_keeps, length-set, length-append, length-take, get_elem?-some, Bool-cases, ==_iff, leb,
  ◌==◌, lt→ltb,
}
use secd_scheme.Value.{Value, Env, Frame, Template, template, Heap}
use secd_scheme.Pairs.{list_from}
use secd_scheme.Machine.{env_extend, env_at, arity_ok, make_frame}
use secd_scheme.Step.{local, set_local}
use secd_scheme.Typing.{Shape, Local, frame_size, EnvOk}
use secd_scheme.Safety.Growth.{HeapOk, Grows, EnvOk-Grows, ObjectOk-Grows}
use secd_scheme.Safety.Actions.{
  Safe, returns, Any, Safe-pure, Safe-throw, Safe-bind, Safe-list_from,
}

Grows-env_extend : (h : Heap) (f : Frame) → Grows h (record h { frames = f ∷ h.frames })
Grows-env_extend h f = record {
  frames_stay = λ a g at. (g, fetch-alloc a f h.frames at, refl, refl);
  continuations_stay = λ a s at. at;
  scratches_stay = λ a at. at;
  table_stays = refl;
}

pub grown_HeapOk : {h h' : Heap} → h'.objects ≡ h.objects → Grows h h' → HeapOk h → HeapOk h'
grown_HeapOk {h' = h'} p g good = record {
  objects_ok = λ a o at. ObjectOk-Grows g o (good.objects_ok a o (rw p at at));
}

pub Safe-env_extend :
    (h : Heap) (parent : Env) (vals : List Value) (Γ : Shape)
    → HeapOk h
    → EnvOk h.frames parent Γ
    → Safe h (λ env h'. EnvOk h'.frames env (length vals ∷ Γ)) (env_extend parent vals h)
unfolding env_extend
Safe-env_extend h parent vals Γ good fits =
    let f : Frame = record { next = parent; vals = vals } in
    let g = Grows-env_extend h f in
    returns (grown_HeapOk refl g good) g
      (f, fetch-alloc_self f h.frames, refl, EnvOk-Grows g Γ parent fits)

length-rest_args :
    (n : ℕ) (args : List Value) (r : Value)
    → n ≤ length args
    → length (take n args ++ r ∷ []) ≡ n + 1
length-rest_args n args r h =
    omega (arith, length-append (take n args) (r ∷ []), length-take n args h)

-- On a good heap, the frame that a call makes has the size that the callee's body was compiled for and
-- stands in front of the callee's environment, for any number of arguments, unless the call raises an
-- error.
pub Safe-make_frame :
    (h : Heap) (t : Template) (env : Env) (args : List Value) (Γ : Shape)
    → HeapOk h
    → EnvOk h.frames env Γ
    → Safe h (λ e h'. EnvOk h'.frames e (frame_size t ∷ Γ)) (make_frame t env args h)
unfolding make_frame arity_ok
Safe-make_frame h (template ps none b nm) env args Γ good fits =
    elim (Bool-cases (length args == length ps)) [
      | inl fit ↦
          let size : length args ≡ length ps + 0 =
            omega (arith, (==_iff (length args) (length ps)).0 fit) in
          rw fit (
            subst (λ (n : ℕ). Safe h (λ e h'. EnvOk h'.frames e (n ∷ Γ)) (env_extend env args h))
              size (Safe-env_extend h env args Γ good fits))
      | inr misfit ↦ rw misfit (Safe-throw _ good)
    ]
Safe-make_frame h (template ps (some r) b nm) env args Γ good fits =
    elim (Bool-cases (leb (length ps) (length args))) [
      | inl fit ↦
          let enough : length ps ≤ length args = ground arith in
          rw fit (
            Safe-bind h (list_from (drop (length ps) args)) _ (Safe-list_from _ h good)
              (λ rest h' good' g q.
                subst
                  (λ (n : ℕ).
                    Safe h' (λ e h''. EnvOk h''.frames e (n ∷ Γ))
                      (env_extend env (take (length ps) args ++ rest ∷ []) h'))
                  (length-rest_args (length ps) args rest enough)
                  (Safe-env_extend h' env (take (length ps) args ++ rest ∷ []) Γ good'
                    (EnvOk-Grows g Γ env fits))))
      | inr misfit ↦ rw misfit (Safe-throw _ good)
    ]

-- A position that the code may use is there.
pub env_at-Local :
    (fs : List Frame) (Γ : Shape) (e : Env) (i j : ℕ)
    → EnvOk fs e Γ
    → Local Γ i j
    → (a : Addr) × (f : Frame) × (env_at i fs e ≡ some (a, f))
      × (fetch a fs ≡ some f)
      × (j < length f.vals)
unfolding env_at
env_at-Local fs [] e i j fits (n, at, lt) = cc
env_at-Local fs (m ∷ Γ) none i j fits l = absurd fits
env_at-Local fs (m ∷ Γ) (some a) zero j (f, at, len, r) (n, p, lt) =
    (a, f, rw (at, env_at) refl, at, ground (arith, p))
env_at-Local fs (m ∷ Γ) (some a) (suc i) j (f, at, len, r) l =
    let (b, f', e, at', lt) = env_at-Local fs Γ f.next i j r l in
    (b, f', rw (at, env_at) e, at', lt)

Grows-set :
    (h : Heap) (a : Addr) (f : Frame) (j : ℕ) (v : Value)
    → fetch a h.frames ≡ some f
    → Grows h (record h { frames = update a (record f { vals = set f.vals j v }) h.frames })
Grows-set h a f j v there = record {
  frames_stay = λ b g at. elim (update_keeps a b (record f { vals = set f.vals j v }) h.frames at) [
    | inl stays ↦ (g, stays, refl, refl)
    | inr (same, new) ↦
        let e : some f ≡ some g = sym there ∙ rw (← same) at at in
        (record f { vals = set f.vals j v }, new, cc, ground (arith, length-set f.vals j v))
  ];
  continuations_stay = λ b s at. at;
  scratches_stay = λ b at. at;
  table_stays = refl;
}

pub Safe-local :
    (h : Heap) (Γ : Shape) (e : Env) (i j : ℕ)
    → HeapOk h
    → EnvOk h.frames e Γ
    → Local Γ i j
    → Safe h Any (local (env_at i h.frames e) j h)
unfolding local
Safe-local h Γ e i j good fits l =
    let (a, f, found, at, lt) = env_at-Local h.frames Γ e i j fits l in
    let (v, there) = get_elem?-some f.vals j lt in rw (found, there, local) (Safe-pure v good tt)

pub Safe-set_local :
    (h : Heap) (Γ : Shape) (e : Env) (i j : ℕ) (v : Value)
    → HeapOk h
    → EnvOk h.frames e Γ
    → Local Γ i j
    → Safe h Any (set_local (env_at i h.frames e) j v h)
unfolding set_local
Safe-set_local h Γ e i j v good fits l =
    let (a, f, found, at, lt) = env_at-Local h.frames Γ e i j fits l in
    let g = Grows-set h a f j v at in
    rw (found, lt→ltb j (length f.vals) lt) (returns (grown_HeapOk refl g good) g tt)
