-- ===== src/Typing.antt =====
-- What the compiler promises of its code, and the machine relies on: no operand is missing, every
-- local position lies in its frame, and each piece of code ends the way its entry on the dump
-- expects. The machine checks some of this while it runs and calls a violation an internal error.
use secd_scheme.Prelude.{
  ℕ, suc, ◌+◌, ◌-◌, ◌<◌, ◌≤◌, ◌≡◌, Bool, Option, none, some, List, [], ◌∷◌, length, get_elem?, Addr,
  fetch, String,
}
use secd_scheme.Value.{
  Value, object, Env, Instr, ld, lset, ldc, ldg, def, defm, gset, ldf, app, tapp, args_ap, sel,
  selr, apply, tapply, rtn, join, pop, callcc, tcallcc, stop, Code, empty, ◌▷◌, Template,
  fixed_params, rest_param, body_of, Frame, DumpEntry, Snapshot, Object, continuation,
}

-- How a piece of code ends: a program, the body of a procedure, the branch of a conditional that
-- leaves `d` operands, or the code that unwinds and then calls the continuation at `a`.
pub data Kind : Type 0 where
  program body : Kind
  branch : ℕ → Kind
  rewind : Addr → Kind

-- The sizes of the frames around a piece of code, the innermost first.
abbrev pub Shape : Type 0
Shape = List ℕ

abbrev pub Local : Shape → ℕ → ℕ → Type 0
Local Γ i j = (n : ℕ) × (get_elem? Γ i ≡ some n) × (j < n)

abbrev pub rest_size : Option String → ℕ
rest_size none = 0
rest_size (some r) = 1

-- the size of the frame of a call
abbrev pub frame_size : Template → ℕ
frame_size t = length (fixed_params t) + rest_size (rest_param t)

mutual
  -- code that can run in frames of this shape with `d` operands of its own on the stack
  pub data CodeOk : Kind → Shape → ℕ → Code → Type 0 where
    step :
        {k : Kind} {Γ : Shape} {d d' : ℕ} {i : Instr} {c : Code}
        → InstrOk k Γ d i d'
        → CodeOk k Γ d' c
        → CodeOk k Γ d (i ▷ c)
    last :
        {k : Kind} {Γ : Shape} {d : ℕ} {i : Instr} {c : Code}
        → LastOk k Γ d i
        → CodeOk k Γ d (i ▷ c)
    jump :
        {k : Kind} {Γ : Shape} {d : ℕ} {c : Code} (a : Addr)
        → k ≡ rewind a
        → 0 < d
        → c ≡ app 1 ▷ empty
        → CodeOk k Γ d (ldc (object a) ▷ c)

  -- an instruction that goes on, and the number of operands after it
  pub data InstrOk : Kind → Shape → ℕ → Instr → ℕ → Type 0 where
    ld_ok : {k : Kind} {Γ : Shape} {d i j : ℕ} → Local Γ i j → InstrOk k Γ d (ld i j) (suc d)
    lset_ok : {k : Kind} {Γ : Shape} {d i j : ℕ} → Local Γ i j → 0 < d → InstrOk k Γ d (lset i j) d
    ldc_ok : {k : Kind} {Γ : Shape} {d : ℕ} {v : Value} → InstrOk k Γ d (ldc v) (suc d)
    ldg_ok : {k : Kind} {Γ : Shape} {d : ℕ} {a : Addr} → InstrOk k Γ d (ldg a) (suc d)
    def_ok : {k : Kind} {Γ : Shape} {d : ℕ} {a : Addr} → 0 < d → InstrOk k Γ d (def a) d
    defm_ok : {k : Kind} {Γ : Shape} {d : ℕ} {a : Addr} → 0 < d → InstrOk k Γ d (defm a) d
    gset_ok : {k : Kind} {Γ : Shape} {d : ℕ} {a : Addr} → 0 < d → InstrOk k Γ d (gset a) d
    ldf_ok :
        {k : Kind} {Γ : Shape} {d : ℕ} {t : Template} {b : Bool}
        → CodeOk body (frame_size t ∷ Γ) 0 (body_of t)
        → InstrOk k Γ d (ldf t b) (suc d)
    app_ok : {k : Kind} {Γ : Shape} {d n : ℕ} → n < d → InstrOk k Γ d (app n) (d - n)
    tapp_ok : {k : Kind} {Γ : Shape} {d n : ℕ} → k ≡ body → n < d → InstrOk k Γ d (tapp n) (d - n)
    args_ok :
        {k : Kind} {Γ : Shape} {d n : ℕ} → 0 < n → n ≤ d → InstrOk k Γ d (args_ap n) (suc (d - n))
    apply_ok : {k : Kind} {Γ : Shape} {d : ℕ} → 2 ≤ d → InstrOk k Γ d apply (d - 1)
    tapply_ok : {k : Kind} {Γ : Shape} {d : ℕ} → k ≡ body → 2 ≤ d → InstrOk k Γ d tapply (d - 1)
    sel_ok :
        {k : Kind} {Γ : Shape} {d : ℕ} {t f : Code}
        → 0 < d
        → CodeOk (branch d) Γ (d - 1) t
        → CodeOk (branch d) Γ (d - 1) f
        → InstrOk k Γ d (sel t f) d
    pop_ok : {k : Kind} {Γ : Shape} {d : ℕ} → 0 < d → InstrOk k Γ d pop (d - 1)
    callcc_ok : {k : Kind} {Γ : Shape} {d : ℕ} → 0 < d → InstrOk k Γ d callcc d
    tcallcc_ok : {k : Kind} {Γ : Shape} {d : ℕ} → k ≡ body → 0 < d → InstrOk k Γ d tcallcc d

  -- an instruction after which the code is left
  pub data LastOk : Kind → Shape → ℕ → Instr → Type 0 where
    rtn_ok : {k : Kind} {Γ : Shape} {d : ℕ} → k ≡ body → 0 < d → LastOk k Γ d rtn
    join_ok : {k : Kind} {Γ : Shape} {d : ℕ} → k ≡ branch d → LastOk k Γ d join
    stop_ok : {k : Kind} {Γ : Shape} {d : ℕ} → k ≡ program → LastOk k Γ d stop
    selr_ok :
        {k : Kind} {Γ : Shape} {d : ℕ} {t f : Code}
        → k ≡ body
        → 0 < d
        → CodeOk body Γ (d - 1) t
        → CodeOk body Γ (d - 1) f
        → LastOk k Γ d (selr t f)

-- The frames of an environment have the shape that its code was compiled for.
abbrev pub EnvOk : List Frame → Env → Shape → Type 0
EnvOk fs e [] = Unit
EnvOk fs none (n ∷ Γ) = ⊥
EnvOk fs (some a) (n ∷ Γ) =
    (f : Frame) × (fetch a fs ≡ some f) × (length f.vals ≡ n) × EnvOk fs f.next Γ

abbrev pub IsContinuation : List Object → Addr → Type 0
IsContinuation os a = (s : Snapshot) × (fetch a os ≡ some (continuation s))

-- The dump fits code of kind `k`, with the floor `base`: each entry expects one more operand than
-- the caller had below its arguments.
pub data DumpOk (os : List Object) (fs : List Frame)
    : Kind → Shape → ℕ → List DumpEntry → Type 0 where
  any_dump : {Γ : Shape} {base : ℕ} {dump : List DumpEntry} → DumpOk os fs program Γ base dump
  no_caller : {Γ : Shape} {base : ℕ} → DumpOk os fs body Γ base []
  caller :
      {k : Kind} {Γ Γ' : Shape} {base : ℕ} {e : DumpEntry} {dump : List DumpEntry} (d : ℕ)
      → CodeOk k Γ' (suc d) e.code
      → base ≡ e.base + d
      → EnvOk fs e.env Γ'
      → DumpOk os fs k Γ' e.base dump
      → DumpOk os fs body Γ base (e ∷ dump)
  branching :
      {k : Kind} {Γ : Shape} {d base : ℕ} {e : DumpEntry} {dump : List DumpEntry}
      → CodeOk k Γ d e.code
      → DumpOk os fs k Γ base dump
      → DumpOk os fs (branch d) Γ base (e ∷ dump)
  unwinding :
      {a : Addr} {Γ : Shape} {base : ℕ} {dump : List DumpEntry}
      → IsContinuation os a
      → DumpOk os fs (rewind a) Γ base dump

-- A continuation can be resumed with a value on top of its stack.
pub data SnapshotOk (os : List Object) (fs : List Frame) (s : Snapshot) : Type 0 where
  resumable :
      {k : Kind} {Γ : Shape} (d : ℕ)
      → CodeOk k Γ (suc d) s.code
      → length s.stack ≡ s.base + d
      → EnvOk fs s.env Γ
      → DumpOk os fs k Γ s.base s.dump
      → SnapshotOk os fs s
