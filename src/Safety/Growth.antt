-- ===== src/Safety/Growth.antt =====
-- Heaps whose closures and continuations are well formed, and the ways in which a heap may change:
-- frames keep their size and what is around them, a continuation stays as it is, a closure stays one, and
-- the table of the compiler is the same again.
use secd_scheme.Prelude.{
  ℕ, ◌+◌, ◌≤◌, ◌≡◌, refl, ◌∙◌, none, some, List, [], ◌∷◌, length, Addr, fetch,
}
use secd_scheme.Value.{
  Value, object, Env, app, empty, ◌▷◌, Template, body_of, Frame, DumpEntry, Snapshot, Object,
  blank_closure, closure, continuation, Heap,
}
use secd_scheme.Machine.{Vm}
use secd_scheme.Typing.{
  Kind, body, Shape, frame_size, CodeOk, EnvOk, IsContinuation, DumpOk, any_dump, no_caller, caller,
  branching, unwinding, SnapshotOk, resumable,
}

-- The object is a closure, with a template or without.
pub data IsScratch : Object → Type 0 where
  is_blank : IsScratch blank_closure
  is_closure : {t : Template} {e : Env} → IsScratch (closure t e)

abbrev pub ScratchAt : List Object → Addr → Type 0
ScratchAt os a = (o : Object) × (fetch a os ≡ some o) × IsScratch o

abbrev pub ObjectOk : List Object → List Frame → Object → Type 0
ObjectOk os fs (closure t e) =
    (Γ : Shape) × EnvOk fs e Γ × CodeOk body (frame_size t ∷ Γ) 0 (body_of t)
ObjectOk os fs (continuation s) = SnapshotOk os fs s
ObjectOk os fs _ = Unit {0}

pub record HeapOk (h : Heap) : Type 0 where
  pub objects_ok :
      (a : Addr) (o : Object) → fetch a h.objects ≡ some o → ObjectOk h.objects h.frames o

pub record Grows (h h' : Heap) : Type 0 where
  pub frames_stay :
      (a : Addr) (f : Frame)
      → fetch a h.frames ≡ some f
      → (f' : Frame) × (fetch a h'.frames ≡ some f')
        × (f'.next ≡ f.next)
        × (length f'.vals ≡ length f.vals)
  pub continuations_stay :
      (a : Addr) (s : Snapshot)
      → fetch a h.objects ≡ some (continuation s)
      → fetch a h'.objects ≡ some (continuation s)
  pub scratches_stay : (a : Addr) → ScratchAt h.objects a → ScratchAt h'.objects a
  pub table_stays : h'.compile_table ≡ h.compile_table

pub Grows-refl : (h : Heap) → Grows h h
Grows-refl h = record {
  frames_stay = λ a f p. (f, p, refl, refl);
  continuations_stay = λ a s p. p;
  scratches_stay = λ a p. p;
  table_stays = refl;
}

pub Grows-trans : {h₁ h₂ h₃ : Heap} → Grows h₁ h₂ → Grows h₂ h₃ → Grows h₁ h₃
Grows-trans g g' = record {
  frames_stay = λ a f p.
      let (f₁, p₁, n₁, l₁) = g.frames_stay a f p in
      let (f₂, p₂, n₂, l₂) = g'.frames_stay a f₁ p₁ in (f₂, p₂, n₂ ∙ n₁, l₂ ∙ l₁);
  continuations_stay = λ a s p. g'.continuations_stay a s (g.continuations_stay a s p);
  scratches_stay = λ a p. g'.scratches_stay a (g.scratches_stay a p);
  table_stays = g'.table_stays ∙ g.table_stays;
}

module _ {h h' : Heap} (g : Grows h h') where
  pub EnvOk-Grows : (Γ : Shape) (e : Env) → EnvOk h.frames e Γ → EnvOk h'.frames e Γ
  EnvOk-Grows [] e ok = tt
  EnvOk-Grows (n ∷ Γ) none ok = absurd ok
  EnvOk-Grows (n ∷ Γ) (some a) (f, p, l, r) =
      let (f', p', next, len) = g.frames_stay a f p in
      (f', p', len ∙ l, rw next (EnvOk-Grows Γ f.next r))

  pub DumpOk-Grows :
      {k : Kind} {Γ : Shape} {base : ℕ} {dump : List DumpEntry}
      → DumpOk h.objects h.frames k Γ base dump
      → DumpOk h'.objects h'.frames k Γ base dump
  DumpOk-Grows any_dump = any_dump
  DumpOk-Grows no_caller = no_caller
  DumpOk-Grows (caller {Γ' = Γ'} {e = e} d c b env r) =
      caller d c b (EnvOk-Grows Γ' e.env env) (DumpOk-Grows r)
  DumpOk-Grows (branching c r) = branching c (DumpOk-Grows r)
  DumpOk-Grows (unwinding {a = a} k) = unwinding (k.0, g.continuations_stay a k.0 k.1)

  pub SnapshotOk-Grows :
      {s : Snapshot} → SnapshotOk h.objects h.frames s → SnapshotOk h'.objects h'.frames s
  SnapshotOk-Grows {s} (resumable {Γ = Γ} d c l env r) =
      resumable d c l (EnvOk-Grows Γ s.env env) (DumpOk-Grows r)

  pub ObjectOk-Grows :
      (o : Object) → ObjectOk h.objects h.frames o → ObjectOk h'.objects h'.frames o
  ObjectOk-Grows (closure t e) (Γ, env, c) = (Γ, EnvOk-Grows Γ e env, c)
  ObjectOk-Grows (continuation s) ok = SnapshotOk-Grows ok
  ObjectOk-Grows _ ok = tt

-- The machine before an instruction. It runs checked code; or it has just pushed the continuation
-- that the code of an unwinding calls last, and that call is what is left.
pub data MachineOk (h : Heap) (vm : Vm) : Type 0 where
  running :
      {k : Kind} {Γ : Shape} (d : ℕ)
      → ScratchAt h.objects vm.scratch
      → CodeOk k Γ d vm.code
      → length vm.stack ≡ vm.base + d
      → EnvOk h.frames vm.env Γ
      → DumpOk h.objects h.frames k Γ vm.base vm.dump
      → MachineOk h vm
  jumping :
      {a : Addr} {v : Value} {s : List Value}
      → ScratchAt h.objects vm.scratch
      → vm.code ≡ app 1 ▷ empty
      → vm.stack ≡ object a ∷ v ∷ s
      → IsContinuation h.objects a
      → vm.base ≤ length s + 1
      → MachineOk h vm
