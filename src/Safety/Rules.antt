-- ===== src/Safety/Rules.antt =====
-- Rules that the proofs on the primitives share.
use secd_scheme.Prelude.{ℕ, ◌≡◌, Bool, true, false, Option, none, some, List, String, if◌then◌else◌}
use secd_scheme.Value.{Value, Frame, Object, Heap}
use secd_scheme.Effect.{M, ok, alloc}
use secd_scheme.Pairs.{list_onto}
use secd_scheme.Primitives.{need_args}
use secd_scheme.Safety.Growth.{ObjectOk}
use secd_scheme.Safety.Actions.{
  returns, Safe-alloc, Safe-list_onto, Safe-weaken, same_HeapOk, same_Grows,
}
use secd_scheme.Safety.Sound.{Sound, Sound-pure, Sound-throw, Sound-if}

pub Sound-need_args : (who : String) (n lo hi : ℕ) → Sound (need_args who n lo hi)
unfolding need_args
Sound-need_args who n lo hi = Sound-if _ _ _ (Sound-pure tt) (Sound-throw _)

pub Sound-alloc :
    (o : Object) → ((os : List Object) (fs : List Frame) → ObjectOk os fs o) → Sound (alloc o)
Sound-alloc o fits = record {
  at = λ h good. Safe-weaken (Safe-alloc h o good (fits h.objects h.frames)) (λ v h' q. tt);
}

pub Sound-list_onto : (xs : List Value) (tail : Value) → Sound (list_onto xs tail)
Sound-list_onto xs tail = record { at = Safe-list_onto xs tail }

pub Sound-option :
    {A B : Type 0} (o : Option A) (m : M B) (f : A → M B)
    → Sound m
    → ((a : A) → Sound (f a))
    → Sound (elim o as (λ x. M B) [ none ↦ m | some a ↦ f a ])
Sound-option none m f sm sf = sm
Sound-option (some a) m f sm sf = sf a

-- A change of fields that the invariant does not read.
pub Sound-set :
    (m : M Value)
    → ((h : Heap)
        → (h' : Heap) × (v : Value) × (m h ≡ ok v h')
          × (h'.objects ≡ h.objects)
          × (h'.frames ≡ h.frames)
          × (h'.compile_table ≡ h.compile_table))
    → Sound m
Sound-set m f = record {
  at = λ h good.
      let (h', v, e, p, q, r) = f h in rw e (returns (same_HeapOk p q good) (same_Grows p q r) tt);
}

pub if_primitive :
    (b : Bool) (m n : List Value → M Value) (args : List Value)
    → Sound (m args)
    → Sound (n args)
    → Sound ((if b then m else n) args)
if_primitive true m n args sm sn = sm
if_primitive false m n args sm sn = sn
