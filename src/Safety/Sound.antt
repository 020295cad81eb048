-- ===== src/Safety/Sound.antt =====
-- Actions that are safe on every good heap, by a rule for each way to build an action: `search` proves
-- a function of the reader or of the expander by following its code.
use secd_scheme.Prelude.{Bool, true, false, Option, none, some, List, String, if◌then◌else◌}
use secd_scheme.Value.{Value, Heap, Message}
use secd_scheme.Effect.{M, ◌>>=◌, pure, throw, internal_error, gets, expect, out_of_fuel}
use secd_scheme.Pairs.{list_to_vector, list_from, make_pair}
use secd_scheme.Safety.Growth.{HeapOk}
use secd_scheme.Safety.Actions.{
  Safe, faults, runs_out, Any, Safe-pure, Safe-throw, Safe-bind, Safe-make_pair, Safe-list_from,
  Safe-list_to_vector,
}

pub record Sound {ℓ} {A : Type ℓ} (m : M A) : Type ℓ where
  pub at : (h : Heap) → HeapOk h → Safe h Any (m h)

module _ {ℓ} {A : Type ℓ} where
  pub Sound-pure : (a : A) → Sound (pure a)
  Sound-pure a = record { at = λ h good. Safe-pure a good tt }

  pub Sound-throw : (m : Message) → Sound (throw {A = A} m)
  Sound-throw m = record { at = λ h good. Safe-throw m good }

  pub Sound-fuel : Sound {A = A} (λ h. out_of_fuel)
  Sound-fuel = record { at = λ h good. runs_out }

  pub Sound-gets : (g : Heap → A) → Sound (gets g)
  unfolding gets pure
  Sound-gets g = record { at = λ h good. unfold pure in Safe-pure (g h) good tt }

  pub Sound-expect : (o : Option A) → Sound (expect o)
  unfolding expect internal_error
  Sound-expect none = record { at = λ h good. faults tt }
  Sound-expect (some a) = Sound-pure a

  pub Sound-if : (b : Bool) (m n : M A) → Sound m → Sound n → Sound (if b then m else n)
  Sound-if true m n sm sn = sm
  Sound-if false m n sm sn = sn

module _ {ℓ κ} {A : Type ℓ} {B : Type κ} where
  pub Sound-bind : (m : M A) (f : A → M B) → Sound m → ((a : A) → Sound (f a)) → Sound (m >>= f)
  Sound-bind m f sm sf = record {
    at = λ h good. Safe-bind h m f (sm.at h good) (λ a h' good' g q. (sf a).at h' good');
  }

pub Sound-list_to_vector : (ls : Value) (who : String) → Sound (list_to_vector ls who)
Sound-list_to_vector ls who = record { at = Safe-list_to_vector ls who }

pub Sound-list_from : (xs : List Value) → Sound (list_from xs)
Sound-list_from xs = record { at = Safe-list_from xs }

pub Sound-make_pair : (a d : Value) → Sound (make_pair a d)
Sound-make_pair a d = record { at = Safe-make_pair a d }

pub ruleset sound_rules = (
  Sound-pure, Sound-throw, Sound-fuel, Sound-gets, Sound-expect, Sound-if, Sound-bind,
  Sound-list_to_vector, Sound-list_from, Sound-make_pair,
)
