-- ===== src/Safety/Expanding.antt =====
-- The expander's functions are safe on every good heap: they only allocate pairs and count gensyms.
pub mod Rewrites
pub mod Forms
use Prim.Native.String.{◌++◌ as str_append}
use secd_scheme.Prelude.{
  ℕ, zero, suc, Bool, true, false, Option, none, some, List, [], ◌∷◌, ◌++◌, String, if◌then◌else◌,
  refl, map,
}
use secd_scheme.Value.{Value, nil, symbol, Heap}
use secd_scheme.Effect.{M, ◌>>=◌, pure}
use secd_scheme.Syntax.{
  look, car, cdr, syntax_error, form_arity, check_count, check_arity, binding_ok,
  check_each_binding, check_bindings, in_range, extract_loop, extract_params, Params,
}
use secd_scheme.Expand.Build.{make_gensym, make_begin_form, binding_parts, each}
use secd_scheme.Safety.Growth.{HeapOk}
use secd_scheme.Safety.Actions.{Safe, returns, Any, same_HeapOk, same_Grows}
use secd_scheme.Safety.Sound.{
  Sound, sound_rules, Sound-pure, Sound-throw, Sound-fuel, Sound-gets, Sound-expect, Sound-if,
  Sound-bind, Sound-list_to_vector, Sound-list_from, Sound-make_pair,
}

pub Sound-look : (v : Value) → Sound (look v)
unfolding look
Sound-look v = Sound-gets _

pub Sound-car : (v : Value) → Sound (car v)
unfolding car
Sound-car v = search sound_rules

pub Sound-cdr : (v : Value) → Sound (cdr v)
unfolding cdr
Sound-cdr v = search sound_rules

pub Sound-syntax_error {ℓ} : {A : Type ℓ} (form : String) → Sound (syntax_error {A = A} form)
unfolding syntax_error
Sound-syntax_error form = Sound-throw _

Sound-check_count :
    (form : String) (min max : ℕ) (n : Option ℕ) → Sound (check_count form min max n)
unfolding check_count
Sound-check_count form min max none = Sound-throw _
Sound-check_count form min max (some n) = Sound-if _ _ _ (Sound-pure tt) (Sound-throw _)

pub Sound-check_arity :
    (form : String) (rest : Value) (min max : ℕ) → Sound (check_arity form rest min max)
unfolding check_arity form_arity
Sound-check_arity form rest min max = search (sound_rules, Sound-check_count)

Sound-binding_ok : (one : Value) → Sound (binding_ok one)
unfolding binding_ok
Sound-binding_ok one = Sound-bind _ _ (Sound-gets _) (elim [
  | none ↦ Sound-pure false
  | some (name, d) ↦
      Sound-bind _ _ (Sound-gets _)
        (elim [ none ↦ Sound-pure false | some (e, tail) ↦ Sound-pure _ ])
])

Sound-check_each_binding :
    (fuel : ℕ) (form : String) (b : Value) → Sound (check_each_binding fuel form b)
unfolding check_each_binding
Sound-check_each_binding zero form b = Sound-fuel
Sound-check_each_binding (suc fuel) form b = Sound-if _ _ _ (Sound-pure tt) (
    Sound-bind _ _ (Sound-gets _) (elim [
      | none ↦ Sound-throw _
      | some (one, d) ↦
          Sound-bind _ _ (Sound-binding_ok one)
            (λ good. Sound-if good _ _ (Sound-check_each_binding fuel form d) (Sound-throw _))
    ]))

pub Sound-check_bindings : (form : String) (b : Value) → Sound (check_bindings form b)
unfolding check_bindings
Sound-check_bindings form b =
    Sound-bind _ _ (Sound-gets _) (λ fuel. Sound-check_each_binding fuel form b)

pub Sound-make_gensym : (prefix : String) → Sound (make_gensym prefix)
unfolding make_gensym
Sound-make_gensym prefix = record {
  at = λ h good. returns (same_HeapOk refl refl good) (same_Grows refl refl refl) tt;
}

pub Sound-make_begin_form : (xs : List Value) → Sound (make_begin_form xs)
unfolding make_begin_form
Sound-make_begin_form [] = Sound-pure nil
Sound-make_begin_form (x ∷ []) = Sound-pure x
Sound-make_begin_form (x ∷ (y ∷ xs)) = Sound-list_from _

pub Sound-binding_parts : (b : Value) → Sound (binding_parts b)
unfolding binding_parts
Sound-binding_parts b =
    Sound-bind _ _ (Sound-car b)
      (λ name. Sound-bind _ _ (Sound-cdr b) (λ d. Sound-bind _ _ (Sound-car d) (λ e. Sound-pure _)))

pub Sound-each {ℓ κ} :
    {A : Type ℓ} {B : Type κ} (f : A → M B) (xs : List A)
    → ((x : A) → Sound (f x))
    → Sound (each f xs)
unfolding each
Sound-each f [] sf = Sound-pure []
Sound-each f (x ∷ xs) sf =
    Sound-bind _ _ (sf x) (λ y. Sound-bind _ _ (Sound-each f xs sf) (λ ys. Sound-pure _))

pub ruleset expand_rules = (
  sound_rules, Sound-look, Sound-car, Sound-cdr, Sound-syntax_error, Sound-check_arity,
  Sound-check_bindings, Sound-make_gensym, Sound-make_begin_form, Sound-binding_parts, Sound-each,
)
