-- ===== src/Primitives/Identity.antt =====
-- What `eqv?` tells apart.
use text.Mathlib.TextEquality.{eq_iff}
use secd_scheme.Prelude.{◌≡◌, ◌↔◌, refl, sym, ap, ◌∙◌, true, false, ==_iff, ==_self, ℤ, pos, negsuc}
use secd_scheme.Value.{
  EnvName, interaction, report, null_env, Value, nil, eof, boolean, integer, flonum, symbol,
  primitive, special_form, environment, object,
}
use secd_scheme.Primitives.{same_integer, same_env, eqv_values}

same_integer→≡ : (m n : ℤ) → same_integer m n ≡ true → m ≡ n
unfolding same_integer
same_integer→≡ (pos m) (pos n) e = ap pos ((==_iff m n).0 e)
same_integer→≡ (negsuc m) (negsuc n) e = ap negsuc ((==_iff m n).0 e)
same_integer→≡ (pos m) (negsuc n) e = cc
same_integer→≡ (negsuc m) (pos n) e = cc

same_env→≡ : (d e : EnvName) → same_env d e ≡ true → d ≡ e
unfolding same_env
same_env→≡ interaction interaction e = refl
same_env→≡ report report e = refl
same_env→≡ null_env null_env e = refl
same_env→≡ _ _ e = cc

eqv→≡ : (x y : Value) → eqv_values x y ≡ true → x ≡ y
unfolding eqv_values
eqv→≡ nil nil e = refl
eqv→≡ eof eof e = refl
eqv→≡ (boolean true) (boolean true) e = refl
eqv→≡ (boolean false) (boolean false) e = refl
eqv→≡ (integer m) (integer n) e = ap integer (same_integer→≡ m n e)
eqv→≡ (flonum m) (flonum n) e = ap flonum ((==_iff m n).0 e)
eqv→≡ (symbol s) (symbol t) e = ap symbol ((eq_iff s t).0 e)
eqv→≡ (primitive s) (primitive t) e = ap primitive ((eq_iff s t).0 e)
eqv→≡ (special_form s) (special_form t) e = ap special_form ((eq_iff s t).0 e)
eqv→≡ (environment d) (environment f) e = ap environment (same_env→≡ d f e)
eqv→≡ (object a) (object b) e = ap object ((==_iff a b).0 e)
eqv→≡ _ _ e = cc

eqv_self : (x : Value) → eqv_values x x ≡ true
unfolding eqv_values same_integer same_env
eqv_self nil = refl
eqv_self eof = refl
eqv_self (boolean true) = refl
eqv_self (boolean false) = refl
eqv_self (integer (pos n)) = ==_self n
eqv_self (integer (negsuc n)) = ==_self n
eqv_self (flonum n) = ==_self n
eqv_self (symbol s) = (eq_iff s s).1 refl
eqv_self (primitive s) = (eq_iff s s).1 refl
eqv_self (special_form s) = (eq_iff s s).1 refl
eqv_self (environment interaction) = refl
eqv_self (environment report) = refl
eqv_self (environment null_env) = refl
eqv_self (object a) = ==_self a

-- `eqv?` holds of two values exactly if they are the same value: the same number of the same
-- exactness, the same symbol, or the same object of the heap. So it is an equivalence.
pub eqv_values_iff : (x y : Value) → (eqv_values x y ≡ true) ↔ (x ≡ y)
eqv_values_iff x y = (eqv→≡ x y, λ e. ap (eqv_values x) (sym e) ∙ eqv_self x)
