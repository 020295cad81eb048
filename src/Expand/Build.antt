-- ===== src/Expand/Build.antt =====
-- scheme14/scheme14.cpp, section 7: what the rewriting of forms is built from.
use Prim.Native.String.{◌++◌ as str_append}
use secd_scheme.Prelude.{of_list, digits, suc, ◌+◌, String, List, [], ◌∷◌}
use secd_scheme.Value.{Value, nil, symbol}
use secd_scheme.Effect.{M, pure, ok, ◌>>=◌}
use secd_scheme.Pairs.{list_from}
use secd_scheme.Syntax.{car, cdr}

-- make_gensym
unfoldable pub make_gensym : String → M Value
unfolding digits
make_gensym prefix h =
    ok (symbol (str_append prefix (of_list (digits (suc (suc h.gensyms)) (h.gensyms + 1)))))
      (record h { gensyms = h.gensyms + 1 })

-- make_begin_form
unfoldable pub make_begin_form : List Value → M Value
make_begin_form [] = pure nil
make_begin_form (x ∷ []) = pure x
make_begin_form xs = list_from (symbol "begin" ∷ xs)

-- the variable and the expression of a binding that was checked
unfoldable pub binding_parts : Value → M (Value × Value)
unfolding car cdr
binding_parts b = do name ← car b; d ← cdr b; e ← car d; pure (name, e)

-- An action for each item, from the first to the last.
unfoldable pub each {ℓ κ} : {A : Type ℓ} {B : Type κ} → (A → M B) → List A → M (List B)
each f [] = pure []
each f (x ∷ xs) = do y ← f x; ys ← each f xs; pure (y ∷ ys)
