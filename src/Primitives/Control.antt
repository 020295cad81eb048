-- ===== src/Primitives/Control.antt =====
-- scheme14/scheme14.cpp, section 11: multiple values, the record of `dynamic-wind`, the handler of
-- errors, and symbols that are not interned.
use secd_scheme.Prelude.{◌+◌, true, false, Option, none, some, List, [], ◌∷◌, ◌++◌, length}
use secd_scheme.Value.{Value, nil, boolean, Object, values, error_object, Message, WindEntry}
use secd_scheme.Effect.{Fault, M, pure, ok, throw, internal_error, gets, alloc, ◌>>=◌, ◌>>◌}
use secd_scheme.Pairs.{make_pair, list_from}
use secd_scheme.Step.{object_of}
use secd_scheme.Run.{throw_final}
use secd_scheme.Primitives.{need_args, arg}

-- One value is itself.
unfoldable pub prim_values : List Value → M Value
prim_values (v ∷ []) = pure v
prim_values args = alloc (values args)

abbrev pub values? : Option Object → Option (List Value)
values? (some (values vs)) = some vs
values? _ = none

unfoldable pub prim_values_to_list : List Value → M Value
unfolding need_args arg list_from make_pair
prim_values_to_list args = do
  need_args "%values->list" (length args) 1 1
  o ← gets (object_of (arg 0 args))
  elim (values? o) [ none ↦ make_pair (arg 0 args) nil | some vs ↦ list_from vs ]

abbrev pub push_wind : Value → Value → M Value
push_wind before after h = ok nil (record h {
  winds = h.winds ++ (record { before = before; after = after; id = h.wind_next }) ∷ [];
  wind_next = h.wind_next + 1;
})

unfoldable pub prim_wind_push : List Value → M Value
unfolding need_args arg
prim_wind_push args = do
  need_args "%wind-push" (length args) 2 2
  push_wind (arg 0 args) (arg 1 args)

-- All but the last.
unfoldable pub drop_last {ℓ} : {A : Type ℓ} → List A → List A
drop_last [] = []
drop_last (x ∷ []) = []
drop_last (x ∷ (y ∷ xs)) = x ∷ drop_last (y ∷ xs)

abbrev pub pop_wind : M Value
pop_wind h = ok nil (record h { winds = drop_last h.winds })

unfoldable pub prim_wind_pop : List Value → M Value
unfolding need_args drop_last
prim_wind_pop args = need_args "%wind-pop" (length args) 0 0 >> pop_wind

unfoldable pub last_after : List WindEntry → Value
last_after [] = boolean false
last_after (w ∷ []) = w.after
last_after (w ∷ (x ∷ ws)) = last_after (x ∷ ws)

unfoldable pub prim_wind_top_after : List Value → M Value
unfolding need_args last_after
prim_wind_top_after args = do
  need_args "%wind-top-after" (length args) 0 0
  gets (λ h. last_after h.winds)

unfoldable pub prim_raise_error : List Value → M Value
unfolding need_args
prim_raise_error args = need_args "error" (length args) 1 0 >> throw (Message.user args)

unfoldable pub prim_current_exception_handler : List Value → M Value
unfolding need_args
prim_current_exception_handler args = do
  need_args "%current-exception-handler" (length args) 0 0
  gets (λ h. h.handler)

abbrev pub set_handler : Value → M Value
set_handler v h = ok nil (record h { handler = v })

unfoldable pub prim_set_exception_handler : List Value → M Value
unfolding need_args arg
prim_set_exception_handler args = do
  need_args "%set-exception-handler!" (length args) 1 1
  set_handler (arg 0 args)

abbrev pub error_of : Option Object → Option Message
error_of (some (error_object m)) = some m
error_of _ = none

unfoldable pub prim_error_objectp : List Value → M Value
unfolding need_args arg
prim_error_objectp args = do
  need_args "error-object?" (length args) 1 1
  o ← gets (object_of (arg 0 args))
  elim (error_of o) [ none ↦ pure (boolean false) | some m ↦ pure (boolean true) ]

-- %abort-exception: no handler takes it again.
unfoldable pub prim_abort_exception : List Value → M Value
unfolding need_args arg throw_final
prim_abort_exception args = do
  need_args "%abort-exception" (length args) 1 1
  o ← gets (object_of (arg 0 args))
  elim (error_of o) [ none ↦ throw_final (Message.user (arg 0 args ∷ [])) | some m ↦ throw_final m ]

-- The machine calls `eval` in its own way; as an ordinary primitive, as a macro's transformer is called,
-- it stops the interpreter.
unfoldable pub prim_eval : List Value → M Value
prim_eval args = internal_error Fault.eval_entered
