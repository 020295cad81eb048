-- ===== src/Machine.antt =====
-- scheme14/scheme14.cpp, section 10: the machine.
pub mod Rewinding
pub mod Returning
use text.Mathlib.Text.{◌==◌ as str_eq}
use secd_scheme.Prelude.{
  ℕ, zero, suc, ◌+◌, ◌-◌, Bool, true, false, ◌&&◌, not, Option, none, some, List, [], ◌∷◌, ◌++◌,
  map, reverse, Addr, fetch, update, length, take, drop, resize, get_elem?, set, ltb, leb, ◌==◌,
  if◌then◌else◌, String,
}
use secd_scheme.Value.{
  EnvName, Value, nil, boolean, symbol, primitive, environment, object, Env, Instr, ld, lset, ldc,
  ldg, def, defm, gset, ldf, app, tapp, args_ap, sel, selr, apply, tapply, rtn, join, pop, callcc,
  tcallcc, stop, Code, empty, ◌▷◌, Template, fixed_params, rest_param, body_of, Frame, DumpEntry,
  WindEntry, Snapshot, Message, SchemeError, Object, blank_closure, closure, continuation, macro,
  error_object, Cell, Heap,
}
use secd_scheme.Effect.{
  Fault, Result, ok, raise, fault, exit, out_of_fuel, M, pure, throw, internal_error, gets, alloc,
  expect, ◌>>=◌, ◌>>◌,
}
use secd_scheme.Pairs.{list_to_vector, list_from, make_pair}

pub record Vm : Type 0 where
  pub stack : List Value
  pub dump : List DumpEntry
  pub env : Env
  -- the address of the closure that `LDF` with the mark writes anew
  pub scratch : Addr
  pub code : Code
  pub base : ℕ

-- What `run` does after an instruction: go on, or return a value.
pub data Next : Type 0 where
  go : Vm → Next
  halt : Value → Next

-- env_extend
unfoldable pub env_extend : Env → List Value → M Env
env_extend parent vals h =
    ok (some (length h.frames))
      (record h { frames = (record { next = parent; vals = vals }) ∷ h.frames })

-- env_at
unfoldable pub env_at : ℕ → List Frame → Env → Option (Addr × Frame)
env_at depth fs none = none
env_at zero fs (some a) = elim (fetch a fs) [ none ↦ none | some f ↦ some (a, f) ]
env_at (suc depth) fs (some a) = elim (fetch a fs) [ none ↦ none | some f ↦ env_at depth fs f.next ]

-- the number of arguments that a template takes
unfoldable pub arity_ok : Template → ℕ → Bool
arity_ok t n = elim (rest_param t) [
  | none ↦ n == length (fixed_params t)
  | some r ↦ leb (length (fixed_params t)) n
]

-- make_frame: the arguments come in the order in which they were pushed.
unfoldable pub make_frame : Template → Env → List Value → M Env
make_frame t env args =
    if not (arity_ok t (length args))
    then throw (Message.wrong_count "closure")
    else (elim (rest_param t) [
      | none ↦ env_extend env args
      | some r ↦ do
        rest_list ← list_from (drop (length (fixed_params t)) args)
        env_extend env (take (length (fixed_params t)) args ++ rest_list ∷ [])
    ])

-- winds_match
unfoldable pub winds_match : List WindEntry → List WindEntry → Bool
winds_match [] [] = true
winds_match (w ∷ ws) (x ∷ xs) = w.id == x.id && winds_match ws xs
winds_match _ _ = false

-- The outermost frames that both have.
unfoldable pub common : List WindEntry → List WindEntry → ℕ
common (w ∷ ws) (x ∷ xs) = if w.id == x.id then suc (common ws xs) else 0
common _ _ = 0

-- the instructions that call a thunk and drop its result
abbrev pub call_thunk : Value → Code → Code
call_thunk thunk c = ldc thunk ▷ (app 0 ▷ (pop ▷ c))

unfoldable pub call_thunks : List Value → Code → Code
call_thunks [] c = c
call_thunks (t ∷ ts) c = call_thunk t (call_thunks ts c)

-- build_rewind_code: leave the frames that only the current nesting has, from the inside, enter
-- those that only the continuation has, from the outside, and call the continuation again.
unfoldable pub rewind_thunks : List WindEntry → List WindEntry → List Value
unfolding common
rewind_thunks now want =
    map (λ w. w.after) (reverse (drop (common now want) now))
    ++ map (λ w. w.before) (drop (common now want) want)

unfoldable pub rewind_code : List Value → Value → Value → Code
unfolding call_thunks
rewind_code thunks k v = call_thunks thunks (ldc v ▷ (ldc k ▷ (app 1 ▷ empty)))

unfoldable pub build_rewind_code : Value → Snapshot → Value → M Code
unfolding rewind_thunks rewind_code
build_rewind_code k snap v h =
    ok (rewind_code (rewind_thunks h.winds snap.winds) k v) (record h { winds = snap.winds })

-- The arguments of a call, in the order in which they were pushed.
abbrev pub arguments : ℕ → List Value → List Value
arguments n s = reverse (take n s)

-- the first argument, or nil
unfoldable pub first_argument : List Value → Value
first_argument [] = nil
first_argument (v ∷ vs) = v

-- The machine that a continuation restores, with the value on its stack.
abbrev pub restore : Vm → Snapshot → Value → Vm
restore vm k v = record vm {
  stack = v ∷ k.stack;
  dump = k.dump;
  env = k.env;
  code = k.code;
  base = k.base;
}

unfoldable pub capture : Vm → Heap → Snapshot
capture vm h = record {
  stack = vm.stack;
  dump = vm.dump;
  winds = h.winds;
  code = vm.code;
  env = vm.env;
  base = vm.base;
}

-- What a call that is no tail call leaves on the dump.
abbrev pub return_point : Vm → DumpEntry
return_point vm = record { code = vm.code; env = vm.env; base = vm.base }

-- Entering code with the frame `env`: a call keeps the operands below the arguments, which start at
-- `argp`, and comes back; a tail call throws the caller's operands away.
unfoldable pub enter : Vm → Code → Env → ℕ → Bool → Vm
enter vm c env argp true = record vm { stack = resize vm.base vm.stack; env = env; code = c }
enter vm c env argp false = record vm {
  stack = resize argp vm.stack;
  dump = return_point vm ∷ vm.dump;
  env = env;
  code = c;
  base = argp;
}
