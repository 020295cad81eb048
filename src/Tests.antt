-- ===== src/Tests.antt =====
-- Small programs run by the model, and the theorems at concrete inputs.
mod Data
mod Values
use secd_scheme.Prelude.{
  ◌⊎◌, ℕ, ◌+◌, ◌≡◌, refl, true, false, Option, none, some, List, [], ◌∷◌, ◌++◌, String, pos, Addr,
  fetch, arith, map, reverse, ◌↔◌, resize, update,
}
use secd_scheme.Value.{
  EnvName, interaction, Value, nil, boolean, integer, symbol, primitive, object, empty, ◌▷◌, ldc,
  stop, rtn, Template, template, Message, WindEntry, pair, blank_closure, Heap,
}
use secd_scheme.Effect.{Result, ok, M, pure, throw, gets, expect, ◌>>=◌}
use secd_scheme.Pairs.{list_from, list_to_vector, pair_of, walk_from}
use secd_scheme.Syntax.{look, car, cdr, check_arity, extract_params}
use secd_scheme.Expand.Do.{scan_out_defines}
use secd_scheme.Pairs.Deciding.{ReadsList, RefusesList, list_to_vector_ends}
use secd_scheme.Pairs.Chains.{
  Segment, Chain, Chain-list_to_vector, list_to_vector-Chain, list_to_vector-list_from,
}
use secd_scheme.Machine.{
  Vm, go, enter, make_frame, arity_ok, env_extend, env_at, first_argument, winds_match,
  rewind_thunks,
}
use secd_scheme.Machine.Rewinding.{rewind_thunks-shared, winds_match_iff}
use secd_scheme.Machine.Returning.{return-enter}
use secd_scheme.Step.{
  global_cell, find_name, return_value, push, select, is_true, end_branch, exec, local,
  write_object, bound, cell_at,
}
use secd_scheme.Step
use secd_scheme.Step.{call_cc, do_call}
use secd_scheme.Machine.{capture}
use secd_scheme.Value.{continuation}
use secd_scheme.Step.Cells.{global_cell-global_cell, find_name-global_cell}
use secd_scheme.Expand.{expand_form_1}
use secd_scheme.Typing.{
  program, body, Local, frame_size, CodeOk, step, last, ldc_ok, stop_ok, EnvOk, any_dump,
}
use secd_scheme.Compile.Forms.{
  CompileEnv, location_of, place_of, find_place, check_place, form_of, narrow, ◌▷▷◌, on_last, mark,
}
use secd_scheme.Compile.{comp, with_table, compile_eval}
use secd_scheme.Compile.Scopes.{Reads, Holds, location_of-Reads}
use secd_scheme.Program.{eval_at, eval_top, eval_forms}
use secd_scheme.Primitives.{eqv_values}
use secd_scheme.Primitives.Control.{prim_wind_push, prim_wind_pop, prim_wind_top_after}
use secd_scheme.Primitives.Table.{primitives}
use secd_scheme.Primitives.Table.Data.{Library}
use secd_scheme.Primitives.Numbers.{Cmp}
use secd_scheme.Reader.Number.{Converted}
use secd_scheme.Safety.Persistence.{heap_after, eval_forms-call_cc, eval_forms-compile_table}
use secd_scheme.Typing.{SnapshotOk, resumable}
use secd_scheme.Safety.Growth.{ObjectOk}
use secd_scheme.Value.{Cell, Object}
use secd_scheme.Primitives.Identity.{eqv_values_iff}
use secd_scheme.Primitives.Nesting.{wind_pop-wind_push}
use secd_scheme.Safety.Growth.{IsScratch, HeapOk, MachineOk, running}
use secd_scheme.Safety.Actions.{Safe, Any, HeapOk-alloc}
use secd_scheme.Safety.Calls.{NextOk}
use secd_scheme.Safety.Sound.{Sound-throw}
use secd_scheme.Safety.Shape.{shape, Emits, IsNarrow, location_of-Local}
use secd_scheme.Safety.Frames.{Safe-make_frame}
use secd_scheme.Safety.Instr.{Safe-step}
use secd_scheme.Safety.Expanding.Forms.{Safe-expand_form_1}
use secd_scheme.Safety.Programs.{PrimsOk, Safe-comp, Safe-compile_eval, EngineOk-eval_at}
use secd_scheme.Safety.Primitives.{primitives-PrimsOk, Safe-primitives}

-- Doubles are not used here.
abbrev library : Library
library = record {
  double_of = λ z. 0;
  add = λ a b. a;
  sub = λ a b. a;
  mul = λ a b. a;
  div = λ a b. a;
  negate = λ a. a;
  cmp = λ a b. Cmp.unordered;
  shortest = λ d. [];
  big_int = λ s. none;
  from_chars = λ s. Converted.unread;
  strtod = λ s. 0;
}

-- Primitives that are not modelled refuse their arguments here.
abbrev refuse : String → List Value → M Value
refuse name args = throw (Message.wrong_type name)

refuse-PrimsOk : PrimsOk refuse
refuse-PrimsOk name args = Sound-throw (Message.wrong_type name)

abbrev prims : String → List Value → M Value
prims = primitives library 9 refuse

prims-PrimsOk : PrimsOk prims
prims-PrimsOk = primitives-PrimsOk library 9 refuse refuse-PrimsOk

-- A heap with the empty object store, and the primitive `cons` in its cell.
abbrev start : Heap
start = record {
  objects = [];
  frames = [];
  cells = (record { value = some (primitive "cons"); transformer = none; name = "cons" }) ∷ [];
  globals = ("cons", 0) ∷ [];
  report_globals = [];
  null_globals = [];
  compile_table = interaction;
  gensyms = 0;
  winds = [];
  wind_next = 0;
  handler = boolean false;
  run_depth = 0;
}

start-HeapOk : HeapOk start
unfolding fetch
start-HeapOk = record { objects_ok = λ a o at. cc }

abbrev result : Result Value → Option Value
result (ok v h) = some v
result _ = none

-- (if #f 1 2)
abbrev if_program : M Value
if_program = do
  e ← list_from (symbol "if" ∷ boolean false ∷ integer (pos 1) ∷ integer (pos 2) ∷ [])
  eval_top prims 40 e

if_run : result (if_program start) ≡ some (integer (pos 2))
unfolding ◌>>=◌ list_from eval_top look gets pair_of fetch form_of list_to_vector check_arity
    walk_from car expect cdr extract_params scan_out_defines find_place check_place location_of
    place_of narrow ◌▷▷◌ push select is_true end_branch first_argument on_last mark exec local
    env_at make_frame return_value resize write_object bound cell_at
if_run = refl

-- ((lambda (x y) y) 1 2)
abbrev call_program : M Value
call_program = do
  params ← list_from (symbol "x" ∷ symbol "y" ∷ [])
  f ← list_from (symbol "lambda" ∷ params ∷ symbol "y" ∷ [])
  e ← list_from (f ∷ integer (pos 1) ∷ integer (pos 2) ∷ [])
  eval_top prims 40 e

call_run : result (call_program start) ≡ some (integer (pos 2))
unfolding ◌>>=◌ list_from eval_top look gets pair_of fetch form_of list_to_vector check_arity
    walk_from car expect cdr extract_params scan_out_defines find_place check_place location_of
    place_of narrow ◌▷▷◌ push select is_true end_branch first_argument on_last mark exec local
    env_at make_frame return_value resize write_object bound cell_at update arity_ok env_extend
    enter
call_run = refl

-- A machine that is about to push a constant and stop, and its heap, which has its scratch closure.
abbrev ready_heap : Heap
ready_heap = record start { objects = blank_closure ∷ [] }

ready_heap-HeapOk : HeapOk ready_heap
ready_heap-HeapOk = HeapOk-alloc start blank_closure start-HeapOk tt

abbrev ready : Vm
ready = record {
  stack = [];
  dump = [];
  env = none;
  scratch = 0;
  code = ldc (integer (pos 7)) ▷ (stop ▷ empty);
  base = 0;
}

ready-MachineOk : MachineOk ready_heap ready
unfolding fetch
ready-MachineOk =
    running {k = program} {Γ = []} 0 (blank_closure, refl, IsScratch.is_blank)
      (step ldc_ok (last (stop_ok refl))) (omega arith) tt any_dump

Safe-step_example :
    Safe ready_heap NextOk (Step.step prims (eval_at prims 5) ready ready.code ready_heap)
Safe-step_example =
    Safe-step (EngineOk-eval_at prims prims-PrimsOk 5) ready ready_heap-HeapOk ready-MachineOk

abbrev refuse_macro : Value → List Value → M Value
refuse_macro f args = throw (Message.not_a_transformer f)

Safe-comp_example :
    Safe start
      (λ c h'. Emits (("x" ∷ []) ∷ []) true c)
      (comp refuse_macro 5 (symbol "x") (("x" ∷ []) ∷ []) true start)
Safe-comp_example =
    Safe-comp refuse_macro (λ f xs. Sound-throw _) 5 (symbol "x") (("x" ∷ []) ∷ []) true start
      start-HeapOk

Safe-compile_eval_example :
    Safe start
      (λ c h'. CodeOk body [] 0 c)
      (compile_eval refuse_macro 5 (symbol "cons") interaction start)
Safe-compile_eval_example =
    Safe-compile_eval refuse_macro (λ f xs. Sound-throw _) 5 (symbol "cons") interaction start
      start-HeapOk

Safe-primitives_example : Safe start Any (prims "cons" (nil ∷ nil ∷ []) start)
Safe-primitives_example =
    Safe-primitives library 9 refuse refuse-PrimsOk "cons" (nil ∷ nil ∷ []) start start-HeapOk

-- Two frames, the inner one shadowing a name of the outer one.
abbrev two_frames : Heap
two_frames = record start {
  frames =
      (record { next = some 0; vals = integer (pos 3) ∷ [] })
      ∷ (record { next = none; vals = integer (pos 1) ∷ integer (pos 2) ∷ [] })
      ∷ [];
}

abbrev two_scopes : CompileEnv
two_scopes = ("x" ∷ []) ∷ ("x" ∷ "y" ∷ []) ∷ []

abbrev two_rows : List (List Value)
two_rows = (integer (pos 3) ∷ []) ∷ (integer (pos 1) ∷ integer (pos 2) ∷ []) ∷ []

two_frames-Holds : Holds two_frames.frames (some 1) two_scopes two_rows
unfolding fetch
two_frames-Holds = (_, refl, refl, refl, (_, refl, refl, refl, tt))

two_scopes-IsNarrow : IsNarrow two_scopes
two_scopes-IsNarrow = (omega arith, (omega arith, (omega arith, tt)))

location_of-Reads_example :
    Reads "y" two_scopes two_rows (some 1) two_frames (location_of "y" two_scopes)
location_of-Reads_example =
    location_of-Reads "y" two_scopes two_rows (some 1) two_frames two_scopes-IsNarrow
      two_frames-Holds

location_of-Local_example : Local (shape two_scopes) 1 1
unfolding location_of place_of
location_of-Local_example = location_of-Local "y" two_scopes 1 1 two_scopes-IsNarrow refl

list_to_vector-list_from_example :
    (v : Value) × (h' : Heap) × (list_from (nil ∷ nil ∷ []) start ≡ ok v h')
    × (list_to_vector v "list" h' ≡ ok (nil ∷ nil ∷ []) h')
list_to_vector-list_from_example = list_to_vector-list_from (nil ∷ nil ∷ []) "list" start

abbrev pair_heap : Heap
pair_heap = record start { objects = pair (boolean true) nil ∷ [] }

pair_heap-Chain : Chain pair_heap.objects (object 0) (boolean true ∷ [])
unfolding pair_of fetch
pair_heap-Chain = Segment.link refl (Segment.end refl)

list_to_vector-Chain_example :
    list_to_vector (object 0) "list" pair_heap ≡ ok (boolean true ∷ []) pair_heap
list_to_vector-Chain_example =
    list_to_vector-Chain pair_heap (object 0) (boolean true ∷ []) "list" pair_heap-Chain

abbrev wind : ℕ → WindEntry
wind n = record { before = integer (pos n); after = nil; id = n }

rewind_thunks-shared_example :
    rewind_thunks (wind 0 ∷ wind 1 ∷ []) (wind 0 ∷ wind 2 ∷ [])
    ≡ map (λ (w : WindEntry). w.after) (reverse (wind 1 ∷ []))
      ++ map (λ (w : WindEntry). w.before) (wind 2 ∷ [])
rewind_thunks-shared_example = rewind_thunks-shared (wind 0 ∷ []) (wind 1 ∷ []) (wind 2 ∷ []) refl

winds_match_iff_example :
    (winds_match (wind 0 ∷ []) (wind 0 ∷ []) ≡ true)
    ↔ (map (λ (w : WindEntry). w.id) (wind 0 ∷ []) ≡ map (λ (w : WindEntry). w.id) (wind 0 ∷ []))
winds_match_iff_example = winds_match_iff (wind 0 ∷ []) (wind 0 ∷ [])

-- A caller with an operand under its two arguments.
abbrev caller_vm : Vm
caller_vm = record ready { stack = integer (pos 2) ∷ integer (pos 1) ∷ nil ∷ [] }

return-enter_example :
    return_value
      (record (enter caller_vm (rtn ▷ empty) (some 0) 1 false) {
        stack = symbol "v" ∷ nil ∷ [];
        code = empty;
        env = none;
      })
      (enter caller_vm (rtn ▷ empty) (some 0) 1 false).dump
      start
    ≡ ok (go (record caller_vm { stack = symbol "v" ∷ nil ∷ [] })) start
unfolding resize
return-enter_example =
    return-enter caller_vm (rtn ▷ empty) empty (some 0) none
      (integer (pos 2) ∷ integer (pos 1) ∷ []) (nil ∷ []) [] (symbol "v") start refl

global_cell-global_cell_example :
    (a : Addr) × (h' : Heap) × (global_cell "car" start ≡ ok a h')
    × (global_cell "car" h' ≡ ok a h')
global_cell-global_cell_example = global_cell-global_cell "car" start

find_name-global_cell_example :
    (a : Addr) × (h' : Heap) × (global_cell "car" start ≡ ok a h')
    × (find_name "cons" h'.globals ≡ find_name "cons" start.globals)
    × ((b : Addr) (c : Cell) → fetch b start.cells ≡ some c → fetch b h'.cells ≡ some c)
find_name-global_cell_example = find_name-global_cell "car" "cons" start (λ e. cc)

eqv_values_iff_example :
    (eqv_values (integer (pos 1)) (integer (pos 1)) ≡ true) ↔ (integer (pos 1) ≡ integer (pos 1))
eqv_values_iff_example = eqv_values_iff (integer (pos 1)) (integer (pos 1))

wind_pop-wind_push_example :
    (h' : Heap) × (prim_wind_push (nil ∷ (boolean true ∷ [])) start ≡ ok nil h')
    × (prim_wind_top_after [] h' ≡ ok (boolean true) h')
    × (prim_wind_pop (nil ∷ []) h' ≡ ok nil (record start { wind_next = start.wind_next + 1 }))
wind_pop-wind_push_example = wind_pop-wind_push nil (boolean true) (nil ∷ []) start

-- A template of one parameter, called with one argument and with none.
abbrev one_param : Template
one_param = template ("x" ∷ []) none (rtn ▷ empty) "f"

Safe-make_frame_example :
    Safe start
      (λ e h'. EnvOk h'.frames e (frame_size one_param ∷ []))
      (make_frame one_param none (nil ∷ []) start)
Safe-make_frame_example = Safe-make_frame start one_param none (nil ∷ []) [] start-HeapOk tt

-- A continuation that was made over an operand, called by a machine without operands.
abbrev resumable_heap : Heap
resumable_heap = record start {
  objects = continuation (capture (record ready { stack = nil ∷ [] }) start) ∷ [];
}

Chain-list_to_vector_example :
    Chain pair_heap.objects (object 0) (boolean true ∷ []) × (pair_heap ≡ pair_heap)
Chain-list_to_vector_example =
    Chain-list_to_vector pair_heap pair_heap (object 0) (boolean true ∷ []) "list"
      (list_to_vector-Chain pair_heap (object 0) (boolean true ∷ []) "list" pair_heap-Chain)

list_to_vector_ends_example :
    ReadsList (object 0) "list" pair_heap ⊎ RefusesList (object 0) "list" pair_heap
list_to_vector_ends_example = list_to_vector_ends (object 0) "list" pair_heap

resumable_heap-HeapOk : HeapOk resumable_heap
unfolding fetch capture
resumable_heap-HeapOk =
    HeapOk-alloc start (continuation (capture (record ready { stack = nil ∷ [] }) start))
      start-HeapOk
      (resumable {k = program} {Γ = []} 1 (step ldc_ok (last (stop_ok refl))) refl tt any_dump)

-- The heap after the evaluation of #t.
abbrev later_heap : Heap
later_heap = record resumable_heap { objects = blank_closure ∷ resumable_heap.objects }

later_run : heap_after (eval_forms prims 5 (boolean true ∷ []) resumable_heap) ≡ some later_heap
unfolding ◌>>=◌ eval_top eval_forms look gets pair_of ◌▷▷◌ push exec pure
later_run = refl

eval_forms-call_cc_example :
    (call_cc prims (eval_at prims 5) ready false (primitive "car" ∷ nil ∷ []) start
      ≡ do_call prims
          (eval_at prims 5)
          (record ready { stack = object 0 ∷ nil ∷ [] })
          (primitive "car")
          1
          false
          resumable_heap)
    × (do_call prims
          (eval_at prims 5)
          (record ready { stack = boolean true ∷ [] })
          (object 0)
          1
          true
          later_heap
        ≡ ok (go (record ready { stack = boolean true ∷ nil ∷ [] })) later_heap)
unfolding winds_match
eval_forms-call_cc_example =
    eval_forms-call_cc prims prims-PrimsOk 5 (boolean true ∷ []) ready false (primitive "car")
      (nil ∷ []) start later_heap ready true (boolean true) [] resumable_heap-HeapOk later_run refl

eval_forms-compile_table_example : later_heap.compile_table ≡ resumable_heap.compile_table
eval_forms-compile_table_example =
    eval_forms-compile_table prims prims-PrimsOk 5 (boolean true ∷ []) resumable_heap later_heap
      resumable_heap-HeapOk later_run
