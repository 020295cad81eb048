-- ===== src/Value.antt =====
-- scheme14/scheme14.cpp, sections 3 and 9: values, heap objects, instructions, code, frames and the
-- global state of the interpreter. An `Object*` is an address in a store; nil, the booleans, numbers,
-- interned symbols, primitives and special forms, which are told apart by their content, are
-- immediate. Source positions and the reclaiming of memory are left out.
use secd_scheme.Prelude.{ℕ, Bool, String, Option, List, Addr, ℤ, Text}

-- The three environment specifiers.
pub data EnvName : Type 0 where
  interaction report null_env : EnvName

pub data Value : Type 0 where
  nil eof : Value
  boolean : Bool → Value
  -- a fixnum or a bignum
  integer : ℤ → Value
  -- the bit pattern of a double
  flonum : ℕ → Value
  symbol primitive special_form : String → Value
  environment : EnvName → Value
  object : Addr → Value

-- An environment is the address of its innermost frame; `none` is the null pointer.
abbrev pub Env : Type 0
Env = Option Addr

-- A `Code*` with its `pc` is the list of the instructions that are left. A global cell is an address.
mutual
  pub data Instr : Type 0 where
    ld lset : ℕ → ℕ → Instr
    ldc : Value → Instr
    ldg def defm gset : Addr → Instr
    -- the flag says that the application after it consumes the closure
    ldf : Template → Bool → Instr
    app tapp args_ap : ℕ → Instr
    sel selr : Code → Code → Instr
    apply tapply rtn join pop callcc tcallcc stop : Instr

  pub data Code : Type 0 where
    empty : Code
    emit : Instr → Code → Code

  pub data Template : Type 0 where
    template : List String → Option String → Code → String → Template

infixr 67 ◌▷◌
pattern abbrev pub ◌▷◌ : Instr → Code → Code
i ▷ c = emit i c

abbrev pub fixed_params : Template → List String
fixed_params (template ps rest body name) = ps

abbrev pub rest_param : Template → Option String
rest_param (template ps rest body name) = rest

abbrev pub body_of : Template → Code
body_of (template ps rest body name) = body

pub record Frame : Type 0 where
  pub next : Env
  pub vals : List Value

-- What a caller leaves on the dump: its code from the return point on, its environment and the
-- floor of its operands.
pub record DumpEntry : Type 0 where
  pub code : Code
  pub env : Env
  pub base : ℕ

pub record WindEntry : Type 0 where
  pub before : Value
  pub after : Value
  pub id : ℕ

-- The machine that a continuation keeps.
pub record Snapshot : Type 0 where
  pub stack : List Value
  pub dump : List DumpEntry
  pub winds : List WindEntry
  pub code : Code
  pub env : Env
  pub base : ℕ

-- The body of an error, by the place that raises it, without its rendering.
pub data Message : Type 0 where
  bad_syntax unbound_variable wrong_count wrong_type out_of_range domain : String → Message
  improper_list circular_list : String → Message
  -- an error of the reader
  bad_input : String → Message
  not_a_procedure not_a_transformer : Value → Message
  raise_undefined : Message
  user : List Value → Message

pub record SchemeError : Type 0 where
  pub message : Message
  pub catchable : Bool

pub data Object : Type 0 where
  pair : Value → Value → Object
  string : Text → Object
  vector : List Value → Object
  -- the scratch closure of a new machine has no template
  blank_closure : Object
  closure : Template → Env → Object
  continuation : Snapshot → Object
  macro : Value → Object
  values : List Value → Object
  error_object : Message → Object
  -- whether it is an input port, and whether it was closed
  port : Bool → Bool → Object

-- `none` is an unbound value, or no macro.
pub record Cell : Type 0 where
  pub value : Option Value
  pub transformer : Option Value
  pub name : String

abbrev pub GlobalTable : Type 0
GlobalTable = List (String × Addr)

pub record Heap : Type 0 where
  pub objects : List Object
  pub frames : List Frame
  pub cells : List Cell
  pub globals : GlobalTable
  pub report_globals : GlobalTable
  pub null_globals : GlobalTable
  pub compile_table : EnvName
  pub gensyms : ℕ
  -- the innermost frame of `dynamic-wind` last, as in the source's vector
  pub winds : List WindEntry
  pub wind_next : ℕ
  pub handler : Value
  pub run_depth : ℕ
