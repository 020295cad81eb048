-- ===== src/Lib.antt =====
-- A model of scheme14/scheme14.cpp, a Scheme interpreter on an SECD machine, and what makes it correct.
--
-- The program reads expressions, rewrites the derived forms (let, cond, do, quasiquote and the others),
-- compiles what is left to instructions of the machine, and runs them. The compiler runs the
-- transformers of macros on machines of their own, and the primitive `eval` calls the compiler from
-- inside the machine, so the parts call each other in a circle.
--
-- Files, and the part of scheme14/scheme14.cpp that each models:
--   Value      sections 2, 3 and 9: values, heap objects, instructions, code, the global state
--   Effect     `SchemeError`, `internal_error` and the globals: actions on the heap with results
--   Pairs      pairs, `list_from`, and the walks along the cdrs (`list_to_vector`, `form_arity`,
--              `is_proper_list`), whose two pointers find a cycle
--   Symbols    section 3: `make_symbol` and `g_symbols`; in the other files a symbol is its name
--   Syntax     section 6: arity, bindings, parameter lists
--   Printer    section 4: `write_value` and `to_display_string`, with the cut of cycles
--   Reader     section 5: the struct Reader, `parse_number` (Number) and `read_all`
--   Datum      the trees that values stand for, which the printer, the reader and `equal?` are
--              compared with
--   Expand     section 7: `expand_form_1` and the rewritings that it chooses from, in Let, Cond, Do
--              (with `scan_out_defines`) and Quasi
--   Compile    section 8: `comp` (Forms has a function for each form), `compile_top`, `compile_eval`
--   Machine, Step, Run   section 10: frames, continuations and `build_rewind_code`; the instructions and
--              `do_call`; the loop `run` with its handler of errors, and `apply_callable`
--   Program    `eval_top`, and the loop over the expressions of an input
--   Primitives section 11: pairs and lists, `eqv?`; Equality has `equal?`, Numbers the arithmetic
--              of exact integers, Vectors, Strings, Radix integers in a radix, Numerals `number->string`
--              and `string->number`, Control multiple values, the record of `dynamic-wind` and the
--              handlers, Table the table of names
--   Typing     the checks of code that the machine relies on, and the shapes of its dump
--   Safety     the invariant of heap and machine, and that every part keeps it
--   Tests      programs run by the model, and the theorems at concrete inputs
-- Laws of a part stand below it: Pairs/Chains, Pairs/Termination, Pairs/Deciding, Pairs/Bound,
-- Expand/Shape (the rewriting of `let`), Safety/Persistence, Machine/Rewinding,
-- Machine/Returning, Step/Cells, Compile/Scopes, Symbols/Interning, Primitives/Identity,
-- Primitives/Nesting, Printer/Data, Reader/Data, Reader/RoundTrip, Reader/Termination,
-- Primitives/Equality/Data, Primitives/Radix/RoundTrip, Primitives/Numbers/Sums,
-- Primitives/Numbers/Division, Primitives/Vectors/Laws, Primitives/Strings/Laws,
-- Primitives/Numerals/Laws.
--
-- How the code is modelled. A pointer to an object, a frame or a global cell is an address in a store
-- that only grows; memory is not reclaimed, and source positions, carets and the text of messages are
-- left out. The stack of operands has its top at the head of a list. A C++ exception is a result that
-- keeps the heap; an `internal_error` is a `Fault`, and the places that the source guards by one are
-- guarded here. An operand of an instruction that does not fit 16 bits is a fault where the source
-- goes on with the wrapped number; `location_of` itself wraps, and `find_place`, which calls it, stops.
--
-- What the number libraries do is a parameter: the constructor of `BigInt` from a text, `from_chars`,
-- `strtod` and `to_chars`. A theorem on reading says what it asks of the first, and Primitives/Radix has
-- a function that does it. A character stands for one byte.
--
-- Loops take fuel where the source has no bound of its own. The walks along a list take one round for
-- each object of the heap and one more; `list_to_vector` never asks for more. Compilation, the machine
-- and the macros share the fuel of `eval_top`; a program may run for ever, so no amount is enough for
-- all, and the theorems on programs hold for each.
--
-- The reader starts with fuel of twice the length of the text, the printer and `equal?` take fuel as
-- their theorems say, of two and three times the size of the tree.
--
-- The operations on doubles are parameters too. The primitives that the table of names does not hold
-- are a parameter of it.
--
-- Not modelled: the rounding and the functions of doubles, the primitives on ports, tracing, the
-- disassembler, the terminal, and the older interpreters scheme12 and scheme13. gc-8.2.12 is another
-- project's library.
pub mod Prelude
pub mod Value
pub mod Effect
pub mod Pairs
pub mod Symbols
pub mod Syntax
pub mod Datum
pub mod Printer
pub mod Reader
pub mod Expand
pub mod Machine
pub mod Step
pub mod Run
pub mod Compile
pub mod Primitives
pub mod Program
pub mod Typing
pub mod Safety
pub mod Tests
