-- ===== src/Tests/Data.antt =====
-- The theorems on the reader, the printer and `equal?` at concrete inputs.
use secd_scheme.Prelude.{
  Addr, pos, ℕ, ◌≡◌, ◌≢◌, ◌⊎◌, refl, true, false, Option, some, [], ◌∷◌, ◌++◌, negsuc, ℤ, fetch,
  arith, Text, chars,
}
use secd_scheme.Value.{
  nil, interaction, Value, integer, symbol, object, boolean, pair, string, vector, Heap, Message,
}
use secd_scheme.Pairs.{pair_of, is_nil}
use secd_scheme.Effect.{ok, out_of_fuel}
use secd_scheme.Datum.{Datum, atom, text, list, dotted, more, no_items, item, size, Shows, Kept}
use secd_scheme.Datum.Spelling.{text_of}
use secd_scheme.Printer.{atom_text, to_string, int_text}
use secd_scheme.Printer.Data.{to_string-Shows}
use secd_scheme.Primitives.Equality.{equal_values}
use secd_scheme.Primitives.Equality.Data.{equal_values-Shows}
use secd_scheme.Primitives.Radix.{exact_int_from_radix, exact_int_to_radix}
use secd_scheme.Primitives.Radix.RoundTrip.{
  exact_int_from_radix-exact_int_to_radix, exact_int_from_radix-int_text,
}
use secd_scheme.Reader.Number.{Converted, parse_number, special, number_kind}
use secd_scheme.Reader.{at_delimiter, is_delimiter, named_atom, read_expr, read_all}
use secd_scheme.Primitives.Numerals.{prim_number_to_string, prim_string_to_number}
use secd_scheme.Primitives.Numerals.Laws.{string_to_number-number_to_string}
use secd_scheme.Expand.Let.{expand_let}
use secd_scheme.Expand.Shape.{AreBindings, IsCall, expand_let-IsCall}
use secd_scheme.Pairs.Chains.{Segment, Chain}
use secd_scheme.Pairs.{pair_of}
use secd_scheme.Reader.Tokens.{in_token}
use secd_scheme.Reader.Steps.{no_quote}
use secd_scheme.Reader.Integers.{parse_number-int_text}
use secd_scheme.Reader.Data.{IsName, Readable}
use secd_scheme.Reader.RoundTrip.{read_expr-to_string, read_expr-text_of}
use secd_scheme.Reader.Termination.{read_all_ends}

-- (#(x "hi") "hi" . -3)
abbrev stored : Heap
stored = record {
  objects =
      pair (object 2) (object 1)
      ∷ vector (symbol "x" ∷ object 0 ∷ [])
      ∷ pair (object 0) (integer (negsuc 2))
      ∷ string (chars "hi")
      ∷ [];
  frames = [];
  cells = [];
  globals = [];
  report_globals = [];
  null_globals = [];
  compile_table = interaction;
  gensyms = 0;
  winds = [];
  wind_next = 0;
  handler = boolean false;
  run_depth = 0;
}

abbrev tree : Datum
tree =
    list (Datum.vector (item (atom (symbol "x")) (item (text (chars "hi")) no_items)))
      (more (text (chars "hi")) (dotted (atom (integer (negsuc 2)))))

stored-Shows : Shows stored.objects (object 3) tree
unfolding Shows fetch
stored-Shows = (
  3,
  object 2,
  object 1,
  refl,
  refl,
  (
    2,
    symbol "x" ∷ object 0 ∷ [],
    refl,
    refl,
    (symbol "x", object 0 ∷ [], refl, (refl, tt), (object 0, [], refl, (0, refl, refl), refl)),
  ),
  (1, object 0, integer (negsuc 2), refl, refl, (0, refl, refl), (tt, (refl, tt))),
)

x-IsName : IsName "x"
unfolding in_token named_atom special number_kind
x-IsName = record {
  head = "x";
  others = [];
  spelled = refl;
  is_token = record { whole = refl; no_hash = refl; no_dot = refl };
  not_named = refl;
  not_special = refl;
  not_number = refl;
}

tree-Readable : Readable tree
unfolding Readable no_quote
tree-Readable = ((x-IsName, (refl, tt)), (refl, (tt, tt)))

abbrev from_chars : Text → Converted
from_chars s = Converted.unread

abbrev strtod : Text → ℕ
strtod s = 0

abbrev shortest : ℕ → Text
shortest d = chars "1"

abbrev render : Message → Text
render m = []

abbrev big_int : Text → Option ℤ
big_int = exact_int_from_radix 10

written :
    to_string shortest render 30 stored.objects (object 3)
    ≡ some (chars "(#(x \"hi\") \"hi\" . -3)")
unfolding to_string fetch pair_of is_nil
written = refl

read_back :
    (v : Value) × (h : Heap) × (read_expr big_int from_chars strtod 30 (chars "'(a . #t)") stored
      ≡ ok (some v, []) h)
unfolding read_expr exact_int_from_radix
read_back = (_, _, refl)

read_expr-to_string_example :
    (t : Text) × (w : Value) × (h : Heap) × (to_string shortest render 27 stored.objects (object 3)
      ≡ some t)
    × (read_expr big_int from_chars strtod 27 t stored ≡ ok (some w, []) h)
    × (equal_values 27 h.objects [] (object 3) w ≡ some true)
unfolding size
read_expr-to_string_example =
    read_expr-to_string big_int from_chars strtod shortest render exact_int_from_radix-int_text
      stored (object 3) tree stored-Shows tree-Readable 27 (omega arith)

read_expr-text_of_example :
    (v : Value) × (h : Heap) × (read_expr big_int from_chars strtod 18
        (text_of (atom_text shortest render) tree ++ chars " y")
        stored
      ≡ ok (some v, chars " y") h)
    × Kept stored.objects h.objects
    × Shows h.objects v tree
unfolding size at_delimiter is_delimiter
read_expr-text_of_example =
    read_expr-text_of big_int from_chars strtod shortest render exact_int_from_radix-int_text tree
      (chars " y") stored tree-Readable refl 18 (omega arith)

to_string-Shows_example :
    to_string shortest render 18 stored.objects (object 3)
    ≡ some (text_of (atom_text shortest render) tree)
unfolding size
to_string-Shows_example =
    to_string-Shows shortest render stored.objects (object 3) tree stored-Shows 18 (omega arith)

equal_values-Shows_example :
    ((tree ≡ text (chars "hi"))
      × (equal_values 27 stored.objects [] (object 3) (object 0) ≡ some true))
    ⊎ ((tree ≢ text (chars "hi"))
        × (equal_values 27 stored.objects [] (object 3) (object 0) ≡ some false))
unfolding size Shows fetch
equal_values-Shows_example =
    equal_values-Shows stored.objects (object 3) (object 0) tree (text (chars "hi")) stored-Shows
      (0, refl, refl) 27 (omega arith)

exact_int_from_radix-exact_int_to_radix_example :
    exact_int_from_radix 16 (exact_int_to_radix (negsuc 254) 16) ≡ some (negsuc 254)
exact_int_from_radix-exact_int_to_radix_example =
    exact_int_from_radix-exact_int_to_radix (negsuc 254) 16 (omega arith) (omega arith)

parse_number-int_text_example :
    parse_number big_int from_chars strtod (int_text (negsuc 41)) stored
    ≡ ok (some (integer (negsuc 41))) stored
parse_number-int_text_example =
    parse_number-int_text big_int from_chars strtod (negsuc 41) stored
      (exact_int_from_radix-int_text (negsuc 41))

read_all_ends_example : read_all big_int from_chars strtod (chars "(a 'b") stored ≡ out_of_fuel → ⊥
read_all_ends_example = read_all_ends big_int from_chars strtod (chars "(a 'b") stored

string_to_number-number_to_string_example :
    (b : Addr) × (h' : Heap) × (prim_number_to_string shortest
        (integer (negsuc 254) ∷ (integer (pos 16) ∷ []))
        stored
      ≡ ok (object b) h')
    × (prim_string_to_number big_int from_chars strtod (object b ∷ (integer (pos 16) ∷ [])) h'
        ≡ ok (integer (negsuc 254)) h')
string_to_number-number_to_string_example =
    string_to_number-number_to_string big_int from_chars strtod shortest (negsuc 254) 16 stored refl
      (exact_int_from_radix-int_text (negsuc 254))

-- (let ((x 1)) x)
abbrev let_heap : Heap
let_heap = record stored {
  objects =
      pair (symbol "let") (object 4)
      ∷ pair (object 3) (object 0)
      ∷ pair (object 2) nil
      ∷ pair (symbol "x") (object 1)
      ∷ pair (integer (pos 1)) nil
      ∷ pair (symbol "x") nil
      ∷ [];
}

let-Chain : Chain let_heap.objects (object 3) (object 2 ∷ [])
unfolding pair_of fetch
let-Chain = Segment.link refl (Segment.end refl)

let-AreBindings : AreBindings let_heap.objects (object 2 ∷ []) (("x", integer (pos 1)) ∷ [])
unfolding pair_of fetch
let-AreBindings = (object 1, refl, refl, tt)

expand_let-IsCall_example :
    (v : Value) × (h' : Heap) × (expand_let (object 5) let_heap ≡ ok v h')
    × IsCall (object 0) (("x", integer (pos 1)) ∷ []) v h'
unfolding pair_of fetch
expand_let-IsCall_example =
    expand_let-IsCall let_heap (object 3) (object 0) (object 2 ∷ []) (("x", integer (pos 1)) ∷ [])
      let-Chain let-AreBindings (object 5) (symbol "let") (object 4) (symbol "x" ∷ []) refl refl
      (Segment.link refl (Segment.end refl))
