-- ===== src/Primitives/Strings.antt =====
-- scheme14/scheme14.cpp, section 11: strings. A character of the language is a string of length 1.
pub mod Laws
use secd_scheme.Prelude.{
  ℕ, zero, suc, ◌+◌, ◌-◌, ◌^◌, ltb, leb, Bool, true, false, ◌&&◌, ◌||◌, not, Option, none, some,
  List, [], ◌∷◌, ◌++◌, length, get_elem?, set, take, drop, Addr, fetch, ◌==◌, if◌then◌else◌, String,
  ℤ, pos, negsuc, Char, code, Text, chars, of_list,
}
use secd_scheme.Value.{Value, nil, integer, symbol, boolean, object, Object, string, Message, Heap}
use secd_scheme.Effect.{
  M, pure, throw, gets, alloc, expect, ◌>>=◌, ◌>>◌, out_of_fuel, internal_error, Fault,
}
use secd_scheme.Pairs.{make_pair}
use secd_scheme.Syntax.{look}
use secd_scheme.Step.{write_object}
use secd_scheme.Primitives.{need_args, type_error, arg}
use secd_scheme.Primitives.Vectors.{ll_of, index_below, undef}

abbrev pub string_at : Option Object → Option Text
string_at (some (string s)) = some s
string_at _ = none

-- The characters of the value, if it is a string.
unfoldable pub string_text : Value → M (Option Text)
string_text (object a) = gets (λ h. string_at (fetch a h.objects))
string_text _ = pure none

unfoldable pub str_of : Value → String → M Text
unfolding string_text
str_of v who = do s ← string_text v; elim s [ none ↦ type_error who | some t ↦ pure t ]

-- The first character of a string that stands for one.
unfoldable pub char_of : Text → String → M Char
char_of [] who = type_error who
char_of (c ∷ s) who = pure c

unfoldable pub replace_text : Value → Text → M (Unit {0})
unfolding write_object
replace_text (object a) s = write_object a (string s)
replace_text _ s = pure tt

unfoldable pub repeated_char : ℕ → Char → Text
repeated_char zero c = []
repeated_char (suc n) c = c ∷ repeated_char n c

unfoldable pub prim_string_length : List Value → M Value
unfolding need_args arg str_of
prim_string_length args = do
  need_args "string-length" (length args) 1 1
  s ← str_of (arg 0 args) "string-length"
  pure (integer (pos (length s)))

unfoldable pub prim_string_ref : List Value → M Value
unfolding need_args arg str_of ll_of index_below expect alloc
prim_string_ref args = do
  need_args "string-ref" (length args) 2 2
  s ← str_of (arg 0 args) "string-ref"
  z ← ll_of (arg 1 args) "string-ref"
  i ← index_below z (length s) "string-ref"
  c ← expect (get_elem? s i)
  alloc (string (c ∷ []))

unfoldable pub prim_string_set : List Value → M Value
unfolding need_args arg str_of char_of ll_of index_below replace_text
prim_string_set args = do
  need_args "string-set!" (length args) 3 3
  s ← str_of (arg 0 args) "string-set!"
  t ← str_of (arg 2 args) "string-set!"
  c ← char_of t "string-set!"
  z ← ll_of (arg 1 args) "string-set!"
  i ← index_below z (length s) "string-set!"
  replace_text (arg 0 args) (set s i c)
  pure undef

-- The length of a new string, which is at most a million.
unfoldable pub string_size : ℤ → M ℕ
string_size (pos n) = if leb n 1000000 then pure n else throw (Message.domain "make-string")
string_size (negsuc n) = throw (Message.domain "make-string")

unfoldable pub fill_char : List Value → M Char
unfolding str_of char_of
fill_char (len ∷ (v ∷ [])) = do s ← str_of v "make-string"; char_of s "make-string"
fill_char _ = pure " "

unfoldable pub prim_make_string : List Value → M Value
unfolding need_args arg ll_of string_size fill_char repeated_char alloc
prim_make_string args = do
  need_args "make-string" (length args) 1 2
  z ← ll_of (arg 0 args) "make-string"
  n ← string_size z
  c ← fill_char args
  alloc (string (repeated_char n c))

unfoldable pub append_texts : List Value → M Text
unfolding str_of
append_texts [] = pure []
append_texts (v ∷ vs) = do s ← str_of v "string-append"; t ← append_texts vs; pure (s ++ t)

unfoldable pub prim_string_append : List Value → M Value
unfolding append_texts alloc
prim_string_append args = do s ← append_texts args; alloc (string s)

-- An index that is between two bounds.
unfoldable pub index_between : ℤ → ℕ → ℕ → M ℕ
index_between (pos i) lo hi =
    if leb lo i && leb i hi then pure i else throw (Message.out_of_range "substring")
index_between (negsuc i) lo hi = throw (Message.out_of_range "substring")

unfoldable pub end_of : List Value → ℕ → ℕ → M ℕ
unfolding ll_of index_between
end_of (s ∷ (from ∷ (to ∷ []))) lo size = do z ← ll_of to "substring"; index_between z lo size
end_of _ lo size = pure size

unfoldable pub prim_substring : List Value → M Value
unfolding need_args arg str_of ll_of index_between end_of alloc
prim_substring args = do
  need_args "substring" (length args) 2 3
  s ← str_of (arg 0 args) "substring"
  z ← ll_of (arg 1 args) "substring"
  from ← index_between z 0 (length s)
  to ← end_of args from (length s)
  alloc (string (take (to - from) (drop from s)))

-- The order of strings: by the first bytes that differ, and a prefix is less.
pub data Order : Type 0 where
  less equal greater : Order

unfoldable pub compare_text : Text → Text → Order
compare_text [] [] = Order.equal
compare_text [] (d ∷ t) = Order.less
compare_text (c ∷ s) [] = Order.greater
compare_text (c ∷ s) (d ∷ t) =
    let rest = compare_text s t in
    if ltb (code c) (code d)
    then Order.less
    else if ltb (code d) (code c)
    then Order.greater
    else rest

-- DEFINE_STRCMP
unfoldable pub string_compare : String → (Order → Bool) → List Value → M Value
unfolding need_args arg str_of compare_text
string_compare who test args = do
  need_args who (length args) 2 2
  s ← str_of (arg 0 args) who
  t ← str_of (arg 1 args) who
  pure (boolean (test (compare_text s t)))

unfoldable pub prim_char_to_integer : List Value → M Value
unfolding need_args arg str_of char_of
prim_char_to_integer args = do
  need_args "char->integer" (length args) 1 1
  s ← str_of (arg 0 args) "char->integer"
  c ← char_of s "char->integer"
  pure (integer (pos (code c)))

-- The list of the characters is made from the last on.
unfoldable pub list_of_chars : Text → M Value
unfolding alloc make_pair
list_of_chars [] = pure nil
list_of_chars (c ∷ s) = do rest ← list_of_chars s; v ← alloc (string (c ∷ [])); make_pair v rest

unfoldable pub prim_string_to_list : List Value → M Value
unfolding need_args arg str_of list_of_chars
prim_string_to_list args = do
  need_args "string->list" (length args) 1 1
  s ← str_of (arg 0 args) "string->list"
  list_of_chars s

abbrev pub add_char : Text → Text → Text
add_char [] s = s
add_char (c ∷ t) s = c ∷ s

-- The loop of `list->string`, which does not look for a cycle; an empty string adds nothing.
unfoldable pub chars_of_list : ℕ → Value → M Text
unfolding look str_of
chars_of_list zero ls = λ h. out_of_fuel
chars_of_list (suc fuel) nil = pure []
chars_of_list (suc fuel) ls = do
  p ← look ls
  elim p [
    | none ↦ type_error "list->string"
    | some (a, d) ↦ do t ← str_of a "list->string"; s ← chars_of_list fuel d; pure (add_char t s)
  ]

unfoldable pub prim_list_to_string : List Value → M Value
unfolding need_args arg chars_of_list alloc
prim_list_to_string args = do
  need_args "list->string" (length args) 1 1
  fuel ← gets (λ h. suc (length h.objects))
  s ← chars_of_list fuel (arg 0 args)
  alloc (string s)

-- as_symbol_name, whose failure is an internal error
unfoldable pub symbol_name : Value → M Text
symbol_name (symbol s) = pure (chars s)
symbol_name _ = internal_error Fault.accessor

unfoldable pub prim_symbol_to_string : List Value → M Value
unfolding need_args arg symbol_name alloc
prim_symbol_to_string args = do
  need_args "symbol->string" (length args) 1 1
  s ← symbol_name (arg 0 args)
  alloc (string s)

unfoldable pub prim_string_to_symbol : List Value → M Value
unfolding need_args arg str_of
prim_string_to_symbol args = do
  need_args "string->symbol" (length args) 1 1
  s ← str_of (arg 0 args) "string->symbol"
  pure (symbol (of_list s))
