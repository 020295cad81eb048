-- ===== src/Reader.antt =====
-- scheme14/scheme14.cpp, section 5: the reader. Its state is the text that is left; source positions
-- are left out.
pub mod Number
pub mod Tokens
pub mod Integers
pub mod Steps
pub mod Data
pub mod RoundTrip
pub mod Termination
use text.Mathlib.Text.{◌==◌ as str_eq}
use secd_scheme.Prelude.{
  ℕ, zero, suc, ◌+◌, ◌*◌, ◌==◌, leb, Bool, true, false, ◌&&◌, ◌||◌, Option, none, some, List, [],
  ◌∷◌, reverse, length, if◌then◌else◌, String, ℤ, Char, code, Text, of_list,
}
use secd_scheme.Value.{Value, nil, boolean, symbol, vector, string, Message, SchemeError, Heap}
use secd_scheme.Effect.{Result, ok, raise, fault, exit, out_of_fuel, M, pure, throw, alloc, ◌>>=◌}
use secd_scheme.Pairs.{list_onto, list_from}
use secd_scheme.Reader.Number.{Converted, parse_number}

-- `std::isspace`
unfoldable pub is_space : Char → Bool
is_space c = (leb 9 (code c) && leb (code c) 13) || code c == b' '

unfoldable pub is_delimiter : Char → Bool
unfolding is_space
is_delimiter c =
    is_space c
    || code c == b'('
    || code c == b')'
    || code c == b'\''
    || code c == b'`'
    || code c == b','
    || code c == b'"'
    || code c == b';'

-- delimiter_at, at the head of what is left
unfoldable pub at_delimiter : Text → Bool
unfolding is_delimiter
at_delimiter [] = true
at_delimiter (c ∷ s) = is_delimiter c

-- skip_atmosphere; the flag says that a comment is open, which the end of the line closes.
unfoldable pub skip : Bool → Text → Text
unfolding is_space
skip comment [] = []
skip true (c ∷ s) = elim (code c == b'\n') [ true ↦ skip false s | false ↦ skip true s ]
skip false (c ∷ s) = elim (is_space c) [
  | true ↦ skip false s
  | false ↦ elim (code c == b';') [ true ↦ skip true s | false ↦ c ∷ s ]
]

-- What stands in front, with the text behind the characters that tell it.
pub data Start : Type 0 where
  opened closed quoted vector_opened : Text → Start
  abbreviated : String → Text → Start
  literal : Bool → Text → Start
  atom : Start

unfoldable pub after_comma : Text → Start
after_comma [] = Start.abbreviated "unquote" []
after_comma (c ∷ s) =
    if code c == b'@' then Start.abbreviated "splice" s else Start.abbreviated "unquote" (c ∷ s)

unfoldable pub is_true_letter : Char → Bool
is_true_letter c = code c == b't' || code c == b'T'

unfoldable pub is_false_letter : Char → Bool
is_false_letter c = code c == b'f' || code c == b'F'

unfoldable pub after_hash : Text → Start
unfolding at_delimiter is_true_letter is_false_letter
after_hash [] = Start.atom
after_hash (c ∷ s) =
    if code c == b'('
    then Start.vector_opened s
    else if (is_true_letter c || is_false_letter c) && at_delimiter s
    then Start.literal (is_true_letter c) s
    else Start.atom

unfoldable pub start_of : Char → Text → Start
unfolding after_comma after_hash
start_of c s =
    if code c == b'('
    then Start.opened s
    else if code c == b')'
    then Start.closed s
    else if code c == b'"'
    then Start.quoted s
    else if code c == b'\''
    then Start.abbreviated "quote" s
    else if code c == b'`'
    then Start.abbreviated "quasiquote" s
    else if code c == b','
    then after_comma s
    else if code c == b'#'
    then after_hash s
    else Start.atom

-- at_dot: a dot that is a token by itself
unfoldable pub at_dot : Char → Text → Bool
unfolding at_delimiter
at_dot c s = code c == b'.' && at_delimiter s

unfoldable pub escape : Char → Char
escape n = if code n == b'n' then "\n" else n

abbrev pub with_char : Char → Option (Text × Text) → Option (Text × Text)
with_char c none = none
with_char c (some (s, rest)) = some (c ∷ s, rest)

-- The contents of a string up to its quote, and what follows; `none` is the end of the input.
unfoldable pub string_body : Text → Option (Text × Text)
unfolding escape
string_body [] = none
string_body (c ∷ []) = if code c == b'"' then some ([], []) else none
string_body (c ∷ (n ∷ s)) = elim (code c == b'"') [
  | true ↦ some ([], n ∷ s)
  | false ↦ elim (code c == b'\\') [
    | true ↦ with_char (escape n) (string_body s)
    | false ↦ with_char c (string_body (n ∷ s))
  ]
]

-- The characters of a token, and what follows.
unfoldable pub token : Text → Text × Text
unfolding is_delimiter
token [] = ([], [])
token (c ∷ s) = let (tok, rest) = token s in if is_delimiter c then ([], c ∷ s) else (c ∷ tok, rest)

abbrev pub reader_error {ℓ} : {A : Type ℓ} → String → M A
reader_error what = throw (Message.bad_input what)

unfoldable pub read_string : Text → M (Option Value × Text)
unfolding string_body alloc
read_string s = elim (string_body s) [
  | none ↦ reader_error "unexpected EOF in string literal"
  | some (body, rest) ↦ do v ← alloc (string body); pure (some v, rest)
]

-- The source names three atoms; every other token is a number or a symbol.
unfoldable pub named_atom : String → Option Value
named_atom name =
    if str_eq name "nil"
    then some nil
    else if str_eq name "true"
    then some (boolean true)
    else if str_eq name "false"
    then some (boolean false)
    else none

abbrev pub or_symbol : Text → Option Value → Value
or_symbol tok none = symbol (of_list tok)
or_symbol tok (some v) = v

-- While a file is read, an error is not handed to a handler.
unfoldable pub reading {ℓ} : {A : Type ℓ} → Result A → Result A
reading (raise e h) = raise (record e { catchable = false }) h
reading r = r

module _ (big_int : Text → Option ℤ) (from_chars : Text → Converted) (strtod : Text → ℕ) where
  unfoldable pub atom_of : Text → M Value
  unfolding named_atom parse_number
  atom_of [] = reader_error "empty token"
  atom_of (c ∷ tok) = elim (named_atom (of_list (c ∷ tok))) [
    | some v ↦ pure v
    | none ↦ do
      num ← parse_number big_int from_chars strtod (c ∷ tok)
      pure (or_symbol (c ∷ tok) num)
  ]

  unfoldable pub read_atom : Text → M (Option Value × Text)
  unfolding token atom_of
  read_atom s = do v ← atom_of ((token s).0); pure (some v, (token s).1)

  -- Every call uses fuel; `none` is the end of the input.
  unfoldable mutual
    unfolding skip start_of read_string read_atom at_dot list_onto list_from alloc

    pub read_expr : ℕ → Text → M (Option Value × Text)
    read_expr zero s = λ h. out_of_fuel
    read_expr (suc fuel) s = elim (skip false s) [
      | [] ↦ pure (none, [])
      | c ∷ rest ↦ elim (start_of c rest) [
        | Start.opened t ↦ read_list fuel [] t
        | Start.closed t ↦ reader_error "unexpected ')'"
        | Start.quoted t ↦ read_string t
        | Start.vector_opened t ↦ read_vector fuel [] t
        | Start.abbreviated head t ↦ read_abbrev fuel head t
        | Start.literal b t ↦ pure (some (boolean b), t)
        | Start.atom ↦ read_atom (c ∷ rest)
      ]
    ]

    pub read_abbrev : ℕ → String → Text → M (Option Value × Text)
    read_abbrev zero head s = λ h. out_of_fuel
    read_abbrev (suc fuel) head s = do
      (x, rest) ← read_expr fuel s
      elim x [
        | none ↦ reader_error "unexpected EOF after abbreviation"
        | some v ↦ do out ← list_from (symbol head ∷ (v ∷ [])); pure (some out, rest)
      ]

    -- The items that were read are held from the last to the first.
    pub read_list : ℕ → List Value → Text → M (Option Value × Text)
    read_list zero items s = λ h. out_of_fuel
    read_list (suc fuel) items s = elim (skip false s) [
      | [] ↦ reader_error "unexpected EOF in list"
      | c ∷ rest ↦ elim (code c == b')') [
        | true ↦ do out ← list_onto (reverse items) nil; pure (some out, rest)
        | false ↦ elim (at_dot c rest) [
          | true ↦ read_tail fuel items rest
          | false ↦ do
            (x, after) ← read_expr fuel (c ∷ rest)
            elim x [
              | none ↦ reader_error "unexpected EOF in list"
              | some v ↦ read_list fuel (v ∷ items) after
            ]
        ]
      ]
    ]

    -- What follows the dot of a list.
    pub read_tail : ℕ → List Value → Text → M (Option Value × Text)
    read_tail zero items s = λ h. out_of_fuel
    read_tail (suc fuel) [] s = reader_error "misplaced '.' in list"
    read_tail (suc fuel) (item ∷ items) s = do
      (x, after) ← read_expr fuel s
      elim x [
        | none ↦ reader_error "unexpected EOF after '.'"
        | some tail ↦ elim (skip false after) [
          | [] ↦ reader_error "unexpected EOF in list"
          | c ∷ rest ↦ elim (code c == b')') [
            | true ↦ do out ← list_onto (reverse (item ∷ items)) tail; pure (some out, rest)
            | false ↦ reader_error "expected ')' after dotted tail"
          ]
        ]
      ]

    pub read_vector : ℕ → List Value → Text → M (Option Value × Text)
    read_vector zero items s = λ h. out_of_fuel
    read_vector (suc fuel) items s = elim (skip false s) [
      | [] ↦ reader_error "unexpected EOF in vector literal"
      | c ∷ rest ↦ elim (code c == b')') [
        | true ↦ do v ← alloc (vector (reverse items)); pure (some v, rest)
        | false ↦ do
          (x, after) ← read_expr fuel (c ∷ rest)
          elim x [
            | none ↦ reader_error "unexpected EOF in vector literal"
            | some v ↦ read_vector fuel (v ∷ items) after
          ]
      ]
    ]

  -- The loop of `read_all`.
  unfoldable pub read_forms : ℕ → Text → M (List Value)
  unfolding read_expr
  read_forms zero s = λ h. out_of_fuel
  read_forms (suc fuel) s = do
    (x, rest) ← read_expr (2 * length s + 2) s
    elim x [ none ↦ pure [] | some v ↦ do vs ← read_forms fuel rest; pure (v ∷ vs) ]

  unfoldable pub read_all : Text → M (List Value)
  unfolding read_forms reading
  read_all s h = reading (read_forms (suc (length s)) s h)
