-- ===== src/Printer.antt =====
-- scheme14/scheme14.cpp, section 4: the text of a value. The path holds the pairs and the vectors whose
-- text is being written, and a value that is met again below itself is cut off there. What the
-- library makes of a double (`to_chars`) and the rendering of a message are parameters.
pub mod Data
use secd_scheme.Prelude.{
  ℕ, zero, suc, ◌+◌, ◌-◌, ◌/◌, ◌%◌, ◌^◌, Bool, true, false, ◌&&◌, ◌||◌, not, Option, none, some,
  List, [], ◌∷◌, ◌++◌, Addr, fetch, ◌==◌, if◌then◌else◌, String, ℤ, pos, negsuc, Char, code, Text,
  chars, digits,
}
use secd_scheme.Value.{
  EnvName, interaction, report, null_env, Value, nil, eof, boolean, integer, flonum, symbol,
  primitive, special_form, environment, object, Template, template, Object, pair, string, vector,
  blank_closure, closure, continuation, macro, values, error_object, port, Message,
}
use secd_scheme.Pairs.{pair_of, is_nil}

-- `std::to_string` of a fixnum, and `str` of a bignum
unfoldable pub int_text : ℤ → Text
unfolding digits
int_text (pos n) = digits (suc n) n
int_text (negsuc n) = "-" ∷ digits (suc (suc n)) (suc n)

-- A double by its bits: the exponent is all ones for the infinities and for what is not a number.
unfoldable pub is_finite : ℕ → Bool
is_finite d = not ((d / 2 ^ 52) % 2048 == 2047)

unfoldable pub is_nan : ℕ → Bool
unfolding is_finite
is_nan d = not (is_finite d) && not (d % 2 ^ 52 == 0)

unfoldable pub is_negative : ℕ → Bool
is_negative d = d / 2 ^ 63 == 1

-- The text up to the first of the characters that are looked for, and the rest with that character.
unfoldable pub split_at : (Char → Bool) → Text → Text × Text
split_at p [] = ([], [])
split_at p (c ∷ s) =
    let (front, rest) = split_at p s in if p c then ([], c ∷ s) else (c ∷ front, rest)

unfoldable pub is_mark : ℕ → Char → Bool
is_mark m c = code c == m

unfoldable pub is_exponent : Char → Bool
is_exponent c = code c == b'e' || code c == b'E'

-- The zeros in front of an exponent's digits, of which one stays if there is no other digit.
unfoldable pub drop_zeros : Text → Text
drop_zeros [] = []
drop_zeros (c ∷ []) = c ∷ []
drop_zeros (c ∷ (d ∷ s)) =
    let rest = drop_zeros (d ∷ s) in if code c == b'0' then rest else c ∷ (d ∷ s)

unfoldable pub exponent_text : Text → Text
unfolding drop_zeros
exponent_text [] = []
exponent_text (c ∷ s) =
    if code c == b'-'
    then "-" ∷ drop_zeros s
    else if code c == b'+'
    then drop_zeros s
    else drop_zeros (c ∷ s)

-- What `format_flonum` makes of the shortest text that reads back.
unfoldable pub polish : Text → Text
unfolding split_at is_exponent is_mark exponent_text
polish s = elim ((split_at is_exponent s).1) [
  | [] ↦ if has_dot s then s else s ++ chars ".0"
  | c ∷ e ↦ (split_at is_exponent s).0 ++ ("e" ∷ exponent_text e)
]
  where
    has_dot : Text → Bool
    has_dot t = elim ((split_at (is_mark b'.') t).1) [ [] ↦ false | c ∷ u ↦ true ]

unfoldable pub env_text : EnvName → Text
env_text interaction = chars "#<environment:interaction>"
env_text report = chars "#<environment:scheme-report>"
env_text null_env = chars "#<environment:null>"

-- write_params
unfoldable pub names_text : Bool → List String → Text
names_text first [] = []
names_text first (x ∷ xs) = (if first then [] else " " ∷ []) ++ (chars x ++ names_text false xs)

unfoldable pub write_params : Template → Text
unfolding names_text
write_params (template ps none body name) = chars "(" ++ (names_text true ps ++ chars ")")
write_params (template [] (some r) body name) = chars "(" ++ (chars r ++ chars ")")
write_params (template (p ∷ ps) (some r) body name) =
    chars "(" ++ (names_text true (p ∷ ps) ++ (chars " . " ++ (chars r ++ chars ")")))

unfoldable pub closure_text : Option Object → Text
unfolding write_params
closure_text (some (closure t e)) = chars "#<closure:" ++ (write_params t ++ chars ">")
closure_text _ = chars "#<unknown>"

unfoldable pub macro_text : List Object → Value → Text
unfolding closure_text
macro_text os (object a) = chars "(MACRO " ++ (closure_text (fetch a os) ++ chars ")")
macro_text os _ = chars "#<unknown>"

unfoldable pub first_line : Text → Text
unfolding split_at is_mark
first_line s = (split_at (is_mark b'\n') s).0

abbrev pub joined : Option Text → Option Text → Option Text
joined none t = none
joined (some s) none = none
joined (some s) (some t) = some (s ++ t)

abbrev pub port_text : Bool → Bool → Text
port_text is_input true = chars "#<closed-port>"
port_text true false = chars "#<input-port>"
port_text false false = chars "#<output-port>"

-- The texts of the items, with a space before each but the first.
unfoldable pub write_items : (Value → Option Text) → Bool → List Value → Option Text
write_items write first [] = some []
write_items write first (v ∷ vs) =
    joined (some (if first then [] else " " ∷ [])) (joined (write v) (write_items write false vs))

-- whether the path holds an address
unfoldable pub on_path : Addr → List Addr → Bool
on_path a [] = false
on_path a (b ∷ path) = a == b || on_path a path

abbrev pub addr_of : Value → Addr
addr_of (object a) = a
addr_of _ = 0

module _ (shortest : ℕ → Text) where
  -- format_flonum
  unfoldable pub format_flonum : ℕ → Text
  unfolding is_nan is_finite is_negative polish
  format_flonum d =
      if is_nan d
      then chars "+nan.0"
      else if is_finite d
      then polish (shortest d)
      else if is_negative d
      then chars "-inf.0"
      else chars "+inf.0"

module _ (shortest : ℕ → Text) (render : Message → Text) where
  -- The text of a value that has no parts.
  unfoldable pub atom_text : Value → Text
  unfolding int_text format_flonum env_text
  atom_text nil = chars "NIL"
  atom_text eof = chars "#<eof>"
  atom_text (boolean b) = if b then chars "TRUE" else chars "FALSE"
  atom_text (integer z) = int_text z
  atom_text (flonum d) = format_flonum shortest d
  atom_text (symbol s) = chars s
  atom_text (primitive s) = chars "(PRIMITIVE " ++ (chars s ++ chars ")")
  atom_text (special_form s) = chars "(SPECIAL-FORM " ++ (chars s ++ chars ")")
  atom_text (environment e) = env_text e
  atom_text (object a) = chars "#<unknown>"

  -- The fuel is the depth of the calls; `none` is running out of it.
  unfoldable mutual
    unfolding atom_text write_items on_path closure_text macro_text first_line

    pub write_value : ℕ → List Object → List Addr → Value → Option Text
    write_value zero os path v = none
    write_value (suc fuel) os path (object a) = elim (fetch a os) [
      | none ↦ some (chars "#<unknown>")
      | some (pair x d) ↦ joined (some (chars "(")) (write_list fuel os path true (object a))
      | some (string s) ↦ some ("\"" ∷ s ++ chars "\"")
      | some (vector vs) ↦ elim (on_path a path) [
        | true ↦ some (chars "#<circular-vector>")
        | false ↦
            joined (some (chars "#("))
              (joined (write_items (write_value fuel os (a ∷ path)) true vs) (some (chars ")")))
      ]
      | some blank_closure ↦ some (chars "#<unknown>")
      | some (closure t e) ↦ some (closure_text (some (closure t e)))
      | some (continuation s) ↦ some (chars "#<continuation>")
      | some (macro transformer) ↦ some (macro_text os transformer)
      | some (values vs) ↦
          joined (some (chars "#<values"))
            (joined (write_items (write_value fuel os path) false vs) (some (chars ">")))
      | some (error_object m) ↦ some (chars "#<error " ++ (first_line (render m) ++ chars ">"))
      | some (port is_input is_closed) ↦ some (port_text is_input is_closed)
    ]
    write_value (suc fuel) os path v = some (atom_text v)

    -- The loop of `write_list`: what is left of a list, with the closing parenthesis.
    pub write_list : ℕ → List Object → List Addr → Bool → Value → Option Text
    write_list zero os path first ls = none
    write_list (suc fuel) os path first ls = elim (pair_of os ls) [
      | none ↦ elim (is_nil ls) [
        | true ↦ some (chars ")")
        | false ↦
            joined (some (chars " . ")) (joined (write_value fuel os path ls) (some (chars ")")))
      ]
      | some (x, d) ↦ elim (on_path (addr_of ls) path) [
        | true ↦ some (chars " . #<circular>)")
        | false ↦ joined (some (if first then [] else " " ∷ [])) (
            joined (write_value fuel os (addr_of ls ∷ path) x)
              (write_list fuel os (addr_of ls ∷ path) false d))
      ]
    ]

  -- to_string
  unfoldable pub to_string : ℕ → List Object → Value → Option Text
  unfolding write_value
  to_string fuel os v = write_value fuel os [] v

  -- to_display_string: the outermost string loses its quotes.
  unfoldable pub to_display_string : ℕ → List Object → Value → Option Text
  unfolding to_string
  to_display_string fuel os (object a) = elim (fetch a os) [
    | some (string s) ↦ some s
    | _ ↦ to_string fuel os (object a)
  ]
  to_display_string fuel os v = to_string fuel os v
