-- ===== src/Primitives/Strings/Laws.antt =====
-- Strings and the lists of their characters, symbols and their names, and the order of strings.
use secd_scheme.Prelude.{
  ℕ, zero, suc, ◌+◌, ◌≤◌, ◌<◌, ◌≡◌, refl, some, List, [], ◌∷◌, length, Addr, fetch, fetch-alloc,
  fetch-alloc_self, String, Text, arith,
}
use secd_scheme.Value.{Value, nil, object, Object, pair, string, Heap}
use secd_scheme.Effect.{ok, pure, gets, alloc, ◌>>=◌}
use secd_scheme.Pairs.{make_pair, pair_of}
use secd_scheme.Syntax.{look, in_range}
use secd_scheme.Primitives.{need_args, arg}
use secd_scheme.Primitives.Strings.{
  string_text, str_of, list_of_chars, chars_of_list, prim_string_to_list, prim_list_to_string,
}

-- A list of strings of length 1.
abbrev CharChain : List Object → Value → Text → Type 0
CharChain os l [] = l ≡ nil
CharChain os l (c ∷ s) =
    (a : Addr) × (b : Addr) × (d : Value) × (l ≡ object a)
    × (fetch a os ≡ some (pair (object b) d))
    × (fetch b os ≡ some (string (c ∷ [])))
    × CharChain os d s

CharChain-alloc :
    (os : List Object) (o : Object) (l : Value) (s : Text)
    → CharChain os l s
    → CharChain (o ∷ os) l s
CharChain-alloc os o l [] e = e
CharChain-alloc os o l (c ∷ s) (a, b, d, e, f, g, k) =
    (a, b, d, e, fetch-alloc a o os f, fetch-alloc b o os g, CharChain-alloc os o d s k)

list_of_chars-CharChain :
    (s : Text) (h : Heap)
    → (l : Value) × (h' : Heap) × (list_of_chars s h ≡ ok l h')
      × (length s + length h.objects ≤ length h'.objects)
      × CharChain h'.objects l s
unfolding list_of_chars make_pair alloc pure ◌>>=◌
list_of_chars-CharChain [] h = (nil, h, refl, omega arith, refl)
list_of_chars-CharChain (c ∷ s) h =
    let (l, h1, e, le, k) = list_of_chars-CharChain s h in
    let b = length h1.objects in
    let os : List Object = string (c ∷ []) ∷ h1.objects in
    let cell : Object = pair (object b) l in
    (
      object (length os),
      record h1 { objects = cell ∷ os },
      rw e refl,
      omega (arith, le),
      (
        length os,
        b,
        l,
        refl,
        fetch-alloc_self cell os,
        fetch-alloc b cell os (fetch-alloc_self (string (c ∷ [])) h1.objects),
        CharChain-alloc os cell l s (CharChain-alloc h1.objects (string (c ∷ [])) l s k),
      ),
    )

pub str_of-string :
    (h : Heap) (a : Addr) (s : Text) (who : String)
    → fetch a h.objects ≡ some (string s)
    → str_of (object a) who h ≡ ok s h
unfolding str_of string_text gets pure ◌>>=◌
str_of-string h a s who e = rw e refl

look-pair :
    (h : Heap) (a : Addr) (x d : Value)
    → fetch a h.objects ≡ some (pair x d)
    → look (object a) h ≡ ok (some (x, d)) h
unfolding look pair_of gets
look-pair h a x d e = rw e refl

chars_of_list-CharChain :
    (fuel : ℕ) (h : Heap) (l : Value) (s : Text)
    → CharChain h.objects l s
    → length s < fuel
    → chars_of_list fuel l h ≡ ok s h
unfolding chars_of_list pure ◌>>=◌
chars_of_list-CharChain zero h l s k lt = absurd (omega (arith, lt))
chars_of_list-CharChain (suc fuel) h l [] e lt = rw e refl
chars_of_list-CharChain (suc fuel) h l (c ∷ s) (a, b, d, e, f, g, k) lt =
    rw
      (
        e,
        look-pair h a (object b) d f,
        str_of-string h b (c ∷ []) "list->string" g,
        chars_of_list-CharChain fuel h d s k (omega (arith, lt)),
      )
      refl

-- `list->string` of what `string->list` returns is a new string of the same characters, whatever string
-- it is, with no error and enough fuel.
pub list_to_string-string_to_list :
    (h : Heap) (a : Addr) (s : Text)
    → fetch a h.objects ≡ some (string s)
    → (l : Value) × (h1 : Heap) × (b : Addr) × (h2 : Heap) × (prim_string_to_list (object a ∷ []) h
        ≡ ok l h1)
      × (prim_list_to_string (l ∷ []) h1 ≡ ok (object b) h2)
      × (fetch b h2.objects ≡ some (string s))
unfolding prim_string_to_list prim_list_to_string need_args arg in_range alloc gets pure ◌>>=◌
list_to_string-string_to_list h a s e =
    let (l, h1, made, le, k) = list_of_chars-CharChain s h in
    (
      l,
      h1,
      length h1.objects,
      record h1 { objects = string s ∷ h1.objects },
      rw (str_of-string h a s "string->list" e) made,
      rw (chars_of_list-CharChain (suc (length h1.objects)) h1 l s k (omega (arith, le))) refl,
      fetch-alloc_self (string s) h1.objects,
    )
