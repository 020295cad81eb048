-- ===== src/Safety/Data/Texts.antt =====
-- The primitives on strings and vectors, and the texts of numbers, are safe.
use secd_scheme.Prelude.{ℕ, zero, suc, none, some, List, [], ◌∷◌, String, ℤ, pos, negsuc, Text}
use secd_scheme.Value.{Value, nil, integer, flonum, symbol, object, string, vector}
use secd_scheme.Effect.{internal_error, alloc}
use secd_scheme.Primitives.Numerals.{radix_of, given_radix, number_text}
use secd_scheme.Primitives.Strings.{
  string_text, str_of, char_of, string_size, fill_char, append_texts, index_between, end_of,
  list_of_chars, chars_of_list, symbol_name,
}
use secd_scheme.Primitives.Vectors.{items_of, vec_of, ll_of, index_below, count_of}
use secd_scheme.Safety.Actions.{faults}
use secd_scheme.Safety.Sound.{
  Sound, sound_rules, Sound-pure, Sound-throw, Sound-fuel, Sound-gets, Sound-if, Sound-bind,
  Sound-make_pair,
}
use secd_scheme.Safety.Expanding.{Sound-look}
use secd_scheme.Safety.Rules.{Sound-need_args, Sound-alloc, Sound-option}
use secd_scheme.Safety.Data.Numbers.{Sound-num_of}

pub Sound-string_text : (v : Value) → Sound (string_text v)
unfolding string_text
Sound-string_text (object a) = Sound-gets _
Sound-string_text _ = Sound-pure none

pub Sound-str_of : (v : Value) (who : String) → Sound (str_of v who)
unfolding str_of
Sound-str_of v who =
    Sound-bind _ _ (Sound-string_text v) (elim [ none ↦ Sound-throw _ | some t ↦ Sound-pure t ])

pub Sound-items_of : (v : Value) → Sound (items_of v)
unfolding items_of
Sound-items_of (object a) = Sound-gets _
Sound-items_of _ = Sound-pure none

pub Sound-vec_of : (v : Value) (who : String) → Sound (vec_of v who)
unfolding vec_of
Sound-vec_of v who =
    Sound-bind _ _ (Sound-items_of v) (elim [ none ↦ Sound-throw _ | some t ↦ Sound-pure t ])

pub Sound-char_of : (s : Text) (who : String) → Sound (char_of s who)
unfolding char_of
Sound-char_of [] who = Sound-throw _
Sound-char_of (c ∷ s) who = Sound-pure c

pub Sound-ll_of : (v : Value) (who : String) → Sound (ll_of v who)
unfolding ll_of
Sound-ll_of (integer (pos n)) who = Sound-if _ _ _ (Sound-pure _) (Sound-throw _)
Sound-ll_of (integer (negsuc n)) who = Sound-if _ _ _ (Sound-pure _) (Sound-throw _)
Sound-ll_of _ who = Sound-throw _

pub Sound-index_below : (z : ℤ) (n : ℕ) (who : String) → Sound (index_below z n who)
unfolding index_below
Sound-index_below (pos i) n who = Sound-if _ _ _ (Sound-pure _) (Sound-throw _)
Sound-index_below (negsuc i) n who = Sound-throw _

pub Sound-index_between : (z : ℤ) (lo hi : ℕ) → Sound (index_between z lo hi)
unfolding index_between
Sound-index_between (pos i) lo hi = Sound-if _ _ _ (Sound-pure _) (Sound-throw _)
Sound-index_between (negsuc i) lo hi = Sound-throw _

pub Sound-count_of : (z : ℤ) (who : String) → Sound (count_of z who)
unfolding count_of
Sound-count_of (pos n) who = Sound-pure n
Sound-count_of (negsuc n) who = Sound-throw _

pub Sound-string_size : (z : ℤ) → Sound (string_size z)
unfolding string_size
Sound-string_size (pos n) = Sound-if _ _ _ (Sound-pure _) (Sound-throw _)
Sound-string_size (negsuc n) = Sound-throw _

pub Sound-string : (s : Text) → Sound (alloc (string s))
Sound-string s = Sound-alloc (string s) (λ os fs. tt)

pub Sound-vector : (vs : List Value) → Sound (alloc (vector vs))
Sound-vector vs = Sound-alloc (vector vs) (λ os fs. tt)

pub ruleset text_rules = (
  sound_rules, Sound-need_args, Sound-str_of, Sound-vec_of, Sound-char_of, Sound-ll_of,
  Sound-index_below, Sound-index_between, Sound-count_of, Sound-string_size, Sound-string,
  Sound-vector,
)

pub Sound-fill_char : (args : List Value) → Sound (fill_char args)
unfolding fill_char
Sound-fill_char (len ∷ (v ∷ [])) = search text_rules depth 8
Sound-fill_char [] = Sound-pure _
Sound-fill_char (len ∷ []) = Sound-pure _
Sound-fill_char (len ∷ (v ∷ (w ∷ vs))) = Sound-pure _

pub Sound-end_of : (args : List Value) (lo size : ℕ) → Sound (end_of args lo size)
unfolding end_of
Sound-end_of (s ∷ (from ∷ (to ∷ []))) lo size = search text_rules depth 8
Sound-end_of [] lo size = Sound-pure _
Sound-end_of (a ∷ []) lo size = Sound-pure _
Sound-end_of (a ∷ (b ∷ [])) lo size = Sound-pure _
Sound-end_of (a ∷ (b ∷ (c ∷ (d ∷ vs)))) lo size = Sound-pure _

pub Sound-append_texts : (vs : List Value) → Sound (append_texts vs)
unfolding append_texts
Sound-append_texts [] = Sound-pure []
Sound-append_texts (v ∷ vs) =
    Sound-bind _ _ (Sound-str_of v _)
      (λ s. Sound-bind _ _ (Sound-append_texts vs) (λ t. Sound-pure _))

pub Sound-list_of_chars : (s : Text) → Sound (list_of_chars s)
unfolding list_of_chars
Sound-list_of_chars [] = Sound-pure nil
Sound-list_of_chars (c ∷ s) =
    Sound-bind _ _ (Sound-list_of_chars s)
      (λ rest. Sound-bind _ _ (Sound-string _) (λ v. Sound-make_pair v rest))

pub Sound-chars_of_list : (fuel : ℕ) (ls : Value) → Sound (chars_of_list fuel ls)
unfolding chars_of_list
Sound-chars_of_list zero ls = Sound-fuel
Sound-chars_of_list (suc fuel) nil = Sound-pure []
Sound-chars_of_list (suc fuel) ls = Sound-bind _ _ (Sound-look ls) (elim [
  | none ↦ Sound-throw _
  | some (a, d) ↦
      Sound-bind _ _ (Sound-str_of a _)
        (λ t. Sound-bind _ _ (Sound-chars_of_list fuel d) (λ s. Sound-pure _))
])

pub Sound-symbol_name : (v : Value) → Sound (symbol_name v)
unfolding symbol_name internal_error
Sound-symbol_name (symbol s) = Sound-pure _
Sound-symbol_name _ = record { at = λ h good. faults tt }

pub Sound-radix_of : (v : Value) (who : String) → Sound (radix_of v who)
unfolding radix_of
Sound-radix_of v who =
    Sound-bind _ _ (Sound-num_of who v)
      (elim [ pos n ↦ Sound-if _ _ _ (Sound-pure n) (Sound-throw _) | negsuc n ↦ Sound-throw _ ])

pub Sound-given_radix : (args : List Value) (who : String) → Sound (given_radix args who)
unfolding given_radix
Sound-given_radix (v ∷ (r ∷ [])) who = Sound-radix_of r who
Sound-given_radix [] who = Sound-pure 10
Sound-given_radix (v ∷ []) who = Sound-pure 10
Sound-given_radix (v ∷ (r ∷ (s ∷ vs))) who = Sound-pure 10

pub Sound-number_text :
    (shortest : ℕ → Text) (v : Value) (args : List Value) → Sound (number_text shortest v args)
unfolding number_text
Sound-number_text shortest (integer z) args = search (sound_rules, Sound-given_radix) depth 8
Sound-number_text shortest (flonum d) args = search (sound_rules, Sound-given_radix) depth 8
Sound-number_text shortest _ args = Sound-throw _
