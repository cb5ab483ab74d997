-- ===== src/Structure/Variables/Insertion.antt =====
-- `insert` of frontend/src/components/VariableField.tsx, which puts `{{name}}` at the cursor, and
-- what `detectVariablesInText` then finds.
use Prim.Native.Char.{Char, code}
use Prim.Native.String
use Prim.Native.String.{[], ◌∷◌}
use procovar_notify.Prelude.{
  String, ℕ, zero, suc, ◌≡◌, refl, ap, sym, inl, inr, Bool, true, ◌&&◌, ◌||◌, Option, none, some,
  [], ◌∷◌, ◌==◌, eq_refl, eqb, leb, if◌then◌else◌, arith, Bool-cases,
}
use procovar_notify.Structure.Variables.{
  trim, size, is_name, name_of, first_segment, includes, is_space, detect_variables_in_text,
}
use procovar_notify.Structure.Variables.Scan.{
  NoOpen, IsPlain, ArePlain, in_braces, groups-append, groups-in_braces, trim-plain,
}
use procovar_notify.Structure.Variables.Sources.{mentions, mentions-gives}
use mathlib.Core.Option.{some-injective}

-- `[a-zA-Z0-9_.]`
unfoldable pub is_word_char : Char → Bool
is_word_char c =
    (leb b'a' (code c) && leb (code c) b'z')
    || (leb b'A' (code c) && leb (code c) b'Z')
    || (leb b'0' (code c) && leb (code c) b'9')
    || eqb (code c) b'_'
    || eqb (code c) b'.'

-- `replace(/[^a-zA-Z0-9_.]/g, "")`
unfoldable pub only_word_chars : String → String
only_word_chars [] = []
only_word_chars (c ∷ s) = if is_word_char c then c ∷ only_word_chars s else only_word_chars s

unfoldable pub clean_name : String → String
unfolding trim only_word_chars
clean_name var_name = only_word_chars (trim var_name)

-- `slice(0, n)` and `slice(n)`
unfoldable pub slice_to : ℕ → String → String
slice_to zero s = []
slice_to (suc n) [] = []
slice_to (suc n) (c ∷ s) = c ∷ slice_to n s

unfoldable pub slice_from : ℕ → String → String
slice_from zero s = s
slice_from (suc n) [] = []
slice_from (suc n) (c ∷ s) = slice_from n s

-- The field's element: absent, or there with `selectionStart` and `selectionEnd`, each of which
-- may be null.
abbrev pub Selection : Type 0
Selection = Option (Option ℕ × Option ℕ)

abbrev pub or_size : Option ℕ → String → ℕ
or_size none value = size value
or_size (some n) value = n

-- The text handed to `onChange`.
unfoldable pub insert_token : Selection → String → String → String
unfolding size slice_to slice_from
insert_token none clean value = String.◌++◌ value (in_braces clean [])
insert_token (some (start, end_)) clean value =
    String.◌++◌ (slice_to (or_size start value) value)
      (in_braces clean (slice_from (or_size end_ value) value))

-- `none` if nothing is inserted.
unfoldable pub insert_variable : Selection → String → String → Option String
unfolding clean_name insert_token
insert_variable selection var_name value =
    if clean_name var_name == ""
    then none
    else some (insert_token selection (clean_name var_name) value)

is_word_char-IsPlain : (c : Char) → is_word_char c ≡ true → IsPlain c
unfolding is_word_char is_space
is_word_char-IsPlain c h =
    (ground (arith, h), ground (arith, h), ground (arith, h), ground (arith, h))

only_word_chars-ArePlain : (s : String) → ArePlain (only_word_chars s)
unfolding only_word_chars
only_word_chars-ArePlain [] = tt
only_word_chars-ArePlain (c ∷ s) = elim (Bool-cases (is_word_char c)) [
  | inl e ↦ rw e (is_word_char-IsPlain c e, only_word_chars-ArePlain s)
  | inr e ↦ rw e (only_word_chars-ArePlain s)
]

clean_name-ArePlain : (var_name : String) → ArePlain (clean_name var_name)
unfolding clean_name
clean_name-ArePlain var_name = only_word_chars-ArePlain _

-- The text before the cursor and the text behind the selection.
abbrev pub text_before : Selection → String → String
text_before none value = value
text_before (some (start, end_)) value = slice_to (or_size start value) value

abbrev pub text_behind : Selection → String → String
text_behind none value = []
text_behind (some (start, end_)) value = slice_from (or_size end_ value) value

pub insert_token_lem :
    (selection : Selection) (clean value : String)
    → insert_token selection clean value
      ≡ String.◌++◌ (text_before selection value) (in_braces clean (text_behind selection value))
unfolding insert_token
insert_token_lem none clean value = refl
insert_token_lem (some (start, end_)) clean value = refl

name_of-plain : (clean : String) → ArePlain clean → name_of clean ≡ first_segment clean
unfolding name_of
name_of-plain [] h = refl
name_of-plain (c ∷ s) h = ap first_segment (trim-plain c s h)

mentions-in_braces :
    (before clean behind : String)
    → NoOpen before
    → ArePlain clean
    → is_name (first_segment clean) ≡ true
    → mentions (first_segment clean) (String.◌++◌ before (in_braces clean behind)) ≡ true
unfolding is_name first_segment
mentions-in_braces before [] behind ho hp hn = ground (arith, hn)
mentions-in_braces before (c ∷ s) behind ho hp hn =
    rw
      (
        mentions-gives,
        groups-append before (in_braces (c ∷ s) behind) ho,
        groups-in_braces c s behind hp,
      )
      (rw (name_of-plain (c ∷ s) hp) (rw (hn, eq_refl (first_segment (c ∷ s))) refl))

inserted :
    (selection : Selection) (var_name value result : String)
    → insert_variable selection var_name value ≡ some result
    → insert_token selection (clean_name var_name) value ≡ result
unfolding insert_variable
inserted selection var_name value result e = elim (Bool-cases (clean_name var_name == "")) [
  | inl b ↦ cc (rw b at e)
  | inr b ↦ some-injective _ _ (rw b at e)
]

-- If the text before the cursor holds no "{" and the name that is left of the input after cleaning
-- has a part before its first dot, the text that `insert` hands on mentions that part.
pub insert_variable-detected :
    (selection : Selection) (var_name value result : String)
    → insert_variable selection var_name value ≡ some result
    → NoOpen (text_before selection value)
    → is_name (first_segment (clean_name var_name)) ≡ true
    → includes (first_segment (clean_name var_name)) (detect_variables_in_text result) ≡ true
insert_variable-detected selection var_name value result e ho hn =
    rw (sym (inserted selection var_name value result e), insert_token_lem)
      (mentions-in_braces (text_before selection value) (clean_name var_name)
        (text_behind selection value) ho (clean_name-ArePlain var_name) hn)
