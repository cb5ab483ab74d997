-- ===== src/Structure/Variables/Field.antt =====
-- VariableField of frontend/src/components/VariableField.tsx: the text, the popover with its input,
-- and the cursor that the animation frame after an insertion sets.
use Prim.Native.String
use Prim.Native.String.{[], ◌∷◌}
use text.Mathlib.TextLemmas.{nil-append, cons-append, append_assoc}
use procovar_notify.Prelude.{
  String, ℕ, zero, suc, ◌+◌, ◌≤◌, ◌≡◌, refl, sym, ap, ◌∙◌, inl, inr, Bool, true, false, Option,
  none, some, [], ◌∷◌, ◌==◌, if◌then◌else◌, Bool-cases, eq_iff, arith,
}
use procovar_notify.Structure.Variables.{
  trim, size, is_name, first_segment, includes, detect_variables_in_text,
}
use procovar_notify.Structure.Variables.Scan.{NoOpen, in_braces}
use procovar_notify.Structure.Variables.Insertion.{
  Selection, clean_name, slice_to, slice_from, or_size, insert_token, insert_variable,
  insert_variable-detected, text_before, text_behind, insert_token_lem,
}

pub record Field : Type 0 where
  pub value : String
  pub is_open : Bool
  pub name : String
  pub caret : Option ℕ

-- `start + token.length`, if the element is there.
unfoldable pub caret_after : Selection → String → String → Option ℕ → Option ℕ
unfolding size
caret_after none clean value caret = caret
caret_after (some (start, end_)) clean value caret =
    some (or_size start value + size (in_braces clean []))

unfoldable pub insert : Selection → String → Field → Field
unfolding clean_name insert_token caret_after
insert selection var_name f = if clean_name var_name == "" then f else record {
  value = insert_token selection (clean_name var_name) f.value;
  is_open = false;
  name = "";
  caret = caret_after selection (clean_name var_name) f.value f.caret;
}

-- `disabled={!name.trim()}`
unfoldable pub is_disabled : Field → Bool
unfolding trim
is_disabled f = trim f.name == ""

pub data FieldEvent : Type 0 where
  edits : (value : String) → FieldEvent
  opens : Bool → FieldEvent
  names : (name : String) → FieldEvent
  picks : Selection → (used : String) → FieldEvent
  submits : Selection → FieldEvent

unfoldable pub on_field : FieldEvent → Field → Field
unfolding insert is_disabled
on_field (edits value) f = record f { value = value }
on_field (opens b) f = record f { is_open = b }
on_field (names name) f = record f { name = name }
on_field (picks selection used) f = insert selection used f
on_field (submits selection) f = if is_disabled f then f else insert selection f.name f

size-append : (s t : String) → size (String.◌++◌ s t) ≡ size s + size t
unfolding size
size-append [] t = rw nil-append (omega arith)
size-append (c ∷ s) t = rw cons-append (omega (arith, size-append s t))

slice_to-append : (s t : String) (n : ℕ) → n ≡ size s → slice_to n (String.◌++◌ s t) ≡ s
unfolding slice_to size
slice_to-append [] t zero e = refl
slice_to-append [] t (suc n) e = absurd (omega arith)
slice_to-append (c ∷ s) t zero e = absurd (omega arith)
slice_to-append (c ∷ s) t (suc n) e =
    rw cons-append (ap (λ u. ◌∷◌ c u) (slice_to-append s t n (omega arith)))

slice_from-append : (s t : String) (n : ℕ) → n ≡ size s → slice_from n (String.◌++◌ s t) ≡ t
unfolding slice_from size
slice_from-append [] t zero e = nil-append t
slice_from-append [] t (suc n) e = absurd (omega arith)
slice_from-append (c ∷ s) t zero e = absurd (omega arith)
slice_from-append (c ∷ s) t (suc n) e = rw cons-append (slice_from-append s t n (omega arith))

size-slice_to : (n : ℕ) (s : String) → n ≤ size s → size (slice_to n s) ≡ n
unfolding slice_to size
size-slice_to zero s h = refl
size-slice_to (suc n) [] h = absurd (omega arith)
size-slice_to (suc n) (c ∷ s) h = ap suc (size-slice_to n s (omega arith))

in_braces-append : (name rest : String) → String.◌++◌ (in_braces name []) rest ≡ in_braces name rest
in_braces-append name rest =
    let closed : String.◌++◌ "}}" rest ≡ ◌∷◌ "}" (◌∷◌ "}" rest) =
      cons-append _ _ rest
      ∙ ap (λ u. ◌∷◌ "}" u) (cons-append _ _ rest ∙ ap (λ u. ◌∷◌ "}" u) (nil-append rest)) in
    cons-append _ _ rest
    ∙ ap (λ u. ◌∷◌ "{" u)
        (cons-append _ _ rest
          ∙ ap (λ u. ◌∷◌ "{" u) (append_assoc name "}}" rest ∙ ap (λ u. String.◌++◌ name u) closed))

-- The text around the cursor once the token is in.
inserted_around :
    (start end_ : Option ℕ) (clean value : String)
    → or_size start value ≤ size value
    → let token = in_braces clean [] in
      let k = or_size start value + size token in
      let result = insert_token (some (start, end_)) clean value in
      let before = text_before (some (start, end_)) value in
      (slice_to k result ≡ String.◌++◌ before token)
      × (slice_from k result ≡ text_behind (some (start, end_)) value)
inserted_around start end_ clean value h =
    let token = in_braces clean [] in
    let before = text_before (some (start, end_)) value in
    let behind = text_behind (some (start, end_)) value in
    let k = or_size start value + size token in
    let whole : insert_token (some (start, end_)) clean value
        ≡ String.◌++◌ (String.◌++◌ before token) behind =
      insert_token_lem (some (start, end_)) clean value
      ∙ ap (λ u. String.◌++◌ before u) (sym (in_braces-append clean behind))
      ∙ sym (append_assoc before token behind) in
    let at_end : k ≡ size (String.◌++◌ before token) =
      omega (arith, size-append before token, size-slice_to (or_size start value) value h) in
    (
      ap (slice_to k) whole ∙ slice_to-append (String.◌++◌ before token) behind k at_end,
      ap (slice_from k) whole ∙ slice_from-append (String.◌++◌ before token) behind k at_end,
    )

not_blank : (clean : String) → is_name (first_segment clean) ≡ true → (clean == "") ≡ false
unfolding is_name first_segment
not_blank clean h = elim (Bool-cases (clean == "")) [
  | inl blank ↦ let empty = (eq_iff clean "").0 blank in cc (rw empty at h)
  | inr e ↦ e
]

-- What is left of the input after cleaning has a part before its first dot that is a name; the
-- field's element is there, its selection starts within the text, and the text before it holds
-- no "{". Then an insertion closes the popover and empties its input, the new text is the text
-- before the selection with the name in braces, then the text behind the selection, the cursor stands
-- between the two, and the part before the first dot is a variable of the new text.
pub insert-detected :
    (start end_ : Option ℕ) (var_name : String) (f : Field)
    → is_name (first_segment (clean_name var_name)) ≡ true
    → or_size start f.value ≤ size f.value
    → NoOpen (text_before (some (start, end_)) f.value)
    → let f' = insert (some (start, end_)) var_name f in
      (f'.is_open ≡ false)
      × (f'.name ≡ "")
      × (k : ℕ) × (f'.caret ≡ some k)
      × (slice_to k f'.value
          ≡ String.◌++◌
              (text_before (some (start, end_)) f.value)
              (in_braces (clean_name var_name) []))
      × (slice_from k f'.value ≡ text_behind (some (start, end_)) f.value)
      × (includes (first_segment (clean_name var_name)) (detect_variables_in_text f'.value) ≡ true)
unfolding insert caret_after
insert-detected start end_ var_name f named within no_open =
    let some_name = not_blank (clean_name var_name) named in
    let (upto, behind) = inserted_around start end_ (clean_name var_name) f.value within in
    let result = insert_token (some (start, end_)) (clean_name var_name) f.value in
    let gives : insert_variable (some (start, end_)) var_name f.value ≡ some result =
      unfold insert_variable in rw some_name refl in
    rw some_name (
      refl,
      refl,
      or_size start f.value + size (in_braces (clean_name var_name) []),
      refl,
      upto,
      behind,
      insert_variable-detected (some (start, end_)) var_name f.value result gives no_open named,
    )
