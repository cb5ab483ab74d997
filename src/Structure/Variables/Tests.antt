-- ===== src/Structure/Variables/Tests.antt =====
-- The theorems on the variables at short texts.
use procovar_notify.Prelude.{ℕ, false, ◌≡◌, refl, true, ◌||◌, none, some, [], ◌∷◌, arith}
use procovar_notify.Structure.{Structure, blocks_of}
use procovar_notify.Structure.Variables.{
  size, includes, detect_variables_in_text, detect_variables, is_name, first_segment, is_space,
}
use procovar_notify.Structure.Variables.Names.{AreNames, detect_variables-AreNames}
use procovar_notify.Structure.Variables.Sources.{
  mentions, mentioned_in_blocks, includes-detect_variables,
}
use procovar_notify.Structure.Variables.Field.{Field, insert, insert-detected}
use procovar_notify.Structure.Variables.Insertion.{
  insert_variable, is_word_char, slice_to, slice_from,
}

abbrev sms : Structure
sms = record {
  theme = none;
  rows = none;
  sections = some (
      record { id = "s1"; type = "text"; props = ("text", "Hola {{ user.name }}, {{#if x}}") ∷ [] }
      ∷ []);
}

detected_user : detect_variables sms "{{code}}" ≡ "code" ∷ "user" ∷ []
unfolding detect_variables is_space
detected_user = refl

inserted_text :
    insert_variable (some (some 2, some 4)) " user.name! " "a xx!" ≡ some "a {{user.name}}!"
unfolding insert_variable is_space is_word_char
inserted_text = refl

abbrev field : Field
field = record { value = "a xx!"; is_open = true; name = " user.name! "; caret = none }

abbrev filled : Field
filled = record { value = "a {{user.name}}!"; is_open = false; name = ""; caret = some 15 }

filled_lem : insert (some (some 2, some 4)) " user.name! " field ≡ filled
unfolding insert is_space is_word_char
filled_lem = refl

-- The button of a used variable that is not made of word characters inserts another one.
other_variable : insert_variable (some (some 0, some 0)) "user-name" "" ≡ some "{{username}}"
unfolding insert_variable is_space is_word_char
other_variable = refl

detected_dash : detect_variables_in_text "{{user-name}}" ≡ "user-name" ∷ []
unfolding detect_variables_in_text is_space
detected_dash = refl

insert-detected_example :
    (filled.is_open ≡ false)
    × (filled.name ≡ "")
    × (k : ℕ) × (filled.caret ≡ some k)
    × (slice_to k filled.value ≡ "a {{user.name}}")
    × (slice_from k filled.value ≡ "!")
    × (includes "user" (detect_variables_in_text filled.value) ≡ true)
unfolding insert is_space is_word_char first_segment is_name slice_to slice_from size
insert-detected_example =
    insert-detected (some 2) (some 4) " user.name! " field refl (omega arith)
      ((λ e. omega (arith, e)), ((λ e. omega (arith, e)), tt))

detect_variables-AreNames_example : AreNames (detect_variables sms "{{code}}")
detect_variables-AreNames_example = detect_variables-AreNames sms "{{code}}"

includes-detect_variables_example :
    includes "user" (detect_variables sms "{{code}}")
    ≡ (mentions "user" "{{code}}" || mentioned_in_blocks "user" (blocks_of sms))
includes-detect_variables_example = includes-detect_variables "user" sms "{{code}}"
