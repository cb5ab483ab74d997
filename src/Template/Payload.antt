-- ===== src/Template/Payload.antt =====
-- The payload of the request for a preview in frontend/src/pages/TemplateEditor.tsx.
use procovar_notify.Prelude.{String, ◌==◌, Option, none, some, List, [], ◌∷◌, if◌then◌else◌, Dict}
use procovar_notify.Template.Editor.{Editor}
use procovar_notify.Template.Markup.{set_test_value}

-- The fields of the test data are typed in, each edit with the name of the variable and the text.
unfoldable pub on_test_values : List (String × String) → Dict String → Dict String
unfolding set_test_value
on_test_values [] test_data = test_data
on_test_values ((name, val) ∷ edits) test_data =
    on_test_values edits (set_test_value name val test_data)

-- The text that was typed last for a variable.
abbrev pub last_text : String → List (String × String) → Option String
last_text name [] = none
last_text name ((field, text) ∷ edits) = elim (last_text name edits) [
  | some later ↦ some later
  | none ↦ if field == name then some text else none
]

abbrev or_else : Option String → Option String → Option String
or_else (some text) other = some text
or_else none other = other

-- What the server gets for a variable that is detected.
abbrev pub text_or : String → Option String → String
text_or example none = example
text_or example (some text) = text
