-- ===== src/Template/PageTests.antt =====
-- The theorems on the form of the template editor at small runs.
use procovar_notify.Prelude.{present, String, ◌≡◌, refl, false, none, some, List, [], ◌∷◌}
use procovar_notify.Structure.{Structure}
use procovar_notify.Template.Normalize.{no_theme}
use procovar_notify.Template.Body.{visual}
use procovar_notify.Template.Editor.{Form, Editor}
use procovar_notify.Template.Page.{
  PageEvent, clicks, edits, touches, succeeds, fails, is_clear, is_disabled, click_save, on_pages,
  first_page,
}
use procovar_notify.Template.Submit.{IsOnce, click_save-is_clear, on_pages-IsOnce}
use procovar_notify.Template.Channels.{
  ContentEdit, types_text, types_act_text, types_act_url, fields, on_edits, put_all,
  on_edits-fields,
}

abbrev message : Structure
message = record {
  theme = some no_theme;
  rows = none;
  sections =
      some (record { id = "s1"; type = "text"; props = ("text", "Hola {{firstName}}") ∷ [] } ∷ []);
}

abbrev form : Form
form = record {
  key = "";
  name = "Bienvenida";
  subject = "{{appName}}";
  locale = "es";
  base_template_id = "";
  structure = message;
  variables = [];
  body = "";
}

abbrev editor : Editor
editor = record {
  editing = false;
  channel = "PUSH";
  editor_mode = visual;
  selected_base = "";
  revert_confirm_open = false;
  form = form;
  bases = [];
  preview_body = none;
}

abbrev named : Editor
named = record editor { form = record form { key = "welcome" } }

abbrev run : List PageEvent
run =
    touches "key"
    ∷ clicks
    ∷ edits named
    ∷ clicks
    ∷ clicks
    ∷ fails "no"
    ∷ clicks
    ∷ succeeds
    ∷ clicks
    ∷ []

on_pages-IsOnce_example : IsOnce (on_pages run (first_page editor false))
on_pages-IsOnce_example = on_pages-IsOnce run editor false

enabled : is_disabled (first_page editor false) ≡ false
unfolding is_disabled first_page
enabled = refl

click_save-is_clear_example :
    present (click_save (first_page editor false)).1
    ≡ is_clear (click_save (first_page editor false)).0
click_save-is_clear_example = click_save-is_clear (first_page editor false) enabled

abbrev typed : List ContentEdit
typed = types_act_url "/home" ∷ types_text "Adiós" ∷ types_act_text "Abrir" ∷ types_act_url "" ∷ []

on_edits-fields_example : fields (on_edits typed message) ≡ put_all typed (fields message)
on_edits-fields_example = on_edits-fields typed message

abbrev typed_data : List (String × String)
typed_data = ("firstName", "Ana") ∷ ("code", "1") ∷ ("firstName", "Eva") ∷ []
