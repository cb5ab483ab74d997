-- ===== src/Template/Tests.antt =====
-- The theorems on the template editor at small templates.
use procovar_notify.Prelude.{
  if◌then◌else◌, suc, List, length, Option, String, ℕ, ◌≡◌, ◌≢◌, refl, true, false, none, some, [],
  ◌∷◌, map, arith,
}
use procovar_notify.Structure.{Preview, Row, Structure, blocks_of}
use procovar_notify.Template.Specs.{lookup-specs_from_schema}
use procovar_notify.Template.Samples.{Schema, specs_from_schema}
use procovar_notify.Prelude.{lookup, unique-Nodup}
use procovar_notify.Template.Normalize.{RawStructure, to_structure, no_theme, structure_has_blocks}
use procovar_notify.Template.Contents.{shown, raw_shown, saved_blocks, to_structure-blocks}
use procovar_notify.Template.Body.{visual, html, SaveOptions, build_template_body}
use procovar_notify.Template.Editor.{Form, Editor, save, save_options, has_errors}
use procovar_notify.Structure.Variables.{trim, is_space}
use procovar_notify.Template.Html.{format_html}
use procovar_notify.Template.Loading.{TemplateData, loaded_form, on_template, save-on_template}
use procovar_notify.Template.Preview.{
  PreviewEvent, api_error, edits, renders, fails, on_preview, on_previews, first_preview,
}
use procovar_notify.Template.Pausing.{on_preview_stale}
use procovar_notify.Template.Modes.{switches, chooses, act, acts, go_back, acts-go_back}

abbrev fresh : ℕ → String
fresh n = "u"

abbrev flat : RawStructure
flat = record {
  theme = none;
  rows = none;
  sections = some (record { id = none; type = none; props = some (("text", "Hola") ∷ []) } ∷ []);
}

to_structure-blocks_example :
    map shown (blocks_of (to_structure fresh flat "EMAIL" 0).0)
    ≡ map raw_shown (saved_blocks flat "EMAIL")
to_structure-blocks_example = to_structure-blocks fresh flat "EMAIL" 0

abbrev row : Row
row = record {
  id = "r1";
  columns =
      record {
        id = "c1";
        width = 2;
        blocks = record { id = "b1"; type = "text"; props = ("text", "Hola") ∷ [] } ∷ [];
      }
      ∷ [];
}

abbrev opened : Structure
opened = record { theme = some no_theme; rows = some (row ∷ []); sections = none }

abbrev form : Form
form = record {
  key = "welcome";
  name = "Bienvenida";
  subject = "Hola";
  locale = "es";
  base_template_id = "";
  structure = opened;
  variables = [];
  body = "";
}

abbrev page : Editor
page = record {
  editing = true;
  channel = "EMAIL";
  editor_mode = visual;
  selected_base = "";
  revert_confirm_open = false;
  form = form;
  bases = [];
  preview_body = none;
}

abbrev away : Editor
away = acts (λ s. some s) "logo.png" (switches html ∷ chooses "x" ∷ []) page

abbrev back : Editor
back = acts (λ s. some s) "logo.png" (go_back (λ s. some s) "logo.png") away

acts-go_back_example :
    (away.form.structure ≡ opened)
    × (if structure_has_blocks opened
        then ((back.editor_mode ≡ visual) × (back.form.structure ≡ opened))
        else act (λ s. some s) "logo.png" (switches visual) away ≡ away)
acts-go_back_example = acts-go_back (λ s. some s) "logo.png" (switches html ∷ chooses "x" ∷ []) page

abbrev options : SaveOptions
options = record {
  editing = false;
  html_mode = true;
  key = "welcome";
  channel = "EMAIL";
  name = "Bienvenida";
  subject = "Hola";
  structure = opened;
  body = "<p>Hola</p>";
  base_template_id = "base";
  variables = [];
}

abbrev stored_template : TemplateData
stored_template = record {
  id = "t1";
  key = "welcome";
  name = "Bienvenida";
  channel = "EMAIL";
  locale = "en";
  subject = some "Hola";
  kind = some "html";
  structure = flat;
  required_variables = record { properties = none; required = none };
  body = some "<p>Hola</p>";
}

abbrev no_locale : Option String
no_locale = none

abbrev reopened : Editor
reopened = on_template (λ s. some s) fresh stored_template 0 page

reopened_saved : save reopened ≡ some (build_template_body (save_options reopened), none)
unfolding save has_errors trim is_space on_template loaded_form
reopened_saved = refl

save-on_template_example :
    ((build_template_body (save_options reopened)).kind ≡ some "html")
    × ((build_template_body (save_options reopened)).structure
        ≡ some (to_structure fresh flat "EMAIL" 0).0)
    × ((build_template_body (save_options reopened)).body
        ≡ some (format_html (λ s. some s) "<p>Hola</p>"))
    × (no_locale ≡ none)
save-on_template_example =
    save-on_template (λ s. some s) fresh stored_template 0 page
      (build_template_body (save_options reopened)) none refl refl reopened_saved

abbrev rendered : Preview
rendered = record { subject = "Hola"; html = "<p>Hola</p>"; body = none; missing_variables = none }

abbrev typing : List PreviewEvent
typing = edits ∷ renders 1 rendered ∷ []

two_previews : suc 0 ≢ length (on_previews typing first_preview).cancelled
unfolding on_previews first_preview
two_previews e = omega (arith, e)

on_preview_stale_example :
    (on_preview (renders 0 rendered) (on_previews typing first_preview)
      ≡ on_previews typing first_preview)
    × (on_preview (fails 0 (api_error "late")) (on_previews typing first_preview)
        ≡ on_previews typing first_preview)
    × ((on_preview (fails 1 (api_error "render_error")) (on_previews typing first_preview)).preview
        ≡ (on_previews typing first_preview).preview)
on_preview_stale_example =
    on_preview_stale typing 0 1 rendered (api_error "late") (api_error "render_error") two_previews

abbrev schema : Schema
schema = record {
  properties = some (
      ("code", record { type = none; description = some "El codigo" })
      ∷ ("name", record { type = some "number"; description = none })
      ∷ []);
  required = some ("code" ∷ []);
}

lookup-specs_from_schema_example :
    lookup "code" (specs_from_schema schema)
    ≡ some (record { required = some true; type = some "string"; description = some "El codigo" })
unfolding lookup
lookup-specs_from_schema_example = lookup-specs_from_schema schema "code" (unique-Nodup _ refl)
