-- ===== src/Template/Editor.antt =====
-- The state of frontend/src/pages/TemplateEditor.tsx and its handlers. `beautify` is the call of
-- js-beautify, `none` if it throws, and `brand_logo` the image of frontend/src/lib/brandLogo.ts.
use procovar_notify.Prelude.{
  String, Bool, true, false, not, ◌&&◌, ◌||◌, Option, none, some, List, ◌==◌, if◌then◌else◌, keep,
  find, Dict,
}
use procovar_notify.Structure.{Structure, VariableSpec}
use procovar_notify.Structure.Variables.{trim, includes, detect_variables_in_text, detect_variables}
use procovar_notify.Template.Normalize.{structure_has_blocks}
use procovar_notify.Template.Body.{
  EditorMode, visual, html, is_html, Base, TemplateBody, SaveOptions, build_template_body,
  filter_bases_for_mode, resolve_base_choice, or_blank,
}
use procovar_notify.Template.Html.{default_html, format_html}
use Prim.Native.String

pub record Form : Type 0 where
  pub key : String
  pub name : String
  pub subject : String
  pub locale : String
  pub base_template_id : String
  pub structure : Structure
  pub variables : Dict VariableSpec
  pub body : String

-- The page's state that its handlers change; `preview_body` is the HTML of the last preview.
pub record Editor : Type 0 where
  pub editing : Bool
  pub channel : String
  pub editor_mode : EditorMode
  pub selected_base : String
  pub revert_confirm_open : Bool
  pub form : Form
  pub bases : List Base
  pub preview_body : Option String

unfoldable pub html_mode : Editor → Bool
html_mode e = e.channel == "EMAIL" && is_html e.editor_mode

unfoldable pub detected : Editor → List String
unfolding html_mode
detected e =
    if html_mode e
    then detect_variables_in_text (String.◌++◌ e.form.body (String.◌++◌ " " e.form.subject))
    else detect_variables e.form.structure e.form.subject

unfoldable pub can_revert : Editor → Bool
unfolding html_mode structure_has_blocks
can_revert e = html_mode e && structure_has_blocks e.form.structure

-- `preview?.body || f.body || DEFAULT_HTML`
abbrev first_filled : String → String → String → String
first_filled a b c = if a == "" then (if b == "" then c else b) else a

unfoldable pub do_revert : Editor → Editor
do_revert e = record e {
  selected_base = "";
  form = record e.form { base_template_id = "" };
  editor_mode = visual;
  revert_confirm_open = false;
}

unfoldable pub cancel_revert : Editor → Editor
cancel_revert e = record e { revert_confirm_open = false }

module _ (beautify : String → Option String) (brand_logo : String) where
  abbrev to_html : Editor → Editor
  to_html e = record e {
    form = record e.form {
      body =
          format_html beautify
            (first_filled (or_blank e.preview_body) e.form.body (default_html brand_logo));
      base_template_id = "";
    };
    selected_base = "";
    editor_mode = html;
  }

  abbrev to_visual : Editor → Editor
  to_visual e =
      if structure_has_blocks e.form.structure then record e { revert_confirm_open = true } else e

  abbrev pub switch_from : EditorMode → EditorMode → Editor → Editor
  switch_from visual html e = to_html e
  switch_from html visual e = to_visual e
  switch_from _ mode e = e

  unfoldable pub switch_mode : EditorMode → Editor → Editor
  unfolding structure_has_blocks
  switch_mode mode e = switch_from e.editor_mode mode e

  -- `choice.body ? formatHtml(choice.body) : ""`
  abbrev formatted : String → String
  formatted body = if body == "" then "" else format_html beautify body

  abbrev or_subject : Option String → String → String
  or_subject none subject = subject
  or_subject (some s) subject = s

  unfoldable pub on_base_change : String → Editor → Editor
  unfolding filter_bases_for_mode resolve_base_choice
  on_base_change id e =
      let choice =
        resolve_base_choice id (
          find (λ (x : Base). x.id == id)
            (filter_bases_for_mode e.bases e.channel e.editor_mode)) in
      record e {
        selected_base = id;
        form = record e.form {
          base_template_id = choice.base_template_id;
          body = formatted choice.body;
          subject = or_subject choice.subject e.form.subject;
        };
      }

-- The form's fields that the required-field messages are about.
unfoldable pub has_errors : Editor → Bool
unfolding trim
has_errors e = (not e.editing && trim e.form.key == "") || trim e.form.name == ""

-- The variables of the form that are detected.
abbrev keep_detected : List String → Dict VariableSpec → Dict VariableSpec
keep_detected names variables = keep (λ (v : String × VariableSpec). includes v.0 names) variables

unfoldable pub save_options : Editor → SaveOptions
unfolding html_mode detected
save_options e = record {
  editing = e.editing;
  html_mode = html_mode e;
  key = e.form.key;
  channel = e.channel;
  name = e.form.name;
  subject = e.form.subject;
  structure = e.form.structure;
  body = e.form.body;
  base_template_id = e.form.base_template_id;
  variables = keep_detected (detected e) e.form.variables;
}

-- The request that `save` sends, with its locale, `none` if a required field is blank.
unfoldable pub save : Editor → Option (TemplateBody × Option String)
unfolding has_errors save_options build_template_body
save e =
    if has_errors e
    then none
    else some (build_template_body (save_options e), if e.editing then none else some e.form.locale)
