-- ===== src/Template/Body.antt =====
-- `buildTemplateBody`, `filterBasesForMode` and `resolveBaseChoice` of
-- frontend/src/pages/templateEditor.utils.ts: the body of the request that saves a template, and the
-- choice of a base template.
use procovar_notify.Prelude.{
  String, Bool, true, false, not, ◌&&◌, Option, none, some, List, [], ◌∷◌, ◌==◌, if◌then◌else◌,
  keep, Dict,
}
use procovar_notify.Structure.{Structure, VariableSpec}

pub data EditorMode : Type 0 where
  visual : EditorMode
  html : EditorMode

abbrev pub is_html : EditorMode → Bool
is_html visual = false
is_html html = true

-- The argument of `buildTemplateBody`.
pub record SaveOptions : Type 0 where
  pub editing : Bool
  pub html_mode : Bool
  pub key : String
  pub channel : String
  pub name : String
  pub subject : String
  pub structure : Structure
  pub body : String
  pub base_template_id : String
  pub variables : Dict VariableSpec

-- The object that is sent, with `none` for a field that it does not have.
pub record TemplateBody : Type 0 where
  pub key : Option String
  pub channel : Option String
  pub name : String
  pub subject : String
  pub kind : Option String
  pub structure : Option Structure
  pub body : Option String
  pub base_template_id : Option String
  pub variables : Option (Dict VariableSpec)

-- `Object.keys(opts.variables).length ? { variables: opts.variables } : {}`
abbrev vars_field : Dict VariableSpec → Option (Dict VariableSpec)
vars_field [] = none
vars_field (v ∷ vs) = some (v ∷ vs)

abbrev update_body : SaveOptions → TemplateBody
update_body opts = record {
  key = none;
  channel = none;
  name = opts.name;
  subject = opts.subject;
  kind = some (if opts.html_mode then "html" else "builder");
  structure = some opts.structure;
  body = if opts.html_mode then some opts.body else none;
  base_template_id = none;
  variables = vars_field opts.variables;
}

abbrev empty_body : SaveOptions → TemplateBody
empty_body opts = record {
  key = some opts.key;
  channel = some opts.channel;
  name = opts.name;
  subject = opts.subject;
  kind = none;
  structure = none;
  body = none;
  base_template_id = none;
  variables = none;
}

abbrev creation_body : SaveOptions → TemplateBody
creation_body opts =
    if opts.html_mode
    then record (empty_body opts) {
      kind = some "html";
      body = some opts.body;
      variables = vars_field opts.variables;
    }
    else if not (opts.base_template_id == "")
    then record (empty_body opts) { base_template_id = some opts.base_template_id }
    else record (empty_body opts) {
      structure = some opts.structure;
      variables = vars_field opts.variables;
    }

unfoldable pub build_template_body : SaveOptions → TemplateBody
build_template_body opts = if opts.editing then update_body opts else creation_body opts

pub record Base : Type 0 where
  pub id : String
  pub key : String
  pub name : String
  pub channel : String
  pub kind : Option String
  pub body : Option String
  pub subject : Option String

-- `b.kind === "html"`
abbrev is_html_kind : Option String → Bool
is_html_kind none = false
is_html_kind (some kind) = kind == "html"

unfoldable pub filter_bases_for_mode : List Base → String → EditorMode → List Base
filter_bases_for_mode bases channel mode =
    keep
      (λ (b : Base).
        b.channel == channel
        && (if is_html mode then is_html_kind b.kind else not (is_html_kind b.kind)))
      bases

pub record BaseChoice : Type 0 where
  pub base_template_id : String
  pub body : String
  pub subject : Option String

abbrev pub or_blank : Option String → String
or_blank none = ""
or_blank (some t) = t

unfoldable pub resolve_base_choice : String → Option Base → BaseChoice
resolve_base_choice id none = record { base_template_id = id; body = ""; subject = none }
resolve_base_choice id (some base) =
    if is_html_kind base.kind
    then record { base_template_id = ""; body = or_blank base.body; subject = base.subject }
    else record { base_template_id = id; body = ""; subject = none }
