-- ===== src/Template/Markup.antt =====
-- What frontend/src/pages/TemplateEditor.tsx renders of its state: labels, the choice of a base, the
-- mode switch, the request for a preview, the example of a request and the preview by channel.
use procovar_notify.Prelude.{
  String, Bool, true, false, not, ◌&&◌, Option, none, some, List, [], ◌∷◌, ◌==◌, if◌then◌else◌, map,
  any, Dict, lookup, insert,
}
use mathlib.Core.Option.{get_or}
use procovar_notify.Structure.{Structure, VariableSpec, Preview}
use procovar_notify.Template.Body.{EditorMode, is_html, Base, filter_bases_for_mode}
use procovar_notify.Template.Samples.{sample_value}
use procovar_notify.Template.Loading.{locales}
use procovar_notify.Template.Editor.{Editor, html_mode, detected}
use Prim.Native.String

abbrev channel_label : Dict String
channel_label = ("EMAIL", "Email") ∷ ("PUSH", "Push") ∷ ("SMS", "SMS") ∷ ("IN_APP", "In-app") ∷ []

abbrev key_suffix : Dict String
key_suffix = ("EMAIL", "email") ∷ ("PUSH", "push") ∷ ("SMS", "sms") ∷ ("IN_APP", "inapp") ∷ []

unfoldable pub title : String → String
unfolding lookup
title channel = get_or (lookup channel channel_label) channel

unfoldable pub key_placeholder : String → String
unfolding lookup
key_placeholder channel = String.◌++◌ "welcome_" (get_or (lookup channel key_suffix) "email")

unfoldable pub subject_label : String → String
subject_label channel =
    if channel == "EMAIL" then "Asunto" else if channel == "SMS" then "" else "Título"

-- The codes that the choice of a language offers: an unknown one is put first.
unfoldable pub locale_options : String → List String
locale_options locale = if any (λ code. code == locale) locales then locales else locale ∷ locales

unfoldable pub visual_disabled : EditorMode → Bool → Bool
visual_disabled mode can_revert = is_html mode && not can_revert

unfoldable pub cloning : Editor → Bool
cloning e = not e.editing && not (e.form.base_template_id == "")

unfoldable pub bases_for_channel : Editor → List Base
unfolding filter_bases_for_mode
bases_for_channel e = filter_bases_for_mode e.bases e.channel e.editor_mode

abbrev is_filled {ℓ} : {A : Type ℓ} → List A → Bool
is_filled [] = false
is_filled (x ∷ xs) = true

unfoldable pub has_base_field : Bool → Editor → Bool
unfolding bases_for_channel
has_base_field clone_lang e =
    not e.editing && not clone_lang && e.channel == "EMAIL" && is_filled (bases_for_channel e)

-- The body of the request for a preview; a structure goes as it is in the form, or as it was loaded.
pub record PreviewRequest (S : Type 0) : Type 0 where
  pub channel : String
  pub kind : Option String
  pub subject : Option String
  pub structure : Option S
  pub body : Option String
  pub variables : Option (Dict VariableSpec)
  pub payload : Dict String

-- `Object.fromEntries` of names with their values.
abbrev pub from_entries : Dict String → Dict String → Dict String
from_entries [] out = out
from_entries ((name, value) ∷ rest) out = from_entries rest (insert name value out)

-- `setTestValue`: a field of the test data shows `val` for the variable `name`.
unfoldable pub set_test_value : String → String → Dict String → Dict String
unfolding insert
set_test_value name val test_data = insert name val test_data

-- `lower` and `brand_logo` are those of `sample_value`.
module _ (lower : String → String) (brand_logo : String) where
  unfoldable pub test_value : Dict String → String → String
  unfolding sample_value lookup
  test_value test_data name = get_or (lookup name test_data) (sample_value lower brand_logo name)

  unfoldable pub payload : Dict String → Editor → Dict String
  unfolding test_value detected insert
  payload test_data e = from_entries (map (λ v. (v, test_value test_data v)) (detected e)) []

  unfoldable pub preview_request : Dict String → Editor → PreviewRequest Structure
  unfolding payload html_mode
  preview_request test_data e = record {
    channel = e.channel;
    kind = if html_mode e then some "html" else none;
    subject = some e.form.subject;
    structure = if html_mode e then none else some e.form.structure;
    body = if html_mode e then some e.form.body else none;
    variables = some e.form.variables;
    payload = payload test_data e;
  }

-- The example of a request that the card shows.
unfoldable pub recipient_example : String → Dict String
recipient_example channel =
    if channel == "EMAIL"
    then ("email", "correo@ejemplo.com") ∷ []
    else if channel == "SMS"
    then ("phone", "+15557778888") ∷ []
    else ("userId", "user_123") ∷ []

pub record SendObject : Type 0 where
  pub type : String
  pub recipient : Dict String
  pub payload : Dict String

unfoldable pub send_object : String → Dict String → SendObject
unfolding recipient_example
send_object channel data_ = record {
  type = "<tu Tipo de notificación>";
  recipient = recipient_example channel;
  payload = data_;
}

-- What a preview of a channel shows.
pub data Shown : Type 0 where
  rendering : Shown
  page_frame : String → Shown
  message : String → Shown
  card : (is_push : Bool) (subject body : String) → Shown

abbrev or_dash : String → String
or_dash text = if text == "" then "—" else text

unfoldable pub channel_preview : String → Option Preview → Shown
channel_preview channel none = rendering
channel_preview channel (some p) =
    if channel == "EMAIL"
    then page_frame p.html
    else if channel == "SMS"
    then message (or_dash p.html)
    else card (channel == "PUSH") (if p.subject == "" then "Título" else p.subject) (or_dash p.html)
