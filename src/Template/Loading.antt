-- ===== src/Template/Loading.antt =====
-- The load effect of frontend/src/pages/TemplateEditor.tsx: a template that is edited, or the source of
-- a variant in another language.
use procovar_notify.Prelude.{
  String, ℕ, ◌≡◌, ◌≢◌, refl, ap, Bool, true, false, not, inl, inr, Option, none, some, List, [],
  ◌∷◌, ◌==◌, eq_iff, if◌then◌else◌, Bool-cases, String-cases, find,
}
use mathlib.Core.Option.{some-injective}
use procovar_notify.Template.Normalize.{RawStructure, to_structure}
use procovar_notify.Template.Body.{visual, html, or_blank, TemplateBody, build_template_body}
use procovar_notify.Template.Samples.{Schema, specs_from_schema}
use procovar_notify.Template.Html.{format_html}
use procovar_notify.Template.Editor.{Form, Editor, html_mode, save, save_options, has_errors}

pub record TemplateData : Type 0 where
  pub id : String
  pub key : String
  pub name : String
  pub channel : String
  pub locale : String
  pub subject : Option String
  pub kind : Option String
  pub structure : RawStructure
  pub required_variables : Schema
  pub body : Option String

-- The codes of `LOCALES`, without their labels.
abbrev pub locales : List String
locales = "en" ∷ "es" ∷ "fr" ∷ "de" ∷ "it" ∷ "pt" ∷ []

abbrev or_source : String → Option String → String
or_source source none = source
or_source source (some code) = code

unfoldable pub pick_target_locale : String → String
pick_target_locale source = or_source source (find (λ code. not (code == source)) locales)

abbrev pub is_html_template : Option String → Bool
is_html_template none = false
is_html_template (some kind) = kind == "html"

-- The variant of a template in another language never starts with the language of its source.
pub pick_target_locale-ne : (source : String) → pick_target_locale source ≢ source
unfolding pick_target_locale
pick_target_locale-ne source = elim (String-cases "en" source) [
  | inl (p, e) ↦ rw⁻¹ p (λ q. cc ((eq_iff "es" "en").1 q))
  | inr (p, e) ↦ rw e p
]

pub saved_lem :
    (e : Editor) (b : TemplateBody) (locale : Option String)
    → save e ≡ some (b, locale)
    → (build_template_body (save_options e) ≡ b)
      × ((if e.editing then none else some e.form.locale) ≡ locale)
unfolding save
saved_lem e b locale h = elim (Bool-cases (has_errors e)) [
  | inl bad ↦ cc (rw bad at h)
  | inr good ↦
      let same : (
        build_template_body (save_options e),
        if e.editing then none else some e.form.locale,
      )
          ≡ (b, locale) =
        some-injective _ _ (rw good at h) in
      (ap (λ x. x.0) same, ap (λ x. x.1) same)
]

module _ (beautify : String → Option String) (uid : ℕ → String) where
  unfoldable pub loaded_form : TemplateData → Bool → ℕ → Form
  unfolding pick_target_locale to_structure specs_from_schema format_html
  loaded_form t editing n = record {
    key = t.key;
    name = t.name;
    subject = or_blank t.subject;
    locale = if editing then t.locale else pick_target_locale t.locale;
    base_template_id = "";
    structure = (to_structure uid t.structure t.channel n).0;
    variables = specs_from_schema t.required_variables;
    body =
        if is_html_template t.kind then format_html beautify (or_blank t.body) else or_blank t.body;
  }

  -- The response to the load effect.
  unfoldable pub on_template : TemplateData → ℕ → Editor → Editor
  unfolding loaded_form
  on_template t n e = record e {
    channel = t.channel;
    editor_mode = if is_html_template t.kind then html else visual;
    form = loaded_form t e.editing n;
  }

  -- An email template that is loaded for editing and saved as it is keeps its kind, and its HTML is sent
  -- exactly if its kind is "html".
  pub save-on_template :
      (t : TemplateData) (n : ℕ) (e : Editor) (b : TemplateBody) (locale : Option String)
      → e.editing ≡ true
      → t.channel ≡ "EMAIL"
      → save (on_template t n e) ≡ some (b, locale)
      → (b.kind ≡ some (if is_html_template t.kind then "html" else "builder"))
        × (b.structure ≡ some (to_structure uid t.structure t.channel n).0)
        × (b.body ≡ (
            if is_html_template t.kind
            then some (format_html beautify (or_blank t.body))
            else none))
        × (locale ≡ none)
  unfolding on_template save_options html_mode build_template_body
  save-on_template t n e b locale editing email saved =
      let (same, place) = saved_lem (on_template t n e) b locale saved in
      rw (← same, ← place)
        (rw (editing, email)
          (elim (Bool-cases (is_html_template t.kind)) [
            | inl k ↦ rw k (refl, refl, refl, refl)
            | inr k ↦ rw k (refl, refl, refl, refl)
          ]))
