-- ===== src/Template/Channels.antt =====
-- The content of the channels that have no blocks, in frontend/src/pages/TemplateEditor.tsx:
-- `ChannelContentEditor` for SMS, push and in-app messages.
use procovar_notify.Prelude.{
  String, ◌||◌, not, Option, none, some, List, [], ◌∷◌, ◌==◌, ◌≡◌, refl, ap, ◌∙◌, if◌then◌else◌,
  inl, inr, String-cases, lookup,
}
use mathlib.Core.Option.{get_or}
use procovar_notify.Structure.{Section, Structure}
use procovar_notify.Template.Normalize.{no_theme}
use procovar_notify.Template.Defaults.{text_section, action_section}

-- `section?.props[name] ?? ""`
unfoldable pub prop : String → Option Section → String
unfolding lookup
prop name none = ""
prop name (some x) = get_or (lookup name x.props) ""

-- The values of the fields: the text, and the text and the target of the action.
pub record Fields : Type 0 where
  pub text : String
  pub act_text : String
  pub act_url : String

unfoldable pub fields : Structure → Fields
unfolding text_section action_section prop
fields s = record {
  text = prop "text" (text_section s);
  act_text = prop "text" (action_section s);
  act_url = prop "url" (action_section s);
}

abbrev with_sections : List Section → Structure
with_sections sections = record { theme = some no_theme; rows = none; sections = some sections }

abbrev body_section : String → Section
body_section text = record { id = "body"; type = "text"; props = ("text", text) ∷ [] }

-- The button is there as soon as one of its two fields is filled.
unfoldable pub rebuild : String → String → String → Structure
rebuild text act_text act_url = with_sections (
    body_section text
    ∷ (if not (act_text == "") || not (act_url == "")
        then record {
          id = "action";
          type = "button";
          props = ("text", act_text) ∷ ("url", act_url) ∷ [];
        }
          ∷ []
        else []))

-- `setStructure` of the message field for SMS.
unfoldable pub set_message : String → Structure
set_message text = with_sections (body_section text ∷ [])

pub data ContentEdit : Type 0 where
  types_text : String → ContentEdit
  types_act_text : String → ContentEdit
  types_act_url : String → ContentEdit

-- What a field hands to `rebuild`: its own value, and what the two others show.
unfoldable pub on_edit : ContentEdit → Structure → Structure
unfolding fields rebuild
on_edit (types_text t) s = rebuild t (fields s).act_text (fields s).act_url
on_edit (types_act_text t) s = rebuild (fields s).text t (fields s).act_url
on_edit (types_act_url u) s = rebuild (fields s).text (fields s).act_text u

unfoldable pub on_edits : List ContentEdit → Structure → Structure
unfolding on_edit
on_edits [] s = s
on_edits (c ∷ cs) s = on_edits cs (on_edit c s)

-- The three fields as independent ones.
abbrev pub put : ContentEdit → Fields → Fields
put (types_text t) f = record f { text = t }
put (types_act_text t) f = record f { act_text = t }
put (types_act_url u) f = record f { act_url = u }

unfoldable pub put_all : List ContentEdit → Fields → Fields
put_all [] f = f
put_all (c ∷ cs) f = put_all cs (put c f)

-- The fields read back what the structure was built from.
pub fields-rebuild :
    (t a u : String) → fields (rebuild t a u) ≡ record { text = t; act_text = a; act_url = u }
unfolding fields rebuild
fields-rebuild t a u = elim (String-cases a "") [
  | inl (p, e) ↦ elim (String-cases u "") [
    | inl (q, f) ↦ rw (p, q) refl
    | inr (q, f) ↦ rw (e, f) refl
  ]
  | inr (p, e) ↦ rw e refl
]

on_edit-fields : (c : ContentEdit) (s : Structure) → fields (on_edit c s) ≡ put c (fields s)
unfolding on_edit
on_edit-fields (types_text t) s = fields-rebuild t (fields s).act_text (fields s).act_url
on_edit-fields (types_act_text t) s = fields-rebuild (fields s).text t (fields s).act_url
on_edit-fields (types_act_url u) s = fields-rebuild (fields s).text (fields s).act_text u

-- Whatever structure is loaded, and in whatever order the fields of a push or in-app template are
-- typed in, what they show is what three independent fields would show: no edit of one field
-- changes another, although each edit builds the whole structure anew.
pub on_edits-fields :
    (cs : List ContentEdit) (s : Structure) → fields (on_edits cs s) ≡ put_all cs (fields s)
unfolding on_edits put_all
on_edits-fields [] s = refl
on_edits-fields (c ∷ cs) s = on_edits-fields cs (on_edit c s) ∙ ap (put_all cs) (on_edit-fields c s)
