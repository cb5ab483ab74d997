-- ===== src/Template/Defaults.antt =====
-- `defaultStructure`, `textSection` and `actionSection` of frontend/src/pages/templateEditor.utils.ts.
use procovar_notify.Prelude.{
  String, ℕ, ◌+◌, ◌≡◌, refl, Bool, true, false, not, inl, inr, Option, none, some, List, [], ◌∷◌,
  ◌==◌, if◌then◌else◌, Bool-cases, find,
}
use procovar_notify.Structure.{Section, Structure}
use procovar_notify.Template.Normalize.{no_theme, structure_has_blocks}

abbrev section_of_type : String → Option (List Section) → Option Section
section_of_type type none = none
section_of_type type (some sections) = find (λ (x : Section). x.type == type) sections

unfoldable pub text_section : Structure → Option Section
text_section s = section_of_type "text" s.sections

unfoldable pub action_section : Structure → Option Section
action_section s = section_of_type "button" s.sections

abbrev text_only : String → String → Structure
text_only id text = record {
  theme = some no_theme;
  rows = none;
  sections = some (record { id = id; type = "text"; props = ("text", text) ∷ [] } ∷ []);
}

module _ (uid : ℕ → String) (brand_logo : String) where
  -- The ids are drawn in the order of the text: the row, its column, and the blocks.
  abbrev email_blocks : ℕ → List Section
  email_blocks n =
      record {
        id = uid n;
        type = "header";
        props = ("title", "{{appName}}") ∷ ("logoUrl", brand_logo) ∷ [];
      }
      ∷ record {
        id = uid (n + 1);
        type = "text";
        props = ("text", "Hola {{firstName}}, te damos la bienvenida.") ∷ [];
      }
      ∷ record {
        id = uid (n + 2);
        type = "button";
        props = ("text", "Empezar") ∷ ("url", "{{actionUrl}}") ∷ [];
      }
      ∷ record {
        id = uid (n + 3);
        type = "footer";
        props = ("text", "© {{year}} {{appName}}") ∷ [];
      }
      ∷ []

  abbrev email_default : ℕ → Structure
  email_default n = record {
    theme =
        some (record { primary_color = some "#0ea5e9"; font_family = some ""; font_import = none });
    rows = some (
        record {
          id = uid n;
          columns = record { id = uid (n + 1); width = 1; blocks = email_blocks (n + 2) } ∷ [];
        }
        ∷ []);
    sections = none;
  }

  -- With the number of the next id.
  unfoldable pub default_structure : String → ℕ → Structure × ℕ
  default_structure channel n =
      if channel == "EMAIL"
      then (email_default n, n + 6)
      else if channel == "SMS"
      then (text_only (uid n) "Tu código es {{code}}", n + 1)
      else (text_only (uid n) "Hola {{firstName}} 👋", n + 1)

  abbrev pub present : Option Section → Bool
  present none = false
  present (some x) = true

  -- The structure that a new template starts with has blocks on every channel, and a text section, which
  -- the editor of the other channels works on, exactly if the channel is not EMAIL; it has no action.
  pub default_structure-blocks :
      (channel : String) (n : ℕ)
      → (structure_has_blocks (default_structure channel n).0 ≡ true)
        × (present (text_section (default_structure channel n).0) ≡ not (channel == "EMAIL"))
        × (action_section (default_structure channel n).0 ≡ none)
  unfolding default_structure structure_has_blocks text_section action_section
  default_structure-blocks channel n = elim (Bool-cases (channel == "EMAIL")) [
    | inl e ↦ rw e (refl, refl, refl)
    | inr e ↦ rw e (elim (Bool-cases (channel == "SMS")) [
      | inl s ↦ rw s (refl, refl, refl)
      | inr s ↦ rw s (refl, refl, refl)
    ])
  ]
