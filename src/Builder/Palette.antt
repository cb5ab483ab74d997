-- ===== src/Builder/Palette.antt =====
-- The tables at the top of frontend/src/pages/tabs/EmailBuilder.tsx: the elements of the palette,
-- the props that a new block starts with, the fields and styles that the inspector offers, and the
-- column layouts. Icons are left out.
use procovar_notify.Prelude.{
  String, ℕ, Bool, true, false, Option, none, some, List, [], ◌∷◌, ◌==◌, Dict, lookup, map, keep,
  ◌||◌,
}
use procovar_notify.Structure.{or_empty}
use mathlib.Core.Option.{get_or}

pub record Element : Type 0 where
  pub type : String
  pub label : String

abbrev pub elements : List Element
elements =
    record { type = "header"; label = "Cabecera" }
    ∷ record { type = "text"; label = "Texto" }
    ∷ record { type = "button"; label = "Botón" }
    ∷ record { type = "image"; label = "Imagen" }
    ∷ record { type = "divider"; label = "Separador" }
    ∷ record { type = "spacer"; label = "Espacio" }
    ∷ record { type = "footer"; label = "Pie" }
    ∷ []

abbrev pub element_label : Dict String
element_label = map (λ (e : Element). (e.type, e.label)) elements

abbrev pub defaults : Dict (Dict String)
defaults =
    ("header", ("title", "{{appName}}") ∷ [])
    ∷ ("text", ("text", "Escribe tu texto aquí. Usa {{variables}} para personalizar.") ∷ [])
    ∷ ("button", ("text", "Empezar") ∷ ("url", "{{actionUrl}}") ∷ [])
    ∷ ("image", ("url", "") ∷ ("alt", "") ∷ [])
    ∷ ("divider", [])
    ∷ ("spacer", ("height", "16") ∷ [])
    ∷ ("footer", ("text", "© {{year}} {{appName}}") ∷ [])
    ∷ []

-- `{ ...(DEFAULTS[type] ?? {}) }`
unfoldable pub default_props : String → Dict String
unfolding lookup
default_props type = or_empty (lookup type defaults)

-- The control that the inspector draws for a field.
pub data Control : Type 0 where
  options : List (String × String) → Control
  number_input : Control
  variable_field : (multiline : Bool) → Control
  plain_input : Control

-- `showIf`: the one condition that the table has.
pub data ShowIf : Type 0 where
  always : ShowIf
  prop_is : String → String → ShowIf

pub record FieldDef : Type 0 where
  pub key : String
  pub label : String
  pub control : Control
  pub placeholder : Option String
  pub show_if : ShowIf

abbrev field_def : String → String → Control → Option String → FieldDef
field_def key label control placeholder = record {
  key = key;
  label = label;
  control = control;
  placeholder = placeholder;
  show_if = always;
}

abbrev pub fields : Dict (List FieldDef)
fields =
    (
      "header",
      field_def "logoUrl" "Logo URL" plain_input (some "https://…/logo.png")
          ∷ field_def "title" "Título" (variable_field false) none
          ∷ [],
    )
    ∷ ("text", field_def "text" "Texto" (variable_field true) none ∷ [])
    ∷ (
      "button",
      field_def "text" "Texto del botón" (variable_field false) none
          ∷ field_def "url" "URL" (variable_field false) (some "{{actionUrl}}")
          ∷ [],
    )
    ∷ (
      "image",
      field_def "url" "Imagen URL" plain_input (some "https://…/img.png")
          ∷ field_def "alt" "Texto alternativo" plain_input none
          ∷ [],
    )
    ∷ (
      "divider",
      field_def "orientation" "Orientación"
            (options (("horizontal", "Horizontal") ∷ ("vertical", "Vertical") ∷ [])) none
          ∷ field_def "thickness" "Grosor (px)" number_input (some "1")
          ∷ record {
            key = "height";
            label = "Alto (px)";
            control = number_input;
            placeholder = some "40";
            show_if = prop_is "orientation" "vertical";
          }
          ∷ [],
    )
    ∷ ("spacer", field_def "height" "Altura (px)" number_input (some "16") ∷ [])
    ∷ ("footer", field_def "text" "Texto" (variable_field true) none ∷ [])
    ∷ []

abbrev is_shown : Dict String → ShowIf → Bool
is_shown props always = true
is_shown props (prop_is key value) = elim (lookup key props) [ none ↦ false | some v ↦ v == value ]

-- `(FIELDS[type] ?? []).filter((f) => !f.showIf || f.showIf(props))`
unfoldable pub shown_fields : String → Dict String → List FieldDef
unfolding lookup
shown_fields type props = keep (λ f. is_shown props f.show_if) (or_empty (lookup type fields))

pub record Style : Type 0 where
  pub align : Bool
  pub font_size : Bool
  pub color : Bool

abbrev no_style : Style
no_style = record { align = false; font_size = false; color = false }

abbrev full_style : Style
full_style = record { align = true; font_size = true; color = true }

abbrev pub style : Dict Style
style =
    ("header", full_style)
    ∷ ("text", full_style)
    ∷ ("footer", full_style)
    ∷ ("button", record no_style { align = true })
    ∷ ("image", record no_style { align = true })
    ∷ ("divider", no_style)
    ∷ ("spacer", no_style)
    ∷ []

unfoldable pub style_of : String → Style
unfolding lookup
style_of type = get_or (lookup type style) no_style

-- `STYLE[type]?.align || STYLE[type]?.fontSize || STYLE[type]?.color`
unfoldable pub has_style_panel : String → Bool
unfolding style_of
has_style_panel type = (style_of type).align || (style_of type).font_size || (style_of type).color

pub record Layout : Type 0 where
  pub key : String
  pub label : String
  pub widths : List ℕ

abbrev pub layouts : List Layout
layouts =
    record { key = "1"; label = "1 columna"; widths = 1 ∷ [] }
    ∷ record { key = "1-1"; label = "2 iguales"; widths = 1 ∷ 1 ∷ [] }
    ∷ record { key = "1-2"; label = "⅓ · ⅔"; widths = 1 ∷ 2 ∷ [] }
    ∷ record { key = "2-1"; label = "⅔ · ⅓"; widths = 2 ∷ 1 ∷ [] }
    ∷ record { key = "1-1-1"; label = "3 iguales"; widths = 1 ∷ 1 ∷ 1 ∷ [] }
    ∷ []

pub data ViewportKey : Type 0 where
  movil tablet pc : ViewportKey

pub record Viewport : Type 0 where
  pub w : ℕ
  pub label : String

abbrev pub vp : ViewportKey → Viewport
vp movil = record { w = 390; label = "Móvil" }
vp tablet = record { w = 600; label = "Tablet" }
vp pc = record { w = 800; label = "PC" }

-- The values of ALIGNS with their labels.
abbrev pub aligns : List (String × String)
aligns =
    ("left", "Izquierda")
    ∷ ("center", "Centro")
    ∷ ("right", "Derecha")
    ∷ ("justify", "Justificado")
    ∷ []
