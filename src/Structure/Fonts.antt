-- ===== src/Structure/Fonts.antt =====
-- The font tables of frontend/src/pages/tabs/TemplateBuilder.tsx and `fontImportFor`.
use procovar_notify.Prelude.{String, List, [], ◌∷◌, Dict, lookup, map}
use mathlib.Core.Option.{get_or}

pub record SystemFont : Type 0 where
  pub label : String
  pub value : String

pub record WebFont : Type 0 where
  pub label : String
  pub value : String
  pub import : String

abbrev pub system_fonts : List SystemFont
system_fonts =
    record { label = "Sistema (por defecto)"; value = "" }
    ∷ record { label = "Arial"; value = "Arial, sans-serif" }
    ∷ record { label = "Helvetica"; value = "Helvetica, Arial, sans-serif" }
    ∷ record { label = "Verdana"; value = "Verdana, sans-serif" }
    ∷ record { label = "Tahoma"; value = "Tahoma, sans-serif" }
    ∷ record { label = "Trebuchet MS"; value = "'Trebuchet MS', sans-serif" }
    ∷ record { label = "Georgia"; value = "Georgia, serif" }
    ∷ record { label = "Times New Roman"; value = "'Times New Roman', serif" }
    ∷ record { label = "Courier New (monoespaciada)"; value = "'Courier New', monospace" }
    ∷ []

abbrev pub web_fonts : List WebFont
web_fonts =
    record {
      label = "Inter (web)";
      value = "'Inter', Arial, sans-serif";
      import = "https://fonts.googleapis.com/css2?family=Inter:wght@400;600;700&display=swap";
    }
    ∷ record {
      label = "Roboto (web)";
      value = "'Roboto', Arial, sans-serif";
      import = "https://fonts.googleapis.com/css2?family=Roboto:wght@400;500;700&display=swap";
    }
    ∷ record {
      label = "Open Sans (web)";
      value = "'Open Sans', Arial, sans-serif";
      import = "https://fonts.googleapis.com/css2?family=Open+Sans:wght@400;600;700&display=swap";
    }
    ∷ record {
      label = "Lato (web)";
      value = "'Lato', Arial, sans-serif";
      import = "https://fonts.googleapis.com/css2?family=Lato:wght@400;700&display=swap";
    }
    ∷ record {
      label = "Montserrat (web)";
      value = "'Montserrat', Arial, sans-serif";
      import = "https://fonts.googleapis.com/css2?family=Montserrat:wght@400;600;700&display=swap";
    }
    ∷ record {
      label = "Poppins (web)";
      value = "'Poppins', Arial, sans-serif";
      import = "https://fonts.googleapis.com/css2?family=Poppins:wght@400;600;700&display=swap";
    }
    ∷ record {
      label = "Lora (web, serif)";
      value = "'Lora', Georgia, serif";
      import = "https://fonts.googleapis.com/css2?family=Lora:wght@400;600;700&display=swap";
    }
    ∷ record {
      label = "Merriweather (web, serif)";
      value = "'Merriweather', Georgia, serif";
      import = "https://fonts.googleapis.com/css2?family=Merriweather:wght@400;700&display=swap";
    }
    ∷ []

-- `new Map(...)`: a later pair with the same key would win; the values of the table differ.
abbrev pub font_import : Dict String
font_import = map (λ (f : WebFont). (f.value, f.import)) web_fonts

unfoldable pub font_import_for : String → String
unfolding lookup
font_import_for value = get_or (lookup value font_import) ""
