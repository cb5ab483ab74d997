-- ===== src/Template/Samples.antt =====
-- `specsFromSchema` and `sampleValue` of frontend/src/pages/templateEditor.utils.ts.
use Prim.Native.String.{[], ◌∷◌}
use procovar_notify.Prelude.{
  String, Bool, true, false, Option, none, some, List, [], ◌∷◌, ◌==◌, if◌then◌else◌, any, Dict,
  insert, strip_prefix,
}
use procovar_notify.Structure.{VariableSpec}
use procovar_notify.Structure.Variables.{includes}

-- A schema's entry for a variable, as the cast reads it.
pub record SchemaEntry : Type 0 where
  pub type : Option String
  pub description : Option String

pub record Schema : Type 0 where
  pub properties : Option (Dict SchemaEntry)
  pub required : Option (List String)

-- `p.type || "string"`
abbrev pub non_blank_or : String → Option String → String
non_blank_or other none = other
non_blank_or other (some t) = if t == "" then other else t

abbrev pub specs_of : List String → Dict SchemaEntry → Dict VariableSpec → Dict VariableSpec
specs_of required [] out = out
specs_of required ((name, p) ∷ props) out = specs_of required props (
    insert name
      (record {
        required = some (includes name required);
        type = some (non_blank_or "string" p.type);
        description = some (non_blank_or "" p.description);
      })
      out)

abbrev pub list_or_empty {ℓ} : {A : Type ℓ} → Option (List A) → List A
list_or_empty none = []
list_or_empty (some xs) = xs

unfoldable pub specs_from_schema : Schema → Dict VariableSpec
specs_from_schema schema =
    specs_of (list_or_empty schema.required) (list_or_empty schema.properties) []

-- `n.includes(part)`
unfoldable pub contains : String → String → Bool
unfolding strip_prefix
contains part [] = elim (strip_prefix part []) [ none ↦ false | some rest ↦ true ]
contains part (c ∷ s) = elim (strip_prefix part (c ∷ s)) [
  | none ↦ contains part s
  | some rest ↦ true
]

abbrev pub contains_any : List String → String → Bool
contains_any parts n = any (λ part. contains part n) parts

abbrev sample_of : String → String → String
sample_of brand_logo n =
    if contains "logo" n
    then brand_logo
    else if contains "color" n
    then "#0ea5e9"
    else if contains_any ("url" ∷ "link" ∷ []) n
    then "https://ejemplo.com"
    else if contains_any ("email" ∷ "correo" ∷ []) n
    then "correo@ejemplo.com"
    else if contains "app" n
    then "Acme"
    else if contains_any ("first" ∷ "name" ∷ "nombre" ∷ []) n
    then "Jane"
    else if contains_any ("year" ∷ "año" ∷ "anio" ∷ []) n
    then "2026"
    else if contains_any ("date" ∷ "fecha" ∷ []) n
    then "2026-06-26"
    else if contains_any ("code" ∷ "codigo" ∷ "otp" ∷ []) n
    then "123456"
    else if contains_any ("amount" ∷ "total" ∷ "price" ∷ []) n
    then "49,99 €"
    else "ejemplo"

-- `lower` is the platform's `toLowerCase`, and `brand_logo` the image of frontend/src/lib/brandLogo.ts.
unfoldable pub sample_value : (String → String) → String → String → String
unfolding contains
sample_value lower brand_logo name = sample_of brand_logo (lower name)
