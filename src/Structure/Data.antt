-- ===== src/Structure/Data.antt =====
-- The data model of frontend/src/pages/tabs/TemplateBuilder.tsx: a template's structure as rows,
-- columns and blocks, or as the older flat list of sections, and `blocksOf`.
-- A width is a number in the source; the editor only ever writes small positive integers there.
use procovar_notify.Prelude.{String, ℕ, Bool, Option, none, some, List, [], ◌∷◌, Dict, flat_map}

pub record Section : Type 0 where
  pub id : String
  pub type : String
  pub props : Dict String

pub record Column : Type 0 where
  pub id : String
  pub width : ℕ
  pub blocks : List Section

pub record Row : Type 0 where
  pub id : String
  pub columns : List Column

pub record Theme : Type 0 where
  pub primary_color : Option String
  pub font_family : Option String
  pub font_import : Option String

pub record Structure : Type 0 where
  pub theme : Option Theme
  pub rows : Option (List Row)
  pub sections : Option (List Section)

pub record VariableSpec : Type 0 where
  pub required : Option Bool
  pub type : Option String
  pub description : Option String

pub record Preview : Type 0 where
  pub subject : String
  pub html : String
  pub body : Option String
  pub missing_variables : Option (List String)

-- The blocks of a row and of a list of rows, in order.
abbrev pub row_blocks : Row → List Section
row_blocks r = flat_map (λ (c : Column). c.blocks) r.columns

abbrev pub rows_blocks : List Row → List Section
rows_blocks rows = flat_map row_blocks rows

abbrev pub or_empty {ℓ} : {A : Type ℓ} → Option (List A) → List A
or_empty none = []
or_empty (some xs) = xs

-- `rows` counts only if it is there and not empty.
abbrev blocks_from : List Row → Option (List Section) → List Section
blocks_from [] sections = or_empty sections
blocks_from (r ∷ rs) sections = rows_blocks (r ∷ rs)

unfoldable pub blocks_of : Structure → List Section
blocks_of structure = blocks_from (or_empty structure.rows) structure.sections
