-- ===== src/Template/Normalize.antt =====
-- `toStructure` and `structureHasBlocks` of frontend/src/pages/templateEditor.utils.ts: what the
-- editor makes of a saved structure. The saved value is read through casts: a field is absent, or
-- of the type that the code casts it to; an element that is null is one without fields.
use procovar_notify.Prelude.{
  String, ℕ, zero, suc, Bool, true, false, ◌||◌, Option, none, some, List, [], ◌∷◌, ◌==◌,
  if◌then◌else◌, any, Dict,
}
use procovar_notify.Structure.{Section, Column, Row, Theme, Structure}

pub record RawSection : Type 0 where
  pub id : Option String
  pub type : Option String
  pub props : Option (Dict String)

pub record RawColumn : Type 0 where
  pub id : Option String
  pub width : Option ℕ
  pub blocks : Option (List RawSection)

pub record RawRow : Type 0 where
  pub id : Option String
  pub columns : Option (List RawColumn)

pub record RawStructure : Type 0 where
  pub theme : Option Theme
  pub rows : Option (List RawRow)
  pub sections : Option (List RawSection)

-- The fresh ids are `uid n`, `uid (n + 1)`, ...; each function hands the next number on.
unfoldable pub map_fresh {ℓ κ} :
    {A : Type ℓ} {B : Type κ} → (A → ℕ → B × ℕ) → List A → ℕ → List B × ℕ
map_fresh f [] n = ([], n)
map_fresh f (x ∷ xs) n = ((f x n).0 ∷ (map_fresh f xs (f x n).1).0, (map_fresh f xs (f x n).1).1)

-- `Array.isArray(xs) ? xs.map(f) : []`
abbrev pub map_array {ℓ κ} :
    {A : Type ℓ} {B : Type κ} → (A → ℕ → B × ℕ) → Option (List A) → ℕ → List B × ℕ
map_array f none n = ([], n)
map_array f (some xs) n = map_fresh f xs n

abbrev pub no_theme : Theme
no_theme = record { primary_color = none; font_family = none; font_import = none }

abbrev pub theme_or_empty : Option Theme → Theme
theme_or_empty none = no_theme
theme_or_empty (some theme) = theme

abbrev pub type_or_text : Option String → String
type_or_text none = "text"
type_or_text (some t) = t

abbrev pub props_or_empty : Option (Dict String) → Dict String
props_or_empty none = []
props_or_empty (some props) = props

-- `col.width && col.width > 0 ? col.width : 1`
abbrev pub width_or_one : Option ℕ → ℕ
width_or_one none = 1
width_or_one (some zero) = 1
width_or_one (some (suc n)) = suc n

abbrev pub not_empty {ℓ} : {A : Type ℓ} → List A → Bool
not_empty [] = false
not_empty (x ∷ xs) = true

-- `s.rows?.some((r) => r.columns?.some((c) => c.blocks?.length))`
abbrev pub row_has_blocks : Row → Bool
row_has_blocks r = any (λ (c : Column). not_empty c.blocks) r.columns

abbrev pub sections_have_blocks : Option (List Section) → Bool
sections_have_blocks none = false
sections_have_blocks (some sections) = not_empty sections

abbrev pub rows_have_blocks : Option (List Row) → Bool
rows_have_blocks none = false
rows_have_blocks (some rows) = any row_has_blocks rows

unfoldable pub structure_has_blocks : Structure → Bool
structure_has_blocks s = rows_have_blocks s.rows || sections_have_blocks s.sections

module _ (uid : ℕ → String) where
  -- `id ?? uid()`
  abbrev pub id_or_fresh : Option String → ℕ → String × ℕ
  id_or_fresh none n = (uid n, suc n)
  id_or_fresh (some id) n = (id, n)

  unfoldable pub to_section : RawSection → ℕ → Section × ℕ
  to_section x n = (
    record {
      id = (id_or_fresh x.id n).0;
      type = type_or_text x.type;
      props = props_or_empty x.props;
    },
    (id_or_fresh x.id n).1,
  )

  unfoldable pub to_column : RawColumn → ℕ → Column × ℕ
  unfolding map_fresh to_section
  to_column col n = (
    record {
      id = (id_or_fresh col.id n).0;
      width = width_or_one col.width;
      blocks = (map_array to_section col.blocks (id_or_fresh col.id n).1).0;
    },
    (map_array to_section col.blocks (id_or_fresh col.id n).1).1,
  )

  -- A row without an array of columns has one empty column.
  unfoldable pub to_columns : Option (List RawColumn) → ℕ → List Column × ℕ
  unfolding map_fresh to_column
  to_columns none n = (record { id = uid n; width = 1; blocks = [] } ∷ [], suc n)
  to_columns (some columns) n = map_fresh to_column columns n

  unfoldable pub to_row : RawRow → ℕ → Row × ℕ
  unfolding to_columns
  to_row row n = (
    record {
      id = (id_or_fresh row.id (to_columns row.columns n).1).0;
      columns = (to_columns row.columns n).0;
    },
    (id_or_fresh row.id (to_columns row.columns n).1).1,
  )

  abbrev pub one_row : ℕ → List Section → List Row
  one_row m blocks =
      record { id = uid m; columns = record { id = uid (suc m); width = 1; blocks = blocks } ∷ [] }
      ∷ []

  abbrev pub email_structure :
      Theme → Option (List RawRow) → Option (List RawSection) → ℕ → Structure × ℕ
  email_structure theme (some (r ∷ rs)) sections n = (
    record { theme = some theme; rows = some (map_fresh to_row (r ∷ rs) n).0; sections = none },
    (map_fresh to_row (r ∷ rs) n).1,
  )
  email_structure theme _ sections n =
      let (blocks, m) = map_array to_section sections n in
      (record { theme = some theme; rows = some (one_row m blocks); sections = none }, suc (suc m))

  abbrev pub flat_structure : Theme → Option (List RawSection) → ℕ → Structure × ℕ
  flat_structure theme sections n =
      let (blocks, m) = map_array to_section sections n in
      (record { theme = some theme; rows = none; sections = some blocks }, m)

  unfoldable pub to_structure : RawStructure → String → ℕ → Structure × ℕ
  unfolding map_fresh to_section to_row
  to_structure s channel n =
      if channel == "EMAIL"
      then email_structure (theme_or_empty s.theme) s.rows s.sections n
      else flat_structure (theme_or_empty s.theme) s.sections n
