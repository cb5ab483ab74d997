-- ===== src/Builder/State.antt =====
-- The state of EmailBuilder.tsx and its simplest operations. `value` is the structure that the
-- editor is given and hands to `onChange`, `seed` counts the calls of `uid()`.
use procovar_notify.Prelude.{String, ℕ, Option, none, some, List, not, ◌==◌, keep}
use procovar_notify.Structure.{Row, Theme, Structure, or_empty}
use procovar_notify.Structure.Fonts.{font_import_for}
use procovar_notify.Builder.Palette.{ViewportKey, pc}
use mathlib.Core.Option.{get_or}

-- What is selected: a column, and a block of it or none.
pub record Sel : Type 0 where
  pub row_id : String
  pub col_id : String
  pub block_id : Option String

-- Where the guide line is drawn during a drag.
pub record DropPoint : Type 0 where
  pub col_id : String
  pub index : ℕ

pub data Mode : Type 0 where
  design preview : Mode

pub record State : Type 0 where
  pub value : Structure
  pub sel : Option Sel
  pub viewport : ViewportKey
  pub mode : Mode
  pub active_id : Option String
  pub drop : Option DropPoint
  pub seed : ℕ

-- The component as it is mounted.
unfoldable pub initial : Structure → ℕ → State
initial value seed = record {
  value = value;
  sel = none;
  viewport = pc;
  mode = design;
  active_id = none;
  drop = none;
  seed = seed;
}

abbrev pub rows_of : State → List Row
rows_of s = or_empty s.value.rows

abbrev pub set_rows : List Row → State → State
set_rows next s = record s { value = record (s.value) { rows = some next } }

abbrev pub empty_theme : Theme
empty_theme = record { primary_color = none; font_family = none; font_import = none }

-- `setTheme` with the patch of each of its two callers.
unfoldable pub set_primary_color : String → State → State
set_primary_color color s =
    let theme = get_or s.value.theme empty_theme in
    record s {
      value = record (s.value) { theme = some (record theme { primary_color = some color }) };
    }

unfoldable pub set_font : String → State → State
set_font family s =
    let theme = get_or s.value.theme empty_theme in
    let patched : Theme = record theme {
      font_family = some family;
      font_import = some (font_import_for family);
    } in
    record s { value = record (s.value) { theme = some patched } }

unfoldable pub set_viewport : ViewportKey → State → State
set_viewport k s = record s { viewport = k }

unfoldable pub set_mode : Mode → State → State
set_mode m s = record s { mode = m }

unfoldable pub select_column : String → String → State → State
select_column row_id col_id s = record s {
  sel = some (record { row_id = row_id; col_id = col_id; block_id = none });
}

unfoldable pub select_block : String → String → String → State → State
select_block row_id col_id id s = record s {
  sel = some (record { row_id = row_id; col_id = col_id; block_id = some id });
}

unfoldable pub remove_row : String → State → State
remove_row row_id s = record (set_rows (keep (λ (r : Row). not (r.id == row_id)) (rows_of s)) s) {
  sel = none;
}
