-- ===== src/Builder/Canvas.antt =====
-- `RowView`, `ColumnView`, `BlockRow` and the inspector of
-- frontend/src/pages/tabs/EmailBuilder.tsx: what they show and call.
mod Tests
pub mod Layouts
pub mod Lines
use Prim.Native.String
use procovar_notify.Prelude.{
  String, ℕ, suc, ◌+◌, Bool, true, false, ◌&&◌, Option, none, some, List, [], ◌∷◌, ◌++◌, ◌==◌, eqb,
  ltb, if◌then◌else◌, lookup, map,
}
use mathlib.Core.Option.{get_or}
use procovar_notify.Structure.{Section, Column, Row}
use procovar_notify.Builder.Palette.{
  Layout, options, number_input, variable_field, plain_input, FieldDef, element_label,
}
use procovar_notify.Builder.State.{Sel, DropPoint}

-- `c.width > 0 ? c.width : 1`
unfoldable pub weight : Column → ℕ
weight c = if ltb 0 c.width then c.width else 1

-- The sum of the weights, and the share of each column: `pct` is 100 times the first by the second.
unfoldable pub total : List Column → ℕ
unfolding weight
total [] = 0
total (c ∷ cs) = weight c + total cs

unfoldable pub shares : Row → List (ℕ × ℕ)
unfolding weight total
shares row = map (λ (c : Column). (weight c, total row.columns)) row.columns

abbrev pub weights_are : List Column → List ℕ → Bool
weights_are [] [] = true
weights_are [] (w ∷ ws) = false
weights_are (c ∷ cs) [] = false
weights_are (c ∷ cs) (w ∷ ws) = eqb (weight c) w && weights_are cs ws

-- Whether a layout is the one of the row.
unfoldable pub is_active_layout : Row → Layout → Bool
unfolding weight
is_active_layout row l = weights_are row.columns l.widths

-- What a column is given of the selection and of the drop point.
abbrev column_is : Option Sel → String → Bool
column_is none id = false
column_is (some sel) id = sel.col_id == id

abbrev block_of : Option Sel → Option String
block_of none = none
block_of (some sel) = sel.block_id

unfoldable pub drop_index : Option DropPoint → Column → Option ℕ
drop_index none c = none
drop_index (some drop) c = if drop.col_id == c.id then some drop.index else none

pub record ColumnProps : Type 0 where
  pub column : Column
  pub share : ℕ × ℕ
  pub selected_col : Bool
  pub sel_block_id : Option String
  pub drop_at : Option ℕ

unfoldable pub row_view : Option Sel → Option DropPoint → Row → List ColumnProps
unfolding weight total drop_index
row_view sel drop row =
    map
      (λ (c : Column). record {
        column = c;
        share = (weight c, total row.columns);
        selected_col = column_is sel c.id;
        sel_block_id = block_of sel;
        drop_at = drop_index drop c;
      })
      row.columns

-- The text of a column without blocks.
unfoldable pub empty_text : Option ℕ → Bool → String
empty_text (some index) selected = "Soltar aquí"
empty_text none true = "Columna vacía · pulsa un elemento o suelta aquí"
empty_text none false = "Columna vacía"

-- What a column with blocks shows, from top to bottom.
pub data Item : Type 0 where
  drop_line : Item
  block_row : Section → (selected : Bool) → Item

abbrev is_at : Option ℕ → ℕ → Bool
is_at none i = false
is_at (some index) i = eqb index i

abbrev is_text : Option String → String → Bool
is_text none id = false
is_text (some wanted) id = wanted == id

abbrev pub is_last : List Section → Bool
is_last [] = true
is_last (b ∷ bs) = false

abbrev pub line_if : Bool → List Item
line_if true = drop_line ∷ []
line_if false = []

-- The blocks from the one with the number `i` on.
unfoldable pub items_from : ℕ → Option ℕ → Option String → List Section → List Item
items_from i drop sel [] = []
items_from i drop sel (b ∷ bs) =
    line_if (is_at drop i)
    ++ block_row b (is_text sel b.id)
      ∷ (line_if (is_at drop (suc i) && is_last bs) ++ items_from (suc i) drop sel bs)

unfoldable pub column_items : ColumnProps → List Item
unfolding items_from
column_items c = items_from 0 c.drop_at c.sel_block_id c.column.blocks

unfoldable pub block_label : Section → String
unfolding lookup
block_label s = get_or (lookup s.type element_label) s.type

-- The title of the inspector.
unfoldable pub inspector_title : Option Section → String
unfolding block_label
inspector_title none = "Inspector"
inspector_title (some s) = String.◌++◌ "Bloque · " (block_label s)

-- The value that a field of the inspector shows.
abbrev first_value : List (String × String) → String
first_value [] = ""
first_value (o ∷ os) = o.0

unfoldable pub field_value : Section → FieldDef → String
unfolding lookup
field_value s f = get_or (lookup f.key s.props) (elim f.control [
  | options os ↦ first_value os
  | number_input ↦ ""
  | variable_field multiline ↦ ""
  | plain_input ↦ ""
])

abbrev or_default : String → Option String → String
or_default other none = other
or_default other (some t) = if t == "" then other else t

-- The alignment whose button is marked.
unfoldable pub active_align : Section → String → Bool
unfolding lookup
active_align s value =
    or_default (if s.type == "text" then "left" else "center") (lookup "align" s.props) == value

unfoldable pub shown_color : Section → String
unfolding lookup
shown_color s = or_default "#333333" (lookup "color" s.props)

unfoldable pub shown_size : Section → String
unfolding lookup
shown_size s = get_or (lookup "fontSize" s.props) ""
