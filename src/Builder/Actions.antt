-- ===== src/Builder/Actions.antt =====
-- The user's actions on EmailBuilder.tsx: its buttons, its inspector, its drag and drop, in any
-- order. Blocks, rows and columns are drawn with their ids; `sel` may name some that are gone.
use procovar_notify.Prelude.{
  Bool, false, ◌==◌, if◌then◌else◌, strip_prefix, String, ℕ, Option, none, some, List, [], ◌∷◌,
  get_elem?, Outcome, returned, ◌>>=◌,
}
use mathlib.Core.Option
use procovar_notify.Structure.{Section, Row}
use procovar_notify.Builder.Palette.{Layout, layouts, ViewportKey}
use procovar_notify.Builder.Locate.{BlockPlace, find_block}
use procovar_notify.Builder.State.{
  Sel, Mode, State, rows_of, set_primary_color, set_font, set_viewport, set_mode, remove_row,
}
use procovar_notify.Builder.Edit.{
  add_row, set_row_layout, add_block, duplicate_block, remove_block, set_prop,
}
use procovar_notify.Builder.Drag.{
  DragEvent, on_drag_start, on_drag_over, on_drag_end, on_drag_cancel,
}

abbrev block_with : Option String → List Row → Option Section
block_with none rows = none
block_with (some id) rows =
    if id == "" then none else Option.map (λ (p : BlockPlace). p.block) (find_block id rows)

-- `selBlock`: the block of the selection, wherever it stands.
unfoldable pub sel_block : State → Option Section
unfolding find_block
sel_block s = elim s.sel [ none ↦ none | some t ↦ block_with t.block_id (rows_of s) ]

-- `activeBlock`: the block that is dragged, if it is not a row.
unfoldable pub active_block : State → Option Section
unfolding find_block strip_prefix
active_block s = elim s.active_id [
  | none ↦ none
  | some id ↦ elim (strip_prefix "row:" id) [
    | some row_id ↦ none
    | none ↦ block_with (some id) (rows_of s)
  ]
]

-- What follows the pointer: the block, a note on the row, or nothing.
pub data Overlay : Type 0 where
  block_overlay : Section → Overlay
  row_overlay no_overlay : Overlay

unfoldable pub overlay : State → Overlay
unfolding active_block strip_prefix
overlay s = elim (active_block s) [
  | some b ↦ block_overlay b
  | none ↦ elim s.active_id [
    | none ↦ no_overlay
    | some id ↦ elim (strip_prefix "row:" id) [ none ↦ no_overlay | some row_id ↦ row_overlay ]
  ]
]

abbrev pub set_at : Option Sel → Option Section → String → String → State → State
set_at none block key val s = s
set_at (some t) none key val s = s
set_at (some t) (some b) key val s = set_prop t.row_id t.col_id b.id key val s

-- A field of the inspector writes to the row and the column of the selection.
unfoldable pub set_selected : String → String → State → State
unfolding sel_block set_prop
set_selected key val s = set_at s.sel (sel_block s) key val s

pub data Action : Type 0 where
  adds : (type : String) → Action
  adds_row : (layout : ℕ) → Action
  lays_out : (row_id : String) (layout : ℕ) → Action
  removes_row duplicates removes : (id : String) → Action
  sets : (key val : String) → Action
  starts_drag : (id : String) → Action
  hovers ends_drag : DragEvent → Action
  cancels_drag : Action
  selects : Sel → Action
  colors sets_font : String → Action
  views : ViewportKey → Action
  shows : Mode → Action

-- The menu of a row: whether it is open afterwards, and the action that it calls.
pub data MenuEvent : Type 0 where
  toggles : Bool → MenuEvent
  picks_layout : (layout : ℕ) → MenuEvent
  picks_remove : MenuEvent

unfoldable pub on_row_menu : String → MenuEvent → Bool × Option Action
on_row_menu row_id (toggles is_open) = (is_open, none)
on_row_menu row_id (picks_layout layout) = (false, some (lays_out row_id layout))
on_row_menu row_id picks_remove = (false, some (removes_row row_id))

-- What a button on a drawn block does with the block's place.
abbrev pub at_block : Option BlockPlace → (BlockPlace → State) → State → State
at_block none f s = s
at_block (some p) f s = f p

abbrev pub with_layout : Option Layout → (List ℕ → Outcome State) → State → Outcome State
with_layout none f s = returned s
with_layout (some l) f s = f l.widths

module _ (uid : ℕ → String) (array_move : List Row → ℕ → ℕ → List Row) where
  unfoldable pub perform : Action → State → Outcome State
  unfolding add_block add_row set_row_layout remove_row duplicate_block remove_block set_selected
      on_drag_start on_drag_over on_drag_end on_drag_cancel set_primary_color set_font set_viewport
      set_mode find_block
  perform (adds type) s = add_block uid type s
  perform (adds_row i) s = with_layout (get_elem? layouts i) (λ widths. add_row uid widths s) s
  perform (lays_out row_id i) s =
      with_layout (get_elem? layouts i) (λ widths. set_row_layout uid row_id widths s) s
  perform (removes_row id) s = returned (remove_row id s)
  perform (duplicates id) s =
      returned
        (at_block (find_block id (rows_of s)) (λ p. duplicate_block uid p.row_id p.col_id id s) s)
  perform (removes id) s =
      returned (at_block (find_block id (rows_of s)) (λ p. remove_block p.row_id p.col_id id s) s)
  perform (sets key val) s = returned (set_selected key val s)
  perform (starts_drag id) s = returned (on_drag_start id s)
  perform (hovers e) s = on_drag_over e s
  perform (ends_drag e) s = on_drag_end array_move e s
  perform cancels_drag s = returned (on_drag_cancel s)
  perform (selects sel) s = returned (record s { sel = some sel })
  perform (colors color) s = returned (set_primary_color color s)
  perform (sets_font family) s = returned (set_font family s)
  perform (views k) s = returned (set_viewport k s)
  perform (shows m) s = returned (set_mode m s)

  unfoldable pub performs : List Action → State → Outcome State
  unfolding perform
  performs [] s = returned s
  performs (a ∷ rest) s = do next ← perform a s; performs rest next
