-- ===== src/Builder/Drag.antt =====
-- Drag and drop of EmailBuilder.tsx: `computeBlockDrop`, `onDragStart`, `onDragOver`, `onDragEnd`
-- and `onDragCancel`. The events come from @dnd-kit/core. `arrayMove` of @dnd-kit/sortable is a
-- parameter.
use procovar_notify.Prelude.{
  String, ℕ, suc, ◌+◌, Bool, false, ◌&&◌, ◌||◌, Option, none, some, List, [], ◌∷◌, ◌==◌, eqb,
  if◌then◌else◌, length, find, find_index, strip_prefix, Outcome, returned, type_error, ◌>>=◌,
}
use procovar_notify.Structure.{Column, Row}
use procovar_notify.Builder.Locate.{BlockPlace, find_block, find_column}
use procovar_notify.Builder.State.{DropPoint, State, rows_of, set_rows}
use procovar_notify.Builder.Edit.{has_row_id, move_block_to}
use Prim.Native.String
use mathlib.Core.Option

-- The numbers of the DOM events, which are floats, with the operations that line 275-280 uses.
pub record Floats : Type 1 where
  pub Num : Type 0
  pub add : Num → Num → Num
  pub half : Num → Num
  pub gt : Num → Num → Bool

module _ (f : Floats) where
  open f use {Num, add, half, gt}

  -- Whether the pointer is under the middle of the block below it: the start of the gesture plus
  -- its movement, compared with the block's middle. Without a start it is not.
  unfoldable pub is_after : Option Num → (delta_y top height : Num) → Bool
  is_after none delta_y top height = false
  is_after (some client_y) delta_y top height = gt (add client_y delta_y) (add top (half height))

-- What is under the pointer: its id, the `rowId` of its data, and the value of `is_after`.
pub record Over : Type 0 where
  pub id : String
  pub row_id : Option String
  pub after : Bool

-- `active` by its id and whether its data has the type "row".
pub record DragEvent : Type 0 where
  pub active_id : String
  pub active_is_row : Bool
  pub over : Option Over

pub record BlockDrop : Type 0 where
  pub row_id : String
  pub col_id : String
  pub index : ℕ

-- A column is the target: behind its last block.
unfoldable pub drop_on_column : String → List Row → Option BlockDrop
drop_on_column col_id rows =
    Option.map
      (λ (l : String × Column). record { row_id = l.0; col_id = l.1.id; index = length l.1.blocks })
      (find_column col_id rows)

-- Behind the last block of the first column; `r.columns[0].id` throws in a row without columns.
unfoldable pub first_column_drop : String → List Column → Outcome (Option BlockDrop)
first_column_drop row_id [] = type_error
first_column_drop row_id (c ∷ cs) =
    returned (some (record { row_id = row_id; col_id = c.id; index = length c.blocks }))

-- A row is the target.
unfoldable pub drop_on_row : String → List Row → Outcome (Option BlockDrop)
unfolding first_column_drop
drop_on_row row_id rows = elim (find (has_row_id row_id) rows) [
  | none ↦ returned none
  | some r ↦ first_column_drop r.id r.columns
]

-- A block is the target: before or behind it.
unfoldable pub drop_on_block : String → Bool → List Row → Option BlockDrop
drop_on_block id after rows =
    Option.map
      (λ (p : BlockPlace). record {
        row_id = p.row_id;
        col_id = p.col_id;
        index = p.index + (if after then 1 else 0);
      })
      (find_block id rows)

unfoldable pub drop_over : Over → List Row → Outcome (Option BlockDrop)
unfolding drop_on_column drop_on_row drop_on_block strip_prefix
drop_over over rows = elim (strip_prefix "col:" over.id) [
  | some col_id ↦ returned (drop_on_column col_id rows)
  | none ↦ elim (strip_prefix "row:" over.id) [
    | some row_id ↦ drop_on_row row_id rows
    | none ↦ returned (drop_on_block over.id over.after rows)
  ]
]

unfoldable pub compute_block_drop : DragEvent → List Row → Outcome (Option BlockDrop)
compute_block_drop e rows = elim e.over [
  | none ↦ returned none
  | some over ↦ if e.active_is_row then returned none else drop_over over rows
]

unfoldable pub on_drag_start : String → State → State
on_drag_start id s = record s { active_id = some id }

unfoldable pub on_drag_cancel : State → State
on_drag_cancel s = record s { active_id = none; drop = none }

abbrev pub drop_point : BlockDrop → DropPoint
drop_point d = record { col_id = d.col_id; index = d.index }

unfoldable pub on_drag_over : DragEvent → State → Outcome State
on_drag_over e s = if e.active_is_row then returned (record s { drop = none }) else (do
  d ← compute_block_drop e (rows_of s)
  returned (record s { drop = Option.map drop_point d }))

-- The drop would leave the block where it is.
unfoldable pub is_no_change : BlockPlace → BlockDrop → Bool
is_no_change src d =
    src.col_id == d.col_id && (eqb src.index d.index || eqb (suc src.index) d.index)

-- The end of `onDragEnd` for a block: what was found of the block and of the target.
unfoldable pub apply_drop : Option BlockPlace → Option BlockDrop → State → State
unfolding is_no_change move_block_to
apply_drop none d s = s
apply_drop (some src) none s = s
apply_drop (some src) (some d) s =
    if is_no_change src d then s else move_block_to src d.row_id d.col_id d.index s

unfoldable pub drop_block : DragEvent → State → Outcome State
unfolding compute_block_drop apply_drop
drop_block e s = do
  d ← compute_block_drop e (rows_of s)
  returned (apply_drop (find_block e.active_id (rows_of s)) d s)

-- The id of the row that a dragged row is dropped on, if there is one.
unfoldable pub target_row_id : Over → Option String
unfolding strip_prefix
target_row_id over = elim (strip_prefix "row:" over.id) [ some id ↦ some id | none ↦ over.row_id ]

abbrev pub is_row_id : Option String → Row → Bool
is_row_id none r = false
is_row_id (some id) r = r.id == id

module _ (array_move : List Row → ℕ → ℕ → List Row) where
  -- The rows after a row was dropped, `none` when `setRows` is not called.
  unfoldable pub move_row : String → Over → List Row → Option (List Row)
  unfolding target_row_id
  move_row active_id over rows =
      elim (find_index (λ (r : Row). String.◌++◌ "row:" r.id == active_id) rows) [
        | none ↦ none
        | some from ↦ elim (find_index (is_row_id (target_row_id over)) rows) [
          | none ↦ none
          | some to ↦ if eqb from to then none else some (array_move rows from to)
        ]
      ]

  unfoldable pub drop_row : String → Over → State → State
  unfolding move_row
  drop_row active_id over s = elim (move_row active_id over (rows_of s)) [
    | none ↦ s
    | some rows ↦ set_rows rows s
  ]

  -- `onDragEnd` after its two resets.
  unfoldable pub end_drag : Option Over → DragEvent → State → Outcome State
  unfolding drop_row drop_block
  end_drag none e s = returned s
  end_drag (some over) e s =
      if e.active_is_row then returned (drop_row e.active_id over s) else drop_block e s

  unfoldable pub on_drag_end : DragEvent → State → Outcome State
  unfolding end_drag
  on_drag_end e s = end_drag e.over e (record s { active_id = none; drop = none })
