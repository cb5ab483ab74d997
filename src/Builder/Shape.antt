-- ===== src/Builder/Shape.antt =====
-- The shape of an email of EmailBuilder.tsx: the ids of the rows, and the ids and widths of their
-- columns. The operations on blocks keep it.
use procovar_notify.Prelude.{
  String, ℕ, ◌≤◌, ◌≡◌, ◌≢◌, refl, ap, ap₂, ◌∙◌, List, [], ◌∷◌, ◌++◌, map, All, flat_map, All-perm,
  All-prop,
}
use mathlib.Core.List.{Perm}
use mathlib.Core.List.Perm
use native.Mathlib.Bridge.{le_prop}
use mathlib.Core.HLevel.{×_prop, ¬_prop}
use procovar_notify.Structure.{Section, Column, Row}
use procovar_notify.Builder.State.{State, rows_of}
use procovar_notify.Builder.Locate.{BlockPlace}
use procovar_notify.Builder.Edit.{
  has_row_id, has_col_id, on_blocks, map_blocks, update_column, move_rows, copy_in_column,
  copy_in_row, duplicate_block,
}
use procovar_notify.Builder.Ids.{row_ids, column_ids, col_ids}
use procovar_notify.Builder.DragEnd.{HasColumns}
use procovar_notify.Template.Reload.{HasWidths}
use procovar_notify.Builder.Keeping.{map-update_where, map-update_first, map-thread_where}

abbrev pub Frame : Type 0
Frame = String × List (String × ℕ)

abbrev pub sized : Column → String × ℕ
sized c = (c.id, c.width)

abbrev pub frame : Row → Frame
frame r = (r.id, map sized r.columns)

abbrev pub shape : List Row → List Frame
shape = map frame

-- Every row has a column, and every column a width.
abbrev pub IsSolidFrame : Frame → Type 0
IsSolidFrame f = (f.1 ≢ []) × All (λ (c : String × ℕ). 1 ≤ c.1) f.1

abbrev pub IsSolid : List Row → Type 0
IsSolid rows = All IsSolidFrame (shape rows)

pub shape-map_blocks :
    (row_id col_id : String) (f : List Section → List Section) (rows : List Row)
    → shape (map_blocks row_id col_id f rows) ≡ shape rows
unfolding map_blocks
shape-map_blocks row_id col_id f rows =
    map-update_where frame (has_row_id row_id) _
      (λ r.
        ap (λ l. (r.id, l))
          (map-update_where sized (has_col_id col_id) (on_blocks f) (λ c. refl) r.columns))
      rows

shape-update_column :
    (row_id col_id : String) (f : List Section → List Section) (rows : List Row)
    → shape (update_column row_id col_id f rows) ≡ shape rows
unfolding update_column
shape-update_column row_id col_id f rows =
    map-update_first frame (has_row_id row_id) _
      (λ r.
        ap (λ l. (r.id, l))
          (map-update_first sized (has_col_id col_id) (on_blocks f) (λ c. refl) r.columns))
      rows

pub shape-move_rows :
    (src : BlockPlace) (row_id col_id : String) (index : ℕ) (rows : List Row)
    → shape (move_rows src row_id col_id index rows) ≡ shape rows
unfolding move_rows
shape-move_rows src row_id col_id index rows =
    shape-update_column row_id col_id _ _ ∙ shape-update_column src.row_id src.col_id _ rows

module _ (uid : ℕ → String) where
  pub shape-duplicate_block :
      (row_id col_id id : String) (s : State)
      → shape (rows_of (duplicate_block uid row_id col_id id s)) ≡ shape (rows_of s)
  unfolding duplicate_block copy_in_row copy_in_column
  shape-duplicate_block row_id col_id id s =
      map-thread_where frame (has_row_id row_id) (copy_in_row uid col_id id)
        (λ n r.
          ap (λ l. (r.id, l))
            (map-thread_where sized (has_col_id col_id) (copy_in_column uid id) (λ m c. refl) n
              r.columns))
        s.seed (rows_of s)

-- The ids by the shape.
pub row_ids-shape : (rows : List Row) → row_ids rows ≡ map (λ (f : Frame). f.0) (shape rows)
row_ids-shape [] = refl
row_ids-shape (r ∷ rs) = ap (λ l. r.id ∷ l) (row_ids-shape rs)

column_ids-frame : (cs : List Column) → column_ids cs ≡ map (λ (c : String × ℕ). c.0) (map sized cs)
column_ids-frame [] = refl
column_ids-frame (c ∷ cs) = ap (λ l. c.id ∷ l) (column_ids-frame cs)

pub col_ids-shape :
    (rows : List Row)
    → col_ids rows ≡ flat_map (λ (f : Frame). map (λ (c : String × ℕ). c.0) f.1) (shape rows)
col_ids-shape [] = refl
col_ids-shape (r ∷ rs) = ap₂ (λ l m. l ++ m) (column_ids-frame r.columns) (col_ids-shape rs)

frame_widths :
    (cs : List Column)
    → All (λ (c : String × ℕ). 1 ≤ c.1) (map sized cs)
    → All (λ (c : Column). 1 ≤ c.width) cs
frame_widths [] h = tt
frame_widths (c ∷ cs) (w, h) = (w, frame_widths cs h)

widths_frame :
    (cs : List Column)
    → All (λ (c : Column). 1 ≤ c.width) cs
    → All (λ (c : String × ℕ). 1 ≤ c.1) (map sized cs)
widths_frame [] h = tt
widths_frame (c ∷ cs) (w, h) = (w, widths_frame cs h)

map-eq-nil : (cs : List Column) → map sized cs ≡ [] → cs ≡ []
map-eq-nil [] e = refl
map-eq-nil (c ∷ cs) e = cc

pub IsSolid-HasColumns : (rows : List Row) → IsSolid rows → HasColumns rows
IsSolid-HasColumns [] h = tt
IsSolid-HasColumns (r ∷ rs) ((some_column, widths), h) =
    ((λ e. some_column (ap (map sized) e)), IsSolid-HasColumns rs h)

pub HasWidths-IsSolid : (rows : List Row) → HasColumns rows → HasWidths rows → IsSolid rows
HasWidths-IsSolid [] h k = tt
HasWidths-IsSolid (r ∷ rs) (c, h) (w, k) =
    ((λ e. c (map-eq-nil r.columns e), widths_frame r.columns w), HasWidths-IsSolid rs h k)

pub IsSolid-HasWidths : (rows : List Row) → IsSolid rows → HasWidths rows
IsSolid-HasWidths [] h = tt
IsSolid-HasWidths (r ∷ rs) ((some_column, widths), h) =
    (frame_widths r.columns widths, IsSolid-HasWidths rs h)

IsSolidFrame-prop : (f : Frame) → IsProp (IsSolidFrame f)
IsSolidFrame-prop f = ×_prop ¬_prop (All-prop (λ c. le_prop) f.1)

pub IsSolid-perm : {xs ys : List Row} → Perm xs ys → IsSolid ys → IsSolid xs
IsSolid-perm p h = All-perm IsSolidFrame-prop (Perm.map frame p) h
