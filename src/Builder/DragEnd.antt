-- ===== src/Builder/DragEnd.antt =====
-- The end of a drag in EmailBuilder.tsx: it returns, and the email has the same blocks after it.
use procovar_notify.Prelude.{
  String, ◌==◌, ℕ, ◌<◌, ◌≡◌, refl, ◌≢◌, inl, inr, Option, none, some, List, [], ◌∷◌, eqb, find,
  find_index, find_index-lt, length, strip_prefix, All, All-find, Bool-cases, Option-cases,
  flat_map-perm, returned,
}
use mathlib.Core.List.{Perm}
use mathlib.Core.List.Perm
use Prim.Native.String
use mathlib.Core.Option.{some-injective}
use procovar_notify.Structure.{Column, Row, row_blocks, rows_blocks}
use procovar_notify.Builder.Locate.{find_block}
use procovar_notify.Builder.State.{State, rows_of}
use procovar_notify.Builder.Edit.{has_row_id}
use procovar_notify.Builder.Ids.{IsDistinct, find_block-place}
use procovar_notify.Builder.Move.{move_block_to-perm}
use procovar_notify.Builder.Drag.{
  Over, DragEvent, BlockDrop, drop_on_column, first_column_drop, drop_on_row, drop_on_block,
  drop_over, compute_block_drop, is_no_change, apply_drop, drop_block, target_row_id, is_row_id,
  move_row, drop_row, end_drag, on_drag_end,
}

abbrev pub HasColumns : List Row → Type 0
HasColumns = All (λ (r : Row). r.columns ≢ [])

-- `arrayMove` of @dnd-kit/sortable, between two positions of the array: the same elements.
abbrev pub IsArrayMove : (List Row → ℕ → ℕ → List Row) → Type 0
IsArrayMove array_move =
    (rows : List Row) (i j : ℕ)
    → i < length rows
    → j < length rows
    → Perm (array_move rows i j) rows

first_column_drop-total :
    (row_id : String) (cs : List Column)
    → cs ≢ []
    → (d : Option BlockDrop) × (first_column_drop row_id cs ≡ returned d)
unfolding first_column_drop
first_column_drop-total row_id [] h = absurd (h refl)
first_column_drop-total row_id (c ∷ cs) h = (_, refl)

drop_on_row-total :
    (row_id : String) (rows : List Row)
    → HasColumns rows
    → (d : Option BlockDrop) × (drop_on_row row_id rows ≡ returned d)
drop_on_row-total row_id rows h = elim (Option-cases (find (has_row_id row_id) rows)) [
  | inl gone ↦ (none, unfold drop_on_row in rw (gone, drop_on_row) refl)
  | inr (r, found) ↦
      let (d, e) =
        first_column_drop-total r.id r.columns
          (All-find (λ (r : Row). r.columns ≢ []) (has_row_id row_id) rows r h found) in
      (d, unfold drop_on_row in rw (found, drop_on_row) e)
]

drop_over-total :
    (over : Over) (rows : List Row)
    → HasColumns rows
    → (d : Option BlockDrop) × (drop_over over rows ≡ returned d)
unfolding drop_over
drop_over-total over rows h = elim (Option-cases (strip_prefix "col:" over.id)) [
  | inr (col_id, e) ↦ (drop_on_column col_id rows, rw (e, drop_over) refl)
  | inl e ↦ elim (Option-cases (strip_prefix "row:" over.id)) [
    | inr (row_id, e') ↦
        let (d, done) = drop_on_row-total row_id rows h in (d, rw (e, drop_over) (rw e' done))
    | inl e' ↦ (drop_on_block over.id over.after rows, rw (e, drop_over) (rw e' refl))
  ]
]

pub compute_block_drop-total :
    (e : DragEvent) (rows : List Row)
    → HasColumns rows
    → (d : Option BlockDrop) × (compute_block_drop e rows ≡ returned d)
unfolding compute_block_drop
compute_block_drop-total e rows h = elim (Option-cases e.over) [
  | inl out ↦ (none, rw (out, compute_block_drop) refl)
  | inr (over, at_over) ↦ elim (Bool-cases e.active_is_row) [
    | inl row ↦ (none, rw (at_over, compute_block_drop) (rw row refl))
    | inr block ↦
        let (d, done) = drop_over-total over rows h in
        (d, rw (at_over, compute_block_drop) (rw block done))
  ]
]

apply_drop-perm :
    (id : String) (d : Option BlockDrop) (s : State)
    → IsDistinct (rows_of s)
    → Perm
        (rows_blocks (rows_of (apply_drop (find_block id (rows_of s)) d s)))
        (rows_blocks (rows_of s))
unfolding apply_drop
apply_drop-perm id none s h = elim (Option-cases (find_block id (rows_of s))) [
  | inl gone ↦ rw gone (Perm.refl _)
  | inr (src, found) ↦ rw found (Perm.refl _)
]
apply_drop-perm id (some d) s h = elim (Option-cases (find_block id (rows_of s))) [
  | inl gone ↦ rw gone (Perm.refl _)
  | inr (src, found) ↦ elim (Bool-cases (is_no_change src d)) [
    | inl still ↦ rw (found, still) (Perm.refl _)
    | inr moves ↦
        let (c, at_col, at_index, _) = find_block-place id (rows_of s) src h found in
        rw (found, moves) (move_block_to-perm src d.row_id d.col_id d.index s (c, at_col, at_index))
  ]
]

module _ (array_move : List Row → ℕ → ℕ → List Row) (moves : IsArrayMove array_move) where
  pub move_row-perm :
      (id : String) (over : Over) (rows rows' : List Row)
      → move_row array_move id over rows ≡ some rows'
      → Perm rows' rows
  unfolding move_row
  move_row-perm id over rows rows' e =
      elim (Option-cases (find_index (λ (r : Row). String.◌++◌ "row:" r.id == id) rows)) [
        | inl gone ↦ cc (rw (gone, move_row) at e)
        | inr (from, e₁) ↦ elim (Option-cases (find_index (is_row_id (target_row_id over)) rows)) [
          | inl gone ↦ cc (rw gone at (rw (e₁, move_row) at e))
          | inr (to, e₂) ↦ elim (Bool-cases (eqb from to)) [
            | inl same ↦ cc (rw same at (rw e₂ at (rw (e₁, move_row) at e)))
            | inr apart ↦
                rw (← some-injective _ _ (rw apart at (rw e₂ at (rw (e₁, move_row) at e))))
                  (moves rows from to (find_index-lt _ rows from e₁) (find_index-lt _ rows to e₂))
          ]
        ]
      ]

  drop_row-perm :
      (id : String) (over : Over) (s : State)
      → Perm (rows_blocks (rows_of (drop_row array_move id over s))) (rows_blocks (rows_of s))
  unfolding drop_row
  drop_row-perm id over s = elim (Option-cases (move_row array_move id over (rows_of s))) [
    | inl gone ↦ rw (gone, drop_row) (Perm.refl _)
    | inr (rows, e) ↦
        rw (e, drop_row) (flat_map-perm row_blocks (move_row-perm id over (rows_of s) rows e))
  ]

  end_drag-perm :
      (o : Option Over) (e : DragEvent) (s : State)
      → IsDistinct (rows_of s)
      → HasColumns (rows_of s)
      → (s' : State) × (end_drag array_move o e s ≡ returned s')
        × Perm (rows_blocks (rows_of s')) (rows_blocks (rows_of s))
  unfolding end_drag drop_block
  end_drag-perm none e s distinct columns = (s, refl, Perm.refl _)
  end_drag-perm (some over) e s distinct columns = elim (Bool-cases e.active_is_row) [
    | inl row ↦
        (drop_row array_move e.active_id over s, rw row refl, drop_row-perm e.active_id over s)
    | inr block ↦
        let (d, done) = compute_block_drop-total e (rows_of s) columns in
        (
          apply_drop (find_block e.active_id (rows_of s)) d s,
          rw (done, block) refl,
          apply_drop-perm e.active_id d s distinct,
        )
  ]

  -- With distinct ids and a column in every row, the end of any drag returns, and the email then
  -- has the blocks that it had before, each as often, whatever was dragged and wherever it was
  -- dropped.
  pub on_drag_end-perm :
      (e : DragEvent) (s : State)
      → IsDistinct (rows_of s)
      → HasColumns (rows_of s)
      → (s' : State) × (on_drag_end array_move e s ≡ returned s')
        × Perm (rows_blocks (rows_of s')) (rows_blocks (rows_of s))
  unfolding on_drag_end
  on_drag_end-perm e s = end_drag-perm e.over e (record s { active_id = none; drop = none })
