-- ===== src/Builder/Landing.antt =====
-- Where a dragged block lands in EmailBuilder.tsx.
use procovar_notify.Prelude.{
  String, ℕ, ◌≡◌, refl, sym, ap, ◌∙◌, ◌≢◌, inl, inr, true, false, Option, none, some, List, ◌∷◌,
  ◌++◌, ◌==◌, eq_iff, eq_refl, get_elem?, take, drop, splice_in, splice_out, Bool-cases, returned,
  arith,
}
use procovar_notify.Structure.{Section, Column, Row}
use procovar_notify.Builder.Locate.{BlockPlace, find_block}
use procovar_notify.Builder.State.{State, rows_of}
use procovar_notify.Builder.Edit.{
  on_blocks, column_at, update_column, shifted_index, move_rows, move_block_to,
}
use procovar_notify.Builder.Ids.{IsDistinct, find_block-place}
use procovar_notify.Builder.Blocks.{column-Nodup}
use procovar_notify.Builder.Splices.{
  others, shift, splice_in-others, splice_in-splice_out, splice_in-shift,
}
use procovar_notify.Builder.Columns.{
  column_at-update_column_same, column_at-update_column_apart, column_at_row,
}
use procovar_notify.Builder.Once.{block_once}
use procovar_notify.Builder.Targets.{HasTarget, compute_block_drop-HasTarget}
use procovar_notify.Builder.Drag.{
  Over, DragEvent, BlockDrop, compute_block_drop, is_no_change, apply_drop, drop_block, end_drag,
  on_drag_end,
}

-- The target column after the drop: the block at the index, the others in their order around it.
abbrev pub IsLanded : String → Section → BlockDrop → List Row → List Row → Type 0
IsLanded id b d rows rows' =
    (c : Column) × (c' : Column) × (column_at d.row_id d.col_id rows ≡ some c)
    × (column_at d.row_id d.col_id rows' ≡ some c')
    × (c'.blocks ≡ others id (take d.index c.blocks) ++ b ∷ others id (drop d.index c.blocks))

module _ (id : String) (src : BlockPlace) (d : BlockDrop) (rows : List Row)
    (distinct : IsDistinct rows) where
  -- Another column than the one that the block comes from.
  IsLanded-apart :
      (c c' : Column)
      → column_at src.row_id src.col_id rows ≡ some c
      → get_elem? c.blocks src.index ≡ some src.block
      → src.block.id ≡ id
      → column_at d.row_id d.col_id rows ≡ some c'
      → (src.col_id == d.col_id) ≡ false
      → IsLanded id src.block d rows (move_rows src d.row_id d.col_id d.index rows)
  unfolding move_rows shifted_index
  IsLanded-apart c c' at_src at_index same at_dest apart =
      let out : List Section → List Section = splice_out src.index in
      let other : src.col_id ≢ d.col_id = λ q. cc ((eq_iff src.col_id d.col_id).1 q, apart) in
      let mid = update_column src.row_id src.col_id out rows in
      let at_mid =
        column_at-update_column_apart src.row_id src.col_id out d.row_id d.col_id rows c' other
          at_dest in
      let absent =
        block_once src d.row_id d.col_id rows c c' distinct at_src at_index at_dest other in
      (
        c',
        on_blocks (splice_in d.index src.block) c',
        at_dest,
        rw apart (column_at-update_column_same d.row_id d.col_id _ mid c' at_mid),
        splice_in-others id d.index src.block c'.blocks (rw same at absent),
      )

  -- The same column.
  IsLanded-same :
      (c : Column)
      → column_at src.row_id src.col_id rows ≡ some c
      → get_elem? c.blocks src.index ≡ some src.block
      → src.block.id ≡ id
      → src.row_id ≡ d.row_id
      → src.col_id ≡ d.col_id
      → IsLanded id src.block d rows (move_rows src d.row_id d.col_id d.index rows)
  unfolding move_rows shifted_index
  IsLanded-same c at_src at_index same row col =
      let out = splice_out src.index in
      let back = splice_in (shift src.index d.index) src.block in
      let at_mid = column_at-update_column_same src.row_id src.col_id out rows c at_src in
      let at_end = column_at-update_column_same src.row_id src.col_id back _ _ at_mid in
      rw (← row, ← col)
        (
          c,
          on_blocks back (on_blocks out c),
          at_src,
          rw (eq_refl src.col_id) at_end,
          splice_in-shift id src.index d.index src.block c.blocks
              (column-Nodup src.row_id src.col_id rows c distinct at_src) at_index same,
        )

  shift-still : is_no_change src d ≡ true → src.index ≡ shift src.index d.index
  unfolding is_no_change
  shift-still still = ground arith

  -- A drop that changes nothing.
  IsLanded-still :
      (c : Column)
      → column_at d.row_id d.col_id rows ≡ some c
      → get_elem? c.blocks src.index ≡ some src.block
      → src.block.id ≡ id
      → is_no_change src d ≡ true
      → IsLanded id src.block d rows rows
  unfolding is_no_change
  IsLanded-still c at_dest at_index same still = (
    c,
    c,
    at_dest,
    at_dest,
    sym (splice_in-splice_out src.index src.block c.blocks at_index)
        ∙ ap (λ i. splice_in i src.block (splice_out src.index c.blocks)) (shift-still still)
        ∙ splice_in-shift id src.index d.index src.block c.blocks
            (column-Nodup d.row_id d.col_id rows c distinct at_dest) at_index same,
  )

  move_rows-IsLanded :
      (c c' : Column)
      → column_at src.row_id src.col_id rows ≡ some c
      → get_elem? c.blocks src.index ≡ some src.block
      → src.block.id ≡ id
      → column_at d.row_id d.col_id rows ≡ some c'
      → IsLanded id src.block d rows (move_rows src d.row_id d.col_id d.index rows)
  move_rows-IsLanded c c' at_src at_index same at_dest =
      elim (Bool-cases (src.col_id == d.col_id)) [
        | inr apart ↦ IsLanded-apart c c' at_src at_index same at_dest apart
        | inl together ↦
            let col = (eq_iff src.col_id d.col_id).0 together in
            let row =
              column_at_row src.row_id d.row_id d.col_id rows c c' distinct.by_column
                (ap (λ k. column_at src.row_id k rows) (sym col) ∙ at_src) at_dest in
            IsLanded-same c at_src at_index same row col
      ]

  still-IsLanded :
      (c c' : Column)
      → column_at src.row_id src.col_id rows ≡ some c
      → get_elem? c.blocks src.index ≡ some src.block
      → src.block.id ≡ id
      → column_at d.row_id d.col_id rows ≡ some c'
      → is_no_change src d ≡ true
      → IsLanded id src.block d rows rows
  still-IsLanded c c' at_src at_index same at_dest still =
      let together : (src.col_id == d.col_id) ≡ true = unfold is_no_change in ground arith in
      let col = (eq_iff src.col_id d.col_id).0 together in
      let there = ap (λ k. column_at src.row_id k rows) (sym col) ∙ at_src in
      let row =
        column_at_row src.row_id d.row_id d.col_id rows c c' distinct.by_column there at_dest in
      IsLanded-still c (ap (λ k. column_at k d.col_id rows) (sym row) ∙ there) at_index same still

move_block_to-rows :
    (src : BlockPlace) (row_id col_id : String) (index : ℕ) (s : State) (c c' : Column)
    → column_at src.row_id src.col_id (rows_of s) ≡ some c
    → column_at row_id col_id (rows_of s) ≡ some c'
    → rows_of (move_block_to src row_id col_id index s)
      ≡ move_rows src row_id col_id index (rows_of s)
unfolding move_block_to
move_block_to-rows src row_id col_id index s c c' at_src at_dest =
    rw (at_src, move_block_to) (rw at_dest refl)

apply_drop-IsLanded :
    (id : String) (src : BlockPlace) (d : BlockDrop) (s : State)
    → IsDistinct (rows_of s)
    → find_block id (rows_of s) ≡ some src
    → HasTarget (rows_of s) d
    → IsLanded id src.block d (rows_of s) (rows_of (apply_drop (some src) (some d) s))
unfolding apply_drop
apply_drop-IsLanded id src d s h found (c', at_dest) =
    let (c, at_src, at_index, same) = find_block-place id (rows_of s) src h found in
    elim (Bool-cases (is_no_change src d)) [
      | inl still ↦
          rw still (still-IsLanded id src d (rows_of s) h c c' at_src at_index same at_dest still)
      | inr moves ↦
          rw (moves, move_block_to-rows src d.row_id d.col_id d.index s c c' at_src at_dest)
            (move_rows-IsLanded id src d (rows_of s) h c c' at_src at_index same at_dest)
    ]

end_drag-block :
    (array_move : List Row → ℕ → ℕ → List Row) (o : Option Over) (e : DragEvent) (s : State)
    (src : BlockPlace) (d : BlockDrop)
    → o ≢ none
    → e.active_is_row ≡ false
    → find_block e.active_id (rows_of s) ≡ some src
    → compute_block_drop e (rows_of s) ≡ returned (some d)
    → end_drag array_move o e s ≡ returned (apply_drop (some src) (some d) s)
unfolding end_drag drop_block
end_drag-block array_move none e s src d over block found target = absurd (over refl)
end_drag-block array_move (some over) e s src d _ block found target =
    rw (target, block, found) refl

some_over :
    (e : DragEvent) (rows : List Row) (d : BlockDrop)
    → compute_block_drop e rows ≡ returned (some d)
    → e.over ≢ none
unfolding compute_block_drop
some_over e rows d target out = cc (rw (out, compute_block_drop) at target)

-- With distinct ids, a dragged block that `findBlock` finds and for which the drop computes a
-- target: the drop returns, and in the target column the block stands at the computed index,
-- between the blocks that stood before it and those from it on, without the block itself. It makes no
-- difference whether the column is the one that the block comes from or the drop changes nothing.
pub on_drag_end-IsLanded :
    (array_move : List Row → ℕ → ℕ → List Row) (e : DragEvent) (s : State) (src : BlockPlace)
    (d : BlockDrop)
    → IsDistinct (rows_of s)
    → e.active_is_row ≡ false
    → find_block e.active_id (rows_of s) ≡ some src
    → compute_block_drop e (rows_of s) ≡ returned (some d)
    → (s' : State) × (on_drag_end array_move e s ≡ returned s')
      × IsLanded e.active_id src.block d (rows_of s) (rows_of s')
unfolding on_drag_end
on_drag_end-IsLanded array_move e s src d h block found target =
    let start = record s { active_id = none; drop = none } in
    (
      apply_drop (some src) (some d) start,
      end_drag-block array_move e.over e start src d (some_over e (rows_of s) d target) block found
          target,
      apply_drop-IsLanded e.active_id src d start h found
          (compute_block_drop-HasTarget e (rows_of s) d h target),
    )
