-- ===== src/Builder/Move.antt =====
-- `moveBlockTo` of EmailBuilder.tsx moves a block and loses none.
use procovar_notify.Prelude.{
  none, ◌∙◌, String, ℕ, ◌≡◌, refl, ◌⊎◌, inl, inr, some, List, [], ◌∷◌, ◌++◌, find, get_elem?,
  splice_in, splice_out, splice_in-perm, splice_out-perm, update_first, update_first-perm,
  find-update_first, Option-cases,
}
use mathlib.Core.List.{Perm}
use mathlib.Core.List.Perm
use procovar_notify.Structure.{Section, Column, Row, row_blocks, rows_blocks}
use procovar_notify.Builder.Locate.{BlockPlace}
use procovar_notify.Builder.State.{State, rows_of}
use procovar_notify.Builder.Edit.{
  has_row_id, has_col_id, on_blocks, column_at, update_column, shifted_index, move_rows,
  move_block_to,
}

abbrev pub columns_with : (List Section → List Section) → String → Row → Row
columns_with f col_id r = record r {
  columns = update_first (has_col_id col_id) (on_blocks f) r.columns;
}

pub column_at-find :
    (row_id col_id : String) (rows : List Row) (r : Row)
    → find (has_row_id row_id) rows ≡ some r
    → column_at row_id col_id rows ≡ find (has_col_id col_id) r.columns
unfolding column_at
column_at-find row_id col_id rows r e = rw (e, column_at) refl

pub column_at-none :
    (row_id col_id : String) (rows : List Row)
    → find (has_row_id row_id) rows ≡ none
    → column_at row_id col_id rows ≡ none
unfolding column_at
column_at-none row_id col_id rows e = rw (e, column_at) refl

module _ (row_id col_id : String) (f : List Section → List Section) where
  -- A change of one column, seen in the blocks of the email.
  pub update_column-perm :
      (more more' : List Section) (rows : List Row) (c : Column)
      → column_at row_id col_id rows ≡ some c
      → Perm (more ++ f c.blocks) (more' ++ c.blocks)
      → Perm (more ++ rows_blocks (update_column row_id col_id f rows)) (more' ++ rows_blocks rows)
  unfolding update_column column_at
  update_column-perm more more' rows c e h = elim (Option-cases (find (has_row_id row_id) rows)) [
    | inl gone ↦ cc (rw (gone, column_at) at e)
    | inr (r, found) ↦
        update_first-perm row_blocks (has_row_id row_id) (columns_with f col_id) more more' rows r
          found
          (update_first-perm (λ (c : Column). c.blocks) (has_col_id col_id) (on_blocks f) more more'
            r.columns c (rw (found, column_at) at e) h)
  ]

  -- The columns keep their ids, so a column that was found is found again.
  pub column_at-update_column :
      (row_id' col_id' : String) (rows : List Row) (c : Column)
      → column_at row_id' col_id' rows ≡ some c
      → (d : Column) × (column_at row_id' col_id' (update_column row_id col_id f rows) ≡ some d)
        × ((d ≡ c) ⊎ (d ≡ on_blocks f c))
  unfolding update_column column_at
  column_at-update_column row_id' col_id' rows c e =
      elim (Option-cases (find (has_row_id row_id') rows)) [
        | inl gone ↦ cc (rw (gone, column_at) at e)
        | inr (r, found) ↦
            let (r', found', which) =
              find-update_first (has_row_id row_id') (has_row_id row_id) (columns_with f col_id)
                (λ x. refl) rows r found in
            let e' : find (has_col_id col_id') r.columns ≡ some c = rw (found, column_at) at e in
            elim which [
              | inl same ↦ (c, column_at-find row_id' col_id' _ r' found' ∙ rw same e', inl refl)
              | inr changed ↦
                  let (d, found_d, which_d) =
                    find-update_first (has_col_id col_id') (has_col_id col_id) (on_blocks f)
                      (λ x. refl) r.columns c e' in
                  (d, column_at-find row_id' col_id' _ r' found' ∙ rw changed found_d, which_d)
            ]
      ]

-- The source is a block of the rows: it stands where the place says.
abbrev pub IsAt : BlockPlace → List Row → Type 0
IsAt src rows =
    (c : Column) × (column_at src.row_id src.col_id rows ≡ some c)
    × (get_elem? c.blocks src.index ≡ some src.block)

-- Moving a block that stands where its place says permutes the blocks of the email, wherever it
-- is moved to.
pub move_rows-perm :
    (src : BlockPlace) (dest_row_id dest_col_id : String) (dest_index : ℕ) (rows : List Row)
    (d : Column)
    → IsAt src rows
    → column_at dest_row_id dest_col_id rows ≡ some d
    → Perm (rows_blocks (move_rows src dest_row_id dest_col_id dest_index rows)) (rows_blocks rows)
unfolding move_rows
move_rows-perm src dest_row_id dest_col_id dest_index rows d (c, found, at_index) at_dest =
    let out = splice_out src.index in
    let mid = update_column src.row_id src.col_id out rows in
    let (d', found', _) =
      column_at-update_column src.row_id src.col_id out dest_row_id dest_col_id rows d at_dest in
    let removed : Perm (src.block ∷ rows_blocks mid) (rows_blocks rows) =
      update_column-perm src.row_id src.col_id out (src.block ∷ []) [] rows c found
        (Perm.symm (splice_out-perm src.index src.block c.blocks at_index)) in
    let i = shifted_index src dest_col_id dest_index in
    Perm.trans
      (update_column-perm dest_row_id dest_col_id (splice_in i src.block) [] (src.block ∷ []) mid d'
        found' (splice_in-perm i src.block d'.blocks))
      removed

-- Moving a block that stands where its place says keeps every block of the email, as often as it was
-- there, whatever the target's ids and index are.
pub move_block_to-perm :
    (src : BlockPlace) (dest_row_id dest_col_id : String) (dest_index : ℕ) (s : State)
    → IsAt src (rows_of s)
    → Perm
        (rows_blocks (rows_of (move_block_to src dest_row_id dest_col_id dest_index s)))
        (rows_blocks (rows_of s))
unfolding move_block_to
move_block_to-perm src dest_row_id dest_col_id dest_index s (c, found, at_index) =
    rw (found, move_block_to)
      (elim (Option-cases (column_at dest_row_id dest_col_id (rows_of s))) [
        | inl gone ↦ rw gone (Perm.refl _)
        | inr (d, at_dest) ↦ rw at_dest (
            move_rows-perm src dest_row_id dest_col_id dest_index (rows_of s) d (c, found, at_index)
              at_dest)
      ])
