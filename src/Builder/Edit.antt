-- ===== src/Builder/Edit.antt =====
-- The operations of EmailBuilder.tsx on rows and blocks. `uid n` is the text that the n-th call of
-- `uid()` (TemplateBuilder.tsx) returns. A change that visits every row and column with an id makes
-- its calls of `uid()` in that order.
use procovar_notify.Prelude.{
  String, ℕ, suc, ◌+◌, ◌-◌, Bool, not, ◌&&◌, Option, none, some, List, [], ◌∷◌, ◌++◌, ◌==◌,
  if◌then◌else◌, ltb, keep, length, drop, flat_map, update_where, thread_where, update_first, find,
  splice_in, splice_out, insert, Outcome, returned, type_error, ◌>>=◌,
}
use procovar_notify.Structure.{Section, Column, Row}
use procovar_notify.Builder.Palette.{default_props}
use procovar_notify.Builder.Locate.{BlockPlace, last_column}
use procovar_notify.Builder.State.{Sel, State, rows_of, set_rows}

abbrev pub has_row_id : String → Row → Bool
has_row_id id r = r.id == id

abbrev pub has_col_id : String → Column → Bool
has_col_id id c = c.id == id

abbrev pub has_block_id : String → Section → Bool
has_block_id id b = b.id == id

abbrev pub on_blocks : (List Section → List Section) → Column → Column
on_blocks f c = record c { blocks = f c.blocks }

-- `mapCol` of the source, as a change of the rows.
unfoldable pub map_blocks : String → String → (List Section → List Section) → List Row → List Row
map_blocks row_id col_id f =
    update_where (has_row_id row_id)
      (λ r. record r { columns = update_where (has_col_id col_id) (on_blocks f) r.columns })

unfoldable pub map_col : String → String → (List Section → List Section) → State → State
unfolding map_blocks
map_col row_id col_id f s = set_rows (map_blocks row_id col_id f (rows_of s)) s

unfoldable pub remove_block : String → String → String → State → State
unfolding map_col
remove_block row_id col_id id s =
    record (map_col row_id col_id (keep (λ b. not (has_block_id id b))) s) {
      sel = some (record { row_id = row_id; col_id = col_id; block_id = none });
    }

unfoldable pub with_prop : String → String → Section → Section
unfolding insert
with_prop key val b = record b { props = insert key val b.props }

unfoldable pub set_prop : String → String → String → String → String → State → State
unfolding map_col with_prop
set_prop row_id col_id id key val =
    map_col row_id col_id (update_where (has_block_id id) (with_prop key val))

-- `next.find((r) => r.id === rowId)?.columns.find((c) => c.id === colId)`
unfoldable pub column_at : String → String → List Row → Option Column
column_at row_id col_id rows = elim (find (has_row_id row_id) rows) [
  | none ↦ none
  | some r ↦ find (has_col_id col_id) r.columns
]

-- A change of the blocks of that column.
unfoldable pub update_column : String → String → (List Section → List Section) → List Row → List Row
update_column row_id col_id f =
    update_first (has_row_id row_id)
      (λ r. record r { columns = update_first (has_col_id col_id) (on_blocks f) r.columns })

abbrev pub select : String → String → String → State → State
select row_id col_id id s = record s {
  sel = some (record { row_id = row_id; col_id = col_id; block_id = some id });
}

-- The index after the block has left its old place.
unfoldable pub shifted_index : BlockPlace → String → ℕ → ℕ
shifted_index src dest_col_id dest_index =
    if src.col_id == dest_col_id && ltb src.index dest_index then dest_index - 1 else dest_index

-- The rows after both calls of `splice`.
unfoldable pub move_rows : BlockPlace → String → String → ℕ → List Row → List Row
unfolding update_column shifted_index
move_rows src dest_row_id dest_col_id dest_index rows =
    update_column dest_row_id dest_col_id
      (splice_in (shifted_index src dest_col_id dest_index) src.block)
      (update_column src.row_id src.col_id (splice_out src.index) rows)

-- Nothing happens unless both columns are found.
unfoldable pub move_block_to : BlockPlace → String → String → ℕ → State → State
unfolding column_at move_rows
move_block_to src dest_row_id dest_col_id dest_index s =
    elim (column_at src.row_id src.col_id (rows_of s)) [
      | none ↦ s
      | some _ ↦ elim (column_at dest_row_id dest_col_id (rows_of s)) [
        | none ↦ s
        | some _ ↦
            select dest_row_id dest_col_id src.block.id
              (set_rows (move_rows src dest_row_id dest_col_id dest_index (rows_of s)) s)
      ]
    ]

-- The last column takes more blocks; without one the assignment throws.
unfoldable pub push_last : List Section → List Column → Outcome (List Column)
push_last extra [] = type_error
push_last extra (c ∷ []) = returned (record c { blocks = c.blocks ++ extra } ∷ [])
push_last extra (c ∷ d ∷ cs) = do rest ← push_last extra (d ∷ cs); returned (c ∷ rest)

-- The blocks of the columns that the new layout has no room for.
abbrev pub extra_blocks : List ℕ → List Column → List Section
extra_blocks widths columns = flat_map (λ (c : Column). c.blocks) (drop (length widths) columns)

-- The selection, or else the last column.
unfoldable pub target_of : Option Sel → List Row → Outcome (Option (String × String))
unfolding last_column
target_of none rows = last_column rows
target_of (some t) rows = returned (some (t.row_id, t.col_id))

unfoldable pub add_target : State → Outcome (Option (String × String))
unfolding target_of
add_target s = target_of s.sel (rows_of s)

module _ (uid : ℕ → String) where
  -- `widths.map((w) => ({ id: uid(), width: w, blocks: [] }))`
  unfoldable pub new_columns : ℕ → List ℕ → List Column
  new_columns n [] = []
  new_columns n (w ∷ ws) = record { id = uid n; width = w; blocks = [] } ∷ new_columns (suc n) ws

  -- The selection comes from the new row's first column, which throws when there is none.
  unfoldable pub add_row : List ℕ → State → Outcome State
  unfolding new_columns
  add_row [] s = type_error
  add_row (w ∷ ws) s =
      let columns = new_columns (suc s.seed) (w ∷ ws) in
      let row : Row = record { id = uid s.seed; columns = columns } in
      let grown = set_rows (rows_of s ++ row ∷ []) s in
      returned (record grown {
        seed = suc s.seed + length (w ∷ ws);
        sel = some (record { row_id = uid s.seed; col_id = uid (suc s.seed); block_id = none });
      })

  -- The columns of a row under new widths: the old ids and blocks in order, then fresh columns.
  unfoldable pub relabel : ℕ → List ℕ → List Column → List Column × ℕ
  relabel n [] cs = ([], n)
  relabel n (w ∷ ws) [] =
      let (rest, m) = relabel (suc n) ws [] in
      (record { id = uid n; width = w; blocks = [] } ∷ rest, m)
  relabel n (w ∷ ws) (c ∷ cs) =
      let (rest, m) = relabel n ws cs in (record c { width = w } ∷ rest, m)

  unfoldable pub lay_out : List ℕ → ℕ → List Column → Outcome (List Column × ℕ)
  unfolding relabel push_last
  lay_out widths n columns =
      let (cols, m) = relabel n widths columns in
      if ltb (length widths) (length columns)
      then (do filled ← push_last (extra_blocks widths columns) cols; returned (filled, m))
      else returned (cols, m)

  unfoldable pub lay_out_rows : String → List ℕ → ℕ → List Row → Outcome (List Row × ℕ)
  unfolding lay_out
  lay_out_rows row_id widths n [] = returned ([], n)
  lay_out_rows row_id widths n (r ∷ rs) = do
    (row, m) ←
        if has_row_id row_id r
        then (do
          (columns, m) ← lay_out widths n r.columns
          returned (record r { columns = columns }, m))
        else returned (r, n)
    (rest, k) ← lay_out_rows row_id widths m rs
    returned (row ∷ rest, k)

  unfoldable pub set_row_layout : String → List ℕ → State → Outcome State
  unfolding lay_out_rows
  set_row_layout row_id widths s = do
    (rows, n) ← lay_out_rows row_id widths s.seed (rows_of s)
    returned (record (set_rows rows s) { seed = n })

  abbrev pub new_block : String → State → Section
  new_block type s = record { id = uid s.seed; type = type; props = default_props type }

  -- `addBlock` once its target is known.
  unfoldable pub add_block_at : Option (String × String) → String → State → State
  unfolding map_blocks
  add_block_at none type s =
      let block = new_block type s in
      let column : Column = record { id = uid (s.seed + 2); width = 1; blocks = block ∷ [] } in
      let row : Row = record { id = uid (s.seed + 1); columns = column ∷ [] } in
      record (select row.id column.id block.id (set_rows (rows_of s ++ row ∷ []) s)) {
        seed = s.seed + 3;
      }
  add_block_at (some (row_id, col_id)) type s =
      let block = new_block type s in
      let rows = map_blocks row_id col_id (λ bs. bs ++ block ∷ []) (rows_of s) in
      record (select row_id col_id block.id (set_rows rows s)) { seed = s.seed + 1 }

  unfoldable pub add_block : String → State → Outcome State
  unfolding add_target add_block_at
  add_block type s = do target ← add_target s; returned (add_block_at target type s)

  -- The copy goes right behind the first block with the id.
  unfoldable pub duplicate_in : String → ℕ → List Section → List Section × ℕ
  duplicate_in id n [] = ([], n)
  duplicate_in id n (b ∷ bs) =
      let (rest, m) = duplicate_in id n bs in
      if has_block_id id b then (b ∷ record b { id = uid n } ∷ bs, suc n) else (b ∷ rest, m)

  unfoldable pub copy_in_column : String → ℕ → Column → Column × ℕ
  unfolding duplicate_in
  copy_in_column id n c =
      (record c { blocks = (duplicate_in id n c.blocks).0 }, (duplicate_in id n c.blocks).1)

  unfoldable pub copy_in_row : String → String → ℕ → Row → Row × ℕ
  unfolding copy_in_column
  copy_in_row col_id id n r =
      let (columns, m) = thread_where (has_col_id col_id) (copy_in_column id) n r.columns in
      (record r { columns = columns }, m)

  unfoldable pub duplicate_block : String → String → String → State → State
  unfolding copy_in_row
  duplicate_block row_id col_id id s =
      let (rows, n) = thread_where (has_row_id row_id) (copy_in_row col_id id) s.seed (rows_of s) in
      record (set_rows rows s) { seed = n }
