-- ===== src/Builder/Once.antt =====
-- A block of EmailBuilder.tsx stands in one column, when ids are distinct.
use procovar_notify.Prelude.{
  String, ◌≡◌, ◌≢◌, some, List, [], ◌∷◌, append-nil, get_elem?, splice_out, splice_out-perm,
}
use mathlib.Core.List.{Mem, Perm, Nodup-cons, map-append, mem-append}
use mathlib.Core.List.Perm
use mathlib.Core.Logic.Or
use procovar_notify.Structure.{Section, Column, Row, rows_blocks}
use procovar_notify.Builder.Locate.{BlockPlace}
use procovar_notify.Builder.Edit.{column_at, update_column}
use procovar_notify.Builder.Ids.{IsDistinct, block_ids}
use procovar_notify.Builder.Move.{update_column-perm}
use procovar_notify.Builder.Splices.{ids_of}
use procovar_notify.Builder.Columns.{column_at-update_column_apart}

column-Mem :
    (row_id col_id id : String) (rows : List Row) (c : Column)
    → column_at row_id col_id rows ≡ some c
    → Mem id (ids_of c.blocks)
    → Mem id (block_ids rows)
column-Mem row_id col_id id rows c e m =
    let split =
      update_column-perm row_id col_id (λ _. []) c.blocks [] rows c e
        (rw (append-nil c.blocks) (Perm.refl _)) in
    let ids = Perm.map (λ (b : Section). b.id) split in
    (Perm.mem_iff ids).0 (rw map-append (mem-append.1 (Or.inl m)))

-- A block that stands in a column stands in no column with another id.
pub block_once :
    (src : BlockPlace) (row_id col_id : String) (rows : List Row) (c c' : Column)
    → IsDistinct rows
    → column_at src.row_id src.col_id rows ≡ some c
    → get_elem? c.blocks src.index ≡ some src.block
    → column_at row_id col_id rows ≡ some c'
    → src.col_id ≢ col_id
    → ¬ Mem src.block.id (ids_of c'.blocks)
block_once src row_id col_id rows c c' distinct at_src at_index at_dest other m =
    let out : List Section → List Section = splice_out src.index in
    let mid = update_column src.row_id src.col_id out rows in
    let at_mid =
      column_at-update_column_apart src.row_id src.col_id out row_id col_id rows c' other at_dest in
    let removed : Perm (src.block ∷ rows_blocks mid) (rows_blocks rows) =
      update_column-perm src.row_id src.col_id out (src.block ∷ []) [] rows c at_src
        (Perm.symm (splice_out-perm src.index src.block c.blocks at_index)) in
    let ids = Perm.nodup (Perm.map (λ (b : Section). b.id) (Perm.symm removed)) distinct.by_block in
    (Nodup-cons.0 ids).0 (column-Mem row_id col_id src.block.id mid c' at_mid m)
