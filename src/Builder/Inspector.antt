-- ===== src/Builder/Inspector.antt =====
-- The inspector of EmailBuilder.tsx writes to the row and the column of the selection, but shows the
-- selected block wherever it stands.
use mathlib.Core.Option.{some-injective}
use procovar_notify.Builder.AddBlock.{update_column-none}
use procovar_notify.Builder.Blocks.{map_blocks-eq-update_column, get_elem?-mem}
use procovar_notify.Builder.Edit.{has_block_id, with_prop, map_blocks, set_prop, map_col}
use procovar_notify.Builder.State.{Sel}
use procovar_notify.Builder.Actions.{sel_block, set_selected, set_at}
use procovar_notify.Builder.Once.{block_once}
use procovar_notify.Prelude.{
  eq_of_ne, suc, Option-cases, String, if◌then◌else◌, Bool, true, false, ◌&&◌, ℕ, zero,
  update_where, update_where_absent, ◌≡◌, refl, sym, ap, ◌∙◌, ◌≢◌, inl, inr, true, false, some,
  List, [], ◌∷◌, ◌==◌, eq_iff, get_elem?, Bool-cases, arith,
}
use mathlib.Core.List.{Nodup, Perm, Nodup-cons}
use mathlib.Core.List.Perm
use procovar_notify.Structure.{Section, Column, Row, rows_blocks}
use procovar_notify.Builder.Locate.{BlockPlace, find_block}
use procovar_notify.Builder.State.{State, rows_of}
use procovar_notify.Builder.Edit.{column_at, update_column}
use procovar_notify.Builder.Ids.{IsPlaceOf, IsDistinct, find_block-place}
use procovar_notify.Builder.Move.{update_column-perm}
use procovar_notify.Builder.Blocks.{column-Nodup}
use procovar_notify.Builder.Splices.{ids_of}
use procovar_notify.Builder.Columns.{column_at_row}

update_where-perm :
    (id : String) (f : Section → Section) (bs : List Section) (i : ℕ) (b : Section)
    → Nodup (ids_of bs)
    → get_elem? bs i ≡ some b
    → b.id ≡ id
    → Perm (b ∷ update_where (has_block_id id) f bs) (f b ∷ bs)
update_where-perm id f [] i b d e same = cc
update_where-perm id f (x ∷ xs) zero b d e same =
    let it : x ≡ b = some-injective _ _ e in
    let hit : x.id ≡ id = ap (λ (b : Section). b.id) it ∙ same in
    let test : (x.id == id) ≡ true = (eq_iff x.id id).1 hit in
    let rest =
      update_where_absent (λ (b : Section). b.id) id f xs (rw hit at ((Nodup-cons.0 d).0)) in
    rw (test, rest, it) (Perm.swap (f b) b xs)
update_where-perm id f (x ∷ xs) (suc i) b d e same =
    let other : x.id ≢ id = λ q. (Nodup-cons.0 d).0 (rw (q, ← same) (get_elem?-mem xs i b e)) in
    rw (eq_of_ne x.id id other) (
      Perm.trans (Perm.swap x b _) (
        Perm.trans (Perm.cons x (update_where-perm id f xs i b (Nodup-cons.0 d).1 e same))
          (Perm.swap (f b) x xs)))

-- The block as the inspector leaves it: written only where the selection's column holds it.
abbrev pub written : String → String → Sel → BlockPlace → Section
written key val t p =
    if t.row_id == p.row_id && t.col_id == p.col_id then with_prop key val p.block else p.block

abbrev is_there : Sel → BlockPlace → Bool
is_there t p = t.row_id == p.row_id && t.col_id == p.col_id

is_there-place :
    (t : Sel) (p : BlockPlace) (rows : List Row)
    → is_there t p ≡ true
    → column_at t.row_id t.col_id rows ≡ column_at p.row_id p.col_id rows
is_there-place t p rows h =
    let row = (eq_iff t.row_id p.row_id).0 (ground arith) in
    let col = (eq_iff t.col_id p.col_id).0 (ground arith) in
    ap (λ r. column_at r t.col_id rows) row ∙ ap (λ k. column_at p.row_id k rows) col

-- A column that is not the one of the place is another column.
is_elsewhere :
    (t : Sel) (p : BlockPlace) (rows : List Row) (c c' : Column)
    → IsDistinct rows
    → column_at p.row_id p.col_id rows ≡ some c
    → column_at t.row_id t.col_id rows ≡ some c'
    → is_there t p ≡ false
    → p.col_id ≢ t.col_id
is_elsewhere t p rows c c' h at_col at_sel away col =
    let row =
      column_at_row t.row_id p.row_id t.col_id rows c' c h.by_column at_sel
        (ap (λ k. column_at p.row_id k rows) (sym col) ∙ at_col) in
    cc ((eq_iff t.row_id p.row_id).1 row, (eq_iff t.col_id p.col_id).1 (sym col), away)

module _ (key val : String) (t : Sel) (p : BlockPlace) (rows : List Row) (h : IsDistinct rows)
    (place : IsPlaceOf p.block.id rows p) where
  abbrev write : List Section → List Section
  write = update_where (has_block_id p.block.id) (with_prop key val)

  write_there :
      is_there t p ≡ true
      → Perm
          (p.block ∷ rows_blocks (update_column t.row_id t.col_id write rows))
          (with_prop key val p.block ∷ rows_blocks rows)
  write_there there =
      let (c, at_col, at_index, _) = place in
      let at_sel = is_there-place t p rows there ∙ at_col in
      update_column-perm t.row_id t.col_id write (p.block ∷ []) (with_prop key val p.block ∷ [])
        rows c at_sel
        (update_where-perm p.block.id (with_prop key val) c.blocks p.index p.block
          (column-Nodup p.row_id p.col_id rows c h at_col) at_index refl)

  write_away :
      is_there t p ≡ false
      → Perm
          (p.block ∷ rows_blocks (update_column t.row_id t.col_id write rows))
          (p.block ∷ rows_blocks rows)
  write_away away = elim (Option-cases (column_at t.row_id t.col_id rows)) [
    | inl gone ↦ rw (update_column-none t.row_id t.col_id write rows gone) (Perm.refl _)
    | inr (c', at_sel) ↦
        let (c, at_col, at_index, _) = place in
        let other = is_elsewhere t p rows c c' h at_col at_sel away in
        let absent = block_once p t.row_id t.col_id rows c c' h at_col at_index at_sel other in
        let same =
          update_where_absent (λ (b : Section). b.id) p.block.id (with_prop key val) c'.blocks
            absent in
        update_column-perm t.row_id t.col_id write (p.block ∷ []) (p.block ∷ []) rows c' at_sel
          (rw same (Perm.refl _))
  ]

  write-perm :
      Perm
        (p.block ∷ rows_blocks (update_column t.row_id t.col_id write rows))
        (written key val t p ∷ rows_blocks rows)
  write-perm = elim (Bool-cases (is_there t p)) [
    | inl there ↦ rw there (write_there there)
    | inr away ↦ rw away (write_away away)
  ]

-- With distinct ids and a selected block, of an id that is not empty, that `findBlock` finds: the inspector shows that block,
-- and a change of one of its fields writes the field, and no other block, if the block stands in
-- the selection's row and column; if it stands elsewhere, every block stays as it is, so that what
-- was typed is lost.
pub set_selected-perm :
    (key val id : String) (t : Sel) (p : BlockPlace) (s : State)
    → IsDistinct (rows_of s)
    → s.sel ≡ some t
    → t.block_id ≡ some id
    → (id == "") ≡ false
    → find_block id (rows_of s) ≡ some p
    → (sel_block s ≡ some p.block)
      × Perm
          (p.block ∷ rows_blocks (rows_of (set_selected key val s)))
          (written key val t p ∷ rows_blocks (rows_of s))
unfolding set_selected
set_selected-perm key val id t p s h selected shows filled found =
    let (c, at_col, at_index, same) = find_block-place id (rows_of s) p h found in
    let shown : sel_block s ≡ some p.block =
      unfold sel_block in rw selected (rw shows (rw (filled, found) refl)) in
    let wrote : rows_of (set_at s.sel (sel_block s) key val s)
        ≡ map_blocks t.row_id t.col_id (write key val t p (rows_of s) h (c, at_col, at_index, refl))
            (rows_of s) =
      unfold set_prop map_col in rw (shown, selected) refl in
    (
      shown,
      rw (wrote, map_blocks-eq-update_column t.row_id t.col_id _ (rows_of s) h)
          (write-perm key val t p (rows_of s) h (c, at_col, at_index, refl)),
    )
