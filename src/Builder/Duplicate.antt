-- ===== src/Builder/Duplicate.antt =====
-- `duplicateBlock` of EmailBuilder.tsx.
use procovar_notify.Prelude.{
  All-find, update_first-perm, String, ℕ, zero, suc, ◌≡◌, refl, sym, ap, ◌∙◌, ◌≢◌, inl, inr, true,
  some, List, [], ◌∷◌, map, ◌==◌, eq_iff, find, get_elem?, thread_where-once, Option-cases,
  eq_of_ne,
}
use mathlib.Core.List.{Nodup, Nodup-cons, Perm}
use mathlib.Core.List.Perm
use mathlib.Core.Option.{some-injective}
use procovar_notify.Structure.{Section, Column, Row, row_blocks, rows_blocks}
use procovar_notify.Builder.Locate.{BlockPlace, find_block}
use procovar_notify.Builder.State.{State, rows_of}
use procovar_notify.Builder.Edit.{
  copy_in_column, copy_in_row, has_row_id, has_col_id, duplicate_in, duplicate_block,
}
use procovar_notify.Builder.Ids.{IsDistinct, column_ids, find_block-place}
use procovar_notify.Builder.Move.{column_at-none, column_at-find}
use procovar_notify.Builder.Blocks.{get_elem?-mem, column-Nodup, columns-Nodup}

module _ (uid : ℕ → String) where
  duplicate_in-perm :
      (id : String) (n : ℕ) (bs : List Section) (i : ℕ) (b : Section)
      → Nodup (map (λ (b : Section). b.id) bs)
      → get_elem? bs i ≡ some b
      → b.id ≡ id
      → Perm (duplicate_in uid id n bs).0 (record b { id = uid n } ∷ bs)
        × ((duplicate_in uid id n bs).1 ≡ suc n)
  unfolding duplicate_in
  duplicate_in-perm id n [] i b d e same = cc
  duplicate_in-perm id n (x ∷ xs) zero b d e same =
      let it : x ≡ b = some-injective _ _ e in
      let test : (x.id == id) ≡ true = (eq_iff x.id id).1 (ap (λ (b : Section). b.id) it ∙ same) in
      rw test (rw it (Perm.swap _ _ _), refl)
  duplicate_in-perm id n (x ∷ xs) (suc i) b d e same =
      let other : x.id ≢ id = λ q. (Nodup-cons.0 d).0 (rw (q, ← same) (get_elem?-mem xs i b e)) in
      let (more, count) = duplicate_in-perm id n xs i b (Nodup-cons.0 d).1 e same in
      rw (eq_of_ne x.id id other) (Perm.trans (Perm.cons x more) (Perm.swap _ x xs), count)

  copy_in_row-perm :
      (col_id id : String) (n : ℕ) (r : Row) (c : Column) (i : ℕ) (b : Section)
      → Nodup (column_ids r.columns)
      → find (has_col_id col_id) r.columns ≡ some c
      → Nodup (map (λ (b : Section). b.id) c.blocks)
      → get_elem? c.blocks i ≡ some b
      → b.id ≡ id
      → Perm (row_blocks (copy_in_row uid col_id id n r).0) (record b { id = uid n } ∷ row_blocks r)
        × ((copy_in_row uid col_id id n r).1 ≡ suc n)
  unfolding copy_in_row
  copy_in_row-perm col_id id n r c i b d found db at_index same =
      let once =
        thread_where-once (λ (c : Column). c.id) col_id (copy_in_column uid id) n r.columns c d
          found in
      let (copied, count) = duplicate_in-perm id n c.blocks i b db at_index same in
      rw once (
        update_first-perm (λ (c : Column). c.blocks) (has_col_id col_id) _ []
            (record b { id = uid n } ∷ []) r.columns c found copied,
        count,
      )

  -- With distinct ids, duplicating a block that `findBlock` finds adds one block, which has the
  -- type and the props of the original and the next id, draws one id, and keeps the selection.
  pub duplicate_block-perm :
      (id : String) (p : BlockPlace) (s : State)
      → IsDistinct (rows_of s)
      → find_block id (rows_of s) ≡ some p
      → let s' = duplicate_block uid p.row_id p.col_id id s in
        Perm
          (rows_blocks (rows_of s'))
          (record (p.block) { id = uid s.seed } ∷ rows_blocks (rows_of s))
        × (s'.seed ≡ suc s.seed)
        × (s'.sel ≡ s.sel)
  unfolding duplicate_block
  duplicate_block-perm id p s d e =
      let (c, at_col, at_index, same) = find_block-place id (rows_of s) p d e in
      elim (Option-cases (find (has_row_id p.row_id) (rows_of s))) [
        | inl gone ↦ cc (at_col, column_at-none p.row_id p.col_id (rows_of s) gone)
        | inr (r, found) ↦
            let once =
              thread_where-once (λ (r : Row). r.id) p.row_id (copy_in_row uid p.col_id id) s.seed
                (rows_of s) r d.by_row found in
            let at_r = sym (column_at-find p.row_id p.col_id (rows_of s) r found) ∙ at_col in
            let (copied, count) =
              copy_in_row-perm p.col_id id s.seed r c p.index p.block
                (All-find (λ (r : Row). Nodup (column_ids r.columns)) _ (rows_of s) r
                  (columns-Nodup (rows_of s) d.by_column) found)
                at_r (column-Nodup p.row_id p.col_id (rows_of s) c d at_col) at_index same in
            rw once (
              update_first-perm row_blocks (has_row_id p.row_id) _ []
                  (record (p.block) { id = uid s.seed } ∷ []) (rows_of s) r found copied,
              count,
              refl,
            )
      ]
