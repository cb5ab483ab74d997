-- ===== src/Builder/Targets.antt =====
-- The target that `computeBlockDrop` of EmailBuilder.tsx names is a column of the email.
use procovar_notify.Prelude.{
  String, length, ◌≡◌, refl, sym, ap, ◌∙◌, ◌≢◌, inl, inr, some, List, [], ◌∷◌, ◌==◌, eq_iff,
  eq_refl, eq_of_ne, find, strip_prefix, returned, Bool, Bool-cases, Option-cases,
}
use mathlib.Core.List.{Mem, Nodup, Nodup-cons, mem-cons}
use mathlib.Core.Logic.Or
use mathlib.Core.Option.{some-injective}
use procovar_notify.Structure.{Column, Row}
use procovar_notify.Builder.Locate.{find_block, find_column}
use procovar_notify.Builder.Edit.{has_row_id, has_col_id, column_at}
use procovar_notify.Builder.Ids.{
  IsDistinct, row_ids, column_at-cons_ne, column_at-cons_eq, find_block-place,
}
use procovar_notify.Builder.Move.{column_at-find}
use procovar_notify.Builder.Drag.{
  Over, DragEvent, BlockDrop, drop_on_column, first_column_drop, drop_on_row, drop_on_block,
  drop_over, compute_block_drop,
}

find-test {ℓ} :
    {A : Type ℓ} (key : A → String) (k : String) (xs : List A) (x : A)
    → find (λ x. key x == k) xs ≡ some x
    → key x ≡ k
find-test key k [] x e = cc
find-test key k (y ∷ ys) x e = elim (Bool-cases (key y == k)) [
  | inl hit ↦ ap key (sym (some-injective _ _ (rw hit at e))) ∙ (eq_iff (key y) k).0 hit
  | inr miss ↦ find-test key k ys x (rw miss at e)
]

-- `findColumn` gives a column with the id, and its row.
find_column-Mem :
    (col_id : String) (rows : List Row) (l : String × Column)
    → Nodup (row_ids rows)
    → find_column col_id rows ≡ some l
    → (column_at l.0 l.1.id rows ≡ some l.1) × Mem l.0 (row_ids rows)
unfolding find_column
find_column-Mem col_id [] l d e = cc
find_column-Mem col_id (r ∷ rs) l d e =
    elim (Option-cases (find (λ (c : Column). c.id == col_id) r.columns)) [
      | inl gone ↦
          let (there, known) =
            find_column-Mem col_id rs l (Nodup-cons.0 d).1 (rw (gone, find_column) at e) in
          let other : r.id ≢ l.0 = λ q. (Nodup-cons.0 d).0 (rw (← q) at known) in
          (
            column_at-cons_ne l.0 l.1.id r rs (eq_of_ne r.id l.0 other) ∙ there,
            mem-cons.1 (Or.inr known),
          )
      | inr (c, found) ↦
          let same : (r.id, c) ≡ l = some-injective _ _ (rw (found, find_column) at e) in
          let test : c.id ≡ col_id = find-test (λ (c : Column). c.id) col_id r.columns c found in
          rw (← same) (
            column_at-cons_eq r.id c.id r rs (eq_refl r.id)
                ∙ ap (λ k. find (has_col_id k) r.columns) test
                ∙ found,
            mem-cons.1 (Or.inl refl),
          )
    ]

abbrev pub HasTarget : List Row → BlockDrop → Type 0
HasTarget rows d = (c : Column) × (column_at d.row_id d.col_id rows ≡ some c)

drop_on_column-HasTarget :
    (col_id : String) (rows : List Row) (d : BlockDrop)
    → IsDistinct rows
    → drop_on_column col_id rows ≡ some d
    → HasTarget rows d
unfolding drop_on_column
drop_on_column-HasTarget col_id rows d h e = elim (Option-cases (find_column col_id rows)) [
  | inl gone ↦ cc (rw (gone, drop_on_column) at e)
  | inr (l, found) ↦
      let same = some-injective _ _ (rw (found, drop_on_column) at e) in
      rw (← same) (l.1, (find_column-Mem col_id rows l h.by_row found).0)
]

head_found : (c : Column) (cs : List Column) → find (has_col_id c.id) (c ∷ cs) ≡ some c
head_found c cs = rw (eq_refl c.id) refl

first_column_drop-HasTarget :
    (row_id : String) (rows : List Row) (r : Row) (cs : List Column) (d : BlockDrop)
    → find (has_row_id row_id) rows ≡ some r
    → r.columns ≡ cs
    → first_column_drop r.id cs ≡ returned (some d)
    → HasTarget rows d
unfolding first_column_drop
first_column_drop-HasTarget row_id rows r [] d found these e = cc e
first_column_drop-HasTarget row_id rows r (c ∷ cs) d found these e =
    let named : r.id ≡ row_id = find-test (λ (r : Row). r.id) row_id rows r found in
    let here : record { row_id = r.id; col_id = c.id; index = length c.blocks } ≡ d = cc in
    rw (← here) (
      c,
      ap (λ k. column_at k c.id rows) named
          ∙ column_at-find row_id c.id rows r found
          ∙ ap (find (has_col_id c.id)) these
          ∙ head_found c cs,
    )

drop_on_row-HasTarget :
    (row_id : String) (rows : List Row) (d : BlockDrop)
    → drop_on_row row_id rows ≡ returned (some d)
    → HasTarget rows d
unfolding drop_on_row
drop_on_row-HasTarget row_id rows d e = elim (Option-cases (find (has_row_id row_id) rows)) [
  | inl gone ↦ cc (rw (gone, drop_on_row) at e)
  | inr (r, found) ↦
      first_column_drop-HasTarget row_id rows r r.columns d found refl
        (rw (found, drop_on_row) at e)
]

drop_on_block-HasTarget :
    (id : String) (after : Bool) (rows : List Row) (d : BlockDrop)
    → IsDistinct rows
    → drop_on_block id after rows ≡ some d
    → HasTarget rows d
unfolding drop_on_block
drop_on_block-HasTarget id after rows d h e = elim (Option-cases (find_block id rows)) [
  | inl gone ↦ cc (rw (gone, drop_on_block) at e)
  | inr (p, found) ↦
      let same = some-injective _ _ (rw (found, drop_on_block) at e) in
      let (c, at_col, _, _) = find_block-place id rows p h found in rw (← same) (c, at_col)
]

drop_over-HasTarget :
    (over : Over) (rows : List Row) (d : BlockDrop)
    → IsDistinct rows
    → drop_over over rows ≡ returned (some d)
    → HasTarget rows d
unfolding drop_over
drop_over-HasTarget over rows d h e = elim (Option-cases (strip_prefix "col:" over.id)) [
  | inr (col_id, p) ↦ drop_on_column-HasTarget col_id rows d h (cc (rw (p, drop_over) at e))
  | inl p ↦ elim (Option-cases (strip_prefix "row:" over.id)) [
    | inr (row_id, q) ↦ drop_on_row-HasTarget row_id rows d (rw q at (rw (p, drop_over) at e))
    | inl q ↦
        drop_on_block-HasTarget over.id over.after rows d h (cc (rw q at (rw (p, drop_over) at e)))
  ]
]

pub compute_block_drop-HasTarget :
    (e : DragEvent) (rows : List Row) (d : BlockDrop)
    → IsDistinct rows
    → compute_block_drop e rows ≡ returned (some d)
    → HasTarget rows d
unfolding compute_block_drop
compute_block_drop-HasTarget e rows d h q = elim (Option-cases e.over) [
  | inl out ↦ cc (rw (out, compute_block_drop) at q)
  | inr (over, at_over) ↦ elim (Bool-cases e.active_is_row) [
    | inl row ↦ cc (rw row at (rw (at_over, compute_block_drop) at q))
    | inr block ↦
        drop_over-HasTarget over rows d h (rw block at (rw (at_over, compute_block_drop) at q))
  ]
]
