-- ===== src/Builder/Ids.antt =====
-- The ids of an email in EmailBuilder.tsx, and what the locators find when they are distinct.
use procovar_notify.Prelude.{
  true, false, ◌∙◌, String, ℕ, suc, ◌≡◌, refl, ◌≢◌, inl, inr, some, List, [], ◌∷◌, map, ◌==◌,
  eq_iff, eq_refl, find, get_elem?, flat_map, Bool-cases, Option-cases, eq_of_ne,
}
use mathlib.Core.List.{Nodup-append, Mem, Nodup, Nodup-cons, mem-cons}
use mathlib.Core.Logic.Or
use mathlib.Core.Option.{some-injective}
use procovar_notify.Structure.{Section, Column, Row, rows_blocks}
use procovar_notify.Builder.Locate.{find_block, BlockPlace, index_of, find_in_columns}
use procovar_notify.Builder.Edit.{column_at, has_col_id}

abbrev pub row_ids : List Row → List String
row_ids = map (λ (r : Row). r.id)

abbrev pub column_ids : List Column → List String
column_ids = map (λ (c : Column). c.id)

abbrev pub col_ids : List Row → List String
col_ids = flat_map (λ (r : Row). column_ids r.columns)

abbrev pub block_ids : List Row → List String
block_ids rows = map (λ (b : Section). b.id) (rows_blocks rows)

-- No two rows, no two columns and no two blocks share an id.
pub record IsDistinct (rows : List Row) : Type 0 where
  pub by_row : Nodup (row_ids rows)
  pub by_column : Nodup (col_ids rows)
  pub by_block : Nodup (block_ids rows)

abbrev up : ℕ × Section → ℕ × Section
up f = (suc f.0, f.1)

-- The block that `findBlock` finds stands where it says and has the id.
pub index_of_lem :
    (id : String) (bs : List Section) (f : ℕ × Section)
    → index_of id bs ≡ some f
    → (get_elem? bs f.0 ≡ some f.1) × (f.1.id ≡ id)
unfolding index_of
index_of_lem id [] f e = cc
index_of_lem id (x ∷ xs) f e = elim (Bool-cases (x.id == id)) [
  | inl hit ↦
      let here : (0, x) ≡ f = some-injective _ _ (rw hit at e) in
      rw (← here) (refl, (eq_iff x.id id).0 hit)
  | inr miss ↦ elim (Option-cases (index_of id xs)) [
    | inl gone ↦ cc (rw gone at (rw miss at e))
    | inr (g, found) ↦
        let there : up g ≡ f = some-injective _ _ (rw found at (rw miss at e)) in
        rw (← there) (index_of_lem id xs g found)
  ]
]

find_in_columns-place :
    (id row_id : String) (cs : List Column) (p : BlockPlace)
    → Nodup (column_ids cs)
    → find_in_columns id row_id cs ≡ some p
    → (c : Column) × (find (has_col_id p.col_id) cs ≡ some c)
      × (p.row_id ≡ row_id)
      × (get_elem? c.blocks p.index ≡ some p.block)
      × (p.block.id ≡ id)
      × Mem p.col_id (column_ids cs)
unfolding find_in_columns
find_in_columns-place id row_id [] p d e = cc
find_in_columns-place id row_id (c ∷ cs) p d e = elim (Option-cases (index_of id c.blocks)) [
  | inl gone ↦
      let (c', found, row, at_index, same, known) =
        find_in_columns-place id row_id cs p (Nodup-cons.0 d).1 (rw (gone, find_in_columns) at e) in
      let other : c.id ≢ p.col_id = λ q. (Nodup-cons.0 d).0 (rw (← q) at known) in
      (c', rw (eq_of_ne c.id p.col_id other) found, row, at_index, same, mem-cons.1 (Or.inr known))
  | inr ((i, b), found) ↦
      let here : record { row_id = row_id; col_id = c.id; index = i; block = b } ≡ p =
        some-injective _ _ (rw (found, find_in_columns) at e) in
      let (at_index, same) = index_of_lem id c.blocks (i, b) found in
      rw (← here) (c, rw (eq_refl c.id) refl, refl, at_index, same, mem-cons.1 (Or.inl refl))
]

-- What `findBlock` gives, when ids are distinct, leads back to the block through the row's and the
-- column's id.
abbrev pub IsPlaceOf : String → List Row → BlockPlace → Type 0
IsPlaceOf id rows p =
    (c : Column) × (column_at p.row_id p.col_id rows ≡ some c)
    × (get_elem? c.blocks p.index ≡ some p.block)
    × (p.block.id ≡ id)

pub column_at-cons_ne :
    (row_id col_id : String) (r : Row) (rs : List Row)
    → (r.id == row_id) ≡ false
    → column_at row_id col_id (r ∷ rs) ≡ column_at row_id col_id rs
unfolding column_at
column_at-cons_ne row_id col_id r rs e = rw (column_at, e) refl

pub column_at-cons_eq :
    (row_id col_id : String) (r : Row) (rs : List Row)
    → (r.id == row_id) ≡ true
    → column_at row_id col_id (r ∷ rs) ≡ find (has_col_id col_id) r.columns
unfolding column_at
column_at-cons_eq row_id col_id r rs e = rw (column_at, e) refl

find_block-mem :
    (id : String) (rows : List Row) (p : BlockPlace)
    → Nodup (row_ids rows)
    → Nodup (col_ids rows)
    → find_block id rows ≡ some p
    → IsPlaceOf id rows p × Mem p.row_id (row_ids rows)
unfolding find_block
find_block-mem id [] p dr dc e = cc
find_block-mem id (r ∷ rs) p dr dc e =
    let (here, later, apart) = (Nodup-append {l₁ = column_ids r.columns}).0 dc in
    elim (Option-cases (find_in_columns id r.id r.columns)) [
      | inl gone ↦
          let (place, known) =
            find_block-mem id rs p (Nodup-cons.0 dr).1 later (rw (gone, find_block) at e) in
          let (c, found, at_index, same) = place in
          let other : r.id ≢ p.row_id = λ q. (Nodup-cons.0 dr).0 (rw (← q) at known) in
          (
            (
              c,
              column_at-cons_ne p.row_id p.col_id r rs (eq_of_ne r.id p.row_id other) ∙ found,
              at_index,
              same,
            ),
            mem-cons.1 (Or.inr known),
          )
      | inr (q, found) ↦
          let same : q ≡ p = some-injective _ _ (rw (found, find_block) at e) in
          let (c, at_col, row, at_index, named, _) =
            find_in_columns-place id r.id r.columns q here found in
          rw (← same) (
            (
              c,
              rw row (column_at-cons_eq r.id q.col_id r rs (eq_refl r.id) ∙ at_col),
              at_index,
              named,
            ),
            mem-cons.1 (Or.inl row),
          )
    ]

-- With distinct ids, the place that `findBlock` returns is right: looking up its row and column by
-- their ids gives a column that has the returned block at the returned index, and that block has the
-- id.
pub find_block-place :
    (id : String) (rows : List Row) (p : BlockPlace)
    → IsDistinct rows
    → find_block id rows ≡ some p
    → IsPlaceOf id rows p
find_block-place id rows p d e = (find_block-mem id rows p d.by_row d.by_column e).0
