-- ===== src/Builder/Locate.antt =====
-- The locators of EmailBuilder.tsx: `findBlock`, `findColumn` and `lastColumn`.
use procovar_notify.Prelude.{
  String, ℕ, suc, Option, none, some, List, [], ◌∷◌, ◌==◌, if◌then◌else◌, find, last, Outcome,
  returned, type_error,
}
use procovar_notify.Structure.{Section, Column, Row}
use mathlib.Core.Option

pub record BlockPlace : Type 0 where
  pub row_id : String
  pub col_id : String
  pub index : ℕ
  pub block : Section

-- `findIndex` by id, with the block at that index.
unfoldable pub index_of : String → List Section → Option (ℕ × Section)
index_of id [] = none
index_of id (b ∷ bs) =
    if b.id == id
    then some (0, b)
    else Option.map (λ (f : ℕ × Section). (suc f.0, f.1)) (index_of id bs)

abbrev place : String → String → ℕ × Section → BlockPlace
place row_id col_id (i, b) = record { row_id = row_id; col_id = col_id; index = i; block = b }

-- The inner loop of `findBlock`, over the columns of one row.
unfoldable pub find_in_columns : String → String → List Column → Option BlockPlace
unfolding index_of
find_in_columns id row_id [] = none
find_in_columns id row_id (c ∷ cs) =
    let later = find_in_columns id row_id cs in
    elim (index_of id c.blocks) [ none ↦ later | some f ↦ some (place row_id c.id f) ]

unfoldable pub find_block : String → List Row → Option BlockPlace
unfolding find_in_columns
find_block id [] = none
find_block id (r ∷ rs) =
    let later = find_block id rs in
    elim (find_in_columns id r.id r.columns) [ none ↦ later | some p ↦ some p ]

-- `findColumn`: the row's id and the column.
unfoldable pub find_column : String → List Row → Option (String × Column)
find_column col_id [] = none
find_column col_id (r ∷ rs) =
    let later = find_column col_id rs in
    elim (find (λ (c : Column). c.id == col_id) r.columns) [
      | none ↦ later
      | some c ↦ some (r.id, c)
    ]

-- `lastColumn`: null without rows; a last row without columns makes `c.id` throw.
unfoldable pub last_column : List Row → Outcome (Option (String × String))
last_column rows = elim (last rows) [
  | none ↦ returned none
  | some r ↦ elim (last r.columns) [ none ↦ type_error | some c ↦ returned (some (r.id, c.id)) ]
]
