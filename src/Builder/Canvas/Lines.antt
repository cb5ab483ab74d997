-- ===== src/Builder/Canvas/Lines.antt =====
-- A column with blocks shows one guide line for a drop point, and none without one.
use procovar_notify.Prelude.{
  String, ℕ, suc, ◌+◌, ◌≤◌, ◌≡◌, refl, Bool, true, false, ◌&&◌, Option, none, some, List, [], ◌∷◌,
  ◌++◌, arith, eqb, length, inl, inr, Bool-cases, ◌<◌,
}
use procovar_notify.Structure.{Section}
use procovar_notify.Builder.Canvas.{
  Item, drop_line, block_row, ColumnProps, items_from, column_items, line_if, is_last,
}

abbrev pub lines : List Item → ℕ
lines [] = 0
lines (drop_line ∷ is) = suc (lines is)
lines (block_row b selected ∷ is) = lines is

abbrev one_if : Bool → ℕ
one_if true = 1
one_if false = 0

-- A block with the lines around it, before more items.
lines_around :
    (above below : Bool) (b : Section) (selected : Bool) (is : List Item)
    → lines (line_if above ++ block_row b selected ∷ (line_if below ++ is))
      ≡ one_if above + one_if below + lines is
lines_around true true b selected is = omega arith
lines_around true false b selected is = omega arith
lines_around false true b selected is = omega arith
lines_around false false b selected is = omega arith

lines_from :
    (i index : ℕ) (sel : Option String) (b : Section) (bs : List Section)
    → lines (items_from i (some index) sel (b ∷ bs))
      ≡ one_if (eqb index i)
        + one_if (eqb index (suc i) && is_last bs)
        + lines (items_from (suc i) (some index) sel bs)
unfolding items_from
lines_from i index sel b bs = lines_around (eqb index i) (eqb index (suc i) && is_last bs) b _ _

lines_nil : (i index : ℕ) (sel : Option String) → lines (items_from i (some index) sel []) ≡ 0
unfolding items_from
lines_nil i index sel = refl

-- Behind the drop point there is no line.
lines_behind :
    (i index : ℕ) (sel : Option String) (bs : List Section)
    → index < i
    → lines (items_from i (some index) sel bs) ≡ 0
lines_behind i index sel [] h = lines_nil i index sel
lines_behind i index sel (b ∷ bs) h =
    ground
      (arith, lines_from i index sel b bs, lines_behind (suc i) index sel bs (omega (arith, h)))

-- The drop point is before a block, or behind the last one.
lines_at :
    (i index : ℕ) (sel : Option String) (b : Section) (bs : List Section)
    → i ≤ index
    → index ≤ i + length (b ∷ bs)
    → lines (items_from i (some index) sel (b ∷ bs)) ≡ 1
lines_at i index sel b [] h k =
    ground (arith, h, k, lines_from i index sel b [], lines_nil (suc i) index sel)
lines_at i index sel b (c ∷ bs) h k = elim (Bool-cases (eqb index i)) [
  | inl e ↦ ground (
    arith,
    e,
    lines_from i index sel b (c ∷ bs),
    lines_behind (suc i) index sel (c ∷ bs) (ground (arith, e)),
  )
  | inr e ↦ ground (
    arith,
    e,
    lines_from i index sel b (c ∷ bs),
    lines_at (suc i) index sel c bs (ground (arith, e, h)) (omega (arith, k)),
  )
]

lines_without :
    (i : ℕ) (sel : Option String) (bs : List Section) → lines (items_from i none sel bs) ≡ 0
unfolding items_from
lines_without i sel [] = refl
lines_without i sel (b ∷ bs) = lines_without (suc i) sel bs

-- For a drop point inside of it a column with blocks shows exactly one guide line, and without a drop
-- point none.
pub column_items-lines :
    (c : ColumnProps) (index : ℕ)
    → 1 ≤ length c.column.blocks
    → index ≤ length c.column.blocks
    → (lines (column_items (record c { drop_at = some index })) ≡ 1)
      × (lines (column_items (record c { drop_at = none })) ≡ 0)
unfolding column_items
column_items-lines c index h k =
    (at_least_one c.column.blocks h k, lines_without 0 c.sel_block_id c.column.blocks)
  where
    at_least_one :
        (bs : List Section)
        → 1 ≤ length bs
        → index ≤ length bs
        → lines (items_from 0 (some index) c.sel_block_id bs) ≡ 1
    at_least_one [] h k = absurd (omega (arith, h))
    at_least_one (b ∷ bs) h k =
        lines_at 0 index c.sel_block_id b bs (omega arith) (omega (arith, k))
