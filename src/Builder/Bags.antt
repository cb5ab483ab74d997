-- ===== src/Builder/Bags.antt =====
-- The email of EmailBuilder.tsx without its order: the bag of its blocks, and what each action does
-- to that bag.
use mathlib.Core.Bool.{Bool-set}
use procovar_notify.Builder.Locate.{BlockPlace, find_block}
use procovar_notify.Builder.State.{Sel, State, rows_of}
use procovar_notify.Builder.Holds.{is_some, any-perm, any-find_block, any_absent}
use procovar_notify.Builder.Ids.{block_ids}
use procovar_notify.Prelude.{
  any, Bool, true, false, if◌then◌else◌, String, ℕ, ◌≡◌, refl, ap, ◌&&◌, ◌==◌, Option, none, some,
  List, [], ◌∷◌, ◌++◌, keep, returned,
}
use mathlib.Core.Quot
use mathlib.Core.Quot.{Quot, Quot-set}
use mathlib.Core.List.{Perm, Mem}
use mathlib.Core.List.Perm
use procovar_notify.Structure.{Section, Row, rows_blocks}
use procovar_notify.Builder.Palette.{default_props}
use procovar_notify.Builder.Edit.{has_row_id, has_block_id, with_prop, column_at}
use procovar_notify.Builder.Actions.{
  Action, adds, adds_row, lays_out, removes_row, duplicates, removes, sets, starts_drag, hovers,
  ends_drag, cancels_drag, selects, colors, sets_font, views, shows, perform,
}

abbrev pub Bag : Type 0
Bag = Quot (Perm {A = Section})

abbrev pub bag : List Row → Bag
bag rows = Quot.mk (rows_blocks rows)

unfoldable pub put : Section → Bag → Bag
put x = Quot.lift Quot-set (λ xs. Quot.mk (x ∷ xs)) (λ xs ys h. Quot.sound (Perm.cons x h))

abbrev pub put_all : List Section → Bag → Bag
put_all [] b = b
put_all (x ∷ xs) b = put x (put_all xs b)

pub put_all-mk : (xs bs : List Section) → put_all xs (Quot.mk bs) ≡ Quot.mk (xs ++ bs)
unfolding put
put_all-mk [] bs = refl
put_all-mk (x ∷ xs) bs = ap (put x) (put_all-mk xs bs)

-- Whether a block with the id is in the bag.
unfoldable pub holds : String → Bag → Bool
holds id = Quot.lift Bool-set (any (has_block_id id)) (λ xs ys h. any-perm (has_block_id id) h)

pub holds-bag : (id : String) (rows : List Row) → holds id (bag rows) ≡ is_some (find_block id rows)
unfolding holds
holds-bag id rows = any-find_block id rows

pub holds-absent :
    (id : String) (rows : List Row) → ¬ Mem id (block_ids rows) → holds id (bag rows) ≡ false
unfolding holds
holds-absent id rows h = any_absent id (rows_blocks rows) h

-- What the machine on bags sees of the builder: the bag of the blocks, the id that uid() draws next,
-- the blocks of the rows with an id, whether a new block has a place to go to, and the block that
-- the inspector writes.
pub record Seen : Type 0 where
  pub blocks : Bag
  pub fresh : String
  pub in_row : String → List Section
  pub receives : Bool
  pub edited : Option Section

-- A new block has no place to go to if the column of the selection is gone.
abbrev pub receives_at : Option Sel → List Row → Bool
receives_at none rows = true
receives_at (some t) rows = is_some (column_at t.row_id t.col_id rows)

abbrev pub if_there : Sel → Option BlockPlace → Option Section
if_there t none = none
if_there t (some p) = if t.row_id == p.row_id && t.col_id == p.col_id then some p.block else none

-- The inspector writes the selected block if it stands in the row and the column of the selection.
abbrev pub edited_in : Sel → Option String → List Row → Option Section
edited_in t none rows = none
edited_in t (some id) rows = if id == "" then none else if_there t (find_block id rows)

abbrev pub edited_at : Option Sel → List Row → Option Section
edited_at none rows = none
edited_at (some t) rows = edited_in t t.block_id rows

abbrev pub seen : (ℕ → String) → State → Seen
seen uid s = record {
  blocks = bag (rows_of s);
  fresh = uid s.seed;
  in_row = λ id. rows_blocks (keep (has_row_id id) (rows_of s));
  receives = receives_at s.sel (rows_of s);
  edited = edited_at s.sel (rows_of s);
}

-- A block of the bag gets a new text of a prop, and the others stay; without a block all stay.
abbrev pub IsWritten : (key val : String) → Option Section → Bag → Bag → Type 0
IsWritten key val none b b' = b' ≡ b
IsWritten key val (some x) b b' = (r : Bag) × (b ≡ put x r) × (b' ≡ put (with_prop key val x) r)

-- What an action does to the bag. A block of the palette is added once, under the next id with the
-- default props of its type, if it has a place to go to. If the bag holds the id, a block with it
-- is copied under the next id, or taken out so that none is left, and else nothing happens. The
-- blocks of the row are taken out, and no other. A prop of the edited block is written. All other
-- actions leave the bag as it is.
abbrev pub IsStep : Action → Seen → Bag → Type 0
IsStep (adds type) m b' =
    if m.receives
    then b' ≡ put (record { id = m.fresh; type = type; props = default_props type }) m.blocks
    else b' ≡ m.blocks
IsStep (duplicates id) m b' =
    if holds id m.blocks
    then ((x : Section) × (r : Bag) × (x.id ≡ id)
        × (m.blocks ≡ put x r)
        × (b' ≡ put (record x { id = m.fresh }) m.blocks))
    else b' ≡ m.blocks
IsStep (removes id) m b' =
    if holds id m.blocks
    then ((x : Section) × (x.id ≡ id) × (m.blocks ≡ put x b') × (holds id b' ≡ false))
    else b' ≡ m.blocks
IsStep (removes_row id) m b' = m.blocks ≡ put_all (m.in_row id) b'
IsStep (sets key val) m b' = IsWritten key val m.edited m.blocks b'
IsStep (adds_row layout) m b' = b' ≡ m.blocks
IsStep (lays_out row_id layout) m b' = b' ≡ m.blocks
IsStep (starts_drag id) m b' = b' ≡ m.blocks
IsStep (hovers e) m b' = b' ≡ m.blocks
IsStep (ends_drag e) m b' = b' ≡ m.blocks
IsStep cancels_drag m b' = b' ≡ m.blocks
IsStep (selects sel) m b' = b' ≡ m.blocks
IsStep (colors color) m b' = b' ≡ m.blocks
IsStep (sets_font family) m b' = b' ≡ m.blocks
IsStep (views k) m b' = b' ≡ m.blocks
IsStep (shows m') m b' = b' ≡ m.blocks

-- The actions one after the other: each returns and makes its step.
abbrev pub IsRun :
    (ℕ → String) → (List Row → ℕ → ℕ → List Row) → List Action → State → State → Type 0
IsRun uid array_move [] s s' = s' ≡ s
IsRun uid array_move (a ∷ rest) s s' =
    (next : State) × (perform uid array_move a s ≡ returned next)
    × IsStep a (seen uid s) (bag (rows_of next))
    × IsRun uid array_move rest next s'
