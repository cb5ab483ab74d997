-- ===== src/Template/Reload.antt =====
-- A structure that the editor saved is opened as it was.
use procovar_notify.Prelude.{
  String, ℕ, zero, suc, ◌≤◌, ◌≡◌, refl, ap, none, some, List, [], ◌∷◌, map, arith, All,
}
use procovar_notify.Structure.{Section, Column, Row, Theme}
use procovar_notify.Template.Normalize.{
  RawSection, RawColumn, RawRow, RawStructure, map_fresh, width_or_one, to_section, to_column,
  to_columns, to_row, to_structure,
}

-- What the server hands back for a structure.
abbrev pub raw_section : Section → RawSection
raw_section b = record { id = some b.id; type = some b.type; props = some b.props }

abbrev pub raw_column : Column → RawColumn
raw_column c = record {
  id = some c.id;
  width = some c.width;
  blocks = some (map raw_section c.blocks);
}

abbrev pub raw_row : Row → RawRow
raw_row r = record { id = some r.id; columns = some (map raw_column r.columns) }

abbrev pub saved_email : Theme → List Row → RawStructure
saved_email theme rows = record {
  theme = some theme;
  rows = some (map raw_row rows);
  sections = none;
}

-- Every column has a width.
abbrev pub HasWidths : List Row → Type 0
HasWidths rows = All (λ (r : Row). All (λ (c : Column). 1 ≤ c.width) r.columns) rows

map_fresh-id {ℓ κ} :
    {A : Type ℓ} {B : Type κ} (P : B → Type 0) (f : A → ℕ → B × ℕ) (g : B → A)
    → ((x : B) (n : ℕ) → P x → f (g x) n ≡ (x, n))
    → (xs : List B) (n : ℕ) → All P xs
    → map_fresh f (map g xs) n ≡ (xs, n)
unfolding map_fresh
map_fresh-id P f g h [] n k = refl
map_fresh-id P f g h (x ∷ xs) n (p, k) = rw (h x n p) (rw (map_fresh-id P f g h xs n k) refl)

width_lem : (n : ℕ) → 1 ≤ n → width_or_one (some n) ≡ n
width_lem zero h = omega (arith, h)
width_lem (suc n) h = refl

abbrev Any : Section → Type 0
Any b = b ≡ b

Any-All : (xs : List Section) → All Any xs
Any-All [] = tt
Any-All (x ∷ xs) = (refl, Any-All xs)

module _ (uid : ℕ → String) where
  section-id : (b : Section) (n : ℕ) → Any b → to_section uid (raw_section b) n ≡ (b, n)
  unfolding to_section
  section-id b n h = refl

  column-id : (c : Column) (n : ℕ) → 1 ≤ c.width → to_column uid (raw_column c) n ≡ (c, n)
  unfolding to_column
  column-id c n h =
      rw
        (
          map_fresh-id Any (to_section uid) raw_section section-id c.blocks n (Any-All c.blocks),
          width_lem c.width h,
        )
        refl

  row-id :
      (r : Row) (n : ℕ)
      → All (λ (c : Column). 1 ≤ c.width) r.columns
      → to_row uid (raw_row r) n ≡ (r, n)
  unfolding to_row to_columns
  row-id r n h =
      rw
        (map_fresh-id (λ (c : Column). 1 ≤ c.width) (to_column uid) raw_column column-id r.columns n
          h)
        refl

  -- An email structure with at least one row, whose columns have a width of at least 1, is opened as
  -- it was saved, and no id is drawn.
  pub to_structure-saved_email :
      (theme : Theme) (r : Row) (rs : List Row) (n : ℕ)
      → HasWidths (r ∷ rs)
      → to_structure uid (saved_email theme (r ∷ rs)) "EMAIL" n
        ≡ (record { theme = some theme; rows = some (r ∷ rs); sections = none }, n)
  unfolding to_structure
  to_structure-saved_email theme r rs n h =
      ap (λ q. (record { theme = some theme; rows = some q.0; sections = none }, q.1))
        (map_fresh-id (λ (r : Row). All (λ (c : Column). 1 ≤ c.width) r.columns) (to_row uid)
          raw_row row-id (r ∷ rs) n h)
