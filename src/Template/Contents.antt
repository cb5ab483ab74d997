-- ===== src/Template/Contents.antt =====
-- `toStructure` keeps every saved block, with its type and its texts, in its order, and its columns
-- have a width.
use procovar_notify.Prelude.{
  String, ℕ, ◌≡◌, refl, ap, inl, inr, Option, none, some, List, [], ◌∷◌, map, ◌==◌, if◌then◌else◌,
  Bool-cases, flat_map, Dict, append-nil,
}
use mathlib.Core.List.{map-append}
use procovar_notify.Structure.{Section, Column, Theme, blocks_of, rows_blocks}
use procovar_notify.Template.Normalize.{
  RawSection, RawColumn, RawRow, RawStructure, map_fresh, map_array, type_or_text, props_or_empty,
  to_section, to_column, to_columns, to_row, email_structure, flat_structure, to_structure,
  theme_or_empty,
}

-- What a block shows: its type and its texts.
abbrev pub shown : Section → String × Dict String
shown b = (b.type, b.props)

abbrev pub raw_shown : RawSection → String × Dict String
raw_shown x = (type_or_text x.type, props_or_empty x.props)

abbrev pub raw_array {ℓ} : {A : Type ℓ} → Option (List A) → List A
raw_array none = []
raw_array (some xs) = xs

abbrev pub raw_row_blocks : RawRow → List RawSection
raw_row_blocks r = flat_map (λ (c : RawColumn). raw_array c.blocks) (raw_array r.columns)

abbrev pub raw_email_blocks : Option (List RawRow) → Option (List RawSection) → List RawSection
raw_email_blocks (some (r ∷ rs)) sections = flat_map raw_row_blocks (r ∷ rs)
raw_email_blocks _ sections = raw_array sections

-- The saved blocks: those of the rows for an email that has rows, else the flat list.
abbrev pub saved_blocks : RawStructure → String → List RawSection
saved_blocks s channel =
    if channel == "EMAIL" then raw_email_blocks s.rows s.sections else raw_array s.sections

module _ (uid : ℕ → String) where
  sections-shown :
      (xs : List RawSection) (n : ℕ)
      → map shown (map_fresh (to_section uid) xs n).0 ≡ map raw_shown xs
  unfolding map_fresh to_section
  sections-shown [] n = refl
  sections-shown (x ∷ xs) n = ap (λ l. raw_shown x ∷ l) (sections-shown xs _)

  array-shown :
      (xs : Option (List RawSection)) (n : ℕ)
      → map shown (map_array (to_section uid) xs n).0 ≡ map raw_shown (raw_array xs)
  array-shown none n = refl
  array-shown (some xs) n = sections-shown xs n

  columns-shown :
      (xs : List RawColumn) (n : ℕ)
      → map shown (flat_map (λ (c : Column). c.blocks) (map_fresh (to_column uid) xs n).0)
        ≡ map raw_shown (flat_map (λ (c : RawColumn). raw_array c.blocks) xs)
  unfolding map_fresh to_column
  columns-shown [] n = refl
  columns-shown (c ∷ cs) n = rw (map-append, array-shown, columns-shown cs, map-append) refl

  to_columns-shown :
      (xs : Option (List RawColumn)) (n : ℕ)
      → map shown (flat_map (λ (c : Column). c.blocks) (to_columns uid xs n).0)
        ≡ map raw_shown (flat_map (λ (c : RawColumn). raw_array c.blocks) (raw_array xs))
  unfolding to_columns
  to_columns-shown none n = refl
  to_columns-shown (some xs) n = columns-shown xs n

  rows-shown :
      (rs : List RawRow) (n : ℕ)
      → map shown (rows_blocks (map_fresh (to_row uid) rs n).0)
        ≡ map raw_shown (flat_map raw_row_blocks rs)
  unfolding map_fresh to_row
  rows-shown [] n = refl
  rows-shown (r ∷ rs) n = rw (map-append, to_columns-shown, rows-shown rs, map-append) refl

  email-shown :
      (theme : Theme) (rows : Option (List RawRow)) (sections : Option (List RawSection)) (n : ℕ)
      → map shown (blocks_of (email_structure uid theme rows sections n).0)
        ≡ map raw_shown (raw_email_blocks rows sections)
  unfolding blocks_of map_fresh
  email-shown theme none sections n = rw (append-nil, append-nil) (array-shown sections n)
  email-shown theme (some []) sections n = rw (append-nil, append-nil) (array-shown sections n)
  email-shown theme (some (r ∷ rs)) sections n = rows-shown (r ∷ rs) n

  flat-shown :
      (theme : Theme) (sections : Option (List RawSection)) (n : ℕ)
      → map shown (blocks_of (flat_structure uid theme sections n).0)
        ≡ map raw_shown (raw_array sections)
  unfolding blocks_of
  flat-shown theme sections n = array-shown sections n

  -- The blocks of the structure that the editor opens are those that were saved, each with its type
  -- ("text" if it had none) and its texts, in the same order: those of the rows for an email with
  -- rows, else those of the flat list.
  pub to_structure-blocks :
      (s : RawStructure) (channel : String) (n : ℕ)
      → map shown (blocks_of (to_structure uid s channel n).0)
        ≡ map raw_shown (saved_blocks s channel)
  unfolding to_structure
  to_structure-blocks s channel n = elim (Bool-cases (channel == "EMAIL")) [
    | inl e ↦ rw e (email-shown (theme_or_empty s.theme) s.rows s.sections n)
    | inr e ↦ rw e (flat-shown (theme_or_empty s.theme) s.sections n)
  ]
