-- ===== src/Builder/Keeping.antt =====
-- What the operations on blocks of EmailBuilder.tsx leave as it was: the ids of rows and columns.
use procovar_notify.Prelude.{
  String, ℕ, ◌≡◌, refl, sym, ap, ◌∙◌, inl, inr, Bool, List, [], ◌∷◌, ◌++◌, map, update_where,
  update_first, thread_where, flat_map, flat_map-update_where, Bool-cases,
}
use mathlib.Core.List.{map-append}
use procovar_notify.Structure.{Section, Column, Row, row_blocks}
use procovar_notify.Builder.State.{State, rows_of}
use procovar_notify.Builder.Locate.{BlockPlace}
use procovar_notify.Builder.Edit.{
  has_row_id, has_col_id, has_block_id, on_blocks, map_blocks, map_col, update_column, with_prop,
  set_prop, move_rows, copy_in_column, copy_in_row, duplicate_block,
}
use procovar_notify.Builder.Ids.{row_ids, column_ids, col_ids, block_ids}

module _ {ℓ κ} {A : Type ℓ} {B : Type κ} (v : A → List B) where
  flat_map-update_first :
      (p : A → Bool) (f : A → A)
      → ((x : A) → v (f x) ≡ v x)
      → (xs : List A) → flat_map v (update_first p f xs) ≡ flat_map v xs
  flat_map-update_first p f h [] = refl
  flat_map-update_first p f h (x ∷ xs) = elim (Bool-cases (p x)) [
    | inl e ↦ rw (e, h x) refl
    | inr e ↦ rw (e, flat_map-update_first p f h xs) refl
  ]

  flat_map-thread_where :
      (p : A → Bool) (g : ℕ → A → A × ℕ)
      → ((n : ℕ) (x : A) → v (g n x).0 ≡ v x)
      → (n : ℕ) (xs : List A) → flat_map v (thread_where p g n xs).0 ≡ flat_map v xs
  flat_map-thread_where p g h n [] = refl
  flat_map-thread_where p g h n (x ∷ xs) = elim (Bool-cases (p x)) [
    | inl e ↦ rw (e, h n x, flat_map-thread_where p g h (g n x).1 xs) refl
    | inr e ↦ rw (e, flat_map-thread_where p g h n xs) refl
  ]

  map-flat_map :
      {C : Type κ} (k : B → C) (xs : List A)
      → map k (flat_map v xs) ≡ flat_map (λ x. map k (v x)) xs
  map-flat_map k [] = refl
  map-flat_map k (x ∷ xs) =
      map-append k (v x) (flat_map v xs) ∙ ap (λ l. map k (v x) ++ l) (map-flat_map k xs)

-- `map` is `flat_map` with one element each.
module _ {ℓ κ} {A : Type ℓ} {B : Type κ} (k : A → B) where
  one_each : (xs : List A) → flat_map (λ x. k x ∷ []) xs ≡ map k xs
  one_each [] = refl
  one_each (x ∷ xs) = ap (λ l. k x ∷ l) (one_each xs)

  pub map-update_where :
      (p : A → Bool) (f : A → A)
      → ((x : A) → k (f x) ≡ k x)
      → (xs : List A) → map k (update_where p f xs) ≡ map k xs
  map-update_where p f h xs =
      sym (one_each _) ∙ flat_map-update_where _ p f (λ x. ap (λ y. y ∷ []) (h x)) xs ∙ one_each xs

  pub map-update_first :
      (p : A → Bool) (f : A → A)
      → ((x : A) → k (f x) ≡ k x)
      → (xs : List A) → map k (update_first p f xs) ≡ map k xs
  map-update_first p f h xs =
      sym (one_each _) ∙ flat_map-update_first _ p f (λ x. ap (λ y. y ∷ []) (h x)) xs ∙ one_each xs

  pub map-thread_where :
      (p : A → Bool) (g : ℕ → A → A × ℕ)
      → ((n : ℕ) (x : A) → k (g n x).0 ≡ k x)
      → (n : ℕ) (xs : List A) → map k (thread_where p g n xs).0 ≡ map k xs
  map-thread_where p g h n xs =
      sym (one_each _)
      ∙ flat_map-thread_where _ p g (λ m x. ap (λ y. y ∷ []) (h m x)) n xs
      ∙ one_each xs

-- The rows and the columns have the ids they had, in their order.
abbrev pub SameFrame : (after before : List Row) → Type 0
SameFrame after before = (row_ids after ≡ row_ids before) × (col_ids after ≡ col_ids before)

pub SameFrame-map_blocks :
    (row_id col_id : String) (f : List Section → List Section) (rows : List Row)
    → SameFrame (map_blocks row_id col_id f rows) rows
unfolding map_blocks
SameFrame-map_blocks row_id col_id f rows =
    let in_row : Row → Row =
      λ r. record r { columns = update_where (has_col_id col_id) (on_blocks f) r.columns } in
    (
      map-update_where (λ (r : Row). r.id) (has_row_id row_id) in_row (λ r. refl) rows,
      flat_map-update_where (λ (r : Row). column_ids r.columns) (has_row_id row_id) in_row
          (λ r.
            map-update_where (λ (c : Column). c.id) (has_col_id col_id) (on_blocks f) (λ c. refl)
              r.columns)
          rows,
    )

SameFrame-update_column :
    (row_id col_id : String) (f : List Section → List Section) (rows : List Row)
    → SameFrame (update_column row_id col_id f rows) rows
unfolding update_column
SameFrame-update_column row_id col_id f rows = (
  map-update_first (λ (r : Row). r.id) _ _ (λ r. refl) rows,
  flat_map-update_first (λ (r : Row). column_ids r.columns) _ _
      (λ r. map-update_first (λ (c : Column). c.id) _ _ (λ c. refl) r.columns) rows,
)

pub SameFrame-move_rows :
    (src : BlockPlace) (row_id col_id : String) (index : ℕ) (rows : List Row)
    → SameFrame (move_rows src row_id col_id index rows) rows
unfolding move_rows
SameFrame-move_rows src row_id col_id index rows =
    let (r, c) = SameFrame-update_column row_id col_id _ _ in
    let (r', c') = SameFrame-update_column src.row_id src.col_id _ rows in (r ∙ r', c ∙ c')

module _ (uid : ℕ → String) where
  pub SameFrame-duplicate_block :
      (row_id col_id id : String) (s : State)
      → SameFrame (rows_of (duplicate_block uid row_id col_id id s)) (rows_of s)
  unfolding duplicate_block copy_in_row copy_in_column
  SameFrame-duplicate_block row_id col_id id s = (
    map-thread_where (λ (r : Row). r.id) (has_row_id row_id) (copy_in_row uid col_id id)
        (λ n r. refl) s.seed (rows_of s),
    flat_map-thread_where (λ (r : Row). column_ids r.columns) (has_row_id row_id)
        (copy_in_row uid col_id id)
        (λ n r.
          map-thread_where (λ (c : Column). c.id) (has_col_id col_id) (copy_in_column uid id)
            (λ m c. refl) n r.columns)
        s.seed (rows_of s),
  )

-- A change of a property leaves the ids of the blocks.
module _ (row_id col_id id key val : String) where
  abbrev changed : Column → Column
  changed = on_blocks (update_where (has_block_id id) (with_prop key val))

  abbrev changed_row : Row → Row
  changed_row r = record r { columns = update_where (has_col_id col_id) changed r.columns }

  abbrev ids_of : Row → List String
  ids_of r = map (λ (b : Section). b.id) (row_blocks r)

  abbrev ids_in : Column → List String
  ids_in c = map (λ (b : Section). b.id) c.blocks

  ids_of-changed : (r : Row) → ids_of (changed_row r) ≡ ids_of r
  unfolding with_prop
  ids_of-changed r =
      map-flat_map (λ (c : Column). c.blocks) (λ (b : Section). b.id)
        (update_where (has_col_id col_id) changed r.columns)
      ∙ flat_map-update_where ids_in (has_col_id col_id) changed
          (λ c.
            map-update_where (λ (b : Section). b.id) (has_block_id id) (with_prop key val)
              (λ b. refl) c.blocks)
          r.columns
      ∙ sym (map-flat_map (λ (c : Column). c.blocks) (λ (b : Section). b.id) r.columns)

  pub block_ids-set_prop :
      (s : State)
      → block_ids (rows_of (set_prop row_id col_id id key val s)) ≡ block_ids (rows_of s)
  unfolding set_prop map_col map_blocks with_prop
  block_ids-set_prop s =
      map-flat_map row_blocks (λ (b : Section). b.id)
        (update_where (has_row_id row_id) changed_row (rows_of s))
      ∙ flat_map-update_where ids_of (has_row_id row_id) changed_row ids_of-changed (rows_of s)
      ∙ sym (map-flat_map row_blocks (λ (b : Section). b.id) (rows_of s))
