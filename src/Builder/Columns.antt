-- ===== src/Builder/Columns.antt =====
-- Looking up a column of EmailBuilder.tsx's rows by the ids of its row and of itself, before and
-- after a change of one column.
use procovar_notify.Prelude.{
  String, ◌≡◌, refl, sym, ap, ◌∙◌, ◌≢◌, inl, inr, Bool, some, List, [], ◌∷◌, ◌==◌, eq_iff, eq_of_ne,
  find, update_first, find-update_first, Bool-cases, Option-cases,
}
use mathlib.Core.List.{Mem, Nodup, Nodup-append, mem-append, mem-cons}
use mathlib.Core.Logic.Or
use mathlib.Core.Option.{some-injective}
use procovar_notify.Structure.{Section, Column, Row}
use procovar_notify.Builder.Edit.{has_row_id, has_col_id, on_blocks, column_at, update_column}
use procovar_notify.Builder.Ids.{column_ids, col_ids, column_at-cons_ne, column_at-cons_eq}
use procovar_notify.Builder.Move.{column_at-find, column_at-none, columns_with}

find-update_first_same {ℓ} :
    {A : Type ℓ} (p : A → Bool) (f : A → A)
    → ((x : A) → p (f x) ≡ p x)
    → (xs : List A) (x : A) → find p xs ≡ some x
    → find p (update_first p f xs) ≡ some (f x)
find-update_first_same p f keeps [] x e = cc
find-update_first_same p f keeps (y ∷ ys) x e = elim (Bool-cases (p y)) [
  | inl hit ↦
      let it : y ≡ x = some-injective _ _ (rw hit at e) in
      rw (hit, keeps y, hit) (ap (λ z. some (f z)) it)
  | inr miss ↦ rw (miss, miss) (find-update_first_same p f keeps ys x (rw miss at e))
]

find-update_first_apart {ℓ} :
    {A : Type ℓ} (key : A → String) (k k' : String) (f : A → A)
    → ((x : A) → key (f x) ≡ key x)
    → k ≢ k'
    → (xs : List A)
    → find (λ x. key x == k') (update_first (λ x. key x == k) f xs) ≡ find (λ x. key x == k') xs
find-update_first_apart key k k' f keeps apart [] = refl
find-update_first_apart key k k' f keeps apart (x ∷ xs) = elim (Bool-cases (key x == k)) [
  | inl hit ↦
      let other : key x ≢ k' = λ e. apart (sym ((eq_iff (key x) k).0 hit) ∙ e) in
      rw (hit, keeps x, eq_of_ne (key x) k' other) refl
  | inr miss ↦ elim (Bool-cases (key x == k')) [
    | inl there ↦ rw (miss, there) refl
    | inr not_there ↦ rw (miss, not_there) (find-update_first_apart key k k' f keeps apart xs)
  ]
]

module _ (row_id col_id : String) (f : List Section → List Section) where
  -- The changed column.
  pub column_at-update_column_same :
      (rows : List Row) (c : Column)
      → column_at row_id col_id rows ≡ some c
      → column_at row_id col_id (update_column row_id col_id f rows) ≡ some (on_blocks f c)
  unfolding update_column
  column_at-update_column_same rows c e = elim (Option-cases (find (has_row_id row_id) rows)) [
    | inl gone ↦ cc (column_at-none row_id col_id rows gone, e)
    | inr (r, found) ↦
        column_at-find row_id col_id _ (columns_with f col_id r)
          (find-update_first_same (has_row_id row_id) _ (λ x. refl) rows r found)
        ∙ find-update_first_same (has_col_id col_id) (on_blocks f) (λ x. refl) r.columns c
            (sym (column_at-find row_id col_id rows r found) ∙ e)
  ]

  -- A column with another id is as before.
  pub column_at-update_column_apart :
      (row_id' col_id' : String) (rows : List Row) (c : Column)
      → col_id ≢ col_id'
      → column_at row_id' col_id' rows ≡ some c
      → column_at row_id' col_id' (update_column row_id col_id f rows) ≡ some c
  unfolding update_column
  column_at-update_column_apart row_id' col_id' rows c apart e =
      elim (Option-cases (find (has_row_id row_id') rows)) [
        | inl gone ↦ cc (column_at-none row_id' col_id' rows gone, e)
        | inr (r, found) ↦
            let (r', found', which) =
              find-update_first (has_row_id row_id') (has_row_id row_id) (columns_with f col_id)
                (λ x. refl) rows r found in
            let e' : find (has_col_id col_id') r.columns ≡ some c =
              sym (column_at-find row_id' col_id' rows r found) ∙ e in
            column_at-find row_id' col_id' _ r' found' ∙ elim which [
              | inl same ↦ rw same e'
              | inr changed ↦ rw changed (
                  find-update_first_apart (λ (c : Column). c.id) col_id col_id' (on_blocks f)
                    (λ x. refl) apart r.columns
                  ∙ e')
            ]
      ]

find-Mem :
    (col_id : String) (cs : List Column) (c : Column)
    → find (has_col_id col_id) cs ≡ some c
    → Mem col_id (column_ids cs)
find-Mem col_id [] c e = cc
find-Mem col_id (x ∷ xs) c e = elim (Bool-cases (x.id == col_id)) [
  | inl hit ↦ mem-cons.1 (Or.inl (sym ((eq_iff x.id col_id).0 hit)))
  | inr miss ↦ mem-cons.1 (Or.inr (find-Mem col_id xs c (rw miss at e)))
]

column_at-Mem :
    (row_id col_id : String) (rows : List Row) (c : Column)
    → column_at row_id col_id rows ≡ some c
    → Mem col_id (col_ids rows)
column_at-Mem row_id col_id [] c e = cc (column_at-none row_id col_id [] refl)
column_at-Mem row_id col_id (r ∷ rs) c e = elim (Bool-cases (r.id == row_id)) [
  | inl hit ↦
      mem-append.1
        (Or.inl (find-Mem col_id r.columns c (sym (column_at-cons_eq row_id col_id r rs hit) ∙ e)))
  | inr miss ↦ mem-append.1 (
      Or.inr
        (column_at-Mem row_id col_id rs c (sym (column_at-cons_ne row_id col_id r rs miss) ∙ e)))
]

-- With distinct ids a column stands in one row.
pub column_at_row :
    (row_id row_id' col_id : String) (rows : List Row) (c c' : Column)
    → Nodup (col_ids rows)
    → column_at row_id col_id rows ≡ some c
    → column_at row_id' col_id rows ≡ some c'
    → row_id ≡ row_id'
column_at_row row_id row_id' col_id [] c c' d e e' = cc (column_at-none row_id col_id [] refl)
column_at_row row_id row_id' col_id (r ∷ rs) c c' d e e' =
    let (_, later, apart) = (Nodup-append {l₁ = column_ids r.columns}).0 d in
    elim (Bool-cases (r.id == row_id)) [
      | inl hit ↦ elim (Bool-cases (r.id == row_id')) [
        | inl hit' ↦ sym ((eq_iff r.id row_id).0 hit) ∙ (eq_iff r.id row_id').0 hit'
        | inr miss' ↦ absurd (
            apart col_id
              (find-Mem col_id r.columns c (sym (column_at-cons_eq row_id col_id r rs hit) ∙ e))
              (column_at-Mem row_id' col_id rs c'
                (sym (column_at-cons_ne row_id' col_id r rs miss') ∙ e')))
      ]
      | inr miss ↦ elim (Bool-cases (r.id == row_id')) [
        | inl hit' ↦ absurd (
            apart col_id
              (find-Mem col_id r.columns c' (sym (column_at-cons_eq row_id' col_id r rs hit') ∙ e'))
              (column_at-Mem row_id col_id rs c
                (sym (column_at-cons_ne row_id col_id r rs miss) ∙ e)))
        | inr miss' ↦
            column_at_row row_id row_id' col_id rs c c' later
              (sym (column_at-cons_ne row_id col_id r rs miss) ∙ e)
              (sym (column_at-cons_ne row_id' col_id r rs miss') ∙ e')
      ]
    ]
