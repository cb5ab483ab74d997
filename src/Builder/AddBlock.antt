-- ===== src/Builder/AddBlock.antt =====
-- `addBlock` of EmailBuilder.tsx: where the new block goes, and when it is lost.
use procovar_notify.Prelude.{
  String, ℕ, ◌≡◌, refl, ap, ◌∙◌, inl, inr, Bool, none, some, List, [], ◌∷◌, ◌++◌, find,
  flat_map-append, update_first, Bool-cases, Option-cases, returned, ◌>>=◌,
}
use mathlib.Core.List.{Perm, perm_append_comm}
use mathlib.Core.Option.{some-injective}
use procovar_notify.Structure.{Section, Column, Row, row_blocks, rows_blocks}
use procovar_notify.Builder.State.{Sel, State, rows_of}
use procovar_notify.Builder.Edit.{
  target_of, add_target, add_block, has_row_id, column_at, update_column, new_block, add_block_at,
}
use procovar_notify.Builder.Ids.{IsDistinct}
use procovar_notify.Builder.Move.{update_column-perm}
use procovar_notify.Builder.Blocks.{map_blocks-eq-update_column}

update_first-none {ℓ} :
    {A : Type ℓ} (p : A → Bool) (f : A → A) (xs : List A)
    → find p xs ≡ none
    → update_first p f xs ≡ xs
update_first-none p f [] e = refl
update_first-none p f (x ∷ xs) e = elim (Bool-cases (p x)) [
  | inl hit ↦ cc (rw hit at e)
  | inr miss ↦ rw (miss, update_first-none p f xs (rw miss at e)) refl
]

update_first_same {ℓ} :
    {A : Type ℓ} (p : A → Bool) (f : A → A) (xs : List A) (x : A)
    → find p xs ≡ some x
    → f x ≡ x
    → update_first p f xs ≡ xs
update_first_same p f [] x e h = refl
update_first_same p f (y ∷ ys) x e h = elim (Bool-cases (p y)) [
  | inl hit ↦ let it : y ≡ x = some-injective _ _ (rw hit at e) in rw (hit, it) (ap (λ z. z ∷ ys) h)
  | inr miss ↦ rw (miss, update_first_same p f ys x (rw miss at e) h) refl
]

-- A column that is not there is not changed.
pub update_column-none :
    (row_id col_id : String) (f : List Section → List Section) (rows : List Row)
    → column_at row_id col_id rows ≡ none
    → update_column row_id col_id f rows ≡ rows
unfolding update_column column_at
update_column-none row_id col_id f rows e = elim (Option-cases (find (has_row_id row_id) rows)) [
  | inl gone ↦ update_first-none _ _ rows gone
  | inr (r, found) ↦ update_first_same _ _ rows r found (
      ap (λ cs. record r { columns = cs })
        (update_first-none _ _ r.columns (rw (found, column_at) at e)))
]

module _ (uid : ℕ → String) where
  -- A block is added to a column that is there, at its end, and nothing else changes.
  pub add_block_at-perm :
      (row_id col_id type : String) (s : State) (c : Column)
      → IsDistinct (rows_of s)
      → column_at row_id col_id (rows_of s) ≡ some c
      → Perm
          (rows_blocks (rows_of (add_block_at uid (some (row_id, col_id)) type s)))
          (new_block uid type s ∷ rows_blocks (rows_of s))
  unfolding add_block_at
  add_block_at-perm row_id col_id type s c d e =
      let b = new_block uid type s in
      let f : List Section → List Section = λ bs. bs ++ b ∷ [] in
      rw (map_blocks-eq-update_column row_id col_id f (rows_of s) d) (
        update_column-perm row_id col_id f [] (b ∷ []) (rows_of s) c e
          (perm_append_comm c.blocks (b ∷ [])))

  -- Without any row the block gets a row and a column of its own.
  pub add_block_at-none :
      (type : String) (s : State)
      → rows_blocks (rows_of (add_block_at uid none type s))
        ≡ rows_blocks (rows_of s) ++ new_block uid type s ∷ []
  unfolding add_block_at
  add_block_at-none type s = flat_map-append row_blocks (rows_of s) _

  abbrev pub selected_block : String → String → String → Sel
  selected_block row_id col_id id = record { row_id = row_id; col_id = col_id; block_id = some id }

  -- With distinct ids and a target column that is there, an element of the palette is added once,
  -- with the default props of its type and a fresh id; all other blocks stay, and the new block is
  -- selected in its column.
  pub add_block-perm :
      (type row_id col_id : String) (s : State) (c : Column)
      → IsDistinct (rows_of s)
      → add_target s ≡ returned (some (row_id, col_id))
      → column_at row_id col_id (rows_of s) ≡ some c
      → (s' : State) × (add_block uid type s ≡ returned s')
        × Perm (rows_blocks (rows_of s')) (new_block uid type s ∷ rows_blocks (rows_of s))
        × (s'.sel ≡ some (selected_block row_id col_id (uid s.seed)))
  unfolding add_block add_block_at
  add_block-perm type row_id col_id s c d target e = (
    add_block_at uid (some (row_id, col_id)) type s,
    rw target refl,
    add_block_at-perm row_id col_id type s c d e,
    refl,
  )

  target-returned :
      (type : String) (s : State) (t : Sel)
      → s.sel ≡ some t
      → add_block uid type s ≡ returned (add_block_at uid (some (t.row_id, t.col_id)) type s)
  unfolding add_block add_target target_of
  target-returned type s t e =
      ap (λ o. target_of o (rows_of s) >>= λ place. returned (add_block_at uid place type s)) e

  -- With distinct ids, a selection whose column is not there any more loses the new block: the rows
  -- stay as they are, though the selection then names a block with the drawn id.
  pub add_block_stale :
      (type : String) (s : State) (t : Sel)
      → IsDistinct (rows_of s)
      → s.sel ≡ some t
      → column_at t.row_id t.col_id (rows_of s) ≡ none
      → (s' : State) × (add_block uid type s ≡ returned s')
        × (rows_of s' ≡ rows_of s)
        × (s'.sel ≡ some (selected_block t.row_id t.col_id (uid s.seed)))
  unfolding add_block add_block_at
  add_block_stale type s t d e gone =
      let f : List Section → List Section = λ bs. bs ++ new_block uid type s ∷ [] in
      (
        add_block_at uid (some (t.row_id, t.col_id)) type s,
        target-returned type s t e,
        map_blocks-eq-update_column t.row_id t.col_id f (rows_of s) d
            ∙ update_column-none t.row_id t.col_id f (rows_of s) gone,
        refl,
      )
