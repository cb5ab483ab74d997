-- ===== src/Builder/Steps.antt =====
-- The operations of EmailBuilder.tsx on blocks, and `removeRow`, keep the invariant.
use mathlib.Core.List.Perm
use procovar_notify.Prelude.{
  String, ℕ, suc, ◌+◌, ◌≡◌, ◌≢◌, refl, ◌∙◌, inl, inr, Option, none, some, List, [], ◌∷◌, arith,
  last, Option-cases, returned, perm_of_eq,
}
use procovar_notify.Structure.{Section, Row}
use procovar_notify.Builder.Locate.{BlockPlace, find_block, last_column}
use procovar_notify.Builder.State.{Sel, State, rows_of, remove_row}
use procovar_notify.Builder.Edit.{
  target_of, add_target, add_block, add_block_at, duplicate_block, remove_block, set_prop, map_col,
  move_block_to, column_at, new_block,
}
use procovar_notify.Builder.Ids.{IsDistinct, row_ids, col_ids, find_block-place}
use procovar_notify.Builder.Move.{move_block_to-perm}
use procovar_notify.Builder.AddBlock.{add_block_at-perm, update_column-none}
use procovar_notify.Builder.Blocks.{remove_block-perm, map_blocks-eq-update_column}
use procovar_notify.Builder.Duplicate.{duplicate_block-perm}
use procovar_notify.Builder.DragEnd.{HasColumns}
use procovar_notify.Builder.Keeping.{block_ids-set_prop}
use procovar_notify.Builder.Drawn.{Unused-sublist}
use procovar_notify.Builder.Rows.{sublist-block_ids, sublist-keep}
use procovar_notify.Builder.Shape.{
  shape, IsSolid-HasColumns, shape-map_blocks, shape-move_rows, shape-duplicate_block,
}
use procovar_notify.Builder.Growth.{add_block_at-IsSound-none, keep-IsSolid}
use procovar_notify.Builder.Soundness.{IsSound, IsSoundAt-IsDistinct, shuffled, kept, grown, shrunk}
use procovar_notify.Builder.Actions.{at_block, set_at}

last-total {ℓ} : {A : Type ℓ} (xs : List A) → xs ≢ [] → (x : A) × (last xs ≡ some x)
last-total [] h = absurd (h refl)
last-total (x ∷ []) h = (x, refl)
last-total (x ∷ y ∷ ys) h = last-total (y ∷ ys) (λ e. cc)

last_column-total :
    (rows : List Row)
    → HasColumns rows
    → (t : Option (String × String)) × (last_column rows ≡ returned t)
unfolding last_column
last_column-total [] h = (none, refl)
last_column-total (r ∷ []) (some_column, h) =
    let (c, e) = last-total r.columns some_column in (some (r.id, c.id), rw (e, last_column) refl)
last_column-total (r ∷ q ∷ rs) (some_column, h) = last_column-total (q ∷ rs) h

pub target_of-total :
    (sel : Option Sel) (rows : List Row)
    → HasColumns rows
    → (t : Option (String × String)) × (target_of sel rows ≡ returned t)
unfolding target_of
target_of-total none rows h = last_column-total rows h
target_of-total (some t) rows h = (some (t.row_id, t.col_id), refl)

module _ (uid : ℕ → String) (apart : (i j : ℕ) → uid i ≡ uid j → i ≡ j) where
  -- An operation on a sound email.
  abbrev pub Keeps : (State → State) → State → Type 0
  Keeps f s = IsSound uid s → IsSound uid (f s)

  distinct : (s : State) → IsSound uid s → IsDistinct (rows_of s)
  distinct s h = IsSoundAt-IsDistinct uid s.seed (rows_of s) h

  placed :
      (row_id col_id type : String) (s : State)
      → Keeps (add_block_at uid (some (row_id, col_id)) type) s
  unfolding add_block_at
  placed row_id col_id type s h = elim (Option-cases (column_at row_id col_id (rows_of s))) [
    | inl gone ↦
        kept uid s.seed (s.seed + 1) (rows_of s) _ (omega arith)
          (map_blocks-eq-update_column row_id col_id _ (rows_of s) (distinct s h)
            ∙ update_column-none row_id col_id _ (rows_of s) gone)
          h
    | inr (c, found) ↦
        grown uid apart s.seed (s.seed + 1) (new_block uid type s) (rows_of s) _ (omega arith) refl
          (shape-map_blocks row_id col_id _ (rows_of s))
          (add_block_at-perm uid row_id col_id type s c (distinct s h) found) h
  ]

  add_block_at-IsSound :
      (target : Option (String × String)) (type : String) (s : State)
      → Keeps (add_block_at uid target type) s
  add_block_at-IsSound none type s h = add_block_at-IsSound-none uid apart type s h
  add_block_at-IsSound (some (row_id, col_id)) type s h = placed row_id col_id type s h

  pub add_block-IsSound :
      (type : String) (s : State)
      → IsSound uid s
      → (s' : State) × (add_block uid type s ≡ returned s') × IsSound uid s'
  unfolding add_block add_target
  add_block-IsSound type s h =
      let (t, e) = target_of-total s.sel (rows_of s) (IsSolid-HasColumns (rows_of s) h.solid) in
      (add_block_at uid t type s, rw e refl, add_block_at-IsSound t type s h)

  pub at_block-IsSound :
      (id : String) (f : BlockPlace → State) (s : State)
      → IsSound uid s
      → ((p : BlockPlace) → find_block id (rows_of s) ≡ some p → IsSound uid (f p))
      → IsSound uid (at_block (find_block id (rows_of s)) f s)
  at_block-IsSound id f s h k = elim (Option-cases (find_block id (rows_of s))) [
    | inl gone ↦ rw gone h
    | inr (p, found) ↦ rw found (k p found)
  ]

  pub duplicate_block-IsSound :
      (id : String) (p : BlockPlace) (s : State)
      → find_block id (rows_of s) ≡ some p
      → Keeps (duplicate_block uid p.row_id p.col_id id) s
  duplicate_block-IsSound id p s found h =
      let (perm, seed, sel) = duplicate_block-perm uid id p s (distinct s h) found in
      rw seed (
        grown uid apart s.seed (suc s.seed) (record (p.block) { id = uid s.seed }) (rows_of s) _
          (omega arith) refl (shape-duplicate_block uid p.row_id p.col_id id s) perm h)

  pub remove_block-IsSound :
      (id : String) (p : BlockPlace) (s : State)
      → find_block id (rows_of s) ≡ some p
      → Keeps (remove_block p.row_id p.col_id id) s
  unfolding remove_block map_col
  remove_block-IsSound id p s found h =
      let (perm, _) = remove_block-perm id p s (distinct s h) found in
      shrunk uid s.seed p.block (rows_of s) _ (shape-map_blocks p.row_id p.col_id _ (rows_of s))
        perm h

  pub remove_row-IsSound : (id : String) (s : State) → Keeps (remove_row id) s
  unfolding remove_row
  remove_row-IsSound id s h = record {
    by_row =
        Unused-sublist uid s.seed _ _
          (sublist-keep (λ r. r.id ∷ []) row_ids (λ r rs. refl) _ (rows_of s)) h.by_row;
    by_column =
        Unused-sublist uid s.seed _ _ (sublist-keep _ col_ids (λ r rs. refl) _ (rows_of s))
          h.by_column;
    by_block = Unused-sublist uid s.seed _ _ (sublist-block_ids _ (rows_of s)) h.by_block;
    solid = keep-IsSolid _ (rows_of s) h.solid;
  }

  set_prop-IsSound :
      (row_id col_id id key val : String) (s : State) → Keeps (set_prop row_id col_id id key val) s
  unfolding set_prop map_col
  set_prop-IsSound row_id col_id id key val s h =
      shuffled uid s.seed (rows_of s) _ (shape-map_blocks row_id col_id _ (rows_of s))
        (perm_of_eq (block_ids-set_prop row_id col_id id key val s)) h

  pub set_at-IsSound :
      (sel : Option Sel) (block : Option Section) (key val : String) (s : State)
      → Keeps (set_at sel block key val) s
  set_at-IsSound none block key val s h = h
  set_at-IsSound (some t) none key val s h = h
  set_at-IsSound (some t) (some b) key val s h = set_prop-IsSound t.row_id t.col_id b.id key val s h

  shape-move_block_to :
      (p : BlockPlace) (row_id col_id : String) (index : ℕ) (s : State)
      → (shape (rows_of (move_block_to p row_id col_id index s)) ≡ shape (rows_of s))
        × ((move_block_to p row_id col_id index s).seed ≡ s.seed)
  unfolding move_block_to
  shape-move_block_to p row_id col_id index s =
      elim (Option-cases (column_at p.row_id p.col_id (rows_of s))) [
        | inl gone ↦ rw (gone, move_block_to) (refl, refl)
        | inr (c, found) ↦ elim (Option-cases (column_at row_id col_id (rows_of s))) [
          | inl gone ↦ rw (found, move_block_to) (rw gone (refl, refl))
          | inr (d, there) ↦
              rw (found, move_block_to)
                (rw there (shape-move_rows p row_id col_id index (rows_of s), refl))
        ]
      ]

  pub move_block_to-IsSound :
      (id row_id col_id : String) (index : ℕ) (p : BlockPlace) (s : State)
      → find_block id (rows_of s) ≡ some p
      → Keeps (move_block_to p row_id col_id index) s
  move_block_to-IsSound id row_id col_id index p s found h =
      let (c, at_col, at_index, _) = find_block-place id (rows_of s) p (distinct s h) found in
      let ids =
        Perm.map (λ (b : Section). b.id)
          (move_block_to-perm p row_id col_id index s (c, at_col, at_index)) in
      let (same, seed) = shape-move_block_to p row_id col_id index s in
      rw seed (shuffled uid s.seed (rows_of s) _ same ids h)
