-- ===== src/Builder/BagAdds.antt =====
-- What `addBlock` and `addRow` of EmailBuilder.tsx do to the bag of blocks.
use procovar_notify.Prelude.{
  String, ℕ, suc, ◌≡◌, refl, sym, ap, ◌∙◌, inl, inr, Option, none, some, List, [], ◌∷◌, ◌++◌,
  append-nil, flat_map-append, ◌==◌, last, find, eq_refl, eq_of_ne, ◌≢◌, if◌then◌else◌,
  Option-cases, Bool-cases, Outcome, returned,
}
use mathlib.Core.Quot
use mathlib.Core.List.{Mem, Nodup, Nodup-cons, mem-cons, perm_append_comm}
use mathlib.Core.Logic.Or
use mathlib.Core.Option.{some-injective}
use procovar_notify.Structure.{Column, Row, row_blocks, rows_blocks}
use procovar_notify.Builder.Locate.{last_column}
use procovar_notify.Builder.Palette.{default_props}
use procovar_notify.Builder.State.{Sel, State, rows_of}
use procovar_notify.Builder.Edit.{
  new_columns, add_row, add_block, add_block_at, column_at, add_target, target_of, has_col_id,
}
use procovar_notify.Builder.Ids.{row_ids, column_at-cons_ne, column_at-cons_eq}
use procovar_notify.Builder.AddBlock.{add_block_at-perm, add_block_at-none, update_column-none}
use procovar_notify.Builder.Blocks.{map_blocks-eq-update_column}
use procovar_notify.Builder.Shape.{IsSolid-HasColumns}
use procovar_notify.Builder.Steps.{target_of-total}
use procovar_notify.Builder.Soundness.{IsSoundAt-IsDistinct, IsSound}
use procovar_notify.Builder.Actions.{Action, adds}
use procovar_notify.Builder.Bags.{bag, put, seen, receives_at, IsStep}

pub returned-injective {ℓ} : {A : Type ℓ} {x y : A} → returned x ≡ returned y → x ≡ y
returned-injective e = cc

new_columns-blocks :
    (uid : ℕ → String) (n : ℕ) (ws : List ℕ) (id : String)
    → row_blocks (record { id = id; columns = new_columns uid n ws }) ≡ []
unfolding new_columns
new_columns-blocks uid n [] id = refl
new_columns-blocks uid n (w ∷ ws) id = new_columns-blocks uid (suc n) ws id

find-last :
    (cs : List Column) (c : Column)
    → last cs ≡ some c
    → (d : Column) × (find (has_col_id c.id) cs ≡ some d)
find-last [] c e = cc e
find-last (x ∷ []) c e = (x, rw (← some-injective _ _ e, eq_refl x.id) refl)
find-last (x ∷ y ∷ ys) c e =
    let (d, found) = find-last (y ∷ ys) c e in
    elim (Bool-cases (x.id == c.id)) [ inl hit ↦ (x, rw hit refl) | inr miss ↦ (d, rw miss found) ]

-- The last column is found by the ids of its row and its own.
last_column-there :
    (rows : List Row) (row_id col_id : String)
    → Nodup (row_ids rows)
    → last_column rows ≡ returned (some (row_id, col_id))
    → ((c : Column) × (column_at row_id col_id rows ≡ some c)) × Mem row_id (row_ids rows)
unfolding last_column
last_column-there [] row_id col_id d e = cc e
last_column-there (r ∷ []) row_id col_id d e = elim (Option-cases (last r.columns)) [
  | inl gone ↦ cc (rw (gone, last_column) at e)
  | inr (c, found) ↦
      let same : (r.id, c.id) ≡ (row_id, col_id) =
        some-injective _ _ (returned-injective (rw (found, last_column) at e)) in
      let row : r.id ≡ row_id = ap (λ (x : String × String). x.0) same in
      let col : c.id ≡ col_id = ap (λ (x : String × String). x.1) same in
      let (d, there) = find-last r.columns c found in
      rw (← row, ← col)
        ((d, column_at-cons_eq r.id c.id r [] (eq_refl r.id) ∙ there), mem-cons.1 (Or.inl refl))
]
last_column-there (r ∷ q ∷ rs) row_id col_id d e =
    let ((c, found), known) = last_column-there (q ∷ rs) row_id col_id (Nodup-cons.0 d).1 e in
    let other : r.id ≢ row_id = λ same. (Nodup-cons.0 d).0 (rw (← same) at known) in
    (
      (c, column_at-cons_ne row_id col_id r (q ∷ rs) (eq_of_ne r.id row_id other) ∙ found),
      mem-cons.1 (Or.inr known),
    )

module _ (uid : ℕ → String) where
  -- What holds of the rows after an action that returns.
  abbrev pub Does : Action → State → Outcome State → Type 0
  Does a s o = (s' : State) → o ≡ returned s' → IsStep a (seen uid s) (bag (rows_of s'))

  -- What `addBlock` does to the bag at a target.
  abbrev IsAdded : (type : String) → Option (String × String) → State → Type 0
  IsAdded type t s =
      bag (rows_of (add_block_at uid t type s))
      ≡ put (record { id = uid s.seed; type = type; props = default_props type }) (bag (rows_of s))

  IsAdded-none : (type : String) (s : State) → IsAdded type none s
  unfolding put
  IsAdded-none type s =
      rw (add_block_at-none uid type s) (Quot.sound (perm_append_comm (rows_blocks (rows_of s)) _))

  IsAdded-there :
      (type row_id col_id : String) (c : Column) (s : State)
      → IsSound uid s
      → column_at row_id col_id (rows_of s) ≡ some c
      → IsAdded type (some (row_id, col_id)) s
  unfolding put
  IsAdded-there type row_id col_id c s h found =
      let d = IsSoundAt-IsDistinct uid s.seed (rows_of s) h in
      Quot.sound (add_block_at-perm uid row_id col_id type s c d found)

  not_added :
      (type row_id col_id : String) (s : State)
      → IsSound uid s
      → column_at row_id col_id (rows_of s) ≡ none
      → bag (rows_of (add_block_at uid (some (row_id, col_id)) type s)) ≡ bag (rows_of s)
  not_added type row_id col_id s h gone =
      let d = IsSoundAt-IsDistinct uid s.seed (rows_of s) h in
      unfold add_block_at in
      ap bag (
        map_blocks-eq-update_column row_id col_id _ (rows_of s) d
        ∙ update_column-none row_id col_id _ (rows_of s) gone)

  -- Without a selection the block goes to the last column, or to a row of its own.
  IsAdded-unselected :
      (type : String) (t : Option (String × String)) (s : State)
      → IsSound uid s
      → last_column (rows_of s) ≡ returned t
      → IsAdded type t s
  IsAdded-unselected type none s h e = IsAdded-none type s
  IsAdded-unselected type (some (row_id, col_id)) s h e =
      let d = IsSoundAt-IsDistinct uid s.seed (rows_of s) h in
      let (there, _) = last_column-there (rows_of s) row_id col_id d.by_row e in
      IsAdded-there type row_id col_id there.0 s h there.1

  adds_at-IsStep :
      (sel : Option Sel) (type : String) (t : Option (String × String)) (s : State)
      → IsSound uid s
      → target_of sel (rows_of s) ≡ returned t
      → if receives_at sel (rows_of s)
        then IsAdded type t s
        else bag (rows_of (add_block_at uid t type s)) ≡ bag (rows_of s)
  unfolding target_of
  adds_at-IsStep none type t s h e = IsAdded-unselected type t s h e
  adds_at-IsStep (some sel) type t s h e =
      rw (← returned-injective e)
        (elim (Option-cases (column_at sel.row_id sel.col_id (rows_of s))) [
          | inl gone ↦ rw gone (not_added type sel.row_id sel.col_id s h gone)
          | inr (c, found) ↦ rw found (IsAdded-there type sel.row_id sel.col_id c s h found)
        ])

  pub adds-IsStep :
      (type : String) (s : State) → IsSound uid s → Does (adds type) s (add_block uid type s)
  unfolding add_block add_target add_block_at
  adds-IsStep type s h s' e =
      let (t, e') = target_of-total s.sel (rows_of s) (IsSolid-HasColumns (rows_of s) h.solid) in
      let done : add_block_at uid t type s ≡ s' = returned-injective (sym (rw e' refl) ∙ e) in
      rw (← done) (adds_at-IsStep s.sel type t s h e')

  pub adds_row-IsStep :
      (w : ℕ) (ws : List ℕ) (s s' : State)
      → add_row uid (w ∷ ws) s ≡ returned s'
      → bag (rows_of s') ≡ bag (rows_of s)
  unfolding add_row
  adds_row-IsStep w ws s s' e =
      let columns = new_columns uid (suc s.seed) (w ∷ ws) in
      let row : Row = record { id = uid s.seed; columns = columns } in
      let same : rows_of s' ≡ rows_of s ++ row ∷ [] = sym (ap rows_of (returned-injective e)) in
      rw (same, flat_map-append row_blocks (rows_of s) (row ∷ []))
        (ap (λ bs. Quot.mk (rows_blocks (rows_of s) ++ (bs ++ [])))
            (new_columns-blocks uid (suc s.seed) (w ∷ ws) (uid s.seed))
          ∙ ap Quot.mk (append-nil (rows_blocks (rows_of s))))
