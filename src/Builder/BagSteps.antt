-- ===== src/Builder/BagSteps.antt =====
-- What duplicating, removing and editing blocks and `removeRow` of EmailBuilder.tsx do to the bag of
-- blocks.
use procovar_notify.Prelude.{
  false, String, ℕ, ◌≡◌, refl, sym, ap, ◌∙◌, inl, inr, Bool, some, List, [], ◌∷◌, ◌++◌,
  append_assoc, perm_left_comm, not, ◌&&◌, ◌==◌, keep, Option-cases, Bool-cases,
}
use mathlib.Core.Path.{subst}
use mathlib.Core.Quot
use mathlib.Core.List.{Perm}
use mathlib.Core.List.Perm
use procovar_notify.Structure.{Row, row_blocks, rows_blocks}
use procovar_notify.Builder.Locate.{BlockPlace, find_block}
use procovar_notify.Builder.State.{Sel, State, rows_of, remove_row}
use procovar_notify.Builder.Edit.{duplicate_block, remove_block, has_row_id, with_prop}
use procovar_notify.Builder.Ids.{find_block-place}
use procovar_notify.Builder.Blocks.{remove_block-perm}
use procovar_notify.Builder.Duplicate.{duplicate_block-perm}
use procovar_notify.Builder.Holds.{is_some}
use procovar_notify.Builder.Inspector.{set_selected-perm}
use procovar_notify.Builder.Soundness.{IsSoundAt-IsDistinct, IsSound}
use procovar_notify.Builder.Actions.{
  removes_row, duplicates, removes, sets, at_block, set_selected, sel_block,
}
use procovar_notify.Builder.Bags.{
  bag, put, put_all-mk, holds-bag, holds-absent, seen, if_there, edited_at, IsWritten, IsStep,
}

-- The blocks of the rows that pass a test, and of those that do not.
parted :
    (p : Row → Bool) (rows : List Row)
    → Perm
        (rows_blocks rows)
        (rows_blocks (keep p rows) ++ rows_blocks (keep (λ r. not (p r)) rows))
parted p [] = Perm.refl _
parted p (r ∷ rs) =
    let some_blocks = rows_blocks (keep p rs) in
    elim (Bool-cases (p r)) [
      | inl e ↦ rw e (
          rw (append_assoc (row_blocks r) some_blocks _)
            (Perm.append_left (row_blocks r) (parted p rs)))
      | inr e ↦ rw e (
          Perm.trans (Perm.append_left (row_blocks r) (parted p rs))
            (perm_left_comm (row_blocks r) some_blocks _))
    ]

module _ (uid : ℕ → String) where
  pub duplicates-IsStep :
      (id : String) (s : State)
      → IsSound uid s
      → IsStep (duplicates id) (seen uid s) (
          bag (
            rows_of (
              at_block
                (find_block id (rows_of s))
                (λ p. duplicate_block uid p.row_id p.col_id id s)
                s)))
  unfolding put
  duplicates-IsStep id s h = elim (Option-cases (find_block id (rows_of s))) [
    | inl gone ↦ rw (holds-bag id (rows_of s) ∙ ap is_some gone) (rw gone refl)
    | inr (p, found) ↦
        let d = IsSoundAt-IsDistinct uid s.seed (rows_of s) h in
        let (c, at_col, at_index, same) = find_block-place id (rows_of s) p d found in
        let (taken, _) = remove_block-perm id p s d found in
        let (copied, _, _) = duplicate_block-perm uid id p s d found in
        rw (holds-bag id (rows_of s) ∙ ap is_some found) (
          p.block,
          bag (rows_of (remove_block p.row_id p.col_id id s)),
          same,
          Quot.sound taken,
          rw found (Quot.sound copied),
        )
  ]

  pub removes-IsStep :
      (id : String) (s : State)
      → IsSound uid s
      → IsStep (removes id) (seen uid s) (
          bag (
            rows_of
              (at_block (find_block id (rows_of s)) (λ p. remove_block p.row_id p.col_id id s) s)))
  unfolding put
  removes-IsStep id s h = elim (Option-cases (find_block id (rows_of s))) [
    | inl gone ↦ rw (holds-bag id (rows_of s) ∙ ap is_some gone) (rw gone refl)
    | inr (p, found) ↦
        let d = IsSoundAt-IsDistinct uid s.seed (rows_of s) h in
        let (c, at_col, at_index, same) = find_block-place id (rows_of s) p d found in
        let (taken, none_left) = remove_block-perm id p s d found in
        rw (holds-bag id (rows_of s) ∙ ap is_some found) (
          p.block,
          same,
          rw found (Quot.sound taken),
          rw found (holds-absent id (rows_of (remove_block p.row_id p.col_id id s)) none_left),
        )
  ]

  pub removes_row-IsStep :
      (id : String) (s : State)
      → IsStep (removes_row id) (seen uid s) (bag (rows_of (remove_row id s)))
  unfolding remove_row
  removes_row-IsStep id s = Quot.sound (parted (has_row_id id) (rows_of s)) ∙ sym (put_all-mk _ _)

  writes-IsStep :
      (key val id : String) (t : Sel) (p : BlockPlace) (s : State)
      → IsSound uid s
      → s.sel ≡ some t
      → t.block_id ≡ some id
      → (id == "") ≡ false
      → find_block id (rows_of s) ≡ some p
      → IsWritten key val
          (if_there t (some p))
          (bag (rows_of s))
          (bag (rows_of (set_selected key val s)))
  unfolding put
  writes-IsStep key val id t p s h selected named filled found =
      let d = IsSoundAt-IsDistinct uid s.seed (rows_of s) h in
      let (_, perm) = set_selected-perm key val id t p s d selected named filled found in
      let (taken, _) = remove_block-perm id p s d found in
      let rest = rows_blocks (rows_of (remove_block p.row_id p.col_id id s)) in
      let x = with_prop key val p.block in
      elim (Bool-cases (t.row_id == p.row_id && t.col_id == p.col_id)) [
        | inl there ↦ rw there (
          Quot.mk rest,
          Quot.sound taken,
          Quot.sound (
              Perm.cons_inv (
                Perm.trans (rw there at perm)
                  (Perm.trans (Perm.cons x taken) (Perm.swap p.block x rest)))),
        )
        | inr away ↦ rw away (Quot.sound (Perm.cons_inv (rw away at perm)))
      ]

  pub sets-IsStep :
      (key val : String) (s : State)
      → IsSound uid s
      → IsStep (sets key val) (seen uid s) (bag (rows_of (set_selected key val s)))
  unfolding set_selected sel_block
  sets-IsStep key val s h = elim (Option-cases s.sel) [
    | inl nothing ↦ rw nothing refl
    | inr (t, selected) ↦ elim (Option-cases t.block_id) [
      | inl column ↦ rw selected (rw column refl)
      | inr (id, named) ↦ elim (Bool-cases (id == "")) [
        | inl blank ↦ rw selected (rw (named, blank) refl)
        | inr filled ↦ elim (Option-cases (find_block id (rows_of s))) [
          | inl gone ↦ rw selected (rw (named, filled, gone) refl)
          | inr (p, found) ↦
              let same : edited_at s.sel (rows_of s) ≡ if_there t (some p) =
                rw selected (rw (named, filled, found) refl) in
              subst
                (λ o.
                  IsWritten key val o (bag (rows_of s)) (bag (rows_of (set_selected key val s))))
                (sym same) (writes-IsStep key val id t p s h selected named filled found)
        ]
      ]
    ]
  ]
