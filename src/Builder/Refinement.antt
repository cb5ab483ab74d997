-- ===== src/Builder/Refinement.antt =====
-- EmailBuilder.tsx refines the machine on bags of blocks: every action of the user, in any order,
-- makes a step that the machine has.
use procovar_notify.Prelude.{
  String, ℕ, ◌≡◌, refl, sym, ap, ◌∙◌, inl, inr, List, [], ◌∷◌, get_elem?, Option-cases, Bool-cases,
  returned,
}
use mathlib.Core.Quot
use procovar_notify.Structure.{Row}
use procovar_notify.Builder.Palette.{layouts}
use procovar_notify.Builder.State.{
  State, rows_of, set_primary_color, set_font, set_viewport, set_mode,
}
use procovar_notify.Builder.Edit.{add_row, set_row_layout}
use procovar_notify.Builder.Layout.{set_row_layout-blocks}
use procovar_notify.Builder.DragEnd.{IsArrayMove, on_drag_end-perm, compute_block_drop-total}
use procovar_notify.Builder.Drag.{DragEvent, on_drag_over, on_drag_start, on_drag_cancel}
use procovar_notify.Builder.Shape.{IsSolid-HasColumns}
use procovar_notify.Builder.Growth.{get_elem?-IsOffered}
use procovar_notify.Builder.Runs.{perform-IsSound}
use procovar_notify.Builder.Soundness.{IsSoundAt-IsDistinct, IsSound}
use procovar_notify.Builder.Actions.{
  Action, adds, adds_row, lays_out, removes_row, duplicates, removes, sets, starts_drag, hovers,
  ends_drag, cancels_drag, selects, colors, sets_font, views, shows, perform, performs, with_layout,
}
use procovar_notify.Builder.Bags.{bag, seen, IsStep, IsRun}
use procovar_notify.Builder.BagAdds.{returned-injective, adds-IsStep, adds_row-IsStep}
use procovar_notify.Builder.BagSteps.{
  duplicates-IsStep, removes-IsStep, removes_row-IsStep, sets-IsStep,
}

module _ (uid : ℕ → String) (array_move : List Row → ℕ → ℕ → List Row)
    (moves : IsArrayMove array_move) where
  lays_out-IsStep :
      (row_id : String) (i : ℕ) (s s' : State)
      → with_layout (get_elem? layouts i) (λ widths. set_row_layout uid row_id widths s) s
        ≡ returned s'
      → bag (rows_of s') ≡ bag (rows_of s)
  lays_out-IsStep row_id i s s' e = elim (Option-cases (get_elem? layouts i)) [
    | inl gone ↦ ap (λ x. bag (rows_of x)) (sym (returned-injective (rw gone at e)))
    | inr (l, found) ↦
        let (w, ws, same, _) = get_elem?-IsOffered i l found in
        let (next, e', done) = set_row_layout-blocks uid row_id w ws s in
        let it : next ≡ s' =
          returned-injective
            (sym e' ∙ ap (λ v. set_row_layout uid row_id v s) (sym same) ∙ rw found at e) in
        rw (← it) (ap Quot.mk done.0)
  ]

  adds_row_of-IsStep :
      (i : ℕ) (s s' : State)
      → with_layout (get_elem? layouts i) (λ widths. add_row uid widths s) s ≡ returned s'
      → bag (rows_of s') ≡ bag (rows_of s)
  adds_row_of-IsStep i s s' e = elim (Option-cases (get_elem? layouts i)) [
    | inl gone ↦ ap (λ x. bag (rows_of x)) (sym (returned-injective (rw gone at e)))
    | inr (l, found) ↦
        let (w, ws, same, _) = get_elem?-IsOffered i l found in
        adds_row-IsStep uid w ws s s' (ap (λ v. add_row uid v s) (sym same) ∙ rw found at e)
  ]

  on_drag_over-rows :
      (e : DragEvent) (s s' : State)
      → IsSound uid s
      → on_drag_over e s ≡ returned s'
      → rows_of s' ≡ rows_of s
  unfolding on_drag_over
  on_drag_over-rows e s s' h q = elim (Bool-cases e.active_is_row) [
    | inl row ↦ ap rows_of (sym (returned-injective (rw row at q)))
    | inr block ↦
        let (d, done) =
          compute_block_drop-total e (rows_of s) (IsSolid-HasColumns (rows_of s) h.solid) in
        ap rows_of (sym (returned-injective (rw block at (rw done at q))))
  ]

  perform-IsStep :
      (a : Action) (s s' : State)
      → IsSound uid s
      → perform uid array_move a s ≡ returned s'
      → IsStep a (seen uid s) (bag (rows_of s'))
  unfolding perform
  perform-IsStep (adds type) s s' h e = adds-IsStep uid type s h s' e
  perform-IsStep (adds_row i) s s' h e = adds_row_of-IsStep i s s' e
  perform-IsStep (lays_out row_id i) s s' h e = lays_out-IsStep row_id i s s' e
  perform-IsStep (removes_row id) s s' h e =
      rw (← returned-injective e) (removes_row-IsStep uid id s)
  perform-IsStep (duplicates id) s s' h e =
      rw (← returned-injective e) (duplicates-IsStep uid id s h)
  perform-IsStep (removes id) s s' h e = rw (← returned-injective e) (removes-IsStep uid id s h)
  perform-IsStep (sets key val) s s' h e = rw (← returned-injective e) (sets-IsStep uid key val s h)
  perform-IsStep (starts_drag id) s s' h e =
      unfold on_drag_start in ap (λ x. bag (rows_of x)) (sym (returned-injective e))
  perform-IsStep (hovers q) s s' h e = ap bag (on_drag_over-rows q s s' h e)
  perform-IsStep (ends_drag q) s s' h e =
      let d = IsSoundAt-IsDistinct uid s.seed (rows_of s) h in
      let (next, e', perm) =
        on_drag_end-perm array_move moves q s d (IsSolid-HasColumns (rows_of s) h.solid) in
      rw (← returned-injective (sym e' ∙ e)) (Quot.sound perm)
  perform-IsStep cancels_drag s s' h e =
      unfold on_drag_cancel in ap (λ x. bag (rows_of x)) (sym (returned-injective e))
  perform-IsStep (selects sel) s s' h e = ap (λ x. bag (rows_of x)) (sym (returned-injective e))
  perform-IsStep (colors color) s s' h e =
      unfold set_primary_color in ap (λ x. bag (rows_of x)) (sym (returned-injective e))
  perform-IsStep (sets_font family) s s' h e =
      unfold set_font in ap (λ x. bag (rows_of x)) (sym (returned-injective e))
  perform-IsStep (views k) s s' h e =
      unfold set_viewport in ap (λ x. bag (rows_of x)) (sym (returned-injective e))
  perform-IsStep (shows m) s s' h e =
      unfold set_mode in ap (λ x. bag (rows_of x)) (sym (returned-injective e))

  module _ (apart : (i j : ℕ) → uid i ≡ uid j → i ≡ j) where
    -- Any actions of the user on a sound email, where two calls of uid differ and arrayMove
    -- permutes: they return, each in its turn, and each does to the bag of the blocks what the
    -- machine on bags says. A block of the palette is added once with the default props of its
    -- type, unless the column of the selection is gone, when nothing changes; a copy of a block is
    -- added or a block is taken out if its id is there; the blocks of the row that is removed are
    -- taken out and no other; one prop of the edited block is written if it stands where the
    -- selection says; and all else, drag and drop and layouts included, leaves the bag as it is.
    pub performs-IsRun :
        (actions : List Action) (s : State)
        → IsSound uid s
        → (s' : State) × (performs uid array_move actions s ≡ returned s')
          × IsRun uid array_move actions s s'
    unfolding performs
    performs-IsRun [] s h = (s, refl, refl)
    performs-IsRun (a ∷ rest) s h =
        let (next, e, k) = perform-IsSound uid array_move apart moves a s h in
        let (s', e', run) = performs-IsRun rest next k in
        (s', rw e e', (next, e, perform-IsStep a s next h e, run))
