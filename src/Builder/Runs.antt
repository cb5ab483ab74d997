-- ===== src/Builder/Runs.antt =====
-- Any sequence of actions on EmailBuilder.tsx: none throws, and each keeps the invariant.
use procovar_notify.Prelude.{
  String, ℕ, ◌≡◌, refl, inl, inr, Option, none, some, List, [], ◌∷◌, Option-cases, Bool-cases,
  get_elem?, Outcome, returned,
}
use mathlib.Core.Option
use procovar_notify.Structure.{Row}
use procovar_notify.Builder.Palette.{layouts}
use procovar_notify.Builder.Locate.{find_block}
use procovar_notify.Builder.State.{
  State, rows_of, set_primary_color, set_font, set_viewport, set_mode,
}
use procovar_notify.Builder.Drag.{
  Over, DragEvent, BlockDrop, drop_point, is_no_change, apply_drop, drop_block, drop_row, move_row,
  end_drag, on_drag_start, on_drag_cancel, on_drag_end, on_drag_over,
}
use procovar_notify.Builder.DragEnd.{IsArrayMove, compute_block_drop-total, move_row-perm}
use procovar_notify.Builder.Shape.{IsSolid-HasColumns}
use procovar_notify.Builder.Growth.{
  IsOffered, get_elem?-IsOffered, add_row-IsSound, set_row_layout-IsSound,
}
use procovar_notify.Builder.Soundness.{IsSound, permuted}
use procovar_notify.Builder.Actions.{
  Action, adds, adds_row, lays_out, removes_row, duplicates, removes, sets, starts_drag, hovers,
  ends_drag, cancels_drag, selects, colors, sets_font, views, shows, perform, performs,
  set_selected, sel_block, with_layout,
}
use procovar_notify.Builder.Steps.{
  Keeps, add_block-IsSound, at_block-IsSound, duplicate_block-IsSound, remove_block-IsSound,
  remove_row-IsSound, set_at-IsSound, move_block_to-IsSound,
}

module _ (uid : ℕ → String) (array_move : List Row → ℕ → ℕ → List Row)
    (apart : (i j : ℕ) → uid i ≡ uid j → i ≡ j) (moves : IsArrayMove array_move) where
  apply_drop-IsSound :
      (id : String) (d : Option BlockDrop) (s : State)
      → Keeps uid apart (apply_drop (find_block id (rows_of s)) d) s
  unfolding apply_drop
  apply_drop-IsSound id none s h = elim (Option-cases (find_block id (rows_of s))) [
    | inl gone ↦ rw gone h
    | inr (src, found) ↦ rw found h
  ]
  apply_drop-IsSound id (some d) s h = elim (Option-cases (find_block id (rows_of s))) [
    | inl gone ↦ rw gone h
    | inr (src, found) ↦ elim (Bool-cases (is_no_change src d)) [
      | inl still ↦ rw (found, still) h
      | inr moves ↦
          rw (found, moves)
            (move_block_to-IsSound uid apart id d.row_id d.col_id d.index src s found h)
    ]
  ]

  drop_row-IsSound :
      (id : String) (over : Over) (s : State) → Keeps uid apart (drop_row array_move id over) s
  unfolding drop_row
  drop_row-IsSound id over s h = elim (Option-cases (move_row array_move id over (rows_of s))) [
    | inl gone ↦ rw (gone, drop_row) h
    | inr (rows, e) ↦
        let perm = move_row-perm array_move moves id over (rows_of s) rows e in
        rw (e, drop_row) (permuted uid s.seed (rows_of s) rows perm h)
  ]

  end_drag-IsSound :
      (o : Option Over) (e : DragEvent) (s : State)
      → IsSound uid s
      → (s' : State) × (end_drag array_move o e s ≡ returned s') × IsSound uid s'
  unfolding end_drag drop_block
  end_drag-IsSound none e s h = (s, refl, h)
  end_drag-IsSound (some over) e s h = elim (Bool-cases e.active_is_row) [
    | inl row ↦
        (drop_row array_move e.active_id over s, rw row refl, drop_row-IsSound e.active_id over s h)
    | inr block ↦
        let (d, done) =
          compute_block_drop-total e (rows_of s) (IsSolid-HasColumns (rows_of s) h.solid) in
        (
          apply_drop (find_block e.active_id (rows_of s)) d s,
          rw (done, block) refl,
          apply_drop-IsSound e.active_id d s h,
        )
  ]

  on_drag_over-IsSound :
      (e : DragEvent) (s : State)
      → IsSound uid s
      → (s' : State) × (on_drag_over e s ≡ returned s') × IsSound uid s'
  unfolding on_drag_over
  on_drag_over-IsSound e s h = elim (Bool-cases e.active_is_row) [
    | inl row ↦ (record s { drop = none }, rw row refl, h)
    | inr block ↦
        let (d, done) =
          compute_block_drop-total e (rows_of s) (IsSolid-HasColumns (rows_of s) h.solid) in
        (record s { drop = Option.map drop_point d }, rw (done, block) refl, h)
  ]

  with_layout-IsSound :
      (i : ℕ) (f : List ℕ → Outcome State) (s : State)
      → IsSound uid s
      → ((widths : List ℕ)
          → IsOffered widths
          → (s' : State) × (f widths ≡ returned s') × IsSound uid s')
      → (s' : State) × (with_layout (get_elem? layouts i) f s ≡ returned s') × IsSound uid s'
  with_layout-IsSound i f s h k = elim (Option-cases (get_elem? layouts i)) [
    | inl gone ↦ (s, rw gone refl, h)
    | inr (l, e) ↦ rw e (k l.widths (get_elem?-IsOffered i l e))
  ]

  pub perform-IsSound :
      (a : Action) (s : State)
      → IsSound uid s
      → (s' : State) × (perform uid array_move a s ≡ returned s') × IsSound uid s'
  unfolding perform
  perform-IsSound (adds type) s h = add_block-IsSound uid apart type s h
  perform-IsSound (adds_row i) s h =
      with_layout-IsSound i _ s h (λ widths good. add_row-IsSound uid apart widths s good h)
  perform-IsSound (lays_out row_id i) s h =
      with_layout-IsSound i _ s h
        (λ widths good. set_row_layout-IsSound uid apart row_id widths s good h)
  perform-IsSound (removes_row id) s h = (_, refl, remove_row-IsSound uid apart id s h)
  perform-IsSound (duplicates id) s h = (
    _,
    refl,
    at_block-IsSound uid apart id _ s h
        (λ p found. duplicate_block-IsSound uid apart id p s found h),
  )
  perform-IsSound (removes id) s h = (
    _,
    refl,
    at_block-IsSound uid apart id _ s h (λ p found. remove_block-IsSound uid apart id p s found h),
  )
  perform-IsSound (sets key val) s h =
      (_, refl, unfold set_selected in set_at-IsSound uid apart s.sel (sel_block s) key val s h)
  perform-IsSound (starts_drag id) s h = (_, refl, unfold on_drag_start in h)
  perform-IsSound (hovers e) s h = on_drag_over-IsSound e s h
  perform-IsSound (ends_drag e) s h =
      unfold on_drag_end in end_drag-IsSound e.over e (record s { active_id = none; drop = none }) h
  perform-IsSound cancels_drag s h = (_, refl, unfold on_drag_cancel in h)
  perform-IsSound (selects sel) s h = (_, refl, h)
  perform-IsSound (colors color) s h = (_, refl, unfold set_primary_color in h)
  perform-IsSound (sets_font family) s h = (_, refl, unfold set_font in h)
  perform-IsSound (views k) s h = (_, refl, unfold set_viewport in h)
  perform-IsSound (shows m) s h = (_, refl, unfold set_mode in h)

  -- Any actions of the user on the builder, in any order, from a sound email, where two calls of
  -- uid differ and arrayMove permutes: none throws, and the email they leave is sound again. It is
  -- sound when the ids of its rows, of its columns and of its blocks are distinct, uid draws none
  -- of them again, each row has a column, and each column has a width of at least 1.
  pub performs-IsSound :
      (actions : List Action) (s : State)
      → IsSound uid s
      → (s' : State) × (performs uid array_move actions s ≡ returned s') × IsSound uid s'
  unfolding performs
  performs-IsSound [] s h = (s, refl, h)
  performs-IsSound (a ∷ rest) s h =
      let (next, e, k) = perform-IsSound a s h in
      let (s', e', k') = performs-IsSound rest next k in (s', rw e e', k')
