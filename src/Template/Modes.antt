-- ===== src/Template/Modes.antt =====
-- The visual and the HTML editor of frontend/src/pages/TemplateEditor.tsx: switching between them.
use procovar_notify.Prelude.{
  String, ◌≡◌, refl, ◌∙◌, Bool, true, false, inl, inr, Option, List, [], ◌∷◌, Bool-cases,
  if◌then◌else◌,
}
use procovar_notify.Template.Normalize.{structure_has_blocks}
use procovar_notify.Template.Body.{EditorMode, visual, html}
use procovar_notify.Template.Editor.{
  Editor, switch_mode, switch_from, do_revert, cancel_revert, on_base_change,
}

-- What the user may do to the mode and the base.
pub data Action : Type 0 where
  switches : EditorMode → Action
  confirms : Action
  cancels : Action
  chooses : String → Action

-- The modal's button is there only while the modal is open.
abbrev confirm : Bool → Editor → Editor
confirm true e = do_revert e
confirm false e = e

module _ (beautify : String → Option String) (brand_logo : String) where
  unfoldable pub act : Action → Editor → Editor
  act (switches mode) e = switch_mode beautify brand_logo mode e
  act confirms e = confirm e.revert_confirm_open e
  act cancels e = cancel_revert e
  act (chooses id) e = on_base_change beautify brand_logo id e

  unfoldable pub acts : List Action → Editor → Editor
  unfolding act
  acts [] e = e
  acts (a ∷ rest) e = acts rest (act a e)

  structure-switch :
      (mode : EditorMode) (e : Editor)
      → (switch_mode beautify brand_logo mode e).form.structure ≡ e.form.structure
  unfolding switch_mode
  structure-switch mode e = go e.editor_mode mode
    where
      go :
          (from to : EditorMode)
          → (switch_from beautify brand_logo from to e).form.structure ≡ e.form.structure
      go visual visual = refl
      go visual html = refl
      go html html = refl
      go html visual = elim (Bool-cases (structure_has_blocks e.form.structure)) [
        | inl b ↦ rw b refl
        | inr b ↦ rw b refl
      ]

  structure-act : (a : Action) (e : Editor) → (act a e).form.structure ≡ e.form.structure
  unfolding act do_revert cancel_revert on_base_change
  structure-act (switches mode) e = structure-switch mode e
  structure-act confirms e = elim (Bool-cases e.revert_confirm_open) [
    | inl b ↦ rw b refl
    | inr b ↦ rw b refl
  ]
  structure-act cancels e = refl
  structure-act (chooses id) e = refl

  structure-acts :
      (done : List Action) (e : Editor) → (acts done e).form.structure ≡ e.form.structure
  unfolding acts
  structure-acts [] e = refl
  structure-acts (a ∷ rest) e = structure-acts rest (act a e) ∙ structure-act a e

  -- Asking for the visual mode and confirming.
  abbrev pub go_back : List Action
  go_back = switches visual ∷ confirms ∷ []

  mode-confirm :
      (b : Bool) (e : Editor) → e.editor_mode ≡ visual → (confirm b e).editor_mode ≡ visual
  unfolding do_revert
  mode-confirm true e h = refl
  mode-confirm false e h = h

  mode-go_back :
      (e : Editor)
      → structure_has_blocks e.form.structure ≡ true
      → (acts go_back e).editor_mode ≡ visual
  unfolding acts act switch_mode do_revert
  mode-go_back e b = go e.editor_mode refl
    where
      go :
          (m : EditorMode)
          → e.editor_mode ≡ m
          → (confirm
              (switch_from beautify brand_logo m visual e).revert_confirm_open
              (switch_from beautify brand_logo m visual e)).editor_mode
            ≡ visual
      go visual h = mode-confirm e.revert_confirm_open e h
      go html h = rw b refl

  -- Without blocks, asking for the visual mode does nothing.
  no_way_back :
      (e : Editor) → structure_has_blocks e.form.structure ≡ false → act (switches visual) e ≡ e
  unfolding act switch_mode
  no_way_back e b = go e.editor_mode
    where
      go : (m : EditorMode) → switch_from beautify brand_logo m visual e ≡ e
      go visual = refl
      go html = rw b refl

  -- Whatever switches of the mode, confirmations, cancellations and choices of a base the user
  -- makes, the structure of the form stays as it is. If it has blocks, asking for the visual mode
  -- and confirming then leads to that mode, and the structure is still the same; if it has none,
  -- asking for the visual mode then changes nothing.
  pub acts-go_back :
      (done : List Action) (e : Editor)
      → ((acts done e).form.structure ≡ e.form.structure)
        × (if structure_has_blocks e.form.structure
            then (((acts go_back (acts done e)).editor_mode ≡ visual)
                × ((acts go_back (acts done e)).form.structure ≡ e.form.structure))
            else act (switches visual) (acts done e) ≡ acts done e)
  acts-go_back done e = (
    structure-acts done e,
    elim (Bool-cases (structure_has_blocks e.form.structure)) [
      | inl b ↦ rw b (
        mode-go_back (acts done e) (rw structure-acts b),
        structure-acts go_back (acts done e) ∙ structure-acts done e,
      )
      | inr b ↦ rw b (no_way_back (acts done e) (rw structure-acts b))
    ],
  )
