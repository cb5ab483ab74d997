-- ===== src/Template/Preview.antt =====
-- The preview effect of frontend/src/pages/TemplateEditor.tsx. A run of the effect sets a timer; the
-- cleanup of the run cancels it and stops its timer.
use procovar_notify.Prelude.{
  String, ℕ, Bool, true, false, Option, none, some, List, [], ◌∷◌, ◌==◌, if◌then◌else◌,
}
use procovar_notify.Structure.{Preview}
use procovar_notify.Async.{ignores, retire}

-- An `ApiError` with its code, or another error.
pub data PreviewError : Type 0 where
  api_error : String → PreviewError
  other_error : String → PreviewError

-- `cancelled` holds the flags of the runs, newest first.
pub record PreviewState : Type 0 where
  pub preview : Option Preview
  pub preview_err : Option PreviewError
  pub preview_paused : Bool
  pub cancelled : List Bool

pub data PreviewEvent : Type 0 where
  edits : PreviewEvent
  leaves : PreviewEvent
  renders : ℕ → Preview → PreviewEvent
  fails : ℕ → PreviewError → PreviewEvent

abbrev pub is_render_error : PreviewError → Bool
is_render_error (api_error code) = code == "render_error"
is_render_error (other_error message) = false

unfoldable pub run_preview : PreviewState → PreviewState
unfolding retire
run_preview s = record s { cancelled = false ∷ retire s.cancelled }

unfoldable pub on_render : ℕ → Preview → PreviewState → PreviewState
unfolding ignores
on_render i res s =
    if ignores i s.cancelled
    then s
    else record s { preview = some res; preview_err = none; preview_paused = false }

unfoldable pub on_render_error : ℕ → PreviewError → PreviewState → PreviewState
unfolding ignores
on_render_error i err s =
    if ignores i s.cancelled
    then s
    else if is_render_error err
    then record s { preview_paused = true }
    else record s { preview_err = some err }

unfoldable pub on_preview : PreviewEvent → PreviewState → PreviewState
unfolding run_preview on_render on_render_error retire
on_preview edits s = run_preview s
on_preview leaves s = record s { cancelled = retire s.cancelled }
on_preview (renders i res) s = on_render i res s
on_preview (fails i err) s = on_render_error i err s

unfoldable pub on_previews : List PreviewEvent → PreviewState → PreviewState
unfolding on_preview
on_previews [] s = s
on_previews (e ∷ es) s = on_previews es (on_preview e s)

-- The page after its first effect.
unfoldable pub first_preview : PreviewState
unfolding run_preview
first_preview =
    run_preview
      (record { preview = none; preview_err = none; preview_paused = false; cancelled = [] })
