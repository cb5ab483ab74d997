-- ===== src/Template/Pausing.antt =====
-- A preview that comes late never replaces a newer one, and an error never takes the preview away.
use procovar_notify.Prelude.{ℕ, suc, ◌≡◌, refl, ◌≢◌, inl, inr, List, [], ◌∷◌, length, Bool-cases}
use procovar_notify.Structure.{Preview}
use procovar_notify.Async.{ignores, retire}
use procovar_notify.Async.Stale.{IsCurrent, IsCurrent-retired, AreRetired-retire, ignores-old}
use procovar_notify.Template.Preview.{
  PreviewError, PreviewState, PreviewEvent, edits, leaves, renders, fails, run_preview, on_render,
  on_render_error, on_preview, on_previews, first_preview, is_render_error,
}

IsCurrent-on_preview :
    (e : PreviewEvent) (s : PreviewState)
    → IsCurrent s.cancelled
    → IsCurrent (on_preview e s).cancelled
unfolding on_preview run_preview on_render on_render_error
IsCurrent-on_preview edits s h = AreRetired-retire s.cancelled h
IsCurrent-on_preview leaves s h = IsCurrent-retired _ (AreRetired-retire s.cancelled h)
IsCurrent-on_preview (renders i res) s h = elim (Bool-cases (ignores i s.cancelled)) [
  | inl b ↦ rw b h
  | inr b ↦ rw b h
]
IsCurrent-on_preview (fails i err) s h = elim (Bool-cases (ignores i s.cancelled)) [
  | inl b ↦ rw b h
  | inr b ↦ rw b (elim (Bool-cases (is_render_error err)) [ inl r ↦ rw r h | inr r ↦ rw r h ])
]

IsCurrent-on_previews :
    (es : List PreviewEvent) (s : PreviewState)
    → IsCurrent s.cancelled
    → IsCurrent (on_previews es s).cancelled
unfolding on_previews
IsCurrent-on_previews [] s h = h
IsCurrent-on_previews (e ∷ es) s h =
    IsCurrent-on_previews es (on_preview e s) (IsCurrent-on_preview e s h)

first-IsCurrent : (es : List PreviewEvent) → IsCurrent (on_previews es first_preview).cancelled
unfolding first_preview run_preview retire
first-IsCurrent es = IsCurrent-on_previews es first_preview tt

preview-fails :
    (i : ℕ) (err : PreviewError) (s : PreviewState)
    → (on_preview (fails i err) s).preview ≡ s.preview
unfolding on_preview on_render_error
preview-fails i err s = elim (Bool-cases (ignores i s.cancelled)) [
  | inl b ↦ rw b refl
  | inr b ↦ rw b (elim (Bool-cases (is_render_error err)) [ inl r ↦ rw r refl | inr r ↦ rw r refl ])
]

-- After any sequence of edits and responses: the end of a run of the effect that is not the newest
-- changes nothing, be it a preview or an error; and an error of any run, the newest included, leaves
-- the last preview in place.
pub on_preview_stale :
    (es : List PreviewEvent) (i j : ℕ) (res : Preview) (err fault : PreviewError)
    → suc i ≢ length (on_previews es first_preview).cancelled
    → (on_preview (renders i res) (on_previews es first_preview) ≡ on_previews es first_preview)
      × (on_preview (fails i err) (on_previews es first_preview) ≡ on_previews es first_preview)
      × ((on_preview (fails j fault) (on_previews es first_preview)).preview
          ≡ (on_previews es first_preview).preview)
unfolding on_preview on_render on_render_error
on_preview_stale es i j res err fault n = (
  rw (ignores-old i _ (first-IsCurrent es) n) refl,
  rw (ignores-old i _ (first-IsCurrent es) n) refl,
  preview-fails j fault (on_previews es first_preview),
)
