-- ===== src/Template/Submit.antt =====
-- Saving in frontend/src/pages/TemplateEditor.tsx: what a click on the button does, and how often a
-- template is saved.
use procovar_notify.Prelude.{
  present, String, ℕ, zero, suc, ◌+◌, ◌≡◌, refl, sym, ap, ◌∙◌, Bool, true, false, ◌||◌, ◌≤◌, not,
  Option, none, some, List, [], ◌∷◌, if◌then◌else◌, arith,
}
use procovar_notify.Template.Editor.{Editor, save, has_errors}
use procovar_notify.Template.Page.{
  Page, PageEvent, clicks, loads, navigates, edits, touches, succeeds, fails, send, on_success,
  on_failure, is_clear, is_disabled, click_save, start_save, key_error, name_error, show_err,
  mark_touched, on_page, on_pages, first_page, Request, save-has_errors, clear-has_errors,
}

-- After an attempt to save, the messages are those of the fields that are blank.
send-is_clear :
    (b : Option Request) (p : Page)
    → is_clear (send b (record p { submit_attempted = true })) ≡ not (has_errors p.editor)
unfolding key_error name_error show_err
send-is_clear none p = clear-has_errors p.editor
send-is_clear (some b) p = clear-has_errors p.editor

-- A click on the enabled button sends a request exactly if the form then shows no message at a
-- required field.
pub click_save-is_clear :
    (p : Page) → is_disabled p ≡ false → present (click_save p).1 ≡ is_clear (click_save p).0
unfolding click_save start_save
click_save-is_clear p h = rw h (save-has_errors p.editor ∙ sym (send-is_clear (save p.editor) p))

abbrev in_flight : Bool → ℕ
in_flight true = 1
in_flight false = 0

abbrev pub IsOnce : Page → Type 0
IsOnce p = p.pending + p.saved ≡ in_flight p.saving

in_flight_le : (b : Bool) → in_flight b ≤ 1
in_flight_le true = omega arith
in_flight_le false = omega arith

send-IsOnce : (b : Option Request) (p : Page) → p.saving ≡ false → IsOnce p → IsOnce (send b p)
send-IsOnce none p e h = h
send-IsOnce (some b) p e h = let none_open = h ∙ ap in_flight e in omega arith

click-IsOnce :
    (s l : Bool) (p : Page)
    → p.saving ≡ s
    → IsOnce p
    → IsOnce (if s || l then (p, none) else start_save p).0
unfolding start_save
click-IsOnce true l p e h = h
click-IsOnce false true p e h = h
click-IsOnce false false p e h =
    send-IsOnce (save p.editor) (record p { submit_attempted = true }) e h

answer-IsOnce :
    (n : ℕ) (p : Page) (err : String)
    → p.pending ≡ n
    → IsOnce p
    → IsOnce (on_success n p) × IsOnce (on_failure n err p)
answer-IsOnce zero p err e h = (h, h)
answer-IsOnce (suc n) p err e h = let one = in_flight_le p.saving in (omega arith, omega arith)

on_page-IsOnce : (c : PageEvent) (p : Page) → IsOnce p → IsOnce (on_page c p)
unfolding on_page click_save is_disabled mark_touched
on_page-IsOnce clicks p h = click-IsOnce p.saving p.loading p refl h
on_page-IsOnce loads p h = h
on_page-IsOnce navigates p h = h
on_page-IsOnce (edits e) p h = h
on_page-IsOnce (touches f) p h = h
on_page-IsOnce succeeds p h = (answer-IsOnce p.pending p "" refl h).0
on_page-IsOnce (fails err) p h = (answer-IsOnce p.pending p err refl h).1

on_pages_keep : (cs : List PageEvent) (p : Page) → IsOnce p → IsOnce (on_pages cs p)
unfolding on_pages
on_pages_keep [] p h = h
on_pages_keep (c ∷ cs) p h = on_pages_keep cs (on_page c p) (on_page-IsOnce c p h)

-- However often the user clicks, whatever the form then holds and however the requests end: `saving`
-- holds exactly if a request is on its way or one has succeeded, and these two are one in all, so
-- that a template is not saved twice.
pub on_pages-IsOnce :
    (cs : List PageEvent) (e : Editor) (loading : Bool)
    → IsOnce (on_pages cs (first_page e loading))
unfolding first_page
on_pages-IsOnce cs e loading = on_pages_keep cs (first_page e loading) (omega arith)
