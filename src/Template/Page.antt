-- ===== src/Template/Page.antt =====
-- The form of frontend/src/pages/TemplateEditor.tsx around its content: the messages at the required
-- fields, the button that saves, and what follows the answer. `pending` counts the requests on their
-- way and `saved` those that succeeded, after which the page navigates away.
use procovar_notify.Prelude.{
  present, String, ℕ, zero, suc, ◌≡◌, refl, Bool, true, false, not, ◌&&◌, ◌||◌, Option, none, some,
  List, [], ◌∷◌, ◌==◌, if◌then◌else◌, Bool-cases, inl, inr, Dict, lookup, insert,
}
use mathlib.Core.Option.{get_or}
use procovar_notify.Structure.Variables.{trim}
use procovar_notify.Template.Body.{TemplateBody}
use procovar_notify.Template.Editor.{Editor, has_errors, save}

pub record Page : Type 0 where
  pub editor : Editor
  pub loading : Bool
  pub saving : Bool
  pub save_err : Option String
  pub submit_attempted : Bool
  pub touched : Dict Bool
  pub pending : ℕ
  pub saved : ℕ

unfoldable pub err_key : Editor → String
unfolding trim
err_key e = if not e.editing && trim e.form.key == "" then "La key es obligatoria." else ""

unfoldable pub err_name : Editor → String
unfolding trim
err_name e = if trim e.form.name == "" then "El nombre es obligatorio." else ""

unfoldable pub show_err : String → Page → Bool
unfolding lookup
show_err f p = p.submit_attempted || get_or (lookup f p.touched) false

unfoldable pub mark_touched : String → Page → Page
unfolding insert
mark_touched f p = record p { touched = insert f true p.touched }

-- The `error` that the two fields are given.
unfoldable pub key_error : Page → String
unfolding show_err err_key
key_error p = if show_err "key" p then err_key p.editor else ""

unfoldable pub name_error : Page → String
unfolding show_err err_name
name_error p = if show_err "name" p then err_name p.editor else ""

unfoldable pub is_disabled : Page → Bool
is_disabled p = p.saving || p.loading

abbrev pub Request : Type 0
Request = TemplateBody × Option String

abbrev pub send : Option Request → Page → Page
send none p = p
send (some b) p = record p { saving = true; save_err = none; pending = suc p.pending }

-- `save`, up to the request.
unfoldable pub start_save : Page → Page × Option Request
unfolding save
start_save p = let b = save p.editor in (send b (record p { submit_attempted = true }), b)

unfoldable pub click_save : Page → Page × Option Request
unfolding is_disabled start_save
click_save p = let r = start_save p in if is_disabled p then (p, none) else r

pub data PageEvent : Type 0 where
  clicks loads navigates : PageEvent
  edits : Editor → PageEvent
  touches : String → PageEvent
  succeeds : PageEvent
  fails : String → PageEvent

-- An answer comes only to a request.
abbrev pub on_success : ℕ → Page → Page
on_success zero p = p
on_success (suc n) p = record p { pending = n; saved = suc p.saved }

abbrev pub on_failure : ℕ → String → Page → Page
on_failure zero err p = p
on_failure (suc n) err p = record p { save_err = some err; saving = false; pending = n }

unfoldable pub on_page : PageEvent → Page → Page
unfolding click_save mark_touched
on_page clicks p = (click_save p).0
on_page loads p = record p { loading = false }
on_page navigates p = record p { loading = true }
on_page (edits e) p = record p { editor = e }
on_page (touches f) p = mark_touched f p
on_page succeeds p = on_success p.pending p
on_page (fails err) p = on_failure p.pending err p

unfoldable pub on_pages : List PageEvent → Page → Page
unfolding on_page
on_pages [] p = p
on_pages (c ∷ cs) p = on_pages cs (on_page c p)

unfoldable pub first_page : Editor → Bool → Page
first_page e loading = record {
  editor = e;
  loading = loading;
  saving = false;
  save_err = none;
  submit_attempted = false;
  touched = [];
  pending = 0;
  saved = 0;
}

pub save-has_errors : (e : Editor) → present (save e) ≡ not (has_errors e)
unfolding save
save-has_errors e = elim (Bool-cases (has_errors e)) [ inl h ↦ rw h refl | inr h ↦ rw h refl ]

abbrev pub is_clear : Page → Bool
is_clear p = key_error p == "" && name_error p == ""

pub clear-has_errors : (e : Editor) → (err_key e == "" && err_name e == "") ≡ not (has_errors e)
unfolding err_key err_name has_errors
clear-has_errors e = elim (Bool-cases (not e.editing && trim e.form.key == "")) [
  | inl h ↦ rw h refl
  | inr h ↦ elim (Bool-cases (trim e.form.name == "")) [
    | inl g ↦ rw (h, g) refl
    | inr g ↦ rw (h, g) refl
  ]
]
