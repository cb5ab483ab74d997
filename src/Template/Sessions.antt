-- ===== src/Template/Sessions.antt =====
-- From the editor to the server and back: the structure that EmailBuilder.tsx leaves after any
-- actions, sent by the `save` of TemplateEditor.tsx and opened again by `toStructure`.
use procovar_notify.Prelude.{
  String, ℕ, suc, ◌+◌, arith, ◌≡◌, ◌≢◌, refl, ap, ◌∙◌, true, Option, none, some, List, [], ◌∷◌, map,
  returned,
}
use mathlib.Core.Option
use mathlib.Core.List.{Nodup-nil, not-mem-nil}
use procovar_notify.Structure.{Row, Theme, Structure, or_empty}
use procovar_notify.Template.Normalize.{RawSection, RawStructure, theme_or_empty, to_structure}
use procovar_notify.Template.Reload.{raw_section, raw_row, HasWidths, to_structure-saved_email}
use procovar_notify.Template.Body.{TemplateBody, build_template_body}
use procovar_notify.Template.Editor.{Editor, save, save_options}
use procovar_notify.Template.Defaults.{default_structure}
use procovar_notify.Builder.Drawn.{Unused, Unused-le, Unused-cons, Unused-drawn}
use procovar_notify.Template.Loading.{saved_lem}
use procovar_notify.Builder.State.{State, rows_of}
use procovar_notify.Builder.DragEnd.{IsArrayMove}
use procovar_notify.Builder.Shape.{IsSolid-HasWidths}
use procovar_notify.Builder.Soundness.{IsSoundAt, IsSound}
use procovar_notify.Builder.Actions.{Action, performs}
use procovar_notify.Builder.Runs.{performs-IsSound}

-- What the server hands back for a structure.
abbrev pub raw_structure : Structure → RawStructure
raw_structure v = record {
  theme = v.theme;
  rows = Option.map (map raw_row) v.rows;
  sections = Option.map (map raw_section) v.sections;
}

-- The email that is opened for a structure with rows.
abbrev pub opened : Structure → Structure
opened v = record {
  theme = some (theme_or_empty v.theme);
  rows = some (or_empty v.rows);
  sections = none;
}

to_structure-raw_structure :
    (uid : ℕ → String) (theme : Option Theme) (rows : Option (List Row))
    (sections : Option (List RawSection)) (n : ℕ)
    → HasWidths (or_empty rows)
    → or_empty rows ≢ []
    → to_structure uid
        (record { theme = theme; rows = Option.map (map raw_row) rows; sections = sections })
        "EMAIL"
        n
      ≡ (opened (record { theme = theme; rows = rows; sections = none }), n)
unfolding to_structure
to_structure-raw_structure uid theme none sections n h k = absurd (k refl)
to_structure-raw_structure uid theme (some []) sections n h k = absurd (k refl)
to_structure-raw_structure uid theme (some (r ∷ rs)) sections n h k =
    to_structure-saved_email uid (theme_or_empty theme) r rs n h

update-structure :
    (e : Editor)
    → e.editing ≡ true
    → (build_template_body (save_options e)).structure ≡ some e.form.structure
unfolding build_template_body save_options
update-structure e editing = rw editing refl

module _ (uid : ℕ → String) (array_move : List Row → ℕ → ℕ → List Row)
    (apart : (i j : ℕ) → uid i ≡ uid j → i ≡ j) (moves : IsArrayMove array_move) where
  -- After any actions on a sound email that leave at least one row: the request that saves a new
  -- version has a structure that opens again, for whatever number of ids drawn before, with the
  -- rows that the builder showed, and without drawing an id. The builder can go on from it, since
  -- these rows are sound.
  pub reopened-performs :
      (actions : List Action) (s s' : State) (e : Editor) (b : TemplateBody)
      (locale : Option String) (n : ℕ)
      → IsSound uid s
      → performs uid array_move actions s ≡ returned s'
      → rows_of s' ≢ []
      → e.editing ≡ true
      → e.form.structure ≡ s'.value
      → save e ≡ some (b, locale)
      → (v : Structure) × (b.structure ≡ some v)
        × (to_structure uid (raw_structure v) "EMAIL" n ≡ (opened v, n))
        × ((opened v).rows ≡ some (rows_of s'))
        × IsSoundAt uid s'.seed (rows_of s')
  reopened-performs actions s s' e b locale n sound ran some_row editing shown saved =
      let (t, ran', kept) = performs-IsSound uid array_move apart moves actions s sound in
      let same : t ≡ s' = cc in
      let kept' : IsSoundAt uid s'.seed (rows_of s') = rw same at kept in
      (
        s'.value,
        rw (← (saved_lem e b locale saved).0) (update-structure e editing ∙ ap some shown),
        to_structure-raw_structure uid s'.value.theme s'.value.rows _ n
            (IsSolid-HasWidths (rows_of s') kept'.solid) some_row,
        refl,
        kept',
      )

-- The email of a new template is sound.
module _ (uid : ℕ → String) (apart : (i j : ℕ) → uid i ≡ uid j → i ≡ j) (brand_logo : String) where
  pub default_structure-IsSound :
      (n : ℕ)
      → IsSoundAt uid
          (default_structure uid brand_logo "EMAIL" n).1
          (or_empty (default_structure uid brand_logo "EMAIL" n).0.rows)
  unfolding default_structure
  default_structure-IsSound n =
      let no_ids : Unused uid n [] = (Nodup-nil, λ k h m. not-mem-nil m) in
      let one : n + 2 + 1 ≡ suc (n + 2) = omega arith in
      let two : n + 2 + 2 ≡ suc (suc (n + 2)) = omega arith in
      let three : n + 2 + 3 ≡ suc (suc (suc (n + 2))) = omega arith in
      record {
        by_row = Unused-le uid (suc n) _ _ (omega arith) (Unused-cons uid apart n [] no_ids);
        by_column =
            Unused-le uid (suc (n + 1)) _ _ (omega arith)
              (Unused-cons uid apart (n + 1) [] (Unused-le uid n _ _ (omega arith) no_ids));
        by_block =
            rw (one, two, three)
              (Unused-le uid (n + 2 + 4) _ _ (omega arith)
                (Unused-drawn uid apart (n + 2) 4 [] (Unused-le uid n _ _ (omega arith) no_ids)));
        solid = (((λ q. cc), (omega arith, tt)), tt);
      }
