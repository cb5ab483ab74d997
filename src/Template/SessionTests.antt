-- ===== src/Template/SessionTests.antt =====
-- The theorems on whole sessions of the email builder at a new template.
use procovar_notify.Prelude.{
  ◌≡◌, ◌≢◌, refl, true, false, none, some, List, [], ◌∷◌, Outcome, returned, type_error,
}
use procovar_notify.Structure.{Structure}
use procovar_notify.Template.Defaults.{default_structure}
use procovar_notify.Template.Normalize.{to_structure}
use procovar_notify.Template.Body.{visual, build_template_body}
use procovar_notify.Template.Editor.{Form, Editor, save, save_options, has_errors}
use procovar_notify.Structure.Variables.{trim, is_space}
use procovar_notify.Builder.State.{State, initial, rows_of}
use procovar_notify.Builder.Drag.{DragEvent}
use procovar_notify.Builder.Samples.{array_move, array_move-IsArrayMove, tally, tally-apart}
use procovar_notify.Builder.Soundness.{IsSoundAt, IsSound}
use procovar_notify.Builder.Actions.{
  Action, adds, adds_row, lays_out, removes_row, duplicates, sets, ends_drag, performs,
}
use procovar_notify.Builder.Bags.{IsRun}
use procovar_notify.Builder.Refinement.{performs-IsRun}
use procovar_notify.Builder.Runs.{performs-IsSound}
use procovar_notify.Template.Sessions.{
  raw_structure, opened, reopened-performs, default_structure-IsSound,
}

-- The builder as it is mounted for a new template.
abbrev mounted : State
mounted =
    initial (default_structure tally "logo.png" "EMAIL" 0).0
      (default_structure tally "logo.png" "EMAIL" 0).1

mounted-IsSound : IsSound tally mounted
unfolding initial
mounted-IsSound = default_structure-IsSound tally tally-apart "logo.png" 0

abbrev drag : DragEvent
drag = record {
  active_id = "111";
  active_is_row = false;
  over = some (record { id = "col:1111111"; row_id = none; after = false });
}

abbrev run : List Action
run =
    adds_row 1
    ∷ adds "text"
    ∷ sets "text" "Hola"
    ∷ duplicates "11"
    ∷ ends_drag drag
    ∷ lays_out "111111" 0
    ∷ adds "button"
    ∷ removes_row ""
    ∷ []

performs-IsSound_example :
    (s' : State) × (performs tally array_move run mounted ≡ returned s') × IsSound tally s'
performs-IsSound_example =
    performs-IsSound tally array_move tally-apart array_move-IsArrayMove run mounted mounted-IsSound

performs-IsRun_example :
    (s' : State) × (performs tally array_move run mounted ≡ returned s')
    × IsRun tally array_move run mounted s'
performs-IsRun_example =
    performs-IsRun tally array_move array_move-IsArrayMove tally-apart run mounted mounted-IsSound

abbrev short_run : List Action
short_run = adds_row 2 ∷ adds "text" ∷ sets "text" "Hola" ∷ lays_out "111111" 0 ∷ []

abbrev state_or : State → Outcome State → State
state_or other (returned s) = s
state_or other type_error = other

abbrev left : State
left = state_or mounted (performs tally array_move short_run mounted)

performs-short_run : performs tally array_move short_run mounted ≡ returned left
unfolding performs initial default_structure
performs-short_run = refl

some_row_left : rows_of left ≢ []
unfolding performs initial default_structure
some_row_left e = cc

abbrev form : Form
form = record {
  key = "welcome";
  name = "Bienvenida";
  subject = "Hola";
  locale = "es";
  base_template_id = "";
  structure = left.value;
  variables = [];
  body = "";
}

abbrev editor : Editor
editor = record {
  editing = true;
  channel = "EMAIL";
  editor_mode = visual;
  selected_base = "";
  revert_confirm_open = false;
  form = form;
  bases = [];
  preview_body = none;
}

editor_saved : save editor ≡ some (build_template_body (save_options editor), none)
unfolding save has_errors trim is_space
editor_saved = refl

reopened-performs_example :
    (v : Structure) × ((build_template_body (save_options editor)).structure ≡ some v)
    × (to_structure tally (raw_structure v) "EMAIL" 9 ≡ (opened v, 9))
    × ((opened v).rows ≡ some (rows_of left))
    × IsSoundAt tally left.seed (rows_of left)
reopened-performs_example =
    reopened-performs tally array_move tally-apart array_move-IsArrayMove short_run mounted left
      editor (build_template_body (save_options editor)) none 9 mounted-IsSound performs-short_run
      some_row_left refl refl editor_saved
