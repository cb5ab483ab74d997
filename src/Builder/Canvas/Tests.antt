-- ===== src/Builder/Canvas/Tests.antt =====
-- The theorems on the canvas at a row of two columns.
use procovar_notify.Prelude.{String, ℕ, none, some, List, [], ◌∷◌, false}
use procovar_notify.Structure.{Section, Column, Row}
use procovar_notify.Builder.Palette.{Layout}
use procovar_notify.Builder.State.{State, initial, rows_of}
use procovar_notify.Builder.Canvas.{ColumnProps}

abbrev uid : ℕ → String
uid n = "new"

abbrev block : String → Section
block id = record { id = id; type = "text"; props = [] }

abbrev column : String → List Section → Column
column id blocks = record { id = id; width = 1; blocks = blocks }

abbrev rows : List Row
rows =
    record {
      id = "r1";
      columns = column "c1" (block "b1" ∷ block "b2" ∷ []) ∷ column "c2" (block "b3" ∷ []) ∷ [];
    }
    ∷ []

abbrev state : State
state = record {
  value = record { theme = none; rows = some rows; sections = none };
  sel = none;
  viewport = procovar_notify.Builder.Palette.pc;
  mode = procovar_notify.Builder.State.design;
  active_id = none;
  drop = none;
  seed = 0;
}

abbrev props : ColumnProps
props = record {
  column = column "c1" (block "b1" ∷ block "b2" ∷ []);
  share = (1, 2);
  selected_col = false;
  sel_block_id = some "b1";
  drop_at = none;
}
