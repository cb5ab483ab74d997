-- ===== src/Builder/Tests.antt =====
-- The theorems on the editor at an email of two rows.
use Prim.Native.String
use procovar_notify.Prelude.{
  String, ℕ, zero, suc, ◌≡◌, refl, false, none, some, List, [], ◌∷◌, unique-Nodup, returned,
}
use mathlib.Core.List.{Perm}
use procovar_notify.Structure.{Section, Column, Row, rows_blocks}
use procovar_notify.Builder.Locate.{BlockPlace, find_block, last_column}
use procovar_notify.Builder.State.{Sel, State, design, rows_of}
use procovar_notify.Builder.Palette.{pc}
use procovar_notify.Builder.Edit.{set_row_layout, add_target, column_at, add_block, new_block}
use procovar_notify.Builder.Drag.{DragEvent, BlockDrop, drop_over, compute_block_drop, on_drag_end}
use procovar_notify.Builder.Landing.{IsLanded, on_drag_end-IsLanded}
use procovar_notify.Builder.Samples.{array_move, array_move-IsArrayMove}
use procovar_notify.Builder.Ids.{IsDistinct}
use procovar_notify.Builder.Layout.{IsLaidOut, set_row_layout-blocks}
use procovar_notify.Builder.DragEnd.{on_drag_end-perm}
use procovar_notify.Builder.AddBlock.{add_block-perm, add_block_stale, selected_block}
use procovar_notify.Builder.Actions.{sel_block, set_selected}
use procovar_notify.Builder.Inspector.{set_selected-perm}

abbrev fresh : ℕ → String
fresh zero = "u"
fresh (suc n) = String.◌++◌ "u" (fresh n)

abbrev block : String → String → Section
block id type = record { id = id; type = type; props = ("text", "Hola") ∷ [] }

abbrev first_column : Column
first_column = record {
  id = "c1";
  width = 1;
  blocks = block "b1" "header" ∷ block "b2" "text" ∷ [];
}

abbrev email : List Row
email =
    record {
      id = "r1";
      columns =
          first_column ∷ record { id = "c2"; width = 2; blocks = block "b3" "image" ∷ [] } ∷ [];
    }
    ∷ record {
      id = "r2";
      columns = record { id = "c3"; width = 1; blocks = block "b4" "footer" ∷ [] } ∷ [];
    }
    ∷ []

abbrev opened : State
opened = record {
  value = record { theme = none; rows = some email; sections = none };
  sel = none;
  viewport = pc;
  mode = design;
  active_id = none;
  drop = none;
  seed = 0;
}

abbrev second_block : BlockPlace
second_block = record { row_id = "r1"; col_id = "c1"; index = 1; block = block "b2" "text" }

email-IsDistinct : IsDistinct email
email-IsDistinct = record {
  by_row = unique-Nodup _ refl;
  by_column = unique-Nodup _ refl;
  by_block = unique-Nodup _ refl;
}

second_block_found : find_block "b2" email ≡ some second_block
unfolding find_block
second_block_found = refl

set_row_layout-blocks_example :
    (s' : State) × (set_row_layout fresh "r1" (1 ∷ []) opened ≡ returned s')
    × IsLaidOut "r1" (1 ∷ []) email (rows_of s')
set_row_layout-blocks_example = set_row_layout-blocks fresh "r1" 1 [] opened

abbrev drag : DragEvent
drag = record {
  active_id = "b2";
  active_is_row = false;
  over = some (record { id = "b3"; row_id = none; after = false });
}

on_drag_end-perm_example :
    (s' : State) × (on_drag_end array_move drag opened ≡ returned s')
    × Perm (rows_blocks (rows_of s')) (rows_blocks email)
on_drag_end-perm_example =
    on_drag_end-perm array_move array_move-IsArrayMove drag opened email-IsDistinct
      ((λ p. cc p), ((λ p. cc p), tt))

-- "b2" is dropped in front of "b3".
abbrev before_b3 : BlockDrop
before_b3 = record { row_id = "r1"; col_id = "c2"; index = 0 }

drag_target : compute_block_drop drag email ≡ returned (some before_b3)
unfolding compute_block_drop drop_over find_block
drag_target = refl

on_drag_end-IsLanded_example :
    (s' : State) × (on_drag_end array_move drag opened ≡ returned s')
    × IsLanded "b2" (block "b2" "text") before_b3 email (rows_of s')
on_drag_end-IsLanded_example =
    on_drag_end-IsLanded array_move drag opened second_block before_b3 email-IsDistinct refl
      second_block_found drag_target

last_target : add_target opened ≡ returned (some ("r2", "c3"))
unfolding add_target last_column
last_target = refl

add_block-perm_example :
    (s' : State) × (add_block fresh "button" opened ≡ returned s')
    × Perm (rows_blocks (rows_of s')) (new_block fresh "button" opened ∷ rows_blocks email)
    × (s'.sel ≡ some (selected_block fresh "r2" "c3" "u"))
unfolding column_at
add_block-perm_example =
    add_block-perm fresh "button" "r2" "c3" opened
      (record { id = "c3"; width = 1; blocks = block "b4" "footer" ∷ [] }) email-IsDistinct
      last_target refl

abbrev gone : Sel
gone = record { row_id = "r2"; col_id = "c4"; block_id = none }

abbrev stale : State
stale = record opened { sel = some gone }

add_block_stale_example :
    (s' : State) × (add_block fresh "button" stale ≡ returned s')
    × (rows_of s' ≡ email)
    × (s'.sel ≡ some (selected_block fresh "r2" "c4" "u"))
unfolding column_at
add_block_stale_example = add_block_stale fresh "button" stale gone email-IsDistinct refl refl

-- The block "b3" is selected in its column, which the layout of one column then takes away.
abbrev chosen : State
chosen = record opened {
  sel = some (record { row_id = "r1"; col_id = "c2"; block_id = some "b3" });
}

abbrev joined_rows : List Row
joined_rows =
    record {
      id = "r1";
      columns =
          record {
            id = "c1";
            width = 1;
            blocks = block "b1" "header" ∷ block "b2" "text" ∷ block "b3" "image" ∷ [];
          }
          ∷ [];
    }
    ∷ record {
      id = "r2";
      columns = record { id = "c3"; width = 1; blocks = block "b4" "footer" ∷ [] } ∷ [];
    }
    ∷ []

abbrev joined : State
joined = record chosen { value = record { theme = none; rows = some joined_rows; sections = none } }

joined_lem : set_row_layout fresh "r1" (1 ∷ []) chosen ≡ returned joined
unfolding set_row_layout
joined_lem = refl

abbrev moved_block : BlockPlace
moved_block = record { row_id = "r1"; col_id = "c1"; index = 2; block = block "b3" "image" }

moved_block_found : find_block "b3" joined_rows ≡ some moved_block
unfolding find_block
moved_block_found = refl

set_selected-perm_example :
    (sel_block joined ≡ some (block "b3" "image"))
    × Perm
        (block "b3" "image" ∷ rows_blocks (rows_of (set_selected "text" "Adios" joined)))
        (block "b3" "image" ∷ rows_blocks joined_rows)
set_selected-perm_example =
    set_selected-perm "text" "Adios" "b3"
      (record { row_id = "r1"; col_id = "c2"; block_id = some "b3" }) moved_block joined
      (record {
        by_row = unique-Nodup _ refl;
        by_column = unique-Nodup _ refl;
        by_block = unique-Nodup _ refl;
      })
      refl refl refl moved_block_found
