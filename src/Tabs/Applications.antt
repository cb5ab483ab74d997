-- ===== src/Tabs/Applications.antt =====
-- The page of the applications, frontend/src/pages/Applications.tsx. `text_of` is the platform's
-- writing of a number.
use Prim.Native.String
use procovar_notify.Prelude.{String, ℕ, List, length, eqb, if◌then◌else◌, Option, none, some}
use procovar_notify.Tabs.{Panel, Reply, accepted, rejected, opened, submitted, answered}

pub record App : Type 0 where
  pub id : String
  pub name : String
  pub slug : String
  pub status : String
  pub created_at : String

pub record AppForm : Type 0 where
  pub name : String
  pub slug : String

abbrev pub empty : AppForm
empty = record { name = ""; slug = "" }

module _ {E : Type 0} where
  unfoldable pub open_new : Panel AppForm E → Panel AppForm E
  unfolding opened
  open_new p = opened empty p

  -- `create` up to its request: nothing while a request is on its way.
  unfoldable pub start_create : Panel AppForm E → Panel AppForm E × Option AppForm
  unfolding submitted
  start_create p = if p.saving then (p, none) else (submitted p, some p.form)

  abbrev emptied : Reply Unit E → Panel AppForm E → Panel AppForm E
  emptied (accepted r) p = record p { form = empty }
  emptied (rejected e) p = p

  -- The rest of `create`, which empties the form after a success.
  unfoldable pub end_create : Reply Unit E → Panel AppForm E → Panel AppForm E
  unfolding answered
  end_create reply p = emptied reply (answered reply p)

-- The title of the list.
unfoldable pub list_title : (ℕ → String) → List App → String
list_title text_of apps =
    if eqb (length apps) 1
    then "1 aplicación"
    else String.◌++◌ (text_of (length apps)) " aplicaciones"
