-- ===== src/Tabs/RouteForms.antt =====
-- The dialogs of frontend/src/pages/tabs/Routes.tsx: the one for a new route, and the one for the
-- settings of a route. `number_of` and `text_of` are the platform's `Number` and `String` on days.
use procovar_notify.Prelude.{String, ℕ, suc, Bool, true, false, Option, none, some}
use procovar_notify.Routes.{
  Route, RouteForm, RouteBody, SettingsForm, SettingsBody, empty, create, open_settings,
  save_settings,
}
use procovar_notify.Tabs.{Panel, Reply, accepted, rejected, opened, submitted, answered}

-- The dialog of the settings; `reloads` counts the calls of `routes.reload`.
pub record Settings (E : Type 0) : Type 0 where
  pub edit_route : Option Route
  pub edit_form : SettingsForm
  pub edit_err : Option E
  pub saving_edit : Bool
  pub reloads : ℕ

abbrev patch_for : (String → ℕ) → Option Route → SettingsForm → Option (String × SettingsBody)
patch_for number_of none form = none
patch_for number_of (some r) form = some (r.id, save_settings number_of form)

module _ {E : Type 0} where
  unfoldable pub open_new : Panel RouteForm E → Panel RouteForm E
  unfolding opened
  open_new p = opened empty p

  unfoldable pub end_create : Reply Unit E → Panel RouteForm E → Panel RouteForm E
  unfolding answered
  end_create reply p = answered reply p

  module _ (number_of : String → ℕ) where
    -- `create` up to its request, with the body of the request.
    unfoldable pub start_create : Panel RouteForm E → Panel RouteForm E × RouteBody
    unfolding submitted create
    start_create p = (submitted p, create number_of p.form)

    abbrev when_editing : Option Route → Settings E → Settings E
    when_editing none s = s
    when_editing (some r) s = record s { saving_edit = true; edit_err = none }

    -- `saveSettings` up to its request, with the id of the route and the body.
    unfoldable pub start_settings : Settings E → Settings E × Option (String × SettingsBody)
    unfolding save_settings
    start_settings s = (when_editing s.edit_route s, patch_for number_of s.edit_route s.edit_form)

  unfoldable pub show_settings : (ℕ → String) → Route → Settings E → Settings E
  unfolding open_settings
  show_settings text_of r s = record s {
    edit_route = some r;
    edit_err = none;
    edit_form = open_settings text_of r;
  }

  unfoldable pub end_settings : Reply Unit E → Settings E → Settings E
  end_settings (accepted r) s = record s {
    edit_route = none;
    reloads = suc s.reloads;
    saving_edit = false;
  }
  end_settings (rejected e) s = record s { edit_err = some e; saving_edit = false }
