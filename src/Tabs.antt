-- ===== src/Tabs.antt =====
-- What the tabs of an application and the pages with a form have in common: a list that is loaded
-- again after each change, a dialog with a form, and the requests of both.
mod Tests
pub mod Single
pub mod ApiKeys
pub mod Webhooks
pub mod Suppressions
pub mod Recurring
pub mod Providers
pub mod Smtp
pub mod Admins
pub mod Applications
pub mod Privacy
pub mod Notifications
pub mod Families
pub mod Audit
pub mod Metrics
pub mod AppHeader
pub mod RouteForms
mod Previews
mod AppMenu
use procovar_notify.Prelude.{String, ℕ, suc, ◌-◌, Bool, true, false, Option, none, some}

-- How a request ends.
pub data Reply (R E : Type 0) : Type 0 where
  accepted : R → Reply R E
  rejected : E → Reply R E

-- What the form shows as its error: a text of the form itself, or what a request threw.
pub data FormError (E : Type 0) : Type 0 where
  message : String → FormError E
  thrown : E → FormError E

-- `reloads` counts the calls of `reload`, and `pending` the requests of the form without an answer.
pub record Panel (F E : Type 0) : Type 0 where
  pub open_ : Bool
  pub form : F
  pub saving : Bool
  pub form_err : Option (FormError E)
  pub act_err : Option E
  pub reloads : ℕ
  pub pending : ℕ

module _ {F E : Type 0} where
  -- The first rendering.
  unfoldable pub closed : F → Panel F E
  closed form = record {
    open_ = false;
    form = form;
    saving = false;
    form_err = none;
    act_err = none;
    reloads = 0;
    pending = 0;
  }

  -- The dialog opens with a form.
  unfoldable pub opened : F → Panel F E → Panel F E
  opened form p = record p { form = form; form_err = none; open_ = true }

  -- `setFormErr(text)` without a request.
  unfoldable pub refused : String → Panel F E → Panel F E
  refused text p = record p { form_err = some (message text) }

  -- A request of the form starts.
  unfoldable pub submitted : Panel F E → Panel F E
  submitted p = record p { saving = true; form_err = none; pending = suc p.pending }

  -- The end of that request: the dialog closes and the list is loaded again, or the error is shown.
  unfoldable pub answered : {R : Type 0} → Reply R E → Panel F E → Panel F E
  answered (accepted r) p = record p {
    open_ = false;
    reloads = suc p.reloads;
    saving = false;
    pending = p.pending - 1;
  }
  answered (rejected e) p = record p {
    form_err = some (thrown e);
    saving = false;
    pending = p.pending - 1;
  }

  -- The end of the deletion of an entry: `.then(reload).catch(setActErr)`.
  unfoldable pub deleted : {R : Type 0} → Reply R E → Panel F E → Panel F E
  deleted (accepted r) p = record p { reloads = suc p.reloads }
  deleted (rejected e) p = record p { act_err = some e }
