-- ===== src/Tabs/Privacy.antt =====
-- The privacy tab of an application, frontend/src/pages/tabs/Privacy.tsx. Numbers are of the type `N`;
-- `number_of` and `text_of` are the platform's `Number` and the writing of numbers, and `encode` is
-- `encodeURIComponent`.
use Prim.Native.String
use procovar_notify.Prelude.{String, ℕ, Bool, true, false, not, Option, none, some, ◌==◌}
use procovar_notify.Structure.Variables.{trim}
use procovar_notify.Tabs.{Reply, accepted, rejected}

pub record Privacy (E : Type 0) : Type 0 where
  pub days : String
  pub saving : Bool
  pub ret_msg : String
  pub ret_err : Option E
  pub user_id : String
  pub forget_msg : String
  pub forget_err : Option E

module _ {E : Type 0} where
  unfoldable pub first_privacy : Privacy E
  first_privacy = record {
    days = "90";
    saving = false;
    ret_msg = "";
    ret_err = none;
    user_id = "";
    forget_msg = "";
    forget_err = none;
  }

  -- `saveRetention` up to its request, and its rest. The form may have changed meanwhile, but the
  -- text is that of the days that were sent.
  unfoldable pub start_save : Privacy E → Privacy E
  start_save s = record s { ret_msg = ""; ret_err = none; saving = true }

  unfoldable pub end_save : {N : Type 0} → (N → String) → N → Reply Unit E → Privacy E → Privacy E
  end_save text_of days (accepted r) s = record s {
    ret_msg = String.◌++◌ "Retención fijada en " (String.◌++◌ (text_of days) " días.");
    saving = false;
  }
  end_save text_of days (rejected e) s = record s { ret_err = some e; saving = false }

  unfoldable pub can_forget : Privacy E → Bool
  unfolding trim
  can_forget s = not (trim s.user_id == "")

  -- `forget` up to its request, the path of the request, and the rest, for the user that was sent.
  unfoldable pub start_forget : Privacy E → Privacy E
  start_forget s = record s { forget_msg = ""; forget_err = none }

  unfoldable pub forget_path : (String → String) → String → Privacy E → String
  forget_path encode base s =
      String.◌++◌ base (String.◌++◌ "/users/" (String.◌++◌ (encode s.user_id) "/forget"))

  unfoldable pub end_forget : (ℕ → String) → String → Reply ℕ E → Privacy E → Privacy E
  end_forget text_of user (accepted n) s = record s {
    forget_msg = String.◌++◌ "Anonimizados " (
        String.◌++◌ (text_of n) (String.◌++◌ " registro(s) del usuario «" (String.◌++◌ user "».")));
    user_id = "";
  }
  end_forget text_of user (rejected e) s = record s { forget_err = some e }
