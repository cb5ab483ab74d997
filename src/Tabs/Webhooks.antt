-- ===== src/Tabs/Webhooks.antt =====
-- The webhooks of an application, frontend/src/pages/tabs/Webhooks.tsx.
use Prim.Native.String
use procovar_notify.Prelude.{
  String, Bool, true, false, not, Option, some, List, [], ◌∷◌, ◌++◌, ◌==◌, keep, if◌then◌else◌,
}
use procovar_notify.Structure.Variables.{includes}
use procovar_notify.Tabs.{Panel, Reply, accepted, rejected, opened, submitted, answered, deleted}

pub record Webhook : Type 0 where
  pub id : String
  pub url : String
  pub events : List String
  pub status : String

abbrev known_events : List (String × String)
known_events =
    ("notification.sent", "Notificación enviada")
    ∷ ("notification.failed", "Notificación fallida")
    ∷ []

pub record WebhookForm : Type 0 where
  pub url : String
  pub events : List String

-- The state of the tab beside its dialog: the secret that is shown once.
pub record Webhooks (E : Type 0) : Type 0 where
  pub panel : Panel WebhookForm E
  pub secret : Option String
  pub copied : Bool

module _ {E : Type 0} where
  abbrev on_panel : (Panel WebhookForm E → Panel WebhookForm E) → Webhooks E → Webhooks E
  on_panel f s = record s { panel = f s.panel }

  unfoldable pub open_new : Webhooks E → Webhooks E
  unfolding opened
  open_new s = on_panel (opened (record { url = ""; events = [] })) s

  -- `create` up to its request, the request, and the rest of `create`.
  unfoldable pub start_create : Webhooks E → Webhooks E
  unfolding submitted
  start_create s = on_panel submitted s

  unfoldable pub request : Webhooks E → WebhookForm
  request s = s.panel.form

  abbrev got : String → Reply String E
  got secret = accepted secret

  abbrev lost : E → Reply String E
  lost e = rejected e

  unfoldable pub end_create : Reply String E → Webhooks E → Webhooks E
  unfolding answered
  end_create (accepted secret) s =
      on_panel (answered (got secret)) (record s { secret = some secret; copied = false })
  end_create (rejected e) s = on_panel (answered (lost e)) s

  unfoldable pub end_delete : Reply Unit E → Webhooks E → Webhooks E
  unfolding deleted
  end_delete reply s = on_panel (deleted reply) s

  -- `copy`: the clipboard takes the text or not; later the mark goes away.
  unfoldable pub end_copy : Bool → Webhooks E → Webhooks E
  end_copy true s = record s { copied = true }
  end_copy false s = s

  unfoldable pub forget_copy : Webhooks E → Webhooks E
  forget_copy s = record s { copied = false }

unfoldable pub toggle : String → List String → List String
toggle ev cur = if includes ev cur then keep (λ e. not (e == ev)) cur else cur ++ ev ∷ []

abbrev join : List String → String
join [] = ""
join (e ∷ []) = e
join (e ∷ f ∷ es) = String.◌++◌ e (String.◌++◌ ", " (join (f ∷ es)))

unfoldable pub events_label : List String → String
events_label [] = "todos"
events_label (e ∷ es) = join (e ∷ es)
