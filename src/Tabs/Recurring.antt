-- ===== src/Tabs/Recurring.antt =====
-- The recurring notifications of an application, frontend/src/pages/tabs/Recurring.tsx.
-- `parse_json` is the platform's `JSON.parse`, with `none` for text that is no JSON.
use procovar_notify.Prelude.{
  String, Bool, Option, none, some, List, [], ◌∷◌, ◌++◌, ◌==◌, if◌then◌else◌, Dict, insert,
}
use procovar_notify.Structure.Variables.{includes}
use procovar_notify.Tabs.{Panel, Reply, opened, refused, submitted, answered, deleted}

pub record RecurringForm : Type 0 where
  pub name : String
  pub template_key : String
  pub notification_type : String
  pub channel : String
  pub email : String
  pub recipient_user_id : String
  pub payload : String
  pub locale : String
  pub priority : String
  pub cron : String
  pub freq : String

abbrev pub empty : RecurringForm
empty = record {
  name = "";
  template_key = "";
  notification_type = "";
  channel = "EMAIL";
  email = "";
  recipient_user_id = "";
  payload = "{}";
  locale = "";
  priority = "NORMAL";
  cron = "0 9 * * *";
  freq = "0 9 * * *";
}

-- `CRON_PRESETS`: the labels and the values.
abbrev cron_presets : List (String × String)
cron_presets =
    ("Cada día a las 09:00", "0 9 * * *")
    ∷ ("Cada hora", "0 * * * *")
    ∷ ("Cada lunes a las 09:00", "0 9 * * 1")
    ∷ ("El día 1 de cada mes a las 09:00", "0 9 1 * *")
    ∷ []

-- A field that is not set is `none`.
pub record RecurringBody (J : Type 0) : Type 0 where
  pub name : String
  pub template_key : String
  pub notification_type : String
  pub channel : String
  pub payload : J
  pub priority : String
  pub cron : String
  pub recipient_email : Option String
  pub recipient_user_id : Option String
  pub locale : Option String

abbrev if_filled : String → Option String
if_filled t = if t == "" then none else some t

-- The choice of a frequency; the expression stays for the frequency of its own.
unfoldable pub change_freq : String → RecurringForm → RecurringForm
change_freq v form = record form { freq = v; cron = if v == "custom" then form.cron else v }

unfoldable pub shows_cron : RecurringForm → Bool
shows_cron form = form.freq == "custom"

unfoldable pub body_of : {J : Type 0} → RecurringForm → J → RecurringBody J
body_of form payload = record {
  name = form.name;
  template_key = form.template_key;
  notification_type = form.notification_type;
  channel = form.channel;
  payload = payload;
  priority = form.priority;
  cron = form.cron;
  recipient_email = if_filled form.email;
  recipient_user_id = if_filled form.recipient_user_id;
  locale = if_filled form.locale;
}

abbrev or_braces : String → String
or_braces t = if t == "" then "{}" else t

module _ {E J : Type 0} (parse_json : String → Option J) where
  abbrev posting :
      Option J → Panel RecurringForm E → Panel RecurringForm E × Option (RecurringBody J)
  posting none p = (refused "Los datos (JSON) no son válidos. Revisa la sintaxis." p, none)
  posting (some payload) p = (submitted p, some (body_of p.form payload))

  -- `create` up to its request: the state, and the body of the request if there is one.
  unfoldable pub start_create :
      Panel RecurringForm E → Panel RecurringForm E × Option (RecurringBody J)
  unfolding refused submitted body_of
  start_create p =
      if p.form.template_key == ""
      then (refused "Elige una plantilla." p, none)
      else if p.form.notification_type == ""
      then (refused "Elige un tipo de notificación." p, none)
      else posting (parse_json (or_braces p.form.payload)) p

module _ {E : Type 0} where
  unfoldable pub open_new : Panel RecurringForm E → Panel RecurringForm E
  unfolding opened
  open_new p = opened empty p

  -- The rest of `create`.
  unfoldable pub end_create : Reply Unit E → Panel RecurringForm E → Panel RecurringForm E
  unfolding answered
  end_create reply p = answered reply p

  unfoldable pub end_delete : Reply Unit E → Panel RecurringForm E → Panel RecurringForm E
  unfolding deleted
  end_delete reply p = deleted reply p

-- `tplKeys`: the keys of the templates with their last names, in the order of first occurrence.
abbrev keyed : List (String × String) → Dict String → Dict String
keyed [] seen = seen
keyed ((key, name) ∷ ts) seen = keyed ts (insert key name seen)

unfoldable pub tpl_keys : List (String × String) → Dict String
unfolding insert
tpl_keys templates = keyed templates []

-- `routeTypes`: the types of the routes, each once.
abbrev distinct : List String → List String → List String
distinct [] seen = seen
distinct (t ∷ ts) seen = distinct ts (if includes t seen then seen else seen ++ t ∷ [])

unfoldable pub route_types : List String → List String
route_types types = distinct types []
