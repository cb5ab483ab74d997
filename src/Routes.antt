-- ===== src/Routes.antt =====
-- The notification routes of an application, frontend/src/pages/tabs/Routes.tsx: its forms, the
-- requests they send, and the labels of the list. `number_of` and `text_of` are the platform's
-- `Number` and `String` on numbers of days.
mod Tests
pub mod Forms
pub mod Locales
use Prim.Native.String
use procovar_notify.Prelude.{
  String, ℕ, Bool, false, not, ◌&&◌, ◌||◌, Option, none, some, List, [], ◌∷◌, ◌++◌, ◌==◌, eqb,
  if◌then◌else◌, find, keep, Dict, lookup, insert, map,
}
use procovar_notify.Structure.Variables.{trim, includes}
use mathlib.Core.Option

pub record Route : Type 0 where
  pub id : String
  pub notification_type : String
  pub channel : String
  pub template_key : Option String
  pub smtp_connection_id : Option String
  pub channel_provider_id : Option String
  pub send_priority : Option String
  pub pii_retention_days : Option ℕ
  pub retention_days : Option ℕ

pub record Smtp : Type 0 where
  pub id : String
  pub name : String

pub record Provider : Type 0 where
  pub id : String
  pub name : String
  pub channel : String

pub record Template : Type 0 where
  pub key : String
  pub name : String
  pub channel : String
  pub locale : String

abbrev pub channels : List String
channels = "EMAIL" ∷ "PUSH" ∷ "SMS" ∷ "IN_APP" ∷ []

-- The values of `PRIORITIES`, without their labels.
abbrev pub priorities : List String
priorities = "URGENT" ∷ "HIGH" ∷ "NORMAL" ∷ "LOW" ∷ []

pub record RouteForm : Type 0 where
  pub notification_type : String
  pub channel : String
  pub template_key : String
  pub smtp_connection_id : String
  pub channel_provider_id : String
  pub send_priority : String
  pub pii_retention_days : String
  pub retention_days : String

abbrev pub empty : RouteForm
empty = record {
  notification_type = "";
  channel = "EMAIL";
  template_key = "";
  smtp_connection_id = "";
  channel_provider_id = "";
  send_priority = "NORMAL";
  pii_retention_days = "";
  retention_days = "";
}

unfoldable pub change_channel : String → RouteForm → RouteForm
change_channel channel form = record empty {
  notification_type = form.notification_type;
  send_priority = form.send_priority;
  pii_retention_days = form.pii_retention_days;
  retention_days = form.retention_days;
  channel = channel;
}

-- The body of the request that creates a route; null is `none`.
pub record RouteBody : Type 0 where
  pub notification_type : String
  pub channel : String
  pub template_key : String
  pub smtp_connection_id : Option String
  pub channel_provider_id : Option String
  pub send_priority : String
  pub pii_retention_days : Option ℕ
  pub retention_days : Option ℕ

pub record SettingsForm : Type 0 where
  pub send_priority : String
  pub pii_retention_days : String
  pub retention_days : String

pub record SettingsBody : Type 0 where
  pub send_priority : String
  pub pii_retention_days : Option ℕ
  pub retention_days : Option ℕ

-- `id || null`
abbrev or_null : String → Option String
or_null id = if id == "" then none else some id

-- `??`
abbrev or_else : String → Option String → String
or_else other none = other
or_else other (some t) = t

abbrev is_email : String → Bool
is_email channel = channel == "EMAIL"

abbrev uses_provider : String → Bool
uses_provider channel = channel == "SMS" || channel == "PUSH"

module _ (number_of : String → ℕ) where
  unfoldable pub days_or_null : String → Option ℕ
  unfolding trim
  days_or_null s = if trim s == "" then none else some (number_of s)

  -- The request of `create`.
  unfoldable pub create : RouteForm → RouteBody
  unfolding days_or_null
  create form = record {
    notification_type = form.notification_type;
    channel = form.channel;
    template_key = form.template_key;
    smtp_connection_id = if is_email form.channel then or_null form.smtp_connection_id else none;
    channel_provider_id =
        if uses_provider form.channel then or_null form.channel_provider_id else none;
    send_priority = form.send_priority;
    pii_retention_days = days_or_null form.pii_retention_days;
    retention_days = days_or_null form.retention_days;
  }

  -- The request of `saveSettings`.
  unfoldable pub save_settings : SettingsForm → SettingsBody
  unfolding days_or_null
  save_settings form = record {
    send_priority = form.send_priority;
    pii_retention_days = days_or_null form.pii_retention_days;
    retention_days = days_or_null form.retention_days;
  }

module _ (text_of : ℕ → String) where
  -- `days ? String(days) : ""`
  abbrev days_text : Option ℕ → String
  days_text none = ""
  days_text (some days) = if eqb days 0 then "" else text_of days

  -- The form that `openSettings` fills in.
  unfoldable pub open_settings : Route → SettingsForm
  open_settings r = record {
    send_priority = or_else "NORMAL" r.send_priority;
    pii_retention_days = days_text r.pii_retention_days;
    retention_days = days_text r.retention_days;
  }

  abbrev days_label : String → String → String → Option ℕ → String
  days_label before other unit none = other
  days_label before other unit (some days) =
      if eqb days 0 then other else String.◌++◌ before (String.◌++◌ (text_of days) unit)

  unfoldable pub retention_label : Route → String
  retention_label r =
      String.◌++◌ (days_label "PII " "PII app" "d" r.pii_retention_days)
        (String.◌++◌ " · " (days_label "borra " "no borra" "d" r.retention_days))

-- `Array.from(new Map(entries).values())` of the templates of the channel by their keys.
abbrev by_key : List Template → Dict Template → Dict Template
by_key [] seen = seen
by_key (t ∷ ts) seen = by_key ts (insert t.key t seen)

unfoldable pub templates_for_channel : List Template → String → List Template
unfolding insert
templates_for_channel templates channel =
    map (λ (e : String × Template). e.1)
      (by_key (keep (λ (t : Template). t.channel == channel) templates) [])

unfoldable pub providers_for_channel : List Provider → String → List Provider
providers_for_channel providers channel = keep (λ (p : Provider). p.channel == channel) providers

-- `localesByKey.get(key) ?? []`
abbrev pub known : Option (List String) → List String
known none = []
known (some locales) = locales

-- The locales with one more, unless it is there.
unfoldable pub with_locale : String → List String → List String
with_locale locale locales = if includes locale locales then locales else locales ++ locale ∷ []

-- The loop that fills `localesByKey`.
unfoldable pub collect_locales : List Template → Dict (List String) → Dict (List String)
unfolding lookup insert with_locale
collect_locales [] seen = seen
collect_locales (t ∷ ts) seen =
    collect_locales ts (insert t.key (with_locale t.locale (known (lookup t.key seen))) seen)

-- `tplLocales` of a key; without a key it is empty.
unfoldable pub tpl_locales : List Template → String → List String
unfolding collect_locales lookup
tpl_locales templates key =
    if key == "" then [] else known (lookup key (collect_locales templates []))

abbrev is_id : Option String → String → Bool
is_id none id = false
is_id (some wanted) id = id == wanted

-- `tplName`: the name of the first template with the key, or the key itself.
unfoldable pub tpl_name : List Template → Option String → String
tpl_name templates key =
    or_else (or_else "—" key)
      (Option.map (λ (t : Template). t.name) (find (λ (t : Template). is_id key t.key) templates))

unfoldable pub smtp_name : List Smtp → Option String → Option String
smtp_name smtps id = Option.map (λ (s : Smtp). s.name) (find (λ (s : Smtp). is_id id s.id) smtps)

unfoldable pub prov_name : List Provider → Option String → Option String
prov_name providers id =
    Option.map (λ (p : Provider). p.name) (find (λ (p : Provider). is_id id p.id) providers)

unfoldable pub dest_label : List Smtp → List Provider → Route → String
unfolding smtp_name prov_name
dest_label smtps providers r =
    if r.channel == "EMAIL"
    then or_else "—" (smtp_name smtps r.smtp_connection_id)
    else if r.channel == "SMS"
    then or_else "—" (prov_name providers r.channel_provider_id)
    else if r.channel == "PUSH"
    then or_else "Bandeja interna" (prov_name providers r.channel_provider_id)
    else "Bandeja interna"
