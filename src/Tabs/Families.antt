-- ===== src/Tabs/Families.antt =====
-- The templates of an application, frontend/src/pages/tabs/Templates.tsx: the families of the
-- templates that share a key, the filter, and the addresses. `sort` is the platform's `sort` by
-- the locales.
pub mod Groups
use Prim.Native.String
use procovar_notify.Prelude.{
  String, ℕ, Bool, Option, none, some, List, [], ◌∷◌, ◌++◌, ◌==◌, keep, length, map, Dict, lookup,
  insert, if◌then◌else◌, ◌&&◌,
}
use procovar_notify.Structure.Variables.{detect_variables, detect_variables_in_text}
use procovar_notify.Tabs.{Reply, accepted, rejected}

pub record Template : Type 0 where
  pub id : String
  pub key : String
  pub channel : String
  pub locale : String
  pub version : ℕ
  pub name : String
  pub kind : Option String

-- `EditorBadge`
unfoldable pub editor_badge : Option String → String
editor_badge none = "Visual"
editor_badge (some kind) = if kind == "html" then "HTML" else "Visual"

pub record ChannelMeta : Type 0 where
  pub key : String
  pub label : String
  pub hint : String

abbrev channel_meta : List ChannelMeta
channel_meta =
    record { key = "EMAIL"; label = "Email"; hint = "Correo con asunto y cuerpo HTML." }
    ∷ record { key = "PUSH"; label = "Push"; hint = "Notificación push al dispositivo." }
    ∷ record { key = "SMS"; label = "SMS"; hint = "Mensaje de texto corto." }
    ∷ record { key = "IN_APP"; label = "In-app"; hint = "Aviso dentro de la aplicación." }
    ∷ []

abbrev channel_label : Dict String
channel_label = map (λ (c : ChannelMeta). (c.key, c.label)) channel_meta

pub record Family : Type 0 where
  pub key : String
  pub name : String
  pub variants : List Template

-- The family of a template's key, or a new one, with the template at its end.
abbrev pub with_variant : Template → Option Family → Family
with_variant t none = record { key = t.key; name = t.name; variants = t ∷ [] }
with_variant t (some f) = record f { variants = f.variants ++ t ∷ [] }

unfoldable pub add_variant : Template → Dict Family → Dict Family
unfolding lookup insert
add_variant t by_key = insert t.key (with_variant t (lookup t.key by_key)) by_key

unfoldable pub collect : List Template → Dict Family → Dict Family
unfolding add_variant
collect [] by_key = by_key
collect (t ∷ ts) by_key = collect ts (add_variant t by_key)

module _ (sort : List Template → List Template) where
  abbrev pub sorted : String × Family → Family
  sorted e = record e.1 { variants = sort e.1.variants }

  -- `groupByKey`
  unfoldable pub group_by_key : List Template → List Family
  unfolding collect
  group_by_key templates = map sorted (collect templates [])

unfoldable pub in_channel : String → List Template → List Template
in_channel channel all = keep (λ (t : Template). t.channel == channel) all

unfoldable pub count_for : List Template → String → ℕ
unfolding in_channel
count_for all c = length (in_channel c all)

-- The addresses that the buttons go to.
unfoldable pub go_new : String → String → String
go_new app channel =
    String.◌++◌ "/apps/" (String.◌++◌ app (String.◌++◌ "/templates/new?channel=" channel))

unfoldable pub go_edit : String → String → String
go_edit app id =
    String.◌++◌ "/apps/" (String.◌++◌ app (String.◌++◌ "/templates/" (String.◌++◌ id "/edit")))

unfoldable pub go_new_lang : String → Template → String
unfolding go_new
go_new_lang app t = String.◌++◌ (go_new app t.channel) (String.◌++◌ "&from=" t.id)

-- The preview of a template of the list: the dialog shows the template, then the preview or the error.
pub record PreviewBox (V E : Type 0) : Type 0 where
  pub preview_of : Option Template
  pub preview : Option V
  pub preview_err : Option E

module _ {V E : Type 0} where
  unfoldable pub start_preview : Template → PreviewBox V E → PreviewBox V E
  start_preview t s = record s { preview_of = some t; preview = none; preview_err = none }

  unfoldable pub end_preview : Reply V E → PreviewBox V E → PreviewBox V E
  end_preview (accepted v) s = record s { preview = some v }
  end_preview (rejected e) s = record s { preview_err = some e }
