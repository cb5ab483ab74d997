-- ===== src/Tabs/AppHeader.antt =====
-- The header of an application and its tabs, frontend/src/pages/AppDetail.tsx. `text_of` writes a
-- number as the platform does. Quotas are natural numbers.
use Prim.Native.String
use procovar_notify.Prelude.{
  String, ℕ, suc, Bool, true, false, Option, none, some, List, [], ◌∷◌, ◌==◌, if◌then◌else◌, ltb,
  any, flat_map,
}
use procovar_notify.Tabs.{Reply, accepted, rejected}

pub record AppInfo : Type 0 where
  pub name : String
  pub slug : String
  pub status : String
  pub daily_send_quota : ℕ
  pub monthly_send_quota : ℕ

-- `GROUPS`: the titles, and the keys and labels of their tabs.
abbrev groups : List (String × List (String × String))
groups =
    (
      "Configuración",
      ("keys", "API Keys")
          ∷ ("smtp", "SMTP")
          ∷ ("providers", "Proveedores")
          ∷ ("routes", "Tipos de notificación")
          ∷ ("templates", "Templates")
          ∷ [],
    )
    ∷ (
      "Actividad",
      ("notifications", "Notificaciones")
          ∷ ("monitor", "Monitor")
          ∷ ("metrics", "Métricas")
          ∷ ("recurring", "Recurrentes")
          ∷ [],
    )
    ∷ ("Integraciones", ("webhooks", "Webhooks") ∷ ("suppressions", "Supresiones") ∷ [])
    ∷ ("Seguridad y datos", ("audit", "Auditoría") ∷ ("privacy", "Privacidad") ∷ [])
    ∷ []

abbrev pub all_tabs : List (String × String)
all_tabs = flat_map (λ (g : String × List (String × String)). g.1) groups

-- The keys of `TAB_COMPONENTS`.
abbrev pub tab_components : List String
tab_components =
    "keys" ∷ "smtp" ∷ "providers" ∷ "routes" ∷ "templates" ∷ "notifications" ∷ "recurring"
    ∷ "monitor" ∷ "metrics" ∷ "webhooks" ∷ "suppressions" ∷ "audit" ∷ "privacy" ∷ []

-- The tab that the address names, if there is one of that key.
unfoldable pub tab_of : Option String → String
tab_of none = "keys"
tab_of (some key) = if any (λ (t : String × String). t.0 == key) all_tabs then key else "keys"

pub record Header (E : Type 0) : Type 0 where
  pub open_ : Bool
  pub form : AppInfo
  pub saving : Bool
  pub save_err : Option E
  pub reloads : ℕ

pub data HeaderRequest : Type 0 where
  patches_app : String → String → String → HeaderRequest
  puts_quota : ℕ → ℕ → HeaderRequest

module _ {E : Type 0} where
  unfoldable pub first_header : Header E
  first_header = record {
    open_ = false;
    form = record {
      name = "";
      slug = "";
      status = "ACTIVE";
      daily_send_quota = 0;
      monthly_send_quota = 0;
    };
    saving = false;
    save_err = none;
    reloads = 0;
  }

  -- The dialog opens with what is loaded, or closes.
  unfoldable pub on_open_change : Bool → Option AppInfo → Header E → Header E
  on_open_change true (some info) s = record s { form = info; save_err = none; open_ = true }
  on_open_change true none s = record s { open_ = true }
  on_open_change false info s = record s { open_ = false }

  -- `save`: its start with the first request, what follows the first answer, and what follows the
  -- second one. The list is loaded again however it ends.
  unfoldable pub start_save : Header E → Header E × HeaderRequest
  start_save s = (
    record s { saving = true; save_err = none },
    patches_app s.form.name s.form.slug s.form.status,
  )

  unfoldable pub failed : E → Header E → Header E
  failed e s = record s { save_err = some e; saving = false; reloads = suc s.reloads }

  -- The quotas are those of the form when the saving started.
  unfoldable pub on_patched : AppInfo → Reply Unit E → Header E → Header E × Option HeaderRequest
  unfolding failed
  on_patched sent (accepted r) s =
      (s, some (puts_quota sent.daily_send_quota sent.monthly_send_quota))
  on_patched sent (rejected e) s = (failed e s, none)

  unfoldable pub on_put : Reply Unit E → Header E → Header E
  unfolding failed
  on_put (accepted r) s = record s { open_ = false; saving = false; reloads = suc s.reloads }
  on_put (rejected e) s = failed e s

unfoldable pub quota_label : (ℕ → String) → ℕ → String
quota_label text_of n = if ltb 0 n then String.◌++◌ (text_of n) "/envíos" else "Sin límite"
