-- ===== src/Routes/Tests.antt =====
-- The theorems on the routes at small forms. Days are written as tallies.
use Prim.Native.String.{[], ◌∷◌}
use procovar_notify.Prelude.{
  String, ℕ, zero, suc, ◌≡◌, refl, ap, false, none, some, List, [], ◌∷◌, ◌==◌, eq_of_ne, arith,
}
use procovar_notify.Structure.Variables.{trim, size, includes, is_space}
use procovar_notify.Structure.Variables.Scan.{ArePlain, IsPlain, trim-plain}
use procovar_notify.Routes.{
  Route, RouteForm, Template, empty, create, open_settings, save_settings, tpl_locales,
}
use procovar_notify.Routes.Forms.{IsRouted, create-IsRouted, save_settings-open_settings}
use procovar_notify.Routes.Locales.{offered, includes-tpl_locales}

abbrev ones : ℕ → String
ones zero = []
ones (suc n) = ◌∷◌ "1" (ones n)

abbrev tally : ℕ → String
tally n = ◌∷◌ "1" (ones n)

abbrev count : String → ℕ
count [] = 0
count (c ∷ s) = size s

size-ones : (n : ℕ) → size (ones n) ≡ n
unfolding size
size-ones zero = refl
size-ones (suc n) = ap suc (size-ones n)

one-IsPlain : IsPlain "1"
unfolding is_space
one-IsPlain = (refl, (λ e. omega (arith, e)), (λ e. omega (arith, e)), (λ e. omega (arith, e)))

ones-ArePlain : (n : ℕ) → ArePlain (ones n)
ones-ArePlain zero = tt
ones-ArePlain (suc n) = (one-IsPlain, ones-ArePlain n)

tally-filled : (n : ℕ) → (trim (tally n) == "") ≡ false
tally-filled n = rw (trim-plain "1" (ones n) (ones-ArePlain (suc n))) (eq_of_ne _ "" (λ e. cc e))

abbrev form : RouteForm
form = record empty {
  notification_type = "welcome";
  template_key = "hola";
  smtp_connection_id = "s1";
}

create-IsRouted_example : IsRouted (create count form)
create-IsRouted_example = create-IsRouted count form

abbrev route : Route
route = record {
  id = "r1";
  notification_type = "welcome";
  channel = "EMAIL";
  template_key = some "hola";
  smtp_connection_id = some "s1";
  channel_provider_id = none;
  send_priority = none;
  pii_retention_days = some 3;
  retention_days = none;
}

save_settings-open_settings_example :
    save_settings count (open_settings tally route)
    ≡ record { send_priority = "NORMAL"; pii_retention_days = some 3; retention_days = none }
save_settings-open_settings_example =
    save_settings-open_settings count tally route size-ones tally-filled (λ e. cc e) (λ e. cc e)

abbrev templates : List Template
templates =
    record { key = "hola"; name = "Hola"; channel = "EMAIL"; locale = "es" }
    ∷ record { key = "hola"; name = "Hello"; channel = "EMAIL"; locale = "en" }
    ∷ []

includes-tpl_locales_example :
    includes "en" (tpl_locales templates "hola") ≡ offered templates "hola" "en"
includes-tpl_locales_example = includes-tpl_locales templates "hola" "en" refl
