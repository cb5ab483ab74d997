-- ===== src/Session/Tests.antt =====
-- The theorems on the session at a login and a logout.
use procovar_notify.Prelude.{◌≡◌, refl, true, false, none, some}
use procovar_notify.Client.{Admin, try_refresh, start_call}
use procovar_notify.Client.Steps.{Step, loaded, set_on_unauthorized}
use procovar_notify.Session.{Session, nothing, load_admin, mount, on_login, logout}
use procovar_notify.Session.Agreement.{
  here, next, logs_in, Agrees, run-Agrees, renewed_late, logout_renewed,
}

abbrev admin : Admin
admin = record { id = "a1"; role = "OWNER"; application_id = none; email = none }

abbrev first : Session
first = mount "" none nothing false

abbrev signed_in : Session
signed_in = on_login "jane@acme.com" (record { access_token = "t1"; admin = admin }) first

run-Agrees_example : Agrees signed_in.client
run-Agrees_example =
    run-Agrees "" none nothing false signed_in
      (next here (logs_in "jane@acme.com" (record { access_token = "t1"; admin = admin }) first))

abbrev renewing : Session
renewing = record signed_in { client = try_refresh signed_in.client }

renewing_in_flight : renewing.client.in_flight ≡ true
unfolding on_login mount load_admin loaded start_call set_on_unauthorized try_refresh
renewing_in_flight = refl

logout_renewed_example :
    Step "" (logout "" renewing).client (renewed_late "" "t2" renewing)
    × ((renewed_late "" "t2" renewing).access ≡ some "t2")
    × ((renewed_late "" "t2" renewing).admin ≡ none)
logout_renewed_example = logout_renewed "" renewing "t2" renewing_in_flight refl
