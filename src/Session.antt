-- ===== src/Session.antt =====
-- The session of the administrator, frontend/src/auth/auth.tsx: `loadAdmin` and `AuthProvider` on the
-- state of the client. Whoever stores the administrator stores a value that can be read back.
mod Tests
pub mod Agreement
use procovar_notify.Prelude.{
  String, ℕ, Bool, true, false, ◌≡◌, ◌&&◌, not, Option, none, some, ◌==◌, if◌then◌else◌,
}
use procovar_notify.Client.{
  Client, Admin, Answer, RefreshAnswer, start_call, on_answer, on_refresh_answer, try_refresh,
}
use procovar_notify.Client.Steps.{loaded, set_on_unauthorized}

-- What the local storage holds under the key of the administrator: nothing or blank text, text that is
-- no JSON, or an administrator.
pub data Stored : Type 0 where
  nothing corrupt : Stored
  holds : Admin → Stored

-- `loadAdmin`: the administrator, and what the storage holds afterwards.
unfoldable pub load_admin : Stored → Option Admin × Stored
load_admin nothing = (none, nothing)
load_admin corrupt = (none, nothing)
load_admin (holds admin) = (some admin, holds admin)

-- The state of `AuthProvider` beside the client's: whether the shared session is being checked, whether
-- the effect of the check is alive, and the mark of the visit to the hub.
pub record Session : Type 0 where
  pub client : Client
  pub checking : Bool
  pub alive : Bool
  pub visited_hub : Bool

abbrev pub is_none {ℓ} : {A : Type ℓ} → Option A → Bool
is_none none = true
is_none (some x) = false

abbrev on_client : (Client → Client) → Session → Session
on_client f s = record s { client = f s.client }

abbrev put_admin : Option Admin → Client → Client
put_admin admin c = record c { admin = admin; stored_admin = admin }

-- The response to the login.
pub record LoginResponse : Type 0 where
  pub access_token : String
  pub admin : Admin

-- What `/admin/me` gives: an administrator, a value without an id, or an error.
pub data Me : Type 0 where
  found : Admin → Me
  without_id failed : Me

abbrev pub settle_check : Me → Session → Session
settle_check (found admin) s = if admin.id == "" then s else on_client (put_admin (some admin)) s
settle_check without_id s = s
settle_check failed s = s

-- The end of the check of the shared session.
unfoldable pub on_me : Me → Session → Session
on_me me s = if s.alive then record (settle_check me s) { checking = false } else s

unfoldable pub on_login : String → LoginResponse → Session → Session
on_login email res s = record s {
  client =
      put_admin (some (record res.admin { email = some email }))
        (record s.client { access = some res.access_token });
  checking = false;
}

unfoldable pub unmount : Session → Session
unfolding set_on_unauthorized
unmount s = record s { alive = false; client = set_on_unauthorized false s.client }

module _ (api_base : String) where
  abbrev pub start_check : Session → Session
  start_check s =
      if is_none s.client.admin
      then on_client (start_call api_base "GET" "/admin/me" none) (record s { alive = true })
      else s

  -- The first rendering and its two effects.
  unfoldable pub mount : Option String → Stored → Bool → Session
  unfolding load_admin loaded start_call set_on_unauthorized
  mount access stored visited_hub =
      let admin = (load_admin stored).0 in
      on_client (set_on_unauthorized true) (
        start_check (record {
          client = loaded access admin;
          checking = is_none admin;
          alive = false;
          visited_hub = visited_hub;
        }))

  unfoldable pub logout : Session → Session
  unfolding start_call
  logout s = record s {
    visited_hub = false;
    client =
        put_admin none (record (start_call api_base "POST" "/admin/auth/logout" none s.client) {
          access = none;
        });
  }
