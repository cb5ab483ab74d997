-- ===== src/Tabs/Admins.antt =====
-- The page of the administrators, frontend/src/pages/AdminUsers.tsx.
use Prim.Native.String
use procovar_notify.Prelude.{
  String, Bool, false, not, ◌&&◌, Option, none, some, List, [], ◌∷◌, ◌==◌, if◌then◌else◌, find,
  Dict, lookup,
}
use mathlib.Core.Option
use procovar_notify.Tabs.{Panel, Reply, opened, refused, submitted, answered}

pub record AdminUser : Type 0 where
  pub id : String
  pub email : String
  pub role : String
  pub application_id : Option String
  pub status : String

pub record App : Type 0 where
  pub id : String
  pub name : String

abbrev role_label : Dict String
role_label = ("SUPER_ADMIN", "Super admin") ∷ ("APP_ADMIN", "Admin de aplicación") ∷ []

pub record AdminForm : Type 0 where
  pub email : String
  pub password : String
  pub role : String
  pub application_id : String

abbrev pub empty : AdminForm
empty = record { email = ""; password = ""; role = "APP_ADMIN"; application_id = "" }

pub record AdminBody : Type 0 where
  pub email : String
  pub password : String
  pub role : String
  pub application_id : Option String

abbrev or_else : String → Option String → String
or_else other none = other
or_else other (some t) = t

abbrev is_id : Option String → String → Bool
is_id none id = false
is_id (some wanted) id = id == wanted

-- `appName`, for the applications if they are loaded.
unfoldable pub app_name : Option (List App) → Option String → String
app_name none id = "—"
app_name (some apps) id =
    or_else "—" (Option.map (λ (a : App). a.name) (find (λ (a : App). is_id id a.id) apps))

-- The line under the address of an administrator.
unfoldable pub role_line : Option (List App) → AdminUser → String
unfolding lookup app_name
role_line apps u = String.◌++◌ (or_else u.role (lookup u.role role_label)) (
    String.◌++◌ " · "
      (if u.role == "SUPER_ADMIN" then "global" else app_name apps u.application_id))

unfoldable pub body_of : AdminForm → AdminBody
body_of form = record {
  email = form.email;
  password = form.password;
  role = form.role;
  application_id =
      if form.role == "APP_ADMIN" && not (form.application_id == "")
      then some form.application_id
      else none;
}

module _ {E : Type 0} where
  unfoldable pub open_new : Panel AdminForm E → Panel AdminForm E
  unfolding opened
  open_new p = opened empty p

  -- `create` up to its request: the state, and the body of the request if there is one.
  unfoldable pub start_create : Panel AdminForm E → Panel AdminForm E × Option AdminBody
  unfolding refused submitted body_of
  start_create p =
      if p.form.role == "APP_ADMIN" && p.form.application_id == ""
      then (refused "Elige la aplicación del admin." p, none)
      else (submitted p, some (body_of p.form))

  unfoldable pub end_create : Reply Unit E → Panel AdminForm E → Panel AdminForm E
  unfolding answered
  end_create reply p = answered reply p
