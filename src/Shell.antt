-- ===== src/Shell.antt =====
-- The frame of the application: the routes of frontend/src/App.tsx, the way to the hub of
-- frontend/src/pages/Login.tsx, the menu of frontend/src/components/UserMenu.tsx, and the theme of
-- frontend/src/theme.tsx.
mod Tests
pub mod Visits
pub mod Menu
pub mod Themes
mod Screens
use procovar_notify.Prelude.{
  String, ℕ, zero, suc, Bool, true, false, Option, none, some, List, [], ◌∷◌, ◌==◌, if◌then◌else◌,
  Dict, lookup,
}

-- The pages that `App` can show inside its frame.
pub data Page : Type 0 where
  applications admin_users : Page
  app_detail : String → Page
  new_template : String → Page
  edit_template : String → String → Page

-- An address, as the router takes it apart; `elsewhere` is one that no route matches.
pub data Address : Type 0 where
  login elsewhere : Address
  at_page : Page → Address

-- What is on the screen: nothing, the page of the login, a page, or a move to another address.
pub data Screen : Type 0 where
  blank login_page : Screen
  shows : Page → Screen
  navigates : Address → Screen

-- `useAuth`: whether there is an administrator, and whether the session is being checked.
pub record Auth : Type 0 where
  pub admin : Bool
  pub checking : Bool

-- `Protected` around a page.
unfoldable pub protected : Auth → Page → Screen
protected auth page =
    if auth.checking then blank else if auth.admin then shows page else navigates login

-- `App`
abbrev route : Auth → Address → Screen
route auth login = if auth.admin then navigates (at_page applications) else login_page
route auth (at_page page) = protected auth page
route auth elsewhere = navigates (at_page applications)

unfoldable pub app : Auth → Address → Screen
unfolding protected
app auth address = if auth.checking then blank else route auth address

-- The router follows the moves; `none` when they have not ended.
unfoldable pub visit : ℕ → Auth → Address → Option Screen
unfolding app
visit zero auth address = none
visit (suc n) auth address = elim (app auth address) [
  | blank ↦ some blank
  | login_page ↦ some login_page
  | shows page ↦ some (shows page)
  | navigates next ↦ visit n auth next
]

-- `Login`: the reason that the hub gives in the address, and whether the way to the hub is taken.
pub record Login : Type 0 where
  pub reason : Option String
  pub going : Bool
  pub departures : ℕ

abbrev reasons : Dict String
reasons =
    ("no-disponible", "No se pudo contactar con Procovar. Inténtalo en un momento.")
    ∷ ("sin-codigo", "La vuelta desde Procovar llegó incompleta. Prueba otra vez.")
    ∷ ("canje-fallido", "Procovar no reconoció la entrada. Prueba otra vez.")
    ∷ (
      "sin-permiso",
      "Tu cuenta de Procovar no tiene acceso a Avisos. Habla con quien administre los permisos.",
    )
    ∷ []

-- A blank reason counts as none.
abbrev blank_as_none : Option String → Option String
blank_as_none none = none
blank_as_none (some t) = if t == "" then none else some t

abbrev mounted : Option String → Login
mounted none = record { reason = none; going = true; departures = 1 }
mounted (some reason) = record { reason = some reason; going = false; departures = 0 }

-- The first rendering and its effect, which leaves for the hub unless there is a reason.
unfoldable pub mount_login : Option String → Login
mount_login param = mounted (blank_as_none param)

unfoldable pub try_again : Login → Login
try_again s = record s { going = true; departures = suc s.departures }

abbrev or_else : String → Option String → String
or_else other none = other
or_else other (some t) = t

-- The message and the label of the button, if anything is shown.
unfoldable pub login_view : Login → Option (String × String)
unfolding lookup
login_view s = elim s.reason [
  | none ↦ none
  | some reason ↦ some (
    or_else "No se pudo entrar. Inténtalo otra vez." (lookup reason reasons),
    if s.going then "Yendo a Procovar…" else "Entrar con Procovar",
  )
]
