-- ===== src/Shell/Themes.antt =====
-- frontend/src/theme.tsx: the theme, what is stored of it, and the class of the document.
use procovar_notify.Prelude.{String, Bool, true, false, Option, none, some, ◌==◌, if◌then◌else◌}

pub data Tint : Type 0 where
  light dark : Tint

abbrev name_of : Tint → String
name_of light = "light"
name_of dark = "dark"

abbrev is_dark : Tint → Bool
is_dark light = false
is_dark dark = true

-- The state of the provider: the theme, the value in the storage, and the class `dark`.
pub record ThemeState : Type 0 where
  pub tint : Tint
  pub stored : Option String
  pub dark_class : Bool

abbrev preferred : Bool → Tint
preferred true = dark
preferred false = light

abbrev saved_or : Tint → Option String → Tint
saved_or other none = other
saved_or other (some t) = if t == "light" then light else if t == "dark" then dark else other

-- `getInitialTheme` in a browser, which prefers dark colors or not.
unfoldable pub initial_theme : Bool → Option String → Tint
initial_theme prefers_dark saved = saved_or (preferred prefers_dark) saved

-- The first rendering and its effect.
unfoldable pub mount_theme : Bool → Option String → ThemeState
unfolding initial_theme
mount_theme prefers_dark saved =
    let tint = initial_theme prefers_dark saved in
    record { tint = tint; stored = saved; dark_class = is_dark tint }

-- `setTheme`, and the effect after it.
unfoldable pub set_theme : Tint → ThemeState → ThemeState
set_theme next s = record { tint = next; stored = some (name_of next); dark_class = is_dark next }

abbrev other_than : Tint → Tint
other_than light = dark
other_than dark = light

unfoldable pub toggle : ThemeState → ThemeState
unfolding set_theme
toggle s = set_theme (other_than s.tint) s

unfoldable pub toggle_label : ThemeState → String
toggle_label s = if is_dark s.tint then "Cambiar a tema claro" else "Cambiar a tema oscuro"
