-- ===== src/Tabs/AppMenu.antt =====
-- The tabs and the menu of frontend/src/pages/AppDetail.tsx. The tab is a parameter of the address; a
-- parameter can stand there several times, and the first one counts.
use procovar_notify.Prelude.{
  String, ◌≡◌, refl, ap, ◌∙◌, Bool, true, false, Option, none, some, List, [], ◌∷◌, ◌==◌,
  if◌then◌else◌, not, keep, find, any, Dict, lookup, String-cases, eq_refl, inl, inr,
}
use procovar_notify.Tabs.AppHeader.{all_tabs, tab_components, tab_of}

abbrev without : String → Dict String → Dict String
without name params = keep (λ (p : String × String). not (p.0 == name)) params

-- `URLSearchParams.set`: the first of the name gets the value, and the others go.
unfoldable set_param : String → String → Dict String → Dict String
set_param name value [] = (name, value) ∷ []
set_param name value ((key, old) ∷ params) =
    let later = set_param name value params in
    if key == name then (key, value) ∷ without name params else (key, old) ∷ later

record Menu : Type 0 where
  params : Dict String
  nav_open : Bool

unfoldable tab : Menu → String
unfolding tab_of lookup
tab s = tab_of (lookup "tab" s.params)

unfoldable set_tab : String → Menu → Menu
unfolding set_param
set_tab key s = record s { params = set_param "tab" key s.params }

-- The label on the button that opens the menu.
unfoldable current_label : Menu → Option String
unfolding tab
current_label s = elim (find (λ (t : String × String). t.0 == tab s) all_tabs) [
  | none ↦ none
  | some t ↦ some t.1
]

-- The tab whose component is rendered, `none` if it has none.
unfoldable content : Menu → Option String
unfolding tab
content s = let key = tab s in if any (λ name. name == key) tab_components then some key else none

-- A tab is selected in the sidebar, or in the menu of small screens, which then closes.
data MenuEvent : Type 0 where
  opens_menu closes_menu : MenuEvent
  selects selects_in_menu : String → MenuEvent

unfoldable on_menu : MenuEvent → Menu → Menu
unfolding set_tab
on_menu opens_menu s = record s { nav_open = true }
on_menu closes_menu s = record s { nav_open = false }
on_menu (selects key) s = set_tab key s
on_menu (selects_in_menu key) s = record (set_tab key s) { nav_open = false }

unfoldable on_menus : List MenuEvent → Menu → Menu
unfolding on_menu
on_menus [] s = s
on_menus (c ∷ cs) s = on_menus cs (on_menu c s)

-- The tab that was selected last.
abbrev last_tab : String → List MenuEvent → String
last_tab key [] = key
last_tab key (opens_menu ∷ cs) = last_tab key cs
last_tab key (closes_menu ∷ cs) = last_tab key cs
last_tab key (selects next ∷ cs) = last_tab (tab_of (some next)) cs
last_tab key (selects_in_menu next ∷ cs) = last_tab (tab_of (some next)) cs

lookup-set_param :
    (name value : String) (params : Dict String)
    → lookup name (set_param name value params) ≡ some value
unfolding set_param lookup
lookup-set_param name value [] = rw (eq_refl name) refl
lookup-set_param name value ((key, old) ∷ params) = elim (String-cases key name) [
  | inl (p, e) ↦ rw (e, e) refl
  | inr (p, e) ↦ rw (e, e) (lookup-set_param name value params)
]

tab-set_tab : (key : String) (s : Menu) → tab (set_tab key s) ≡ tab_of (some key)
unfolding tab set_tab
tab-set_tab key s = ap tab_of (lookup-set_param "tab" key s.params)

-- Whatever the address held at first, the tab is the one that was selected last.
tab-on_menus : (cs : List MenuEvent) (s : Menu) → tab (on_menus cs s) ≡ last_tab (tab s) cs
unfolding on_menus on_menu tab
tab-on_menus [] s = refl
tab-on_menus (opens_menu ∷ cs) s = tab-on_menus cs (record s { nav_open = true })
tab-on_menus (closes_menu ∷ cs) s = tab-on_menus cs (record s { nav_open = false })
tab-on_menus (selects key ∷ cs) s =
    tab-on_menus cs (set_tab key s) ∙ ap (λ t. last_tab t cs) (tab-set_tab key s)
tab-on_menus (selects_in_menu key ∷ cs) s =
    tab-on_menus cs (record (set_tab key s) { nav_open = false })
    ∙ ap (λ t. last_tab t cs) (tab-set_tab key s)
