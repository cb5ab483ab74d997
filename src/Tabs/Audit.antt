-- ===== src/Tabs/Audit.antt =====
-- The audit log of an application, frontend/src/pages/tabs/Audit.tsx: the labels of the actions and
-- the pager.
pub mod Pager
use Prim.Native.Char.{Char, code}
use Prim.Native.String
use Prim.Native.String.{[], ◌∷◌}
use procovar_notify.Prelude.{
  String, ℕ, ◌+◌, ◌-◌, Bool, true, false, not, ◌&&◌, ◌||◌, Option, none, some, List, [], ◌∷◌, eqb,
  ltb, if◌then◌else◌, Dict, lookup, length,
}
use procovar_notify.Template.Samples.{contains_any}

-- `PAGE`
abbrev pub page : ℕ
page = 50

abbrev resource : Dict String
resource =
    ("application", "Aplicación")
    ∷ ("api_key", "API key")
    ∷ ("smtp", "SMTP")
    ∷ ("provider", "Proveedor")
    ∷ ("route", "Ruta")
    ∷ ("template", "Plantilla")
    ∷ ("admin_user", "Usuario admin")
    ∷ ("recurring", "Programación")
    ∷ ("retention", "Retención")
    ∷ ("user", "Usuario")
    ∷ ("webhook", "Webhook")
    ∷ ("suppression", "Supresión")
    ∷ []

abbrev verb : Dict String
verb =
    ("create", "creado")
    ∷ ("update", "actualizado")
    ∷ ("delete", "eliminado")
    ∷ ("revoke", "revocada")
    ∷ ("publish", "publicado")
    ∷ ("suspend", "suspendida")
    ∷ ("add", "añadida")
    ∷ ("remove", "quitada")
    ∷ ("forget", "anonimizado")
    ∷ []

abbrev cons_first : Char → List String → List String
cons_first c [] = ◌∷◌ c [] ∷ []
cons_first c (l ∷ ls) = ◌∷◌ c l ∷ ls

-- `a.split(".")`
unfoldable pub split_dots : String → List String
split_dots [] = [] ∷ []
split_dots (c ∷ s) =
    let rest = split_dots s in if eqb (code c) b'.' then [] ∷ rest else cons_first c rest

abbrev or_else : String → Option String → String
or_else other none = other
or_else other (some t) = t

unfoldable pub resource_label : String → String
unfolding lookup
resource_label t = or_else t (lookup t resource)

abbrev first_part : List String → String
first_part [] = ""
first_part (r ∷ rs) = r

abbrev second_part : List String → Option String
second_part [] = none
second_part (r ∷ []) = none
second_part (r ∷ v ∷ vs) = some v

-- `${VERB[verb] ?? verb}`, where an action without a dot has no verb.
abbrev verb_label : Option String → String
verb_label none = "undefined"
verb_label (some v) = or_else v (lookup v verb)

unfoldable pub action_label : String → String
unfolding lookup split_dots resource_label
action_label a =
    let parts = split_dots a in
    String.◌++◌ (resource_label (first_part parts))
      (String.◌++◌ " · " (verb_label (second_part parts)))

abbrev tone : String → String
tone v =
    if contains_any ("delete" ∷ "revoke" ∷ "remove" ∷ "forget" ∷ "suspend" ∷ []) v
    then "bg-destructive/10 text-destructive"
    else if contains_any ("create" ∷ "add" ∷ "publish" ∷ []) v
    then "bg-emerald-100 text-emerald-700"
    else "bg-muted text-muted-foreground"

unfoldable pub action_tone : String → String
unfolding split_dots
action_tone a = tone (or_else "" (second_part (split_dots a)))

-- The buttons of the pager. `rows` is the number of rows of the page that is shown.
pub data Click : Type 0 where
  previous next : Click

unfoldable pub shows_pager : ℕ → ℕ → Bool
shows_pager rows offset = ltb 0 rows || ltb 0 offset

unfoldable pub can_previous : ℕ → Bool
can_previous offset = not (eqb offset 0)

unfoldable pub can_next : ℕ → Bool
can_next rows = not (ltb rows page)

-- A click on a button, if the pager is there and the button is not disabled. Subtraction stops at 0,
-- as `Math.max(0, offset - PAGE)` does.
unfoldable pub click : ℕ → Click → ℕ → ℕ
unfolding shows_pager can_previous can_next
click rows previous offset =
    if shows_pager rows offset && can_previous offset then offset - page else offset
click rows next offset = if shows_pager rows offset && can_next rows then offset + page else offset

-- A sequence of clicks, each with the number of rows on the page where it falls.
unfoldable pub clicks : List (ℕ × Click) → ℕ → ℕ
unfolding click
clicks [] offset = offset
clicks ((rows, c) ∷ cs) offset = clicks cs (click rows c offset)

-- What the tab says when the page has no rows.
unfoldable pub says_none_yet : Option ℕ → ℕ → Bool
says_none_yet none offset = false
says_none_yet (some rows) offset = eqb rows 0 && eqb offset 0

unfoldable pub says_no_more : Option ℕ → ℕ → Bool
says_no_more none offset = false
says_no_more (some rows) offset = eqb rows 0 && ltb 0 offset
