-- ===== src/Routes/Locales.antt =====
-- The locales that the list shows for the key of a template.
use procovar_notify.Prelude.{
  String, ◌≡◌, refl, ◌∙◌, Bool, false, ◌&&◌, ◌||◌, inl, inr, List, [], ◌∷◌, ◌==◌, String-cases,
  arith, Dict, lookup, insert, lookup-insert,
}
use procovar_notify.Structure.Variables.{includes, add}
use procovar_notify.Structure.Variables.Names.{includes-add}
use procovar_notify.Routes.{Template, known, with_locale, collect_locales, tpl_locales}

-- Some template has the key and the locale.
abbrev pub offered : List Template → String → String → Bool
offered [] key locale = false
offered (t ∷ ts) key locale = (t.key == key && t.locale == locale) || offered ts key locale

includes-with_locale :
    (v w : String) (locales : List String)
    → includes v (with_locale w locales) ≡ (includes v locales || w == v)
unfolding with_locale add
includes-with_locale v w locales = includes-add v w locales

abbrev listed : String → String → Dict (List String) → Bool
listed key v seen = includes v (known (lookup key seen))

listed-insert :
    (key v : String) (t : Template) (seen : Dict (List String))
    → listed key v (insert t.key (with_locale t.locale (known (lookup t.key seen))) seen)
      ≡ (listed key v seen || (t.key == key && t.locale == v))
listed-insert key v t seen = elim (String-cases t.key key) [
  | inl (p, e) ↦
      rw (lookup-insert, e)
        (includes-with_locale v t.locale (known (lookup t.key seen)) ∙ rw p refl)
  | inr (p, e) ↦ rw (lookup-insert, e) (ground arith)
]

listed-collect_locales :
    (key v : String) (templates : List Template) (seen : Dict (List String))
    → listed key v (collect_locales templates seen) ≡ (listed key v seen || offered templates key v)
unfolding collect_locales
listed-collect_locales key v [] seen = ground arith
listed-collect_locales key v (t ∷ ts) seen = ground (
  arith,
  listed-collect_locales key v ts
      (insert t.key (with_locale t.locale (known (lookup t.key seen))) seen),
  listed-insert key v t seen,
)

-- For a key that is not blank, the list shows a locale exactly if some template has the key and the
-- locale.
pub includes-tpl_locales :
    (templates : List Template) (key v : String)
    → (key == "") ≡ false
    → includes v (tpl_locales templates key) ≡ offered templates key v
unfolding tpl_locales lookup
includes-tpl_locales templates key v e = rw e (listed-collect_locales key v templates [])
