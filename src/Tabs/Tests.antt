-- ===== src/Tabs/Tests.antt =====
-- The theorems on the tabs at small runs.
use mathlib.Core.List.{Perm, Nodup}
use mathlib.Core.List.Perm
use procovar_notify.Prelude.{String, ℕ, ◌≡◌, ◌*◌, false, none, List, [], ◌∷◌, map}
use procovar_notify.Tabs.{accepted, rejected, closed}
use procovar_notify.Tabs.Single.{
  PanelEvent, opens, edits, presses, answers, on_events, IsSingle, on_events-IsSingle,
}
use procovar_notify.Tabs.ApiKeys.{
  Event, ticks_read, ticks_send, clicks_create, creates, first_keys, handles,
}
use procovar_notify.Tabs.ApiKeys.Guards.{IsGuarded, handles-IsGuarded}
use procovar_notify.Tabs.Audit.{page, Click, previous, next, clicks}
use procovar_notify.Tabs.Audit.Pager.{back, count, clicks-back}
use procovar_notify.Tabs.Families.{Template, Family, group_by_key}
use procovar_notify.Tabs.Families.Groups.{variants_of, AreKeyed, group_by_key-families}

abbrev pressed : List (PanelEvent String ℕ String)
pressed =
    opens "a"
    ∷ presses
    ∷ presses
    ∷ answers (rejected "no")
    ∷ edits "b"
    ∷ presses
    ∷ answers (accepted 1)
    ∷ []

on_events-IsSingle_example : IsSingle (on_events pressed (closed ""))
on_events-IsSingle_example = on_events-IsSingle pressed ""

abbrev key_run : List (Event String)
key_run =
    ticks_read false
    ∷ clicks_create
    ∷ clicks_create
    ∷ creates (rejected "no")
    ∷ ticks_send false
    ∷ clicks_create
    ∷ []

handles-IsGuarded_example : IsGuarded (handles key_run first_keys)
handles-IsGuarded_example = handles-IsGuarded key_run

abbrev paging : List (ℕ × Click)
paging = (50, next) ∷ (50, next) ∷ (3, previous) ∷ (7, next) ∷ (50, next) ∷ []

clicks-back_example :
    (k : ℕ) × (clicks paging 0 ≡ page * k)
    × ((rs : List ℕ) → count rs ≡ k → clicks (back rs) (clicks paging 0) ≡ 0)
clicks-back_example = clicks-back paging

abbrev template : String → String → Template
template key locale = record {
  id = locale;
  key = key;
  channel = "EMAIL";
  locale = locale;
  version = 1;
  name = key;
  kind = none;
}

abbrev templates : List Template
templates = template "hola" "es" ∷ template "adios" "es" ∷ template "hola" "en" ∷ []

abbrev same : List Template → List Template
same ts = ts

group_by_key-families_example :
    Perm (variants_of (group_by_key same templates)) templates
    × Nodup (map (λ (f : Family). f.key) (group_by_key same templates))
    × AreKeyed (group_by_key same templates)
group_by_key-families_example = group_by_key-families same Perm.refl templates
