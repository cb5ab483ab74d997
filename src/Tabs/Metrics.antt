-- ===== src/Tabs/Metrics.antt =====
-- The metrics of an application, frontend/src/pages/tabs/Metrics.tsx. The error rate is of a type `Q` of
-- fractions, which the platform compares with 0.05 and 0 and writes as a percentage.
use procovar_notify.Prelude.{
  String, ℕ, ◌+◌, Bool, Option, none, some, List, [], ◌∷◌, map, Dict, lookup, ltb, if◌then◌else◌,
}

pub record Metrics (Q : Type 0) : Type 0 where
  pub by_status : Option (Dict ℕ)
  pub total : ℕ
  pub error_rate : Option Q

pub record StatusMeta : Type 0 where
  pub key : String
  pub label : String
  pub color : String

abbrev status_meta : List StatusMeta
status_meta =
    record { key = "PENDING"; label = "Pendientes"; color = "text-amber-600" }
    ∷ record { key = "QUEUED"; label = "En cola"; color = "text-sky-600" }
    ∷ record { key = "PROCESSING"; label = "Procesando"; color = "text-sky-600" }
    ∷ record { key = "SENT"; label = "Enviadas"; color = "text-emerald-600" }
    ∷ record { key = "DELIVERED"; label = "Entregadas"; color = "text-emerald-600" }
    ∷ record { key = "READ"; label = "Leídas"; color = "text-emerald-600" }
    ∷ record { key = "FAILED"; label = "Fallidas"; color = "text-destructive" }
    ∷ record { key = "CANCELLED"; label = "Canceladas"; color = "text-muted-foreground" }
    ∷ []

abbrev or_zero : Option ℕ → ℕ
or_zero none = 0
or_zero (some n) = n

-- `data.byStatus?.[key] ?? 0`
abbrev in_status : Option (Dict ℕ) → String → ℕ
in_status none key = 0
in_status (some by_status) key = or_zero (lookup key by_status)

module _ {Q : Type 0} where
  unfoldable pub sent : Option (Metrics Q) → ℕ
  unfolding lookup
  sent none = 0
  sent (some m) =
      (in_status m.by_status "SENT" + in_status m.by_status "DELIVERED")
      + in_status m.by_status "READ"

  unfoldable pub failed : Option (Metrics Q) → ℕ
  unfolding lookup
  failed none = 0
  failed (some m) = in_status m.by_status "FAILED"

  abbrev rate_of : Q → Option Q → Q
  rate_of nothing none = nothing
  rate_of nothing (some q) = q

  unfoldable pub error_rate : Q → Option (Metrics Q) → Q
  error_rate nothing none = nothing
  error_rate nothing (some m) = rate_of nothing m.error_rate

  -- The color of a rate, by the platform's `er > 0.05` and `er > 0`.
  unfoldable pub rate_color : (Q → Bool) → (Q → Bool) → Q → String
  rate_color above_limit above_zero er =
      if above_limit er
      then "text-destructive"
      else if above_zero er
      then "text-amber-600"
      else "text-emerald-600"

  -- The tiles below the four numbers: value, label and color.
  unfoldable pub status_tiles : Metrics Q → List (ℕ × String × String)
  unfolding lookup
  status_tiles m =
      map (λ (s : StatusMeta). (in_status m.by_status s.key, s.label, s.color)) status_meta

unfoldable pub failed_color : ℕ → Option String
failed_color n = if ltb 0 n then some "text-destructive" else none
