-- ===== src/Monitor.antt =====
-- The live monitor of the queue, frontend/src/pages/tabs/Monitor.tsx: the tiles it shows for the
-- last summary that the server sent.
mod Tests
pub mod Stream
pub mod Draining
pub mod Chunks
pub mod Frames
pub mod Rounds
use procovar_notify.Prelude.{
  String, ℕ, Option, none, some, List, [], ◌∷◌, map, Dict, lookup, Bool, true, false,
}

pub record Summary : Type 0 where
  pub by_state : Dict ℕ
  pub by_priority : Dict ℕ
  pub total : ℕ

pub record QueueState : Type 0 where
  pub key : String
  pub label : String
  pub color : String

abbrev states : List QueueState
states =
    record { key = "pending"; label = "Pendientes"; color = "text-amber-600" }
    ∷ record { key = "scheduled"; label = "Programadas"; color = "text-sky-600" }
    ∷ record { key = "active"; label = "En proceso"; color = "text-primary" }
    ∷ record { key = "retry"; label = "Reintentando"; color = "text-amber-600" }
    ∷ record { key = "completed"; label = "Completadas"; color = "text-emerald-600" }
    ∷ record { key = "failed"; label = "Fallidas"; color = "text-destructive" }
    ∷ record { key = "cancelled"; label = "Canceladas"; color = "text-muted-foreground" }
    ∷ []

abbrev priorities : List (String × String)
priorities = ("URGENT", "Urgente") ∷ ("HIGH", "Alta") ∷ ("NORMAL", "Normal") ∷ ("LOW", "Baja") ∷ []

pub record Tile : Type 0 where
  pub label : String
  pub value : ℕ
  pub color : String

-- `?? 0`
abbrev or_zero : Option ℕ → ℕ
or_zero none = 0
or_zero (some n) = n

abbrev or_color : Option String → String
or_color none = "text-foreground"
or_color (some color) = color

abbrev tile : String → ℕ → Option String → Tile
tile label value color = record { label = label; value = value; color = or_color color }

abbrev count_of : (Summary → Dict ℕ) → Option Summary → String → ℕ
count_of counts none key = 0
count_of counts (some summary) key = or_zero (lookup key (counts summary))

unfoldable pub state_tiles : Option Summary → List Tile
unfolding lookup
state_tiles summary =
    map
      (λ (s : QueueState).
        tile s.label (count_of (λ (c : Summary). c.by_state) summary s.key) (some s.color))
      states

unfoldable pub priority_tiles : Option Summary → List Tile
unfolding lookup
priority_tiles summary =
    map
      (λ (p : String × String).
        tile p.1 (count_of (λ (c : Summary). c.by_priority) summary p.0) none)
      priorities

unfoldable pub total_of : Option Summary → ℕ
total_of none = 0
total_of (some summary) = summary.total

-- `LiveBadge`
unfoldable pub live_badge : Bool → String
live_badge true = "En vivo"
live_badge false = "Reconectando…"
