-- ===== src/Tabs/Suppressions.antt =====
-- The suppressed recipients of an application, frontend/src/pages/tabs/Suppressions.tsx.
use procovar_notify.Prelude.{String, ◌==◌, if◌then◌else◌}
use procovar_notify.Tabs.{Panel, Reply, opened, submitted, answered, deleted}

pub record Suppression : Type 0 where
  pub channel : String
  pub recipient : String
  pub reason : String

abbrev pub empty : Suppression
empty = record { channel = "EMAIL"; recipient = ""; reason = "manual" }

module _ {E : Type 0} where
  unfoldable pub open_new : Panel Suppression E → Panel Suppression E
  unfolding opened
  open_new p = opened empty p

  -- `add` up to its request, the request, and the rest of `add`.
  unfoldable pub start_add : Panel Suppression E → Panel Suppression E
  unfolding submitted
  start_add p = submitted p

  unfoldable pub request : Panel Suppression E → Suppression
  request p = p.form

  unfoldable pub end_add : Reply Unit E → Panel Suppression E → Panel Suppression E
  unfolding answered
  end_add reply p = answered reply p

  unfoldable pub end_delete : Reply Unit E → Panel Suppression E → Panel Suppression E
  unfolding deleted
  end_delete reply p = deleted reply p

unfoldable pub placeholder : Suppression → String
placeholder form = if form.channel == "SMS" then "+34600000000" else "correo@ejemplo.com"
