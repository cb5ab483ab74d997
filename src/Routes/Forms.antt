-- ===== src/Routes/Forms.antt =====
-- What the requests of the route forms hold.
use procovar_notify.Prelude.{
  present, String, ℕ, ◌≡◌, ◌≢◌, refl, ap, Bool, true, false, not, ◌&&◌, inl, inr, Option, none,
  some, ◌==◌, eq_iff, eqb_ne, if◌then◌else◌, Bool-cases, String-cases, arith,
}
use mathlib.Core.Option.{some-injective}
use mathlib.Core.Option.{some-injective}
use mathlib.Core.Option.{some-injective}
use procovar_notify.Structure.Variables.{trim}
use procovar_notify.Routes.{
  Route, RouteForm, RouteBody, change_channel, create, open_settings, save_settings, days_or_null,
  days_text, or_else, or_null, is_email, uses_provider,
}

-- A connection only for email, a provider only for SMS and push, never both, and no blank ids.
abbrev pub IsRouted : RouteBody → Type 0
IsRouted b =
    ((present b.smtp_connection_id && not (is_email b.channel)) ≡ false)
    × ((present b.channel_provider_id && not (uses_provider b.channel)) ≡ false)
    × ((present b.smtp_connection_id && present b.channel_provider_id) ≡ false)
    × (b.smtp_connection_id ≢ some "")
    × (b.channel_provider_id ≢ some "")

or_null_lem : (id : String) → or_null id ≢ some ""
or_null_lem id e = elim (Bool-cases (id == "")) [
  | inl b ↦ cc (rw b at e)
  | inr b ↦ ground (arith, b, (eq_iff id "").1 (some-injective _ _ (rw b at e)))
]

if_none_lem : (b : Bool) (o : Option String) → o ≢ some "" → (if b then o else none) ≢ some ""
if_none_lem true o h = h
if_none_lem false o h = λ e. cc e

guarded : (b : Bool) (o : Option String) → (present (if b then o else none) && not b) ≡ false
guarded true o = ground arith
guarded false o = refl

exclusive :
    (b c : Bool) (o p : Option String)
    → (b && c) ≡ false
    → (present (if b then o else none) && present (if c then p else none)) ≡ false
exclusive true true o p e = cc e
exclusive true false o p e = ground arith
exclusive false c o p e = refl

one_use : (channel : String) → (is_email channel && uses_provider channel) ≡ false
one_use channel = elim (String-cases channel "EMAIL") [
  | inl (p, e) ↦ rw p refl
  | inr (p, e) ↦ rw e refl
]

both_none : (b : Bool) → (if b then or_null "" else none) ≡ none
both_none true = refl
both_none false = refl

module _ (number_of : String → ℕ) where
  -- Whatever the form holds, the request of a new route names a connection only for the channel EMAIL
  -- and a provider only for SMS and PUSH, never both, and no id that is sent is blank.
  pub create-IsRouted : (form : RouteForm) → IsRouted (create number_of form)
  unfolding create
  create-IsRouted form = (
    guarded (is_email form.channel) (or_null form.smtp_connection_id),
    guarded (uses_provider form.channel) (or_null form.channel_provider_id),
    exclusive (is_email form.channel) (uses_provider form.channel) (or_null form.smtp_connection_id)
        (or_null form.channel_provider_id) (one_use form.channel),
    if_none_lem (is_email form.channel) _ (or_null_lem form.smtp_connection_id),
    if_none_lem (uses_provider form.channel) _ (or_null_lem form.channel_provider_id),
  )

  -- After a change of the channel the request has the new channel, no template and no destination; the
  -- type, the priority and both retentions are those of the form before.
  pub create-change_channel :
      (channel : String) (form : RouteForm)
      → create number_of (change_channel channel form) ≡ record (create number_of form) {
        channel = channel;
        template_key = "";
        smtp_connection_id = none;
        channel_provider_id = none;
      }
  unfolding create change_channel
  create-change_channel channel form =
      rw (both_none (is_email channel), both_none (uses_provider channel)) refl

  module _ (text_of : ℕ → String) where
    -- The form of a route's settings, saved as it was opened, sends the route's own priority (NORMAL if
    -- it had none) and its own retentions (null if there was none), if the number of days is read
    -- back from its text, which is not blank, and a retention is at least one day.
    pub save_settings-open_settings :
        (r : Route)
        → ((n : ℕ) → number_of (text_of n) ≡ n)
        → ((n : ℕ) → (trim (text_of n) == "") ≡ false)
        → r.pii_retention_days ≢ some 0
        → r.retention_days ≢ some 0
        → save_settings number_of (open_settings text_of r) ≡ record {
          send_priority = or_else "NORMAL" r.send_priority;
          pii_retention_days = r.pii_retention_days;
          retention_days = r.retention_days;
        }
    unfolding save_settings open_settings days_or_null
    save_settings-open_settings r back filled p q =
        rw (kept r.pii_retention_days p, kept r.retention_days q) refl
      where
        kept : (o : Option ℕ) → o ≢ some 0 → days_or_null number_of (days_text text_of o) ≡ o
        kept none h = refl
        kept (some n) h = rw (eqb_ne n 0 (λ e. h (ap some e))) (rw (filled n, back n) refl)
