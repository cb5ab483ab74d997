-- ===== src/Tabs/ApiKeys/Guards.antt =====
-- A key is never created without a permission, and never twice.
use procovar_notify.Prelude.{
  ℕ, suc, ◌≡◌, ◌≤◌, refl, Bool, true, false, ◌||◌, none, List, [], ◌∷◌, length, drop, if◌then◌else◌,
  arith, Bool-cases, inl, inr, All, ◌-◌, ap, ◌∙◌, ◌⊎◌,
}
use procovar_notify.Tabs.{Reply, accepted, rejected}
use procovar_notify.Tabs.ApiKeys.{
  Keys, CreateKey, Secret, Event, show_the_form, hide_the_form, clicks_create, clicks_revoke,
  clicks_purge, types_name, ticks_send, ticks_read, copies, creates, acts, forgets_copy, is_empty,
  scopes_of, first_keys, start_create, end_create, start_action, end_action, end_copy, forget_copy,
  handle, handles,
}

abbrev pub HasScopes : CreateKey → Type 0
HasScopes k = is_empty k.scopes ≡ false

-- The requests of `create` without an answer: at most one, and only while `saving` holds, and each
-- has a permission.
abbrev in_flight : Bool → ℕ
in_flight true = 1
in_flight false = 0

in_flight_le : (b : Bool) → in_flight b ≤ 1
in_flight_le true = omega arith
in_flight_le false = omega arith

length-drop_one : {A : Type 0} (xs : List A) → length (drop 1 xs) ≡ length xs - 1
length-drop_one [] = omega arith
length-drop_one (x ∷ xs) = omega arith

All-drop_one : (xs : List CreateKey) → All HasScopes xs → All HasScopes (drop 1 xs)
All-drop_one [] h = tt
All-drop_one (x ∷ xs) (p, h) = h

module _ {E : Type 0} where
  abbrev pub IsGuarded : Keys E → Type 0
  IsGuarded s = (length s.posted ≡ in_flight s.saving) × All HasScopes s.posted

  IsGuarded-if :
      (saving empty : Bool) (k : CreateKey) (s : Keys E)
      → s.saving ≡ saving
      → HasScopes k ⊎ (empty ≡ true)
      → IsGuarded s
      → IsGuarded (
          if saving || empty
          then s
          else record s { act_err = none; saving = true; posted = k ∷ s.posted })
  IsGuarded-if true empty k s e q h = h
  IsGuarded-if false true k s e q h = h
  IsGuarded-if false false k s e (inl q) (h, g) = (ap suc (h ∙ ap in_flight e), (q, g))
  IsGuarded-if false false k s e (inr q) h = cc q

  IsGuarded-start_create : (s : Keys E) → IsGuarded s → IsGuarded (start_create s)
  unfolding start_create
  IsGuarded-start_create s h =
      IsGuarded-if s.saving (is_empty (scopes_of s.send s.read)) _ s refl some_scope h
    where
      some_scope :
          (is_empty (scopes_of s.send s.read) ≡ false) ⊎ (is_empty (scopes_of s.send s.read) ≡ true)
      some_scope = elim (Bool-cases (is_empty (scopes_of s.send s.read))) [
        | inl b ↦ inr b
        | inr b ↦ inl b
      ]

  IsGuarded-end_create :
      (reply : Reply Secret E) (s : Keys E) → IsGuarded s → IsGuarded (end_create reply s)
  unfolding end_create
  IsGuarded-end_create (accepted res) s (h, g) =
      (omega (arith, h, in_flight_le s.saving, length-drop_one s.posted), All-drop_one s.posted g)
  IsGuarded-end_create (rejected e) s (h, g) =
      (omega (arith, h, in_flight_le s.saving, length-drop_one s.posted), All-drop_one s.posted g)

  IsGuarded-hide :
      (b : Bool) (s : Keys E)
      → IsGuarded s
      → IsGuarded (if b then s else record s { show_form = false })
  IsGuarded-hide true s h = h
  IsGuarded-hide false s h = h

  IsGuarded-handle : (e : Event E) (s : Keys E) → IsGuarded s → IsGuarded (handle e s)
  unfolding handle start_action end_action end_copy forget_copy
  IsGuarded-handle show_the_form s h = h
  IsGuarded-handle hide_the_form s h = IsGuarded-hide s.saving s h
  IsGuarded-handle clicks_create s h = IsGuarded-start_create s h
  IsGuarded-handle clicks_revoke s h = h
  IsGuarded-handle clicks_purge s h = h
  IsGuarded-handle (types_name name) s h = h
  IsGuarded-handle (ticks_send on) s h = h
  IsGuarded-handle (ticks_read on) s h = h
  IsGuarded-handle (copies true) s h = h
  IsGuarded-handle (copies false) s h = h
  IsGuarded-handle (creates reply) s h = IsGuarded-end_create reply s h
  IsGuarded-handle (acts (accepted r)) s h = h
  IsGuarded-handle (acts (rejected e)) s h = h
  IsGuarded-handle forgets_copy s h = h

  kept : (es : List (Event E)) (s : Keys E) → IsGuarded s → IsGuarded (handles es s)
  unfolding handles
  kept [] s h = h
  kept (e ∷ es) s h = kept es (handle e s) (IsGuarded-handle e s h)

  -- Whatever the user clicks, ticks and types and however the requests end, at most one request for
  -- a new key is on its way, one exactly while `saving` holds, and it asks for at least one permission.
  pub handles-IsGuarded : (es : List (Event E)) → IsGuarded (handles es first_keys)
  unfolding first_keys
  handles-IsGuarded es = kept es first_keys (refl, tt)
