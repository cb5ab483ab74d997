-- ===== src/Session/Agreement.antt =====
-- The administrator in the state of `AuthProvider` and the one in the local storage; and what a
-- renewal does that ends after the logout.
use procovar_notify.Prelude.{
  String, ℕ, Bool, true, false, ◌≡◌, refl, inl, inr, Option, none, some, ◌==◌, if◌then◌else◌,
  Bool-cases, get_elem?, eqb,
}
use procovar_notify.Client.{
  Client, Call, Phase, Answer, RefreshAnswer, start_call, on_answer, on_answer_in, on_answer_of,
  on_refresh_answer, finish_refresh, renewed_token, try_refresh, unauthorized, is_expired,
}
use procovar_notify.Client.Handler.{report_all-keeps}
use procovar_notify.Client.Steps.{Step, loaded, set_on_unauthorized}
use procovar_notify.Session.{
  Session, Stored, Me, found, without_id, failed, LoginResponse, load_admin, mount, on_me, on_login,
  logout, unmount, is_none, settle_check,
}

pub data SessionStep (api_base : String) : Session → Session → Type 0 where
  requests :
      (s : Session) (d : Client)
      → Step api_base s.client d
      → SessionStep api_base s (record s { client = d })
  checks : (me : Me) (s : Session) → SessionStep api_base s (on_me me s)
  logs_in :
      (email : String) (res : LoginResponse) (s : Session)
      → SessionStep api_base s (on_login email res s)
  logs_out : (s : Session) → SessionStep api_base s (logout api_base s)
  unmounts : (s : Session) → SessionStep api_base s (unmount s)

pub data SessionRun (api_base : String) (s : Session) : Session → Type 0 where
  here : SessionRun api_base s s
  next :
      {t u : Session} → SessionRun api_base s t → SessionStep api_base t u → SessionRun api_base s u

-- The administrator in the state is the one in the local storage.
abbrev pub Agrees : Client → Type 0
Agrees c = c.stored_admin ≡ c.admin

Agrees-unauthorized : (c : Client) → Agrees c → Agrees (unauthorized c)
unfolding unauthorized
Agrees-unauthorized c h = elim (Bool-cases c.registered) [ inl e ↦ rw e refl | inr e ↦ rw e h ]

Agrees-try_refresh : (c : Client) → Agrees c → Agrees (try_refresh c)
unfolding try_refresh
Agrees-try_refresh c h = elim (Bool-cases c.in_flight) [ inl e ↦ rw e h | inr e ↦ rw e h ]

Agrees-on_answer_in :
    (p : Phase) (i : ℕ) (call : Call) (answer : Answer) (c : Client)
    → Agrees c
    → Agrees (on_answer_in p i call answer c)
Agrees-on_answer_in Phase.awaiting_reply i call (Answer.replied reply) c h =
    elim (Bool-cases (is_expired call reply)) [
      | inl e ↦ rw e (Agrees-try_refresh c h)
      | inr e ↦ rw e h
    ]
Agrees-on_answer_in Phase.awaiting_retry i call (Answer.replied reply) c h =
    elim (Bool-cases (eqb reply.status 401)) [
      | inl e ↦ rw e (Agrees-unauthorized c h)
      | inr e ↦ rw e h
    ]
Agrees-on_answer_in Phase.awaiting_reply i call Answer.failed c h = h
Agrees-on_answer_in Phase.awaiting_retry i call Answer.failed c h = h
Agrees-on_answer_in (Phase.awaiting_refresh r) i call answer c h = h
Agrees-on_answer_in (Phase.settled r) i call answer c h = h

Agrees-on_answer : (i : ℕ) (answer : Answer) (c : Client) → Agrees c → Agrees (on_answer i answer c)
unfolding on_answer
Agrees-on_answer i answer c h = go (get_elem? c.calls i)
  where
    go : (o : Option Call) → Agrees (on_answer_of o i answer c)
    go none = h
    go (some call) = Agrees-on_answer_in call.phase i call answer c h

module _ (api_base : String) where
  Agrees-finish_refresh :
      (o : Option String) (c : Client) → Agrees c → Agrees (finish_refresh api_base o c)
  Agrees-finish_refresh (some token) c h = h
  Agrees-finish_refresh none c h = report_all-keeps Agrees Agrees-unauthorized c.calls c h

  Agrees-Step : {c d : Client} → Agrees c → Step api_base c d → Agrees d
  unfolding set_on_unauthorized start_call on_refresh_answer
  Agrees-Step h (Step.starts method path body c) = h
  Agrees-Step h (Step.answers i answer c) = Agrees-on_answer i answer c h
  Agrees-Step h (Step.asks_refresh c) = Agrees-try_refresh c h
  Agrees-Step h (Step.refreshes RefreshAnswer.refresh_failed c e) = h
  Agrees-Step h (Step.refreshes (RefreshAnswer.refresh_replied status body) c e) =
      Agrees-finish_refresh (renewed_token status body) c h
  Agrees-Step h (Step.registers registered c) = h

  Agrees-on_me : (me : Me) (s : Session) → Agrees s.client → Agrees (on_me me s).client
  unfolding on_me
  Agrees-on_me me s h = go s.alive
    where
      settled : (me : Me) → Agrees (settle_check me s).client
      settled (found admin) = elim (Bool-cases (admin.id == "")) [
        | inl b ↦ rw b h
        | inr b ↦ rw b refl
      ]
      settled without_id = h
      settled failed = h

      go :
          (b : Bool)
          → Agrees (if b then record (settle_check me s) { checking = false } else s).client
      go true = settled me
      go false = h

  Agrees-SessionStep :
      {s t : Session} → Agrees s.client → SessionStep api_base s t → Agrees t.client
  unfolding on_login logout unmount set_on_unauthorized
  Agrees-SessionStep h (requests s d step) = Agrees-Step h step
  Agrees-SessionStep h (checks me s) = Agrees-on_me me s h
  Agrees-SessionStep h (logs_in email res s) = refl
  Agrees-SessionStep h (logs_out s) = refl
  Agrees-SessionStep h (unmounts s) = h

  Agrees-mount :
      (access : Option String) (stored : Stored) (visited : Bool)
      → Agrees (mount api_base access stored visited).client
  unfolding mount start_call set_on_unauthorized loaded
  Agrees-mount access stored visited = elim (Bool-cases (is_none (load_admin stored).0)) [
    | inl e ↦ rw e refl
    | inr e ↦ rw e refl
  ]

  -- Whatever the storage held at first and whatever requests, responses, renewals, checks, logins and
  -- logouts follow, the administrator of the state is the one in the storage, so that a reload of the
  -- page finds the same session.
  pub run-Agrees :
      (access : Option String) (stored : Stored) (visited : Bool) (s : Session)
      → SessionRun api_base (mount api_base access stored visited) s
      → Agrees s.client
  run-Agrees access stored visited s here = Agrees-mount access stored visited
  run-Agrees access stored visited s (next {t} run step) =
      Agrees-SessionStep (run-Agrees access stored visited t run) step

  -- The client after a logout and the answer of a renewal with a token.
  abbrev pub renewed_late : String → Session → Client
  renewed_late token s =
      on_refresh_answer api_base (RefreshAnswer.refresh_replied 200 (some (some token)))
        (logout api_base s).client

  -- If a renewal is in flight at the logout, its answer with a token can follow, and puts that token
  -- into the storage, though no administrator is signed in.
  pub logout_renewed :
      (s : Session) (token : String)
      → s.client.in_flight ≡ true
      → (token == "") ≡ false
      → Step api_base (logout api_base s).client (renewed_late token s)
        × ((renewed_late token s).access ≡ some token)
        × ((renewed_late token s).admin ≡ none)
  unfolding on_refresh_answer renewed_token logout start_call
  logout_renewed s token flight e = (
    Step.refreshes (RefreshAnswer.refresh_replied 200 (some (some token)))
        (logout api_base s).client flight,
    rw e refl,
    rw e refl,
  )
