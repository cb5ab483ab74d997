-- ===== src/Client/SingleFlight.antt =====
-- The renewals of the access token: never two at a time, and no call waits for one that is not in
-- flight.
use procovar_notify.Prelude.{
  String, ℕ, zero, suc, ◌-◌, ◌≡◌, refl, ◌∙◌, Bool, true, false, not, ◌||◌, inl, inr, Option, none,
  some, List, [], ◌∷◌, ◌++◌, map, arith, eqb, Bool-cases, any, get_elem?,
}
use procovar_notify.Client.{
  Phase, Call, Client, Admin, RefreshEvent, Answer, Reply, RefreshAnswer, is_waiting, is_expired,
  set_call, settle, put_call, unauthorized, try_refresh, start_call, on_answer, on_answer_in,
  on_answer_of, on_refresh_answer, renewed_token, fetch_again, after_failure, after_refusal,
  after_renewal, finish_refresh, report_all, end_refresh, on_first_reply, on_second_reply,
}
use procovar_notify.Client.Handler.{report_all-keeps}
use procovar_notify.Client.Steps.{Step, Reaches, loaded, set_on_unauthorized}

-- The renewals sent and not ended.
abbrev pub open_refreshes : List RefreshEvent → ℕ
open_refreshes [] = 0
open_refreshes (RefreshEvent.refresh_sent ∷ events) = suc (open_refreshes events)
open_refreshes (RefreshEvent.refresh_ended ∷ events) = open_refreshes events - 1

-- One renewal is open if `refreshInFlight` holds one, and else none is.
abbrev flights : Bool → ℕ
flights true = 1
flights false = 0

abbrev Holds : List RefreshEvent → Bool → Bool → Type 0
Holds traffic in_flight waiting =
    (open_refreshes traffic ≡ flights in_flight) × ((not waiting || in_flight) ≡ true)

-- At most one renewal is in flight, `refreshInFlight` tells whether one is, and one is if any call
-- waits for a renewal.
abbrev pub IsSingle : Client → Type 0
IsSingle c = Holds c.traffic c.in_flight (any is_waiting c.calls)

any-append :
    (xs ys : List Call) → any is_waiting (xs ++ ys) ≡ (any is_waiting xs || any is_waiting ys)
any-append [] ys = refl
any-append (x ∷ xs) ys = ground (arith, any-append xs ys)

any-set_call :
    (i : ℕ) (y : Call) (xs : List Call)
    → is_waiting y ≡ false
    → (not (any is_waiting (set_call i y xs)) || any is_waiting xs) ≡ true
unfolding set_call
any-set_call i y [] h = refl
any-set_call zero y (x ∷ xs) h = ground (arith, h)
any-set_call (suc i) y (x ∷ xs) h = ground (arith, any-set_call i y xs h)

any-map :
    (f : Call → Call) (xs : List Call)
    → ((x : Call) → is_waiting (f x) ≡ false)
    → any is_waiting (map f xs) ≡ false
any-map f [] h = refl
any-map f (x ∷ xs) h = rw (h x) (any-map f xs h)

-- Fewer waiting calls do no harm.
fewer :
    (traffic : List RefreshEvent) (in_flight before after : Bool)
    → Holds traffic in_flight before
    → (not after || before) ≡ true
    → Holds traffic in_flight after
fewer traffic in_flight before after (one, h) e = (one, ground (arith, h, e))

asked :
    (c : Client)
    → IsSingle c
    → (open_refreshes (try_refresh c).traffic ≡ 1) × ((try_refresh c).in_flight ≡ true)
unfolding try_refresh
asked c (one, h) = elim (Bool-cases c.in_flight) [
  | inl e ↦ rw e (rw e at one, refl)
  | inr e ↦ rw e (ground (arith, rw e at one), refl)
]

IsSingle-settle :
    (i : ℕ) (call : Call) (reply : Option Reply) (c : Client)
    → IsSingle c
    → IsSingle (put_call i (settle reply call) c)
unfolding is_waiting
IsSingle-settle i call reply c h =
    fewer c.traffic c.in_flight (any is_waiting c.calls) _ h (any-set_call i _ c.calls refl)

IsSingle-unauthorized : (c : Client) → IsSingle c → IsSingle (unauthorized c)
unfolding unauthorized
IsSingle-unauthorized c h = elim (Bool-cases c.registered) [ inl e ↦ rw e h | inr e ↦ rw e h ]

in_flight-unauthorized : (c : Client) → (unauthorized c).in_flight ≡ c.in_flight
unfolding unauthorized
in_flight-unauthorized c = elim (Bool-cases c.registered) [ inl e ↦ rw e refl | inr e ↦ rw e refl ]

IsSingle-on_first_reply :
    (i : ℕ) (call : Call) (reply : Reply) (c : Client)
    → IsSingle c
    → IsSingle (on_first_reply i call reply c)
IsSingle-on_first_reply i call reply c h = elim (Bool-cases (is_expired call reply)) [
  | inl e ↦ rw e (let (one, on) = asked c h in rw on (one, ground arith))
  | inr e ↦ rw e (IsSingle-settle i call (some reply) c h)
]

IsSingle-on_second_reply :
    (i : ℕ) (call : Call) (reply : Reply) (c : Client)
    → IsSingle c
    → IsSingle (on_second_reply i call reply c)
IsSingle-on_second_reply i call reply c h = elim (Bool-cases (eqb reply.status 401)) [
  | inl e ↦ rw e (IsSingle-settle i call (some reply) (unauthorized c) (IsSingle-unauthorized c h))
  | inr e ↦ rw e (IsSingle-settle i call (some reply) c h)
]

IsSingle-on_answer_in :
    (phase : Phase) (i : ℕ) (call : Call) (answer : Answer) (c : Client)
    → IsSingle c
    → IsSingle (on_answer_in phase i call answer c)
IsSingle-on_answer_in Phase.awaiting_reply i call (Answer.replied reply) c h =
    IsSingle-on_first_reply i call reply c h
IsSingle-on_answer_in Phase.awaiting_retry i call (Answer.replied reply) c h =
    IsSingle-on_second_reply i call reply c h
IsSingle-on_answer_in Phase.awaiting_reply i call Answer.failed c h =
    IsSingle-settle i call none c h
IsSingle-on_answer_in Phase.awaiting_retry i call Answer.failed c h =
    IsSingle-settle i call none c h
IsSingle-on_answer_in (Phase.awaiting_refresh r) i call answer c h = h
IsSingle-on_answer_in (Phase.settled r) i call answer c h = h

IsSingle-on_answer :
    (i : ℕ) (answer : Answer) (c : Client) → IsSingle c → IsSingle (on_answer i answer c)
unfolding on_answer
IsSingle-on_answer i answer c h = go (get_elem? c.calls i)
  where
    go : (o : Option Call) → IsSingle (on_answer_of o i answer c)
    go none = h
    go (some call) = IsSingle-on_answer_in call.phase i call answer c h

module _ (api_base : String) where
  not_waiting :
      (f : Phase → Call → Call)
      → ((p : Phase) (call : Call) → call.phase ≡ p → is_waiting (f p call) ≡ false)
      → (calls : List Call)
      → any is_waiting (map (λ (call : Call). f call.phase call) calls) ≡ false
  not_waiting f h calls = any-map _ calls (λ call. h call.phase call refl)

  failure_lem :
      (p : Phase) (call : Call) → call.phase ≡ p → is_waiting (after_failure p call) ≡ false
  unfolding is_waiting
  failure_lem (Phase.awaiting_refresh r) call e = refl
  failure_lem Phase.awaiting_reply call e = rw e refl
  failure_lem Phase.awaiting_retry call e = rw e refl
  failure_lem (Phase.settled r) call e = rw e refl

  refusal_lem :
      (p : Phase) (call : Call) → call.phase ≡ p → is_waiting (after_refusal p call) ≡ false
  unfolding is_waiting
  refusal_lem (Phase.awaiting_refresh r) call e = refl
  refusal_lem Phase.awaiting_reply call e = rw e refl
  refusal_lem Phase.awaiting_retry call e = rw e refl
  refusal_lem (Phase.settled r) call e = rw e refl

  renewal_lem :
      (c : Client) (p : Phase) (call : Call)
      → call.phase ≡ p
      → is_waiting (after_renewal api_base c p call) ≡ false
  unfolding is_waiting fetch_again
  renewal_lem c (Phase.awaiting_refresh r) call e = refl
  renewal_lem c Phase.awaiting_reply call e = rw e refl
  renewal_lem c Phase.awaiting_retry call e = rw e refl
  renewal_lem c (Phase.settled r) call e = rw e refl

  -- The renewal in flight ends, and no call waits.
  ended :
      (traffic : List RefreshEvent) (in_flight before after : Bool)
      → Holds traffic in_flight before
      → in_flight ≡ true
      → after ≡ false
      → Holds (RefreshEvent.refresh_ended ∷ traffic) false after
  ended traffic in_flight before after (one, h) e a = rw (one, e, a) (refl, refl)

  IsSingle-finish_refresh :
      (o : Option String) (c : Client)
      → IsSingle c
      → c.in_flight ≡ true
      → IsSingle (end_refresh (finish_refresh api_base o c))
  IsSingle-finish_refresh (some token) c h e =
      ended c.traffic c.in_flight (any is_waiting c.calls) _ h e
        (not_waiting (after_renewal api_base _) (renewal_lem _) c.calls)
  IsSingle-finish_refresh none c h e =
      let d = report_all c.calls c in
      let (single, on) =
        report_all-keeps (λ d. IsSingle d × (d.in_flight ≡ true))
          (λ d k. (IsSingle-unauthorized d k.0, in_flight-unauthorized d ∙ k.1)) c.calls c (h, e) in
      ended d.traffic d.in_flight (any is_waiting d.calls) _ single on
        (not_waiting after_refusal refusal_lem c.calls)

  IsSingle-on_refresh_answer :
      (answer : RefreshAnswer) (c : Client)
      → IsSingle c
      → c.in_flight ≡ true
      → IsSingle (on_refresh_answer api_base answer c)
  unfolding on_refresh_answer
  IsSingle-on_refresh_answer RefreshAnswer.refresh_failed c h e =
      ended c.traffic c.in_flight (any is_waiting c.calls) _ h e
        (not_waiting after_failure failure_lem c.calls)
  IsSingle-on_refresh_answer (RefreshAnswer.refresh_replied status body) c h e =
      IsSingle-finish_refresh (renewed_token status body) c h e

  IsSingle-start_call :
      (method path : String) (body : Option String) (c : Client)
      → IsSingle c
      → IsSingle (start_call api_base method path body c)
  unfolding start_call is_waiting
  IsSingle-start_call method path body c h =
      fewer c.traffic c.in_flight (any is_waiting c.calls) _ h (rw any-append (ground arith))

  IsSingle-Step : {c d : Client} → IsSingle c → Step api_base c d → IsSingle d
  unfolding set_on_unauthorized
  IsSingle-Step h (Step.starts method path body c) = IsSingle-start_call method path body c h
  IsSingle-Step h (Step.answers i answer c) = IsSingle-on_answer i answer c h
  IsSingle-Step h (Step.asks_refresh c) = let (one, on) = asked c h in rw on (one, ground arith)
  IsSingle-Step h (Step.refreshes answer c e) = IsSingle-on_refresh_answer answer c h e
  IsSingle-Step h (Step.registers registered c) = h

  -- In every run, from whatever the local storage holds at the start: at most one renewal is open
  -- at any time, `refreshInFlight` tells whether one is, and no call waits for a renewal while
  -- none is open.
  pub run-IsSingle :
      (access : Option String) (stored : Option Admin) (c : Client)
      → Reaches api_base (loaded access stored) c
      → IsSingle c
  unfolding loaded
  run-IsSingle access stored c Reaches.here = (refl, refl)
  run-IsSingle access stored c (Reaches.next {d} run step) =
      IsSingle-Step (run-IsSingle access stored d run) step
