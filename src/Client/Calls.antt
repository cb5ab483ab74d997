-- ===== src/Client/Calls.antt =====
-- The calls of `api`: how often each asks the server.
use procovar_notify.Prelude.{
  String, ℕ, zero, suc, ◌≤◌, ◌≡◌, refl, Bool, true, false, not, ◌&&◌, inl, inr, Option, none, some,
  List, [], ◌∷◌, map, arith, eqb, Bool-cases, get_elem?, length, All, All-append,
}
use procovar_notify.Client.{
  Phase, Call, Client, Admin, Answer, RefreshAnswer, is_expired, is_auth_path, set_call,
  try_refresh, start_call, on_answer, on_answer_in, on_answer_of, on_refresh_answer, renewed_token,
  fetch_again, after_failure, after_refusal, after_renewal, finish_refresh,
}
use procovar_notify.Client.Handler.{calls-unauthorized}
use mathlib.Core.Option.{some-injective}
use procovar_notify.Client.Steps.{Step, Reaches, loaded, set_on_unauthorized}

-- By the phase of a call: the number of its requests, and that a call with a path of the
-- authentication endpoints waits for no renewal and asks no second time.
abbrev pub FairAt : Phase → ℕ → Bool → Type 0
FairAt Phase.awaiting_reply sent auth = sent ≡ 1
FairAt (Phase.awaiting_refresh reply) sent auth =
    (sent ≡ 1) × ((eqb reply.status 401 && not auth) ≡ true)
FairAt Phase.awaiting_retry sent auth = (sent ≡ 2) × (auth ≡ false)
FairAt (Phase.settled reply) sent auth = sent ≤ 2

abbrev pub IsFair : Call → Type 0
IsFair call = FairAt call.phase (length call.sent) (is_auth_path call.path)

All-set_call :
    (i : ℕ) (y : Call) (xs : List Call) → All IsFair xs → IsFair y → All IsFair (set_call i y xs)
unfolding set_call
All-set_call i y [] h hy = h
All-set_call zero y (x ∷ xs) (p, h) hy = (hy, h)
All-set_call (suc i) y (x ∷ xs) (p, h) hy = (p, All-set_call i y xs h hy)

All-map :
    (f : Call → Call) (xs : List Call)
    → ((x : Call) → IsFair x → IsFair (f x))
    → All IsFair xs
    → All IsFair (map f xs)
All-map f [] k h = tt
All-map f (x ∷ xs) k (p, h) = (k x p, All-map f xs k h)

pub All-get_elem? :
    (xs : List Call) (i : ℕ) (x : Call) → All IsFair xs → get_elem? xs i ≡ some x → IsFair x
All-get_elem? [] i x h e = cc e
All-get_elem? (y ∷ xs) zero x (p, h) e = rw⁻¹ (some-injective _ _ e) p
All-get_elem? (y ∷ xs) (suc i) x (p, h) e = All-get_elem? xs i x h e

pub calls-try_refresh : (c : Client) → (try_refresh c).calls ≡ c.calls
unfolding try_refresh
calls-try_refresh c = elim (Bool-cases c.in_flight) [ inl e ↦ rw e refl | inr e ↦ rw e refl ]

IsFair-on_answer_in :
    (p : Phase) (i : ℕ) (call : Call) (answer : Answer) (c : Client)
    → All IsFair c.calls
    → FairAt p (length call.sent) (is_auth_path call.path)
    → All IsFair (on_answer_in p i call answer c).calls
unfolding is_expired
IsFair-on_answer_in Phase.awaiting_reply i call (Answer.replied reply) c h f =
    elim (Bool-cases (is_expired call reply)) [
      | inl e ↦ rw e (rw calls-try_refresh (All-set_call i _ c.calls h (f, e)))
      | inr e ↦ rw e (All-set_call i _ c.calls h (omega arith))
    ]
IsFair-on_answer_in Phase.awaiting_retry i call (Answer.replied reply) c h f =
    elim (Bool-cases (eqb reply.status 401)) [
      | inl e ↦ rw e (rw calls-unauthorized (All-set_call i _ c.calls h (omega arith)))
      | inr e ↦ rw e (All-set_call i _ c.calls h (omega arith))
    ]
IsFair-on_answer_in Phase.awaiting_reply i call Answer.failed c h f =
    All-set_call i _ c.calls h (omega arith)
IsFair-on_answer_in Phase.awaiting_retry i call Answer.failed c h f =
    All-set_call i _ c.calls h (omega arith)
IsFair-on_answer_in (Phase.awaiting_refresh r) i call answer c h f = h
IsFair-on_answer_in (Phase.settled r) i call answer c h f = h

IsFair-on_answer :
    (i : ℕ) (answer : Answer) (c : Client)
    → All IsFair c.calls
    → All IsFair (on_answer i answer c).calls
unfolding on_answer
IsFair-on_answer i answer c h = go (get_elem? c.calls i) (λ x e. All-get_elem? c.calls i x h e)
  where
    go :
        (o : Option Call)
        → ((x : Call) → o ≡ some x → IsFair x)
        → All IsFair (on_answer_of o i answer c).calls
    go none k = h
    go (some call) k = IsFair-on_answer_in call.phase i call answer c h (k call refl)

module _ (api_base : String) where
  IsFair-failure :
      (p : Phase) (call : Call) → call.phase ≡ p → IsFair call → IsFair (after_failure p call)
  IsFair-failure (Phase.awaiting_refresh r) call e f = let (n, m) = rw e at f in ground (arith, n)
  IsFair-failure Phase.awaiting_reply call e f = f
  IsFair-failure Phase.awaiting_retry call e f = f
  IsFair-failure (Phase.settled r) call e f = f

  IsFair-refusal :
      (p : Phase) (call : Call) → call.phase ≡ p → IsFair call → IsFair (after_refusal p call)
  IsFair-refusal (Phase.awaiting_refresh r) call e f = let (n, m) = rw e at f in ground (arith, n)
  IsFair-refusal Phase.awaiting_reply call e f = f
  IsFair-refusal Phase.awaiting_retry call e f = f
  IsFair-refusal (Phase.settled r) call e f = f

  IsFair-renewal :
      (c : Client) (p : Phase) (call : Call)
      → call.phase ≡ p
      → IsFair call
      → IsFair (after_renewal api_base c p call)
  unfolding fetch_again
  IsFair-renewal c (Phase.awaiting_refresh r) call e f =
      let (n, m) = rw e at f in (rw n refl, ground (arith, m))
  IsFair-renewal c Phase.awaiting_reply call e f = f
  IsFair-renewal c Phase.awaiting_retry call e f = f
  IsFair-renewal c (Phase.settled r) call e f = f

  IsFair-finish_refresh :
      (o : Option String) (c : Client)
      → All IsFair c.calls
      → All IsFair (finish_refresh api_base o c).calls
  IsFair-finish_refresh (some token) c h =
      All-map _ c.calls (λ x f. IsFair-renewal _ x.phase x refl f) h
  IsFair-finish_refresh none c h = All-map _ c.calls (λ x f. IsFair-refusal x.phase x refl f) h

  IsFair-on_refresh_answer :
      (answer : RefreshAnswer) (c : Client)
      → All IsFair c.calls
      → All IsFair (on_refresh_answer api_base answer c).calls
  unfolding on_refresh_answer
  IsFair-on_refresh_answer RefreshAnswer.refresh_failed c h =
      All-map _ c.calls (λ x f. IsFair-failure x.phase x refl f) h
  IsFair-on_refresh_answer (RefreshAnswer.refresh_replied status body) c h =
      IsFair-finish_refresh (renewed_token status body) c h

  pub IsFair-Step : {c d : Client} → All IsFair c.calls → Step api_base c d → All IsFair d.calls
  unfolding set_on_unauthorized start_call
  IsFair-Step h (Step.starts method path body c) = All-append _ c.calls (_ ∷ []) h (refl, tt)
  IsFair-Step h (Step.answers i answer c) = IsFair-on_answer i answer c h
  IsFair-Step h (Step.asks_refresh c) = rw calls-try_refresh h
  IsFair-Step h (Step.refreshes answer c e) = IsFair-on_refresh_answer answer c h
  IsFair-Step h (Step.registers registered c) = h

  -- The invariant of the runs.
  pub run-IsFair :
      (access : Option String) (stored : Option Admin) (c : Client)
      → Reaches api_base (loaded access stored) c
      → All IsFair c.calls
  unfolding loaded
  run-IsFair access stored c Reaches.here = tt
  run-IsFair access stored c (Reaches.next {d} run step) =
      IsFair-Step (run-IsFair access stored d run) step
