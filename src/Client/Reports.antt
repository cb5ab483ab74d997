-- ===== src/Client/Reports.antt =====
-- `onUnauthorized` of frontend/src/api/client.ts: each call that ends with a 401 runs the handler
-- of `AuthProvider` once, if there is one, and nothing else does.
use procovar_notify.Prelude.{
  String, ℕ, ◌+◌, ◌≡◌, refl, true, false, inl, inr, Option, none, some, [], ◌∷◌, map, arith, eqb,
  Bool-cases, get_elem?, All,
}
use procovar_notify.Client.{
  Phase, Call, Client, Admin, Answer, RefreshAnswer, is_waiting, is_expired, set_call, put_call,
  settle, unauthorized, try_refresh, start_call, on_answer, on_answer_in, on_answer_of,
  on_refresh_answer, renewed_token, fetch_again, after_failure, after_refusal, after_renewal,
  finish_refresh, end_refresh,
}
use procovar_notify.Client.Calls.{IsFair, All-get_elem?, calls-try_refresh, run-IsFair, IsFair-Step}
use procovar_notify.Client.Dead.{
  one, total, is_dead, dead, Reports, eqb_refl, quiet, deaf, loud, total-set_call, total-append,
  dead-map, total_never, heard, unheard, reports-report_all, report_all-unheard,
  report_all-IsSignedOut,
}
use procovar_notify.Client.Handler.{calls-unauthorized}
use procovar_notify.Client.Steps.{Step, Reaches, loaded, set_on_unauthorized}

-- The end of a call with a response: it dies exactly if that is a 401 that counts.
ends-quietly :
    (i : ℕ) (call y : Call) (c : Client)
    → get_elem? c.calls i ≡ some call
    → is_dead call ≡ false
    → is_dead y ≡ false
    → dead (set_call i y c.calls) ≡ dead c.calls
ends-quietly i call y c e before after =
    let n = total-set_call is_dead i call y c.calls e in omega (arith, rw (before, after) at n)

Reports-dies :
    (i : ℕ) (call y : Call) (c : Client)
    → get_elem? c.calls i ≡ some call
    → is_dead call ≡ false
    → is_dead y ≡ true
    → Reports c (put_call i y (unauthorized c))
Reports-dies i call y c e before after = elim (Bool-cases c.registered) [
  | inl on ↦
      let (more, still, out) = heard c on in
      let n = rw (before, after) at (total-set_call is_dead i call y c.calls e) in
      loud c (put_call i y (unauthorized c)) on (rw calls-unauthorized (omega (arith, more, n)))
        (λ _. out)
  | inr off ↦ deaf c (put_call i y (unauthorized c)) off (rw (unheard c off) refl)
]

reports-try_refresh : (c : Client) → (try_refresh c).reports ≡ c.reports
unfolding try_refresh
reports-try_refresh c = elim (Bool-cases c.in_flight) [ inl e ↦ rw e refl | inr e ↦ rw e refl ]

module _ (i : ℕ) (call : Call) (c : Client) (at_i : get_elem? c.calls i ≡ some call)
    (fair : IsFair call) where
  Reports-on_answer_in :
      (p : Phase) (answer : Answer) → call.phase ≡ p → Reports c (on_answer_in p i call answer c)
  unfolding is_expired
  Reports-on_answer_in Phase.awaiting_reply (Answer.replied reply) e =
      elim (Bool-cases (is_expired call reply)) [
        | inl hit ↦ rw hit (
            quiet c
              (put_call i (record call { phase = Phase.awaiting_refresh reply }) (try_refresh c))
              (reports-try_refresh c)
              (rw calls-try_refresh (
                ends-quietly i call (record call { phase = Phase.awaiting_refresh reply }) c at_i
                  (rw e refl) refl)))
        | inr miss ↦ rw miss (
            quiet c (put_call i (settle (some reply) call) c) refl
              (ends-quietly i call _ c at_i (rw e refl) miss))
      ]
  Reports-on_answer_in Phase.awaiting_retry (Answer.replied reply) e =
      elim (Bool-cases (eqb reply.status 401)) [
        | inl hit ↦ rw hit (
            Reports-dies i call (settle (some reply) call) c at_i (rw e refl)
              (rw (hit, (rw e at fair).1) refl))
        | inr miss ↦ rw miss (
            quiet c (put_call i (settle (some reply) call) c) refl
              (ends-quietly i call (settle (some reply) call) c at_i (rw e refl) (rw miss refl)))
      ]
  Reports-on_answer_in Phase.awaiting_reply Answer.failed e =
      quiet c (put_call i (settle none call) c) refl
        (ends-quietly i call (settle none call) c at_i (rw e refl) refl)
  Reports-on_answer_in Phase.awaiting_retry Answer.failed e =
      quiet c (put_call i (settle none call) c) refl
        (ends-quietly i call (settle none call) c at_i (rw e refl) refl)
  Reports-on_answer_in (Phase.awaiting_refresh r) answer e = quiet c c refl refl
  Reports-on_answer_in (Phase.settled r) answer e = quiet c c refl refl

Reports-on_answer :
    (i : ℕ) (answer : Answer) (c : Client) → All IsFair c.calls → Reports c (on_answer i answer c)
unfolding on_answer
Reports-on_answer i answer c h = go (get_elem? c.calls i) refl
  where
    go : (o : Option Call) → get_elem? c.calls i ≡ o → Reports c (on_answer_of o i answer c)
    go none e = quiet c c refl refl
    go (some call) e =
        Reports-on_answer_in i call c e (All-get_elem? c.calls i call h e) call.phase answer refl

-- What the end of a renewal does to one call: those that wait die if it was refused, and else none.
failure_lem :
    (p : Phase) (call : Call)
    → call.phase ≡ p
    → one (is_dead (after_failure p call)) ≡ one (is_dead call) + one false
failure_lem (Phase.awaiting_refresh r) call e = rw e refl
failure_lem Phase.awaiting_reply call e = rw e refl
failure_lem Phase.awaiting_retry call e = rw e refl
failure_lem (Phase.settled r) call e = omega arith

refusal_lem :
    (p : Phase) (call : Call)
    → call.phase ≡ p
    → IsFair call
    → one (is_dead (after_refusal p call)) ≡ one (is_dead call) + one (is_waiting call)
unfolding is_waiting is_expired
refusal_lem (Phase.awaiting_refresh r) call e f = let (n, m) = rw e at f in rw (e, m) refl
refusal_lem Phase.awaiting_reply call e f = rw e refl
refusal_lem Phase.awaiting_retry call e f = rw e refl
refusal_lem (Phase.settled r) call e f = rw e (omega arith)

module _ (api_base : String) where
  renewal_lem :
      (c : Client) (p : Phase) (call : Call)
      → call.phase ≡ p
      → one (is_dead (after_renewal api_base c p call)) ≡ one (is_dead call) + one false
  unfolding fetch_again
  renewal_lem c (Phase.awaiting_refresh r) call e = rw e refl
  renewal_lem c Phase.awaiting_reply call e = rw e refl
  renewal_lem c Phase.awaiting_retry call e = rw e refl
  renewal_lem c (Phase.settled r) call e = omega arith

  -- No call dies at the end of a renewal.
  spared :
      (f : Call → Call) (c : Client)
      → ((x : Call) → one (is_dead (f x)) ≡ one (is_dead x) + one false)
      → All IsFair c.calls
      → dead (map f c.calls) ≡ dead c.calls
  spared f c k h =
      omega (arith, dead-map f (λ x. false) c.calls (λ x p. k x) h, total_never c.calls)

  refused_dead :
      (c : Client)
      → All IsFair c.calls
      → dead (finish_refresh api_base none c).calls ≡ dead c.calls + total is_waiting c.calls
  refused_dead c h = dead-map _ is_waiting c.calls (λ x f. refusal_lem x.phase x refl f) h

  Reports-refused : (c : Client) → All IsFair c.calls → Reports c (finish_refresh api_base none c)
  Reports-refused c h = elim (Bool-cases c.registered) [
    | inl on ↦
        loud c (finish_refresh api_base none c) on
          (omega (arith, reports-report_all c.calls c on, refused_dead c h))
          (λ more. elim (report_all-IsSignedOut c.calls c on) [
            | inl out ↦ out
            | inr same ↦ cc (rw (same, eqb_refl c.reports) at more)
          ])
    | inr off ↦
        deaf c (finish_refresh api_base none c) off (rw (report_all-unheard c.calls c off) refl)
  ]

  Reports-on_refresh_answer :
      (answer : RefreshAnswer) (c : Client)
      → All IsFair c.calls
      → Reports c (on_refresh_answer api_base answer c)
  unfolding on_refresh_answer
  Reports-on_refresh_answer RefreshAnswer.refresh_failed c h =
      quiet c (on_refresh_answer api_base RefreshAnswer.refresh_failed c) refl
        (spared _ c (λ x. failure_lem x.phase x refl) h)
  Reports-on_refresh_answer (RefreshAnswer.refresh_replied status body) c h =
      go (renewed_token status body)
    where
      go : (o : Option String) → Reports c (end_refresh (finish_refresh api_base o c))
      go none = Reports-refused c h
      go (some token) =
          quiet c (end_refresh (finish_refresh api_base (some token) c)) refl
            (spared _ c (λ x. renewal_lem (record c { access = some token }) x.phase x refl) h)

  Reports-Step : {c d : Client} → All IsFair c.calls → Step api_base c d → Reports c d
  unfolding set_on_unauthorized start_call
  Reports-Step h (Step.starts method path body c) =
      quiet c (start_call api_base method path body c) refl
        (omega (arith, total-append is_dead c.calls (_ ∷ [])))
  Reports-Step h (Step.answers i answer c) = Reports-on_answer i answer c h
  Reports-Step h (Step.asks_refresh c) =
      quiet c (try_refresh c) (reports-try_refresh c) (rw calls-try_refresh refl)
  Reports-Step h (Step.refreshes answer c e) = Reports-on_refresh_answer answer c h
  Reports-Step h (Step.registers registered c) =
      quiet c (set_on_unauthorized registered c) refl refl

  -- In every run every call sends at most two requests, and none with the path of an authentication
  -- endpoint waits for a renewal or asks a second time. Each step of a run, with a handler
  -- registered, runs it exactly once for each call that the step ends with a 401 at another path,
  -- and leaves nobody signed in if it runs it; without a handler it runs none.
  pub run-Reports :
      (access : Option String) (stored : Option Admin) (c d : Client)
      → Reaches api_base (loaded access stored) c
      → Step api_base c d
      → All IsFair d.calls × Reports c d
  run-Reports access stored c d run step =
      let fair = run-IsFair api_base access stored c run in
      (IsFair-Step api_base fair step, Reports-Step fair step)
