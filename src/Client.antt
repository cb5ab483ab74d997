-- ===== src/Client.antt =====
-- The HTTP client of frontend/src/api/client.ts: `api` with its single retry after a renewal of the
-- access token, `tryRefresh` with one renewal for all calls, and `parse`; `onUnauthorized` as
-- `AuthProvider` of frontend/src/auth/auth.tsx registers it. The code between two awaits is one
-- handler. Every request includes the cookies.
mod Tests
pub mod Parse
pub mod Steps
pub mod Handler
pub mod SingleFlight
pub mod Calls
pub mod Dead
pub mod Reports
use Prim.Native.String
use procovar_notify.Prelude.{
  String, ℕ, zero, suc, Bool, true, false, not, ◌&&◌, Option, none, some, List, [], ◌∷◌, ◌++◌, map,
  ◌==◌, eqb, leb, if◌then◌else◌, get_elem?, strip_prefix,
}

pub record Request : Type 0 where
  pub method : String
  pub url : String
  pub authorization : Option String
  pub content_type : Option String
  pub body : Option String

pub record Reply : Type 0 where
  pub status : ℕ
  pub status_text : String
  pub text : String

-- `res.ok`
abbrev pub is_ok : ℕ → Bool
is_ok status = leb 200 status && leb status 299

-- Where a call of `api` stands: at the await of its first request, of the renewal, of the second
-- request, or at its end, with the response that `parse` gets, or with none if the network failed.
pub data Phase : Type 0 where
  awaiting_reply : Phase
  awaiting_refresh : Reply → Phase
  awaiting_retry : Phase
  settled : Option Reply → Phase

-- A call of `api`; `sent` holds the requests it made, newest first.
pub record Call : Type 0 where
  pub method : String
  pub path : String
  pub body : Option String
  pub phase : Phase
  pub sent : List Request

pub record Admin : Type 0 where
  pub id : String
  pub role : String
  pub application_id : Option String
  pub email : Option String

-- The requests to the renewal endpoint and the ends of these requests, newest first.
pub data RefreshEvent : Type 0 where
  refresh_sent : RefreshEvent
  refresh_ended : RefreshEvent

-- The access token and the administrator in the local storage, the administrator in the state of
-- `AuthProvider`, `refreshInFlight`, whether `onUnauthorized` is set, how often its handler has run,
-- and the calls so far.
pub record Client : Type 0 where
  pub access : Option String
  pub stored_admin : Option Admin
  pub admin : Option Admin
  pub in_flight : Bool
  pub registered : Bool
  pub reports : ℕ
  pub calls : List Call
  pub traffic : List RefreshEvent

-- `if (access)`
abbrev bearer : Option String → Option String
bearer none = none
bearer (some access) = if access == "" then none else some (String.◌++◌ "Bearer " access)

abbrev json_type : Option String → Option String
json_type none = none
json_type (some body) = some "application/json"

-- `rawFetch` up to its request; a body is given as its JSON text.
unfoldable pub raw_fetch : String → Client → String → String → Option String → Request
raw_fetch api_base c method path body = record {
  method = method;
  url = String.◌++◌ api_base path;
  authorization = bearer c.access;
  content_type = json_type body;
  body = body;
}

unfoldable pub is_auth_path : String → Bool
unfolding strip_prefix
is_auth_path path = elim (strip_prefix "/admin/auth" path) [ none ↦ false | some rest ↦ true ]

unfoldable pub set_call : ℕ → Call → List Call → List Call
set_call i call [] = []
set_call zero call (x ∷ xs) = call ∷ xs
set_call (suc i) call (x ∷ xs) = x ∷ set_call i call xs

abbrev pub put_call : ℕ → Call → Client → Client
put_call i call c = record c { calls = set_call i call c.calls }

abbrev pub settle : Option Reply → Call → Call
settle reply call = record call { phase = settled reply }

-- `onUnauthorized?.()` with the handler of `AuthProvider`.
unfoldable pub unauthorized : Client → Client
unauthorized c =
    if c.registered
    then record c { access = none; stored_admin = none; admin = none; reports = suc c.reports }
    else c

-- `tryRefresh`: a renewal in flight is shared.
unfoldable pub try_refresh : Client → Client
try_refresh c =
    if c.in_flight then c else record c { in_flight = true; traffic = refresh_sent ∷ c.traffic }

-- The end of a request: a response, or the failure of the network.
pub data Answer : Type 0 where
  replied : Reply → Answer
  failed : Answer

-- `doRefresh` with a response: its status, and its body, `none` if that is no JSON, with the
-- access token, `none` if the body holds none.
pub data RefreshAnswer : Type 0 where
  refresh_replied : ℕ → Option (Option String) → RefreshAnswer
  refresh_failed : RefreshAnswer

abbrev token_in : Option (Option String) → Option String
token_in (some (some token)) = if token == "" then none else some token
token_in _ = none

-- The token that a response renews the access with.
unfoldable pub renewed_token : ℕ → Option (Option String) → Option String
renewed_token status body = if is_ok status then token_in body else none

-- `finally(() => { refreshInFlight = null; })`
abbrev pub end_refresh : Client → Client
end_refresh c = record c { in_flight = false; traffic = refresh_ended ∷ c.traffic }

unfoldable pub is_waiting : Call → Bool
is_waiting call = elim call.phase [ awaiting_refresh reply ↦ true | _ ↦ false ]

-- Every call that waits for a renewal that is refused calls `onUnauthorized?.()`.
unfoldable pub report_all : List Call → Client → Client
unfolding is_waiting unauthorized
report_all [] c = c
report_all (call ∷ calls) c = report_all calls (if is_waiting call then unauthorized c else c)

-- What a call does at the end of the renewal that it waits for, by how the renewal ends.
abbrev pub after_failure : Phase → Call → Call
after_failure (awaiting_refresh reply) call = settle none call
after_failure _ call = call

abbrev pub after_refusal : Phase → Call → Call
after_refusal (awaiting_refresh reply) call = settle (some reply) call
after_refusal _ call = call

module _ (api_base : String) where
  -- A request of a call with the access token of the moment.
  unfoldable pub fetch_again : Client → Call → Call
  unfolding raw_fetch
  fetch_again c call = record call {
    phase = awaiting_retry;
    sent = raw_fetch api_base c call.method call.path call.body ∷ call.sent;
  }

  abbrev pub after_renewal : Client → Phase → Call → Call
  after_renewal c (awaiting_refresh reply) call = fetch_again c call
  after_renewal c _ call = call

  -- `api` up to its first await.
  unfoldable pub start_call : String → String → Option String → Client → Client
  unfolding raw_fetch
  start_call method path body c = record c {
    calls =
        c.calls
        ++ record {
          method = method;
          path = path;
          body = body;
          phase = awaiting_reply;
          sent = raw_fetch api_base c method path body ∷ [];
        }
          ∷ [];
  }

  -- `api` from the end of the renewal on, for every call that waits for it.
  abbrev pub finish_refresh : Option String → Client → Client
  finish_refresh none c = record (report_all c.calls c) {
    calls = map (λ (call : Call). after_refusal call.phase call) c.calls;
  }
  finish_refresh (some token) c = record c {
    access = some token;
    calls =
        map (λ (call : Call). after_renewal (record c { access = some token }) call.phase call)
          c.calls;
  }

  unfoldable pub on_refresh_answer : RefreshAnswer → Client → Client
  unfolding renewed_token report_all fetch_again
  on_refresh_answer refresh_failed c =
      end_refresh
        (record c { calls = map (λ (call : Call). after_failure call.phase call) c.calls })
  on_refresh_answer (refresh_replied status body) c =
      end_refresh (finish_refresh (renewed_token status body) c)

-- `res.status === 401 && !isAuthPath`
unfoldable pub is_expired : Call → Reply → Bool
unfolding is_auth_path
is_expired call reply = eqb reply.status 401 && not (is_auth_path call.path)

-- `api` from the end of one of its own requests on.
abbrev pub on_first_reply : ℕ → Call → Reply → Client → Client
on_first_reply i call reply c =
    if is_expired call reply
    then put_call i (record call { phase = awaiting_refresh reply }) (try_refresh c)
    else put_call i (settle (some reply) call) c

abbrev pub on_second_reply : ℕ → Call → Reply → Client → Client
on_second_reply i call reply c =
    if eqb reply.status 401
    then put_call i (settle (some reply) call) (unauthorized c)
    else put_call i (settle (some reply) call) c

abbrev pub on_answer_in : Phase → ℕ → Call → Answer → Client → Client
on_answer_in awaiting_reply i call (replied reply) c = on_first_reply i call reply c
on_answer_in awaiting_retry i call (replied reply) c = on_second_reply i call reply c
on_answer_in awaiting_reply i call failed c = put_call i (settle none call) c
on_answer_in awaiting_retry i call failed c = put_call i (settle none call) c
on_answer_in _ i call answer c = c

abbrev pub on_answer_of : Option Call → ℕ → Answer → Client → Client
on_answer_of none i answer c = c
on_answer_of (some call) i answer c = on_answer_in call.phase i call answer c

unfoldable pub on_answer : ℕ → Answer → Client → Client
unfolding is_expired set_call try_refresh unauthorized
on_answer i answer c = on_answer_of (get_elem? c.calls i) i answer c
