-- ===== src/Client/Tests.antt =====
-- The theorems on the client at a run in which two calls find the session expired.
use procovar_notify.Prelude.{String, ◌≡◌, refl, true, none, some, All}
use procovar_notify.Client.{
  Client, Reply, Answer, RefreshAnswer, start_call, on_answer, on_refresh_answer,
}
use procovar_notify.Client.Parse.{IsFaithful, parse, parse-IsFaithful}
use procovar_notify.Client.Steps.{Step, Reaches, loaded, set_on_unauthorized}
use procovar_notify.Client.SingleFlight.{IsSingle, run-IsSingle}
use procovar_notify.Client.Calls.{IsFair}
use procovar_notify.Client.Dead.{Reports}
use procovar_notify.Client.Reports.{run-Reports}

abbrev expired : Reply
expired = record { status = 401; status_text = "Unauthorized"; text = "" }

abbrev first : Client
first = loaded (some "old") none

abbrev second : Client
second = start_call "" "GET" "/admin/me" none (start_call "" "GET" "/admin/applications" none first)

abbrev third : Client
third = on_answer 1 (Answer.replied expired) (on_answer 0 (Answer.replied expired) second)

abbrev fourth : Client
fourth = on_refresh_answer "" (RefreshAnswer.refresh_replied 200 (some (some "new"))) third

third_in_flight : third.in_flight ≡ true
unfolding loaded start_call on_answer
third_in_flight = refl

third_reached : Reaches "" first third
third_reached =
    Reaches.next
      (Reaches.next
        (Reaches.next (Reaches.next Reaches.here (Step.starts "GET" "/admin/applications" none _))
          (Step.starts "GET" "/admin/me" none _))
        (Step.answers 0 (Answer.replied expired) _))
      (Step.answers 1 (Answer.replied expired) _)

fourth_reached : Reaches "" first fourth
fourth_reached =
    Reaches.next third_reached
      (Step.refreshes (RefreshAnswer.refresh_replied 200 (some (some "new"))) _ third_in_flight)

run-IsSingle_example : IsSingle fourth
run-IsSingle_example = run-IsSingle "" (some "old") none fourth fourth_reached

-- The renewal of two waiting calls is refused, with the handler registered.
abbrev mounted : Client
mounted = set_on_unauthorized true third

mounted_in_flight : mounted.in_flight ≡ true
unfolding loaded start_call on_answer set_on_unauthorized
mounted_in_flight = refl

abbrev refused : Client
refused = on_refresh_answer "" (RefreshAnswer.refresh_replied 401 none) mounted

reports-refused : refused.reports ≡ 2
unfolding loaded start_call on_answer set_on_unauthorized on_refresh_answer
reports-refused = refl

run-Reports_example : All IsFair refused.calls × Reports mounted refused
run-Reports_example =
    run-Reports "" (some "old") none mounted refused
      (Reaches.next third_reached (Step.registers true third))
      (Step.refreshes (RefreshAnswer.refresh_replied 401 none) mounted mounted_in_flight)

-- A body that is no JSON.
parse-IsFaithful_example :
    IsFaithful
      (λ text. none)
      (λ (d : String). some d)
      (λ (d : String). none)
      expired
      (parse (λ text. none) (λ (d : String). some d) (λ (d : String). none) expired)
parse-IsFaithful_example =
    parse-IsFaithful (λ text. none) (λ (d : String). some d) (λ (d : String). none) expired
