-- ===== src/Monitor/Rounds.antt =====
-- The loop of `Monitor` that connects again. A round is one turn of the loop; the cleanup of the
-- effect ends the sequence of rounds, and nothing is shown any more.
use procovar_notify.Prelude.{
  String, ℕ, suc, ◌+◌, ◌*◌, ◌≤◌, Bool, true, false, Option, List, [], ◌∷◌, length, ltb,
  if◌then◌else◌, arith,
}
use procovar_notify.Monitor.Stream.{on_chunks}

-- How a turn ends, with the milliseconds it takes: the status 401 with the outcome of the renewal, a
-- status that is no success or no body, the end of the stream (with the time from the response on),
-- or an exception, with the chunks read before it.
pub data Round : Type 0 where
  expires : ℕ → Bool → Round
  refuses : ℕ → Round
  closes : ℕ → ℕ → List String → Round
  breaks : ℕ → List String → Round

pub record Monitor (S : Type 0) : Type 0 where
  pub summary : Option S
  pub live : Bool

-- The milliseconds that `sleep` waits at the end of the turn.
unfoldable pub pause : Round → ℕ
pause (expires time renewed) = if renewed then 0 else 5000
pause (refuses time) = 2000
pause (closes time lasted chunks) = if ltb lasted 1000 then 2000 else 0
pause (breaks time chunks) = 2000

module _ {S : Type 0} (parse_json : String → Option (Option S)) where
  unfoldable pub on_round : Round → Monitor S → Monitor S
  unfolding on_chunks
  on_round (expires time renewed) s = record s { live = false }
  on_round (refuses time) s = record s { live = false }
  on_round (closes time lasted chunks) s = record {
    summary = (on_chunks parse_json chunks ("", s.summary)).1;
    live = if ltb lasted 1000 then false else true;
  }
  on_round (breaks time chunks) s = record {
    summary = (on_chunks parse_json chunks ("", s.summary)).1;
    live = false;
  }

  unfoldable pub on_rounds : List Round → Monitor S → Monitor S
  unfolding on_round
  on_rounds [] s = s
  on_rounds (r ∷ rs) s = on_rounds rs (on_round r s)

-- The time of a turn, without its pause.
abbrev pub time_of : Round → ℕ
time_of (expires time renewed) = time
time_of (refuses time) = time
time_of (closes time lasted chunks) = time + lasted
time_of (breaks time chunks) = time

-- The time that turns and pauses take together.
abbrev pub elapsed : List Round → ℕ
elapsed [] = 0
elapsed (r ∷ rs) = (time_of r + pause r) + elapsed rs

abbrev pub renewals : List Round → ℕ
renewals [] = 0
renewals (expires time true ∷ rs) = suc (renewals rs)
renewals (expires time false ∷ rs) = renewals rs
renewals (refuses time ∷ rs) = renewals rs
renewals (closes time lasted chunks ∷ rs) = renewals rs
renewals (breaks time chunks ∷ rs) = renewals rs

-- However the connections end, the loop never runs hot: n turns take at least n seconds, but for
-- one second less per renewal of the token.
pub elapsed_bound : (rs : List Round) → 1000 * length rs ≤ elapsed rs + 1000 * renewals rs
unfolding pause
elapsed_bound [] = omega arith
elapsed_bound (expires time true ∷ rs) = omega (arith, elapsed_bound rs)
elapsed_bound (expires time false ∷ rs) = omega (arith, elapsed_bound rs)
elapsed_bound (refuses time ∷ rs) = omega (arith, elapsed_bound rs)
elapsed_bound (closes time lasted chunks ∷ rs) = ground (arith, elapsed_bound rs)
elapsed_bound (breaks time chunks ∷ rs) = omega (arith, elapsed_bound rs)
