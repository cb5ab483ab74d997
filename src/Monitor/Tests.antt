-- ===== src/Monitor/Tests.antt =====
-- The theorems on the monitor at a stream of two messages that is cut inside a message.
use procovar_notify.Prelude.{
  String, ℕ, ◌≡◌, refl, true, Option, none, some, List, [], ◌∷◌, ◌==◌, if◌then◌else◌, ◌≤◌, ◌*◌, ◌+◌,
  length,
}
use procovar_notify.Structure.Variables.{trim, size, is_space}
use procovar_notify.Monitor.Stream.{on_chunk, on_chunks, take_events, next_event}
use procovar_notify.Monitor.Chunks.{concat, on_chunks-concat}
use procovar_notify.Monitor.Draining.{take_events_done}
use procovar_notify.Monitor.Frames.{frames, receive, on_chunks-frames}
use procovar_notify.Monitor.Rounds.{
  Round, expires, refuses, closes, breaks, elapsed, renewals, elapsed_bound,
}

-- A number in words for JSON.
abbrev parse : String → Option (Option ℕ)
parse t = if t == "one" then some (some 1) else if t == "null" then some none else none

abbrev chunks : List String
chunks = "da" ∷ "ta: one\n" ∷ "\nda" ∷ "ta: x\n\n" ∷ []

on_chunks-concat_example :
    on_chunks parse chunks ("", none) ≡ on_chunk parse (concat chunks) ("", none)
on_chunks-concat_example = on_chunks-concat parse chunks none

two_messages : concat chunks ≡ frames (" one" ∷ " x" ∷ [])
two_messages = refl

on_chunks-frames_example :
    on_chunks parse chunks ("", none) ≡ ("", receive parse (" one" ∷ " x" ∷ []) none)
on_chunks-frames_example =
    on_chunks-frames parse chunks (" one" ∷ " x" ∷ []) none two_messages
      ((refl, (refl, (refl, (refl, tt)))), ((refl, (refl, tt)), tt))

take_events_done_example :
    (next_event (take_events "a\n\nb").1 ≡ none)
    × (2 * length (take_events "a\n\nb").0 + size (take_events "a\n\nb").1 ≤ size "a\n\nb")
take_events_done_example = take_events_done "a\n\nb"

abbrev rounds : List Round
rounds = expires 10 true ∷ closes 20 25000 chunks ∷ refuses 5 ∷ closes 20 3 [] ∷ breaks 7 [] ∷ []

elapsed_bound_example : 1000 * length rounds ≤ elapsed rounds + 1000 * renewals rounds
elapsed_bound_example = elapsed_bound rounds

shown : receive parse (" one" ∷ " x" ∷ []) none ≡ some 1
unfolding trim is_space
shown = refl
