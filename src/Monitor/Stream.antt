-- ===== src/Monitor/Stream.antt =====
-- The reading of the event stream in `Monitor`: the buffer, the events between blank lines, the
-- line with the data. A chunk is the text that the decoder gives for the bytes of one read, and
-- `parse_json` is the platform's `JSON.parse` after its failures: `none` is text that is no JSON, and
-- `some none` is `null`.
use Prim.Native.Char.{Char, code}
use Prim.Native.String
use Prim.Native.String.{[], ◌∷◌}
use procovar_notify.Prelude.{
  present, String, ℕ, zero, suc, Bool, ◌&&◌, Option, none, some, List, [], ◌∷◌, eqb, if◌then◌else◌,
  find, strip_prefix,
}
use procovar_notify.Structure.Variables.{size, trim}

abbrev pub is_newline : Char → Bool
is_newline c = eqb (code c) 10

-- `event.split("\n")`, with the character put before the first line.
abbrev cons_first : Char → List String → List String
cons_first c [] = ◌∷◌ c [] ∷ []
cons_first c (l ∷ ls) = ◌∷◌ c l ∷ ls

unfoldable pub split_lines : String → List String
split_lines [] = [] ∷ []
split_lines (c ∷ s) =
    let rest = split_lines s in if is_newline c then [] ∷ rest else cons_first c rest

unfoldable pub is_data : String → Bool
unfolding strip_prefix
is_data line = present (strip_prefix "data:" line)

-- `dataLine.slice(5).trim()` of the first line that starts with "data:".
abbrev payload : Option String → Option String
payload none = none
payload (some t) = some (trim t)

abbrev after_data : Option String → Option String
after_data none = none
after_data (some line) = payload (strip_prefix "data:" line)

unfoldable pub data_of : String → Option String
unfolding split_lines is_data strip_prefix trim
data_of event = after_data (find is_data (split_lines event))

abbrev pub consed : Char → Option (String × String) → Option (String × String)
consed c none = none
consed c (some (event, rest)) = some (◌∷◌ c event, rest)

-- `buf.indexOf("\n\n")` with the two slices: the text before the first blank line, and the text
-- behind it.
unfoldable pub next_event : String → Option (String × String)
next_event [] = none
next_event (c ∷ []) = none
next_event (c ∷ d ∷ s) =
    let rest = next_event (◌∷◌ d s) in
    if is_newline c && is_newline d then some ([], s) else consed c rest

-- The inner loop: the events of the buffer, and what stays in the buffer. Each turn takes at least two
-- characters away, so the size of the buffer is enough fuel.
unfoldable pub drain : ℕ → String → List String × String
unfolding next_event
drain zero buf = ([], buf)
drain (suc n) buf = elim (next_event buf) [
  | none ↦ ([], buf)
  | some (event, rest) ↦ let (events, kept) = drain n rest in (event ∷ events, kept)
]

unfoldable pub take_events : String → List String × String
unfolding drain size
take_events buf = drain (size buf) buf

module _ {S : Type 0} (parse_json : String → Option (Option S)) where
  -- `setSummary(JSON.parse(text))`; text that is no JSON is ignored.
  abbrev parsed_or : Option S → Option (Option S) → Option S
  parsed_or summary none = summary
  parsed_or summary (some parsed) = parsed

  abbrev pub shown_after : Option S → Option String → Option S
  shown_after summary none = summary
  shown_after summary (some text) = parsed_or summary (parse_json text)

  unfoldable pub on_event : Option S → String → Option S
  unfolding data_of
  on_event summary event = shown_after summary (data_of event)

  unfoldable pub on_events : Option S → List String → Option S
  unfolding on_event
  on_events summary [] = summary
  on_events summary (event ∷ events) = on_events (on_event summary event) events

  -- One read: the buffer and the summary afterwards.
  unfoldable pub on_chunk : String → String × Option S → String × Option S
  unfolding on_events take_events
  on_chunk chunk (buf, summary) =
      let (events, rest) = take_events (String.◌++◌ buf chunk) in (rest, on_events summary events)

  -- The reads of one connection.
  unfoldable pub on_chunks : List String → String × Option S → String × Option S
  unfolding on_chunk
  on_chunks [] s = s
  on_chunks (chunk ∷ chunks) s = on_chunks chunks (on_chunk chunk s)
