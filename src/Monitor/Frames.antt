-- ===== src/Monitor/Frames.antt =====
-- The monitor reads back what the server frames: `data:`, a text of one line, and a blank line.
use Prim.Native.String
use Prim.Native.String.{[], ◌∷◌}
use text.Mathlib.TextLemmas.{nil-append, cons-append, append_assoc}
use procovar_notify.Prelude.{
  String, ◌≡◌, refl, sym, true, false, Option, some, List, [], ◌∷◌, arith, strip_prefix-append,
}
use procovar_notify.Structure.Variables.{trim}
use procovar_notify.Monitor.Stream.{
  next_event, is_newline, split_lines, is_data, data_of, on_event, on_events, on_chunk, on_chunks,
  take_events, shown_after,
}
use procovar_notify.Monitor.Chunks.{concat, on_chunks-concat}
use procovar_notify.Monitor.Draining.{
  next_event-blank, next_event-cons, take_events-none, take_events-some, next_event-nil,
}

abbrev pub IsLine : String → Type 0
IsLine [] = Unit
IsLine (c ∷ s) = (is_newline c ≡ false) × IsLine s

-- The text behind a blank line.
abbrev pub blank_then : String → String
blank_then r = ◌∷◌ "\n" (◌∷◌ "\n" r)

abbrev pub frame : String → String
frame t = String.◌++◌ "data:" (String.◌++◌ t (blank_then []))

abbrev pub frames : List String → String
frames [] = []
frames (t ∷ ts) = String.◌++◌ (frame t) (frames ts)

IsLine-append : (s t : String) → IsLine s → IsLine t → IsLine (String.◌++◌ s t)
IsLine-append [] t h k = rw (nil-append t) k
IsLine-append (c ∷ s) t (p, h) k = rw (cons-append c s t) (p, IsLine-append s t h k)

split_lines-line : (t : String) → IsLine t → split_lines t ≡ t ∷ []
unfolding split_lines
split_lines-line [] h = refl
split_lines-line (c ∷ s) (p, h) = rw (p, split_lines-line s h) refl

next_event-line :
    (t r : String) → IsLine t → next_event (String.◌++◌ t (blank_then r)) ≡ some (t, r)
next_event-line [] r h = rw (nil-append (blank_then r)) (next_event-blank "\n" "\n" r refl)
next_event-line (c ∷ []) r (p, h) =
    rw (cons-append c [] (blank_then r), nil-append (blank_then r))
      (rw
        (next_event-cons c "\n" (◌∷◌ "\n" r) (ground (arith, p)), next_event-blank "\n" "\n" r refl)
        refl)
next_event-line (c ∷ d ∷ s) r (p, h) =
    rw (cons-append c (◌∷◌ d s) (blank_then r), cons-append d s (blank_then r))
      (rw
        (
          next_event-cons c d (String.◌++◌ s (blank_then r)) (ground (arith, p)),
          sym (cons-append d s (blank_then r)),
          next_event-line (◌∷◌ d s) r h,
        )
        refl)

data-IsLine : (t : String) → IsLine t → IsLine (String.◌++◌ "data:" t)
data-IsLine t h = IsLine-append "data:" t (refl, (refl, (refl, (refl, (refl, tt))))) h

is_data-line : (t : String) → is_data (String.◌++◌ "data:" t) ≡ true
unfolding is_data
is_data-line t = rw (strip_prefix-append "data:" t) refl

data_of-line : (t : String) → IsLine t → data_of (String.◌++◌ "data:" t) ≡ some (trim t)
unfolding data_of
data_of-line t h =
    rw (split_lines-line (String.◌++◌ "data:" t) (data-IsLine t h), is_data-line t)
      (rw (strip_prefix-append "data:" t) refl)

take_events-frame :
    (t r : String)
    → IsLine t
    → take_events (String.◌++◌ (frame t) r)
      ≡ (String.◌++◌ "data:" t ∷ (take_events r).0, (take_events r).1)
take_events-frame t r h =
    take_events-some _ (String.◌++◌ "data:" t) r (rw split (next_event-line _ r (data-IsLine t h)))
  where
    split : String.◌++◌ (frame t) r ≡ String.◌++◌ (String.◌++◌ "data:" t) (blank_then r)
    split =
        rw
          (
            append_assoc "data:" (String.◌++◌ t (blank_then [])) r,
            append_assoc t (blank_then []) r,
            append_assoc "data:" t (blank_then r),
            cons-append "\n" (◌∷◌ "\n" []) r,
            cons-append "\n" [] r,
            nil-append r,
          )
          refl

abbrev pub AreLines : List String → Type 0
AreLines [] = Unit
AreLines (t ∷ ts) = IsLine t × AreLines ts

module _ {S : Type 0} (parse_json : String → Option (Option S)) where
  -- The abstract view of a stream: a sequence of messages, each of which replaces the summary if it is
  -- JSON.
  abbrev pub receive : List String → Option S → Option S
  receive [] summary = summary
  receive (t ∷ ts) summary = receive ts (shown_after parse_json summary (some (trim t)))

  on_event-line :
      (t : String) (summary : Option S)
      → IsLine t
      → on_event parse_json summary (String.◌++◌ "data:" t)
        ≡ shown_after parse_json summary (some (trim t))
  unfolding on_event
  on_event-line t summary h = rw (data_of-line t h) refl

  on_events-cons :
      (e : String) (es : List String) (summary : Option S)
      → on_events parse_json summary (e ∷ es)
        ≡ on_events parse_json (on_event parse_json summary e) es
  unfolding on_events
  on_events-cons e es summary = refl

  on_events-nil : (summary : Option S) → on_events parse_json summary [] ≡ summary
  unfolding on_events
  on_events-nil summary = refl

  on_events-frames :
      (ts : List String) (summary : Option S)
      → AreLines ts
      → (on_events parse_json summary (take_events (frames ts)).0 ≡ receive ts summary)
        × ((take_events (frames ts)).1 ≡ [])
  on_events-frames [] summary h =
      rw (take_events-none [] next_event-nil) (on_events-nil summary, refl)
  on_events-frames (t ∷ ts) summary (p, h) =
      rw
        (
          take_events-frame t (frames ts) p,
          on_events-cons (String.◌++◌ "data:" t) (take_events (frames ts)).0 summary,
          on_event-line t summary p,
        )
        (on_events-frames ts _ h)

  -- If the chunks of a connection make up the frames of a list of one-line texts, the summary is the
  -- one that receiving these texts one by one gives, and the buffer is empty, wherever the chunks end.
  pub on_chunks-frames :
      (cs ts : List String) (summary : Option S)
      → concat cs ≡ frames ts
      → AreLines ts
      → on_chunks parse_json cs ([], summary) ≡ ([], receive ts summary)
  unfolding on_chunk
  on_chunks-frames cs ts summary e h =
      rw (on_chunks-concat parse_json cs summary, e, nil-append (frames ts))
        (rw ((on_events-frames ts summary h).0, (on_events-frames ts summary h).1) refl)
