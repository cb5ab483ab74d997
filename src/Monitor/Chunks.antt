-- ===== src/Monitor/Chunks.antt =====
-- How the server's text is cut into chunks does not matter to the monitor.
use Prim.Native.String
use Prim.Native.String.{[], ◌∷◌}
use text.Mathlib.TextLemmas.{append-nil, append_assoc}
use procovar_notify.Prelude.{String, ◌≡◌, refl, sym, Option, List, [], ◌∷◌, ◌++◌}
use procovar_notify.Monitor.Stream.{take_events, on_events, on_event, on_chunk, on_chunks}
use procovar_notify.Monitor.Draining.{take_events-append}

abbrev pub concat : List String → String
concat [] = ""
concat (c ∷ cs) = String.◌++◌ c (concat cs)

module _ {S : Type 0} (parse_json : String → Option (Option S)) where
  on_events-append :
      (summary : Option S) (xs ys : List String)
      → on_events parse_json summary (xs ++ ys)
        ≡ on_events parse_json (on_events parse_json summary xs) ys
  unfolding on_events
  on_events-append summary [] ys = refl
  on_events-append summary (x ∷ xs) ys = on_events-append (on_event parse_json summary x) xs ys

  on_chunk-append :
      (c d : String) (s : String × Option S)
      → on_chunk parse_json d (on_chunk parse_json c s) ≡ on_chunk parse_json (String.◌++◌ c d) s
  unfolding on_chunk
  on_chunk-append c d (buf, summary) =
      rw (sym (append_assoc buf c d), take_events-append (String.◌++◌ buf c) d)
        (rw
          (on_events-append summary (take_events (String.◌++◌ buf c)).0
            (take_events (String.◌++◌ (take_events (String.◌++◌ buf c)).1 d)).0)
          refl)

  joined :
      (c : String) (cs : List String) (s : String × Option S)
      → on_chunks parse_json cs (on_chunk parse_json c s)
        ≡ on_chunk parse_json (String.◌++◌ c (concat cs)) s
  unfolding on_chunks
  joined c [] s = rw (append-nil c) refl
  joined c (d ∷ ds) s =
      rw (on_chunk-append c d s, sym (append_assoc c d (concat ds))) (joined (String.◌++◌ c d) ds s)

  -- However the text of a connection is cut into chunks, the buffer and the summary are those after one
  -- chunk with the whole text.
  pub on_chunks-concat :
      (cs : List String) (summary : Option S)
      → on_chunks parse_json cs ("", summary) ≡ on_chunk parse_json (concat cs) ("", summary)
  unfolding on_chunks
  on_chunks-concat [] summary = refl
  on_chunks-concat (c ∷ cs) summary = joined c cs ("", summary)
