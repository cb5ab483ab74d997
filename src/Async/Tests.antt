-- ===== src/Async/Tests.antt =====
-- The theorems on `useAsync` at a page change during a request.
use procovar_notify.Prelude.{String, ℕ, suc, ◌≡◌, ◌≢◌, List, [], ◌∷◌, length, arith}
use procovar_notify.Async.{Event, changes, resolves, rejects, mounted, handle, handles}
use procovar_notify.Async.Stale.{handle_stale}

abbrev page_change : List (Event ℕ String)
page_change = changes ∷ resolves 1 20 ∷ []

two_runs : suc 0 ≢ length (handles page_change mounted).runs
unfolding handles mounted
two_runs e = omega (arith, e)

handle_stale_example :
    (handle (resolves 0 10) (handles page_change mounted) ≡ handles page_change mounted)
    × (handle (rejects 0 "late") (handles page_change mounted) ≡ handles page_change mounted)
handle_stale_example = handle_stale page_change 0 10 "late" two_runs
