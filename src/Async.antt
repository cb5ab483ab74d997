-- ===== src/Async.antt =====
-- `useAsync` of frontend/src/ui.tsx: every run of its effect has a flag of its own, and the result
-- of a run whose flag is set is dropped.
mod Tests
pub mod Stale
use procovar_notify.Prelude.{
  ℕ, suc, Bool, true, false, Option, none, some, List, [], ◌∷◌, length, eqb, if◌then◌else◌,
}

-- `runs` holds the flags `ignore` of the runs, newest first.
pub record Async (T E : Type 0) : Type 0 where
  pub data_ : Option T
  pub error : Option E
  pub loading : Bool
  pub tick : ℕ
  pub runs : List Bool

pub data Event (T E : Type 0) : Type 0 where
  changes : Event T E
  reloads : Event T E
  unmounts : Event T E
  resolves : ℕ → T → Event T E
  rejects : ℕ → E → Event T E

-- The cleanup of the last run of the effect.
unfoldable pub retire : List Bool → List Bool
retire [] = []
retire (b ∷ bs) = true ∷ bs

-- The flag of a run; runs are numbered from 0.
unfoldable pub ignores : ℕ → List Bool → Bool
ignores i [] = true
ignores i (b ∷ bs) = if eqb i (length bs) then b else ignores i bs

module _ {T E : Type 0} where
  -- The effect, after the cleanup of its last run.
  unfoldable pub run_effect : Async T E → Async T E
  unfolding retire
  run_effect s = record s { loading = true; runs = false ∷ retire s.runs }

  -- The first rendering and its effect.
  unfoldable pub mounted : Async T E
  unfolding run_effect
  mounted = run_effect (record { data_ = none; error = none; loading = true; tick = 0; runs = [] })

  unfoldable pub resolved : ℕ → T → Async T E → Async T E
  unfolding ignores
  resolved i d s =
      if ignores i s.runs then s else record s { data_ = some d; error = none; loading = false }

  unfoldable pub rejected : ℕ → E → Async T E → Async T E
  unfolding ignores
  rejected i e s = if ignores i s.runs then s else record s { error = some e; loading = false }

  -- A change of the dependencies, `reload`, the unmounting, and the end of a run's promise.
  unfoldable pub handle : Event T E → Async T E → Async T E
  unfolding run_effect resolved rejected retire
  handle changes s = run_effect s
  handle reloads s = run_effect (record s { tick = suc s.tick })
  handle unmounts s = record s { runs = retire s.runs }
  handle (resolves i d) s = resolved i d s
  handle (rejects i e) s = rejected i e s

  unfoldable pub handles : List (Event T E) → Async T E → Async T E
  unfolding handle
  handles [] s = s
  handles (e ∷ es) s = handles es (handle e s)
