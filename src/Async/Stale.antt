-- ===== src/Async/Stale.antt =====
-- A response that comes late never replaces a newer one.
use procovar_notify.Prelude.{
  ℕ, suc, ◌≡◌, refl, ◌≢◌, Bool, true, inl, inr, List, [], ◌∷◌, length, eqb_ne, Bool-cases, arith,
}
use procovar_notify.Async.{
  Async, Event, changes, reloads, unmounts, resolves, rejects, retire, ignores, run_effect, mounted,
  resolved, rejected, handle, handles,
}

-- Every run is to be ignored.
abbrev pub AreRetired : List Bool → Type 0
AreRetired [] = Unit
AreRetired (b ∷ bs) = (b ≡ true) × AreRetired bs

-- Every run but the newest is to be ignored.
abbrev pub IsCurrent : List Bool → Type 0
IsCurrent [] = Unit
IsCurrent (b ∷ bs) = AreRetired bs

pub AreRetired-retire : (bs : List Bool) → IsCurrent bs → AreRetired (retire bs)
unfolding retire
AreRetired-retire [] h = tt
AreRetired-retire (b ∷ bs) h = (refl, h)

pub IsCurrent-retired : (bs : List Bool) → AreRetired bs → IsCurrent bs
IsCurrent-retired [] h = tt
IsCurrent-retired (b ∷ bs) (p, h) = h

ignores-retired : (i : ℕ) (bs : List Bool) → AreRetired bs → ignores i bs ≡ true
unfolding ignores
ignores-retired i [] h = refl
ignores-retired i (b ∷ bs) (p, h) = ground (arith, p, ignores-retired i bs h)

pub ignores-old : (i : ℕ) (bs : List Bool) → IsCurrent bs → suc i ≢ length bs → ignores i bs ≡ true
unfolding ignores
ignores-old i [] h n = refl
ignores-old i (b ∷ bs) h n =
    rw (eqb_ne i (length bs) (λ e. n (omega (arith, e)))) (ignores-retired i bs h)

module _ {T E : Type 0} where
  IsCurrent-handle :
      (e : Event T E) (s : Async T E) → IsCurrent s.runs → IsCurrent (handle e s).runs
  unfolding handle run_effect resolved rejected
  IsCurrent-handle changes s h = AreRetired-retire s.runs h
  IsCurrent-handle reloads s h = AreRetired-retire s.runs h
  IsCurrent-handle unmounts s h = IsCurrent-retired _ (AreRetired-retire s.runs h)
  IsCurrent-handle (resolves i d) s h = elim (Bool-cases (ignores i s.runs)) [
    | inl b ↦ rw b h
    | inr b ↦ rw b h
  ]
  IsCurrent-handle (rejects i e) s h = elim (Bool-cases (ignores i s.runs)) [
    | inl b ↦ rw b h
    | inr b ↦ rw b h
  ]

  IsCurrent-handles :
      (es : List (Event T E)) (s : Async T E) → IsCurrent s.runs → IsCurrent (handles es s).runs
  unfolding handles
  IsCurrent-handles [] s h = h
  IsCurrent-handles (e ∷ es) s h = IsCurrent-handles es (handle e s) (IsCurrent-handle e s h)

  mounted-IsCurrent : (es : List (Event T E)) → IsCurrent (handles es mounted).runs
  unfolding mounted run_effect retire
  mounted-IsCurrent es = IsCurrent-handles es mounted tt

  -- After any sequence of changes, reloads and responses, the end of a run that is not the newest
  -- changes nothing, be it a success or an error.
  pub handle_stale :
      (es : List (Event T E)) (i : ℕ) (d : T) (e : E)
      → suc i ≢ length (handles es mounted).runs
      → (handle (resolves i d) (handles es mounted) ≡ handles es mounted)
        × (handle (rejects i e) (handles es mounted) ≡ handles es mounted)
  unfolding handle resolved rejected
  handle_stale es i d e n = rw (ignores-old i _ (mounted-IsCurrent es) n) (refl, refl)

  -- After the unmounting, the end of any run changes nothing.
  pub handle_unmounted :
      (es : List (Event T E)) (i : ℕ) (d : T) (e : E)
      → (handle (resolves i d) (handle unmounts (handles es mounted))
          ≡ handle unmounts (handles es mounted))
        × (handle (rejects i e) (handle unmounts (handles es mounted))
            ≡ handle unmounts (handles es mounted))
  unfolding handle resolved rejected
  handle_unmounted es i d e =
      rw (ignores-retired i _ (AreRetired-retire _ (mounted-IsCurrent es))) (refl, refl)
