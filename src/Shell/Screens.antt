-- ===== src/Shell/Screens.antt =====
-- `usePantallaChica` of frontend/src/hooks/use-pantalla-chica.ts: whether the window is narrow. A width
-- is a whole number of pixels.
use procovar_notify.Prelude.{
  ℕ, ◌-◌, ◌≡◌, refl, Bool, true, false, List, [], ◌∷◌, leb, if◌then◌else◌,
}

abbrev corte_ancho : ℕ
corte_ancho = 1024

-- The media query `(max-width: ${CORTE_ANCHO - 1}px)`
unfoldable matches : ℕ → Bool
matches width = leb width (corte_ancho - 1)

-- `width` is that of the window, `chica` the state, `false` before the effect has run.
record Screen : Type 0 where
  width : ℕ
  chica : Bool

unfoldable mounted : ℕ → Screen
unfolding matches
mounted width = record { width = width; chica = matches width }

-- The event `change` comes only when a new width changes what the query says.
abbrev is_change : Bool → Bool → Bool
is_change true now = if now then false else true
is_change false now = now

unfoldable on_resize : ℕ → Screen → Screen
unfolding matches
on_resize width s = record {
  width = width;
  chica = if is_change (matches s.width) (matches width) then matches width else s.chica;
}

unfoldable on_resizes : List ℕ → Screen → Screen
unfolding on_resize
on_resizes [] s = s
on_resizes (w ∷ ws) s = on_resizes ws (on_resize w s)

abbrev IsCurrent : Screen → Type 0
IsCurrent s = s.chica ≡ matches s.width

changed_lem :
    (old now chica : Bool) → chica ≡ old → (if is_change old now then now else chica) ≡ now
changed_lem true true chica h = h
changed_lem true false chica h = refl
changed_lem false true chica h = refl
changed_lem false false chica h = h

-- Though only the crossings are heard, the state is right after any sequence of new widths.
on_resizes-IsCurrent : (ws : List ℕ) (s : Screen) → IsCurrent s → IsCurrent (on_resizes ws s)
unfolding on_resizes on_resize
on_resizes-IsCurrent [] s h = h
on_resizes-IsCurrent (w ∷ ws) s h =
    on_resizes-IsCurrent ws (on_resize w s) (changed_lem (matches s.width) (matches w) s.chica h)
