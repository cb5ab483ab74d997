-- ===== src/Builder/Canvas/Layouts.antt =====
-- A layout that is chosen is the one that the canvas marks, and its shares add up.
use procovar_notify.Prelude.{
  String, ℕ, ◌+◌, ◌≤◌, ◌≡◌, refl, sym, ap, true, List, [], ◌∷◌, arith, ◌==◌, All, returned,
}
use procovar_notify.Structure.{Column, Row}
use procovar_notify.Builder.Palette.{Layout}
use procovar_notify.Builder.State.{State, rows_of}
use procovar_notify.Builder.Edit.{set_row_layout}
use procovar_notify.Builder.Layout.{column_widths, set_row_layout-blocks}
use procovar_notify.Builder.Canvas.{weight, total, weights_are, is_active_layout}

abbrev pub sum : List ℕ → ℕ
sum [] = 0
sum (n ∷ ns) = n + sum ns

abbrev pub ArePositive : List ℕ → Type 0
ArePositive ws = All (λ w. 1 ≤ w) ws

weight-positive : (c : Column) → 1 ≤ c.width → weight c ≡ c.width
unfolding weight
weight-positive c h = ground (arith, h)

-- Columns of positive widths have these as their weights.
weights_lem :
    (cs : List Column)
    → ArePositive (column_widths cs)
    → (weights_are cs (column_widths cs) ≡ true) × (total cs ≡ sum (column_widths cs))
unfolding total
weights_lem [] h = (refl, refl)
weights_lem (c ∷ cs) (p, h) =
    let (same, adds) = weights_lem cs h in
    rw (weight-positive c p) (ground (arith, same), ap (λ n. c.width + n) adds)

matches :
    (cs : List Column) (ws : List ℕ)
    → column_widths cs ≡ ws
    → ArePositive ws
    → (weights_are cs ws ≡ true) × (total cs ≡ sum ws)
matches cs ws e h = rw (sym e) (weights_lem cs (rw (sym e) at h))

abbrev pub IsShown : String → Layout → Row → Type 0
IsShown row_id l r =
    (r.id == row_id) ≡ true → (is_active_layout r l ≡ true) × (total r.columns ≡ sum l.widths)

shown :
    (row_id : String) (l : Layout)
    → ArePositive l.widths
    → (rows : List Row)
    → All (λ (r : Row). (r.id == row_id) ≡ true → column_widths r.columns ≡ l.widths) rows
    → All (IsShown row_id l) rows
unfolding is_active_layout
shown row_id l h [] g = tt
shown row_id l h (r ∷ rs) (q, g) =
    ((λ e. matches r.columns l.widths (q e) h), shown row_id l h rs g)

module _ (uid : ℕ → String) where
  -- A layout of positive widths that is chosen for a row is the one that the menu of the row marks
  -- afterwards, and the weights of its columns add up to those of the layout.
  pub set_row_layout-active :
      (key label row_id : String) (w : ℕ) (ws : List ℕ) (s : State)
      → ArePositive (w ∷ ws)
      → (s' : State) × (set_row_layout uid row_id (w ∷ ws) s ≡ returned s')
        × All (IsShown row_id (record { key = key; label = label; widths = w ∷ ws })) (rows_of s')
  set_row_layout-active key label row_id w ws s h =
      let (s', e, done) = set_row_layout-blocks uid row_id w ws s in
      (s', e, shown row_id _ h (rows_of s') done.2)
