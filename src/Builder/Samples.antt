-- ===== src/Builder/Samples.antt =====
-- Values for the tests: an `arrayMove`, and ids that are tallies.
use Prim.Native.String.{[], ◌∷◌}
use procovar_notify.Prelude.{
  String, ℕ, zero, suc, ◌≡◌, ap, ◌∙◌, sym, refl, Option, none, some, List, get_elem?, splice_in,
  splice_out, splice_in-perm, splice_out-perm,
}
use mathlib.Core.List.{Perm}
use mathlib.Core.List.Perm
use procovar_notify.Structure.{Row}
use procovar_notify.Structure.Variables.{size}
use procovar_notify.Builder.DragEnd.{IsArrayMove}

-- `arrayMove` by its two calls of `splice`.
abbrev moved_to : List Row → ℕ → Option Row → List Row → List Row
moved_to rest j none rows = rows
moved_to rest j (some r) rows = splice_in j r rest

abbrev pub array_move : List Row → ℕ → ℕ → List Row
array_move rows i j = moved_to (splice_out i rows) j (get_elem? rows i) rows

pub array_move-IsArrayMove : IsArrayMove array_move
array_move-IsArrayMove rows i j hi hj = go (get_elem? rows i) refl
  where
    go : (o : Option Row) → get_elem? rows i ≡ o → Perm (moved_to (splice_out i rows) j o rows) rows
    go none e = Perm.refl _
    go (some r) e =
        Perm.trans (splice_in-perm j r (splice_out i rows)) (Perm.symm (splice_out-perm i r rows e))

abbrev pub tally : ℕ → String
tally zero = []
tally (suc n) = ◌∷◌ "1" (tally n)

size-tally : (n : ℕ) → size (tally n) ≡ n
unfolding size
size-tally zero = refl
size-tally (suc n) = ap suc (size-tally n)

pub tally-apart : (i j : ℕ) → tally i ≡ tally j → i ≡ j
tally-apart i j e = sym (size-tally i) ∙ ap size e ∙ size-tally j
