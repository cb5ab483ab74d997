-- ===== src/Prelude/Unique.antt =====
-- A test for lists of texts without repeats.
use Prim.Native.String.{String}
use mathlib.Core.Path.{◌≡◌, sym}
use mathlib.Core.Logic.Or
use mathlib.Core.HLevel.{⊥_prop}
use mathlib.Core.Bool.{Bool, true, false, not, ◌&&◌, ◌||◌}
use mathlib.Core.List.{List, [], ◌∷◌, Mem, Nodup, Nodup-cons, Nodup-nil, mem-cons, not-mem-nil}
use native.Mathlib.Omega.{arith}
use text.Mathlib.Text.{◌==◌}
use text.Mathlib.TextEquality.{eq_iff}

abbrev has : String → List String → Bool
has x [] = false
has x (y ∷ ys) = y == x || has x ys

abbrev pub unique : List String → Bool
unique [] = true
unique (x ∷ xs) = not (has x xs) && unique xs

has_none : (x : String) (xs : List String) → has x xs ≡ false → ¬ Mem x xs
has_none x [] e m = not-mem-nil m
has_none x (y ∷ ys) e m =
    Or.elim ⊥_prop (mem-cons.0 m) (λ p. ground (arith, e, (eq_iff y x).1 (sym p)))
      (has_none x ys (ground (arith, e)))

pub unique-Nodup : (xs : List String) → unique xs ≡ true → Nodup xs
unique-Nodup [] e = Nodup-nil
unique-Nodup (x ∷ xs) e =
    Nodup-cons.1 (has_none x xs (ground (arith, e)), unique-Nodup xs (ground (arith, e)))
