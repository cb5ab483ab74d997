-- ===== src/Prelude/Splice.antt =====
-- The two uses of `Array.prototype.splice` in the source, at an index that is not negative:
-- removing one element and inserting one.
use Prim.Native.Nat.{ℕ, zero, suc, ◌+◌, ◌≤◌, ◌<◌}
use mathlib.Core.Path.{◌≡◌, refl}
use mathlib.Core.Option.{some}
use mathlib.Core.List.{List, [], ◌∷◌, Perm}
use mathlib.Core.List.Perm
use native.Mathlib.Omega.{arith}
use procovar_notify.Prelude.Lists.{length, get_elem?}

module _ {ℓ} {A : Type ℓ} where
  -- `xs.splice(i, 1)`: out of range nothing is removed.
  abbrev pub splice_out : ℕ → List A → List A
  splice_out i [] = []
  splice_out zero (x ∷ xs) = xs
  splice_out (suc i) (x ∷ xs) = x ∷ splice_out i xs

  -- `xs.splice(i, 0, y)`: past the end it appends.
  abbrev pub splice_in : ℕ → A → List A → List A
  splice_in zero y xs = y ∷ xs
  splice_in (suc i) y [] = y ∷ []
  splice_in (suc i) y (x ∷ xs) = x ∷ splice_in i y xs

  pub splice_in-perm : (i : ℕ) (y : A) (xs : List A) → Perm (splice_in i y xs) (y ∷ xs)
  splice_in-perm zero y xs = Perm.refl _
  splice_in-perm (suc i) y [] = Perm.refl _
  splice_in-perm (suc i) y (x ∷ xs) =
      Perm.trans (Perm.cons x (splice_in-perm i y xs)) (Perm.swap y x xs)

  pub splice_out-perm :
      (i : ℕ) (y : A) (xs : List A) → get_elem? xs i ≡ some y → Perm xs (y ∷ splice_out i xs)
  splice_out-perm zero y [] h = ground arith
  splice_out-perm (suc i) y [] h = ground arith
  splice_out-perm zero y (x ∷ xs) h = let e : x ≡ y = cc in rw e (Perm.refl _)
  splice_out-perm (suc i) y (x ∷ xs) h =
      Perm.trans (Perm.cons x (splice_out-perm i y xs h)) (Perm.swap y x (splice_out i xs))

  pub get_elem?-splice_in :
      (i : ℕ) (y : A) (xs : List A) → i ≤ length xs → get_elem? (splice_in i y xs) i ≡ some y
  get_elem?-splice_in zero y xs h = refl
  get_elem?-splice_in (suc i) y [] h = absurd (omega arith)
  get_elem?-splice_in (suc i) y (x ∷ xs) h = get_elem?-splice_in i y xs (omega arith)

  pub length-splice_out :
      (i : ℕ) (xs : List A) → i < length xs → length (splice_out i xs) + 1 ≡ length xs
  length-splice_out i [] h = absurd (omega arith)
  length-splice_out zero (x ∷ xs) h = omega arith
  length-splice_out (suc i) (x ∷ xs) h = omega (arith, length-splice_out i xs (omega arith))
