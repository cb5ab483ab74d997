-- ===== src/Builder/Drawn.antt =====
-- Lists of ids next to those that later calls of `uid()` return (EmailBuilder.tsx draws the ids of
-- its rows, columns and blocks from there).
use procovar_notify.Prelude.{
  String, ℕ, zero, suc, ◌+◌, ◌≤◌, ◌≡◌, refl, ap, List, [], ◌∷◌, ◌++◌, arith,
}
use mathlib.Core.List.{Perm, perm_middle, Sublist, Mem, mem-cons, Nodup, Nodup-cons}
use mathlib.Core.List.Perm
use mathlib.Core.List.Sublist
use mathlib.Core.List.Nodup
use native.Mathlib.Nat.{zero-add, add-zero}
use mathlib.Core.Logic.Or
use mathlib.Core.HLevel.{⊥_prop}

module _ (uid : ℕ → String) where
  -- The ids of `k` calls from the n-th one on.
  abbrev pub drawn : ℕ → ℕ → List String
  drawn n zero = []
  drawn n (suc k) = uid n ∷ drawn (suc n) k

  pub drawn-add : (n j k : ℕ) → drawn n (j + k) ≡ drawn n j ++ drawn (n + j) k
  drawn-add n zero k = rw (zero-add, add-zero) refl
  drawn-add n (suc j) k =
      let total : suc j + k ≡ suc (j + k) = omega arith in
      let start : suc n + j ≡ n + suc j = omega arith in
      rw (total, ← start) (ap (λ l. uid n ∷ l) (drawn-add (suc n) j k))

  -- The ids are distinct, and none is drawn from the n-th call on.
  abbrev pub Unused : ℕ → List String → Type 0
  Unused n ids = Nodup ids × ((k : ℕ) → n ≤ k → ¬ Mem (uid k) ids)

  pub Unused-le : (n m : ℕ) (ids : List String) → n ≤ m → Unused n ids → Unused m ids
  Unused-le n m ids h (d, fresh) = (d, λ k q. fresh k (omega arith))

  pub Unused-perm : (n : ℕ) (xs ys : List String) → Perm xs ys → Unused n ys → Unused n xs
  Unused-perm n xs ys p (d, fresh) =
      (Perm.nodup (Perm.symm p) d, λ k h i. fresh k h ((Perm.mem_iff p).0 i))

  pub Unused-sublist : (n : ℕ) (xs ys : List String) → Sublist xs ys → Unused n ys → Unused n xs
  Unused-sublist n xs ys s (d, fresh) =
      (Nodup.sublist s d, λ k h i. fresh k h (Sublist.subset s (uid k) i))

  module _ (apart : (i j : ℕ) → uid i ≡ uid j → i ≡ j) where
    pub Unused-cons : (n : ℕ) (ids : List String) → Unused n ids → Unused (suc n) (uid n ∷ ids)
    Unused-cons n ids (d, fresh) = (
      Nodup-cons.1 (fresh n (omega arith), d),
      λ k h i.
          Or.elim ⊥_prop (mem-cons.0 i) (λ e. omega (arith, h, apart k n e))
            (fresh k (omega (arith, h))),
    )

    pub Unused-drawn :
        (n j : ℕ) (ids : List String) → Unused n ids → Unused (n + j) (drawn n j ++ ids)
    Unused-drawn n zero ids u = Unused-le n (n + 0) ids (omega arith) u
    Unused-drawn n (suc j) ids u =
        Unused-le (suc n + j) (n + suc j) (drawn n (suc j) ++ ids) (omega arith) (
          Unused-perm (suc n + j) _ _ (Perm.symm (perm_middle (drawn (suc n) j) ids))
            (Unused-drawn (suc n) j (uid n ∷ ids) (Unused-cons n ids u)))
