-- ===== src/Prelude/Perms.antt =====
-- Permutations under `flat_map` and under a change of one element, and lists of distinct keys.
use Prim.Native.String.{String}
use Prim.Native.Nat.{ℕ}
use mathlib.Core.Path.{◌≡◌, refl, sym, ap}
use mathlib.Core.Logic.{◌≢◌, ◌⊎◌, inl, inr, ∥∥₁_elim}
use mathlib.Core.Bool.{Bool}
use mathlib.Core.Option.{some-injective, some}
use mathlib.Core.List.{
  List, [], ◌∷◌, ◌++◌, map, append_assoc, Perm, Permᴰ, Perm-prop, perm_append_comm, Mem, mem-cons,
  Nodup, Nodup-cons, not-mem-nil,
}
use mathlib.Core.List.Perm
use mathlib.Core.Logic.Or
use mathlib.Core.HLevel.{×_prop}
use native.Mathlib.Omega.{arith}
use text.Mathlib.Text.{◌==◌}
use text.Mathlib.TextEquality.{eq_iff}
use procovar_notify.Prelude.Tests.{Bool-cases, eq_of_ne}
use procovar_notify.Prelude.Lists.{All, thread_where, flat_map, find, update_first, update_where}

module _ {ℓ} {A : Type ℓ} where
  pub perm_left_comm : (xs ys zs : List A) → Perm (xs ++ (ys ++ zs)) (ys ++ (xs ++ zs))
  perm_left_comm xs ys zs =
      rw (← append_assoc xs ys zs, ← append_assoc ys xs zs)
        (Perm.append_right zs (perm_append_comm xs ys))

  pub perm_of_eq : {xs ys : List A} → xs ≡ ys → Perm xs ys
  perm_of_eq {xs} e = rw (← e) (Perm.refl xs)

module _ {ℓ κ} {A : Type ℓ} {B : Type κ} (v : A → List B) where
  flat_map-permᴰ : {xs ys : List A} → Permᴰ xs ys → Perm (flat_map v xs) (flat_map v ys)
  flat_map-permᴰ Permᴰ.nil = Perm.refl _
  flat_map-permᴰ (Permᴰ.cons {a} {l₁} e d) = rw (← e) (Perm.append_left (v a) (flat_map-permᴰ d))
  flat_map-permᴰ (Permᴰ.swap {a} {b} {l} p q) =
      rw (← p, ← q) (perm_left_comm (v a) (v b) (flat_map v l))
  flat_map-permᴰ (Permᴰ.trans d e) = Perm.trans (flat_map-permᴰ d) (flat_map-permᴰ e)

  pub flat_map-perm : {xs ys : List A} → Perm xs ys → Perm (flat_map v xs) (flat_map v ys)
  flat_map-perm h = ∥∥₁_elim h Perm-prop flat_map-permᴰ

  -- The change of one element, seen through `v` next to more elements on either side.
  pub update_first-perm :
      (p : A → Bool) (f : A → A) (more more' : List B) (xs : List A) (y : A)
      → find p xs ≡ some y
      → Perm (more ++ v (f y)) (more' ++ v y)
      → Perm (more ++ flat_map v (update_first p f xs)) (more' ++ flat_map v xs)
  update_first-perm p f more more' [] y e h = cc
  update_first-perm p f more more' (x ∷ xs) y e h = elim (Bool-cases (p x)) [
    | inl hit ↦
        let same : x ≡ y = ground arith in
        rw (hit, same, ← append_assoc more (v (f y)) (flat_map v xs))
          (rw (← append_assoc more' (v y) (flat_map v xs)) (Perm.append_right (flat_map v xs) h))
    | inr miss ↦ rw miss (
        Perm.trans (perm_left_comm more (v x) _) (
          Perm.trans
            (Perm.append_left (v x) (update_first-perm p f more more' xs y (ground arith) h))
            (perm_left_comm (v x) more' _)))
  ]

module _ {ℓ} {A : Type ℓ} where
  -- A test that a change respects finds the same element, changed or not.
  pub find-update_first :
      (p q : A → Bool) (f : A → A)
      → ((x : A) → p (f x) ≡ p x)
      → (xs : List A) (y : A) → find p xs ≡ some y
      → (z : A) × (find p (update_first q f xs) ≡ some z) × ((z ≡ y) ⊎ (z ≡ f y))
  find-update_first p q f keeps [] y e = cc
  find-update_first p q f keeps (x ∷ xs) y e = elim (Bool-cases (q x)) [
    | inl hit ↦ elim (Bool-cases (p x)) [
      | inl found ↦ (f x, rw (hit, keeps x, found) refl, inr (ap f (ground arith)))
      | inr other ↦ (y, rw (hit, keeps x, other) (ground arith), inl refl)
    ]
    | inr miss ↦ elim (Bool-cases (p x)) [
      | inl found ↦ (x, rw (miss, found) refl, inl (ground arith))
      | inr other ↦
          let (z, e', same) = find-update_first p q f keeps xs y (ground arith) in
          (z, rw (miss, other) e', same)
    ]
  ]

  -- With distinct keys the change of every element with a key is the change of the first.
  module _ (key : A → String) (k : String) (f : A → A) where
    pub update_where_absent :
        (xs : List A) → ¬ Mem k (map key xs) → update_where (λ x. key x == k) f xs ≡ xs
    update_where_absent [] h = refl
    update_where_absent (x ∷ xs) h =
        let other : key x ≢ k = λ e. h (mem-cons.1 (Or.inl (sym e))) in
        rw (eq_of_ne (key x) k other, update_where_absent xs (λ m. h (mem-cons.1 (Or.inr m)))) refl

    pub update_where-eq-update_first :
        (xs : List A)
        → Nodup (map key xs)
        → update_where (λ x. key x == k) f xs ≡ update_first (λ x. key x == k) f xs
    update_where-eq-update_first [] d = refl
    update_where-eq-update_first (x ∷ xs) d = elim (Bool-cases (key x == k)) [
      | inl hit ↦
          let same : key x ≡ k = (eq_iff (key x) k).0 hit in
          rw (hit, update_where_absent xs (rw same at ((Nodup-cons.0 d).0))) refl
      | inr miss ↦ rw (miss, update_where-eq-update_first xs (Nodup-cons.0 d).1) refl
    ]

-- The same where the change draws ids: it draws them once.
module _ {ℓ} {A : Type ℓ} (key : A → String) (k : String) (g : ℕ → A → A × ℕ) where
  pub thread_where_absent :
      (n : ℕ) (xs : List A) → ¬ Mem k (map key xs) → thread_where (λ x. key x == k) g n xs ≡ (xs, n)
  thread_where_absent n [] h = refl
  thread_where_absent n (x ∷ xs) h =
      let other : key x ≢ k = λ e. h (mem-cons.1 (Or.inl (sym e))) in
      rw (eq_of_ne (key x) k other, thread_where_absent n xs (λ m. h (mem-cons.1 (Or.inr m)))) refl

  pub thread_where-once :
      (n : ℕ) (xs : List A) (y : A)
      → Nodup (map key xs)
      → find (λ x. key x == k) xs ≡ some y
      → thread_where (λ x. key x == k) g n xs
        ≡ (update_first (λ x. key x == k) (λ x. (g n x).0) xs, (g n y).1)
  thread_where-once n [] y d e = cc
  thread_where-once n (x ∷ xs) y d e = elim (Bool-cases (key x == k)) [
    | inl hit ↦
        let same : key x ≡ k = (eq_iff (key x) k).0 hit in
        let it : x ≡ y = some-injective _ _ (rw hit at e) in
        rw (hit, thread_where_absent (g n x).1 xs (rw same at ((Nodup-cons.0 d).0)), it) refl
    | inr miss ↦ rw (miss, thread_where-once n xs y (Nodup-cons.0 d).1 (rw miss at e)) refl
  ]

module _ {ℓ} {A : Type ℓ} (p : A → Bool) (f g : A → A) where
  pub update_first_congr :
      (xs : List A) → All (λ x. f x ≡ g x) xs → update_first p f xs ≡ update_first p g xs
  update_first_congr [] h = refl
  update_first_congr (x ∷ xs) (e, h) = elim (Bool-cases (p x)) [
    | inl hit ↦ rw (hit, e) refl
    | inr miss ↦ rw (miss, update_first_congr xs h) refl
  ]

module _ {ℓ κ} {A : Type ℓ} {P : A → Type κ} where
  All-Mem : (xs : List A) → ((x : A) → Mem x xs → P x) → All P xs
  All-Mem [] h = tt
  All-Mem (x ∷ xs) h =
      (h x (mem-cons.1 (Or.inl refl)), All-Mem xs (λ y m. h y (mem-cons.1 (Or.inr m))))

  module _ (prop : (x : A) → IsProp (P x)) where
    pub All-prop : (xs : List A) → IsProp (All P xs)
    All-prop [] = hlevel
    All-prop (x ∷ xs) = ×_prop (prop x) (All-prop xs)

    Mem-All : (xs : List A) (x : A) → All P xs → Mem x xs → P x
    Mem-All [] x h m = absurd (not-mem-nil m)
    Mem-All (y ∷ ys) x (q, h) m = Or.elim (prop x) (mem-cons.0 m) (λ e. rw e q) (Mem-All ys x h)

    -- What holds of every element holds in every order.
    pub All-perm : {xs ys : List A} → Perm xs ys → All P ys → All P xs
    All-perm {xs} {ys} p h = All-Mem xs (λ x m. Mem-All ys x h ((Perm.mem_iff p).0 m))
