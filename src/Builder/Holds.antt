-- ===== src/Builder/Holds.antt =====
-- Whether a block with an id stands in the email: `findBlock` of EmailBuilder.tsx finds one exactly
-- then, and the order of the blocks does not matter.
use procovar_notify.Prelude.{
  String, ◌≡◌, refl, sym, ap, ap₂, ◌∙◌, inl, inr, Bool, true, false, ◌||◌, Option, none, some, List,
  [], ◌∷◌, ◌++◌, ◌==◌, ◌≢◌, eq_of_ne, map, any, Bool-cases, Option-cases, arith,
}
use mathlib.Core.Logic.{∥∥₁_elim}
use mathlib.Core.Bool.{Bool-set}
use mathlib.Core.List.{Mem, Perm, Permᴰ, mem-cons}
use mathlib.Core.Logic.Or
use procovar_notify.Structure.{Section, Column, Row, row_blocks, rows_blocks}
use procovar_notify.Builder.Locate.{find_block, find_in_columns, index_of}
use procovar_notify.Builder.Edit.{has_block_id}

any-append {ℓ} :
    {A : Type ℓ} (p : A → Bool) (xs ys : List A) → any p (xs ++ ys) ≡ (any p xs || any p ys)
any-append p [] ys = refl
any-append p (x ∷ xs) ys = ground (arith, any-append p xs ys)

abbrev pub is_some {ℓ} : {A : Type ℓ} → Option A → Bool
is_some none = false
is_some (some x) = true

any-index_of :
    (id : String) (bs : List Section) → any (has_block_id id) bs ≡ is_some (index_of id bs)
unfolding index_of
any-index_of id [] = refl
any-index_of id (b ∷ bs) = elim (Bool-cases (b.id == id)) [
  | inl hit ↦ rw hit refl
  | inr miss ↦ elim (Option-cases (index_of id bs)) [
    | inl gone ↦ rw (miss, gone) (any-index_of id bs ∙ ap is_some gone)
    | inr (f, found) ↦ rw (miss, found) (any-index_of id bs ∙ ap is_some found)
  ]
]

any-find_in_columns :
    (id row_id : String) (cs : List Column)
    → any (has_block_id id) (row_blocks (record { id = row_id; columns = cs }))
      ≡ is_some (find_in_columns id row_id cs)
unfolding find_in_columns
any-find_in_columns id row_id [] = refl
any-find_in_columns id row_id (c ∷ cs) =
    any-append (has_block_id id) c.blocks _ ∙ elim (Option-cases (index_of id c.blocks)) [
      | inl gone ↦
          ap₂ (λ a b. a || b) (any-index_of id c.blocks ∙ ap is_some gone)
            (any-find_in_columns id row_id cs)
          ∙ rw (gone, find_in_columns) refl
      | inr (f, found) ↦
          ap (λ a. a || any (has_block_id id) (row_blocks (record { id = row_id; columns = cs })))
            (any-index_of id c.blocks ∙ ap is_some found)
          ∙ rw (found, find_in_columns) refl
    ]

pub any-find_block :
    (id : String) (rows : List Row)
    → any (has_block_id id) (rows_blocks rows) ≡ is_some (find_block id rows)
unfolding find_block
any-find_block id [] = refl
any-find_block id (r ∷ rs) =
    any-append (has_block_id id) (row_blocks r) _
    ∙ elim (Option-cases (find_in_columns id r.id r.columns)) [
      | inl gone ↦
          ap₂ (λ a b. a || b) (any-find_in_columns id r.id r.columns ∙ ap is_some gone)
            (any-find_block id rs)
          ∙ rw (gone, find_block) refl
      | inr (p, found) ↦
          ap (λ a. a || any (has_block_id id) (rows_blocks rs))
            (any-find_in_columns id r.id r.columns ∙ ap is_some found)
          ∙ rw (found, find_block) refl
    ]

any-permᴰ {ℓ} : {A : Type ℓ} (p : A → Bool) {xs ys : List A} → Permᴰ xs ys → any p xs ≡ any p ys
any-permᴰ p Permᴰ.nil = refl
any-permᴰ p (Permᴰ.cons {a} {l₁} e d) = rw (← e) (ap (λ b. p a || b) (any-permᴰ p d))
any-permᴰ p (Permᴰ.swap {a} {b} {l} e f) = rw (← e, ← f) (ground arith)
any-permᴰ p (Permᴰ.trans d e) = any-permᴰ p d ∙ any-permᴰ p e

pub any-perm {ℓ} : {A : Type ℓ} (p : A → Bool) {xs ys : List A} → Perm xs ys → any p xs ≡ any p ys
any-perm p h = ∥∥₁_elim h (Bool-set _ _) (any-permᴰ p)

pub any_absent :
    (id : String) (bs : List Section)
    → ¬ Mem id (map (λ (b : Section). b.id) bs)
    → any (has_block_id id) bs ≡ false
any_absent id [] h = refl
any_absent id (b ∷ bs) h =
    let other : b.id ≢ id = λ e. h (mem-cons.1 (Or.inl (sym e))) in
    rw (eq_of_ne b.id id other) (any_absent id bs (λ m. h (mem-cons.1 (Or.inr m))))
