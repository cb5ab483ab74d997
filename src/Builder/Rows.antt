-- ===== src/Builder/Rows.antt =====
-- What `removeRow` of EmailBuilder.tsx leaves: the ids of the other rows, of their columns and blocks.
use procovar_notify.Prelude.{◌≡◌, refl, Bool, inl, inr, List, [], ◌∷◌, ◌++◌, map, keep, Bool-cases}
use mathlib.Core.List.{Sublist, nil-sublist, map-append}
use mathlib.Core.List.Sublist
use mathlib.Core.List.Nodup
use procovar_notify.Structure.{Section, Row, row_blocks, rows_blocks}
use procovar_notify.Builder.Ids.{IsDistinct, row_ids, col_ids, block_ids}

module _ {ℓ κ} {A : Type ℓ} {B : Type κ} where
  -- What a list is made of element by element shrinks with the list.
  pub sublist-keep :
      (part : A → List B) (whole : List A → List B)
      → ((x : A) (xs : List A) → whole (x ∷ xs) ≡ part x ++ whole xs)
      → (p : A → Bool) (xs : List A) → Sublist (whole (keep p xs)) (whole xs)
  sublist-keep part whole step p [] = Sublist.refl (whole [])
  sublist-keep part whole step p (x ∷ xs) =
      let hyp = sublist-keep part whole step p xs in
      elim (Bool-cases (p x)) [
        | inl e ↦ rw (e, step x xs, step x (keep p xs)) (Sublist.append (Sublist.refl (part x)) hyp)
        | inr e ↦ rw (e, step x xs) (Sublist.append (nil-sublist (part x)) hyp)
      ]

pub sublist-block_ids :
    (p : Row → Bool) (rows : List Row) → Sublist (block_ids (keep p rows)) (block_ids rows)
sublist-block_ids =
    sublist-keep (λ r. map (λ (b : Section). b.id) (row_blocks r)) block_ids
      (λ r rs. map-append _ (row_blocks r) (rows_blocks rs))

pub keep-IsDistinct :
    (p : Row → Bool) (rows : List Row) → IsDistinct rows → IsDistinct (keep p rows)
keep-IsDistinct p rows d = record {
  by_row = Nodup.sublist (sublist-keep (λ r. r.id ∷ []) row_ids (λ r rs. refl) p rows) d.by_row;
  by_column = Nodup.sublist (sublist-keep _ col_ids (λ r rs. refl) p rows) d.by_column;
  by_block = Nodup.sublist (sublist-block_ids p rows) d.by_block;
}
