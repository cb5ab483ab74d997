-- ===== src/Builder/Soundness.antt =====
-- The invariant of an email in EmailBuilder.tsx under its actions: all ids are distinct and none is
-- drawn later, every row has a column and every column a width.
use procovar_notify.Prelude.{String, ℕ, suc, ◌≤◌, ◌≡◌, ap, List, ◌∷◌, arith, flat_map-perm}
use mathlib.Core.List.{Perm}
use mathlib.Core.List.Perm
use mathlib.Core.List.Sublist
use procovar_notify.Structure.{Section, Row, row_blocks, rows_blocks}
use procovar_notify.Builder.State.{State, rows_of}
use procovar_notify.Builder.Ids.{IsDistinct, row_ids, column_ids, col_ids, block_ids}
use procovar_notify.Builder.Drawn.{Unused, Unused-le, Unused-perm, Unused-sublist, Unused-cons}
use procovar_notify.Builder.Shape.{shape, IsSolid, IsSolid-perm, row_ids-shape, col_ids-shape}

module _ (uid : ℕ → String) where
  -- The email when the next call of `uid()` is the n-th.
  pub record IsSoundAt (n : ℕ) (rows : List Row) : Type 0 where
    pub by_row : Unused uid n (row_ids rows)
    pub by_column : Unused uid n (col_ids rows)
    pub by_block : Unused uid n (block_ids rows)
    pub solid : IsSolid rows

  abbrev pub IsSound : State → Type 0
  IsSound s = IsSoundAt s.seed (rows_of s)

  pub IsSoundAt-IsDistinct : (n : ℕ) (rows : List Row) → IsSoundAt n rows → IsDistinct rows
  IsSoundAt-IsDistinct n rows h = record {
    by_row = h.by_row.0;
    by_column = h.by_column.0;
    by_block = h.by_block.0;
  }

  -- A change of blocks only.
  pub reshaped :
      (n m : ℕ) (before after : List Row)
      → n ≤ m
      → shape after ≡ shape before
      → Unused uid m (block_ids after)
      → IsSoundAt n before
      → IsSoundAt m after
  reshaped n m before after le same blocks h = record {
    by_row =
        rw (row_ids-shape after, same, ← row_ids-shape before) (Unused-le uid n m _ le h.by_row);
    by_column =
        rw (col_ids-shape after, same, ← col_ids-shape before) (Unused-le uid n m _ le h.by_column);
    by_block = blocks;
    solid = rw same h.solid;
  }

  -- The same blocks in another order.
  pub shuffled :
      (n : ℕ) (before after : List Row)
      → shape after ≡ shape before
      → Perm (block_ids after) (block_ids before)
      → IsSoundAt n before
      → IsSoundAt n after
  shuffled n before after same ids h =
      reshaped n n before after (omega arith) same (Unused-perm uid n _ _ ids h.by_block) h

  -- The same rows, later.
  pub kept :
      (n m : ℕ) (before after : List Row)
      → n ≤ m
      → after ≡ before
      → IsSoundAt n before
      → IsSoundAt m after
  kept n m before after le same h =
      reshaped n m before after le (ap shape same)
        (rw same (Unused-le uid n m (block_ids before) le h.by_block)) h

  -- One block more, with the next id.
  pub grown :
      ((i j : ℕ) → uid i ≡ uid j → i ≡ j)
      → (n m : ℕ) (b : Section) (before after : List Row) → suc n ≤ m
      → b.id ≡ uid n
      → shape after ≡ shape before
      → Perm (rows_blocks after) (b ∷ rows_blocks before)
      → IsSoundAt n before
      → IsSoundAt m after
  grown apart n m b before after le same_id same perm h =
      reshaped n m before after (omega arith) same
        (Unused-perm uid m _ _ (Perm.map (λ (b : Section). b.id) perm) (
          rw same_id
            (Unused-le uid (suc n) m _ le (Unused-cons uid apart n (block_ids before) h.by_block))))
        h

  -- One block less.
  pub shrunk :
      (n : ℕ) (b : Section) (before after : List Row)
      → shape after ≡ shape before
      → Perm (rows_blocks before) (b ∷ rows_blocks after)
      → IsSoundAt n before
      → IsSoundAt n after
  shrunk n b before after same perm h =
      reshaped n n before after (omega arith) same
        (Unused-sublist uid n _ _ (Sublist.cons b.id (Sublist.refl (block_ids after)))
          (Unused-perm uid n _ _ (Perm.symm (Perm.map (λ (b : Section). b.id) perm)) h.by_block))
        h

  -- The same rows in another order.
  pub permuted :
      (n : ℕ) (before after : List Row) → Perm after before → IsSoundAt n before → IsSoundAt n after
  permuted n before after perm h = record {
    by_row = Unused-perm uid n _ _ (Perm.map (λ (r : Row). r.id) perm) h.by_row;
    by_column =
        Unused-perm uid n _ _ (flat_map-perm (λ (r : Row). column_ids r.columns) perm) h.by_column;
    by_block =
        Unused-perm uid n _ _ (Perm.map (λ (b : Section). b.id) (flat_map-perm row_blocks perm))
          h.by_block;
    solid = IsSolid-perm perm h.solid;
  }
