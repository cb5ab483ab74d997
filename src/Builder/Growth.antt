-- ===== src/Builder/Growth.antt =====
-- `addRow`, `setRowLayout` and an `addBlock` without any row in EmailBuilder.tsx: the ids that they
-- draw, and the invariant.
use procovar_notify.Prelude.{
  String, Bool, ℕ, zero, suc, ◌+◌, ◌≤◌, ◌≡◌, refl, sym, ap, ◌∙◌, inl, inr, true, none, some, List,
  [], ◌∷◌, ◌++◌, map, append-nil, arith, flat_map-append, All, All-append, Bool-cases, length,
  get_elem?, returned, keep, not, ◌==◌, perm_of_eq,
}
use mathlib.Core.List.{Perm, perm_append_comm, map-append}
use mathlib.Core.List.Perm
use mathlib.Core.Path.{subst}
use mathlib.Core.Option.{some-injective}
use procovar_notify.Structure.{Section, Column, Row, row_blocks, rows_blocks}
use procovar_notify.Builder.Palette.{Layout, layouts}
use procovar_notify.Builder.State.{State, rows_of, set_rows}
use procovar_notify.Builder.Edit.{new_columns, add_row, new_block, add_block_at, set_row_layout}
use procovar_notify.Builder.Ids.{row_ids, column_ids, col_ids, block_ids}
use procovar_notify.Builder.Drawn.{
  drawn, Unused, Unused-le, Unused-perm, Unused-sublist, Unused-cons, Unused-drawn,
}
use procovar_notify.Builder.Shape.{shape, frame, sized, IsSolid, IsSolidFrame}
use procovar_notify.Builder.Layout.{columns_blocks, column_widths, lay_out_rows_lem, IsLaidOut}
use procovar_notify.Builder.LayoutIds.{lay_out_rows-Draws, Draws}
use procovar_notify.Builder.AddBlock.{add_block_at-none}
use procovar_notify.Builder.Soundness.{IsSoundAt, IsSound}

-- A layout of the editor: at least one width, and none is 0.
abbrev pub IsOffered : List ℕ → Type 0
IsOffered widths = (w : ℕ) × (ws : List ℕ) × (widths ≡ w ∷ ws) × All (λ (v : ℕ). 1 ≤ v) (w ∷ ws)

All-get_elem? {ℓ κ} :
    {A : Type ℓ} (P : A → Type κ) (xs : List A) (i : ℕ) (x : A)
    → All P xs
    → get_elem? xs i ≡ some x
    → P x
All-get_elem? P [] i x h e = cc
All-get_elem? P (y ∷ ys) zero x (q, h) e = rw (← some-injective _ _ e) q
All-get_elem? P (y ∷ ys) (suc i) x (q, h) e = All-get_elem? P ys i x h e

layouts-IsOffered : All (λ (l : Layout). IsOffered l.widths) layouts
layouts-IsOffered =
    let one : IsOffered (1 ∷ []) = (1, [], refl, omega arith) in
    let halves : IsOffered (1 ∷ 1 ∷ []) = (1, 1 ∷ [], refl, omega arith) in
    let third : IsOffered (1 ∷ 2 ∷ []) = (1, 2 ∷ [], refl, omega arith) in
    let two_thirds : IsOffered (2 ∷ 1 ∷ []) = (2, 1 ∷ [], refl, omega arith) in
    let thirds : IsOffered (1 ∷ 1 ∷ 1 ∷ []) = (1, 1 ∷ 1 ∷ [], refl, omega arith) in
    (one, (halves, (third, (two_thirds, (thirds, tt)))))

pub get_elem?-IsOffered : (i : ℕ) (l : Layout) → get_elem? layouts i ≡ some l → IsOffered l.widths
get_elem?-IsOffered i l e =
    All-get_elem? (λ (l : Layout). IsOffered l.widths) layouts i l layouts-IsOffered e

sized_widths :
    (cs : List Column)
    → All (λ (v : ℕ). 1 ≤ v) (column_widths cs)
    → All (λ (c : String × ℕ). 1 ≤ c.1) (map sized cs)
sized_widths [] h = tt
sized_widths (c ∷ cs) (w, h) = (w, sized_widths cs h)

widths-IsSolidFrame :
    (id : String) (cs : List Column) (w : ℕ) (ws : List ℕ)
    → column_widths cs ≡ w ∷ ws
    → All (λ (v : ℕ). 1 ≤ v) (w ∷ ws)
    → IsSolidFrame (id, map sized cs)
widths-IsSolidFrame id [] w ws e h = cc
widths-IsSolidFrame id (c ∷ cs) w ws e h =
    ((λ q. cc), sized_widths (c ∷ cs) (subst (All (λ (v : ℕ). 1 ≤ v)) (sym e) h))

pub keep-IsSolid : (p : Row → Bool) (rows : List Row) → IsSolid rows → IsSolid (keep p rows)
keep-IsSolid p [] h = tt
keep-IsSolid p (r ∷ rs) (q, h) = elim (Bool-cases (p r)) [
  | inl e ↦ rw e (q, keep-IsSolid p rs h)
  | inr e ↦ rw e (keep-IsSolid p rs h)
]

-- The rows with the id have the widths, and the others are solid.
laid_out-IsSolid :
    (row_id : String) (w : ℕ) (ws : List ℕ) (after : List Row)
    → All (λ (v : ℕ). 1 ≤ v) (w ∷ ws)
    → All (λ (r : Row). (r.id == row_id) ≡ true → column_widths r.columns ≡ w ∷ ws) after
    → IsSolid (keep (λ (r : Row). not (r.id == row_id)) after)
    → IsSolid after
laid_out-IsSolid row_id w ws [] good h k = tt
laid_out-IsSolid row_id w ws (r ∷ rs) good (q, h) k = elim (Bool-cases (r.id == row_id)) [
  | inl hit ↦ (
    widths-IsSolidFrame r.id r.columns w ws (q hit) good,
    laid_out-IsSolid row_id w ws rs good h (rw hit at k),
  )
  | inr miss ↦ let both = rw miss at k in (both.0, laid_out-IsSolid row_id w ws rs good h both.1)
]

module _ (uid : ℕ → String) where
  new_columns-ids :
      (n : ℕ) (ws : List ℕ) → column_ids (new_columns uid n ws) ≡ drawn uid n (length ws)
  unfolding new_columns
  new_columns-ids n [] = refl
  new_columns-ids n (w ∷ ws) = ap (λ l. uid n ∷ l) (new_columns-ids (suc n) ws)

  new_columns-blocks : (n : ℕ) (ws : List ℕ) → columns_blocks (new_columns uid n ws) ≡ []
  unfolding new_columns
  new_columns-blocks n [] = refl
  new_columns-blocks n (w ∷ ws) = new_columns-blocks (suc n) ws

  new_columns-widths : (n : ℕ) (ws : List ℕ) → column_widths (new_columns uid n ws) ≡ ws
  unfolding new_columns
  new_columns-widths n [] = refl
  new_columns-widths n (w ∷ ws) = ap (λ l. w ∷ l) (new_columns-widths (suc n) ws)

  module _ (apart : (i j : ℕ) → uid i ≡ uid j → i ≡ j) where
    Unused-append :
        (n i j m : ℕ) (ids : List String)
        → n ≤ i
        → i + j ≤ m
        → Unused uid n ids
        → Unused uid m (ids ++ drawn uid i j)
    Unused-append n i j m ids h k u =
        Unused-perm uid m _ _ (perm_append_comm ids (drawn uid i j))
          (Unused-le uid (i + j) m _ k (Unused-drawn uid apart i j ids (Unused-le uid n i ids h u)))

    -- A row at the end, with drawn ids.
    appended :
        (n i : ℕ) (r : Row) (k m : ℕ) (rows : List Row)
        → n ≤ i
        → suc i + k ≤ m
        → r.id ≡ uid i
        → column_ids r.columns ≡ drawn uid (suc i) k
        → Unused uid m (block_ids (rows ++ r ∷ []))
        → IsSolid (r ∷ [])
        → IsSoundAt uid n rows
        → IsSoundAt uid m (rows ++ r ∷ [])
    appended n i r k m rows h q id ids blocks solid s = record {
      by_row =
          rw (map-append _ rows (r ∷ []), id)
            (Unused-append n i 1 m (row_ids rows) h (omega arith) s.by_row);
      by_column =
          rw (flat_map-append (λ (r : Row). column_ids r.columns) rows (r ∷ []), append-nil, ids)
            (Unused-append n (suc i) k m (col_ids rows) (omega arith) q s.by_column);
      by_block = blocks;
      solid =
          rw (map-append frame rows (r ∷ []))
            (All-append IsSolidFrame (shape rows) (shape (r ∷ [])) s.solid solid);
    }

    pub add_row-IsSound :
        (widths : List ℕ) (s : State)
        → IsOffered widths
        → IsSound uid s
        → (s' : State) × (add_row uid widths s ≡ returned s') × IsSound uid s'
    unfolding add_row
    add_row-IsSound widths s (w, ws, e, good) h =
        let columns = new_columns uid (suc s.seed) (w ∷ ws) in
        let row : Row = record { id = uid s.seed; columns = columns } in
        let none_new : rows_blocks (rows_of s ++ row ∷ []) ≡ rows_blocks (rows_of s) =
          flat_map-append row_blocks (rows_of s) (row ∷ [])
          ∙ rw (new_columns-blocks (suc s.seed) (w ∷ ws), append-nil) refl in
        rw e (
          _,
          refl,
          appended s.seed s.seed row (length (w ∷ ws)) (suc s.seed + length (w ∷ ws)) (rows_of s)
              (omega arith) (omega arith) refl (new_columns-ids (suc s.seed) (w ∷ ws))
              (rw none_new (Unused-le uid s.seed _ _ (omega arith) h.by_block))
              (
                widths-IsSolidFrame (uid s.seed) columns w ws
                    (new_columns-widths (suc s.seed) (w ∷ ws)) good,
                tt,
              )
              h,
        )

    pub add_block_at-IsSound-none :
        (type : String) (s : State) → IsSound uid s → IsSound uid (add_block_at uid none type s)
    unfolding add_block_at
    add_block_at-IsSound-none type s h =
        let third : s.seed + 2 ≡ suc (s.seed + 1) = omega arith in
        let b = new_block uid type s in
        let blocks : Perm (block_ids (rows_of (add_block_at uid none type s)))
            (b.id ∷ block_ids (rows_of s)) =
          Perm.map (λ (b : Section). b.id)
            (Perm.trans (perm_of_eq (add_block_at-none uid type s))
              (perm_append_comm (rows_blocks (rows_of s)) (b ∷ []))) in
        appended s.seed (s.seed + 1) _ 1 (s.seed + 3) (rows_of s) (omega arith) (omega arith) refl
          (ap (λ i. uid i ∷ []) third)
          (Unused-perm uid (s.seed + 3) _ _ blocks (
            Unused-le uid (suc s.seed) _ _ (omega arith)
              (Unused-cons uid apart s.seed (block_ids (rows_of s)) h.by_block)))
          (((λ q. cc), (omega arith, tt)), tt) h

    laid_out-IsSoundAt :
        (row_id : String) (w : ℕ) (ws : List ℕ) (n : ℕ) (rows : List Row) (r : List Row × ℕ)
        → All (λ (v : ℕ). 1 ≤ v) (w ∷ ws)
        → IsLaidOut row_id (w ∷ ws) rows r.0
        → Draws uid n r.1 (col_ids r.0) (col_ids rows)
        → IsSoundAt uid n rows
        → IsSoundAt uid r.1 r.0
    laid_out-IsSoundAt row_id w ws n rows (after, m) good (blocks, ids, hits, others)
          (j, e, (l, sub, perm)) h =
        record {
          by_row = rw ids (Unused-le uid n m _ (omega arith) h.by_row);
          by_column = rw e (
              Unused-sublist uid (n + j) _ _ sub (
                Unused-perm uid (n + j) _ _ perm
                  (Unused-drawn uid apart n j (col_ids rows) h.by_column)));
          by_block = rw blocks (Unused-le uid n m _ (omega arith) h.by_block);
          solid =
              laid_out-IsSolid row_id w ws after good hits
                (rw others (keep-IsSolid _ rows h.solid));
        }

    pub set_row_layout-IsSound :
        (row_id : String) (widths : List ℕ) (s : State)
        → IsOffered widths
        → IsSound uid s
        → (s' : State) × (set_row_layout uid row_id widths s ≡ returned s') × IsSound uid s'
    unfolding set_row_layout
    set_row_layout-IsSound row_id widths s (w, ws, e, good) h =
        let (r, done, held) = lay_out_rows_lem uid row_id w ws s.seed (rows_of s) in
        let (r', done', draws) = lay_out_rows-Draws uid row_id w ws s.seed (rows_of s) in
        let same : r' ≡ r = cc in
        rw e (
          record (set_rows r.0 s) { seed = r.1 },
          rw done refl,
          laid_out-IsSoundAt row_id w ws s.seed (rows_of s) r good held (rw same at draws) h,
        )
