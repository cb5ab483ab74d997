-- ===== src/Builder/Layout.antt =====
-- What `addRow` and `setRowLayout` of EmailBuilder.tsx do to the rows and to their blocks.
use procovar_notify.Prelude.{
  String, ℕ, zero, suc, ◌≤◌, ◌≡◌, refl, sym, ap, ◌∙◌, true, not, List, [], ◌∷◌, ◌++◌, append-nil,
  append_assoc, map, arith, ◌==◌, ltb, keep, length, drop, flat_map, All, Bool-cases, inl, inr,
  returned,
}
use procovar_notify.Structure.{Section, Column, Row, rows_blocks}
use procovar_notify.Builder.State.{State, rows_of, set_rows}
use procovar_notify.Builder.Edit.{
  relabel, push_last, extra_blocks, lay_out, lay_out_rows, set_row_layout,
}

abbrev pub columns_blocks : List Column → List Section
columns_blocks = flat_map (λ (c : Column). c.blocks)

abbrev pub column_widths : List Column → List ℕ
column_widths = map (λ (c : Column). c.width)

drop_all {ℓ} : {A : Type ℓ} (n : ℕ) (xs : List A) → length xs ≤ n → drop n xs ≡ []
drop_all zero [] h = refl
drop_all zero (x ∷ xs) h = absurd (omega arith)
drop_all (suc n) [] h = refl
drop_all (suc n) (x ∷ xs) h = drop_all n xs (omega arith)

drop-nil {ℓ} : {A : Type ℓ} (n : ℕ) → drop {A = A} n [] ≡ []
drop-nil zero = refl
drop-nil (suc n) = refl

push_last_lem :
    (extra : List Section) (c : Column) (cs : List Column)
    → (ds : List Column) × (push_last extra (c ∷ cs) ≡ returned ds)
      × (columns_blocks ds ≡ columns_blocks (c ∷ cs) ++ extra)
      × (column_widths ds ≡ column_widths (c ∷ cs))
unfolding push_last
push_last_lem extra c [] =
    (record c { blocks = c.blocks ++ extra } ∷ [], refl, simp (append-nil), refl)
push_last_lem extra c (d ∷ cs) =
    let (ds, e, same, widths) = push_last_lem extra d cs in
    (
      c ∷ ds,
      rw e refl,
      ap (λ l. c.blocks ++ l) same ∙ sym (append_assoc c.blocks _ extra),
      ap (λ l. c.width ∷ l) widths,
    )

-- What holds of the rows `after` once the row with the id has the given widths.
abbrev pub IsLaidOut : String → List ℕ → (before after : List Row) → Type 0
IsLaidOut row_id widths before after =
    (rows_blocks after ≡ rows_blocks before)
    × (map (λ (r : Row). r.id) after ≡ map (λ (r : Row). r.id) before)
    × All (λ (r : Row). (r.id == row_id) ≡ true → column_widths r.columns ≡ widths) after
    × (keep (λ (r : Row). not (r.id == row_id)) after
        ≡ keep (λ (r : Row). not (r.id == row_id)) before)

module _ (uid : ℕ → String) where
  relabel-blocks :
      (n : ℕ) (ws : List ℕ) (cs : List Column)
      → columns_blocks (relabel uid n ws cs).0 ++ extra_blocks ws cs ≡ columns_blocks cs
  unfolding relabel
  relabel-blocks n [] cs = refl
  relabel-blocks n (w ∷ ws) [] = rw (drop-nil (length ws)) at (relabel-blocks (suc n) ws [])
  relabel-blocks n (w ∷ ws) (c ∷ cs) =
      append_assoc c.blocks _ _ ∙ ap (λ l. c.blocks ++ l) (relabel-blocks n ws cs)

  relabel-widths :
      (n : ℕ) (ws : List ℕ) (cs : List Column) → column_widths (relabel uid n ws cs).0 ≡ ws
  unfolding relabel
  relabel-widths n [] cs = refl
  relabel-widths n (w ∷ ws) [] = ap (λ l. w ∷ l) (relabel-widths (suc n) ws [])
  relabel-widths n (w ∷ ws) (c ∷ cs) = ap (λ l. w ∷ l) (relabel-widths n ws cs)

  shrink :
      (w : ℕ) (ws : List ℕ) (n : ℕ) (cs : List Column)
      → ltb (length (w ∷ ws)) (length cs) ≡ true
      → (r : List Column × ℕ) × (lay_out uid (w ∷ ws) n cs ≡ returned r)
        × (columns_blocks r.0 ≡ columns_blocks cs)
        × (column_widths r.0 ≡ w ∷ ws)
  unfolding lay_out
  shrink w ws n [] more = ground arith
  shrink w ws n (c ∷ cs) more =
      let (ds, e, same, widths) =
        push_last_lem (extra_blocks (w ∷ ws) (c ∷ cs)) (record c { width = w })
          (relabel uid n ws cs).0 in
      (
        (ds, (relabel uid n ws cs).1),
        rw (more, e) refl,
        same ∙ relabel-blocks n (w ∷ ws) (c ∷ cs),
        widths ∙ relabel-widths n (w ∷ ws) (c ∷ cs),
      )

  lay_out_lem :
      (w : ℕ) (ws : List ℕ) (n : ℕ) (cs : List Column)
      → (r : List Column × ℕ) × (lay_out uid (w ∷ ws) n cs ≡ returned r)
        × (columns_blocks r.0 ≡ columns_blocks cs)
        × (column_widths r.0 ≡ w ∷ ws)
  unfolding lay_out
  lay_out_lem w ws n cs = elim (Bool-cases (ltb (length (w ∷ ws)) (length cs))) [
    | inl more ↦ shrink w ws n cs more
    | inr fits ↦ (
      relabel uid n (w ∷ ws) cs,
      rw fits refl,
      sym (append-nil _)
          ∙ rw (drop_all (length (w ∷ ws)) cs (ground arith)) at (relabel-blocks n (w ∷ ws) cs),
      relabel-widths n (w ∷ ws) cs,
    )
  ]

  pub lay_out_rows_lem :
      (row_id : String) (w : ℕ) (ws : List ℕ) (n : ℕ) (rows : List Row)
      → (r : List Row × ℕ) × (lay_out_rows uid row_id (w ∷ ws) n rows ≡ returned r)
        × IsLaidOut row_id (w ∷ ws) rows r.0
  unfolding lay_out_rows
  lay_out_rows_lem row_id w ws n [] = (([], n), refl, (refl, refl, tt, refl))
  lay_out_rows_lem row_id w ws n (r ∷ rs) = elim (Bool-cases (r.id == row_id)) [
    | inl hit ↦
        let (cols, e, same, widths) = lay_out_lem w ws n r.columns in
        let (rest, e', held) = lay_out_rows_lem row_id w ws cols.1 rs in
        let (same', ids, all, others) = held in
        (
          (record r { columns = cols.0 } ∷ rest.0, rest.1),
          rw (hit, e) (rw e' refl),
          (rw (same, same') refl, ap (λ l. r.id ∷ l) ids, ((λ _. widths), all), rw hit others),
        )
    | inr miss ↦
        let (rest, e', held) = lay_out_rows_lem row_id w ws n rs in
        let (same', ids, all, others) = held in
        (
          (r ∷ rest.0, rest.1),
          rw (miss, e') refl,
          (rw same' refl, ap (λ l. r.id ∷ l) ids, ((λ hit. cc), all), rw (miss, others) refl),
        )
  ]

  -- With at least one width `setRowLayout` returns. It keeps the blocks of the email and their
  -- order, the ids and order of the rows, and the rows with another id; each row with the id has
  -- columns of exactly the given widths.
  pub set_row_layout-blocks :
      (row_id : String) (w : ℕ) (ws : List ℕ) (s : State)
      → (s' : State) × (set_row_layout uid row_id (w ∷ ws) s ≡ returned s')
        × IsLaidOut row_id (w ∷ ws) (rows_of s) (rows_of s')
  unfolding set_row_layout
  set_row_layout-blocks row_id w ws s =
      let (r, e, done) = lay_out_rows_lem row_id w ws s.seed (rows_of s) in
      (record (set_rows r.0 s) { seed = r.1 }, rw e refl, done)
