-- ===== src/Builder/LayoutIds.antt =====
-- The ids of the columns under `setRowLayout` of EmailBuilder.tsx: those that were there, and drawn
-- ones.
use procovar_notify.Prelude.{
  String, ℕ, suc, ◌+◌, ◌≡◌, refl, ap, true, inl, inr, List, [], ◌∷◌, ◌++◌, arith, append_assoc,
  perm_left_comm, ◌==◌, ltb, length, Bool-cases, returned,
}
use mathlib.Core.List.{Perm, perm_append_comm, Sublist, nil-sublist}
use mathlib.Core.List.Perm
use mathlib.Core.List.Sublist
use procovar_notify.Structure.{Section, Column, Row}
use procovar_notify.Builder.Edit.{relabel, push_last, extra_blocks, lay_out, lay_out_rows}
use procovar_notify.Builder.Ids.{column_ids, col_ids}
use procovar_notify.Builder.Drawn.{drawn, drawn-add}

push_last_ids :
    (extra : List Section) (c : Column) (cs : List Column)
    → (ds : List Column) × (push_last extra (c ∷ cs) ≡ returned ds)
      × (column_ids ds ≡ column_ids (c ∷ cs))
unfolding push_last
push_last_ids extra c [] = (_, refl, refl)
push_last_ids extra c (d ∷ cs) =
    let (ds, e, ids) = push_last_ids extra d cs in (c ∷ ds, rw e refl, ap (λ l. c.id ∷ l) ids)

perm_exchange :
    (c d d' r l : List String) → Perm l (d' ++ r) → Perm ((c ++ d) ++ l) ((d ++ d') ++ (c ++ r))
perm_exchange c d d' r l h =
    Perm.trans (Perm.append (perm_append_comm c d) h)
      (rw (append_assoc, append_assoc) (Perm.append_left d (perm_left_comm c d' r)))

module _ (uid : ℕ → String) where
  -- From the n-th call on, `j` ids were drawn for `after`, next to some of `before`.
  abbrev pub Draws : ℕ → ℕ → (after before : List String) → Type 0
  Draws n m after before =
      (j : ℕ) × (m ≡ n + j)
      × ((l : List String) × Sublist after l × Perm l (drawn uid n j ++ before))

  relabel-Draws :
      (n : ℕ) (ws : List ℕ) (cs : List Column)
      → (j : ℕ) × ((relabel uid n ws cs).1 ≡ n + j)
        × Sublist (column_ids (relabel uid n ws cs).0) (column_ids cs ++ drawn uid n j)
  unfolding relabel
  relabel-Draws n [] cs = (0, omega arith, nil-sublist _)
  relabel-Draws n (w ∷ ws) [] =
      let (j, m, s) = relabel-Draws (suc n) ws [] in
      (suc j, omega arith, Sublist.cons-cons (uid n) s)
  relabel-Draws n (w ∷ ws) (c ∷ cs) =
      let (j, m, s) = relabel-Draws n ws cs in (j, m, Sublist.cons-cons c.id s)

  shrink-Draws :
      (w : ℕ) (ws : List ℕ) (n : ℕ) (cs : List Column)
      → ltb (length (w ∷ ws)) (length cs) ≡ true
      → (r : List Column × ℕ) × (lay_out uid (w ∷ ws) n cs ≡ returned r)
        × ((j : ℕ) × (r.1 ≡ n + j) × Sublist (column_ids r.0) (column_ids cs ++ drawn uid n j))
  unfolding lay_out
  shrink-Draws w ws n [] more = ground arith
  shrink-Draws w ws n (c ∷ cs) more =
      let (j, m, s) = relabel-Draws n (w ∷ ws) (c ∷ cs) in
      let (ds, e, ids) =
        push_last_ids (extra_blocks (w ∷ ws) (c ∷ cs)) (record c { width = w })
          (relabel uid n ws cs).0 in
      ((ds, (relabel uid n ws cs).1), rw (more, e) refl, (j, m, rw ids s))

  lay_out-Draws :
      (w : ℕ) (ws : List ℕ) (n : ℕ) (cs : List Column)
      → (r : List Column × ℕ) × (lay_out uid (w ∷ ws) n cs ≡ returned r)
        × ((j : ℕ) × (r.1 ≡ n + j) × Sublist (column_ids r.0) (column_ids cs ++ drawn uid n j))
  unfolding lay_out
  lay_out-Draws w ws n cs = elim (Bool-cases (ltb (length (w ∷ ws)) (length cs))) [
    | inl more ↦ shrink-Draws w ws n cs more
    | inr fits ↦ (relabel uid n (w ∷ ws) cs, rw fits refl, relabel-Draws n (w ∷ ws) cs)
  ]

  pub lay_out_rows-Draws :
      (row_id : String) (w : ℕ) (ws : List ℕ) (n : ℕ) (rows : List Row)
      → (r : List Row × ℕ) × (lay_out_rows uid row_id (w ∷ ws) n rows ≡ returned r)
        × Draws n r.1 (col_ids r.0) (col_ids rows)
  unfolding lay_out_rows
  lay_out_rows-Draws row_id w ws n [] =
      (([], n), refl, (0, omega arith, ([], nil-sublist [], Perm.refl [])))
  lay_out_rows-Draws row_id w ws n (r ∷ rs) = elim (Bool-cases (r.id == row_id)) [
    | inl hit ↦
        let (cols, e, (j, m, s)) = lay_out-Draws w ws n r.columns in
        let (rest, e', (k, m', (l, s', p))) = lay_out_rows-Draws row_id w ws cols.1 rs in
        (
          (record r { columns = cols.0 } ∷ rest.0, rest.1),
          rw (hit, e) (rw e' refl),
          (
            j + k,
            omega arith,
            (
              (column_ids r.columns ++ drawn uid n j) ++ l,
              Sublist.append s s',
              rw (drawn-add uid n j k) (
                  perm_exchange (column_ids r.columns) (drawn uid n j) (drawn uid (n + j) k)
                    (col_ids rs) l (rw (← m) p)),
            ),
          ),
        )
    | inr miss ↦
        let (rest, e', (k, m', (l, s', p))) = lay_out_rows-Draws row_id w ws n rs in
        (
          (r ∷ rest.0, rest.1),
          rw (miss, e') refl,
          (
            k,
            m',
            (
              column_ids r.columns ++ l,
              Sublist.append (Sublist.refl _) s',
              Perm.trans (Perm.append_left (column_ids r.columns) p)
                  (perm_left_comm (column_ids r.columns) (drawn uid n k) (col_ids rs)),
            ),
          ),
        )
  ]
