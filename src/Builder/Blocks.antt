-- ===== src/Builder/Blocks.antt =====
-- `mapCol` and `removeBlock` of EmailBuilder.tsx, when ids are distinct.
use procovar_notify.Prelude.{
  String, ℕ, zero, suc, ◌≡◌, refl, sym, ap, ◌∙◌, ◌≢◌, true, not, some, List, [], ◌∷◌, map,
  append-nil, ◌==◌, eq_iff, get_elem?, keep, update_first_congr, update_where-eq-update_first, All,
  eq_of_ne,
}
use mathlib.Core.List.{Mem, Nodup, Nodup-cons, Nodup-append, Perm, mem-cons, map-append}
use mathlib.Core.List.Perm
use mathlib.Core.List.Nodup
use mathlib.Core.Option.{some-injective}
use mathlib.Core.Logic.Or
use procovar_notify.Structure.{Section, Column, Row, rows_blocks}
use procovar_notify.Builder.Locate.{BlockPlace, find_block}
use procovar_notify.Builder.State.{State, rows_of}
use procovar_notify.Builder.Edit.{
  has_row_id, has_block_id, on_blocks, map_blocks, remove_block, column_at, update_column,
}
use procovar_notify.Builder.Ids.{IsDistinct, column_ids, col_ids, block_ids, find_block-place}
use procovar_notify.Builder.Move.{update_column-perm}

pub columns-Nodup :
    (rows : List Row) → Nodup (col_ids rows) → All (λ (r : Row). Nodup (column_ids r.columns)) rows
columns-Nodup [] d = tt
columns-Nodup (r ∷ rs) d =
    let (here, later, _) = (Nodup-append {l₁ = column_ids r.columns}).0 d in
    (here, columns-Nodup rs later)

pub All-map {ℓ κ ι} :
    {A : Type ℓ} {P : A → Type κ} {Q : A → Type ι}
    → ((x : A) → P x → Q x)
    → (xs : List A) → All P xs
    → All Q xs
All-map f [] h = tt
All-map f (x ∷ xs) (p, h) = (f x p, All-map f xs h)

-- With distinct ids `mapCol` changes one column.
pub map_blocks-eq-update_column :
    (row_id col_id : String) (f : List Section → List Section) (rows : List Row)
    → IsDistinct rows
    → map_blocks row_id col_id f rows ≡ update_column row_id col_id f rows
unfolding map_blocks update_column
map_blocks-eq-update_column row_id col_id f rows d =
    update_where-eq-update_first (λ (r : Row). r.id) row_id _ rows d.by_row
    ∙ update_first_congr (has_row_id row_id) _ _ rows (
        All-map
          (λ r n.
            ap (λ cs. record r { columns = cs })
              (update_where-eq-update_first (λ (c : Column). c.id) col_id (on_blocks f) r.columns
                n))
          rows (columns-Nodup rows d.by_column))

pub keep_absent :
    (id : String) (bs : List Section)
    → ¬ Mem id (map (λ (b : Section). b.id) bs)
    → keep (λ b. not (has_block_id id b)) bs ≡ bs
keep_absent id [] h = refl
keep_absent id (b ∷ bs) h =
    let other : b.id ≢ id = λ e. h (mem-cons.1 (Or.inl (sym e))) in
    rw (eq_of_ne b.id id other, keep_absent id bs (λ m. h (mem-cons.1 (Or.inr m)))) refl

pub get_elem?-mem :
    (bs : List Section) (i : ℕ) (b : Section)
    → get_elem? bs i ≡ some b
    → Mem b.id (map (λ (b : Section). b.id) bs)
get_elem?-mem [] i b e = cc
get_elem?-mem (x ∷ xs) zero b e =
    let same : x ≡ b = some-injective _ _ e in
    mem-cons.1 (Or.inl (ap (λ (b : Section). b.id) (sym same)))
get_elem?-mem (x ∷ xs) (suc i) b e = mem-cons.1 (Or.inr (get_elem?-mem xs i b e))

-- The filter of `removeBlock` takes one block away.
keep-perm :
    (id : String) (bs : List Section) (i : ℕ) (b : Section)
    → Nodup (map (λ (b : Section). b.id) bs)
    → get_elem? bs i ≡ some b
    → b.id ≡ id
    → Perm bs (b ∷ keep (λ b. not (has_block_id id b)) bs)
keep-perm id [] i b d e same = cc
keep-perm id (x ∷ xs) zero b d e same =
    let it : x ≡ b = some-injective _ _ e in
    let hit : x.id ≡ id = ap (λ (b : Section). b.id) it ∙ same in
    let rest = keep_absent id xs (rw hit at ((Nodup-cons.0 d).0)) in
    let test : (x.id == id) ≡ true = (eq_iff x.id id).1 hit in rw (test, rest, it) (Perm.refl _)
keep-perm id (x ∷ xs) (suc i) b d e same =
    let other : x.id ≢ id = λ q. (Nodup-cons.0 d).0 (rw (q, ← same) (get_elem?-mem xs i b e)) in
    rw (eq_of_ne x.id id other)
      (Perm.trans (Perm.cons x (keep-perm id xs i b (Nodup-cons.0 d).1 e same)) (Perm.swap b x _))

-- A column's blocks have distinct ids, like those of the whole email.
pub column-Nodup :
    (row_id col_id : String) (rows : List Row) (c : Column)
    → IsDistinct rows
    → column_at row_id col_id rows ≡ some c
    → Nodup (map (λ (b : Section). b.id) c.blocks)
column-Nodup row_id col_id rows c d e =
    let split =
      update_column-perm row_id col_id (λ _. []) c.blocks [] rows c e
        (rw (append-nil c.blocks) (Perm.refl _)) in
    let ids = Perm.map (λ (b : Section). b.id) split in
    Nodup.of_append_left _ (rw map-append at (Perm.nodup (Perm.symm ids) d.by_block))

-- With distinct ids, removing a block that `findBlock` finds takes that block out of the email and
-- keeps all others, and the selection goes to its column.
pub remove_block-perm :
    (id : String) (p : BlockPlace) (s : State)
    → IsDistinct (rows_of s)
    → find_block id (rows_of s) ≡ some p
    → let s' = remove_block p.row_id p.col_id id s in
      Perm (rows_blocks (rows_of s)) (p.block ∷ rows_blocks (rows_of s'))
      × (¬ Mem id (block_ids (rows_of s')))
unfolding remove_block
remove_block-perm id p s d e =
    let (c, at_col, at_index, same) = find_block-place id (rows_of s) p d e in
    let f = keep (λ b. not (has_block_id id b)) in
    let one = update_column-perm p.row_id p.col_id f (p.block ∷ []) [] (rows_of s) c at_col (
      Perm.symm (
        keep-perm id c.blocks p.index p.block
          (column-Nodup p.row_id p.col_id (rows_of s) c d at_col) at_index same)) in
    let gone : Perm (rows_blocks (rows_of s))
        (p.block ∷ rows_blocks (map_blocks p.row_id p.col_id f (rows_of s))) =
      rw (map_blocks-eq-update_column p.row_id p.col_id f (rows_of s) d) (Perm.symm one) in
    let ids = Perm.nodup (Perm.map (λ (b : Section). b.id) gone) d.by_block in
    (gone, λ m. (Nodup-cons.0 ids).0 (rw same m))
