-- ===== src/Builder/Splices.antt =====
-- Both calls of `splice` of `moveBlockTo` in EmailBuilder.tsx on the blocks of one column.
use procovar_notify.Prelude.{
  String, ℕ, zero, suc, ◌-◌, ◌≡◌, refl, sym, ap, ◌∙◌, ◌≢◌, true, not, some, List, [], ◌∷◌, ◌++◌,
  map, ◌==◌, eq_iff, ltb, if◌then◌else◌, get_elem?, keep, take, drop, splice_in, splice_out,
  eq_of_ne, arith,
}
use mathlib.Core.List.{Mem, Nodup, Nodup-cons, mem-cons, Mem-prop, not-mem-nil}
use mathlib.Core.Logic.Or
use mathlib.Core.Option.{some-injective}
use procovar_notify.Structure.{Section}
use procovar_notify.Builder.Edit.{has_block_id}
use procovar_notify.Builder.Blocks.{get_elem?-mem, keep_absent}

-- The blocks without the one that has the id.
abbrev pub others : String → List Section → List Section
others id = keep (λ b. not (has_block_id id b))

abbrev pub ids_of : List Section → List String
ids_of = map (λ (b : Section). b.id)

-- Where `moveBlockTo` inserts into the column that the block comes from.
abbrev pub shift : ℕ → ℕ → ℕ
shift from to = if ltb from to then to - 1 else to

splice_in-take :
    (i : ℕ) (b : Section) (bs : List Section) → splice_in i b bs ≡ take i bs ++ b ∷ drop i bs
splice_in-take zero b bs = refl
splice_in-take (suc i) b [] = refl
splice_in-take (suc i) b (x ∷ xs) = ap (λ l. x ∷ l) (splice_in-take i b xs)

Mem-take :
    (id : String) (i : ℕ) (bs : List Section) → Mem id (ids_of (take i bs)) → Mem id (ids_of bs)
Mem-take id zero bs m = absurd (not-mem-nil m)
Mem-take id (suc i) [] m = m
Mem-take id (suc i) (x ∷ xs) m =
    Or.elim Mem-prop (mem-cons.0 m) (λ e. mem-cons.1 (Or.inl e))
      (λ r. mem-cons.1 (Or.inr (Mem-take id i xs r)))

Mem-drop :
    (id : String) (i : ℕ) (bs : List Section) → Mem id (ids_of (drop i bs)) → Mem id (ids_of bs)
Mem-drop id zero bs m = m
Mem-drop id (suc i) [] m = m
Mem-drop id (suc i) (x ∷ xs) m = mem-cons.1 (Or.inr (Mem-drop id i xs m))

-- Into a column without the block: the others keep their order around it.
pub splice_in-others :
    (id : String) (i : ℕ) (b : Section) (bs : List Section)
    → ¬ Mem id (ids_of bs)
    → splice_in i b bs ≡ others id (take i bs) ++ b ∷ others id (drop i bs)
splice_in-others id i b bs absent =
    rw
      (
        keep_absent id (take i bs) (λ m. absent (Mem-take id i bs m)),
        keep_absent id (drop i bs) (λ m. absent (Mem-drop id i bs m)),
      )
      (splice_in-take i b bs)

-- Taking a block out and putting it back.
pub splice_in-splice_out :
    (k : ℕ) (b : Section) (bs : List Section)
    → get_elem? bs k ≡ some b
    → splice_in k b (splice_out k bs) ≡ bs
splice_in-splice_out k b [] e = cc
splice_in-splice_out zero b (x ∷ xs) e = ap (λ y. y ∷ xs) (sym (some-injective _ _ e))
splice_in-splice_out (suc k) b (x ∷ xs) e = ap (λ l. x ∷ l) (splice_in-splice_out k b xs e)

splice_out-others :
    (id : String) (k : ℕ) (b : Section) (bs : List Section)
    → Nodup (ids_of bs)
    → get_elem? bs k ≡ some b
    → b.id ≡ id
    → splice_out k bs ≡ others id bs
splice_out-others id k b [] d e same = refl
splice_out-others id zero b (x ∷ xs) d e same =
    let hit : x.id ≡ id = ap (λ (b : Section). b.id) (some-injective _ _ e) ∙ same in
    let test : (x.id == id) ≡ true = (eq_iff x.id id).1 hit in
    rw test (sym (keep_absent id xs (rw hit at ((Nodup-cons.0 d).0))))
splice_out-others id (suc k) b (x ∷ xs) d e same =
    let other : x.id ≢ id = λ q. (Nodup-cons.0 d).0 (rw (q, ← same) (get_elem?-mem xs k b e)) in
    rw (eq_of_ne x.id id other)
      (ap (λ l. x ∷ l) (splice_out-others id k b xs (Nodup-cons.0 d).1 e same))

shift-suc : (k m : ℕ) → shift (suc k) (suc m) ≡ suc (shift k m)
shift-suc k m = ground arith

shift-zero : (m : ℕ) → shift 0 (suc m) ≡ m
shift-zero m = ground arith

shift-none : (k : ℕ) → shift (suc k) 0 ≡ 0
shift-none k = ground arith

-- Within one column: the block lands before those that stood behind the index.
pub splice_in-shift :
    (id : String) (k m : ℕ) (b : Section) (bs : List Section)
    → Nodup (ids_of bs)
    → get_elem? bs k ≡ some b
    → b.id ≡ id
    → splice_in (shift k m) b (splice_out k bs) ≡ others id (take m bs) ++ b ∷ others id (drop m bs)
splice_in-shift id k m b [] d e same = cc
splice_in-shift id zero zero b (x ∷ xs) d e same =
    ap (λ l. b ∷ l) (splice_out-others id zero b (x ∷ xs) d e same)
splice_in-shift id zero (suc m) b (x ∷ xs) d e same =
    let hit : x.id ≡ id = ap (λ (b : Section). b.id) (some-injective _ _ e) ∙ same in
    let test : (x.id == id) ≡ true = (eq_iff x.id id).1 hit in
    rw (shift-zero m, test) (splice_in-others id m b xs (rw hit at ((Nodup-cons.0 d).0)))
splice_in-shift id (suc k) zero b (x ∷ xs) d e same =
    rw (shift-none k) (ap (λ l. b ∷ l) (splice_out-others id (suc k) b (x ∷ xs) d e same))
splice_in-shift id (suc k) (suc m) b (x ∷ xs) d e same =
    let other : x.id ≢ id = λ q. (Nodup-cons.0 d).0 (rw (q, ← same) (get_elem?-mem xs k b e)) in
    rw (shift-suc k m, eq_of_ne x.id id other)
      (ap (λ l. x ∷ l) (splice_in-shift id k m b xs (Nodup-cons.0 d).1 e same))
