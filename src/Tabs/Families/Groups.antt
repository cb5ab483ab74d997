-- ===== src/Tabs/Families/Groups.antt =====
-- The families hold every template once, each under its key.
use mathlib.Core.List.{
  Perm, Mem, mem-cons, not-mem-nil, Mem-prop, Nodup, Nodup-cons, Nodup-nil, perm_middle, mem-append,
}
use mathlib.Core.List.Perm
use mathlib.Core.Logic.Or
use mathlib.Core.Bool.{Bool-set}
use text.Mathlib.TextPositions.{eq_refl}
use mathlib.Core.Logic.{◌∨₁◌}
use procovar_notify.Prelude.{
  String, ◌≡◌, refl, ap, ◌∙◌, inl, inr, true, false, none, some, List, [], ◌∷◌, ◌++◌, ◌==◌, map,
  Dict, lookup, insert, flat_map, Bool-cases, eq_symm, eq_iff, arith, append_assoc, append-nil, All,
  ◌≢◌,
}
use procovar_notify.Tabs.Families.{
  Template, Family, with_variant, add_variant, collect, sorted, group_by_key,
}

abbrev pub variants_of : List Family → List Template
variants_of fs = flat_map (λ (f : Family). f.variants) fs

abbrev held : Dict Family → List Template
held d = flat_map (λ (e : String × Family). e.1.variants) d

insert-hit :
    (t : Template) (k : String) (f : Family) (rest : Dict Family)
    → (k == t.key) ≡ true
    → add_variant t ((k, f) ∷ rest) ≡ (k, with_variant t (some f)) ∷ rest
unfolding add_variant insert lookup
insert-hit t k f rest hit = rw (hit) refl

lookup-miss :
    (key k : String) (f : Family) (rest : Dict Family)
    → (k == key) ≡ false
    → lookup key ((k, f) ∷ rest) ≡ lookup key rest
unfolding lookup
lookup-miss key k f rest miss = rw miss refl

insert_behind :
    (key k : String) (value f : Family) (rest : Dict Family)
    → (k == key) ≡ false
    → insert key value ((k, f) ∷ rest) ≡ (k, f) ∷ insert key value rest
unfolding insert
insert_behind key k value f rest miss = rw miss refl

insert-miss :
    (t : Template) (k : String) (f : Family) (rest : Dict Family)
    → (k == t.key) ≡ false
    → add_variant t ((k, f) ∷ rest) ≡ (k, f) ∷ add_variant t rest
unfolding add_variant
insert-miss t k f rest miss =
    insert_behind t.key k (with_variant t (lookup t.key ((k, f) ∷ rest))) f rest miss
    ∙ ap (λ o. (k, f) ∷ insert t.key (with_variant t o) rest) (lookup-miss t.key k f rest miss)

add_variant-nil : (t : Template) → add_variant t [] ≡ (t.key, with_variant t none) ∷ []
unfolding add_variant insert lookup
add_variant-nil t = refl

add_variant-Perm : (t : Template) (d : Dict Family) → Perm (held (add_variant t d)) (t ∷ held d)
add_variant-Perm t [] = rw (add_variant-nil t) (Perm.refl _)
add_variant-Perm t ((k, f) ∷ rest) = elim (Bool-cases (k == t.key)) [
  | inl hit ↦
      rw (insert-hit t k f rest hit, append_assoc f.variants (t ∷ []) (held rest))
        (perm_middle f.variants (held rest))
  | inr miss ↦ rw (insert-miss t k f rest miss) (
      Perm.trans (Perm.append_left f.variants (add_variant-Perm t rest))
        (perm_middle f.variants (held rest)))
]

-- An entry holds a family of its key, and the family templates of that key.
abbrev IsKeyed : String × Family → Type 0
IsKeyed e = (e.1.key ≡ e.0) × ((v : Template) → Mem v e.1.variants → (v.key == e.0) ≡ true)

has_key :
    (k : String) (t v : Template) → (t.key == k) ≡ true → (v ≡ t) ∨₁ Mem v [] → (v.key == k) ≡ true
has_key k t v e o =
    Or.elim (Bool-set _ _) o (λ p. ap (λ (w : Template). w.key == k) p ∙ e)
      (λ m. absurd (not-mem-nil m))

add_variant-IsKeyed :
    (t : Template) (d : Dict Family) → All IsKeyed d → All IsKeyed (add_variant t d)
add_variant-IsKeyed t [] h =
    rw (add_variant-nil t) ((refl, (λ v m. has_key t.key t v (eq_refl t.key) (mem-cons.0 m))), tt)
add_variant-IsKeyed t ((k, f) ∷ rest) ((p, q), h) = elim (Bool-cases (k == t.key)) [
  | inl hit ↦ rw (insert-hit t k f rest hit) (
    (
      p,
      (λ v m.
          Or.elim (Bool-set _ _) (mem-append.0 m) (q v)
            (λ n. has_key k t v (eq_symm t.key k ∙ hit) (mem-cons.0 n))),
    ),
    h,
  )
  | inr miss ↦ rw (insert-miss t k f rest miss) ((p, q), add_variant-IsKeyed t rest h)
]

abbrev keys_of : Dict Family → List String
keys_of d = map (λ (e : String × Family). e.0) d

mem-add_variant :
    (t : Template) (d : Dict Family) (x : String)
    → x ≢ t.key
    → Mem x (keys_of (add_variant t d))
    → Mem x (keys_of d)
mem-add_variant t [] x n m =
    Or.elim Mem-prop (mem-cons.0 (rw (add_variant-nil t) at m)) (λ p. absurd (n p)) (λ r. r)
mem-add_variant t ((k, f) ∷ rest) x n m = elim (Bool-cases (k == t.key)) [
  | inl hit ↦ rw (insert-hit t k f rest hit) at m
  | inr miss ↦
      Or.elim Mem-prop (mem-cons.0 (rw (insert-miss t k f rest miss) at m))
        (λ p. mem-cons.1 (Or.inl p)) (λ r. mem-cons.1 (Or.inr (mem-add_variant t rest x n r)))
]

add_variant-Nodup :
    (t : Template) (d : Dict Family) → Nodup (keys_of d) → Nodup (keys_of (add_variant t d))
add_variant-Nodup t [] h = rw (add_variant-nil t) (Nodup-cons.1 (not-mem-nil, Nodup-nil))
add_variant-Nodup t ((k, f) ∷ rest) h = elim (Bool-cases (k == t.key)) [
  | inl hit ↦ rw (insert-hit t k f rest hit) h
  | inr miss ↦ rw (insert-miss t k f rest miss) (
      Nodup-cons.1 (
        (λ m.
            (Nodup-cons.0 h).0
              (mem-add_variant t rest k (λ e. ground (arith, miss, (eq_iff k t.key).1 e)) m)),
        add_variant-Nodup t rest (Nodup-cons.0 h).1,
      ))
]

collect-Perm : (ts : List Template) (d : Dict Family) → Perm (held (collect ts d)) (held d ++ ts)
unfolding collect
collect-Perm [] d = rw (append-nil (held d)) (Perm.refl _)
collect-Perm (t ∷ ts) d =
    Perm.trans (collect-Perm ts (add_variant t d)) (
      Perm.trans (Perm.append_right ts (add_variant-Perm t d))
        (Perm.symm (perm_middle (held d) ts)))

collect-IsKeyed :
    (ts : List Template) (d : Dict Family) → All IsKeyed d → All IsKeyed (collect ts d)
unfolding collect
collect-IsKeyed [] d h = h
collect-IsKeyed (t ∷ ts) d h = collect-IsKeyed ts (add_variant t d) (add_variant-IsKeyed t d h)

collect-Nodup :
    (ts : List Template) (d : Dict Family) → Nodup (keys_of d) → Nodup (keys_of (collect ts d))
unfolding collect
collect-Nodup [] d h = h
collect-Nodup (t ∷ ts) d h = collect-Nodup ts (add_variant t d) (add_variant-Nodup t d h)

-- Every template of a family has the family's key.
abbrev pub AreKeyed : List Family → Type 0
AreKeyed fs = All (λ (f : Family). (v : Template) → Mem v f.variants → (v.key == f.key) ≡ true) fs

module _ (sort : List Template → List Template) where
  sorted-Perm :
      ((ts : List Template) → Perm (sort ts) ts)
      → (d : Dict Family) → Perm (variants_of (map (sorted sort) d)) (held d)
  sorted-Perm h [] = Perm.refl _
  sorted-Perm h ((k, f) ∷ d) = Perm.append (h f.variants) (sorted-Perm h d)

  sorted-keys :
      (d : Dict Family)
      → All IsKeyed d
      → map (λ (f : Family). f.key) (map (sorted sort) d) ≡ keys_of d
  sorted-keys [] h = refl
  sorted-keys ((k, f) ∷ d) ((p, q), h) = rw (p, sorted-keys d h) refl

  sorted-AreKeyed :
      ((ts : List Template) → Perm (sort ts) ts)
      → (d : Dict Family) → All IsKeyed d
      → AreKeyed (map (sorted sort) d)
  sorted-AreKeyed g [] h = tt
  sorted-AreKeyed g ((k, f) ∷ d) ((p, q), h) =
      ((λ v m. rw p (q v ((Perm.mem_iff (g f.variants)).0 m))), sorted-AreKeyed g d h)

  -- If `sort` only reorders, the families hold each template as often as the list does, no two
  -- families have the same key, and the templates of a family have its key.
  pub group_by_key-families :
      ((ts : List Template) → Perm (sort ts) ts)
      → (templates : List Template)
      → Perm (variants_of (group_by_key sort templates)) templates
        × Nodup (map (λ (f : Family). f.key) (group_by_key sort templates))
        × AreKeyed (group_by_key sort templates)
  unfolding group_by_key
  group_by_key-families h templates = (
    Perm.trans (sorted-Perm h (collect templates [])) (collect-Perm templates []),
    rw (sorted-keys (collect templates []) (collect-IsKeyed templates [] tt))
        (collect-Nodup templates [] Nodup-nil),
    sorted-AreKeyed h (collect templates []) (collect-IsKeyed templates [] tt),
  )
