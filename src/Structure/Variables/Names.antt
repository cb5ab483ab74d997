-- ===== src/Structure/Variables/Names.antt =====
-- What `detectVariables` returns: a list of names without repeats, none of them a helper.
use Prim.Native.Char.{code}
use Prim.Native.String.{[], ◌∷◌}
use procovar_notify.Prelude.{
  eq_symm, String, ◌≡◌, refl, ◌∙◌, inl, inr, Bool, true, false, ◌||◌, List, [], ◌∷◌, ◌++◌, ◌==◌,
  eq_refl, eqb, if◌then◌else◌, arith, Bool-cases, String-cases, All, All-append, Dict,
}
use procovar_notify.Structure.{Section, Structure, blocks_of}
use procovar_notify.Structure.Variables.{
  space, first_segment, name_of, is_name, includes, add, add_names, groups, scan_into, scan_props,
  scan_blocks, detect_variables,
}

-- No blank and no dot in the text.
abbrev pub NoSeparator : String → Type 0
NoSeparator [] = Unit
NoSeparator (c ∷ s) = ((space c || eqb (code c) b'.') ≡ false) × NoSeparator s

first_segment-NoSeparator : (s : String) → NoSeparator (first_segment s)
unfolding first_segment
first_segment-NoSeparator [] = tt
first_segment-NoSeparator (c ∷ s) = elim (Bool-cases (space c || eqb (code c) b'.')) [
  | inl cut ↦ rw cut tt
  | inr on ↦ rw on (on, first_segment-NoSeparator s)
]

name_of-NoSeparator : (g : String) → NoSeparator (name_of g)
unfolding name_of
name_of-NoSeparator g = first_segment-NoSeparator _

abbrev pub NoRepeat : List String → Type 0
NoRepeat [] = Unit
NoRepeat (x ∷ xs) = (includes x xs ≡ false) × NoRepeat xs

-- Distinct names that are not empty, start with neither "#" nor "/", and hold no blank and no dot.
pub record AreNames (found : List String) : Type 0 where
  pub distinct : NoRepeat found
  pub named : All (λ v. is_name v ≡ true) found
  pub rooted : All NoSeparator found

includes-append :
    (v : String) (xs ys : List String) → includes v (xs ++ ys) ≡ (includes v xs || includes v ys)
includes-append v [] ys = refl
includes-append v (x ∷ xs) ys = ground (arith, includes-append v xs ys)

pub includes-add :
    (v w : String) (found : List String) → includes v (add found w) ≡ (includes v found || w == v)
unfolding add
includes-add v w found = elim (String-cases w v) [
  | inl (p, e) ↦ rw (p, eq_refl v) (when_same (includes v found) refl)
  | inr (p, e) ↦ rw e (when_other (includes w found) e)
]
  where
    when_same :
        (b : Bool)
        → includes v found ≡ b
        → includes v (if b then found else found ++ v ∷ []) ≡ (b || true)
    when_same true h = h
    when_same false h = rw includes-append (rw (h, eq_refl v) refl)

    when_other :
        (b : Bool)
        → (w == v) ≡ false
        → includes v (if b then found else found ++ w ∷ []) ≡ (includes v found || false)
    when_other true e = ground arith
    when_other false e = rw includes-append (rw e refl)

NoRepeat-append :
    (xs : List String) (v : String) → NoRepeat xs → includes v xs ≡ false → NoRepeat (xs ++ v ∷ [])
NoRepeat-append [] v h e = (refl, tt)
NoRepeat-append (x ∷ xs) v (p, h) e = (front, NoRepeat-append xs v h rest)
  where
    rest : includes v xs ≡ false
    rest = ground (arith, e)

    other : (v == x) ≡ false
    other = eq_symm v x ∙ ground (arith, e)

    front : includes x (xs ++ v ∷ []) ≡ false
    front = rw includes-append (rw (p, other) refl)

AreNames-empty : AreNames []
AreNames-empty = record { distinct = tt; named = tt; rooted = tt }

AreNames-add :
    (found : List String) (v : String)
    → AreNames found
    → is_name v ≡ true
    → NoSeparator v
    → AreNames (add found v)
unfolding add
AreNames-add found v h named rooted = go (includes v found) refl
  where
    go : (b : Bool) → includes v found ≡ b → AreNames (if b then found else found ++ v ∷ [])
    go true e = h
    go false e = record {
      distinct = NoRepeat-append found v h.distinct e;
      named = All-append _ found (v ∷ []) h.named (named, tt);
      rooted = All-append _ found (v ∷ []) h.rooted (rooted, tt);
    }

AreNames-add_names : (gs found : List String) → AreNames found → AreNames (add_names found gs)
unfolding add_names
AreNames-add_names [] found h = h
AreNames-add_names (g ∷ gs) found h =
    AreNames-add_names gs (if is_name (name_of g) then add found (name_of g) else found)
      (go (is_name (name_of g)) refl)
  where
    go :
        (b : Bool) → is_name (name_of g) ≡ b → AreNames (if b then add found (name_of g) else found)
    go true e = AreNames-add found (name_of g) h e (name_of-NoSeparator g)
    go false e = h

AreNames-scan_into :
    (found : List String) (text : String) → AreNames found → AreNames (scan_into found text)
unfolding scan_into
AreNames-scan_into found text h = AreNames-add_names (groups 0 text) found h

AreNames-scan_props :
    (props : Dict String) (found : List String) → AreNames found → AreNames (scan_props found props)
unfolding scan_props
AreNames-scan_props [] found h = h
AreNames-scan_props ((k, v) ∷ props) found h =
    AreNames-scan_props props (scan_into found v) (AreNames-scan_into found v h)

AreNames-scan_blocks :
    (bs : List Section) (found : List String) → AreNames found → AreNames (scan_blocks found bs)
unfolding scan_blocks
AreNames-scan_blocks [] found h = h
AreNames-scan_blocks (b ∷ bs) found h =
    AreNames-scan_blocks bs (scan_props found b.props) (AreNames-scan_props b.props found h)

-- Whatever the structure and the subject, the detected variables are distinct, and each is a text
-- that is not empty, starts with neither "#" nor "/", and holds no blank and no dot.
pub detect_variables-AreNames :
    (structure : Structure) (subject : String) → AreNames (detect_variables structure subject)
unfolding detect_variables
detect_variables-AreNames structure subject =
    AreNames-scan_blocks (blocks_of structure) (scan_into [] subject)
      (AreNames-scan_into [] subject AreNames-empty)
