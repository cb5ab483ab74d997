-- ===== src/Structure/Variables/Scan.antt =====
-- The pattern of `scanInto` on a text that holds `{{name}}`.
use Prim.Native.Char.{Char, code}
use Prim.Native.String
use Prim.Native.String.{[], ◌∷◌}
use native.Mathlib.Nat.{zero-add, suc-add}
use text.Mathlib.TextLemmas.{nil-append, cons-append}
use procovar_notify.Prelude.{
  eqb_ne, String, ℕ, suc, ◌+◌, ◌≡◌, refl, ◌∙◌, ap, ◌≢◌, true, false, none, some, [], ◌∷◌, arith,
}
use procovar_notify.Structure.Variables.{
  space, strip_right, trim, size, until_brace, may_start, group_of, match_body, match_at, groups,
}

-- No "{" in the text.
abbrev pub NoOpen : String → Type 0
NoOpen [] = Unit
NoOpen (c ∷ s) = (code c ≢ b'{') × NoOpen s

-- A character that may stand in a name, or between its parts.
abbrev pub IsPlain : Char → Type 0
IsPlain c = (space c ≡ false) × (code c ≢ b'}') × (code c ≢ b'#') × (code c ≢ b'/')

abbrev pub ArePlain : String → Type 0
ArePlain [] = Unit
ArePlain (c ∷ s) = IsPlain c × ArePlain s

-- The text "{{" + name + "}}" + rest, by its characters.
abbrev pub in_braces : String → String → String
in_braces name rest = ◌∷◌ "{" (◌∷◌ "{" (String.◌++◌ name (◌∷◌ "}" (◌∷◌ "}" rest))))

match_at-none : (c : Char) (s : String) → code c ≢ b'{' → match_at (c ∷ s) ≡ none
unfolding match_at
match_at-none c [] h = refl
match_at-none c (d ∷ s) h = ground arith

pub groups-append :
    (text rest : String) → NoOpen text → groups 0 (String.◌++◌ text rest) ≡ groups 0 rest
unfolding groups
groups-append [] rest h = rw nil-append refl
groups-append (c ∷ s) rest (p, h) =
    rw cons-append (rw (match_at-none c (String.◌++◌ s rest) p, groups) (groups-append s rest h))

pub groups_none : (text : String) → NoOpen text → groups 0 text ≡ []
unfolding groups
groups_none [] h = refl
groups_none (c ∷ s) (p, h) = rw (match_at-none c s p, groups) (groups_none s h)

until_brace-append :
    (name rest : String)
    → ArePlain name
    → until_brace (String.◌++◌ name (◌∷◌ "}" (◌∷◌ "}" rest))) ≡ (name, ◌∷◌ "}" (◌∷◌ "}" rest))
unfolding until_brace
until_brace-append [] rest h = rw nil-append refl
until_brace-append (c ∷ s) rest (p, h) =
    rw cons-append (rw (until_brace-append s rest h, eqb_ne (code c) b'}' p.1) refl)

strip_right-plain : (s : String) → ArePlain s → strip_right s ≡ s
unfolding strip_right
strip_right-plain [] h = refl
strip_right-plain (c ∷ []) (p, h) = rw p.0 refl
strip_right-plain (c ∷ d ∷ s) (p, h) = rw (strip_right-plain (d ∷ s) h) refl

may_start-plain : (c : Char) → IsPlain c → may_start c ≡ true
unfolding may_start
may_start-plain c p = rw (eqb_ne (code c) b'#' p.2, eqb_ne (code c) b'/' p.3) refl

pub group_of-plain : (c : Char) (s : String) → ArePlain (c ∷ s) → group_of (c ∷ s) ≡ some (c ∷ s)
unfolding group_of
group_of-plain c s (p, h) = rw (p.0, may_start-plain c p) (rw (strip_right-plain s h) refl)

pub trim-plain : (c : Char) (s : String) → ArePlain (c ∷ s) → trim (c ∷ s) ≡ c ∷ s
unfolding trim
trim-plain c s (p, h) = rw p.0 (strip_right-plain (c ∷ s) (p, h))

groups_skip :
    (k : ℕ) (text rest : String) → groups (size text + k) (String.◌++◌ text rest) ≡ groups k rest
unfolding groups size
groups_skip k [] rest = rw (nil-append, zero-add) refl
groups_skip k (c ∷ s) rest = rw (cons-append, suc-add) (groups_skip k s rest)

match_at_lem : (s : String) → match_at (◌∷◌ "{" (◌∷◌ "{" s)) ≡ match_body (until_brace s)
unfolding match_at
match_at_lem s = refl

match_body_lem :
    (body rest g : String)
    → group_of body ≡ some g
    → match_body (body, ◌∷◌ "}" (◌∷◌ "}" rest)) ≡ some (g, size body + 3)
unfolding match_body
match_body_lem body rest g e = ap (λ o. elim o [ none ↦ none | some g ↦ some (g, size body + 3) ]) e

match_at-in_braces :
    (c : Char) (s rest : String)
    → ArePlain (c ∷ s)
    → match_at (in_braces (c ∷ s) rest) ≡ some (c ∷ s, size (c ∷ s) + 3)
match_at-in_braces c s rest h =
    match_at_lem _
    ∙ ap match_body (until_brace-append (c ∷ s) rest h)
    ∙ match_body_lem (c ∷ s) rest (c ∷ s) (group_of-plain c s h)

-- A name in braces is matched, and the search goes on behind the braces.
pub groups-in_braces :
    (c : Char) (s rest : String)
    → ArePlain (c ∷ s)
    → groups 0 (in_braces (c ∷ s) rest) ≡ ◌∷◌ (c ∷ s) (groups 0 rest)
unfolding groups
groups-in_braces c s rest h =
    rw (match_at-in_braces c s rest h, groups) (ap (λ l. ◌∷◌ (c ∷ s) l) (passed ∙ skipped))
  where
    behind : String
    behind = String.◌++◌ (c ∷ s) (◌∷◌ "}" (◌∷◌ "}" rest))

    skipped : groups (size (c ∷ s) + 2) behind ≡ groups 0 rest
    skipped = groups_skip 2 (c ∷ s) (◌∷◌ "}" (◌∷◌ "}" rest))

    passed : groups (size (c ∷ s) + 3) (◌∷◌ "{" behind) ≡ groups (size (c ∷ s) + 2) behind
    passed = let e : size (c ∷ s) + 3 ≡ suc (size (c ∷ s) + 2) = omega arith in rw e refl
