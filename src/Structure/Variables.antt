-- ===== src/Structure/Variables.antt =====
-- `scanInto`, `detectVariablesInText` and `detectVariables` of
-- frontend/src/pages/tabs/TemplateBuilder.tsx. A text is its characters; the source counts UTF-16
-- units, which changes nothing here, since all characters that the pattern names are single units.
mod Tests
pub mod Scan
pub mod Names
pub mod Insertion
pub mod Field
pub mod Sources
use Prim.Native.Char.{Char, code}
use Prim.Native.String.{[], ◌∷◌}
use procovar_notify.Prelude.{
  String, ℕ, zero, suc, ◌+◌, Bool, true, false, not, ◌&&◌, ◌||◌, Option, none, some, List, [], ◌∷◌,
  ◌++◌, ◌==◌, eqb, leb, if◌then◌else◌, Dict,
}
use procovar_notify.Structure.Data.{Section, Structure, blocks_of}

-- `\s` in a pattern, and what `trim` takes away.
unfoldable pub is_space : ℕ → Bool
is_space n =
    (leb 9 n && leb n 13)
    || eqb n 32
    || eqb n 160
    || eqb n 5760
    || (leb 8192 n && leb n 8202)
    || eqb n 8232
    || eqb n 8233
    || eqb n 8239
    || eqb n 8287
    || eqb n 12288
    || eqb n 65279

abbrev pub space : Char → Bool
space c = is_space (code c)

unfoldable pub strip_left : String → String
strip_left [] = []
strip_left (c ∷ s) = if space c then strip_left s else c ∷ s

abbrev cons_unless_blank : Char → String → String
cons_unless_blank c [] = if space c then [] else c ∷ []
cons_unless_blank c (d ∷ s) = c ∷ d ∷ s

unfoldable pub strip_right : String → String
strip_right [] = []
strip_right (c ∷ s) = cons_unless_blank c (strip_right s)

unfoldable pub trim : String → String
unfolding strip_left strip_right
trim s = strip_right (strip_left s)

unfoldable pub size : String → ℕ
size [] = 0
size (c ∷ s) = suc (size s)

-- The characters before the first "}", and the text from there.
unfoldable pub until_brace : String → String × String
until_brace [] = ([], [])
until_brace (c ∷ s) =
    let (body, rest) = until_brace s in if eqb (code c) b'}' then ([], c ∷ s) else (c ∷ body, rest)

-- "}}" comes next.
unfoldable pub closes : String → Bool
closes (c ∷ d ∷ s) = eqb (code c) b'}' && eqb (code d) b'}'
closes _ = false

-- `[^}#/]` on a character that is no "}".
unfoldable pub may_start : Char → Bool
may_start c = not (eqb (code c) b'#' || eqb (code c) b'/')

-- The last of the blanks that a text starts with.
unfoldable pub last_blank : Option Char → String → Option Char
last_blank before [] = before
last_blank before (c ∷ s) = if space c then last_blank (some c) s else before

-- The group when `\s*` gives one blank back: the group starts with that blank.
abbrev given_back : Option Char → String → Option String
given_back none rest = none
given_back (some c) rest = some (c ∷ strip_right rest)

abbrev group_from : Option Char → String → Option String
group_from blank [] = given_back blank []
group_from blank (c ∷ s) =
    if may_start c then some (c ∷ strip_right s) else given_back blank (c ∷ s)

-- The first group of the pattern on the text between the braces: `\s*` takes the blanks, and gives
-- one back if what follows them may not start the group; the lazy part leaves the blanks before
-- the braces to the second `\s*`.
unfoldable pub group_of : String → Option String
unfolding last_blank strip_left strip_right may_start
group_of body = group_from (last_blank none body) (strip_left body)

-- The match that begins here: the group, and the number of characters after the first.
unfoldable pub match_body : String × String → Option (String × ℕ)
unfolding closes group_of size
match_body (body, rest) =
    if closes rest
    then elim (group_of body) [ none ↦ none | some g ↦ some (g, size body + 3) ]
    else none

unfoldable pub match_at : String → Option (String × ℕ)
unfolding until_brace match_body
match_at (c ∷ d ∷ s) =
    if eqb (code c) b'{' && eqb (code d) b'{' then match_body (until_brace s) else none
match_at _ = none

-- `text.matchAll(...)`: the groups. The number counts the characters of the last match still to
-- be passed over.
unfoldable pub groups : ℕ → String → List String
unfolding match_at
groups n [] = []
groups (suc n) (c ∷ s) = groups n s
groups zero (c ∷ s) = elim (match_at (c ∷ s)) [
  | none ↦ groups zero s
  | some (g, n) ↦ g ∷ groups n s
]

-- `split(/[\s.]/)[0]`
unfoldable pub first_segment : String → String
first_segment [] = []
first_segment (c ∷ s) = if space c || eqb (code c) b'.' then [] else c ∷ first_segment s

unfoldable pub name_of : String → String
unfolding trim first_segment
name_of group = first_segment (trim group)

-- `name && !name.startsWith("#") && !name.startsWith("/")`
unfoldable pub is_name : String → Bool
is_name [] = false
is_name (c ∷ s) = not (eqb (code c) b'#') && not (eqb (code c) b'/')

abbrev pub includes : String → List String → Bool
includes v [] = false
includes v (x ∷ xs) = x == v || includes v xs

-- A Set as the list of its values in insertion order.
unfoldable pub add : List String → String → List String
add found v = if includes v found then found else found ++ v ∷ []

unfoldable pub add_names : List String → List String → List String
unfolding name_of is_name add
add_names found [] = found
add_names found (g ∷ gs) =
    add_names (if is_name (name_of g) then add found (name_of g) else found) gs

unfoldable pub scan_into : List String → String → List String
unfolding groups add_names
scan_into found text = add_names found (groups 0 text)

unfoldable pub detect_variables_in_text : String → List String
unfolding scan_into
detect_variables_in_text text = scan_into [] text

unfoldable pub scan_props : List String → Dict String → List String
unfolding scan_into
scan_props found [] = found
scan_props found ((k, v) ∷ props) = scan_props (scan_into found v) props

unfoldable pub scan_blocks : List String → List Section → List String
unfolding scan_props
scan_blocks found [] = found
scan_blocks found (b ∷ bs) = scan_blocks (scan_props found b.props) bs

unfoldable pub detect_variables : Structure → String → List String
unfolding scan_into scan_blocks blocks_of
detect_variables structure subject = scan_blocks (scan_into [] subject) (blocks_of structure)
