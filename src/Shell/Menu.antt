-- ===== src/Shell/Menu.antt =====
-- frontend/src/components/UserMenu.tsx: the label of the role, the initials, and the entries.
-- `to_upper` is the platform's `toUpperCase`.
use Prim.Native.Char.{Char, code}
use Prim.Native.String
use Prim.Native.String.{[], ◌∷◌}
use procovar_notify.Prelude.{
  String, ℕ, zero, suc, Bool, ◌||◌, not, Option, none, some, List, [], ◌∷◌, ◌++◌, ◌==◌, eqb,
  if◌then◌else◌, keep, Dict, lookup,
}

abbrev role_label : Dict String
role_label = ("SUPER_ADMIN", "Super admin") ∷ ("APP_ADMIN", "Admin de aplicación") ∷ []

-- `email.split("@")[0]`
unfoldable pub before_at : String → String
before_at [] = []
before_at (c ∷ s) = let rest = before_at s in if eqb (code c) b'@' then [] else ◌∷◌ c rest

-- `[._-]`
abbrev is_break : Char → Bool
is_break c = eqb (code c) b'.' || eqb (code c) b'_' || eqb (code c) b'-'

abbrev cons_first : Char → List String → List String
cons_first c [] = ◌∷◌ c [] ∷ []
cons_first c (l ∷ ls) = ◌∷◌ c l ∷ ls

-- `name.split(/[._-]+/).filter(Boolean)`: the parts that are not blank are those between breaks.
unfoldable pub split_breaks : String → List String
split_breaks [] = [] ∷ []
split_breaks (c ∷ s) =
    let rest = split_breaks s in if is_break c then [] ∷ rest else cons_first c rest

unfoldable pub parts_of : String → List String
unfolding split_breaks
parts_of name = keep (λ p. not (p == "")) (split_breaks name)

-- `text.slice(0, n)`
unfoldable pub take_text : ℕ → String → String
take_text zero s = []
take_text (suc n) [] = []
take_text (suc n) (c ∷ s) = ◌∷◌ c (take_text n s)

abbrev two_letters : String → List String → String
two_letters name [] = take_text 2 name
two_letters name (p ∷ []) = take_text 2 name
two_letters name (p ∷ q ∷ ps) = String.◌++◌ (take_text 1 p) (take_text 1 q)

abbrev or_else : String → Option String → String
or_else other none = other
or_else other (some t) = t

module _ (to_upper : String → String) where
  -- `initials` of the address of an administrator, if it is not blank, or of the role.
  unfoldable pub initials : Option String → Option String → String
  unfolding before_at parts_of take_text
  initials email role =
      if or_else "" email == ""
      then take_text 1 (or_else "U" role)
      else to_upper
          (two_letters (before_at (or_else "" email)) (parts_of (before_at (or_else "" email))))

unfoldable pub label_of : String → String
unfolding lookup
label_of role = or_else role (lookup role role_label)

-- The entries of the menu.
pub data Entry : Type 0 where
  admins_entry sign_out_entry : Entry

unfoldable pub entries : String → List Entry
entries role = (if role == "SUPER_ADMIN" then admins_entry ∷ [] else []) ++ sign_out_entry ∷ []
