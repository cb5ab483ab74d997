-- ===== src/Builder/View/Tests.antt =====
-- The bounds at a block with values out of range.
use procovar_notify.Prelude.{
  String, ℕ, leb, Bool, true, false, ◌≡◌, refl, Option, none, some, [], ◌∷◌, ◌==◌, if◌then◌else◌,
}
use procovar_notify.Structure.{Section, Theme}
use procovar_notify.Builder.View.{Numbers, spacer_shape, prop, draw_spacer, block_view}
use procovar_notify.Builder.View.Bounds.{IsBounded, block_view-IsBounded}

-- Numbers with a sign: 500, 0 and -5 are read.
abbrev le : Bool × ℕ → Bool × ℕ → Bool
le (true, m) (true, n) = leb m n
le (true, m) (false, n) = false
le (false, m) (true, n) = true
le (false, m) (false, n) = leb n m

abbrev number_of : String → Option (Bool × ℕ)
number_of t =
    if t == "500"
    then some (true, 500)
    else if t == "0"
    then some (true, 0)
    else if t == "-5"
    then some (false, 5)
    else none

abbrev numbers : Numbers
numbers = record {
  Num = Bool × ℕ;
  num = λ n. (true, n);
  le = le;
  number_of = number_of;
  le-num = λ m n. refl;
}

abbrev theme : Theme
theme = record { primary_color = some ""; font_family = none; font_import = none }

abbrev line : Section
line = record {
  id = "b1";
  type = "divider";
  props = ("orientation", "vertical") ∷ ("thickness", "500") ∷ ("height", "0") ∷ [];
}

block_view-IsBounded_example : IsBounded numbers (block_view numbers theme line)
block_view-IsBounded_example = block_view-IsBounded numbers theme line

abbrev space : Section
space = record { id = "b2"; type = "spacer"; props = ("height", "-5") ∷ [] }

-- The height of a space may be negative.
block_view-negative : block_view numbers theme space ≡ spacer_shape (false, 5)
unfolding block_view draw_spacer prop
block_view-negative = refl
