-- ===== src/Builder/View.antt =====
-- `BlockView` of frontend/src/pages/tabs/EmailBuilder.tsx: what the canvas draws for a block.
-- The numbers that `Number` reads from a text are floats, which may be negative or fractional; they
-- stay a parameter.
mod Tests
pub mod Bounds
use Prim.Native.Char.{Char, code}
use Prim.Native.String
use Prim.Native.String.{[], ◌∷◌}
use procovar_notify.Prelude.{
  String, ℕ, ◌≡◌, Bool, true, false, ◌&&◌, ◌||◌, Option, none, some, List, [], ◌∷◌, ◌==◌, eqb, leb,
  if◌then◌else◌, lookup,
}
use procovar_notify.Structure.{Section, Theme}
use procovar_notify.Structure.Variables.{size, includes}

-- The platform's floats but NaN: the numerals of the source, the order, and `Number` of a text, `none`
-- for NaN. The numerals are in their order.
pub record Numbers : Type 1 where
  pub Num : Type 0
  pub num : ℕ → Num
  pub le : Num → Num → Bool
  pub number_of : String → Option Num
  pub le-num : (m n : ℕ) → le (num m) (num n) ≡ leb m n

-- What is drawn, by the type of the block; `Num` are the numbers.
pub data BlockShape (Num : Type 0) : Type 0 where
  header_shape :
      (align : String) (logo : Option String) (font_size : Num) (color title : String)
      → BlockShape Num
  text_shape : (align : String) (font_size : Num) (color text : String) → BlockShape Num
  button_shape : (align background text : String) → BlockShape Num
  image_shape : (align : String) (image : Option (String × String)) → BlockShape Num
  vertical_line : (width height : Num) → BlockShape Num
  horizontal_line : (thickness : Num) → BlockShape Num
  spacer_shape : (height : Num) → BlockShape Num
  footer_shape : (align : String) (font_size : Num) (color text : String) → BlockShape Num
  no_shape : BlockShape Num

abbrev pub or_blank : Option String → String
or_blank none = ""
or_blank (some t) = t

-- `p(k)`
unfoldable pub prop : Section → String → String
unfolding lookup
prop s key = or_blank (lookup key s.props)

-- `text || other`
abbrev pub or_text : String → String → String
or_text other t = if t == "" then other else t

unfoldable pub primary : Theme → String
primary theme = or_text "#0ea5e9" (or_blank theme.primary_color)

unfoldable pub align_or : Section → String → String
unfolding prop
align_or s def =
    if includes (prop s "align") ("left" ∷ "center" ∷ "right" ∷ "justify" ∷ [])
    then prop s "align"
    else def

-- `[0-9a-fA-F]`
abbrev is_hex : Char → Bool
is_hex c =
    (leb 48 (code c) && leb (code c) 57)
    || (leb 65 (code c) && leb (code c) 70)
    || (leb 97 (code c) && leb (code c) 102)

unfoldable pub all_hex : String → Bool
all_hex [] = true
all_hex (c ∷ s) = is_hex c && all_hex s

-- `/^#[0-9a-fA-F]{3,8}$/`
unfoldable pub is_color : String → Bool
unfolding all_hex size
is_color [] = false
is_color (c ∷ s) = eqb (code c) 35 && all_hex s && leb 3 (size s) && leb (size s) 8

unfoldable pub color_or : Section → String → String
unfolding prop is_color
color_or s def = if is_color (prop s "color") then prop s "color" else def

module _ (numbers : Numbers) where
  open numbers use {Num, num, le, number_of}

  -- Zero, of either sign, is falsy.
  abbrev pub is_zero : Num → Bool
  is_zero n = le n (num 0) && le (num 0) n

  -- `Number(text) || other`
  abbrev pub or_number : ℕ → Option Num → Num
  or_number other none = num other
  or_number other (some n) = if is_zero n then num other else n

  abbrev pub size_in : ℕ → Option Num → Num
  size_in def none = num def
  size_in def (some n) = if le (num 8) n && le n (num 96) then n else num def

  -- `Math.max(low, n)` and `Math.min(high, n)`
  abbrev pub at_least : ℕ → Num → Num
  at_least low n = if le (num low) n then n else num low

  abbrev pub at_most : ℕ → Num → Num
  at_most high n = if le n (num high) then n else num high

  unfoldable pub font_size : Section → ℕ → Num
  unfolding prop
  font_size s def = size_in def (number_of (prop s "fontSize"))

  unfoldable pub thickness : Section → Num
  unfolding prop
  thickness s = at_most 40 (at_least 1 (or_number 1 (number_of (prop s "thickness"))))

  unfoldable pub line_height : Section → Num
  unfolding prop
  line_height s = at_most 600 (at_least 4 (or_number 40 (number_of (prop s "height"))))

  abbrev if_filled : String → Option String
  if_filled t = if t == "" then none else some t

  unfoldable pub draw_header : Section → BlockShape Num
  unfolding prop align_or font_size color_or
  draw_header s =
      header_shape (align_or s "center") (if_filled (prop s "logoUrl")) (font_size s 22)
        (color_or s "#111111") (or_text "Título" (prop s "title"))

  unfoldable pub draw_text : Section → BlockShape Num
  unfolding prop align_or font_size color_or
  draw_text s =
      text_shape (align_or s "left") (font_size s 15) (color_or s "#333333")
        (or_text "Texto…" (prop s "text"))

  unfoldable pub draw_footer : Section → BlockShape Num
  unfolding prop align_or font_size color_or
  draw_footer s =
      footer_shape (align_or s "center") (font_size s 12) (color_or s "#999999")
        (or_text "Pie…" (prop s "text"))

  unfoldable pub draw_divider : Section → BlockShape Num
  unfolding prop thickness line_height
  draw_divider s =
      if prop s "orientation" == "vertical"
      then vertical_line (thickness s) (line_height s)
      else horizontal_line (thickness s)

  unfoldable pub draw_image : Section → BlockShape Num
  unfolding prop align_or
  draw_image s =
      image_shape (align_or s "center")
        (if prop s "url" == "" then none else some (prop s "url", prop s "alt"))

  unfoldable pub draw_spacer : Section → BlockShape Num
  unfolding prop
  draw_spacer s = spacer_shape (or_number 16 (number_of (prop s "height")))

  unfoldable pub draw_button : Theme → Section → BlockShape Num
  unfolding prop align_or primary
  draw_button theme s =
      button_shape (align_or s "center") (primary theme) (or_text "Botón" (prop s "text"))

  unfoldable pub block_view : Theme → Section → BlockShape Num
  unfolding draw_header draw_text draw_button draw_image draw_divider draw_spacer draw_footer
  block_view theme s =
      if s.type == "header"
      then draw_header s
      else if s.type == "text"
      then draw_text s
      else if s.type == "button"
      then draw_button theme s
      else if s.type == "image"
      then draw_image s
      else if s.type == "divider"
      then draw_divider s
      else if s.type == "spacer"
      then draw_spacer s
      else if s.type == "footer"
      then draw_footer s
      else no_shape
