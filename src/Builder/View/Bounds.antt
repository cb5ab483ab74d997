-- ===== src/Builder/View/Bounds.antt =====
-- The sizes, colors and alignments that the canvas draws stay within their bounds.
use procovar_notify.Prelude.{
  String, ℕ, leb, ◌∙◌, ◌≡◌, refl, Bool, true, false, Option, none, some, [], ◌∷◌, ◌==◌,
  if◌then◌else◌, Bool-cases, inl, inr, arith,
}
use procovar_notify.Structure.{Section, Theme}
use procovar_notify.Structure.Variables.{includes, size}
use procovar_notify.Builder.View.{
  Numbers, is_zero, at_least, at_most, BlockShape, header_shape, text_shape, button_shape,
  image_shape, vertical_line, horizontal_line, spacer_shape, footer_shape, no_shape, primary,
  or_blank, prop, align_or, is_color, all_hex, color_or, or_number, size_in, font_size, thickness,
  line_height, draw_header, draw_text, draw_footer, draw_divider, draw_image, draw_spacer,
  draw_button, block_view,
}

abbrev pub IsAlign : String → Type 0
IsAlign a = includes a ("left" ∷ "center" ∷ "right" ∷ "justify" ∷ []) ≡ true

abbrev pub IsColor : String → Type 0
IsColor c = is_color c ≡ true

leb_refl : (n : ℕ) → leb n n ≡ true
leb_refl n = ground arith

dark : IsColor "#111111"
unfolding is_color all_hex size
dark = refl

grey : IsColor "#333333"
unfolding is_color all_hex size
grey = refl

light : IsColor "#999999"
unfolding is_color all_hex size
light = refl

align_or-IsAlign : (s : Section) (def : String) → IsAlign def → IsAlign (align_or s def)
unfolding align_or
align_or-IsAlign s def h =
    elim (Bool-cases (includes (prop s "align") ("left" ∷ "center" ∷ "right" ∷ "justify" ∷ []))) [
      | inl b ↦ rw b b
      | inr b ↦ rw b h
    ]

color_or-IsColor : (s : Section) (def : String) → IsColor def → IsColor (color_or s def)
unfolding color_or
color_or-IsColor s def h = elim (Bool-cases (is_color (prop s "color"))) [
  | inl b ↦ rw b b
  | inr b ↦ rw b h
]

or_text-filled :
    (other t : String) → (other == "") ≡ false → ((if t == "" then other else t) == "") ≡ false
or_text-filled other t h = elim (Bool-cases (t == "")) [ inl b ↦ rw b h | inr b ↦ rw b b ]

module _ (numbers : Numbers) where
  open numbers use {Num, num, le, number_of, le-num}

  abbrev pub IsBetween : ℕ → ℕ → Num → Type 0
  IsBetween low high n = (le (num low) n ≡ true) × (le n (num high) ≡ true)

  -- The bounds of what is drawn.
  abbrev pub IsBounded : BlockShape Num → Type 0
  IsBounded (header_shape align logo size color title) =
      IsAlign align × IsBetween 8 96 size × IsColor color × ((title == "") ≡ false)
  IsBounded (text_shape align size color text) =
      IsAlign align × IsBetween 8 96 size × IsColor color × ((text == "") ≡ false)
  IsBounded (button_shape align background text) =
      IsAlign align × ((background == "") ≡ false) × ((text == "") ≡ false)
  IsBounded (image_shape align image) = IsAlign align
  IsBounded (vertical_line width height) = IsBetween 1 40 width × IsBetween 4 600 height
  IsBounded (horizontal_line width) = IsBetween 1 40 width
  IsBounded (spacer_shape height) = is_zero numbers height ≡ false
  IsBounded (footer_shape align size color text) =
      IsAlign align × IsBetween 8 96 size × IsColor color × ((text == "") ≡ false)
  IsBounded no_shape = Unit

  size_in-IsBetween :
      (def : ℕ) (o : Option Num) → IsBetween 8 96 (num def) → IsBetween 8 96 (size_in numbers def o)
  size_in-IsBetween def none h = h
  size_in-IsBetween def (some n) h = elim (Bool-cases (le (num 8) n)) [
    | inl low ↦ elim (Bool-cases (le n (num 96))) [
      | inl high ↦ rw (low, high) (low, high)
      | inr high ↦ rw (low, high) h
    ]
    | inr low ↦ rw low h
  ]

  numeral : (low n high : ℕ) → leb low n ≡ true → leb n high ≡ true → IsBetween low high (num n)
  numeral low n high p q = (le-num low n ∙ p, le-num n high ∙ q)

  -- `Math.min(high, Math.max(low, n))`
  clamped :
      (low high : ℕ) (n : Num)
      → leb low high ≡ true
      → IsBetween low high (at_most numbers high (at_least numbers low n))
  clamped low high n h = elim (Bool-cases (le (num low) n)) [
    | inl above ↦ elim (Bool-cases (le n (num high))) [
      | inl below ↦ rw above (rw below (above, below))
      | inr below ↦ rw above (rw below (numeral low high high h (leb_refl high)))
    ]
    | inr above ↦ rw above (rw (le-num low high ∙ h) (numeral low low high (leb_refl low) h))
  ]

  or_number-ne-zero :
      (other : ℕ) (o : Option Num)
      → is_zero numbers (num other) ≡ false
      → is_zero numbers (or_number numbers other o) ≡ false
  or_number-ne-zero other none h = h
  or_number-ne-zero other (some n) h = elim (Bool-cases (is_zero numbers n)) [
    | inl e ↦ rw e h
    | inr e ↦ rw e e
  ]

  IsBounded-if :
      (b : Bool) (x y : BlockShape Num) → IsBounded x → IsBounded y → IsBounded (if b then x else y)
  IsBounded-if true x y p q = p
  IsBounded-if false x y p q = q

  font_size-IsBetween :
      (s : Section) (def : ℕ) → IsBetween 8 96 (num def) → IsBetween 8 96 (font_size numbers s def)
  unfolding font_size
  font_size-IsBetween s def h = size_in-IsBetween def (number_of (prop s "fontSize")) h

  divider-IsBounded : (s : Section) → IsBounded (draw_divider numbers s)
  unfolding draw_divider thickness line_height
  divider-IsBounded s =
      IsBounded-if (prop s "orientation" == "vertical")
        (vertical_line (thickness numbers s) (line_height numbers s))
        (horizontal_line (thickness numbers s)) (clamped 1 40 _ refl, clamped 4 600 _ refl)
        (clamped 1 40 _ refl)

  header-IsBounded : (s : Section) → IsBounded (draw_header numbers s)
  unfolding draw_header
  header-IsBounded s = (
    align_or-IsAlign s "center" refl,
    font_size-IsBetween s 22 (numeral 8 22 96 refl refl),
    color_or-IsColor s "#111111" dark,
    or_text-filled "Título" (prop s "title") refl,
  )

  text-IsBounded : (s : Section) → IsBounded (draw_text numbers s)
  unfolding draw_text
  text-IsBounded s = (
    align_or-IsAlign s "left" refl,
    font_size-IsBetween s 15 (numeral 8 15 96 refl refl),
    color_or-IsColor s "#333333" grey,
    or_text-filled "Texto…" (prop s "text") refl,
  )

  footer-IsBounded : (s : Section) → IsBounded (draw_footer numbers s)
  unfolding draw_footer
  footer-IsBounded s = (
    align_or-IsAlign s "center" refl,
    font_size-IsBetween s 12 (numeral 8 12 96 refl refl),
    color_or-IsColor s "#999999" light,
    or_text-filled "Pie…" (prop s "text") refl,
  )

  button-IsBounded : (theme : Theme) (s : Section) → IsBounded (draw_button numbers theme s)
  unfolding draw_button primary
  button-IsBounded theme s = (
    align_or-IsAlign s "center" refl,
    or_text-filled "#0ea5e9" (or_blank theme.primary_color) refl,
    or_text-filled "Botón" (prop s "text") refl,
  )

  image-IsBounded : (s : Section) → IsBounded (draw_image numbers s)
  unfolding draw_image
  image-IsBounded s = align_or-IsAlign s "center" refl

  spacer-IsBounded : (s : Section) → IsBounded (draw_spacer numbers s)
  unfolding draw_spacer
  spacer-IsBounded s = or_number-ne-zero 16 (number_of (prop s "height")) (rw (le-num 16 0) refl)

  -- Whatever the props of a block hold, a font is drawn with 8 to 96 pixels, a line with a thickness
  -- of 1 to 40 and a height of 4 to 600, a space with a height that is not zero, an alignment is
  -- one of the four, a color is a hexadecimal one, and no text and no background of a button is
  -- blank.
  pub block_view-IsBounded : (theme : Theme) (s : Section) → IsBounded (block_view numbers theme s)
  unfolding block_view
  block_view-IsBounded theme s =
      IsBounded-if (s.type == "header") (draw_header numbers s) _ (header-IsBounded s) (
        IsBounded-if (s.type == "text") (draw_text numbers s) _ (text-IsBounded s) (
          IsBounded-if (s.type == "button") (draw_button numbers theme s) _
            (button-IsBounded theme s)
            (IsBounded-if (s.type == "image") (draw_image numbers s) _ (image-IsBounded s) (
              IsBounded-if (s.type == "divider") (draw_divider numbers s) _ (divider-IsBounded s) (
                IsBounded-if (s.type == "spacer") (draw_spacer numbers s) _ (spacer-IsBounded s) (
                  IsBounded-if (s.type == "footer") (draw_footer numbers s) no_shape
                    (footer-IsBounded s) tt))))))
