-- ===== src/Graphics/Font.antt =====
-- graphics.rs: the font, as it is read from the lines of font.txt, and the text. A character is its
-- code.
use original_os_with_rust.Prelude.{
  ℕ, zero, suc, ◌+◌, ◌-◌, ◌*◌, ltb, leb, ◌==◌, ◌&&◌, if◌then◌else◌, Option, none, some, Result, ok,
  err, panic, ◌>>=◌, List, [], ◌∷◌, get_or, set, replicate,
}
use original_os_with_rust.Words.Ops.{add_word, sub_word}
use original_os_with_rust.Graphics.{Bitmap, mul_word, draw_point}

abbrev pub Glyph : Type 0
Glyph = List (List ℕ)

abbrev pub star : ℕ
star = 42

-- A digit of a number in hexadecimal.
abbrev hex_digit : ℕ → Option ℕ
hex_digit c =
    if leb 48 c && leb c 57
    then some (c - 48)
    else if leb 97 c && leb c 102
    then some (c - 87)
    else if leb 65 c && leb c 70
    then some (c - 55)
    else none

abbrev pub hex_from : ℕ → List ℕ → Option ℕ
hex_from n [] = some n
hex_from n (c ∷ cs) = elim (hex_digit c) [ none ↦ none | some d ↦ hex_from (n * 16 + d) cs ]

abbrev pub hex_number : List ℕ → Option ℕ
hex_number [] = none
hex_number (c ∷ cs) = hex_from 0 (c ∷ cs)

abbrev below : ℕ → Option ℕ → Option ℕ
below limit none = none
below limit (some n) = if ltb n limit then some n else none

abbrev negated : Option ℕ → Option ℕ
negated none = none
negated (some n) = some (sub_word 64 0 n)

-- `i8::from_str_radix(line, 16)`, cast to `usize`.
unfoldable pub index_from_hex : List ℕ → Option ℕ
index_from_hex [] = none
index_from_hex (c ∷ cs) =
    if c == 43
    then below 128 (hex_number cs)
    else if c == 45
    then negated (below 129 (hex_number cs))
    else below 128 (hex_number (c ∷ cs))

-- `strip_prefix("0x")`, and the index.
unfoldable pub header_index : List ℕ → Option ℕ
header_index (a ∷ b ∷ line) = if (a == 48) && (b == 120) then index_from_hex line else none
header_index _ = none

-- The first `n` characters of a line, in a row of stars.
unfoldable pub row_of : ℕ → List ℕ → List ℕ
row_of zero line = []
row_of (suc n) [] = star ∷ row_of n []
row_of (suc n) (c ∷ line) = c ∷ row_of n line

-- The first `n` lines, in a glyph of stars.
unfoldable pub glyph_of : ℕ → List (List ℕ) → Glyph
glyph_of zero lines = []
glyph_of (suc n) [] = row_of 8 [] ∷ glyph_of n []
glyph_of (suc n) (line ∷ lines) = row_of 8 line ∷ glyph_of n lines

-- The loop over the lines; an index out of the font panics.
unfoldable pub read_font : List (List ℕ) → List Glyph → Result (List Glyph)
read_font [] font = ok font
read_font (line ∷ lines) font =
    let skip = read_font lines font in
    elim (header_index line) [
      | none ↦ skip
      | some idx ↦
          let rest = read_font lines (set font idx (glyph_of 16 lines)) in
          if ltb idx 256 then rest else err panic
    ]

abbrev pub starred_glyph : Glyph
starred_glyph = replicate 16 (replicate 8 star)

-- What the cache of `lookup_font` is filled with.
unfoldable pub font_cache : List (List ℕ) → Result (List Glyph)
font_cache source = read_font source (replicate 256 starred_glyph)

-- A loop over `iter().enumerate()` that draws, from the index `i` on.
unfoldable pub for_each : {A : Type 0} → (ℕ → A → Bitmap → Bitmap) → ℕ → List A → Bitmap → Bitmap
for_each draw i [] b = b
for_each draw i (a ∷ rest) b = for_each draw (i + 1) rest (draw i a b)

-- `let _ = draw_point(..)` for a star.
unfoldable pub draw_font_pixel : (color x y : ℕ) → ℕ → ℕ → ℕ → Bitmap → Bitmap
draw_font_pixel color x y dy dx pixel b =
    if pixel == star then (draw_point b color (add_word 64 x dx) (add_word 64 y dy)).0 else b

abbrev pub draw_row : (color x y : ℕ) → ℕ → List ℕ → Bitmap → Bitmap
draw_row color x y dy row b = for_each (draw_font_pixel color x y dy) 0 row b

-- `lookup_font`: the first call that gets past the test of the character reads the font, and each later
-- one finds what that one has read.
unfoldable pub lookup_font : (source : List (List ℕ)) → ℕ → Result (Option Glyph)
lookup_font source c =
    if ltb c 256 then (font_cache source >>= λ font. ok (some (get_or font c []))) else ok none

unfoldable pub draw_font_fg : (source : List (List ℕ)) → Bitmap → (x y color c : ℕ) → Result Bitmap
draw_font_fg source b x y color c = lookup_font source c >>= λ found. elim found [
  | none ↦ ok b
  | some glyph ↦ ok (for_each (draw_row color x y) 0 glyph b)
]

-- The loop of `draw_str_fg` from the index `i` on.
unfoldable pub draw_chars :
    (source : List (List ℕ)) (x y color i : ℕ) → List ℕ → Bitmap → Result Bitmap
draw_chars source x y color i [] b = ok b
draw_chars source x y color i (c ∷ s) b =
    draw_font_fg source b (add_word 64 x (mul_word i 8)) y color c
    >>= draw_chars source x y color (i + 1) s

unfoldable pub draw_str_fg :
    (source : List (List ℕ)) → Bitmap → (x y color : ℕ) → List ℕ → Result Bitmap
draw_str_fg source b x y color s = draw_chars source x y color 0 s b

-- `BitmapTextWriter`.
pub record BitmapTextWriter : Type 0 where
  pub buf : Bitmap
  pub cursor_x : ℕ
  pub cursor_y : ℕ

unfoldable pub write_str :
    (source : List (List ℕ)) → BitmapTextWriter → List ℕ → Result BitmapTextWriter
write_str source w [] = ok w
write_str source w (c ∷ s) =
    let next : BitmapTextWriter = record {
      buf = w.buf;
      cursor_x = 0;
      cursor_y = add_word 64 w.cursor_y 16;
    } in
    let line = write_str source next s in
    let char : Result BitmapTextWriter =
      draw_font_fg source w.buf w.cursor_x w.cursor_y 0xffffff c >>= λ buf.
      write_str source
        (record { buf = buf; cursor_x = add_word 64 w.cursor_x 8; cursor_y = w.cursor_y }) s in
    if c == 10 then line else char
