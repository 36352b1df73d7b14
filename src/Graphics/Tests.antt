-- ===== src/Graphics/Tests.antt =====
-- The theorems on drawing at concrete inputs: a rectangle, a text and the test pattern on the frame buffer.
use original_os_with_rust.Prelude.{
  ℕ, ◌*◌, [], ◌∷◌, get_elem?, set, replicate, List, Result, ◌+◌, ◌<◌, ◌≡◌, ◌⊎◌, refl, arith, min,
  ok, err, out_of_range, some,
}
use original_os_with_rust.Uefi.Vram.{init_vram, vram_bitmap}
use original_os_with_rust.Words.Ops.{add_word}
use original_os_with_rust.Graphics.Font.{
  Glyph, draw_str_fg, draw_chars, draw_font_fg, draw_font_pixel, for_each, lookup_font, font_cache,
  starred_glyph, read_font, header_index, index_from_hex, glyph_of, row_of,
}
use original_os_with_rust.Graphics.Pattern.{init_display}
use original_os_with_rust.Graphics.Screen.{IsScreen, init_display-IsScreen}
use original_os_with_rust.Graphics.Cached.{IsReadable}
use mathlib.Core.Option.{none-ne-some, some-injective}
use original_os_with_rust.Graphics.Draws.{Draws}
use original_os_with_rust.Graphics.Text.{InChar, draw_str_fg-Draws}
use original_os_with_rust.Graphics.{
  mul_word, draw_point, pixel_at, is_in_x_range, is_in_y_range, unchecked_pixel_at, Bitmap,
  fill_rect, calc_slope_point,
}
use original_os_with_rust.Graphics.Rect.{IsBitmap, Filled, fill_rect-Filled}

abbrev screen : Bitmap
unfolding vram_bitmap init_vram
screen =
    vram_bitmap
      (init_vram (record {
        horizontal_resolution = 640;
        vertical_resolution = 480;
        pixels_per_scan_line = 656;
      }))
      (λ ofs. 0)

screen-IsBitmap : IsBitmap screen
unfolding screen
screen-IsBitmap = omega arith

-- A point in the middle of a line with slope one half.
slope : calc_slope_point 10 5 5 ≡ some 3
unfolding calc_slope_point
slope = refl

fill_rect-Filled_example :
    ((b' : Bitmap) × (fill_rect screen 0xff0000 600 8 40 16 ≡ (b', ok tt))
      × Filled screen b' 0xff0000 600 8 40 16)
    ⊎ (((min screen.width screen.pixels_per_line < 600 + 40) ⊎ (screen.height < 8 + 16))
        × (fill_rect screen 0xff0000 600 8 40 16 ≡ (screen, err out_of_range)))
fill_rect-Filled_example =
    fill_rect-Filled screen 0xff0000 600 8 40 16 screen-IsBitmap (omega arith) (omega arith)
      (omega arith) (omega arith) (omega arith) (omega arith)

-- The lines of a font whose first glyph has one star, in its second row and third column, and fifteen
-- rows without one, and the string of one character 0.
abbrev dots : List ℕ
dots = replicate 8 46

abbrev one_star : List (List ℕ)
one_star =
    (48 ∷ 120 ∷ 48 ∷ 48 ∷ [])
    ∷ dots
    ∷ (46 ∷ 46 ∷ 42 ∷ 46 ∷ 46 ∷ 46 ∷ 46 ∷ 46 ∷ [])
    ∷ replicate 14 dots

abbrev star_font : List Glyph
star_font =
    set (replicate 256 starred_glyph) 0
      (dots ∷ (46 ∷ 46 ∷ 42 ∷ 46 ∷ 46 ∷ 46 ∷ 46 ∷ 46 ∷ []) ∷ replicate 14 dots)

one_star-read : font_cache one_star ≡ ok star_font
unfolding font_cache read_font header_index index_from_hex glyph_of row_of
one_star-read = refl

draw_str_fg-Draws_example :
    (b' : Bitmap) × (draw_str_fg one_star screen 8 16 0xff (0 ∷ []) ≡ ok b')
    × Draws
        (λ ofs.
          (k : ℕ) × (c : ℕ) × (get_elem? (0 ∷ []) k ≡ some c)
          × InChar star_font screen (add_word 64 8 (mul_word (0 + k) 8)) 16 c ofs)
        0xff
        screen
        b'
draw_str_fg-Draws_example =
    draw_str_fg-Draws one_star star_font screen 8 16 0xff (0 ∷ []) one_star-read

-- The byte at an offset after a drawing.
abbrev byte_of : Result Bitmap → ℕ → ℕ
byte_of (ok b) ofs = b.buf ofs
byte_of (err e) ofs = 0

star_test : byte_of (draw_str_fg one_star screen 8 16 0xff (0 ∷ [])) ((17 * 656 + 10) * 4) ≡ 0xff
unfolding draw_str_fg draw_chars draw_font_fg draw_font_pixel for_each lookup_font font_cache
    read_font header_index index_from_hex glyph_of row_of draw_point pixel_at is_in_x_range
    is_in_y_range unchecked_pixel_at screen vram_bitmap init_vram
star_test = refl

-- The lines of a font: a header, and the rows below it.
read_font_test :
    read_font ((48 ∷ 120 ∷ 48 ∷ 49 ∷ []) ∷ (46 ∷ 42 ∷ []) ∷ []) ([] ∷ [] ∷ [])
    ≡ ok ([] ∷ ((46 ∷ 42 ∷ 42 ∷ 42 ∷ 42 ∷ 42 ∷ 42 ∷ 42 ∷ []) ∷ replicate 15 (replicate 8 42)) ∷ [])
unfolding read_font header_index index_from_hex glyph_of row_of
read_font_test = refl

screen-IsScreen : IsScreen screen
unfolding screen
screen-IsScreen = record {
  bitmap = screen-IsBitmap;
  wide = omega arith;
  high = omega arith;
  whole_lines = omega arith;
}

two_lines-IsReadable : IsReadable ((48 ∷ 120 ∷ 48 ∷ 48 ∷ []) ∷ (46 ∷ 42 ∷ []) ∷ [])
unfolding header_index index_from_hex
two_lines-IsReadable =
    (λ idx e. omega (arith, some-injective 0 idx e), (λ idx e. absurd (none-ne-some idx e), tt))

init_display-IsScreen_example :
    (b' : Bitmap) × (init_display ((48 ∷ 120 ∷ 48 ∷ 48 ∷ []) ∷ (46 ∷ 42 ∷ []) ∷ []) screen ≡ ok b')
init_display-IsScreen_example =
    init_display-IsScreen ((48 ∷ 120 ∷ 48 ∷ 48 ∷ []) ∷ (46 ∷ 42 ∷ []) ∷ []) screen
      two_lines-IsReadable screen-IsScreen
