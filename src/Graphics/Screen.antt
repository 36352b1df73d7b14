-- ===== src/Graphics/Screen.antt =====
-- graphics.rs and init.rs: the drawing of `init_display` on a screen with room for the test pattern.
use original_os_with_rust.Prelude.{
  ℕ, ◌+◌, ◌*◌, ◌^◌, ◌≤◌, ◌<◌, ◌≡◌, inl, inr, refl, arith, ap, sym, ◌∙◌, subst, ok, List, [], ◌∷◌,
  length,
}
use original_os_with_rust.Words.Ops.{add_word, not_word}
use original_os_with_rust.Graphics.{Bitmap, mul_word, fill_rect}
use original_os_with_rust.Graphics.Rect.{IsBitmap, fill_rect-Filled}
use original_os_with_rust.Graphics.Font.{for_each}
use original_os_with_rust.Graphics.Cached.{
  draw_cached_str, draw_str_fg-cached, IsReadable, font_cache-IsReadable,
}
use original_os_with_rust.Graphics.Pattern.{
  expect_drawn, draw_squares, draw_colors, draw_lines_from, pattern_points, digits, letters,
  pattern_left, draw_test_pattern, init_display, SameSize, SameSize-trans, fill_rect-SameSize,
}

-- A bitmap with room for the pattern, whose lines have all the pixels of its width.
pub record IsScreen (b : Bitmap) : Type 0 where
  pub bitmap : IsBitmap b
  pub wide : 129 ≤ b.width
  pub high : 256 ≤ b.height
  pub whole_lines : b.width ≤ b.pixels_per_line

SameSize-IsScreen : (b b' : Bitmap) → SameSize b b' → IsScreen b → IsScreen b'
SameSize-IsScreen b b' s v = record {
  bitmap = record {
    four_bytes = s.bytes ∙ v.bitmap.four_bytes;
    width = omega (arith, s.across, v.bitmap.width);
    line = omega (arith, s.line, v.bitmap.line);
    height = omega (arith, s.down, v.bitmap.height);
    in_memory =
        subst (λ h. b'.pixels_per_line * h * 4 < 2 ^ 63) (sym s.down)
          (subst (λ l. l * b.height * 4 < 2 ^ 63) (sym s.line) v.bitmap.in_memory);
  };
  wide = omega (arith, s.across, v.wide);
  high = omega (arith, s.down, v.high);
  whole_lines = omega (arith, s.across, s.line, v.whole_lines);
}

-- A rectangle inside the screen is drawn.
drawn :
    (b : Bitmap) (color px py w h : ℕ)
    → IsScreen b
    → 0 < w
    → 0 < h
    → px + w ≤ b.width
    → py + h ≤ b.height
    → (b' : Bitmap) × (expect_drawn (fill_rect b color px py w h) ≡ ok b') × SameSize b b'
drawn b color px py w h v pw ph fx fy =
    elim (fill_rect-Filled b color px py w h v.bitmap (omega (arith, fx, v.bitmap.width))
      (omega (arith, fy, v.bitmap.height)) pw (omega (arith, fx, v.bitmap.width)) ph
      (omega (arith, fy, v.bitmap.height))) [
        | inl (b', e, filled) ↦ (
          b',
          ap expect_drawn e,
          subst (SameSize b) (ap (λ r. r.0) e) (fill_rect-SameSize b color px py w h),
        )
        | inr (out, e) ↦ absurd (elim out [
          | inl x ↦ omega (arith, x, fx, v.whole_lines)
          | inr y ↦ omega (arith, y, fy)
        ])
      ]

-- The two squares of the color with an index below 4.
squares_drawn :
    (left i color : ℕ) (b : Bitmap)
    → IsScreen b
    → left + 128 ≤ b.width
    → i < 4
    → (b' : Bitmap) × (draw_squares left i color b ≡ ok b') × SameSize b b'
unfolding draw_squares
squares_drawn left i color b v fit small =
    let (b1, e1, s1) =
      drawn b color left (mul_word i 64) 64 64 v (omega arith) (omega arith) (omega (arith, fit))
        (omega (arith, small, v.high)) in
    let v1 = SameSize-IsScreen b b1 s1 v in
    let (b2, e2, s2) =
      drawn b1 (not_word 32 color) (add_word 64 left 64) (mul_word i 64) 64 64 v1 (omega arith)
        (omega arith) (omega (arith, fit, s1.across)) (omega (arith, small, v1.high)) in
    (b2, rw (draw_squares, e1) e2, SameSize-trans b b1 b2 s1 s2)

colors_drawn :
    (left i : ℕ) (colors : List ℕ) (b : Bitmap)
    → IsScreen b
    → left + 128 ≤ b.width
    → i + length colors ≤ 4
    → (b' : Bitmap) × (draw_colors left i colors b ≡ ok b') × SameSize b b'
unfolding draw_colors
colors_drawn left i [] b v fit small =
    (b, refl, record { bytes = refl; line = refl; across = refl; down = refl })
colors_drawn left i (color ∷ colors) b v fit small =
    let (b1, e1, s1) = squares_drawn left i color b v fit (omega (arith, small)) in
    let (b2, e2, s2) =
      colors_drawn left (i + 1) colors b1 (SameSize-IsScreen b b1 s1 v)
        (omega (arith, fit, s1.across)) (omega (arith, small)) in
    (b2, rw (draw_colors, e1) e2, SameSize-trans b b1 b2 s1 s2)

pattern_drawn :
    (source : List (List ℕ)) (b : Bitmap)
    → IsReadable source
    → IsScreen b
    → (b' : Bitmap) × (draw_test_pattern source b ≡ ok b')
unfolding draw_test_pattern
pattern_drawn source b readable v =
    let (font, read) = font_cache-IsReadable source readable in
    let left = pattern_left b in
    let (b1, e1, s1) =
      colors_drawn left 0 (0x000000 ∷ 0xff0000 ∷ 0x00ff00 ∷ 0x0000ff ∷ []) b v
        (omega (arith, v.wide, v.bitmap.width)) (omega arith) in
    let b2 = for_each (draw_lines_from left) 0 pattern_points b1 in
    let b3 = draw_cached_str font b2 left 256 0x00ff00 digits in
    (
      draw_cached_str font b3 left 272 0x00ff00 letters,
      rw (draw_test_pattern, e1, draw_str_fg-cached source font read b2 left 256 0x00ff00 digits)
          (draw_str_fg-cached source font read b3 left 272 0x00ff00 letters),
    )

-- On a screen of at least 129 by 256 pixels, whose lines in memory have all the pixels of its width,
-- and for the lines of a font no header of which has an index of 256 or more (a negative number has),
-- `init_display` and the test pattern end without a panic, the reading of the font included.
pub init_display-IsScreen :
    (source : List (List ℕ)) (b : Bitmap)
    → IsReadable source
    → IsScreen b
    → (b' : Bitmap) × (init_display source b ≡ ok b')
unfolding init_display
init_display-IsScreen source b readable v =
    let (b1, e1, s1) =
      drawn b 0 0 0 b.width b.height v (omega (arith, v.wide)) (omega (arith, v.high)) (omega arith)
        (omega arith) in
    let (b2, e2) = pattern_drawn source b1 readable (SameSize-IsScreen b b1 s1 v) in
    (b2, rw (init_display, e1) e2)
