-- ===== src/Graphics/Pattern.antt =====
-- graphics.rs: the test pattern, and init.rs: `init_display`.
use original_os_with_rust.Prelude.{
  ℕ, zero, suc, ◌+◌, ◌≡◌, inl, inr, refl, ◌∙◌, Bool-cases, not, ◌||◌, Result, ok, err, panic, ◌>>=◌,
  List, [], ◌∷◌,
}
use original_os_with_rust.Words.Ops.{add_word, sub_word, not_word}
use original_os_with_rust.Graphics.{
  Bitmap, mul_word, fill_line, fill_lines, fill_rect, draw_line, unchecked_draw_point,
  is_in_x_range, is_in_y_range,
}
use original_os_with_rust.Graphics.Font.{for_each, draw_str_fg}

-- `expect` on what a drawing returns.
abbrev pub expect_drawn : Bitmap × Result (Unit {0}) → Result Bitmap
expect_drawn (b, ok _) = ok b
expect_drawn (b, err e) = err panic

-- The two squares of one color, at the height of its index.
unfoldable pub draw_squares : (left i color : ℕ) → Bitmap → Result Bitmap
draw_squares left i color b = expect_drawn (fill_rect b color left (mul_word i 64) 64 64) >>= λ b1.
    expect_drawn (fill_rect b1 (not_word 32 color) (add_word 64 left 64) (mul_word i 64) 64 64)

unfoldable pub draw_colors : (left i : ℕ) → List ℕ → Bitmap → Result Bitmap
draw_colors left i [] b = ok b
draw_colors left i (color ∷ colors) b =
    draw_squares left i color b >>= draw_colors left (i + 1) colors

abbrev pub pattern_points : List (ℕ × ℕ)
pattern_points = (0, 0) ∷ (0, 128) ∷ (128, 0) ∷ (128, 128) ∷ []

-- The lines from one point to all of them; a line that fails is left out.
unfoldable pub draw_lines_from : (left : ℕ) → ℕ → ℕ × ℕ → Bitmap → Bitmap
draw_lines_from left i p b =
    for_each
      (λ j q b'. (draw_line b' 0xffffff (add_word 64 left p.0) p.1 (add_word 64 left q.0) q.1).0) 0
      pattern_points b

abbrev pub digits : List ℕ
digits = 48 ∷ 49 ∷ 50 ∷ 51 ∷ 52 ∷ 53 ∷ 54 ∷ 55 ∷ 56 ∷ 57 ∷ []

abbrev pub letters : List ℕ
letters = 65 ∷ 66 ∷ 67 ∷ 68 ∷ 69 ∷ 70 ∷ []

abbrev pub pattern_left : Bitmap → ℕ
pattern_left b = sub_word 64 (sub_word 64 b.width 128) 1

-- The lines of font.txt are an argument, since they are read at the first character.
unfoldable pub draw_test_pattern : (source : List (List ℕ)) → Bitmap → Result Bitmap
draw_test_pattern source b =
    let left = pattern_left b in
    draw_colors left 0 (0x000000 ∷ 0xff0000 ∷ 0x00ff00 ∷ 0x0000ff ∷ []) b >>= λ b1.
    let b2 = for_each (draw_lines_from left) 0 pattern_points b1 in
    draw_str_fg source b2 left 256 0x00ff00 digits >>= λ b3.
    draw_str_fg source b3 left 272 0x00ff00 letters

unfoldable pub init_display : (source : List (List ℕ)) → Bitmap → Result Bitmap
init_display source b =
    expect_drawn (fill_rect b 0 0 0 b.width b.height) >>= draw_test_pattern source

-- The dimensions of a bitmap, which drawing keeps.
pub record SameSize (b b' : Bitmap) : Type 0 where
  pub bytes : b'.bytes_per_pixel ≡ b.bytes_per_pixel
  pub line : b'.pixels_per_line ≡ b.pixels_per_line
  pub across : b'.width ≡ b.width
  pub down : b'.height ≡ b.height

fill_line-SameSize : (n : ℕ) (b : Bitmap) (color x y : ℕ) → SameSize b (fill_line n b color x y)
unfolding fill_line unchecked_draw_point
fill_line-SameSize zero b color x y = record {
  bytes = refl;
  line = refl;
  across = refl;
  down = refl;
}
fill_line-SameSize (suc n) b color x y =
    let r = fill_line-SameSize n (unchecked_draw_point b color x y) color (add_word 64 x 1) y in
    record { bytes = r.bytes; line = r.line; across = r.across; down = r.down }

pub SameSize-trans : (a b c : Bitmap) → SameSize a b → SameSize b c → SameSize a c
SameSize-trans a b c p q = record {
  bytes = q.bytes ∙ p.bytes;
  line = q.line ∙ p.line;
  across = q.across ∙ p.across;
  down = q.down ∙ p.down;
}

fill_lines-SameSize :
    (n len : ℕ) (b : Bitmap) (color x y : ℕ) → SameSize b (fill_lines n len b color x y)
unfolding fill_lines
fill_lines-SameSize zero len b color x y = record {
  bytes = refl;
  line = refl;
  across = refl;
  down = refl;
}
fill_lines-SameSize (suc n) len b color x y =
    SameSize-trans b (fill_line len b color x y) _ (fill_line-SameSize len b color x y)
      (fill_lines-SameSize n len (fill_line len b color x y) color x (add_word 64 y 1))

pub fill_rect-SameSize :
    (b : Bitmap) (color px py w h : ℕ) → SameSize b (fill_rect b color px py w h).0
unfolding fill_rect
fill_rect-SameSize b color px py w h =
    elim (Bool-cases (
      not (is_in_x_range b px)
      || not (is_in_y_range b py)
      || not (is_in_x_range b (sub_word 64 (add_word 64 px w) 1))
      || not (is_in_y_range b (sub_word 64 (add_word 64 py h) 1)))) [
        | inl e ↦
            rw (fill_rect, e) (record { bytes = refl; line = refl; across = refl; down = refl })
        | inr e ↦ rw (fill_rect, e) (fill_lines-SameSize _ _ b color px py)
      ]
