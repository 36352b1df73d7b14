-- ===== src/Graphics/Rect.antt =====
-- graphics.rs: what `fill_rect` writes.
use original_os_with_rust.Prelude.{
  ℕ, ◌+◌, ◌*◌, ◌^◌, ◌≤◌, ◌<◌, ◌≡◌, ◌⊎◌, inl, inr, refl, arith, ap, ap₂, ◌∙◌, min,
}
use original_os_with_rust.Prelude.{true, false, not, ◌&&◌, ltb, ok, err, out_of_range}
use original_os_with_rust.Words.Ops.{add_word, sub_word}
use original_os_with_rust.Graphics.{
  Bitmap, signed_lt, range_len, is_in_x_range, is_in_y_range, unchecked_pixel_at, fill_lines,
  fill_rect,
}
use original_os_with_rust.Graphics.Paint.{Painted, InRect, fill_lines-Painted}
use native.Mathlib.Nat.{suc-mul, mul-le-mul_right, mul_comm}
use original_os_with_rust.Graphics.Range.{
  signed_lt-below, signed_min-small, range_len-word, range_tests, guard, guard_x, guard_y,
}

-- A bitmap of four bytes a pixel in a buffer below 2^63 bytes.
pub record IsBitmap (b : Bitmap) : Type 0 where
  pub four_bytes : b.bytes_per_pixel ≡ 4
  pub width : b.width < 2 ^ 63
  pub line : b.pixels_per_line < 2 ^ 63
  pub height : b.height < 2 ^ 63
  pub in_memory : b.pixels_per_line * b.height * 4 < 2 ^ 63

module _ (b : Bitmap) (v : IsBitmap b) where
  x_range : (px : ℕ) → px < 2 ^ 64 → is_in_x_range b px ≡ ltb px (min b.width b.pixels_per_line)
  unfolding is_in_x_range
  x_range px h =
      ap (λ m. not (signed_lt px 0) && signed_lt px m)
        (signed_min-small b.width b.pixels_per_line v.width v.line)
      ∙ signed_lt-below px (min b.width b.pixels_per_line) h (omega (arith, v.width, v.line))

  y_range : (py : ℕ) → py < 2 ^ 64 → is_in_y_range b py ≡ ltb py b.height
  unfolding is_in_y_range
  y_range py h = signed_lt-below py b.height h v.height

  -- The offset of a pixel inside, and its four bytes, are in the buffer.
  pub pixel-offset :
      (x y : ℕ)
      → x < b.pixels_per_line
      → y < b.height
      → (unchecked_pixel_at b x y ≡ (y * b.pixels_per_line + x) * 4)
        × ((y * b.pixels_per_line + x) * 4 + 4 ≤ b.pixels_per_line * b.height * 4)
  unfolding unchecked_pixel_at
  pixel-offset x y hx hy =
      let below : y * b.pixels_per_line + x + 1 ≤ b.pixels_per_line * b.height = omega (
        arith,
        hx,
        suc-mul y b.pixels_per_line,
        mul-le-mul_right b.pixels_per_line hy,
        mul_comm b.height b.pixels_per_line,
      ) in
      (rw v.four_bytes (omega (arith, below, v.in_memory)), omega (arith, below))

  guarded :
      (color px py w h : ℕ)
      → guard
          (is_in_x_range b px)
          (is_in_y_range b py)
          (is_in_x_range b (sub_word 64 (add_word 64 px w) 1))
          (is_in_y_range b (sub_word 64 (add_word 64 py h) 1))
        ≡ true
      → fill_rect b color px py w h ≡ (b, err out_of_range)
  unfolding fill_rect
  guarded color px py w h e = rw e refl

  passed :
      (color px py w h : ℕ)
      → guard
          (is_in_x_range b px)
          (is_in_y_range b py)
          (is_in_x_range b (sub_word 64 (add_word 64 px w) 1))
          (is_in_y_range b (sub_word 64 (add_word 64 py h) 1))
        ≡ false
      → fill_rect b color px py w h ≡ (
        fill_lines
            (range_len py (add_word 64 py h))
            (range_len px (add_word 64 px w))
            b
            color
            px
            py,
        ok tt,
      )
  unfolding fill_rect
  passed color px py w h e = rw e refl

-- The rectangle is painted, in the buffer and nowhere else.
pub record Filled (b b' : Bitmap) (color px py w h : ℕ) : Type 0 where
  pub inside_x : px + w ≤ min b.width b.pixels_per_line
  pub inside_y : py + h ≤ b.height
  pub painted : Painted (InRect b w h px py) color b b'
  pub offset :
      (x y : ℕ)
      → x < px + w
      → y < py + h
      → unchecked_pixel_at b x y ≡ (y * b.pixels_per_line + x) * 4
  pub in_buffer :
      (x y : ℕ)
      → x < px + w
      → y < py + h
      → (y * b.pixels_per_line + x) * 4 + 4 ≤ b.pixels_per_line * b.height * 4

fill_rect-fits :
    (b : Bitmap) (color px py w h : ℕ)
    → IsBitmap b
    → px + w ≤ min b.width b.pixels_per_line
    → py + h ≤ b.height
    → guard
        (is_in_x_range b px)
        (is_in_y_range b py)
        (is_in_x_range b (sub_word 64 (add_word 64 px w) 1))
        (is_in_y_range b (sub_word 64 (add_word 64 py h) 1))
      ≡ false
    → (b' : Bitmap) × (fill_rect b color px py w h ≡ (b', ok tt)) × Filled b b' color px py w h
fill_rect-fits b color px py w h v fx fy e = (
  fill_lines h w b color px py,
  passed b v color px py w h e
      ∙ ap₂ (λ m n. (fill_lines m n b color px py, ok tt))
          (range_len-word py h (omega (arith, fy, v.height)))
          (range_len-word px w (omega (arith, fx, v.width))),
  record {
    inside_x = fx;
    inside_y = fy;
    painted =
        fill_lines-Painted h w b color px py (omega (arith, fx, v.width))
          (omega (arith, fy, v.height));
    offset = λ x y hx hy. (pixel-offset b v x y (omega (arith, hx, fx)) (omega (arith, hy, fy))).0;
    in_buffer =
        λ x y hx hy. (pixel-offset b v x y (omega (arith, hx, fx)) (omega (arith, hy, fy))).1;
  },
)

-- In a bitmap of four bytes a pixel, whose buffer is below 2^63 bytes, and for a width and a height
-- that are positive: if the rectangle lies inside, `fill_rect` succeeds, all its pixels have the
-- color, every other offset of the buffer is as it was, and the unchecked writes stay in the buffer;
-- if not, the result is an error and nothing is written.
pub fill_rect-Filled :
    (b : Bitmap) (color px py w h : ℕ)
    → IsBitmap b
    → px < 2 ^ 64
    → py < 2 ^ 64
    → 0 < w
    → w < 2 ^ 63
    → 0 < h
    → h < 2 ^ 63
    → ((b' : Bitmap) × (fill_rect b color px py w h ≡ (b', ok tt)) × Filled b b' color px py w h)
      ⊎ (((min b.width b.pixels_per_line < px + w) ⊎ (b.height < py + h))
          × (fill_rect b color px py w h ≡ (b, err out_of_range)))
fill_rect-Filled b color px py w h v hpx hpy pw hw ph hh =
    let lim = min b.width b.pixels_per_line in
    let lastx = sub_word 64 (add_word 64 px w) 1 in
    let lasty = sub_word 64 (add_word 64 py h) 1 in
    let x0 = x_range b v px hpx in
    let x1 = x_range b v lastx (omega arith) in
    let y0 = y_range b v py hpy in
    let y1 = y_range b v lasty (omega arith) in
    elim (range_tests px w lim hpx pw hw (omega (arith, v.width))) [
      | inr (out, why) ↦ inr (
        inl out,
        guarded b v color px py w h (
            guard_x (is_in_x_range b px) (is_in_y_range b py) (is_in_x_range b lastx)
              (is_in_y_range b lasty) (elim why [ inl e ↦ inl (x0 ∙ e) | inr e ↦ inr (x1 ∙ e) ])),
      )
      | inl (fx, t0, t1) ↦ elim (range_tests py h b.height hpy ph hh v.height) [
        | inr (out, why) ↦ inr (
          inr out,
          guarded b v color px py w h (
              guard_y (is_in_x_range b px) (is_in_y_range b py) (is_in_x_range b lastx)
                (is_in_y_range b lasty) (elim why [ inl e ↦ inl (y0 ∙ e) | inr e ↦ inr (y1 ∙ e) ])),
        )
        | inl (fy, u0, u1) ↦
            inl
              (fill_rect-fits b color px py w h v fx fy (rw (x0, x1, y0, y1, t0, t1, u0, u1) refl))
      ]
    ]
