-- ===== src/Graphics.antt =====
-- graphics.rs: points, rectangles and lines in a bitmap. An `i64` is a 64-bit word in two's
-- complement. The buffer is a function from a byte offset to the 32-bit word there.
pub mod Paint
pub mod Range
pub mod Rect
pub mod Font
pub mod Cached
pub mod Draws
pub mod Text
pub mod Pattern
pub mod Screen
pub mod Tests
use original_os_with_rust.Prelude.{
  ℕ, zero, suc, ◌+◌, ◌-◌, ◌*◌, ◌/◌, ◌%◌, ◌^◌, Bool, not, ◌&&◌, ◌||◌, ltb, ◌==◌, if◌then◌else◌,
}
use original_os_with_rust.Prelude.{Option, none, some, Result, ok, err, ◌>>=◌, out_of_range}
use original_os_with_rust.Words.Ops.{wrap, add_word, sub_word}

-- `a < b` of two `i64`.
abbrev pub signed_lt : ℕ → ℕ → Bool
signed_lt a b = ltb (wrap 64 (a + 2 ^ 63)) (wrap 64 (b + 2 ^ 63))

abbrev pub signed_min : ℕ → ℕ → ℕ
signed_min a b = if signed_lt b a then b else a

abbrev pub mul_word : ℕ → ℕ → ℕ
mul_word a b = wrap 64 (a * b)

-- `a / b` of an `i64` and a positive one, towards 0.
abbrev pub signed_div : ℕ → ℕ → ℕ
signed_div a b = if signed_lt a 0 then sub_word 64 0 ((2 ^ 64 - a) / b) else a / b

abbrev pub abs : ℕ → ℕ
abs a = if signed_lt a 0 then sub_word 64 0 a else a

abbrev pub signum : ℕ → ℕ
signum a = if a == 0 then 0 else if signed_lt a 0 then sub_word 64 0 1 else 1

-- The number of elements of `a..b`.
abbrev pub range_len : ℕ → ℕ → ℕ
range_len a b = if signed_lt a b then sub_word 64 b a else 0

-- The trait `Bitmap`, with what its buffer holds.
pub record Bitmap : Type 0 where
  pub bytes_per_pixel : ℕ
  pub pixels_per_line : ℕ
  pub width : ℕ
  pub height : ℕ
  pub buf : ℕ → ℕ

unfoldable pub is_in_x_range : Bitmap → ℕ → Bool
is_in_x_range b px = not (signed_lt px 0) && signed_lt px (signed_min b.width b.pixels_per_line)

unfoldable pub is_in_y_range : Bitmap → ℕ → Bool
is_in_y_range b py = not (signed_lt py 0) && signed_lt py b.height

-- The offset of `unchecked_pixel_at_mut`.
unfoldable pub unchecked_pixel_at : Bitmap → ℕ → ℕ → ℕ
unchecked_pixel_at b x y = mul_word (add_word 64 (mul_word y b.pixels_per_line) x) b.bytes_per_pixel

-- `pixel_at_mut`.
unfoldable pub pixel_at : Bitmap → ℕ → ℕ → Option ℕ
pixel_at b x y =
    if is_in_x_range b x && is_in_y_range b y then some (unchecked_pixel_at b x y) else none

-- A write through the pointer to a pixel.
abbrev pub write_pixel : Bitmap → ℕ → ℕ → Bitmap
write_pixel b at color = record b { buf = λ ofs. if ofs == at then color else b.buf ofs }

unfoldable pub unchecked_draw_point : Bitmap → ℕ → ℕ → ℕ → Bitmap
unchecked_draw_point b color x y = write_pixel b (unchecked_pixel_at b x y) color

unfoldable pub draw_point : Bitmap → ℕ → ℕ → ℕ → Bitmap × Result (Unit {0})
draw_point b color x y = elim (pixel_at b x y) [
  | none ↦ (b, err out_of_range)
  | some at ↦ (write_pixel b at color, ok tt)
]

-- `n` points of the line `y`, from `x` on.
unfoldable pub fill_line : ℕ → Bitmap → ℕ → ℕ → ℕ → Bitmap
fill_line zero b color x y = b
fill_line (suc n) b color x y =
    fill_line n (unchecked_draw_point b color x y) color (add_word 64 x 1) y

-- `n` lines from `y` on, each of `len` points.
unfoldable pub fill_lines : ℕ → ℕ → Bitmap → ℕ → ℕ → ℕ → Bitmap
fill_lines zero len b color x y = b
fill_lines (suc n) len b color x y =
    fill_lines n len (fill_line len b color x y) color x (add_word 64 y 1)

unfoldable pub fill_rect : Bitmap → (color px py w h : ℕ) → Bitmap × Result (Unit {0})
fill_rect b color px py w h =
    if not (is_in_x_range b px)
      || not (is_in_y_range b py)
      || not (is_in_x_range b (sub_word 64 (add_word 64 px w) 1))
      || not (is_in_y_range b (sub_word 64 (add_word 64 py h) 1))
    then (b, err out_of_range)
    else (
      fill_lines (range_len py (add_word 64 py h)) (range_len px (add_word 64 px w)) b color px py,
      ok tt,
    )

unfoldable pub calc_slope_point : (da db ia : ℕ) → Option ℕ
calc_slope_point da db ia =
    if signed_lt da db
    then none
    else if da == 0
    then some 0
    else if not (signed_lt ia 0) && not (signed_lt da ia)
    then some (signed_div (signed_div (add_word 64 (mul_word (mul_word 2 db) ia) da) da) 2)
    else none

-- The loop of `draw_line` over `n` values of the longer distance, from `i` on; `plot` draws the point
-- at two distances.
unfoldable pub draw_steps :
    (n i da db : ℕ)
    → (Bitmap → ℕ → ℕ → Bitmap × Result (Unit {0}))
    → Bitmap
    → Bitmap × Result (Unit {0})
draw_steps zero i da db plot b = (b, ok tt)
draw_steps (suc n) i da db plot b = elim (calc_slope_point da db i) [
  | none ↦ draw_steps n (i + 1) da db plot b
  | some j ↦
      let (b', r) = plot b i j in
      let rest = draw_steps n (i + 1) da db plot b' in elim r [ err e ↦ (b', err e) | ok _ ↦ rest ]
]

unfoldable pub draw_line : Bitmap → (color x0 y0 x1 y1 : ℕ) → Bitmap × Result (Unit {0})
draw_line b color x0 y0 x1 y1 =
    let dx = abs (sub_word 64 x1 x0) in
    let sx = signum (sub_word 64 x1 x0) in
    let dy = abs (sub_word 64 y1 y0) in
    let sy = signum (sub_word 64 y1 y0) in
    let plot_x : Bitmap → ℕ → ℕ → Bitmap × Result (Unit {0}) = λ b rx ry.
      draw_point b color (add_word 64 x0 (mul_word rx sx)) (add_word 64 y0 (mul_word ry sy)) in
    let plot_y : Bitmap → ℕ → ℕ → Bitmap × Result (Unit {0}) = λ b ry rx.
      draw_point b color (add_word 64 x0 (mul_word rx sx)) (add_word 64 y0 (mul_word ry sy)) in
    if not (is_in_x_range b x0)
      || not (is_in_x_range b x1)
      || not (is_in_y_range b y0)
      || not (is_in_y_range b y1)
    then (b, err out_of_range)
    else if not (signed_lt dx dy)
    then draw_steps (range_len 0 dx) 0 dx dy plot_x b
    else draw_steps (range_len 0 dy) 0 dy dx plot_y b
