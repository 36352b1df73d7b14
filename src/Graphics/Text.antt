-- ===== src/Graphics/Text.antt =====
-- graphics.rs: which offsets a text writes.
use original_os_with_rust.Prelude.{
  ℕ, ◌+◌, ◌≡◌, inl, inr, refl, sym, ◌∙◌, subst, none, some, Option-cases, ok, List, get_elem?, ≡→==,
  ≢→==,
}
use original_os_with_rust.Words.Ops.{add_word}
use original_os_with_rust.Graphics.{Bitmap, mul_word, pixel_at}
use original_os_with_rust.Graphics.Paint.{}
use original_os_with_rust.Graphics.Draws.{Draws, Draws-map, none-Draws, point-Draws, for_each-Draws}
use original_os_with_rust.Graphics.Font.{
  Glyph, star, for_each, draw_font_pixel, draw_row, draw_str_fg, font_cache,
}
use original_os_with_rust.Graphics.Cached.{
  lookup_cached, draw_cached_font, draw_cached_char, draw_cached_str, draw_str_fg-cached,
}
use native.Mathlib.Decide.{ℕ_discrete}

-- The offset `ofs` is that of a pixel inside.
abbrev pub At : Bitmap → (x y : ℕ) → ℕ → Type 0
At b x y ofs = pixel_at b x y ≡ some ofs

-- The offsets of the stars of a row, of a glyph, and of a text.
abbrev pub InPixel : Bitmap → (x y dy : ℕ) → ℕ → ℕ → ℕ → Type 0
InPixel b x y dy dx pixel ofs = (pixel ≡ star) × At b (add_word 64 x dx) (add_word 64 y dy) ofs

abbrev pub InRow : Bitmap → (x y : ℕ) → ℕ → List ℕ → ℕ → Type 0
InRow b x y dy row ofs =
    (k : ℕ) × (pixel : ℕ) × (get_elem? row k ≡ some pixel) × InPixel b x y dy (0 + k) pixel ofs

abbrev pub InGlyph : Bitmap → (x y : ℕ) → Glyph → ℕ → Type 0
InGlyph b x y glyph ofs =
    (j : ℕ) × (row : List ℕ) × (get_elem? glyph j ≡ some row) × InRow b x y (0 + j) row ofs

abbrev pub InChar : List Glyph → Bitmap → (x y c : ℕ) → ℕ → Type 0
InChar font b x y c ofs =
    (glyph : Glyph) × (lookup_cached font c ≡ some glyph) × InGlyph b x y glyph ofs

module _ (b0 : Bitmap) (color x y : ℕ) where
  pixel-Draws :
      (dy dx pixel : ℕ) (b : Bitmap)
      → ((x y : ℕ) → pixel_at b x y ≡ pixel_at b0 x y)
      → Draws (InPixel b0 x y dy dx pixel) color b (draw_font_pixel color x y dy dx pixel b)
  unfolding draw_font_pixel
  pixel-Draws dy dx pixel b same = elim (ℕ_discrete pixel star) [
    | yes e ↦
        rw (draw_font_pixel, ≡→== pixel star e)
          (Draws-map _ _ color b _ (λ ofs p. (e, sym (same _ _) ∙ p)) (λ ofs p. same _ _ ∙ p.1)
            (point-Draws b color (add_word 64 x dx) (add_word 64 y dy)))
    | no ne ↦
        rw (draw_font_pixel, ≢→== pixel star ne)
          (Draws-map (λ ofs. ⊥) _ color b b (λ ofs p. absurd p) (λ ofs p. ne p.0)
            (none-Draws b color))
  ]

  row-Draws :
      (dy : ℕ) (row : List ℕ) (b : Bitmap)
      → ((x y : ℕ) → pixel_at b x y ≡ pixel_at b0 x y)
      → Draws (InRow b0 x y dy row) color b (draw_row color x y dy row b)
  row-Draws dy row b same =
      for_each-Draws b0 color (InPixel b0 x y dy) (draw_font_pixel color x y dy) (pixel-Draws dy) 0
        row b same

  glyph-Draws :
      (glyph : Glyph) (b : Bitmap)
      → ((x y : ℕ) → pixel_at b x y ≡ pixel_at b0 x y)
      → Draws (InGlyph b0 x y glyph) color b (for_each (draw_row color x y) 0 glyph b)
  glyph-Draws glyph b same =
      for_each-Draws b0 color (InRow b0 x y) (draw_row color x y) row-Draws 0 glyph b same

  draw_cached_font-out :
      (font : List Glyph) (c : ℕ) (b : Bitmap)
      → lookup_cached font c ≡ none
      → draw_cached_font font b x y color c ≡ b
  unfolding draw_cached_font
  draw_cached_font-out font c b e = rw (draw_cached_font, e) refl

  draw_cached_font-in :
      (font : List Glyph) (c : ℕ) (b : Bitmap) (glyph : Glyph)
      → lookup_cached font c ≡ some glyph
      → draw_cached_font font b x y color c ≡ for_each (draw_row color x y) 0 glyph b
  unfolding draw_cached_font
  draw_cached_font-in font c b glyph e = rw (draw_cached_font, e) refl

  no_glyph :
      (font : List Glyph) (c ofs : ℕ) → lookup_cached font c ≡ none → InChar font b0 x y c ofs → ⊥
  no_glyph font c ofs e (glyph, found, p) = absurd cc

  that_glyph :
      (font : List Glyph) (c ofs : ℕ) (glyph : Glyph)
      → lookup_cached font c ≡ some glyph
      → InChar font b0 x y c ofs
      → InGlyph b0 x y glyph ofs
  that_glyph font c ofs glyph e (other, found, p) =
      let same : other ≡ glyph = cc in subst (λ g. InGlyph b0 x y g ofs) same p

  pub font-Draws :
      (font : List Glyph) (c : ℕ) (b : Bitmap)
      → ((x y : ℕ) → pixel_at b x y ≡ pixel_at b0 x y)
      → Draws (InChar font b0 x y c) color b (draw_cached_font font b x y color c)
  font-Draws font c b same = elim (Option-cases (lookup_cached font c)) [
    | inl e ↦ subst (Draws _ color b) (sym (draw_cached_font-out font c b e)) (
        Draws-map (λ ofs. ⊥) _ color b b (λ ofs p. absurd p) (λ ofs. no_glyph font c ofs e)
          (none-Draws b color))
    | inr (glyph, e) ↦ subst (Draws _ color b) (sym (draw_cached_font-in font c b glyph e)) (
        Draws-map (InGlyph b0 x y glyph) _ color b _ (λ ofs p. (glyph, e, p))
          (λ ofs. that_glyph font c ofs glyph e) (glyph-Draws glyph b same))
  ]

cached-Draws :
    (font : List Glyph) (b : Bitmap) (x y color : ℕ) (s : List ℕ)
    → Draws
        (λ ofs.
          (k : ℕ) × (c : ℕ) × (get_elem? s k ≡ some c)
          × InChar font b (add_word 64 x (mul_word (0 + k) 8)) y c ofs)
        color
        b
        (draw_cached_str font b x y color s)
unfolding draw_cached_str
cached-Draws font b x y color s =
    for_each-Draws b color (λ i c. InChar font b (add_word 64 x (mul_word i 8)) y c)
      (draw_cached_char font x y color)
      (λ i c b' same. font-Draws b color (add_word 64 x (mul_word i 8)) y font c b' same) 0 s b
      (λ x' y'. refl)

-- The text `s` on a bitmap, for the lines of a font that is read without a panic: `draw_str_fg` ends
-- without a panic. At each offset that belongs to a pixel inside the bitmap where a character's glyph has a
-- star, with 8 pixels from one character to the next, the color is written; every other offset is as it
-- was, and stars outside the bitmap are left out.
pub draw_str_fg-Draws :
    (source : List (List ℕ)) (font : List Glyph) (b : Bitmap) (x y color : ℕ) (s : List ℕ)
    → font_cache source ≡ ok font
    → (b' : Bitmap) × (draw_str_fg source b x y color s ≡ ok b')
      × Draws
          (λ ofs.
            (k : ℕ) × (c : ℕ) × (get_elem? s k ≡ some c)
            × InChar font b (add_word 64 x (mul_word (0 + k) 8)) y c ofs)
          color
          b
          b'
draw_str_fg-Draws source font b x y color s read = (
  draw_cached_str font b x y color s,
  draw_str_fg-cached source font read b x y color s,
  cached-Draws font b x y color s,
)
