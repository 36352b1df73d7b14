-- ===== src/Graphics/Cached.antt =====
-- graphics.rs: what the drawing of a text does once the font has been read, and when it is read.
use original_os_with_rust.Prelude.{
  ℕ, ◌+◌, ◌<◌, ◌≡◌, inl, inr, refl, ltb, lt→ltb, if◌then◌else◌, Bool-cases, Option, none, some,
  Option-cases, ok, List, [], ◌∷◌, All, get_or, set,
}
use original_os_with_rust.Words.Ops.{add_word}
use original_os_with_rust.Graphics.{Bitmap, mul_word}
use original_os_with_rust.Graphics.Font.{
  Glyph, header_index, glyph_of, read_font, font_cache, lookup_font, for_each, draw_row,
  draw_font_fg, draw_chars, draw_str_fg,
}

-- A glyph of a cache that is filled, and what it is to draw one and to draw a text with it.
unfoldable pub lookup_cached : List Glyph → ℕ → Option Glyph
lookup_cached font c = if ltb c 256 then some (get_or font c []) else none

unfoldable pub draw_cached_font : List Glyph → Bitmap → (x y color c : ℕ) → Bitmap
draw_cached_font font b x y color c = elim (lookup_cached font c) [
  | none ↦ b
  | some glyph ↦ for_each (draw_row color x y) 0 glyph b
]

abbrev pub draw_cached_char : List Glyph → (x y color : ℕ) → ℕ → ℕ → Bitmap → Bitmap
draw_cached_char font x y color i c b =
    draw_cached_font font b (add_word 64 x (mul_word i 8)) y color c

unfoldable pub draw_cached_str : List Glyph → Bitmap → (x y color : ℕ) → List ℕ → Bitmap
draw_cached_str font b x y color s = for_each (draw_cached_char font x y color) 0 s b

module _ (source : List (List ℕ)) (font : List Glyph) (read : font_cache source ≡ ok font) where
  draw_font_fg-cached :
      (b : Bitmap) (x y color c : ℕ)
      → draw_font_fg source b x y color c ≡ ok (draw_cached_font font b x y color c)
  unfolding draw_font_fg lookup_font draw_cached_font lookup_cached
  draw_font_fg-cached b x y color c = elim (Bool-cases (ltb c 256)) [
    | inl e ↦ rw (draw_font_fg, draw_cached_font, lookup_font, lookup_cached, e, read) refl
    | inr e ↦ rw (draw_font_fg, draw_cached_font, lookup_font, lookup_cached, e) refl
  ]

  draw_chars-cached :
      (x y color i : ℕ) (s : List ℕ) (b : Bitmap)
      → draw_chars source x y color i s b ≡ ok (for_each (draw_cached_char font x y color) i s b)
  unfolding draw_chars for_each
  draw_chars-cached x y color i [] b = refl
  draw_chars-cached x y color i (c ∷ s) b =
      rw (draw_font_fg-cached b (add_word 64 x (mul_word i 8)) y color c)
        (draw_chars-cached x y color (i + 1) s (draw_cached_char font x y color i c b))

  pub draw_str_fg-cached :
      (b : Bitmap) (x y color : ℕ) (s : List ℕ)
      → draw_str_fg source b x y color s ≡ ok (draw_cached_str font b x y color s)
  unfolding draw_str_fg draw_cached_str
  draw_str_fg-cached b x y color s = draw_chars-cached x y color 0 s b

-- No header of the source has an index out of the font, as a negative one is.
abbrev pub IsReadable : List (List ℕ) → Type 0
IsReadable = All (λ line. (idx : ℕ) → header_index line ≡ some idx → idx < 256)

read_font-IsReadable :
    (lines : List (List ℕ)) (font : List Glyph)
    → IsReadable lines
    → (font' : List Glyph) × (read_font lines font ≡ ok font')
unfolding read_font
read_font-IsReadable [] font h = (font, refl)
read_font-IsReadable (line ∷ lines) font (fits, h) = elim (Option-cases (header_index line)) [
  | inl e ↦ let (font', r) = read_font-IsReadable lines font h in (font', rw (read_font, e) r)
  | inr (idx, e) ↦
      let (font', r) = read_font-IsReadable lines (set font idx (glyph_of 16 lines)) h in
      (font', rw (read_font, e, lt→ltb idx 256 (fits idx e)) r)
]

pub font_cache-IsReadable :
    (source : List (List ℕ))
    → IsReadable source
    → (font : List Glyph) × (font_cache source ≡ ok font)
unfolding font_cache
font_cache-IsReadable source h = read_font-IsReadable source _ h
