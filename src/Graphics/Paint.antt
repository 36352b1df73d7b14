-- ===== src/Graphics/Paint.antt =====
-- graphics.rs: sets of offsets that have been painted, and the two loops of `fill_rect`.
use original_os_with_rust.Prelude.{
  ℕ, zero, suc, ◌+◌, ◌^◌, ◌<◌, ◌≡◌, ◌⊎◌, inl, inr, refl, arith, ap, sym, ◌∙◌, subst, ≡→==, ≢→==,
}
use original_os_with_rust.Words.Ops.{add_word}
use original_os_with_rust.Graphics.{
  Bitmap, unchecked_pixel_at, write_pixel, unchecked_draw_point, fill_line, fill_lines,
}
use native.Mathlib.Decide.{ℕ_discrete}

-- From one bitmap to the other, the offsets of `P` have got the color, and no others have changed.
pub record Painted (P : ℕ → Type 0) (color : ℕ) (before after : Bitmap) : Type 0 where
  pub same : (x y : ℕ) → unchecked_pixel_at after x y ≡ unchecked_pixel_at before x y
  pub inside : (ofs : ℕ) → P ofs → after.buf ofs ≡ color
  pub outside : (ofs : ℕ) → P ofs ⊎ (after.buf ofs ≡ before.buf ofs)

pub Painted-none : (b : Bitmap) (color : ℕ) → Painted (λ ofs. ⊥) color b b
Painted-none b color = record {
  same = λ x y. refl;
  inside = λ ofs p. absurd p;
  outside = λ ofs. inr refl;
}

pub Painted-write :
    (b : Bitmap) (at color : ℕ) → Painted (λ ofs. ofs ≡ at) color b (write_pixel b at color)
unfolding unchecked_pixel_at
Painted-write b at color = record {
  same = λ x y. refl;
  inside = λ ofs e. rw (≡→== ofs at e) refl;
  outside =
      λ ofs. elim (ℕ_discrete ofs at) [ yes e ↦ inl e | no ne ↦ inr (rw (≢→== ofs at ne) refl) ];
}

-- One painting after another with the same color.
pub Painted-then :
    (P Q : ℕ → Type 0) (color : ℕ) (a b c : Bitmap)
    → Painted P color a b
    → Painted Q color b c
    → Painted (λ ofs. P ofs ⊎ Q ofs) color a c
Painted-then P Q color a b c p q = record {
  same = λ x y. q.same x y ∙ p.same x y;
  inside = λ ofs. elim [
    | inl h ↦ elim (q.outside ofs) [ inl k ↦ q.inside ofs k | inr e ↦ e ∙ p.inside ofs h ]
    | inr k ↦ q.inside ofs k
  ];
  outside = λ ofs. elim (q.outside ofs) [
    | inl k ↦ inl (inr k)
    | inr e ↦ elim (p.outside ofs) [ inl h ↦ inl (inl h) | inr e' ↦ inr (e ∙ e') ]
  ];
}

pub Painted-map :
    (P Q : ℕ → Type 0) (color : ℕ) (a b : Bitmap)
    → ((ofs : ℕ) → P ofs → Q ofs)
    → ((ofs : ℕ) → Q ofs → P ofs)
    → Painted P color a b
    → Painted Q color a b
Painted-map P Q color a b to from p = record {
  same = p.same;
  inside = λ ofs h. p.inside ofs (from ofs h);
  outside = λ ofs. elim (p.outside ofs) [ inl h ↦ inl (to ofs h) | inr e ↦ inr e ];
}

-- The offsets of `len` points of a line, and of so many lines.
abbrev pub InLine : Bitmap → (len x y : ℕ) → ℕ → Type 0
InLine b len x y ofs = (i : ℕ) × (i < len) × (ofs ≡ unchecked_pixel_at b (x + i) y)

abbrev pub InRect : Bitmap → (w h x y : ℕ) → ℕ → Type 0
InRect b w h x y ofs = (i j : ℕ) × (i < w) × (j < h) × (ofs ≡ unchecked_pixel_at b (x + i) (y + j))

next_word : (x n : ℕ) → x + suc n < 2 ^ 64 → add_word 64 x 1 ≡ x + 1
next_word x n h = omega (arith, h)

SameOffsets : Bitmap → Bitmap → Type 0
SameOffsets b b1 = (x y : ℕ) → unchecked_pixel_at b1 x y ≡ unchecked_pixel_at b x y

join_line :
    (b b1 : Bitmap) (n x y ofs : ℕ)
    → SameOffsets b b1
    → (ofs ≡ unchecked_pixel_at b x y) ⊎ InLine b1 n (x + 1) y ofs
    → InLine b (suc n) x y ofs
unfolding SameOffsets
join_line b b1 n x y ofs same (inl e) =
    (0, omega arith, e ∙ ap (λ k. unchecked_pixel_at b k y) (let q : x ≡ x + 0 = omega arith in q))
join_line b b1 n x y ofs same (inr (i, l, e)) = (
  suc i,
  omega (arith, l),
  e
      ∙ same (x + 1 + i) y
      ∙ ap (λ k. unchecked_pixel_at b k y) (let q : x + 1 + i ≡ x + suc i = omega arith in q),
)

split_line :
    (b b1 : Bitmap) (n x y ofs : ℕ)
    → SameOffsets b b1
    → InLine b (suc n) x y ofs
    → (ofs ≡ unchecked_pixel_at b x y) ⊎ InLine b1 n (x + 1) y ofs
unfolding SameOffsets
split_line b b1 n x y ofs same (zero, l, e) =
    inl (e ∙ ap (λ k. unchecked_pixel_at b k y) (let q : x + 0 ≡ x = omega arith in q))
split_line b b1 n x y ofs same (suc i, l, e) = inr (
  i,
  omega (arith, l),
  e
      ∙ ap (λ k. unchecked_pixel_at b k y) (let q : x + suc i ≡ x + 1 + i = omega arith in q)
      ∙ sym (same (x + 1 + i) y),
)

join_lines :
    (b b1 : Bitmap) (w h x y ofs : ℕ)
    → SameOffsets b b1
    → InLine b w x y ofs ⊎ InRect b1 w h x (y + 1) ofs
    → InRect b w (suc h) x y ofs
unfolding SameOffsets
join_lines b b1 w h x y ofs same (inl (i, l, e)) = (
  i,
  0,
  l,
  omega arith,
  e ∙ ap (λ k. unchecked_pixel_at b (x + i) k) (let q : y ≡ y + 0 = omega arith in q),
)
join_lines b b1 w h x y ofs same (inr (i, j, l, m, e)) = (
  i,
  suc j,
  l,
  omega (arith, m),
  e
      ∙ same (x + i) (y + 1 + j)
      ∙ ap (λ k. unchecked_pixel_at b (x + i) k) (let q : y + 1 + j ≡ y + suc j = omega arith in q),
)

split_lines :
    (b b1 : Bitmap) (w h x y ofs : ℕ)
    → SameOffsets b b1
    → InRect b w (suc h) x y ofs
    → InLine b w x y ofs ⊎ InRect b1 w h x (y + 1) ofs
unfolding SameOffsets
split_lines b b1 w h x y ofs same (i, zero, l, m, e) =
    inl (i, l, e ∙ ap (λ k. unchecked_pixel_at b (x + i) k) (let q : y + 0 ≡ y = omega arith in q))
split_lines b b1 w h x y ofs same (i, suc j, l, m, e) = inr (
  i,
  j,
  l,
  omega (arith, m),
  e
      ∙ ap (λ k. unchecked_pixel_at b (x + i) k) (let q : y + suc j ≡ y + 1 + j = omega arith in q)
      ∙ sym (same (x + i) (y + 1 + j)),
)

fill_line-Painted :
    (n : ℕ) (b : Bitmap) (color x y : ℕ)
    → x + n < 2 ^ 64
    → Painted (InLine b n x y) color b (fill_line n b color x y)
unfolding fill_line unchecked_draw_point SameOffsets
fill_line-Painted zero b color x y h =
    Painted-map (λ ofs. ⊥) (InLine b 0 x y) color b b (λ ofs p. absurd p)
      (λ ofs p. omega (arith, p.1)) (Painted-none b color)
fill_line-Painted (suc n) b color x y h =
    let at = unchecked_pixel_at b x y in
    let b1 = write_pixel b at color in
    let out = fill_line n b1 color (add_word 64 x 1) y in
    let first = Painted-write b at color in
    let rest : Painted (InLine b1 n (x + 1) y) color b1 out =
      subst (λ k. Painted (InLine b1 n (x + 1) y) color b1 (fill_line n b1 color k y))
        (sym (next_word x n h)) (fill_line-Painted n b1 color (x + 1) y (omega (arith, h))) in
    Painted-map (λ ofs. (ofs ≡ at) ⊎ InLine b1 n (x + 1) y ofs) (InLine b (suc n) x y) color b out
      (λ ofs. join_line b b1 n x y ofs first.same) (λ ofs. split_line b b1 n x y ofs first.same)
      (Painted-then (λ ofs. ofs ≡ at) (InLine b1 n (x + 1) y) color b b1 out first rest)

pub fill_lines-Painted :
    (h w : ℕ) (b : Bitmap) (color x y : ℕ)
    → x + w < 2 ^ 64
    → y + h < 2 ^ 64
    → Painted (InRect b w h x y) color b (fill_lines h w b color x y)
unfolding fill_lines SameOffsets
fill_lines-Painted zero w b color x y hx hy =
    Painted-map (λ ofs. ⊥) (InRect b w 0 x y) color b b (λ ofs p. absurd p)
      (λ ofs p. omega (arith, p.3)) (Painted-none b color)
fill_lines-Painted (suc h) w b color x y hx hy =
    let b1 = fill_line w b color x y in
    let out = fill_lines h w b1 color x (add_word 64 y 1) in
    let first = fill_line-Painted w b color x y hx in
    let rest : Painted (InRect b1 w h x (y + 1)) color b1 out =
      subst (λ k. Painted (InRect b1 w h x (y + 1)) color b1 (fill_lines h w b1 color x k))
        (sym (next_word y h hy))
        (fill_lines-Painted h w b1 color x (y + 1) hx (omega (arith, hy))) in
    Painted-map (λ ofs. InLine b w x y ofs ⊎ InRect b1 w h x (y + 1) ofs) (InRect b w (suc h) x y)
      color b out (λ ofs. join_lines b b1 w h x y ofs first.same)
      (λ ofs. split_lines b b1 w h x y ofs first.same)
      (Painted-then (InLine b w x y) (InRect b1 w h x (y + 1)) color b b1 out first rest)
