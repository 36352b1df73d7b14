-- ===== src/Graphics/Draws.antt =====
-- Drawings of one color: which offsets they write, and loops of them.
use original_os_with_rust.Prelude.{
  ℕ, zero, suc, ◌+◌, ◌≡◌, ◌⊎◌, inl, inr, refl, arith, ap, sym, ◌∙◌, subst, none, some, Option-cases,
  List, [], ◌∷◌, get_elem?,
}
use original_os_with_rust.Graphics.{
  Bitmap, is_in_x_range, is_in_y_range, unchecked_pixel_at, pixel_at, write_pixel, draw_point,
}
use original_os_with_rust.Graphics.Paint.{
  Painted, Painted-none, Painted-write, Painted-then, Painted-map,
}
use original_os_with_rust.Graphics.Font.{for_each}

-- The offsets of `P` get the color and no others change, and pixels stand where they stood.
pub record Draws (P : ℕ → Type 0) (color : ℕ) (before after : Bitmap) : Type 0 where
  pub painted : Painted P color before after
  pub shape : (x y : ℕ) → pixel_at after x y ≡ pixel_at before x y

pub Draws-map :
    (P Q : ℕ → Type 0) (color : ℕ) (b b' : Bitmap)
    → ((ofs : ℕ) → P ofs → Q ofs)
    → ((ofs : ℕ) → Q ofs → P ofs)
    → Draws P color b b'
    → Draws Q color b b'
Draws-map P Q color b b' to from d = record {
  painted = Painted-map P Q color b b' to from d.painted;
  shape = d.shape;
}

pub none-Draws : (b : Bitmap) (color : ℕ) → Draws (λ ofs. ⊥) color b b
none-Draws b color = record { painted = Painted-none b color; shape = λ x y. refl }

write-Draws : (b : Bitmap) (at color : ℕ) → Draws (λ ofs. ofs ≡ at) color b (write_pixel b at color)
unfolding pixel_at is_in_x_range is_in_y_range unchecked_pixel_at
write-Draws b at color = record { painted = Painted-write b at color; shape = λ x y. refl }

draw_point-out :
    (b : Bitmap) (color x y : ℕ) → pixel_at b x y ≡ none → (draw_point b color x y).0 ≡ b
unfolding draw_point
draw_point-out b color x y e = rw (draw_point, e) refl

draw_point-in :
    (b : Bitmap) (color x y at : ℕ)
    → pixel_at b x y ≡ some at
    → (draw_point b color x y).0 ≡ write_pixel b at color
unfolding draw_point
draw_point-in b color x y at e = rw (draw_point, e) refl

pub point-Draws :
    (b : Bitmap) (color x y : ℕ)
    → Draws (λ ofs. pixel_at b x y ≡ some ofs) color b (draw_point b color x y).0
point-Draws b color x y = elim (Option-cases (pixel_at b x y)) [
  | inl e ↦ subst (Draws _ color b) (sym (draw_point-out b color x y e)) (
      Draws-map (λ ofs. ⊥) _ color b b (λ ofs p. absurd p) (λ ofs p. absurd cc)
        (none-Draws b color))
  | inr (at, e) ↦ subst (Draws _ color b) (sym (draw_point-in b color x y at e)) (
      Draws-map (λ ofs. ofs ≡ at) _ color b _ (λ ofs p. e ∙ ap some (sym p))
        (λ ofs p. (let h : ofs ≡ at = cc in h)) (write-Draws b at color))
]

module _ {A : Type 0} (b0 : Bitmap) (color : ℕ) (Q : ℕ → A → ℕ → Type 0)
    (draw : ℕ → A → Bitmap → Bitmap)
    (each : (i : ℕ) (a : A) (b : Bitmap)
      → ((x y : ℕ) → pixel_at b x y ≡ pixel_at b0 x y)
      → Draws (Q i a) color b (draw i a b)) where
  -- What the items of a list paint, from the index `i` on.
  abbrev pub Items : ℕ → List A → ℕ → Type 0
  Items i items ofs = (k : ℕ) × (a : A) × (get_elem? items k ≡ some a) × Q (i + k) a ofs

  nothing : (i : ℕ) (ofs : ℕ) → Items i [] ofs → ⊥
  nothing i ofs (k, a, e, q) = absurd cc

  gather :
      (i : ℕ) (a : A) (items : List A) (ofs : ℕ)
      → Q i a ofs ⊎ Items (i + 1) items ofs
      → Items i (a ∷ items) ofs
  gather i a items ofs (inl q) = (0, a, refl, subst (λ n. Q n a ofs) (omega arith) q)
  gather i a items ofs (inr (k, a', e, q)) = (suc k, a', e, subst (λ n. Q n a' ofs) (omega arith) q)

  spread :
      (i : ℕ) (a : A) (items : List A) (ofs : ℕ)
      → Items i (a ∷ items) ofs
      → Q i a ofs ⊎ Items (i + 1) items ofs
  spread i a items ofs (zero, a', e, q) =
      let same : a' ≡ a = cc in
      inl (subst (λ x. Q i x ofs) same (subst (λ n. Q n a' ofs) (omega arith) q))
  spread i a items ofs (suc k, a', e, q) = inr (k, a', e, subst (λ n. Q n a' ofs) (omega arith) q)

  pub for_each-Draws :
      (i : ℕ) (items : List A) (b : Bitmap)
      → ((x y : ℕ) → pixel_at b x y ≡ pixel_at b0 x y)
      → Draws (Items i items) color b (for_each draw i items b)
  unfolding for_each
  for_each-Draws i [] b same = record {
    painted =
        Painted-map (λ ofs. ⊥) (Items i []) color b b (λ ofs p. absurd p) (nothing i)
          (Painted-none b color);
    shape = λ x y. refl;
  }
  for_each-Draws i (a ∷ items) b same =
      let first = each i a b same in
      let rest = for_each-Draws (i + 1) items (draw i a b) (λ x y. first.shape x y ∙ same x y) in
      record {
        painted =
            Painted-map (λ ofs. Q i a ofs ⊎ Items (i + 1) items ofs) (Items i (a ∷ items)) color b _
              (gather i a items) (spread i a items)
              (Painted-then (Q i a) (Items (i + 1) items) color b (draw i a b) _ first.painted
                rest.painted);
        shape = λ x y. rest.shape x y ∙ first.shape x y;
      }
