-- ===== src/Volatile/Fields.antt =====
-- What `write_bits` and `read_bits` do to the fields of a register.
use original_os_with_rust.Prelude.{ℕ, ◌+◌, ◌-◌, ◌*◌, ◌/◌, ◌%◌, ◌^◌, ◌≤◌, ◌<◌, ◌≡◌, ◌⊎◌, inl, inr}
use original_os_with_rust.Prelude.{arith, ap, ap₂, sym, ◌∙◌, refl, subst, bit_and, bit_or, ok, err}
use original_os_with_rust.Prelude.{value_out_of_range, ≡→==, ≢→==}
use original_os_with_rust.Words.Bits.{bit_and_comm}
use original_os_with_rust.Words.Powers.{pow-pos, pow-add, pow-lt}
use original_os_with_rust.Words.Masks.{
  div_field, mod_field, div-mod_field, mod_field-lt, bit_and_ones,
}
use original_os_with_rust.Words.Masks.{
  div-div, div-lt, field-lt as below-pow, replace_digits, ones_low,
}
use original_os_with_rust.Words.Ops.{shl, not_word, shl_lem, shr_lem}
use original_os_with_rust.Volatile.{write_bits, read_bits}
use native.Mathlib.Nat.{add-mul-mod_self_right, add-mul-div_right}

-- The `width` digits from digit `shift` on.
unfoldable pub field : ℕ → ℕ → ℕ → ℕ
field shift width x = x / 2 ^ shift % 2 ^ width

-- `x` with that field replaced by `v`.
unfoldable pub replace_field : ℕ → ℕ → ℕ → ℕ → ℕ
replace_field shift width v x =
    (x / 2 ^ (shift + width) * 2 ^ width + v) * 2 ^ shift + x % 2 ^ shift

pub mask_lem : (w width : ℕ) → width < w → shl w 1 width - 1 ≡ 2 ^ width - 1
mask_lem w width h = omega (arith, shl_lem w 1 width h (omega (arith, pow-lt width w h)))

-- `read_bits` reads the field.
pub read_bits_lem :
    (w x shift width : ℕ) → shift < w → width < w → read_bits w x shift width ≡ field shift width x
unfolding read_bits field
read_bits_lem w x shift width hs hw =
    ap₂ bit_and (shr_lem w x shift hs) (mask_lem w width hw) ∙ bit_and_ones width (x / 2 ^ shift)

-- A word as the digits above a field, the field, and the digits below.
pub around_field : (s wd x : ℕ) → (x / 2 ^ (s + wd) * 2 ^ wd + field s wd x) * 2 ^ s + x % 2 ^ s ≡ x
unfolding field
around_field s wd x = rw (div-div s wd x, div-mod_field wd (x / 2 ^ s)) (div-mod_field s x)

pub field-lt : (s wd x : ℕ) → field s wd x < 2 ^ wd
unfolding field
field-lt s wd x = mod_field-lt wd (x / 2 ^ s)

-- A field reads back what was put into it.
pub field-replace_self :
    (shift width v x : ℕ) → v < 2 ^ width → field shift width (replace_field shift width v x) ≡ v
unfolding field replace_field
field-replace_self s wd v x h =
    ap (λ t. t % 2 ^ wd)
      (div_field s (x / 2 ^ (s + wd) * 2 ^ wd + v) (x % 2 ^ s) (mod_field-lt s x))
    ∙ mod_field wd (x / 2 ^ (s + wd)) v h

pub replace_field-lt :
    (w shift width v x : ℕ)
    → shift + width ≤ w
    → v < 2 ^ width
    → x < 2 ^ w
    → replace_field shift width v x < 2 ^ w
unfolding replace_field
replace_field-lt w s wd v x hw hv hx =
    let r = w - (s + wd) in
    let e : r + (s + wd) ≡ w = omega arith in
    let e' : r + wd + s ≡ w = omega arith in
    let top : x / 2 ^ (s + wd) < 2 ^ r = div-lt r (s + wd) x (rw e hx) in
    subst (λ n. (x / 2 ^ (s + wd) * 2 ^ wd + v) * 2 ^ s + x % 2 ^ s < 2 ^ n) e'
      (below-pow (r + wd) s _ (x % 2 ^ s) (below-pow r wd _ v top hv) (mod_field-lt s x))

-- The digits from `s + wd` on do not see the field.
above_field :
    (s wd v x : ℕ)
    → v < 2 ^ wd
    → ((x / 2 ^ (s + wd) * 2 ^ wd + v) * 2 ^ s + x % 2 ^ s) / 2 ^ (s + wd) ≡ x / 2 ^ (s + wd)
above_field s wd v x hv =
    div-div s wd _
    ∙ ap (λ t. t / 2 ^ wd)
        (div_field s (x / 2 ^ (s + wd) * 2 ^ wd + v) (x % 2 ^ s) (mod_field-lt s x))
    ∙ div_field wd (x / 2 ^ (s + wd)) v hv

-- Digits from `s + wd + n` on do not reach into a field below.
below_field : (s wd n a z : ℕ) → (a * 2 ^ (s + wd + n) + z) / 2 ^ s % 2 ^ wd ≡ z / 2 ^ s % 2 ^ wd
below_field s wd n a z =
    ap (λ t. t / 2 ^ s % 2 ^ wd) shape
    ∙ ap (λ t. t % 2 ^ wd) (add-mul-div_right z (a * 2 ^ n * 2 ^ wd) (pow-pos s))
    ∙ add-mul-mod_self_right (z / 2 ^ s) (a * 2 ^ n) (2 ^ wd)
  where
    shape : a * 2 ^ (s + wd + n) + z ≡ z + a * 2 ^ n * 2 ^ wd * 2 ^ s
    shape = rw (pow-add (s + wd) n, pow-add s wd) (omega arith)

-- A field apart from it keeps its content.
pub field-replace_ne :
    (s width s' width' v x : ℕ)
    → v < 2 ^ width
    → (s + width ≤ s') ⊎ (s' + width' ≤ s)
    → field s' width' (replace_field s width v x) ≡ field s' width' x
unfolding field replace_field
field-replace_ne s wd s' wd' v x hv (inl above) =
    let n = s' - (s + wd) in
    let e : s + wd + n ≡ s' = omega arith in
    let y = (x / 2 ^ (s + wd) * 2 ^ wd + v) * 2 ^ s + x % 2 ^ s in
    subst (λ k. y / 2 ^ k % 2 ^ wd' ≡ x / 2 ^ k % 2 ^ wd') e
      (ap (λ t. t % 2 ^ wd')
        (div-div (s + wd) n y
          ∙ ap (λ t. t / 2 ^ n) (above_field s wd v x hv)
          ∙ sym (div-div (s + wd) n x)))
field-replace_ne s wd s' wd' v x hv (inr below) =
    let n = s - (s' + wd') in
    let e : s' + wd' + n ≡ s = omega arith in
    let a = x / 2 ^ (s + wd) * 2 ^ wd + v in
    subst (λ k. (a * 2 ^ k + x % 2 ^ s) / 2 ^ s' % 2 ^ wd' ≡ x % 2 ^ s / 2 ^ s' % 2 ^ wd') e
      (below_field s' wd' n a (x % 2 ^ s))
    ∙ sym (
        ap (λ t. t / 2 ^ s' % 2 ^ wd') (sym (div-mod_field s x))
        ∙ subst
            (λ k. (x / 2 ^ s * 2 ^ k + x % 2 ^ s) / 2 ^ s' % 2 ^ wd' ≡ x % 2 ^ s / 2 ^ s' % 2 ^ wd')
            e (below_field s' wd' n (x / 2 ^ s) (x % 2 ^ s)))

not_mask_sum :
    (a b c : ℕ) → (a + 1) * (b + 1) * (c + 1) - 1 - b * (c + 1) ≡ a * (b + 1) * (c + 1) + c
not_mask_sum a b c = grind arith

ap₃ : (f : ℕ → ℕ → ℕ → ℕ) {a a' b b' c c' : ℕ} → a ≡ a' → b ≡ b' → c ≡ c' → f a b c ≡ f a' b' c'
ap₃ f p q r = λ i. f (p i) (q i) (r i)

not_mask_digits :
    (r q p : ℕ) → 0 < r → 0 < q → 0 < p → r * q * p - 1 - (q - 1) * p ≡ (r - 1) * q * p + (p - 1)
not_mask_digits r q p hr hq hp =
    let er : r ≡ r - 1 + 1 = omega arith in
    let eq : q ≡ q - 1 + 1 = omega arith in
    let ep : p ≡ p - 1 + 1 = omega arith in
    ap₃ (λ a b c. a * b * c - 1 - (q - 1) * c) er eq ep
    ∙ not_mask_sum (r - 1) (q - 1) (p - 1)
    ∙ sym (ap₂ (λ b c. (r - 1) * b * c + (p - 1)) eq ep)

-- `!(mask << shift)`, from the top.
not_mask :
    (r wd s : ℕ)
    → 2 ^ (r + wd + s) - 1 - (2 ^ wd - 1) * 2 ^ s ≡ (2 ^ r - 1) * 2 ^ wd * 2 ^ s + (2 ^ s - 1)
not_mask r wd s =
    rw (pow-add (r + wd) s, pow-add r wd)
      (not_mask_digits (2 ^ r) (2 ^ wd) (2 ^ s) (pow-pos r) (pow-pos wd) (pow-pos s))

shifted-lt : (w s wd v : ℕ) → s + wd ≤ w → v < 2 ^ wd → v * 2 ^ s < 2 ^ w
shifted-lt w s wd v h hv =
    let e : w - (s + wd) + wd + s ≡ w = omega arith in
    let low : 0 * 2 ^ wd + v < 2 ^ (w - (s + wd) + wd) =
      below-pow (w - (s + wd)) wd 0 v (pow-pos (w - (s + wd))) hv in
    omega
      (arith, below-pow (w - (s + wd) + wd) s (0 * 2 ^ wd + v) 0 low (pow-pos s), ap (λ k. 2 ^ k) e)

-- The field cleared and the value put there.
pub field_value :
    (w x shift width v : ℕ)
    → shift < w
    → shift + width ≤ w
    → x < 2 ^ w
    → v < 2 ^ width
    → bit_or (shl w v shift) (bit_and x (not_word w (shl w (2 ^ width - 1) shift)))
      ≡ replace_field shift width v x
unfolding replace_field
field_value w x s wd v hs hsw hx hv =
    let r = w - (s + wd) in
    let e : r + wd + s ≡ w = omega arith in
    let e' : r + (s + wd) ≡ w = omega arith in
    let top : x / 2 ^ (s + wd) < 2 ^ r = div-lt r (s + wd) x (rw e' hx) in
    rw (shl_lem w v s hs (shifted-lt w s wd v hsw hv)) (
      rw
        (shl_lem w (2 ^ wd - 1) s hs
          (shifted-lt w s wd (2 ^ wd - 1) hsw (omega (arith, pow-pos wd))))
        (replaced r e top))
  where
    replaced :
        (r : ℕ)
        → r + wd + s ≡ w
        → x / 2 ^ (s + wd) < 2 ^ r
        → bit_or (v * 2 ^ s) (bit_and x (2 ^ w - 1 - (2 ^ wd - 1) * 2 ^ s))
          ≡ (x / 2 ^ (s + wd) * 2 ^ wd + v) * 2 ^ s + x % 2 ^ s
    replaced r e top =
        ap₂ (λ a b. bit_or (v * 2 ^ s) (bit_and a b)) (sym (around_field s wd x))
          (ap (λ k. 2 ^ k - 1 - (2 ^ wd - 1) * 2 ^ s) (sym e) ∙ not_mask r wd s)
        ∙ replace_digits r wd s (x / 2 ^ (s + wd)) (field s wd x) v (x % 2 ^ s) top
            (field-lt s wd x) hv (mod_field-lt s x)

-- `write_bits` replaces the field, if the value fits it.
pub write_bits_lem :
    (w x shift width v : ℕ)
    → shift < w
    → width < w
    → shift + width ≤ w
    → x < 2 ^ w
    → v < 2 ^ width
    → write_bits w x shift width v ≡ ok (replace_field shift width v x)
unfolding write_bits
write_bits_lem w x s wd v hs hw hsw hx hv =
    rw (mask_lem w wd hw, bit_and_comm (2 ^ wd - 1) v, ones_low wd v hv, ≡→== v v refl)
      (ap ok (field_value w x s wd v hs hsw hx hv))

-- A value that does not fit the field is refused.
pub write_bits_too_large :
    (w x shift width v : ℕ)
    → width < w
    → 2 ^ width ≤ v
    → write_bits w x shift width v ≡ err value_out_of_range
unfolding write_bits
write_bits_too_large w x s wd v hw h = rw (
  mask_lem w wd hw,
  bit_and_comm (2 ^ wd - 1) v,
  bit_and_ones wd v,
  ≢→== (v % 2 ^ wd) v (λ e. absurd (omega (arith, mod_field-lt wd v))),
)
