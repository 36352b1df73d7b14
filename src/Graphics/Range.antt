-- ===== src/Graphics/Range.antt =====
-- graphics.rs: the tests of `fill_rect` on words, and the lengths of its ranges.
use original_os_with_rust.Prelude.{
  ℕ, ◌+◌, ◌-◌, ◌^◌, ◌≤◌, ◌<◌, ◌≡◌, ◌⊎◌, inl, inr, arith, ap, ◌∙◌, min,
}
use original_os_with_rust.Prelude.{Bool, true, false, not, ◌&&◌, ◌||◌, ltb, lt→ltb, le→ltb}
use original_os_with_rust.Words.Ops.{add_word, sub_word}
use original_os_with_rust.Graphics.{signed_lt, signed_min, range_len}
use native.Mathlib.Decide.{dec_lt}

pub signed_lt-small : (a b : ℕ) → a < 2 ^ 63 → b < 2 ^ 63 → signed_lt a b ≡ ltb a b
signed_lt-small a b ha hb = ground arith

pub signed_lt-below :
    (a b : ℕ) → a < 2 ^ 64 → b < 2 ^ 63 → (not (signed_lt a 0) && signed_lt a b) ≡ ltb a b
signed_lt-below a b ha hb = ground arith

pub signed_min-small : (a b : ℕ) → a < 2 ^ 63 → b < 2 ^ 63 → signed_min a b ≡ min a b
signed_min-small a b ha hb = ground arith

pub range_len-word : (a n : ℕ) → a + n < 2 ^ 63 → range_len a (add_word 64 a n) ≡ n
range_len-word a n h = ground arith

-- The points of a range lie inside just when its first and its last do.
pub range_tests :
    (p n lim : ℕ)
    → p < 2 ^ 64
    → 0 < n
    → n < 2 ^ 63
    → lim < 2 ^ 63
    → ((p + n ≤ lim) × (ltb p lim ≡ true) × (ltb (sub_word 64 (add_word 64 p n) 1) lim ≡ true))
      ⊎ ((lim < p + n)
          × ((ltb p lim ≡ false) ⊎ (ltb (sub_word 64 (add_word 64 p n) 1) lim ≡ false)))
range_tests p n lim hp pos hn hl = elim (dec_lt p lim) [
  | no past ↦ inr (omega (arith, past), inl (le→ltb p lim (omega (arith, past))))
  | yes first ↦
      let word : sub_word 64 (add_word 64 p n) 1 ≡ p + n - 1 = omega (arith, first, pos, hn, hl) in
      elim (dec_lt (p + n - 1) lim) [
        | yes last ↦ inl (
          omega (arith, last, pos),
          lt→ltb p lim first,
          ap (λ k. ltb k lim) word ∙ lt→ltb (p + n - 1) lim last,
        )
        | no over ↦ inr (
          omega (arith, over, pos),
          inr (ap (λ k. ltb k lim) word ∙ le→ltb (p + n - 1) lim (omega (arith, over))),
        )
      ]
]

-- The guard of `fill_rect` on the results of its four tests.
abbrev pub guard : Bool → Bool → Bool → Bool → Bool
guard a b c d = not a || not b || not c || not d

pub guard_x : (a b c d : Bool) → (a ≡ false) ⊎ (c ≡ false) → guard a b c d ≡ true
guard_x a b c d h = ground arith

pub guard_y : (a b c d : Bool) → (b ≡ false) ⊎ (d ≡ false) → guard a b c d ≡ true
guard_y a b c d h = ground arith
