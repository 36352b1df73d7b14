-- ===== src/Pci/Bar.antt =====
-- The configuration registers of a function, and the size of BAR0.
use original_os_with_rust.Prelude.{
  ℕ, ◌+◌, ◌-◌, ◌*◌, ◌/◌, ◌%◌, ◌^◌, ◌≤◌, ◌<◌, ◌≡◌, arith, ap, ap₂, sym, ◌∙◌,
}
use original_os_with_rust.Prelude.{ok, bit_and}
use original_os_with_rust.Words.Bits.{bit_and_split, bit_and-zero}
use original_os_with_rust.Words.Powers.{pow-pos, pow-lt, pow-add}
use original_os_with_rust.Words.Masks.{
  mod_field, bit_and_ones, ones_low, div-mod_field, mod_field-lt, div-lt,
}
use original_os_with_rust.Words.Ops.{not_word, add_word}
use original_os_with_rust.Pci.{
  Pci, BusDeviceFunction, ConfigSpace, read_register_u64, write_register_u64,
}
use original_os_with_rust.Pci.{try_bar0_mem64, probe_bar0, after_write}

-- `x & !15` clears the low four digits.
clear_low : (x : ℕ) → x < 2 ^ 64 → bit_and x (not_word 64 15) ≡ x / 16 * 16
clear_low x h =
    ap₂ bit_and (sym (div-mod_field 4 x))
      (let e : 2 ^ 64 - 1 - 15 ≡ (2 ^ 60 - 1) * 2 ^ 4 + 0 = omega arith in e)
    ∙ bit_and_split 4 (x / 2 ^ 4) (x % 2 ^ 4) (2 ^ 60 - 1) 0 (mod_field-lt 4 x) (omega arith)
    ∙ omega (
      arith,
      ap (λ (t : ℕ). t * 2 ^ 4) (ones_low 60 (x / 2 ^ 4) (div-lt 60 4 x h)),
      bit_and-zero (x % 2 ^ 4),
    )

-- The 64-bit BAR0 of a region of 2^k bytes: its digits from `k` on can be written, those below are fixed,
-- and the low four of them are `flags`; writing it writes the whole register.
pub record IsBar {S : Type 0} (space : ConfigSpace S) (pci : Pci) (b : BusDeviceFunction) (s : S)
    (k flags : ℕ) : Type 0 where
  pub low : 4 ≤ k
  pub high : k < 64
  pub flags-lt : flags < 16
  pub kind : flags % 8 ≡ 4
  pub value : ℕ
  pub value-lt : value < 2 ^ 64
  pub fixed : value % 2 ^ k ≡ flags
  pub reads : read_register_u64 space pci b s 0x10 ≡ ok value
  pub store : S → ℕ → S
  pub writes :
      (t : S) (v : ℕ) → v < 2 ^ 64 → write_register_u64 space pci b t 0x10 v ≡ (store t v, ok tt)
  pub answers :
      (t : S) (v : ℕ)
      → v < 2 ^ 64
      → read_register_u64 space pci b (store t v) 0x10 ≡ ok (v / 2 ^ k * 2 ^ k + flags)

power_shape : (k : ℕ) → 4 ≤ k → 2 ^ k ≡ 2 ^ (k - 4) * 16
power_shape k h = ap (λ j. 2 ^ j) (let e : k ≡ k - 4 + 4 = omega arith in e) ∙ pow-add (k - 4) 4

-- A multiple of 2^k with low digits `f`.
low_digits :
    (k q f : ℕ)
    → 4 ≤ k
    → f < 16
    → ((q * 2 ^ k + f) / 16 * 16 ≡ q * 2 ^ k) × ((q * 2 ^ k + f) % 8 ≡ f % 8)
low_digits k q f h hf =
    let e : q * 2 ^ k ≡ q * 2 ^ (k - 4) * 16 =
      ap (λ t. q * t) (power_shape k h) ∙ assoc q (2 ^ (k - 4)) in
    (omega (arith, e), omega (arith, e))
  where
    assoc : (a b : ℕ) → a * (b * 16) ≡ a * b * 16
    assoc a b = grind arith

ones_shape : (a p : ℕ) → (a + 1) * (p + 1) - 1 ≡ a * (p + 1) + p
ones_shape a p = grind arith

-- All digits of a word, from digit `k` on.
ones-div : (k : ℕ) → k < 64 → (2 ^ 64 - 1) / 2 ^ k * 2 ^ k ≡ 2 ^ 64 - 2 ^ k
ones-div k h = omega (
  arith,
  div-mod_field k (2 ^ 64 - 1),
  ap (λ t. t % 2 ^ k) split,
  mod_field k (2 ^ (64 - k) - 1) (2 ^ k - 1) below,
)
  where
    below : 2 ^ k - 1 < 2 ^ k
    below = omega (arith, pow-pos k)

    split : 2 ^ 64 - 1 ≡ (2 ^ (64 - k) - 1) * 2 ^ k + (2 ^ k - 1)
    split =
        ap (λ j. 2 ^ j - 1) (let e : 64 ≡ 64 - k + k = omega arith in e)
        ∙ ap (λ t. t - 1)
            (pow-add (64 - k) k
              ∙ ap₂ (λ x y. x * y)
                  (let e : 2 ^ (64 - k) ≡ 2 ^ (64 - k) - 1 + 1 = omega (arith, pow-pos (64 - k)) in
                    e)
                  (let e : 2 ^ k ≡ 2 ^ k - 1 + 1 = omega (arith, pow-pos k) in e))
        ∙ ones_shape (2 ^ (64 - k) - 1) (2 ^ k - 1)
        ∙ ap (λ y. (2 ^ (64 - k) - 1) * y + (2 ^ k - 1))
            (let e : 2 ^ k - 1 + 1 ≡ 2 ^ k = omega (arith, pow-pos k) in e)

module _ {S : Type 0} (space : ConfigSpace S) (pci : Pci) (b : BusDeviceFunction) (s : S)
    (k flags : ℕ) (bar : IsBar space pci b s k flags) where
  size_lem :
      add_word 64 1 (not_word 64 (bit_and ((2 ^ 64 - 1) / 2 ^ k * 2 ^ k + flags) (not_word 64 15)))
      ≡ 2 ^ k
  size_lem =
      let low = (low_digits k ((2 ^ 64 - 1) / 2 ^ k) flags bar.low bar.flags-lt).0 in
      let small : 2 ^ k < 2 ^ 64 = pow-lt k 64 bar.high in
      ap (λ t. add_word 64 1 (2 ^ 64 - 1 - t))
        (clear_low ((2 ^ 64 - 1) / 2 ^ k * 2 ^ k + flags) (
            omega (
              arith,
              ones-div k bar.high,
              bar.flags-lt,
              power_shape k bar.low,
              small,
              pow-pos (k - 4),
            ))
          ∙ low
          ∙ ones-div k bar.high)
      ∙ omega (arith, small, pow-pos k)

  kind_lem : bit_and bar.value 7 ≡ 4
  kind_lem =
      bit_and_ones 3 bar.value
      ∙ omega (
        arith,
        div-mod_field k bar.value,
        bar.fixed,
        bar.kind,
        (low_digits k (bar.value / 2 ^ k) flags bar.low bar.flags-lt).1,
      )

  -- For a 64-bit memory BAR0 of 2^k bytes, with 4 ≤ k < 64, that answers as `IsBar` says,
  -- `try_bar0_mem64` returns the region's address and size, and its last write restores the register.
  pub try_bar0_mem64-size : try_bar0_mem64 space pci b s ≡ (
    bar.store (bar.store s (2 ^ 64 - 1)) bar.value,
    ok (record { addr = bar.value / 16 * 16; size = 2 ^ k }),
  )
  unfolding try_bar0_mem64 probe_bar0
  try_bar0_mem64-size =
      rw (try_bar0_mem64, bar.reads, kind_lem, bar.writes s (2 ^ 64 - 1) (omega arith))
        (rw
          (
            after_write,
            bar.answers s (2 ^ 64 - 1) (omega arith),
            bar.writes (bar.store s (2 ^ 64 - 1)) bar.value bar.value-lt,
          )
          (rw (bar.writes (bar.store s (2 ^ 64 - 1)) bar.value bar.value-lt) (
            ap₂
              (λ x y. (
                bar.store (bar.store s (2 ^ 64 - 1)) bar.value,
                ok (record { addr = x; size = y }),
              ))
              (clear_low bar.value bar.value-lt) size_lem)))
