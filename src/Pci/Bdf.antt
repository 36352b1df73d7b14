-- ===== src/Pci/Bdf.antt =====
-- The identifier of a PCI function and its parts, and the configuration space of a function.
use original_os_with_rust.Prelude.{
  ℕ, zero, suc, ◌+◌, ◌*◌, ◌/◌, ◌%◌, ◌^◌, ◌≤◌, ◌<◌, ◌≡◌, refl, arith,
}
use original_os_with_rust.Prelude.{
  ap, ap₂, ◌∙◌, ok, bit_and, bit_or, lt→ltb, le→ltb, some, none, List, [], ◌∷◌,
}
use original_os_with_rust.Words.Bits.{bit_and_split, bit_and-zero}
use original_os_with_rust.Words.Masks.{bit_or_fields, bit_and_ones, ones_low}
use original_os_with_rust.Pci.{
  BusDeviceFunction, new_bdf, bus, device, function, next_bdf, collect_bdf, ecm_base, new_pci,
}

abbrev id_of : ℕ → ℕ → ℕ → ℕ
id_of b d f = b * 2 ^ 8 + (d * 2 ^ 3 + f)

-- The identifier's digits.
packed : (b d f : ℕ) → d < 32 → f < 8 → bit_or (bit_or (b * 2 ^ 8) (d * 2 ^ 3)) f ≡ id_of b d f
packed b d f hd hf =
    ap (λ x. bit_or x f) (bit_or_fields 8 b (d * 2 ^ 3) (omega arith))
    ∙ ap (λ x. bit_or x f) (let e : b * 2 ^ 8 + d * 2 ^ 3 ≡ (b * 32 + d) * 2 ^ 3 = omega arith in e)
    ∙ bit_or_fields 3 (b * 32 + d) f hf
    ∙ omega arith

ap₃ : (g : ℕ → ℕ → ℕ → ℕ) {x x' y y' z z' : ℕ} → x ≡ x' → y ≡ y' → z ≡ z' → g x y z ≡ g x' y' z'
ap₃ g p q r = λ i. g (p i) (q i) (r i)

new_bdf_lem :
    (b d f : ℕ) → b < 256 → d < 32 → f < 8 → new_bdf b d f ≡ ok (record { id = id_of b d f })
unfolding new_bdf
new_bdf_lem b d f hb hd hf =
    rw (lt→ltb b 256 hb, lt→ltb d 32 hd, lt→ltb f 8 hf) (ap (λ x. ok (record { id = x })) shape)
  where
    shape :
        bit_or (bit_or (b * 2 ^ 8 % 2 ^ 64) (d * 2 ^ 3 % 2 ^ 64)) (f * 1 % 2 ^ 64) % 2 ^ 16
        ≡ id_of b d f
    shape = omega (
      arith,
      ap (λ (x : ℕ). x % 2 ^ 16)
          (ap₃ (λ x y z. bit_or (bit_or x y) z)
              (let e : b * 2 ^ 8 % 2 ^ 64 ≡ b * 2 ^ 8 = omega arith in e)
              (let e : d * 2 ^ 3 % 2 ^ 64 ≡ d * 2 ^ 3 = omega arith in e)
              (let e : f * 1 % 2 ^ 64 ≡ f = omega arith in e)
            ∙ packed b d f hd hf),
    )

bus_digits : (b d f : ℕ) → d < 32 → f < 8 → b < 256 → bit_and (id_of b d f) 0xff00 ≡ b * 2 ^ 8
bus_digits b d f hd hf hb =
    ap (bit_and (id_of b d f)) (let e : 0xff00 ≡ 255 * 2 ^ 8 + 0 = omega arith in e)
    ∙ bit_and_split 8 b (d * 2 ^ 3 + f) 255 0 (omega arith) (omega arith)
    ∙ omega (arith, ap (λ (x : ℕ). x * 2 ^ 8) (ones_low 8 b hb), bit_and-zero (d * 2 ^ 3 + f))

device_digits : (b d f : ℕ) → d < 32 → f < 8 → bit_and (id_of b d f) 0x00f8 ≡ d * 2 ^ 3
device_digits b d f hd hf =
    ap₂ bit_and (let e : id_of b d f ≡ (b * 2 ^ 5 + d) * 2 ^ 3 + f = omega arith in e)
      (let e : 0x00f8 ≡ 31 * 2 ^ 3 + 0 = omega arith in e)
    ∙ bit_and_split 3 (b * 2 ^ 5 + d) f 31 0 hf (omega arith)
    ∙ omega (arith, ap (λ (x : ℕ). x * 2 ^ 3) (bit_and_ones 5 (b * 2 ^ 5 + d)), bit_and-zero f)

-- In range, an identifier is made whose parts are those given.
pub new_bdf-parts :
    (b d f : ℕ)
    → b < 256
    → d < 32
    → f < 8
    → (i : BusDeviceFunction) × (new_bdf b d f ≡ ok i)
      × (bus i ≡ b)
      × (device i ≡ d)
      × (function i ≡ f)
      × (i.id < 2 ^ 16)
unfolding bus device function
new_bdf-parts b d f hb hd hf = (
  record { id = id_of b d f },
  new_bdf_lem b d f hb hd hf,
  omega (arith, ap (λ (x : ℕ). x / 2 ^ 8) (bus_digits b d f hd hf hb)),
  omega (arith, ap (λ (x : ℕ). x / 2 ^ 3) (device_digits b d f hd hf)),
  omega (arith, bit_and_ones 3 (id_of b d f)),
  omega arith,
)

-- The identifiers from `n` on, `k` of them.
abbrev pub ids_from : ℕ → ℕ → List BusDeviceFunction
ids_from n zero = []
ids_from n (suc k) = record { id = n } ∷ ids_from (suc n) k

next_lem : (n : ℕ) → n < 65536 → next_bdf n ≡ (some (record { id = n }), suc n)
unfolding next_bdf
next_lem n h =
    rw (next_bdf, le→ltb 0xffff n (omega arith))
      (ap (λ x. (some (record { id = x }), suc n)) (let m : n % 2 ^ 16 ≡ n = omega arith in m))

next_end : next_bdf 65536 ≡ (none, 65536)
unfolding next_bdf
next_end = refl

collect-ids : (k n fuel : ℕ) → n + k ≡ 65536 → k < fuel → collect_bdf fuel n ≡ some (ids_from n k)
unfolding collect_bdf
collect-ids k n zero e h = absurd (omega arith)
collect-ids zero n (suc fuel) e h =
    let last : n ≡ 65536 = omega arith in rw (collect_bdf, last, next_end) refl
collect-ids (suc k) n (suc fuel) e h =
    rw (collect_bdf, next_lem n (omega arith))
      (rw (next_lem n (omega arith), collect-ids k (suc n) fuel (omega arith) (omega arith)) refl)

-- The loop over all functions ends, and visits each of the 65536 identifiers once, in order.
pub collect-all : (fuel : ℕ) → 65536 < fuel → collect_bdf fuel 0 ≡ some (ids_from 0 65536)
collect-all fuel h = collect-ids 65536 0 fuel (omega arith) h

-- The registers of a bus, device and function in range lie where the layout of the configuration space has
-- them: 2^20 bytes for a bus, 2^15 for a device and 2^12 for a function, from a base address that leaves
-- room for 256 buses.
pub ecm_base-parts :
    (base b d f : ℕ)
    → b < 256
    → d < 32
    → f < 8
    → base + 2 ^ 28 ≤ 2 ^ 64
    → (i : BusDeviceFunction) × (new_bdf b d f ≡ ok i)
      × (ecm_base (new_pci base) i ≡ base + (b * 2 ^ 20 + d * 2 ^ 15 + f * 2 ^ 12))
unfolding ecm_base new_pci
ecm_base-parts base b d f hb hd hf room =
    (record { id = id_of b d f }, new_bdf_lem b d f hb hd hf, omega (arith, hb, hd, hf, room))
