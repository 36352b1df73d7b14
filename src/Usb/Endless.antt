-- ===== src/Usb/Endless.antt =====
-- usb.rs: a descriptor of length 0.
use original_os_with_rust.Prelude.{ℕ, zero, suc, ◌≡◌, ◌≢◌, refl, arith, some, none, ok}
use original_os_with_rust.Prelude.{List, ◌∷◌, ≢→==, leb, false, length}
use original_os_with_rust.Usb.{collect_descriptors, next_descriptor, step_at}
use original_os_with_rust.Usb.{read_descriptor, unknown_descriptor}

leb-zero : (n : ℕ) → leb (suc n) 0 ≡ false
leb-zero n = ground arith

stays :
    (k : ℕ) (bytes : List ℕ)
    → k ≢ 2
    → k ≢ 4
    → k ≢ 5
    → next_descriptor (0 ∷ k ∷ bytes) 0 ≡ ok (some (unknown_descriptor 0 k), 0)
unfolding next_descriptor step_at read_descriptor
stays k bytes h2 h4 h5 =
    rw
      (
        next_descriptor,
        leb-zero (suc (length bytes)),
        step_at,
        read_descriptor,
        ≢→== k 2 h2,
        ≢→== k 4 h4,
        ≢→== k 5 h5,
      )
      refl

-- If the first descriptor has length 0 and is none of the three known types, the loop over the
-- descriptors does not end, whatever the fuel.
pub collect_descriptors-endless :
    (fuel k : ℕ) (bytes : List ℕ)
    → k ≢ 2
    → k ≢ 4
    → k ≢ 5
    → collect_descriptors fuel (0 ∷ k ∷ bytes) 0 ≡ none
unfolding collect_descriptors
collect_descriptors-endless zero k bytes h2 h4 h5 = refl
collect_descriptors-endless (suc fuel) k bytes h2 h4 h5 =
    rw (collect_descriptors, stays k bytes h2 h4 h5)
      (rw (collect_descriptors-endless fuel k bytes h2 h4 h5) refl)
