-- ===== src/Volatile/ReadWrite.antt =====
-- volatile.rs: the fields of one register, written and read.
use original_os_with_rust.Prelude.{ℕ, ◌+◌, ◌^◌, ◌≤◌, ◌<◌, ◌≡◌, ◌⊎◌, ◌∙◌, sym, ok}
use original_os_with_rust.Volatile.{write_bits, read_bits}
use original_os_with_rust.Volatile.Fields.{replace_field, read_bits_lem, write_bits_lem}
use original_os_with_rust.Volatile.Fields.{field-replace_self, field-replace_ne, replace_field-lt}

-- The second of two fields begins inside the `w`-bit register and is narrower than it, and the two do not
-- overlap.
pub record IsApart (w s wd s' wd' : ℕ) : Type 0 where
  pub start : s' < w
  pub width : wd' < w
  pub apart : (s + wd ≤ s') ⊎ (s' + wd' ≤ s)

-- A value that fits a field of a `w`-bit register is written, when the field lies inside the register
-- and is narrower than it; the register stays a `w`-bit number, the field then reads as the value, and
-- every narrower field that begins inside the register apart from it reads as before.
pub read-write_bits :
    (w x s wd v : ℕ)
    → s < w
    → wd < w
    → s + wd ≤ w
    → x < 2 ^ w
    → v < 2 ^ wd
    → (y : ℕ) × (write_bits w x s wd v ≡ ok y)
      × (y < 2 ^ w)
      × (read_bits w y s wd ≡ v)
      × ((s' wd' : ℕ) → IsApart w s wd s' wd' → read_bits w y s' wd' ≡ read_bits w x s' wd')
read-write_bits w x s wd v hs hw hsw hx hv = (
  replace_field s wd v x,
  write_bits_lem w x s wd v hs hw hsw hx hv,
  replace_field-lt w s wd v x hsw hv hx,
  read_bits_lem w (replace_field s wd v x) s wd hs hw ∙ field-replace_self s wd v x hv,
  λ s' wd' h.
      read_bits_lem w (replace_field s wd v x) s' wd' h.start h.width
      ∙ field-replace_ne s wd s' wd' v x hv h.apart
      ∙ sym (read_bits_lem w x s' wd' h.start h.width),
)
