-- ===== src/Keyboard/Chars.antt =====
-- The characters of the keys.
use original_os_with_rust.Prelude.{ℕ, ◌≡◌, some, arith}
use original_os_with_rust.Keyboard.{from_usb_key_id, to_char}

-- Two keys that give the same character are the same key.
pub to_char-injective :
    (a b c : ℕ)
    → to_char (from_usb_key_id a) ≡ some c
    → to_char (from_usb_key_id b) ≡ some c
    → a ≡ b
unfolding to_char from_usb_key_id
to_char-injective a b c p q = ground arith
