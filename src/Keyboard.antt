-- ===== src/Keyboard.antt =====
-- keyboard.rs: key events.
pub mod Chars
pub mod Driver
use original_os_with_rust.Prelude.{
  ℕ, ◌+◌, ◌-◌, ◌%◌, ◌&&◌, leb, ◌==◌, if◌then◌else◌, Option, none, some,
}

pub data KeyEvent : Type 0 where
  no_key enter : KeyEvent
  char unknown_key : ℕ → KeyEvent

-- `KeyEvent::from_usb_key_id`; a character is its code.
unfoldable pub from_usb_key_id : ℕ → KeyEvent
from_usb_key_id usage_id =
    if usage_id == 0
    then no_key
    else if leb 4 usage_id && leb usage_id 29
    then char (97 + usage_id - 4)
    else if leb 30 usage_id && leb usage_id 39
    then char (48 + (usage_id + 1) % 10)
    else if usage_id == 40
    then enter
    else if usage_id == 42
    then char 8
    else if usage_id == 44
    then char 32
    else if usage_id == 45
    then char 45
    else if usage_id == 51
    then char 58
    else if usage_id == 54
    then char 44
    else if usage_id == 55
    then char 46
    else if usage_id == 56
    then char 47
    else unknown_key usage_id

unfoldable pub to_char : KeyEvent → Option ℕ
to_char (char c) = some c
to_char enter = some 10
to_char no_key = none
to_char (unknown_key k) = none
