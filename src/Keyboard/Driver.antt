-- ===== src/Keyboard/Driver.antt =====
-- keyboard.rs: the loop of `start_usb_keyboard` on the reports of the keyboard. A `BTreeSet<u8>` is the
-- list of its elements in ascending order.
pub mod Sets
pub mod Replay
pub mod Tests
use original_os_with_rust.Prelude.{
  ℕ, zero, suc, Bool, true, false, ltb, ◌==◌, if◌then◌else◌, List, [], ◌∷◌, ◌++◌, map, drop,
}
use original_os_with_rust.Keyboard.{KeyEvent, from_usb_key_id}

-- `BTreeSet::insert`.
unfoldable pub insert : ℕ → List ℕ → List ℕ
insert a [] = a ∷ []
insert a (x ∷ xs) =
    let rest = insert a xs in if ltb a x then a ∷ x ∷ xs else if a == x then x ∷ xs else x ∷ rest

-- `BTreeSet::contains`.
unfoldable pub contains : List ℕ → ℕ → Bool
contains [] k = false
contains (x ∷ xs) k = if x == k then true else contains xs k

-- `BTreeSet::symmetric_difference`, in ascending order.
unfoldable pub symmetric_difference : List ℕ → List ℕ → List ℕ
symmetric_difference [] ys = ys
symmetric_difference (x ∷ xs) [] = x ∷ xs
symmetric_difference (x ∷ xs) (y ∷ ys) =
    let both = symmetric_difference xs ys in
    let left = symmetric_difference xs (y ∷ ys) in
    let right = symmetric_difference (x ∷ xs) ys in
    if ltb x y then x ∷ left else if x == y then both else y ∷ right

-- `from_iter` over the bytes that are not 0.
unfoldable pub from_bytes : List ℕ → List ℕ
from_bytes [] = []
from_bytes (id ∷ ids) = let rest = from_bytes ids in if id == 0 then rest else insert id rest

-- The keys that a report has as pressed: its bytes but for the first two and the zeros.
unfoldable pub pressed_keys : List ℕ → List ℕ
pressed_keys report = from_bytes (drop 2 report)

-- One line of the log.
pub record KeyChange : Type 0 where
  pub id : ℕ
  pub event : KeyEvent
  pub down : Bool

unfoldable pub change_of : List ℕ → ℕ → KeyChange
change_of pressed id = record { id = id; event = from_usb_key_id id; down = contains pressed id }

-- The inner loop, for the keys pressed now and before.
unfoldable pub changes : List ℕ → List ℕ → List KeyChange
changes pressed prev_pressed = map (change_of pressed) (symmetric_difference pressed prev_pressed)

-- The outer loop over the reports that arrive; the log of all of them.
unfoldable pub serve_reports : List ℕ → List (List ℕ) → List KeyChange
serve_reports prev_pressed [] = []
serve_reports prev_pressed (report ∷ reports) =
    changes (pressed_keys report) prev_pressed ++ serve_reports (pressed_keys report) reports
