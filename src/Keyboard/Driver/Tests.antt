-- ===== src/Keyboard/Driver/Tests.antt =====
-- The theorem on the keyboard's log at two reports: `a` goes down, then `b` while `a` goes up.
use original_os_with_rust.Prelude.{
  ℕ, ◌≡◌, refl, true, false, not, ◌&&◌, ◌==◌, List, [], ◌∷◌, ◌++◌, drop, All,
}
use original_os_with_rust.Keyboard.{from_usb_key_id, char}
use original_os_with_rust.Keyboard.Driver.{
  insert, contains, symmetric_difference, from_bytes, pressed_keys, change_of, changes,
  serve_reports,
}
use original_os_with_rust.Keyboard.Driver.Replay.{
  replay, last_keys, IsChange, serve_reports-replays,
}

abbrev a_pressed : List ℕ
a_pressed = 0 ∷ 0 ∷ 4 ∷ 0 ∷ 0 ∷ 0 ∷ 0 ∷ 0 ∷ []

abbrev b_pressed : List ℕ
b_pressed = 0 ∷ 0 ∷ 5 ∷ 0 ∷ 0 ∷ 0 ∷ 0 ∷ 0 ∷ []

serve_reports-replays_example :
    ((k : ℕ)
      → replay (contains []) (serve_reports [] ((a_pressed ∷ []) ++ b_pressed ∷ [])) k
        ≡ (not (k == 0) && contains (drop 2 b_pressed) k))
    × All
        (IsChange (last_keys [] (a_pressed ∷ [])))
        (changes (pressed_keys b_pressed) (last_keys [] (a_pressed ∷ [])))
serve_reports-replays_example = serve_reports-replays (a_pressed ∷ []) b_pressed

serve_reports_test :
    serve_reports [] (a_pressed ∷ b_pressed ∷ [])
    ≡ record { id = 4; event = char 97; down = true }
      ∷ record { id = 4; event = char 97; down = false }
      ∷ record { id = 5; event = char 98; down = true }
      ∷ []
unfolding serve_reports changes change_of pressed_keys from_bytes insert contains
    symmetric_difference from_usb_key_id
serve_reports_test = refl
