-- ===== src/Paging/Tests.antt =====
-- The theorems on paging at concrete inputs.
use original_os_with_rust.Prelude.{◌≡◌, refl, false}
use original_os_with_rust.Paging.{Entry, is_present}

abbrev absent : Entry
absent = record { value = 0 }

absent_lem : is_present absent ≡ false
unfolding is_present
absent_lem = refl
