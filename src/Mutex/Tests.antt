-- ===== src/Mutex/Tests.antt =====
-- The theorems on the mutex at concrete inputs.
use original_os_with_rust.Prelude.{ℕ, ◌≡◌, true, refl, [], ◌∷◌}
use original_os_with_rust.Mutex.{new_mutex, try_lock}
use original_os_with_rust.Mutex.Threads.{
  trying, holding, Shared, Reached, start, after, locks, attempts, attempt, Reached-one_holder,
  holders, flag,
}

-- The first of two threads has taken the lock.
abbrev first_holds : Shared ℕ
first_holds = record {
  mutex = record { «data» = 5; is_taken = true };
  threads = holding ∷ trying 10000 ∷ [];
}

first_holds-Reached : Reached 2 5 first_holds
unfolding new_mutex attempt try_lock
first_holds-Reached =
    after (after (after start (locks 0 refl)) (locks 1 refl)) (attempts 0 10000 refl)

Reached-one_holder_example : holders first_holds.threads ≡ flag first_holds.mutex.is_taken
Reached-one_holder_example = Reached-one_holder 2 5 first_holds first_holds-Reached
