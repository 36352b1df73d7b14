-- ===== src/Mutex.antt =====
-- mutex.rs: `Mutex<T>`. A guard is the right to use the data; its drop clears the flag. One executor
-- thread runs the code; in Threads several do.
pub mod Locking
pub mod Threads
pub mod Tests
use original_os_with_rust.Prelude.{
  ℕ, zero, suc, Bool, true, false, if◌then◌else◌, Result, ok, err, lock_failed, panic,
}

pub record Mutex (T : Type 0) : Type 0 where
  pub «data» : T
  pub is_taken : Bool

module _ {T : Type 0} where
  unfoldable pub new_mutex : T → Mutex T
  new_mutex d = record { «data» = d; is_taken = false }

  -- `compare_exchange(false, true)` and the guard.
  unfoldable pub try_lock : Mutex T → Mutex T × Result (Unit {0})
  try_lock m = if m.is_taken then (m, err lock_failed) else (record m { is_taken = true }, ok tt)

  -- `n` attempts; the source makes 10000.
  unfoldable pub lock_attempts : ℕ → Mutex T → Mutex T × Result (Unit {0})
  lock_attempts zero m = (m, err panic)
  lock_attempts (suc n) m =
      let (m', r) = try_lock m in
      let rest = lock_attempts n m' in elim r [ ok _ ↦ (m', ok tt) | err e ↦ rest ]

  unfoldable pub lock : Mutex T → Mutex T × Result (Unit {0})
  lock m = lock_attempts 10000 m

  -- `MutexGuard::drop`.
  unfoldable pub drop_guard : Mutex T → Mutex T
  drop_guard m = record m { is_taken = false }

  -- `under_locked`: `f` works on the data, and the guard is dropped at the end.
  unfoldable pub under_locked : {R : Type 0} → Mutex T → (T → T × Result R) → Mutex T × Result R
  under_locked m f =
      let (m', r) = lock m in
      elim r [
        | err e ↦ (m', err e)
        | ok _ ↦ (drop_guard (record m' { «data» = (f m'.data).0 }), (f m'.data).1)
      ]
