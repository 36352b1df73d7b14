-- ===== src/Mutex/Locking.antt =====
-- What `lock` and `under_locked` do.
use original_os_with_rust.Prelude.{ℕ, zero, suc, ◌≡◌, refl, ap, true, false, Result, ok, err, panic}
use original_os_with_rust.Mutex.{Mutex, try_lock, lock_attempts, lock, drop_guard, under_locked}

module _ {T : Type 0} where
  taken_attempts :
      (n : ℕ) (d : T)
      → lock_attempts n (record { «data» = d; is_taken = true })
        ≡ (record { «data» = d; is_taken = true }, err panic)
  unfolding lock_attempts try_lock
  taken_attempts zero d = refl
  taken_attempts (suc n) d = taken_attempts n d

  free_attempts :
      (n : ℕ) (d : T)
      → lock_attempts (suc n) (record { «data» = d; is_taken = false })
        ≡ (record { «data» = d; is_taken = true }, ok tt)
  unfolding lock_attempts try_lock
  free_attempts n d = refl

  under_lem :
      {R : Type 0} (m m' : Mutex T) (f : T → T × Result R) (r : Result (Unit {0}))
      → lock m ≡ (m', r)
      → under_locked m f ≡ elim r [
        | err e ↦ (m', err e)
        | ok _ ↦ (drop_guard (record m' { «data» = (f m'.data).0 }), (f m'.data).1)
      ]
  unfolding under_locked
  under_lem m m' f r e =
      ap
        (λ p. elim p.1 [
          | err e' ↦ (p.0, err e')
          | ok _ ↦ (drop_guard (record p.0 { «data» = (f p.0.data).0 }), (f p.0.data).1)
        ])
        e

  -- On a free mutex the function works on the data, its result is returned, errors too, and the
  -- mutex is free again. On a taken mutex `under_locked` panics, and the mutex is as it was.
  pub under_locked-both :
      {R : Type 0} (d : T) (f : T → T × Result R)
      → (under_locked (record { «data» = d; is_taken = false }) f
          ≡ (record { «data» = (f d).0; is_taken = false }, (f d).1))
        × (under_locked (record { «data» = d; is_taken = true }) f
            ≡ (record { «data» = d; is_taken = true }, err panic))
  unfolding lock drop_guard
  under_locked-both d f = (
    under_lem (record { «data» = d; is_taken = false }) (record { «data» = d; is_taken = true }) f
        (ok tt) (free_attempts 9999 d),
    under_lem (record { «data» = d; is_taken = true }) (record { «data» = d; is_taken = true }) f
        (err panic) (taken_attempts 10000 d),
  )
