-- ===== src/Hpet/Tests.antt =====
-- The theorems on the timer at concrete inputs: a count period of 100 ns, and three timers.
use original_os_with_rust.Prelude.{
  ℕ, ◌+◌, ◌-◌, ◌*◌, ◌^◌, ◌<◌, ◌≡◌, ◌⊎◌, zero, suc, arith, get_or, replicate, length-replicate, some,
  ok,
}
use original_os_with_rust.Hpet.{HpetRegisters, Hpet, new_hpet, timestamp}
use original_os_with_rust.Hpet.Start.{Started, new_hpet-Started}
use original_os_with_rust.Hpet.Time.{counting, poll_timeout-on_time}
use original_os_with_rust.Executor.{TimeoutFuture, new_timeout, poll_timeout, ready, pending}

abbrev ten_mhz : HpetRegisters
ten_mhz = record {
  capabilities_and_id = 100000000 * 2 ^ 32 + 0x8086a201;
  configuration = 3;
  main_counter_value = 77;
  timers = replicate 32 0x7e0c;
}

replicate-lt : (n i : ℕ) → get_or (replicate n 0x7e0c) i 0 < 2 ^ 64
replicate-lt zero i = omega arith
replicate-lt (suc n) zero = omega arith
replicate-lt (suc n) (suc i) = replicate-lt n i

new_hpet-Started_example : (h : Hpet) × (new_hpet ten_mhz ≡ ok h) × Started ten_mhz h
new_hpet-Started_example =
    new_hpet-Started ten_mhz (omega arith) (omega arith) (omega arith)
      (length-replicate {A = ℕ} 32 0x7e0c) (replicate-lt 32)

abbrev running : Hpet
running = record { registers = ten_mhz; num_of_timers = 3; freq = 10000000 }

poll_timeout-on_time_example :
    (start now : ℕ) × (t : TimeoutFuture) × (timestamp (some (counting running 100)) ≡ ok start)
    × (new_timeout start 5000 ≡ ok t)
    × (timestamp (some (counting running 200)) ≡ ok now)
    × (((poll_timeout t now ≡ ready tt) × (5000 * 10000000 < (200 - 100) * 1000000000))
        ⊎ ((poll_timeout t now ≡ pending) × ((200 - 100) * 1000000000 < (5000 + 1) * 10000000)))
poll_timeout-on_time_example =
    poll_timeout-on_time running 100 200 5000 (omega arith) (omega arith) (omega arith)
      (omega arith) (omega arith)
