-- ===== src/Hpet.antt =====
-- hpet.rs: the timer's registers, its start, and the time since then.
pub mod Start
pub mod Time
pub mod Tests
use original_os_with_rust.Prelude.{ℕ, zero, suc, ◌+◌, ◌-◌, ◌*◌, ◌/◌, ◌%◌, ◌^◌, ◌==◌, if◌then◌else◌}
use original_os_with_rust.Prelude.{
  bit_and, bit_or, List, Option, none, some, Result, ok, err, panic, get_or, set,
}
use original_os_with_rust.Words.Ops.{shr, not_word, wrap}
use original_os_with_rust.Mutex.{Mutex, under_locked}

abbrev pub timer_config_int_enable : ℕ
timer_config_int_enable = 0x4

abbrev pub timer_config_use_periodic : ℕ
timer_config_use_periodic = 0x8

-- The registers that are read or written; of a timer, its configuration.
pub record HpetRegisters : Type 0 where
  pub capabilities_and_id : ℕ
  pub configuration : ℕ
  pub main_counter_value : ℕ
  pub timers : List ℕ

pub record Hpet : Type 0 where
  pub registers : HpetRegisters
  pub num_of_timers : ℕ
  pub freq : ℕ

unfoldable pub globally_disable : HpetRegisters → HpetRegisters
globally_disable r = record r { configuration = bit_and r.configuration (not_word 64 0x3) }

unfoldable pub globally_enable : HpetRegisters → HpetRegisters
globally_enable r = record r { configuration = bit_or r.configuration 0x1 }

-- The configuration that a timer is given.
unfoldable pub stop_config : ℕ → ℕ
stop_config config =
    bit_and config (
      not_word 64
        (bit_or (bit_or timer_config_int_enable timer_config_use_periodic) (0x1f * 2 ^ 9)))

-- The loop over the timers, from timer `i` on for `n` timers.
unfoldable pub stop_timers : (n i : ℕ) → HpetRegisters → HpetRegisters
stop_timers zero i r = r
stop_timers (suc n) i r =
    stop_timers n (i + 1) (record r { timers = set r.timers i (stop_config (get_or r.timers i 0)) })

-- `Hpet::new`; a division by zero panics.
unfoldable pub new_hpet : HpetRegisters → Result Hpet
new_hpet r =
    let fs_per_count = shr 64 r.capabilities_and_id 32 in
    let num_of_timers = bit_and (shr 64 r.capabilities_and_id 8) 0x1f + 1 in
    let stopped = stop_timers num_of_timers 0 (globally_disable r) in
    if fs_per_count == 0
    then err panic
    else ok (record {
      registers = globally_enable (record stopped { main_counter_value = 0 });
      num_of_timers = num_of_timers;
      freq = 1000000000000000 / fs_per_count;
    })

-- `set_global_hpet`: each of the two statements has the lock for itself.
unfoldable pub set_global_hpet :
    Mutex (Option Hpet) → Hpet → Mutex (Option Hpet) × Result (Unit {0})
set_global_hpet m hpet =
    let (m', r) = under_locked m is_none in
    elim r [ err e ↦ (m', err e) | ok _ ↦ under_locked m' (λ _. (some hpet, ok tt)) ]
  where
    is_none : Option Hpet → Option Hpet × Result (Unit {0})
    is_none none = (none, ok tt)
    is_none (some h) = (some h, err panic)

-- `global_timestamp`, in nanoseconds; the division by a frequency of 0 panics.
unfoldable pub timestamp : Option Hpet → Result ℕ
timestamp none = ok 0
timestamp (some h) =
    if h.freq == 0
    then err panic
    else ok (wrap 64 (h.registers.main_counter_value * 1000000000 / h.freq))

unfoldable pub global_timestamp : Mutex (Option Hpet) → Mutex (Option Hpet) × Result ℕ
global_timestamp m = under_locked m (λ h. (h, timestamp h))
