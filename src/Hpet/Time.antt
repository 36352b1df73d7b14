-- ===== src/Hpet/Time.antt =====
-- hpet.rs and executor.rs: the time that `global_timestamp` tells, and when `sleep` ends.
use original_os_with_rust.Prelude.{
  ℕ, ◌+◌, ◌-◌, ◌*◌, ◌/◌, ◌^◌, ◌<◌, ◌≤◌, ◌≡◌, ◌≢◌, ◌⊎◌, inl, inr, refl, arith, ap, some,
}
use original_os_with_rust.Prelude.{ok, lt→ltb, le→ltb, ≢→==}
use original_os_with_rust.Hpet.{Hpet, timestamp}
use original_os_with_rust.Executor.{ready, pending, TimeoutFuture, new_timeout, poll_timeout}
use native.Mathlib.Nat.{
  mod-eq_of_lt, lt-div-mul-add, div-mul-le_self, mul-le-mul_right, suc-mul, add-mul,
  le-div_iff_mul-le,
}
use native.Mathlib.Decide.{dec_lt}

-- The timer with its counter at `count`.
abbrev pub counting : Hpet → ℕ → Hpet
counting h count = record h { registers = record h.registers { main_counter_value = count } }

timestamp-nanoseconds :
    (h : Hpet) (count : ℕ)
    → h.freq ≢ 0
    → count * 1000000000 / h.freq < 2 ^ 64
    → timestamp (some (counting h count)) ≡ ok (count * 1000000000 / h.freq)
unfolding timestamp
timestamp-nanoseconds h count nonzero small =
    rw (≢→== h.freq 0 nonzero) (ap ok (mod-eq_of_lt small))

floor-late : (a b d f : ℕ) → f ≢ 0 → a / f + d < b / f → d * f < b - a
floor-late a b d f nz h = omega (
  arith,
  lt-div-mul-add {a = a} {b = f} (omega (arith, nz)),
  div-mul-le_self b f,
  mul-le-mul_right f h,
  suc-mul (a / f + d) f,
  add-mul (a / f) d f,
)

floor-ready : (a b d f : ℕ) → f ≢ 0 → a + (d + 1) * f ≤ b → a / f + d < b / f
floor-ready a b d f nz h = (le-div_iff_mul-le {k = f} (omega (arith, nz))).1 (
    omega
      (arith, h, div-mul-le_self a f, suc-mul (a / f + d) f, add-mul (a / f) d f, add-mul d 1 f))

not_yet : (t now : ℕ) → now ≤ t → poll_timeout (record { time_out = t }) now ≡ pending
unfolding poll_timeout
not_yet t now h = rw (le→ltb t now h) refl

over : (t now : ℕ) → t < now → poll_timeout (record { time_out = t }) now ≡ ready tt
unfolding poll_timeout
over t now h = rw (lt→ltb t now h) refl

early_lem : (a b d f : ℕ) → f ≢ 0 → a ≤ b → ¬ (a / f + d < b / f) → b - a < (d + 1) * f
early_lem a b d f nz le early = elim (dec_lt (b - a) ((d + 1) * f)) [
  | yes lt ↦ lt
  | no ge ↦ absurd (early (floor-ready a b d f nz (omega (arith, le, ge))))
]

-- For a timer with a frequency other than 0, two values of its counter, the second not below the first,
-- whose times in nanoseconds are below 2^64, and a duration of `d` nanoseconds with `d` below
-- 2^64 * 999999999: a `TimeoutFuture` made at the first value is made without a panic. At the second value it is ready, and more than `d` nanoseconds of counts have
-- passed between the two; or it is pending, and less than `d + 1` nanoseconds have passed.
pub poll_timeout-on_time :
    (h : Hpet) (c0 c d : ℕ)
    → h.freq ≢ 0
    → c0 ≤ c
    → c0 * 1000000000 / h.freq < 2 ^ 64
    → c * 1000000000 / h.freq < 2 ^ 64
    → d < 2 ^ 64 * 999999999
    → (start now : ℕ) × (t : TimeoutFuture) × (timestamp (some (counting h c0)) ≡ ok start)
      × (new_timeout start d ≡ ok t)
      × (timestamp (some (counting h c)) ≡ ok now)
      × (((poll_timeout t now ≡ ready tt) × (d * h.freq < (c - c0) * 1000000000))
          ⊎ ((poll_timeout t now ≡ pending) × ((c - c0) * 1000000000 < (d + 1) * h.freq)))
unfolding new_timeout
poll_timeout-on_time h c0 c d nz le s0 s1 sd =
    let start = c0 * 1000000000 / h.freq in
    let now = c * 1000000000 / h.freq in
    (
      start,
      now,
      record { time_out = start + d },
      timestamp-nanoseconds h c0 nz s0,
      rw (lt→ltb (start + d) (2 ^ 64 * 1000000000) (omega (arith, s0, sd))) refl,
      timestamp-nanoseconds h c nz s1,
      elim (dec_lt (start + d) now) [
        | yes late ↦ inl (
          over (start + d) now late,
          omega (arith, le, floor-late (c0 * 1000000000) (c * 1000000000) d h.freq nz late),
        )
        | no early ↦ inr (
          not_yet (start + d) now (omega (arith, early)),
          omega (
            arith,
            early_lem (c0 * 1000000000) (c * 1000000000) d h.freq nz (omega (arith, le)) early,
          ),
        )
      ],
    )
