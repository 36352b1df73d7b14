-- ===== src/Hpet/Start.antt =====
-- hpet.rs: what `Hpet::new` leaves in the registers.
use original_os_with_rust.Prelude.{
  ℕ, zero, suc, ◌+◌, ◌-◌, ◌*◌, ◌/◌, ◌%◌, ◌^◌, ◌<◌, ◌≤◌, ◌≡◌, ◌≢◌, ◌⊎◌, inl, inr, refl, arith, ap,
  ◌∙◌, subst,
}
use original_os_with_rust.Prelude.{
  bit_and, bit_or, length, get_or, set, length-set, get_or-set_self, get_or-set_ne, ok, ≢→==,
}
use original_os_with_rust.Words.Bits.{bit_and_split, bit_and-zero}
use original_os_with_rust.Words.Masks.{bit_and_ones, ones_low, bit_or_fields}
use original_os_with_rust.Words.Ops.{not_word, shr}
use original_os_with_rust.Hpet.{
  HpetRegisters, Hpet, globally_disable, globally_enable, stop_config, stop_timers, new_hpet,
}
use native.Mathlib.Nat.{le-div_iff_mul-le}
use native.Mathlib.Decide.{ℕ_discrete}

-- A word with zeros for its digits 2, 3 and 9 to 13.
abbrev pub stopped : ℕ → ℕ
stopped x = ((x / 2 ^ 14 * 2 ^ 5) * 2 ^ 5 + x / 2 ^ 4 % 2 ^ 5) * 2 ^ 4 + x % 2 ^ 2

high_digits :
    (x : ℕ) → x < 2 ^ 60 → bit_and x ((2 ^ 50 - 1) * 2 ^ 10 + 31) ≡ x / 2 ^ 10 * 2 ^ 10 + x % 2 ^ 5
high_digits x h =
    ap (λ y. bit_and y ((2 ^ 50 - 1) * 2 ^ 10 + 31))
      (let e : x ≡ x / 2 ^ 10 * 2 ^ 10 + x % 2 ^ 10 = omega arith in e)
    ∙ bit_and_split 10 (x / 2 ^ 10) (x % 2 ^ 10) (2 ^ 50 - 1) 31 (omega arith) (omega arith)
    ∙ omega (
      arith,
      ap (λ (t : ℕ). t * 2 ^ 10) (ones_low 50 (x / 2 ^ 10) (omega arith)),
      bit_and_ones 5 (x % 2 ^ 10),
    )

pub stop_config-stopped : (x : ℕ) → x < 2 ^ 64 → stop_config x ≡ stopped x
unfolding stop_config
stop_config-stopped x h =
    ap (λ y. bit_and y (((2 ^ 50 - 1) * 2 ^ 10 + 31) * 2 ^ 4 + 3))
      (let e : x ≡ x / 2 ^ 4 * 2 ^ 4 + x % 2 ^ 4 = omega arith in e)
    ∙ bit_and_split 4 (x / 2 ^ 4) (x % 2 ^ 4) ((2 ^ 50 - 1) * 2 ^ 10 + 31) 3 (omega arith)
        (omega arith)
    ∙ omega (
      arith,
      ap (λ (t : ℕ). t * 2 ^ 4) (high_digits (x / 2 ^ 4) (omega arith)),
      bit_and_ones 2 (x % 2 ^ 4),
    )

pub enabled_config : (x : ℕ) → x < 2 ^ 64 → bit_or (bit_and x (not_word 64 0x3)) 0x1 ≡ x / 4 * 4 + 1
enabled_config x h =
    ap (λ y. bit_or y 1)
      (ap (λ y. bit_and y ((2 ^ 62 - 1) * 2 ^ 2 + 0))
          (let e : x ≡ x / 2 ^ 2 * 2 ^ 2 + x % 2 ^ 2 = omega arith in e)
        ∙ bit_and_split 2 (x / 2 ^ 2) (x % 2 ^ 2) (2 ^ 62 - 1) 0 (omega arith) (omega arith)
        ∙ omega (
          arith,
          ap (λ (t : ℕ). t * 2 ^ 2) (ones_low 62 (x / 2 ^ 2) (omega arith)),
          bit_and-zero (x % 2 ^ 2),
        ))
    ∙ bit_or_fields 2 (x / 2 ^ 2) 1 (omega arith)

length-stop_timers :
    (n i : ℕ) (r : HpetRegisters) → length (stop_timers n i r).timers ≡ length r.timers
unfolding stop_timers
length-stop_timers zero i r = refl
length-stop_timers (suc n) i r =
    length-stop_timers n (i + 1) _ ∙ length-set r.timers i (stop_config (get_or r.timers i 0))

others-stop_timers :
    (n i : ℕ) (r : HpetRegisters)
    → ((stop_timers n i r).configuration ≡ r.configuration)
      × ((stop_timers n i r).capabilities_and_id ≡ r.capabilities_and_id)
unfolding stop_timers
others-stop_timers zero i r = (refl, refl)
others-stop_timers (suc n) i r = others-stop_timers n (i + 1) _

-- The loop stops the timers that it reaches and no other.
outside-stop_timers :
    (n i k : ℕ) (r : HpetRegisters)
    → (k < i) ⊎ (i + n ≤ k)
    → get_or (stop_timers n i r).timers k 0 ≡ get_or r.timers k 0
unfolding stop_timers
outside-stop_timers zero i k r out = refl
outside-stop_timers (suc n) i k r out =
    outside-stop_timers n (i + 1) k _
      (elim out [ inl h ↦ inl (omega (arith, h)) | inr h ↦ inr (omega (arith, h)) ])
    ∙ get_or-set_ne r.timers i k (stop_config (get_or r.timers i 0)) 0
        (λ e. elim out [ inl h ↦ omega (arith, h, e) | inr h ↦ omega (arith, h, e) ])

inside-stop_timers :
    (n i k : ℕ) (r : HpetRegisters)
    → i ≤ k
    → k < i + n
    → k < length r.timers
    → get_or (stop_timers n i r).timers k 0 ≡ stop_config (get_or r.timers k 0)
unfolding stop_timers
inside-stop_timers zero i k r low high len = absurd (omega (arith, low, high))
inside-stop_timers (suc n) i k r low high len = elim (ℕ_discrete i k) [
  | yes e ↦
      subst
        (λ j.
          get_or
            (stop_timers n (i + 1)
              (record r { timers = set r.timers i (stop_config (get_or r.timers i 0)) })).timers
            j 0
          ≡ stop_config (get_or r.timers j 0))
        e
        (outside-stop_timers n (i + 1) i _ (inl (omega arith))
          ∙ get_or-set_self r.timers i (stop_config (get_or r.timers i 0)) 0
              (omega (arith, e, len)))
  | no ne ↦
      inside-stop_timers n (i + 1) k _ (omega (arith, ne, low)) (omega (arith, high))
        (omega (arith, len, length-set r.timers i (stop_config (get_or r.timers i 0))))
      ∙ ap stop_config (get_or-set_ne r.timers i k (stop_config (get_or r.timers i 0)) 0 ne)
]

-- What `Hpet::new` leaves: the counter at 0 and started, the legacy routing off, and the timers
-- that the capabilities announce without interrupts, without periods and with route 0.
pub record Started (r : HpetRegisters) (h : Hpet) : Type 0 where
  pub num : h.num_of_timers ≡ r.capabilities_and_id / 2 ^ 8 % 2 ^ 5 + 1
  pub freq : h.freq ≡ 1000000000000000 / (r.capabilities_and_id / 2 ^ 32)
  pub freq_nonzero : h.freq ≢ 0
  pub counter : h.registers.main_counter_value ≡ 0
  pub config : h.registers.configuration ≡ r.configuration / 4 * 4 + 1
  pub timers :
      (i : ℕ) → i < h.num_of_timers → get_or h.registers.timers i 0 ≡ stopped (get_or r.timers i 0)
  pub unused : (i : ℕ) → h.num_of_timers ≤ i → get_or h.registers.timers i 0 ≡ get_or r.timers i 0

freq-nonzero : (c : ℕ) → c ≢ 0 → c < 2 ^ 32 → 1000000000000000 / c ≢ 0
freq-nonzero c nz small e = omega (
  arith,
  e,
  (le-div_iff_mul-le {k = c} {x = 1} {y = 1000000000000000} (omega (arith, nz))).1
      (omega (arith, small)),
)

num_timers : (c : ℕ) → bit_and (shr 64 c 8) 0x1f + 1 ≡ c / 2 ^ 8 % 2 ^ 5 + 1
num_timers c = omega (arith, bit_and_ones 5 (c / 2 ^ 8))

-- For registers of 64 bits with 32 timers and a count period other than 0, `Hpet::new` succeeds:
-- the counter is at 0 and enabled, the legacy routing is off and the other bits of the
-- configuration are kept; the timers that the capabilities announce have no interrupt, no period and
-- route 0, with their other bits kept; the other timers are as before; the frequency is not 0.
pub new_hpet-Started :
    (r : HpetRegisters)
    → r.capabilities_and_id < 2 ^ 64
    → r.capabilities_and_id / 2 ^ 32 ≢ 0
    → r.configuration < 2 ^ 64
    → length r.timers ≡ 32
    → ((i : ℕ) → get_or r.timers i 0 < 2 ^ 64)
    → (h : Hpet) × (new_hpet r ≡ ok h) × Started r h
unfolding new_hpet globally_disable globally_enable
new_hpet-Started r cap period conf len words =
    let num = bit_and (shr 64 r.capabilities_and_id 8) 0x1f + 1 in
    let done = stop_timers num 0 (globally_disable r) in
    (
      record {
        registers = globally_enable (record done { main_counter_value = 0 });
        num_of_timers = num;
        freq = 1000000000000000 / (r.capabilities_and_id / 2 ^ 32);
      },
      rw (≢→== (r.capabilities_and_id / 2 ^ 32) 0 period) refl,
      record {
        num = num_timers r.capabilities_and_id;
        freq = refl;
        freq_nonzero = freq-nonzero (r.capabilities_and_id / 2 ^ 32) period (omega (arith, cap));
        counter = refl;
        config =
            ap (λ c. bit_or c 0x1) (others-stop_timers num 0 (globally_disable r)).0
            ∙ enabled_config r.configuration conf;
        timers = λ i h.
            inside-stop_timers num 0 i (globally_disable r) (omega arith) (omega (arith, h))
              (omega (arith, h, len, num_timers r.capabilities_and_id))
            ∙ stop_config-stopped (get_or r.timers i 0) (words i);
        unused = λ i h. outside-stop_timers num 0 i (globally_disable r) (inr (omega (arith, h)));
      },
    )
