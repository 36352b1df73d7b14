-- ===== src/Uefi/Config.antt =====
-- uefi.rs: the configuration table of the firmware, and the last calls of the boot services. The
-- firmware's answers are arguments.
use original_os_with_rust.Prelude.{
  ℕ, zero, suc, ◌+◌, ◌<◌, ◌≡◌, ◌⊎◌, inl, inr, refl, arith, sym, subst, ◌≢◌, ≡→==, ≢→==, Bool, true,
  false, ◌&&◌, ◌==◌, if◌then◌else◌,
}
use original_os_with_rust.Prelude.{
  Option, none, some, Result, ok, err, panic, List, [], ◌∷◌, Bool-cases,
}
use original_os_with_rust.Uefi.{MemoryMapHolder}
use native.Mathlib.Decide.{ℕ_discrete}

pub record EfiGuid : Type 0 where
  pub data0 : ℕ
  pub data1 : ℕ
  pub data2 : ℕ
  pub data3 : List ℕ

abbrev same_bytes : List ℕ → List ℕ → Bool
same_bytes [] [] = true
same_bytes (a ∷ rest) (b ∷ others) = (a == b) && same_bytes rest others
same_bytes _ _ = false

-- The derived `==`.
unfoldable pub same_guid : EfiGuid → EfiGuid → Bool
same_guid a b =
    (a.data0 == b.data0)
    && (a.data1 == b.data1)
    && (a.data2 == b.data2)
    && same_bytes a.data3 b.data3

abbrev pub efi_acpi_table_guid : EfiGuid
efi_acpi_table_guid = record {
  data0 = 0x8868e871;
  data1 = 0xe4f1;
  data2 = 0x11d3;
  data3 = 0xbc ∷ 0x22 ∷ 0x00 ∷ 0x80 ∷ 0xc7 ∷ 0x3c ∷ 0x88 ∷ 0x81 ∷ [];
}

pub record EfiConfigurationTable : Type 0 where
  pub vendor_guid : EfiGuid
  pub vendor_table : ℕ

-- The fields that the lookup reads; `configuration_table` is the table in memory.
pub record EfiSystemTable : Type 0 where
  pub number_of_table_entries : ℕ
  pub configuration_table : ℕ → EfiConfigurationTable

-- The loop, over `n` entries from `i` on.
unfoldable pub lookup_from : EfiSystemTable → EfiGuid → (n i : ℕ) → Option EfiConfigurationTable
lookup_from t guid zero i = none
lookup_from t guid (suc n) i =
    let rest = lookup_from t guid n (i + 1) in
    let ct = t.configuration_table i in if same_guid ct.vendor_guid guid then some ct else rest

unfoldable pub lookup_config_table : EfiSystemTable → EfiGuid → Option EfiConfigurationTable
lookup_config_table t guid = lookup_from t guid t.number_of_table_entries 0

-- The address of the root pointer of ACPI.
unfoldable pub acpi_table : EfiSystemTable → Option ℕ
acpi_table t = elim (lookup_config_table t efi_acpi_table_guid) [
  | none ↦ none
  | some ct ↦ some ct.vendor_table
]

-- One answer of the firmware: a memory map with the status of `get_memory_map`, and the status of
-- `exit_boot_services` for each key of a map. 0 is success.
pub record BootAnswer : Type 0 where
  pub map : MemoryMapHolder
  pub map_status : ℕ
  pub exit_status : ℕ → ℕ

-- `exit_from_efi_boot_services`, for a number of rounds; the result is the map of the last one.
unfoldable pub exit_from_efi_boot_services :
    ℕ → (ℕ → BootAnswer) → (round : ℕ) → Option (Result MemoryMapHolder)
exit_from_efi_boot_services zero answers round = none
exit_from_efi_boot_services (suc fuel) answers round =
    let rest = exit_from_efi_boot_services fuel answers (round + 1) in
    let answer = answers round in
    if answer.map_status == 0
    then (if answer.exit_status answer.map.map_key == 0 then some (ok answer.map) else rest)
    else some (err panic)

-- An entry of the table for the identifier, with none before it.
pub record FirstEntry (t : EfiSystemTable) (guid : EfiGuid) (from to : ℕ)
    (ct : EfiConfigurationTable) : Type 0 where
  pub index : ℕ
  pub bounded : index < to
  pub found : t.configuration_table index ≡ ct
  pub fits : same_guid ct.vendor_guid guid ≡ true
  pub first :
      (j : ℕ)
      → from < suc j
      → j < index
      → same_guid (t.configuration_table j).vendor_guid guid ≡ false

-- A lookup gives the first entry for the identifier, or none when there is no such entry.
lookup_from-first :
    (t : EfiSystemTable) (guid : EfiGuid) (n i : ℕ)
    → ((ct : EfiConfigurationTable) × (lookup_from t guid n i ≡ some ct)
        × FirstEntry t guid i (i + n) ct)
      ⊎ ((lookup_from t guid n i ≡ none)
          × ((j : ℕ)
              → i < suc j
              → j < i + n
              → same_guid (t.configuration_table j).vendor_guid guid ≡ false))
unfolding lookup_from
lookup_from-first t guid zero i = inr (refl, λ j low high. absurd (omega (arith, low, high)))
lookup_from-first t guid (suc n) i =
    elim (Bool-cases (same_guid (t.configuration_table i).vendor_guid guid)) [
      | inl e ↦ inl (
        t.configuration_table i,
        rw e refl,
        record {
          index = i;
          bounded = omega arith;
          found = refl;
          fits = e;
          first = λ j low high. absurd (omega (arith, low, high));
        },
      )
      | inr e ↦ elim (lookup_from-first t guid n (i + 1)) [
        | inl (ct, run, hit) ↦ inl (
          ct,
          (rw e run),
          record {
            index = hit.index;
            bounded = omega (arith, hit.bounded);
            found = hit.found;
            fits = hit.fits;
            first = λ j low high. elim (ℕ_discrete j i) [
              | yes here ↦
                  subst (λ k. same_guid (t.configuration_table k).vendor_guid guid ≡ false)
                    (sym here) e
              | no later ↦ hit.first j (omega (arith, low, later)) high
            ];
          },
        )
        | inr (run, none_fits) ↦ inr (
          (rw e run),
          λ j low high. elim (ℕ_discrete j i) [
            | yes here ↦
                subst (λ k. same_guid (t.configuration_table k).vendor_guid guid ≡ false) (sym here)
                  e
            | no later ↦ none_fits j (omega (arith, low, later)) (omega (arith, high))
          ],
        )
      ]
    ]

-- When the firmware refuses the keys of the first `n` maps and takes that of the next, as many rounds
-- are enough, and the map left behind is the one whose key was taken.
exit_from_efi_boot_services-last :
    (answers : ℕ → BootAnswer) (n round : ℕ)
    → ((j : ℕ) → (answers j).map_status ≡ 0)
    → ((j : ℕ) → j < round + n → (answers j).exit_status (answers j).map.map_key ≢ 0)
    → (answers (round + n)).exit_status (answers (round + n)).map.map_key ≡ 0
    → exit_from_efi_boot_services (suc n) answers round ≡ some (ok (answers (round + n)).map)
unfolding exit_from_efi_boot_services
exit_from_efi_boot_services-last answers zero round maps refused taken =
    let e : round + 0 ≡ round = omega arith in
    subst (λ k. exit_from_efi_boot_services 1 answers round ≡ some (ok (answers k).map)) (sym e)
      (rw
        (
          ≡→== (answers round).map_status 0 (maps round),
          ≡→== ((answers round).exit_status (answers round).map.map_key) 0
              (subst (λ k. (answers k).exit_status (answers k).map.map_key ≡ 0) e taken),
        )
        refl)
exit_from_efi_boot_services-last answers (suc n) round maps refused taken =
    let e : round + suc n ≡ round + 1 + n = omega arith in
    rw
      (
        ≡→== (answers round).map_status 0 (maps round),
        ≢→== ((answers round).exit_status (answers round).map.map_key) 0
            (refused round (omega arith)),
      )
      (subst
        (λ k. exit_from_efi_boot_services (suc n) answers (round + 1) ≡ some (ok (answers k).map))
        (sym e)
        (exit_from_efi_boot_services-last answers n (round + 1) maps
          (λ j h. refused j (omega (arith, h)))
          (subst (λ k. (answers k).exit_status (answers k).map.map_key ≡ 0) e taken)))
