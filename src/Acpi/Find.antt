-- ===== src/Acpi/Find.antt =====
-- What the search for a table finds.
use original_os_with_rust.Prelude.{
  ℕ, zero, suc, ◌+◌, ◌≤◌, ◌<◌, ◌≡◌, ◌≢◌, ◌⊎◌, inl, inr, refl, arith, ap, sym, ◌∙◌, false, Option,
}
use original_os_with_rust.Prelude.{some, none, leb, le→leb, ≡→==, ≢→==}
use original_os_with_rust.Acpi.{
  Xsdt, find_table, find_from, next_table, num_of_tables, SystemDescriptionTableHeader,
}
use native.Mathlib.Decide.{dec_lt, ℕ_discrete}

lt→leb : (a b : ℕ) → b < a → leb a b ≡ false
lt→leb a b h = ground arith

next_some : (x : Xsdt) (i : ℕ) → i < num_of_tables x → next_table x i ≡ (some (x.entry i), suc i)
unfolding next_table
next_some x i h = rw (next_table, lt→leb (num_of_tables x) i h) refl

next_none : (x : Xsdt) (i : ℕ) → num_of_tables x ≤ i → next_table x i ≡ (none, i)
unfolding next_table
next_none x i h = rw (next_table, le→leb (num_of_tables x) i h) refl

-- The first table with the signature, from index `from` on, or that there is none.
pub data IsFirst (x : Xsdt) (sig from : ℕ) (o : Option SystemDescriptionTableHeader) : Type 0 where
  found :
      (k : ℕ)
      → from ≤ k
      → k < num_of_tables x
      → o ≡ some (x.entry k)
      → (x.entry k).signature ≡ sig
      → ((j : ℕ) → from ≤ j → j < k → (x.entry j).signature ≢ sig)
      → IsFirst x sig from o
  missing :
      o ≡ none
      → ((j : ℕ) → from ≤ j → j < num_of_tables x → (x.entry j).signature ≢ sig)
      → IsFirst x sig from o

module _ (x : Xsdt) (sig : ℕ) where
  here_or : (i j : ℕ) → i ≤ j → (j ≡ i) ⊎ (suc i ≤ j)
  here_or i j h = elim (ℕ_discrete j i) [ yes e ↦ inl e | no ne ↦ inr (ground arith) ]

  -- A table of another signature may be passed over.
  later :
      (i : ℕ) (o : Option SystemDescriptionTableHeader)
      → (x.entry i).signature ≢ sig
      → IsFirst x sig (suc i) o
      → IsFirst x sig i o
  later i o ne (found k le lt e s before) = found k (omega arith) lt e s (λ j h l.
      elim (here_or i j h) [
        | inl e' ↦ λ s'. ne (ap (λ n. (x.entry n).signature) (sym e') ∙ s')
        | inr h' ↦ before j h' l
      ])
  later i o ne (missing e all) = missing e (λ j h l. elim (here_or i j h) [
    | inl e' ↦ λ s'. ne (ap (λ n. (x.entry n).signature) (sym e') ∙ s')
    | inr h' ↦ all j h' l
  ])

  find-IsFirst :
      (fuel i : ℕ)
      → num_of_tables x < i + fuel
      → i ≤ num_of_tables x
      → (o : Option SystemDescriptionTableHeader) × (find_from fuel x sig i ≡ some o)
        × IsFirst x sig i o
  unfolding find_from
  find-IsFirst zero i enough h = absurd (omega arith)
  find-IsFirst (suc fuel) i enough h = elim (dec_lt i (num_of_tables x)) [
    | no end ↦ (
      none,
      rw (find_from, next_none x i (omega arith)) refl,
      missing refl (λ j a b. absurd (omega arith)),
    )
    | yes inside ↦ (elim (ℕ_discrete (x.entry i).signature sig) [
      | yes e ↦ (
        some (x.entry i),
        rw (find_from, next_some x i inside, ≡→== (x.entry i).signature sig e) refl,
        found i (omega arith) inside refl e (λ j a b. absurd (omega arith)),
      )
      | no ne ↦
          let (o, eq, first) = find-IsFirst fuel (suc i) (omega arith) (omega arith) in
          (
            o,
            rw (find_from, next_some x i inside, ≢→== (x.entry i).signature sig ne)
                (rw (next_some x i inside) eq),
            later i o ne first,
          )
    ])
  ]

  -- The search ends, with the first table that has the signature, or with none when no table has it.
  pub find_table-IsFirst :
      (o : Option SystemDescriptionTableHeader) × (find_table x sig ≡ some o) × IsFirst x sig 0 o
  unfolding find_table
  find_table-IsFirst = find-IsFirst (suc (num_of_tables x)) 0 (omega arith) (omega arith)
