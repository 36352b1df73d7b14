-- ===== src/Prelude/Error.antt =====
-- `Result<T>` of result.rs: the error is a text, of which the model keeps the constructor below.
use mathlib.Core.Option.{Option, none, some}
use mathlib.Core.Path.{◌≡◌, refl}
use mathlib.Core.Logic.{◌⊎◌, inl, inr}
use mathlib.Core.Bool.{Bool, true, false}

-- One constructor for each error text of the modelled code. `panic` is a failed assertion,
-- an `unwrap` or an index out of range.
pub data Error : Type 0 where
  out_of_range value_out_of_range invalid_slot invalid_dci : Error
  ring_full cycle_mismatch cycle_same trb_out_of_range : Error
  bdf_out_of_range config_read_range config_write_range bad_bar : Error
  data_too_short lock_failed not_memory_space : Error
  page_not_found page_unaligned page_populated : Error
  not_completion not_transfer not_success bad_argument : Error
  bad_port port_not_enabled : Error
  no_interface not_tablet no_response wrong_data : Error
  panic : Error

pub data Result {ℓ} (A : Type ℓ) : Type ℓ where
  ok : A → Result A
  err : Error → Result A

-- `Result::ok`.
abbrev pub to_option {ℓ} : {A : Type ℓ} → Result A → Option A
to_option (ok a) = some a
to_option (err e) = none

-- `Option::ok_or`.
abbrev pub ok_or {ℓ} : {A : Type ℓ} → Option A → Error → Result A
ok_or none e = err e
ok_or (some a) e = ok a

-- `?` and the rest of the function.
infixl 5 ◌>>=◌
abbrev pub ◌>>=◌ {ℓ κ} : {A : Type ℓ} {B : Type κ} → Result A → (A → Result B) → Result B
err e >>= next = err e
ok a >>= next = next a

-- `then_some(()).ok_or(e)` on a test.
abbrev pub ensure : Bool → Error → Result (Unit {0})
ensure true e = ok tt
ensure false e = err e

pub Result-cases {ℓ} :
    {A : Type ℓ} (r : Result A) → ((a : A) × (r ≡ ok a)) ⊎ ((e : Error) × (r ≡ err e))
Result-cases (ok a) = inl (a, refl)
Result-cases (err e) = inr (e, refl)
