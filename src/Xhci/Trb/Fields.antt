-- ===== src/Xhci/Trb/Fields.antt =====
-- xhci.rs: the fields of a TRB, set and read.
use original_os_with_rust.Prelude.{
  ℕ, ◌+◌, ◌^◌, ◌≤◌, ◌<◌, ◌≡◌, ◌⊎◌, inl, ◌∙◌, sym, ok, Bool, true, false, ap,
}
use original_os_with_rust.Prelude.{arith, bit_of, refl, not, ◌==◌}
use original_os_with_rust.Volatile.{read_bits}
use original_os_with_rust.Volatile.Fields.{replace_field, read_bits_lem, write_bits_lem}
use original_os_with_rust.Volatile.Fields.{field-replace_self, field-replace_ne, replace_field-lt}
use original_os_with_rust.Xhci.Trb.{
  GenericTrbEntry, write_control, set_cycle_state, cycle_state, trb_type,
}
use original_os_with_rust.Xhci.Trb.{code, TrbType}

-- `control` is a 32-bit word.
abbrev pub IsTrb : GenericTrbEntry → Type 0
IsTrb t = t.control < 2 ^ 32

-- `t` with one field of `control` replaced.
unfoldable pub with_field : ℕ → ℕ → ℕ → GenericTrbEntry → GenericTrbEntry
with_field s wd v t = record t { control = replace_field s wd v t.control }

abbrev pub with_cycle : Bool → GenericTrbEntry → GenericTrbEntry
with_cycle b t = with_field 0 1 (bit_of b) t

pub write_control_lem :
    (t : GenericTrbEntry) (s wd v : ℕ)
    → IsTrb t
    → s < 32
    → wd < 32
    → s + wd ≤ 32
    → v < 2 ^ wd
    → write_control t s wd v ≡ ok (with_field s wd v t)
unfolding write_control with_field
write_control_lem t s wd v ht hs hw hsw hv =
    rw (write_control, write_bits_lem 32 t.control s wd v hs hw hsw ht hv)

pub with_field-IsTrb :
    (t : GenericTrbEntry) (s wd v : ℕ)
    → IsTrb t
    → s + wd ≤ 32
    → v < 2 ^ wd
    → IsTrb (with_field s wd v t)
unfolding with_field
with_field-IsTrb t s wd v ht hsw hv = replace_field-lt 32 s wd v t.control hsw hv ht

read-with_self :
    (t : GenericTrbEntry) (s wd v : ℕ)
    → s < 32
    → wd < 32
    → v < 2 ^ wd
    → read_bits 32 (with_field s wd v t).control s wd ≡ v
unfolding with_field
read-with_self t s wd v hs hw hv =
    read_bits_lem 32 (replace_field s wd v t.control) s wd hs hw
    ∙ field-replace_self s wd v t.control hv

read-with_ne :
    (t : GenericTrbEntry) (s wd v s' wd' : ℕ)
    → s' < 32
    → wd' < 32
    → v < 2 ^ wd
    → (s + wd ≤ s') ⊎ (s' + wd' ≤ s)
    → read_bits 32 (with_field s wd v t).control s' wd' ≡ read_bits 32 t.control s' wd'
unfolding with_field
read-with_ne t s wd v s' wd' hs hw hv apart =
    read_bits_lem 32 (replace_field s wd v t.control) s' wd' hs hw
    ∙ field-replace_ne s wd s' wd' v t.control hv apart
    ∙ sym (read_bits_lem 32 t.control s' wd' hs hw)

flag-lt : (b : Bool) → bit_of b < 2 ^ 1
flag-lt true = omega arith
flag-lt false = omega arith

flag_back : (b : Bool) → not (bit_of b == 0) ≡ b
flag_back true = refl
flag_back false = refl

pub set_cycle_state_lem :
    (t : GenericTrbEntry) (b : Bool) → IsTrb t → set_cycle_state t b ≡ ok (with_cycle b t)
unfolding set_cycle_state
set_cycle_state_lem t b ht =
    write_control_lem t 0 1 (bit_of b) ht (omega arith) (omega arith) (omega arith) (flag-lt b)

pub with_cycle-IsTrb : (t : GenericTrbEntry) (b : Bool) → IsTrb t → IsTrb (with_cycle b t)
with_cycle-IsTrb t b ht = with_field-IsTrb t 0 1 (bit_of b) ht (omega arith) (flag-lt b)

pub cycle_state-with : (t : GenericTrbEntry) (b : Bool) → cycle_state (with_cycle b t) ≡ b
unfolding cycle_state
cycle_state-with t b =
    ap (λ k. not (k == 0)) (read-with_self t 0 1 (bit_of b) (omega arith) (omega arith) (flag-lt b))
    ∙ flag_back b

pub trb_type-with_cycle : (t : GenericTrbEntry) (b : Bool) → trb_type (with_cycle b t) ≡ trb_type t
unfolding trb_type
trb_type-with_cycle t b =
    read-with_ne t 0 1 (bit_of b) 10 6 (omega arith) (omega arith) (flag-lt b) (inl (omega arith))

code-lt : (k : TrbType) → code k < 2 ^ 6
unfolding code
code-lt TrbType.normal = omega arith
code-lt TrbType.setup_stage = omega arith
code-lt TrbType.data_stage = omega arith
code-lt TrbType.status_stage = omega arith
code-lt TrbType.link = omega arith
code-lt TrbType.enable_slot_command = omega arith
code-lt TrbType.address_device_command = omega arith
code-lt TrbType.configure_endpoint_command = omega arith
code-lt TrbType.evaluate_context_command = omega arith
code-lt TrbType.no_op_command = omega arith
code-lt TrbType.transfer_event = omega arith
code-lt TrbType.command_completion_event = omega arith
code-lt TrbType.port_status_change_event = omega arith
code-lt TrbType.host_controller_event = omega arith
