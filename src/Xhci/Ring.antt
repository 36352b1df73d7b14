-- ===== src/Xhci/Ring.antt =====
-- xhci.rs: `TrbRing` and `CommandRing`. A ring carries the address it stands at; an index out of
-- the array is the error `panic`. `push` returns the ring it leaves behind on every branch.
pub mod Inv
pub mod Push
pub mod Command
pub mod Default
use original_os_with_rust.Prelude.{
  ℕ, suc, ◌+◌, ◌*◌, ◌%◌, Bool, true, false, not, ltb, ◌==◌, same, if◌then◌else◌,
}
use original_os_with_rust.Prelude.{
  Result, ok, err, ◌>>=◌, ok_or, List, length, get_elem?, set, replicate,
}
use original_os_with_rust.Prelude.{panic, trb_out_of_range, cycle_mismatch, cycle_same, ring_full}
use original_os_with_rust.Xhci.Trb.{GenericTrbEntry, default_trb, link, code, trb_type, trb_link}
use original_os_with_rust.Xhci.Trb.{cycle_state, set_cycle_state}

pub record TrbRing : Type 0 where
  pub trb : List GenericTrbEntry
  pub current_index : ℕ
  pub phys_addr : ℕ

abbrev pub num_trb : ℕ
num_trb = 16

-- `TrbRing::new` at an address: zeroed memory.
abbrev pub new_ring : ℕ → TrbRing
new_ring phys_addr = record {
  trb = replicate num_trb default_trb;
  current_index = 0;
  phys_addr = phys_addr;
}

unfoldable pub write : TrbRing → ℕ → GenericTrbEntry → Result TrbRing
write r index t =
    if ltb index (length r.trb)
    then ok (record r { trb = set r.trb index t })
    else err trb_out_of_range

unfoldable pub current : TrbRing → Result GenericTrbEntry
current r = ok_or (get_elem? r.trb r.current_index) panic

-- A TRB has 16 bytes.
unfoldable pub current_ptr : TrbRing → ℕ
current_ptr r = r.phys_addr + r.current_index * 16

unfoldable pub advance_index_notoggle : TrbRing → Bool → Result TrbRing
advance_index_notoggle r cycle_ours = current r >>= λ cur.
    if not (same (cycle_state cur) cycle_ours)
    then err cycle_mismatch
    else ok (record r { current_index = suc r.current_index % length r.trb })

unfoldable pub advance_index : TrbRing → Bool → Result TrbRing
advance_index r new_cycle = current r >>= λ cur.
    if same (cycle_state cur) new_cycle
    then err cycle_same
    else set_cycle_state cur new_cycle >>= λ cur'. ok (record r {
      trb = set r.trb r.current_index cur';
      current_index = suc r.current_index % length r.trb;
    })

unfoldable pub write_current : TrbRing → GenericTrbEntry → Result TrbRing
write_current r t = elim (write r r.current_index t) [ ok r' ↦ ok r' | err e ↦ err panic ]

pub record CommandRing : Type 0 where
  pub ring : TrbRing
  pub cycle_state_ours : Bool

-- `CommandRing::default` at an address.
unfoldable pub default_command_ring : ℕ → Result CommandRing
default_command_ring phys_addr = trb_link phys_addr >>= λ t.
    elim (write (new_ring phys_addr) 15 t) [
      | ok r ↦ ok (record { ring = r; cycle_state_ours = false })
      | err e ↦ err panic
    ]

-- The end of `push`: past the Link TRB, and the cycle toggled.
unfoldable pub skip_link : CommandRing → ℕ → CommandRing × Result ℕ
skip_link self dst_ptr = elim (current self.ring) [
  | err e ↦ (self, err e)
  | ok cur ↦
      if trb_type cur == code link
      then (elim (advance_index self.ring (not self.cycle_state_ours)) [
        | err e ↦ (self, err e)
        | ok r ↦ (record { ring = r; cycle_state_ours = not self.cycle_state_ours }, ok dst_ptr)
      ])
      else (self, ok dst_ptr)
]

-- `push` from the write on.
unfoldable pub write_and_advance : CommandRing → GenericTrbEntry → CommandRing × Result ℕ
write_and_advance self src = elim (write_current self.ring src) [
  | err e ↦ (self, err e)
  | ok written ↦ elim (advance_index written (not self.cycle_state_ours)) [
    | err e ↦ (record self { ring = written }, err e)
    | ok r ↦ skip_link (record self { ring = r }) (current_ptr self.ring)
  ]
]

unfoldable pub push : CommandRing → GenericTrbEntry → CommandRing × Result ℕ
push self src = elim (current self.ring) [
  | err e ↦ (self, err e)
  | ok cur ↦
      if not (same (cycle_state cur) self.cycle_state_ours)
      then (self, err ring_full)
      else (elim (set_cycle_state src self.cycle_state_ours) [
        | err e ↦ (self, err e)
        | ok src' ↦ write_and_advance self src'
      ])
]
