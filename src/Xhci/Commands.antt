-- ===== src/Xhci/Commands.antt =====
-- xhci.rs: the commands of `Controller`, up to the point where each waits for its event, and the
-- output contexts of the slots.
pub mod Answer
pub mod Tests
use original_os_with_rust.Prelude.{
  ℕ, ◌-◌, ◌==◌, if◌then◌else◌, Result, ok, err, panic, Option, none, some, List, [], ◌∷◌, set,
}
use original_os_with_rust.Xhci.Trb.{GenericTrbEntry}
use original_os_with_rust.Xhci.Ring.{CommandRing, push}
use original_os_with_rust.Xhci.Event.{EventRing, register_waiter}
use original_os_with_rust.Xhci.Port.{notify}
use original_os_with_rust.Xhci.Controller.{waiter_for_trb}

-- What a command changes.
pub record CommandSession : Type 0 where
  pub doorbells : List ℕ
  pub event_ring : EventRing
  pub command_ring : CommandRing

-- `notify_xhc`; the index panics when there is no doorbell.
unfoldable pub notify_xhc : List ℕ → Result (List ℕ)
notify_xhc [] = err panic
notify_xhc (db ∷ dbs) = ok (notify 0 0 ∷ dbs)

-- The doorbell and the future, after the push.
unfoldable pub await_command : CommandSession → CommandRing × Result ℕ → CommandSession × Result ℕ
await_command s (ring, err e) = (record s { command_ring = ring }, err e)
await_command s (ring, ok cmd_ptr) = elim (notify_xhc s.doorbells) [
  | err e ↦ (record s { command_ring = ring }, err e)
  | ok doorbells ↦ (
    record {
      doorbells = doorbells;
      event_ring = register_waiter s.event_ring (waiter_for_trb cmd_ptr);
      command_ring = ring;
    },
    ok cmd_ptr,
  )
]

-- `send_command`; the result is the address that its future waits for.
unfoldable pub send_command : CommandSession → GenericTrbEntry → CommandSession × Result ℕ
send_command s cmd = await_command s (push s.command_ring cmd)

-- `DeviceContextBaseAddressArray`: the pointers that the controller reads, and the contexts that the
-- driver owns, each given by its address.
pub record DeviceContextBaseAddressArray : Type 0 where
  pub scratchpad_table_ptr : ℕ
  pub inner_context : List ℕ
  pub context : List (Option ℕ)

-- `set_output_context`; for slot 0 the index is below 0, and the access panics.
unfoldable pub set_output_context :
    DeviceContextBaseAddressArray
    → (slot : ℕ) → (output_context : ℕ) → Result DeviceContextBaseAddressArray
set_output_context a slot output_context =
    let ctx_idx = slot - 1 in
    if slot == 0
    then err panic
    else ok (record a {
      context = set a.context ctx_idx (some output_context);
      inner_context = set a.inner_context ctx_idx output_context;
    })
