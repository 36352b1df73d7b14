-- ===== src/Enumeration/Attach.antt =====
-- xhci.rs: `init_port`, `address_device` and `run`.
use original_os_with_rust.Prelude.{
  ℕ, ◌==◌, if◌then◌else◌, Option, none, some, Result, ok, err, ok_or, not, ensure, panic, bad_port,
  port_not_enabled, List, ◌∷◌, length,
}
use original_os_with_rust.Xhci.Trb.{cmd_enable_slot, cmd_address_device, cmd_result_ok, slot_id}
use original_os_with_rust.Xhci.Ring.{CommandRing, default_command_ring}
use original_os_with_rust.Xhci.Port.{get_port}
use original_os_with_rust.Usb.{UsbDeviceDescriptor, UsbDescriptor}
use original_os_with_rust.Enumeration.{
  Io, done, pure, send, send_command, on_result, ◌>>=◌, ◌>>◌, read_portsc, own_context,
}
use original_os_with_rust.Enumeration.Contexts.{context_for_port, with_speed, with_endpoint}
use original_os_with_rust.Enumeration.Requests.{
  request_device_descriptor, request_string_descriptor, request_string_descriptor_zero,
  request_config_descriptor_and_rest,
}
use original_os_with_rust.Enumeration.Drivers.{start_usb_keyboard, start_usb_tablet}
use original_os_with_rust.Enumeration.Port.{reset_port, is_port_enabled, scan_ports}

-- The registers of the ports, the addresses that the allocator gives to what `address_device` makes,
-- and the number of rounds that a loop is followed for.
pub record Setting : Type 0 where
  pub ports : List ℕ
  pub output_context : ℕ
  pub input_context : ℕ
  pub ctrl_ep_ring : ℕ
  pub rounds : ℕ

unfoldable pub init_port : Setting → ℕ → Io ℕ
init_port s port = do
  done (ok_or (get_port s.ports port) bad_port)
  reset_port s.rounds port
  enabled ← is_port_enabled port
  done (ensure enabled port_not_enabled)
  trb ← done cmd_enable_slot
  e ← send_command trb none
  pure (slot_id e)

-- The ring is that of the default control endpoint.
unfoldable pub address_device : Setting → (port slot : ℕ) → Io CommandRing
address_device s port slot = do
  done (ensure (not (slot == 0)) panic)
  send (own_context slot s.output_context)
  ctx ← done (context_for_port port)
  done (ok_or (get_port s.ports port) bad_port)
  speed ← send (read_portsc port)
  ctx1 ← done (with_speed ctx speed)
  ring ← done (default_command_ring s.ctrl_ep_ring)
  size ← send (read_portsc port)
  ctx2 ← done (with_endpoint ctx1 size s.ctrl_ep_ring)
  trb ← done (cmd_address_device s.input_context slot)
  e ← send_command trb (some ctx2)
  done (cmd_result_ok e)
  pure ring

-- A string, where the descriptor has an index for it.
unfoldable pub string_at : ℕ → (lang_id index : ℕ) → Io (Option (List ℕ))
string_at slot lang_id index =
    if index == 0
    then pure none
    else do text ← request_string_descriptor slot lang_id index; pure (some text)

-- The drivers, one after the other.
unfoldable pub start_drivers : ℕ → ℕ → UsbDeviceDescriptor → List UsbDescriptor → Io (Unit {0})
start_drivers rounds slot device_descriptor descriptors =
    on_result (start_usb_keyboard rounds slot descriptors) (λ r. elim r [
      | ok _ ↦ pure tt
      | err _ ↦ on_result (start_usb_tablet slot device_descriptor descriptors) (λ _. pure tt)
    ])

-- The body of `if let Ok(e)` on the languages of the device.
unfoldable pub describe : ℕ → ℕ → UsbDeviceDescriptor → ℕ → Io (Unit {0})
describe rounds slot device_descriptor lang_id = do
  vendor ← string_at slot lang_id device_descriptor.manufacturer_idx
  product ← string_at slot lang_id device_descriptor.product_idx
  serial ← string_at slot lang_id device_descriptor.serial_idx
  descriptors ← request_config_descriptor_and_rest slot
  start_drivers rounds slot device_descriptor descriptors

abbrev second : List ℕ → Result ℕ
second (a ∷ b ∷ rest) = ok b
second _ = err panic

-- `if let Ok(e)` on the languages.
abbrev pub with_languages : ℕ → ℕ → UsbDeviceDescriptor → Result (List ℕ) → Io (Unit {0})
with_languages rounds slot device_descriptor (err _) = pure tt
with_languages rounds slot device_descriptor (ok e) =
    done (second e) >>= describe rounds slot device_descriptor

-- What `run` does with a device that has its address.
unfoldable pub identify : (rounds slot : ℕ) → Io (Unit {0})
identify rounds slot = do
  device_descriptor ← request_device_descriptor slot
  on_result (request_string_descriptor_zero slot) (with_languages rounds slot device_descriptor)

unfoldable pub attach_device : Setting → (port slot : ℕ) → Io (Unit {0})
attach_device s port slot = do address_device s port slot; identify s.rounds slot

-- `if let Some(port)`.
abbrev pub attach_connected : Setting → Option ℕ → Io (Unit {0})
attach_connected s none = pure tt
attach_connected s (some port) = do slot ← init_port s port; attach_device s port slot

-- `run`, without the task that polls the event ring.
unfoldable pub run_xhc : Setting → Io (Unit {0})
run_xhc s = do
  connected_port ← scan_ports (length s.ports) 1 none
  attach_connected s connected_port
