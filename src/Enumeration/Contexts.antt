-- ===== src/Enumeration/Contexts.antt =====
-- xhci.rs: the input context that `address_device` fills in.
use original_os_with_rust.Prelude.{ℕ, replicate, Result, ok, ◌>>=◌}
use original_os_with_rust.Xhci.Port.{port_speed, max_packet_size}
use original_os_with_rust.Xhci.Context.{
  InputContext, InputControlContext, DeviceContext, new_endpoint, new_control_endpoint, add_context,
  set_root_hub_port_number, set_last_valid_dci, set_port_speed, set_ep_ctx,
}

-- `InputControlContext::default()` and `InputContext::default()`.
abbrev pub default_ctrl : InputControlContext
default_ctrl = record { drop_context_bitmap = 0; add_context_bitmap = 0 }

abbrev pub default_device : DeviceContext
default_device = record { slot_ctx0 = 0; slot_ctx1 = 0; ep_ctx = replicate 31 new_endpoint }

-- Up to the first access to the port.
unfoldable pub context_for_port : ℕ → Result InputContext
context_for_port port = do
  ctrl0 ← add_context default_ctrl 0
  ctrl1 ← add_context ctrl0 1
  hub ← set_root_hub_port_number default_device port
  dev ← set_last_valid_dci hub 1
  ok (record { input_ctrl_ctx = ctrl1; device_ctx = dev })

-- With the value that the port had for its speed.
unfoldable pub with_speed : InputContext → ℕ → Result InputContext
with_speed c value = do
  dev ← set_port_speed c.device_ctx (port_speed value)
  ok (record c { device_ctx = dev })

-- With the value that the port had for the packet size, and the address of the endpoint's ring.
unfoldable pub with_endpoint : InputContext → ℕ → ℕ → Result InputContext
with_endpoint c value ring_phys_addr = do
  size ← max_packet_size value
  ep ← new_control_endpoint size ring_phys_addr
  set_ep_ctx c 1 ep
