-- ===== src/Enumeration/Order.antt =====
-- The order of the calls that the enumeration makes: a state machine, and programs that keep to it.
use original_os_with_rust.Prelude.{
  ℕ, zero, suc, ◌≡◌, ◌≢◌, Bool, true, false, not, Option, none, some, Result, ok, err, List, ◌∷◌,
}
use original_os_with_rust.Xhci.Trb.{
  GenericTrbEntry, cmd_enable_slot, cmd_address_device, cmd_result_ok, slot_id,
}
use original_os_with_rust.Xhci.Port.{assert_bit, ccs, pp, ped, pr, max_packet_size}
use original_os_with_rust.Xhci.Context.{InputContext, EndpointContext}
use original_os_with_rust.Xhci.Context.Fields.{IsControl}
use original_os_with_rust.Volatile.Fields.{field}
use original_os_with_rust.Keyboard.Driver.{KeyChange}
use original_os_with_rust.Enumeration.{
  Call, Reply, Control, read_portsc, write_portsc, command, own_context, control, show,
}
use original_os_with_rust.Enumeration.Attach.{Setting}

-- How far a device is: no port chosen, with the last port on which a connection was seen; a port with
-- the value of its register before its power is asserted, without power yet, with power, with the value
-- of its register before the reset, and under reset; a port with so many of its four tests passed, or
-- with one failed; a slot given to the port, its output context set, and the device addressed.
pub data Phase : Type 0 where
  scanning : (found : Option ℕ) → Phase
  chosen resetting : (port old : ℕ) → Phase
  powering powered under_reset refused : (port : ℕ) → Phase
  tested : (passed port : ℕ) → Phase
  enabled owned : (port slot : ℕ) → Phase
  addressed : (slot : ℕ) → Phase

-- The four tests of `is_enabled`: power, connection, enabled, and no reset.
unfoldable pub test : ℕ → ℕ → Bool
test zero value = pp value
test (suc zero) value = ccs value
test (suc (suc zero)) value = ped value
test (suc (suc (suc k))) value = not (pr value)

-- The input context of an Address Device command: it adds the slot's context and that of the default
-- control endpoint, and names the port, but tells no speed; the endpoint has a packet size that the port's
-- speed asks for, and a ring.
pub record IsAddressContext (port ring : ℕ) (c : InputContext) : Type 0 where
  pub added : c.input_ctrl_ctx.add_context_bitmap ≡ 3
  pub dropped : c.input_ctrl_ctx.drop_context_bitmap ≡ 0
  pub root_hub_port : field 16 8 c.device_ctx.slot_ctx1 ≡ port
  pub no_speed : field 20 4 c.device_ctx.slot_ctx0 ≡ 0
  pub last_dci : field 27 5 c.device_ctx.slot_ctx0 ≡ 1
  pub endpoint :
      (ep : EndpointContext) × (rest : List EndpointContext) × (value size : ℕ)
      × (c.device_ctx.ep_ctx ≡ ep ∷ rest)
      × (max_packet_size value ≡ ok size)
      × IsControl ep size ring

-- A command that was not accepted.
abbrev pub Failed : Result GenericTrbEntry → Type 0
Failed (err x) = Unit
Failed (ok e) = cmd_result_ok e ≢ ok tt

-- The command that a phase is left by.
abbrev pub Commands : Setting → Phase → GenericTrbEntry → Option InputContext → Type 0
Commands s (tested k port) trb none = (k ≡ 4) × (cmd_enable_slot ≡ ok trb)
Commands s (owned port slot) trb (some c) =
    (cmd_address_device s.input_context slot ≡ ok trb) × IsAddressContext port s.ctrl_ep_ring c
Commands s _ trb _ = ⊥

-- A call with its reply takes a device from one phase to the next; `s` has the addresses.
pub data Step (s : Setting) : Phase → (c : Call) → Reply c → Phase → Type 0 where
  scan :
      {found : Option ℕ} {port value : ℕ}
      → Step s (scanning found) (read_portsc port) value (scanning found)
  see :
      {found : Option ℕ} {port value : ℕ}
      → ccs value ≡ true
      → Step s (scanning found) (read_portsc port) value (scanning (some port))
  choose : {port old : ℕ} → Step s (scanning (some port)) (read_portsc port) old (chosen port old)
  power :
      {port old : ℕ}
      → Step s (chosen port old) (write_portsc port (assert_bit old 9)) tt (powering port)
  await_power :
      {port value : ℕ}
      → pp value ≡ false
      → Step s (powering port) (read_portsc port) value (powering port)
  get_power :
      {port value : ℕ}
      → pp value ≡ true
      → Step s (powering port) (read_portsc port) value (powered port)
  prepare : {port old : ℕ} → Step s (powered port) (read_portsc port) old (resetting port old)
  reset :
      {port old : ℕ}
      → Step s (resetting port old) (write_portsc port (assert_bit old 4)) tt (under_reset port)
  await_reset :
      {port value : ℕ}
      → pr value ≡ true
      → Step s (under_reset port) (read_portsc port) value (under_reset port)
  end_reset :
      {port value : ℕ}
      → pr value ≡ false
      → Step s (under_reset port) (read_portsc port) value (tested 0 port)
  refuse :
      {k port value : ℕ}
      → test k value ≡ false
      → Step s (tested k port) (read_portsc port) value (refused port)
  pass :
      {k port value : ℕ}
      → test k value ≡ true
      → Step s (tested k port) (read_portsc port) value (tested (suc k) port)
  enable :
      {port : ℕ} {trb e : GenericTrbEntry}
      → cmd_enable_slot ≡ ok trb
      → Step s (tested 4 port) (command trb none) (ok e) (enabled port (slot_id e))
  own :
      {port slot : ℕ}
      → slot ≢ 0
      → Step s (enabled port slot) (own_context slot s.output_context) tt (owned port slot)
  measure :
      {port slot value : ℕ} → Step s (owned port slot) (read_portsc port) value (owned port slot)
  address :
      {port slot : ℕ} {trb e : GenericTrbEntry} {c : InputContext}
      → cmd_address_device s.input_context slot ≡ ok trb
      → IsAddressContext port s.ctrl_ep_ring c
      → cmd_result_ok e ≡ ok tt
      → Step s (owned port slot) (command trb (some c)) (ok e) (addressed slot)
  fail :
      {p : Phase} {trb : GenericTrbEntry} {memory : Option InputContext}
      {reply : Result GenericTrbEntry}
      → Failed reply
      → Commands s p trb memory
      → Step s p (command trb memory) reply p
  ask :
      {slot : ℕ} {request : Control} {reply : Result (List ℕ)}
      → Step s (addressed slot) (control slot request) reply (addressed slot)
  tell :
      {slot : ℕ} {changes : List KeyChange}
      → Step s (addressed slot) (show changes) tt (addressed slot)
