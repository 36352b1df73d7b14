-- ===== src/Enumeration.antt =====
-- The drivers as programs that call the controller, and how the calls are answered: xhci.rs (`run`,
-- `init_port`, `address_device`, `reset_port`), usb.rs, keyboard.rs and tablet.rs. The programs are
-- trees of calls; the registers, the controller and the device that answer are a parameter.
pub mod Requests
pub mod Drivers
pub mod Port
pub mod Contexts
pub mod Attach
pub mod Machine
pub mod Order
pub mod Asks
pub mod Protocol
pub mod Fill
pub mod Run
pub mod Keys
pub mod Start
pub mod Started
pub mod StartTests
pub mod Tests
use original_os_with_rust.Prelude.{ℕ, zero, suc, Bool, true, false, if◌then◌else◌}
use original_os_with_rust.Prelude.{Option, none, some, List, [], ◌∷◌, Result, ok, err, panic}
use original_os_with_rust.Xhci.Trb.{GenericTrbEntry}
use original_os_with_rust.Xhci.Context.{InputContext}
use original_os_with_rust.Keyboard.Driver.{KeyChange}

-- The control requests of `Controller`, with their arguments and the size of their buffer in bytes.
pub data Control : Type 0 where
  get_descriptor : (desc_type desc_index lang_id bytes : ℕ) → Control
  get_interface_descriptor : (desc_type desc_index w_index bytes : ℕ) → Control
  get_report : (bytes : ℕ) → Control
  set_protocol : (interface_number protocol : ℕ) → Control

-- The registers that the start of the controller reads and writes.
pub data Register : Type 0 where
  usbcmd usbsts config dcbaap crcr : Register
  erst_size erst_base erdp management : Register

-- A call: an access to a register of the controller, to PORTSC of a port, a command, with the input context that it points to,
-- the output context of a slot, a control request to a slot, and lines of the log.
pub data Call : Type 0 where
  read_register : Register → Call
  write_register : Register → (value : ℕ) → Call
  read_portsc : (port : ℕ) → Call
  write_portsc : (port value : ℕ) → Call
  command : GenericTrbEntry → Option InputContext → Call
  own_context : (slot output_context : ℕ) → Call
  control : (slot : ℕ) → Control → Call
  show : List KeyChange → Call

-- What a call gives back: a value read, the event that answers a command, the bytes that the device
-- sends on a request.
abbrev pub Reply : Call → Type 0
Reply (read_register r) = ℕ
Reply (write_register r value) = Unit
Reply (read_portsc port) = ℕ
Reply (write_portsc port value) = Unit
Reply (command trb memory) = Result GenericTrbEntry
Reply (own_context slot output_context) = Unit
Reply (control slot request) = Result (List ℕ)
Reply (show changes) = Unit

-- A program: its result, a loop that goes on when the rounds allowed to it end, or a call and what
-- follows the reply.
pub data Io (A : Type 0) : Type 0 where
  done : Result A → Io A
  running : Io A
  call : (c : Call) → (Reply c → Io A) → Io A

-- `?` and `.await?`, and the rest of the function.
infixl 5 ◌>>=◌
unfoldable pub ◌>>=◌ : {A B : Type 0} → Io A → (A → Io B) → Io B
done (ok a) >>= next = next a
done (err e) >>= next = done (err e)
running >>= next = running
call c k >>= next = call c (λ r. k r >>= next)

infixl 5 ◌>>◌
abbrev pub ◌>>◌ : {A B : Type 0} → Io A → Io B → Io B
m >> next = m >>= λ _. next

abbrev pub panics : {A : Type 0} → Result A → Bool
panics (err panic) = true
panics _ = false

-- A test of the result, where a panic ends the task.
unfoldable pub on_result : {A B : Type 0} → Io A → (Result A → Io B) → Io B
on_result (done r) next = if panics r then done (err panic) else next r
on_result running next = running
on_result (call c k) next = call c (λ r. on_result (k r) next)

abbrev pub pure : {A : Type 0} → A → Io A
pure a = done (ok a)

abbrev pub send : (c : Call) → Io (Reply c)
send c = call c (λ r. pure r)

abbrev pub send_command : GenericTrbEntry → Option InputContext → Io GenericTrbEntry
send_command trb memory = call (command trb memory) (λ r. done r)

abbrev pub request : ℕ → Control → Io (List ℕ)
request slot c = call (control slot c) (λ r. done r)

-- A call with its reply.
pub record Event : Type 0 where
  pub asked : Call
  pub reply : Reply asked

abbrev pub event : (c : Call) → Reply c → Event
event c r = record { asked = c; reply = r }

-- The hardware: its reply may hang on all that has happened, the last event first.
abbrev pub Device : Type 0
Device = List Event → (c : Call) → Reply c

-- The events of a run, and its result; none when a loop goes on.
unfoldable pub trace : {A : Type 0} → Device → List Event → Io A → List Event
trace d past (done r) = []
trace d past running = []
trace d past (call c k) = event c (d past c) ∷ trace d (event c (d past c) ∷ past) (k (d past c))

unfoldable pub result : {A : Type 0} → Device → List Event → Io A → Option (Result A)
result d past (done r) = some r
result d past running = none
result d past (call c k) = result d (event c (d past c) ∷ past) (k (d past c))
