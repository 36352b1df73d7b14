-- ===== src/Xhci/Port.antt =====
-- xhci.rs: the port registers (`PortSc`, `PortScEntry`) and the doorbells. A port entry is the address of
-- its register; the register's value is passed in.
use original_os_with_rust.Prelude.{
  ℕ, zero, suc, ◌+◌, ◌-◌, ◌*◌, Bool, not, ◌&&◌, ◌==◌, if◌then◌else◌,
}
use original_os_with_rust.Prelude.{Result, ok, err, bad_argument, Option, List, [], ◌∷◌, get_elem?}
use original_os_with_rust.Prelude.{
  bit_and, bit_or, ok_or, invalid_slot, invalid_dci, ltb, ◌>>=◌, set,
}
use original_os_with_rust.Words.Ops.{shl, sub_word}
use original_os_with_rust.Volatile.{extract_bits}
use original_os_with_rust.Xhci.Context.{
  UsbMode, unknown, full_speed, low_speed, high_speed, super_speed,
}

-- `PortSc::new` from port `port` on, for `n` ports.
unfoldable pub ports_from : ℕ → ℕ → ℕ → List ℕ
ports_from base port zero = []
ports_from base port (suc n) = (base + (port - 1) * 4 * 4) ∷ ports_from base (suc port) n

-- `PortSc::new`, from the BAR's address and what the capability registers say.
unfoldable pub new_portsc : ℕ → ℕ → ℕ → List ℕ
new_portsc bar caplength num_ports = ports_from (bar + caplength + 0x400) 1 num_ports

-- `PortSc::get`.
unfoldable pub get_port : List ℕ → ℕ → Option ℕ
get_port entries port = get_elem? entries (sub_word 64 port 1)

unfoldable pub bit : ℕ → ℕ → Bool
bit value pos = not (bit_and value (shl 32 1 pos) == 0)

abbrev pub preserve_mask : ℕ
preserve_mask = 0x4f01ffe9

-- `assert_bit`: what is written for the value read.
unfoldable pub assert_bit : ℕ → ℕ → ℕ
assert_bit old pos = bit_or (bit_and old preserve_mask) (shl 32 1 pos)

abbrev pub ccs : ℕ → Bool
ccs value = bit value 0

abbrev pub ped : ℕ → Bool
ped value = bit value 1

abbrev pub pr : ℕ → Bool
pr value = bit value 4

abbrev pub pp : ℕ → Bool
pp value = bit value 9

-- The source reads the register at each test; the four values are in the order of the tests.
unfoldable pub is_enabled : ℕ → ℕ → ℕ → ℕ → Bool
is_enabled value1 value2 value3 value4 = pp value1 && ccs value2 && ped value3 && not (pr value4)

abbrev speed_of : ℕ → UsbMode
speed_of v =
    if v == 1
    then full_speed
    else if v == 2
    then low_speed
    else if v == 3
    then high_speed
    else if v == 4
    then super_speed
    else unknown v

unfoldable pub port_speed : ℕ → UsbMode
port_speed value = speed_of (extract_bits 32 value 10 4)

unfoldable pub max_packet_size : ℕ → Result ℕ
max_packet_size value = elim (port_speed value) [
  | full_speed ↦ ok 8
  | low_speed ↦ ok 8
  | high_speed ↦ ok 64
  | super_speed ↦ ok 512
  | unknown v ↦ err bad_argument
]

-- `Doorbell::notify`: the value written.
unfoldable pub notify : ℕ → ℕ → ℕ
notify target task = bit_or target (shl 32 task 16)

-- `Controller::notify_ep`: the doorbells' contents after it.
unfoldable pub notify_ep : List ℕ → ℕ → ℕ → Result (List ℕ)
notify_ep doorbells slot dci = ok_or (get_elem? doorbells slot) invalid_slot >>= λ db.
    if ltb dci 256 then ok (set doorbells slot (notify dci 0)) else err invalid_dci
