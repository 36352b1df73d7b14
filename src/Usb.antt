-- ===== src/Usb.antt =====
-- usb.rs: the descriptors of a device, their iterator and the choice of an interface.
-- tablet.rs: the test of the device.
pub mod Pick
pub mod Endless
pub mod Tests
use original_os_with_rust.Prelude.{
  ℕ, zero, suc, ◌+◌, ◌-◌, ◌*◌, ◌%◌, ◌≤◌, Bool, true, false, not, ◌&&◌, ◌||◌, leb, ◌==◌,
}
use original_os_with_rust.Prelude.{
  if◌then◌else◌, Result, ok, err, to_option, panic, data_too_short, not_tablet,
}
use original_os_with_rust.Prelude.{Option, none, some, List, [], ◌∷◌, ◌++◌, length, drop, get_elem?}

pub record ConfigDescriptor : Type 0 where
  pub desc_length : ℕ
  pub desc_type : ℕ
  pub total_length : ℕ
  pub num_of_interfaces : ℕ
  pub config_value : ℕ
  pub config_string_index : ℕ
  pub attribute : ℕ
  pub max_power : ℕ

pub record InterfaceDescriptor : Type 0 where
  pub desc_length : ℕ
  pub desc_type : ℕ
  pub interface_number : ℕ
  pub alt_setting : ℕ
  pub num_of_endpoints : ℕ
  pub interface_class : ℕ
  pub interface_subclass : ℕ
  pub interface_protocol : ℕ
  pub interface_index : ℕ

pub record EndpointDescriptor : Type 0 where
  pub desc_length : ℕ
  pub desc_type : ℕ
  pub endpoint_address : ℕ
  pub attributes : ℕ
  pub max_packet_size : ℕ
  pub interval : ℕ

pub data UsbDescriptor : Type 0 where
  config : ConfigDescriptor → UsbDescriptor
  endpoint : EndpointDescriptor → UsbDescriptor
  interface : InterfaceDescriptor → UsbDescriptor
  unknown_descriptor : ℕ → ℕ → UsbDescriptor

-- `ConfigDescriptor::copy_from_slice`: nine bytes, numbers in little-endian order.
unfoldable pub copy_config : List ℕ → Result ConfigDescriptor
copy_config (b0 ∷ b1 ∷ b2 ∷ b3 ∷ b4 ∷ b5 ∷ b6 ∷ b7 ∷ b8 ∷ _) = ok (record {
  desc_length = b0;
  desc_type = b1;
  total_length = b2 + b3 * 256;
  num_of_interfaces = b4;
  config_value = b5;
  config_string_index = b6;
  attribute = b7;
  max_power = b8;
})
copy_config _ = err data_too_short

unfoldable pub copy_interface : List ℕ → Result InterfaceDescriptor
copy_interface (b0 ∷ b1 ∷ b2 ∷ b3 ∷ b4 ∷ b5 ∷ b6 ∷ b7 ∷ b8 ∷ _) = ok (record {
  desc_length = b0;
  desc_type = b1;
  interface_number = b2;
  alt_setting = b3;
  num_of_endpoints = b4;
  interface_class = b5;
  interface_subclass = b6;
  interface_protocol = b7;
  interface_index = b8;
})
copy_interface _ = err data_too_short

unfoldable pub copy_endpoint : List ℕ → Result EndpointDescriptor
copy_endpoint (b0 ∷ b1 ∷ b2 ∷ b3 ∷ b4 ∷ b5 ∷ b6 ∷ _) = ok (record {
  desc_length = b0;
  desc_type = b1;
  endpoint_address = b2;
  attributes = b3;
  max_packet_size = b4 + b5 * 256;
  interval = b6;
})
copy_endpoint _ = err data_too_short

abbrev map_ok : {A : Type 0} → (A → UsbDescriptor) → Result A → Option UsbDescriptor
map_ok f (ok a) = some (f a)
map_ok f (err e) = none

-- The `match` of the iterator on the bytes from the index on; none where `?` returns.
unfoldable pub read_descriptor : List ℕ → ℕ → ℕ → Option UsbDescriptor
read_descriptor buf desc_len desc_type =
    if desc_type == 2
    then map_ok config (copy_config buf)
    else if desc_type == 4
    then map_ok interface (copy_interface buf)
    else if desc_type == 5
    then map_ok endpoint (copy_endpoint buf)
    else some (unknown_descriptor desc_len desc_type)

-- The step on the bytes from the index on.
unfoldable pub step_at : List ℕ → ℕ → Result (Option UsbDescriptor × ℕ)
step_at [] index = err panic
step_at (desc_len ∷ []) index = err panic
step_at (desc_len ∷ desc_type ∷ bytes) index =
    elim (read_descriptor (desc_len ∷ desc_type ∷ bytes) desc_len desc_type) [
      | none ↦ ok (none, index)
      | some d ↦ ok (some d, index + desc_len)
    ]

-- `DescriptorIterator::next`: the item, and the index after the call.
unfoldable pub next_descriptor : List ℕ → ℕ → Result (Option UsbDescriptor × ℕ)
next_descriptor buf index =
    if leb (length buf) index then ok (none, index) else step_at (drop index buf) index

-- The loop over the iterator, with fuel: none when the fuel ends first.
unfoldable pub collect_descriptors : ℕ → List ℕ → ℕ → Option (Result (List UsbDescriptor))
collect_descriptors zero buf index = none
collect_descriptors (suc fuel) buf index = elim (next_descriptor buf index) [
  | err e ↦ some (err e)
  | ok r ↦
      let rest = collect_descriptors fuel buf r.1 in
      elim r.0 [
        | none ↦ some (ok [])
        | some d ↦ elim rest [
          | none ↦ none
          | some (err e) ↦ some (err e)
          | some (ok ds) ↦ some (ok (d ∷ ds))
        ]
      ]
]

abbrev pub triple : InterfaceDescriptor → ℕ × ℕ × ℕ
triple i = (i.interface_class, i.interface_subclass, i.interface_protocol)

abbrev pub same_triple : ℕ × ℕ × ℕ → ℕ × ℕ × ℕ → Bool
same_triple a b = a.0 == b.0 && a.1 == b.1 && a.2 == b.2

-- What the loop of `pick_interface_with_triple` keeps.
pub record Picked : Type 0 where
  pub config : Option ConfigDescriptor
  pub interface : Option InterfaceDescriptor
  pub ep_list : List EndpointDescriptor

unfoldable pub pick_loop : ℕ × ℕ × ℕ → Picked → List UsbDescriptor → Picked
pick_loop t p [] = p
pick_loop t p (config e ∷ ds) =
    let rest = pick_loop t (record p { config = some e; ep_list = [] }) ds in
    elim p.interface [ some i ↦ p | none ↦ rest ]
pick_loop t p (interface e ∷ ds) =
    pick_loop t (if same_triple t (triple e) then record p { interface = some e } else p) ds
pick_loop t p (endpoint e ∷ ds) = pick_loop t (record p { ep_list = p.ep_list ++ e ∷ [] }) ds
pick_loop t p (unknown_descriptor l k ∷ ds) = pick_loop t p ds

-- The end of `pick_interface_with_triple`.
unfoldable pub both :
    Picked → Option (ConfigDescriptor × InterfaceDescriptor × List EndpointDescriptor)
both p = elim p.config [
  | none ↦ none
  | some c ↦ elim p.interface [ none ↦ none | some i ↦ some (c, i, p.ep_list) ]
]

unfoldable pub pick_interface_with_triple :
    List UsbDescriptor
    → ℕ × ℕ × ℕ
    → Option (ConfigDescriptor × InterfaceDescriptor × List EndpointDescriptor)
pick_interface_with_triple ds t =
    both (pick_loop t (record { config = none; interface = none; ep_list = [] }) ds)

-- `UsbDeviceDescriptor`, and the test at the start of `start_usb_tablet`.
pub record UsbDeviceDescriptor : Type 0 where
  pub desc_length : ℕ
  pub desc_type : ℕ
  pub version : ℕ
  pub device_class : ℕ
  pub device_subclass : ℕ
  pub device_protocol : ℕ
  pub max_packet_size : ℕ
  pub vender_id : ℕ
  pub product_id : ℕ
  pub device_version : ℕ
  pub manufacturer_idx : ℕ
  pub product_idx : ℕ
  pub serial_idx : ℕ
  pub num_of_config : ℕ

unfoldable pub check_tablet : UsbDeviceDescriptor → Result (Unit {0})
check_tablet d =
    if not (d.device_class == 0)
      || not (d.device_subclass == 0)
      || not (d.device_protocol == 0)
      || not (d.vender_id == 0x0627)
      || not (d.product_id == 0x0001)
    then err not_tablet
    else ok tt
