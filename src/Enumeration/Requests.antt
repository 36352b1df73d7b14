-- ===== src/Enumeration/Requests.antt =====
-- usb.rs: the requests for descriptors and reports. A buffer holds zeros before the transfer.
use original_os_with_rust.Prelude.{
  ℕ, zero, suc, ◌+◌, ◌*◌, List, [], ◌∷◌, length, get_or, drop, Result, Option, none, some,
}
use original_os_with_rust.Usb.{UsbDescriptor, UsbDeviceDescriptor, collect_descriptors}
use original_os_with_rust.Enumeration.{
  Io, done, running, pure, request, ◌>>=◌, get_descriptor, get_interface_descriptor, get_report,
}

-- A buffer of `n` zeros, with the bytes that arrive.
unfoldable pub buffer : ℕ → List ℕ → List ℕ
buffer zero bytes = []
buffer (suc n) [] = 0 ∷ buffer n []
buffer (suc n) (b ∷ bytes) = b ∷ buffer n bytes

abbrev pub byte : List ℕ → ℕ → ℕ
byte buf i = get_or buf i 0

-- A `u16` of a packed structure.
abbrev pub half : List ℕ → ℕ → ℕ
half buf i = byte buf i + byte buf (i + 1) * 256

-- The 18 bytes of a device descriptor.
unfoldable pub device_descriptor_of : List ℕ → UsbDeviceDescriptor
device_descriptor_of b = record {
  desc_length = byte b 0;
  desc_type = byte b 1;
  version = half b 2;
  device_class = byte b 4;
  device_subclass = byte b 5;
  device_protocol = byte b 6;
  max_packet_size = byte b 7;
  vender_id = half b 8;
  product_id = half b 10;
  device_version = half b 12;
  manufacturer_idx = byte b 14;
  product_idx = byte b 15;
  serial_idx = byte b 16;
  num_of_config = byte b 17;
}

unfoldable pub request_device_descriptor : ℕ → Io UsbDeviceDescriptor
request_device_descriptor slot = do
  bytes ← request slot (get_descriptor 1 0 0 18)
  pure (device_descriptor_of (buffer 18 bytes))

-- The bytes that the string is decoded from.
unfoldable pub request_string_descriptor : ℕ → (lang_id index : ℕ) → Io (List ℕ)
request_string_descriptor slot lang_id index = do
  bytes ← request slot (get_descriptor 3 index lang_id 128)
  pure (drop 2 (buffer 128 bytes))

-- The buffer of eight `u16`.
unfoldable pub request_string_descriptor_zero : ℕ → Io (List ℕ)
request_string_descriptor_zero slot = do
  bytes ← request slot (get_descriptor 3 0 0 16)
  let b = buffer 16 bytes
  pure (
      half b 0 ∷ half b 2 ∷ half b 4 ∷ half b 6 ∷ half b 8 ∷ half b 10 ∷ half b 12 ∷ half b 14 ∷ [])

abbrev pub collected : Option (Result (List UsbDescriptor)) → Io (List UsbDescriptor)
collected none = running
collected (some r) = done r

-- `iter.collect()` on the iterator; it goes on for ever where the fuel is not enough.
abbrev pub collect_all : List ℕ → Io (List UsbDescriptor)
collect_all buf = collected (collect_descriptors (suc (length buf)) buf 0)

unfoldable pub request_config_descriptor_and_rest : ℕ → Io (List UsbDescriptor)
request_config_descriptor_and_rest slot = do
  bytes ← request slot (get_descriptor 2 0 0 9)
  let total_length = half (buffer 9 bytes) 2
  rest ← request slot (get_descriptor 2 0 0 total_length)
  collect_all (buffer total_length rest)

unfoldable pub request_hid_report : ℕ → Io (List ℕ)
request_hid_report slot = do bytes ← request slot (get_report 8); pure (buffer 8 bytes)

unfoldable pub request_hid_report_descriptor : ℕ → ℕ → Io (List ℕ)
request_hid_report_descriptor slot interface_number = do
  bytes ← request slot (get_interface_descriptor 0x22 0 interface_number 4096)
  pure (buffer 4096 bytes)
