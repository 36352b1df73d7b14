-- ===== src/Usb/Pick.antt =====
-- usb.rs: where the result of `pick_interface_with_triple` stands in the list of descriptors.
mod Found
pub mod Made
use original_os_with_rust.Prelude.{
  ℕ, ◌≡◌, false, Option, none, some, List, [], ◌∷◌, ◌++◌, All, if◌then◌else◌,
}
use original_os_with_rust.Usb.{
  UsbDescriptor, ConfigDescriptor, InterfaceDescriptor, EndpointDescriptor, config, interface,
  endpoint, unknown_descriptor, triple, same_triple,
}

abbrev pub IsConfig : UsbDescriptor → Type 0
IsConfig (config e) = Unit
IsConfig _ = ⊥

-- The list ends, or its next descriptor begins a configuration.
abbrev pub IsEnd : List UsbDescriptor → Type 0
IsEnd [] = Unit
IsEnd (d ∷ ds) = IsConfig d

-- A descriptor that is not an interface with the triple.
abbrev pub Unmatched : ℕ × ℕ × ℕ → UsbDescriptor → Type 0
Unmatched t (interface e) = same_triple t (triple e) ≡ false
Unmatched t _ = Unit

-- The last interface with the triple, and the endpoints, in their order.
abbrev pub last_match :
    ℕ × ℕ × ℕ → Option InterfaceDescriptor → List UsbDescriptor → Option InterfaceDescriptor
last_match t o [] = o
last_match t o (interface e ∷ ds) = last_match t (if same_triple t (triple e) then some e else o) ds
last_match t o (config e ∷ ds) = last_match t o ds
last_match t o (endpoint e ∷ ds) = last_match t o ds
last_match t o (unknown_descriptor l k ∷ ds) = last_match t o ds

abbrev pub endpoints : List UsbDescriptor → List EndpointDescriptor
endpoints [] = []
endpoints (endpoint e ∷ ds) = e ∷ endpoints ds
endpoints (config e ∷ ds) = endpoints ds
endpoints (interface e ∷ ds) = endpoints ds
endpoints (unknown_descriptor l k ∷ ds) = endpoints ds

-- The configuration `c`, with what stands before it and the descriptors up to the next configuration.
pub record IsPick (t : ℕ × ℕ × ℕ) (ds : List UsbDescriptor) (c : ConfigDescriptor)
    (i : InterfaceDescriptor) (es : List EndpointDescriptor) : Type 0 where
  pub before : List UsbDescriptor
  pub body : List UsbDescriptor
  pub after : List UsbDescriptor
  pub split : ds ≡ before ++ config c ∷ (body ++ after)
  pub first : All (Unmatched t) before
  pub inside : All (λ d. ¬ IsConfig d) body
  pub end : IsEnd after
  pub found : last_match t none body ≡ some i
  pub points : es ≡ endpoints body
