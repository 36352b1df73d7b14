-- ===== src/Usb/Pick/Made.antt =====
-- usb.rs: what `pick_interface_with_triple` returns.
use original_os_with_rust.Prelude.{
  ℕ, ◌≡◌, ◌↔◌, inl, inr, refl, ap, ◌∙◌, sym, subst, Bool-cases, Option, none, some, List, [], ◌∷◌,
  ◌++◌, All,
}
use original_os_with_rust.Usb.{
  UsbDescriptor, ConfigDescriptor, InterfaceDescriptor, EndpointDescriptor, config, interface,
  endpoint, unknown_descriptor, Picked, pick_loop, both, pick_interface_with_triple, triple,
  same_triple,
}
use original_os_with_rust.Usb.Pick.{IsConfig, IsEnd, Unmatched, last_match, endpoints, IsPick}
use original_os_with_rust.Usb.Pick.Found.{picked-IsPick}
use mathlib.Core.List.{append-nil, append_assoc}

module _ (t : ℕ × ℕ × ℕ) (c : ConfigDescriptor) (i : InterfaceDescriptor) where
  -- The loop over what stands before the configuration.
  skips :
      (oc : Option ConfigDescriptor) (es0 : List EndpointDescriptor)
      (before ds : List UsbDescriptor)
      → All (Unmatched t) before
      → (oc' : Option ConfigDescriptor) × (es' : List EndpointDescriptor) × (pick_loop t
            (record { config = oc; interface = none; ep_list = es0 })
            (before ++ ds)
          ≡ pick_loop t (record { config = oc'; interface = none; ep_list = es' }) ds)
  unfolding pick_loop
  skips oc es0 [] ds h = (oc, es0, refl)
  skips oc es0 (config e ∷ before) ds (h, hs) = skips (some e) [] before ds hs
  skips oc es0 (interface e ∷ before) ds (h, hs) =
      let (oc', es', r) = skips oc es0 before ds hs in (oc', es', rw (pick_loop, h) r)
  skips oc es0 (endpoint e ∷ before) ds (h, hs) = skips oc (es0 ++ e ∷ []) before ds hs
  skips oc es0 (unknown_descriptor l k ∷ before) ds (h, hs) = skips oc es0 before ds hs

  abbrev at : Option InterfaceDescriptor → List EndpointDescriptor → Picked
  at oi es0 = record { config = some c; interface = oi; ep_list = es0 }

  -- The loop over the configuration.
  reads :
      (oi : Option InterfaceDescriptor) (es0 : List EndpointDescriptor)
      (body after : List UsbDescriptor)
      → All (λ d. ¬ IsConfig d) body
      → IsEnd after
      → last_match t oi body ≡ some i
      → pick_loop t (at oi es0) (body ++ after) ≡ at (some i) (es0 ++ endpoints body)
  unfolding pick_loop
  reads oi es0 [] [] h last found =
      ap (λ o. at o es0) found ∙ ap (at (some i)) (sym (append-nil es0))
  reads oi es0 [] (config e ∷ after) h last found =
      subst (λ o. pick_loop t (at o es0) (config e ∷ after) ≡ at (some i) (es0 ++ [])) (sym found)
        (ap (at (some i)) (sym (append-nil es0)))
  reads oi es0 [] (interface e ∷ after) h last found = absurd last
  reads oi es0 [] (endpoint e ∷ after) h last found = absurd last
  reads oi es0 [] (unknown_descriptor l k ∷ after) h last found = absurd last
  reads oi es0 (config e ∷ body) after (h, hs) last found = absurd (h tt)
  reads oi es0 (interface e ∷ body) after (h, hs) last found =
      elim (Bool-cases (same_triple t (triple e))) [
        | inl same ↦ rw (pick_loop, same) (reads (some e) es0 body after hs last (rw same at found))
        | inr other ↦ rw (pick_loop, other) (reads oi es0 body after hs last (rw other at found))
      ]
  reads oi es0 (endpoint e ∷ body) after (h, hs) last found =
      reads oi (es0 ++ e ∷ []) body after hs last found
      ∙ ap (at (some i)) (append_assoc es0 (e ∷ []) (endpoints body))
  reads oi es0 (unknown_descriptor l k ∷ body) after (h, hs) last found =
      reads oi es0 body after hs last found

IsPick-picked :
    (ds : List UsbDescriptor) (t : ℕ × ℕ × ℕ) (c : ConfigDescriptor) (i : InterfaceDescriptor)
    (es : List EndpointDescriptor)
    → IsPick t ds c i es
    → pick_interface_with_triple ds t ≡ some (c, i, es)
unfolding pick_interface_with_triple pick_loop both
IsPick-picked ds t c i es k =
    let (oc, es', r) = skips t c i none [] k.before (config c ∷ (k.body ++ k.after)) k.first in
    ap (λ xs. both (pick_loop t (record { config = none; interface = none; ep_list = [] }) xs))
      k.split
    ∙ ap both (r ∙ reads t c i none [] k.body k.after k.inside k.end k.found)
    ∙ ap (λ xs. some (c, i, xs)) (sym k.points)

-- A configuration, an interface and endpoints are returned just when the configuration is the first one
-- with an interface that has the triple (no such interface stands before it), the interface is the last
-- such one up to the next configuration or the end of the list, and the endpoints are all those up to
-- there, in their order.
pub pick_interface_with_triple-IsPick :
    (ds : List UsbDescriptor) (t : ℕ × ℕ × ℕ) (c : ConfigDescriptor) (i : InterfaceDescriptor)
    (es : List EndpointDescriptor)
    → (pick_interface_with_triple ds t ≡ some (c, i, es)) ↔ IsPick t ds c i es
pick_interface_with_triple-IsPick ds t c i es =
    (picked-IsPick ds t c i es, IsPick-picked ds t c i es)
