-- ===== src/Enumeration/Asks.antt =====
-- xhci.rs and usb.rs: the calls of the enumeration after the device has its address.
use original_os_with_rust.Prelude.{
  ℕ, zero, suc, ◌≡◌, inl, inr, refl, Bool-cases, Option, none, some, Result, ok, err, List, [], sym,
  subst, ◌==◌,
}
use original_os_with_rust.Usb.{UsbDeviceDescriptor, UsbDescriptor}
use original_os_with_rust.Keyboard.Driver.{pressed_keys, changes}
use original_os_with_rust.Enumeration.{
  Io, done, running, call, Control, request, pure, send, ◌>>=◌, on_result, panics, read_register,
  write_register, read_portsc, write_portsc, command, own_context, control, show,
}
use original_os_with_rust.Enumeration.Requests.{
  request_device_descriptor, request_string_descriptor, request_string_descriptor_zero,
  request_config_descriptor_and_rest, request_hid_report, request_hid_report_descriptor, collected,
}
use original_os_with_rust.Enumeration.Drivers.{keyboard_loop, start_usb_keyboard, start_usb_tablet}
use original_os_with_rust.Enumeration.Attach.{
  Setting, string_at, start_drivers, describe, with_languages, identify,
}
use original_os_with_rust.Enumeration.Machine.{Leads}
use original_os_with_rust.Enumeration.Order.{addressed, Step, ask, tell}

-- The program makes only control requests to the slot, and writes the log.
abbrev pub Asks : ℕ → {A : Type 0} → Io A → Type 0
Asks slot (done r) = Unit
Asks slot running = Unit
Asks slot (call (control slot' request) k) =
    (slot' ≡ slot) × ((r : Result (List ℕ)) → Asks slot (k r))
Asks slot (call (show changes) k) = Asks slot (k tt)
Asks slot (call _ k) = ⊥

bind-Asks :
    (slot : ℕ) {A B : Type 0} (io : Io A) (next : A → Io B)
    → Asks slot io
    → ((a : A) → Asks slot (next a))
    → Asks slot (io >>= next)
unfolding ◌>>=◌
bind-Asks slot (done (ok a)) next h k = k a
bind-Asks slot (done (err e)) next h k = tt
bind-Asks slot running next h k = tt
bind-Asks slot (call (control slot' request) f) next (same, h) k =
    (same, λ r. bind-Asks slot (f r) next (h r) k)
bind-Asks slot (call (show changes) f) next h k = bind-Asks slot (f tt) next h k
bind-Asks slot (call (read_register r) f) next h k = elim h [ ]
bind-Asks slot (call (write_register r v) f) next h k = elim h [ ]
bind-Asks slot (call (read_portsc port) f) next h k = elim h [ ]
bind-Asks slot (call (write_portsc port value) f) next h k = elim h [ ]
bind-Asks slot (call (command trb memory) f) next h k = elim h [ ]
bind-Asks slot (call (own_context slot' ctx) f) next h k = elim h [ ]

on_result-Asks :
    (slot : ℕ) {A B : Type 0} (io : Io A) (next : Result A → Io B)
    → Asks slot io
    → ((r : Result A) → Asks slot (next r))
    → Asks slot (on_result io next)
unfolding on_result
on_result-Asks slot (done r) next h k = elim (Bool-cases (panics r)) [
  | inl e ↦ rw e tt
  | inr e ↦ rw e (k r)
]
on_result-Asks slot running next h k = tt
on_result-Asks slot (call (control slot' request) f) next (same, h) k =
    (same, λ r. on_result-Asks slot (f r) next (h r) k)
on_result-Asks slot (call (show changes) f) next h k = on_result-Asks slot (f tt) next h k
on_result-Asks slot (call (read_register r) f) next h k = elim h [ ]
on_result-Asks slot (call (write_register r v) f) next h k = elim h [ ]
on_result-Asks slot (call (read_portsc port) f) next h k = elim h [ ]
on_result-Asks slot (call (write_portsc port value) f) next h k = elim h [ ]
on_result-Asks slot (call (command trb memory) f) next h k = elim h [ ]
on_result-Asks slot (call (own_context slot' ctx) f) next h k = elim h [ ]

pub Asks-Leads :
    (s : Setting) (slot : ℕ) {A : Type 0} (io : Io A)
    → Asks slot io
    → Leads (Step s) (λ p a. Unit {0}) (addressed slot) io
Asks-Leads s slot (done (ok a)) h = tt
Asks-Leads s slot (done (err e)) h = tt
Asks-Leads s slot running h = tt
Asks-Leads s slot (call (control slot' request) k) (same, h) = λ r. (
  addressed slot,
  subst (λ x. Step s (addressed slot) (control x request) r (addressed slot)) (sym same) ask,
  Asks-Leads s slot (k r) (h r),
)
Asks-Leads s slot (call (show changes) k) h =
    λ r. (addressed slot, tell, Asks-Leads s slot (k tt) h)
Asks-Leads s slot (call (read_register r) f) h = elim h [ ]
Asks-Leads s slot (call (write_register r v) f) h = elim h [ ]
Asks-Leads s slot (call (read_portsc port) f) h = elim h [ ]
Asks-Leads s slot (call (write_portsc port value) f) h = elim h [ ]
Asks-Leads s slot (call (command trb memory) f) h = elim h [ ]
Asks-Leads s slot (call (own_context slot' ctx) f) h = elim h [ ]

-- One request, then a value.
request-Asks :
    (slot : ℕ) (c : Control) {A : Type 0} (next : List ℕ → Io A)
    → ((bytes : List ℕ) → Asks slot (next bytes))
    → Asks slot (request slot c >>= next)
unfolding ◌>>=◌
request-Asks slot c next h =
    (refl, λ r. elim r as (λ r'. Asks slot (done r' >>= next)) [ ok bytes ↦ h bytes | err e ↦ tt ])

string_at-Asks : (slot lang_id index : ℕ) → Asks slot (string_at slot lang_id index)
unfolding string_at request_string_descriptor
string_at-Asks slot lang_id index = elim (Bool-cases (index == 0)) [
  | inl e ↦ rw e tt
  | inr e ↦ rw e (bind-Asks slot _ _ (request-Asks slot _ _ (λ bytes. tt)) (λ text. tt))
]

collected-Asks : (slot : ℕ) (o : Option (Result (List UsbDescriptor))) → Asks slot (collected o)
collected-Asks slot none = tt
collected-Asks slot (some r) = tt

config-Asks : (slot : ℕ) → Asks slot (request_config_descriptor_and_rest slot)
unfolding request_config_descriptor_and_rest
config-Asks slot =
    request-Asks slot _ _ (λ bytes. request-Asks slot _ _ (λ rest. collected-Asks slot _))

keyboard_loop-Asks : (n slot : ℕ) (prev : List ℕ) → Asks slot (keyboard_loop n slot prev)
unfolding keyboard_loop request_hid_report
keyboard_loop-Asks zero slot prev = tt
keyboard_loop-Asks (suc n) slot prev =
    bind-Asks slot _ _ (request-Asks slot _ _ (λ bytes. tt)) (λ report.
      bind-Asks slot (send (show (changes (pressed_keys report) prev))) _ tt
        (λ u. keyboard_loop-Asks n slot (pressed_keys report)))

keyboard-Asks : (n slot : ℕ) (ds : List UsbDescriptor) → Asks slot (start_usb_keyboard n slot ds)
unfolding start_usb_keyboard
keyboard-Asks n slot ds =
    bind-Asks slot _ _ tt (λ picked. request-Asks slot _ _ (λ bytes. keyboard_loop-Asks n slot []))

tablet-Asks :
    (slot : ℕ) (d : UsbDeviceDescriptor) (ds : List UsbDescriptor)
    → Asks slot (start_usb_tablet slot d ds)
unfolding start_usb_tablet request_hid_report_descriptor
tablet-Asks slot d ds = bind-Asks slot _ _ tt (λ u.
    bind-Asks slot _ _ tt
      (λ picked. bind-Asks slot _ _ (request-Asks slot _ _ (λ bytes. tt)) (λ r. tt)))

abbrev after_keyboard :
    ℕ → UsbDeviceDescriptor → List UsbDescriptor → Result (Unit {0}) → Io (Unit {0})
after_keyboard slot d ds (ok u) = pure tt
after_keyboard slot d ds (err e) = on_result (start_usb_tablet slot d ds) (λ r'. pure tt)

drivers-Asks :
    (n slot : ℕ) (d : UsbDeviceDescriptor) (ds : List UsbDescriptor)
    → Asks slot (start_drivers n slot d ds)
unfolding start_drivers
drivers-Asks n slot d ds = on_result-Asks slot _ _ (keyboard-Asks n slot ds) (λ r.
    elim r as (λ r'. Asks slot (after_keyboard slot d ds r')) [
      | ok u ↦ tt
      | err e ↦ on_result-Asks slot _ _ (tablet-Asks slot d ds) (λ r'. tt)
    ])

describe-Asks :
    (n slot : ℕ) (d : UsbDeviceDescriptor) (lang_id : ℕ) → Asks slot (describe n slot d lang_id)
unfolding describe
describe-Asks n slot d lang_id =
    bind-Asks slot _ _ (string_at-Asks slot lang_id d.manufacturer_idx) (λ vendor.
      bind-Asks slot _ _ (string_at-Asks slot lang_id d.product_idx) (λ product.
        bind-Asks slot _ _ (string_at-Asks slot lang_id d.serial_idx) (λ serial.
          bind-Asks slot _ _ (config-Asks slot)
            (λ descriptors. drivers-Asks n slot d descriptors))))

languages-Asks :
    (n slot : ℕ) (d : UsbDeviceDescriptor) (r : Result (List ℕ))
    → Asks slot (with_languages n slot d r)
languages-Asks n slot d (err e) = tt
languages-Asks n slot d (ok e) = bind-Asks slot _ _ tt (describe-Asks n slot d)

pub identify-Asks : (n slot : ℕ) → Asks slot (identify n slot)
unfolding identify request_device_descriptor request_string_descriptor_zero
identify-Asks n slot =
    bind-Asks slot _ _ (request-Asks slot _ _ (λ bytes. tt))
      (λ d. on_result-Asks slot _ _ (request-Asks slot _ _ (λ bytes. tt)) (languages-Asks n slot d))
