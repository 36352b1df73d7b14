-- ===== src/Enumeration/Run.antt =====
-- xhci.rs: the calls of `address_device` and `run`, as steps of the state machine.
use original_os_with_rust.Prelude.{ℕ, ◌^◌, ◌<◌, ◌≡◌, some, Result}
use original_os_with_rust.Xhci.Trb.{GenericTrbEntry, cmd_result_ok}
use original_os_with_rust.Xhci.Ring.{CommandRing}
use original_os_with_rust.Xhci.Context.{InputContext}
use original_os_with_rust.Enumeration.{Io, done, pure, ◌>>=◌, command}
use original_os_with_rust.Enumeration.Attach.{Setting}
use original_os_with_rust.Enumeration.Machine.{Leads}
use original_os_with_rust.Enumeration.Order.{Phase, owned, addressed, Step}

module _ (s : Setting) (low : s.ctrl_ep_ring < 2 ^ 64) (port slot : ℕ) where
  abbrev Addressed : Phase → CommandRing → Type 0
  Addressed p ring = p ≡ addressed slot

  -- The end of `address_device`.
  abbrev checked : CommandRing → GenericTrbEntry → Io CommandRing
  checked ring e = done (cmd_result_ok e) >>= λ _. pure ring

  abbrev Replied : InputContext → GenericTrbEntry → CommandRing → Result GenericTrbEntry → Type 0
  Replied ctx trb ring r =
      (p : Phase) × Step s (owned port slot) (command trb (some ctx)) r p
      × Leads (Step s) Addressed p (done r >>= checked ring)

module _ (s : Setting) (low : s.ctrl_ep_ring < 2 ^ 64) where
  abbrev Finished : Phase → Unit {0} → Type 0
  Finished p u = Unit
