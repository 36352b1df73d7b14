-- ===== src/Enumeration/Port.antt =====
-- xhci.rs: a port as the driver finds it, resets it, and tests it.
use original_os_with_rust.Prelude.{ℕ, zero, suc, Bool, false, not, if◌then◌else◌, Option, some}
use original_os_with_rust.Xhci.Port.{assert_bit, ccs, pp, ped, pr}
use original_os_with_rust.Enumeration.{
  Io, running, pure, send, ◌>>=◌, ◌>>◌, read_portsc, write_portsc,
}

-- `PortScEntry::assert_bit`.
unfoldable pub assert_port_bit : ℕ → ℕ → Io (Unit {0})
assert_port_bit port pos = do
  old ← send (read_portsc port)
  send (write_portsc port (assert_bit old pos))

-- `while` with a yield: reads the register until the test fails, `n` times at most.
unfoldable pub wait_while : ℕ → ℕ → (ℕ → Bool) → Io (Unit {0})
wait_while zero port busy = running
wait_while (suc n) port busy = do
  value ← send (read_portsc port)
  let again = wait_while n port busy
  if busy value then again else pure tt

unfoldable pub reset_port : ℕ → ℕ → Io (Unit {0})
reset_port n port = do
  assert_port_bit port 9
  wait_while n port (λ value. not (pp value))
  assert_port_bit port 4
  wait_while n port pr

-- `PortScEntry::is_enabled`, which reads the register for each of its tests.
unfoldable pub is_port_enabled : ℕ → Io Bool
is_port_enabled port = do
  v1 ← send (read_portsc port)
  if not (pp v1) then pure false else do
    v2 ← send (read_portsc port)
    if not (ccs v2) then pure false else do
      v3 ← send (read_portsc port)
      if not (ped v3) then pure false else do v4 ← send (read_portsc port); pure (not (pr v4))

-- The loop of `run` over `n` ports from `port` on, which reads each register twice.
unfoldable pub scan_ports : ℕ → ℕ → Option ℕ → Io (Option ℕ)
scan_ports zero port connected_port = pure connected_port
scan_ports (suc n) port connected_port = do
  shown ← send (read_portsc port)
  value ← send (read_portsc port)
  scan_ports n (suc port) (if ccs value then some port else connected_port)
