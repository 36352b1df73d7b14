-- ===== src/Xhci/Commands/Answer.antt =====
-- xhci.rs: a command and the event that answers it.
use original_os_with_rust.Prelude.{
  ℕ, ◌+◌, ◌*◌, ◌≡◌, ◌≢◌, ◌⊎◌, inl, inr, refl, ap, sym, ◌∙◌, true, false, ≡→==, ≢→==, map,
}
use original_os_with_rust.Prelude.{ok, some, none, List, [], ◌∷◌, ◌++◌, Bool-cases}
use original_os_with_rust.Xhci.Trb.{GenericTrbEntry, trb_type, cycle_state}
use original_os_with_rust.Xhci.Trb.Fields.{IsTrb}
use original_os_with_rust.Xhci.Ring.{CommandRing}
use original_os_with_rust.Xhci.Ring.Inv.{IsRing}
use original_os_with_rust.Xhci.Ring.Command.{Pushed, push-Pushed}
use original_os_with_rust.Xhci.Event.{
  EventRing, Waiter, matches, resolve, poll_future, register_waiter, poll,
}
use original_os_with_rust.Xhci.Event.Stale.{live, give}
use original_os_with_rust.Xhci.Event.Poll.{IsEventRing, head, taken, poll_lem}
use original_os_with_rust.Xhci.Port.{notify}
use original_os_with_rust.Xhci.Controller.{waiter_for_trb}
use original_os_with_rust.Xhci.Commands.{CommandSession, notify_xhc, await_command, send_command}
use native.Mathlib.Decide.{ℕ_discrete}

-- The waiter of a command at an address.
abbrev pub command_waiter : ℕ → Waiter
command_waiter ptr = record { alive = true; info = waiter_for_trb ptr }

live-last :
    (ws : List Waiter) (w : Waiter) → w.alive ≡ true → live (ws ++ (w ∷ [])) ≡ live ws ++ (w ∷ [])
unfolding live
live-last [] w e = rw e refl
live-last (v ∷ ws) w e = elim (Bool-cases v.alive) [
  | inl a ↦ rw (a, live-last ws w e) refl
  | inr a ↦ rw (a, live-last ws w e) refl
]

map-last :
    (f : Waiter → Waiter) (ws : List Waiter) (w : Waiter)
    → map f (ws ++ (w ∷ [])) ≡ map f ws ++ (f w ∷ [])
map-last f [] w = refl
map-last f (v ∷ ws) w = ap (λ l. f v ∷ l) (map-last f ws w)

matches-command :
    (ptr : ℕ) (e : GenericTrbEntry) → e.data ≡ ptr → matches (waiter_for_trb ptr) e ≡ true
unfolding matches waiter_for_trb
matches-command ptr e same = rw (≡→== e.data ptr same) refl

matches-other :
    (ptr : ℕ) (e : GenericTrbEntry) → e.data ≢ ptr → matches (waiter_for_trb ptr) e ≡ false
unfolding matches waiter_for_trb
matches-other ptr e other = rw (≢→== e.data ptr other) refl

-- What the future of a command has after one event.
abbrev pub Answered : ℕ → GenericTrbEntry → Waiter → Type 0
Answered ptr e w =
    ((e.data ≡ ptr) × ((poll_future w.info).1 ≡ some e))
    ⊎ ((e.data ≢ ptr) × ((poll_future w.info).1 ≡ none))

give-Answered : (ptr : ℕ) (e : GenericTrbEntry) → Answered ptr e (give e (command_waiter ptr))
unfolding give resolve poll_future waiter_for_trb
give-Answered ptr e = elim (ℕ_discrete e.data ptr) [
  | yes same ↦ inl (same, rw (matches-command ptr e same) refl)
  | no other ↦ inr (other, rw (matches-other ptr e other) refl)
]

-- The session after a command that was accepted at `ptr`.
abbrev pub sent : CommandSession → CommandRing → List ℕ → ℕ → CommandSession
sent s ring dbs ptr = record {
  doorbells = notify 0 0 ∷ dbs;
  event_ring = register_waiter s.event_ring (waiter_for_trb ptr);
  command_ring = ring;
}

await-sent :
    (s : CommandSession) (ring : CommandRing) (db : ℕ) (dbs : List ℕ) (ptr : ℕ)
    → s.doorbells ≡ db ∷ dbs
    → await_command s (ring, ok ptr) ≡ (sent s ring dbs ptr, ok ptr)
unfolding await_command notify_xhc
await-sent s ring db dbs ptr e = rw e refl

-- A poll that takes an event, with the waiter of a command behind the others.
poll-Answered :
    (c : EventRing) (old ptr : ℕ) (ws : List Waiter)
    → IsEventRing c old
    → c.wait_list ≡ ws ++ (command_waiter ptr ∷ [])
    → cycle_state (head c) ≡ c.cycle_state_ours
    → (c' : EventRing) × (w : Waiter) × (poll c ≡ (c', ok tt))
      × (c'.wait_list ≡ map (give (head c)) (live ws) ++ (w ∷ []))
      × Answered ptr (head c) w
poll-Answered c old ptr ws ring waits ours = (
  record (taken c old) { wait_list = map (give (head c)) (live c.wait_list) },
  give (head c) (command_waiter ptr),
  (poll_lem c old ring).0 ours,
  ap (λ l. map (give (head c)) (live l)) waits
      ∙ ap (map (give (head c))) (live-last ws (command_waiter ptr) refl)
      ∙ map-last (give (head c)) (live ws) (command_waiter ptr),
  give-Answered ptr (head c),
)

-- A command that is not a Link TRB, sent with a well-formed command ring and a doorbell: it stands in
-- the ring at the current index, doorbell 0 is rung, and the future waits for the address of that
-- slot, behind the other waiters. When the event ring, with these waiters, has an event at its
-- index, `poll` takes the event, and the future has it just when it carries that address; on an
-- event for another address the future goes on waiting.
pub send_command-Answered :
    (s : CommandSession) (cmd : GenericTrbEntry) (db : ℕ) (dbs : List ℕ) (c : EventRing) (old : ℕ)
    → IsRing s.command_ring
    → IsTrb cmd
    → trb_type cmd ≢ 6
    → s.doorbells ≡ db ∷ dbs
    → IsEventRing c old
    → let ptr = s.command_ring.ring.phys_addr + s.command_ring.ring.current_index * 16 in
      c.wait_list ≡ s.event_ring.wait_list ++ (command_waiter ptr ∷ [])
      → cycle_state (head c) ≡ c.cycle_state_ours
      → (ring : CommandRing) × (c' : EventRing) × (w : Waiter) × (send_command s cmd
          ≡ (sent s ring dbs ptr, ok ptr))
        × ((sent s ring dbs ptr).event_ring.wait_list ≡ c.wait_list)
        × IsRing ring
        × Pushed s.command_ring ring cmd
        × (poll c ≡ (c', ok tt))
        × (c'.wait_list ≡ map (give (head c)) (live s.event_ring.wait_list) ++ (w ∷ []))
        × Answered ptr (head c) w
unfolding send_command register_waiter
send_command-Answered s cmd db dbs c old v word kind bells ring_c waits ours =
    let ptr = s.command_ring.ring.phys_addr + s.command_ring.ring.current_index * 16 in
    let (ring, accepted, well, pushed) = push-Pushed s.command_ring cmd v word kind in
    let (c', w, polled, list, answered) =
      poll-Answered c old ptr s.event_ring.wait_list ring_c waits ours in
    (
      ring,
      c',
      w,
      ap (await_command s) accepted ∙ await-sent s ring db dbs ptr bells,
      sym waits,
      well,
      pushed,
      polled,
      list,
      answered,
    )
