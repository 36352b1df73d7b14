-- ===== src/Xhci/Controller/Requests.antt =====
-- What a control request leaves in the endpoint's ring, the doorbells and the list of waiters.
use original_os_with_rust.Prelude.{
  ℕ, zero, suc, ◌+◌, ◌*◌, ◌%◌, ◌<◌, ◌≡◌, ◌≢◌, ◌⊎◌, inl, inr, refl, arith, ap, ap₂, sym, ◌∙◌,
}
use original_os_with_rust.Prelude.{ok, List, [], ◌∷◌, length, get_elem?, set, some}
use original_os_with_rust.Prelude.{not, subst}
use original_os_with_rust.Volatile.{read_bits}
use original_os_with_rust.Xhci.Trb.{GenericTrbEntry, SetupStageTrb, from_setup, trb_type, code}
use original_os_with_rust.Xhci.Trb.{status_stage_out}
use original_os_with_rust.Xhci.Trb.Fields.{IsTrb}
use original_os_with_rust.Xhci.Ring.{CommandRing}
use original_os_with_rust.Xhci.Ring.Inv.{IsRing, at}
use original_os_with_rust.Xhci.Ring.Command.{Pushed, push-Pushed}
use original_os_with_rust.Xhci.Event.{register_waiter}
use original_os_with_rust.Xhci.Port.{notify_ep, notify}
use original_os_with_rust.Xhci.Controller.{
  Session, submit_in, wait_for, waiter_for_trb, with_pushed, push_then,
}

-- A TRB that may be pushed.
pub record IsStage (t : GenericTrbEntry) : Type 0 where
  pub word : IsTrb t
  pub kind : trb_type t ≢ 6

abbrev pub next_index : CommandRing → ℕ
next_index c = suc c.ring.current_index % 15

next_lem :
    (c c' : CommandRing) (t : GenericTrbEntry)
    → IsRing c
    → Pushed c c' t
    → c'.ring.current_index ≡ next_index c
next_lem c c' t ring pushed = next pushed.next
  where
    next :
        ((c.ring.current_index < 14)
            × (c'.ring.current_index ≡ suc c.ring.current_index)
            × (c'.cycle_state_ours ≡ c.cycle_state_ours))
          ⊎ ((c.ring.current_index ≡ 14)
              × (c'.ring.current_index ≡ 0)
              × (c'.cycle_state_ours ≡ not c.cycle_state_ours))
        → c'.ring.current_index ≡ suc c.ring.current_index % 15
    next (inl (small, e, _)) = omega arith
    next (inr (full, e, _)) = omega arith

slot_ok :
    (doorbells : List ℕ) (slot : ℕ)
    → slot < length doorbells
    → (db : ℕ) × (get_elem? doorbells slot ≡ some db)
slot_ok [] slot h = absurd (omega arith)
slot_ok (d ∷ ds) zero h = (d, refl)
slot_ok (d ∷ ds) (suc slot) h = slot_ok ds slot (omega arith)

notify_lem :
    (doorbells : List ℕ) (slot : ℕ)
    → slot < length doorbells
    → notify_ep doorbells slot 1 ≡ ok (set doorbells slot 1)
unfolding notify_ep notify
notify_lem doorbells slot h = let (db, e) = slot_ok doorbells slot h in rw (notify_ep, e) refl

wait_lem :
    (s : Session) (slot ptr : ℕ)
    → slot < length s.doorbells
    → wait_for s slot ptr ≡ (
      record s {
        doorbells = set s.doorbells slot 1;
        event_ring = register_waiter s.event_ring (waiter_for_trb ptr);
      },
      ok ptr,
    )
unfolding wait_for
wait_lem s slot ptr h = rw (wait_for, notify_lem s.doorbells slot h) refl

-- The three TRBs of a request in the ring, from the index `i` on, round the 15 slots of commands.
pub record Queued (c' : CommandRing) (i : ℕ) (setup data_stage status : GenericTrbEntry)
    : Type 0 where
  pub setup_data : (at c'.ring i).data ≡ setup.data
  pub setup_kind : trb_type (at c'.ring i) ≡ trb_type setup
  pub buffer : (at c'.ring (suc i % 15)).data ≡ data_stage.data
  pub buffer_length : (at c'.ring (suc i % 15)).option ≡ data_stage.option
  pub buffer_kind : trb_type (at c'.ring (suc i % 15)) ≡ trb_type data_stage
  pub status_kind : trb_type (at c'.ring (suc (suc i) % 15)) ≡ trb_type status

module _ (c c1 c2 c3 : CommandRing) (t1 t2 t3 : GenericTrbEntry) (r : IsRing c) (r1 : IsRing c1)
    (r2 : IsRing c2) (q1 : Pushed c c1 t1) (q2 : Pushed c1 c2 t2) (q3 : Pushed c2 c3 t3) where
  first : c1.ring.current_index ≡ suc c.ring.current_index % 15
  first = next_lem c c1 t1 r q1

  second : c2.ring.current_index ≡ suc (suc c.ring.current_index) % 15
  second = omega (arith, next_lem c1 c2 t2 r1 q2, first, r.in_range)

  keep1 : at c3.ring c.ring.current_index ≡ at c1.ring c.ring.current_index
  keep1 =
      q3.kept c.ring.current_index (omega (arith, r.in_range))
        (λ e. absurd (omega (arith, second, r.in_range)))
      ∙ q2.kept c.ring.current_index (omega (arith, r.in_range))
          (λ e. absurd (omega (arith, first, r.in_range)))

  keep2 : at c3.ring c1.ring.current_index ≡ at c2.ring c1.ring.current_index
  keep2 =
      q3.kept c1.ring.current_index (omega (arith, r1.in_range))
        (λ e. absurd (omega (arith, first, second, r.in_range)))

  pushed-Queued : Queued c3 c.ring.current_index t1 t2 t3
  pushed-Queued = record {
    setup_data = ap (λ t. t.data) keep1 ∙ q1.data;
    setup_kind = ap trb_type keep1 ∙ q1.kind;
    buffer = ap (λ k. (at c3.ring k).data) (sym first) ∙ ap (λ t. t.data) keep2 ∙ q2.data;
    buffer_length =
        ap (λ k. (at c3.ring k).option) (sym first) ∙ ap (λ t. t.option) keep2 ∙ q2.option;
    buffer_kind = ap (λ k. trb_type (at c3.ring k)) (sym first) ∙ ap trb_type keep2 ∙ q2.kind;
    status_kind = ap (λ k. trb_type (at c3.ring k)) (sym second) ∙ q3.kind;
  }

-- What a request does to the session: the ring is well formed and has the three TRBs, the slot's
-- doorbell has the control endpoint's number, and a waiter for the data stage's address is registered.
pub record Requested (s s' : Session) (slot ptr : ℕ) (setup data_stage status : GenericTrbEntry)
    : Type 0 where
  pub ring : IsRing s'.ctrl_ep_ring
  pub queued : Queued s'.ctrl_ep_ring s.ctrl_ep_ring.ring.current_index setup data_stage status
  pub rung : s'.doorbells ≡ set s.doorbells slot 1
  pub waits : s'.event_ring ≡ register_waiter s.event_ring (waiter_for_trb ptr)

status_out-IsStage : IsStage status_stage_out
unfolding status_stage_out code trb_type read_bits
status_out-IsStage = record { word = omega arith; kind = λ e. absurd (omega arith) }

-- On a well-formed ring and a slot that has a doorbell, a request that reads goes through.
pub submit_in-Requested :
    (s : Session) (slot : ℕ) (setup : SetupStageTrb) (data_stage : GenericTrbEntry)
    → IsRing s.ctrl_ep_ring
    → slot < length s.doorbells
    → IsStage (from_setup setup)
    → IsStage data_stage
    → (s' : Session) × (submit_in s slot setup data_stage
        ≡ (s', ok (s.ctrl_ep_ring.ring.phys_addr + next_index s.ctrl_ep_ring * 16)))
      × Requested s s' slot
          (s.ctrl_ep_ring.ring.phys_addr + next_index s.ctrl_ep_ring * 16)
          (from_setup setup)
          data_stage
          status_stage_out
unfolding submit_in
submit_in-Requested s slot setup data_stage ring h g1 g2 =
    let c = s.ctrl_ep_ring in
    let t1 = from_setup setup in
    let (c1, e1, r1, q1) = push-Pushed c t1 ring g1.word g1.kind in
    let (c2, e2, r2, q2) = push-Pushed c1 data_stage r1 g2.word g2.kind in
    let (c3, e3, r3, q3) =
      push-Pushed c2 status_stage_out r2 status_out-IsStage.word status_out-IsStage.kind in
    let ptr = c1.ring.phys_addr + c1.ring.current_index * 16 in
    let e : ptr ≡ c.ring.phys_addr + next_index c * 16 =
      ap₂ (λ a b. a + b * 16) q1.place (next_lem c c1 t1 ring q1) in
    subst
      (λ p.
        (s' : Session) × (submit_in s slot setup data_stage ≡ (s', ok p))
        × Requested s s' slot p t1 data_stage status_stage_out)
      e
      (
        record s {
          ctrl_ep_ring = c3;
          doorbells = set s.doorbells slot 1;
          event_ring = register_waiter s.event_ring (waiter_for_trb ptr);
        },
        ap
              (λ p. with_pushed s p (λ s1 _. push_then s1 data_stage (λ s2 trb_ptr_waiting.
                push_then s2 status_stage_out (λ s3 _. wait_for s3 slot trb_ptr_waiting))))
              e1
            ∙ ap
                (λ p.
                  with_pushed (record s { ctrl_ep_ring = c1 }) p
                    (λ s2 trb_ptr_waiting.
                      push_then s2 status_stage_out (λ s3 _. wait_for s3 slot trb_ptr_waiting)))
                e2
            ∙ ap
                (λ p. with_pushed (record s { ctrl_ep_ring = c2 }) p (λ s3 _. wait_for s3 slot ptr))
                e3
            ∙ wait_lem (record s { ctrl_ep_ring = c3 }) slot ptr h,
        record {
          ring = r3;
          queued = pushed-Queued c c1 c2 c3 t1 data_stage status_stage_out ring r1 r2 q1 q2 q3;
          rung = refl;
          waits = refl;
        },
      )
