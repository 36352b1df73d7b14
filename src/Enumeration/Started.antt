-- ===== src/Enumeration/Started.antt =====
-- xhci.rs: the accesses of `Controller::new`, as steps of the start of the controller.
use original_os_with_rust.Prelude.{
  ℕ, zero, suc, ◌≡◌, inl, inr, refl, sym, subst, bit_and, bit_or, not, Bool, false, Bool-cases,
  some, ok, [],
}
use original_os_with_rust.Words.Ops.{not_word}
use original_os_with_rust.Xhci.Ring.{CommandRing, default_command_ring}
use original_os_with_rust.Xhci.Ring.Inv.{IsRing}
use original_os_with_rust.Xhci.Ring.Default.{default-IsRing}
use original_os_with_rust.Xhci.Event.{EventRing}
use original_os_with_rust.Xhci.Regs.{init_irs, num_of_device_slots}
use original_os_with_rust.Xhci.Scratchpad.{ScratchpadBuffers, alloc_scratchpad}
use original_os_with_rust.Enumeration.{
  Io, Register, Call, Reply, Device, trace, result, pure, send, ◌>>=◌, ◌>>◌, read_register,
  write_register, usbcmd, usbsts, config, dcbaap, crcr, erst_size, erst_base, erdp, management,
}
use original_os_with_rust.Enumeration.Machine.{
  Steps, Leads, Ends, trace-Ends, bind-Leads, done-Leads,
}
use original_os_with_rust.Enumeration.Start.{
  Areas, NewController, new_device_contexts, new_segment, new_event_ring, modify, wait_register,
  is_clear, reset_xhc, start_xhc, init_primary_event_ring, init_slots_and_contexts, new_controller,
}

-- Before a call, with the value that was last read where the next call writes it back.
pub data StartPhase : Type 0 where
  fresh stopping halted in_reset waiting started : StartPhase
  clearing resetting slots starting : (value : ℕ) → StartPhase
  given : (registers : ℕ) → StartPhase

-- The accesses in their order. The controller is reset after it has halted; the segment table, the
-- number of slots, the contexts and the command ring follow the end of the reset; it runs last.
pub data StartStep (a : Areas) : StartPhase → (c : Call) → Reply c → StartPhase → Type 0 where
  see_running : {v : ℕ} → StartStep a fresh (read_register usbcmd) v (clearing v)
  clear_running :
      {v : ℕ}
      → StartStep a (clearing v) (write_register usbcmd (bit_and v (not_word 32 1))) tt stopping
  still_running : {v : ℕ} → StartStep a stopping (read_register usbsts) v stopping
  halt : {v : ℕ} → is_clear 1 v ≡ false → StartStep a stopping (read_register usbsts) v halted
  see_reset : {v : ℕ} → StartStep a halted (read_register usbcmd) v (resetting v)
  set_reset : {v : ℕ} → StartStep a (resetting v) (write_register usbcmd (bit_or v 2)) tt in_reset
  still_reset : {v : ℕ} → StartStep a in_reset (read_register usbcmd) v in_reset
  end_reset :
      {v : ℕ} → not (is_clear 2 v) ≡ false → StartStep a in_reset (read_register usbcmd) v (given 0)
  give_size : StartStep a (given 0) (write_register erst_size 1) tt (given 1)
  give_dequeue : StartStep a (given 1) (write_register erdp a.event_ring) tt (given 2)
  give_table : StartStep a (given 2) (write_register erst_base a.erst) tt (given 3)
  give_management : StartStep a (given 3) (write_register management 0) tt (given 4)
  see_slots : {v : ℕ} → StartStep a (given 4) (read_register config) v (slots v)
  give_slots :
      {v : ℕ}
      → StartStep a
          (slots v)
          (write_register config
            (bit_or (bit_and v (not_word 64 0xff)) (num_of_device_slots a.cap_regs)))
          tt
          (given 5)
  give_contexts : StartStep a (given 5) (write_register dcbaap a.dcbaa) tt (given 6)
  give_commands : StartStep a (given 6) (write_register crcr (bit_or a.command_ring 1)) tt (given 7)
  see_stopped : {v : ℕ} → StartStep a (given 7) (read_register usbcmd) v (starting v)
  set_running : {v : ℕ} → StartStep a (starting v) (write_register usbcmd (bit_or v 1)) tt waiting
  still_stopped : {v : ℕ} → StartStep a waiting (read_register usbsts) v waiting
  start :
      {v : ℕ} → not (is_clear 1 v) ≡ false → StartStep a waiting (read_register usbsts) v started

module _ (a : Areas) where
  abbrev At : StartPhase → {A : Type 0} → StartPhase → A → Type 0
  At q p x = p ≡ q

  from_here :
      {A B : Type 0} (q : StartPhase) (R : StartPhase → B → Type 0) (next : A → Io B)
      → ((x : A) → Leads (StartStep a) R q (next x))
      → (p : StartPhase) (x : A) → At q p x
      → Leads (StartStep a) R p (next x)
  from_here q R next h p x e = subst (λ q'. Leads (StartStep a) R q' (next x)) (sym e) (h x)

  wait-Leads :
      (r : Register) (busy : ℕ → Bool) (q q' : StartPhase)
      → ((v : ℕ) → StartStep a q (read_register r) v q)
      → ((v : ℕ) → busy v ≡ false → StartStep a q (read_register r) v q')
      → (n : ℕ) → Leads (StartStep a) (At q') q (wait_register n r busy)
  unfolding wait_register ◌>>=◌
  wait-Leads r busy q q' again leave zero = tt
  wait-Leads r busy q q' again leave (suc n) = λ v.
      let rest = wait-Leads r busy q q' again leave n in
      elim (Bool-cases (busy v)) [
        | inl e ↦ (q, again v, rw e rest)
        | inr e ↦ (q', leave v e, rw e refl)
      ]

  modify-Leads :
      (r : Register) (f : ℕ → ℕ) (q q' : StartPhase) (seen : ℕ → StartPhase)
      → ((v : ℕ) → StartStep a q (read_register r) v (seen v))
      → ((v : ℕ) → StartStep a (seen v) (write_register r (f v)) tt q')
      → Leads (StartStep a) (At q') q (modify r f)
  unfolding modify ◌>>=◌
  modify-Leads r f q q' seen look store = λ v. (seen v, look v, λ u. (q', store v, refl))

  -- One part of the start, and the next one from the phase that it ends in.
  after :
      {A B : Type 0} (q q' : StartPhase) (R : StartPhase → B → Type 0) (io : Io A) (next : A → Io B)
      → Leads (StartStep a) (At q') q io
      → ((x : A) → Leads (StartStep a) R q' (next x))
      → Leads (StartStep a) R q (io >>= next)
  after q q' R io next h k = bind-Leads (StartStep a) (At q') R q io next h (from_here q' R next k)

  reset_xhc-Leads : (n : ℕ) → Leads (StartStep a) (At (given 0)) fresh (reset_xhc n)
  unfolding reset_xhc
  reset_xhc-Leads n =
      after fresh stopping _ _ _
        (modify-Leads usbcmd _ fresh stopping clearing (λ v. see_running) (λ v. clear_running))
        λ _.
          after stopping halted _ _ _
            (wait-Leads usbsts (is_clear 1) stopping halted (λ v. still_running) (λ v e. halt e) n)
            λ _.
              after halted in_reset _ _ _
                (modify-Leads usbcmd _ halted in_reset resetting (λ v. see_reset) (λ v. set_reset))
                λ _.
                  wait-Leads usbcmd _ in_reset (given 0) (λ v. still_reset) (λ v e. end_reset e) n

  start_xhc-Leads : (n : ℕ) → Leads (StartStep a) (At started) (given 7) (start_xhc n)
  unfolding start_xhc
  start_xhc-Leads n =
      after (given 7) waiting _ _ _
        (modify-Leads usbcmd _ (given 7) waiting starting (λ v. see_stopped) (λ v. set_running))
        λ _. wait-Leads usbsts _ waiting started (λ v. still_stopped) (λ v e. start e) n

  -- The event ring that is given has its dequeue pointer set.
  abbrev Given : StartPhase → EventRing → Type 0
  Given p ring =
      (p ≡ given 4) × (ring ≡ record (new_event_ring a.event_ring) { erdp = some a.event_ring })

  events-Leads :
      Leads (StartStep a) Given (given 0) (init_primary_event_ring a (new_event_ring a.event_ring))
  unfolding init_primary_event_ring init_irs ◌>>=◌
  events-Leads = λ u. (
    given 1,
    give_size,
    λ u1. (
      given 2,
      give_dequeue,
      λ u2. (given 3, give_table, λ u3. (given 4, give_management, (refl, refl))),
    ),
  )

  slots-Leads : Leads (StartStep a) (At (given 6)) (given 4) (init_slots_and_contexts a)
  unfolding init_slots_and_contexts
  slots-Leads =
      after (given 4) (given 5) _ _ _
        (modify-Leads config _ (given 4) (given 5) slots (λ v. see_slots) (λ v. give_slots))
        λ _. λ u. (given 6, give_contexts, refl)

  -- A controller that runs, with the scratchpad buffers where it looks for them, a well-formed command
  -- ring, and an empty event ring of 16 TRBs in its segment table.
  abbrev pub IsStarted : StartPhase → NewController → Type 0
  IsStarted p c =
      (p ≡ started)
      × (alloc_scratchpad a.scratchpad a.cap_regs a.op_regs ≡ ok c.scratchpad_buffers)
      × (c.device_context_base_array.scratchpad_table_ptr ≡ c.scratchpad_buffers.table)
      × (c.event_ring_segment.ring_segment_base_address ≡ a.event_ring)
      × (c.event_ring_segment.ring_segment_size ≡ 16)
      × IsRing c.command_ring
      × (c.primary_event_ring ≡ record (new_event_ring a.event_ring) { erdp = some a.event_ring })

  -- What follows the event ring.
  abbrev last_part : ScratchpadBuffers → CommandRing → EventRing → Io NewController
  last_part buffers commands events = do
    init_slots_and_contexts a
    send (write_register crcr (bit_or a.command_ring 1))
    start_xhc a.rounds
    pure (record {
      scratchpad_buffers = buffers;
      device_context_base_array = new_device_contexts buffers;
      event_ring_segment = new_segment a.event_ring;
      primary_event_ring = events;
      command_ring = commands;
    })

  command_ring-IsRing : (c : CommandRing) → default_command_ring a.command_ring ≡ ok c → IsRing c
  command_ring-IsRing c e =
      let (c', made, well, place) = default-IsRing a.command_ring in
      let same : c' ≡ c = cc in subst IsRing same well

  last-Leads :
      (buffers : ScratchpadBuffers) (commands : CommandRing) (events : EventRing)
      → alloc_scratchpad a.scratchpad a.cap_regs a.op_regs ≡ ok buffers
      → default_command_ring a.command_ring ≡ ok commands
      → events ≡ record (new_event_ring a.event_ring) { erdp = some a.event_ring }
      → Leads (StartStep a) IsStarted (given 4) (last_part buffers commands events)
  unfolding new_device_contexts new_segment
  last-Leads buffers commands events made ring same =
      after (given 4) (given 6) IsStarted _ _ slots-Leads λ _.
        after (given 6) (given 7) IsStarted (send (write_register crcr (bit_or a.command_ring 1))) _
          (λ u. (given 7, give_commands, refl))
          λ _.
            after (given 7) started IsStarted _ _ (start_xhc-Leads a.rounds)
              λ _. (refl, made, refl, refl, refl, command_ring-IsRing commands ring, same)

  new_controller-Leads : Leads (StartStep a) IsStarted fresh (new_controller a)
  unfolding new_controller
  new_controller-Leads = after fresh (given 0) _ _ _ (reset_xhc-Leads a.rounds) λ _.
      done-Leads (StartStep a) IsStarted (given 0) _ _ λ buffers made.
        done-Leads (StartStep a) IsStarted (given 0) (default_command_ring a.command_ring) _
          λ commands ring.
            bind-Leads (StartStep a) Given IsStarted (given 0) _ _ events-Leads λ p events given_it.
              subst (λ q. Leads (StartStep a) IsStarted q (last_part buffers commands events))
                (sym given_it.0) (last-Leads buffers commands events made ring given_it.1)

-- Whatever the registers read, the accesses of `Controller::new` are steps of the start: the controller is
-- reset only after it has halted, its event ring, its slots, its contexts and its command ring are given
-- to it after the reset has ended and before the run bit is set. The run does not
-- end within the rounds that it is followed for, ends with an error, or returns when the controller has
-- left the halted state, with the table of the scratchpad buffers in the array of contexts, a well-formed
-- command ring, and an event ring of 16 TRBs that stands in its segment table and has its dequeue pointer.
pub new_controller-Started :
    (a : Areas) (d : Device)
    → (p : StartPhase) × Steps (StartStep a) fresh (trace d [] (new_controller a)) p
      × Ends (StartStep a) (IsStarted a) p (result d [] (new_controller a))
new_controller-Started a d =
    trace-Ends (StartStep a) (IsStarted a) d [] fresh (new_controller a) (new_controller-Leads a)
