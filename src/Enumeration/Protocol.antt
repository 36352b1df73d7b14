-- ===== src/Enumeration/Protocol.antt =====
-- xhci.rs: the calls of `run` up to the slot, as steps of the state machine.
use original_os_with_rust.Prelude.{
  ℕ, zero, suc, ◌≡◌, ◌⊎◌, inl, inr, refl, arith, sym, subst, Bool, true, false, not, Bool-cases,
  bad_port, port_not_enabled, ensure, ok_or, Option, none, some, ok, err,
}
use original_os_with_rust.Xhci.Trb.{GenericTrbEntry, cmd_enable_slot, slot_id}
use original_os_with_rust.Xhci.Port.{pp, pr, ped, ccs, get_port}
use original_os_with_rust.Enumeration.{Io, done, pure, send_command, ◌>>=◌, command}
use original_os_with_rust.Enumeration.Port.{
  assert_port_bit, wait_while, reset_port, is_port_enabled, scan_ports,
}
use original_os_with_rust.Enumeration.Attach.{Setting, init_port}
use original_os_with_rust.Enumeration.Machine.{Leads, bind-Leads, done-Leads}
use original_os_with_rust.Enumeration.Order.{
  Phase, scanning, chosen, resetting, powering, powered, under_reset, refused, tested, enabled,
  test, Step, scan, see, choose, power, await_power, get_power, prepare, reset, await_reset,
  end_reset, refuse, pass, enable, fail,
}

module _ (s : Setting) where
  pub scan_ports-Leads :
      (n port : ℕ) (found : Option ℕ)
      → Leads (Step s) (λ p a. p ≡ scanning a) (scanning found) (scan_ports n port found)
  unfolding scan_ports ◌>>=◌
  scan_ports-Leads zero port found = refl
  scan_ports-Leads (suc n) port found = λ shown. (
    scanning found,
    scan,
    λ value. elim (Bool-cases (ccs value)) [
      | inl e ↦ (scanning (some port), see e, rw e (scan_ports-Leads n (suc port) (some port)))
      | inr e ↦ (scanning found, scan, rw e (scan_ports-Leads n (suc port) found))
    ],
  )

  module _ (port : ℕ) where
    abbrev AtPhase : Phase → Phase → Unit {0} → Type 0
    AtPhase q p u = p ≡ q

    power_bit-Leads :
        Leads (Step s) (AtPhase (powering port)) (scanning (some port)) (assert_port_bit port 9)
    unfolding assert_port_bit ◌>>=◌
    power_bit-Leads = λ old. (chosen port old, choose, λ u. (powering port, power, refl))

    reset_bit-Leads :
        Leads (Step s) (AtPhase (under_reset port)) (powered port) (assert_port_bit port 4)
    unfolding assert_port_bit ◌>>=◌
    reset_bit-Leads = λ old. (resetting port old, prepare, λ u. (under_reset port, reset, refl))

    wait_power-Leads :
        (n : ℕ)
        → Leads
            (Step s)
            (AtPhase (powered port))
            (powering port)
            (wait_while n port (λ value. not (pp value)))
    unfolding wait_while ◌>>=◌
    wait_power-Leads zero = tt
    wait_power-Leads (suc n) = λ value.
        let rest = wait_power-Leads n in
        elim (Bool-cases (pp value)) [
          | inl e ↦ (powered port, get_power e, rw e refl)
          | inr e ↦ (powering port, await_power e, rw e rest)
        ]

    wait_reset-Leads :
        (n : ℕ) → Leads (Step s) (AtPhase (tested 0 port)) (under_reset port) (wait_while n port pr)
    unfolding wait_while ◌>>=◌
    wait_reset-Leads zero = tt
    wait_reset-Leads (suc n) = λ value.
        let rest = wait_reset-Leads n in
        elim (Bool-cases (pr value)) [
          | inl e ↦ (under_reset port, await_reset e, rw e rest)
          | inr e ↦ (tested 0 port, end_reset e, rw e refl)
        ]

    then_from :
        {B : Type 0} (R : Phase → B → Type 0) (q p0 : Phase) (io : Io (Unit {0}))
        (next : Unit {0} → Io B)
        → Leads (Step s) (AtPhase q) p0 io
        → ((u : Unit {0}) → Leads (Step s) R q (next u))
        → Leads (Step s) R p0 (io >>= next)
    then_from R q p0 io next first h =
        bind-Leads (Step s) (AtPhase q) R p0 io next first
          λ p u e. subst (λ x. Leads (Step s) R x (next u)) (sym e) (h u)

    reset_port-Leads :
        (n : ℕ)
        → Leads (Step s) (AtPhase (tested 0 port)) (scanning (some port)) (reset_port n port)
    unfolding reset_port
    reset_port-Leads n =
        let Done = AtPhase (tested 0 port) in
        then_from Done (powering port) (scanning (some port)) _ _ power_bit-Leads λ _.
          then_from Done (powered port) (powering port) _ _ (wait_power-Leads n) λ _.
            then_from Done (under_reset port) (powered port) _ _ reset_bit-Leads
              λ _. wait_reset-Leads n

    -- The tests have passed, or the answer is false.
    abbrev Tested : Phase → Bool → Type 0
    Tested p b = (b ≡ false) ⊎ (p ≡ tested 4 port)

    is_port_enabled-Leads : Leads (Step s) Tested (tested 0 port) (is_port_enabled port)
    unfolding is_port_enabled ◌>>=◌ test
    is_port_enabled-Leads = λ v1. elim (Bool-cases (pp v1)) [
      | inr e ↦ (refused port, refuse e, rw e (inl refl))
      | inl e1 ↦ (
        tested 1 port,
        pass e1,
        rw e1 (λ v2. elim (Bool-cases (ccs v2)) [
          | inr e ↦ (refused port, refuse e, rw e (inl refl))
          | inl e2 ↦ (
            tested 2 port,
            pass e2,
            rw e2 (λ v3. elim (Bool-cases (ped v3)) [
              | inr e ↦ (refused port, refuse e, rw e (inl refl))
              | inl e3 ↦ (
                tested 3 port,
                pass e3,
                rw e3 (λ v4. elim (Bool-cases (not (pr v4))) [
                  | inr e ↦ (refused port, refuse e, inl e)
                  | inl e4 ↦ (tested 4 port, pass e4, inr refl)
                ]),
              )
            ]),
          )
        ]),
      )
    ]

    ensure-ok : (b : Bool) (u : Unit {0}) → ensure b port_not_enabled ≡ ok u → b ≡ true
    ensure-ok true u h = refl
    ensure-ok false u h = ground arith

    passed : (p : Phase) (b : Bool) → b ≡ true → Tested p b → p ≡ tested 4 port
    passed p b e (inl failed) = ground arith
    passed p b e (inr done4) = done4

    abbrev pub Enabled : Phase → ℕ → Type 0
    Enabled p slot = p ≡ enabled port slot

    slot_answer :
        (trb : GenericTrbEntry)
        → cmd_enable_slot ≡ ok trb
        → Leads (Step s) Enabled (tested 4 port) (send_command trb none >>= λ e. pure (slot_id e))
    unfolding ◌>>=◌
    slot_answer trb made = λ reply.
        elim reply
          as (λ r.
            (p' : Phase) × Step s (tested 4 port) (command trb none) r p'
            × Leads (Step s) Enabled p' (done r >>= λ e. pure (slot_id e))) [
              | ok e ↦ (enabled port (slot_id e), enable made, refl)
              | err x ↦ (tested 4 port, fail tt (refl, made), tt)
            ]

    pub init_port-Leads : Leads (Step s) Enabled (scanning (some port)) (init_port s port)
    unfolding init_port
    init_port-Leads =
        done-Leads (Step s) Enabled (scanning (some port)) (ok_or (get_port s.ports port) bad_port)
          _
          λ portsc e0.
            then_from Enabled (tested 0 port) (scanning (some port)) _ _ (reset_port-Leads s.rounds)
              λ _.
                bind-Leads (Step s) Tested Enabled (tested 0 port) _ _ is_port_enabled-Leads
                  λ p b tests. done-Leads (Step s) Enabled p (ensure b port_not_enabled) _ λ u e.
                    done-Leads (Step s) Enabled p cmd_enable_slot _ λ trb made.
                      subst
                        (λ q.
                          Leads (Step s) Enabled q
                            (send_command trb none >>= λ e'. pure (slot_id e')))
                        (sym (passed p b (ensure-ok b u e) tests)) (slot_answer trb made)
