-- ===== src/Executor/Liveness.antt =====
-- executor.rs: how a task in the queue becomes ready.
use original_os_with_rust.Prelude.{
  ℕ, zero, suc, ◌≡◌, Option, some, ◌⊎◌, inl, inr, refl, sym, ◌∙◌, subst, List, [], ◌∷◌, ◌++◌,
  Result, ok, length,
}
use original_os_with_rust.Executor.{
  Poll, ready, pending, Task, Polled, Event, idle, completed, waiting, Machine, run, again,
  block_on,
}
use original_os_with_rust.Executor.Queue.{machine_at, event, event_of, added, kept}
use original_os_with_rust.Executor.Round.{Runs, Runs-append, run-Runs, serve, serve-Runs}
use mathlib.Core.List.{Memᴰ, append-nil}
use mathlib.Core.List.Memᴰ as M

-- Two states of one task.
abbrev pub SameTask : {F : Type 0} → Task F → Task F → Type 0
SameTask t u = (t.created_at_file ≡ u.created_at_file) × (t.created_at_line ≡ u.created_at_line)

-- An event that tells of the task's end.
abbrev pub Completes : {F : Type 0} → Task F → Event F → Type 0
Completes t idle = ⊥
Completes t (completed u r) = SameTask t u
Completes t (waiting u) = ⊥

abbrev pub Goes : {T : Type 0} → Type 0 → Poll T → Type 0
Goes A (ready r) = Unit
Goes A pending = A

module _ {F W T : Type 0} (poll : F → W → Polled F W T) where
  -- A future that is ready after at most so many polls, whatever the machine does between them.
  abbrev pub FinishesIn : ℕ → F → Type 0
  FinishesIn zero f = ⊥
  FinishesIn (suc k) f = (w : W) → Goes (FinishesIn k (poll f w).future) (poll f w).result

  Ends : Option (W × Result T) → Type 0
  Ends o = (w' : W) × (r : Result T) × (o ≡ some (w', r))

  after_poll :
      {A : Type 0} (w' : W) (rest : Option (W × Result T)) (r : Poll (Result T))
      → Goes A r
      → (A → Ends rest)
      → Ends (elim r [ ready x ↦ some (w', x) | pending ↦ rest ])
  unfolding Ends
  after_poll w' rest (ready x) goes next = (w', x, refl)
  after_poll w' rest pending goes next = next goes

  -- `block_on` returns when the future is ready after some number of polls, whatever the machine
  -- does between them: as many iterations of its loop are enough.
  pub block_on-ends :
      (k : ℕ) (f : F) (w : W)
      → FinishesIn k f
      → (w' : W) × (r : Result T) × (block_on poll k f w ≡ some (w', r))
  unfolding block_on Ends
  block_on-ends zero f w fin = absurd fin
  block_on-ends (suc k) f w fin =
      after_poll (poll f w).world (block_on poll k (poll f w).future (poll f w).world)
        (poll f w).result (fin w) (block_on-ends k (poll f w).future (poll f w).world)

module _ {F W : Type 0} (poll : F → W → Polled F W (Unit {0})) where
  abbrev Progress : ℕ → Task F → List (Event F) → List (Task F) → Type 0
  Progress k t events queue =
      ((e : Event F) × Memᴰ e events × Completes t e)
      ⊎ ((u : Task F) × Memᴰ u queue × SameTask t u × FinishesIn poll k u.future)

  same_trans : (t u v : Task F) → SameTask t u → SameTask u v → SameTask t v
  same_trans t u v (a, b) (c, d) = (a ∙ c, b ∙ d)

  -- What a poll makes of the task that is polled.
  polled-Progress :
      (k : ℕ) (t : Task F) (w : W) (r : Poll (Result (Unit {0})))
      → Goes (FinishesIn poll k (poll t.future w).future) r
      → Progress k t (event_of poll t w r ∷ []) (kept poll t w r)
  unfolding again
  polled-Progress k t w (ready res) goes =
      inl (event_of poll t w (ready res), M.head refl, (refl, refl))
  polled-Progress k t w pending goes =
      inr (again poll t (poll t.future w), M.head refl, (refl, refl), goes)

  -- What a round makes of a task in the queue.
  serve-Progress :
      (k : ℕ) (t : Task F) (ts : List (Task F)) (w : W)
      → Memᴰ t ts
      → FinishesIn poll (suc k) t.future
      → Progress k t (serve poll ts w).2 (serve poll ts w).0
  unfolding serve event added
  serve-Progress k t [] w m fin = absurd (M.not-nil m)
  serve-Progress k t (x ∷ ts) w m fin = elim (M.cases_cons m) [
    | inl e ↦
        elim (polled-Progress k x w (poll x.future w).result
          (subst (λ u. FinishesIn poll (suc k) u.future) e fin w)) [
            | inl (ev, at, done) ↦ inl (
              ev,
              M.append_left (serve poll ts (poll x.future w).world).2 at,
              subst (λ u. Completes u ev) (sym e) done,
            )
            | inr (u, at, same, left) ↦ inr (
              u,
              M.append_left (serve poll ts (poll x.future w).world).0
                  (M.append_right (poll x.future w).spawned at),
              subst (λ v. SameTask v u) (sym e) same,
              left,
            )
          ]
    | inr later ↦ elim (serve-Progress k t ts (poll x.future w).world later fin) [
      | inl (ev, at, done) ↦ inl (ev, M.tail at, done)
      | inr (u, at, same, left) ↦ inr (u, M.append_right (added poll x w) at, same, left)
    ]
  ]

  Completes-same : (t u : Task F) (e : Event F) → SameTask t u → Completes u e → Completes t e
  Completes-same t u idle same done = absurd done
  Completes-same t u (waiting v) same done = absurd done
  Completes-same t u (completed v r) same done = same_trans t u v same done

  -- The run of rounds in which a task is completed.
  abbrev Completed : Machine F W → Task F → Type 0
  Completed m t =
      (events : List (Event F)) × (q' : List (Task F)) × (w' : W) × Runs poll m events
        (machine_at q' w')
      × (e : Event F) × Memᴰ e events
      × Completes t e

  rounds :
      (k : ℕ) (t : Task F) (q : List (Task F)) (w : W)
      → Memᴰ t q
      → FinishesIn poll k t.future
      → Completed (machine_at q w) t
  rounds zero t q w m fin = absurd fin
  rounds (suc k) t q w m fin =
      let round : Runs poll (machine_at q w) (serve poll q w).2
          (machine_at (serve poll q w).0 (serve poll q w).1) =
        subst
          (λ l.
            Runs poll (machine_at l w) (serve poll q w).2
              (machine_at (serve poll q w).0 (serve poll q w).1))
          (append-nil q) (serve-Runs poll q [] w) in
      elim (serve-Progress k t q w m fin) [
        | inl (e, at, done) ↦
            ((serve poll q w).2, (serve poll q w).0, (serve poll q w).1, round, e, at, done)
        | inr (u, at, same, left) ↦
            let (events, q', w', runs, e, there, done) =
              rounds k u (serve poll q w).0 (serve poll q w).1 at left in
            (
              (serve poll q w).2 ++ events,
              q',
              w',
              Runs-append poll round runs,
              e,
              M.append_right (serve poll q w).2 there,
              Completes-same t u e same done,
            )
      ]

  -- A task in the queue whose future is ready after some number of polls, whatever the machine does
  -- between them, is completed: some number of iterations end without a panic, and one of them
  -- completes a task with this task's place of creation.
  pub run-Completes :
      (k : ℕ) (t : Task F) (q : List (Task F)) (w : W)
      → Memᴰ t q
      → FinishesIn poll k t.future
      → (n : ℕ) × (events : List (Event F)) × (m' : Machine F W) × (run poll n (machine_at q w)
          ≡ (m', ok events))
        × (e : Event F) × Memᴰ e events
        × Completes t e
  run-Completes k t q w m fin =
      let (events, q', w', runs, e, at, done) = rounds k t q w m fin in
      (length events, events, machine_at q' w', run-Runs poll runs, e, at, done)
