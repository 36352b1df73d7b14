-- ===== src/Executor/Round.antt =====
-- executor.rs: a round of the loop.
use original_os_with_rust.Prelude.{
  ℕ, suc, ◌≡◌, refl, ap, sym, subst, ◌∙◌, List, [], ◌∷◌, ◌++◌, ok, err, length,
}
use original_os_with_rust.Executor.{Task, Polled, Event, Machine, run_once, run}
use original_os_with_rust.Executor.Queue.{machine_at, event, added, run_once-polls}
use mathlib.Core.List.{append-nil, append_assoc}

module _ {F W : Type 0} (poll : F → W → Polled F W (Unit {0})) where
  -- Iterations that end without a panic, with what each has done.
  pub data Runs : Machine F W → List (Event F) → Machine F W → Type 0 where
    stop : {m : Machine F W} → Runs m [] m
    step :
        {m m' m'' : Machine F W} {e : Event F} {es : List (Event F)}
        → run_once poll m ≡ (m', ok e)
        → Runs m' es m''
        → Runs m (e ∷ es) m''

  pub Runs-append :
      {m m' m'' : Machine F W} {es es' : List (Event F)}
      → Runs m es m'
      → Runs m' es' m''
      → Runs m (es ++ es') m''
  Runs-append stop b = b
  Runs-append (step e a) b = step e (Runs-append a b)

  run-suc :
      (n : ℕ) (m m' m'' : Machine F W) (e : Event F) (es : List (Event F))
      → run_once poll m ≡ (m', ok e)
      → run poll n m' ≡ (m'', ok es)
      → run poll (suc n) m ≡ (m'', ok (e ∷ es))
  unfolding run
  run-suc n m m' m'' e es one rest =
      ap
        (λ p. elim p.1 [
          | err x ↦ (p.0, err x)
          | ok event ↦ elim (run poll n p.0).1 [
            | err x ↦ ((run poll n p.0).0, err x)
            | ok events ↦ ((run poll n p.0).0, ok (event ∷ events))
          ]
        ])
        one
      ∙ ap (λ p. elim p.1 [ err x ↦ (p.0, err x) | ok events ↦ (p.0, ok (e ∷ events)) ]) rest

  pub run-Runs :
      {m m' : Machine F W} {es : List (Event F)}
      → Runs m es m'
      → run poll (length es) m ≡ (m', ok es)
  unfolding run
  run-Runs stop = refl
  run-Runs {m} {m' = m''} (step {m' = m'} {e = e} {es = es} one rest) =
      run-suc (length es) m m' m'' e es one (run-Runs rest)

  -- What a round does: each task of a list is polled once, in order, on the machine that the polls
  -- before it have left; with the tasks added to the queue, the machine, and the events.
  unfoldable pub serve : List (Task F) → W → List (Task F) × W × List (Event F)
  serve [] w = ([], w, [])
  serve (t ∷ ts) w =
      let (queue, w', events) = serve ts (poll t.future w).world in
      (added poll t w ++ queue, w', event poll t w ∷ events)

  pub serve-Runs :
      (ts qs : List (Task F)) (w : W)
      → Runs
          (machine_at (ts ++ qs) w)
          (serve ts w).2
          (machine_at (qs ++ (serve ts w).0) (serve ts w).1)
  unfolding serve
  serve-Runs [] qs w =
      subst (λ l. Runs (machine_at qs w) [] (machine_at l w)) (sym (append-nil qs)) stop
  serve-Runs (t ∷ ts) qs w =
      step
        (run_once-polls poll t w (ts ++ qs)
          ∙ ap (λ l. (machine_at l (poll t.future w).world, ok (event poll t w)))
              (append_assoc ts qs (added poll t w)))
        (subst
          (λ l.
            Runs (machine_at (ts ++ (qs ++ added poll t w)) (poll t.future w).world)
              (serve ts (poll t.future w).world).2
              (machine_at l (serve ts (poll t.future w).world).1))
          (append_assoc qs (added poll t w) (serve ts (poll t.future w).world).0)
          (serve-Runs ts (qs ++ added poll t w) (poll t.future w).world))

  pub length-serve : (ts : List (Task F)) (w : W) → length (serve ts w).2 ≡ length ts
  unfolding serve
  length-serve [] w = refl
  length-serve (t ∷ ts) w = ap suc (length-serve ts (poll t.future w).world)

  -- On a free mutex, as many iterations as there are tasks in the queue poll each of them once, in
  -- the queue's order, each on the machine that the polls before it have left. The queue then
  -- holds, in that order, what each poll has added: the tasks it spawned and, when it was pending,
  -- the task itself.
  pub run-serve :
      (q : List (Task F)) (w : W)
      → run poll (length q) (machine_at q w)
        ≡ (machine_at (serve q w).0 (serve q w).1, ok (serve q w).2)
  run-serve q w =
      ap (λ n. run poll n (machine_at q w)) (sym (length-serve q w))
      ∙ ap (λ l. run poll (length (serve q w).2) (machine_at l w)) (sym (append-nil q))
      ∙ run-Runs (serve-Runs q [] w)
