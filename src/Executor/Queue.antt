-- ===== src/Executor/Queue.antt =====
-- executor.rs: what spawning and one iteration of the loop do to the queue.
use original_os_with_rust.Prelude.{◌≡◌, ap, sym, ◌∙◌, false, Option, none, some}
use original_os_with_rust.Prelude.{List, [], ◌∷◌, ◌++◌, Result, ok, err}
use original_os_with_rust.Mutex.{Mutex, under_locked}
use original_os_with_rust.Mutex.Locking.{under_locked-both}
use original_os_with_rust.Executor.{
  Poll, ready, pending, Task, Executor, Polled, Event, idle, completed, waiting, Machine,
}
use original_os_with_rust.Executor.{
  tasks, enqueue, pop_task, push_back, insert_task, spawn_global, spawn_all, again, settle,
  poll_task, run_once,
}
use mathlib.Core.List.{append-nil, append_assoc}

abbrev pub free : {T : Type 0} → T → Mutex T
free d = record { «data» = d; is_taken = false }

-- An executor that has its queue.
abbrev pub with_queue : {F : Type 0} → List (Task F) → Option (Executor F)
with_queue q = some (record { task_queue = some q })

-- The machine between two iterations: the mutex is free.
abbrev pub machine_at : {F W : Type 0} → List (Task F) → W → Machine F W
machine_at q w = record { executor = free (with_queue q); world = w }

-- The tasks that wait, none before the first is spawned.
unfoldable pub waiting_tasks : {F : Type 0} → Option (Executor F) → List (Task F)
waiting_tasks none = []
waiting_tasks (some e) = tasks e

-- `spawn_global` on a free mutex puts the task behind the tasks that wait, whether there is an
-- executor yet or not, and the mutex is free again.
pub spawn_global-appends :
    {F : Type 0} (e : Option (Executor F)) (t : Task F)
    → spawn_global (free e) t ≡ (free (with_queue (waiting_tasks e ++ (t ∷ []))), ok tt)
unfolding spawn_global insert_task enqueue waiting_tasks tasks
spawn_global-appends none t = (under_locked-both none (insert_task t)).0
spawn_global-appends (some e) t = (under_locked-both (some e) (insert_task t)).0

spawn_all-cons :
    {F : Type 0} (m m' : Mutex (Option (Executor F))) (t : Task F) (ts : List (Task F))
    → spawn_global m t ≡ (m', ok tt)
    → spawn_all m (t ∷ ts) ≡ spawn_all m' ts
unfolding spawn_all
spawn_all-cons m m' t ts e = ap (λ p. elim p.1 [ err e ↦ (p.0, err e) | ok _ ↦ spawn_all p.0 ts ]) e

pub spawn_all-appends :
    {F : Type 0} (q ts : List (Task F))
    → spawn_all (free (with_queue q)) ts ≡ (free (with_queue (q ++ ts)), ok tt)
unfolding spawn_all waiting_tasks tasks
spawn_all-appends q [] = ap (λ l. (free (with_queue l), ok tt)) (sym (append-nil q))
spawn_all-appends q (t ∷ ts) =
    spawn_all-cons (free (with_queue q)) (free (with_queue (q ++ (t ∷ [])))) t ts
      (spawn_global-appends (with_queue q) t)
    ∙ spawn_all-appends (q ++ (t ∷ [])) ts
    ∙ ap (λ l. (free (with_queue l), ok tt)) (append_assoc q (t ∷ []) ts)

-- What an iteration says of the task that it has polled.
module _ {F W : Type 0} (poll : F → W → Polled F W (Unit {0})) (t : Task F) (w : W) where
  abbrev pub event_of : Poll (Result (Unit {0})) → Event F
  event_of (ready res) = completed (again poll t (poll t.future w)) res
  event_of pending = waiting (again poll t (poll t.future w))

  unfoldable pub event : Event F
  event = event_of (poll t.future w).result

  abbrev pub kept : Poll (Result (Unit {0})) → List (Task F)
  kept (ready res) = []
  kept pending = again poll t (poll t.future w) ∷ []

  -- The tasks that the poll adds to the queue: those it spawns, then the polled one if it is pending.
  unfoldable pub added : List (Task F)
  added = (poll t.future w).spawned ++ kept (poll t.future w).result

  run_once-pop :
      (m : Machine F W) (mu : Mutex (Option (Executor F)))
      → under_locked m.executor pop_task ≡ (mu, ok (some (some t)))
      → run_once poll m ≡ poll_task poll (record m { executor = mu }) t
  unfolding run_once
  run_once-pop m mu e =
      ap
        (λ p. elim p.1 [
          | err e ↦ (record m { executor = p.0 }, err e)
          | ok none ↦ (record m { executor = p.0 }, ok idle)
          | ok (some none) ↦ (record m { executor = p.0 }, ok idle)
          | ok (some (some t)) ↦ poll_task poll (record m { executor = p.0 }) t
        ])
        e

  pushed :
      (q : List (Task F)) (t' : Task F)
      → under_locked (free (with_queue q)) (push_back t')
        ≡ (free (with_queue (q ++ (t' ∷ []))), ok tt)
  unfolding push_back enqueue tasks
  pushed q t' = (under_locked-both (with_queue q) (push_back t')).0

  settle-kept :
      (q : List (Task F)) (r : Poll (Result (Unit {0})))
      → settle poll (poll t.future w).world (again poll t (poll t.future w)) (free (with_queue q)) r
        ≡ (machine_at (q ++ kept r) (poll t.future w).world, ok (event_of r))
  unfolding settle
  settle-kept q (ready res) =
      ap (λ l. (machine_at l (poll t.future w).world, ok (event_of (ready res))))
        (sym (append-nil q))
  settle-kept q pending =
      ap
        (λ p. elim p.1 [
          | err e ↦ (record { executor = p.0; world = (poll t.future w).world }, err e)
          | ok _ ↦
              (record { executor = p.0; world = (poll t.future w).world }, ok (event_of pending))
        ])
        (pushed q (again poll t (poll t.future w)))

  poll_task-spawned :
      (q : List (Task F)) (mu : Mutex (Option (Executor F)))
      → spawn_all (free (with_queue q)) (poll t.future w).spawned ≡ (mu, ok tt)
      → poll_task poll (machine_at q w) t
        ≡ settle poll
            (poll t.future w).world
            (again poll t (poll t.future w))
            mu
            (poll t.future w).result
  unfolding poll_task
  poll_task-spawned q mu e =
      ap
        (λ p. elim p.1 [
          | err e ↦ (record { executor = p.0; world = (poll t.future w).world }, err e)
          | ok _ ↦
              settle poll (poll t.future w).world (again poll t (poll t.future w)) p.0
                (poll t.future w).result
        ])
        e

  pub run_once-polls :
      (q : List (Task F))
      → run_once poll (machine_at (t ∷ q) w)
        ≡ (machine_at (q ++ added) (poll t.future w).world, ok event)
  unfolding pop_task tasks added event
  run_once-polls q =
      run_once-pop (machine_at (t ∷ q) w) (free (with_queue q))
        (under_locked-both (with_queue (t ∷ q)) pop_task).0
      ∙ poll_task-spawned q (free (with_queue (q ++ (poll t.future w).spawned)))
          (spawn_all-appends q (poll t.future w).spawned)
      ∙ settle-kept (q ++ (poll t.future w).spawned) (poll t.future w).result
      ∙ ap (λ l. (machine_at l (poll t.future w).world, ok event))
          (append_assoc q (poll t.future w).spawned (kept (poll t.future w).result))
