-- ===== src/Executor.antt =====
-- executor.rs: tasks, the executor's queue and its loop, `block_on`, `yield_execution` and `sleep`.
-- A future's poll is a parameter: it takes the rest of the machine (the clock and the devices) to a
-- new state, and it may call `spawn_global`; the futures that it spawns are listed in that order.
pub mod Queue
pub mod Round
pub mod Liveness
pub mod Tests
use original_os_with_rust.Prelude.{ℕ, zero, suc, Bool, Option, none, some, List, [], ◌∷◌, ◌++◌}
use original_os_with_rust.Prelude.{Result, ok, err, panic, true, ltb, if◌then◌else◌, ◌+◌, ◌*◌, ◌^◌}
use original_os_with_rust.Mutex.{Mutex, under_locked}

pub data Poll (T : Type 0) : Type 0 where
  ready : T → Poll T
  pending : Poll T

-- A task, with the place that spawned it.
pub record Task (F : Type 0) : Type 0 where
  pub future : F
  pub created_at_file : List ℕ
  pub created_at_line : ℕ

pub record Executor (F : Type 0) : Type 0 where
  pub task_queue : Option (List (Task F))

-- The result of `Future::poll`.
pub record Polled (F W T : Type 0) : Type 0 where
  pub future : F
  pub world : W
  pub result : Poll (Result T)
  pub spawned : List (Task F)

-- What an iteration of the executor's loop has done.
pub data Event (F : Type 0) : Type 0 where
  idle : Event F
  completed : Task F → Result (Unit {0}) → Event F
  waiting : Task F → Event F

module _ {F : Type 0} where
  -- `task_queue()`, which makes the queue at its first use.
  unfoldable pub tasks : Executor F → List (Task F)
  tasks e = elim e.task_queue [ none ↦ [] | some q ↦ q ]

  unfoldable pub enqueue : Task F → Executor F → Executor F
  enqueue t e = record { task_queue = some (tasks e ++ (t ∷ [])) }

  -- `as_mut().map(|e| e.task_queue().pop_front())`.
  unfoldable pub pop_task :
      Option (Executor F) → Option (Executor F) × Result (Option (Option (Task F)))
  pop_task none = (none, ok none)
  pop_task (some e) = elim (tasks e) [
    | [] ↦ (some (record { task_queue = some [] }), ok (some none))
    | t ∷ q ↦ (some (record { task_queue = some q }), ok (some (some t)))
  ]

  -- `if let Some(e) = ...as_mut() { e.task_queue().push_back(task) }`.
  unfoldable pub push_back : Task F → Option (Executor F) → Option (Executor F) × Result (Unit {0})
  push_back t none = (none, ok tt)
  push_back t (some e) = (some (enqueue t e), ok tt)

  -- `get_or_insert_default().enqueue(task)`.
  unfoldable pub insert_task :
      Task F → Option (Executor F) → Option (Executor F) × Result (Unit {0})
  insert_task t none = (some (enqueue t (record { task_queue = none })), ok tt)
  insert_task t (some e) = (some (enqueue t e), ok tt)

  -- The guard of `GLOBAL_EXECUTOR` lives for one statement, which is `under_locked`.
  unfoldable pub spawn_global :
      Mutex (Option (Executor F)) → Task F → Mutex (Option (Executor F)) × Result (Unit {0})
  spawn_global m t = under_locked m (insert_task t)

  unfoldable pub spawn_all :
      Mutex (Option (Executor F)) → List (Task F) → Mutex (Option (Executor F)) × Result (Unit {0})
  spawn_all m [] = (m, ok tt)
  spawn_all m (t ∷ ts) =
      let (m', r) = spawn_global m t in
      let rest = spawn_all m' ts in elim r [ err e ↦ (m', err e) | ok _ ↦ rest ]

-- The executor behind its mutex, and the rest of the machine.
pub record Machine (F W : Type 0) : Type 0 where
  pub executor : Mutex (Option (Executor F))
  pub world : W

module _ {F W T : Type 0} (poll : F → W → Polled F W T) where
  -- `block_on`, for a number of polls; the spawned tasks are left aside.
  unfoldable pub block_on : ℕ → F → W → Option (W × Result T)
  block_on zero f w = none
  block_on (suc fuel) f w =
      let p = poll f w in
      let rest = block_on fuel p.future p.world in
      elim p.result [ ready r ↦ some (p.world, r) | pending ↦ rest ]

module _ {F W : Type 0} (poll : F → W → Polled F W (Unit {0})) where
  unfoldable pub again : Task F → Polled F W (Unit {0}) → Task F
  again t p = record t { future = p.future }

  -- The two arms of `match task.poll(&mut context)`.
  unfoldable pub settle :
      W
      → Task F
      → Mutex (Option (Executor F))
      → Poll (Result (Unit {0}))
      → Machine F W × Result (Event F)
  settle w t' mutex (ready res) = (record { executor = mutex; world = w }, ok (completed t' res))
  settle w t' mutex pending =
      let (pushed, r) = under_locked mutex (push_back t') in
      elim r [
        | err e ↦ (record { executor = pushed; world = w }, err e)
        | ok _ ↦ (record { executor = pushed; world = w }, ok (waiting t'))
      ]

  -- A poll of the task taken from the queue, and what follows its result.
  unfoldable pub poll_task : Machine F W → Task F → Machine F W × Result (Event F)
  poll_task m t =
      let p = poll t.future m.world in
      let (spawning, r) = spawn_all m.executor p.spawned in
      elim r [
        | err e ↦ (record { executor = spawning; world = p.world }, err e)
        | ok _ ↦ settle p.world (again t p) spawning p.result
      ]

  -- One iteration of the loop of `Executor::run`.
  unfoldable pub run_once : Machine F W → Machine F W × Result (Event F)
  run_once m =
      let (popped, r) = under_locked m.executor pop_task in
      elim r [
        | err e ↦ (record m { executor = popped }, err e)
        | ok none ↦ (record m { executor = popped }, ok idle)
        | ok (some none) ↦ (record m { executor = popped }, ok idle)
        | ok (some (some t)) ↦ poll_task (record m { executor = popped }) t
      ]

  -- The first iterations of `Executor::run`, which has no end.
  unfoldable pub run : ℕ → Machine F W → Machine F W × Result (List (Event F))
  run zero m = (m, ok [])
  run (suc n) m =
      let (m', r) = run_once m in
      let rest = run n m' in
      elim r [
        | err e ↦ (m', err e)
        | ok event ↦ elim rest.1 [
          | err e ↦ (rest.0, err e)
          | ok events ↦ (rest.0, ok (event ∷ events))
        ]
      ]

-- `Yield`; `polled` is an atomic flag.
pub record Yield : Type 0 where
  pub polled : Bool

-- `fetch_or(true)` returns the flag's old value.
unfoldable pub poll_yield : Yield → Yield × Poll (Unit {0})
poll_yield y = (record { polled = true }, if y.polled then ready tt else pending)

-- A `Duration` in nanoseconds.
pub record TimeoutFuture : Type 0 where
  pub time_out : ℕ

-- `TimeoutFuture::new` at a time `now`; the sum of durations panics past 2^64 seconds.
unfoldable pub new_timeout : (now duration : ℕ) → Result TimeoutFuture
new_timeout now duration =
    if ltb (now + duration) (2 ^ 64 * 1000000000)
    then ok (record { time_out = now + duration })
    else err panic

unfoldable pub poll_timeout : TimeoutFuture → (now : ℕ) → Poll (Unit {0})
poll_timeout t now = if ltb t.time_out now then ready tt else pending
