-- ===== src/Executor/Tests.antt =====
-- The theorems on the executor at concrete inputs: a future that counts its polls down.
use original_os_with_rust.Prelude.{
  ℕ, zero, suc, ◌≡◌, refl, some, List, [], ◌∷◌, ◌++◌, Result, ok, length,
}
use original_os_with_rust.Executor.{
  ready, pending, Task, Polled, Event, Machine, spawn_global, run, block_on,
}
use original_os_with_rust.Executor.Queue.{
  free, with_queue, waiting_tasks, machine_at, spawn_global-appends,
}
use original_os_with_rust.Executor.Round.{serve, run-serve}
use original_os_with_rust.Executor.Liveness.{Completes, block_on-ends, run-Completes}
use mathlib.Core.List.{Memᴰ}
use mathlib.Core.List.Memᴰ as M

-- The world counts the polls.
abbrev poll_countdown : ℕ → ℕ → Polled ℕ ℕ (Unit {0})
poll_countdown zero w = record { future = 0; world = suc w; result = ready (ok tt); spawned = [] }
poll_countdown (suc n) w = record { future = n; world = suc w; result = pending; spawned = [] }

abbrev task_of : ℕ → ℕ → Task ℕ
task_of line n = record { future = n; created_at_file = 1 ∷ []; created_at_line = line }

abbrev two_tasks : List (Task ℕ)
two_tasks = task_of 10 0 ∷ task_of 20 2 ∷ []

spawn_global-appends_example :
    spawn_global (free (with_queue two_tasks)) (task_of 30 1)
    ≡ (free (with_queue (waiting_tasks (with_queue two_tasks) ++ (task_of 30 1 ∷ []))), ok tt)
spawn_global-appends_example = spawn_global-appends (with_queue two_tasks) (task_of 30 1)

run-serve_example : run poll_countdown (length two_tasks) (machine_at two_tasks 0) ≡ (
  machine_at (serve poll_countdown two_tasks 0).0 (serve poll_countdown two_tasks 0).1,
  ok (serve poll_countdown two_tasks 0).2,
)
run-serve_example = run-serve poll_countdown two_tasks 0

countdown_ends : (w' : ℕ) × (r : Result (Unit {0})) × (block_on poll_countdown 3 2 0 ≡ some (w', r))
countdown_ends = block_on-ends poll_countdown 3 2 0 (λ w w' w''. tt)

run-Completes_example :
    (n : ℕ) × (events : List (Event ℕ)) × (m' : Machine ℕ ℕ) × (run poll_countdown n
        (machine_at two_tasks 0)
      ≡ (m', ok events))
    × (e : Event ℕ) × Memᴰ e events
    × Completes (task_of 20 2) e
run-Completes_example =
    run-Completes poll_countdown 3 (task_of 20 2) two_tasks 0 (M.tail (M.head refl))
      (λ w w' w''. tt)
