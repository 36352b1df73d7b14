-- ===== src/Mutex/Threads.antt =====
-- mutex.rs: threads that share a mutex. A step is one atomic operation on the flag, or one write to
-- the data by a thread that has a guard; the threads take their steps in any order.
use original_os_with_rust.Prelude.{ℕ, zero, suc, ◌+◌, ◌≤◌, ◌≡◌, refl, arith, ap, Bool, true, false}
use original_os_with_rust.Prelude.{List, [], ◌∷◌, some, get_elem?, set, replicate, ok, err}
use original_os_with_rust.Mutex.{Mutex, new_mutex, try_lock, drop_guard}
use mathlib.Core.Option.{none-ne-some, some-injective}

-- A thread outside, with attempts of `lock` left, with the guard, after the panic of `lock`, or after a
-- panic with the guard: nothing unwinds, so that the guard is never dropped.
pub data Thread : Type 0 where
  outside : Thread
  trying : ℕ → Thread
  holding : Thread
  panicked : Thread
  panicked_holding : Thread

pub record Shared (T : Type 0) : Type 0 where
  pub mutex : Mutex T
  pub threads : List Thread

module _ {T : Type 0} where
  -- One iteration of the loop of `lock`, and the panic at its end.
  unfoldable pub attempt : Mutex T → ℕ → Mutex T × Thread
  attempt m zero = (m, panicked)
  attempt m (suc n) = let (m', r) = try_lock m in (m', elim r [ ok _ ↦ holding | err e ↦ trying n ])

  pub data Step (s : Shared T) : Shared T → Type 0 where
    locks :
        (i : ℕ)
        → get_elem? s.threads i ≡ some outside
        → Step s (record s { threads = set s.threads i (trying 10000) })
    attempts :
        (i n : ℕ)
        → get_elem? s.threads i ≡ some (trying n)
        → Step s (record {
          mutex = (attempt s.mutex n).0;
          threads = set s.threads i (attempt s.mutex n).1;
        })
    writes :
        (i : ℕ) (d : T)
        → get_elem? s.threads i ≡ some holding
        → Step s (record s { mutex = record { «data» = d; is_taken = s.mutex.is_taken } })
    drops :
        (i : ℕ)
        → get_elem? s.threads i ≡ some holding
        → Step s (record { mutex = drop_guard s.mutex; threads = set s.threads i outside })
    panics :
        (i : ℕ)
        → get_elem? s.threads i ≡ some holding
        → Step s (record s { threads = set s.threads i panicked_holding })

  -- The states that `n` threads on a new mutex reach.
  pub data Reached (n : ℕ) (d : T) : Shared T → Type 0 where
    start : Reached n d (record { mutex = new_mutex d; threads = replicate n outside })
    after : {s s' : Shared T} → Reached n d s → Step s s' → Reached n d s'

unfoldable pub weight : Thread → ℕ
weight outside = 0
weight (trying n) = 0
weight holding = 1
weight panicked = 0
weight panicked_holding = 1

-- The number of threads with a guard that is not dropped.
unfoldable pub holders : List Thread → ℕ
holders [] = 0
holders (t ∷ ts) = weight t + holders ts

unfoldable pub flag : Bool → ℕ
flag false = 0
flag true = 1

flag-le : (b : Bool) → flag b ≤ 1
unfolding flag
flag-le false = omega arith
flag-le true = omega arith

holders-set :
    (ts : List Thread) (i : ℕ) (t t' : Thread)
    → get_elem? ts i ≡ some t
    → holders (set ts i t') + weight t ≡ holders ts + weight t'
unfolding holders
holders-set [] i t t' h = absurd (none-ne-some t h)
holders-set (x ∷ ts) zero t t' h = omega (arith, ap weight (some-injective x t h))
holders-set (x ∷ ts) (suc i) t t' h = omega (arith, holders-set ts i t t' h)

holders-pos : (ts : List Thread) (i : ℕ) → get_elem? ts i ≡ some holding → 1 ≤ holders ts
unfolding holders weight
holders-pos [] i h = absurd (none-ne-some holding h)
holders-pos (x ∷ ts) zero h = omega (arith, ap weight (some-injective x holding h))
holders-pos (x ∷ ts) (suc i) h = omega (arith, holders-pos ts i h)

holders-replicate : (n : ℕ) → holders (replicate n outside) ≡ 0
unfolding holders weight
holders-replicate zero = refl
holders-replicate (suc n) = omega (arith, holders-replicate n)

module _ {T : Type 0} where
  -- The flag is set just when a thread has a guard, and then one thread has it.
  FlagTellsHolder : Shared T → Type 0
  FlagTellsHolder s = holders s.threads ≡ flag s.mutex.is_taken

  flag-attempt :
      (d : T) (b : Bool) (n : ℕ)
      → flag (attempt (record { «data» = d; is_taken = b }) n).0.is_taken
        ≡ flag b + weight (attempt (record { «data» = d; is_taken = b }) n).1
  unfolding attempt try_lock flag weight
  flag-attempt d b zero = omega arith
  flag-attempt d false (suc n) = refl
  flag-attempt d true (suc n) = refl

  Step-FlagTellsHolder : (s s' : Shared T) → FlagTellsHolder s → Step s s' → FlagTellsHolder s'
  unfolding FlagTellsHolder weight drop_guard flag
  Step-FlagTellsHolder s s' inv (locks i h) =
      omega (arith, inv, holders-set s.threads i outside (trying 10000) h)
  Step-FlagTellsHolder s s' inv (attempts i n h) = omega (
    arith,
    inv,
    holders-set s.threads i (trying n) (attempt s.mutex n).1 h,
    flag-attempt s.mutex.data s.mutex.is_taken n,
  )
  Step-FlagTellsHolder s s' inv (writes i d h) = inv
  Step-FlagTellsHolder s s' inv (drops i h) = omega (
    arith,
    inv,
    holders-set s.threads i holding outside h,
    holders-pos s.threads i h,
    flag-le s.mutex.is_taken,
  )
  Step-FlagTellsHolder s s' inv (panics i h) =
      omega (arith, inv, holders-set s.threads i holding panicked_holding h)

  -- In every state that threads reach on a new mutex, in whatever order they take their steps, the
  -- number of threads with a guard that is not dropped is 1 when the flag is set and 0 when it is
  -- not. A thread that panics while it has the guard keeps it, and the flag stays set.
  pub Reached-one_holder :
      (n : ℕ) (d : T) (s : Shared T) → Reached n d s → holders s.threads ≡ flag s.mutex.is_taken
  unfolding FlagTellsHolder flag new_mutex
  Reached-one_holder n d s start = holders-replicate n
  Reached-one_holder n d s (after {s = s0} r step) =
      Step-FlagTellsHolder s0 s (Reached-one_holder n d s0 r) step
