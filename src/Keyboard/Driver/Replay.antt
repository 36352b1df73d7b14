-- ===== src/Keyboard/Driver/Replay.antt =====
-- keyboard.rs: the log of the keyboard and the keys that are held.
use original_os_with_rust.Prelude.{
  ℕ, ◌&&◌, ◌≡◌, refl, arith, ap, sym, ◌∙◌, Bool, true, false, not, ◌==◌, if◌then◌else◌, List, [],
  ◌∷◌, ◌++◌, map, drop, All, ≡→==, ≢→==,
}
use original_os_with_rust.Keyboard.{from_usb_key_id}
use original_os_with_rust.Keyboard.Driver.Sets.{
  Ascending, xor, contains-symmetric, from_bytes-Ascending, contains-from_bytes,
}
use original_os_with_rust.Keyboard.Driver.{
  contains, symmetric_difference, pressed_keys, KeyChange, change_of, changes, serve_reports,
}
use native.Mathlib.Decide.{ℕ_discrete}

-- What the log says of the keys, read from the keys that are held before it.
unfoldable pub replay : (ℕ → Bool) → List KeyChange → ℕ → Bool
replay held [] k = held k
replay held (c ∷ cs) k = replay (λ j. if c.id == j then c.down else held j) cs k

replay-same :
    (f g : ℕ → Bool) (cs : List KeyChange) (k : ℕ)
    → ((j : ℕ) → f j ≡ g j)
    → replay f cs k ≡ replay g cs k
unfolding replay
replay-same f g [] k h = h k
replay-same f g (c ∷ cs) k h =
    replay-same (λ j. if c.id == j then c.down else f j) (λ j. if c.id == j then c.down else g j) cs
      k (λ j. ap (λ b. if c.id == j then c.down else b) (h j))

replay-append :
    (cs ds : List KeyChange) (held : ℕ → Bool) (k : ℕ)
    → replay held (cs ++ ds) k ≡ replay (replay held cs) ds k
unfolding replay
replay-append [] ds held k = refl
replay-append (c ∷ cs) ds held k = replay-append cs ds (λ j. if c.id == j then c.down else held j) k

if_same : (b c : Bool) → (if b then c else c) ≡ c
if_same true c = refl
if_same false c = refl

replay-changes_of :
    (ids pressed : List ℕ) (held : ℕ → Bool) (k : ℕ)
    → replay held (map (change_of pressed) ids) k
      ≡ (if contains ids k then contains pressed k else held k)
unfolding replay contains change_of
replay-changes_of [] pressed held k = refl
replay-changes_of (id ∷ ids) pressed held k =
    replay-changes_of ids pressed (λ j. if id == j then contains pressed id else held j) k
    ∙ elim (ℕ_discrete id k) [
      | yes e ↦ rw (≡→== id k e, ap (contains pressed) e) (if_same _ _)
      | no ne ↦ rw (≢→== id k ne) refl
    ]

if_xor : (a b : Bool) → (if xor a b then a else b) ≡ a
if_xor true true = refl
if_xor true false = refl
if_xor false true = refl
if_xor false false = refl

-- The changes between two sets lead from the one to the other.
replay-changes :
    (pressed prev : List ℕ) (k : ℕ)
    → Ascending 0 pressed
    → Ascending 0 prev
    → replay (contains prev) (changes pressed prev) k ≡ contains pressed k
unfolding changes
replay-changes pressed prev k a b =
    replay-changes_of (symmetric_difference pressed prev) pressed (contains prev) k
    ∙ ap (λ c. if c then contains pressed k else contains prev k)
        (contains-symmetric 0 k pressed prev a b)
    ∙ if_xor (contains pressed k) (contains prev k)

-- The keys of the last report, after those of `keys`.
unfoldable pub last_keys : List ℕ → List (List ℕ) → List ℕ
last_keys keys [] = keys
last_keys keys (report ∷ reports) = last_keys (pressed_keys report) reports

pressed_keys-Ascending : (report : List ℕ) → Ascending 0 (pressed_keys report)
unfolding pressed_keys
pressed_keys-Ascending report = from_bytes-Ascending (drop 2 report)

last_keys-Ascending :
    (keys : List ℕ) (reports : List (List ℕ))
    → Ascending 0 keys
    → Ascending 0 (last_keys keys reports)
unfolding last_keys
last_keys-Ascending keys [] a = a
last_keys-Ascending keys (report ∷ reports) a =
    last_keys-Ascending (pressed_keys report) reports (pressed_keys-Ascending report)

pub replay-serve_reports :
    (keys : List ℕ) (reports : List (List ℕ)) (k : ℕ)
    → Ascending 0 keys
    → replay (contains keys) (serve_reports keys reports) k ≡ contains (last_keys keys reports) k
unfolding serve_reports last_keys replay
replay-serve_reports keys [] k a = refl
replay-serve_reports keys (report ∷ reports) k a =
    let now = pressed_keys report in
    let asc = pressed_keys-Ascending report in
    replay-append (changes now keys) (serve_reports now reports) (contains keys) k
    ∙ replay-same (replay (contains keys) (changes now keys)) (contains now)
        (serve_reports now reports) k (λ j. replay-changes now keys j asc a)
    ∙ replay-serve_reports now reports k asc

last_keys-append :
    (keys : List ℕ) (reports : List (List ℕ)) (report : List ℕ)
    → last_keys keys (reports ++ report ∷ []) ≡ pressed_keys report
unfolding last_keys
last_keys-append keys [] report = refl
last_keys-append keys (r ∷ reports) report = last_keys-append (pressed_keys r) reports report

-- A change of a key that was up before it goes down and down before it goes up.
pub record IsChange (prev_pressed : List ℕ) (c : KeyChange) : Type 0 where
  pub turned : contains prev_pressed c.id ≡ not c.down
  pub named : c.event ≡ from_usb_key_id c.id

not-xor : (a b : Bool) → xor a b ≡ true → b ≡ not a
not-xor a b h = ground arith

contains_later : (x k : ℕ) (xs : List ℕ) → contains xs k ≡ true → contains (x ∷ xs) k ≡ true
unfolding contains
contains_later x k xs h = ground arith

contains_self : (x : ℕ) (xs : List ℕ) → contains (x ∷ xs) x ≡ true
unfolding contains
contains_self x xs = rw (≡→== x x refl) refl

changes_of-IsChange :
    (pressed prev ids : List ℕ)
    → ((k : ℕ) → contains ids k ≡ true → contains prev k ≡ not (contains pressed k))
    → All (IsChange prev) (map (change_of pressed) ids)
unfolding change_of
changes_of-IsChange pressed prev [] h = tt
changes_of-IsChange pressed prev (id ∷ ids) h = (
  record { turned = h id (contains_self id ids); named = refl },
  changes_of-IsChange pressed prev ids (λ k e. h k (contains_later id k ids e)),
)

changes-IsChange :
    (pressed prev : List ℕ)
    → Ascending 0 pressed
    → Ascending 0 prev
    → All (IsChange prev) (changes pressed prev)
unfolding changes
changes-IsChange pressed prev a b =
    changes_of-IsChange pressed prev (symmetric_difference pressed prev) (λ k e.
      not-xor (contains pressed k) (contains prev k)
        (sym (contains-symmetric 0 k pressed prev a b) ∙ e))

-- After any reports, the changes that the driver has logged, replayed on a keyboard with no key held,
-- leave held just the keys whose nonzero code is in the last report behind its first two bytes; and each
-- change that the last report adds turns a key over from the state after the reports before it, and has
-- the event of the key's code.
pub serve_reports-replays :
    (reports : List (List ℕ)) (report : List ℕ)
    → ((k : ℕ)
        → replay (contains []) (serve_reports [] (reports ++ report ∷ [])) k
          ≡ (not (k == 0) && contains (drop 2 report) k))
      × All (IsChange (last_keys [] reports)) (changes (pressed_keys report) (last_keys [] reports))
unfolding pressed_keys
serve_reports-replays reports report = (
  λ k.
      replay-serve_reports [] (reports ++ report ∷ []) k tt
      ∙ ap (λ s. contains s k) (last_keys-append [] reports report)
      ∙ contains-from_bytes (drop 2 report) k,
  changes-IsChange (pressed_keys report) (last_keys [] reports) (pressed_keys-Ascending report)
      (last_keys-Ascending [] reports tt),
)
