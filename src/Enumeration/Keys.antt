-- ===== src/Enumeration/Keys.antt =====
-- The log of the keyboard's driver, from the replies of the device.
use original_os_with_rust.Prelude.{
  ℕ, zero, suc, ◌≡◌, ◌⊎◌, inl, inr, refl, ap, ◌∙◌, Option, none, some, Result, ok, err, List, [],
  ◌∷◌, ◌++◌, length,
}
use original_os_with_rust.Keyboard.Driver.{
  KeyChange, contains, pressed_keys, changes, serve_reports,
}
use original_os_with_rust.Keyboard.Driver.Replay.{replay, last_keys, replay-serve_reports}
use original_os_with_rust.Enumeration.{
  Io, done, pure, send, ◌>>=◌, ◌>>◌, Call, Reply, Event, event, Device, trace, result, control,
  show, get_report,
}
use original_os_with_rust.Enumeration.Requests.{buffer, request_hid_report}
use original_os_with_rust.Enumeration.Drivers.{keyboard_loop}

-- The lines of the log in the events.
abbrev shown_by : (c : Call) → Reply c → List KeyChange
shown_by (show changes) u = changes
shown_by _ r = []

unfoldable pub log_lines : List Event → List KeyChange
log_lines [] = []
log_lines (e ∷ es) = shown_by e.asked e.reply ++ log_lines es

-- The reports in the events, as they stand in the buffer.
abbrev report_of : ℕ → Result (List ℕ) → List (List ℕ)
report_of n (ok bytes) = buffer n bytes ∷ []
report_of n (err e) = []

abbrev report_in : (c : Call) → Reply c → List (List ℕ)
report_in (control slot (get_report n)) r = report_of n r
report_in _ r = []

unfoldable pub reports : List Event → List (List ℕ)
reports [] = []
reports (e ∷ es) = report_in e.asked e.reply ++ reports es

-- A run of `n` rounds: either all of them took a report, or an error ended the loop.
abbrev pub Rounds : ℕ → List (List ℕ) → Option (Result (Unit {0})) → Type 0
Rounds n taken o = ((length taken ≡ n) × (o ≡ none)) ⊎ ((e : _) × (o ≡ some (err e)))

one_more :
    (n : ℕ) (report : List ℕ) (taken : List (List ℕ)) (o : Option (Result (Unit {0})))
    → Rounds n taken o
    → Rounds (suc n) (report ∷ taken) o
one_more n report taken o (inl (count, goes_on)) = inl (ap suc count, goes_on)
one_more n report taken o (inr ended) = inr ended

module _ (d : Device) (slot : ℕ) where
  abbrev Logged : ℕ → List ℕ → List Event → Option (Result (Unit {0})) → Type 0
  Logged n prev es o = (log_lines es ≡ serve_reports prev (reports es)) × Rounds n (reports es) o

  -- The rest of a round, from the report on.
  abbrev rest_of : ℕ → List ℕ → List ℕ → Io (Unit {0})
  rest_of n prev report =
      send (show (changes (pressed_keys report) prev)) >> keyboard_loop n slot (pressed_keys report)

  abbrev asked_report : Call
  asked_report = control slot (get_report 8)

  round-Logged :
      (n : ℕ) (prev : List ℕ)
      → ((past : List Event) (prev' : List ℕ)
          → Logged n prev'
              (trace d past (keyboard_loop n slot prev'))
              (result d past (keyboard_loop n slot prev')))
      → (past : List Event) (r : Result (List ℕ))
      → let io = done r >>= (λ bytes. pure (buffer 8 bytes)) >>= rest_of n prev in
        Logged
          (suc n)
          prev
          (event asked_report r ∷ trace d (event asked_report r ∷ past) io)
          (result d (event asked_report r ∷ past) io)
  unfolding trace result ◌>>=◌ log_lines reports serve_reports
  round-Logged n prev ih past (err e) = (refl, inr (e, refl))
  round-Logged n prev ih past (ok bytes) =
      let keys = pressed_keys (buffer 8 bytes) in
      let told = show (changes keys prev) in
      let past1 = event asked_report (ok bytes) ∷ past in
      let past2 = event told (d past1 told) ∷ past1 in
      let (same, rounds) = ih past2 keys in
      (
        ap (λ l. changes keys prev ++ l) same,
        one_more n (buffer 8 bytes) (reports (trace d past2 (keyboard_loop n slot keys)))
            (result d past2 (keyboard_loop n slot keys)) rounds,
      )

  loop-Logged :
      (n : ℕ) (past : List Event) (prev : List ℕ)
      → Logged n prev
          (trace d past (keyboard_loop n slot prev))
          (result d past (keyboard_loop n slot prev))
  unfolding keyboard_loop request_hid_report trace result ◌>>=◌ log_lines reports serve_reports
  loop-Logged zero past prev = (refl, inl (refl, refl))
  loop-Logged (suc n) past prev = round-Logged n prev (loop-Logged n) past (d past asked_report)

-- Whatever the device replies, `n` rounds of the keyboard's loop end only by an error, or have taken `n`
-- reports and go on. The log has just the changes between the sets of keys that the reports taken have, as
-- `serve_reports` computes them, and replayed from no key held it tells the keys of the last report.
pub keyboard_loop-log :
    (d : Device) (slot n : ℕ) (past : List Event)
    → let es = trace d past (keyboard_loop n slot []) in
      (log_lines es ≡ serve_reports [] (reports es))
      × ((k : ℕ) → replay (contains []) (log_lines es) k ≡ contains (last_keys [] (reports es)) k)
      × Rounds n (reports es) (result d past (keyboard_loop n slot []))
keyboard_loop-log d slot n past =
    let (same, rounds) = loop-Logged d slot n past [] in
    (same, λ k. ap (λ l. replay (contains []) l k) same ∙ replay-serve_reports [] _ k tt, rounds)
