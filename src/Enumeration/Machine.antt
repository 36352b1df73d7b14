-- ===== src/Enumeration/Machine.antt =====
-- Programs that keep to a state machine, whose steps are a relation on phases, calls and replies.
use original_os_with_rust.Prelude.{
  ◌≡◌, ◌⊎◌, inl, inr, refl, Option, none, some, Result, ok, err, List, [], ◌∷◌,
}
use original_os_with_rust.Enumeration.{
  Io, done, running, call, Call, Reply, Event, event, Device, trace, result, ◌>>=◌,
}

-- The events of a run that begins in one phase and ends in another.
pub data Steps {Phase : Type 0} (Step : Phase → (c : Call) → Reply c → Phase → Type 0)
    : Phase → List Event → Phase → Type 0 where
  stay : {p : Phase} → Steps Step p [] p
  step :
      {p p' p'' : Phase} {c : Call} {r : Reply c} {es : List Event}
      → Step p c r p'
      → Steps Step p' es p''
      → Steps Step p (event c r ∷ es) p''

module _ {Phase : Type 0} (Step : Phase → (c : Call) → Reply c → Phase → Type 0) where
  -- A program keeps to the steps from a phase on, whatever the replies, and `Q` holds of the phase and
  -- the result where it ends without an error.
  abbrev pub Leads : {A : Type 0} → (Phase → A → Type 0) → Phase → Io A → Type 0
  Leads Q p (done (ok a)) = Q p a
  Leads Q p (done (err e)) = Unit
  Leads Q p running = Unit
  Leads Q p (call c k) = (r : Reply c) → (p' : Phase) × Step p c r p' × Leads Q p' (k r)

  pub trace-Steps :
      {A : Type 0} (Q : Phase → A → Type 0) (d : Device) (past : List Event) (p : Phase) (io : Io A)
      → Leads Q p io
      → (p' : Phase) × Steps Step p (trace d past io) p'
  unfolding trace
  trace-Steps Q d past p (done r) h = (p, stay)
  trace-Steps Q d past p running h = (p, stay)
  trace-Steps Q d past p (call c k) h =
      let (p', first, next) = h (d past c) in
      let (p'', rest) = trace-Steps Q d (event c (d past c) ∷ past) p' (k (d past c)) next in
      (p'', step first rest)

  -- How a run ends that keeps to the steps.
  abbrev pub Ends : {A : Type 0} → (Phase → A → Type 0) → Phase → Option (Result A) → Type 0
  Ends {A} Q p o =
      (o ≡ none) ⊎ ((e : _) × (o ≡ some (err e))) ⊎ ((a : A) × (o ≡ some (ok a)) × Q p a)

  pub trace-Ends :
      {A : Type 0} (Q : Phase → A → Type 0) (d : Device) (past : List Event) (p : Phase) (io : Io A)
      → Leads Q p io
      → (p' : Phase) × Steps Step p (trace d past io) p' × Ends Q p' (result d past io)
  unfolding trace result
  trace-Ends Q d past p (done (ok a)) h = (p, stay, inr (inr (a, refl, h)))
  trace-Ends Q d past p (done (err e)) h = (p, stay, inr (inl (e, refl)))
  trace-Ends Q d past p running h = (p, stay, inl refl)
  trace-Ends Q d past p (call c k) h =
      let (p', first, next) = h (d past c) in
      let (p'', rest, ends) = trace-Ends Q d (event c (d past c) ∷ past) p' (k (d past c)) next in
      (p'', step first rest, ends)

  pub bind-Leads :
      {A B : Type 0} (Q : Phase → A → Type 0) (R : Phase → B → Type 0) (p : Phase) (io : Io A)
      (next : A → Io B)
      → Leads Q p io
      → ((p' : Phase) (a : A) → Q p' a → Leads R p' (next a))
      → Leads R p (io >>= next)
  unfolding ◌>>=◌
  bind-Leads Q R p (done (ok a)) next h k = k p a h
  bind-Leads Q R p (done (err e)) next h k = tt
  bind-Leads Q R p running next h k = tt
  bind-Leads Q R p (call c f) next h k =
      λ r. let (p', first, rest) = h r in (p', first, bind-Leads Q R p' (f r) next rest k)

  -- A result that is at hand.
  pub done-Leads :
      {A B : Type 0} (R : Phase → B → Type 0) (p : Phase) (r : Result A) (next : A → Io B)
      → ((a : A) → r ≡ ok a → Leads R p (next a))
      → Leads R p (done r >>= next)
  unfolding ◌>>=◌
  done-Leads R p (ok a) next h = h a refl
  done-Leads R p (err e) next h = tt
