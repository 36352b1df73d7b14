-- ===== src/Xhci/Event.antt =====
-- xhci.rs: `EventRing` with its waiters. A `Weak` waiter is alive while a strong reference is left;
-- the lock of a waiter's queue is free whenever the source takes it.
pub mod Stale
pub mod Poll
use original_os_with_rust.Prelude.{
  ℕ, zero, suc, Bool, true, false, not, ◌&&◌, ◌==◌, same, if◌then◌else◌, bit_and, bit_or,
}
use original_os_with_rust.Prelude.{
  Result, ok, err, panic, Option, none, some, List, [], ◌∷◌, ◌++◌, map,
}
use original_os_with_rust.Xhci.Trb.{GenericTrbEntry, TrbType, code, trb_type, slot_id, cycle_state}
use original_os_with_rust.Xhci.Ring.{TrbRing, current, current_ptr, advance_index_notoggle}

pub record EventWaitCond : Type 0 where
  pub trb_type : Option TrbType
  pub trb_addr : Option ℕ
  pub slot : Option ℕ

pub record EventWaitInfo : Type 0 where
  pub cond : EventWaitCond
  pub trbs : List GenericTrbEntry

pub record Waiter : Type 0 where
  pub alive : Bool
  pub info : EventWaitInfo

-- `erdp` is the content of the register the pointer leads to.
pub record EventRing : Type 0 where
  pub ring : TrbRing
  pub cycle_state_ours : Bool
  pub erdp : Option ℕ
  pub wait_list : List Waiter

-- A condition that is not given holds.
abbrev pub agrees : Option ℕ → ℕ → Bool
agrees none actual = true
agrees (some wanted) actual = actual == wanted

abbrev pub type_agrees : Option TrbType → ℕ → Bool
type_agrees none actual = true
type_agrees (some wanted) actual = actual == code wanted

unfoldable pub matches : EventWaitInfo → GenericTrbEntry → Bool
matches w trb =
    if not (type_agrees w.cond.trb_type (trb_type trb))
    then false
    else if not (agrees w.cond.slot (slot_id trb))
    then false
    else if not (agrees w.cond.trb_addr trb.data)
    then false
    else true

unfoldable pub resolve : EventWaitInfo → GenericTrbEntry → EventWaitInfo
resolve w trb = record w { trbs = w.trbs ++ trb ∷ [] }

-- `EventFuture::poll`: the queue left, and the event if there is one.
unfoldable pub poll_future : EventWaitInfo → EventWaitInfo × Option GenericTrbEntry
poll_future w = elim w.trbs [ [] ↦ (w, none) | t ∷ ts ↦ (record w { trbs = ts }, some t) ]

-- `register_waiter`.
unfoldable pub register_waiter : EventRing → EventWaitInfo → EventRing
register_waiter self w = record self {
  wait_list = self.wait_list ++ record { alive = true; info = w } ∷ [];
}

unfoldable pub pop : EventRing → EventRing × Result (Option GenericTrbEntry)
pop self = elim (current self.ring) [
  | err e ↦ (self, err e)
  | ok e ↦
      if not (same (cycle_state e) self.cycle_state_ours)
      then (self, ok none)
      else (elim (advance_index_notoggle self.ring self.cycle_state_ours) [
        | err e' ↦ (self, err e')
        | ok r ↦ elim self.erdp [
          | none ↦ (record self { ring = r }, err panic)
          | some old ↦ (
            record self {
              ring = r;
              erdp = some (bit_or (current_ptr self.ring) (bit_and old 15));
              cycle_state_ours =
                  if r.current_index == 0 then not self.cycle_state_ours else self.cycle_state_ours;
            },
            ok (some e),
          )
        ]
      ])
]

-- The loop over the waiters.
unfoldable pub deliver : GenericTrbEntry → List Waiter → List Waiter
deliver e [] = []
deliver e (w ∷ ws) =
    (if w.alive && matches w.info e then record w { info = resolve w.info e } else w) ∷ deliver e ws

-- `stale_waiter_indices`: from the last index on, those without a strong reference.
unfoldable pub stale_from : ℕ → List Waiter → List ℕ
stale_from k [] = []
stale_from k (w ∷ ws) = stale_from (suc k) ws ++ (if w.alive then [] else k ∷ [])

unfoldable pub stale_waiter_indices : List Waiter → List ℕ
stale_waiter_indices ws = stale_from 0 ws

-- `VecDeque::remove`; out of range nothing is removed.
abbrev pub remove : List Waiter → ℕ → List Waiter
remove [] k = []
remove (w ∷ ws) zero = ws
remove (w ∷ ws) (suc k) = w ∷ remove ws k

unfoldable pub remove_all : List ℕ → List Waiter → List Waiter
remove_all [] ws = ws
remove_all (k ∷ ks) ws = remove_all ks (remove ws k)

-- The rest of `poll`, from the result of `pop`.
unfoldable pub handle : EventRing × Result (Option GenericTrbEntry) → EventRing × Result (Unit {0})
handle (self, err e) = (self, err e)
handle (self, ok none) = (self, ok tt)
handle (self, ok (some e)) =
    let waiters = deliver e self.wait_list in
    (record self { wait_list = remove_all (stale_waiter_indices waiters) waiters }, ok tt)

unfoldable pub poll : EventRing → EventRing × Result (Unit {0})
poll self = handle (pop self)
