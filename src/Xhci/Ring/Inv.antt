-- ===== src/Xhci/Ring/Inv.antt =====
-- The well-formed command ring.
use original_os_with_rust.Prelude.{ℕ, suc, ◌≤◌, ◌<◌, ◌≡◌, ◌≢◌, refl, arith, not}
use original_os_with_rust.Prelude.{ok, some, List, [], ◌∷◌, length, get_elem?, get_or, zero}
use original_os_with_rust.Xhci.Trb.{GenericTrbEntry, default_trb, trb_type, cycle_state}
use original_os_with_rust.Xhci.Trb.Fields.{IsTrb}
use original_os_with_rust.Xhci.Ring.{TrbRing, CommandRing, current}

-- The TRB at an index.
abbrev pub at : TrbRing → ℕ → GenericTrbEntry
at r i = get_or r.trb i default_trb

-- A command ring has 16 TRBs, of which the last is the Link TRB and no other is. The TRBs before
-- the current one carry the other cycle, the rest carries ours.
pub record IsRing (c : CommandRing) : Type 0 where
  pub size : length c.ring.trb ≡ 16
  pub in_range : c.ring.current_index < 15
  pub words : (i : ℕ) → i < 16 → IsTrb (at c.ring i)
  pub last : trb_type (at c.ring 15) ≡ 6
  pub others : (i : ℕ) → i < 15 → trb_type (at c.ring i) ≢ 6
  pub given :
      (i : ℕ) → i < c.ring.current_index → cycle_state (at c.ring i) ≡ not c.cycle_state_ours
  pub free :
      (i : ℕ) → c.ring.current_index ≤ i → i < 16 → cycle_state (at c.ring i) ≡ c.cycle_state_ours

get_elem?-get_or :
    {A : Type 0} (xs : List A) (i : ℕ) (d : A)
    → i < length xs
    → get_elem? xs i ≡ some (get_or xs i d)
get_elem?-get_or [] i d h = absurd (omega arith)
get_elem?-get_or (x ∷ xs) zero d h = refl
get_elem?-get_or (x ∷ xs) (suc i) d h = get_elem?-get_or xs i d (omega arith)

pub current-at :
    (r : TrbRing) → r.current_index < length r.trb → current r ≡ ok (at r r.current_index)
unfolding current
current-at r h = rw (get_elem?-get_or r.trb r.current_index default_trb h)
