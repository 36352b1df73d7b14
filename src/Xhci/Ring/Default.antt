-- ===== src/Xhci/Ring/Default.antt =====
-- `CommandRing::default`.
use original_os_with_rust.Prelude.{ℕ, zero, suc, ◌≡◌, ◌≢◌, refl, arith, ok, ap, sym, ◌∙◌, subst}
use original_os_with_rust.Prelude.{set, get_or, replicate, get_or-set_ne, false}
use original_os_with_rust.Volatile.{write_bits, read_bits}
use original_os_with_rust.Xhci.Trb.{
  GenericTrbEntry, default_trb, trb_type, cycle_state, code, trb_link,
}
use original_os_with_rust.Xhci.Trb.{set_trb_type, set_toggle_cycle, write_control}
use original_os_with_rust.Xhci.Trb.Fields.{IsTrb}
use original_os_with_rust.Xhci.Ring.{CommandRing, default_command_ring, write, new_ring}
use original_os_with_rust.Xhci.Ring.Inv.{IsRing, at}
use native.Mathlib.Decide.{ℕ_discrete}

get_or-replicate : {A : Type 0} (n j : ℕ) (a : A) → get_or (replicate n a) j a ≡ a
get_or-replicate zero j a = refl
get_or-replicate (suc n) zero a = refl
get_or-replicate (suc n) (suc j) a = get_or-replicate n j a

-- The Link TRB back to `addr`, with its toggle bit.
abbrev link_at : ℕ → GenericTrbEntry
link_at addr = record { «data» = addr; option = 0; control = 0x1802 }

abbrev pub fresh : ℕ → CommandRing
fresh addr = record {
  ring = record (new_ring addr) { trb = set (replicate 16 default_trb) 15 (link_at addr) };
  cycle_state_ours = false;
}

default_lem : (addr : ℕ) → default_command_ring addr ≡ ok (fresh addr)
unfolding default_command_ring trb_link set_trb_type set_toggle_cycle write_control write_bits code
    write
default_lem addr = refl

early : (addr j : ℕ) → j ≢ 15 → at (fresh addr).ring j ≡ default_trb
early addr j ne =
    get_or-set_ne (replicate 16 default_trb) 15 j (link_at addr) default_trb (λ e. ne (sym e))
    ∙ get_or-replicate 16 j default_trb

default_type : trb_type default_trb ≡ 0
unfolding trb_type read_bits
default_type = refl

default_cycle : cycle_state default_trb ≡ false
unfolding cycle_state read_bits
default_cycle = refl

link_type : (addr : ℕ) → trb_type (link_at addr) ≡ 6
unfolding trb_type read_bits
link_type addr = refl

link_cycle : (addr : ℕ) → cycle_state (link_at addr) ≡ false
unfolding cycle_state read_bits
link_cycle addr = refl

pub fresh-IsRing : (addr : ℕ) → IsRing (fresh addr)
fresh-IsRing addr = record {
  size = refl;
  in_range = omega arith;
  words = λ j h. elim (ℕ_discrete j 15) [
    | yes e ↦ subst (λ k. IsTrb (at (fresh addr).ring k)) (sym e) (omega arith)
    | no ne ↦ subst IsTrb (sym (early addr j ne)) (omega arith)
  ];
  last = link_type addr;
  others = λ j h e.
      absurd
        (omega (arith, e, ap trb_type (early addr j (λ e'. absurd (omega arith))), default_type));
  given = λ j h. absurd (omega arith);
  free = λ j h lt. elim (ℕ_discrete j 15) [
    | yes e ↦ ap (λ k. cycle_state (at (fresh addr).ring k)) e ∙ link_cycle addr
    | no ne ↦ ap cycle_state (early addr j ne) ∙ default_cycle
  ];
}

-- At any address, a command ring is made; it is well formed and stands at that address.
pub default-IsRing :
    (addr : ℕ)
    → (c : CommandRing) × (default_command_ring addr ≡ ok c) × IsRing c × (c.ring.phys_addr ≡ addr)
default-IsRing addr = (fresh addr, default_lem addr, fresh-IsRing addr, refl)
