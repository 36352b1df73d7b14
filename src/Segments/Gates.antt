-- ===== src/Segments/Gates.antt =====
-- x86.rs: what the processor reads in the descriptors.
use original_os_with_rust.Prelude.{
  ℕ, zero, suc, ◌+◌, ◌*◌, ◌/◌, ◌^◌, ◌<◌, ◌≡◌, ◌≢◌, refl, arith, ap, sym, subst, List, ◌∙◌, ◌==◌,
  ≡→==, ≢→==, if◌then◌else◌, get_or, set, replicate, get_or-set_ne,
}
use original_os_with_rust.Words.Masks.{bit_and_ones}
use original_os_with_rust.Segments.{
  IdtAttr, int_gate_dpl0, int_gate_dpl3, IdtDescriptor, new_idt_descriptor, EntryPoints,
  idt_entries, TaskStateSegment64Descriptor, new_tss64_descriptor, new_tss64, alloc_interrupt_stack,
}
use native.Mathlib.Decide.{ℕ_discrete}

-- The address that an interrupt gate leads to.
abbrev pub target : IdtDescriptor → ℕ
target d = d.offset_low + d.offset_mid * 2 ^ 16 + d.offset_high * 2 ^ 32

-- The base of the task state that its descriptor tells.
abbrev pub tss_base : TaskStateSegment64Descriptor → ℕ
tss_base d = d.base_low + d.base_mid_low * 2 ^ 16 + d.base_mid_hight * 2 ^ 24 + d.base_high * 2 ^ 32

target-new :
    (s i : ℕ) (attr : IdtAttr) (f : ℕ) → f < 2 ^ 64 → target (new_idt_descriptor s i attr f) ≡ f
unfolding new_idt_descriptor
target-new s i attr f h = omega arith

-- The descriptor of a task state leads to its address.
pub tss_base-new : (base : ℕ) → base < 2 ^ 64 → tss_base (new_tss64_descriptor base) ≡ base
unfolding new_tss64_descriptor
tss_base-new base h = omega (
  arith,
  bit_and_ones 16 base,
  bit_and_ones 8 (base / 2 ^ 16),
  bit_and_ones 8 (base / 2 ^ 24),
  bit_and_ones 32 (base / 2 ^ 32),
)

-- The entry point that an interrupt is to reach.
unfoldable pub entry_point : EntryPoints → ℕ → ℕ
entry_point f i =
    if i == 3
    then f.interrupt_entrypoint3
    else if i == 6
    then f.interrupt_entrypoint6
    else if i == 8
    then f.interrupt_entrypoint8
    else if i == 13
    then f.interrupt_entrypoint13
    else if i == 14
    then f.interrupt_entrypoint14
    else if i == 32
    then f.interrupt_entrypoint32
    else f.int_handler_unimplemented

abbrev pub gate_attr : ℕ → IdtAttr
gate_attr i = if i == 3 then int_gate_dpl3 else int_gate_dpl0

abbrev pub gate_stack : ℕ → ℕ
gate_stack i = if i == 8 then 2 else 1

get_or-replicate : {A : Type 0} (n i : ℕ) (x d : A) → i < n → get_or (replicate n x) i d ≡ x
get_or-replicate zero i x d h = absurd (omega arith)
get_or-replicate (suc n) zero x d h = refl
get_or-replicate (suc n) (suc i) x d h = get_or-replicate n i x d (omega arith)

-- An index is one of the six that have an entry point, or none of them.
by_entry :
    (P : ℕ → Type 0)
    → P 3
    → P 6
    → P 8
    → P 13
    → P 14
    → P 32
    → ((i : ℕ) → i ≢ 3 → i ≢ 6 → i ≢ 8 → i ≢ 13 → i ≢ 14 → i ≢ 32 → P i)
    → (i : ℕ) → P i
by_entry P p3 p6 p8 p13 p14 p32 other i = elim (ℕ_discrete i 3) [
  | yes e ↦ subst P (sym e) p3
  | no n3 ↦ elim (ℕ_discrete i 6) [
    | yes e ↦ subst P (sym e) p6
    | no n6 ↦ elim (ℕ_discrete i 8) [
      | yes e ↦ subst P (sym e) p8
      | no n8 ↦ elim (ℕ_discrete i 13) [
        | yes e ↦ subst P (sym e) p13
        | no n13 ↦ elim (ℕ_discrete i 14) [
          | yes e ↦ subst P (sym e) p14
          | no n14 ↦ elim (ℕ_discrete i 32) [
            | yes e ↦ subst P (sym e) p32
            | no n32 ↦ other i n3 n6 n8 n13 n14 n32
          ]
        ]
      ]
    ]
  ]
]

module _ (f : EntryPoints) (s : ℕ) (d : IdtDescriptor) where
  abbrev Right : ℕ → Type 0
  Right i =
      get_or (idt_entries f s) i d
      ≡ new_idt_descriptor s (gate_stack i) (gate_attr i) (entry_point f i)

  entry_point-other :
      (i : ℕ)
      → i ≢ 3
      → i ≢ 6
      → i ≢ 8
      → i ≢ 13
      → i ≢ 14
      → i ≢ 32
      → new_idt_descriptor s (gate_stack i) (gate_attr i) (entry_point f i)
        ≡ new_idt_descriptor s 1 int_gate_dpl0 f.int_handler_unimplemented
  unfolding entry_point
  entry_point-other i n3 n6 n8 n13 n14 n32 =
      rw (≢→== i 3 n3, ≢→== i 6 n6, ≢→== i 8 n8, ≢→== i 13 n13, ≢→== i 14 n14, ≢→== i 32 n32) refl

  other_entry :
      (xs : List IdtDescriptor) (v3 v6 v8 v13 v14 v32 : IdtDescriptor) (i : ℕ)
      → i ≢ 3
      → i ≢ 6
      → i ≢ 8
      → i ≢ 13
      → i ≢ 14
      → i ≢ 32
      → get_or (set (set (set (set (set (set xs 3 v3) 6 v6) 8 v8) 13 v13) 14 v14) 32 v32) i d
        ≡ get_or xs i d
  other_entry xs v3 v6 v8 v13 v14 v32 i n3 n6 n8 n13 n14 n32 =
      get_or-set_ne _ 32 i v32 d (λ e. n32 (sym e))
      ∙ get_or-set_ne _ 14 i v14 d (λ e. n14 (sym e))
      ∙ get_or-set_ne _ 13 i v13 d (λ e. n13 (sym e))
      ∙ get_or-set_ne _ 8 i v8 d (λ e. n8 (sym e))
      ∙ get_or-set_ne _ 6 i v6 d (λ e. n6 (sym e))
      ∙ get_or-set_ne xs 3 i v3 d (λ e. n3 (sym e))

  entries-Right : (i : ℕ) → i < 256 → Right i
  unfolding idt_entries entry_point
  entries-Right =
      by_entry (λ i. i < 256 → Right i) (λ h. refl) (λ h. refl) (λ h. refl) (λ h. refl) (λ h. refl)
        (λ h. refl)
        (λ i n3 n6 n8 n13 n14 n32 h.
          other_entry
            (replicate 256 (new_idt_descriptor s 1 int_gate_dpl0 f.int_handler_unimplemented)) _ _ _
            _ _ _ i n3 n6 n8 n13 n14 n32
          ∙ get_or-replicate 256 i _ d h
          ∙ sym (entry_point-other i n3 n6 n8 n13 n14 n32))

gate_ist :
    (stacks : ℕ → ℕ) (i : ℕ)
    → get_or (new_tss64 stacks)._ist (gate_stack i) 0
      ≡ alloc_interrupt_stack (stacks (gate_stack i))
unfolding new_tss64
gate_ist stacks i = elim (ℕ_discrete i 8) [
  | yes e ↦ rw (≡→== i 8 e) refl
  | no n ↦ rw (≢→== i 8 n) refl
]

-- For each of the 256 interrupts, with an entry point of 64 bits: the gate of the table leads to the
-- entry point of that interrupt, which is `int_handler_unimplemented` where there is none of its
-- own; it has the given selector, user code may call it for interrupt 3 alone, and its stack, the
-- second for interrupt 8 and the first for all others, is one that the task state has.
pub idt_entries-gates :
    (f : EntryPoints) (stacks : ℕ → ℕ) (s i : ℕ) (d : IdtDescriptor)
    → i < 256
    → entry_point f i < 2 ^ 64
    → let gate = get_or (idt_entries f s) i d in
      (target gate ≡ entry_point f i)
      × (gate.segment_selector ≡ s)
      × (gate.attr ≡ gate_attr i)
      × (gate.ist_index ≡ gate_stack i)
      × (get_or (new_tss64 stacks)._ist gate.ist_index 0
          ≡ alloc_interrupt_stack (stacks (gate_stack i)))
unfolding new_idt_descriptor
idt_entries-gates f stacks s i d h word =
    let right = entries-Right f s d i h in
    (
      ap target right ∙ target-new s (gate_stack i) (gate_attr i) (entry_point f i) word,
      ap (λ (g : IdtDescriptor). g.segment_selector) right,
      ap (λ (g : IdtDescriptor). g.attr) right,
      ap (λ (g : IdtDescriptor). g.ist_index) right,
      ap (λ (g : IdtDescriptor). get_or (new_tss64 stacks)._ist g.ist_index 0) right
          ∙ gate_ist stacks i,
    )
