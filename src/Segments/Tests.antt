-- ===== src/Segments/Tests.antt =====
-- The theorem on the table of interrupts at the page fault, with concrete entry points.
use original_os_with_rust.Prelude.{ℕ, ◌+◌, ◌*◌, ◌≡◌, refl, arith, get_or}
use original_os_with_rust.Segments.{
  IdtDescriptor, int_gate_dpl0, EntryPoints, idt_entries, new_tss64, alloc_interrupt_stack,
}
use original_os_with_rust.Segments.Gates.{
  target, entry_point, gate_attr, gate_stack, idt_entries-gates,
}

abbrev entry_points : EntryPoints
entry_points = record {
  int_handler_unimplemented = 0x100000;
  interrupt_entrypoint3 = 0x200003;
  interrupt_entrypoint6 = 0x200006;
  interrupt_entrypoint8 = 0x200008;
  interrupt_entrypoint13 = 0x200013;
  interrupt_entrypoint14 = 0xffff800000200014;
  interrupt_entrypoint32 = 0x200032;
}

abbrev no_gate : IdtDescriptor
no_gate = record {
  offset_low = 0;
  segment_selector = 0;
  ist_index = 0;
  attr = int_gate_dpl0;
  offset_mid = 0;
  offset_high = 0;
  _reserved = 0;
}

abbrev stack_at : ℕ → ℕ
stack_at i = 0x300000 + i * 0x10000

page_fault_word : entry_point entry_points 14 ≡ 0xffff800000200014
unfolding entry_point
page_fault_word = refl

idt_entries-gates_example :
    let gate = get_or (idt_entries entry_points 8) 14 no_gate in
    (target gate ≡ entry_point entry_points 14)
    × (gate.segment_selector ≡ 8)
    × (gate.attr ≡ gate_attr 14)
    × (gate.ist_index ≡ gate_stack 14)
    × (get_or (new_tss64 stack_at)._ist gate.ist_index 0
        ≡ alloc_interrupt_stack (stack_at (gate_stack 14)))
idt_entries-gates_example =
    idt_entries-gates entry_points stack_at 8 14 no_gate (omega arith)
      (omega (arith, page_fault_word))
