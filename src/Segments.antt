-- ===== src/Segments.antt =====
-- x86.rs: the descriptors of interrupts, of segments and of the task state. The addresses of the
-- entry points, of the stacks and of the boxed structures are arguments, since the linker and the heap
-- choose them; the loads of the registers are inline assembly.
pub mod Gates
pub mod Tests
use original_os_with_rust.Prelude.{
  ℕ, zero, suc, ◌+◌, ◌*◌, ◌/◌, ◌%◌, ◌^◌, bit_and, bit_or, List, [], ◌∷◌, set, replicate,
}
use original_os_with_rust.Words.Ops.{wrap, shr, add_word}

abbrev pub bit_flags_intgate : ℕ
bit_flags_intgate = 0x0e

abbrev pub bit_flags_present : ℕ
bit_flags_present = 0x80

abbrev pub bit_flags_dpl0 : ℕ
bit_flags_dpl0 = 0 * 2 ^ 5

abbrev pub bit_flags_dpl3 : ℕ
bit_flags_dpl3 = 3 * 2 ^ 5

pub data IdtAttr : Type 0 where
  gate_not_present int_gate_dpl0 int_gate_dpl3 : IdtAttr

-- `attr as u8`.
unfoldable pub idt_attr_bits : IdtAttr → ℕ
idt_attr_bits gate_not_present = 0
idt_attr_bits int_gate_dpl0 = bit_or (bit_or bit_flags_intgate bit_flags_present) bit_flags_dpl0
idt_attr_bits int_gate_dpl3 = bit_or (bit_or bit_flags_intgate bit_flags_present) bit_flags_dpl3

pub record IdtDescriptor : Type 0 where
  pub offset_low : ℕ
  pub segment_selector : ℕ
  pub ist_index : ℕ
  pub attr : IdtAttr
  pub offset_mid : ℕ
  pub offset_high : ℕ
  pub _reserved : ℕ

-- `IdtDescriptor::new`.
unfoldable pub new_idt_descriptor : (segment_selector ist_index : ℕ) → IdtAttr → ℕ → IdtDescriptor
new_idt_descriptor segment_selector ist_index attr handler_addr = record {
  offset_low = wrap 16 handler_addr;
  offset_mid = wrap 16 (shr 64 handler_addr 16);
  offset_high = wrap 32 (shr 64 handler_addr 32);
  segment_selector = segment_selector;
  ist_index = ist_index;
  attr = attr;
  _reserved = 0;
}

-- The addresses of the entry points.
pub record EntryPoints : Type 0 where
  pub int_handler_unimplemented : ℕ
  pub interrupt_entrypoint3 : ℕ
  pub interrupt_entrypoint6 : ℕ
  pub interrupt_entrypoint8 : ℕ
  pub interrupt_entrypoint13 : ℕ
  pub interrupt_entrypoint14 : ℕ
  pub interrupt_entrypoint32 : ℕ

-- The table that `Idt::new` fills.
unfoldable pub idt_entries : EntryPoints → ℕ → List IdtDescriptor
idt_entries f s =
    let e0 = replicate 0x100 (new_idt_descriptor s 1 int_gate_dpl0 f.int_handler_unimplemented) in
    let e1 = set e0 3 (new_idt_descriptor s 1 int_gate_dpl3 f.interrupt_entrypoint3) in
    let e2 = set e1 6 (new_idt_descriptor s 1 int_gate_dpl0 f.interrupt_entrypoint6) in
    let e3 = set e2 8 (new_idt_descriptor s 2 int_gate_dpl0 f.interrupt_entrypoint8) in
    let e4 = set e3 13 (new_idt_descriptor s 1 int_gate_dpl0 f.interrupt_entrypoint13) in
    let e5 = set e4 14 (new_idt_descriptor s 1 int_gate_dpl0 f.interrupt_entrypoint14) in
    set e5 32 (new_idt_descriptor s 1 int_gate_dpl0 f.interrupt_entrypoint32)

-- The pseudo descriptor of `lidt`; `base` is the address of the table.
pub record IdtrParameters : Type 0 where
  pub limit : ℕ
  pub base : ℕ

-- An entry has 16 bytes.
unfoldable pub idtr_parameters : ℕ → IdtrParameters
idtr_parameters base = record { limit = wrap 16 (0x100 * 16); base = base }

-- The stack pointers of the task state; the other fields are 0.
pub record TaskStateSegment64Inner : Type 0 where
  pub _rsp : List ℕ
  pub _ist : List ℕ

-- `alloc_interrupt_stack`: the end of a box of 64 KiB at `stack`.
unfoldable pub alloc_interrupt_stack : ℕ → ℕ
alloc_interrupt_stack stack = add_word 64 stack (64 * 1024)

-- `TaskStateSegment64::new`; the `i`-th stack that it boxes is at `stacks i`.
unfoldable pub new_tss64 : (ℕ → ℕ) → TaskStateSegment64Inner
new_tss64 stacks = record {
  _rsp = alloc_interrupt_stack (stacks 0) ∷ 0 ∷ 0 ∷ [];
  _ist =
      0
      ∷ alloc_interrupt_stack (stacks 1)
      ∷ alloc_interrupt_stack (stacks 2)
      ∷ alloc_interrupt_stack (stacks 3)
      ∷ alloc_interrupt_stack (stacks 4)
      ∷ alloc_interrupt_stack (stacks 5)
      ∷ alloc_interrupt_stack (stacks 6)
      ∷ alloc_interrupt_stack (stacks 7)
      ∷ [];
}

abbrev pub bit_type_data : ℕ
bit_type_data = 2 * 2 ^ 43

abbrev pub bit_type_code : ℕ
bit_type_code = 3 * 2 ^ 43

abbrev pub bit_present : ℕ
bit_present = 2 ^ 47

abbrev pub bit_cs_long_mode : ℕ
bit_cs_long_mode = 2 ^ 53

abbrev pub bit_cs_readable : ℕ
bit_cs_readable = 2 ^ 41

abbrev pub bit_cs_writable : ℕ
bit_cs_writable = 2 ^ 41

pub data GdtAttr : Type 0 where
  kernel_code kernel_data : GdtAttr

-- `attr as u64`.
unfoldable pub gdt_attr_bits : GdtAttr → ℕ
gdt_attr_bits kernel_code =
    bit_or (bit_or (bit_or bit_type_code bit_present) bit_cs_long_mode) bit_cs_readable
gdt_attr_bits kernel_data = bit_or (bit_or bit_type_data bit_present) bit_cs_writable

pub record GdtSegmentDescriptor : Type 0 where
  pub value : ℕ

unfoldable pub null_segment_descriptor : GdtSegmentDescriptor
null_segment_descriptor = record { value = 0 }

unfoldable pub new_segment_descriptor : GdtAttr → GdtSegmentDescriptor
new_segment_descriptor attr = record { value = gdt_attr_bits attr }

pub record TaskStateSegment64Descriptor : Type 0 where
  pub limit_low : ℕ
  pub base_low : ℕ
  pub base_mid_low : ℕ
  pub attr : ℕ
  pub base_mid_hight : ℕ
  pub base_high : ℕ
  pub reserved : ℕ

-- `TaskStateSegment64Descriptor::new`; the task state has 104 bytes.
unfoldable pub new_tss64_descriptor : ℕ → TaskStateSegment64Descriptor
new_tss64_descriptor base_addr = record {
  limit_low = wrap 16 104;
  base_low = bit_and base_addr 0xffff;
  base_mid_low = bit_and (shr 64 base_addr 16) 0xff;
  attr = 0x8089;
  base_mid_hight = bit_and (shr 64 base_addr 24) 0xff;
  base_high = bit_and (shr 64 base_addr 32) 0xffffffff;
  reserved = 0;
}

pub record Gdt : Type 0 where
  pub null_segment : GdtSegmentDescriptor
  pub kernel_code_segment : GdtSegmentDescriptor
  pub kernel_data_segment : GdtSegmentDescriptor
  pub task_state_segment : TaskStateSegment64Descriptor

-- `GdtWrapper::default`, for a task state at that address.
unfoldable pub default_gdt : ℕ → Gdt
default_gdt phys_addr = record {
  null_segment = null_segment_descriptor;
  kernel_code_segment = new_segment_descriptor kernel_code;
  kernel_data_segment = new_segment_descriptor kernel_data;
  task_state_segment = new_tss64_descriptor phys_addr;
}
