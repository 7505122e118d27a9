-- ===== src/Descriptors.antt =====
-- The tables that the processor reads: src/gdt.c, src/idt.c and their headers. The addresses of the
-- handlers and of the task state segment are given; loading the registers is assembly.
pub mod Gates
pub mod Segments
use os_2024_ususbuntu_with_s.Prelude.{
  ℕ, zero, suc, ◌+◌, ◌*◌, ◌/◌, ◌%◌, ◌^◌, Bool, true, false, List, [], ◌∷◌, ◌++◌, ltb, if◌then◌else◌,
  get_or, set, replicate,
}

-- `struct SegmentDescriptor`
pub record SegmentDescriptor : Type 0 where
  pub segment_low : ℕ
  pub base_low : ℕ
  pub base_mid : ℕ
  pub type_bit : ℕ
  pub non_system : ℕ
  pub privilege_level : ℕ
  pub present : ℕ
  pub segment_high : ℕ
  pub available : ℕ
  pub l_bit : ℕ
  pub default_operation_size : ℕ
  pub granularity : ℕ
  pub base_high : ℕ

abbrev pub null_descriptor : SegmentDescriptor
null_descriptor = record {
  segment_low = 0;
  base_low = 0;
  base_mid = 0;
  type_bit = 0;
  non_system = 0;
  privilege_level = 0;
  present = 0;
  segment_high = 0;
  available = 0;
  l_bit = 0;
  default_operation_size = 0;
  granularity = 0;
  base_high = 0;
}

abbrev pub kernel_code : SegmentDescriptor
kernel_code = record null_descriptor {
  segment_low = 65535;
  type_bit = 10;
  non_system = 1;
  present = 1;
  segment_high = 15;
  default_operation_size = 1;
  granularity = 1;
}

abbrev pub kernel_data : SegmentDescriptor
kernel_data = record kernel_code { type_bit = 2 }

abbrev pub user_code : SegmentDescriptor
user_code = record kernel_code { privilege_level = 3 }

abbrev pub user_data : SegmentDescriptor
user_data = record kernel_data { privilege_level = 3 }

-- `sizeof(struct TSSEntry)`: 26 words.
abbrev pub tss_size : ℕ
tss_size = 104

abbrev pub tss_descriptor : SegmentDescriptor
tss_descriptor = record null_descriptor {
  segment_low = tss_size;
  type_bit = 9;
  present = 1;
  segment_high = tss_size / 65536 % 16;
  default_operation_size = 1;
}

abbrev pub gdt_max_entry_count : ℕ
gdt_max_entry_count = 32

abbrev pub global_descriptor_table : List SegmentDescriptor
global_descriptor_table =
    (null_descriptor ∷ kernel_code ∷ kernel_data ∷ user_code ∷ user_data ∷ tss_descriptor ∷ [])
    ++ replicate 26 null_descriptor

abbrev pub segment_at : List SegmentDescriptor → ℕ → SegmentDescriptor
segment_at table i = get_or table i null_descriptor

unfoldable pub gdt_install_tss : ℕ → List SegmentDescriptor → List SegmentDescriptor
gdt_install_tss base table = set table 5 (record (segment_at table 5) {
  base_high = base / 2 ^ 24 % 256;
  base_mid = base / 2 ^ 16 % 256;
  base_low = base % 65536;
})

-- `struct IDTGate`
pub record IdtGate : Type 0 where
  pub offset_low : ℕ
  pub segment : ℕ
  pub r_bit_1 : ℕ
  pub r_bit_2 : ℕ
  pub gate_32 : ℕ
  pub r_bit_3 : ℕ
  pub privilege : ℕ
  pub valid_bit : ℕ
  pub offset_high : ℕ

abbrev pub empty_gate : IdtGate
empty_gate = record {
  offset_low = 0;
  segment = 0;
  r_bit_1 = 0;
  r_bit_2 = 0;
  gate_32 = 0;
  r_bit_3 = 0;
  privilege = 0;
  valid_bit = 0;
  offset_high = 0;
}

abbrev pub idt_max_entry_count : ℕ
idt_max_entry_count = 256

abbrev pub isr_stub_table_limit : ℕ
isr_stub_table_limit = 64

abbrev pub gdt_kernel_code_segment_selector : ℕ
gdt_kernel_code_segment_selector = 8

abbrev pub interrupt_descriptor_table : List IdtGate
interrupt_descriptor_table = replicate idt_max_entry_count empty_gate

abbrev pub gate_at : List IdtGate → ℕ → IdtGate
gate_at table i = get_or table i empty_gate

-- The gate that is stored. The five reserved bits, which no code sets, are left out.
abbrev pub gate_for : ℕ → ℕ → ℕ → IdtGate
gate_for handler_address gdt_seg_selector privilege = record {
  offset_low = handler_address % 65536;
  segment = gdt_seg_selector;
  r_bit_1 = 0;
  r_bit_2 = 6;
  gate_32 = 1;
  r_bit_3 = 0;
  privilege = privilege;
  valid_bit = 1;
  offset_high = handler_address / 65536 % 65536;
}

unfoldable pub set_interrupt_gate : List IdtGate → ℕ → ℕ → ℕ → ℕ → List IdtGate
set_interrupt_gate table int_vector handler_address gdt_seg_selector privilege =
    set table int_vector (gate_for handler_address gdt_seg_selector privilege)

-- The rounds left and `i`.
unfoldable pub gate_loop : ℕ → ℕ → (ℕ → ℕ) → List IdtGate → List IdtGate
gate_loop zero i isr_stub_table table = table
gate_loop (suc left) i isr_stub_table table = gate_loop left (i + 1) isr_stub_table (
    set_interrupt_gate table i (isr_stub_table i) gdt_kernel_code_segment_selector
      (if ltb i 48 then 0 else 3))

unfoldable pub initialize_idt : (ℕ → ℕ) → List IdtGate → List IdtGate
initialize_idt isr_stub_table table = gate_loop isr_stub_table_limit 0 isr_stub_table table
