-- ===== src/Descriptors/Gates.antt =====
-- `initialize_idt` (src/idt.c): the gate of each interrupt.
use os_2024_ususbuntu_with_s.Prelude.{
  ℕ, zero, suc, ◌+◌, ◌*◌, ◌^◌, ◌<◌, ◌≤◌, ◌≡◌, refl, sym, ◌∙◌, List, ltb, if◌then◌else◌, arith,
  length, length-set, get_or-set_self, get_or-set_ne, ℕ_discrete, subst, set, ◌⊎◌, inl, inr,
}
use os_2024_ususbuntu_with_s.Descriptors.{
  IdtGate, empty_gate, gate_for, gate_at, gate_loop, set_interrupt_gate, initialize_idt,
  idt_max_entry_count, isr_stub_table_limit, gdt_kernel_code_segment_selector,
}

-- Where the processor goes on, and from which privilege level a program may ask for it.
abbrev pub gate_offset : IdtGate → ℕ
gate_offset g = g.offset_high * 65536 + g.offset_low

pub record IsGate (g : IdtGate) (i handler : ℕ) : Type 0 where
  pub offset : gate_offset g ≡ handler
  pub valid : g.valid_bit ≡ 1
  pub wide : g.gate_32 ≡ 1
  pub selector : g.segment ≡ gdt_kernel_code_segment_selector
  pub kernel_only : i < 48 → g.privilege ≡ 0
  pub user_too : 48 ≤ i → g.privilege ≡ 3

-- The gates from `lo` on are set, the others stay.
record AreGates (stubs : ℕ → ℕ) (lo hi : ℕ) (table table' : List IdtGate) : Type 0 where
  gates : (i : ℕ) → lo ≤ i → i < hi → stubs i < 2 ^ 32 → IsGate (gate_at table' i) i (stubs i)
  others : (i : ℕ) → (i < lo) ⊎ (hi ≤ i) → gate_at table' i ≡ gate_at table i

-- The gate of one round.
new-IsGate :
    (i handler : ℕ)
    → handler < 2 ^ 32
    → IsGate (gate_for handler 8 (if ltb i 48 then 0 else 3)) i handler
new-IsGate i handler h = record {
  offset = omega arith;
  valid = refl;
  wide = refl;
  selector = refl;
  kernel_only = λ lt. ground arith;
  user_too = λ le. ground arith;
}

gate_loop-AreGates :
    (left i : ℕ) (stubs : ℕ → ℕ) (table : List IdtGate)
    → i + left ≤ length table
    → AreGates stubs i (i + left) table (gate_loop left i stubs table)
unfolding gate_loop set_interrupt_gate
gate_loop-AreGates zero i stubs table h = record {
  gates = λ k lo hi small. absurd (omega arith);
  others = λ k out. refl;
}
gate_loop-AreGates (suc left) i stubs table h =
    let new : IdtGate = gate_for (stubs i) 8 (if ltb i 48 then 0 else 3) in
    let ih : AreGates stubs (i + 1) (i + 1 + left) (set table i new)
        (gate_loop left (i + 1) stubs (set table i new)) =
      gate_loop-AreGates left (i + 1) stubs (set table i new)
        (omega (arith, length-set table i new)) in
    record {
      gates = λ k lo hi small. elim (ℕ_discrete k i) [
        | yes e ↦
            let self : gate_at (gate_loop left (i + 1) stubs (set table i new)) i ≡ new =
              ih.others i (inl (omega arith))
              ∙ get_or-set_self table i new empty_gate (omega arith) in
            subst
              (λ x. IsGate (gate_at (gate_loop left (i + 1) stubs (set table i new)) x) x (stubs x))
              (sym e)
              (subst (λ g. IsGate g i (stubs i)) (sym self)
                (new-IsGate i (stubs i) (subst (λ x. stubs x < 2 ^ 32) e small)))
        | no ne ↦ ih.gates k (omega arith) (omega arith) small
      ];
      others = λ k out. elim out [
        | inl low ↦
            ih.others k (inl (omega arith)) ∙ get_or-set_ne table i k new empty_gate (omega arith)
        | inr high ↦
            ih.others k (inr (omega arith)) ∙ get_or-set_ne table i k new empty_gate (omega arith)
      ];
    }

-- In a table of 256 gates and for handlers at 32-bit addresses, after initialize_idt each of the
-- first 64 gates is valid and leads to its handler in the kernel's code segment, for the kernel
-- alone below number 48 and for user programs from there on; the other gates stay.
pub initialize_idt-IsGate :
    (stubs : ℕ → ℕ) (table : List IdtGate)
    → length table ≡ idt_max_entry_count
    → ((i : ℕ) → stubs i < 2 ^ 32)
    → ((i : ℕ)
        → i < isr_stub_table_limit
        → IsGate (gate_at (initialize_idt stubs table) i) i (stubs i))
      × ((i : ℕ)
          → isr_stub_table_limit ≤ i
          → gate_at (initialize_idt stubs table) i ≡ gate_at table i)
unfolding initialize_idt
initialize_idt-IsGate stubs table sized small =
    let a : AreGates stubs 0 64 table (gate_loop 64 0 stubs table) =
      gate_loop-AreGates 64 0 stubs table (omega (arith, sized)) in
    (λ i lt. a.gates i (omega arith) lt (small i), λ i le. a.others i (inr le))
