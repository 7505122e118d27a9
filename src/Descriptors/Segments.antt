-- ===== src/Descriptors/Segments.antt =====
-- `gdt_install_tss` (src/gdt.c): the descriptor of the task state segment.
use os_2024_ususbuntu_with_s.Prelude.{
  ℕ, ◌+◌, ◌*◌, ◌/◌, ◌%◌, ◌^◌, ◌<◌, ◌≡◌, ◌≢◌, sym, ap, ◌∙◌, List, arith, length, get_or-set_self,
  get_or-set_ne,
}
use os_2024_ususbuntu_with_s.Descriptors.{
  SegmentDescriptor, null_descriptor, tss_descriptor, segment_at, gdt_install_tss, tss_size,
}

-- What the processor makes of a descriptor.
abbrev pub base_of : SegmentDescriptor → ℕ
base_of s = s.base_high * 2 ^ 24 + s.base_mid * 2 ^ 16 + s.base_low

abbrev pub limit_of : SegmentDescriptor → ℕ
limit_of s = s.segment_high * 65536 + s.segment_low

-- The entry that is stored.
abbrev installed : ℕ → SegmentDescriptor → SegmentDescriptor
installed base old = record old {
  base_high = base / 2 ^ 24 % 256;
  base_mid = base / 2 ^ 16 % 256;
  base_low = base % 65536;
}

base_of-installed :
    (base : ℕ) (old : SegmentDescriptor) → base < 2 ^ 32 → base_of (installed base old) ≡ base
base_of-installed base old h = omega arith

-- In a table whose entry 5 is the descriptor of the task state segment, gdt_install_tss makes the
-- processor read a 32-bit base address back from it, with the segment's size as its limit, and
-- leaves the other entries.
pub gdt_install_tss-base_of :
    (base : ℕ) (table : List SegmentDescriptor)
    → base < 2 ^ 32
    → 5 < length table
    → segment_at table 5 ≡ tss_descriptor
    → (base_of (segment_at (gdt_install_tss base table) 5) ≡ base)
      × (limit_of (segment_at (gdt_install_tss base table) 5) ≡ tss_size)
      × ((segment_at (gdt_install_tss base table) 5).present ≡ 1)
      × ((i : ℕ) → i ≢ 5 → segment_at (gdt_install_tss base table) i ≡ segment_at table i)
unfolding gdt_install_tss
gdt_install_tss-base_of base table small long e =
    let old = segment_at table 5 in
    let self : segment_at (gdt_install_tss base table) 5 ≡ installed base old =
      get_or-set_self table 5 (installed base old) null_descriptor long in
    (
      ap base_of self ∙ base_of-installed base old small,
      ap limit_of self ∙ ap limit_of e,
      ap (λ s. SegmentDescriptor.present s) self ∙ ap (λ s. SegmentDescriptor.present s) e,
      λ i ne. get_or-set_ne table 5 i (installed base old) null_descriptor (λ h. ne (sym h)),
    )
