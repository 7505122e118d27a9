-- ===== src/Paging/Laws.antt =====
-- `update_page_directory_entry` (src/paging.c): what an address translates to after it.
use os_2024_ususbuntu_with_s.Prelude.{
  ℕ, ◌<◌, ◌≡◌, ◌≢◌, sym, ap, ◌∙◌, arith, length, get_or, set, get_or-set_self, get_or-set_ne,
  length-set,
}
use os_2024_ususbuntu_with_s.Paging.{
  PageDirectory, PageDirectoryEntry, PageDirectoryEntryFlag, empty_entry, frame_index,
  page_entry_count, update_page_directory_entry,
}

pub frame_index-lt : (addr : ℕ) → frame_index addr < page_entry_count
unfolding frame_index
frame_index-lt addr = omega arith

-- The entry that the MMU uses for a virtual address.
abbrev pub entry_of : PageDirectory → ℕ → PageDirectoryEntry
entry_of d virtual_addr = get_or d (frame_index virtual_addr) empty_entry

module _ (d : PageDirectory) (sized : length d ≡ page_entry_count) (physical_addr virtual_addr : ℕ)
    (flag : PageDirectoryEntryFlag) where
  -- In a directory of 1024 entries, after the update every address of the virtual page of 4 MiB
  -- has the given flags and the physical frame, the addresses of other pages keep their entry, and
  -- the directory keeps its size.
  pub update_page_directory_entry-entry_of :
      ((a : ℕ)
        → frame_index a ≡ frame_index virtual_addr
        → ((entry_of (update_page_directory_entry d physical_addr virtual_addr flag) a).flag ≡ flag)
          × ((entry_of
                (update_page_directory_entry d physical_addr virtual_addr flag)
                a).lower_address
              ≡ frame_index physical_addr))
      × ((a : ℕ)
          → frame_index a ≢ frame_index virtual_addr
          → entry_of (update_page_directory_entry d physical_addr virtual_addr flag) a
            ≡ entry_of d a)
      × (length (update_page_directory_entry d physical_addr virtual_addr flag) ≡ page_entry_count)
  unfolding update_page_directory_entry
  update_page_directory_entry-entry_of = (
    λ a e. rw e (
      ap (λ x. PageDirectoryEntry.flag x) self,
      ap (λ x. PageDirectoryEntry.lower_address x) self,
    ),
    λ a ne.
        get_or-set_ne d (frame_index virtual_addr) (frame_index a) fresh empty_entry
          (λ e. ne (sym e)),
    length-set d (frame_index virtual_addr) fresh ∙ sized,
  )
    where
      fresh : PageDirectoryEntry
      fresh = record (get_or d (frame_index virtual_addr) empty_entry) {
        flag = flag;
        lower_address = frame_index physical_addr;
      }

      self :
          get_or (set d (frame_index virtual_addr) fresh) (frame_index virtual_addr) empty_entry
          ≡ fresh
      self =
          get_or-set_self d (frame_index virtual_addr) fresh empty_entry
            (omega (arith, sized, frame_index-lt virtual_addr))
