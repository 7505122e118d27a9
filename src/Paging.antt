-- ===== src/Paging.antt =====
-- Page directories and page frames: src/paging.c and src/header/memory/paging.h.
-- A `struct PageDirectory *` that the kernel passes around is null or points at a slot of
-- `page_directory_list`: `Option ℕ`. The TLB flush is left out, since no C code reads it back.
pub mod Laws
pub mod Frames
pub mod Pool
use os_2024_ususbuntu_with_s.Prelude.{
  ℕ, zero, suc, ◌+◌, ◌-◌, ◌%◌, ◌/◌, ◌^◌, Bool, true, false, not, List, [], ◌∷◌, ◌++◌, Option, none,
  some, ltb, leb, if◌then◌else◌, length, get_or, set, replicate,
}

abbrev pub page_entry_count : ℕ
page_entry_count = 1024

abbrev pub page_frame_size : ℕ
page_frame_size = 4194304

abbrev pub page_frame_max_count : ℕ
page_frame_max_count = 32

abbrev pub paging_directory_table_max_count : ℕ
paging_directory_table_max_count = 32

pub record PageDirectoryEntryFlag : Type 0 where
  pub present_bit : Bool
  pub write_bit : Bool
  pub user_bit : Bool
  pub pwt_bit : Bool
  pub pcd_bit : Bool
  pub accessed_bit : Bool
  pub dirty_bit : Bool
  pub use_pagesize_4_mb : Bool

pub record PageDirectoryEntry : Type 0 where
  pub flag : PageDirectoryEntryFlag
  pub global_page : Bool
  pub reserved_1 : ℕ
  pub pat : Bool
  pub higher_address : ℕ
  pub reserved_2 : Bool
  pub lower_address : ℕ

abbrev pub PageDirectory : Type 0
PageDirectory = List PageDirectoryEntry

pub record PageManagerState : Type 0 where
  pub page_frame_map : List Bool
  pub free_page_frame_count : ℕ

-- The statics of the file: `page_manager_state`, `page_directory_list` and
-- `page_directory_manager.page_directory_used`.
pub record Paging : Type 0 where
  pub manager : PageManagerState
  pub directories : List PageDirectory
  pub page_directory_used : List Bool

abbrev pub empty_flag : PageDirectoryEntryFlag
empty_flag = record {
  present_bit = false;
  write_bit = false;
  user_bit = false;
  pwt_bit = false;
  pcd_bit = false;
  accessed_bit = false;
  dirty_bit = false;
  use_pagesize_4_mb = false;
}

abbrev pub user_flag : PageDirectoryEntryFlag
user_flag = record {
  present_bit = true;
  write_bit = true;
  user_bit = true;
  pwt_bit = false;
  pcd_bit = false;
  accessed_bit = false;
  dirty_bit = false;
  use_pagesize_4_mb = true;
}

abbrev pub kernel_flag : PageDirectoryEntryFlag
kernel_flag = record user_flag { user_bit = false }

abbrev pub empty_entry : PageDirectoryEntry
empty_entry = record {
  flag = empty_flag;
  global_page = false;
  reserved_1 = 0;
  pat = false;
  higher_address = 0;
  reserved_2 = false;
  lower_address = 0;
}

-- Entries 0 and 0x300 of `_paging_kernel_page_directory`.
abbrev pub kernel_entry : PageDirectoryEntry
kernel_entry = record empty_entry { flag = kernel_flag }

abbrev pub empty_directory : PageDirectory
empty_directory = replicate page_entry_count empty_entry

-- The statics as the file initialises them.
abbrev pub paging_at_boot : Paging
paging_at_boot = record {
  manager = record {
    page_frame_map = true ∷ replicate 31 false;
    free_page_frame_count = page_frame_max_count;
  };
  directories = replicate paging_directory_table_max_count empty_directory;
  page_directory_used = replicate paging_directory_table_max_count false;
}

-- `(addr >> 22) & 0x3FF`.
unfoldable pub frame_index : ℕ → ℕ
frame_index addr = addr / 2 ^ 22 % 1024

unfoldable pub update_page_directory_entry :
    PageDirectory → ℕ → ℕ → PageDirectoryEntryFlag → PageDirectory
update_page_directory_entry page_dir physical_addr virtual_addr flag =
    let page_index = frame_index virtual_addr in
    set page_dir page_index record (get_or page_dir page_index empty_entry) {
      flag = flag;
      lower_address = frame_index physical_addr;
    }

unfoldable pub paging_allocate_check : PageManagerState → ℕ → Bool
paging_allocate_check m amount = leb amount m.free_page_frame_count

-- A write into `page_frame_map`: `none` where the index is past its 32 entries, at which the C code
-- overwrites what follows the array. The index is a `uint32_t` difference.
unfoldable pub mark_frame : PageManagerState → Bool → Option PageManagerState
mark_frame m used =
    let i = (page_frame_max_count + 2 ^ 32 - m.free_page_frame_count) % 2 ^ 32 in
    if ltb i page_frame_max_count
    then some record m { page_frame_map = set m.page_frame_map i used }
    else none

pub record FrameResult : Type 0 where
  pub manager : PageManagerState
  pub page_dir : PageDirectory
  pub success : Bool

unfoldable pub paging_allocate_user_page_frame :
    PageManagerState → PageDirectory → ℕ → Option FrameResult
paging_allocate_user_page_frame m page_dir virtual_addr =
    let physical_addr = m.free_page_frame_count in
    if not (paging_allocate_check m physical_addr)
    then some record { manager = m; page_dir = page_dir; success = false }
    else elim (mark_frame m true) [
      | none ↦ none
      | some m' ↦ some record {
        manager = record m' {
          free_page_frame_count = (m.free_page_frame_count + 2 ^ 32 - 1) % 2 ^ 32;
        };
        page_dir = update_page_directory_entry page_dir physical_addr virtual_addr user_flag;
        success = true;
      }
    ]

-- The entry keeps its `global_page`, `pat` and the other bits that the code does not name.
unfoldable pub paging_free_user_page_frame :
    PageManagerState → PageDirectory → ℕ → Option FrameResult
paging_free_user_page_frame m page_dir virtual_addr = elim (mark_frame m false) [
  | none ↦ none
  | some m' ↦
      let page_index = frame_index virtual_addr in
      some record {
        manager = record m' { free_page_frame_count = (m.free_page_frame_count + 1) % 2 ^ 32 };
        page_dir = set page_dir page_index record (get_or page_dir page_index empty_entry) {
          flag = empty_flag;
          lower_address = 0;
        };
        success = true;
      }
]

-- The rounds left and `i`.
unfoldable pub unused_loop : ℕ → ℕ → List Bool → Option ℕ
unused_loop zero i used = none
unused_loop (suc rounds) i used =
    let rest = unused_loop rounds (i + 1) used in if not (get_or used i false) then some i else rest

-- The new directory keeps what its slot holds in the other entries.
unfoldable pub paging_create_new_page_directory : Paging → Option ℕ × Paging
paging_create_new_page_directory p =
    elim (unused_loop paging_directory_table_max_count 0 p.page_directory_used) [
      | none ↦ (none, p)
      | some i ↦ (
        some i,
        record p {
          directories =
              set p.directories i (
                set (set (get_or p.directories i empty_directory) 0 kernel_entry) 768 kernel_entry);
          page_directory_used = set p.page_directory_used i true;
        },
      )
    ]

-- Freeing clears four flag bits and the address.
abbrev pub clear_entry : PageDirectoryEntry → PageDirectoryEntry
clear_entry e = record e {
  flag = record e.flag {
    present_bit = false;
    write_bit = false;
    user_bit = false;
    use_pagesize_4_mb = false;
  };
  lower_address = 0;
}

unfoldable pub clear_entries : PageDirectory → PageDirectory
clear_entries [] = []
clear_entries (e ∷ page_dir) = clear_entry e ∷ clear_entries page_dir

unfoldable pub paging_free_page_directory : Paging → Option ℕ → Bool × Paging
paging_free_page_directory p none = (false, p)
paging_free_page_directory p (some i) =
    if ltb i paging_directory_table_max_count
    then (
      true,
      record p {
        directories = set p.directories i (clear_entries (get_or p.directories i empty_directory));
        page_directory_used = set p.page_directory_used i false;
      },
    )
    else (false, p)
