-- ===== src/Fat32/Format.antt =====
-- Creating and loading the file system: `fs_signature`, `is_empty_storage`, `create_fat32` and
-- `initialize_filesystem_fat32` of src/fat32.c.
pub mod Boot
use Prim.Native.Char.{code as char_code}
use Prim.Native.String.{String}
use os_2024_ususbuntu_with_s.Prelude.{
  ℕ, zero, suc, ◌+◌, Bool, not, List, [], ◌∷◌, ◌++◌, if◌then◌else◌, set, replicate,
}
use os_2024_ususbuntu_with_s.Bytes.{memcmp, is_null}
use os_2024_ususbuntu_with_s.Fat32.Disk.{Disk, read_blocks, write_blocks, block_size}
use os_2024_ususbuntu_with_s.Fat32.Layout.{directory_size, empty_entry, cluster_map_size}
use os_2024_ususbuntu_with_s.Fat32.Driver.{
  DriverState, load_map, store_map, store_table, cluster_0_value, cluster_1_value,
  fat32_fat_end_of_file, fat32_fat_empty_entry, root_cluster_number,
}
use os_2024_ususbuntu_with_s.Fat32.Directory.{init_directory_table}

-- The bytes of an ASCII text.
abbrev pub codes : String → List ℕ
codes String.[] = []
codes (String.◌∷◌ c s) = char_code c ∷ codes s

abbrev pub boot_sector : ℕ
boot_sector = 0

-- Five lines of 16 characters, the last of them closed by a line feed, zeros, and "Ok".
abbrev pub fs_signature : List ℕ
fs_signature =
    codes "Course          "
    ++ (codes "Designed by     "
        ++ (codes "Lab Sister ITB  "
            ++ (codes "Made with <3    "
                ++ (codes "-----------2024" ++ (10 ∷ (replicate 430 0 ++ codes "Ok"))))))

unfoldable pub is_empty_storage : Disk → Bool
is_empty_storage d = not (is_null (memcmp (read_blocks d boot_sector 1) fs_signature block_size))

-- `for (i = 3; i < CLUSTER_MAP_SIZE; i++) cluster_map[i] = EMPTY;`: the rounds left, `i` and the map.
unfoldable pub clear_loop : ℕ → ℕ → List ℕ → List ℕ
clear_loop zero i cluster_map = cluster_map
clear_loop (suc rounds) i cluster_map =
    clear_loop rounds (i + 1) (set cluster_map i fat32_fat_empty_entry)

-- The three bytes behind the literal "root", which is one of five: `memcpy` takes eight.
pub record Behind : Type 0 where
  pub first : ℕ
  pub second : ℕ
  pub third : ℕ

unfoldable pub create_fat32 : Behind → DriverState → DriverState
create_fat32 r s =
    let cluster_map = clear_loop 509 3 (
      set (set (set s.cluster_map 0 cluster_0_value) 1 cluster_1_value) root_cluster_number
        fat32_fat_end_of_file) in
    let root_dir_table =
      init_directory_table (replicate directory_size empty_entry)
        (codes "root" ++ (0 ∷ (r.first ∷ (r.second ∷ (r.third ∷ []))))) root_cluster_number in
    record s {
      disk =
          store_table (store_map (write_blocks s.disk fs_signature boot_sector 1) cluster_map)
            root_dir_table root_cluster_number;
      cluster_map = cluster_map;
    }

unfoldable pub initialize_filesystem_fat32 : Behind → DriverState → DriverState
initialize_filesystem_fat32 r s =
    if is_empty_storage s.disk then create_fat32 r s else record s { cluster_map = load_map s.disk }

-- The state at boot: `driver_state` is all zeros.
abbrev pub driver_at_boot : Disk → DriverState
driver_at_boot d = record {
  disk = d;
  cluster_map = replicate cluster_map_size 0;
  dir_table_buf = replicate directory_size empty_entry;
}
