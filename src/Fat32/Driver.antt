-- ===== src/Fat32/Driver.antt =====
-- The driver's state (`driver_state` of src/fat32.c) with the disk that it works on, its requests,
-- and what its operations share: reading and writing a table, and the search of a table by name.
pub mod Tables
pub mod Find
use mathlib.Core.Option
use os_2024_ususbuntu_with_s.Prelude.{
  ℕ, zero, suc, ◌+◌, ◌*◌, ◌/◌, ◌%◌, Bool, true, false, ◌&&◌, List, [], ◌∷◌, Option, none, some,
  ◌==◌, if◌then◌else◌, not,
}
use os_2024_ususbuntu_with_s.Prelude.Int.{ℤ, succ, quot, magnitude}
use os_2024_ususbuntu_with_s.Bytes.{memcmp, is_null}
use os_2024_ususbuntu_with_s.Fat32.Disk.{Disk, read_clusters, write_clusters}
use os_2024_ususbuntu_with_s.Fat32.Layout.{
  DirectoryEntry, DirectoryTable, entry_at, encode_table, decode_table, encode_map, decode_map,
}

abbrev pub cluster_0_value : ℕ
cluster_0_value = 0x0FFFFFF0

abbrev pub cluster_1_value : ℕ
cluster_1_value = 0x0FFFFFFF

abbrev pub fat32_fat_end_of_file : ℕ
fat32_fat_end_of_file = 0x0FFFFFFF

abbrev pub fat32_fat_empty_entry : ℕ
fat32_fat_empty_entry = 0

abbrev pub fat_cluster_number : ℕ
fat_cluster_number = 1

abbrev pub root_cluster_number : ℕ
root_cluster_number = 2

abbrev pub attr_subdirectory : ℕ
attr_subdirectory = 0b00010000

abbrev pub uattr_not_empty : ℕ
uattr_not_empty = 0b10101010

-- `struct FAT32DriverState`, less its unused `cluster_buf`, and the disk.
pub record DriverState : Type 0 where
  pub disk : Disk
  pub cluster_map : List ℕ
  pub dir_table_buf : DirectoryTable

-- `struct FAT32DriverRequest`. `buf` holds the bytes from the pointer on, for the operations that
-- read them.
pub record DriverRequest : Type 0 where
  pub buf : List ℕ
  pub name : List ℕ
  pub ext : List ℕ
  pub parent_cluster_number : ℕ
  pub buffer_size : ℕ

-- The `int8_t` that an operation returns: -1 or a small number.
pub data Code : Type 0 where
  unknown : Code
  code : ℕ → Code

-- The table that a cluster holds, read and written.
unfoldable pub load_table : Disk → ℕ → DirectoryTable
load_table d cluster_number = decode_table (read_clusters d cluster_number 1)

unfoldable pub store_table : Disk → DirectoryTable → ℕ → Disk
store_table d table cluster_number = write_clusters d (encode_table table) cluster_number 1

unfoldable pub load_map : Disk → List ℕ
load_map d = decode_map (read_clusters d fat_cluster_number 1)

unfoldable pub store_map : Disk → List ℕ → Disk
store_map d cluster_map = write_clusters d (encode_map cluster_map) fat_cluster_number 1

-- `cluster_low | (cluster_high << 16)`, whose bits do not overlap.
abbrev pub cluster_of : DirectoryEntry → ℕ
cluster_of e = e.cluster_low + e.cluster_high * 65536

-- `x & 0xFFFF` and `(x >> 16) & 0xFFFF`
abbrev pub low_half : ℕ → ℕ
low_half w = w % 65536

abbrev pub high_half : ℕ → ℕ
high_half w = w / 65536 % 65536

-- `is_name_match && is_ext_match`
unfoldable pub is_match : DirectoryEntry → List ℕ → List ℕ → Bool
is_match e name ext = is_null (memcmp e.name name 8) && is_null (memcmp e.ext ext 3)

-- The loop over the entries of a table: the first index that matches.
unfoldable pub find_match : DirectoryTable → List ℕ → List ℕ → Option ℕ
find_match [] name ext = none
find_match (e ∷ table) name ext =
    let rest = Option.map suc (find_match table name ext) in
    if is_match e name ext then some 0 else rest

-- `table[0].attribute == ATTR_SUBDIRECTORY`
abbrev pub is_folder : DirectoryTable → Bool
is_folder table = (entry_at table 0).attribute == attr_subdirectory

-- `int32_t ceil_div(int32_t a, int32_t b)` for a positive `b`.
unfoldable pub ceil_div : ℤ → ℕ → ℤ
ceil_div a b = if magnitude a % b == 0 then quot a b else succ (quot a b)
