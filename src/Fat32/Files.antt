-- ===== src/Fat32/Files.antt =====
-- `read`, `write` and `delete` of src/fat32.c. An operation that would index `cluster_map` out of
-- range, or follow a chain that does not end, has the result `none`.
pub mod Empties
pub mod Alloc
pub mod Request
pub mod Final
pub mod WriteRead
pub mod Reads
pub mod Errors
pub mod FreeChain
pub mod WriteDelete
pub mod Others
use mathlib.Core.Option
use os_2024_ususbuntu_with_s.Prelude.{
  ℕ, zero, suc, ◌+◌, ◌-◌, ◌*◌, Bool, true, false, List, [], ◌∷◌, ◌++◌, Option, none, some, ltb, leb,
  ◌==◌, if◌then◌else◌, not, set, drop, get_or, replicate, length,
}
use os_2024_ususbuntu_with_s.Prelude.Int.{to_i32, to_u32}
use os_2024_ususbuntu_with_s.Bytes.{at, memcpy, memset}
use os_2024_ususbuntu_with_s.Fat32.Disk.{Disk, read_clusters, write_clusters, cluster_size}
use os_2024_ususbuntu_with_s.Fat32.Layout.{
  DirectoryEntry, DirectoryTable, entry_at, empty_entry, directory_size, cluster_map_size,
}
use os_2024_ususbuntu_with_s.Fat32.Driver.{
  DriverState, DriverRequest, Code, unknown, code, load_table, store_table, store_map, cluster_of,
  low_half, high_half, find_match, is_folder, attr_subdirectory, uattr_not_empty, ceil_div,
  fat32_fat_end_of_file, fat32_fat_empty_entry,
}
use os_2024_ususbuntu_with_s.Fat32.Directory.{init_directory_table}

-- `do { read_clusters(buf + offset * CLUSTER_SIZE, c, 1); c = cluster_map[c]; offset++; }
-- while (c != EOF);`: the bytes that it puts into the buffer, in order.
unfoldable pub read_chain : ℕ → Disk → List ℕ → ℕ → Option (List ℕ)
read_chain zero d cluster_map cluster_number = none
read_chain (suc fuel) d cluster_map cluster_number =
    let next = at cluster_map cluster_number in
    let cluster = read_clusters d cluster_number 1 in
    let rest = Option.map (λ b. cluster ++ b) (read_chain fuel d cluster_map next) in
    if leb cluster_map_size cluster_number
    then none
    else if next == fat32_fat_end_of_file
    then some cluster
    else rest

-- The part of `read` behind a match at index `i`. No chain without a cycle is longer than the map.
unfoldable pub read_entry : DriverState → DriverRequest → ℕ → Option (Code × DriverState × List ℕ)
read_entry s request i =
    if (entry_at s.dir_table_buf i).attribute == attr_subdirectory
    then some (code 1, s, [])
    else if ltb request.buffer_size (entry_at s.dir_table_buf i).filesize
    then some (code 2, s, [])
    else Option.map (λ b. (code 0, s, b))
        (read_chain cluster_map_size s.disk s.cluster_map (cluster_of (entry_at s.dir_table_buf i)))

-- The code, the state, and the bytes written from `request.buf` on.
unfoldable pub read : DriverState → DriverRequest → Option (Code × DriverState × List ℕ)
read s request =
    let s' : DriverState = record s {
      dir_table_buf = load_table s.disk request.parent_cluster_number;
    } in
    if not (is_folder s'.dir_table_buf)
    then some (unknown, s', [])
    else elim (find_match s'.dir_table_buf request.name request.ext) [
      | some i ↦ read_entry s' request i
      | none ↦ some (code 3, s', [])
    ]

-- `uint32_t cluster_count = ceil_div(request.buffer_size, CLUSTER_SIZE);`
unfoldable pub cluster_count_of : ℕ → ℕ
cluster_count_of buffer_size = to_u32 (ceil_div (to_i32 buffer_size) cluster_size)

-- The indices of the empty entries of a map whose first entry has index `i`, in order.
unfoldable pub empties_from : List ℕ → ℕ → List ℕ
empties_from [] i = []
empties_from (w ∷ cluster_map) i =
    let rest = empties_from cluster_map (suc i) in
    if w == fat32_fat_empty_entry then i ∷ rest else rest

-- The loop that counts the empty entries from index 2 on, and the one that finds the first.
unfoldable pub cluster_available : List ℕ → ℕ
cluster_available cluster_map = length (empties_from (drop 2 cluster_map) 2)

unfoldable pub first_empty : List ℕ → ℕ
first_empty cluster_map = at (empties_from (drop 2 cluster_map) 2) 0

-- `for (i = 0; i < cluster_count; i++) ...`: the rounds left, `i`, the map and the disk. The array
-- `empty_clusters` is 0 past the empty clusters.
unfoldable pub alloc_loop : ℕ → ℕ → List ℕ → List ℕ → ℕ → List ℕ → Disk → List ℕ × Disk
alloc_loop zero cluster_count empty_clusters buf i cluster_map d = (cluster_map, d)
alloc_loop (suc rounds) cluster_count empty_clusters buf i cluster_map d =
    let next =
      if i + 1 == cluster_count then fat32_fat_end_of_file else at empty_clusters (i + 1) in
    alloc_loop rounds cluster_count empty_clusters buf (i + 1)
      (set cluster_map (at empty_clusters i) next)
      (write_clusters d (drop (i * cluster_size) buf) (at empty_clusters i) 1)

-- `struct FAT32DirectoryEntry new_entry` with its attribute.
abbrev pub new_entry : DriverRequest → ℕ → ℕ → DirectoryEntry
new_entry request empty_cluster attribute = record empty_entry {
  name = memcpy (replicate 8 0) request.name 8;
  ext = memcpy (replicate 3 0) request.ext 3;
  attribute = attribute;
  user_attribute = uattr_not_empty;
  cluster_low = low_half empty_cluster;
  cluster_high = high_half empty_cluster;
  filesize = request.buffer_size;
}

-- The branch for a directory: entry, map and disk.
unfoldable pub make_directory : DriverState → DriverRequest → DirectoryEntry × List ℕ × Disk
make_directory s request =
    let empty_cluster = first_empty s.cluster_map in
    let new_dir_table =
      init_directory_table (replicate directory_size empty_entry) request.name
        request.parent_cluster_number in
    (
      new_entry request empty_cluster attr_subdirectory,
      set s.cluster_map empty_cluster fat32_fat_end_of_file,
      store_table s.disk new_dir_table empty_cluster,
    )

-- The branch for a file. Here the empty clusters are taken from index 0 on.
unfoldable pub make_file : DriverState → DriverRequest → DirectoryEntry × List ℕ × Disk
make_file s request =
    let count = cluster_count_of request.buffer_size in
    let (cluster_map, d) =
      alloc_loop count count (empties_from s.cluster_map 0) request.buf 0 s.cluster_map s.disk in
    (new_entry request (first_empty s.cluster_map) 0, cluster_map, d)

-- The first index from 1 on whose entry is free, or 0.
unfoldable pub free_slot_from : DirectoryTable → ℕ → ℕ
free_slot_from [] i = 0
free_slot_from (e ∷ table) i =
    let rest = free_slot_from table (suc i) in
    if not (e.user_attribute == uattr_not_empty) then i else rest

unfoldable pub new_entry_index : DirectoryTable → ℕ
new_entry_index table = free_slot_from (drop 1 table) 1

-- The end of `write`: the entry goes into its slot, and table and map go to the disk.
unfoldable pub commit : DriverState → DriverRequest → DirectoryEntry × List ℕ × Disk → DriverState
commit s request (e, cluster_map, d) =
    let table = set s.dir_table_buf (new_entry_index s.dir_table_buf) e in
    record {
      disk = store_map (store_table d table request.parent_cluster_number) cluster_map;
      cluster_map = cluster_map;
      dir_table_buf = table;
    }

unfoldable pub write : DriverState → DriverRequest → Code × DriverState
write s request =
    let s' : DriverState = record s {
      dir_table_buf = load_table s.disk request.parent_cluster_number;
    } in
    if not (is_folder s'.dir_table_buf)
    then (unknown, s')
    else elim (find_match s'.dir_table_buf request.name request.ext) [
      | some i ↦ (code 1, s')
      | none ↦
          if ltb (cluster_available s'.cluster_map) (cluster_count_of request.buffer_size)
          then (unknown, s')
          else (
            code 0,
            commit s' request (
                if request.buffer_size == 0
                then make_directory s' request
                else make_file s' request),
          )
    ]

-- `do { next = cluster_map[c]; cluster_map[c] = EMPTY; c = next; } while (c != EOF);`
unfoldable pub free_chain : ℕ → List ℕ → ℕ → Option (List ℕ)
free_chain zero cluster_map cluster_number = none
free_chain (suc fuel) cluster_map cluster_number =
    let next = at cluster_map cluster_number in
    let freed = set cluster_map cluster_number fat32_fat_empty_entry in
    let rest = free_chain fuel freed next in
    if leb cluster_map_size cluster_number
    then none
    else if next == fat32_fat_end_of_file
    then some freed
    else rest

-- Some entry of a table holds something.
unfoldable pub any_used : DirectoryTable → Bool
any_used [] = false
any_used (e ∷ table) =
    let rest = any_used table in if e.user_attribute == uattr_not_empty then true else rest

-- "Remove entry" of `delete`.
abbrev pub cleared : DirectoryEntry → DirectoryEntry
cleared e = record e { user_attribute = 0; name = memset e.name 0 8; ext = memset e.ext 0 3 }

-- The part of `delete` that removes the entry at index `i`.
unfoldable pub remove : DriverState → DriverRequest → ℕ → Option (Code × DriverState)
remove s request i =
    let e = entry_at s.dir_table_buf i in
    let table = set s.dir_table_buf i (cleared e) in
    Option.map
      (λ cluster_map. (
        code 0,
        record {
          disk = store_map (store_table s.disk table request.parent_cluster_number) cluster_map;
          cluster_map = cluster_map;
          dir_table_buf = table;
        },
      ))
      (free_chain cluster_map_size s.cluster_map (cluster_of e))

-- The check that a directory is empty, then the removal.
unfoldable pub delete_entry : DriverState → DriverRequest → ℕ → Option (Code × DriverState)
delete_entry s request i =
    let e = entry_at s.dir_table_buf i in
    if e.attribute == attr_subdirectory
    then (if any_used (drop 1 (load_table s.disk (cluster_of e)))
        then some (code 2, s)
        else remove s request i)
    else remove s request i

unfoldable pub delete : DriverState → DriverRequest → Option (Code × DriverState)
delete s request =
    let s' : DriverState = record s {
      dir_table_buf = load_table s.disk request.parent_cluster_number;
    } in
    if not (is_folder s'.dir_table_buf)
    then some (unknown, s')
    else elim (find_match s'.dir_table_buf request.name request.ext) [
      | some i ↦ delete_entry s' request i
      | none ↦ some (code 1, s')
    ]
