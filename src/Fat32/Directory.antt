-- ===== src/Fat32/Directory.antt =====
-- The operations of src/fat32.c that work on directory tables alone: `init_directory_table`,
-- `read_directory`, `move_to_child_directory`, `move_to_parent_directory` and `move_dir`.
use mathlib.Core.Option
use os_2024_ususbuntu_with_s.Prelude.{
  ℕ, zero, suc, Bool, ◌&&◌, List, [], ◌∷◌, Option, none, some, ◌==◌, if◌then◌else◌, not, set, drop,
}
use os_2024_ususbuntu_with_s.Bytes.{memcmp, is_null, memcpy}
use os_2024_ususbuntu_with_s.Fat32.Layout.{DirectoryTable, entry_at, empty_entry, encode_entry}
use os_2024_ususbuntu_with_s.Fat32.Driver.{
  DriverState, DriverRequest, Code, unknown, code, load_table, store_table, cluster_of, low_half,
  high_half, is_match, find_match, is_folder, attr_subdirectory, uattr_not_empty,
}

-- Entry 0 of a table describes its parent; the rest stays.
unfoldable pub init_directory_table : DirectoryTable → List ℕ → ℕ → DirectoryTable
init_directory_table dir_table name parent_dir_cluster =
    set dir_table 0 (record (entry_at dir_table 0) {
      cluster_low = low_half parent_dir_cluster;
      cluster_high = high_half parent_dir_cluster;
      user_attribute = uattr_not_empty;
      attribute = attr_subdirectory;
      name = memcpy (entry_at dir_table 0).name name 8;
    })

-- The last part of `read_directory`, once an entry matches at index `i`.
unfoldable pub enter : DriverState → ℕ → Code × DriverState
enter s i =
    if (entry_at s.dir_table_buf i).attribute == attr_subdirectory
    then (
      code 0,
      record s { dir_table_buf = load_table s.disk (cluster_of (entry_at s.dir_table_buf i)) },
    )
    else (code 1, s)

unfoldable pub read_directory : DriverState → DriverRequest → Code × DriverState
read_directory s request =
    let s' : DriverState = record s {
      dir_table_buf = load_table s.disk request.parent_cluster_number;
    } in
    if not (is_folder s'.dir_table_buf)
    then (unknown, s')
    else elim (find_match s'.dir_table_buf request.name request.ext) [
      | some i ↦ enter s' i
      | none ↦ (code 2, s')
    ]

-- "dir"
abbrev pub dir_ext : List ℕ
dir_ext = b'd' ∷ (b'i' ∷ (b'r' ∷ []))

-- The loop of `move_to_child_directory` over the entries from index 1 on.
unfoldable pub child_loop : DirectoryTable → List ℕ → ℕ
child_loop [] name = 0
child_loop (e ∷ table) name =
    let rest = child_loop table name in
    if is_null (memcmp e.ext dir_ext 3) && is_null (memcmp e.name name 8)
    then cluster_of e
    else rest

unfoldable pub move_to_child_directory : DriverState → DriverRequest → ℕ
move_to_child_directory s request =
    child_loop (drop 1 (load_table s.disk request.parent_cluster_number)) request.name

unfoldable pub move_to_parent_directory : DriverState → DriverRequest → ℕ
move_to_parent_directory s request =
    cluster_of (entry_at (load_table s.disk request.parent_cluster_number) 0)

unfoldable pub is_same_directory : DriverRequest → DriverRequest → Bool
is_same_directory req1 req2 =
    req1.parent_cluster_number == req2.parent_cluster_number
    && is_null (memcmp req1.name req2.name 8)
    && is_null (memcmp req1.ext req2.ext 3)

-- The index -1 is `none`.
unfoldable pub find_entry_index : DirectoryTable → List ℕ → List ℕ → Option ℕ
find_entry_index [] name ext = none
find_entry_index (e ∷ dir_table) name ext =
    let rest = Option.map suc (find_entry_index dir_table name ext) in
    if is_match e name ext && (e.user_attribute == uattr_not_empty) then some 0 else rest

unfoldable pub find_empty_entry_index : DirectoryTable → Option ℕ
find_empty_entry_index [] = none
find_empty_entry_index (e ∷ dir_table) =
    let rest = Option.map suc (find_empty_entry_index dir_table) in
    if is_null (memcmp (encode_entry e []) (encode_entry empty_entry []) 32) then some 0 else rest

-- The end of `move_dir`: both tables change and are written back, the source's first.
unfoldable pub move_entry :
    DriverState
    → DirectoryTable
    → DirectoryTable
    → ℕ
    → ℕ
    → DriverRequest
    → DriverRequest
    → DriverState
move_entry s src_dir_table dest_dir_table i j src_req dest_req = record s {
  disk =
      store_table
        (store_table s.disk (set src_dir_table i empty_entry) src_req.parent_cluster_number)
        (set dest_dir_table j (entry_at src_dir_table i)) dest_req.parent_cluster_number;
}

-- `read_directory(dest_req)`, its check, and the search for a slot.
unfoldable pub move_into :
    DriverState
    → DirectoryTable
    → DirectoryTable
    → ℕ
    → DriverRequest
    → DriverRequest
    → ℕ × DriverState
move_into s src_dir_table dest_dir_table i src_req dest_req =
    let (c, s') = read_directory s dest_req in
    elim c [
      | code zero ↦ elim (find_empty_entry_index dest_dir_table) [
        | some j ↦ (0, move_entry s' src_dir_table dest_dir_table i j src_req dest_req)
        | none ↦ (3, s')
      ]
      | _ ↦ (2, s')
    ]

-- The two tables are local and nothing is read into them: their contents are arguments.
unfoldable pub move_dir :
    DriverState → DirectoryTable → DirectoryTable → DriverRequest → DriverRequest → ℕ × DriverState
move_dir s src_dir_table dest_dir_table src_req dest_req =
    if is_same_directory src_req dest_req
    then (4, s)
    else elim (find_entry_index src_dir_table src_req.name src_req.ext) [
      | none ↦ (1, s)
      | some i ↦ move_into s src_dir_table dest_dir_table i src_req dest_req
    ]
