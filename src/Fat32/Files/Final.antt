-- ===== src/Fat32/Files/Final.antt =====
-- The state that a successful `write` of a file (src/fat32.c) leaves: the chain, the clusters and the
-- parent's table.
use os_2024_ususbuntu_with_s.Prelude.{
  ℕ, ◌-◌, ◌*◌, ◌<◌, ◌≤◌, ◌≡◌, ◌≢◌, refl, sym, ap, ◌∙◌, subst, true, List, none, some, arith, length,
  set, take, length-set, get_or-set_self, get_or-set_ne, All-set,
}
use os_2024_ususbuntu_with_s.Bytes.{at}
use os_2024_ususbuntu_with_s.Fat32.Disk.{Disk, cluster_size, read_clusters}
use os_2024_ususbuntu_with_s.Fat32.Disk.Laws.{IsDisk}
use os_2024_ususbuntu_with_s.Fat32.Layout.{
  DirectoryEntry, DirectoryTable, entry_at, empty_entry, cluster_map_size,
}
use os_2024_ususbuntu_with_s.Fat32.Layout.Codec.{IsEntry, IsTable, IsMap}
use os_2024_ususbuntu_with_s.Fat32.Driver.{
  DriverState, DriverRequest, code, load_table, store_table, store_map, find_match, is_folder,
  fat_cluster_number, uattr_not_empty,
}
use os_2024_ususbuntu_with_s.Fat32.Driver.Tables.{
  IsDriver, load_table-IsTable, store_table-IsDisk, store_map-IsDisk, load_table-store_table,
  read_clusters-store_table, read_clusters-store_map, load_table_same,
}
use os_2024_ususbuntu_with_s.Fat32.Driver.Find.{is_match_self, find_match-set}
use os_2024_ususbuntu_with_s.Fat32.Files.{
  read_chain, write, commit, make_file, new_entry, new_entry_index, empties_from, first_empty,
  cluster_available, cluster_count_of, alloc_loop,
}
use os_2024_ususbuntu_with_s.Fat32.Files.Empties.{
  IsEmptyAt, empties_from-IsEmptyAt, empties_from-lt, first_empty-eq, cluster_available-eq,
  length-empties_from,
}
use os_2024_ususbuntu_with_s.Fat32.Files.Alloc.{
  Allocated, Filled, link, alloc_loop-Allocated, read_chain-Filled,
}
use os_2024_ususbuntu_with_s.Fat32.Files.Request.{
  IsFileRequest, IsParent, IsReserved, cluster_count_of-pos, loaded, Written, write-Written,
  new_entry_index-range, new_entry_index-free, new_entry-name, new_entry-ext, new_entry-IsEntry,
}

-- What a client knows of the state after a successful `write` of a file: the new entry in the
-- parent's table, its chain of clusters, and the rest of the map.
pub record IsStored (s : DriverState) (q : DriverRequest) (s' : DriverState) : Type 0 where
  pub cluster : ℕ
  pub slot : ℕ
  pub small : cluster < cluster_map_size
  pub low : 1 ≤ slot
  pub high : slot < length (load_table s.disk q.parent_cluster_number)
  pub fresh : find_match (load_table s.disk q.parent_cluster_number) q.name q.ext ≡ none
  pub disk : IsDisk s'.disk
  pub map : IsMap s'.cluster_map
  pub buffered :
      s'.dir_table_buf
      ≡ set (load_table s.disk q.parent_cluster_number) slot (new_entry q cluster 0)
  pub stored : load_table s'.disk q.parent_cluster_number ≡ s'.dir_table_buf
  pub folder : is_folder s'.dir_table_buf ≡ true
  pub found : find_match s'.dir_table_buf q.name q.ext ≡ some slot
  pub own : entry_at s'.dir_table_buf slot ≡ new_entry q cluster 0
  pub chain :
      read_chain cluster_map_size s'.disk s'.cluster_map cluster
      ≡ some (take (cluster_count_of q.buffer_size * cluster_size) q.buf)
  pub some_cluster : 0 < cluster_count_of q.buffer_size
  pub few : cluster_count_of q.buffer_size ≤ cluster_map_size
  pub first : cluster ≡ at (empties_from s.cluster_map 0) 0
  pub inside :
      (k : ℕ)
      → k < cluster_count_of q.buffer_size
      → at (empties_from s.cluster_map 0) k < cluster_map_size
  pub order :
      (j k : ℕ)
      → j < k
      → k < cluster_count_of q.buffer_size
      → at (empties_from s.cluster_map 0) j < at (empties_from s.cluster_map 0) k
  pub was_empty :
      (k : ℕ)
      → k < cluster_count_of q.buffer_size
      → at s.cluster_map (at (empties_from s.cluster_map 0) k) ≡ 0
  pub links :
      (k : ℕ)
      → k < cluster_count_of q.buffer_size
      → at s'.cluster_map (at (empties_from s.cluster_map 0) k)
        ≡ link (empties_from s.cluster_map 0) (cluster_count_of q.buffer_size) k
  pub others :
      (c : ℕ)
      → ((k : ℕ) → k < cluster_count_of q.buffer_size → at (empties_from s.cluster_map 0) k ≢ c)
      → at s'.cluster_map c ≡ at s.cluster_map c
  pub slot_free :
      (entry_at (load_table s.disk q.parent_cluster_number) slot).user_attribute ≢ uattr_not_empty
  pub kept :
      (c : ℕ)
      → c < cluster_map_size
      → at s.cluster_map c ≢ 0
      → c ≢ q.parent_cluster_number
      → c ≢ fat_cluster_number
      → (at s'.cluster_map c ≡ at s.cluster_map c)
        × (read_clusters s'.disk c 1 ≡ read_clusters s.disk c 1)

module _ (s : DriverState) (q : DriverRequest) (v : IsDriver s) (res : IsReserved s)
    (rq : IsFileRequest q) (pa : IsParent s q.parent_cluster_number)
    (room : cluster_count_of q.buffer_size ≤ cluster_available s.cluster_map) where
  -- The clusters that are taken, their number, and what the loop leaves.
  abbrev es : List ℕ
  es = empties_from s.cluster_map 0

  abbrev count : ℕ
  count = cluster_count_of q.buffer_size

  abbrev after : List ℕ × Disk
  after = alloc_loop count count es q.buf 0 s.cluster_map s.disk

  enough : count ≤ length es
  enough = omega (arith, room, cluster_available-eq s.cluster_map res.zero_used res.one_used)

  empty_at : (k : ℕ) → k < count → IsEmptyAt s.cluster_map 0 (at es k)
  empty_at k h = empties_from-IsEmptyAt s.cluster_map 0 k (omega (arith, enough))

  taken : (k c : ℕ) → k < count → at s.cluster_map c ≢ 0 → at es k ≢ c
  taken k c h ne e = ne ((empty_at k h).empty c (omega (arith, e)))

  inside : (k : ℕ) → k < count → at es k < cluster_map_size
  inside k h = omega (arith, (empty_at k h).high, v.map.0)

  order : (j k : ℕ) → j < k → k < count → at es j < at es k
  order j k h l = empties_from-lt s.cluster_map 0 j k h (omega (arith, enough))

  allocated : Allocated es q.buf count 0 s.cluster_map s.disk after.0 after.1
  allocated =
      alloc_loop-Allocated es q.buf count inside order rq.buf_bytes rq.buf_long count 0
        s.cluster_map s.disk (omega arith) v.disk v.map.0 v.map.1

  abbrev table : DirectoryTable
  table = load_table s.disk q.parent_cluster_number

  abbrev entry : DirectoryEntry
  entry = new_entry q (first_empty s.cluster_map) 0

  abbrev index : ℕ
  index = new_entry_index table

  abbrev written_table : DirectoryTable
  written_table = set table index entry

  first : first_empty s.cluster_map ≡ at es 0
  first = first_empty-eq s.cluster_map res.zero_used res.one_used

  some_cluster : 0 < count
  some_cluster = cluster_count_of-pos q.buffer_size rq.not_empty rq.small

  first_small : first_empty s.cluster_map < cluster_map_size
  first_small = omega (arith, first, inside 0 some_cluster)

  table-IsTable : IsTable table
  table-IsTable = load_table-IsTable s.disk q.parent_cluster_number v.disk

  index_range : (1 ≤ index) × (index < length table)
  index_range = new_entry_index-range table table-IsTable pa.slot

  written_table-IsTable : IsTable written_table
  written_table-IsTable = (
    length-set table index entry ∙ table-IsTable.0,
    All-set IsEntry table index entry table-IsTable.1
        (new_entry-IsEntry q rq (first_empty s.cluster_map) (omega (arith, first_small))),
  )

  abbrev final_disk : Disk
  final_disk = store_map (store_table after.1 written_table q.parent_cluster_number) after.0

  -- The parent's table on the disk has the new entry.
  final_table : load_table final_disk q.parent_cluster_number ≡ written_table
  final_table =
      load_table_same final_disk (store_table after.1 written_table q.parent_cluster_number)
        q.parent_cluster_number
        (read_clusters-store_map (store_table after.1 written_table q.parent_cluster_number) after.0
          q.parent_cluster_number (omega (arith, pa.high)) (omega (arith, pa.low)))
      ∙ load_table-store_table after.1 written_table q.parent_cluster_number allocated.disk
          written_table-IsTable

  -- The clusters of the file are as the loop left them.
  final-Filled : Filled es q.buf count after.0 final_disk
  final-Filled = record {
    links = λ k h. allocated.map_own k (omega arith) h;
    filled = λ k h.
        read_clusters-store_map (store_table after.1 written_table q.parent_cluster_number) after.0
          (at es k) (omega (arith, inside k h)) (taken k fat_cluster_number h res.one_used)
        ∙ read_clusters-store_table after.1 written_table q.parent_cluster_number (at es k)
            (omega (arith, pa.high)) (omega (arith, inside k h))
            (λ e. taken k q.parent_cluster_number h pa.used (sym e))
        ∙ allocated.disk_own k (omega arith) h;
  }

  final_chain :
      read_chain cluster_map_size final_disk after.0 (first_empty s.cluster_map)
      ≡ some (take (count * cluster_size) q.buf)
  final_chain =
      ap (read_chain cluster_map_size final_disk after.0) first
      ∙ read_chain-Filled es q.buf count inside order rq.buf_bytes rq.buf_long after.0 final_disk
          final-Filled cluster_map_size (count - 1) 0 (omega (arith, some_cluster))
          (omega (arith, some_cluster, enough, length-empties_from s.cluster_map 0, v.map.0))
      ∙ ap (λ n. some (take n q.buf)) (omega (arith, some_cluster))

  -- A used cluster that is neither the parent's nor the map's is as before.
  final_kept :
      (c : ℕ)
      → c < cluster_map_size
      → at s.cluster_map c ≢ 0
      → c ≢ q.parent_cluster_number
      → c ≢ fat_cluster_number
      → (at after.0 c ≡ at s.cluster_map c)
        × (read_clusters final_disk c 1 ≡ read_clusters s.disk c 1)
  final_kept c small used parent map = (
    allocated.map_other c (λ k lo hi. taken k c hi used),
    read_clusters-store_map (store_table after.1 written_table q.parent_cluster_number) after.0 c
          (omega (arith, small)) map
        ∙ read_clusters-store_table after.1 written_table q.parent_cluster_number c
            (omega (arith, pa.high)) (omega (arith, small)) (λ e. parent (sym e))
        ∙ allocated.disk_other c (omega (arith, small)) (λ k lo hi. taken k c hi used),
  )

  -- The state that `write` leaves.
  abbrev committed : DriverState
  committed = record { disk = final_disk; cluster_map = after.0; dir_table_buf = written_table }

  commit-committed : commit (loaded s q) q (make_file (loaded s q) q) ≡ committed
  unfolding commit make_file
  commit-committed = refl

  still_folder : is_folder table ≡ true → is_folder written_table ≡ true
  still_folder h =
      rw (get_or-set_ne table index 0 entry empty_entry (omega (arith, index_range.0))) h

  found : find_match table q.name q.ext ≡ none → find_match written_table q.name q.ext ≡ some index
  found h = find_match-set q.name q.ext table index entry index_range.1 h (
      is_match_self entry q.name q.ext
        (new_entry-name q rq (first_empty s.cluster_map) (omega (arith, first_small)))
        (new_entry-ext q rq (first_empty s.cluster_map) (omega (arith, first_small))))

  committed-IsStored :
      is_folder table ≡ true → find_match table q.name q.ext ≡ none → IsStored s q committed
  committed-IsStored f n = record {
    cluster = first_empty s.cluster_map;
    slot = index;
    small = first_small;
    low = index_range.0;
    high = index_range.1;
    fresh = n;
    disk = store_map-IsDisk (store_table after.1 written_table q.parent_cluster_number) after.0 (
        store_table-IsDisk after.1 written_table q.parent_cluster_number allocated.disk
          written_table-IsTable);
    map = (allocated.sized, allocated.words);
    buffered = refl;
    stored = final_table;
    folder = still_folder f;
    found = found n;
    own = get_or-set_self table index entry empty_entry index_range.1;
    chain = final_chain;
    some_cluster = some_cluster;
    few = omega (arith, enough, length-empties_from s.cluster_map 0, v.map.0);
    first = first;
    inside = inside;
    order = order;
    was_empty = λ k h. (empty_at k h).empty (at es k) (omega arith);
    links = λ k h. allocated.map_own k (omega arith) h;
    others = λ c ne. allocated.map_other c (λ k lo hi. ne k hi);
    slot_free = new_entry_index-free table pa.slot;
    kept = final_kept;
  }

-- The facts, from a `write` that returned 0.
pub write-IsStored :
    (s s' : DriverState) (q : DriverRequest)
    → IsDriver s
    → IsReserved s
    → IsFileRequest q
    → IsParent s q.parent_cluster_number
    → write s q ≡ (code 0, s')
    → IsStored s q s'
write-IsStored s s' q v res rq pa h =
    let w : Written s q s' = write-Written s q s' rq.not_empty h in
    let e : s' ≡ committed s q v res rq pa w.room =
      w.state ∙ commit-committed s q v res rq pa w.room in
    subst (IsStored s q) (sym e) (committed-IsStored s q v res rq pa w.room w.folder w.fresh)
