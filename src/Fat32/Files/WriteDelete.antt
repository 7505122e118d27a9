-- ===== src/Fat32/Files/WriteDelete.antt =====
-- `write` then `delete` (src/fat32.c).
use os_2024_ususbuntu_with_s.Prelude.{
  ℕ, ◌-◌, ◌≡◌, ◌≢◌, inl, inr, refl, sym, ap, ◌∙◌, subst, true, false, List, [], none, some, arith,
  length, set, ◌==◌, ==-false, length-set, get_or-set_ne, set-set, list_ext, All, All-set,
  value_below,
}
use os_2024_ususbuntu_with_s.Bytes.{at, memcmp}
use os_2024_ususbuntu_with_s.Bytes.Compare.{memset_all}
use os_2024_ususbuntu_with_s.Fat32.Disk.Laws.{IsByte}
use os_2024_ususbuntu_with_s.Fat32.Layout.{
  DirectoryEntry, DirectoryTable, entry_at, empty_entry, cluster_map_size,
}
use os_2024_ususbuntu_with_s.Fat32.Layout.Codec.{IsEntry, IsTable}
use os_2024_ususbuntu_with_s.Fat32.Driver.{
  DriverState, DriverRequest, code, load_table, store_table, store_map, cluster_of, is_match,
  find_match, is_folder, attr_subdirectory,
}
use os_2024_ususbuntu_with_s.Fat32.Driver.Tables.{
  IsDriver, load_table-IsTable, load_table-store_table, read_clusters-store_map, load_table_same,
}
use os_2024_ususbuntu_with_s.Fat32.Driver.Find.{find_match-set-none}
use os_2024_ususbuntu_with_s.Fat32.Files.{
  read, write, delete, delete_entry, remove, free_chain, cleared, new_entry, cluster_count_of,
  empties_from,
}
use os_2024_ususbuntu_with_s.Fat32.Files.FreeChain.{IsFreed, free_chain-IsFreed}
use os_2024_ususbuntu_with_s.Fat32.Files.Request.{
  IsFileRequest, IsParent, IsReserved, loaded, new_entry-cluster, new_entry-IsEntry,
}
use os_2024_ususbuntu_with_s.Fat32.Files.Final.{IsStored, write-IsStored}

-- `delete` once the directory has been loaded and the name found, at a file.
delete-found_here :
    (s : DriverState) (q : DriverRequest) (i : ℕ)
    → is_folder (load_table s.disk q.parent_cluster_number) ≡ true
    → find_match (load_table s.disk q.parent_cluster_number) q.name q.ext ≡ some i
    → delete s q ≡ delete_entry (loaded s q) q i
unfolding delete
delete-found_here s q i f m = rw (f, m)

delete_entry-file :
    (s : DriverState) (q : DriverRequest) (i : ℕ)
    → (entry_at s.dir_table_buf i).attribute ≢ attr_subdirectory
    → delete_entry s q i ≡ remove s q i
unfolding delete_entry
delete_entry-file s q i ne =
    rw (==-false (entry_at s.dir_table_buf i).attribute attr_subdirectory ne)

-- The state after the removal of entry `i`, once the chain is freed.
abbrev removed : DriverState → DriverRequest → ℕ → List ℕ → DriverState
removed s q i m =
    let table = set s.dir_table_buf i (cleared (entry_at s.dir_table_buf i)) in
    record {
      disk = store_map (store_table s.disk table q.parent_cluster_number) m;
      cluster_map = m;
      dir_table_buf = table;
    }

remove-removed :
    (s : DriverState) (q : DriverRequest) (i : ℕ) (m : List ℕ)
    → free_chain cluster_map_size s.cluster_map (cluster_of (entry_at s.dir_table_buf i)) ≡ some m
    → remove s q i ≡ some (code 0, removed s q i m)
unfolding remove
remove-removed s q i m h = rw h

-- A name that does not begin with 0 does not match a cleared entry.
cleared-no_match :
    (e : DirectoryEntry) (name ext : List ℕ)
    → length e.name ≡ 8
    → at name 0 ≢ 0
    → is_match (cleared e) name ext ≡ false
unfolding is_match memcmp
cleared-no_match e name ext len ne = rw (memset_all e.name 0 8 len) (ground arith)

cleared-IsEntry : (e : DirectoryEntry) → IsEntry e → IsEntry (cleared e)
cleared-IsEntry e v = record {
  name_len = rw (memset_all e.name 0 8 v.name_len) refl;
  ext_len = rw (memset_all e.ext 0 3 v.ext_len) refl;
  name_bytes = subst (All IsByte) (sym (memset_all e.name 0 8 v.name_len)) (omega arith);
  ext_bytes = subst (All IsByte) (sym (memset_all e.ext 0 3 v.ext_len)) (omega arith);
  attribute_fits = v.attribute_fits;
  user_fits = omega arith;
  undelete_fits = v.undelete_fits;
  create_time_fits = v.create_time_fits;
  create_date_fits = v.create_date_fits;
  access_date_fits = v.access_date_fits;
  cluster_high_fits = v.cluster_high_fits;
  modified_time_fits = v.modified_time_fits;
  modified_date_fits = v.modified_date_fits;
  cluster_low_fits = v.cluster_low_fits;
  filesize_fits = v.filesize_fits;
}

-- A name that the loaded table does not have is not found by `read`.
read-none :
    (s : DriverState) (q : DriverRequest)
    → is_folder (load_table s.disk q.parent_cluster_number) ≡ true
    → find_match (load_table s.disk q.parent_cluster_number) q.name q.ext ≡ none
    → read s q ≡ some (code 3, loaded s q, [])
unfolding read
read-none s q f m = rw (f, m)

module _ (s s' : DriverState) (q : DriverRequest) (v : IsDriver s) (rq : IsFileRequest q)
    (pa : IsParent s q.parent_cluster_number) (t : IsStored s q s') where
  abbrev es : List ℕ
  es = empties_from s.cluster_map 0

  abbrev count : ℕ
  count = cluster_count_of q.buffer_size

  -- Taking the file's clusters back restores the map.
  map_restored : (m : List ℕ) → IsFreed es count 0 s'.cluster_map m → m ≡ s.cluster_map
  map_restored m r = list_ext m s.cluster_map 0 (r.sized ∙ t.map.0 ∙ sym v.map.0) same
    where
      same : (c : ℕ) → at m c ≡ at s.cluster_map c
      same c = elim (value_below (at es) c count) [
        | inl (k, h, e) ↦
            subst (λ x. at m x ≡ at s.cluster_map x) e
              (r.freed k (omega arith) h ∙ sym (t.was_empty k h))
        | inr away ↦ r.kept c (λ j lo hi. away j hi) ∙ t.others c (λ k h. away k h)
      ]

  freed :
      (m : List ℕ) × (free_chain cluster_map_size s'.cluster_map (at es 0) ≡ some m)
      × IsFreed es count 0 s'.cluster_map m
  freed =
      free_chain-IsFreed es count t.inside t.order cluster_map_size (count - 1) 0 s'.cluster_map
        (omega (arith, t.some_cluster)) (omega (arith, t.some_cluster, t.few)) t.map.0
        (λ j lo hi. t.links j hi)

  abbrev last : DriverState
  last = removed s' q t.slot freed.0

  deleted : delete s' q ≡ some (code 0, last)
  deleted =
      delete-found_here s' q t.slot (ap is_folder t.stored ∙ t.folder)
        (ap (λ x. find_match x q.name q.ext) t.stored ∙ t.found)
      ∙ ap (λ x. delete_entry (record s' { dir_table_buf = x }) q t.slot) t.stored
      ∙ delete_entry-file s' q t.slot
          (λ e. absurd (omega (arith, sym (ap (λ x. x.attribute) t.own) ∙ e)))
      ∙ remove-removed s' q t.slot freed.0 (
          ap (free_chain cluster_map_size s'.cluster_map) (
            ap (λ x. cluster_of x) t.own
            ∙ new_entry-cluster q rq t.cluster (omega (arith, t.small))
            ∙ t.first)
          ∙ freed.1)

  abbrev old_table : DirectoryTable
  old_table = load_table s.disk q.parent_cluster_number

  abbrev gone : DirectoryEntry
  gone = cleared (entry_at s'.dir_table_buf t.slot)

  last_buffer : last.dir_table_buf ≡ set old_table t.slot gone
  last_buffer =
      ap (λ x. set x t.slot gone) t.buffered
      ∙ set-set old_table t.slot (new_entry q t.cluster 0) gone

  own-IsEntry : IsEntry (entry_at s'.dir_table_buf t.slot)
  own-IsEntry =
      subst IsEntry (sym t.own) (new_entry-IsEntry q rq t.cluster (omega (arith, t.small)))

  last_buffer-IsTable : IsTable last.dir_table_buf
  last_buffer-IsTable =
      let old : IsTable old_table = load_table-IsTable s.disk q.parent_cluster_number v.disk in
      subst IsTable (sym last_buffer) (
        length-set old_table t.slot gone ∙ old.0,
        All-set IsEntry old_table t.slot gone old.1
            (cleared-IsEntry (entry_at s'.dir_table_buf t.slot) own-IsEntry),
      )

  last_loaded : load_table last.disk q.parent_cluster_number ≡ last.dir_table_buf
  last_loaded =
      load_table_same last.disk (store_table s'.disk last.dir_table_buf q.parent_cluster_number)
        q.parent_cluster_number
        (read_clusters-store_map (store_table s'.disk last.dir_table_buf q.parent_cluster_number)
          freed.0 q.parent_cluster_number (omega (arith, pa.high)) (omega (arith, pa.low)))
      ∙ load_table-store_table s'.disk last.dir_table_buf q.parent_cluster_number t.disk
          last_buffer-IsTable

  last_folder : is_folder last.dir_table_buf ≡ true
  last_folder =
      ap (λ x. x.attribute == attr_subdirectory)
        (get_or-set_ne s'.dir_table_buf t.slot 0 gone empty_entry (omega (arith, t.low)))
      ∙ t.folder

  last_none : at q.name 0 ≢ 0 → find_match last.dir_table_buf q.name q.ext ≡ none
  last_none named =
      ap (λ x. find_match x q.name q.ext) last_buffer
      ∙ find_match-set-none q.name q.ext old_table t.slot gone t.fresh (
          cleared-no_match (entry_at s'.dir_table_buf t.slot) q.name q.ext own-IsEntry.name_len
            named)

  read_after : at q.name 0 ≢ 0 → read last q ≡ some (code 3, last, [])
  read_after named =
      read-none last q (ap is_folder last_loaded ∙ last_folder)
        (ap (λ x. find_match x q.name q.ext) last_loaded ∙ last_none named)
      ∙ ap (λ x. some (code 3, record last { dir_table_buf = x }, [])) last_loaded

-- From a driver in order with used reserved map entries, after a write of a file request with a
-- full buffer, whose name does not start with 0, into a used parent cluster with a free slot
-- returned 0, a delete of the name returns 0 and gives the map back as it was before the write,
-- and a read of the name then returns 3, the code for a name not found.
pub write-delete :
    (s s' : DriverState) (q : DriverRequest)
    → IsDriver s
    → IsReserved s
    → IsFileRequest q
    → IsParent s q.parent_cluster_number
    → at q.name 0 ≢ 0
    → write s q ≡ (code 0, s')
    → (s'' : DriverState) × (delete s' q ≡ some (code 0, s''))
      × (s''.cluster_map ≡ s.cluster_map)
      × (read s'' q ≡ some (code 3, s'', []))
write-delete s s' q v res rq pa named h =
    let t : IsStored s q s' = write-IsStored s s' q v res rq pa h in
    (
      last s s' q v rq pa t,
      deleted s s' q v rq pa t,
      map_restored s s' q v rq pa t (freed s s' q v rq pa t).0 (freed s s' q v rq pa t).2,
      read_after s s' q v rq pa t named,
    )
