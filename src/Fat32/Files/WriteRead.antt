-- ===== src/Fat32/Files/WriteRead.antt =====
-- `write` then `read` (src/fat32.c).
use os_2024_ususbuntu_with_s.Prelude.{
  ℕ, ◌*◌, ◌≤◌, ◌≡◌, ◌≢◌, ap, ◌∙◌, true, List, some, arith, take, ==-false, ltb_of_le,
}
use os_2024_ususbuntu_with_s.Fat32.Disk.{cluster_size}
use os_2024_ususbuntu_with_s.Fat32.Layout.{
  DirectoryEntry, DirectoryTable, entry_at, cluster_map_size,
}
use os_2024_ususbuntu_with_s.Fat32.Driver.{
  DriverState, DriverRequest, code, load_table, cluster_of, find_match, is_folder,
  attr_subdirectory,
}
use os_2024_ususbuntu_with_s.Fat32.Driver.Tables.{IsDriver}
use os_2024_ususbuntu_with_s.Fat32.Files.{
  read, read_entry, read_chain, write, new_entry, cluster_count_of,
}
use os_2024_ususbuntu_with_s.Fat32.Files.Request.{
  IsFileRequest, IsParent, IsReserved, loaded, new_entry-cluster,
}
use os_2024_ususbuntu_with_s.Fat32.Files.Final.{IsStored, write-IsStored}

-- `read` once the directory has been loaded and the name found.
pub read-found_here :
    (s : DriverState) (q : DriverRequest) (i : ℕ)
    → is_folder (load_table s.disk q.parent_cluster_number) ≡ true
    → find_match (load_table s.disk q.parent_cluster_number) q.name q.ext ≡ some i
    → read s q ≡ read_entry (loaded s q) q i
unfolding read
read-found_here s q i f m = rw (f, m)

read-found :
    (s : DriverState) (q : DriverRequest) (t : DirectoryTable) (i : ℕ)
    → load_table s.disk q.parent_cluster_number ≡ t
    → is_folder t ≡ true
    → find_match t q.name q.ext ≡ some i
    → read s q ≡ read_entry (record s { dir_table_buf = t }) q i
read-found s q t i e f m =
    read-found_here s q i (ap is_folder e ∙ f) (ap (λ x. find_match x q.name q.ext) e ∙ m)
    ∙ ap (λ x. read_entry (record s { dir_table_buf = x }) q i) e

pub read_entry-file :
    (s : DriverState) (q : DriverRequest) (i : ℕ) (e : DirectoryEntry) (b : List ℕ)
    → entry_at s.dir_table_buf i ≡ e
    → e.attribute ≢ attr_subdirectory
    → e.filesize ≤ q.buffer_size
    → read_chain cluster_map_size s.disk s.cluster_map (cluster_of e) ≡ some b
    → read_entry s q i ≡ some (code 0, s, b)
unfolding read_entry
read_entry-file s q i e b p a f r =
    rw (p, ==-false e.attribute attr_subdirectory a, ltb_of_le q.buffer_size e.filesize f, r)

-- From a driver in order with used reserved map entries, after a write of a file request with a
-- full buffer into a used parent cluster with a free slot returned 0, a read of the same name with
-- a buffer size at least that of the file returns 0, leaves the state alone, and gives the
-- clusters that were written.
pub write-read :
    (s s' : DriverState) (q : DriverRequest) (n : ℕ) (b : List ℕ)
    → IsDriver s
    → IsReserved s
    → IsFileRequest q
    → IsParent s q.parent_cluster_number
    → write s q ≡ (code 0, s')
    → q.buffer_size ≤ n
    → read s' (record q { buffer_size = n; buf = b })
      ≡ some (code 0, s', take (cluster_count_of q.buffer_size * cluster_size) q.buf)
write-read s s' q n b v res rq pa h le =
    let t : IsStored s q s' = write-IsStored s s' q v res rq pa h in
    read-found s' (record q { buffer_size = n; buf = b }) s'.dir_table_buf t.slot t.stored t.folder
      t.found
    ∙ read_entry-file s' (record q { buffer_size = n; buf = b }) t.slot (new_entry q t.cluster 0)
        (take (cluster_count_of q.buffer_size * cluster_size) q.buf) t.own (omega arith) le
        (ap (read_chain cluster_map_size s'.disk s'.cluster_map)
            (new_entry-cluster q rq t.cluster (omega (arith, t.small)))
          ∙ t.chain)
