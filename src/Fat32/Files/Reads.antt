-- ===== src/Fat32/Files/Reads.antt =====
-- What `read` (src/fat32.c) does to the disk, and what it puts into the buffer.
use os_2024_ususbuntu_with_s.Prelude.{
  ℕ, zero, suc, ◌≡◌, inl, inr, refl, List, ◌++◌, Option, none, some, All, All-append, Option-cases,
  Bool-cases, leb, ltb, ◌==◌,
}
use mathlib.Core.Option
use os_2024_ususbuntu_with_s.Bytes.{at}
use os_2024_ususbuntu_with_s.Fat32.Disk.{Disk, read_clusters}
use os_2024_ususbuntu_with_s.Fat32.Disk.Laws.{IsDisk, IsByte, read_clusters-bytes}
use os_2024_ususbuntu_with_s.Fat32.Layout.{cluster_map_size, entry_at}
use os_2024_ususbuntu_with_s.Fat32.Driver.{
  DriverState, DriverRequest, Code, code, load_table, cluster_of, fat32_fat_end_of_file, is_folder,
  find_match, attr_subdirectory,
}
use os_2024_ususbuntu_with_s.Fat32.Files.{read, read_entry, read_chain}

abbrev pub BytesIn : Option (List ℕ) → Type 0
BytesIn none = Unit
BytesIn (some b) = All IsByte b

pub BytesIn-map :
    (x : List ℕ) (o : Option (List ℕ))
    → All IsByte x
    → BytesIn o
    → BytesIn (Option.map (λ b. x ++ b) o)
BytesIn-map x none h k = tt
BytesIn-map x (some b) h k = All-append IsByte x b h k

-- What the chain loop reads are bytes.
pub read_chain-bytes :
    (fuel : ℕ) (d : Disk) (m : List ℕ) (c : ℕ) → IsDisk d → BytesIn (read_chain fuel d m c)
unfolding read_chain
read_chain-bytes zero d m c v = tt
read_chain-bytes (suc fuel) d m c v = elim (Bool-cases (leb cluster_map_size c)) [
  | inl e ↦ rw e tt
  | inr e ↦ elim (Bool-cases (at m c == fat32_fat_end_of_file)) [
    | inl l ↦ rw (e, l) (read_clusters-bytes d c v)
    | inr l ↦
        rw (e, l)
          (BytesIn-map (read_clusters d c 1) (read_chain fuel d m (at m c))
            (read_clusters-bytes d c v) (read_chain-bytes fuel d m (at m c) v))
  ]
]

-- A `read` leaves the disk alone, and what it reads are bytes.
abbrev pub Reads : DriverState → Option (Code × DriverState × List ℕ) → Type 0
Reads s none = Unit
Reads s (some (c, s', b)) = (s'.disk ≡ s.disk) × All IsByte b

pub Reads-map :
    (s : DriverState) (o : Option (List ℕ))
    → BytesIn o
    → Reads s (Option.map (λ b. (code 0, s, b)) o)
Reads-map s none h = tt
Reads-map s (some b) h = (refl, h)

pub read_entry-Reads :
    (s : DriverState) (q : DriverRequest) (i : ℕ) → IsDisk s.disk → Reads s (read_entry s q i)
unfolding read_entry
read_entry-Reads s q i v =
    elim (Bool-cases ((entry_at s.dir_table_buf i).attribute == attr_subdirectory)) [
      | inl e ↦ rw e (refl, tt)
      | inr e ↦ elim (Bool-cases (ltb q.buffer_size (entry_at s.dir_table_buf i).filesize)) [
        | inl l ↦ rw (e, l) (refl, tt)
        | inr l ↦
            rw (e, l)
              (Reads-map s
                (read_chain cluster_map_size s.disk s.cluster_map
                  (cluster_of (entry_at s.dir_table_buf i)))
                (read_chain-bytes cluster_map_size s.disk s.cluster_map
                  (cluster_of (entry_at s.dir_table_buf i)) v))
      ]
    ]

-- On a disk of whole blocks of bytes, a read that ends leaves the disk alone, and what it puts
-- into the buffer are bytes.
pub read-Reads : (s : DriverState) (q : DriverRequest) → IsDisk s.disk → Reads s (read s q)
unfolding read
read-Reads s q v = elim (Bool-cases (is_folder (load_table s.disk q.parent_cluster_number))) [
  | inr e ↦ rw e (refl, tt)
  | inl e ↦
      elim (Option-cases (find_match (load_table s.disk q.parent_cluster_number) q.name q.ext)) [
        | inl n ↦ rw (e, n) (refl, tt)
        | inr (i, n) ↦
            rw (e, n)
              (read_entry-Reads
                (record s { dir_table_buf = load_table s.disk q.parent_cluster_number }) q i v)
      ]
]
