-- ===== src/Fat32/Format/Boot.antt =====
-- The file system that `create_fat32` (src/fat32.c) leaves, and the boot that finds it.
use os_2024_ususbuntu_with_s.Prelude.{
  ℕ, zero, suc, ◌+◌, ◌<◌, ◌≤◌, ◌≡◌, inl, refl, sym, ap, ◌∙◌, subst, Bool, true, false, not, List,
  [], ◌∷◌, ◌++◌, arith, length, set, replicate, if◌then◌else◌, length-set, length-replicate,
  get_or-set_self, get_or-set_ne, All, All-set, All-replicate, ℕ_discrete, ltb, inr, Bool-cases,
}
use os_2024_ususbuntu_with_s.Bytes.{at, memcmp, is_null, memcpy}
use os_2024_ususbuntu_with_s.Bytes.Compare.{memcmp_self}
use os_2024_ususbuntu_with_s.Fat32.Disk.{Disk, read_blocks, write_blocks, block_size}
use os_2024_ususbuntu_with_s.Fat32.Disk.Laws.{
  IsDisk, IsByte, write_clusters-block, read_blocks-write_blocks, write_blocks-IsDisk,
  read_blocks_same,
}
use os_2024_ususbuntu_with_s.Fat32.Layout.{
  DirectoryTable, empty_entry, directory_size, cluster_map_size, encode_table, encode_map,
}
use os_2024_ususbuntu_with_s.Fat32.Layout.Codec.{IsEntry, IsTable, IsMap, IsWord}
use os_2024_ususbuntu_with_s.Fat32.Driver.{
  DriverState, load_table, load_map, store_map, store_table, cluster_0_value, cluster_1_value,
  fat32_fat_end_of_file, root_cluster_number, is_folder,
}
use os_2024_ususbuntu_with_s.Fat32.Driver.Tables.{
  IsDriver, store_table-IsDisk, store_map-IsDisk, load_table-store_table, load_map-store_map,
  read_clusters-store_table, load_map_same,
}
use os_2024_ususbuntu_with_s.Fat32.Directory.{init_directory_table}
use os_2024_ususbuntu_with_s.Fat32.Files.{new_entry_index, free_slot_from}
use os_2024_ususbuntu_with_s.Fat32.Files.Request.{IsParent, IsReserved}
use os_2024_ususbuntu_with_s.Fat32.Format.{
  fs_signature, boot_sector, is_empty_storage, clear_loop, create_fat32,
  initialize_filesystem_fat32, driver_at_boot, codes, Behind,
}

-- What the clearing loop leaves.
record IsCleared (rounds i : ℕ) (m m' : List ℕ) : Type 0 where
  sized : length m' ≡ length m
  words : All IsWord m → All IsWord m'
  below : (c : ℕ) → c < i → at m' c ≡ at m c
  cleared : (c : ℕ) → i ≤ c → c < i + rounds → c < length m → at m' c ≡ 0

clear_loop-IsCleared : (rounds i : ℕ) (m : List ℕ) → IsCleared rounds i m (clear_loop rounds i m)
unfolding clear_loop
clear_loop-IsCleared zero i m = record {
  sized = refl;
  words = λ h. h;
  below = λ c h. refl;
  cleared = λ c lo hi h. absurd (omega arith);
}
clear_loop-IsCleared (suc rounds) i m =
    let r : IsCleared rounds (i + 1) (set m i 0) (clear_loop rounds (i + 1) (set m i 0)) =
      clear_loop-IsCleared rounds (i + 1) (set m i 0) in
    record {
      sized = r.sized ∙ length-set m i 0;
      words = λ h. r.words (All-set IsWord m i 0 h (omega arith));
      below = λ c h. r.below c (omega arith) ∙ get_or-set_ne m i c 0 0 (omega arith);
      cleared = λ c lo hi h. elim (ℕ_discrete i c) [
        | yes e ↦
            subst (λ x. at (clear_loop rounds (i + 1) (set m i 0)) x ≡ 0) e
              (r.below i (omega arith) ∙ get_or-set_self m i 0 0 (omega arith))
        | no ne ↦ r.cleared c (omega arith) (omega arith) (omega (arith, length-set m i 0))
      ];
    }

empty_entry-IsEntry : IsEntry empty_entry
empty_entry-IsEntry = omega arith

-- The bytes behind the literal are bytes.
pub record IsBehind (r : Behind) : Type 0 where
  pub first : r.first < 256
  pub second : r.second < 256
  pub third : r.third < 256

abbrev pub root_entry_table : Behind → DirectoryTable
root_entry_table r =
    init_directory_table (replicate directory_size empty_entry)
      (codes "root" ++ (0 ∷ (r.first ∷ (r.second ∷ (r.third ∷ []))))) root_cluster_number

pub root-IsTable : (r : Behind) → IsBehind r → IsTable (root_entry_table r)
unfolding init_directory_table memcpy
root-IsTable r b = (
  refl,
  (
    omega (arith, b.first, b.second, b.third),
    All-replicate IsEntry 63 empty_entry empty_entry-IsEntry,
  ),
)

root_slot : (r : Behind) → new_entry_index (root_entry_table r) ≡ 1
unfolding init_directory_table new_entry_index free_slot_from
root_slot r = refl

root_folder : (r : Behind) → is_folder (root_entry_table r) ≡ true
unfolding init_directory_table
root_folder r = refl

fs_signature-length : length fs_signature ≡ 512
fs_signature-length = refl

all_bytes : List ℕ → Bool
all_bytes [] = true
all_bytes (b ∷ bs) = if ltb b 256 then all_bytes bs else false

all_bytes-All : (bs : List ℕ) → all_bytes bs ≡ true → All IsByte bs
unfolding all_bytes
all_bytes-All [] h = tt
all_bytes-All (b ∷ bs) h = elim (Bool-cases (ltb b 256)) [
  | inl e ↦ (ground (arith, e), all_bytes-All bs (ground (arith, e, h)))
  | inr e ↦ absurd (ground (arith, e, h))
]

fs_signature-bytes : All IsByte fs_signature
unfolding all_bytes
fs_signature-bytes = all_bytes-All fs_signature refl

abbrev created_map : List ℕ → List ℕ
created_map m = clear_loop 509 3 (
    set (set (set m 0 cluster_0_value) 1 cluster_1_value) root_cluster_number fat32_fat_end_of_file)

module _ (m : List ℕ) (h : IsMap m) where
  marked : List ℕ
  marked =
      set (set (set m 0 cluster_0_value) 1 cluster_1_value) root_cluster_number
        fat32_fat_end_of_file

  marked-length : length marked ≡ 512
  unfolding marked
  marked-length =
      length-set (set (set m 0 cluster_0_value) 1 cluster_1_value) 2 fat32_fat_end_of_file
      ∙ (length-set (set m 0 cluster_0_value) 1 cluster_1_value
          ∙ (length-set m 0 cluster_0_value ∙ h.0))

  marked-words : All IsWord marked
  unfolding marked
  marked-words =
      All-set IsWord (set (set m 0 cluster_0_value) 1 cluster_1_value) 2 fat32_fat_end_of_file
        (All-set IsWord (set m 0 cluster_0_value) 1 cluster_1_value
          (All-set IsWord m 0 cluster_0_value h.1 (omega arith)) (omega arith))
        (omega arith)

  cleared : IsCleared 509 3 marked (created_map m)
  unfolding marked
  cleared = clear_loop-IsCleared 509 3 marked

  created_map-IsMap : IsMap (created_map m)
  created_map-IsMap = (cleared.sized ∙ marked-length, cleared.words marked-words)

  created_map-two : at (created_map m) 2 ≡ fat32_fat_end_of_file
  unfolding marked
  created_map-two =
      cleared.below 2 (omega arith)
      ∙ get_or-set_self (set (set m 0 cluster_0_value) 1 cluster_1_value) 2 fat32_fat_end_of_file 0
          (omega (
            arith,
            marked-length,
            length-set (set (set m 0 cluster_0_value) 1 cluster_1_value) 2 fat32_fat_end_of_file,
          ))

  created_map-empty : (c : ℕ) → 3 ≤ c → c < 512 → at (created_map m) c ≡ 0
  created_map-empty c lo hi = cleared.cleared c lo (omega arith) (omega (arith, marked-length))

  created_map-one : at (created_map m) 1 ≡ cluster_1_value
  unfolding marked
  created_map-one =
      cleared.below 1 (omega arith)
      ∙ (get_or-set_ne (set (set m 0 cluster_0_value) 1 cluster_1_value) 2 1 fat32_fat_end_of_file 0
            (omega arith)
          ∙ get_or-set_self (set m 0 cluster_0_value) 1 cluster_1_value 0
              (omega (arith, h.0, length-set m 0 cluster_0_value)))

  created_map-zero : at (created_map m) 0 ≡ cluster_0_value
  unfolding marked
  created_map-zero =
      cleared.below 0 (omega arith)
      ∙ (get_or-set_ne (set (set m 0 cluster_0_value) 1 cluster_1_value) 2 0 fat32_fat_end_of_file 0
            (omega arith)
          ∙ (get_or-set_ne (set m 0 cluster_0_value) 1 0 cluster_1_value 0 (omega arith)
              ∙ get_or-set_self m 0 cluster_0_value 0 (omega (arith, h.0))))

-- What `create_fat32` leaves: a driver in order with the root as an empty parent directory, an
-- empty map past it, and a disk that the next boot recognises and whose map is the driver's.
pub record IsCreated (r : Behind) (s : DriverState) : Type 0 where
  pub driver : IsDriver s
  pub reserved : IsReserved s
  pub root : IsParent s root_cluster_number
  pub root_table : load_table s.disk root_cluster_number ≡ root_entry_table r
  pub root_is_folder : is_folder (load_table s.disk root_cluster_number) ≡ true
  pub empties : (c : ℕ) → 3 ≤ c → c < cluster_map_size → at s.cluster_map c ≡ 0
  pub signed : is_empty_storage s.disk ≡ false
  pub saved : load_map s.disk ≡ s.cluster_map

module _ (r : Behind) (b : IsBehind r) (s : DriverState) (v : IsDriver s) where
  signed_disk : Disk
  signed_disk = write_blocks s.disk fs_signature boot_sector 1

  signed-IsDisk : IsDisk signed_disk
  unfolding signed_disk
  signed-IsDisk = write_blocks-IsDisk s.disk fs_signature 0 1 v.disk fs_signature-bytes

  mapped_disk : Disk
  mapped_disk = store_map signed_disk (created_map s.cluster_map)

  mapped-IsDisk : IsDisk mapped_disk
  unfolding mapped_disk
  mapped-IsDisk = store_map-IsDisk signed_disk (created_map s.cluster_map) signed-IsDisk

  created_disk : Disk
  created_disk = store_table mapped_disk (root_entry_table r) root_cluster_number

  created_disk-eq : (create_fat32 r s).disk ≡ created_disk
  unfolding create_fat32 created_disk mapped_disk signed_disk
  created_disk-eq = refl

  created-map : (create_fat32 r s).cluster_map ≡ created_map s.cluster_map
  unfolding create_fat32
  created-map = refl

  created-IsDisk : IsDisk created_disk
  unfolding created_disk
  created-IsDisk =
      store_table-IsDisk mapped_disk (root_entry_table r) 2 mapped-IsDisk (root-IsTable r b)

  created-root : load_table created_disk root_cluster_number ≡ root_entry_table r
  unfolding created_disk
  created-root =
      load_table-store_table mapped_disk (root_entry_table r) 2 mapped-IsDisk (root-IsTable r b)

  created-saved : load_map created_disk ≡ created_map s.cluster_map
  unfolding created_disk mapped_disk
  created-saved =
      load_map_same created_disk mapped_disk (
        read_clusters-store_table mapped_disk (root_entry_table r) 2 1 (omega arith) (omega arith)
          (omega arith))
      ∙ load_map-store_map signed_disk (created_map s.cluster_map) signed-IsDisk
          (created_map-IsMap s.cluster_map v.map)

  created-boot : created_disk 0 ≡ signed_disk 0
  unfolding created_disk mapped_disk store_table store_map
  created-boot =
      write_clusters-block mapped_disk (encode_table (root_entry_table r)) 2 0 (omega arith)
        (inl (omega arith))
      ∙ write_clusters-block signed_disk (encode_map (created_map s.cluster_map)) 1 0 (omega arith)
          (inl (omega arith))

  created-signature : read_blocks created_disk boot_sector 1 ≡ fs_signature
  unfolding signed_disk
  created-signature =
      read_blocks_same created_disk signed_disk 0 created-boot
      ∙ read_blocks-write_blocks s.disk fs_signature 0 v.disk fs_signature-bytes fs_signature-length

  created-signed : is_empty_storage created_disk ≡ false
  unfolding is_empty_storage
  created-signed =
      ap (λ b. not (is_null (memcmp b fs_signature block_size))) created-signature
      ∙ ap (λ c. not (is_null c)) (memcmp_self fs_signature block_size)

  -- Whatever bytes are behind the literal of the root's name: on a driver whose disk has whole
  -- blocks of bytes and whose map has 512 words, create_fat32 leaves a driver in order: the
  -- reserved map entries are used, cluster 2 is the used root directory, whose table has only its
  -- own entry and a free slot, map entries from 3 on are empty, the boot sector bears the
  -- signature and the map on the disk is the driver's.
  pub create_fat32-IsCreated : IsCreated r (create_fat32 r s)
  create_fat32-IsCreated = record {
    driver = record {
      disk = subst IsDisk (sym created_disk-eq) created-IsDisk;
      map = subst IsMap (sym created-map) (created_map-IsMap s.cluster_map v.map);
    };
    reserved = record {
      zero_used = λ e.
          absurd
            (omega (arith, e, ap (λ m. at m 0) created-map, created_map-zero s.cluster_map v.map));
      one_used = λ e.
          absurd
            (omega (arith, e, ap (λ m. at m 1) created-map, created_map-one s.cluster_map v.map));
    };
    root = record {
      low = omega arith;
      high = omega arith;
      used = λ e.
          absurd
            (omega (arith, e, ap (λ m. at m 2) created-map, created_map-two s.cluster_map v.map));
      slot = λ e. absurd (omega (arith, e, ap new_entry_index root-eq, root_slot r));
    };
    root_table = root-eq;
    root_is_folder = ap is_folder root-eq ∙ root_folder r;
    empties =
        λ c lo hi. ap (λ m. at m c) created-map ∙ created_map-empty s.cluster_map v.map c lo hi;
    signed = ap is_empty_storage created_disk-eq ∙ created-signed;
    saved = ap load_map created_disk-eq ∙ (created-saved ∙ sym created-map);
  }
    where
      root-eq : load_table (create_fat32 r s).disk root_cluster_number ≡ root_entry_table r
      root-eq = ap (λ d. load_table d root_cluster_number) created_disk-eq ∙ created-root

-- The driver at boot is in order on any disk whose blocks are whole.
pub driver_at_boot-IsDriver : (d : Disk) → IsDisk d → IsDriver (driver_at_boot d)
driver_at_boot-IsDriver d v = record {
  disk = v;
  map = (
    length-replicate {A = ℕ} cluster_map_size 0,
    All-replicate IsWord cluster_map_size 0 (omega arith),
  );
}

-- Whatever bytes are behind the literal of the root's name: on a disk of whole blocks of bytes
-- without the signature, the first boot creates a file system in order; a second boot on that disk
-- leaves the disk as it is and loads the map that the first boot had.
pub initialize-initialize :
    (r : Behind) (d : Disk)
    → IsBehind r
    → IsDisk d
    → is_empty_storage d ≡ true
    → let first : DriverState = initialize_filesystem_fat32 r (driver_at_boot d) in
      let second : DriverState = initialize_filesystem_fat32 r (driver_at_boot first.disk) in
      IsCreated r first × (second.disk ≡ first.disk) × (second.cluster_map ≡ first.cluster_map)
unfolding initialize_filesystem_fat32
initialize-initialize r d b v h =
    let c : IsCreated r (create_fat32 r (driver_at_boot d)) =
      create_fat32-IsCreated r b (driver_at_boot d) (driver_at_boot-IsDriver d v) in
    rw (h, c.signed) (c, refl, c.saved)
