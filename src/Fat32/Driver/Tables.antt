-- ===== src/Fat32/Driver/Tables.antt =====
-- Tables and the allocation map on the disk: storing and loading, for src/fat32.c.
use os_2024_ususbuntu_with_s.Prelude.{ℕ, ◌≡◌, ◌≢◌, ap, ◌∙◌, sym, List, arith, length, take_all}
use os_2024_ususbuntu_with_s.Fat32.Disk.{Disk, read_clusters}
use os_2024_ususbuntu_with_s.Fat32.Disk.Laws.{
  IsDisk, IsCluster, write_clusters-IsDisk, read_clusters-write_clusters,
  read_clusters-write_clusters_ne, read_clusters-length, read_clusters-bytes,
}
use os_2024_ususbuntu_with_s.Fat32.Layout.{
  DirectoryTable, decode_table, encode_table, encode_map, decode_map,
}
use os_2024_ususbuntu_with_s.Fat32.Layout.Codec.{
  IsTable, IsMap, decode_table-encode_table, length-encode_table, encode_table-bytes,
  decode_table-IsTable, decode_map-encode_map, length-encode_map, encode_map-bytes,
}
use os_2024_ususbuntu_with_s.Fat32.Driver.{
  DriverState, load_table, store_table, load_map, store_map, fat_cluster_number,
}

-- The map caches 512 words of which the first two are reserved, and the disk's blocks are whole.
pub record IsDriver (s : DriverState) : Type 0 where
  pub disk : IsDisk s.disk
  pub map : IsMap s.cluster_map

pub load_table-IsTable : (d : Disk) (c : ℕ) → IsDisk d → IsTable (load_table d c)
unfolding load_table
load_table-IsTable d c v =
    decode_table-IsTable (read_clusters d c 1) (omega (arith, read_clusters-length d c v))
      (read_clusters-bytes d c v)

pub store_table-IsDisk :
    (d : Disk) (t : DirectoryTable) (c : ℕ) → IsDisk d → IsTable t → IsDisk (store_table d t c)
unfolding store_table
store_table-IsDisk d t c v h =
    write_clusters-IsDisk d (encode_table t) c v (encode_table-bytes t h.1)

pub store_map-IsDisk : (d : Disk) (m : List ℕ) → IsDisk d → IsDisk (store_map d m)
unfolding store_map
store_map-IsDisk d m v =
    write_clusters-IsDisk d (encode_map m) fat_cluster_number v (encode_map-bytes m)

-- On a disk of whole blocks of bytes, a table of 64 entries whose fields fit their widths is
-- loaded as it was stored.
pub load_table-store_table :
    (d : Disk) (t : DirectoryTable) (c : ℕ)
    → IsDisk d
    → IsTable t
    → load_table (store_table d t c) c ≡ t
unfolding load_table store_table
load_table-store_table d t c v h =
    ap decode_table (
      read_clusters-write_clusters d (encode_table t) c v (encode_table-bytes t h.1)
        (omega (arith, len))
      ∙ take_all 2048 (encode_table t) (omega (arith, len)))
    ∙ decode_table-encode_table t h
  where
    len : length (encode_table t) ≡ 2048
    len = omega (arith, length-encode_table t h.1, h.0)

-- Clusters that a store does not name keep their bytes.
pub read_clusters-store_table :
    (d : Disk) (t : DirectoryTable) (c k : ℕ)
    → IsCluster c
    → IsCluster k
    → c ≢ k
    → read_clusters (store_table d t c) k 1 ≡ read_clusters d k 1
unfolding store_table
read_clusters-store_table d t c k hc hk ne =
    read_clusters-write_clusters_ne d (encode_table t) c k hc hk ne

pub read_clusters-store_map :
    (d : Disk) (m : List ℕ) (k : ℕ)
    → IsCluster k
    → k ≢ fat_cluster_number
    → read_clusters (store_map d m) k 1 ≡ read_clusters d k 1
unfolding store_map
read_clusters-store_map d m k hk ne =
    read_clusters-write_clusters_ne d (encode_map m) fat_cluster_number k (omega arith) hk
      (λ e. ne (sym e))

pub load_table_same :
    (d e : Disk) (k : ℕ)
    → read_clusters d k 1 ≡ read_clusters e k 1
    → load_table d k ≡ load_table e k
unfolding load_table
load_table_same d e k h = ap decode_table h

pub load_map_same :
    (d e : Disk)
    → read_clusters d fat_cluster_number 1 ≡ read_clusters e fat_cluster_number 1
    → load_map d ≡ load_map e
unfolding load_map
load_map_same d e h = ap decode_map h

-- On a disk of whole blocks of bytes, a map of 512 words of 32 bits is loaded as it was stored.
pub load_map-store_map : (d : Disk) (m : List ℕ) → IsDisk d → IsMap m → load_map (store_map d m) ≡ m
unfolding load_map store_map
load_map-store_map d m v h =
    ap decode_map (
      read_clusters-write_clusters d (encode_map m) fat_cluster_number v (encode_map-bytes m)
        (omega (arith, len))
      ∙ take_all 2048 (encode_map m) (omega (arith, len)))
    ∙ decode_map-encode_map m h
  where
    len : length (encode_map m) ≡ 2048
    len = omega (arith, length-encode_map m, h.0)
