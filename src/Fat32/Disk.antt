-- ===== src/Fat32/Disk.antt =====
-- The block device below the driver, and the cluster operations of src/fat32.c above it.
-- The device is that of src/external-inserter.c, which keeps the image in memory: a function from
-- a logical block address to the block's 512 bytes. It has no end: an access past the image's 4 MiB,
-- which the C code does not check, is not told apart here.
pub mod Laws
use os_2024_ususbuntu_with_s.Prelude.{
  ℕ, zero, suc, ◌+◌, ◌*◌, ◌%◌, ◌^◌, List, [], ◌++◌, ◌==◌, if◌then◌else◌, drop,
}
use os_2024_ususbuntu_with_s.Bytes.{memcpy}

abbrev pub block_size : ℕ
block_size = 512

abbrev pub cluster_block_count : ℕ
cluster_block_count = 4

abbrev pub cluster_size : ℕ
cluster_size = 2048

abbrev pub Disk : Type 0
Disk = ℕ → List ℕ

abbrev pub update : Disk → ℕ → List ℕ → Disk
update d lba block l = if l == lba then block else d l

-- `for (i = 0; i < block_count; i++) memcpy(ptr + 512 * i, image + 512 * (lba + i), 512);`
unfoldable pub read_loop : ℕ → Disk → ℕ → List ℕ
read_loop zero d lba = []
read_loop (suc rounds) d lba = d lba ++ read_loop rounds d (lba + 1)

unfoldable pub read_blocks : Disk → ℕ → ℕ → List ℕ
read_blocks d lba block_count = read_loop block_count d lba

-- `for (i = 0; i < block_count; i++) memcpy(image + 512 * (lba + i), ptr + 512 * i, 512);`
unfoldable pub write_loop : ℕ → Disk → List ℕ → ℕ → Disk
write_loop zero d ptr lba = d
write_loop (suc rounds) d ptr lba =
    write_loop rounds (update d lba (memcpy (d lba) ptr block_size)) (drop block_size ptr) (lba + 1)

unfoldable pub write_blocks : Disk → List ℕ → ℕ → ℕ → Disk
write_blocks d ptr lba block_count = write_loop block_count d ptr lba

unfoldable pub cluster_to_lba : ℕ → ℕ
cluster_to_lba cluster = cluster * cluster_block_count % 2 ^ 32

-- The block count is a `uint8_t`.
unfoldable pub read_clusters : Disk → ℕ → ℕ → List ℕ
read_clusters d cluster_number cluster_count =
    read_blocks d (cluster_to_lba cluster_number) (cluster_count * cluster_block_count % 256)

unfoldable pub write_clusters : Disk → List ℕ → ℕ → ℕ → Disk
write_clusters d ptr cluster_number cluster_count =
    write_blocks d ptr (cluster_to_lba cluster_number) (cluster_count * cluster_block_count % 256)
