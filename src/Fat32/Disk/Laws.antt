-- ===== src/Fat32/Disk/Laws.antt =====
-- Clusters on the disk: reading and writing, for `read_clusters` and `write_clusters` of src/fat32.c.
use os_2024_ususbuntu_with_s.Prelude.{
  ℕ, zero, suc, ◌+◌, ◌*◌, ◌^◌, ◌<◌, ◌≤◌, ◌≡◌, ◌≢◌, ◌⊎◌, inl, take-drop-add, take_all, refl, ap, ap₂,
  ◌∙◌, List, [], ◌∷◌, ◌++◌, arith, if◌then◌else◌, take, drop, length, length-append, length-drop,
  All, All-append, All-drop, ==-true, ==-false, ℕ_discrete,
}
use os_2024_ususbuntu_with_s.Bytes.{memcpy}
use os_2024_ususbuntu_with_s.Fat32.Disk.{
  Disk, update, read_loop, read_blocks, write_loop, write_blocks, cluster_to_lba, read_clusters,
  write_clusters, cluster_size, block_size,
}

abbrev pub IsByte : ℕ → Type 0
IsByte c = c < 256

-- Every block holds 512 bytes.
pub record IsDisk (d : Disk) : Type 0 where
  pub sized : (lba : ℕ) → length (d lba) ≡ block_size
  pub bytes : (lba : ℕ) → All IsByte (d lba)

-- The copy of a block out of a buffer that is long enough.
memcpy-take : (n : ℕ) (d s : List ℕ) → length d ≡ n → n ≤ length s → memcpy d s n ≡ take n s
unfolding memcpy
memcpy-take zero [] s h k = refl
memcpy-take zero (x ∷ d) s h k = absurd (omega arith)
memcpy-take (suc n) [] s h k = absurd (omega arith)
memcpy-take (suc n) (x ∷ d) [] h k = absurd (omega arith)
memcpy-take (suc n) (x ∷ d) (b ∷ s) h k =
    ap (λ t. b ∷ t) (memcpy-take n d s (omega arith) (omega arith))

length-memcpy : (n : ℕ) (d s : List ℕ) → length (memcpy d s n) ≡ length d
unfolding memcpy
length-memcpy zero d s = refl
length-memcpy (suc n) [] s = refl
length-memcpy (suc n) (x ∷ d) s = ap suc (length-memcpy n d (drop 1 s))

memcpy-bytes : (n : ℕ) (d s : List ℕ) → All IsByte d → All IsByte s → All IsByte (memcpy d s n)
unfolding memcpy
memcpy-bytes zero d s h k = h
memcpy-bytes (suc n) [] s h k = tt
memcpy-bytes (suc n) (x ∷ d) [] h k = (omega arith, memcpy-bytes n d [] h.1 k)
memcpy-bytes (suc n) (x ∷ d) (b ∷ s) h k = (k.0, memcpy-bytes n d s h.1 k.1)

update-IsDisk :
    (d : Disk) (lba : ℕ) (block : List ℕ)
    → IsDisk d
    → length block ≡ block_size
    → All IsByte block
    → IsDisk (update d lba block)
update-IsDisk d lba block v len b = record { sized = sized; bytes = bytes }
  where
    sized : (l : ℕ) → length (update d lba block l) ≡ block_size
    sized l = elim (ℕ_discrete l lba) [
      | yes e ↦ rw (==-true l lba e) len
      | no ne ↦ rw (==-false l lba ne) (v.sized l)
    ]

    bytes : (l : ℕ) → All IsByte (update d lba block l)
    bytes l = elim (ℕ_discrete l lba) [
      | yes e ↦ rw (==-true l lba e) b
      | no ne ↦ rw (==-false l lba ne) (v.bytes l)
    ]

write_loop-IsDisk :
    (n : ℕ) (d : Disk) (ptr : List ℕ) (lba : ℕ)
    → IsDisk d
    → All IsByte ptr
    → IsDisk (write_loop n d ptr lba)
unfolding write_loop
write_loop-IsDisk zero d ptr lba v b = v
write_loop-IsDisk (suc n) d ptr lba v b =
    write_loop-IsDisk n (update d lba (memcpy (d lba) ptr block_size)) (drop block_size ptr)
      (lba + 1)
      (update-IsDisk d lba (memcpy (d lba) ptr block_size) v
        (length-memcpy block_size (d lba) ptr ∙ v.sized lba)
        (memcpy-bytes block_size (d lba) ptr (v.bytes lba) b))
      (All-drop IsByte block_size ptr b)

-- Blocks outside the written range stay.
write_loop-outside :
    (n : ℕ) (d : Disk) (ptr : List ℕ) (lba l : ℕ)
    → (l < lba) ⊎ (lba + n ≤ l)
    → write_loop n d ptr lba l ≡ d l
unfolding write_loop
write_loop-outside zero d ptr lba l h = refl
write_loop-outside (suc n) d ptr lba l h =
    write_loop-outside n (update d lba (memcpy (d lba) ptr block_size)) (drop block_size ptr)
      (lba + 1) l (omega arith)
    ∙ ap (λ b. if b then memcpy (d lba) ptr block_size else d l) (==-false l lba (omega arith))

read_loop-same :
    (n : ℕ) (d e : Disk) (lba : ℕ)
    → ((l : ℕ) → lba ≤ l → l < lba + n → d l ≡ e l)
    → read_loop n d lba ≡ read_loop n e lba
unfolding read_loop
read_loop-same zero d e lba h = refl
read_loop-same (suc n) d e lba h =
    ap₂ ◌++◌ (h lba (omega arith) (omega arith))
      (read_loop-same n d e (lba + 1) (λ l lo hi. h l (omega arith) (omega arith)))

read_loop-write_loop :
    (n : ℕ) (d : Disk) (ptr : List ℕ) (lba : ℕ)
    → IsDisk d
    → All IsByte ptr
    → n * block_size ≤ length ptr
    → read_loop n (write_loop n d ptr lba) lba ≡ take (n * block_size) ptr
unfolding read_loop write_loop
read_loop-write_loop zero d ptr lba v b h = refl
read_loop-write_loop (suc n) d ptr lba v b h =
    ap₂ ◌++◌ first (
      read_loop-write_loop n (update d lba (memcpy (d lba) ptr block_size)) (drop block_size ptr)
        (lba + 1)
        (update-IsDisk d lba (memcpy (d lba) ptr block_size) v
          (length-memcpy block_size (d lba) ptr ∙ v.sized lba)
          (memcpy-bytes block_size (d lba) ptr (v.bytes lba) b))
        (All-drop IsByte block_size ptr b) (omega (arith, length-drop block_size ptr)))
    ∙ take-drop-add block_size (n * block_size) ptr
    ∙ ap (λ k. take k ptr) (omega arith)
  where
    first :
        write_loop n
          (update d lba (memcpy (d lba) ptr block_size))
          (drop block_size ptr)
          (lba + 1)
          lba
        ≡ take block_size ptr
    first =
        write_loop-outside n (update d lba (memcpy (d lba) ptr block_size)) (drop block_size ptr)
          (lba + 1) lba (inl (omega arith))
        ∙ ap (λ b. if b then memcpy (d lba) ptr block_size else d lba) (==-true lba lba refl)
        ∙ memcpy-take block_size (d lba) ptr (v.sized lba) (omega arith)

read_loop-length :
    (n : ℕ) (d : Disk) (lba : ℕ) → IsDisk d → length (read_loop n d lba) ≡ n * block_size
unfolding read_loop
read_loop-length zero d lba v = refl
read_loop-length (suc n) d lba v = omega (
  arith,
  length-append (d lba) (read_loop n d (lba + 1)),
  v.sized lba,
  read_loop-length n d (lba + 1) v,
)

read_loop-bytes : (n : ℕ) (d : Disk) (lba : ℕ) → IsDisk d → All IsByte (read_loop n d lba)
unfolding read_loop
read_loop-bytes zero d lba v = tt
read_loop-bytes (suc n) d lba v =
    All-append IsByte (d lba) (read_loop n d (lba + 1)) (v.bytes lba)
      (read_loop-bytes n d (lba + 1) v)

-- A cluster number whose address does not wrap.
abbrev pub IsCluster : ℕ → Type 0
IsCluster c = c < 2 ^ 30

pub cluster_to_lba-exact : (c : ℕ) → IsCluster c → cluster_to_lba c ≡ c * 4
unfolding cluster_to_lba
cluster_to_lba-exact c h = omega arith

pub write_clusters-IsDisk :
    (d : Disk) (ptr : List ℕ) (c : ℕ)
    → IsDisk d
    → All IsByte ptr
    → IsDisk (write_clusters d ptr c 1)
unfolding write_clusters write_blocks
write_clusters-IsDisk d ptr c v b = write_loop-IsDisk 4 d ptr (cluster_to_lba c) v b

-- On a disk of whole blocks of bytes, a buffer of at least a cluster of bytes that is written to a
-- cluster is read back from it.
pub read_clusters-write_clusters :
    (d : Disk) (ptr : List ℕ) (c : ℕ)
    → IsDisk d
    → All IsByte ptr
    → cluster_size ≤ length ptr
    → read_clusters (write_clusters d ptr c 1) c 1 ≡ take cluster_size ptr
unfolding read_clusters read_blocks write_clusters write_blocks
read_clusters-write_clusters d ptr c v b h = read_loop-write_loop 4 d ptr (cluster_to_lba c) v b h

-- For two different clusters whose blocks have 32-bit addresses, a write to the one leaves what is
-- read from the other.
pub read_clusters-write_clusters_ne :
    (d : Disk) (ptr : List ℕ) (c k : ℕ)
    → IsCluster c
    → IsCluster k
    → c ≢ k
    → read_clusters (write_clusters d ptr c 1) k 1 ≡ read_clusters d k 1
unfolding read_clusters read_blocks write_clusters write_blocks
read_clusters-write_clusters_ne d ptr c k hc hk ne =
    rw (cluster_to_lba-exact c hc, cluster_to_lba-exact k hk)
      (read_loop-same 4 (write_loop 4 d ptr (c * 4)) d (k * 4)
        (λ l lo hi. write_loop-outside 4 d ptr (c * 4) l (omega arith)))

pub read_clusters-length :
    (d : Disk) (c : ℕ) → IsDisk d → length (read_clusters d c 1) ≡ cluster_size
unfolding read_clusters read_blocks
read_clusters-length d c v = read_loop-length 4 d (cluster_to_lba c) v

pub read_clusters-bytes : (d : Disk) (c : ℕ) → IsDisk d → All IsByte (read_clusters d c 1)
unfolding read_clusters read_blocks
read_clusters-bytes d c v = read_loop-bytes 4 d (cluster_to_lba c) v

-- A block outside a written cluster stays.
pub write_clusters-block :
    (d : Disk) (ptr : List ℕ) (c l : ℕ)
    → IsCluster c
    → (l < c * 4) ⊎ (c * 4 + 4 ≤ l)
    → write_clusters d ptr c 1 l ≡ d l
unfolding write_clusters write_blocks
write_clusters-block d ptr c l h away =
    rw (cluster_to_lba-exact c h) (write_loop-outside 4 d ptr (c * 4) l away)

-- One block, written and read.
pub read_blocks-write_blocks :
    (d : Disk) (ptr : List ℕ) (lba : ℕ)
    → IsDisk d
    → All IsByte ptr
    → length ptr ≡ block_size
    → read_blocks (write_blocks d ptr lba 1) lba 1 ≡ ptr
unfolding read_blocks write_blocks
read_blocks-write_blocks d ptr lba v b h =
    read_loop-write_loop 1 d ptr lba v b (omega arith) ∙ take_all 512 ptr h

pub write_blocks-IsDisk :
    (d : Disk) (ptr : List ℕ) (lba n : ℕ)
    → IsDisk d
    → All IsByte ptr
    → IsDisk (write_blocks d ptr lba n)
unfolding write_blocks
write_blocks-IsDisk d ptr lba n v b = write_loop-IsDisk n d ptr lba v b

-- Reading a block depends on that block alone.
pub read_blocks_same :
    (d e : Disk) (lba : ℕ) → d lba ≡ e lba → read_blocks d lba 1 ≡ read_blocks e lba 1
unfolding read_blocks read_loop
read_blocks_same d e lba h = ap (λ b. b ++ []) h
