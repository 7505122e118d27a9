-- ===== src/Fat32/Files/Alloc.antt =====
-- The allocation loop of `write` (src/fat32.c), and the chain that `read` follows after it.
use os_2024_ususbuntu_with_s.Prelude.{
  ℕ, zero, suc, ◌+◌, ◌*◌, ◌<◌, ◌≤◌, ◌≡◌, ◌≢◌, refl, sym, ap, ap₂, ◌∙◌, subst, List, ◌++◌, some,
  arith, length, set, take, drop, ◌==◌, if◌then◌else◌, ==-true, ==-false, leb_of_lt, ℕ_discrete,
  length-set, length-drop, get_or-set_self, get_or-set_ne, All, All-set, All-drop, take-drop-add,
  drop-drop,
}
use os_2024_ususbuntu_with_s.Bytes.{at}
use os_2024_ususbuntu_with_s.Fat32.Disk.{Disk, read_clusters, write_clusters, cluster_size}
use os_2024_ususbuntu_with_s.Fat32.Disk.Laws.{
  IsDisk, IsByte, IsCluster, write_clusters-IsDisk, read_clusters-write_clusters,
  read_clusters-write_clusters_ne,
}
use os_2024_ususbuntu_with_s.Fat32.Layout.{cluster_map_size}
use os_2024_ususbuntu_with_s.Fat32.Layout.Codec.{IsWord}
use os_2024_ususbuntu_with_s.Fat32.Driver.{fat32_fat_end_of_file}
use os_2024_ususbuntu_with_s.Fat32.Files.{alloc_loop, read_chain}

-- The loop of `read` at the last cluster of a chain, and at any other.
pub read_chain-last :
    (fuel : ℕ) (d : Disk) (m : List ℕ) (c : ℕ)
    → c < cluster_map_size
    → at m c ≡ fat32_fat_end_of_file
    → read_chain (suc fuel) d m c ≡ some (read_clusters d c 1)
unfolding read_chain
read_chain-last fuel d m c h e =
    rw (leb_of_lt cluster_map_size c h, ==-true (at m c) fat32_fat_end_of_file e)

pub read_chain-more :
    (fuel : ℕ) (d : Disk) (m : List ℕ) (c n : ℕ) (b : List ℕ)
    → c < cluster_map_size
    → at m c ≡ n
    → n ≢ fat32_fat_end_of_file
    → read_chain fuel d m n ≡ some b
    → read_chain (suc fuel) d m c ≡ some (read_clusters d c 1 ++ b)
unfolding read_chain
read_chain-more fuel d m c n b h e ne r =
    rw (e, leb_of_lt cluster_map_size c h, ==-false n fat32_fat_end_of_file ne, r)

-- What entry `k` of the clusters `es` links to in a chain of `count` clusters.
abbrev pub link : List ℕ → ℕ → ℕ → ℕ
link es count k = if k + 1 == count then fat32_fat_end_of_file else at es (k + 1)

-- Map and disk after the clusters `es[i..count)` were linked and filled from `buf`.
pub record Allocated (es buf : List ℕ) (count i : ℕ) (m : List ℕ) (d : Disk) (m' : List ℕ)
    (d' : Disk) : Type 0 where
  pub disk : IsDisk d'
  pub sized : length m' ≡ cluster_map_size
  pub words : All IsWord m'
  pub map_own : (k : ℕ) → i ≤ k → k < count → at m' (at es k) ≡ link es count k
  pub map_other : (c : ℕ) → ((k : ℕ) → i ≤ k → k < count → at es k ≢ c) → at m' c ≡ at m c
  pub disk_own :
      (k : ℕ)
      → i ≤ k
      → k < count
      → read_clusters d' (at es k) 1 ≡ take cluster_size (drop (k * cluster_size) buf)
  pub disk_other :
      (c : ℕ)
      → IsCluster c
      → ((k : ℕ) → i ≤ k → k < count → at es k ≢ c)
      → read_clusters d' c 1 ≡ read_clusters d c 1

-- A chain as `read` finds it: the links of the map, and the bytes of the clusters.
pub record Filled (es buf : List ℕ) (count : ℕ) (m : List ℕ) (d : Disk) : Type 0 where
  pub links : (k : ℕ) → k < count → at m (at es k) ≡ link es count k
  pub filled :
      (k : ℕ)
      → k < count
      → read_clusters d (at es k) 1 ≡ take cluster_size (drop (k * cluster_size) buf)

module _ (es buf : List ℕ) (count : ℕ) (inside : (k : ℕ) → k < count → at es k < cluster_map_size)
    (order : (j k : ℕ) → j < k → k < count → at es j < at es k) (bytes : All IsByte buf)
    (long : count * cluster_size ≤ length buf) where
  link-IsWord : (k : ℕ) → k < count → IsWord (link es count k)
  link-IsWord k h = ground (arith, inside (k + 1))

  long_enough : (i : ℕ) → i < count → cluster_size ≤ length (drop (i * cluster_size) buf)
  long_enough i h = omega (arith, length-drop (i * cluster_size) buf)

  -- One round: what the later rounds leave alone, and the cluster of this round.
  step :
      (i : ℕ) (m : List ℕ) (d : Disk) (m' : List ℕ) (d' : Disk)
      → i < count
      → IsDisk d
      → length m ≡ cluster_map_size
      → Allocated es buf count
          (i + 1)
          (set m (at es i) (link es count i))
          (write_clusters d (drop (i * cluster_size) buf) (at es i) 1)
          m'
          d'
      → Allocated es buf count i m d m' d'
  step i m d m' d' h v len r = record {
    disk = r.disk;
    sized = r.sized;
    words = r.words;
    map_own = map_own;
    map_other = λ c ne.
        r.map_other c (λ k lo hi. ne k (omega arith) hi)
        ∙ get_or-set_ne m (at es i) c (link es count i) 0 (ne i (omega arith) h);
    disk_own = disk_own;
    disk_other = λ c hc ne.
        r.disk_other c hc (λ k lo hi. ne k (omega arith) hi)
        ∙ read_clusters-write_clusters_ne d (drop (i * cluster_size) buf) (at es i) c
            (omega (arith, inside i h)) hc (ne i (omega arith) h);
  }
    where
      apart : (k : ℕ) → i + 1 ≤ k → k < count → at es k ≢ at es i
      apart k lo hi = omega (arith, order i k (omega arith) hi)

      map_own : (k : ℕ) → i ≤ k → k < count → at m' (at es k) ≡ link es count k
      map_own k lo hi = elim (ℕ_discrete i k) [
        | yes e ↦
            subst (λ x. at m' (at es x) ≡ link es count x) e
              (r.map_other (at es i) apart
                ∙ get_or-set_self m (at es i) (link es count i) 0 (omega (arith, inside i h)))
        | no ne ↦ r.map_own k (omega arith) hi
      ]

      disk_own :
          (k : ℕ)
          → i ≤ k
          → k < count
          → read_clusters d' (at es k) 1 ≡ take cluster_size (drop (k * cluster_size) buf)
      disk_own k lo hi = elim (ℕ_discrete i k) [
        | yes e ↦
            subst
              (λ x. read_clusters d' (at es x) 1 ≡ take cluster_size (drop (x * cluster_size) buf))
              e
              (r.disk_other (at es i) (omega (arith, inside i h)) apart
                ∙ read_clusters-write_clusters d (drop (i * cluster_size) buf) (at es i) v
                    (All-drop IsByte (i * cluster_size) buf bytes) (long_enough i h))
        | no ne ↦ r.disk_own k (omega arith) hi
      ]

  pub alloc_loop-Allocated :
      (rounds i : ℕ) (m : List ℕ) (d : Disk)
      → i + rounds ≡ count
      → IsDisk d
      → length m ≡ cluster_map_size
      → All IsWord m
      → let r = alloc_loop rounds count es buf i m d in Allocated es buf count i m d r.0 r.1
  unfolding alloc_loop
  alloc_loop-Allocated zero i m d e v len ws = record {
    disk = v;
    sized = len;
    words = ws;
    map_own = λ k lo hi. absurd (omega arith);
    map_other = λ c h. refl;
    disk_own = λ k lo hi. absurd (omega arith);
    disk_other = λ c hc h. refl;
  }
  alloc_loop-Allocated (suc rounds) i m d e v len ws = step i m d _ _ (omega arith) v len (
      alloc_loop-Allocated rounds (i + 1) (set m (at es i) (link es count i))
        (write_clusters d (drop (i * cluster_size) buf) (at es i) 1) (omega arith)
        (write_clusters-IsDisk d (drop (i * cluster_size) buf) (at es i) v
          (All-drop IsByte (i * cluster_size) buf bytes))
        (length-set m (at es i) (link es count i) ∙ len)
        (All-set IsWord m (at es i) (link es count i) ws (link-IsWord i (omega arith))))

  -- Reading from cluster `k` of the chain gives the rest of the buffer's clusters.
  pub read_chain-Filled :
      (m' : List ℕ) (d' : Disk)
      → Filled es buf count m' d'
      → (fuel n k : ℕ) → k + suc n ≡ count
      → n < fuel
      → read_chain fuel d' m' (at es k)
        ≡ some (take (suc n * cluster_size) (drop (k * cluster_size) buf))
  read_chain-Filled m' d' r zero n k e h = absurd (omega arith)
  read_chain-Filled m' d' r (suc fuel) zero k e h =
      read_chain-last fuel d' m' (at es k) (inside k (omega arith)) (
        r.links k (omega arith)
        ∙ ap (λ b. if b then fat32_fat_end_of_file else at es (k + 1)) (==-true (k + 1) count e))
      ∙ ap some (r.filled k (omega arith))
  read_chain-Filled m' d' r (suc fuel) (suc n) k e h =
      read_chain-more fuel d' m' (at es k) (at es (k + 1))
        (take (suc n * cluster_size) (drop ((k + 1) * cluster_size) buf)) (inside k (omega arith))
        (r.links k (omega arith)
          ∙ ap (λ b. if b then fat32_fat_end_of_file else at es (k + 1))
              (==-false (k + 1) count (omega arith)))
        (omega (arith, inside (k + 1) (omega arith)))
        (read_chain-Filled m' d' r fuel n (k + 1) (omega arith) (omega arith))
      ∙ ap some (
          ap₂ ◌++◌ (r.filled k (omega arith)) shifted
          ∙ take-drop-add cluster_size (suc n * cluster_size) (drop (k * cluster_size) buf)
          ∙ ap (λ x. take x (drop (k * cluster_size) buf)) (omega arith))
    where
      shifted :
          take (suc n * cluster_size) (drop ((k + 1) * cluster_size) buf)
          ≡ take (suc n * cluster_size) (drop cluster_size (drop (k * cluster_size) buf))
      shifted =
          ap (take (suc n * cluster_size)) (
            ap (λ x. drop x buf) (omega arith)
            ∙ sym (drop-drop (k * cluster_size) cluster_size buf))
