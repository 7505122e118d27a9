-- ===== src/Fat32/Files/FreeChain.antt =====
-- The freeing loop of `delete` (src/fat32.c) on a chain of clusters.
use os_2024_ususbuntu_with_s.Prelude.{
  ℕ, zero, suc, ◌+◌, ◌<◌, ◌≤◌, ◌≡◌, ◌≢◌, refl, ap, ◌∙◌, subst, List, some, arith, length, set,
  if◌then◌else◌, ==-true, ==-false, leb_of_lt, ℕ_discrete, length-set, get_or-set_self,
  get_or-set_ne,
}
use os_2024_ususbuntu_with_s.Bytes.{at}
use os_2024_ususbuntu_with_s.Fat32.Layout.{cluster_map_size}
use os_2024_ususbuntu_with_s.Fat32.Driver.{fat32_fat_end_of_file}
use os_2024_ususbuntu_with_s.Fat32.Files.{free_chain}
use os_2024_ususbuntu_with_s.Fat32.Files.Alloc.{link}

free_chain-last :
    (fuel : ℕ) (m : List ℕ) (c : ℕ)
    → c < cluster_map_size
    → at m c ≡ fat32_fat_end_of_file
    → free_chain (suc fuel) m c ≡ some (set m c 0)
unfolding free_chain
free_chain-last fuel m c h e =
    rw (leb_of_lt cluster_map_size c h, ==-true (at m c) fat32_fat_end_of_file e)

free_chain-more :
    (fuel : ℕ) (m : List ℕ) (c n : ℕ)
    → c < cluster_map_size
    → at m c ≡ n
    → n ≢ fat32_fat_end_of_file
    → free_chain (suc fuel) m c ≡ free_chain fuel (set m c 0) n
unfolding free_chain
free_chain-more fuel m c n h e ne =
    rw (e, leb_of_lt cluster_map_size c h, ==-false n fat32_fat_end_of_file ne)

-- The map with the clusters `es[k..count)` freed.
pub record IsFreed (es : List ℕ) (count k : ℕ) (m m' : List ℕ) : Type 0 where
  pub sized : length m' ≡ length m
  pub freed : (j : ℕ) → k ≤ j → j < count → at m' (at es j) ≡ 0
  pub kept : (c : ℕ) → ((j : ℕ) → k ≤ j → j < count → at es j ≢ c) → at m' c ≡ at m c

module _ (es : List ℕ) (count : ℕ) (inside : (k : ℕ) → k < count → at es k < cluster_map_size)
    (order : (j k : ℕ) → j < k → k < count → at es j < at es k) where
  -- One round of the loop more.
  freed_before :
      (k : ℕ) (m m' : List ℕ)
      → length m ≡ cluster_map_size
      → k < count
      → IsFreed es count (k + 1) (set m (at es k) 0) m'
      → IsFreed es count k m m'
  freed_before k m m' len h r = record {
    sized = r.sized ∙ length-set m (at es k) 0;
    freed = freed;
    kept = λ c ne.
        r.kept c (λ j lo hi. ne j (omega arith) hi)
        ∙ get_or-set_ne m (at es k) c 0 0 (ne k (omega arith) h);
  }
    where
      freed : (j : ℕ) → k ≤ j → j < count → at m' (at es j) ≡ 0
      freed j lo hi = elim (ℕ_discrete k j) [
        | yes e ↦
            subst (λ x. at m' (at es x) ≡ 0) e
              (r.kept (at es k) (λ i l g. omega (arith, order k i (omega arith) g))
                ∙ get_or-set_self m (at es k) 0 0 (omega (arith, inside k h)))
        | no ne ↦ r.freed j (omega arith) hi
      ]

  -- The loop of `delete` frees the chain from cluster `k` on, and ends.
  pub free_chain-IsFreed :
      (fuel n k : ℕ) (m : List ℕ)
      → k + suc n ≡ count
      → n < fuel
      → length m ≡ cluster_map_size
      → ((j : ℕ) → k ≤ j → j < count → at m (at es j) ≡ link es count j)
      → (m' : List ℕ) × (free_chain fuel m (at es k) ≡ some m') × IsFreed es count k m m'
  free_chain-IsFreed zero n k m e h len links = absurd (omega arith)
  free_chain-IsFreed (suc fuel) zero k m e h len links = (
    set m (at es k) 0,
    free_chain-last fuel m (at es k) (inside k (omega arith)) (
        links k (omega arith) (omega arith)
        ∙ ap (λ b. if b then fat32_fat_end_of_file else at es (k + 1)) (==-true (k + 1) count e)),
    freed_before k m (set m (at es k) 0) len (omega arith)
        (record { sized = refl; freed = λ j lo hi. absurd (omega arith); kept = λ c ne. refl }),
  )
  free_chain-IsFreed (suc fuel) (suc n) k m e h len links =
      let r : (m' : List ℕ) × (free_chain fuel (set m (at es k) 0) (at es (k + 1)) ≡ some m')
          × IsFreed es count (k + 1) (set m (at es k) 0) m' =
        free_chain-IsFreed fuel n (k + 1) (set m (at es k) 0) (omega arith) (omega arith)
          (length-set m (at es k) 0 ∙ len)
          (λ j lo hi.
            get_or-set_ne m (at es k) (at es j) 0 0 (omega (arith, order k j (omega arith) hi))
            ∙ links j (omega arith) hi) in
      (
        r.0,
        free_chain-more fuel m (at es k) (at es (k + 1)) (inside k (omega arith))
              (links k (omega arith) (omega arith)
                ∙ ap (λ b. if b then fat32_fat_end_of_file else at es (k + 1))
                    (==-false (k + 1) count (omega arith)))
              (omega (arith, inside (k + 1) (omega arith)))
            ∙ r.1,
        freed_before k m r.0 len (omega arith) r.2,
      )
