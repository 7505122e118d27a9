-- ===== src/Fat32/Files/Empties.antt =====
-- The empty clusters that `write` (src/fat32.c) collects: they are empty, in range and in order.
use os_2024_ususbuntu_with_s.Prelude.{
  ℕ, zero, suc, ◌+◌, ◌<◌, ◌≤◌, ◌≡◌, ◌≢◌, refl, ◌∙◌, List, [], ◌∷◌, arith, length, ==-true, ==-false,
  drop,
}
use os_2024_ususbuntu_with_s.Bytes.{at}
use os_2024_ususbuntu_with_s.Fat32.Files.{empties_from, first_empty, cluster_available}

empties_from-empty :
    (w i : ℕ) (m : List ℕ) → w ≡ 0 → empties_from (w ∷ m) i ≡ i ∷ empties_from m (suc i)
unfolding empties_from
empties_from-empty w i m e = rw (==-true w 0 e)

empties_from-used : (w i : ℕ) (m : List ℕ) → w ≢ 0 → empties_from (w ∷ m) i ≡ empties_from m (suc i)
unfolding empties_from
empties_from-used w i m ne = rw (==-false w 0 ne)

-- Each collected index is in range, and its entry is empty.
pub record IsEmptyAt (m : List ℕ) (i x : ℕ) : Type 0 where
  pub low : i ≤ x
  pub high : x < i + length m
  pub empty : (y : ℕ) → i + y ≡ x → at m y ≡ 0

IsEmptyAt-suc : (w : ℕ) (m : List ℕ) (i x : ℕ) → IsEmptyAt m (suc i) x → IsEmptyAt (w ∷ m) i x
IsEmptyAt-suc w m i x h = record {
  low = omega (arith, h.low);
  high = omega (arith, h.high);
  empty = empty;
}
  where
    empty : (y : ℕ) → i + y ≡ x → at (w ∷ m) y ≡ 0
    empty zero e = absurd (omega (arith, h.low))
    empty (suc y) e = h.empty y (omega arith)

pub empties_from-IsEmptyAt :
    (m : List ℕ) (i k : ℕ) → k < length (empties_from m i) → IsEmptyAt m i (at (empties_from m i) k)
unfolding empties_from
empties_from-IsEmptyAt [] i k h = absurd (omega arith)
empties_from-IsEmptyAt (suc w ∷ m) i k h = rw (empties_from-used (suc w) i m (omega arith)) (
    IsEmptyAt-suc (suc w) m i (at (empties_from m (suc i)) k)
      (empties_from-IsEmptyAt m (suc i) k (rw (empties_from-used (suc w) i m (omega arith)) at h)))
empties_from-IsEmptyAt (zero ∷ m) i zero h = record {
  low = omega arith;
  high = omega arith;
  empty = first;
}
  where
    first : (y : ℕ) → i + y ≡ i → at (zero ∷ m) y ≡ 0
    first zero e = refl
    first (suc y) e = absurd (omega arith)
empties_from-IsEmptyAt (zero ∷ m) i (suc k) h =
    IsEmptyAt-suc zero m i (at (empties_from m (suc i)) k)
      (empties_from-IsEmptyAt m (suc i) k (omega arith))

-- The indices are collected in increasing order, so no index comes twice.
pub empties_from-lt :
    (m : List ℕ) (i j k : ℕ)
    → j < k
    → k < length (empties_from m i)
    → at (empties_from m i) j < at (empties_from m i) k
unfolding empties_from
empties_from-lt [] i j k h l = absurd (omega arith)
empties_from-lt (suc w ∷ m) i j k h l =
    rw (empties_from-used (suc w) i m (omega arith))
      (empties_from-lt m (suc i) j k h (rw (empties_from-used (suc w) i m (omega arith)) at l))
empties_from-lt (zero ∷ m) i j zero h l = absurd (omega arith)
empties_from-lt (zero ∷ m) i zero (suc k) h l =
    let a : IsEmptyAt m (suc i) (at (empties_from m (suc i)) k) =
      empties_from-IsEmptyAt m (suc i) k (omega arith) in
    omega (arith, a.low)
empties_from-lt (zero ∷ m) i (suc j) (suc k) h l =
    empties_from-lt m (suc i) j k (omega arith) (omega arith)

-- A map whose first two entries are taken has its first empty cluster past them, so the loops that
-- start at index 2 and the loop that starts at index 0 see the same clusters.
pub empties_from-drop :
    (m : List ℕ) → at m 0 ≢ 0 → at m 1 ≢ 0 → empties_from m 0 ≡ empties_from (drop 2 m) 2
empties_from-drop [] h k = absurd (h refl)
empties_from-drop (w ∷ []) h k = absurd (k refl)
empties_from-drop (w ∷ (v ∷ m)) h k = empties_from-used w 0 (v ∷ m) h ∙ empties_from-used v 1 m k

pub first_empty-eq :
    (m : List ℕ) → at m 0 ≢ 0 → at m 1 ≢ 0 → first_empty m ≡ at (empties_from m 0) 0
unfolding first_empty
first_empty-eq m h k = rw (empties_from-drop m h k)

pub cluster_available-eq :
    (m : List ℕ) → at m 0 ≢ 0 → at m 1 ≢ 0 → cluster_available m ≡ length (empties_from m 0)
unfolding cluster_available
cluster_available-eq m h k = rw (empties_from-drop m h k)

pub length-empties_from : (m : List ℕ) (i : ℕ) → length (empties_from m i) ≤ length m
unfolding empties_from
length-empties_from [] i = omega arith
length-empties_from (w ∷ m) i = ground (arith, length-empties_from m (suc i))
