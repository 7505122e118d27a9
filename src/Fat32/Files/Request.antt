-- ===== src/Fat32/Files/Request.antt =====
-- Requests for files that `write` (src/fat32.c) accepts, what a successful `write` has checked, and
-- the directory entry that it makes.
use os_2024_ususbuntu_with_s.Prelude.{
  ℕ, suc, ◌+◌, ◌*◌, ◌<◌, ◌≤◌, ◌≡◌, ◌≢◌, refl, sym, subst, true, [], ◌∷◌, none, arith, length,
  replicate, All, ap, ◌∙◌, ◌-◌, ◌==◌, Bool-cases, inl, inr, ==-true,
}
use os_2024_ususbuntu_with_s.Bytes.{at}
use os_2024_ususbuntu_with_s.Bytes.Compare.{memcpy_all}
use os_2024_ususbuntu_with_s.Fat32.Disk.{cluster_size}
use os_2024_ususbuntu_with_s.Fat32.Disk.Laws.{IsByte}
use os_2024_ususbuntu_with_s.Fat32.Layout.{DirectoryTable, cluster_map_size, entry_at}
use os_2024_ususbuntu_with_s.Fat32.Layout.Codec.{IsEntry, IsTable}
use os_2024_ususbuntu_with_s.Fat32.Driver.{
  DriverState, DriverRequest, code, load_table, cluster_of, find_match, is_folder, ceil_div,
  uattr_not_empty,
}
use os_2024_ususbuntu_with_s.Fat32.Files.{
  write, commit, make_file, new_entry, new_entry_index, free_slot_from, cluster_available,
  cluster_count_of,
}

-- A request for a file: its names fill their fields, its size is positive as an `int32_t`, and the
-- buffer holds all the clusters that are written.
pub record IsFileRequest (q : DriverRequest) : Type 0 where
  pub name_len : length q.name ≡ 8
  pub ext_len : length q.ext ≡ 3
  pub name_bytes : All IsByte q.name
  pub ext_bytes : All IsByte q.ext
  pub not_empty : 0 < q.buffer_size
  pub small : q.buffer_size < 2147483648
  pub buf_bytes : All IsByte q.buf
  pub buf_long : cluster_count_of q.buffer_size * cluster_size ≤ length q.buf

-- A directory to write into: a cluster past the map's own that is in use, with a free slot.
pub record IsParent (s : DriverState) (p : ℕ) : Type 0 where
  pub low : 2 ≤ p
  pub high : p < cluster_map_size
  pub used : at s.cluster_map p ≢ 0
  pub slot : new_entry_index (load_table s.disk p) ≢ 0

-- The map's two reserved entries are in use.
pub record IsReserved (s : DriverState) : Type 0 where
  pub zero_used : at s.cluster_map 0 ≢ 0
  pub one_used : at s.cluster_map 1 ≢ 0

pub cluster_count_of-pos : (n : ℕ) → 0 < n → n < 2147483648 → 0 < cluster_count_of n
unfolding cluster_count_of ceil_div
cluster_count_of-pos n h k = ground arith

-- The state with the parent's table in its buffer.
abbrev pub loaded : DriverState → DriverRequest → DriverState
loaded s q = record s { dir_table_buf = load_table s.disk q.parent_cluster_number }

-- What a successful `write` of a file has checked, and the state that it leaves.
pub record Written (s : DriverState) (q : DriverRequest) (s' : DriverState) : Type 0 where
  pub folder : is_folder (load_table s.disk q.parent_cluster_number) ≡ true
  pub fresh : find_match (load_table s.disk q.parent_cluster_number) q.name q.ext ≡ none
  pub room : cluster_count_of q.buffer_size ≤ cluster_available s.cluster_map
  pub state : s' ≡ commit (loaded s q) q (make_file (loaded s q) q)

pub write-Written :
    (s : DriverState) (q : DriverRequest) (s' : DriverState)
    → 0 < q.buffer_size
    → write s q ≡ (code 0, s')
    → Written s q s'
unfolding write
write-Written s q s' pos h = ground arith

-- When the parent is a directory without the name, and at least as many clusters are empty as the
-- size needs, write returns 0.
pub write-succeeds :
    (s : DriverState) (q : DriverRequest)
    → is_folder (load_table s.disk q.parent_cluster_number) ≡ true
    → find_match (load_table s.disk q.parent_cluster_number) q.name q.ext ≡ none
    → cluster_count_of q.buffer_size ≤ cluster_available s.cluster_map
    → write s q ≡ (code 0, (write s q).1)
unfolding write
write-succeeds s q f n room = ground arith

free_slot_from-range :
    (t : DirectoryTable) (i : ℕ)
    → 0 < i
    → free_slot_from t i ≢ 0
    → (i ≤ free_slot_from t i) × (free_slot_from t i < i + length t)
unfolding free_slot_from
free_slot_from-range [] i h ne = absurd (ne refl)
free_slot_from-range (e ∷ t) i h ne = ground (arith, free_slot_from-range t (suc i))

free_slot_from-free :
    (t : DirectoryTable) (i : ℕ)
    → free_slot_from t i ≢ 0
    → (i ≤ free_slot_from t i)
      × ((entry_at t (free_slot_from t i - i)).user_attribute ≢ uattr_not_empty)
unfolding free_slot_from
free_slot_from-free [] i h = absurd (h refl)
free_slot_from-free (e ∷ t) i h = elim (Bool-cases (e.user_attribute == uattr_not_empty)) [
  | inl used ↦
      let skip : free_slot_from (e ∷ t) i ≡ free_slot_from t (suc i) = rw used refl in
      let ih = free_slot_from-free t (suc i) (λ z. h (skip ∙ z)) in
      let next : free_slot_from (e ∷ t) i - i ≡ suc (free_slot_from t (suc i) - suc i) =
        omega (arith, skip, ih.0) in
      (
        omega (arith, skip, ih.0),
        λ z. ih.1 (ap (λ k. (entry_at (e ∷ t) k).user_attribute) (sym next) ∙ z),
      )
  | inr free ↦
      let here : free_slot_from (e ∷ t) i ≡ i = rw free refl in
      let first : free_slot_from (e ∷ t) i - i ≡ 0 = omega (arith, here) in
      (
        omega (arith, here),
        λ z. cc (
          free,
          ==-true e.user_attribute uattr_not_empty
              (ap (λ k. (entry_at (e ∷ t) k).user_attribute) (sym first) ∙ z),
        ),
      )
]

pub new_entry_index-free :
    (t : DirectoryTable)
    → new_entry_index t ≢ 0
    → (entry_at t (new_entry_index t)).user_attribute ≢ uattr_not_empty
unfolding new_entry_index free_slot_from
new_entry_index-free [] h = absurd (h refl)
new_entry_index-free (e ∷ t) h =
    let f = free_slot_from-free t 1 h in
    let next : free_slot_from t 1 ≡ suc (free_slot_from t 1 - 1) = omega (arith, f.0) in
    λ z. f.1 (ap (λ k. (entry_at (e ∷ t) k).user_attribute) (sym next) ∙ z)

pub new_entry_index-range :
    (t : DirectoryTable)
    → IsTable t
    → new_entry_index t ≢ 0
    → (1 ≤ new_entry_index t) × (new_entry_index t < length t)
unfolding new_entry_index
new_entry_index-range [] v ne = absurd (omega (arith, v.0))
new_entry_index-range (e ∷ t) v ne =
    let r : (1 ≤ free_slot_from t 1) × (free_slot_from t 1 < 1 + length t) =
      free_slot_from-range t 1 (omega arith) ne in
    (r.0, omega (arith, r.1))

module _ (q : DriverRequest) (rq : IsFileRequest q) (c : ℕ) (small : c < 65536) where
  pub new_entry-name : (new_entry q c 0).name ≡ q.name
  new_entry-name = memcpy_all (replicate 8 0) q.name 8 refl rq.name_len

  pub new_entry-ext : (new_entry q c 0).ext ≡ q.ext
  new_entry-ext = memcpy_all (replicate 3 0) q.ext 3 refl rq.ext_len

  pub new_entry-IsEntry : IsEntry (new_entry q c 0)
  new_entry-IsEntry = record {
    name_len = rw new_entry-name rq.name_len;
    ext_len = rw new_entry-ext rq.ext_len;
    name_bytes = subst (All IsByte) (sym new_entry-name) rq.name_bytes;
    ext_bytes = subst (All IsByte) (sym new_entry-ext) rq.ext_bytes;
    attribute_fits = omega arith;
    user_fits = omega arith;
    undelete_fits = omega arith;
    create_time_fits = omega arith;
    create_date_fits = omega arith;
    access_date_fits = omega arith;
    cluster_high_fits = omega arith;
    modified_time_fits = omega arith;
    modified_date_fits = omega arith;
    cluster_low_fits = omega arith;
    filesize_fits = omega (arith, rq.small);
  }

  pub new_entry-cluster : cluster_of (new_entry q c 0) ≡ c
  new_entry-cluster = omega arith
