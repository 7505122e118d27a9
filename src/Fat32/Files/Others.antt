-- ===== src/Fat32/Files/Others.antt =====
-- What a `write` of a file (src/fat32.c) does to the other files of the disk.
use os_2024_ususbuntu_with_s.Prelude.{
  ℕ, zero, suc, ◌<◌, ◌≤◌, ◌≡◌, ◌≢◌, ◌⊎◌, inl, inr, refl, sym, ap, ◌∙◌, true, false, ◌&&◌, ◌==◌,
  List, some, arith, set, get_or-set_ne, leb_of_lt, ==-false,
}
use os_2024_ususbuntu_with_s.Bytes.{at, memcmp, is_null}
use os_2024_ususbuntu_with_s.Fat32.Disk.{Disk, read_clusters}
use os_2024_ususbuntu_with_s.Fat32.Layout.{DirectoryTable, entry_at, empty_entry, cluster_map_size}
use os_2024_ususbuntu_with_s.Fat32.Driver.{
  DriverState, DriverRequest, code, load_table, cluster_of, find_match, is_folder, is_match,
  attr_subdirectory, uattr_not_empty, fat_cluster_number, fat32_fat_end_of_file,
}
use os_2024_ususbuntu_with_s.Fat32.Driver.Tables.{IsDriver, load_table_same}
use os_2024_ususbuntu_with_s.Fat32.Driver.Find.{find_match-set_ne}
use os_2024_ususbuntu_with_s.Fat32.Files.{read, read_chain, write, new_entry}
use os_2024_ususbuntu_with_s.Fat32.Files.Alloc.{read_chain-last}
use os_2024_ususbuntu_with_s.Fat32.Files.Request.{
  IsFileRequest, IsParent, IsReserved, loaded, new_entry-name, new_entry-ext,
}
use os_2024_ususbuntu_with_s.Fat32.Files.Final.{IsStored, write-IsStored}
use os_2024_ususbuntu_with_s.Fat32.Files.WriteRead.{read-found_here, read_entry-file}

-- A used cluster that is neither the map's nor the directory's at `p`.
pub record IsApart (p : ℕ) (m : List ℕ) (c : ℕ) : Type 0 where
  pub small : c < cluster_map_size
  pub used : at m c ≢ 0
  pub not_parent : c ≢ p
  pub not_map : c ≢ fat_cluster_number

-- A chain of such clusters, from one on.
pub data IsChain (p : ℕ) (m : List ℕ) : ℕ → Type 0 where
  last : (c : ℕ) → IsApart p m c → at m c ≡ fat32_fat_end_of_file → IsChain p m c
  more :
      (c : ℕ)
      → IsApart p m c
      → at m c ≢ fat32_fat_end_of_file
      → IsChain p m (at m c)
      → IsChain p m c

-- What such clusters hold is read as before.
Kept : (p : ℕ) (m m' : List ℕ) (d d' : Disk) → Type 0
Kept p m m' d d' =
    (c : ℕ) → IsApart p m c → (at m' c ≡ at m c) × (read_clusters d' c 1 ≡ read_clusters d c 1)

read_chain-IsChain :
    (p : ℕ) (m m' : List ℕ) (d d' : Disk)
    → Kept p m m' d d'
    → (fuel c : ℕ) → IsChain p m c
    → read_chain fuel d' m' c ≡ read_chain fuel d m c
unfolding read_chain Kept
read_chain-IsChain p m m' d d' kept zero c h = refl
read_chain-IsChain p m m' d d' kept (suc fuel) c (last _ a e) =
    let k = kept c a in
    read_chain-last fuel d' m' c a.small (k.0 ∙ e)
    ∙ ap some k.1
    ∙ sym (read_chain-last fuel d m c a.small e)
read_chain-IsChain p m m' d d' kept (suc fuel) c (more _ a ne rest) =
    let k = kept c a in
    let ih = read_chain-IsChain p m m' d d' kept fuel (at m c) rest in
    rw
      (
        k.0,
        k.1,
        leb_of_lt cluster_map_size c a.small,
        ==-false (at m c) fat32_fat_end_of_file ne,
        ih,
      )
      refl

-- A file that the request names, and what is read of it.
pub record IsFile (s : DriverState) (q : DriverRequest) (b : List ℕ) : Type 0 where
  pub folder : is_folder (load_table s.disk q.parent_cluster_number) ≡ true
  pub index : ℕ
  pub found : find_match (load_table s.disk q.parent_cluster_number) q.name q.ext ≡ some index
  pub in_use :
      (entry_at (load_table s.disk q.parent_cluster_number) index).user_attribute ≡ uattr_not_empty
  pub plain :
      (entry_at (load_table s.disk q.parent_cluster_number) index).attribute ≢ attr_subdirectory
  pub fits : (entry_at (load_table s.disk q.parent_cluster_number) index).filesize ≤ q.buffer_size
  pub content :
      read_chain cluster_map_size s.disk s.cluster_map
        (cluster_of (entry_at (load_table s.disk q.parent_cluster_number) index))
      ≡ some b

abbrev pub first_cluster : (s : DriverState) (q : DriverRequest) (b : List ℕ) → IsFile s q b → ℕ
first_cluster s q b f = cluster_of (entry_at (load_table s.disk q.parent_cluster_number) f.index)

-- The names of the two requests differ.
abbrev pub IsOtherName : DriverRequest → DriverRequest → Type 0
IsOtherName q r = (is_null (memcmp q.name r.name 8) && is_null (memcmp q.ext r.ext 3)) ≡ false

module _ (s s' : DriverState) (q r : DriverRequest) (b : List ℕ) (rq : IsFileRequest q)
    (t : IsStored s q s') (f : IsFile s r b) where
  abbrev old : DirectoryTable
  old = load_table s.disk r.parent_cluster_number

  abbrev new : DirectoryTable
  new = load_table s'.disk r.parent_cluster_number

  -- What the table of the other file's directory keeps.
  record IsSame : Type 0 where
    folder : is_folder new ≡ true
    found : find_match new r.name r.ext ≡ some f.index
    entry : entry_at new f.index ≡ entry_at old f.index

  same-other : IsApart q.parent_cluster_number s.cluster_map r.parent_cluster_number → IsSame
  same-other a =
      let e : new ≡ old =
        load_table_same s'.disk s.disk r.parent_cluster_number
          (t.kept r.parent_cluster_number a.small a.used a.not_parent a.not_map).1 in
      record {
        folder = ap is_folder e ∙ f.folder;
        found = ap (λ x. find_match x r.name r.ext) e ∙ f.found;
        entry = ap (λ x. entry_at x f.index) e;
      }

  new_entry-is_match : IsOtherName q r → is_match (new_entry q t.cluster 0) r.name r.ext ≡ false
  unfolding is_match
  new_entry-is_match o =
      rw
        (
          new_entry-name q rq t.cluster (omega (arith, t.small)),
          new_entry-ext q rq t.cluster (omega (arith, t.small)),
        )
        o

  same-parent : r.parent_cluster_number ≡ q.parent_cluster_number → IsOtherName q r → IsSame
  same-parent p o =
      let v = new_entry q t.cluster 0 in
      let e : new ≡ set old t.slot v =
        ap (load_table s'.disk) p
        ∙ t.stored
        ∙ t.buffered
        ∙ ap (λ x. set (load_table s.disk x) t.slot v) (sym p) in
      let ne : t.slot ≢ f.index = λ z. t.slot_free (
        ap (λ x. (entry_at (load_table s.disk x) t.slot).user_attribute) (sym p)
        ∙ ap (λ k. (entry_at old k).user_attribute) z
        ∙ f.in_use) in
      record {
        folder =
            ap is_folder e
            ∙ ap (λ x. x.attribute == attr_subdirectory)
                (get_or-set_ne old t.slot 0 v empty_entry (omega (arith, t.low)))
            ∙ f.folder;
        found =
            ap (λ x. find_match x r.name r.ext) e
            ∙ find_match-set_ne r.name r.ext old f.index t.slot v f.found ne (new_entry-is_match o);
        entry = ap (λ x. entry_at x f.index) e ∙ get_or-set_ne old t.slot f.index v empty_entry ne;
      }

  read-same :
      IsSame
      → IsChain q.parent_cluster_number s.cluster_map (first_cluster s r b f)
      → read s' r ≡ some (code 0, loaded s' r, b)
  unfolding Kept
  read-same k c =
      read-found_here s' r f.index k.folder k.found
      ∙ read_entry-file (loaded s' r) r f.index (entry_at old f.index) b k.entry f.plain f.fits (
          read_chain-IsChain q.parent_cluster_number s.cluster_map s'.cluster_map s.disk s'.disk
            (λ c a. t.kept c a.small a.used a.not_parent a.not_map) cluster_map_size
            (first_cluster s r b f) c
          ∙ f.content)

-- From a driver in order with used reserved map entries, after a write of a file request with a
-- full buffer into a used parent cluster with a free slot returned 0, another file is read as
-- before: a file in use under another name in the same directory, or in a directory whose cluster
-- is used and is neither the written parent nor the map's, whose chain of clusters is of such
-- clusters and was read in full, and that fits the reader's buffer.
pub read-write_other :
    (s s' : DriverState) (q r : DriverRequest) (b : List ℕ)
    → IsDriver s
    → IsReserved s
    → IsFileRequest q
    → IsParent s q.parent_cluster_number
    → (f : IsFile s r b) → IsChain q.parent_cluster_number s.cluster_map (first_cluster s r b f)
    → ((r.parent_cluster_number ≡ q.parent_cluster_number) × IsOtherName q r)
      ⊎ IsApart q.parent_cluster_number s.cluster_map r.parent_cluster_number
    → write s q ≡ (code 0, s')
    → read s' r ≡ some (code 0, loaded s' r, b)
read-write_other s s' q r b v res rq pa f c o h =
    let t : IsStored s q s' = write-IsStored s s' q v res rq pa h in
    elim o [
      | inl k ↦ read-same s s' q r b rq t f (same-parent s s' q r b rq t f k.0 k.1) c
      | inr a ↦ read-same s s' q r b rq t f (same-other s s' q r b rq t f a) c
    ]
