-- ===== src/Traverse/Dls/Agree.antt =====
-- The two content searches of src/fat32.c compared.
use os_2024_ususbuntu_with_s.Prelude.{
  ℕ, zero, suc, ◌+◌, ◌<◌, ◌≡◌, inl, inr, refl, sym, subst, Bool, false, ◌||◌, List, [], ◌∷◌, Option,
  none, some, All, Option-cases, Bool-cases, if◌then◌else◌,
}
use os_2024_ususbuntu_with_s.Bytes.{memcmp, is_null, strlen}
use os_2024_ususbuntu_with_s.Search.{knuth_morris_pratt, boyer_moore}
use os_2024_ususbuntu_with_s.Search.Agree.{knuth_morris_pratt-boyer_moore}
use os_2024_ususbuntu_with_s.Fat32.Disk.Laws.{IsDisk, IsByte}
use os_2024_ususbuntu_with_s.Fat32.Layout.{DirectoryEntry, DirectoryTable}
use os_2024_ususbuntu_with_s.Fat32.Driver.{DriverState, Code, unknown, code, load_table, cluster_of}
use os_2024_ususbuntu_with_s.Fat32.Directory.{dir_ext}
use os_2024_ususbuntu_with_s.Fat32.Files.{read}
use os_2024_ususbuntu_with_s.Fat32.Files.Reads.{Reads, read-Reads}
use os_2024_ususbuntu_with_s.Traverse.{is_na, take_back}
use os_2024_ususbuntu_with_s.Traverse.Dls.{
  Outcome, put_dir, txt_ext, file_request, visit_result, visit_file, visit_loop,
  depth_limited_search, search_dls, search_dls_bm, search_dls_kmp,
}

-- What a search leaves has a whole disk still.
abbrev KeepsDisk : Option Outcome → Type 0
KeepsDisk none = Unit
KeepsDisk (some r) = IsDisk r.state.disk

module _ (f g : List ℕ → Bool) (same : (text : List ℕ) → All IsByte text → f text ≡ g text) where
  visit_result-same :
      (e : DirectoryEntry) (level : ℕ) (o : Outcome) (r : Option (Code × DriverState × List ℕ))
      → Reads o.state r
      → visit_result f e level o r ≡ visit_result g e level o r
  unfolding visit_result
  visit_result-same e level o none h = refl
  visit_result-same e level o (some (code zero, s, content)) h = rw (same content h.1)
  visit_result-same e level o (some (code (suc c), s, content)) h = refl
  visit_result-same e level o (some (unknown, s, content)) h = refl

  visit_result-KeepsDisk :
      (e : DirectoryEntry) (level : ℕ) (o : Outcome) (r : Option (Code × DriverState × List ℕ))
      → IsDisk o.state.disk
      → Reads o.state r
      → KeepsDisk (visit_result g e level o r)
  unfolding visit_result
  visit_result-KeepsDisk e level o none v h = tt
  visit_result-KeepsDisk e level o (some (code zero, s, content)) v h =
      elim (Bool-cases (g content)) [
        | inl m ↦ rw m (subst IsDisk (sym h.0) v)
        | inr m ↦ rw m (subst IsDisk (sym h.0) v)
      ]
  visit_result-KeepsDisk e level o (some (code (suc c), s, content)) v h = subst IsDisk (sym h.0) v
  visit_result-KeepsDisk e level o (some (unknown, s, content)) v h = subst IsDisk (sym h.0) v

  -- Recursive calls that give one result, and leave the disk whole.
  record AgreeBelow (p q : ℕ → Outcome → Option Outcome) : Type 0 where
    agree : (c : ℕ) (o : Outcome) → IsDisk o.state.disk → p c o ≡ q c o
    keeps : (c : ℕ) (o : Outcome) → IsDisk o.state.disk → KeepsDisk (q c o)

  module _ (p q : ℕ → Outcome → Option Outcome) (below : AgreeBelow p q) (n level : ℕ) where
    visit_loop-same :
        (table : DirectoryTable) (local : Bool) (o : Outcome)
        → IsDisk o.state.disk
        → (visit_loop f p n level table local o ≡ visit_loop g q n level table local o)
          × KeepsDisk (visit_loop g q n level table local o)
    unfolding visit_loop visit_file
    visit_loop-same [] local o v = (refl, v)
    visit_loop-same (e ∷ table) local o v = elim (Bool-cases (is_na e)) [
      | inl a ↦ rw (a, visit_loop) (visit_loop-same table local o v)
      | inr a ↦ elim (Bool-cases (is_null (memcmp e.ext dir_ext 3))) [
        | inl b ↦
            let o' : Outcome = record o { out = put_dir e level o.out } in
            let agree : p (cluster_of e) o' ≡ q (cluster_of e) o' =
              below.agree (cluster_of e) o' v in
            elim (Option-cases (q (cluster_of e) o')) [
              | inl n ↦ rw (a, b, agree, n, visit_loop) (refl, tt)
              | inr (r, n) ↦
                  rw (a, b, agree, n, visit_loop)
                    (visit_loop-same table (local || o.found)
                      (record r { out = if r.found then r.out else take_back r.out })
                      (subst KeepsDisk n (below.keeps (cluster_of e) o' v)))
            ]
        | inr b ↦ elim (Bool-cases (is_null (memcmp e.ext txt_ext 3))) [
          | inr c ↦ rw (a, b, c, visit_loop) (visit_loop-same table local o v)
          | inl c ↦
              elim (Option-cases (visit_result g e level o (read o.state (file_request e n)))) [
                | inl k ↦ rw (a, b, c, agree_file, k, visit_loop, visit_file) (refl, tt)
                | inr (r, k) ↦
                    rw (a, b, c, agree_file, k, visit_loop, visit_file)
                      (visit_loop-same table local r (
                        subst KeepsDisk k (
                          visit_result-KeepsDisk e level o (read o.state (file_request e n)) v
                            reads)))
              ]
        ]
      ]
    ]
      where
        reads : Reads o.state (read o.state (file_request e n))
        reads = read-Reads o.state (file_request e n) v

        agree_file :
            visit_result f e level o (read o.state (file_request e n))
            ≡ visit_result g e level o (read o.state (file_request e n))
        agree_file = visit_result-same e level o (read o.state (file_request e n)) reads

  depth_limited_search-same :
      (left level c : ℕ) (o : Outcome)
      → IsDisk o.state.disk
      → (depth_limited_search f left level c o ≡ depth_limited_search g left level c o)
        × KeepsDisk (depth_limited_search g left level c o)
  unfolding depth_limited_search
  depth_limited_search-same zero level c o v = (refl, v)
  depth_limited_search-same (suc left) level c o v =
      visit_loop-same (depth_limited_search f left (level + 1))
        (depth_limited_search g left (level + 1))
        (record {
          agree = λ k r h. (depth_limited_search-same left (level + 1) k r h).0;
          keeps = λ k r h. (depth_limited_search-same left (level + 1) k r h).1;
        })
        c level (load_table o.state.disk c) false (record o { found = false }) v

-- On a disk of whole blocks of bytes, for a pattern that is not empty, the content search with
-- Boyer-Moore and the one with Knuth-Morris-Pratt have the same outcome from every directory.
pub search_dls_bm-search_dls_kmp :
    (s : DriverState) (dir_cluster_number : ℕ) (pattern : List ℕ)
    → IsDisk s.disk
    → 0 < strlen pattern
    → search_dls_bm s dir_cluster_number pattern ≡ search_dls_kmp s dir_cluster_number pattern
unfolding search_dls_bm search_dls_kmp search_dls
search_dls_bm-search_dls_kmp s c pattern v pos =
    (depth_limited_search-same (boyer_moore pattern) (knuth_morris_pratt pattern)
      (λ text bytes. sym (knuth_morris_pratt-boyer_moore pattern text pos bytes)) 11 0 c
      (record { state = s; out = []; found = false }) v).0
