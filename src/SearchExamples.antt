-- ===== src/SearchExamples.antt =====
-- The content search through a directory `docs` below the root, in which nothing is found.
use os_2024_ususbuntu_with_s.Prelude.{
  ℕ, zero, suc, ◌≡◌, refl, sym, ap, ◌∙◌, subst, true, false, List, [], ◌∷◌, ◌++◌, Option, some,
  arith, replicate,
}
use os_2024_ususbuntu_with_s.Bytes.{memcmp, memcpy, is_null}
use os_2024_ususbuntu_with_s.Search.{boyer_moore}
use os_2024_ususbuntu_with_s.Fat32.Disk.Laws.{IsDisk}
use os_2024_ususbuntu_with_s.Fat32.Layout.{DirectoryTable, DirectoryEntry, empty_entry}
use os_2024_ususbuntu_with_s.Fat32.Driver.{DriverState, cluster_of}
use os_2024_ususbuntu_with_s.Fat32.Driver.Tables.{store_table-IsDisk}
use os_2024_ususbuntu_with_s.Fat32.Directory.{init_directory_table, dir_ext}
use os_2024_ususbuntu_with_s.Fat32.Format.{codes}
use os_2024_ususbuntu_with_s.Traverse.{is_na, put_chars, put_indent, take_back, drop_line}
use os_2024_ususbuntu_with_s.Traverse.Dls.{
  search_dls, Outcome, depth_limited_search, visit_loop, put_dir, txt_ext,
}
use os_2024_ususbuntu_with_s.Traverse.Dls.Quiet.{
  IsVisited, IsPlainTable, HasPlainNames, search_dls-IsQuiet,
}
use os_2024_ususbuntu_with_s.ShellExamples.{
  docs_entry, docs_driver, docs_disk, inner_disk, inner-IsDisk, root_table, docs_table,
  root-IsTable, root_loaded, docs_loaded,
}

abbrev pattern : List ℕ
pattern = codes "aab" ++ (0 ∷ [])

docs-IsDisk : IsDisk docs_disk
unfolding docs_disk
docs-IsDisk = store_table-IsDisk inner_disk root_table 2 inner-IsDisk root-IsTable

empty-not-visited : {A : Type 0} → IsVisited empty_entry → A
unfolding is_na memcmp
empty-not-visited v = absurd (cc v.0)

empties-IsPlainTable : (below : ℕ → Type 0) (n : ℕ) → IsPlainTable below (replicate n empty_entry)
empties-IsPlainTable below zero = tt
empties-IsPlainTable below (suc n) = (empty-not-visited, empties-IsPlainTable below n)

docs-IsPlainTable : (below : ℕ → Type 0) → IsPlainTable below docs_table
unfolding init_directory_table memcmp is_na
docs-IsPlainTable below = (λ v. absurd (cc v.1), empties-IsPlainTable below 63)

docs-HasPlainNames : HasPlainNames 11 docs_disk 2
unfolding init_directory_table memcmp is_na
docs-HasPlainNames = subst (IsPlainTable (λ k. HasPlainNames 10 docs_disk k)) (sym root_loaded) (
  λ v. absurd (cc v.1),
  (
    λ v. (
      omega arith,
      subst (IsPlainTable (λ k. HasPlainNames 9 docs_disk k)) (sym docs_loaded)
          (docs-IsPlainTable (λ k. HasPlainNames 9 docs_disk k)),
    ),
    empties-IsPlainTable (λ k. HasPlainNames 10 docs_disk k) 62,
  ),
)

visit-empties :
    (descend : ℕ → Outcome → Option Outcome) (c level n : ℕ) (out : List ℕ) (s : DriverState)
    → visit_loop
        (boyer_moore pattern)
        descend
        c
        level
        (replicate n empty_entry)
        false
        (record { state = s; out = out; found = false })
      ≡ some (record { state = s; out = out; found = false })
unfolding visit_loop is_na memcmp
visit-empties descend c level zero out s = refl
visit-empties descend c level (suc n) out s = visit-empties descend c level n out s

abbrev quiet : List ℕ → Outcome
quiet out = record { state = docs_driver; out = out; found = false }

abbrev descend : ℕ → ℕ → ℕ → Outcome → Option Outcome
descend left level c r = depth_limited_search (boyer_moore pattern) left level c r

module _ (go : ℕ → Outcome → Option Outcome) (c level : ℕ) (e : DirectoryEntry)
    (table : DirectoryTable) (used : is_na e ≡ false) where
  -- An entry that is neither a directory nor a text is passed over.
  visit-other :
      (o : Outcome)
      → is_null (memcmp e.ext dir_ext 3) ≡ false
      → is_null (memcmp e.ext txt_ext 3) ≡ false
      → visit_loop (boyer_moore pattern) go c level (e ∷ table) false o
        ≡ visit_loop (boyer_moore pattern) go c level table false o
  unfolding visit_loop
  visit-other o x y = rw (used, x, y, visit_loop) refl

  -- The line of a directory in which nothing is found is taken back.
  visit-dir :
      (out : List ℕ) (s : DriverState)
      → is_null (memcmp e.ext dir_ext 3) ≡ true
      → go (cluster_of e) (record { state = s; out = put_dir e level out; found = false })
        ≡ some (record { state = s; out = put_dir e level out; found = false })
      → visit_loop
          (boyer_moore pattern)
          go
          c
          level
          (e ∷ table)
          false
          (record { state = s; out = out; found = false })
        ≡ visit_loop
            (boyer_moore pattern)
            go
            c
            level
            table
            false
            (record { state = s; out = take_back (put_dir e level out); found = false })
  unfolding visit_loop
  visit-dir out s x k = rw (used, x, k, visit_loop) refl

abbrev self : DirectoryEntry
self = record empty_entry {
  cluster_low = 2;
  user_attribute = 170;
  attribute = 16;
  name = codes "docs" ++ replicate 4 0;
}

docs_table-eq : docs_table ≡ self ∷ replicate 63 empty_entry
unfolding init_directory_table memcpy
docs_table-eq = refl

root_table-eq : root_table ≡ self ∷ (docs_entry ∷ replicate 62 empty_entry)
unfolding init_directory_table memcpy
root_table-eq = refl

self_used : is_na self ≡ false
unfolding is_na memcmp
self_used = refl

docs_used : is_na docs_entry ≡ false
unfolding is_na memcmp
docs_used = refl

self_is_no_dir : is_null (memcmp self.ext dir_ext 3) ≡ false
unfolding memcmp
self_is_no_dir = refl

self_is_no_txt : is_null (memcmp self.ext txt_ext 3) ≡ false
unfolding memcmp
self_is_no_txt = refl

docs_is_dir : is_null (memcmp docs_entry.ext dir_ext 3) ≡ true
unfolding memcmp
docs_is_dir = refl

taken_back : take_back (put_dir docs_entry 0 []) ≡ []
unfolding take_back drop_line put_chars put_indent
taken_back = refl

visit-docs :
    (out : List ℕ)
    → visit_loop (boyer_moore pattern) (λ c r. descend 9 2 c r) 3 1 docs_table false (quiet out)
      ≡ some (quiet out)
visit-docs out =
    ap (λ t. visit_loop (boyer_moore pattern) (λ c r. descend 9 2 c r) 3 1 t false (quiet out))
      docs_table-eq
    ∙ visit-other (λ c r. descend 9 2 c r) 3 1 self (replicate 63 empty_entry) self_used (quiet out)
        self_is_no_dir self_is_no_txt
    ∙ visit-empties (λ c r. descend 9 2 c r) 3 1 63 out docs_driver

search-docs : (out : List ℕ) → descend 10 1 3 (quiet out) ≡ some (quiet out)
unfolding depth_limited_search docs_driver
search-docs out =
    ap (λ t. visit_loop (boyer_moore pattern) (λ c r. descend 9 2 c r) 3 1 t false (quiet out))
      docs_loaded
    ∙ visit-docs out

visit-root :
    visit_loop (boyer_moore pattern) (λ c r. descend 10 1 c r) 2 0 root_table false (quiet [])
    ≡ some (quiet [])
visit-root =
    ap (λ t. visit_loop (boyer_moore pattern) (λ c r. descend 10 1 c r) 2 0 t false (quiet []))
      root_table-eq
    ∙ visit-other (λ c r. descend 10 1 c r) 2 0 self (docs_entry ∷ replicate 62 empty_entry)
        self_used (quiet []) self_is_no_dir self_is_no_txt
    ∙ visit-dir (λ c r. descend 10 1 c r) 2 0 docs_entry (replicate 62 empty_entry) docs_used []
        docs_driver docs_is_dir (search-docs (put_dir docs_entry 0 []))
    ∙ ap
        (λ out.
          visit_loop (boyer_moore pattern) (λ c r. descend 10 1 c r) 2 0 (replicate 62 empty_entry)
            false (quiet out))
        taken_back
    ∙ visit-empties (λ c r. descend 10 1 c r) 2 0 62 [] docs_driver

quiet_search : search_dls (boyer_moore pattern) docs_driver 2 ≡ some (quiet [])
unfolding search_dls depth_limited_search docs_driver
quiet_search =
    ap (λ t. visit_loop (boyer_moore pattern) (λ c r. descend 10 1 c r) 2 0 t false (quiet []))
      root_loaded
    ∙ visit-root

docs-IsWhole : IsDisk docs_driver.disk
unfolding docs_driver
docs-IsWhole = docs-IsDisk

docs-IsPlain : HasPlainNames 11 docs_driver.disk 2
unfolding docs_driver
docs-IsPlain = docs-HasPlainNames

search_dls-IsQuiet_example :
    (docs_driver.disk ≡ docs_driver.disk) × ((quiet []).found ≡ false → (quiet []).out ≡ [])
search_dls-IsQuiet_example =
    search_dls-IsQuiet (boyer_moore pattern) docs_driver 2 (quiet []) docs-IsWhole docs-IsPlain
      quiet_search
