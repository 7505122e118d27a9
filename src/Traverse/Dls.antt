-- ===== src/Traverse/Dls.antt =====
-- `depth_limited_search_bm`, `depth_limited_search_kmp` and their callers (src/fat32.c). The two
-- differ in the search that they call, which is an argument here.
pub mod Agree
pub mod Quiet
use os_2024_ususbuntu_with_s.Prelude.{
  ℕ, zero, suc, ◌+◌, ◌-◌, Bool, true, false, ◌&&◌, ◌||◌, List, [], ◌∷◌, ◌++◌, Option, none, some,
  ◌==◌, if◌then◌else◌, take,
}
use os_2024_ususbuntu_with_s.Bytes.{memcmp, is_null, minus, null, plus, at, strlen}
use os_2024_ususbuntu_with_s.Search.{knuth_morris_pratt, boyer_moore}
use os_2024_ususbuntu_with_s.Fat32.Layout.{DirectoryEntry, DirectoryTable}
use os_2024_ususbuntu_with_s.Fat32.Driver.{
  DriverState, DriverRequest, Code, unknown, code, load_table, cluster_of,
}
use os_2024_ususbuntu_with_s.Fat32.Directory.{dir_ext}
use os_2024_ususbuntu_with_s.Fat32.Files.{read}
use os_2024_ususbuntu_with_s.Traverse.{newline, space, is_na, put_chars, put_indent, take_back}

-- "txt"
abbrev pub txt_ext : List ℕ
txt_ext = b't' ∷ (b'x' ∷ (b't' ∷ []))

-- The driver's state, what is put out, and the flag `*found`.
pub record Outcome : Type 0 where
  pub state : DriverState
  pub out : List ℕ
  pub found : Bool

-- The line of a directory, and of a file with its content.
abbrev pub put_dir : DirectoryEntry → ℕ → List ℕ → List ℕ
put_dir e level out = newline ∷ (b'/' ∷ put_chars 8 e.name (put_indent level out))

abbrev pub put_match : DirectoryEntry → ℕ → List ℕ → List ℕ → List ℕ
put_match e level content out =
    newline
    ∷ put_chars (strlen content) content
        (space ∷ put_chars 3 e.ext (b'.' ∷ put_chars 8 e.name (put_indent level out)))

-- The request that the search makes for a file. Its buffer is read into.
abbrev pub file_request : DirectoryEntry → ℕ → DriverRequest
file_request e dir_cluster_number = record {
  buf = [];
  name = e.name;
  ext = take 3 e.ext;
  parent_cluster_number = dir_cluster_number;
  buffer_size = e.filesize;
}

module _ (matches : List ℕ → Bool) where
  -- What is done with the result of `read` on a text file: its content goes out if it matches.
  unfoldable pub visit_result :
      DirectoryEntry → ℕ → Outcome → Option (Code × DriverState × List ℕ) → Option Outcome
  visit_result e level o none = none
  visit_result e level o (some (code zero, s, content)) = some (
      if matches content
      then record { state = s; out = put_match e level content o.out; found = true }
      else record o { state = s })
  visit_result e level o (some (code (suc c), s, content)) = some (record o { state = s })
  visit_result e level o (some (unknown, s, content)) = some (record o { state = s })

  unfoldable pub visit_file : ℕ → DirectoryEntry → ℕ → Outcome → Option Outcome
  visit_file dir_cluster_number e level o =
      visit_result e level o (read o.state (file_request e dir_cluster_number))

  -- The loop over the entries; `descend` is the recursive call.
  unfoldable pub visit_loop :
      (ℕ → Outcome → Option Outcome) → ℕ → ℕ → DirectoryTable → Bool → Outcome → Option Outcome
  visit_loop descend dir_cluster_number level [] local o =
      some (record o { found = local || o.found })
  visit_loop descend dir_cluster_number level (e ∷ table) local o = elim (is_na e) [
    | true ↦ visit_loop descend dir_cluster_number level table local o
    | false ↦ elim (is_null (memcmp e.ext dir_ext 3)) [
      | true ↦ elim (descend (cluster_of e) (record o { out = put_dir e level o.out })) [
        | none ↦ none
        | some r ↦
            visit_loop descend dir_cluster_number level table (local || o.found)
              (record r { out = if r.found then r.out else take_back r.out })
      ]
      | false ↦ elim (is_null (memcmp e.ext txt_ext 3)) [
        | true ↦ elim (visit_file dir_cluster_number e level o) [
          | none ↦ none
          | some r ↦ visit_loop descend dir_cluster_number level table local r
        ]
        | false ↦ visit_loop descend dir_cluster_number level table local o
      ]
    ]
  ]

  -- The recursion is on `limit + 1 - level`, which is 0 exactly when `*level > limit`. The table is
  -- read again after each file, from a disk that no `read` changes.
  unfoldable pub depth_limited_search : ℕ → ℕ → ℕ → Outcome → Option Outcome
  depth_limited_search zero level dir_cluster_number o = some o
  depth_limited_search (suc left) level dir_cluster_number o =
      visit_loop (λ c r. depth_limited_search left (level + 1) c r) dir_cluster_number level
        (load_table o.state.disk dir_cluster_number) false (record o { found = false })

  -- `limit` is 10 and `level` starts at 0.
  unfoldable pub search_dls : DriverState → ℕ → Option Outcome
  search_dls s dir_cluster_number =
      depth_limited_search 11 0 dir_cluster_number (record { state = s; out = []; found = false })

unfoldable pub search_dls_bm : DriverState → ℕ → List ℕ → Option Outcome
search_dls_bm s dir_cluster_number pattern_input =
    search_dls (boyer_moore pattern_input) s dir_cluster_number

unfoldable pub search_dls_kmp : DriverState → ℕ → List ℕ → Option Outcome
search_dls_kmp s dir_cluster_number pattern_input =
    search_dls (knuth_morris_pratt pattern_input) s dir_cluster_number
