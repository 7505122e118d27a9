-- ===== src/Traverse/Listing.antt =====
-- `list_dir_content`, `all_list_dir_content` and `print` of src/fat32.c. Their loops over a name run
-- to `j <= 8`, so they go on into the extension, which follows the name in the entry.
use os_2024_ususbuntu_with_s.Prelude.{
  ℕ, zero, suc, ◌+◌, true, false, List, [], ◌∷◌, ◌++◌, Option, none, some, if◌then◌else◌, drop,
}
use os_2024_ususbuntu_with_s.Bytes.{minus, null, plus, at}
use os_2024_ususbuntu_with_s.Fat32.Disk.{Disk}
use os_2024_ususbuntu_with_s.Fat32.Layout.{DirectoryEntry, DirectoryTable}
use os_2024_ususbuntu_with_s.Fat32.Driver.{load_table, cluster_of}
use os_2024_ususbuntu_with_s.Traverse.{newline, is_na, ext_order, put_chars, put_indent}

-- The line that `list_dir_content` writes for an entry.
unfoldable pub put_entry : DirectoryEntry → List ℕ → List ℕ
put_entry e out =
    let named = put_chars 9 (e.name ++ e.ext) out in
    newline ∷ (elim (ext_order e) [
      | plus ↦ put_chars 4 (e.ext ++ (e.attribute ∷ [])) (b'.' ∷ named)
      | null ↦ b'/' ∷ named
      | minus ↦ named
    ])

unfoldable pub list_loop : DirectoryTable → List ℕ → List ℕ
list_loop [] out = out
list_loop (e ∷ table) out = list_loop table (if is_na e then out else put_entry e out)

unfoldable pub list_dir_content : Disk → ℕ → List ℕ
list_dir_content d directory_cluster_number =
    list_loop (drop 1 (load_table d directory_cluster_number)) []

-- The loop of `all_list_dir_content` over the entries; `descend` is the recursive call.
unfoldable pub tree_loop :
    (ℕ → List ℕ → Option (List ℕ)) → ℕ → DirectoryTable → List ℕ → Option (List ℕ)
tree_loop descend level [] out = some out
tree_loop descend level (e ∷ table) out = elim (is_na e) [
  | true ↦ tree_loop descend level table out
  | false ↦
      let named = put_chars 9 (e.name ++ e.ext) (put_indent level out) in
      elim (ext_order e) [
        | null ↦ elim (descend (cluster_of e) (newline ∷ (b'/' ∷ named))) [
          | some out' ↦ tree_loop descend level table out'
          | none ↦ none
        ]
        | plus ↦
            tree_loop descend level table
              (newline ∷ (at e.ext 2 ∷ (at e.ext 1 ∷ (at e.ext 0 ∷ (b'.' ∷ named)))))
        | minus ↦ tree_loop descend level table (newline ∷ named)
      ]
]

-- The depth of the recursion is bounded by fuel: a directory that holds itself makes it endless.
unfoldable pub all_list_dir_content : ℕ → Disk → ℕ → ℕ → List ℕ → Option (List ℕ)
all_list_dir_content zero d level dir_cluster_number out = none
all_list_dir_content (suc fuel) d level dir_cluster_number out =
    tree_loop (λ c o. all_list_dir_content fuel d (level + 1) c o) level
      (drop 1 (load_table d dir_cluster_number)) out

unfoldable pub print : ℕ → Disk → ℕ → Option (List ℕ)
print fuel d dir_cluster_number = all_list_dir_content fuel d 0 dir_cluster_number []
