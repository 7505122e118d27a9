-- ===== src/Traverse/Path.antt =====
-- `find_and_print_path` and `print_path_to_dir` of src/fat32.c, with `custom_strncpy` and
-- `custom_strcmp`.
use os_2024_ususbuntu_with_s.Prelude.{
  ℕ, zero, suc, ◌+◌, ◌-◌, Bool, true, false, ◌||◌, List, [], ◌∷◌, Option, none, some, ◌==◌,
  if◌then◌else◌, set, drop,
}
use os_2024_ususbuntu_with_s.Bytes.{minus, null, plus, at}
use os_2024_ususbuntu_with_s.Fat32.Disk.{Disk}
use os_2024_ususbuntu_with_s.Fat32.Layout.{DirectoryEntry, DirectoryTable}
use os_2024_ususbuntu_with_s.Fat32.Driver.{load_table, cluster_of}
use os_2024_ususbuntu_with_s.Traverse.{newline, is_na, ext_order, put_chars, put_indent, take_back}

-- The loop of `custom_strncpy`: the rounds left, the destination and the source from index `i` on.
unfoldable pub strncpy_loop : ℕ → List ℕ → List ℕ → List ℕ
strncpy_loop zero dest src = dest
strncpy_loop (suc rounds) [] src = []
strncpy_loop (suc rounds) (d ∷ dest) src =
    let rest = strncpy_loop rounds dest (drop 1 src) in
    if at src 0 == 0 then at src 0 ∷ dest else at src 0 ∷ rest

unfoldable pub custom_strncpy : List ℕ → List ℕ → ℕ → List ℕ
custom_strncpy dest src n =
    let copied = strncpy_loop n dest src in if n == 0 then copied else set copied (n - 1) 0

-- `custom_strcmp(s1, s2) == 0`
unfoldable pub same_string : List ℕ → List ℕ → Bool
same_string [] s2 = at s2 0 == 0
same_string (a ∷ s1) s2 =
    let rest = same_string s1 (drop 1 s2) in
    if a == 0 then at s2 0 == 0 else if a == at s2 0 then rest else false

-- `char name[9]`, of which `custom_strncpy` fills eight; what was there before is `stack`.
unfoldable pub short_name : List ℕ → DirectoryEntry → List ℕ
short_name stack e = set (custom_strncpy stack e.name 8) 8 0

-- What the search has put out, and whether it has found the name.
pub record Found : Type 0 where
  pub out : List ℕ
  pub found : Bool

-- A directory's line, and a file's.
abbrev pub put_dir : DirectoryEntry → ℕ → List ℕ → List ℕ
put_dir e level out = newline ∷ (b'/' ∷ put_chars 8 e.name (put_indent level out))

abbrev pub put_file : DirectoryEntry → ℕ → List ℕ → List ℕ
put_file e level out =
    newline
    ∷ (at e.ext 2
        ∷ (at e.ext 1 ∷ (at e.ext 0 ∷ (b'.' ∷ put_chars 8 e.name (put_indent level out)))))

module _ (stack target_dir_name : List ℕ) where
  -- The loop over the entries; `descend` is the recursive call and `local` is `found_lokal`.
  unfoldable pub path_loop :
      (ℕ → List ℕ → Option Found) → ℕ → DirectoryTable → List ℕ → Bool → Bool → Option Found
  path_loop descend level [] out found local = some (record { out = out; found = local || found })
  path_loop descend level (e ∷ table) out found local = elim (is_na e) [
    | true ↦ path_loop descend level table out found local
    | false ↦ elim (ext_order e) [
      | null ↦ elim (same_string (short_name stack e) target_dir_name) [
        | true ↦ path_loop descend level table (put_dir e level out) true local
        | false ↦ elim (descend (cluster_of e) (put_dir e level out)) [
          | none ↦ none
          | some r ↦
              path_loop descend level table (if r.found then r.out else take_back r.out) r.found
                (local || found)
        ]
      ]
      | plus ↦ elim (same_string (short_name stack e) target_dir_name) [
        | true ↦ path_loop descend level table (put_file e level out) true local
        | false ↦ path_loop descend level table out found local
      ]
      | minus ↦ path_loop descend level table out found local
    ]
  ]

  -- The depth of the recursion is bounded by fuel.
  unfoldable pub find_and_print_path : ℕ → Disk → ℕ → ℕ → List ℕ → Option Found
  find_and_print_path zero d level dir_cluster_number out = none
  find_and_print_path (suc fuel) d level dir_cluster_number out =
      path_loop (λ c o. find_and_print_path fuel d (level + 1) c o) level
        (load_table d dir_cluster_number) out false false

  unfoldable pub print_path_to_dir : ℕ → Disk → ℕ → Option Found
  print_path_to_dir fuel d dir_cluster_number = find_and_print_path fuel d 0 dir_cluster_number []
