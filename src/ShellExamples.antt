-- ===== src/ShellExamples.antt =====
-- The theorem on `cd` at a directory `docs` below the root.
use os_2024_ususbuntu_with_s.Prelude.{
  ℕ, ◌<◌, ◌≡◌, refl, ap, ◌∙◌, List, [], ◌∷◌, arith, length, set, replicate, All, All-replicate,
  some,
}
use os_2024_ususbuntu_with_s.Bytes.{memcmp, memcpy, strlen}
use os_2024_ususbuntu_with_s.Fat32.Disk.{Disk}
use os_2024_ususbuntu_with_s.Fat32.Disk.Laws.{IsDisk}
use os_2024_ususbuntu_with_s.Fat32.Layout.{
  DirectoryTable, DirectoryEntry, empty_entry, directory_size, decode_table,
}
use os_2024_ususbuntu_with_s.Fat32.Layout.Codec.{IsTable, IsEntry}
use os_2024_ususbuntu_with_s.Fat32.Driver.{
  DriverState, code, load_table, store_table, find_match, is_match,
}
use os_2024_ususbuntu_with_s.Fat32.Driver.Tables.{
  load_table-store_table, store_table-IsDisk, read_clusters-store_table,
}
use os_2024_ususbuntu_with_s.Fat32.Directory.{
  dir_ext, read_directory, move_to_child_directory, move_to_parent_directory, child_loop, enter,
  init_directory_table,
}
use os_2024_ususbuntu_with_s.Shell.{Shell, cd, request_for, is_include}
use os_2024_ususbuntu_with_s.Shell.Paths.{IsName, join, cds, cd_path, search_cluster_resolve_path}
use os_2024_ususbuntu_with_s.Shell.Resolve.{
  Resolution, cd_from, cd_path-search_cluster_resolve_path,
}
use os_2024_ususbuntu_with_s.Shell.Cd.{IsPrompt, padded}
use os_2024_ususbuntu_with_s.Shell.Back.{IsEntered, IsBack, dot_dot, cd-cd}
use os_2024_ususbuntu_with_s.Examples.{blank_disk, blank-IsDisk}

abbrev docs : List ℕ
docs = b'd' ∷ b'o' ∷ b'c' ∷ b's' ∷ []

-- The root's table with an entry for `docs`, whose table is at cluster 3.
abbrev pub docs_entry : DirectoryEntry
docs_entry = record empty_entry {
  name = padded docs;
  ext = dir_ext;
  attribute = 16;
  user_attribute = 170;
  cluster_low = 3;
}

abbrev pub root_table : DirectoryTable
root_table =
    set (init_directory_table (replicate directory_size empty_entry) (padded docs) 2) 1 docs_entry

abbrev pub docs_table : DirectoryTable
docs_table = init_directory_table (replicate directory_size empty_entry) (padded docs) 2

docs-IsTable : IsTable docs_table
unfolding init_directory_table memcpy
docs-IsTable = (refl, (omega arith, All-replicate IsEntry 63 empty_entry (omega arith)))

pub root-IsTable : IsTable root_table
unfolding init_directory_table memcpy
root-IsTable =
    (refl, (omega arith, (omega arith, All-replicate IsEntry 62 empty_entry (omega arith))))

pub inner_disk : Disk
inner_disk = store_table blank_disk docs_table 3

unfoldable pub docs_disk : Disk
docs_disk = store_table inner_disk root_table 2

pub inner-IsDisk : IsDisk inner_disk
unfolding inner_disk
inner-IsDisk = store_table-IsDisk blank_disk docs_table 3 blank-IsDisk docs-IsTable

pub root_loaded : load_table docs_disk 2 ≡ root_table
unfolding docs_disk
root_loaded = load_table-store_table inner_disk root_table 2 inner-IsDisk root-IsTable

pub docs_loaded : load_table docs_disk 3 ≡ docs_table
unfolding docs_disk inner_disk load_table
docs_loaded =
    ap decode_table (
      read_clusters-store_table inner_disk root_table 2 3 (omega arith) (omega arith) (omega arith))
    ∙ load_table-store_table blank_disk docs_table 3 blank-IsDisk docs-IsTable

unfoldable pub docs_driver : DriverState
docs_driver = record { disk = docs_disk; cluster_map = []; dir_table_buf = [] }

entered_driver : DriverState
entered_driver = record { disk = docs_disk; cluster_map = []; dir_table_buf = docs_table }

abbrev prompt : Shell
prompt = record {
  name = replicate 8 0;
  current_dir = b'/' ∷ replicate 254 0;
  currentdirlen = 1;
  cwd_cluster_number = 2;
  retcode = 0;
}

prompt-IsPrompt : IsPrompt prompt
prompt-IsPrompt = record { sized = refl; some_text = omega arith; room = omega arith; ends = refl }

docs_found :
    read_directory docs_driver (request_for prompt (padded docs)) ≡ (code 0, entered_driver)
unfolding docs_driver entered_driver read_directory enter find_match is_match init_directory_table
    memcmp memcpy
docs_found = simp (root_loaded, docs_loaded) refl

docs_moved : move_to_child_directory entered_driver (request_for prompt (padded docs)) ≡ 3
unfolding entered_driver move_to_child_directory child_loop init_directory_table memcmp memcpy
docs_moved = rw root_loaded refl

docs_home :
    move_to_parent_directory entered_driver
      (record (request_for prompt (padded docs)) { parent_cluster_number = 3 })
    ≡ 2
unfolding entered_driver move_to_parent_directory init_directory_table memcmp memcpy
docs_home = rw docs_loaded refl

cd-cd_example :
    (a b : DriverState × Shell) × (cd docs_driver prompt docs ≡ some a)
    × (cd a.0 a.1 dot_dot ≡ some b)
    × IsEntered prompt docs 3 a.1
    × IsBack prompt b.1
    × (b.0 ≡ entered_driver)
cd-cd_example =
    cd-cd docs_driver prompt prompt-IsPrompt docs (omega arith) (omega arith)
      (λ e. absurd (omega (arith, ap length e))) (omega arith) (omega arith) entered_driver 3
      docs_found docs_moved (omega arith) docs_home

-- A path into the directory and back.
there_and_back : All IsName (docs ∷ (dot_dot ∷ []))
unfolding is_include
there_and_back = (refl, (refl, tt))

docs-IsName : IsName docs
unfolding is_include
docs-IsName = refl

joined_fits : length (join (docs ∷ (dot_dot ∷ [])) docs) < 255
unfolding join
joined_fits = omega arith

prompt_short : strlen prompt.current_dir < 255
unfolding strlen
prompt_short = omega arith

cd_path-search_cluster_resolve_path_example :
    (cd_path docs_driver prompt (join (docs ∷ (dot_dot ∷ [])) docs)
      ≡ cd_from docs (cds docs_driver prompt (docs ∷ (dot_dot ∷ []))))
    × Resolution prompt 2
        (cds docs_driver prompt (docs ∷ (dot_dot ∷ [])))
        (search_cluster_resolve_path docs_driver prompt 2 (join (docs ∷ (dot_dot ∷ [])) docs))
cd_path-search_cluster_resolve_path_example =
    cd_path-search_cluster_resolve_path docs_driver prompt 2 (docs ∷ (dot_dot ∷ [])) docs
      there_and_back docs-IsName refl prompt_short joined_fits
