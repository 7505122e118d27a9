-- ===== src/Examples.antt =====
-- The theorems on the searches and on the file system at small inputs: a created file system, one
-- file in it, and two texts.
use os_2024_ususbuntu_with_s.Prelude.{
  ℕ, ◌*◌, ◌≤◌, ◌≡◌, ◌≢◌, ◌↔◌, refl, ap, ◌∙◌, true, List, [], ◌∷◌, ◌++◌, none, some, arith, take,
  replicate, All-replicate, length-replicate,
}
use os_2024_ususbuntu_with_s.Bytes.{at, strlen, memcmp, memcpy}
use os_2024_ususbuntu_with_s.Search.{knuth_morris_pratt, boyer_moore}
use os_2024_ususbuntu_with_s.Search.Match.{Occurs}
use os_2024_ususbuntu_with_s.Search.Kmp.{knuth_morris_pratt-Occurs}
use os_2024_ususbuntu_with_s.Search.Bm.{boyer_moore-Occurs}
use os_2024_ususbuntu_with_s.Search.Agree.{knuth_morris_pratt-boyer_moore}
use os_2024_ususbuntu_with_s.Fat32.Disk.{Disk, read_blocks, read_loop, read_clusters, cluster_size}
use os_2024_ususbuntu_with_s.Fat32.Disk.Laws.{IsDisk, IsByte}
use os_2024_ususbuntu_with_s.Fat32.Layout.{
  empty_entry, directory_size, decode_table, decode_entry, decode_entries,
}
use os_2024_ususbuntu_with_s.Fat32.Driver.{
  DriverState, DriverRequest, code, unknown, load_table, store_table, find_match, ceil_div,
  is_match, is_folder,
}
use os_2024_ususbuntu_with_s.Fat32.Driver.Tables.{load_table-store_table}
use os_2024_ususbuntu_with_s.Fat32.Directory.{init_directory_table}
use os_2024_ususbuntu_with_s.Fat32.Files.{
  read, write, delete, cluster_count_of, cluster_available, empties_from,
}
use os_2024_ususbuntu_with_s.Fat32.Files.Request.{IsFileRequest, IsParent, write-succeeds}
use os_2024_ususbuntu_with_s.Fat32.Files.WriteRead.{write-read}
use os_2024_ususbuntu_with_s.Fat32.Files.WriteDelete.{write-delete}
use os_2024_ususbuntu_with_s.Fat32.Files.Errors.{IsUntouched, write-IsUntouched, delete-IsUntouched}
use os_2024_ususbuntu_with_s.Traverse.Dls.{search_dls_bm, search_dls_kmp}
use os_2024_ususbuntu_with_s.Traverse.Dls.Agree.{search_dls_bm-search_dls_kmp}
use os_2024_ususbuntu_with_s.Fat32.Format.{
  create_fat32, initialize_filesystem_fat32, driver_at_boot, is_empty_storage, codes, clear_loop,
  Behind,
}
use os_2024_ususbuntu_with_s.Fat32.Format.Boot.{
  IsCreated, root_entry_table, root-IsTable, IsBehind, create_fat32-IsCreated,
  driver_at_boot-IsDriver, initialize-initialize,
}

abbrev pub blank_disk : Disk
blank_disk = λ lba. replicate 512 0

pub blank-IsDisk : IsDisk blank_disk
blank-IsDisk = record {
  sized = λ lba. length-replicate {A = ℕ} 512 0;
  bytes = λ lba. All-replicate IsByte 512 0 (omega arith);
}

abbrev pub zeros_behind : Behind
zeros_behind = record { first = 0; second = 0; third = 0 }

zeros-IsBehind : IsBehind zeros_behind
zeros-IsBehind = record { first = omega arith; second = omega arith; third = omega arith }

unfoldable pub made : DriverState
made = create_fat32 zeros_behind (driver_at_boot blank_disk)

pub made-IsCreated : IsCreated zeros_behind made
unfolding made
made-IsCreated =
    create_fat32-IsCreated zeros_behind zeros-IsBehind (driver_at_boot blank_disk)
      (driver_at_boot-IsDriver blank_disk blank-IsDisk)

unfoldable pub file_request : DriverRequest
file_request = record {
  buf = replicate 2048 65;
  name = codes "hello" ++ (0 ∷ (0 ∷ (0 ∷ [])));
  ext = codes "txt";
  parent_cluster_number = 2;
  buffer_size = 5;
}

pub file-IsFileRequest : IsFileRequest file_request
unfolding file_request cluster_count_of ceil_div
file-IsFileRequest = record {
  name_len = refl;
  ext_len = refl;
  name_bytes = omega arith;
  ext_bytes = omega arith;
  not_empty = omega arith;
  small = omega arith;
  buf_bytes = All-replicate IsByte 2048 65 (omega arith);
  buf_long = omega (arith, length-replicate {A = ℕ} 2048 65);
}

made-root : load_table made.disk 2 ≡ root_entry_table zeros_behind
made-root = made-IsCreated.root_table

root-fresh : find_match (root_entry_table zeros_behind) file_request.name file_request.ext ≡ none
unfolding file_request find_match is_match init_directory_table memcmp memcpy
root-fresh = refl

made-room : cluster_count_of file_request.buffer_size ≤ cluster_available made.cluster_map
unfolding file_request cluster_count_of ceil_div cluster_available empties_from made create_fat32
    clear_loop
made-room = omega arith

pub written : DriverState
written = (write made file_request).1

file-parent : file_request.parent_cluster_number ≡ 2
unfolding file_request
file-parent = refl

pub write_ok : write made file_request ≡ (code 0, written)
unfolding written file_request
write_ok =
    write-succeeds made file_request made-IsCreated.root_is_folder
      (ap (λ t. find_match t file_request.name file_request.ext) made-root ∙ root-fresh) made-room

pub file-IsParent : IsParent made file_request.parent_cluster_number
unfolding file_request
file-IsParent = made-IsCreated.root

size_fits : file_request.buffer_size ≤ 4096
unfolding file_request
size_fits = omega arith

named : at file_request.name 0 ≢ 0
unfolding file_request
named = omega arith

write-read_example :
    read written (record file_request { buffer_size = 4096; buf = [] })
    ≡ some (
      code 0,
      written,
      take (cluster_count_of file_request.buffer_size * cluster_size) file_request.buf,
    )
write-read_example =
    write-read made written file_request 4096 [] made-IsCreated.driver made-IsCreated.reserved
      file-IsFileRequest file-IsParent write_ok size_fits

-- The file that `written` holds can be read into a larger buffer.
pub read_ok :
    read written (record file_request { buffer_size = 4096; buf = [] })
    ≡ some (
      code 0,
      written,
      take (cluster_count_of file_request.buffer_size * cluster_size) file_request.buf,
    )
read_ok =
    write-read made written file_request 4096 [] made-IsCreated.driver made-IsCreated.reserved
      file-IsFileRequest file-IsParent write_ok size_fits

write-delete_example :
    (last : DriverState) × (delete written file_request ≡ some (code 0, last))
    × (last.cluster_map ≡ made.cluster_map)
    × (read last file_request ≡ some (code 3, last, []))
write-delete_example =
    write-delete made written file_request made-IsCreated.driver made-IsCreated.reserved
      file-IsFileRequest file-IsParent named write_ok

create_fat32-IsCreated_example :
    IsCreated zeros_behind (create_fat32 zeros_behind (driver_at_boot blank_disk))
create_fat32-IsCreated_example =
    create_fat32-IsCreated zeros_behind zeros-IsBehind (driver_at_boot blank_disk)
      (driver_at_boot-IsDriver blank_disk blank-IsDisk)

blank_empty : is_empty_storage blank_disk ≡ true
unfolding is_empty_storage read_blocks read_loop memcmp
blank_empty = refl

abbrev first_boot : DriverState
first_boot = initialize_filesystem_fat32 zeros_behind (driver_at_boot blank_disk)

initialize-initialize_example :
    IsCreated zeros_behind first_boot
    × ((initialize_filesystem_fat32 zeros_behind (driver_at_boot first_boot.disk)).disk
        ≡ first_boot.disk)
    × ((initialize_filesystem_fat32 zeros_behind (driver_at_boot first_boot.disk)).cluster_map
        ≡ first_boot.cluster_map)
initialize-initialize_example =
    initialize-initialize zeros_behind blank_disk zeros-IsBehind blank-IsDisk blank_empty

-- The texts of the searches.
abbrev pattern : List ℕ
pattern = codes "aab" ++ (0 ∷ [])

abbrev text : List ℕ
text = codes "aaaab" ++ (0 ∷ [])

knuth_morris_pratt-Occurs_example : (knuth_morris_pratt pattern text ≡ true) ↔ Occurs pattern text
unfolding strlen
knuth_morris_pratt-Occurs_example = knuth_morris_pratt-Occurs pattern text (omega arith)

boyer_moore-Occurs_example : (boyer_moore pattern text ≡ true) ↔ Occurs pattern text
boyer_moore-Occurs_example = boyer_moore-Occurs pattern text (omega arith)

knuth_morris_pratt-boyer_moore_example : knuth_morris_pratt pattern text ≡ boyer_moore pattern text
unfolding strlen
knuth_morris_pratt-boyer_moore_example =
    knuth_morris_pratt-boyer_moore pattern text (omega arith) (omega arith)

search_dls_bm-search_dls_kmp_example : search_dls_bm made 2 pattern ≡ search_dls_kmp made 2 pattern
unfolding strlen
search_dls_bm-search_dls_kmp_example =
    search_dls_bm-search_dls_kmp made 2 pattern made-IsCreated.driver.disk (omega arith)

load_table-store_table_example :
    load_table (store_table blank_disk (root_entry_table zeros_behind) 9) 9
    ≡ root_entry_table zeros_behind
load_table-store_table_example =
    load_table-store_table blank_disk (root_entry_table zeros_behind) 9 blank-IsDisk
      (root-IsTable zeros_behind zeros-IsBehind)

blank-load : (c : ℕ) → load_table blank_disk c ≡ replicate directory_size empty_entry
unfolding load_table read_clusters read_blocks read_loop decode_table decode_entries decode_entry
blank-load c = refl

-- No directory is on the blank disk, and no file in the root that was made.
write_refused :
    write (driver_at_boot blank_disk) file_request
    ≡ (unknown, (write (driver_at_boot blank_disk) file_request).1)
unfolding write file_request
write_refused = rw (write, ap is_folder (blank-load 2)) refl

delete_refused :
    delete made file_request ≡ some (code 1, record made { dir_table_buf = load_table made.disk 2 })
unfolding delete file_request
delete_refused =
    rw
      (
        delete,
        made-IsCreated.root_is_folder,
        ap (λ t. find_match t file_request.name file_request.ext) made-root ∙ root-fresh,
      )
      refl

unknown-code : unknown ≢ code 0
unknown-code e = absurd (ground (arith, e))

one-code : code 1 ≢ code 0
one-code e = absurd (ground (arith, e))

write-IsUntouched_example :
    IsUntouched (driver_at_boot blank_disk) (write (driver_at_boot blank_disk) file_request).1
write-IsUntouched_example =
    write-IsUntouched (driver_at_boot blank_disk) (write (driver_at_boot blank_disk) file_request).1
      file_request unknown write_refused unknown-code

delete-IsUntouched_example :
    IsUntouched made (record made { dir_table_buf = load_table made.disk 2 })
delete-IsUntouched_example =
    delete-IsUntouched made (record made { dir_table_buf = load_table made.disk 2 }) file_request
      (code 1) delete_refused one-code
