-- ===== src/WriteExamples.antt =====
-- A second file written beside a first one, at small inputs.
use os_2024_ususbuntu_with_s.Prelude.{
  ℕ, ◌*◌, ◌≤◌, ◌≡◌, ◌≢◌, inl, refl, sym, ap, ◌∙◌, subst, true, List, [], ◌∷◌, ◌++◌, none, some,
  arith, take, set, replicate, All-replicate, length-replicate,
}
use os_2024_ususbuntu_with_s.Bytes.{at, memcmp, memcpy}
use os_2024_ususbuntu_with_s.Fat32.Disk.{cluster_size}
use os_2024_ususbuntu_with_s.Fat32.Disk.Laws.{IsByte}
use os_2024_ususbuntu_with_s.Fat32.Layout.{DirectoryTable, entry_at, cluster_map_size}
use os_2024_ususbuntu_with_s.Fat32.Driver.{
  DriverState, DriverRequest, code, load_table, cluster_of, find_match, is_folder, is_match,
  ceil_div,
}
use os_2024_ususbuntu_with_s.Fat32.Driver.Tables.{IsDriver}
use os_2024_ususbuntu_with_s.Fat32.Directory.{init_directory_table}
use os_2024_ususbuntu_with_s.Fat32.Files.{
  read, read_chain, write, commit, make_file, new_entry, new_entry_index, free_slot_from,
  first_empty, alloc_loop, cluster_count_of, cluster_available, empties_from,
}
use os_2024_ususbuntu_with_s.Fat32.Files.Request.{
  IsFileRequest, IsParent, IsReserved, loaded, new_entry-cluster, write-Written, write-succeeds,
}
use os_2024_ususbuntu_with_s.Fat32.Files.Final.{IsStored, write-IsStored}
use os_2024_ususbuntu_with_s.Fat32.Files.Others.{
  IsChain, IsFile, last, first_cluster, IsOtherName, read-write_other,
}
use os_2024_ususbuntu_with_s.Fat32.Format.{create_fat32, codes, clear_loop}
use os_2024_ususbuntu_with_s.Fat32.Format.Boot.{root_entry_table}
use os_2024_ususbuntu_with_s.Examples.{
  made, made-IsCreated, zeros_behind, file_request, file-IsFileRequest, file-IsParent, written,
  write_ok,
}

second_request : DriverRequest
second_request = record {
  buf = replicate 2048 66;
  name = codes "world" ++ (0 ∷ (0 ∷ (0 ∷ [])));
  ext = codes "txt";
  parent_cluster_number = 2;
  buffer_size = 7;
}

second-IsFileRequest : IsFileRequest second_request
unfolding second_request cluster_count_of ceil_div
second-IsFileRequest = record {
  name_len = refl;
  ext_len = refl;
  name_bytes = omega arith;
  ext_bytes = omega arith;
  not_empty = omega arith;
  small = omega arith;
  buf_bytes = All-replicate IsByte 2048 66 (omega arith);
  buf_long = omega (arith, length-replicate {A = ℕ} 2048 66);
}

stored : IsStored made file_request written
stored =
    write-IsStored made written file_request made-IsCreated.driver made-IsCreated.reserved
      file-IsFileRequest file-IsParent write_ok

-- What the first write left.
state :
    written
    ≡ commit
        (loaded made file_request)
        file_request
        (make_file (loaded made file_request) file_request)
state = (write-Written made file_request written file-IsFileRequest.not_empty write_ok).state

abbrev table : DirectoryTable
table = set (root_entry_table zeros_behind) 1 (new_entry file_request 3 0)

three : first_empty made.cluster_map ≡ 3
unfolding made create_fat32 clear_loop first_empty empties_from
three = refl

written-table : load_table written.disk 2 ≡ table
unfolding commit make_file new_entry_index free_slot_from init_directory_table file_request
written-table =
    stored.stored
    ∙ ap (λ s. s.dir_table_buf) state
    ∙ ap (λ t. set t (new_entry_index t) (new_entry file_request (first_empty made.cluster_map) 0))
        made-IsCreated.root_table
    ∙ ap (λ c. set (root_entry_table zeros_behind) 1 (new_entry file_request c 0)) three

written-map : written.cluster_map ≡ set made.cluster_map 3 0x0FFFFFFF
unfolding commit make_file alloc_loop made create_fat32 clear_loop file_request cluster_count_of
    ceil_div empties_from
written-map = ap (λ s. s.cluster_map) state ∙ refl

written-IsDriver : IsDriver written
written-IsDriver = record { disk = stored.disk; map = stored.map }

zero_used : at made.cluster_map 0 ≢ 0
zero_used = made-IsCreated.reserved.zero_used

written-IsReserved : IsReserved written
unfolding made create_fat32 clear_loop
written-IsReserved = record {
  zero_used = λ e. omega (arith, ap (λ m. at m 0) (sym written-map) ∙ e);
  one_used = λ e. omega (arith, ap (λ m. at m 1) (sym written-map) ∙ e);
}

written-IsParent : IsParent written second_request.parent_cluster_number
unfolding second_request made create_fat32 clear_loop new_entry_index free_slot_from
    init_directory_table
written-IsParent = record {
  low = omega arith;
  high = omega arith;
  used = λ e. omega (arith, ap (λ m. at m 2) (sym written-map) ∙ e);
  slot = λ e. omega (arith, ap new_entry_index (sym written-table) ∙ e);
}

second_fresh : find_match table second_request.name second_request.ext ≡ none
unfolding second_request file_request find_match is_match init_directory_table memcmp memcpy
second_fresh = refl

table-is_folder : is_folder table ≡ true
unfolding init_directory_table
table-is_folder = refl

room : cluster_count_of second_request.buffer_size ≤ cluster_available written.cluster_map
unfolding second_request cluster_count_of ceil_div cluster_available empties_from made create_fat32
    clear_loop
room = omega (arith, ap cluster_available written-map)

both : DriverState
both = (write written second_request).1

both_ok : write written second_request ≡ (code 0, both)
unfolding both second_request
both_ok =
    write-succeeds written second_request (ap is_folder written-table ∙ table-is_folder)
      (ap (λ t. find_match t second_request.name second_request.ext) written-table ∙ second_fresh)
      room

abbrev wanted : DriverRequest
wanted = record file_request { buffer_size = 4096; buf = [] }

abbrev content : List ℕ
content = take (cluster_count_of file_request.buffer_size * cluster_size) file_request.buf

wanted_found : find_match table wanted.name wanted.ext ≡ some 1
unfolding file_request find_match is_match init_directory_table memcmp memcpy
wanted_found = refl

first_entry : entry_at (load_table written.disk 2) 1 ≡ new_entry file_request 3 0
unfolding init_directory_table
first_entry = ap (λ t. entry_at t 1) written-table

first_at : stored.cluster ≡ 3
unfolding made create_fat32 clear_loop empties_from
first_at = stored.first

entry_cluster : cluster_of (entry_at (load_table written.disk 2) 1) ≡ 3
entry_cluster =
    ap cluster_of first_entry ∙ new_entry-cluster file_request file-IsFileRequest 3 (omega arith)

wanted-IsFile : IsFile written wanted content
unfolding file_request
wanted-IsFile = record {
  folder = ap is_folder written-table ∙ table-is_folder;
  index = 1;
  found = ap (λ t. find_match t wanted.name wanted.ext) written-table ∙ wanted_found;
  in_use = ap (λ e. e.user_attribute) first_entry;
  plain = λ z. omega (arith, ap (λ e. e.attribute) (sym first_entry) ∙ z);
  fits = omega (arith, ap (λ e. e.filesize) first_entry);
  content =
      ap (read_chain cluster_map_size written.disk written.cluster_map)
        (entry_cluster ∙ sym first_at)
      ∙ stored.chain;
}

wanted-cluster : first_cluster written wanted content wanted-IsFile ≡ 3
unfolding file_request wanted-IsFile
wanted-cluster = entry_cluster

three-IsChain : IsChain 2 written.cluster_map 3
unfolding made create_fat32 clear_loop
three-IsChain =
    last 3
      (record {
        small = omega arith;
        used = λ e. omega (arith, ap (λ m. at m 3) (sym written-map) ∙ e);
        not_parent = omega arith;
        not_map = omega arith;
      })
      (ap (λ m. at m 3) written-map)

other_name : IsOtherName second_request wanted
unfolding second_request file_request memcmp
other_name = refl

same_parent : wanted.parent_cluster_number ≡ second_request.parent_cluster_number
unfolding second_request file_request
same_parent = refl

wanted-IsChain :
    IsChain second_request.parent_cluster_number written.cluster_map
      (first_cluster written wanted content wanted-IsFile)
unfolding second_request
wanted-IsChain = subst (IsChain 2 written.cluster_map) (sym wanted-cluster) three-IsChain

read-write_other_example : read both wanted ≡ some (code 0, loaded both wanted, content)
read-write_other_example =
    read-write_other written both second_request wanted content written-IsDriver written-IsReserved
      second-IsFileRequest written-IsParent wanted-IsFile wanted-IsChain
      (inl (same_parent, other_name)) both_ok
