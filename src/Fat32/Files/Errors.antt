-- ===== src/Fat32/Files/Errors.antt =====
-- The failing branches of `write` and `delete` (src/fat32.c).
use os_2024_ususbuntu_with_s.Prelude.{◌≡◌, ◌≢◌, inl, inr, Bool-cases, some, Option-cases, arith, ℕ}
use os_2024_ususbuntu_with_s.Fat32.Layout.{DirectoryTable, entry_at, cluster_map_size}
use os_2024_ususbuntu_with_s.Fat32.Driver.{
  DriverState, DriverRequest, Code, code, load_table, find_match, is_folder, cluster_of,
}
use os_2024_ususbuntu_with_s.Fat32.Files.{write, delete, delete_entry, remove, free_chain}

-- The disk and the map are as before.
abbrev pub IsUntouched : DriverState → DriverState → Type 0
IsUntouched s s' = (s'.disk ≡ s.disk) × (s'.cluster_map ≡ s.cluster_map)

-- A write that returns a code other than 0 leaves the disk and the map alone.
pub write-IsUntouched :
    (s s' : DriverState) (q : DriverRequest) (c : Code)
    → write s q ≡ (c, s')
    → c ≢ code 0
    → IsUntouched s s'
unfolding write
write-IsUntouched s s' q c h ne = ground arith

remove-code :
    (s s' : DriverState) (q : DriverRequest) (i : ℕ) (c : Code)
    → remove s q i ≡ some (c, s')
    → c ≡ code 0
unfolding remove
remove-code s s' q i c h =
    elim (Option-cases
      (free_chain cluster_map_size s.cluster_map (cluster_of (entry_at s.dir_table_buf i)))) [
        | inl e ↦ absurd (ground (arith, e, h))
        | inr (m, e) ↦ ground (arith, e, h)
      ]

delete_entry-IsUntouched :
    (s s' : DriverState) (q : DriverRequest) (i : ℕ) (c : Code)
    → delete_entry s q i ≡ some (c, s')
    → c ≢ code 0
    → IsUntouched s s'
unfolding delete_entry
delete_entry-IsUntouched s s' q i c h ne = ground (arith, remove-code s s' q i c)

-- A delete that ends with a code other than 0 leaves the disk and the map alone.
pub delete-IsUntouched :
    (s s' : DriverState) (q : DriverRequest) (c : Code)
    → delete s q ≡ some (c, s')
    → c ≢ code 0
    → IsUntouched s s'
unfolding delete
delete-IsUntouched s s' q c h ne = elim (Bool-cases (is_folder table)) [
  | inr f ↦ ground (arith, f, h)
  | inl f ↦ elim (Option-cases (find_match table q.name q.ext)) [
    | inl e ↦ ground (arith, f, e, h)
    | inr (i, e) ↦
        delete_entry-IsUntouched (record s { dir_table_buf = table }) s' q i c
          (ground (arith, f, e, h)) ne
  ]
]
  where
    table : DirectoryTable
    table = load_table s.disk q.parent_cluster_number
