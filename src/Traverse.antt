-- ===== src/Traverse.antt =====
-- The functions of src/fat32.c that print directories: `list_dir_content`, the tree listing, the
-- path search and the two content searches. The buffer is given by the bytes up to its index, the
-- newest first: `buffer[idx] = c; idx++;` is `c ∷ out`. A byte that is taken back is set to 0 in the
-- source, as is all of the buffer behind the index after `clear_buffer`.
pub mod Listing
pub mod Path
pub mod Dls
use os_2024_ususbuntu_with_s.Prelude.{
  ℕ, zero, suc, ◌+◌, Bool, true, false, ◌&&◌, not, List, [], ◌∷◌, ◌++◌, ◌==◌, if◌then◌else◌,
  replicate,
}
use os_2024_ususbuntu_with_s.Bytes.{memcmp, Sign, is_null, is_plus, at}
use os_2024_ususbuntu_with_s.Fat32.Layout.{DirectoryEntry}
use os_2024_ususbuntu_with_s.Fat32.Directory.{dir_ext}

abbrev pub newline : ℕ
newline = 10

abbrev pub space : ℕ
space = b' '

-- `is_current_content_name_na && is_current_content_ext_na`
unfoldable pub is_na : DirectoryEntry → Bool
is_na e = is_null (memcmp e.name (replicate 8 0) 8) && is_null (memcmp e.ext (replicate 3 0) 3)

-- `memcmp(current_content.ext, "dir", 3)`
unfoldable pub ext_order : DirectoryEntry → Sign
ext_order e = memcmp e.ext dir_ext 3

-- `for (j = 0; j < n; j++) { if (s[j] == '\0') break; buffer[idx] = s[j]; idx++; }`
unfoldable pub put_chars : ℕ → List ℕ → List ℕ → List ℕ
put_chars zero s out = out
put_chars (suc n) [] out = out
put_chars (suc n) (c ∷ s) out = let rest = put_chars n s (c ∷ out) in if c == 0 then out else rest

-- Three spaces for each level.
unfoldable pub put_indent : ℕ → List ℕ → List ℕ
put_indent zero out = out
put_indent (suc level) out = put_indent level (space ∷ (space ∷ (space ∷ out)))

-- `while (idx > 0 && buffer[idx - 1] != '\n') { idx--; buffer[idx] = '\0'; }`
unfoldable pub drop_line : List ℕ → List ℕ
drop_line [] = []
drop_line (c ∷ out) = let rest = drop_line out in if c == newline then c ∷ out else rest

-- "Remove first \n", then that loop.
unfoldable pub take_back : List ℕ → List ℕ
take_back [] = []
take_back (c ∷ out) = drop_line out
