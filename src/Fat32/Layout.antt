-- ===== src/Fat32/Layout.antt =====
-- The on-disk structures of src/header/filesystem/fat32.h and their bytes. The structs are packed
-- and little-endian: a directory entry takes 32 bytes, a table of 64 entries or of 512 cluster
-- numbers fills a cluster.
pub mod Codec
use os_2024_ususbuntu_with_s.Prelude.{
  ℕ, zero, suc, ◌+◌, ◌*◌, ◌/◌, ◌%◌, List, [], ◌∷◌, ◌++◌, take, drop, replicate, get_or,
}
use os_2024_ususbuntu_with_s.Bytes.{at}

-- `struct FAT32DirectoryEntry`. The flag `undelete` is its byte.
pub record DirectoryEntry : Type 0 where
  pub name : List ℕ
  pub ext : List ℕ
  pub attribute : ℕ
  pub user_attribute : ℕ
  pub undelete : ℕ
  pub create_time : ℕ
  pub create_date : ℕ
  pub access_date : ℕ
  pub cluster_high : ℕ
  pub modified_time : ℕ
  pub modified_date : ℕ
  pub cluster_low : ℕ
  pub filesize : ℕ

-- `struct FAT32DirectoryTable`
abbrev pub DirectoryTable : Type 0
DirectoryTable = List DirectoryEntry

abbrev pub directory_size : ℕ
directory_size = 64

abbrev pub cluster_map_size : ℕ
cluster_map_size = 512

-- An entry whose bytes are all 0, as `= {0}` and `memset(..., 0, ...)` make it.
abbrev pub empty_entry : DirectoryEntry
empty_entry = record {
  name = replicate 8 0;
  ext = replicate 3 0;
  attribute = 0;
  user_attribute = 0;
  undelete = 0;
  create_time = 0;
  create_date = 0;
  access_date = 0;
  cluster_high = 0;
  modified_time = 0;
  modified_date = 0;
  cluster_low = 0;
  filesize = 0;
}

abbrev pub entry_at : DirectoryTable → ℕ → DirectoryEntry
entry_at table i = get_or table i empty_entry

-- Little-endian words.
abbrev pub put16 : ℕ → List ℕ → List ℕ
put16 w rest = w % 256 ∷ (w / 256 % 256 ∷ rest)

abbrev pub put32 : ℕ → List ℕ → List ℕ
put32 w rest = w % 256 ∷ (w / 256 % 256 ∷ (w / 65536 % 256 ∷ (w / 16777216 % 256 ∷ rest)))

abbrev pub get16 : List ℕ → ℕ → ℕ
get16 b i = at b i + 256 * at b (suc i)

abbrev pub get32 : List ℕ → ℕ → ℕ
get32 b i = get16 b i + 65536 * get16 b (suc (suc i))

-- The 21 bytes behind an entry's name and extension.
abbrev pub encode_fields : DirectoryEntry → List ℕ → List ℕ
encode_fields e rest =
    e.attribute
    ∷ (e.user_attribute
        ∷ (e.undelete
            ∷ put16 e.create_time (
                put16 e.create_date (
                  put16 e.access_date (
                    put16 e.cluster_high (
                      put16 e.modified_time
                        (put16 e.modified_date (put16 e.cluster_low (put32 e.filesize rest)))))))))

unfoldable pub encode_entry : DirectoryEntry → List ℕ → List ℕ
encode_entry e rest = e.name ++ (e.ext ++ encode_fields e rest)

abbrev pub decode_fields : List ℕ → List ℕ → List ℕ → DirectoryEntry
decode_fields name ext b = record {
  name = name;
  ext = ext;
  attribute = at b 0;
  user_attribute = at b 1;
  undelete = at b 2;
  create_time = get16 b 3;
  create_date = get16 b 5;
  access_date = get16 b 7;
  cluster_high = get16 b 9;
  modified_time = get16 b 11;
  modified_date = get16 b 13;
  cluster_low = get16 b 15;
  filesize = get32 b 17;
}

unfoldable pub decode_entry : List ℕ → DirectoryEntry
decode_entry b = decode_fields (take 8 b) (take 3 (drop 8 b)) (drop 11 b)

unfoldable pub encode_table : DirectoryTable → List ℕ
encode_table [] = []
encode_table (e ∷ table) = encode_entry e (encode_table table)

unfoldable pub decode_entries : ℕ → List ℕ → DirectoryTable
decode_entries zero b = []
decode_entries (suc n) b = decode_entry b ∷ decode_entries n (drop 32 b)

unfoldable pub decode_table : List ℕ → DirectoryTable
decode_table b = decode_entries directory_size b

unfoldable pub encode_map : List ℕ → List ℕ
encode_map [] = []
encode_map (w ∷ cluster_map) = put32 w (encode_map cluster_map)

unfoldable pub decode_words : ℕ → List ℕ → List ℕ
decode_words zero b = []
decode_words (suc n) b = get32 b 0 ∷ decode_words n (drop 4 b)

unfoldable pub decode_map : List ℕ → List ℕ
decode_map b = decode_words cluster_map_size b
