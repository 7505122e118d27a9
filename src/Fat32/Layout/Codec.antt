-- ===== src/Fat32/Layout/Codec.antt =====
-- The bytes of directory tables and of the allocation table (src/header/filesystem/fat32.h).
use os_2024_ususbuntu_with_s.Prelude.{
  ℕ, zero, suc, ◌+◌, ◌*◌, ◌/◌, ◌%◌, ◌<◌, ◌≤◌, ◌≡◌, refl, sym, ap, ap₂, ◌∙◌, List, [], ◌∷◌, ◌++◌,
  arith, take, drop, length, length-append, length-take, length-drop, take-append_left,
  drop-append_left, drop-drop, All, All-append, All-take, All-drop, All-get_or,
}
use os_2024_ususbuntu_with_s.Bytes.{at}
use os_2024_ususbuntu_with_s.Fat32.Disk.Laws.{IsByte}
use os_2024_ususbuntu_with_s.Fat32.Layout.{
  DirectoryEntry, DirectoryTable, directory_size, cluster_map_size, get16, get32, encode_fields,
  encode_entry, decode_fields, decode_entry, encode_table, decode_entries, decode_table, encode_map,
  decode_words, decode_map,
}

-- Every field fits its C type.
pub record IsEntry (e : DirectoryEntry) : Type 0 where
  pub name_len : length e.name ≡ 8
  pub ext_len : length e.ext ≡ 3
  pub name_bytes : All IsByte e.name
  pub ext_bytes : All IsByte e.ext
  pub attribute_fits : e.attribute < 256
  pub user_fits : e.user_attribute < 256
  pub undelete_fits : e.undelete < 256
  pub create_time_fits : e.create_time < 65536
  pub create_date_fits : e.create_date < 65536
  pub access_date_fits : e.access_date < 65536
  pub cluster_high_fits : e.cluster_high < 65536
  pub modified_time_fits : e.modified_time < 65536
  pub modified_date_fits : e.modified_date < 65536
  pub cluster_low_fits : e.cluster_low < 65536
  pub filesize_fits : e.filesize < 4294967296

abbrev pub IsTable : DirectoryTable → Type 0
IsTable table = (length table ≡ directory_size) × All IsEntry table

abbrev pub IsWord : ℕ → Type 0
IsWord w = w < 4294967296

abbrev pub IsMap : List ℕ → Type 0
IsMap cluster_map = (length cluster_map ≡ cluster_map_size) × All IsWord cluster_map

word16 : (w : ℕ) → w < 65536 → w % 256 + 256 * (w / 256 % 256) ≡ w
word16 w h = omega arith

word32 :
    (w : ℕ)
    → w < 4294967296
    → w % 256 + 256 * (w / 256 % 256) + 65536 * (w / 65536 % 256 + 256 * (w / 16777216 % 256)) ≡ w
word32 w h = omega arith

decode-encode_fields :
    (e : DirectoryEntry) (rest : List ℕ)
    → IsEntry e
    → decode_fields e.name e.ext (encode_fields e rest) ≡ e
decode-encode_fields e rest v = λ i. record {
  name = e.name;
  ext = e.ext;
  attribute = e.attribute;
  user_attribute = e.user_attribute;
  undelete = e.undelete;
  create_time = word16 e.create_time v.create_time_fits i;
  create_date = word16 e.create_date v.create_date_fits i;
  access_date = word16 e.access_date v.access_date_fits i;
  cluster_high = word16 e.cluster_high v.cluster_high_fits i;
  modified_time = word16 e.modified_time v.modified_time_fits i;
  modified_date = word16 e.modified_date v.modified_date_fits i;
  cluster_low = word16 e.cluster_low v.cluster_low_fits i;
  filesize = word32 e.filesize v.filesize_fits i;
}

bytes16 : {P : Type 0} (w : ℕ) → P → IsByte (w % 256) × (IsByte (w / 256 % 256) × P)
bytes16 w p = (omega arith, (omega arith, p))

bytes32 :
    {P : Type 0} (w : ℕ)
    → P
    → IsByte (w % 256)
      × (IsByte (w / 256 % 256) × (IsByte (w / 65536 % 256) × (IsByte (w / 16777216 % 256) × P)))
bytes32 w p = (omega arith, (omega arith, (omega arith, (omega arith, p))))

module _ (e : DirectoryEntry) (rest : List ℕ) (v : IsEntry e) where
  fields_of : drop 11 (e.name ++ (e.ext ++ encode_fields e rest)) ≡ encode_fields e rest
  fields_of =
      sym (drop-drop 8 3 (e.name ++ (e.ext ++ encode_fields e rest)))
      ∙ ap (drop 3) (drop-append_left 8 e.name (e.ext ++ encode_fields e rest) v.name_len)
      ∙ drop-append_left 3 e.ext (encode_fields e rest) v.ext_len

  ext_of : take 3 (drop 8 (e.name ++ (e.ext ++ encode_fields e rest))) ≡ e.ext
  ext_of =
      ap (take 3) (drop-append_left 8 e.name (e.ext ++ encode_fields e rest) v.name_len)
      ∙ take-append_left 3 e.ext (encode_fields e rest) v.ext_len

  name_of : take 8 (e.name ++ (e.ext ++ encode_fields e rest)) ≡ e.name
  name_of = take-append_left 8 e.name (e.ext ++ encode_fields e rest) v.name_len

  -- An entry's bytes, with anything behind them, decode to the entry.
  pub decode_entry-encode_entry : decode_entry (encode_entry e rest) ≡ e
  unfolding decode_entry encode_entry
  decode_entry-encode_entry =
      (λ i. decode_fields (name_of i) (ext_of i) (fields_of i)) ∙ decode-encode_fields e rest v

  drop-encode_entry : drop 32 (encode_entry e rest) ≡ rest
  unfolding encode_entry
  drop-encode_entry =
      sym (drop-drop 11 21 (e.name ++ (e.ext ++ encode_fields e rest))) ∙ ap (drop 21) fields_of

  length-encode_entry : length (encode_entry e rest) ≡ 32 + length rest
  unfolding encode_entry
  length-encode_entry = omega (
    arith,
    length-append e.name (e.ext ++ encode_fields e rest),
    length-append e.ext (encode_fields e rest),
    v.name_len,
    v.ext_len,
  )

  fields_bytes : All IsByte rest → All IsByte (encode_fields e rest)
  fields_bytes b = (
    v.attribute_fits,
    (
      v.user_fits,
      (
        v.undelete_fits,
        bytes16 e.create_time (
            bytes16 e.create_date (
              bytes16 e.access_date (
                bytes16 e.cluster_high (
                  bytes16 e.modified_time
                    (bytes16 e.modified_date (bytes16 e.cluster_low (bytes32 e.filesize b))))))),
      ),
    ),
  )

  encode_entry-bytes : All IsByte rest → All IsByte (encode_entry e rest)
  unfolding encode_entry
  encode_entry-bytes b =
      All-append IsByte e.name (e.ext ++ encode_fields e rest) v.name_bytes
        (All-append IsByte e.ext (encode_fields e rest) v.ext_bytes (fields_bytes b))

decode_entries-encode_table :
    (n : ℕ) (table : DirectoryTable)
    → length table ≡ n
    → All IsEntry table
    → decode_entries n (encode_table table) ≡ table
unfolding decode_entries encode_table
decode_entries-encode_table zero [] h v = refl
decode_entries-encode_table zero (e ∷ table) h v = absurd (omega arith)
decode_entries-encode_table (suc n) [] h v = absurd (omega arith)
decode_entries-encode_table (suc n) (e ∷ table) h v =
    ap₂ ◌∷◌ (decode_entry-encode_entry e (encode_table table) v.0) (
      ap (decode_entries n) (drop-encode_entry e (encode_table table) v.0)
      ∙ decode_entries-encode_table n table (omega arith) v.1)

-- A directory table of 64 entries whose fields fit their widths survives the way to bytes and
-- back.
pub decode_table-encode_table :
    (table : DirectoryTable) → IsTable table → decode_table (encode_table table) ≡ table
unfolding decode_table
decode_table-encode_table table v = decode_entries-encode_table directory_size table v.0 v.1

pub length-encode_table :
    (table : DirectoryTable) → All IsEntry table → length (encode_table table) ≡ 32 * length table
unfolding encode_table
length-encode_table [] v = refl
length-encode_table (e ∷ table) v =
    omega (arith, length-encode_entry e (encode_table table) v.0, length-encode_table table v.1)

pub encode_table-bytes :
    (table : DirectoryTable) → All IsEntry table → All IsByte (encode_table table)
unfolding encode_table
encode_table-bytes [] v = tt
encode_table-bytes (e ∷ table) v =
    encode_entry-bytes e (encode_table table) v.0 (encode_table-bytes table v.1)

-- What stands at an index of a buffer of bytes is a byte.
at_byte : (b : List ℕ) (i : ℕ) → All IsByte b → at b i < 256
at_byte b i h = All-get_or IsByte b i 0 h (omega arith)

get16_fits : (b : List ℕ) (i : ℕ) → All IsByte b → get16 b i < 65536
get16_fits b i h = omega (arith, at_byte b i h, at_byte b (suc i) h)

get32_fits : (b : List ℕ) (i : ℕ) → All IsByte b → get32 b i < 4294967296
get32_fits b i h = omega (arith, get16_fits b i h, get16_fits b (suc (suc i)) h)

decode_entry-IsEntry : (b : List ℕ) → 32 ≤ length b → All IsByte b → IsEntry (decode_entry b)
unfolding decode_entry
decode_entry-IsEntry b len h =
    let f : All IsByte (drop 11 b) = All-drop IsByte 11 b h in
    record {
      name_len = omega (arith, length-take 8 b);
      ext_len = omega (arith, length-take 3 (drop 8 b), length-drop 8 b);
      name_bytes = All-take IsByte 8 b h;
      ext_bytes = All-take IsByte 3 (drop 8 b) (All-drop IsByte 8 b h);
      attribute_fits = at_byte (drop 11 b) 0 f;
      user_fits = at_byte (drop 11 b) 1 f;
      undelete_fits = at_byte (drop 11 b) 2 f;
      create_time_fits = get16_fits (drop 11 b) 3 f;
      create_date_fits = get16_fits (drop 11 b) 5 f;
      access_date_fits = get16_fits (drop 11 b) 7 f;
      cluster_high_fits = get16_fits (drop 11 b) 9 f;
      modified_time_fits = get16_fits (drop 11 b) 11 f;
      modified_date_fits = get16_fits (drop 11 b) 13 f;
      cluster_low_fits = get16_fits (drop 11 b) 15 f;
      filesize_fits = get32_fits (drop 11 b) 17 f;
    }

decode_entries-IsEntry :
    (n : ℕ) (b : List ℕ)
    → n * 32 ≤ length b
    → All IsByte b
    → (length (decode_entries n b) ≡ n) × All IsEntry (decode_entries n b)
unfolding decode_entries
decode_entries-IsEntry zero b len h = (refl, tt)
decode_entries-IsEntry (suc n) b len h =
    let ih : (length (decode_entries n (drop 32 b)) ≡ n)
        × All IsEntry (decode_entries n (drop 32 b)) =
      decode_entries-IsEntry n (drop 32 b) (omega (arith, length-drop 32 b))
        (All-drop IsByte 32 b h) in
    (ap suc ih.0, (decode_entry-IsEntry b (omega arith) h, ih.1))

-- Whatever a cluster holds reads as a table of 64 entries whose fields fit.
pub decode_table-IsTable : (b : List ℕ) → 2048 ≤ length b → All IsByte b → IsTable (decode_table b)
unfolding decode_table
decode_table-IsTable b len h = decode_entries-IsEntry directory_size b (omega arith) h

decode_words-encode_map :
    (n : ℕ) (cluster_map : List ℕ)
    → length cluster_map ≡ n
    → All IsWord cluster_map
    → decode_words n (encode_map cluster_map) ≡ cluster_map
unfolding decode_words encode_map
decode_words-encode_map zero [] h v = refl
decode_words-encode_map zero (w ∷ cluster_map) h v = absurd (omega arith)
decode_words-encode_map (suc n) [] h v = absurd (omega arith)
decode_words-encode_map (suc n) (w ∷ cluster_map) h v =
    ap₂ ◌∷◌ (word32 w v.0) (decode_words-encode_map n cluster_map (omega arith) v.1)

-- A map of 512 words of 32 bits survives the way to bytes and back.
pub decode_map-encode_map :
    (cluster_map : List ℕ) → IsMap cluster_map → decode_map (encode_map cluster_map) ≡ cluster_map
unfolding decode_map
decode_map-encode_map cluster_map v = decode_words-encode_map cluster_map_size cluster_map v.0 v.1

pub length-encode_map :
    (cluster_map : List ℕ) → length (encode_map cluster_map) ≡ 4 * length cluster_map
unfolding encode_map
length-encode_map [] = refl
length-encode_map (w ∷ cluster_map) = omega (arith, length-encode_map cluster_map)

pub encode_map-bytes : (cluster_map : List ℕ) → All IsByte (encode_map cluster_map)
unfolding encode_map
encode_map-bytes [] = tt
encode_map-bytes (w ∷ cluster_map) =
    (omega arith, (omega arith, (omega arith, (omega arith, encode_map-bytes cluster_map))))
