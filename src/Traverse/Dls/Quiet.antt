-- ===== src/Traverse/Dls/Quiet.antt =====
-- What the content searches of src/fat32.c leave in the buffer, and the lines that they take back.
use os_2024_ususbuntu_with_s.Prelude.{
  ℕ, zero, suc, ◌+◌, ◌≡◌, ◌≢◌, inl, inr, refl, ap, sym, ◌∙◌, subst, Bool, true, false, ◌||◌, List,
  [], ◌∷◌, Option, none, some, arith, All, Option-cases, Bool-cases, if◌then◌else◌, ◌==◌, ==-true,
  ==-false,
}
use os_2024_ususbuntu_with_s.Bytes.{memcmp, is_null}
use os_2024_ususbuntu_with_s.Fat32.Disk.{Disk}
use os_2024_ususbuntu_with_s.Fat32.Disk.Laws.{IsDisk}
use os_2024_ususbuntu_with_s.Fat32.Layout.{DirectoryEntry, DirectoryTable}
use os_2024_ususbuntu_with_s.Fat32.Driver.{DriverState, Code, unknown, code, load_table, cluster_of}
use os_2024_ususbuntu_with_s.Fat32.Directory.{dir_ext}
use os_2024_ususbuntu_with_s.Fat32.Files.{read}
use os_2024_ususbuntu_with_s.Fat32.Files.Reads.{Reads, read-Reads}
use os_2024_ususbuntu_with_s.Traverse.{
  newline, space, is_na, put_chars, put_indent, drop_line, take_back,
}
use os_2024_ususbuntu_with_s.Traverse.Dls.{
  Outcome, put_dir, txt_ext, file_request, visit_result, visit_file, visit_loop,
  depth_limited_search, search_dls,
}

-- The buffer is empty or ends with a line feed.
abbrev pub IsLineStart : List ℕ → Type 0
IsLineStart [] = Unit
IsLineStart (c ∷ out) = c ≡ newline

abbrev pub IsOneLine : DirectoryEntry → Type 0
IsOneLine e = All (λ c. c ≢ newline) e.name

-- The search descends into the entry.
abbrev pub IsVisited : DirectoryEntry → Type 0
IsVisited e = (is_na e ≡ false) × (is_null (memcmp e.ext dir_ext 3) ≡ true)

-- The directories that a table names have one-line names, and `below` holds of their clusters.
abbrev pub IsPlainTable : (ℕ → Type 0) → DirectoryTable → Type 0
IsPlainTable below [] = Unit
IsPlainTable below (e ∷ table) =
    (IsVisited e → IsOneLine e × below (cluster_of e)) × IsPlainTable below table

-- No directory that is named from the one at a cluster, down to the number of levels, has a line feed
-- in its name.
abbrev pub HasPlainNames : ℕ → Disk → ℕ → Type 0
HasPlainNames zero d c = Unit
HasPlainNames (suc levels) d c = IsPlainTable (λ k. HasPlainNames levels d k) (load_table d c)

drop_line-ne : (c : ℕ) (out : List ℕ) → c ≢ newline → drop_line (c ∷ out) ≡ drop_line out
unfolding drop_line
drop_line-ne c out ne = rw (==-false c newline ne)

drop_line-IsLineStart : (out : List ℕ) → IsLineStart out → drop_line out ≡ out
unfolding drop_line
drop_line-IsLineStart [] h = refl
drop_line-IsLineStart (c ∷ out) h = rw (==-true c newline h)

drop_line-put_chars :
    (n : ℕ) (s out : List ℕ)
    → All (λ c. c ≢ newline) s
    → drop_line (put_chars n s out) ≡ drop_line out
unfolding put_chars
drop_line-put_chars zero s out h = refl
drop_line-put_chars (suc n) [] out h = refl
drop_line-put_chars (suc n) (c ∷ s) out h = elim (Bool-cases (c == 0)) [
  | inl e ↦ rw e
  | inr e ↦ rw e (drop_line-put_chars n s (c ∷ out) h.1 ∙ drop_line-ne c out h.0)
]

drop_line-put_indent : (level : ℕ) (out : List ℕ) → drop_line (put_indent level out) ≡ drop_line out
unfolding put_indent
drop_line-put_indent zero out = refl
drop_line-put_indent (suc level) out =
    drop_line-put_indent level (space ∷ (space ∷ (space ∷ out)))
    ∙ drop_line-ne space (space ∷ (space ∷ out)) (omega arith)
    ∙ drop_line-ne space (space ∷ out) (omega arith)
    ∙ drop_line-ne space out (omega arith)

-- Taking a directory's line back leaves the buffer as it was before the line.
take_back-put_dir :
    (e : DirectoryEntry) (level : ℕ) (out : List ℕ)
    → IsOneLine e
    → IsLineStart out
    → take_back (put_dir e level out) ≡ out
unfolding take_back
take_back-put_dir e level out one start =
    drop_line-ne b'/' (put_chars 8 e.name (put_indent level out)) (omega arith)
    ∙ drop_line-put_chars 8 e.name (put_indent level out) one
    ∙ drop_line-put_indent level out
    ∙ drop_line-IsLineStart out start

-- What a search from a buffer `out` leaves: the disk, whole lines, and if it found nothing, `out`.
abbrev IsQuiet : Disk → List ℕ → Option Outcome → Type 0
IsQuiet d out none = Unit
IsQuiet d out (some r) = (r.state.disk ≡ d) × IsLineStart r.out × (r.found ≡ false → r.out ≡ out)

or-false : (a b : Bool) → (a || b) ≡ false → (a ≡ false) × (b ≡ false)
or-false true b h = cc
or-false false b h = (refl, h)

-- Keeping a found line, or taking it back.
kept :
    (f : Bool) (x line out : List ℕ)
    → IsLineStart x
    → (f ≡ false → x ≡ line)
    → take_back line ≡ out
    → IsLineStart out
    → IsLineStart (if f then x else take_back x)
      × (f ≡ false → (if f then x else take_back x) ≡ out)
kept true x line out h e t start = (h, λ k. cc)
kept false x line out h e t start =
    (subst IsLineStart (sym (ap take_back (e refl) ∙ t)) start, λ k. ap take_back (e refl) ∙ t)

module _ (matches : List ℕ → Bool) (d : Disk) (whole : IsDisk d) where
  -- Between the entries: `before` is the buffer at the start of the loop.
  record Between (before : List ℕ) (local : Bool) (o : Outcome) : Type 0 where
    disk : o.state.disk ≡ d
    start : IsLineStart o.out
    quiet : o.found ≡ false → local ≡ false → o.out ≡ before

  abbrev BetweenSome : List ℕ → Bool → Option Outcome → Type 0
  BetweenSome before local none = Unit
  BetweenSome before local (some r) = Between before local r

  visit_result-Between :
      (e : DirectoryEntry) (level : ℕ) (before : List ℕ) (local : Bool) (o : Outcome)
      (r : Option (Code × DriverState × List ℕ))
      → Between before local o
      → Reads o.state r
      → BetweenSome before local (visit_result matches e level o r)
  unfolding visit_result
  visit_result-Between e level before local o none b h = tt
  visit_result-Between e level before local o (some (code zero, s, content)) b h =
      elim (Bool-cases (matches content)) [
        | inl m ↦ rw m (record { disk = h.0 ∙ b.disk; start = refl; quiet = λ f k. cc })
        | inr m ↦ rw m (record { disk = h.0 ∙ b.disk; start = b.start; quiet = b.quiet })
      ]
  visit_result-Between e level before local o (some (code (suc c), s, content)) b h = record {
    disk = h.0 ∙ b.disk;
    start = b.start;
    quiet = b.quiet;
  }
  visit_result-Between e level before local o (some (unknown, s, content)) b h = record {
    disk = h.0 ∙ b.disk;
    start = b.start;
    quiet = b.quiet;
  }

  abbrev IsQuietBelow : (ℕ → Type 0) → (ℕ → Outcome → Option Outcome) → Type 0
  IsQuietBelow plain descend =
      (c : ℕ) (o : Outcome)
      → plain c
      → o.state.disk ≡ d
      → IsLineStart o.out
      → IsQuiet d o.out (descend c o)

  -- After a directory: its line is kept or taken back.
  after_dir :
      (e : DirectoryEntry) (level : ℕ) (before : List ℕ) (local : Bool) (o r : Outcome)
      → IsOneLine e
      → Between before local o
      → IsQuiet d (put_dir e level o.out) (some r)
      → Between before
          (local || o.found)
          (record r { out = if r.found then r.out else take_back r.out })
  after_dir e level before local o r one b h =
      let k : IsLineStart (if r.found then r.out else take_back r.out)
          × (r.found ≡ false → (if r.found then r.out else take_back r.out) ≡ o.out) =
        kept r.found r.out (put_dir e level o.out) o.out h.1 h.2
          (take_back-put_dir e level o.out one b.start) b.start in
      record {
        disk = h.0;
        start = k.0;
        quiet = λ f l. k.1 f ∙ b.quiet (or-false local o.found l).1 (or-false local o.found l).0;
      }

  module _ (plain : ℕ → Type 0) (descend : ℕ → Outcome → Option Outcome)
      (below : IsQuietBelow plain descend) (n level : ℕ) where
    visit_loop-IsQuiet :
        (table : DirectoryTable) (before : List ℕ) (local : Bool) (o : Outcome)
        → IsPlainTable plain table
        → Between before local o
        → IsQuiet d before (visit_loop matches descend n level table local o)
    unfolding visit_loop visit_file
    visit_loop-IsQuiet [] before local o one b =
        (b.disk, b.start, λ f. b.quiet (or-false local o.found f).1 (or-false local o.found f).0)
    visit_loop-IsQuiet (e ∷ table) before local o one b = elim (Bool-cases (is_na e)) [
      | inl a ↦ rw (a, visit_loop) (visit_loop-IsQuiet table before local o one.1 b)
      | inr a ↦ elim (Bool-cases (is_null (memcmp e.ext dir_ext 3))) [
        | inl x ↦
            let o' : Outcome = record o { out = put_dir e level o.out } in
            elim (Option-cases (descend (cluster_of e) o')) [
              | inl k ↦ rw (a, x, k, visit_loop) tt
              | inr (r, k) ↦
                  rw (a, x, k, visit_loop)
                    (visit_loop-IsQuiet table before (local || o.found)
                      (record r { out = if r.found then r.out else take_back r.out }) one.1
                      (after_dir e level before local o r (one.0 (a, x)).0 b (
                        subst (IsQuiet d (put_dir e level o.out)) k
                          (below (cluster_of e) o' (one.0 (a, x)).1 b.disk refl))))
            ]
        | inr x ↦ elim (Bool-cases (is_null (memcmp e.ext txt_ext 3))) [
          | inr y ↦ rw (a, x, y, visit_loop) (visit_loop-IsQuiet table before local o one.1 b)
          | inl y ↦
              elim (Option-cases
                (visit_result matches e level o (read o.state (file_request e n)))) [
                  | inl k ↦ rw (a, x, y, k, visit_loop, visit_file) tt
                  | inr (r, k) ↦
                      rw (a, x, y, k, visit_loop, visit_file)
                        (visit_loop-IsQuiet table before local r one.1 (
                          subst (BetweenSome before local) k (
                            visit_result-Between e level before local o
                              (read o.state (file_request e n)) b
                              (read-Reads o.state (file_request e n)
                                (subst IsDisk (sym b.disk) whole)))))
                ]
        ]
      ]
    ]

  depth_limited_search-IsQuiet :
      (left level c : ℕ) (o : Outcome)
      → HasPlainNames left d c
      → o.state.disk ≡ d
      → IsLineStart o.out
      → IsQuiet d o.out (depth_limited_search matches left level c o)
  unfolding depth_limited_search
  depth_limited_search-IsQuiet zero level c o plain e start = (e, start, λ f. refl)
  depth_limited_search-IsQuiet (suc left) level c o plain e start =
      visit_loop-IsQuiet (λ k. HasPlainNames left d k)
        (depth_limited_search matches left (level + 1))
        (λ k r p same begin. depth_limited_search-IsQuiet left (level + 1) k r p same begin) c level
        (load_table o.state.disk c) o.out false (record o { found = false })
        (subst (λ x. IsPlainTable (λ k. HasPlainNames left d k) (load_table x c)) (sym e) plain)
        (record { disk = e; start = start; quiet = λ f l. refl })

-- On a disk of whole blocks of bytes, with no line feed in the name of any directory that is named
-- from the starting one on, down to the 11 levels of the search, a content search that ends leaves
-- the disk alone, and one that finds nothing leaves the buffer empty.
pub search_dls-IsQuiet :
    (matches : List ℕ → Bool) (s : DriverState) (dir_cluster_number : ℕ) (r : Outcome)
    → IsDisk s.disk
    → HasPlainNames 11 s.disk dir_cluster_number
    → search_dls matches s dir_cluster_number ≡ some r
    → (r.state.disk ≡ s.disk) × (r.found ≡ false → r.out ≡ [])
unfolding search_dls
search_dls-IsQuiet matches s c r whole plain h =
    let q : IsQuiet s.disk [] (some r) = subst (IsQuiet s.disk []) h (
      depth_limited_search-IsQuiet matches s.disk whole 11 0 c
        (record { state = s; out = []; found = false }) plain refl tt) in
    (q.0, q.2)
