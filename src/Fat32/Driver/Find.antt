-- ===== src/Fat32/Driver/Find.antt =====
-- The search of a table for a name (src/fat32.c), also after a write to the table.
use os_2024_ususbuntu_with_s.Prelude.{
  ℕ, zero, suc, ◌<◌, ◌≡◌, ◌≢◌, refl, true, false, List, [], ◌∷◌, none, some, arith, length, set,
}
use os_2024_ususbuntu_with_s.Bytes.Compare.{memcmp_self}
use os_2024_ususbuntu_with_s.Fat32.Layout.{DirectoryEntry, DirectoryTable, entry_at}
use os_2024_ususbuntu_with_s.Fat32.Driver.{is_match, find_match}

pub is_match_self :
    (e : DirectoryEntry) (name ext : List ℕ)
    → e.name ≡ name
    → e.ext ≡ ext
    → is_match e name ext ≡ true
unfolding is_match
is_match_self e name ext p q = rw (p, q, memcmp_self name 8, memcmp_self ext 3)

module _ (name ext : List ℕ) where
  -- What the search finds matches, and lies in the table.
  pub find_match-some :
      (t : DirectoryTable) (i : ℕ)
      → find_match t name ext ≡ some i
      → (i < length t) × (is_match (entry_at t i) name ext ≡ true)
  unfolding find_match
  find_match-some [] i h = cc
  find_match-some (e ∷ t) zero h = ground arith
  find_match-some (e ∷ t) (suc i) h = ground (arith, find_match-some t i)

  -- If nothing matches, an entry that does match is found where it is put.
  pub find_match-set :
      (t : DirectoryTable) (i : ℕ) (v : DirectoryEntry)
      → i < length t
      → find_match t name ext ≡ none
      → is_match v name ext ≡ true
      → find_match (set t i v) name ext ≡ some i
  unfolding find_match
  find_match-set [] i v h n m = absurd (omega arith)
  find_match-set (e ∷ t) zero v h n m = rw m
  find_match-set (e ∷ t) (suc i) v h n m = ground (arith, find_match-set t i v)

  -- Nothing matches a table without a match after an entry that does not match is put into it.
  pub find_match-set-none :
      (t : DirectoryTable) (i : ℕ) (v : DirectoryEntry)
      → find_match t name ext ≡ none
      → is_match v name ext ≡ false
      → find_match (set t i v) name ext ≡ none
  unfolding find_match
  find_match-set-none [] i v n m = refl
  find_match-set-none (e ∷ t) zero v n m = ground arith
  find_match-set-none (e ∷ t) (suc i) v n m = ground (arith, find_match-set-none t i v)

  -- What is found stays found when an entry that does not match is put elsewhere.
  pub find_match-set_ne :
      (t : DirectoryTable) (i j : ℕ) (v : DirectoryEntry)
      → find_match t name ext ≡ some i
      → j ≢ i
      → is_match v name ext ≡ false
      → find_match (set t j v) name ext ≡ some i
  unfolding find_match
  find_match-set_ne [] i j v h ne m = cc
  find_match-set_ne (e ∷ t) zero zero v h ne m = absurd (ne refl)
  find_match-set_ne (e ∷ t) zero (suc j) v h ne m = ground arith
  find_match-set_ne (e ∷ t) (suc i) zero v h ne m = ground arith
  find_match-set_ne (e ∷ t) (suc i) (suc j) v h ne m = ground (arith, find_match-set_ne t i j v)
