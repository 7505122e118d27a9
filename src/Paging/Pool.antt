-- ===== src/Paging/Pool.antt =====
-- The pool of page directories of src/paging.c: its form, creation and freeing.
use os_2024_ususbuntu_with_s.Prelude.{
  ℕ, zero, suc, ◌+◌, ◌<◌, ◌≤◌, ◌≡◌, ◌≢◌, refl, sym, ap, ◌∙◌, inl, inr, subst, Bool, true, false,
  Bool-cases, List, [], ◌∷◌, none, some, Option-cases, arith, length, get_or, set, replicate,
  lt→ltb, get_or-set_self, get_or-set_ne, length-set, length-replicate, set-set, ℕ_discrete, All,
  All-set, All-get_or,
}
use os_2024_ususbuntu_with_s.Paging.{
  PageDirectory, PageDirectoryEntry, PageDirectoryEntryFlag, Paging, page_entry_count,
  paging_directory_table_max_count, empty_entry, kernel_entry, empty_directory, clear_entries,
  unused_loop, paging_create_new_page_directory, paging_free_page_directory,
}

-- What the search for an unused slot finds.
record FirstUnused (used : List Bool) (lo i : ℕ) : Type 0 where
  low : lo ≤ i
  unused : get_or used i false ≡ false
  before : (j : ℕ) → lo ≤ j → j < i → get_or used j false ≡ true

unused_loop-FirstUnused :
    (rounds lo : ℕ) (used : List Bool) (i : ℕ)
    → unused_loop rounds lo used ≡ some i
    → FirstUnused used lo i × (i < lo + rounds)
unfolding unused_loop
unused_loop-FirstUnused zero lo used i h = absurd (ground (arith, h))
unused_loop-FirstUnused (suc rounds) lo used i h = elim (Bool-cases (get_or used lo false)) [
  | inl e ↦
      let (r, hi) = unused_loop-FirstUnused rounds (lo + 1) used i (ground (arith, e, h)) in
      (
        record {
          low = omega (arith, r.low);
          unused = r.unused;
          before = λ j a b. elim (ℕ_discrete lo j) [
            | yes eq ↦ subst (λ x. get_or used x false ≡ true) eq e
            | no ne ↦ r.before j (omega arith) b
          ];
        },
        omega (arith, hi),
      )
  | inr e ↦
      let eq : lo ≡ i = ground (arith, e, h) in
      (
        record {
          low = omega (arith, eq);
          unused = subst (λ x. get_or used x false ≡ false) eq e;
          before = λ j a b. absurd (omega (arith, eq));
        },
        omega (arith, eq),
      )
]

unused_loop-none :
    (rounds lo : ℕ) (used : List Bool)
    → unused_loop rounds lo used ≡ none
    → (j : ℕ) → lo ≤ j
    → j < lo + rounds
    → get_or used j false ≡ true
unfolding unused_loop
unused_loop-none zero lo used h j a b = absurd (omega arith)
unused_loop-none (suc rounds) lo used h j a b = elim (Bool-cases (get_or used lo false)) [
  | inl e ↦ elim (ℕ_discrete lo j) [
    | yes eq ↦ subst (λ x. get_or used x false ≡ true) eq e
    | no ne ↦
        unused_loop-none rounds (lo + 1) used (ground (arith, e, h)) j (omega arith) (omega arith)
  ]
  | inr e ↦ absurd (ground (arith, e, h))
]

abbrev pub present : PageDirectory → ℕ → Bool
present d k = (get_or d k empty_entry).flag.present_bit

length-clear_entries : (d : PageDirectory) → length (clear_entries d) ≡ length d
unfolding clear_entries
length-clear_entries [] = refl
length-clear_entries (e ∷ d) = ap suc (length-clear_entries d)

clear_entries-present : (d : PageDirectory) (k : ℕ) → present (clear_entries d) k ≡ false
unfolding clear_entries
clear_entries-present [] k = refl
clear_entries-present (e ∷ d) zero = refl
clear_entries-present (e ∷ d) (suc k) = clear_entries-present d k

abbrev pub directory_at : Paging → ℕ → PageDirectory
directory_at p i = get_or p.directories i empty_directory

abbrev pub is_used : Paging → ℕ → Bool
is_used p i = get_or p.page_directory_used i false

abbrev Sized : PageDirectory → Type 0
Sized d = length d ≡ page_entry_count

-- The pool has 32 directories of 1024 entries, and those that are not in use map nothing.
pub record IsPool (p : Paging) : Type 0 where
  pub directories_len : length p.directories ≡ paging_directory_table_max_count
  pub used_len : length p.page_directory_used ≡ paging_directory_table_max_count
  pub sized : All Sized p.directories
  pub clean : (i k : ℕ) → is_used p i ≡ false → present (directory_at p i) k ≡ false

pub get_or-replicate {ℓ} : {A : Type ℓ} (n k : ℕ) (a : A) → get_or (replicate n a) k a ≡ a
get_or-replicate zero k a = refl
get_or-replicate (suc n) zero a = refl
get_or-replicate (suc n) (suc k) a = get_or-replicate n k a

-- A directory and its use stored at a slot.
abbrev put : Paging → ℕ → PageDirectory → Bool → Paging
put p i d used = record p {
  directories = set p.directories i d;
  page_directory_used = set p.page_directory_used i used;
}

module _ (p : Paging) (v : IsPool p) (i : ℕ) (lt : i < paging_directory_table_max_count) where
  module _ (d : PageDirectory) (used : Bool) where
    pub put_self : (directory_at (put p i d used) i ≡ d) × (is_used (put p i d used) i ≡ used)
    put_self = (
      get_or-set_self p.directories i d empty_directory (omega (arith, v.directories_len, lt)),
      get_or-set_self p.page_directory_used i used false (omega (arith, v.used_len, lt)),
    )

    pub put-ne :
        (j : ℕ)
        → j ≢ i
        → (directory_at (put p i d used) j ≡ directory_at p j)
          × (is_used (put p i d used) j ≡ is_used p j)
    put-ne j ne = (
      get_or-set_ne p.directories i j d empty_directory (λ e. ne (sym e)),
      get_or-set_ne p.page_directory_used i j used false (λ e. ne (sym e)),
    )

    put-IsPool :
        length d ≡ page_entry_count
        → (used ≡ false → (k : ℕ) → present d k ≡ false)
        → IsPool (put p i d used)
    put-IsPool h c = record {
      directories_len = length-set p.directories i d ∙ v.directories_len;
      used_len = length-set p.page_directory_used i used ∙ v.used_len;
      sized = All-set Sized p.directories i d v.sized h;
      clean = λ j k u. elim (ℕ_discrete j i) [
        | yes e ↦
            subst (λ x. present (directory_at (put p i d used) x) k ≡ false) (sym e)
              (ap (λ x. present x k) put_self.0
                ∙ c (sym put_self.1 ∙ (ap (is_used (put p i d used)) (sym e) ∙ u)) k)
        | no ne ↦ ap (λ x. present x k) (put-ne j ne).0 ∙ v.clean j k (sym (put-ne j ne).1 ∙ u)
      ];
    }

  pub directory_at-sized : length (directory_at p i) ≡ page_entry_count
  directory_at-sized =
      All-get_or Sized p.directories i empty_directory v.sized
        (length-replicate {A = PageDirectoryEntry} page_entry_count empty_entry)

-- The kernel's two entries are put into a directory.
abbrev kernel_directory : PageDirectory → PageDirectory
kernel_directory d = set (set d 0 kernel_entry) 768 kernel_entry

-- A page directory handed out.
pub record IsNew (p : Paging) (i : ℕ) (p' : Paging) : Type 0 where
  pub low : i < paging_directory_table_max_count
  pub was_unused : is_used p i ≡ false
  pub first : (j : ℕ) → j < i → is_used p j ≡ true
  pub now_used : is_used p' i ≡ true
  pub kernel :
      (get_or (directory_at p' i) 0 empty_entry ≡ kernel_entry)
      × (get_or (directory_at p' i) 768 empty_entry ≡ kernel_entry)
  pub nothing_else : (k : ℕ) → k ≢ 0 → k ≢ 768 → present (directory_at p' i) k ≡ false
  pub others :
      (j : ℕ) → j ≢ i → (directory_at p' j ≡ directory_at p j) × (is_used p' j ≡ is_used p j)
  pub pool : IsPool p'
  pub manager : p'.manager ≡ p.manager

create-put :
    (p : Paging) (i : ℕ) (p' : Paging)
    → paging_create_new_page_directory p ≡ (some i, p')
    → (unused_loop 32 0 p.page_directory_used ≡ some i)
      × (p' ≡ put p i (kernel_directory (directory_at p i)) true)
unfolding paging_create_new_page_directory
create-put p i p' h = elim (Option-cases (unused_loop 32 0 p.page_directory_used)) [
  | inl e ↦ absurd (ground (arith, e, h))
  | inr (k, e) ↦ ground (arith, e, h)
]

module _ (p : Paging) (v : IsPool p) where
  put-IsNew :
      (i : ℕ)
      → FirstUnused p.page_directory_used 0 i
      → i < 32
      → IsNew p i (put p i (kernel_directory (directory_at p i)) true)
  put-IsNew i f lt = record {
    low = lt;
    was_unused = f.unused;
    first = λ j h. f.before j (omega arith) h;
    now_used = self.1;
    kernel = (
      ap (λ x. get_or x 0 empty_entry) self.0
          ∙ (get_or-set_ne (set d 0 kernel_entry) 768 0 kernel_entry empty_entry (omega arith)
              ∙ get_or-set_self d 0 kernel_entry empty_entry (omega (arith, sized))),
      ap (λ x. get_or x 768 empty_entry) self.0
          ∙ get_or-set_self (set d 0 kernel_entry) 768 kernel_entry empty_entry
              (omega (arith, sized, length-set d 0 kernel_entry)),
    );
    nothing_else = λ k a b.
        ap (λ x. present x k) self.0
        ∙ (ap (λ e. PageDirectoryEntryFlag.present_bit (PageDirectoryEntry.flag e))
              (get_or-set_ne (set d 0 kernel_entry) 768 k kernel_entry empty_entry (λ e. b (sym e))
                ∙ get_or-set_ne d 0 k kernel_entry empty_entry (λ e. a (sym e)))
            ∙ v.clean i k f.unused);
    others = put-ne p v i lt (kernel_directory d) true;
    pool =
        put-IsPool p v i lt (kernel_directory d) true
          (length-set (set d 0 kernel_entry) 768 kernel_entry
            ∙ (length-set d 0 kernel_entry ∙ sized))
          (λ e. absurd (ground (arith, e)));
    manager = refl;
  }
    where
      d : PageDirectory
      d = directory_at p i

      sized : length d ≡ page_entry_count
      sized = directory_at-sized p v i lt

      self :
          (directory_at (put p i (kernel_directory d) true) i ≡ kernel_directory d)
          × (is_used (put p i (kernel_directory d) true) i ≡ true)
      self = put_self p v i lt (kernel_directory d) true

  -- From a well-formed pool, a page directory that is handed out is the first unused one; it maps
  -- entries 0 and 768 to the kernel and nothing else, it is marked, the other directories stay,
  -- and the pool is well formed again.
  pub paging_create_new_page_directory-IsNew :
      (i : ℕ) (p' : Paging) → paging_create_new_page_directory p ≡ (some i, p') → IsNew p i p'
  paging_create_new_page_directory-IsNew i p' h =
      let (e, q) = create-put p i p' h in
      let (f, hi) = unused_loop-FirstUnused 32 0 p.page_directory_used i e in
      subst (IsNew p i) (sym q) (put-IsNew i f (omega (arith, hi)))

  -- In a well-formed pool, when no page directory is handed out, all 32 are in use and nothing
  -- changes.
  pub paging_create_new_page_directory-none :
      (p' : Paging)
      → paging_create_new_page_directory p ≡ (none, p')
      → (p' ≡ p) × ((j : ℕ) → j < paging_directory_table_max_count → is_used p j ≡ true)
  unfolding paging_create_new_page_directory
  paging_create_new_page_directory-none p' h =
      elim (Option-cases (unused_loop 32 0 p.page_directory_used)) [
        | inl e ↦ (
          ground (arith, e, h),
          λ j lt. unused_loop-none 32 0 p.page_directory_used e j (omega arith) (omega arith),
        )
        | inr (k, e) ↦ absurd (ground (arith, e, h))
      ]

  free-IsPool : (i : ℕ) → i < 32 → IsPool (put p i (clear_entries (directory_at p i)) false)
  free-IsPool i lt =
      put-IsPool p v i lt (clear_entries (directory_at p i)) false
        (length-clear_entries (directory_at p i) ∙ directory_at-sized p v i lt)
        (λ e. clear_entries-present (directory_at p i))

  free-put :
      (i : ℕ)
      → i < 32
      → paging_free_page_directory p (some i)
        ≡ (true, put p i (clear_entries (directory_at p i)) false)
  unfolding paging_free_page_directory
  free-put i lt = rw (lt→ltb i 32 lt) refl

create-eq :
    (p : Paging) (i : ℕ)
    → unused_loop 32 0 p.page_directory_used ≡ some i
    → paging_create_new_page_directory p
      ≡ (some i, put p i (kernel_directory (directory_at p i)) true)
unfolding paging_create_new_page_directory
create-eq p i e = rw (paging_create_new_page_directory, e) refl

set_same : (xs : List Bool) (i : ℕ) → get_or xs i false ≡ false → set xs i false ≡ xs
set_same [] i h = refl
set_same (x ∷ xs) zero h = ap (λ b. b ∷ xs) (sym h)
set_same (x ∷ xs) (suc i) h = ap (λ t. x ∷ t) (set_same xs i h)

-- A page directory given back.
pub record IsFreed (p : Paging) (i : ℕ) (p' : Paging) : Type 0 where
  pub unused : is_used p' i ≡ false
  pub unmapped : (k : ℕ) → present (directory_at p' i) k ≡ false
  pub others :
      (j : ℕ) → j ≢ i → (directory_at p' j ≡ directory_at p j) × (is_used p' j ≡ is_used p j)
  pub pool : IsPool p'
  pub used : p'.page_directory_used ≡ set p.page_directory_used i false
  pub manager : p'.manager ≡ p.manager

module _ (p : Paging) (v : IsPool p) where
  -- In a well-formed pool, freeing a directory of the list succeeds: none of its entries is
  -- present, it is unused, the other directories stay, and the pool is well formed again.
  pub paging_free_page_directory-IsFreed :
      (i : ℕ)
      → i < paging_directory_table_max_count
      → (p' : Paging) × (paging_free_page_directory p (some i) ≡ (true, p')) × IsFreed p i p'
  paging_free_page_directory-IsFreed i lt =
      let d : PageDirectory = clear_entries (directory_at p i) in
      let self : (directory_at (put p i d false) i ≡ d) × (is_used (put p i d false) i ≡ false) =
        put_self p v i lt d false in
      (
        put p i d false,
        free-put p v i lt,
        record {
          unused = self.1;
          unmapped = λ k. ap (λ x. present x k) self.0 ∙ clear_entries-present (directory_at p i) k;
          others = put-ne p v i lt d false;
          pool = free-IsPool p v i lt;
          used = refl;
          manager = refl;
        },
      )

module _ (p : Paging) (v : IsPool p) where
  -- In a well-formed pool, a page directory that is created and freed again leaves in use the
  -- directories that were in use before, and the next creation hands out the same one.
  pub paging_free_page_directory-create :
      (i : ℕ) (p' : Paging)
      → paging_create_new_page_directory p ≡ (some i, p')
      → (p'' p''' : Paging) × (paging_free_page_directory p' (some i) ≡ (true, p''))
        × (p''.page_directory_used ≡ p.page_directory_used)
        × (paging_create_new_page_directory p'' ≡ (some i, p'''))
  paging_free_page_directory-create i p' h =
      let (e, q) = create-put p i p' h in
      let n : IsNew p i p' = paging_create_new_page_directory-IsNew p v i p' h in
      let (p'', freed, f) = paging_free_page_directory-IsFreed p' n.pool i n.low in
      let used : p''.page_directory_used ≡ p.page_directory_used =
        f.used
        ∙ (ap (λ x. set (Paging.page_directory_used x) i false) q
            ∙ (set-set p.page_directory_used i true false
                ∙ set_same p.page_directory_used i n.was_unused)) in
      (
        p'',
        put p'' i (kernel_directory (directory_at p'' i)) true,
        freed,
        used,
        create-eq p'' i (ap (unused_loop 32 0) used ∙ e),
      )
