-- ===== src/Paging/Frames.antt =====
-- The user page frames of src/paging.c: allocating and freeing one.
use os_2024_ususbuntu_with_s.Prelude.{
  ℕ, ◌+◌, ◌-◌, ◌<◌, ◌≤◌, ◌≡◌, refl, ap, ◌∙◌, Bool, true, false, none, some, arith, length, get_or,
  set, get_or-set_self, get_or-set_ne, length-set, ltb, leb, lt→ltb, ◌%◌,
}
use os_2024_ususbuntu_with_s.Paging.{
  PageDirectoryEntry, PageDirectory, PageManagerState, FrameResult, page_frame_max_count,
  page_entry_count, user_flag, empty_flag, empty_entry, frame_index, update_page_directory_entry,
  paging_allocate_check, mark_frame, paging_allocate_user_page_frame, paging_free_user_page_frame,
}
use os_2024_ususbuntu_with_s.Paging.Laws.{
  entry_of, frame_index-lt, update_page_directory_entry-entry_of,
}

-- The map has its 32 entries and the count is at most 32.
pub record IsManager (m : PageManagerState) : Type 0 where
  pub sized : length m.page_frame_map ≡ page_frame_max_count
  pub counted : m.free_page_frame_count ≤ page_frame_max_count

pub record Allocation (m : PageManagerState) (d : PageDirectory) (a : ℕ) (r : FrameResult)
    : Type 0 where
  pub succeeds : r.success ≡ true
  pub manager : IsManager r.manager
  pub count : r.manager.free_page_frame_count + 1 ≡ m.free_page_frame_count
  pub marked :
      get_or r.manager.page_frame_map (page_frame_max_count - m.free_page_frame_count) false ≡ true
  pub mapped : (entry_of r.page_dir a).flag ≡ user_flag
  pub frame_0 : (entry_of r.page_dir a).lower_address ≡ 0
  pub kept : length r.page_dir ≡ page_entry_count

module _ (m : PageManagerState) (v : IsManager m) where
  mark_frame-some :
      (used : Bool)
      → 0 < m.free_page_frame_count
      → mark_frame m used
        ≡ some record m {
          page_frame_map =
              set m.page_frame_map (page_frame_max_count - m.free_page_frame_count) used;
        }
  unfolding mark_frame
  mark_frame-some used h = rw (index, ltb-true) refl
    where
      index :
          (32 + 4294967296 - m.free_page_frame_count) % 4294967296 ≡ 32 - m.free_page_frame_count
      index = omega (arith, v.counted)

      ltb-true : ltb (32 - m.free_page_frame_count) 32 ≡ true
      ltb-true = lt→ltb (32 - m.free_page_frame_count) 32 (omega (arith, v.counted))

  module _ (d : PageDirectory) (sized : length d ≡ page_entry_count) (a : ℕ) where
    allocated_manager : PageManagerState
    allocated_manager = record m {
      page_frame_map = set m.page_frame_map (page_frame_max_count - m.free_page_frame_count) true;
      free_page_frame_count = m.free_page_frame_count - 1;
    }

    allocated : FrameResult
    allocated = record {
      manager = allocated_manager;
      page_dir = update_page_directory_entry d m.free_page_frame_count a user_flag;
      success = true;
    }

    allocate-eq :
        0 < m.free_page_frame_count → paging_allocate_user_page_frame m d a ≡ some allocated
    unfolding paging_allocate_user_page_frame paging_allocate_check allocated allocated_manager
    allocate-eq h = rw (leb_self, mark_frame-some true h, count) refl
      where
        leb_self : leb m.free_page_frame_count m.free_page_frame_count ≡ true
        leb_self = ground arith

        count :
            (m.free_page_frame_count + 4294967296 - 1) % 4294967296 ≡ m.free_page_frame_count - 1
        count = omega (arith, v.counted, h)

    frame_index-small : frame_index m.free_page_frame_count ≡ 0
    unfolding frame_index
    frame_index-small = omega (arith, v.counted)

    allocated-Allocation : 0 < m.free_page_frame_count → Allocation m d a allocated
    unfolding allocated allocated_manager
    allocated-Allocation h =
        let (mapped, others, kept) =
          update_page_directory_entry-entry_of d sized m.free_page_frame_count a user_flag in
        record {
          succeeds = refl;
          manager = record {
            sized =
                length-set m.page_frame_map (page_frame_max_count - m.free_page_frame_count) true
                ∙ v.sized;
            counted = omega (arith, v.counted);
          };
          count = omega (arith, h);
          marked =
              get_or-set_self m.page_frame_map (page_frame_max_count - m.free_page_frame_count) true
                false (omega (arith, v.sized, h));
          mapped = (mapped a refl).0;
          frame_0 = (mapped a refl).1 ∙ frame_index-small;
          kept = kept;
        }

    -- In a directory of 1024 entries and with at least one and at most 32 free frames, allocating
    -- a frame succeeds, takes one off the count, marks the frame whose number is the number of
    -- used ones, and gives the virtual page the user flags; the frame that it maps is always frame
    -- 0.
    pub paging_allocate_user_page_frame-Allocation :
        0 < m.free_page_frame_count
        → (r : FrameResult) × (paging_allocate_user_page_frame m d a ≡ some r) × Allocation m d a r
    paging_allocate_user_page_frame-Allocation h =
        (allocated, allocate-eq h, allocated-Allocation h)

    -- Without a free frame the allocation is not refused: it writes past the map.
    pub paging_allocate_user_page_frame-none :
        m.free_page_frame_count ≡ 0 → paging_allocate_user_page_frame m d a ≡ none
    unfolding paging_allocate_user_page_frame paging_allocate_check mark_frame
    paging_allocate_user_page_frame-none h = ground arith

-- What freeing a frame leaves, `i` being the index that it marks as free.
pub record Freed (m : PageManagerState) (i : ℕ) (a : ℕ) (r : FrameResult) : Type 0 where
  pub count : r.manager.free_page_frame_count ≡ m.free_page_frame_count + 1
  pub frames : r.manager.page_frame_map ≡ set m.page_frame_map i false
  pub unmapped : (entry_of r.page_dir a).flag ≡ empty_flag
  pub no_frame : (entry_of r.page_dir a).lower_address ≡ 0

module _ (m : PageManagerState) (v : IsManager m) (d : PageDirectory)
    (sized : length d ≡ page_entry_count) (a : ℕ) where
  freed_entry : PageDirectoryEntry
  freed_entry = record (entry_of d a) { flag = empty_flag; lower_address = 0 }

  freed : FrameResult
  freed = record {
    manager = record m {
      page_frame_map = set m.page_frame_map (page_frame_max_count - m.free_page_frame_count) false;
      free_page_frame_count = m.free_page_frame_count + 1;
    };
    page_dir = set d (frame_index a) freed_entry;
    success = true;
  }

  free-eq : 0 < m.free_page_frame_count → paging_free_user_page_frame m d a ≡ some freed
  unfolding paging_free_user_page_frame freed freed_entry
  free-eq h = rw (paging_free_user_page_frame, mark_frame-some m v false h, count) refl
    where
      count : (m.free_page_frame_count + 1) % 4294967296 ≡ m.free_page_frame_count + 1
      count = omega (arith, v.counted)

  freed-Freed : Freed m (page_frame_max_count - m.free_page_frame_count) a freed
  unfolding freed freed_entry
  freed-Freed = record {
    count = refl;
    frames = refl;
    unmapped = ap (λ x. PageDirectoryEntry.flag x) self;
    no_frame = ap (λ x. PageDirectoryEntry.lower_address x) self;
  }
    where
      self : get_or (set d (frame_index a) freed_entry) (frame_index a) empty_entry ≡ freed_entry
      self =
          get_or-set_self d (frame_index a) freed_entry empty_entry
            (omega (arith, sized, frame_index-lt a))

-- A frame allocated and then freed.
pub record Returned (m : PageManagerState) (a : ℕ) (r : FrameResult) : Type 0 where
  pub count : r.manager.free_page_frame_count ≡ m.free_page_frame_count
  pub unmapped : (entry_of r.page_dir a).flag ≡ empty_flag
  pub no_frame : (entry_of r.page_dir a).lower_address ≡ 0
  pub still_marked :
      get_or r.manager.page_frame_map (page_frame_max_count - m.free_page_frame_count) false ≡ true

module _ (m : PageManagerState) (v : IsManager m) (d : PageDirectory)
    (sized : length d ≡ page_entry_count) (a : ℕ) where
  -- In a directory of 1024 entries and with at least two and at most 32 free frames, allocating a
  -- virtual page and freeing it gives the count back and unmaps the page, but the map entry that
  -- the allocation marked stays marked.
  pub paging_free_user_page_frame-allocate :
      1 < m.free_page_frame_count
      → (r r' : FrameResult) × (paging_allocate_user_page_frame m d a ≡ some r)
        × (paging_free_user_page_frame r.manager r.page_dir a ≡ some r')
        × Returned m a r'
  paging_free_user_page_frame-allocate h =
      let (r, e, p) = paging_allocate_user_page_frame-Allocation m v d sized a (omega arith) in
      (
        r,
        freed r.manager p.manager r.page_dir p.kept a,
        e,
        free-eq r.manager p.manager r.page_dir p.kept a (omega (arith, p.count)),
        returned r p (freed-Freed r.manager p.manager r.page_dir p.kept a),
      )
    where
      returned :
          (r : FrameResult)
          → Allocation m d a r
          → {r' : FrameResult}
          → Freed r.manager (page_frame_max_count - r.manager.free_page_frame_count) a r'
          → Returned m a r'
      returned r p f = record {
        count = f.count ∙ p.count;
        unmapped = f.unmapped;
        no_frame = f.no_frame;
        still_marked =
            ap (λ x. get_or x (page_frame_max_count - m.free_page_frame_count) false) f.frames
            ∙ (get_or-set_ne r.manager.page_frame_map
                  (page_frame_max_count - r.manager.free_page_frame_count)
                  (page_frame_max_count - m.free_page_frame_count) false false
                  (omega (arith, p.count, h, v.counted))
                ∙ p.marked);
      }
