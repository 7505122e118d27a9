-- ===== src/Process/Pages.antt =====
-- The loop of `process_create_user_process` (src/process.c) that maps the pages of a new process.
use os_2024_ususbuntu_with_s.Prelude.{
  ℕ, zero, suc, ◌+◌, ◌*◌, ◌<◌, ◌≤◌, ◌≡◌, ◌≢◌, ◌⊎◌, inl, inr, refl, sym, ap, ◌∙◌, false, true, arith,
  set, get_or, length, length-set, get_or-set_self, get_or-set_ne, ℕ_discrete,
}
use os_2024_ususbuntu_with_s.Paging.{
  PageDirectory, PageDirectoryEntry, Paging, empty_entry, empty_directory, user_flag, frame_index,
  page_frame_size, page_entry_count, paging_directory_table_max_count, update_page_directory_entry,
  kernel_entry,
}
use os_2024_ususbuntu_with_s.Paging.Pool.{IsNew, directory_at, directory_at-sized, is_used, present}
use os_2024_ususbuntu_with_s.Process.{map_loop, kernel_virtual_address_base}

page_of :
    (i : ℕ) → i < 256 → frame_index (kernel_virtual_address_base + i * page_frame_size) ≡ 768 + i
unfolding frame_index
page_of i h = omega (arith, h)

frame_of : (i : ℕ) → i < 256 → frame_index (i * page_frame_size) ≡ i
unfolding frame_index
frame_of i h = omega (arith, h)

-- The pages `i` to `i + rounds` of the higher half are mapped for the user.
pub record IsMapped (rounds i : ℕ) (d d' : PageDirectory) : Type 0 where
  pub own :
      (k : ℕ)
      → i ≤ k
      → k < i + rounds
      → ((get_or d' (768 + k) empty_entry).flag ≡ user_flag)
        × ((get_or d' (768 + k) empty_entry).lower_address ≡ k)
  pub other :
      (j : ℕ)
      → (j < 768 + i) ⊎ (768 + i + rounds ≤ j)
      → get_or d' j empty_entry ≡ get_or d j empty_entry

-- The entry of one round.
abbrev fresh : PageDirectory → ℕ → PageDirectoryEntry
fresh d i = record (get_or d (768 + i) empty_entry) { flag = user_flag; lower_address = i }

update-fresh :
    (d : PageDirectory) (i : ℕ)
    → i < 256
    → update_page_directory_entry d
        (i * page_frame_size)
        (kernel_virtual_address_base + i * page_frame_size)
        user_flag
      ≡ set d (768 + i) (fresh d i)
unfolding update_page_directory_entry
update-fresh d i h = rw (page_of i h, frame_of i h) refl

pub map_loop-IsMapped :
    (rounds i : ℕ) (d : PageDirectory)
    → length d ≡ page_entry_count
    → i + rounds ≤ 256
    → IsMapped rounds i d (map_loop rounds i d)
unfolding map_loop
map_loop-IsMapped zero i d sized h = record {
  own = λ k a b. absurd (omega (arith, a, b));
  other = λ j o. refl;
}
map_loop-IsMapped (suc rounds) i d sized h =
    let d' = set d (768 + i) (fresh d i) in
    let ih : IsMapped rounds (i + 1) d' (map_loop rounds (i + 1) d') =
      map_loop-IsMapped rounds (i + 1) d' (length-set d (768 + i) (fresh d i) ∙ sized)
        (omega (arith, h)) in
    let self : get_or d' (768 + i) empty_entry ≡ fresh d i =
      get_or-set_self d (768 + i) (fresh d i) empty_entry (omega (arith, sized, h)) in
    rw (update-fresh d i (omega (arith, h))) (record {
      own = λ k a b. elim (ℕ_discrete k i) [
        | yes e ↦
            let here : get_or (map_loop rounds (i + 1) d') (768 + k) empty_entry ≡ fresh d i =
              ih.other (768 + k) (inl (omega (arith, e)))
              ∙ ap (λ x. get_or d' (768 + x) empty_entry) e
              ∙ self in
            (
              ap (λ x. PageDirectoryEntry.flag x) here,
              ap (λ x. PageDirectoryEntry.lower_address x) here ∙ sym e,
            )
        | no ne ↦ ih.own k (omega (arith, a, ne)) (omega (arith, b))
      ];
      other = λ j o.
          ih.other j (elim o [ inl a ↦ inl (omega (arith, a)) | inr b ↦ inr (omega (arith, b)) ])
          ∙ get_or-set_ne d (768 + i) j (fresh d i) empty_entry
              (elim o [ inl a ↦ λ e. omega (arith, a, e) | inr b ↦ λ e. omega (arith, b, e) ]);
    })

-- The paging with the pages of a process mapped in directory `d`.
abbrev pub mapped : Paging → ℕ → ℕ → Paging
mapped paging d frames = record paging {
  directories = set paging.directories d (map_loop frames 0 (directory_at paging d));
}

-- A directory that was unused is used, has the kernel's entry at 0, and maps the first `frames` pages
-- of the higher half for the user, page `m` to physical frame `m`, and nothing else. The other
-- directories and the frames' bookkeeping are as before.
pub record IsTaken (frames : ℕ) (p : Paging) (d : ℕ) (p' : Paging) : Type 0 where
  pub low : d < paging_directory_table_max_count
  pub was_unused : is_used p d ≡ false
  pub now_used : is_used p' d ≡ true
  pub kernel : get_or (directory_at p' d) 0 empty_entry ≡ kernel_entry
  pub pages :
      (m : ℕ)
      → m < frames
      → ((get_or (directory_at p' d) (768 + m) empty_entry).flag ≡ user_flag)
        × ((get_or (directory_at p' d) (768 + m) empty_entry).lower_address ≡ m)
  pub nothing_else :
      (j : ℕ)
      → j ≢ 0
      → j ≢ 768
      → (j < 768) ⊎ (768 + frames ≤ j)
      → present (directory_at p' d) j ≡ false
  pub others :
      (j : ℕ) → j ≢ d → (directory_at p' j ≡ directory_at p j) × (is_used p' j ≡ is_used p j)
  pub manager : p'.manager ≡ p.manager

pub mapped-IsTaken :
    (frames : ℕ) (p : Paging) (d : ℕ) (p' : Paging)
    → frames ≤ 256
    → IsNew p d p'
    → IsTaken frames p d (mapped p' d frames)
mapped-IsTaken frames p d p' few n =
    let dir = directory_at p' d in
    let after = map_loop frames 0 dir in
    let self : directory_at (mapped p' d frames) d ≡ after =
      get_or-set_self p'.directories d after empty_directory
        (omega (arith, n.low, n.pool.directories_len)) in
    let m : IsMapped frames 0 dir after =
      map_loop-IsMapped frames 0 dir (directory_at-sized p' n.pool d (omega (arith, n.low)))
        (omega (arith, few)) in
    record {
      low = n.low;
      was_unused = n.was_unused;
      now_used = n.now_used;
      kernel = ap (λ x. get_or x 0 empty_entry) self ∙ m.other 0 (inl (omega arith)) ∙ n.kernel.0;
      pages = λ k h. rw self (m.own k (omega arith) (omega (arith, h)));
      nothing_else = λ j a b c.
          ap (λ x. present x j) self
          ∙ ap (λ e. e.flag.present_bit) (m.other j c)
          ∙ n.nothing_else j a b;
      others = λ j ne. (
        get_or-set_ne p'.directories d j after empty_directory (λ e. ne (sym e))
            ∙ (n.others j ne).0,
        (n.others j ne).1,
      );
      manager = n.manager;
    }
