-- ===== src/Process/Create.antt =====
-- `process_create_user_process` (src/process.c): what a successful creation has checked, and the
-- process that it leaves.
use os_2024_ususbuntu_with_s.Prelude.{
  ℕ, ◌+◌, ◌%◌, ◌^◌, ◌<◌, ◌≤◌, ◌≡◌, ◌≢◌, ap, sym, subst, ◌∙◌, inl, inr, zero, suc, none, some,
  Option-cases, arith, set, ℕ_discrete, List,
}
use os_2024_ususbuntu_with_s.Fat32.Driver.{DriverState, code, unknown}
use os_2024_ususbuntu_with_s.Fat32.Files.{read}
use os_2024_ususbuntu_with_s.Paging.{
  Paging, paging_create_new_page_directory, paging_allocate_check,
}
use os_2024_ususbuntu_with_s.Paging.Pool.{IsPool, IsNew, paging_create_new_page_directory-IsNew}
use os_2024_ususbuntu_with_s.Process.{
  Kernel, Context, ProcessControlBlock, ProcessRequest, process_ready, pcb_at, pid_loop,
  process_count_max, process_list_get_pcb_by_pid, process_list_get_inactive_index, new_pcb,
  frames_needed, load_process, launched, process_create_user_process, process_page_frame_count_max,
  kernel_virtual_address_base,
}
use os_2024_ususbuntu_with_s.Process.Pages.{mapped, IsTaken, mapped-IsTaken}
use os_2024_ususbuntu_with_s.Process.Invariant.{
  IsProcessList, pid_loop-some, pid_loop-found, pcb_at_self, pcb_at-ne, set-IsProcessList,
}

-- The process list and the counters after the process is loaded into slot `i` with directory `d`.
abbrev after_list : Kernel → ProcessRequest → ℕ → ℕ → List ProcessControlBlock
after_list k q i d = set k.process_list i (
    new_pcb (pcb_at k.process_list i) q.request (frames_needed q.request.buffer_size) d
      k.pid_counter)

record IsLoaded (k : Kernel) (q : ProcessRequest) (i d : ℕ) (paging : Paging) (k' : Kernel)
    : Type 0 where
  list : k'.process_list ≡ after_list k q i d
  count : k'.active_process_count ≡ k.active_process_count + 1
  counter : k'.pid_counter ≡ (k.pid_counter + 1) % 2 ^ 32
  paging_after : k'.paging ≡ mapped paging d (frames_needed q.request.buffer_size)

load_process-IsLoaded :
    (k : Kernel) (q : ProcessRequest) (i d : ℕ) (paging : Paging) (k' : Kernel)
    → load_process k q (frames_needed q.request.buffer_size) (some i) d paging ≡ some (0, k')
    → IsLoaded k q i d paging k'
unfolding load_process
load_process-IsLoaded k q i d paging k' h = elim (Option-cases (read k.driver q.request)) [
  | inl e ↦ absurd (ground (arith, e, h))
  | inr ((c, driver, buf), e) ↦ ground (arith, e, h)
]

-- What a successful creation has checked on the way.
record Checked (k : Kernel) (q : ProcessRequest) (k' : Kernel) (i d : ℕ) (paging : Paging)
    : Type 0 where
  room : k.active_process_count < process_count_max
  below : q.buf_address < kernel_virtual_address_base
  few : frames_needed q.request.buffer_size ≤ process_page_frame_count_max
  created : paging_create_new_page_directory k.paging ≡ (some d, paging)
  slot : process_list_get_inactive_index k.process_list ≡ some i
  loaded : load_process k q (frames_needed q.request.buffer_size) (some i) d paging ≡ some (0, k')

-- Without a slot no creation returns 0.
load_process-none :
    (k : Kernel) (q : ProcessRequest) (d : ℕ) (paging : Paging) (k' : Kernel)
    → load_process k q (frames_needed q.request.buffer_size) none d paging ≢ some (0, k')
unfolding load_process
load_process-none k q d paging k' h = elim (Option-cases (read k.driver q.request)) [
  | inl e ↦ absurd (ground (arith, e, h))
  | inr ((code zero, driver, buf), e) ↦ absurd (ground (arith, e, h))
  | inr ((code (suc n), driver, buf), e) ↦ absurd (ground (arith, e, h))
  | inr ((unknown, driver, buf), e) ↦ absurd (ground (arith, e, h))
]

create-Checked :
    (k : Kernel) (q : ProcessRequest) (k' : Kernel)
    → process_create_user_process k q ≡ some (0, k')
    → (i : ℕ) × (d : ℕ) × (paging : Paging) × Checked k q k' i d paging
unfolding process_create_user_process
create-Checked k q k' h = elim (Option-cases (paging_create_new_page_directory k.paging).0) [
  | inl e ↦ absurd (ground (arith, e, h))
  | inr (d, e) ↦ elim (Option-cases (process_list_get_inactive_index k.process_list)) [
    | inl f ↦ absurd (
        load_process-none k q d (paging_create_new_page_directory k.paging).1 k'
          (ground (arith, e, f, h)))
    | inr (i, f) ↦ (i, d, (paging_create_new_page_directory k.paging).1, ground (arith, e, f, h))
  ]
]

-- When fewer than 16 processes are counted, the entry point is below the kernel, the frames are at
-- most 8 and at most the free ones, there are an unused page directory and an inactive slot, and
-- the executable is read with code 0, the creation returns 0 and the loaded state.
pub process_create_user_process-succeeds :
    (k : Kernel) (q : ProcessRequest) (i d : ℕ) (paging : Paging) (driver : DriverState)
    (buf : List ℕ)
    → k.active_process_count < process_count_max
    → q.buf_address < kernel_virtual_address_base
    → frames_needed q.request.buffer_size ≤ process_page_frame_count_max
    → frames_needed q.request.buffer_size ≤ k.paging.manager.free_page_frame_count
    → paging_create_new_page_directory k.paging ≡ (some d, paging)
    → process_list_get_inactive_index k.process_list ≡ some i
    → read k.driver q.request ≡ some (code 0, driver, buf)
    → process_create_user_process k q
      ≡ some (0, launched k q (frames_needed q.request.buffer_size) i d paging driver)
unfolding process_create_user_process load_process paging_allocate_check
process_create_user_process-succeeds k q i d paging driver buf room below few free e f g =
    ground (arith, e, f, g)

-- A process created in slot `i` with page directory `d`.
pub record IsSpawned (k : Kernel) (q : ProcessRequest) (i d : ℕ) (k' : Kernel) : Type 0 where
  pub room : k.active_process_count < process_count_max
  pub below : q.buf_address < kernel_virtual_address_base
  pub few : frames_needed q.request.buffer_size ≤ process_page_frame_count_max
  pub slot : i < process_count_max
  pub was_inactive : (pcb_at k.process_list i).pid ≡ 0
  pub taken : IsTaken (frames_needed q.request.buffer_size) k.paging d k'.paging
  pub found : process_list_get_pcb_by_pid k'.process_list k.pid_counter ≡ some i
  pub ready : (pcb_at k'.process_list i).state ≡ process_ready
  pub owns : (pcb_at k'.process_list i).context.page_directory_virtual_addr ≡ some d
  pub others : (j : ℕ) → j ≢ i → pcb_at k'.process_list j ≡ pcb_at k.process_list j
  pub processes : IsProcessList k'.process_list k'.pid_counter
  pub counted : k'.active_process_count ≡ k.active_process_count + 1

module _ (k : Kernel) (v : IsProcessList k.process_list k.pid_counter) (pool : IsPool k.paging)
    (fits : k.pid_counter + 1 < 2 ^ 32) (q : ProcessRequest) (i d : ℕ)
    (lt : i < process_count_max) where
  pcb : ProcessControlBlock
  pcb =
      new_pcb (pcb_at k.process_list i) q.request (frames_needed q.request.buffer_size) d
        k.pid_counter

  after-found : process_list_get_pcb_by_pid (set k.process_list i pcb) k.pid_counter ≡ some i
  unfolding process_list_get_pcb_by_pid pcb
  after-found = elim (Option-cases (pid_loop 16 0 (set k.process_list i pcb) k.pid_counter)) [
    | inl e ↦ absurd (
        pid_loop-found 16 0 (set k.process_list i pcb) k.pid_counter i (omega arith) (omega arith)
          (ap (λ x. ProcessControlBlock.pid x)
            (pcb_at_self k.process_list k.pid_counter v i lt pcb))
          e)
    | inr (j, e) ↦ elim (ℕ_discrete j i) [
      | yes eq ↦ e ∙ ap some eq
      | no ne ↦ absurd (
          omega (
            arith,
            v.fresh j,
            ap (λ x. ProcessControlBlock.pid x)
                (pcb_at-ne k.process_list k.pid_counter v i lt pcb j ne),
            (pid_loop-some 16 0 (set k.process_list i pcb) k.pid_counter j e).2,
          ))
    ]
  ]

  after-IsProcessList : IsProcessList (set k.process_list i pcb) ((k.pid_counter + 1) % 2 ^ 32)
  unfolding pcb
  after-IsProcessList =
      set-IsProcessList k.process_list k.pid_counter v i lt pcb ((k.pid_counter + 1) % 2 ^ 32)
        (omega (arith, fits)) (omega (arith, fits))
        (λ j ne nz e. absurd (omega (arith, v.fresh j, e)))

module _ (k : Kernel) (v : IsProcessList k.process_list k.pid_counter) (pool : IsPool k.paging)
    (fits : k.pid_counter + 1 < 2 ^ 32) where
  -- From a well-formed process list and page directory pool, with the identifier counter below
  -- 2^32 - 1, a creation that returns 0 has had fewer than 16 counted processes, an entry point
  -- below the kernel and at most 8 frames; it fills one inactive slot and takes one unused page
  -- directory, which is then marked as used, has the kernel's entry at 0, maps page m of the
  -- higher half to frame m for the user for each of the process's frames, and has no other entry
  -- present but possibly entry 768, the kernel's; the other directories and the count of free
  -- frames stay. The counter's identifier is then found at that slot, ready and with that
  -- directory; the other processes stay, the list is well formed and one more process is counted.
  pub process_create_user_process-IsSpawned :
      (q : ProcessRequest) (k' : Kernel)
      → process_create_user_process k q ≡ some (0, k')
      → (i : ℕ) × (d : ℕ) × IsSpawned k q i d k'
  unfolding process_list_get_inactive_index pcb
  process_create_user_process-IsSpawned q k' h =
      let (i, d, paging, c) = create-Checked k q k' h in
      let l : IsLoaded k q i d paging k' = load_process-IsLoaded k q i d paging k' c.loaded in
      let (low, high, was) = pid_loop-some 16 0 k.process_list 0 i c.slot in
      let lt : i < process_count_max = omega (arith, high) in
      let n : IsNew k.paging d paging =
        paging_create_new_page_directory-IsNew k.paging pool d paging c.created in
      let self : pcb_at k'.process_list i ≡ pcb k v pool fits q i d lt =
        ap (λ x. pcb_at x i) l.list
        ∙ pcb_at_self k.process_list k.pid_counter v i lt (pcb k v pool fits q i d lt) in
      (
        i,
        d,
        record {
          room = c.room;
          below = c.below;
          few = c.few;
          slot = lt;
          was_inactive = was;
          taken =
              subst (IsTaken (frames_needed q.request.buffer_size) k.paging d) (sym l.paging_after)
                (mapped-IsTaken (frames_needed q.request.buffer_size) k.paging d paging
                  (omega (arith, c.few)) n);
          found = rw l.list (after-found k v pool fits q i d lt);
          ready = ap (λ x. ProcessControlBlock.state x) self;
          owns = ap (λ x. Context.page_directory_virtual_addr (ProcessControlBlock.context x)) self;
          others = λ j ne.
              rw l.list
                (pcb_at-ne k.process_list k.pid_counter v i lt (pcb k v pool fits q i d lt) j ne);
          processes = rw (l.list, l.counter) (after-IsProcessList k v pool fits q i d lt);
          counted = l.count;
        },
      )
