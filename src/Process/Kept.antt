-- ===== src/Process/Kept.antt =====
-- What the operations of src/process.c keep on every branch, failing ones included.
use os_2024_ususbuntu_with_s.Prelude.{
  ℕ, zero, suc, ◌+◌, ◌*◌, ◌%◌, ◌^◌, ◌<◌, ◌≤◌, ◌≡◌, refl, sym, ap, ◌∙◌, subst, inl, inr, true, some,
  Option-cases, arith, set, get_or, ℕ_discrete, length, get_or-set_ne, Bool-cases, not, ◌||◌,
  leb-false, length-set, All-set, ltb, leb,
}
use os_2024_ususbuntu_with_s.Fat32.Driver.{DriverState, code, unknown}
use os_2024_ususbuntu_with_s.Fat32.Files.{read}
use os_2024_ususbuntu_with_s.Paging.{
  Paging, PageDirectory, empty_directory, empty_entry, user_flag, frame_index, page_frame_size,
  page_entry_count, paging_create_new_page_directory, update_page_directory_entry,
  paging_allocate_check,
}
use os_2024_ususbuntu_with_s.Paging.Pool.{
  IsPool, IsNew, present, directory_at, directory_at-sized, is_used,
  paging_create_new_page_directory-IsNew, paging_create_new_page_directory-none,
}
use os_2024_ususbuntu_with_s.Process.{
  Kernel, ProcessRequest, pcb_at, process_count_max, launched, map_loop, frames_needed,
  load_process, process_create_user_process, new_pcb, process_list_get_inactive_index,
  process_page_frame_count_max, kernel_virtual_address_base,
}
use os_2024_ususbuntu_with_s.Process.Invariant.{IsProcessList, pid_loop-some, set-IsProcessList}
use os_2024_ususbuntu_with_s.Process.Isolation.{
  IsIsolated, directory_of, same-IsIsolated, spawned-IsIsolated,
}

-- The process list and the page directories in order.
pub record IsKernel (k : Kernel) : Type 0 where
  pub processes : IsProcessList k.process_list k.pid_counter
  pub pool : IsPool k.paging
  pub isolated : IsIsolated k.process_list k.paging
  pub few : k.active_process_count ≤ process_count_max

-- Where the branches of a creation end.
data Creation (k : Kernel) (q : ProcessRequest) (k' : Kernel) : Type 0 where
  refused :
      k'.process_list ≡ k.process_list
      → k'.pid_counter ≡ k.pid_counter
      → k'.active_process_count ≡ k.active_process_count
      → k'.paging ≡ k.paging
      → Creation k q k'
  unread :
      (d : ℕ)
      → paging_create_new_page_directory k.paging ≡ (some d, k'.paging)
      → k'.process_list ≡ k.process_list
      → k'.pid_counter ≡ k.pid_counter
      → k'.active_process_count ≡ k.active_process_count
      → Creation k q k'
  spawned :
      (i d : ℕ) (paging : Paging) (driver : DriverState)
      → k.active_process_count < process_count_max
      → paging_create_new_page_directory k.paging ≡ (some d, paging)
      → process_list_get_inactive_index k.process_list ≡ some i
      → k' ≡ launched k q (frames_needed q.request.buffer_size) i d paging driver
      → Creation k q k'

load_process-Creation :
    (k : Kernel) (q : ProcessRequest) (d : ℕ) (paging : Paging) (c : ℕ) (k' : Kernel)
    → k.active_process_count < process_count_max
    → paging_create_new_page_directory k.paging ≡ (some d, paging)
    → load_process k q
        (frames_needed q.request.buffer_size)
        (process_list_get_inactive_index k.process_list)
        d
        paging
      ≡ some (c, k')
    → Creation k q k'
unfolding load_process
load_process-Creation k q d paging c k' room e h = elim (Option-cases (read k.driver q.request)) [
  | inl g ↦ absurd (ground (arith, g, h))
  | inr ((code zero, driver, buf), g) ↦
      elim (Option-cases (process_list_get_inactive_index k.process_list)) [
        | inl f ↦ absurd (ground (arith, f, g, h))
        | inr (i, f) ↦ spawned i d paging driver room e f (ground (arith, f, g, h))
      ]
  | inr ((code (suc n), driver, buf), g) ↦
      unread d (ground (arith, e, g, h)) (ground (arith, g, h)) (ground (arith, g, h))
        (ground (arith, g, h))
  | inr ((unknown, driver, buf), g) ↦
      unread d (ground (arith, e, g, h)) (ground (arith, g, h)) (ground (arith, g, h))
        (ground (arith, g, h))
]

unchanged : (k : Kernel) (q : ProcessRequest) (k' : Kernel) → k' ≡ k → Creation k q k'
unchanged k q k' e =
    refused (ap (λ x. Kernel.process_list x) e) (ap (λ x. Kernel.pid_counter x) e)
      (ap (λ x. Kernel.active_process_count x) e) (ap (λ x. Kernel.paging x) e)

-- The branches behind the checks, for what the search for a page directory and a slot gives.
create-Creation :
    (k : Kernel) (q : ProcessRequest) (c : ℕ) (k' : Kernel)
    → IsPool k.paging
    → process_create_user_process k q ≡ some (c, k')
    → Creation k q k'
unfolding process_create_user_process
create-Creation k q c k' pool h =
    let frames = frames_needed q.request.buffer_size in
    let made = paging_create_new_page_directory k.paging in
    elim (Bool-cases (leb process_count_max k.active_process_count)) [
      | inl full ↦ unchanged k q k' (ground (arith, full, h))
      | inr room ↦ elim (Bool-cases (leb kernel_virtual_address_base q.buf_address)) [
        | inl high ↦ unchanged k q k' (ground (arith, room, high, h))
        | inr low ↦
            elim (Bool-cases (
              not (paging_allocate_check k.paging.manager frames)
              || ltb process_page_frame_count_max frames)) [
                | inl many ↦ unchanged k q k' (ground (arith, room, low, many, h))
                | inr few ↦ elim (Option-cases made.0) [
                  | inl e ↦
                      let same =
                        paging_create_new_page_directory-none k.paging pool made.1
                          (ap (λ o. (o, made.1)) e) in
                      unchanged k q k' (ground (arith, room, low, few, e, same.0, h))
                  | inr (d, e) ↦
                      load_process-Creation k q d made.1 c k'
                        (omega (arith, leb-false process_count_max k.active_process_count room))
                        (ap (λ o. (o, made.1)) e) (ground (arith, room, low, few, e, h))
                ]
              ]
      ]
    ]

length-map_loop : (rounds i : ℕ) (d : PageDirectory) → length (map_loop rounds i d) ≡ length d
unfolding map_loop update_page_directory_entry
length-map_loop zero i d = refl
length-map_loop (suc rounds) i d =
    let virtual = kernel_virtual_address_base + i * page_frame_size in
    let page = frame_index virtual in
    length-map_loop rounds (i + 1)
      (update_page_directory_entry d (i * page_frame_size) virtual user_flag)
    ∙ length-set d page (record (get_or d page empty_entry) {
      flag = user_flag;
      lower_address = frame_index (i * page_frame_size);
    })

-- The pool after a used directory is written.
mapped-IsPool :
    (p : Paging) (d : ℕ) (dir : PageDirectory)
    → IsPool p
    → is_used p d ≡ true
    → length dir ≡ page_entry_count
    → IsPool (record p { directories = set p.directories d dir })
mapped-IsPool p d dir v used sized = record {
  directories_len = length-set p.directories d dir ∙ v.directories_len;
  used_len = v.used_len;
  sized = All-set (λ x. length x ≡ page_entry_count) p.directories d dir v.sized sized;
  clean = λ i k u. elim (ℕ_discrete i d) [
    | yes e ↦ cc (ap (is_used p) e, u, used)
    | no ne ↦
        ap (λ x. present x k)
          (get_or-set_ne p.directories d i dir empty_directory (λ e. ne (sym e)))
        ∙ v.clean i k u
  ];
}

slot_bound :
    (k : Kernel) (i : ℕ)
    → process_list_get_inactive_index k.process_list ≡ some i
    → i < process_count_max
unfolding process_list_get_inactive_index
slot_bound k i f =
    let (low, high, was) = pid_loop-some 16 0 k.process_list 0 i f in omega (arith, high)

new-marks :
    (p : Paging) (d : ℕ) (p' : Paging)
    → IsNew p d p'
    → (j : ℕ) → is_used p j ≡ true
    → is_used p' j ≡ true
new-marks p d p' n j u = elim (ℕ_discrete j d) [
  | yes e ↦ ap (is_used p') e ∙ n.now_used
  | no ne ↦ (n.others j ne).1 ∙ u
]

module _ (k : Kernel) (v : IsKernel k) (q : ProcessRequest) where
  refused-IsKernel :
      (k' : Kernel)
      → k'.process_list ≡ k.process_list
      → k'.pid_counter ≡ k.pid_counter
      → k'.active_process_count ≡ k.active_process_count
      → IsPool k'.paging
      → ((j : ℕ) → is_used k.paging j ≡ true → is_used k'.paging j ≡ true)
      → IsKernel k'
  refused-IsKernel k' a b c pool marks = record {
    processes = rw (a, b) v.processes;
    pool = pool;
    isolated =
        same-IsIsolated k.process_list k'.process_list k.paging k'.paging v.isolated
          (λ i. ap (λ l. (pcb_at l i).pid) a) (λ i. ap (λ l. directory_of l i) a) marks;
    few = rw c v.few;
  }

  launched-IsKernel :
      (i d : ℕ) (paging : Paging) (driver : DriverState)
      → k.pid_counter + 1 < 2 ^ 32
      → k.active_process_count < process_count_max
      → paging_create_new_page_directory k.paging ≡ (some d, paging)
      → process_list_get_inactive_index k.process_list ≡ some i
      → IsKernel (launched k q (frames_needed q.request.buffer_size) i d paging driver)
  launched-IsKernel i d paging driver fits room e f =
      let n = paging_create_new_page_directory-IsNew k.paging v.pool d paging e in
      let lt = slot_bound k i f in
      let frames = frames_needed q.request.buffer_size in
      let pcb = new_pcb (pcb_at k.process_list i) q.request frames d k.pid_counter in
      let dir = map_loop frames 0 (directory_at paging d) in
      let spawned =
        spawned-IsIsolated k.process_list k.pid_counter v.processes k.paging v.isolated i lt pcb d
          paging n refl in
      record {
        processes =
            set-IsProcessList k.process_list k.pid_counter v.processes i lt pcb
              ((k.pid_counter + 1) % 2 ^ 32) (omega (arith, fits)) (omega (arith, fits))
              (λ j ne nz same. absurd (omega (arith, v.processes.fresh j, same)));
        pool = mapped-IsPool paging d dir n.pool n.now_used (
            length-map_loop frames 0 (directory_at paging d)
            ∙ directory_at-sized paging n.pool d n.low);
        isolated = record { owned = spawned.owned; distinct = spawned.distinct };
        few = omega (arith, room);
      }

-- A creation keeps the kernel in order, whatever it returns, while identifiers last.
pub process_create_user_process-IsKernel :
    (k : Kernel) (q : ProcessRequest) (c : ℕ) (k' : Kernel)
    → IsKernel k
    → k.pid_counter + 1 < 2 ^ 32
    → process_create_user_process k q ≡ some (c, k')
    → IsKernel k' × (k'.pid_counter ≤ k.pid_counter + 1)
process_create_user_process-IsKernel k q c k' v fits h = elim (create-Creation k q c k' v.pool h) [
  | refused lists counter count paging ↦ (
    refused-IsKernel k v q k' lists counter count (subst IsPool (sym paging) v.pool)
        (λ j u. ap (λ p. is_used p j) paging ∙ u),
    omega (arith, counter),
  )
  | unread d e lists counter count ↦
      let n = paging_create_new_page_directory-IsNew k.paging v.pool d k'.paging e in
      (
        refused-IsKernel k v q k' lists counter count n.pool (new-marks k.paging d k'.paging n),
        omega (arith, counter),
      )
  | spawned i d paging driver room e f g ↦ (
    subst IsKernel (sym g) (launched-IsKernel k v q i d paging driver fits room e f),
    omega (arith, fits, ap (λ x. Kernel.pid_counter x) g),
  )
]
