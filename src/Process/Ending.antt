-- ===== src/Process/Ending.antt =====
-- What `process_destroy` (src/process.c) and the saving of a context (src/scheduler.c) keep.
use os_2024_ususbuntu_with_s.Prelude.{
  ℕ, ◌<◌, ◌≡◌, ◌≢◌, refl, sym, ap, ◌∙◌, subst, inl, inr, some, Option-cases, arith, set, ℕ_discrete,
  List,
}
use os_2024_ususbuntu_with_s.Paging.{paging_free_page_directory}
use os_2024_ususbuntu_with_s.Paging.Pool.{IsPool, paging_free_page_directory-IsFreed}
use os_2024_ususbuntu_with_s.Process.{
  Kernel, Context, ProcessControlBlock, pcb_at, process_count_max, process_destroy,
  process_list_get_pcb_by_pid,
}
use os_2024_ususbuntu_with_s.Process.Invariant.{
  pid_loop-some, set-IsProcessList, pcb_at_self, pcb_at-ne,
}
use os_2024_ususbuntu_with_s.Process.Destroy.{ended}
use os_2024_ususbuntu_with_s.Process.Isolation.{
  IsIsolated, directory_of, same-IsIsolated, freed-IsIsolated,
}
use os_2024_ususbuntu_with_s.Process.{process_get_current_running_pcb_pointer}
use os_2024_ususbuntu_with_s.Process.Kept.{IsKernel}
use os_2024_ususbuntu_with_s.Scheduler.{Scheduler, scheduler_save_context_to_current_running_pcb}

-- A destruction of a process that is there.
module _ (k : Kernel) (v : IsKernel k) (pid i : ℕ) (nz : pid ≢ 0)
    (found : process_list_get_pcb_by_pid k.process_list pid ≡ some i) where
  at_slot : (i < process_count_max) × ((pcb_at k.process_list i).pid ≡ pid)
  unfolding process_list_get_pcb_by_pid
  at_slot =
      let (low, high, was) = pid_loop-some 16 0 k.process_list pid i found in
      (omega (arith, high), was)

  destroyed-IsKernel : IsKernel (process_destroy k pid).1
  unfolding process_destroy
  destroyed-IsKernel =
      let (lt, was) = at_slot in
      let live : (pcb_at k.process_list i).pid ≢ 0 = λ z. nz (sym was ∙ z) in
      let (d, owns, low, used) = v.isolated.owned i live in
      let (paging, freed, fr) = paging_free_page_directory-IsFreed k.paging v.pool d low in
      let e : (paging_free_page_directory k.paging (directory_of k.process_list i)).1 ≡ paging =
        ap (λ o. (paging_free_page_directory k.paging o).1) owns ∙ ap (λ r. r.1) freed in
      let pcb = ended (pcb_at k.process_list i) in
      rw (process_destroy, found)
        (record {
          processes =
              set-IsProcessList k.process_list k.pid_counter v.processes i lt pcb k.pid_counter
                (omega arith) v.processes.counted (λ j a b. absurd (b refl));
          pool = subst IsPool (sym e) fr.pool;
          isolated = subst (IsIsolated (set k.process_list i pcb)) (sym e) (
              freed-IsIsolated k.process_list k.pid_counter v.processes k.paging v.isolated i lt pcb
                d paging fr live owns refl);
          few = v.few;
        })

pub process_destroy-IsKernel :
    (k : Kernel) (pid : ℕ)
    → IsKernel k
    → pid ≢ 0
    → IsKernel (process_destroy k pid).1 × ((process_destroy k pid).1.pid_counter ≡ k.pid_counter)
unfolding process_destroy
process_destroy-IsKernel k pid v nz =
    elim (Option-cases (process_list_get_pcb_by_pid k.process_list pid)) [
      | inl e ↦ (rw (process_destroy, e) v, rw (process_destroy, e) refl)
      | inr (i, e) ↦ (destroyed-IsKernel k v pid i nz e, rw (process_destroy, e) refl)
    ]

-- Saving a context for the process that is taken for the current one.
module _ (s : Scheduler) (v : IsKernel s.kernel) (ctx : Context) (i : ℕ)
    (current : process_get_current_running_pcb_pointer s.kernel ≡ some i) where
  saved : ProcessControlBlock
  saved = record (pcb_at s.kernel.process_list i) { context = ctx }

  current_low : i < process_count_max
  unfolding process_get_current_running_pcb_pointer
  current_low = ground (arith, v.few, current)

  after_saved : List ProcessControlBlock
  after_saved = set s.kernel.process_list i saved

  saved_same :
      (j : ℕ)
      → ((pcb_at after_saved j).pid ≡ (pcb_at s.kernel.process_list j).pid)
        × (ctx.page_directory_virtual_addr ≡ directory_of s.kernel.process_list i
            → directory_of after_saved j ≡ directory_of s.kernel.process_list j)
  unfolding after_saved saved
  saved_same j =
      let pcbs = s.kernel.process_list in
      let n = s.kernel.pid_counter in
      elim (ℕ_discrete j i) [
        | yes e ↦
            let self : pcb_at after_saved j ≡ saved =
              ap (pcb_at after_saved) e ∙ pcb_at_self pcbs n v.processes i current_low saved in
            (
              ap (λ x. ProcessControlBlock.pid x) self ∙ ap (λ l. (pcb_at pcbs l).pid) (sym e),
              λ same.
                  ap (λ x. Context.page_directory_virtual_addr (ProcessControlBlock.context x)) self
                  ∙ same
                  ∙ ap (directory_of pcbs) (sym e),
            )
        | no ne ↦
            let other = pcb_at-ne pcbs n v.processes i current_low saved j ne in
            (
              ap (λ x. ProcessControlBlock.pid x) other,
              λ same.
                  ap (λ x. Context.page_directory_virtual_addr (ProcessControlBlock.context x))
                    other,
            )
      ]

  saved-IsKernel :
      ctx.page_directory_virtual_addr ≡ directory_of s.kernel.process_list i
      → IsKernel (scheduler_save_context_to_current_running_pcb s ctx).kernel
  unfolding after_saved saved scheduler_save_context_to_current_running_pcb
  saved-IsKernel same =
      let p = v.processes in
      rw (scheduler_save_context_to_current_running_pcb, current)
        (record {
          processes =
              set-IsProcessList s.kernel.process_list s.kernel.pid_counter p i current_low saved
                s.kernel.pid_counter (omega arith) (p.fresh i)
                (λ j ne nz e. ne (sym (p.unique i j nz (sym e))));
          pool = v.pool;
          isolated =
              same-IsIsolated s.kernel.process_list after_saved s.kernel.paging s.kernel.paging
                v.isolated (λ j. (saved_same j).0) (λ j. (saved_same j).1 same) (λ d u. u);
          few = v.few;
        })

  saved_counter :
      (scheduler_save_context_to_current_running_pcb s ctx).kernel.pid_counter
      ≡ s.kernel.pid_counter
  unfolding scheduler_save_context_to_current_running_pcb
  saved_counter = rw (scheduler_save_context_to_current_running_pcb, current) refl

pub scheduler_save_context_to_current_running_pcb-IsKernel :
    (s : Scheduler) (ctx : Context)
    → IsKernel s.kernel
    → ((i : ℕ)
        → process_get_current_running_pcb_pointer s.kernel ≡ some i
        → ctx.page_directory_virtual_addr ≡ directory_of s.kernel.process_list i)
    → IsKernel (scheduler_save_context_to_current_running_pcb s ctx).kernel
      × ((scheduler_save_context_to_current_running_pcb s ctx).kernel.pid_counter
          ≡ s.kernel.pid_counter)
unfolding scheduler_save_context_to_current_running_pcb
scheduler_save_context_to_current_running_pcb-IsKernel s ctx v same =
    elim (Option-cases (process_get_current_running_pcb_pointer s.kernel)) [
      | inl e ↦ (
        rw (scheduler_save_context_to_current_running_pcb, e) v,
        rw (scheduler_save_context_to_current_running_pcb, e) refl,
      )
      | inr (i, e) ↦ (saved-IsKernel s v ctx i e (same i e), saved_counter s v ctx i e)
    ]
