-- ===== src/Scheduler/RoundRobin.antt =====
-- Which process `scheduler_switch_to_next_process` (src/scheduler.c) runs, and where a context is
-- saved.
use os_2024_ususbuntu_with_s.Prelude.{
  ℕ, zero, suc, ◌+◌, ◌-◌, ◌%◌, ◌<◌, ◌≤◌, ◌≡◌, ◌≢◌, refl, ap, ◌∙◌, Option, none, some, arith,
  ==-false, lt→ltb, sym, length, set, get_or-set_self, get_or-set_ne,
}
use native.Mathlib.Nat.{mod-add-mod}
use os_2024_ususbuntu_with_s.Process.{
  Context, ProcessControlBlock, empty_pcb, pcb_at, process_get_current_running_pcb_pointer,
}
use os_2024_ususbuntu_with_s.Scheduler.{
  Scheduler, index_after, get_next_process_index, scheduler_switch_to_next_process,
  scheduler_save_context_to_current_running_pcb,
}

-- `n` switches in a row.
unfoldable pub switches : ℕ → Scheduler → Option Scheduler
switches zero s = some s
switches (suc n) s = elim (scheduler_switch_to_next_process s) [
  | none ↦ none
  | some (s', ctx) ↦ switches n s'
]

switches-suc :
    (n : ℕ) (s : Scheduler)
    → 0 < s.kernel.active_process_count
    → switches (suc n) s
      ≡ switches n record s {
        current_running_process_index =
            some (index_after s.current_running_process_index % s.kernel.active_process_count);
      }
unfolding switches scheduler_switch_to_next_process get_next_process_index
switches-suc n s h = rw (switches, ==-false s.kernel.active_process_count 0 (omega arith)) refl

abbrev moved : Scheduler → ℕ → Option Scheduler
moved s x =
    some record s { current_running_process_index = some (x % s.kernel.active_process_count) }

rounds :
    (n : ℕ) (s : Scheduler)
    → (index_after s.current_running_process_index % s.kernel.active_process_count + 1 + n)
        % s.kernel.active_process_count
      ≡ (index_after s.current_running_process_index + suc n) % s.kernel.active_process_count
rounds n s =
    ap (λ x. x % s.kernel.active_process_count) (omega arith)
    ∙ mod-add-mod (index_after s.current_running_process_index) s.kernel.active_process_count
        (suc n)

-- While some process is counted, n + 1 switches in a row succeed, keep the kernel's state, and end
-- at the process whose index is n further than the one after the current, modulo the count.
pub switches-index :
    (n : ℕ) (s : Scheduler)
    → 0 < s.kernel.active_process_count
    → switches (suc n) s
      ≡ some record s {
        current_running_process_index =
            some
              ((index_after s.current_running_process_index + n) % s.kernel.active_process_count);
      }
unfolding switches
switches-index zero s h = switches-suc zero s h ∙ ap (moved s) (omega arith)
switches-index (suc n) s h =
    switches-suc (suc n) s h
    ∙ (switches-index n
          record s {
            current_running_process_index =
                some (index_after s.current_running_process_index % s.kernel.active_process_count);
          }
          h
        ∙ ap (λ x. some record s { current_running_process_index = some x }) (rounds n s))

saved_list :
    (s : Scheduler)
    → 0 < s.kernel.active_process_count
    → (ctx : Context)
    → (scheduler_save_context_to_current_running_pcb s ctx).kernel.process_list
      ≡ set s.kernel.process_list
          (s.kernel.active_process_count - 1)
          record (pcb_at s.kernel.process_list (s.kernel.active_process_count - 1)) {
            context = ctx;
          }
unfolding scheduler_save_context_to_current_running_pcb process_get_current_running_pcb_pointer
saved_list s h ctx =
    rw
      (
        scheduler_save_context_to_current_running_pcb,
        process_get_current_running_pcb_pointer,
        lt→ltb 0 s.kernel.active_process_count h,
      )
      refl

module _ (s : Scheduler) (sized : length s.kernel.process_list ≡ 16)
    (some_active : 0 < s.kernel.active_process_count) (few : s.kernel.active_process_count ≤ 16)
    (ctx : Context) where
  -- With 16 process control blocks and a count from 1 to 16, saving a context stores it in the
  -- block whose index is one less than the count and keeps all other blocks, whichever process
  -- runs.
  pub scheduler_save_context_to_current_running_pcb-last :
      ((pcb_at
          (scheduler_save_context_to_current_running_pcb s ctx).kernel.process_list
          (s.kernel.active_process_count - 1)).context
        ≡ ctx)
      × ((j : ℕ)
          → j ≢ s.kernel.active_process_count - 1
          → pcb_at (scheduler_save_context_to_current_running_pcb s ctx).kernel.process_list j
            ≡ pcb_at s.kernel.process_list j)
  scheduler_save_context_to_current_running_pcb-last = (
    ap (λ x. (pcb_at x last).context) list
        ∙ ap (λ x. ProcessControlBlock.context x)
            (get_or-set_self s.kernel.process_list last pcb empty_pcb
              (omega (arith, sized, some_active, few))),
    λ j ne.
        ap (λ x. pcb_at x j) list
        ∙ get_or-set_ne s.kernel.process_list last j pcb empty_pcb (λ e. ne (sym e)),
  )
    where
      last : ℕ
      last = s.kernel.active_process_count - 1

      pcb : ProcessControlBlock
      pcb = record (pcb_at s.kernel.process_list last) { context = ctx }

      list :
          (scheduler_save_context_to_current_running_pcb s ctx).kernel.process_list
          ≡ set s.kernel.process_list last pcb
      list = saved_list s some_active ctx
