-- ===== src/Scheduler.antt =====
-- The round robin of src/scheduler.c. `current_running_process_index` is -1 (`none`) or an index. The
-- timer, the change of CR3 and the jump into the process are left out: a switch ends with the index,
-- the page directory and the context that it hands over.
pub mod RoundRobin
use os_2024_ususbuntu_with_s.Prelude.{
  ℕ, zero, suc, ◌+◌, ◌%◌, ◌^◌, Option, none, some, ◌==◌, if◌then◌else◌, set,
}
use os_2024_ususbuntu_with_s.Process.{
  Kernel, Context, pcb_at, process_get_current_running_pcb_pointer,
}

pub record Scheduler : Type 0 where
  pub kernel : Kernel
  pub current_running_process_index : Option ℕ

-- `current_running_process_index + 1`
abbrev pub index_after : Option ℕ → ℕ
index_after none = 0
index_after (some i) = i + 1

-- `none` is a division by zero.
unfoldable pub get_next_process_index : Scheduler → Option ℕ
get_next_process_index s =
    if s.kernel.active_process_count == 0
    then none
    else some (index_after s.current_running_process_index % s.kernel.active_process_count)

unfoldable pub scheduler_init : Scheduler → Scheduler
scheduler_init s = record s { kernel = record s.kernel { active_process_count = 1 } }

unfoldable pub scheduler_save_context_to_current_running_pcb : Scheduler → Context → Scheduler
scheduler_save_context_to_current_running_pcb s ctx =
    elim (process_get_current_running_pcb_pointer s.kernel) [
      | none ↦ s
      | some i ↦ record s {
        kernel = record s.kernel {
          process_list =
              set s.kernel.process_list i record (pcb_at s.kernel.process_list i) { context = ctx };
        };
      }
    ]

-- The state and the context that the processor goes on with.
unfoldable pub scheduler_switch_to_next_process : Scheduler → Option (Scheduler × Context)
scheduler_switch_to_next_process s = elim (get_next_process_index s) [
  | none ↦ none
  | some i ↦ some (
    record s { current_running_process_index = some i },
    (pcb_at s.kernel.process_list i).context,
  )
]
