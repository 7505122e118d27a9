-- ===== src/Interrupt/Steps.antt =====
-- The states that interrupts (src/interrupt.c) lead to.
use os_2024_ususbuntu_with_s.Prelude.{
  ℕ, zero, suc, ◌+◌, ◌≤◌, ◌≡◌, ◌≢◌, sym, ap, ◌∙◌, Option, none, some, arith,
}
use os_2024_ususbuntu_with_s.Process.{process_get_current_running_pcb_pointer}
use os_2024_ususbuntu_with_s.Process.Kept.{IsKernel}
use os_2024_ususbuntu_with_s.Process.Ending.{scheduler_save_context_to_current_running_pcb-IsKernel}
use os_2024_ususbuntu_with_s.Process.Isolation.{directory_of, some_inj}
use os_2024_ususbuntu_with_s.Interrupt.{
  Machine, InterruptFrame, Surroundings, Reply, main_interrupt_handler, timer_tick, context_of,
}

-- The outcome of an interrupt leaves the kernel in order, and hands out at most one identifier.
abbrev Result : ℕ → Option (Machine × Reply) → Type 0
Result n none = Unit
Result n (some (m, r)) = IsKernel m.scheduler.kernel × (m.scheduler.kernel.pid_counter ≤ n + 1)

record Keeps (n : ℕ) (o : Option (Machine × Reply)) : Type 0 where
  result : Result n o

module _ (m : Machine) (v : IsKernel m.scheduler.kernel) where
  n : ℕ
  n = m.scheduler.kernel.pid_counter

  saved :
      (s : Surroundings) (f : InterruptFrame) (i : ℕ)
      → process_get_current_running_pcb_pointer m.scheduler.kernel ≡ some i
      → Keeps n (timer_tick m (some (context_of m.scheduler.kernel s f i)))
  unfolding n
  saved s f i e =
      let (k, c) =
        scheduler_save_context_to_current_running_pcb-IsKernel m.scheduler
          (context_of m.scheduler.kernel s f i) v
          (λ j g. ap (directory_of m.scheduler.kernel.process_list) (some_inj i j (sym e ∙ g))) in
      record { result = (k, omega (arith, c)) }

-- A write through a user's pointer that does not reach the process list, its counters or the paging:
-- all else of the machine may change.
pub record IsElsewhere (m m' : Machine) : Type 0 where
  pub processes : m'.scheduler.kernel.process_list ≡ m.scheduler.kernel.process_list
  pub active : m'.scheduler.kernel.active_process_count ≡ m.scheduler.kernel.active_process_count
  pub counter : m'.scheduler.kernel.pid_counter ≡ m.scheduler.kernel.pid_counter
  pub paging : m'.scheduler.kernel.paging ≡ m.scheduler.kernel.paging

-- The machines that `count` interrupts lead to. None of the calls asks for the end of process 0, and
-- what a call writes through its pointers lies elsewhere than in the kernel's tables.
pub data Runs (m : Machine) : ℕ → Machine → Type 0 where
  started : Runs m zero m
  interrupted :
      {count : ℕ} {m' : Machine} (s : Surroundings) (f : InterruptFrame) (r : Reply) (m'' : Machine)
      (after : Machine)
      → Runs m count m'
      → (f.int_number ≡ 48 → f.cpu.eax ≡ 14 → f.cpu.ebx ≢ 0)
      → main_interrupt_handler m' s f ≡ some (m'', r)
      → IsElsewhere m'' after
      → Runs m (suc count) after
