-- ===== src/KernelExamples.antt =====
-- The theorems on src/paging.c, src/process.c and src/scheduler.c at states near that of boot.
use os_2024_ususbuntu_with_s.Prelude.{
  ℕ, ◌%◌, ◌<◌, ◌≡◌, ◌≢◌, ◌⊎◌, refl, ap, ◌∙◌, Bool, true, false, [], none, some, arith, length,
  replicate, All-replicate, length-replicate, take, ◌*◌,
}
use os_2024_ususbuntu_with_s.Fat32.Disk.{cluster_size}
use os_2024_ususbuntu_with_s.Fat32.Files.{cluster_count_of}
use os_2024_ususbuntu_with_s.Paging.{
  PageDirectory, PageDirectoryEntry, PageDirectoryEntryFlag, PageManagerState, FrameResult, Paging,
  page_entry_count, empty_entry, empty_directory, paging_at_boot, paging_allocate_user_page_frame,
  paging_free_user_page_frame, paging_create_new_page_directory, paging_free_page_directory,
  unused_loop,
}
use os_2024_ususbuntu_with_s.Paging.Frames.{
  IsManager, Allocation, Returned, paging_allocate_user_page_frame-Allocation,
  paging_allocate_user_page_frame-none, paging_free_user_page_frame-allocate,
}
use os_2024_ususbuntu_with_s.Paging.Pool.{
  IsPool, IsNew, IsFreed, present, get_or-replicate, paging_create_new_page_directory-IsNew,
  paging_free_page_directory-IsFreed, paging_free_page_directory-create,
}
use os_2024_ususbuntu_with_s.Fat32.Driver.{ceil_div}
use os_2024_ususbuntu_with_s.Process.{
  Kernel, ProcessControlBlock, ProcessRequest, empty_pcb, empty_context, pcb_at, process_count_max,
  frames_needed, launched, pid_loop, process_list_get_inactive_index, process_create_user_process,
  process_destroy,
}
use os_2024_ususbuntu_with_s.Scheduler.{Scheduler, scheduler_save_context_to_current_running_pcb}
use os_2024_ususbuntu_with_s.Scheduler.RoundRobin.{
  switches, switches-index, scheduler_save_context_to_current_running_pcb-last,
}
use os_2024_ususbuntu_with_s.Process.Invariant.{IsProcessList}
use os_2024_ususbuntu_with_s.Process.Create.{
  IsSpawned, process_create_user_process-succeeds, process_create_user_process-IsSpawned,
}
use os_2024_ususbuntu_with_s.Process.Destroy.{IsDestroyed, process_destroy-IsDestroyed}
use os_2024_ususbuntu_with_s.Examples.{written, file_request, read_ok}

empty_directory-sized : length empty_directory ≡ page_entry_count
empty_directory-sized = length-replicate {A = PageDirectoryEntry} page_entry_count empty_entry

boot-IsManager : IsManager paging_at_boot.manager
boot-IsManager = record { sized = refl; counted = omega arith }

paging_allocate_user_page_frame-Allocation_example :
    (r : FrameResult) × (paging_allocate_user_page_frame paging_at_boot.manager empty_directory
        4194304
      ≡ some r)
    × Allocation paging_at_boot.manager empty_directory 4194304 r
paging_allocate_user_page_frame-Allocation_example =
    paging_allocate_user_page_frame-Allocation paging_at_boot.manager boot-IsManager empty_directory
      empty_directory-sized 4194304 (omega arith)

abbrev full_manager : PageManagerState
full_manager = record { page_frame_map = replicate 32 true; free_page_frame_count = 0 }

full-IsManager : IsManager full_manager
full-IsManager = record { sized = refl; counted = omega arith }

paging_allocate_user_page_frame-none_example :
    paging_allocate_user_page_frame full_manager empty_directory 4194304 ≡ none
paging_allocate_user_page_frame-none_example =
    paging_allocate_user_page_frame-none full_manager full-IsManager empty_directory
      empty_directory-sized 4194304 refl

paging_free_user_page_frame-allocate_example :
    (r : FrameResult) × (r' : FrameResult) × (paging_allocate_user_page_frame paging_at_boot.manager
        empty_directory 4194304
      ≡ some r)
    × (paging_free_user_page_frame r.manager r.page_dir 4194304 ≡ some r')
    × Returned paging_at_boot.manager 4194304 r'
paging_free_user_page_frame-allocate_example =
    paging_free_user_page_frame-allocate paging_at_boot.manager boot-IsManager empty_directory
      empty_directory-sized 4194304 (omega arith)

pub boot-IsPool : IsPool paging_at_boot
boot-IsPool = record {
  directories_len = length-replicate {A = PageDirectory} 32 empty_directory;
  used_len = length-replicate {A = Bool} 32 false;
  sized = All-replicate (λ d. length d ≡ page_entry_count) 32 empty_directory empty_directory-sized;
  clean = λ i k u.
      ap (λ d. present d k) (get_or-replicate 32 i empty_directory)
      ∙ ap (λ e. PageDirectoryEntryFlag.present_bit (PageDirectoryEntry.flag e))
          (get_or-replicate 1024 k empty_entry);
}

abbrev first_created : Paging
first_created = (paging_create_new_page_directory paging_at_boot).1

first_creation : paging_create_new_page_directory paging_at_boot ≡ (some 0, first_created)
unfolding paging_create_new_page_directory unused_loop
first_creation = refl

paging_create_new_page_directory-IsNew_example : IsNew paging_at_boot 0 first_created
paging_create_new_page_directory-IsNew_example =
    paging_create_new_page_directory-IsNew paging_at_boot boot-IsPool 0 first_created first_creation

abbrev full_pool : Paging
full_pool = record paging_at_boot { page_directory_used = replicate 32 true }

full-IsPool : IsPool full_pool
full-IsPool = record {
  directories_len = length-replicate {A = PageDirectory} 32 empty_directory;
  used_len = length-replicate {A = Bool} 32 true;
  sized = All-replicate (λ d. length d ≡ page_entry_count) 32 empty_directory empty_directory-sized;
  clean = λ i k u.
      ap (λ d. present d k) (get_or-replicate 32 i empty_directory)
      ∙ ap (λ e. PageDirectoryEntryFlag.present_bit (PageDirectoryEntry.flag e))
          (get_or-replicate 1024 k empty_entry);
}

paging_free_page_directory-IsFreed_example :
    (p' : Paging) × (paging_free_page_directory full_pool (some 3) ≡ (true, p'))
    × IsFreed full_pool 3 p'
paging_free_page_directory-IsFreed_example =
    paging_free_page_directory-IsFreed full_pool full-IsPool 3 (omega arith)

paging_free_page_directory-create_example :
    (p'' : Paging) × (p''' : Paging) × (paging_free_page_directory first_created (some 0)
      ≡ (true, p''))
    × (p''.page_directory_used ≡ paging_at_boot.page_directory_used)
    × (paging_create_new_page_directory p'' ≡ (some 0, p'''))
paging_free_page_directory-create_example =
    paging_free_page_directory-create paging_at_boot boot-IsPool 0 first_created first_creation

-- A process is created from the file that `written` holds.
abbrev pub booted : Kernel
booted = record {
  process_list = replicate 16 empty_pcb;
  active_process_count = 0;
  pid_counter = 1;
  paging = paging_at_boot;
  driver = written;
}

abbrev pub launch_request : ProcessRequest
launch_request = record {
  request = record file_request { buffer_size = 4096; buf = [] };
  buf_address = 0;
}

pub boot-IsProcessList : IsProcessList booted.process_list booted.pid_counter
boot-IsProcessList = record {
  sized = length-replicate {A = ProcessControlBlock} 16 empty_pcb;
  counted = omega arith;
  fresh = λ i. omega (arith, ap (λ x. ProcessControlBlock.pid x) (get_or-replicate 16 i empty_pcb));
  unique = λ i j nz e.
      absurd (nz (ap (λ x. ProcessControlBlock.pid x) (get_or-replicate 16 i empty_pcb)));
}

launch_frames : frames_needed launch_request.request.buffer_size ≡ 2
unfolding frames_needed ceil_div
launch_frames = refl

boot_slot : process_list_get_inactive_index booted.process_list ≡ some 0
unfolding process_list_get_inactive_index pid_loop
boot_slot = refl

pub after_launch : Kernel
after_launch =
    launched booted launch_request (frames_needed launch_request.request.buffer_size) 0 0
      first_created written

pub launch_ok : process_create_user_process booted launch_request ≡ some (0, after_launch)
unfolding after_launch
launch_ok =
    process_create_user_process-succeeds booted launch_request 0 0 first_created written
      (take (cluster_count_of file_request.buffer_size * cluster_size) file_request.buf)
      (omega arith) (omega arith) (omega (arith, launch_frames)) (omega (arith, launch_frames))
      first_creation boot_slot read_ok

process_create_user_process-IsSpawned_example :
    (i : ℕ) × (d : ℕ) × IsSpawned booted launch_request i d after_launch
process_create_user_process-IsSpawned_example =
    process_create_user_process-IsSpawned booted boot-IsProcessList boot-IsPool (omega arith)
      launch_request after_launch launch_ok

process_destroy-IsDestroyed_example :
    ((process_destroy booted 7 ≡ (false, booted))
      × ((j : ℕ) → j < process_count_max → (pcb_at booted.process_list j).pid ≢ 7))
    ⊎ ((i : ℕ) × (k' : Kernel) × (process_destroy booted 7 ≡ (true, k'))
        × IsDestroyed booted 7 i k')
process_destroy-IsDestroyed_example =
    process_destroy-IsDestroyed booted boot-IsProcessList 7 (omega arith)

-- Three processes in turn.
abbrev three : Scheduler
three = record {
  kernel = record booted { active_process_count = 3 };
  current_running_process_index = none;
}

switches-index_example :
    switches 5 three ≡ some record three { current_running_process_index = some (4 % 3) }
switches-index_example = switches-index 4 three (omega arith)

scheduler_save_context_to_current_running_pcb-last_example :
    ((pcb_at
        (scheduler_save_context_to_current_running_pcb three empty_context).kernel.process_list
        2).context
      ≡ empty_context)
    × ((j : ℕ)
        → j ≢ 2
        → pcb_at
            (scheduler_save_context_to_current_running_pcb three empty_context).kernel.process_list
            j
          ≡ pcb_at three.kernel.process_list j)
scheduler_save_context_to_current_running_pcb-last_example =
    scheduler_save_context_to_current_running_pcb-last three
      (length-replicate {A = ProcessControlBlock} 16 empty_pcb) (omega arith) (omega arith)
      empty_context
