-- ===== src/Process.antt =====
-- Processes: src/process.c and src/header/process/process.h. A pointer into `_process_list` is an
-- index. A `struct PageDirectory *` is null or a slot of the pool. `request.buf` is an address for
-- this code: it stands beside the request, whose `buf` has no part here. `pid_counter` is the static
-- of `process_generate_new_pid`.
pub mod Pages
pub mod Invariant
pub mod Create
pub mod Destroy
pub mod Isolation
pub mod Kept
pub mod Ending
pub mod Ps
use os_2024_ususbuntu_with_s.Prelude.{
  ℕ, zero, suc, ◌+◌, ◌-◌, ◌*◌, ◌/◌, ◌%◌, ◌^◌, Bool, true, false, not, ◌||◌, List, [], ◌∷◌, ◌++◌,
  Option, none, some, ltb, leb, ◌==◌, if◌then◌else◌, get_or, set, replicate,
}
use os_2024_ususbuntu_with_s.Prelude.Int.{to_i32, to_u32}
use os_2024_ususbuntu_with_s.Bytes.{strlen, memcpy}
use os_2024_ususbuntu_with_s.Fat32.Layout.{put16, put32}
use os_2024_ususbuntu_with_s.Fat32.Driver.{
  DriverState, DriverRequest, Code, unknown, code, ceil_div,
}
use os_2024_ususbuntu_with_s.Fat32.Files.{read}
use os_2024_ususbuntu_with_s.Paging.{
  Paging, PageDirectory, empty_directory, page_frame_size, user_flag, paging_allocate_check,
  update_page_directory_entry, paging_create_new_page_directory, paging_free_page_directory,
}

abbrev pub process_count_max : ℕ
process_count_max = 16

abbrev pub process_page_frame_count_max : ℕ
process_page_frame_count_max = 8

abbrev pub kernel_virtual_address_base : ℕ
kernel_virtual_address_base = 3221225472

pub data ProcessState : Type 0 where
  process_new process_ready process_running process_waiting process_terminated : ProcessState

pub record CpuRegister : Type 0 where
  pub edi : ℕ
  pub esi : ℕ
  pub ebp : ℕ
  pub esp : ℕ
  pub ebx : ℕ
  pub edx : ℕ
  pub ecx : ℕ
  pub eax : ℕ
  pub gs : ℕ
  pub fs : ℕ
  pub es : ℕ
  pub ds : ℕ

pub record Context : Type 0 where
  pub cpu : CpuRegister
  pub eip : ℕ
  pub eflags : ℕ
  pub ss : ℕ
  pub cs : ℕ
  pub page_directory_virtual_addr : Option ℕ

-- `metadata` and `memory` are one record here.
pub record ProcessControlBlock : Type 0 where
  pub pid : ℕ
  pub name : List ℕ
  pub state : ProcessState
  pub virtual_addr_used : List ℕ
  pub page_frame_used_count : ℕ
  pub context : Context

-- The statics of the two files, and the states of the paging code and of the file system driver.
pub record Kernel : Type 0 where
  pub process_list : List ProcessControlBlock
  pub active_process_count : ℕ
  pub pid_counter : ℕ
  pub paging : Paging
  pub driver : DriverState

abbrev pub empty_context : Context
empty_context = record {
  cpu = record {
    edi = 0;
    esi = 0;
    ebp = 0;
    esp = 0;
    ebx = 0;
    edx = 0;
    ecx = 0;
    eax = 0;
    gs = 0;
    fs = 0;
    es = 0;
    ds = 0;
  };
  eip = 0;
  eflags = 0;
  ss = 0;
  cs = 0;
  page_directory_virtual_addr = none;
}

abbrev pub empty_pcb : ProcessControlBlock
empty_pcb = record {
  pid = 0;
  name = replicate 32 0;
  state = process_new;
  virtual_addr_used = replicate 8 0;
  page_frame_used_count = 0;
  context = empty_context;
}

abbrev pub pcb_at : List ProcessControlBlock → ℕ → ProcessControlBlock
pcb_at pcbs i = get_or pcbs i empty_pcb

unfoldable pub process_get_current_running_pcb_pointer : Kernel → Option ℕ
process_get_current_running_pcb_pointer k =
    if ltb 0 k.active_process_count then some (k.active_process_count - 1) else none

-- The scan of `_process_list` for a process identifier, which both searches make: its rounds left
-- and `i`.
unfoldable pub pid_loop : ℕ → ℕ → List ProcessControlBlock → ℕ → Option ℕ
pid_loop zero i pcbs pid = none
pid_loop (suc rounds) i pcbs pid =
    let rest = pid_loop rounds (i + 1) pcbs pid in
    if (pcb_at pcbs i).pid == pid then some i else rest

-- `none` is -1.
unfoldable pub process_list_get_inactive_index : List ProcessControlBlock → Option ℕ
process_list_get_inactive_index pcbs = pid_loop process_count_max 0 pcbs 0

unfoldable pub process_list_get_pcb_by_pid : List ProcessControlBlock → ℕ → Option ℕ
process_list_get_pcb_by_pid pcbs pid = pid_loop process_count_max 0 pcbs pid

pub record ProcessRequest : Type 0 where
  pub request : DriverRequest
  pub buf_address : ℕ

-- The bytes of the packed request from `name` on: `strlen(request.name)` and the copy read them.
abbrev pub name_bytes : DriverRequest → List ℕ
name_bytes q = q.name ++ (q.ext ++ put32 q.parent_cluster_number (put32 q.buffer_size []))

-- `ceil_div(request.buffer_size + PAGE_FRAME_SIZE, PAGE_FRAME_SIZE)`.
unfoldable pub frames_needed : ℕ → ℕ
frames_needed buffer_size =
    to_u32 (ceil_div (to_i32 ((buffer_size + page_frame_size) % 2 ^ 32)) page_frame_size)

-- The loop that maps the user's pages: the rounds left and `i`.
unfoldable pub map_loop : ℕ → ℕ → PageDirectory → PageDirectory
map_loop zero i page_dir = page_dir
map_loop (suc rounds) i page_dir = map_loop rounds (i + 1) (
    update_page_directory_entry page_dir (i * page_frame_size)
      (kernel_virtual_address_base + i * page_frame_size) user_flag)

-- The addresses that the same loop writes to `virtual_addr_used`.
unfoldable pub addr_loop : ℕ → ℕ → List ℕ → List ℕ
addr_loop zero i used = used
addr_loop (suc rounds) i used =
    addr_loop rounds (i + 1) (set used i (kernel_virtual_address_base + i * page_frame_size))

-- `initial_context`, with its page directory.
abbrev pub initial_context : ℕ → Context
initial_context page_directory = record {
  cpu = record {
    edi = 0;
    esi = 0;
    ebp = 0;
    esp = 4194300;
    ebx = 0;
    edx = 0;
    ecx = 0;
    eax = 0;
    gs = 0;
    fs = 0;
    es = 0;
    ds = 0;
  };
  eip = 0;
  eflags = 514;
  ss = 35;
  cs = 27;
  page_directory_virtual_addr = some page_directory;
}

abbrev pub new_pcb : ProcessControlBlock → DriverRequest → ℕ → ℕ → ℕ → ProcessControlBlock
new_pcb old request frames page_directory pid = record {
  pid = pid;
  name = memcpy old.name (name_bytes request) (strlen (name_bytes request));
  state = process_ready;
  virtual_addr_used = addr_loop frames 0 old.virtual_addr_used;
  page_frame_used_count = frames;
  context = initial_context page_directory;
}

-- The state behind steps 3 and 4.
abbrev pub launched : Kernel → ProcessRequest → ℕ → ℕ → ℕ → Paging → DriverState → Kernel
launched k q frames p_index page_directory paging driver = record {
  process_list =
      set k.process_list p_index
        (new_pcb (pcb_at k.process_list p_index) q.request frames page_directory k.pid_counter);
  active_process_count = k.active_process_count + 1;
  pid_counter = (k.pid_counter + 1) % 2 ^ 32;
  paging = record paging {
    directories =
        set paging.directories page_directory
          (map_loop frames 0 (get_or paging.directories page_directory empty_directory));
  };
  driver = driver;
}

-- Steps 2 to 4, with a new page directory and the slot that was looked for, if there is one: without
-- it the C code writes to `_process_list[-1]`, but only behind the read.
unfoldable pub load_process :
    Kernel → ProcessRequest → ℕ → Option ℕ → ℕ → Paging → Option (ℕ × Kernel)
load_process k q frames slot page_directory paging = elim (read k.driver q.request) [
  | none ↦ none
  | some (code zero, driver, buf) ↦ elim slot [
    | none ↦ none
    | some p_index ↦ some (0, launched k q frames p_index page_directory paging driver)
  ]
  | some (code (suc n), driver, buf) ↦ some (4, record k { paging = paging; driver = driver })
  | some (unknown, driver, buf) ↦ some (4, record k { paging = paging; driver = driver })
]

-- The return code and the state. `none` is a fault: the read does not return, or it returns 0 and no
-- PCB is free.
unfoldable pub process_create_user_process : Kernel → ProcessRequest → Option (ℕ × Kernel)
process_create_user_process k q =
    let frames = frames_needed q.request.buffer_size in
    if leb process_count_max k.active_process_count
    then some (1, k)
    else if leb kernel_virtual_address_base q.buf_address
    then some (2, k)
    else if not (paging_allocate_check k.paging.manager frames)
        || ltb process_page_frame_count_max frames
    then some (3, k)
    else let (created, paging) = paging_create_new_page_directory k.paging in
      elim created [
        | none ↦ some (3, record k { paging = paging })
        | some page_directory ↦
            load_process k q frames (process_list_get_inactive_index k.process_list) page_directory
              paging
      ]

-- Releasing the page directory may find a null pointer or one outside the list, and does nothing.
unfoldable pub process_destroy : Kernel → ℕ → Bool × Kernel
process_destroy k pid = elim (process_list_get_pcb_by_pid k.process_list pid) [
  | none ↦ (false, k)
  | some i ↦
      let pcb = pcb_at k.process_list i in
      (
        true,
        record k {
          process_list =
              set k.process_list i
                record pcb { pid = 0; name = set pcb.name 0 0; state = process_terminated };
          paging = (paging_free_page_directory k.paging pcb.context.page_directory_virtual_addr).1;
        },
      )
]
