-- ===== src/Interrupt.antt =====
-- System calls and interrupts: src/interrupt.c and src/header/cpu/interrupt.h. The pointers of a
-- call stand beside the registers as what they point to, and what is written through them is the
-- reply. Ports (the PICs, the keyboard, the CMOS clock) are left out or given by what they read.
pub mod Steps
use os_2024_ususbuntu_with_s.Prelude.{
  ℕ, zero, suc, ◌+◌, ◌-◌, ◌/◌, ◌%◌, Bool, true, false, List, [], ◌∷◌, Option, none, some, ◌==◌,
  if◌then◌else◌,
}
use os_2024_ususbuntu_with_s.Prelude.Int.{ℤ}
use os_2024_ususbuntu_with_s.Fat32.Driver.{DriverState, DriverRequest, Code}
use os_2024_ususbuntu_with_s.Fat32.Files.{read, write, delete}
use os_2024_ususbuntu_with_s.Fat32.Directory.{
  read_directory, move_to_child_directory, move_to_parent_directory,
}
use os_2024_ususbuntu_with_s.Traverse.Listing.{list_dir_content, print}
use os_2024_ususbuntu_with_s.Traverse.Path.{Found, print_path_to_dir}
use os_2024_ususbuntu_with_s.Traverse.Dls.{Outcome, search_dls_bm, search_dls_kmp}
use os_2024_ususbuntu_with_s.Process.{
  Kernel, Context, CpuRegister, ProcessRequest, pcb_at, process_create_user_process,
  process_destroy, process_get_current_running_pcb_pointer,
}
use os_2024_ususbuntu_with_s.Process.Ps.{ps}
use os_2024_ususbuntu_with_s.Scheduler.{Scheduler, scheduler_save_context_to_current_running_pcb}
use os_2024_ususbuntu_with_s.Framebuffer.{
  Framebuffer, framebuffer_write, framebuffer_clear, putchar, puts,
}
use os_2024_ususbuntu_with_s.Keyboard.{
  Terminal, keyboard_isr, keyboard_state_activate, get_keyboard_buffer,
}
use os_2024_ususbuntu_with_s.Clock.{Sample, read_rtc}

pub record Machine : Type 0 where
  pub scheduler : Scheduler
  pub terminal : Terminal

-- `struct InterruptFrame`, with what its registers point to: the request and the text at `ebx`, and
-- the text at `edx`.
pub record InterruptFrame : Type 0 where
  pub cpu : CpuRegister
  pub int_number : ℕ
  pub eip : ℕ
  pub eflags : ℕ
  pub request : ProcessRequest
  pub text : List ℕ
  pub pattern : List ℕ

-- What the devices give, what is left on the stack, and the bounds of the loops that may be endless.
pub record Surroundings : Type 0 where
  pub scancode : ℕ
  pub rtc : ℕ → Sample
  pub register_b : ℕ
  pub stack : List ℕ
  pub unset_ss : ℕ
  pub unset_cs : ℕ
  pub rounds : ℕ
  pub depth : ℕ

-- What is written through the pointers of a call. A text has its last byte first.
pub data Reply : Type 0 where
  nothing : Reply
  status : Code → Reply
  content : Code → List ℕ → Reply
  cluster : ℕ → Reply
  key : ℕ → ℤ → Reply
  listing : List ℕ → Reply
  processes : List ℕ → Reply
  time : ℕ → ℕ → ℕ → Reply

abbrev pub with_kernel : Machine → Kernel → Machine
with_kernel m k = record m { scheduler = record m.scheduler { kernel = k } }

abbrev pub with_driver : Machine → DriverState → Machine
with_driver m d = with_kernel m (record m.scheduler.kernel { driver = d })

abbrev pub with_screen : Machine → Framebuffer → Machine
with_screen m f = record m { terminal = record m.terminal { framebuffer = f } }

-- The file calls.
unfoldable pub call_read : Machine → DriverRequest → Option (Machine × Reply)
call_read m q = elim (read m.scheduler.kernel.driver q) [
  | none ↦ none
  | some (c, d, buf) ↦ some (with_driver m d, content c buf)
]

unfoldable pub call_read_directory : Machine → DriverRequest → Option (Machine × Reply)
call_read_directory m q =
    let r = read_directory m.scheduler.kernel.driver q in some (with_driver m r.1, status r.0)

unfoldable pub call_write : Machine → DriverRequest → Option (Machine × Reply)
call_write m q = let r = write m.scheduler.kernel.driver q in some (with_driver m r.1, status r.0)

unfoldable pub call_delete : Machine → DriverRequest → Option (Machine × Reply)
call_delete m q = elim (delete m.scheduler.kernel.driver q) [
  | none ↦ none
  | some (c, d) ↦ some (with_driver m d, status c)
]

abbrev pub call_search : Machine → Option Outcome → Option (Machine × Reply)
call_search m none = none
call_search m (some o) = some (with_driver m o.state, listing o.out)

abbrev pub call_listing : Machine → Option (List ℕ) → Option (Machine × Reply)
call_listing m none = none
call_listing m (some out) = some (m, listing out)

abbrev pub call_path : Machine → Option Found → Option (Machine × Reply)
call_path m none = none
call_path m (some r) = some (m, listing r.out)

abbrev pub call_create : Machine → Option (ℕ × Kernel) → Option (Machine × Reply)
call_create m none = none
call_create m (some (c, k)) = some (with_kernel m k, nothing)

-- The calls 5, 6 and 13 on the screen, and the call 4 on the keyboard.
unfoldable pub call_key : Machine → Option (Machine × Reply)
call_key m =
    let r = get_keyboard_buffer m.terminal.keyboard in
    some (record m { terminal = record m.terminal { keyboard = r.2 } }, key r.0 r.1)

unfoldable pub call_clear : Machine → Option (Machine × Reply)
call_clear m = some (
  with_screen m (record (framebuffer_clear m.terminal.framebuffer) { cur_col = 0; cur_row = 0 }),
  nothing,
)

-- The eight spaces of call 17 go to the row above the clock.
unfoldable pub blank_loop : ℕ → ℕ → (ℕ → ℕ) → ℕ → ℕ
blank_loop zero i memory = memory
blank_loop (suc left) i memory =
    blank_loop left (i + 1) (framebuffer_write memory 23 (72 + i) b' ' 7 0)

abbrev pub put_two : (ℕ → ℕ) → ℕ → ℕ → ℕ → ℕ
put_two memory col value =
    framebuffer_write (framebuffer_write memory 24 col (value / 10 + b'0') 10 0) 24 (col + 1)
      (value % 10 + b'0') 10 0

unfoldable pub draw_clock : Sample → (ℕ → ℕ) → ℕ → ℕ
draw_clock t memory =
    let hours = put_two (blank_loop 8 0 memory) 72 t.hour in
    let minutes = put_two (framebuffer_write hours 24 74 b':' 10 0) 75 t.minute in
    put_two (framebuffer_write minutes 24 77 b':' 10 0) 78 t.second

abbrev pub call_time : Machine → Option Sample → Option (Machine × Reply)
call_time m none = none
call_time m (some t) =
    let f = m.terminal.framebuffer in
    some
      (with_screen m (record f { memory = draw_clock t f.memory }), time t.hour t.minute t.second)

-- The switch of `syscall` from the call 12 on; the numbers that it does not have do nothing.
unfoldable pub later_calls : Machine → Surroundings → InterruptFrame → Option (Machine × Reply)
later_calls m s f =
    let eax = f.cpu.eax in
    let ecx = f.cpu.ecx in
    let k = m.scheduler.kernel in
    if eax == 12
    then call_search m (search_dls_bm k.driver ecx f.pattern)
    else if eax == 19
    then call_search m (search_dls_kmp k.driver ecx f.pattern)
    else if eax == 13
    then call_clear m
    else if eax == 14
    then some (with_kernel m (process_destroy k f.cpu.ebx).1, nothing)
    else if eax == 15
    then call_create m (process_create_user_process k f.request)
    else if eax == 16
    then some (m, processes (ps k.process_list))
    else if eax == 17
    then call_time m (read_rtc s.rounds s.rtc s.register_b)
    else if eax == 18
    then call_path m (print_path_to_dir s.stack f.pattern s.depth k.driver.disk ecx)
    else some (m, nothing)

-- The switch of `syscall`. `none` is a call that does not return.
unfoldable pub syscall : Machine → Surroundings → InterruptFrame → Option (Machine × Reply)
syscall m s f =
    let eax = f.cpu.eax in
    let ecx = f.cpu.ecx in
    let k = m.scheduler.kernel in
    let q = f.request.request in
    let screen = m.terminal.framebuffer in
    if eax == 0
    then call_read m q
    else if eax == 1
    then call_read_directory m q
    else if eax == 2
    then call_write m q
    else if eax == 3
    then call_delete m q
    else if eax == 4
    then call_key m
    else if eax == 5
    then some (with_screen m (putchar (f.cpu.ebx % 256) ecx screen), nothing)
    else if eax == 6
    then some (with_screen m (puts f.text ecx f.cpu.edx screen), nothing)
    else if eax == 7
    then some (record m { terminal = keyboard_state_activate m.terminal }, nothing)
    else if eax == 8
    then some (m, cluster (move_to_child_directory k.driver q))
    else if eax == 9
    then some (m, cluster (move_to_parent_directory k.driver q))
    else if eax == 10
    then some (m, listing (list_dir_content k.driver.disk ecx))
    else if eax == 11
    then call_listing m (print s.depth k.driver.disk ecx)
    else later_calls m s f

-- The segments `ss` and `cs` are never set.
abbrev pub context_of : Kernel → Surroundings → InterruptFrame → ℕ → Context
context_of k s f i = record {
  cpu = f.cpu;
  eip = f.eip;
  eflags = f.eflags;
  ss = s.unset_ss;
  cs = s.unset_cs;
  page_directory_virtual_addr = (pcb_at k.process_list i).context.page_directory_virtual_addr;
}

-- `none` is a null pointer that is followed.
unfoldable pub create_context_from_interrupt_frame :
    Kernel → Surroundings → InterruptFrame → Option Context
create_context_from_interrupt_frame k s f = elim (process_get_current_running_pcb_pointer k) [
  | none ↦ none
  | some i ↦ some (context_of k s f i)
]

abbrev pub timer_tick : Machine → Option Context → Option (Machine × Reply)
timer_tick m none = none
timer_tick m (some ctx) = some (
  record m { scheduler = scheduler_save_context_to_current_running_pcb m.scheduler ctx },
  nothing,
)

-- `PIC1_OFFSET + IRQ_KEYBOARD`, `PIC1_OFFSET + IRQ_TIMER` and 0x30.
unfoldable pub main_interrupt_handler :
    Machine → Surroundings → InterruptFrame → Option (Machine × Reply)
main_interrupt_handler m s f =
    if f.int_number == 33
    then some (record m { terminal = keyboard_isr s.scancode m.terminal }, nothing)
    else if f.int_number == 32
    then timer_tick m (create_context_from_interrupt_frame m.scheduler.kernel s f)
    else if f.int_number == 48
    then syscall m s f
    else some (m, nothing)
