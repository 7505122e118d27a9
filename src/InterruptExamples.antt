-- ===== src/InterruptExamples.antt =====
-- The theorem on the states that interrupts lead to, at a creation.
use os_2024_ususbuntu_with_s.Prelude.{false, [], none}
use os_2024_ususbuntu_with_s.Process.{Kernel, empty_context}
use os_2024_ususbuntu_with_s.KernelExamples.{launch_request}
use os_2024_ususbuntu_with_s.Keyboard.{Terminal}
use os_2024_ususbuntu_with_s.Interrupt
use os_2024_ususbuntu_with_s.Interrupt.{Machine, InterruptFrame, Surroundings}

abbrev quiet_terminal : Terminal
quiet_terminal = record {
  keyboard = record {
    keyboard_input_on = false;
    capslock_on = false;
    shift_on = false;
    ctrl_on = false;
    buffer_index = 0;
    keyboard_buffer = 0;
  };
  framebuffer = record { cur_row = 0; cur_col = 0; start_row = 0; start_col = 0; memory = λ k. 0 };
}

abbrev machine : Kernel → Machine
machine k = record {
  scheduler = record { kernel = k; current_running_process_index = none };
  terminal = quiet_terminal;
}

abbrev surroundings : Surroundings
surroundings = record {
  scancode = 30;
  rtc = λ n. record { second = 0; minute = 0; hour = 0; day = 1; month = 1; year = 24 };
  register_b = 2;
  stack = [];
  unset_ss = 35;
  unset_cs = 27;
  rounds = 1;
  depth = 1;
}

abbrev create_frame : InterruptFrame
create_frame = record {
  cpu = record empty_context.cpu { eax = 15 };
  int_number = 48;
  eip = 0;
  eflags = 0;
  request = launch_request;
  text = [];
  pattern = [];
}
