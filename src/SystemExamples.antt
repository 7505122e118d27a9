-- ===== src/SystemExamples.antt =====
-- The theorems on the clock, numbers as text, the screen, the keyboard, interrupts and the shell at
-- small inputs.
use os_2024_ususbuntu_with_s.Prelude.{
  ℕ, ◌<◌, ◌≤◌, ◌≡◌, ◌≢◌, ◌↔◌, refl, true, false, [], ◌∷◌, ◌++◌, some, arith, length,
  length-replicate,
}
use os_2024_ususbuntu_with_s.Prelude.Int.{pos, negsuc}
use os_2024_ususbuntu_with_s.Clock.{Sample, read_rtc, stable_loop}
use os_2024_ususbuntu_with_s.Clock.Calendar.{IsTime, IsLater, registers, days_in_month}
use os_2024_ususbuntu_with_s.Clock.Stable.{IsStable, stable_loop-IsStable, read_rtc-IsLater}
use os_2024_ususbuntu_with_s.Decimal.{int_to_str, str_to_int}
use os_2024_ususbuntu_with_s.Decimal.Text.{pow10, length-int_to_str, str_to_int-int_to_str}
use os_2024_ususbuntu_with_s.Framebuffer.{Framebuffer, framebuffer_clear, puts}
use os_2024_ususbuntu_with_s.Framebuffer.Paper.{
  IsShown, print_text, empty_paper, framebuffer_clear-IsShown, puts-IsShown,
}
use os_2024_ususbuntu_with_s.Keyboard.{
  Terminal, KeyboardDriverState, keyboard_isr, get_keyboard_buffer,
}
use os_2024_ususbuntu_with_s.Keyboard.Cursor.{IsTyping, keyboard_isr-IsTyping}
use os_2024_ususbuntu_with_s.Keyboard.Letters.{letter, key_char, keyboard_isr-get_keyboard_buffer}
use os_2024_ususbuntu_with_s.Shell.{split_by_first, is_include}
use os_2024_ususbuntu_with_s.Shell.Names.{
  get_last_name, remove_petik, remove_space, without, get_last_name_lem, remove_petik-remove_space,
}
use os_2024_ususbuntu_with_s.Shell.Split.{IsSplit, split_by_first-IsSplit}
use os_2024_ususbuntu_with_s.Descriptors.{
  IdtGate, interrupt_descriptor_table, global_descriptor_table, empty_gate, gate_at, segment_at,
  initialize_idt, gdt_install_tss, tss_size, isr_stub_table_limit,
}
use os_2024_ususbuntu_with_s.Descriptors.Gates.{IsGate, initialize_idt-IsGate}
use os_2024_ususbuntu_with_s.Descriptors.Segments.{base_of, limit_of, gdt_install_tss-base_of}

-- New Year's Eve in the evening, and a leap day.
abbrev new_year_eve : Sample
new_year_eve = record { second = 30; minute = 59; hour = 20; day = 31; month = 12; year = 2024 }

new_year_eve-IsTime : IsTime new_year_eve
unfolding days_in_month
new_year_eve-IsTime = record {
  second = omega arith;
  minute = omega arith;
  hour = omega arith;
  month_low = omega arith;
  month_high = omega arith;
  day_low = omega arith;
  day_high = omega arith;
  year_low = omega arith;
}

stable_loop-IsStable_example :
    (t : Sample) × (stable_loop 1 (λ n. registers new_year_eve) 0 ≡ some t)
    × IsStable (λ n. registers new_year_eve) 0 0 t
stable_loop-IsStable_example =
    stable_loop-IsStable 1 (λ n. registers new_year_eve) 0 0 (omega arith) (omega arith) refl

read_rtc-IsLater_example :
    (u : Sample) × (read_rtc 1 (λ n. registers new_year_eve) 2 ≡ some u) × IsLater 7 new_year_eve u
read_rtc-IsLater_example =
    read_rtc-IsLater 1 (λ n. registers new_year_eve) 0 2 new_year_eve (omega arith)
      new_year_eve-IsTime (omega arith) (omega arith) refl refl (λ n h e. refl) refl

str_to_int-int_to_str_example : str_to_int (int_to_str (negsuc 2023)) ≡ negsuc 2023
str_to_int-int_to_str_example = str_to_int-int_to_str (negsuc 2023) (omega arith)

length-int_to_str_example : (length (int_to_str (pos 4711)) ≤ 9) ↔ (4711 < pow10 9)
length-int_to_str_example = length-int_to_str 4711 9 (omega arith) (omega arith)

abbrev blank_screen : Framebuffer
blank_screen = record { cur_row = 0; cur_col = 0; start_row = 0; start_col = 0; memory = λ k. 0 }

puts-IsShown_example :
    IsShown
      (puts (72 ∷ 105 ∷ 10 ∷ []) 3 15 (framebuffer_clear blank_screen))
      (print_text (72 ∷ 105 ∷ 10 ∷ []) 3 15 (empty_paper blank_screen))
puts-IsShown_example =
    puts-IsShown (72 ∷ 105 ∷ 10 ∷ []) 3 15 (framebuffer_clear blank_screen)
      (empty_paper blank_screen)
      (framebuffer_clear-IsShown blank_screen (omega arith) (omega arith))

-- The shift key is held.
abbrev typing : Terminal
typing = record {
  keyboard = record {
    keyboard_input_on = true;
    capslock_on = false;
    shift_on = true;
    ctrl_on = false;
    buffer_index = 0;
    keyboard_buffer = 0;
  };
  framebuffer = record blank_screen { cur_row = 24; cur_col = 79 };
}

keyboard_isr-IsTyping_example : IsTyping (keyboard_isr 30 typing).framebuffer
keyboard_isr-IsTyping_example =
    keyboard_isr-IsTyping 30 typing (record { row_bound = omega arith; col_bound = omega arith })
      (omega arith) (omega arith) (omega arith)

keyboard_isr-get_keyboard_buffer_example :
    (k : KeyboardDriverState) × (get_keyboard_buffer (keyboard_isr 30 typing).keyboard
      ≡ (letter false true (key_char 30), pos 0, k))
    × (get_keyboard_buffer k ≡ (0, negsuc 0, k))
keyboard_isr-get_keyboard_buffer_example =
    keyboard_isr-get_keyboard_buffer 30 typing refl refl (omega arith) (omega arith)

get_last_name_lem_example :
    (get_last_name ((97 ∷ 47 ∷ 98 ∷ []) ++ (47 ∷ (99 ∷ 100 ∷ []))) ≡ 99 ∷ 100 ∷ [])
    × (get_last_name (99 ∷ 100 ∷ []) ≡ 99 ∷ 100 ∷ [])
unfolding is_include
get_last_name_lem_example = get_last_name_lem (97 ∷ 47 ∷ 98 ∷ []) (99 ∷ 100 ∷ []) refl

remove_petik-remove_space_example :
    (remove_petik (remove_space (34 ∷ 97 ∷ 32 ∷ 34 ∷ 98 ∷ []))
      ≡ without 34 (without 32 (34 ∷ 97 ∷ 32 ∷ 34 ∷ 98 ∷ [])))
    × (remove_petik (remove_space (34 ∷ 97 ∷ 32 ∷ 34 ∷ 98 ∷ []))
        ≡ remove_space (remove_petik (34 ∷ 97 ∷ 32 ∷ 34 ∷ 98 ∷ [])))
remove_petik-remove_space_example = remove_petik-remove_space (34 ∷ 97 ∷ 32 ∷ 34 ∷ 98 ∷ [])

split_by_first-IsSplit_example :
    IsSplit
      (99 ∷ 100 ∷ 32 ∷ 97 ∷ [])
      32
      (split_by_first (99 ∷ 100 ∷ 32 ∷ 97 ∷ []) 32).0
      (split_by_first (99 ∷ 100 ∷ 32 ∷ 97 ∷ []) 32).1
split_by_first-IsSplit_example = split_by_first-IsSplit (99 ∷ 100 ∷ 32 ∷ 97 ∷ []) 32

initialize_idt-IsGate_example :
    ((i : ℕ)
      → i < isr_stub_table_limit
      → IsGate
          (gate_at (initialize_idt (λ n. 3222274048) interrupt_descriptor_table) i)
          i
          3222274048)
    × ((i : ℕ)
        → isr_stub_table_limit ≤ i
        → gate_at (initialize_idt (λ n. 3222274048) interrupt_descriptor_table) i
          ≡ gate_at interrupt_descriptor_table i)
initialize_idt-IsGate_example =
    initialize_idt-IsGate (λ n. 3222274048) interrupt_descriptor_table
      (length-replicate {A = IdtGate} 256 empty_gate) (λ i. omega arith)

gdt_install_tss-base_of_example :
    (base_of (segment_at (gdt_install_tss 3222339584 global_descriptor_table) 5) ≡ 3222339584)
    × (limit_of (segment_at (gdt_install_tss 3222339584 global_descriptor_table) 5) ≡ tss_size)
    × ((segment_at (gdt_install_tss 3222339584 global_descriptor_table) 5).present ≡ 1)
    × ((i : ℕ)
        → i ≢ 5
        → segment_at (gdt_install_tss 3222339584 global_descriptor_table) i
          ≡ segment_at global_descriptor_table i)
gdt_install_tss-base_of_example =
    gdt_install_tss-base_of 3222339584 global_descriptor_table (omega arith) (omega arith) refl
