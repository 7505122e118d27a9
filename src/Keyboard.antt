-- ===== src/Keyboard.antt =====
-- The keyboard: src/keyboard.c and src/header/driver/keyboard.h, over the text screen. A scancode
-- read from the port is an argument; `pic_ack` and `framebuffer_set_cursor` only write to ports and
-- are left out. `scroll_up` stands in Framebuffer.antt.
pub mod Cursor
pub mod Letters
use os_2024_ususbuntu_with_s.Prelude.{
  ℕ, zero, suc, ◌+◌, ◌-◌, ◌*◌, ◌/◌, ◌%◌, ◌^◌, Bool, true, false, not, ◌&&◌, ◌||◌, List, [], ◌∷◌,
  ◌++◌, ltb, leb, ◌==◌, if◌then◌else◌, get_or, replicate,
}
use os_2024_ususbuntu_with_s.Prelude.Int.{ℤ, pos, negsuc, lt_i32, inc_i32, dec_i32}
use os_2024_ususbuntu_with_s.Framebuffer.{
  Framebuffer, max_column, max_row, framebuffer_write, scroll_up,
}

-- `read_extended_mode` is used by no code.
pub record KeyboardDriverState : Type 0 where
  pub keyboard_input_on : Bool
  pub capslock_on : Bool
  pub shift_on : Bool
  pub ctrl_on : Bool
  pub buffer_index : ℕ
  pub keyboard_buffer : ℕ

pub record Terminal : Type 0 where
  pub keyboard : KeyboardDriverState
  pub framebuffer : Framebuffer

-- The entries of the table up to its last character; those after it are 0.
abbrev pub keyboard_scancode_1_to_ascii_map : List ℕ
keyboard_scancode_1_to_ascii_map =
    (0 ∷ 27 ∷ b'1' ∷ b'2' ∷ b'3' ∷ b'4' ∷ b'5' ∷ b'6' ∷ [])
    ++ (b'7' ∷ b'8' ∷ b'9' ∷ b'0' ∷ b'-' ∷ b'=' ∷ 8 ∷ 9 ∷ [])
    ++ (b'q' ∷ b'w' ∷ b'e' ∷ b'r' ∷ b't' ∷ b'y' ∷ b'u' ∷ b'i' ∷ [])
    ++ (b'o' ∷ b'p' ∷ b'[' ∷ b']' ∷ b'\n' ∷ 0 ∷ b'a' ∷ b's' ∷ [])
    ++ (b'd' ∷ b'f' ∷ b'g' ∷ b'h' ∷ b'j' ∷ b'k' ∷ b'l' ∷ b';' ∷ [])
    ++ (39 ∷ b'`' ∷ 0 ∷ 92 ∷ b'z' ∷ b'x' ∷ b'c' ∷ b'v' ∷ [])
    ++ (b'b' ∷ b'n' ∷ b'm' ∷ b',' ∷ b'.' ∷ b'/' ∷ 0 ∷ b'*' ∷ [])
    ++ (0 ∷ b' ' ∷ 0 ∷ 0 ∷ 0 ∷ 0 ∷ 0 ∷ 0 ∷ [])
    ++ (0 ∷ 0 ∷ 0 ∷ 0 ∷ 0 ∷ 0 ∷ 0 ∷ 0 ∷ [])
    ++ (0 ∷ 0 ∷ b'-' ∷ 0 ∷ 0 ∷ 0 ∷ b'+' ∷ 0 ∷ [])

-- The characters from 39 on; those before it and between these rows are 0.
abbrev pub shift_map : List ℕ
shift_map =
    replicate 39 0
    ++ (b'"' ∷ 0 ∷ 0 ∷ 0 ∷ 0 ∷ b'<' ∷ b'_' ∷ b'>' ∷ b'?' ∷ b')' ∷ b'!' ∷ [])
    ++ (b'@' ∷ b'#' ∷ b'$' ∷ b'%' ∷ b'^' ∷ b'&' ∷ b'*' ∷ b'(' ∷ 0 ∷ b':' ∷ 0 ∷ b'+' ∷ [])
    ++ replicate 29 0
    ++ (b'{' ∷ b'|' ∷ b'}' ∷ 0 ∷ 0 ∷ b'~' ∷ [])

unfoldable pub keyboard_state_activate : Terminal → Terminal
keyboard_state_activate t = record t {
  keyboard = record t.keyboard {
    buffer_index = 0;
    keyboard_input_on = true;
    shift_on = false;
    capslock_on = false;
    ctrl_on = false;
  };
  framebuffer = record t.framebuffer {
    start_col = t.framebuffer.cur_col;
    start_row = t.framebuffer.cur_row;
  };
}

unfoldable pub keyboard_state_deactivate : KeyboardDriverState → KeyboardDriverState
keyboard_state_deactivate k = record k { keyboard_input_on = false }

-- `buf[0]`, `*retcode` and the state.
unfoldable pub get_keyboard_buffer : KeyboardDriverState → ℕ × ℤ × KeyboardDriverState
get_keyboard_buffer k = (
  k.keyboard_buffer,
  (if k.keyboard_buffer == 0 then negsuc 0 else pos 0),
  (if k.keyboard_buffer == 0 then k else record k { keyboard_buffer = 0 }),
)

-- In a byte.
unfoldable pub get_current_buffer_index : Framebuffer → ℕ
get_current_buffer_index f =
    (f.cur_col + (4294967296 - f.start_col) + (f.cur_row + (4294967296 - f.start_row)) * max_column)
    % 256

abbrev pub is_keyboard_blocking : KeyboardDriverState → Bool
is_keyboard_blocking k = k.keyboard_input_on

unfoldable pub left_arrow : Framebuffer → Framebuffer
left_arrow f =
    let col = dec_i32 f.cur_col in
    if get_current_buffer_index f == 0
    then f
    else (if lt_i32 col 0
        then record f { cur_col = max_column - 1; cur_row = dec_i32 f.cur_row }
        else record f { cur_col = col })

unfoldable pub right_arrow : Framebuffer → Framebuffer
right_arrow f =
    let col = inc_i32 f.cur_col in
    if col == max_column
    then record f { cur_col = 0; cur_row = inc_i32 f.cur_row }
    else record f { cur_col = col }

unfoldable pub up_arrow : Framebuffer → Framebuffer
up_arrow f = if lt_i32 f.start_row f.cur_row then record f { cur_row = dec_i32 f.cur_row } else f

unfoldable pub down_arrow : Framebuffer → Framebuffer
down_arrow f =
    if lt_i32 f.cur_row (max_row - 1) then record f { cur_row = inc_i32 f.cur_row } else f

-- The switch on the scancode.
unfoldable pub switch_scancode : ℕ → Terminal → Terminal
switch_scancode scancode t =
    if scancode == 58
    then record t { keyboard = record t.keyboard { capslock_on = not t.keyboard.capslock_on } }
    else if (scancode == 42) || (scancode == 54)
    then record t { keyboard = record t.keyboard { shift_on = true } }
    else if (scancode == 170) || (scancode == 182)
    then record t { keyboard = record t.keyboard { shift_on = false } }
    else if scancode == 29
    then record t { keyboard = record t.keyboard { ctrl_on = true } }
    else if scancode == 157
    then record t { keyboard = record t.keyboard { ctrl_on = false } }
    else if scancode == 75
    then record t { framebuffer = left_arrow t.framebuffer }
    else if scancode == 77
    then record t { framebuffer = right_arrow t.framebuffer }
    else if scancode == 72
    then record t { framebuffer = up_arrow t.framebuffer }
    else if scancode == 80
    then record t { framebuffer = down_arrow t.framebuffer }
    else t

-- The character of a key that prints, with the letter or shifted character it stands for.
unfoldable pub shifted : KeyboardDriverState → ℕ → ℕ
shifted k ascii_char =
    if leb b'a' ascii_char && leb ascii_char b'z'
    then (if (k.capslock_on && not k.shift_on) || (not k.capslock_on && k.shift_on)
        then b'A' + ascii_char - b'a'
        else ascii_char)
    else (if k.shift_on && (ltb ascii_char 97 && not (get_or shift_map ascii_char 0 == 0))
        then get_or shift_map ascii_char 0
        else ascii_char)

abbrev pub scroll_full : Framebuffer → Framebuffer
scroll_full f = if f.cur_row == max_row then scroll_up f else f

-- The branch of a character that is shown.
unfoldable pub type_char : ℕ → Framebuffer → Framebuffer
type_char c f =
    let line =
      if lt_i32 f.cur_col max_column
      then f
      else record f { cur_row = inc_i32 f.cur_row; cur_col = 0 } in
    scroll_full (record line {
      memory = framebuffer_write line.memory line.cur_row line.cur_col c 255 0;
      cur_col = inc_i32 line.cur_col;
    })

-- The branches of a line feed and of a backspace.
unfoldable pub type_newline : Framebuffer → Framebuffer
type_newline f = scroll_full (record f { cur_row = inc_i32 f.cur_row; cur_col = 0 })

abbrev pub step_back : Framebuffer → Framebuffer
step_back f =
    let row = dec_i32 f.cur_row in
    if f.cur_col == 0
    then (if lt_i32 row 0
        then record f { cur_row = 0; cur_col = 0 }
        else record f { cur_row = row; cur_col = max_column - 1 })
    else record f { cur_col = dec_i32 f.cur_col }

unfoldable pub type_backspace : Framebuffer → Framebuffer
type_backspace f =
    let g = step_back f in
    record g { memory = framebuffer_write g.memory g.cur_row g.cur_col b' ' 255 0 }

-- What a scancode's character does.
unfoldable pub type_ascii : ℕ → Terminal → Terminal
type_ascii ascii_char t =
    let k = t.keyboard in
    if ascii_char == 0
    then t
    else if k.ctrl_on && ((ascii_char == b'c') || (ascii_char == b'C'))
    then record t { keyboard = keyboard_state_deactivate k }
    else if ascii_char == 8
    then (if ltb 0 k.buffer_index
        then record t {
          keyboard = record k { buffer_index = k.buffer_index - 1; keyboard_buffer = 8 };
          framebuffer = type_backspace t.framebuffer;
        }
        else t)
    else if ascii_char == b'\n'
    then record t {
      keyboard = keyboard_state_deactivate (record k { keyboard_buffer = b'\n' });
      framebuffer = type_newline t.framebuffer;
    }
    else (let c = shifted k ascii_char in
        record t {
          keyboard = record k { keyboard_buffer = c; buffer_index = (k.buffer_index + 1) % 256 };
          framebuffer = type_char c t.framebuffer;
        })

unfoldable pub keyboard_isr : ℕ → Terminal → Terminal
keyboard_isr scancode t =
    if t.keyboard.keyboard_input_on
    then type_ascii (get_or keyboard_scancode_1_to_ascii_map scancode 0)
        (switch_scancode scancode t)
    else record t { keyboard = record t.keyboard { buffer_index = 0 } }
