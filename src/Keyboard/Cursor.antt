-- ===== src/Keyboard/Cursor.antt =====
-- Where `keyboard_isr` (src/keyboard.c) leaves the cursor.
use os_2024_ususbuntu_with_s.Prelude.{
  ℕ, ◌<◌, ◌≤◌, ◌≢◌, if◌then◌else◌, arith, Bool-cases, inl, inr, get_or,
}
use os_2024_ususbuntu_with_s.Framebuffer.{Framebuffer, max_column, framebuffer_write, scroll_up}
use os_2024_ususbuntu_with_s.Prelude.Int.{lt_i32, inc_i32}
use os_2024_ususbuntu_with_s.Keyboard.{
  Terminal, type_char, type_newline, type_backspace, type_ascii, scroll_full, keyboard_isr,
  switch_scancode, shifted, down_arrow, keyboard_scancode_1_to_ascii_map,
}

-- The cursor is on the screen, or past the end of a line that is full.
pub record IsTyping (f : Framebuffer) : Type 0 where
  pub row_bound : f.cur_row < 25
  pub col_bound : f.cur_col ≤ 80

scroll_full-IsTyping :
    (f : Framebuffer) → f.cur_row ≤ 25 → f.cur_col ≤ 80 → IsTyping (scroll_full f)
unfolding scroll_up
scroll_full-IsTyping f h k = record { row_bound = ground arith; col_bound = ground arith }

-- The line that a character goes to.
line_for : Framebuffer → Framebuffer
line_for f =
    if lt_i32 f.cur_col max_column then f else record f { cur_row = inc_i32 f.cur_row; cur_col = 0 }

type_char-IsTyping : (c : ℕ) (f : Framebuffer) → IsTyping f → IsTyping (type_char c f)
unfolding type_char line_for
type_char-IsTyping c f t =
    scroll_full-IsTyping
      (record (line_for f) {
        memory =
            framebuffer_write (line_for f).memory (line_for f).cur_row (line_for f).cur_col c 255 0;
        cur_col = inc_i32 (line_for f).cur_col;
      })
      (ground (arith, t.row_bound)) (ground (arith, t.col_bound))

type_newline-IsTyping : (f : Framebuffer) → IsTyping f → IsTyping (type_newline f)
unfolding type_newline
type_newline-IsTyping f t =
    scroll_full-IsTyping (record f { cur_row = inc_i32 f.cur_row; cur_col = 0 })
      (omega (arith, t.row_bound)) (omega arith)

type_backspace-IsTyping : (f : Framebuffer) → IsTyping f → IsTyping (type_backspace f)
unfolding type_backspace
type_backspace-IsTyping f t = record {
  row_bound = ground (arith, t.row_bound);
  col_bound = ground (arith, t.col_bound);
}

type_ascii-IsTyping :
    (ascii_char : ℕ) (t : Terminal)
    → IsTyping t.framebuffer
    → IsTyping (type_ascii ascii_char t).framebuffer
unfolding type_ascii
type_ascii-IsTyping ascii_char t h =
    let a = type_char-IsTyping (shifted t.keyboard ascii_char) t.framebuffer h in
    let b = type_newline-IsTyping t.framebuffer h in
    let c = type_backspace-IsTyping t.framebuffer h in
    record {
      row_bound = ground (arith, a.row_bound, b.row_bound, c.row_bound, h.row_bound);
      col_bound = ground (arith, a.col_bound, b.col_bound, c.col_bound, h.col_bound);
    }

switch_scancode-IsTyping :
    (scancode : ℕ) (t : Terminal)
    → IsTyping t.framebuffer
    → scancode ≢ 75
    → scancode ≢ 77
    → scancode ≢ 72
    → IsTyping (switch_scancode scancode t).framebuffer
unfolding switch_scancode down_arrow
switch_scancode-IsTyping scancode t h left right up = record {
  row_bound = ground (arith, h.row_bound);
  col_bound = ground (arith, h.col_bound);
}

-- From a row of the screen and a column of at most 80, every key but the left, right and up arrows
-- leaves the cursor on a row of the screen and at a column of at most 80.
pub keyboard_isr-IsTyping :
    (scancode : ℕ) (t : Terminal)
    → IsTyping t.framebuffer
    → scancode ≢ 75
    → scancode ≢ 77
    → scancode ≢ 72
    → IsTyping (keyboard_isr scancode t).framebuffer
unfolding keyboard_isr
keyboard_isr-IsTyping scancode t h left right up = elim (Bool-cases t.keyboard.keyboard_input_on) [
  | inl e ↦ simp e (
      type_ascii-IsTyping (get_or keyboard_scancode_1_to_ascii_map scancode 0)
        (switch_scancode scancode t) (switch_scancode-IsTyping scancode t h left right up))
  | inr e ↦ simp e h
]
