-- ===== src/Framebuffer.antt =====
-- The text screen: src/framebuffer.c, and `scroll_up` of src/keyboard.c. The video memory is a
-- function from an offset in bytes; `framebuffer_set_cursor` only writes to ports and is left out.
-- An `int` is given by its 32 bits.
pub mod Memory
pub mod Paper
use os_2024_ususbuntu_with_s.Prelude.{
  ℕ, zero, suc, ◌+◌, ◌-◌, ◌*◌, ◌/◌, ◌%◌, ◌^◌, Bool, true, false, ◌||◌, List, [], ◌∷◌, ltb, leb,
  ◌==◌, if◌then◌else◌,
}
use os_2024_ususbuntu_with_s.Prelude.Int.{lt_i32, dec_i32, inc_i32}

abbrev pub max_column : ℕ
max_column = 80

abbrev pub max_row : ℕ
max_row = 25

-- `struct FramebufferState` and the video memory.
pub record Framebuffer : Type 0 where
  pub cur_row : ℕ
  pub cur_col : ℕ
  pub start_row : ℕ
  pub start_col : ℕ
  pub memory : ℕ → ℕ

-- `memory[offset] = value`
abbrev pub store : (ℕ → ℕ) → ℕ → ℕ → ℕ → ℕ
store memory offset value = λ i. if i == offset then value else memory i

-- `(bg << 4) | (fg & 0x0F)` in a byte.
abbrev pub color_byte : ℕ → ℕ → ℕ
color_byte fg bg = (bg * 16 + fg % 16) % 256

-- The row, the column and the colours arrive as bytes, and the position has 16 bits.
unfoldable pub framebuffer_write : (ℕ → ℕ) → ℕ → ℕ → ℕ → ℕ → ℕ → ℕ → ℕ
framebuffer_write memory row col c fg bg =
    let position = (row % 256 * 80 + col % 256) % 65536 in
    store (store memory (position * 2) c) (position * 2 + 1) (color_byte (fg % 256) (bg % 256))

-- The inner loops that write one character on a whole row: the columns left and the column.
unfoldable pub row_loop : ℕ → ℕ → ℕ → ℕ → ℕ → (ℕ → ℕ) → ℕ → ℕ
row_loop zero j row c fg memory = memory
row_loop (suc left) j row c fg memory =
    row_loop left (j + 1) row c fg (framebuffer_write memory row j c fg 0)

unfoldable pub clear_loop : ℕ → ℕ → (ℕ → ℕ) → ℕ → ℕ
clear_loop zero i memory = memory
clear_loop (suc left) i memory = clear_loop left (i + 1) (row_loop max_column 0 i 0 7 memory)

unfoldable pub framebuffer_clear : Framebuffer → Framebuffer
framebuffer_clear f = record f { memory = clear_loop max_row 0 f.memory }

-- The loop of `memcpy` inside one memory: the bytes left and `i`.
unfoldable pub copy_loop : ℕ → ℕ → ℕ → ℕ → (ℕ → ℕ) → ℕ → ℕ
copy_loop zero i dest src memory = memory
copy_loop (suc left) i dest src memory =
    copy_loop left (i + 1) dest src (store memory (dest + i) (memory (src + i)))

unfoldable pub scroll_up : Framebuffer → Framebuffer
scroll_up f =
    let row = dec_i32 f.cur_row in
    record f {
      cur_row = row;
      start_row = dec_i32 f.start_row;
      memory = row_loop max_column 0 row b' ' 15 (copy_loop 3840 0 0 160 f.memory);
    }

-- `while (framebuffer_state.cur_row >= MAX_ROW) scroll_up();` with fuel.
unfoldable pub scroll_loop : ℕ → Framebuffer → Framebuffer
scroll_loop zero f = f
scroll_loop (suc fuel) f =
    let rest = scroll_loop fuel (scroll_up f) in if lt_i32 f.cur_row max_row then f else rest

unfoldable pub putchar : ℕ → ℕ → Framebuffer → Framebuffer
putchar c color f =
    let drawn =
      if c == b'\n'
      then f
      else record f { memory = framebuffer_write f.memory f.cur_row f.cur_col c (color % 256) 0 } in
    if (f.cur_col == 79) || (c == b'\n')
    then scroll_loop (f.cur_row + 1) (record drawn { cur_col = 0; cur_row = inc_i32 f.cur_row })
    else record drawn { cur_col = inc_i32 f.cur_col }

unfoldable pub puts : List ℕ → ℕ → ℕ → Framebuffer → Framebuffer
puts str zero color f = f
puts [] (suc len) color f = f
puts (c ∷ str) (suc len) color f =
    let rest = puts str len color (putchar c color f) in if c == 0 then f else rest
