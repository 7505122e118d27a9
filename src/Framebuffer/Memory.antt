-- ===== src/Framebuffer/Memory.antt =====
-- What the loops of src/framebuffer.c and src/keyboard.c write into the video memory.
use os_2024_ususbuntu_with_s.Prelude.{
  ℕ, zero, suc, ◌+◌, ◌-◌, ◌*◌, ◌%◌, ◌<◌, ◌≡◌, refl, ◌∙◌, ltb, ◌==◌, if◌then◌else◌, arith,
}
use os_2024_ususbuntu_with_s.Framebuffer.{
  Framebuffer, max_column, store, framebuffer_write, row_loop, clear_loop, copy_loop,
  framebuffer_clear,
}

-- One cell.
pub framebuffer_write-at :
    (memory : ℕ → ℕ) (row col c fg k : ℕ)
    → row < 256
    → col < 80
    → framebuffer_write memory row col c fg 0 k ≡ (
        if k == row * 160 + col * 2
        then c
        else if k == row * 160 + col * 2 + 1
        then fg % 16
        else memory k)
unfolding framebuffer_write
framebuffer_write-at memory row col c fg k hr hc = ground arith

-- The bytes of a row filled with one character.
abbrev pub filled : ℕ → ℕ → ℕ → ℕ
filled c fg b = if b % 2 == 0 then c else fg

pub row_loop-at :
    (left j : ℕ) (row c fg : ℕ) (memory : ℕ → ℕ) (k : ℕ)
    → row < 256
    → j + left ≡ 80
    → fg < 16
    → row_loop left j row c fg memory k ≡ (
        if ltb k (row * 160 + j * 2)
        then memory k
        else if ltb k (row * 160 + 160)
        then filled c fg k
        else memory k)
unfolding row_loop
row_loop-at zero j row c fg memory k hr hj hf = ground arith
row_loop-at (suc left) j row c fg memory k hr hj hf =
    row_loop-at left (j + 1) row c fg (framebuffer_write memory row j c fg 0) k hr (omega arith) hf
    ∙ ground (arith, framebuffer_write-at memory row j c fg k hr (omega arith))

pub copy_loop-at :
    (left i dest src : ℕ) (memory : ℕ → ℕ) (k : ℕ)
    → dest < src
    → copy_loop left i dest src memory k ≡ (
        if ltb k (dest + i)
        then memory k
        else if ltb k (dest + i + left)
        then memory (k + (src - dest))
        else memory k)
unfolding copy_loop
copy_loop-at zero i dest src memory k h = ground arith
copy_loop-at (suc left) i dest src memory k h =
    copy_loop-at left (i + 1) dest src (store memory (dest + i) (memory (src + i))) k h
    ∙ ground arith

clear_loop-at :
    (left i : ℕ) (memory : ℕ → ℕ) (k : ℕ)
    → i + left ≡ 25
    → clear_loop left i memory k
      ≡ (if ltb k (i * 160) then memory k else if ltb k 4000 then filled 0 7 k else memory k)
unfolding clear_loop
clear_loop-at zero i memory k h = ground arith
clear_loop-at (suc left) i memory k h =
    clear_loop-at left (i + 1) (row_loop max_column 0 i 0 7 memory) k (omega arith)
    ∙ ground (arith, row_loop-at 80 0 i 0 7 memory k (omega arith) refl (omega arith))

pub framebuffer_clear-at :
    (f : Framebuffer) (k : ℕ)
    → (framebuffer_clear f).memory k ≡ (if ltb k 4000 then filled 0 7 k else f.memory k)
unfolding framebuffer_clear
framebuffer_clear-at f k = ground (arith, clear_loop-at 25 0 f.memory k refl)
