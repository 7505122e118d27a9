-- ===== src/Framebuffer/Paper.antt =====
-- The text screen (src/framebuffer.c) as a window on a paper that only grows: the specification of
-- `putchar` and `puts`. A row of the paper has 160 bytes, a character and its colour for a column.
use os_2024_ususbuntu_with_s.Prelude.{
  ℕ, zero, suc, ◌+◌, ◌*◌, ◌%◌, ◌<◌, ◌≤◌, ◌≡◌, ◌≢◌, refl, sym, ap, ◌∙◌, List, [], ◌∷◌, ltb, ◌==◌,
  if◌then◌else◌, arith, Bool-cases, inl, inr, ltb_of_le, ltb→lt, ltb-false, ==-true,
}
use os_2024_ususbuntu_with_s.Prelude.Int.{inc_i32}
use os_2024_ususbuntu_with_s.Framebuffer.{
  Framebuffer, store, framebuffer_write, scroll_up, scroll_loop, putchar, puts, copy_loop,
  framebuffer_clear,
}
use os_2024_ususbuntu_with_s.Framebuffer.Memory.{
  framebuffer_write-at, filled, row_loop-at, copy_loop-at, framebuffer_clear-at,
}

-- The row at the top of the screen, and the place of the next character.
pub record Paper : Type 0 where
  pub text : ℕ → ℕ
  pub top : ℕ
  pub row : ℕ
  pub col : ℕ

abbrev pub next_line : Paper → Paper
next_line p = record p {
  top = if ltb (p.row + 1) (p.top + 25) then p.top else p.top + 1;
  row = p.row + 1;
  col = 0;
}

abbrev pub draw : ℕ → ℕ → Paper → Paper
draw c color p =
    let offset = p.row * 160 + p.col * 2 in
    record p { text = store (store p.text offset c) (offset + 1) (color % 16) }

-- A line feed starts a line, and any other character is written and starts one at the right end.
abbrev pub print : ℕ → ℕ → Paper → Paper
print c color p =
    if c == b'\n'
    then next_line p
    else (if p.col == 79
        then next_line (draw c color p)
        else record (draw c color p) { col = p.col + 1 })

-- At most `len` characters, up to the first 0.
abbrev pub print_text : List ℕ → ℕ → ℕ → Paper → Paper
print_text str zero color p = p
print_text [] (suc len) color p = p
print_text (c ∷ str) (suc len) color p =
    let rest = print_text str len color (print c color p) in if c == 0 then p else rest

-- The screen shows the 25 rows of the paper from its top on, and the paper below them is blank.
pub record IsShown (f : Framebuffer) (p : Paper) : Type 0 where
  pub row_shown : f.cur_row + p.top ≡ p.row
  pub col_shown : f.cur_col ≡ p.col
  pub below_top : p.top ≤ p.row
  pub above_bottom : p.row < p.top + 25
  pub on_line : p.col < 80
  pub shown : (k : ℕ) → k < 4000 → f.memory k ≡ p.text (p.top * 160 + k)
  pub blank : (k : ℕ) → p.top * 160 + 4000 ≤ k → p.text k ≡ filled b' ' 15 k

scroll_up-at :
    (f : Framebuffer) (k : ℕ)
    → f.cur_row ≡ 25
    → k < 4000
    → (scroll_up f).memory k ≡ (if ltb k 3840 then f.memory (k + 160) else filled b' ' 15 k)
unfolding scroll_up
scroll_up-at f k h lt =
    let e : (f.cur_row + 4294967295) % 4294967296 ≡ 24 = omega arith in
    rw e (
      row_loop-at 80 0 24 b' ' 15 (copy_loop 3840 0 0 160 f.memory) k (omega arith) refl
        (omega arith)
      ∙ ground (arith, copy_loop-at 3840 0 0 160 f.memory k (omega arith)))

scroll_up-row : (f : Framebuffer) → f.cur_row ≡ 25 → (scroll_up f).cur_row ≡ 24
unfolding scroll_up
scroll_up-row f h = omega arith

scroll_up-col : (f : Framebuffer) → (scroll_up f).cur_col ≡ f.cur_col
unfolding scroll_up
scroll_up-col f = refl

scroll_loop-none : (fuel : ℕ) (f : Framebuffer) → f.cur_row < 25 → scroll_loop fuel f ≡ f
unfolding scroll_loop
scroll_loop-none zero f h = refl
scroll_loop-none (suc fuel) f h = ground arith

scroll_loop-once :
    (fuel : ℕ) (f : Framebuffer) → f.cur_row ≡ 25 → scroll_loop (suc fuel) f ≡ scroll_up f
unfolding scroll_loop
scroll_loop-once fuel f h =
    rw
      (
        ltb_of_le ((f.cur_row + 2147483648) % 4294967296) 2147483673 (omega arith),
        scroll_loop-none fuel (scroll_up f) (omega (arith, scroll_up-row f h)),
      )
      refl

-- One character drawn, and one line fed.
draw-IsShown :
    (f : Framebuffer) (p : Paper) (c color : ℕ)
    → IsShown f p
    → IsShown
        (record f { memory = framebuffer_write f.memory f.cur_row f.cur_col c (color % 256) 0 })
        (draw c color p)
draw-IsShown f p c color s = record {
  row_shown = s.row_shown;
  col_shown = s.col_shown;
  below_top = s.below_top;
  above_bottom = s.above_bottom;
  on_line = s.on_line;
  shown = λ k h.
      framebuffer_write-at f.memory f.cur_row f.cur_col c (color % 256) k
        (omega (arith, s.row_shown)) (omega (arith, s.col_shown))
      ∙ ground (arith, s.shown k h, s.row_shown, s.col_shown);
  blank = λ k h. ground (arith, s.blank k h);
}

window_moved :
    (f : Framebuffer) (p : Paper) (k : ℕ)
    → IsShown f p
    → k < 4000
    → (if ltb k 3840 then f.memory (k + 160) else filled b' ' 15 k) ≡ p.text ((p.top + 1) * 160 + k)
window_moved f p k s h = elim (Bool-cases (ltb k 3840)) [
  | inl e ↦
      let lt = ltb→lt k 3840 e in rw e (s.shown (k + 160) (omega arith) ∙ ap p.text (omega arith))
  | inr e ↦
      let le = ltb-false k 3840 e in
      let even : ((p.top + 1) * 160 + k) % 2 ≡ k % 2 = omega arith in
      rw e (sym (s.blank ((p.top + 1) * 160 + k) (omega arith) ∙ rw even refl))
]

feed-IsShown :
    (f : Framebuffer) (p : Paper)
    → IsShown f p
    → IsShown
        (scroll_loop (f.cur_row + 1) (record f { cur_col = 0; cur_row = inc_i32 f.cur_row }))
        (next_line p)
feed-IsShown f p s = elim (Bool-cases (ltb (p.row + 1) (p.top + 25))) [
  | inl e ↦
      let lt : p.row + 1 < p.top + 25 = ltb→lt (p.row + 1) (p.top + 25) e in
      let fits : inc_i32 f.cur_row < 25 = omega (arith, s.row_shown) in
      rw
        (
          e,
          scroll_loop-none (f.cur_row + 1) (record f { cur_col = 0; cur_row = inc_i32 f.cur_row })
              fits,
        )
        (record {
          row_shown = omega (arith, s.row_shown);
          col_shown = refl;
          below_top = omega (arith, s.below_top);
          above_bottom = lt;
          on_line = omega arith;
          shown = s.shown;
          blank = s.blank;
        })
  | inr e ↦
      let below : p.top + 25 ≤ p.row + 1 = ltb-false (p.row + 1) (p.top + 25) e in
      let fed : Framebuffer = record f { cur_col = 0; cur_row = inc_i32 f.cur_row } in
      let last : fed.cur_row ≡ 25 = omega (arith, s.row_shown) in
      let once : scroll_loop (f.cur_row + 1) fed ≡ scroll_up fed =
        ap (λ n. scroll_loop n fed) {x = f.cur_row + 1} {y = suc f.cur_row} (omega arith)
        ∙ scroll_loop-once f.cur_row fed last in
      rw (e, once)
        (record {
          row_shown = omega (arith, scroll_up-row fed last);
          col_shown = scroll_up-col fed;
          below_top = omega (arith, s.below_top);
          above_bottom = omega arith;
          on_line = omega arith;
          shown = λ k h. scroll_up-at fed k last h ∙ window_moved f p k s h;
          blank = λ k h. s.blank k (omega arith);
        })
]

wrapped : (f : Framebuffer) (p : Paper) → IsShown f p → (f.cur_col == 79) ≡ (p.col == 79)
wrapped f p s = ap (λ c. c == 79) s.col_shown

putchar-IsShown :
    (c color : ℕ) (f : Framebuffer) (p : Paper)
    → IsShown f p
    → IsShown (putchar c color f) (print c color p)
unfolding putchar
putchar-IsShown c color f p s = elim (Bool-cases (c == b'\n')) [
  | inl e ↦ elim (Bool-cases (p.col == 79)) [
    | inl last ↦ rw (e, wrapped f p s, last) (feed-IsShown f p s)
    | inr more ↦ rw (e, wrapped f p s, more) (feed-IsShown f p s)
  ]
  | inr e ↦ elim (Bool-cases (p.col == 79)) [
    | inl last ↦
        rw (e, wrapped f p s, last)
          (feed-IsShown
            (record f { memory = framebuffer_write f.memory f.cur_row f.cur_col c (color % 256) 0 })
            (draw c color p) (draw-IsShown f p c color s))
    | inr more ↦
        rw (e, wrapped f p s, more)
          (let d = draw-IsShown f p c color s in
            let short : p.col ≢ 79 = λ h. cc (more, ==-true p.col 79 h) in
            record {
              row_shown = d.row_shown;
              col_shown = omega (arith, s.col_shown, s.on_line);
              below_top = d.below_top;
              above_bottom = d.above_bottom;
              on_line = omega (arith, s.on_line, short);
              shown = d.shown;
              blank = d.blank;
            })
  ]
]

-- Printing a text from a state in which the screen shows the end of a paper that only grows leaves
-- it showing the end of the paper with the text printed on it: no character is misplaced, the rows
-- below are blank, and the cursor is on the screen.
pub puts-IsShown :
    (str : List ℕ) (len color : ℕ) (f : Framebuffer) (p : Paper)
    → IsShown f p
    → IsShown (puts str len color f) (print_text str len color p)
unfolding puts
puts-IsShown str zero color f p s = s
puts-IsShown [] (suc len) color f p s = s
puts-IsShown (c ∷ str) (suc len) color f p s = elim (Bool-cases (c == 0)) [
  | inl e ↦ rw e s
  | inr e ↦ rw e (
      puts-IsShown str len color (putchar c color f) (print c color p)
        (putchar-IsShown c color f p s))
]

-- What an emptied screen shows.
abbrev pub empty_paper : Framebuffer → Paper
empty_paper f = record {
  text = λ k. if ltb k 4000 then filled 0 7 k else filled b' ' 15 k;
  top = 0;
  row = f.cur_row;
  col = f.cur_col;
}

pub framebuffer_clear-IsShown :
    (f : Framebuffer)
    → f.cur_row < 25
    → f.cur_col < 80
    → IsShown (framebuffer_clear f) (empty_paper f)
unfolding framebuffer_clear
framebuffer_clear-IsShown f h k = record {
  row_shown = omega arith;
  col_shown = refl;
  below_top = omega arith;
  above_bottom = h;
  on_line = k;
  shown = λ b lt. ground (arith, framebuffer_clear-at f b);
  blank = λ b le. rw (ltb_of_le b 4000 (omega arith)) refl;
}
