-- ===== src/Keyboard/Letters.antt =====
-- What a reader of `get_keyboard_buffer` (src/keyboard.c) gets for a key.
use os_2024_ususbuntu_with_s.Prelude.{
  ℕ, ◌-◌, ◌<◌, ◌≤◌, ◌≡◌, ◌≢◌, refl, sym, ap, ◌∙◌, Bool, true, false, arith, get_or, ==-false,
}
use os_2024_ususbuntu_with_s.Prelude.Int.{pos, negsuc}
use os_2024_ususbuntu_with_s.Keyboard.{
  Terminal, KeyboardDriverState, type_ascii, keyboard_isr, switch_scancode, shifted,
  get_keyboard_buffer, keyboard_scancode_1_to_ascii_map,
}

abbrev pub key_char : ℕ → ℕ
key_char scancode = get_or keyboard_scancode_1_to_ascii_map scancode 0

-- A key with a character is none of those that the switch handles.
switch_scancode_same :
    (scancode : ℕ) (t : Terminal) → key_char scancode ≢ 0 → switch_scancode scancode t ≡ t
unfolding switch_scancode
switch_scancode_same scancode t h =
    let other : (k : ℕ) → key_char k ≡ 0 → scancode ≢ k = λ k e s. h (ap key_char s ∙ e) in
    ground (
      arith,
      other 58 refl,
      other 42 refl,
      other 54 refl,
      other 170 refl,
      other 182 refl,
      other 29 refl,
      other 157 refl,
      other 75 refl,
      other 77 refl,
      other 72 refl,
      other 80 refl,
    )

-- The buffer that a letter or another shown character leaves.
type_ascii-buffer :
    (c : ℕ) (t : Terminal)
    → 13 < c
    → t.keyboard.ctrl_on ≡ false
    → (type_ascii c t).keyboard.keyboard_buffer ≡ shifted t.keyboard c
unfolding type_ascii
type_ascii-buffer c t h off = ground arith

keyboard_isr-buffer :
    (scancode : ℕ) (t : Terminal)
    → t.keyboard.keyboard_input_on ≡ true
    → t.keyboard.ctrl_on ≡ false
    → 13 < key_char scancode
    → (keyboard_isr scancode t).keyboard.keyboard_buffer ≡ shifted t.keyboard (key_char scancode)
unfolding keyboard_isr
keyboard_isr-buffer scancode t on off h =
    simp (on, switch_scancode_same scancode t (omega arith))
      (type_ascii-buffer (key_char scancode) t h off)

-- The letter for the state of the two keys that change it.
abbrev pub letter : Bool → Bool → ℕ → ℕ
letter true true c = c
letter true false c = c - 32
letter false true c = c - 32
letter false false c = c

shifted-letter :
    (k : KeyboardDriverState) (c : ℕ)
    → 97 ≤ c
    → c < 123
    → shifted k c ≡ letter k.capslock_on k.shift_on c
unfolding shifted
shifted-letter k c h h' = ground arith

letter_pos : (a b : Bool) (c : ℕ) → 97 ≤ c → letter a b c ≢ 0
letter_pos true true c h = omega arith
letter_pos true false c h = omega arith
letter_pos false true c h = omega arith
letter_pos false false c h = omega arith

get_keyboard_buffer-full :
    (k : KeyboardDriverState)
    → k.keyboard_buffer ≢ 0
    → get_keyboard_buffer k ≡ (k.keyboard_buffer, pos 0, record k { keyboard_buffer = 0 })
unfolding get_keyboard_buffer
get_keyboard_buffer-full k h = simp (==-false k.keyboard_buffer 0 h) refl

-- With input on and the control key up, after the key of a letter the reader gets the letter, as a
-- capital exactly when one of caps lock and shift is on, with code 0, and then code -1 until the
-- next key.
pub keyboard_isr-get_keyboard_buffer :
    (scancode : ℕ) (t : Terminal)
    → t.keyboard.keyboard_input_on ≡ true
    → t.keyboard.ctrl_on ≡ false
    → 97 ≤ key_char scancode
    → key_char scancode < 123
    → (k : KeyboardDriverState) × (get_keyboard_buffer (keyboard_isr scancode t).keyboard
        ≡ (letter t.keyboard.capslock_on t.keyboard.shift_on (key_char scancode), pos 0, k))
      × (get_keyboard_buffer k ≡ (0, negsuc 0, k))
unfolding get_keyboard_buffer
keyboard_isr-get_keyboard_buffer scancode t on off h h' =
    let k = (keyboard_isr scancode t).keyboard in
    let e : k.keyboard_buffer
        ≡ letter t.keyboard.capslock_on t.keyboard.shift_on (key_char scancode) =
      keyboard_isr-buffer scancode t on off (omega arith)
      ∙ shifted-letter t.keyboard (key_char scancode) h h' in
    (
      record k { keyboard_buffer = 0 },
      get_keyboard_buffer-full k (λ z.
            letter_pos t.keyboard.capslock_on t.keyboard.shift_on (key_char scancode) h (sym e ∙ z))
          ∙ ap (λ c. (c, pos 0, record k { keyboard_buffer = 0 })) e,
      refl,
    )
