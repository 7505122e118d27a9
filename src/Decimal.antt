-- ===== src/Decimal.antt =====
-- Numbers as text: `int_to_str` of src/process.c, which src/user-shell.c has twice more, and
-- `str_to_int` of src/user-shell.c. A text is given by its characters before the closing 0.
pub mod Reverse
pub mod Text
use os_2024_ususbuntu_with_s.Prelude.{
  ℕ, zero, suc, ◌+◌, ◌-◌, ◌*◌, ◌/◌, ◌%◌, ◌^◌, Bool, true, false, List, [], ◌∷◌, ◌++◌, ltb, ◌==◌,
  if◌then◌else◌, set, length,
}
use os_2024_ususbuntu_with_s.Prelude.Int.{ℤ, pos, negsuc, to_i32}
use os_2024_ususbuntu_with_s.Bytes.{at}

-- `while (num != 0) { ... num = num / 10; }` with fuel: the characters it appends. The remainder is
-- never above 9.
unfoldable pub digits_loop : ℕ → ℕ → List ℕ
digits_loop zero num = []
digits_loop (suc fuel) num =
    let rem = num % 10 in
    let rest = digits_loop fuel (num / 10) in
    if num == 0 then [] else ((if ltb 9 rem then rem - 10 + b'a' else rem + b'0') ∷ rest)

-- `while (start < end) { swap; start++; end--; }` with fuel.
unfoldable pub swap_loop : ℕ → ℕ → ℕ → List ℕ → List ℕ
swap_loop zero start last str = str
swap_loop (suc fuel) start last str =
    let rest =
      swap_loop fuel (start + 1) (last - 1)
        (set (set str start (at str last)) last (at str start)) in
    if ltb start last then rest else str

-- A `uint32_t` divided by 10 is 0 after ten rounds.
abbrev pub digit_fuel : ℕ
digit_fuel = 10

unfoldable pub reversed : List ℕ → List ℕ
reversed str = swap_loop (length str) 0 (length str - 1) str

-- For `-num` of the least `int`, C has no result; here it is the magnitude.
unfoldable pub int_to_str : ℤ → List ℕ
int_to_str (pos zero) = b'0' ∷ []
int_to_str (pos (suc n)) = reversed (digits_loop digit_fuel (suc n))
int_to_str (negsuc n) = reversed (digits_loop digit_fuel (suc n) ++ (b'-' ∷ []))

-- `result * 10 + str[i] - '0'` for a signed character; the `int` wraps around.
abbrev pub next_result : ℕ → ℕ → ℕ
next_result result c =
    (result * 10 + (if ltb c 128 then c else c + 2 ^ 32 - 256) + 2 ^ 32 - 48) % 2 ^ 32

unfoldable pub result_loop : List ℕ → ℕ → ℕ
result_loop [] result = result
result_loop (c ∷ str) result =
    let rest = result_loop str (next_result result c) in if c == 0 then result else rest

unfoldable pub str_to_int : List ℕ → ℤ
str_to_int [] = pos 0
str_to_int (c ∷ str) =
    if c == b'-'
    then to_i32 ((2 ^ 32 - result_loop str 0) % 2 ^ 32)
    else to_i32 (result_loop (c ∷ str) 0)
