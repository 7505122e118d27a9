-- ===== src/Prelude/Int.antt =====
-- The C `int`: integers under the library's names, and the conversions from and to `uint32_t`.
use Prim.Native.Nat.{ℕ, zero, suc, ◌+◌, ◌-◌, ◌/◌, ◌%◌, ◌<◌}
use mathlib.Core.Path.{◌≡◌}
use native.Mathlib.Omega.{arith}
use os_2024_ususbuntu_with_s.Prelude.Tests.{ltb, if◌then◌else◌}
use mathlib.Core.Bool.{Bool}

-- `negsuc n` is -(n + 1).
pub data ℤ : Type 0 where
  pos : ℕ → ℤ
  negsuc : ℕ → ℤ

-- -n
abbrev pub neg : ℕ → ℤ
neg zero = pos 0
neg (suc n) = negsuc n

abbrev pub succ : ℤ → ℤ
succ (pos n) = pos (n + 1)
succ (negsuc zero) = pos 0
succ (negsuc (suc n)) = negsuc n

-- Division that rounds towards 0, and the test for a remainder, by a positive number.
abbrev pub quot : ℤ → ℕ → ℤ
quot (pos a) b = pos (a / b)
quot (negsuc a) b = neg ((a + 1) / b)

abbrev pub magnitude : ℤ → ℕ
magnitude (pos a) = a
magnitude (negsuc a) = a + 1

-- A `uint32_t` read as an `int32_t`, and back.
abbrev pub to_i32 : ℕ → ℤ
to_i32 w = if ltb w 2147483648 then pos w else negsuc (4294967295 - w)

abbrev pub to_u32 : ℤ → ℕ
to_u32 (pos n) = n % 4294967296
to_u32 (negsuc n) = 4294967295 - n % 4294967296

pub to_u32-to_i32 : (w : ℕ) → w < 4294967296 → to_u32 (to_i32 w) ≡ w
to_u32-to_i32 w h = ground arith

-- `<`, `++` and `--` on the bits of an `int`.
abbrev pub lt_i32 : ℕ → ℕ → Bool
lt_i32 a b = ltb ((a + 2147483648) % 4294967296) ((b + 2147483648) % 4294967296)

abbrev pub inc_i32 : ℕ → ℕ
inc_i32 a = (a + 1) % 4294967296

abbrev pub dec_i32 : ℕ → ℕ
dec_i32 a = (a + 4294967295) % 4294967296
