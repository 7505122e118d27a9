-- ===== src/Clock.antt =====
-- The real-time clock: src/clock.c and src/header/clock.h.
-- The registers are read through ports: a `Sample` holds one round of reads, and the device is a
-- stream of them. `century_register` is 0 and nothing sets it, so the century is never read.
pub mod Stable
pub mod Calendar
use os_2024_ususbuntu_with_s.Prelude.{
  ℕ, zero, suc, ◌+◌, ◌-◌, ◌*◌, ◌/◌, ◌%◌, ◌^◌, Bool, true, false, not, ◌&&◌, ◌||◌, Option, none,
  some, ltb, leb, ◌==◌, if◌then◌else◌,
}

abbrev pub current_year : ℕ
current_year = 2024

-- `second` to `year`; the first five are an `unsigned char`.
pub record Sample : Type 0 where
  pub second : ℕ
  pub minute : ℕ
  pub hour : ℕ
  pub day : ℕ
  pub month : ℕ
  pub year : ℕ

-- The condition of the loop, negated.
unfoldable pub is_same : Sample → Sample → Bool
is_same a b =
    (a.second == b.second)
    && ((a.minute == b.minute)
        && ((a.hour == b.hour)
            && ((a.day == b.day) && ((a.month == b.month) && (a.year == b.year)))))

-- `do { last = now; now = read(); } while (last != now);` with fuel, `n` being the last round read.
unfoldable pub stable_loop : ℕ → (ℕ → Sample) → ℕ → Option Sample
stable_loop zero device n = none
stable_loop (suc fuel) device n =
    let rest = stable_loop fuel device (n + 1) in
    if is_same (device n) (device (n + 1)) then some (device (n + 1)) else rest

-- `(x & 0x0F) + ((x / 16) * 10)`
abbrev pub from_bcd : ℕ → ℕ
from_bcd x = x % 16 + x / 16 * 10

-- `( (hour & 0x0F) + (((hour & 0x70) / 16) * 10) ) | (hour & 0x80)`: the sum is below 128.
abbrev pub hour_from_bcd : ℕ → ℕ
hour_from_bcd hour = hour % 16 + hour / 16 % 8 * 10 + hour / 128 * 128

-- `registerB & 0x04` and `registerB & 0x02`
abbrev pub is_binary : ℕ → Bool
is_binary register_b = register_b / 4 % 2 == 1

abbrev pub is_24_hour : ℕ → Bool
is_24_hour register_b = register_b / 2 % 2 == 1

unfoldable pub to_binary : ℕ → Sample → Sample
to_binary register_b t =
    if not (is_binary register_b)
    then record {
      second = from_bcd t.second;
      minute = from_bcd t.minute;
      hour = hour_from_bcd t.hour;
      day = from_bcd t.day;
      month = from_bcd t.month;
      year = from_bcd t.year;
    }
    else t

-- `if (!(registerB & 0x02) && (hour & 0x80)) hour = ((hour & 0x7F) + 12) % 24;`
unfoldable pub to_24_hour : ℕ → Sample → Sample
to_24_hour register_b t =
    if not (is_24_hour register_b) && leb 128 t.hour
    then record t { hour = (t.hour % 128 + 12) % 24 }
    else t

unfoldable pub full_year : Sample → Sample
full_year t =
    let year = t.year + current_year / 100 * 100 in
    record t { year = if ltb year current_year then year + 100 else year }

abbrev pub is_long_month : ℕ → Bool
is_long_month month =
    (month == 1)
    || ((month == 3)
        || ((month == 5) || ((month == 7) || ((month == 8) || ((month == 10) || (month == 12))))))

abbrev pub is_short_month : ℕ → Bool
is_short_month month = (month == 4) || ((month == 6) || ((month == 9) || (month == 11)))

abbrev pub is_leap : ℕ → Bool
is_leap year = ((year % 4 == 0) && not (year % 100 == 0)) || (year % 400 == 0)

-- "Handle month overflow": whether the day is past the month's end.
unfoldable pub is_past_month : Sample → Bool
is_past_month t =
    if is_long_month t.month && ltb 31 t.day
    then true
    else if is_short_month t.month && ltb 30 t.day
    then true
    else if t.month == 2
    then (if is_leap t.year then ltb 29 t.day else ltb 28 t.day)
    else false

unfoldable pub roll_month : Sample → Sample
roll_month t = if is_past_month t then record t { day = 1; month = (t.month + 1) % 256 } else t

-- "Handle year overflow"
unfoldable pub roll_year : Sample → Sample
roll_year t = if ltb 12 t.month then record t { month = 1; year = (t.year + 1) % 2 ^ 32 } else t

-- "Adjust the hour for GMT+7"
unfoldable pub adjust : Sample → Sample
adjust t =
    let hour = (t.hour + 7) % 256 in
    if leb 24 hour
    then roll_year (roll_month (record t { hour = hour - 24; day = (t.day + 1) % 256 }))
    else record t { hour = hour }

unfoldable pub read_rtc : ℕ → (ℕ → Sample) → ℕ → Option Sample
read_rtc fuel device register_b = elim (stable_loop fuel device 0) [
  | none ↦ none
  | some t ↦ some (adjust (full_year (to_24_hour register_b (to_binary register_b t))))
]
