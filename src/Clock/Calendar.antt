-- ===== src/Clock/Calendar.antt =====
-- The adjustment to GMT+7 of `read_rtc` (src/clock.c) against a count of hours.
use os_2024_ususbuntu_with_s.Prelude.{
  ℕ, ◌+◌, ◌-◌, ◌*◌, ◌/◌, ◌%◌, ◌<◌, ◌≤◌, ◌≡◌, refl, true, false, ltb, leb, ◌==◌, if◌then◌else◌,
  arith, sym, subst, inl, inr, Bool-cases, leb→le, leb-false,
}
use os_2024_ususbuntu_with_s.Clock.{
  current_year, Sample, is_leap, is_short_month, is_past_month, roll_month, roll_year, adjust,
  to_binary, to_24_hour, full_year, is_binary, is_24_hour, from_bcd, hour_from_bcd,
}

unfoldable pub days_in_month : ℕ → ℕ → ℕ
days_in_month year month =
    if month == 2
    then (if is_leap year then 29 else 28)
    else if is_short_month month
    then 30
    else 31

-- The days of the year before a month begins.
unfoldable pub days_before_month : ℕ → ℕ → ℕ
days_before_month year month =
    let leap : ℕ = if is_leap year then 1 else 0 in
    if month == 1
    then 0
    else if month == 2
    then 31
    else leap
      + (if month == 3
          then 59
          else if month == 4
          then 90
          else if month == 5
          then 120
          else if month == 6
          then 151
          else if month == 7
          then 181
          else if month == 8
          then 212
          else if month == 9
          then 243
          else if month == 10
          then 273
          else if month == 11
          then 304
          else 334)

-- The days of the proleptic calendar before a year begins, from year 1 on.
unfoldable pub days_before_year : ℕ → ℕ
days_before_year year = let p : ℕ = year - 1 in p * 365 + p / 4 - p / 100 + p / 400

unfoldable pub day_number : Sample → ℕ
day_number t = days_before_year t.year + days_before_month t.year t.month + t.day

-- A time of the calendar.
pub record IsTime (t : Sample) : Type 0 where
  pub second : t.second < 60
  pub minute : t.minute < 60
  pub hour : t.hour < 24
  pub month_low : 1 ≤ t.month
  pub month_high : t.month ≤ 12
  pub day_low : 1 ≤ t.day
  pub day_high : t.day ≤ days_in_month t.year t.month
  pub year_low : 1 ≤ t.year

-- The next day of the calendar: what the two roll-overs make of it.
pub record IsNextDay (t u : Sample) : Type 0 where
  pub number : day_number u ≡ day_number t + 1
  pub month_low : 1 ≤ u.month
  pub month_high : u.month ≤ 12
  pub day_low : 1 ≤ u.day
  pub day_high : u.day ≤ days_in_month u.year u.month
  pub year_low : 1 ≤ u.year

next_day : Sample → Sample
next_day t = roll_year (roll_month (record t { day = (t.day + 1) % 256 }))

days_in_month-le : (y m : ℕ) → (28 ≤ days_in_month y m) × (days_in_month y m ≤ 31)
unfolding days_in_month
days_in_month-le y m = ground arith

is_past_month-eq :
    (t : Sample)
    → 1 ≤ t.month
    → t.month ≤ 12
    → is_past_month t ≡ ltb (days_in_month t.year t.month) t.day
unfolding is_past_month days_in_month
is_past_month-eq t h k = ground arith

days_before_month-suc :
    (y m : ℕ)
    → 1 ≤ m
    → m < 12
    → days_before_month y (m + 1) ≡ days_before_month y m + days_in_month y m
unfolding days_before_month days_in_month
days_before_month-suc y m h k = ground arith

days_before_year-suc :
    (y : ℕ)
    → 1 ≤ y
    → days_before_year (y + 1) ≡ days_before_year y + days_before_month y 12 + days_in_month y 12
unfolding days_before_year days_before_month days_in_month
days_before_year-suc y h = ground arith

days_before_month-one : (y : ℕ) → days_before_month y 1 ≡ 0
unfolding days_before_month
days_before_month-one y = refl

next_day-IsNextDay : (t : Sample) → IsTime t → t.year < 65536 → IsNextDay t (next_day t)
unfolding next_day roll_year roll_month day_number
next_day-IsNextDay t v small = ground (
  arith,
  is_past_month-eq (record t { day = (t.day + 1) % 256 }) v.month_low v.month_high,
  days_in_month-le t.year t.month,
  days_before_month-suc t.year t.month v.month_low,
  days_before_year-suc t.year v.year_low,
  days_before_month-one (t.year + 1),
  days_in_month-le t.year (t.month + 1),
  days_in_month-le (t.year + 1) 1,
)

next_day-same :
    (t : Sample)
    → ((next_day t).hour ≡ t.hour)
      × ((next_day t).minute ≡ t.minute)
      × ((next_day t).second ≡ t.second)
unfolding next_day roll_year roll_month
next_day-same t = ground arith

day_number-hour : (t : Sample) (h : ℕ) → day_number (record t { hour = h }) ≡ day_number t
unfolding day_number
day_number-hour t h = refl

-- The hours since the calendar began.
unfoldable pub hours : Sample → ℕ
hours t = day_number t * 24 + t.hour

adjust-eq :
    (t : Sample)
    → t.hour < 24
    → adjust t ≡ (
        if leb 24 (t.hour + 7)
        then next_day (record t { hour = t.hour + 7 - 24 })
        else record t { hour = t.hour + 7 })
unfolding adjust next_day
adjust-eq t h = rw (small) refl
  where
    small : (t.hour + 7) % 256 ≡ t.hour + 7
    small = omega arith

pub record IsLater (n : ℕ) (t u : Sample) : Type 0 where
  pub time : IsTime u
  pub hours_on : hours u ≡ hours t + n
  pub minute_same : u.minute ≡ t.minute
  pub second_same : u.second ≡ t.second

same_day : (t : Sample) → IsTime t → t.hour + 7 < 24 → IsLater 7 t (record t { hour = t.hour + 7 })
unfolding hours day_number
same_day t v h = record {
  time = record {
    second = v.second;
    minute = v.minute;
    hour = h;
    month_low = v.month_low;
    month_high = v.month_high;
    day_low = v.day_low;
    day_high = v.day_high;
    year_low = v.year_low;
  };
  hours_on = omega arith;
  minute_same = refl;
  second_same = refl;
}

other_day :
    (t : Sample)
    → IsTime t
    → t.year < 65536
    → 24 ≤ t.hour + 7
    → IsLater 7 t (next_day (record t { hour = t.hour + 7 - 24 }))
unfolding hours
other_day t v small h =
    let early : Sample = record t { hour = t.hour + 7 - 24 } in
    let n : IsNextDay early (next_day early) =
      next_day-IsNextDay early
        record {
          second = v.second;
          minute = v.minute;
          hour = omega (arith, v.hour);
          month_low = v.month_low;
          month_high = v.month_high;
          day_low = v.day_low;
          day_high = v.day_high;
          year_low = v.year_low;
        }
        small in
    let (hour, minute, second) = next_day-same early in
    record {
      time = record {
        second = omega (arith, second, v.second);
        minute = omega (arith, minute, v.minute);
        hour = omega (arith, hour, v.hour);
        month_low = n.month_low;
        month_high = n.month_high;
        day_low = n.day_low;
        day_high = n.day_high;
        year_low = n.year_low;
      };
      hours_on = omega (arith, n.number, hour, day_number-hour t (t.hour + 7 - 24), h);
      minute_same = minute;
      second_same = second;
    }

pub adjust-IsLater : (t : Sample) → IsTime t → t.year < 65536 → IsLater 7 t (adjust t)
adjust-IsLater t v small =
    subst (IsLater 7 t) (sym (adjust-eq t v.hour)) (elim (Bool-cases (leb 24 (t.hour + 7))) [
      | inl e ↦ rw e (other_day t v small (leb→le 24 (t.hour + 7) e))
      | inr e ↦ rw e (same_day t v (leb-false 24 (t.hour + 7) e))
    ])

-- A number as two decimal digits of four bits each, as the registers hold it.
abbrev pub bcd : ℕ → ℕ
bcd x = x / 10 * 16 + x % 10

-- The registers at a time of the years 2000 to 2099.
unfoldable pub registers : Sample → Sample
registers t = record {
  second = bcd t.second;
  minute = bcd t.minute;
  hour = bcd t.hour;
  day = bcd t.day;
  month = bcd t.month;
  year = bcd (t.year - 2000);
}

from_bcd-bcd : (x : ℕ) → x < 100 → from_bcd (bcd x) ≡ x
from_bcd-bcd x h = omega arith

hour_from_bcd-bcd : (x : ℕ) → x < 24 → hour_from_bcd (bcd x) ≡ x
hour_from_bcd-bcd x h = omega arith

pub decoded :
    (t : Sample) (register_b : ℕ)
    → IsTime t
    → current_year ≤ t.year
    → t.year < 2100
    → is_binary register_b ≡ false
    → is_24_hour register_b ≡ true
    → full_year (to_24_hour register_b (to_binary register_b (registers t))) ≡ t
unfolding full_year to_24_hour to_binary registers
decoded t b v lo hi e f =
    rw
      (
        e,
        f,
        from_bcd-bcd t.second (omega (arith, v.second)),
        from_bcd-bcd t.minute (omega (arith, v.minute)),
        hour_from_bcd-bcd t.hour v.hour,
        from_bcd-bcd t.day (omega (arith, v.day_high, days_in_month-le t.year t.month)),
        from_bcd-bcd t.month (omega (arith, v.month_high)),
        from_bcd-bcd (t.year - 2000) (omega arith),
      )
      (ground arith)
