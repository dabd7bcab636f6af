-- ===== src/Time.antt =====
-- The calendar, kernel/time.c: `is_leap_year` to `mktime`.
--
-- `time_t` and `int` are signed: a number below 0 is `negsuc`. The fields of `struct tm` are
-- natural numbers here, as `gmtime_r` fills them for every time of 32 bits (the years from 1901 to
-- 2038), and `mktime` is modelled for such fields. A `while` runs on fuel and is `none` without.
pub mod Years
pub mod Months
pub mod RoundTrip
mod Tests
use fastsystem.Prelude.{
  ℤ, pos, negsuc, sub, ℕ, zero, suc, ◌+◌, ◌-◌, ◌*◌, ◌/◌, ◌%◌, ◌^◌, ◌≡◌, Bool, true, false, not,
  ◌&&◌, Option, none, some, List, [], ◌∷◌, ltb, leb, ◌==◌, if◌then◌else◌, get_or, ◌>>=◌,
}

pub record Tm : Type 0 where
  pub tm_sec : ℕ
  pub tm_min : ℕ
  pub tm_hour : ℕ
  pub tm_mday : ℕ
  pub tm_mon : ℕ
  pub tm_year : ℕ
  pub tm_wday : ℕ
  pub tm_yday : ℕ
  pub tm_isdst : ℕ

pub is_leap_year : ℕ → Bool
is_leap_year year =
    if not (year % 4 == 0)
    then false
    else if not (year % 100 == 0)
    then true
    else if not (year % 400 == 0)
    then false
    else true

pub days_in_year : ℕ → ℕ
days_in_year year = if is_leap_year year then 366 else 365

abbrev pub month_days : List ℕ
month_days = 31 ∷ 28 ∷ 31 ∷ 30 ∷ 31 ∷ 30 ∷ 31 ∷ 31 ∷ 30 ∷ 31 ∷ 30 ∷ 31 ∷ []

pub days_in_month : ℕ → ℕ → ℕ
days_in_month year month = if month == 1 && is_leap_year year then 29 else get_or month_days month 0

-- For a year after 0.
pub days_from_year : ℕ → ℕ
days_from_year year = (year - 1) * 365 + (year - 1) / 4 - (year - 1) / 100 + (year - 1) / 400

-- The days of the months before the given one, as `days_from_1970` and `mktime` add them up.
pub days_before_month : ℕ → ℕ → ℕ
days_before_month year zero = 0
days_before_month year (suc i) = days_before_month year i + days_in_month year i

-- The two sides of the difference that `days_from_1970` is.
pub days_since_year_one : ℕ → ℕ → ℕ → ℕ
days_since_year_one year month day = days_from_year year + days_before_month year month + (day - 1)

pub days_from_1970 : ℕ → ℕ → ℕ → ℤ
days_from_1970 year month day = sub (days_since_year_one year month day) (days_from_year 1970)

-- `while (days >= days_in_year(year))`: the year and the day in it.
pub year_up : ℕ → ℕ → ℕ → Option (ℕ × ℕ)
year_up zero days year = none
year_up (suc fuel) days year =
    let rest = year_up fuel (days - days_in_year year) (year + 1) in
    if leb (days_in_year year) days then rest else some (year, days)

-- `while (days < 0)`, from `owed` days before the year.
pub year_down : ℕ → ℕ → ℕ → Option (ℕ × ℕ)
year_down zero owed year = none
year_down (suc fuel) owed year =
    let year' = year - 1 in
    let rest = year_down fuel (owed - days_in_year year') year' in
    if leb owed (days_in_year year') then some (year', days_in_year year' - owed) else rest

-- `while (days >= days_in_month(year, month))`: the month and the day in it. Past the last month
-- `days_in_month` reads beyond its table, which `none` stands for.
pub month_up : ℕ → ℕ → ℕ → ℕ → Option (ℕ × ℕ)
month_up zero year days month = none
month_up (suc fuel) year days month =
    let rest = month_up fuel year (days - days_in_month year month) (month + 1) in
    if leb (days_in_month year month) days then rest else some (month, days)

-- `(days + 4) % 7`, and 7 more if that is negative.
pub weekday : ℤ → ℕ
weekday (pos d) = (d + 4) % 7
weekday (negsuc d) =
    if leb (d + 1) 4
    then (4 - (d + 1)) % 7
    else if (d + 1 - 4) % 7 == 0
    then 0
    else 7 - (d + 1 - 4) % 7

-- The day of a time, and the seconds since it began. `/` and `%` round towards 0.
pub day_of : ℤ → ℤ × ℕ
day_of (pos n) = (pos (n / 86400), n % 86400)
day_of (negsuc n) =
    let rest = (n + 1) % 86400 in
    if rest == 0
    then (negsuc ((n + 1) / 86400 - 1), 0)
    else (negsuc ((n + 1) / 86400), 86400 - rest)

pub year_of : ℤ → Option (ℕ × ℕ)
year_of (pos d) = year_up (d + 1) d 1970
year_of (negsuc d) = year_down (d + 1) (d + 1) 1970

pub gmtime_r : ℤ → Option Tm
gmtime_r timer =
    let (day, day_seconds) = day_of timer in
    do
      (year, yday) ← year_of day
      (month, mday) ← month_up 12 year yday 0
      some record {
        tm_sec = day_seconds % 3600 % 60;
        tm_min = day_seconds % 3600 / 60;
        tm_hour = day_seconds / 3600;
        tm_mday = mday + 1;
        tm_mon = month;
        tm_year = year - 1900;
        tm_wday = weekday day;
        tm_yday = yday;
        tm_isdst = 0;
      }

pub localtime : ℤ → Option Tm
localtime timer = gmtime_r timer

-- The clock is not read.
pub time : ℤ
time = pos 0

-- `while (month >= 12)`: a turn takes 12 from the month.
pub carry_months : ℕ → ℕ → ℕ → ℕ × ℕ
carry_months zero month year = (month, year)
carry_months (suc fuel) month year =
    let rest = carry_months fuel (month - 12) (year + 1) in
    if leb 12 month then rest else (month, year)

-- Whether a number is one of an `int32_t`.
pub is_int32 : ℤ → Bool
is_int32 (pos n) = ltb n (2 ^ 31)
is_int32 (negsuc n) = ltb n (2 ^ 31)

-- The time, and `tm` as `mktime` leaves it. `none` is where the product, one of the addends or a
-- partial sum has no `int32_t`: an overflow, of which C says nothing.
pub mktime : Tm → Option (ℤ × Tm)
mktime tm =
    let (month, year) = carry_months tm.tm_mon tm.tm_mon (tm.tm_year + 1900) in
    let since = days_since_year_one year month tm.tm_mday * 86400 in
    let start = days_from_year 1970 * 86400 in
    let hours = tm.tm_hour * 3600 in
    let minutes = tm.tm_min * 60 in
    if is_int32 (sub since start)
      && is_int32 (pos hours)
      && is_int32 (sub (since + hours) start)
      && is_int32 (pos minutes)
      && is_int32 (sub (since + hours + minutes) start)
      && is_int32 (sub (since + hours + minutes + tm.tm_sec) start)
    then some (
      sub (since + hours + minutes + tm.tm_sec) start,
      record tm {
        tm_year = year - 1900;
        tm_mon = month;
        tm_wday = weekday (days_from_1970 year month tm.tm_mday);
        tm_yday = days_before_month year month + (tm.tm_mday - 1);
        tm_isdst = 0;
      },
    )
    else none
