-- ===== src/Time/RoundTrip.antt =====
-- `mktime` undoes `gmtime_r`.
use fastsystem.Prelude.{
  Bool, Bool-cases, true, inl, inr, none, ltb, leb, if◌then◌else◌, ℤ, pos, negsuc, sub, ℕ, zero,
  suc, ◌+◌, ◌-◌, ◌*◌, ◌/◌, ◌%◌, ◌^◌, ◌≡◌, ◌≤◌, ◌<◌, ◌∙◌, refl, sym, ap, arith, some,
}
use fastsystem.Time.{
  Tm, days_in_year, days_in_month, days_before_month, days_from_year, days_since_year_one,
  days_from_1970, month_up, year_of, day_of, weekday, gmtime_r, mktime, is_int32, carry_months,
}
use fastsystem.Time.Years.{days_in_year_bounds, year_up_total, year_down_total}
use fastsystem.Time.Months.{days_before_month-year, month_up_total}

epoch : days_from_year 1970 ≡ 719162
unfolding days_from_year
epoch = refl

-- A time of 32 bits.
abbrev pub IsTime : ℤ → Type 0
IsTime (pos n) = n < 2 ^ 31
IsTime (negsuc n) = n < 2 ^ 31

-- The fields are in their ranges, the day is one of its month, and the weekday is counted from the
-- first day of the year 1, which is a Monday.
pub record IsDate (tm : Tm) : Type 0 where
  pub sec : tm.tm_sec < 60
  pub min : tm.tm_min < 60
  pub hour : tm.tm_hour < 24
  pub mday_low : 1 ≤ tm.tm_mday
  pub mday : tm.tm_mday ≤ days_in_month (tm.tm_year + 1900) tm.tm_mon
  pub mon : tm.tm_mon < 12
  pub wday : tm.tm_wday ≡ (days_from_year (tm.tm_year + 1900) + tm.tm_yday + 1) % 7
  pub yday : tm.tm_yday < days_in_year (tm.tm_year + 1900)
  pub yday_mday : tm.tm_yday + 1 ≡ days_before_month (tm.tm_year + 1900) tm.tm_mon + tm.tm_mday

-- Whether the day of a time begins within 32 bits.
abbrev pub is_whole : ℤ → Bool
is_whole (pos n) = true
is_whole (negsuc n) = ltb n 2147472000

-- `year_of` from a day number.
abbrev DayIs : ℤ → ℕ → Type 0
DayIs (pos d) n = n ≡ 719162 + d
DayIs (negsuc d) n = n + d + 1 ≡ 719162

abbrev IsDay : ℤ → Type 0
IsDay (pos d) = d < 25000
IsDay (negsuc d) = d < 25000

since_1900 : (y : ℕ) → 693700 ≤ days_from_year y → 1900 ≤ y
unfolding days_from_year
since_1900 y h = omega (arith, h)

year_of_total :
    (day : ℤ)
    → IsDay day
    → (y d : ℕ) × (year_of day ≡ some (y, d))
      × (d < days_in_year y)
      × DayIs day (days_from_year y + d)
      × (1900 ≤ y)
unfolding year_of
year_of_total (pos n) h =
    let (y, d, r, s, t, u) = year_up_total (n + 1) n 1970 (omega arith) (omega arith) in
    (y, d, r, s, omega (arith, t, epoch), omega (arith, u))
year_of_total (negsuc n) h =
    let (y, d, r, s, t) =
      year_down_total (n + 1) (n + 1) 1970 (omega arith) (omega arith) (omega arith) in
    (
      y,
      d,
      r,
      s,
      omega (arith, t, epoch),
      since_1900 y (omega (arith, t, epoch, s, days_in_year_bounds y)),
    )

day_of-IsDay : (t : ℤ) → IsTime t → IsDay (day_of t).0
unfolding day_of
day_of-IsDay (pos n) h = omega arith
day_of-IsDay (negsuc n) h = ground arith

-- A time is its day and the seconds since the day began.
day_of_lem :
    (t : ℤ) (n : ℕ)
    → DayIs (day_of t).0 n
    → ((day_of t).1 < 86400) × (sub (n * 86400 + (day_of t).1) (719162 * 86400) ≡ t)
unfolding day_of
day_of_lem (pos n) m h = ground arith
day_of_lem (negsuc n) m h = ground arith

weekday_lem : (day : ℤ) (n : ℕ) → DayIs day n → weekday day ≡ (n + 1) % 7
unfolding weekday
weekday_lem (pos d) n h = ground arith
weekday_lem (negsuc d) n h = ground arith

carry_none : (m y : ℕ) → m < 12 → carry_months m m y ≡ (m, y)
unfolding carry_months
carry_none zero y h = refl
carry_none (suc m) y h = ground arith

-- The clock of a day.
clock : (s : ℕ) → s / 3600 * 3600 + s % 3600 / 60 * 60 + s % 3600 % 60 ≡ s
clock s = ground arith

day-sub : (day : ℤ) (n : ℕ) → DayIs day n → sub n 719162 ≡ day
day-sub (pos d) n h = ground arith
day-sub (negsuc d) n h = ground arith

abbrev filled : ℤ → ℕ → ℕ → ℕ → ℕ → ℕ → Tm
filled day s y yd m md = record {
  tm_sec = s % 3600 % 60;
  tm_min = s % 3600 / 60;
  tm_hour = s / 3600;
  tm_mday = md + 1;
  tm_mon = m;
  tm_year = y - 1900;
  tm_wday = weekday day;
  tm_yday = yd;
  tm_isdst = 0;
}

gmtime_r-filled :
    (t : ℤ) (y yd m md : ℕ)
    → year_of (day_of t).0 ≡ some (y, yd)
    → month_up 12 y yd 0 ≡ some (m, md)
    → gmtime_r t ≡ some (filled (day_of t).0 (day_of t).1 y yd m md)
unfolding gmtime_r
gmtime_r-filled t y yd m md h k = rw (h, k) refl

is_int32-sub : (a e : ℕ) → a < e + 2 ^ 31 → is_int32 (sub a e) ≡ leb e (a + 2 ^ 31)
unfolding is_int32
is_int32-sub a e h = ground arith

is_int32-pos : (n : ℕ) → n < 2 ^ 31 → is_int32 (pos n) ≡ true
unfolding is_int32
is_int32-pos n h = ground arith

-- `mktime` of a date whose day and clock are known.
mktime-filled :
    (t day : ℤ) (s y yd m md : ℕ)
    → 1900 ≤ y
    → m < 12
    → s < 86400
    → yd ≡ days_before_month y m + md
    → DayIs day (days_from_year y + yd)
    → (days_from_year y + yd) * 86400 + s < 719162 * 86400 + 2 ^ 31
    → sub ((days_from_year y + yd) * 86400 + s) (719162 * 86400) ≡ t
    → mktime (filled day s y yd m md) ≡ (
        if leb (719162 * 86400) ((days_from_year y + yd) * 86400 + 2 ^ 31)
        then some (t, filled day s y yd m md)
        else none)
unfolding mktime days_since_year_one days_from_1970
mktime-filled t day s y yd m md h k b e d top q =
    let y' : y - 1900 + 1900 ≡ y = omega (arith, h) in
    let c = carry_none m y k in
    let x : days_from_year y + days_before_month y m + (md + 1 - 1) ≡ days_from_year y + yd =
      omega (arith, e) in
    let yday : days_before_month y m + (md + 1 - 1) ≡ yd = omega (arith, e) in
    let n = (days_from_year y + yd) * 86400 in
    let hours = s / 3600 * 3600 in
    let minutes = s % 3600 / 60 * 60 in
    let whole : n + hours + minutes + s % 3600 % 60 ≡ n + s = omega (arith, clock s) in
    let f0 = is_int32-sub n (719162 * 86400) (omega (arith, top)) in
    let f1 = is_int32-sub (n + hours) (719162 * 86400) (omega (arith, top, clock s)) in
    let f2 = is_int32-sub (n + hours + minutes) (719162 * 86400) (omega (arith, top, clock s)) in
    let f3 = is_int32-sub (n + s) (719162 * 86400) (omega (arith, top)) in
    let p1 = is_int32-pos hours (omega (arith, b)) in
    let p2 = is_int32-pos minutes (omega (arith, b)) in
    elim (Bool-cases (leb (719162 * 86400) (n + 2 ^ 31))) [
      | inl low ↦
          let l1 : leb (719162 * 86400) (n + hours + 2 ^ 31) ≡ true = ground (arith, low) in
          let l2 : leb (719162 * 86400) (n + hours + minutes + 2 ^ 31) ≡ true =
            ground (arith, low) in
          let l3 : leb (719162 * 86400) (n + s + 2 ^ 31) ≡ true = ground (arith, low) in
          rw (y', c, x, epoch)
            (rw
              (
                whole,
                f0,
                f1,
                f2,
                f3,
                p1,
                p2,
                low,
                l1,
                l2,
                l3,
                q,
                day-sub day (days_from_year y + yd) d,
                yday,
              )
              refl)
      | inr high ↦ rw (y', c, x, epoch) (rw (f0, high) refl)
    ]

start : (y d : ℕ) → days_before_month y 0 + d ≡ d
unfolding days_before_month
start y d = omega arith

before : (y d : ℕ) → d < days_in_year y → days_before_month y 0 + d < days_before_month y 12
before y d h = rw (start y d, days_before_month-year y) h

dated :
    (day : ℤ) (s y yd m md : ℕ)
    → s < 86400
    → 1900 ≤ y
    → m < 12
    → md < days_in_month y m
    → yd < days_in_year y
    → yd ≡ days_before_month y m + md
    → DayIs day (days_from_year y + yd)
    → IsDate (filled day s y yd m md)
dated day s y yd m md b h k l n e d =
    let y' : y - 1900 + 1900 ≡ y = omega (arith, h) in
    record {
      sec = omega arith;
      min = omega (arith, b);
      hour = omega (arith, b);
      mday_low = omega arith;
      mday = rw y' (omega (arith, l));
      mon = k;
      wday = rw y' (weekday_lem day (days_from_year y + yd) d);
      yday = rw y' n;
      yday_mday = rw y' (omega (arith, e));
    }

-- The sum of a time, and whether its day begins within 32 bits.
time_bounds :
    (t : ℤ) (n : ℕ)
    → IsTime t
    → DayIs (day_of t).0 n
    → (n * 86400 + (day_of t).1 < 719162 * 86400 + 2 ^ 31)
      × (leb (719162 * 86400) (n * 86400 + 2 ^ 31) ≡ is_whole t)
unfolding day_of
time_bounds (pos n) m h d = ground arith
time_bounds (negsuc n) m h d = ground arith

-- Every time of 32 bits has a date, whose fields are in their ranges and whose weekday is that of
-- its day. From -2147472000 on, where the day begins within 32 bits, `mktime` leads back to the
-- time and leaves the date as it is; before that it overflows, though the time has 32 bits.
pub gmtime_r-mktime :
    (t : ℤ)
    → IsTime t
    → (tm : Tm) × (gmtime_r t ≡ some tm)
      × IsDate tm
      × (mktime tm ≡ (if is_whole t then some (t, tm) else none))
gmtime_r-mktime t h =
    let day = (day_of t).0 in
    let s = (day_of t).1 in
    let (y, yd, e, l, d, k) = year_of_total day (day_of-IsDay t h) in
    let (m, md, f, m', md', g) = month_up_total 12 y yd 0 refl (before y yd l) in
    let (b, q) = day_of_lem t (days_from_year y + yd) d in
    let (top, whole) = time_bounds t (days_from_year y + yd) h d in
    let g' : yd ≡ days_before_month y m + md = sym (g ∙ start y yd) in
    (
      filled day s y yd m md,
      gmtime_r-filled t y yd m md e f,
      dated day s y yd m md b k m' md' l g' d,
      mktime-filled t day s y yd m md k m' b g' d top q
          ∙ ap (λ w. if w then some (t, filled day s y yd m md) else none) whole,
    )
