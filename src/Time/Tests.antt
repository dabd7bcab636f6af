-- ===== src/Time/Tests.antt =====
-- The calendar at concrete times.
use fastsystem.Prelude.{negsuc, ◌≡◌, refl, arith, some}
use fastsystem.Time.{
  Tm, gmtime_r, mktime, day_of, year_of, year_down, month_up, days_in_year, days_in_month,
  is_leap_year, weekday,
}
use fastsystem.Time.RoundTrip.{IsDate, gmtime_r-mktime}

-- The last second before 1970.
gmtime_r-before :
    gmtime_r (negsuc 0)
    ≡ some record {
      tm_sec = 59;
      tm_min = 59;
      tm_hour = 23;
      tm_mday = 31;
      tm_mon = 11;
      tm_year = 69;
      tm_wday = 3;
      tm_yday = 364;
      tm_isdst = 0;
    }
unfolding gmtime_r day_of year_of year_down month_up days_in_year days_in_month is_leap_year weekday
gmtime_r-before = refl

gmtime_r-mktime_example :
    (tm : Tm) × (gmtime_r (negsuc 999) ≡ some tm) × IsDate tm × (mktime tm ≡ some (negsuc 999, tm))
gmtime_r-mktime_example = gmtime_r-mktime (negsuc 999) (omega arith)
