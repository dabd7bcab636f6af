-- ===== src/Time/Months.antt =====
-- `days_before_month` counts the days that the last loop of `gmtime_r` takes off.
use fastsystem.Prelude.{
  ℕ, zero, suc, ◌+◌, ◌-◌, ◌≡◌, ◌<◌, refl, ap, arith, some, leb, inl, inr, Bool-cases,
}
use fastsystem.Time.{days_in_year, days_in_month, days_before_month, month_up}

-- The months make up the year.
pub days_before_month-year : (y : ℕ) → days_before_month y 12 ≡ days_in_year y
unfolding days_before_month days_in_month days_in_year
days_before_month-year y = ground arith

days_before_month-suc :
    (y m : ℕ) → days_before_month y (m + 1) ≡ days_before_month y m + days_in_month y m
unfolding days_before_month
days_before_month-suc y m = let e : m + 1 ≡ suc m = omega arith in rw e refl

pub month_up_total :
    (fuel y d m : ℕ)
    → m + fuel ≡ 12
    → days_before_month y m + d < days_before_month y 12
    → (m' d' : ℕ) × (month_up fuel y d m ≡ some (m', d'))
      × (m' < 12)
      × (d' < days_in_month y m')
      × (days_before_month y m' + d' ≡ days_before_month y m + d)
unfolding month_up
month_up_total zero y d m h l =
    let e : m ≡ 12 = omega (arith, h) in absurd (omega (arith, l, ap (days_before_month y) e))
month_up_total (suc fuel) y d m h l = elim (Bool-cases (leb (days_in_month y m) d)) [
  | inr e ↦ (m, d, ground (arith, e), omega (arith, h), ground (arith, e), refl)
  | inl e ↦
      let n = days_before_month-suc y m in
      let (m', d', r, s, t, u) =
        month_up_total fuel y (d - days_in_month y m) (m + 1) (omega (arith, h))
          (ground (arith, e, l, n)) in
      (m', d', ground (arith, e, r), s, t, ground (arith, e, u, n))
]
