-- ===== src/Time/Years.antt =====
-- `days_from_year` counts the days that the loops of `gmtime_r` take off.
use fastsystem.Prelude.{
  ℕ, zero, suc, ◌+◌, ◌-◌, ◌*◌, ◌≡◌, ◌≤◌, ◌<◌, ◌∙◌, refl, ap, arith, some, leb, inl, inr, Bool-cases,
}
use fastsystem.Time.{is_leap_year, days_in_year, days_from_year, year_up, year_down}

pub days_from_year-suc :
    (y : ℕ) → 1 ≤ y → days_from_year (y + 1) ≡ days_from_year y + days_in_year y
unfolding days_from_year days_in_year is_leap_year
days_from_year-suc y h = ground arith

days_from_year-pred :
    (y : ℕ) → 2 ≤ y → days_from_year y ≡ days_from_year (y - 1) + days_in_year (y - 1)
days_from_year-pred y h =
    ap days_from_year (omega (arith, h)) ∙ days_from_year-suc (y - 1) (omega (arith, h))

pub days_in_year_bounds : (y : ℕ) → (365 ≤ days_in_year y) × (days_in_year y ≤ 366)
unfolding days_in_year
days_in_year_bounds y = ground arith

-- What `year_up` finds, if the day it starts from is `d` days into the year.
pub year_up_total :
    (fuel d y : ℕ)
    → d < fuel
    → 1 ≤ y
    → (y' d' : ℕ) × (year_up fuel d y ≡ some (y', d'))
      × (d' < days_in_year y')
      × (days_from_year y' + d' ≡ days_from_year y + d)
      × (y ≤ y')
unfolding year_up
year_up_total zero d y h l = absurd (omega arith)
year_up_total (suc fuel) d y h l = elim (Bool-cases (leb (days_in_year y) d)) [
  | inr e ↦ (y, d, ground (arith, e), ground (arith, e), refl, omega arith)
  | inl e ↦
      let b = days_in_year_bounds y in
      let (y', d', r, s, t, u) =
        year_up_total fuel (d - days_in_year y) (y + 1) (ground (arith, b)) (omega arith) in
      (
        y',
        d',
        ground (arith, e, r),
        s,
        ground (arith, e, t, days_from_year-suc y l),
        omega (arith, u),
      )
]

-- The same for `year_down`, from a day that is `owed` days before the year.
pub year_down_total :
    (fuel owed y : ℕ)
    → owed ≤ fuel
    → 1 ≤ owed
    → owed ≤ 365 * (y - 1)
    → (y' d' : ℕ) × (year_down fuel owed y ≡ some (y', d'))
      × (d' < days_in_year y')
      × (days_from_year y' + d' + owed ≡ days_from_year y)
unfolding year_down
year_down_total zero owed y h k l = absurd (omega arith)
year_down_total (suc fuel) owed y h k l =
    let b = days_in_year_bounds (y - 1) in
    let p = days_from_year-pred y (omega (arith, k, l)) in
    elim (Bool-cases (leb owed (days_in_year (y - 1)))) [
      | inl e ↦ (
        y - 1,
        days_in_year (y - 1) - owed,
        ground (arith, e),
        ground (arith, e, b),
        ground (arith, e, p),
      )
      | inr e ↦
          let (y', d', r, s, t) =
            year_down_total fuel (owed - days_in_year (y - 1)) (y - 1) (ground (arith, e, b))
              (ground (arith, e, b)) (ground (arith, e, b, l)) in
          (y', d', ground (arith, e, r), s, ground (arith, e, t, p))
    ]
