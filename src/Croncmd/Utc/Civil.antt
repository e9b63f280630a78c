-- ===== src/Croncmd/Utc/Civil.antt =====
-- The time of a minute is the one with that number.
use libp2p_kv_raft.Base.{
  ℕ, zero, suc, ◌+◌, ◌-◌, ◌/◌, ◌≤◌, ◌<◌, ◌≡◌, refl, arith, inl, inr, Bool-cases, ltb, leb, ltb→lt,
  not_ltb→le,
}
use libp2p_kv_raft.Croncmd.Time.{
  IsTime, days_in_month, days_of_months, days_before_year, day_number, instant,
}
use libp2p_kv_raft.Croncmd.Time.Ticks.{days_in_month_range}
use libp2p_kv_raft.Croncmd.Utc.{year_of, month_of, civil}

days_of_months_pos : (y : ℕ) → 1 ≤ days_of_months y 12
unfolding days_of_months
days_of_months_pos y = omega (arith, days_in_month_range y 12)

year_of_lem :
    (fuel y d : ℕ)
    → d < fuel
    → (days_before_year (year_of fuel y d).0 + (year_of fuel y d).1 ≡ days_before_year y + d)
      × ((year_of fuel y d).1 < days_of_months (year_of fuel y d).0 12)
unfolding days_before_year days_of_months year_of
year_of_lem zero y d h = absurd (omega arith)
year_of_lem (suc fuel) y d h = elim (Bool-cases (ltb d (days_of_months y 12))) [
  | inl lt ↦ rw (lt, year_of) (refl, ltb→lt d (days_of_months y 12) lt)
  | inr ge ↦
      let le = not_ltb→le d (days_of_months y 12) ge in
      let r =
        year_of_lem fuel (suc y) (d - days_of_months y 12) (omega (arith, days_of_months_pos y)) in
      rw (ge, year_of) (omega (arith, r.0), r.1)
]

abbrev IsMonthOf : ℕ → ℕ → ℕ → ℕ × ℕ → Type 0
IsMonthOf y m d (month, day) =
    (1 ≤ month)
    × (month ≤ m)
    × (1 ≤ day)
    × (day ≤ days_in_month y month)
    × (days_of_months y (month - 1) + (day - 1) ≡ d)

suc-sub : (m : ℕ) → suc m - 1 ≡ m
suc-sub m = omega arith

month_of_lem : (y m d : ℕ) → d < days_of_months y m → IsMonthOf y m d (month_of y m d)
unfolding month_of days_of_months
month_of_lem y zero d h = absurd (omega arith)
month_of_lem y (suc m) d h = elim (Bool-cases (leb (days_of_months y m) d)) [
  | inl le ↦
      rw (le, month_of)
        (omega arith, omega arith, omega arith, ground arith, rw (suc-sub m) (ground arith))
  | inr gt ↦
      let (a, b, c, e, f) = month_of_lem y m d (ground arith) in
      rw (gt, month_of) (a, omega arith, c, e, f)
]

module _ (n : ℕ) where
  abbrev year : ℕ
  year = (year_of (suc (n / 1440)) 0 (n / 1440)).0

  abbrev year_day : ℕ
  year_day = (year_of (suc (n / 1440)) 0 (n / 1440)).1

  in_year :
      (days_before_year year + year_day ≡ days_before_year 0 + n / 1440)
      × (year_day < days_of_months year 12)
  in_year = year_of_lem (suc (n / 1440)) 0 (n / 1440) (omega arith)

  in_month : IsMonthOf year 12 year_day (month_of year 12 year_day)
  in_month = month_of_lem year 12 year_day in_year.1

  pub civil-IsTime : IsTime (civil n)
  unfolding civil
  civil-IsTime = record {
    month_range = (in_month.0, in_month.1);
    day_range = (in_month.2, in_month.3);
    hour_range = omega arith;
    minute_range = omega arith;
  }

  pub instant-civil : instant (civil n) ≡ n
  unfolding civil instant day_number days_before_year
  instant-civil = omega (arith, in_year.0, in_month.4)
