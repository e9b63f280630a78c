-- ===== src/Croncmd/Time/Ticks.antt =====
-- The calendar counts minutes: every step of the clock is the next minute, and the larger steps
-- skip the minutes of one hour, one day or one month.
use libp2p_kv_raft.Base.{ℕ, zero, suc, ◌+◌, ◌-◌, ◌*◌, ◌≤◌, ◌<◌, ◌≡◌, refl, arith, ◌⊎◌, inl, inr, ap}
use libp2p_kv_raft.Croncmd.Time.{
  Time, time, IsTime, days_in_month, days_of_months, days_before_year, day_number, instant,
  next_month, next_day, next_hour, tick,
}

pub days_in_month_range : (y m : ℕ) → (1 ≤ days_in_month y m) × (days_in_month y m ≤ 31)
unfolding days_in_month
days_in_month_range y m = (ground arith, ground arith)

suc-sub : (m : ℕ) → suc m - 1 ≡ m
suc-sub m = omega arith

add-sub : (m : ℕ) → m + 1 - 1 ≡ m
add-sub m = omega arith

-- The days of the months before one, by its last day.
days_of_month_lem :
    (y m : ℕ) → 1 ≤ m → days_of_months y m ≡ days_of_months y (m - 1) + days_in_month y m
unfolding days_of_months
days_of_month_lem y zero h = absurd (omega arith)
days_of_month_lem y (suc m) h = rw (suc-sub m) refl

instant_of : ℕ → ℕ → ℕ → ℕ → ℕ → ℕ
instant_of y m d h i = ((days_before_year y + days_of_months y (m - 1) + (d - 1)) * 24 + h) * 60 + i

instant_lem : (y m d h i : ℕ) → instant (time y m d h i) ≡ instant_of y m d h i
unfolding instant day_number instant_of
instant_lem y m d h i = refl

-- Each step of the clock adds to the unit it is named for, or carries into the next larger one.
pub tick-cases :
    (t : Time)
    → ((t.minute < 59) × (tick t ≡ time t.year t.month t.day t.hour (t.minute + 1)))
      ⊎ ((59 ≤ t.minute) × (tick t ≡ next_hour t))
unfolding tick
tick-cases t = ground arith

pub next_hour-cases :
    (t : Time)
    → ((t.hour < 23) × (next_hour t ≡ time t.year t.month t.day (t.hour + 1) 0))
      ⊎ ((23 ≤ t.hour) × (next_hour t ≡ next_day t))
unfolding next_hour
next_hour-cases t = ground arith

pub next_day-cases :
    (t : Time)
    → ((t.day < days_in_month t.year t.month) × (next_day t ≡ time t.year t.month (t.day + 1) 0 0))
      ⊎ ((days_in_month t.year t.month ≤ t.day) × (next_day t ≡ next_month t))
unfolding next_day
next_day-cases t = ground arith

pub next_month-cases :
    (t : Time)
    → ((t.month < 12) × (next_month t ≡ time t.year (t.month + 1) 1 0 0))
      ⊎ ((12 ≤ t.month) × (next_month t ≡ time (suc t.year) 1 1 0 0))
unfolding next_month
next_month-cases t = ground arith

module _ (t : Time) (h : IsTime t) where
  open h use {month_range, day_range, hour_range, minute_range}

  instant-next_month :
      t.day ≡ days_in_month t.year t.month → instant (next_month t) ≡ (day_number t + 1) * 1440
  unfolding days_before_year days_of_months day_number instant_of
  instant-next_month e = elim (next_month-cases t) [
    | inl (lt, s) ↦ rw (s, instant_lem, add-sub) (omega (arith, last))
    | inr (le, s) ↦
        let all : days_of_months t.year t.month ≡ days_of_months t.year 12 =
          ap (days_of_months t.year) {y = 12} (omega arith) in
        rw (s, instant_lem) (omega (arith, last, all))
  ]
    where
      last :
          days_of_months t.year t.month
          ≡ days_of_months t.year (t.month - 1) + days_in_month t.year t.month
      last = days_of_month_lem t.year t.month month_range.0

  pub instant-next_day : instant (next_day t) ≡ (day_number t + 1) * 1440
  unfolding day_number instant_of
  instant-next_day = elim (next_day-cases t) [
    | inl (lt, s) ↦ rw (s, instant_lem) (omega arith)
    | inr (le, s) ↦ rw s (instant-next_month (omega arith))
  ]

  pub instant-next_hour : instant (next_hour t) ≡ (day_number t * 24 + t.hour + 1) * 60
  unfolding day_number instant_of
  instant-next_hour = elim (next_hour-cases t) [
    | inl (lt, s) ↦ rw (s, instant_lem) (omega arith)
    | inr (le, s) ↦ rw s (omega (arith, instant-next_day))
  ]

  -- Every step of the clock is one minute.
  pub instant-tick : instant (tick t) ≡ instant t + 1
  unfolding instant day_number instant_of
  instant-tick = elim (tick-cases t) [
    | inl (lt, s) ↦ rw s (omega arith)
    | inr (le, s) ↦ rw s (omega (arith, instant-next_hour))
  ]
