-- ===== src/Croncmd/Time.antt =====
-- The clock of the cron scheduler: what package `time` says of a time in UTC, by the minute, in
-- the Gregorian calendar. A month is 1 to 12, a day of the week 0 to 6 from Sunday.
pub mod Ticks
pub mod Gaps
use libp2p_kv_raft.Base.{
  ℕ, zero, suc, ◌+◌, ◌-◌, ◌*◌, ◌%◌, ◌≤◌, ◌<◌, Bool, true, false, not, ◌&&◌, ◌||◌, ltb, ◌==◌,
  if◌then◌else◌,
}

pub record Time : Type 0 where
  pub year : ℕ
  pub month : ℕ
  pub day : ℕ
  pub hour : ℕ
  pub minute : ℕ

abbrev pub time : ℕ → ℕ → ℕ → ℕ → ℕ → Time
time y m d h i = record { year = y; month = m; day = d; hour = h; minute = i }

abbrev pub is_leap : ℕ → Bool
is_leap y = (y % 4 == 0) && (not (y % 100 == 0) || (y % 400 == 0))

-- 31 and 30 by turns, from January and again from August, but for February.
unfoldable pub days_in_month : ℕ → ℕ → ℕ
days_in_month year m =
    let february = 28 + (if is_leap year then 1 else 0) in
    if m == 2 then february else 31 - (m - 1) % 7 % 2

-- The days before the month after `m`.
unfoldable pub days_of_months : ℕ → ℕ → ℕ
days_of_months y zero = 0
days_of_months y (suc m) = days_of_months y m + days_in_month y (suc m)

-- The days before 1 January of a year, from that of the year 0.
unfoldable pub days_before_year : ℕ → ℕ
days_before_year zero = 0
days_before_year (suc y) = days_before_year y + days_of_months y 12

unfoldable pub day_number : Time → ℕ
day_number t = days_before_year t.year + days_of_months t.year (t.month - 1) + (t.day - 1)

-- 1 January of the year 0 is a Saturday.
unfoldable pub weekday : Time → ℕ
weekday t = (day_number t + 6) % 7

-- The minutes since the year 0.
unfoldable pub instant : Time → ℕ
instant t = (day_number t * 24 + t.hour) * 60 + t.minute

pub record IsTime (t : Time) : Type 0 where
  pub month_range : (1 ≤ t.month) × (t.month ≤ 12)
  pub day_range : (1 ≤ t.day) × (t.day ≤ days_in_month t.year t.month)
  pub hour_range : t.hour < 24
  pub minute_range : t.minute < 60

-- time.Date(year, month, 1, 0, 0, 0, 0, UTC).AddDate(0, 1, 0)
unfoldable pub next_month : Time → Time
next_month t = if ltb t.month 12 then time t.year (t.month + 1) 1 0 0 else time (suc t.year) 1 1 0 0

-- time.Date(year, month, day, 0, 0, 0, 0, UTC).AddDate(0, 0, 1)
unfoldable pub next_day : Time → Time
next_day t =
    if ltb t.day (days_in_month t.year t.month)
    then time t.year t.month (t.day + 1) 0 0
    else next_month t

-- time.Date(year, month, day, hour, 0, 0, 0, UTC).Add(time.Hour)
unfoldable pub next_hour : Time → Time
next_hour t = if ltb t.hour 23 then time t.year t.month t.day (t.hour + 1) 0 else next_day t

-- Add(time.Minute)
unfoldable pub tick : Time → Time
tick t = if ltb t.minute 59 then time t.year t.month t.day t.hour (t.minute + 1) else next_hour t

-- AddDate(years, 0, 0): a 29 February that the year does not have is 1 March.
unfoldable pub add_years : ℕ → Time → Time
add_years n t =
    if ltb (days_in_month (t.year + n) t.month) t.day
    then time (t.year + n) (t.month + 1) (t.day - days_in_month (t.year + n) t.month) t.hour
        t.minute
    else time (t.year + n) t.month t.day t.hour t.minute

unfoldable pub before : Time → Time → Bool
before t u = ltb (instant t) (instant u)

-- The time `n` minutes later.
unfoldable pub after : ℕ → Time → Time
after zero t = t
after (suc n) t = after n (tick t)
