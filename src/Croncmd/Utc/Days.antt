-- ===== src/Croncmd/Utc/Days.antt =====
-- UTC keeps its offset: an hour, a day and a month of package `time` last to a later instant.
use mathlib.Core.Path.{subst}
use libp2p_kv_raft.Base.{
  ℕ, zero, suc, ◌+◌, ◌-◌, ◌*◌, ◌/◌, ◌%◌, ◌≤◌, ◌<◌, ◌≡◌, refl, sym, arith, inl, inr, Bool-cases, ltb,
  ltb→lt, not_ltb→le,
}
use libp2p_kv_raft.Croncmd.Time.{
  Time, IsTime, time, days_in_month, days_of_months, days_before_year, day_number, instant,
}
use libp2p_kv_raft.Croncmd.Utc.{civil, added}
use libp2p_kv_raft.Croncmd.Utc.Civil.{civil-IsTime, instant-civil}

-- The days before the month after `m` of a year, from 1 January of the year 0
abbrev pub days_to : ℕ → ℕ → ℕ
days_to y m = days_before_year y + days_of_months y m

zero_add : (m : ℕ) → 0 + m ≡ m
zero_add m = omega arith

suc_add : (n m : ℕ) → suc n + m ≡ suc (n + m)
suc_add n m = omega arith

rise_of_months : (y n m : ℕ) → days_of_months y m ≤ days_of_months y (n + m)
unfolding days_of_months
rise_of_months y zero m = rw (zero_add m) (omega arith)
rise_of_months y (suc n) m = rw (suc_add n m) (omega (arith, rise_of_months y n m))

rise_of_years : (y n : ℕ) → days_to y 12 ≤ days_before_year (n + suc y)
unfolding days_before_year
rise_of_years y zero = rw (zero_add (suc y)) (omega arith)
rise_of_years y (suc n) = rw (suc_add n (suc y)) (omega (arith, rise_of_years y n))

difference : (a b : ℕ) → a ≤ b → (b - a) + a ≡ b
difference a b h = omega arith

pub months_mono : (y m n : ℕ) → m ≤ n → days_of_months y m ≤ days_of_months y n
months_mono y m n h =
    subst (λ k. days_of_months y m ≤ days_of_months y k) (difference m n h)
      (rise_of_months y (n - m) m)

pub years_mono : (y z : ℕ) → y < z → days_to y 12 ≤ days_before_year z
years_mono y z h =
    subst (λ k. days_to y 12 ≤ days_before_year k) (difference (suc y) z h)
      (rise_of_years y (z - suc y))

suc-sub : (m : ℕ) → suc m - 1 ≡ m
suc-sub m = omega arith

pub month_step :
    (y m : ℕ) → 1 ≤ m → days_of_months y m ≡ days_of_months y (m - 1) + days_in_month y m
unfolding days_of_months
month_step y zero h = absurd (omega arith)
month_step y (suc m) h = rw (suc-sub m) refl

-- A time lies in its month.
pub in_month :
    (c : Time)
    → IsTime c
    → (days_to c.year (c.month - 1) ≤ day_number c) × (day_number c < days_to c.year c.month)
unfolding day_number
in_month c h = (omega arith, omega (arith, month_step c.year c.month h.month_range.0, h.day_range))

-- A time not before the start of a month has a month that ends no earlier.
month_ends :
    (c w : Time)
    → IsTime c
    → IsTime w
    → days_to c.year (c.month - 1) ≤ day_number w
    → days_to c.year c.month ≤ days_to w.year w.month
month_ends c w hc hw le = elim (Bool-cases (ltb w.year c.year)) [
  | inl past ↦ absurd (
      omega (
        arith,
        (in_month w hw).1,
        months_mono w.year w.month 12 hw.month_range.1,
        years_mono w.year c.year (ltb→lt w.year c.year past),
      ))
  | inr not_past ↦ elim (Bool-cases (ltb c.year w.year)) [
    | inl ahead ↦ omega (
      arith,
      months_mono c.year c.month 12 hc.month_range.1,
      years_mono c.year w.year (ltb→lt c.year w.year ahead),
    )
    | inr not_ahead ↦
        let same : w.year ≡ c.year =
          omega (arith, not_ltb→le w.year c.year not_past, not_ltb→le c.year w.year not_ahead) in
        same_year (in_month w hw).1 same
  ]
]
  where
    same_year :
        day_number w < days_to w.year w.month
        → w.year ≡ c.year
        → days_to c.year c.month ≤ days_to w.year w.month
    same_year inside same = elim (Bool-cases (ltb w.month c.month)) [
      | inl less ↦ absurd (
          omega (
            arith,
            subst (λ y. day_number w < days_to y w.month) same inside,
            months_mono c.year w.month (c.month - 1) (omega (arith, ltb→lt w.month c.month less)),
          ))
      | inr more ↦
          subst (λ y. days_to c.year c.month ≤ days_to y w.month) (sym same)
            (omega (arith, months_mono c.year c.month w.month (not_ltb→le w.month c.month more)))
    ]

pub instant-added_day : (w : Time) → IsTime w → instant (added 0 0 1 w) ≡ instant w + 1440
unfolding instant day_number added
instant-added_day w h =
    let same_year : w.year + 0 + (w.month - 1 + 0) / 12 ≡ w.year = omega (arith, h.month_range) in
    let same_month : (w.month - 1 + 0) % 12 + 1 - 1 ≡ w.month - 1 = omega (arith, h.month_range) in
    rw (same_year, same_month) (omega (arith, h.day_range))

pub instant-added_month :
    (w : Time)
    → IsTime w
    → instant (added 0 1 0 w)
      ≡ days_to w.year w.month * 1440 + ((w.day - 1) * 24 + w.hour) * 60 + w.minute
unfolding instant day_number added days_before_year days_of_months
instant-added_month w h = elim (Bool-cases (ltb w.month 12)) [
  | inl lt ↦
      let same_year : w.year + 0 + (w.month - 1 + 1) / 12 ≡ w.year =
        omega (arith, h.month_range, ltb→lt w.month 12 lt) in
      let next_month : (w.month - 1 + 1) % 12 + 1 - 1 ≡ w.month =
        omega (arith, h.month_range, ltb→lt w.month 12 lt) in
      rw (same_year, next_month) (omega arith)
  | inr ge ↦
      let december : w.month ≡ 12 = omega (arith, h.month_range, not_ltb→le w.month 12 ge) in
      let next_year : w.year + 0 + (w.month - 1 + 1) / 12 ≡ suc w.year = omega (arith, december) in
      let january : (w.month - 1 + 1) % 12 + 1 - 1 ≡ 0 = omega (arith, december) in
      rw (next_year, january, december) (omega arith)
]

in_day : (c : Time) → IsTime c → instant c < instant (time c.year c.month c.day 0 0) + 1440
unfolding instant day_number
in_day c h = omega (arith, h.hour_range, h.minute_range)

after_start :
    (c w : Time)
    → instant w ≡ instant (time c.year c.month 1 0 0)
    → IsTime w
    → days_to c.year (c.month - 1) ≤ day_number w
unfolding instant day_number
after_start c w e h = omega (arith, e, h.hour_range, h.minute_range)

before_end :
    (c : Time)
    → IsTime c
    → day_number c < days_to c.year c.month
    → instant c < days_to c.year c.month * 1440
unfolding instant
before_end c h lt = omega (arith, h.hour_range, h.minute_range)

-- The day of a time, and its month, end later.
pub day_of_later :
    (c : Time)
    → IsTime c
    → instant c < instant (added 0 0 1 (civil (instant (time c.year c.month c.day 0 0))))
day_of_later c h =
    let start : ℕ = instant (time c.year c.month c.day 0 0) in
    omega
      (arith, instant-added_day (civil start) (civil-IsTime start), instant-civil start, in_day c h)

pub month_of_later :
    (c : Time)
    → IsTime c
    → instant c < instant (added 0 1 0 (civil (instant (time c.year c.month 1 0 0))))
month_of_later c h =
    let start : ℕ = instant (time c.year c.month 1 0 0) in
    let w : Time = civil start in
    let valid : IsTime w = civil-IsTime start in
    omega (
      arith,
      instant-added_month w valid,
      month_ends c w h valid (after_start c w (instant-civil start) valid),
      before_end c h (in_month c h).1,
    )
