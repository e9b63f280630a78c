-- ===== src/Croncmd/Utc/Inverse.antt =====
-- A time in UTC is the only one with its number of minutes.
use mathlib.Core.Path.{subst}
use libp2p_kv_raft.Base.{
  ◌-◌, ◌*◌, ◌/◌, ◌≤◌, ◌<◌, ◌≡◌, sym, ◌∙◌, ap, arith, inl, inr, Bool-cases, ltb, ltb→lt, not_ltb→le,
}
use libp2p_kv_raft.Croncmd.Time.{Time, IsTime, day_number, instant}
use libp2p_kv_raft.Croncmd.Utc.{civil}
use libp2p_kv_raft.Croncmd.Utc.Civil.{civil-IsTime, instant-civil}
use libp2p_kv_raft.Croncmd.Utc.Days.{days_to, in_month, months_mono, years_mono}

-- Two times on the same day are in the same year and month.
year_le : (c w : Time) → IsTime c → IsTime w → day_number c ≡ day_number w → c.year ≤ w.year
year_le c w hc hw e = elim (Bool-cases (ltb w.year c.year)) [
  | inl less ↦ absurd (
      omega (
        arith,
        e,
        (in_month w hw).1,
        (in_month c hc).0,
        months_mono w.year w.month 12 hw.month_range.1,
        years_mono w.year c.year (ltb→lt w.year c.year less),
      ))
  | inr more ↦ not_ltb→le w.year c.year more
]

month_le :
    (c w : Time)
    → IsTime c
    → IsTime w
    → day_number c ≡ day_number w
    → w.year ≡ c.year
    → c.month ≤ w.month
month_le c w hc hw e same = elim (Bool-cases (ltb w.month c.month)) [
  | inl less ↦ absurd (
      omega (
        arith,
        e,
        subst (λ y. day_number w < days_to y w.month) same (in_month w hw).1,
        (in_month c hc).0,
        months_mono c.year w.month (c.month - 1) (omega (arith, ltb→lt w.month c.month less)),
      ))
  | inr more ↦ not_ltb→le w.month c.month more
]

same_day :
    (c w : Time)
    → IsTime c
    → IsTime w
    → w.year ≡ c.year
    → w.month ≡ c.month
    → day_number c ≡ day_number w
    → w.day ≡ c.day
unfolding day_number
same_day c w hc hw same_year same_month e =
    omega (arith, rw (same_year, same_month) at e, hc.day_range, hw.day_range)

time_eq :
    (c w : Time)
    → w.year ≡ c.year
    → w.month ≡ c.month
    → w.day ≡ c.day
    → w.hour ≡ c.hour
    → w.minute ≡ c.minute
    → w ≡ c
time_eq c w y m d h i = λ j. record { year = y j; month = m j; day = d j; hour = h j; minute = i j }

clock_of :
    (c w : Time)
    → IsTime c
    → IsTime w
    → instant c ≡ instant w
    → (day_number c ≡ day_number w) × (w.hour ≡ c.hour) × (w.minute ≡ c.minute)
unfolding instant
clock_of c w hc hw e = (
  omega (arith, hc.hour_range, hw.hour_range, hc.minute_range, hw.minute_range),
  omega (arith, hc.hour_range, hw.hour_range, hc.minute_range, hw.minute_range),
  omega (arith, hc.hour_range, hw.hour_range, hc.minute_range, hw.minute_range),
)

pub instant_injective : (c w : Time) → IsTime c → IsTime w → instant c ≡ instant w → w ≡ c
instant_injective c w hc hw e =
    let (days, hours, minutes) = clock_of c w hc hw e in
    let same_year : w.year ≡ c.year =
      omega (arith, year_le c w hc hw days, year_le w c hw hc (sym days)) in
    let same_month : w.month ≡ c.month =
      omega
        (arith, month_le c w hc hw days same_year, month_le w c hw hc (sym days) (sym same_year)) in
    time_eq c w same_year same_month (same_day c w hc hw same_year same_month days) hours minutes

-- The fields of the instant of a time are the time.
pub civil-instant : (c : Time) → IsTime c → civil (instant c * 60 / 60) ≡ c
civil-instant c h =
    ap civil (omega arith)
    ∙ instant_injective c (civil (instant c)) h (civil-IsTime (instant c))
        (sym (instant-civil (instant c)))
