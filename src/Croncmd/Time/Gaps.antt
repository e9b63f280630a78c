-- ===== src/Croncmd/Time/Gaps.antt =====
-- The minutes of a stretch of time, one after the other, and the stretches that the search of the
-- scheduler skips: the rest of an hour, of a day, of a month.
use mathlib.Core.Path.{subst}
use libp2p_kv_raft.Base.{ℕ, zero, suc, ◌+◌, ◌≤◌, ◌<◌, ◌≡◌, refl, sym, ◌∙◌, arith, inl, inr}
use libp2p_kv_raft.Croncmd.Time.{
  Time, time, IsTime, days_in_month, instant, after, next_month, next_day, next_hour, tick,
}
use libp2p_kv_raft.Croncmd.Time.Ticks.{
  days_in_month_range, tick-cases, next_hour-cases, next_day-cases, next_month-cases, instant-tick,
  instant-next_hour, instant-next_day,
}

IsTime-next_month : (t : Time) → IsTime t → IsTime (next_month t)
IsTime-next_month t h = elim (next_month-cases t) [
  | inl (lt, s) ↦ subst IsTime (sym s) (record {
    month_range = (omega arith, omega arith);
    day_range = (omega arith, (days_in_month_range t.year (t.month + 1)).0);
    hour_range = omega arith;
    minute_range = omega arith;
  })
  | inr (le, s) ↦ subst IsTime (sym s) (record {
    month_range = (omega arith, omega arith);
    day_range = (omega arith, (days_in_month_range (suc t.year) 1).0);
    hour_range = omega arith;
    minute_range = omega arith;
  })
]

IsTime-next_day : (t : Time) → IsTime t → IsTime (next_day t)
IsTime-next_day t h = elim (next_day-cases t) [
  | inl (lt, s) ↦ subst IsTime (sym s) (record {
    month_range = h.month_range;
    day_range = (omega arith, omega arith);
    hour_range = omega arith;
    minute_range = omega arith;
  })
  | inr (le, s) ↦ subst IsTime (sym s) (IsTime-next_month t h)
]

IsTime-next_hour : (t : Time) → IsTime t → IsTime (next_hour t)
IsTime-next_hour t h = elim (next_hour-cases t) [
  | inl (lt, s) ↦ subst IsTime (sym s) (record {
    month_range = h.month_range;
    day_range = h.day_range;
    hour_range = omega arith;
    minute_range = omega arith;
  })
  | inr (le, s) ↦ subst IsTime (sym s) (IsTime-next_day t h)
]

pub IsTime-tick : (t : Time) → IsTime t → IsTime (tick t)
IsTime-tick t h = elim (tick-cases t) [
  | inl (lt, s) ↦ subst IsTime (sym s) (record {
    month_range = h.month_range;
    day_range = h.day_range;
    hour_range = h.hour_range;
    minute_range = omega arith;
  })
  | inr (le, s) ↦ subst IsTime (sym s) (IsTime-next_hour t h)
]

-- From `t` to `u` by the clock, and `P` at every minute on the way, `u` excluded.
pub data Gap (P : Time → Type 0) : Time → Time → Type 0 where
  arrived : {t : Time} → Gap P t t
  passed : {t u : Time} → P t → Gap P (tick t) u → Gap P t u

module _ {P : Time → Type 0} where
  passed_to : {t v u : Time} → P t → tick t ≡ v → Gap P v u → Gap P t u
  passed_to {t} {v} {u} p s g = passed p (subst (λ w. Gap P w u) (sym s) g)

  arrived_at : {t u : Time} → t ≡ u → Gap P t u
  arrived_at {t} s = subst (Gap P t) s arrived

  pub Gap-trans : {t u v : Time} → Gap P t u → Gap P u v → Gap P t v
  Gap-trans arrived h = h
  Gap-trans (passed p g) h = passed p (Gap-trans g h)

  pub Gap-map :
      {Q : Time → Type 0} → ((t : Time) → P t → Q t) → {t u : Time} → Gap P t u → Gap Q t u
  Gap-map f arrived = arrived
  Gap-map f (passed {t} p g) = passed (f t p) (Gap-map f g)

abbrev pub SameMonth : Time → Time → Type 0
SameMonth t v = v.month ≡ t.month

abbrev pub SameDay : Time → Time → Type 0
SameDay t v = (v.year ≡ t.year) × (v.month ≡ t.month) × (v.day ≡ t.day)

abbrev pub SameHour : Time → Time → Type 0
SameHour t v = SameDay t v × (v.hour ≡ t.hour)

next_hour_lem : (t : Time) (i : ℕ) → next_hour (time t.year t.month t.day t.hour i) ≡ next_hour t
unfolding next_hour next_day next_month
next_hour_lem t i = refl

next_day_lem : (t : Time) (h i : ℕ) → next_day (time t.year t.month t.day h i) ≡ next_day t
unfolding next_day next_month
next_day_lem t h i = refl

next_month_lem : (t : Time) (d h i : ℕ) → next_month (time t.year t.month d h i) ≡ next_month t
unfolding next_month
next_month_lem t d h i = refl

-- Each by induction on what is left of the unit.
Gap-next_hour :
    (n : ℕ) (t u : Time) → SameHour u t → 59 ≤ t.minute + n → Gap (SameHour u) t (next_hour t)
Gap-next_hour zero t u same left = elim (tick-cases t) [
  | inl (lt, s) ↦ absurd (omega arith)
  | inr (le, s) ↦ passed_to same s arrived
]
Gap-next_hour (suc n) t u same left = elim (tick-cases t) [
  | inl (lt, s) ↦ passed_to same s (
      subst (Gap (SameHour u) _) (next_hour_lem t (t.minute + 1))
        (Gap-next_hour n (time t.year t.month t.day t.hour (t.minute + 1)) u same (omega arith)))
  | inr (le, s) ↦ passed_to same s arrived
]

hour_in_day : (t u : Time) → SameDay u t → Gap (SameDay u) t (next_hour t)
hour_in_day t u same =
    Gap-map (λ v s. (s.0.0 ∙ same.0, s.0.1 ∙ same.1, s.0.2 ∙ same.2))
      (Gap-next_hour 59 t t ((refl, refl, refl), refl) (omega arith))

Gap-next_day : (n : ℕ) (t u : Time) → SameDay u t → 23 ≤ t.hour + n → Gap (SameDay u) t (next_day t)
Gap-next_day zero t u same left = elim (next_hour-cases t) [
  | inl (lt, s) ↦ absurd (omega arith)
  | inr (le, s) ↦ Gap-trans (hour_in_day t u same) (arrived_at s)
]
Gap-next_day (suc n) t u same left = elim (next_hour-cases t) [
  | inl (lt, s) ↦ Gap-trans (Gap-trans (hour_in_day t u same) (arrived_at s)) (
      subst (Gap (SameDay u) _) (next_day_lem t (t.hour + 1) 0)
        (Gap-next_day n (time t.year t.month t.day (t.hour + 1) 0) u same (omega arith)))
  | inr (le, s) ↦ Gap-trans (hour_in_day t u same) (arrived_at s)
]

day_in_month : (t u : Time) → SameMonth u t → Gap (SameMonth u) t (next_day t)
day_in_month t u same =
    Gap-map (λ v s. s.1 ∙ same) (Gap-next_day 23 t t (refl, refl, refl) (omega arith))

Gap-next_month :
    (n : ℕ) (t u : Time)
    → SameMonth u t
    → days_in_month t.year t.month ≤ t.day + n
    → Gap (SameMonth u) t (next_month t)
Gap-next_month zero t u same left = elim (next_day-cases t) [
  | inl (lt, s) ↦ absurd (omega arith)
  | inr (le, s) ↦ Gap-trans (day_in_month t u same) (arrived_at s)
]
Gap-next_month (suc n) t u same left = elim (next_day-cases t) [
  | inl (lt, s) ↦ Gap-trans (Gap-trans (day_in_month t u same) (arrived_at s)) (
      subst (Gap (SameMonth u) _) (next_month_lem t (t.day + 1) 0 0)
        (Gap-next_month n (time t.year t.month (t.day + 1) 0 0) u same (omega arith)))
  | inr (le, s) ↦ Gap-trans (day_in_month t u same) (arrived_at s)
]

-- The stretches that are skipped, one unit each.
pub rest_of_hour : (t : Time) → Gap (SameHour t) t (next_hour t)
rest_of_hour t = Gap-next_hour 59 t t ((refl, refl, refl), refl) (omega arith)

pub rest_of_day : (t : Time) → Gap (SameDay t) t (next_day t)
rest_of_day t = Gap-next_day 23 t t (refl, refl, refl) (omega arith)

pub rest_of_month : (t : Time) → Gap (SameMonth t) t (next_month t)
rest_of_month t = Gap-next_month 31 t t refl (omega (arith, days_in_month_range t.year t.month))

-- A stretch keeps times valid and never runs back.
pub Gap-IsTime : {P : Time → Type 0} {t u : Time} → Gap P t u → IsTime t → IsTime u
Gap-IsTime arrived h = h
Gap-IsTime (passed {t} p g) h = Gap-IsTime g (IsTime-tick t h)

pub Gap-instant : {P : Time → Type 0} {t u : Time} → Gap P t u → IsTime t → instant t ≤ instant u
Gap-instant arrived h = omega arith
Gap-instant (passed {t} p g) h = omega (arith, instant-tick t h, Gap-instant g (IsTime-tick t h))

-- Each of the three skips leads to a later time.
pub next_hour-later : (t : Time) → IsTime t → instant t < instant (next_hour t)
unfolding instant
next_hour-later t h = omega (arith, instant-next_hour t h, h.minute_range)

pub next_day-later : (t : Time) → IsTime t → instant t < instant (next_day t)
unfolding instant
next_day-later t h = omega (arith, instant-next_day t h, h.minute_range, h.hour_range)

from_next_day : (t : Time) → Gap (SameMonth t) (next_day t) (next_month t)
from_next_day t = elim (next_day-cases t) [
  | inl (lt, s) ↦ Gap-trans (arrived_at s) (
      subst (Gap (SameMonth t) _) (next_month_lem t (t.day + 1) 0 0)
        (rest_of_month (time t.year t.month (t.day + 1) 0 0)))
  | inr (le, s) ↦ arrived_at s
]

pub next_month-later : (t : Time) → IsTime t → instant t < instant (next_month t)
next_month-later t h =
    omega (arith, next_day-later t h, Gap-instant (from_next_day t) (IsTime-next_day t h))

pub instant-after : (n : ℕ) (t : Time) → IsTime t → instant (after n t) ≡ instant t + n
unfolding after
instant-after zero t h = omega arith
instant-after (suc n) t h =
    omega (arith, instant-tick t h, instant-after n (tick t) (IsTime-tick t h))

-- A stretch by its length.
pub Gap-after :
    {P : Time → Type 0} {t u : Time}
    → Gap P t u
    → (n : ℕ) × (u ≡ after n t) × ((j : ℕ) → j < n → P (after j t))
unfolding after
Gap-after arrived = (0, refl, λ j h. absurd (omega arith))
Gap-after {P} {t} (passed p g) = let r = Gap-after g in (suc r.0, r.1, go r.0 r.2)
  where
    go : (n : ℕ) → ((j : ℕ) → j < n → P (after j (tick t))) → (j : ℕ) → j < suc n → P (after j t)
    go n f zero h = p
    go n f (suc j) h = f j (omega arith)
