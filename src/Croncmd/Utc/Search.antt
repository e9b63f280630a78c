-- ===== src/Croncmd/Utc/Search.antt =====
-- In UTC the search of spec.go over instants is the search by the minute.
use mathlib.Core.Path.{subst}
use libp2p_kv_raft.Base.{
  ℕ, zero, suc, ◌+◌, ◌-◌, ◌*◌, ◌/◌, ◌%◌, ◌≤◌, ◌<◌, ◌≡◌, ◌≢◌, refl, ◌∙◌, ap, arith, ◌⊎◌, inl, inr,
  true, false, Bool-cases, ltb, ltb→lt, not_ltb→le, Option, none, some, Option-cases,
}
use libp2p_kv_raft.Croncmd.Time.{
  Time, IsTime, time, days_in_month, days_of_months, days_before_year, day_number, instant, tick,
  next_hour, next_day, next_month, add_years, before, after,
}
use libp2p_kv_raft.Croncmd.Time.Ticks.{
  days_in_month_range, instant-tick, instant-next_hour, instant-next_day,
}
use libp2p_kv_raft.Croncmd.Time.Gaps.{Gap-IsTime, IsTime-tick, instant-after}
use libp2p_kv_raft.Croncmd.Spec.{
  Spec, Found, found, never, stuck, skip, search, next, matches, max_next_search_years,
}
use libp2p_kv_raft.Croncmd.Spec.Next.{skip_lem, next-ends, next_lem}
use libp2p_kv_raft.Croncmd.Schedule.{skip_in, search_in, next_fire}
use libp2p_kv_raft.Croncmd.Utc.{civil, added}
use libp2p_kv_raft.Croncmd.Utc.Civil.{civil-IsTime, instant-civil}
use libp2p_kv_raft.Croncmd.Utc.Days.{days_to, month_step, instant-added_day, instant-added_month}
use libp2p_kv_raft.Croncmd.Utc.Stamps.{utc_calendar, in_seconds}
use libp2p_kv_raft.Croncmd.Utc.Inverse.{instant_injective, civil-instant}

month_start-IsTime : (c : Time) → IsTime c → IsTime (time c.year c.month 1 0 0)
month_start-IsTime c h = record {
  month_range = h.month_range;
  day_range = (omega arith, (days_in_month_range c.year c.month).0);
  hour_range = omega arith;
  minute_range = omega arith;
}

day_start-IsTime : (c : Time) → IsTime c → IsTime (time c.year c.month c.day 0 0)
day_start-IsTime c h = record {
  month_range = h.month_range;
  day_range = h.day_range;
  hour_range = omega arith;
  minute_range = omega arith;
}

add-sub : (m : ℕ) → m + 1 - 1 ≡ m
add-sub m = omega arith

instant-next_month_start :
    (c : Time) → IsTime c → instant (next_month c) ≡ days_to c.year c.month * 1440
unfolding instant day_number next_month days_before_year days_of_months
instant-next_month_start c h = elim (Bool-cases (ltb c.month 12)) [
  | inl lt ↦ rw (lt, next_month) (rw (add-sub c.month) (omega arith))
  | inr ge ↦
      let december : c.month ≡ 12 = omega (arith, h.month_range, not_ltb→le c.month 12 ge) in
      rw (ge, next_month) (rw december (omega arith))
]

instant_of_midnight : (c : Time) → instant (time c.year c.month c.day 0 0) ≡ day_number c * 1440
unfolding instant day_number
instant_of_midnight c = omega arith

instant_of_hour :
    (c : Time) → instant (time c.year c.month c.day c.hour 0) ≡ (day_number c * 24 + c.hour) * 60
unfolding instant day_number
instant_of_hour c = omega arith

-- The four steps of a round
month_step_in :
    (c : Time)
    → IsTime c
    → utc_calendar.add_date tt 0 1 0 (instant (time c.year c.month 1 0 0) * 60)
      ≡ instant (next_month c) * 60
month_step_in c h =
    let first : Time = time c.year c.month 1 0 0 in
    let valid = month_start-IsTime c h in
    rw (civil-instant first valid)
      (omega (arith, instant-added_month first valid, instant-next_month_start c h))

day_step_in :
    (c : Time)
    → IsTime c
    → utc_calendar.add_date tt 0 0 1 (instant (time c.year c.month c.day 0 0) * 60)
      ≡ instant (next_day c) * 60
day_step_in c h =
    let midnight : Time = time c.year c.month c.day 0 0 in
    let valid = day_start-IsTime c h in
    rw (civil-instant midnight valid)
      (omega (arith, instant-added_day midnight valid, instant-next_day c h, instant_of_midnight c))

hour_step_in :
    (c : Time)
    → IsTime c
    → instant (time c.year c.month c.day c.hour 0) * 60 + 3600 ≡ instant (next_hour c) * 60
hour_step_in c h = omega (arith, instant-next_hour c h, instant_of_hour c)

-- A round goes to the same minute in both searches.
skip_in-skip :
    (s : Spec) (c : Time)
    → IsTime c
    → skip_in utc_calendar s tt (instant c * 60) ≡ in_seconds (skip s c)
unfolding skip_in skip
skip_in-skip s c h =
    rw (civil-instant c h)
      (ground (arith, month_step_in c h, day_step_in c h, hour_step_in c h, instant-tick c h))

instant-added_years :
    (n : ℕ) (c : Time) → IsTime c → instant (added n 0 0 c) ≡ instant (add_years n c)
unfolding instant day_number added add_years
instant-added_years n c h =
    let same_year : c.year + n + (c.month - 1 + 0) / 12 ≡ c.year + n =
      omega (arith, h.month_range) in
    let same_month : (c.month - 1 + 0) % 12 + 1 - 1 ≡ c.month - 1 = omega (arith, h.month_range) in
    elim (Bool-cases (ltb (days_in_month (c.year + n) c.month) c.day)) [
      | inl over ↦
          rw (same_year, same_month, over, add_years)
            (rw (add-sub c.month) (
              omega (
                arith,
                month_step (c.year + n) c.month h.month_range.0,
                ltb→lt (days_in_month (c.year + n) c.month) c.day over,
              )))
      | inr fits ↦ rw (same_year, same_month, fits, add_years) (omega arith)
    ]

deadline_in :
    (n : ℕ) (c : Time)
    → IsTime c
    → utc_calendar.add_date tt n 0 0 (instant c * 60) ≡ instant (add_years n c) * 60
deadline_in n c h = rw (civil-instant c h) (omega (arith, instant-added_years n c h))

abbrev pub fire_seconds : Found → Option ℕ
fire_seconds (found c) = some (instant c * 60)
fire_seconds never = none
fire_seconds stuck = none

before-seconds :
    (c deadline : Time) → ltb (instant c * 60) (instant deadline * 60) ≡ before c deadline
unfolding before
before-seconds c deadline = ground arith

-- With no less fuel, the search over instants finds what the search by the minute does.
search_in-search :
    (s : Spec) (deadline : Time) (fuel more : ℕ) (c : Time)
    → IsTime c
    → fuel ≤ more
    → search s deadline fuel c ≢ stuck
    → search_in utc_calendar s tt (instant deadline * 60) more (instant c * 60)
      ≡ fire_seconds (search s deadline fuel c)
unfolding search search_in
search_in-search s deadline zero more c h room ends = absurd (ends refl)
search_in-search s deadline (suc fuel) zero c h room ends = absurd (omega arith)
search_in-search s deadline (suc fuel) (suc more) c h room ends =
    elim (Bool-cases (before c deadline)) [
      | inr late ↦ rw (before-seconds c deadline, late, search, search_in) refl
      | inl early ↦ elim (Option-cases (skip s c)) [
        | inl stay ↦
            rw (before-seconds c deadline, early, skip_in-skip s c h, stay, search, search_in) refl
        | inr (v, go) ↦
            rw (before-seconds c deadline, early, skip_in-skip s c h, go, search, search_in)
              (search_in-search s deadline fuel more v (Gap-IsTime (skip_lem s c v h go).0 h)
                (omega arith) (λ e. ends (rw (early, go, search) e)))
      ]
    ]

next_ends :
    (s : Spec) (c : Time)
    → IsTime c
    → search s
        (add_years max_next_search_years (tick c))
        (suc (instant (add_years max_next_search_years (tick c)) - instant (tick c)))
        (tick c)
      ≢ stuck
unfolding next
next_ends s c h = next-ends s c h

-- In UTC, Next over instants finds the second at which the minute begins that Next finds by the
-- minute, and nothing where that finds nothing.
next_fire-next :
    (s : Spec) (t : ℕ) → next_fire utc_calendar s tt t ≡ fire_seconds (next s (civil (t / 60)))
unfolding next_fire next
next_fire-next s t =
    let c : Time = civil (t / 60) in
    let h : IsTime c = civil-IsTime (t / 60) in
    let starts : instant c * 60 + 60 ≡ instant (tick c) * 60 = omega (arith, instant-tick c h) in
    rw (starts, deadline_in max_next_search_years (tick c) (IsTime-tick c h))
      (search_in-search s _ _ _ (tick c) (IsTime-tick c h) (omega arith) (next_ends s c h))

IsTime-after : (n : ℕ) (c : Time) → IsTime c → IsTime (after n c)
unfolding after
IsTime-after zero c h = h
IsTime-after (suc n) c h = IsTime-after n (tick c) (IsTime-tick c h)

-- The minute `n` minutes after the minute `m`
after-civil : (n m : ℕ) → after n (civil m) ≡ civil (m + n)
after-civil n m =
    instant_injective (civil (m + n)) (after n (civil m)) (civil-IsTime (m + n))
      (IsTime-after n (civil m) (civil-IsTime m))
      (instant-civil (m + n)
        ∙ omega (arith, instant-after n (civil m) (civil-IsTime m), instant-civil m))

-- The minute in which the search from an instant gives up
abbrev pub end_of_search : ℕ → ℕ
end_of_search m = instant (add_years max_next_search_years (civil (m + 1)))

tick-civil : (m : ℕ) → tick (civil m) ≡ civil (m + 1)
unfolding after
tick-civil m = after-civil 1 m

in_time :
    (m j : ℕ)
    → after j (civil m) ≡ civil (m + j)
    → m + j < end_of_search m
    → before (after j (civil m)) (add_years max_next_search_years (tick (civil m))) ≡ true
unfolding before
in_time m j at early = rw (at, instant-civil (m + j), tick-civil m) (ground arith)

-- Next, run over the instants of UTC, returns the second at which the first minute after that of
-- the given instant begins that the expression admits; or it returns nothing, and then no minute
-- after it is admitted up to five years after the next minute.
pub next_fire_lem :
    (s : Spec) (t : ℕ)
    → ((n : ℕ) × (next_fire utc_calendar s tt t ≡ some ((t / 60 + suc n) * 60))
        × (matches s (civil (t / 60 + suc n)) ≡ true)
        × ((j : ℕ) → j < n → matches s (civil (t / 60 + suc j)) ≡ false))
      ⊎ ((next_fire utc_calendar s tt t ≡ none)
          × ((j : ℕ)
              → t / 60 + suc j < end_of_search (t / 60)
              → matches s (civil (t / 60 + suc j)) ≡ false))
next_fire_lem s t =
    let m : ℕ = t / 60 in
    let at : (j : ℕ) → after (suc j) (civil m) ≡ civil (m + suc j) = λ j. after-civil (suc j) m in
    elim (next_lem s (civil m) (civil-IsTime m)) [
      | inl (n, (hits, hit, misses)) ↦ inl (
        n,
        next_fire-next s t
            ∙ (ap fire_seconds hits
                ∙ ap (λ k. some (k * 60)) (ap instant (at n) ∙ instant-civil (m + suc n))),
        subst (λ c. matches s c ≡ true) (at n) hit,
        λ j less. subst (λ c. matches s c ≡ false) (at j) (misses j less),
      )
      | inr (none_found, misses) ↦ inr (
        next_fire-next s t ∙ ap fire_seconds none_found,
        λ j early.
            subst (λ c. matches s c ≡ false) (at j) (misses j (in_time m (suc j) (at j) early)),
      )
    ]
