-- ===== src/Croncmd/Spec/Next.antt =====
-- examples/croncmd/spec.go: what the search for the next fire finds.
use mathlib.Core.Path.{subst}
use libp2p_kv_raft.Base.{
  ℕ, zero, suc, ◌+◌, ◌<◌, ◌≡◌, ◌≢◌, refl, sym, arith, ◌⊎◌, inl, inr, true, false, ap, some, none,
  ltb→lt, not_ltb→le, Bool-cases, Option-cases, ◌∙◌,
}
use libp2p_kv_raft.Croncmd.Bits.{has_bit}
use libp2p_kv_raft.Croncmd.Time.{
  Time, IsTime, instant, tick, before, after, add_years, next_month, next_day, next_hour, weekday,
  day_number,
}
use libp2p_kv_raft.Croncmd.Time.Ticks.{instant-tick}
use libp2p_kv_raft.Croncmd.Time.Gaps.{
  Gap, arrived, passed, Gap-map, Gap-trans, Gap-after, instant-after, Gap-IsTime, IsTime-tick,
  rest_of_hour, rest_of_day, rest_of_month, next_hour-later, next_day-later, next_month-later,
}
use libp2p_kv_raft.Croncmd.Spec.{
  Spec, Found, found, never, stuck, matches, day_matches, skip, search, next, max_next_search_years,
}

abbrev Misses : Spec → Time → Type 0
Misses s t = matches s t ≡ false

-- What a round of the search rules out.
skip-cases :
    (s : Spec) (t : Time)
    → ((skip s t ≡ some (next_month t)) × (has_bit s.month t.month ≡ false))
      ⊎ ((skip s t ≡ some (next_day t)) × (day_matches s t ≡ false))
      ⊎ ((skip s t ≡ some (next_hour t)) × (has_bit s.hour t.hour ≡ false))
      ⊎ ((skip s t ≡ some (tick t)) × (matches s t ≡ false))
      ⊎ ((skip s t ≡ none) × (matches s t ≡ true))
unfolding skip matches
skip-cases s t = ground arith

month_Misses :
    (s : Spec) (t : Time)
    → has_bit s.month t.month ≡ false
    → (u : Time) → u.month ≡ t.month
    → Misses s u
unfolding matches
month_Misses s t h u e = rw (e, h) refl

day_matches-same :
    (s : Spec) (t u : Time)
    → (u.year ≡ t.year) × (u.month ≡ t.month) × (u.day ≡ t.day)
    → day_matches s u ≡ day_matches s t
unfolding day_matches weekday day_number
day_matches-same s t u e = rw (e.0, e.1, e.2) refl

day_Misses :
    (s : Spec) (t : Time)
    → day_matches s t ≡ false
    → (u : Time) → (u.year ≡ t.year) × (u.month ≡ t.month) × (u.day ≡ t.day)
    → Misses s u
unfolding matches
day_Misses s t h u e = rw (day_matches-same s t u e, h) (ground arith)

hour_Misses :
    (s : Spec) (t : Time)
    → has_bit s.hour t.hour ≡ false
    → (u : Time) → u.hour ≡ t.hour
    → Misses s u
unfolding matches
hour_Misses s t h u e = rw (e, h) (ground arith)

-- A round passes over minutes that do not match, and moves on.
abbrev Advances : Spec → Time → Time → Type 0
Advances s t u = Gap (Misses s) t u × (instant t < instant u)

lands :
    (s : Spec) (t : Time) {u v : Time}
    → Advances s t v
    → skip s t ≡ some v
    → skip s t ≡ some u
    → Advances s t u
lands s t {u} {v} a e f = subst (Advances s t) (ground arith) a

pub skip_lem : (s : Spec) (t u : Time) → IsTime t → skip s t ≡ some u → Advances s t u
skip_lem s t u h e = elim (skip-cases s t) [
  | inl (f, miss) ↦
      lands s t (Gap-map (month_Misses s t miss) (rest_of_month t), next_month-later t h) f e
  | inr (inl (f, miss)) ↦
      lands s t (Gap-map (day_Misses s t miss) (rest_of_day t), next_day-later t h) f e
  | inr (inr (inl (f, miss))) ↦
      lands s t
        (Gap-map (λ v same. hour_Misses s t miss v same.1) (rest_of_hour t), next_hour-later t h) f
        e
  | inr (inr (inr (inl (f, miss)))) ↦
      lands s t (passed miss arrived, omega (arith, instant-tick t h)) f e
  | inr (inr (inr (inr (f, hit)))) ↦ absurd (ground arith)
]

skip-none : (s : Spec) (t : Time) → skip s t ≡ none → matches s t ≡ true
unfolding skip matches
skip-none s t h = ground arith

-- The rounds of the search.
search-cases :
    (s : Spec) (deadline : Time) (fuel : ℕ) (t : Time)
    → ((before t deadline ≡ false) × (search s deadline (suc fuel) t ≡ never))
      ⊎ ((before t deadline ≡ true)
          × (matches s t ≡ true)
          × (search s deadline (suc fuel) t ≡ found t))
      ⊎ ((v : Time) × (before t deadline ≡ true)
          × (skip s t ≡ some v)
          × (search s deadline (suc fuel) t ≡ search s deadline fuel v))
unfolding search
search-cases s deadline fuel t = elim (Bool-cases (before t deadline)) [
  | inr late ↦ inl (late, rw (late, search) refl)
  | inl early ↦ elim (Option-cases (skip s t)) [
    | inl stay ↦ inr (inl (early, skip-none s t stay, rw (early, stay, search) refl))
    | inr (v, go) ↦ inr (inr (v, early, go, rw (early, go, search) refl))
  ]
]

search-zero : (s : Spec) (deadline t : Time) → search s deadline 0 t ≡ stuck
unfolding search
search-zero s deadline t = refl

search-found :
    (s : Spec) (deadline : Time) (fuel : ℕ) (t u : Time)
    → IsTime t
    → search s deadline fuel t ≡ found u
    → Gap (Misses s) t u × (matches s u ≡ true)
search-found s deadline zero t u h e = absurd (ground (arith, search-zero s deadline t))
search-found s deadline (suc fuel) t u h e = elim (search-cases s deadline fuel t) [
  | inl (late, f) ↦ absurd (ground arith)
  | inr (inl (early, hit, f)) ↦
      subst (λ v. Gap (Misses s) t v × (matches s v ≡ true)) (ground arith) (arrived, hit)
  | inr (inr (v, early, go, f)) ↦
      let a = skip_lem s t v h go in
      let r = search-found s deadline fuel v u (Gap-IsTime a.0 h) (sym f ∙ e) in
      (Gap-trans a.0 r.0, r.1)
]

search-never :
    (s : Spec) (deadline : Time) (fuel : ℕ) (t : Time)
    → IsTime t
    → search s deadline fuel t ≡ never
    → (u : Time) × Gap (Misses s) t u × (before u deadline ≡ false)
search-never s deadline zero t h e = absurd (ground (arith, search-zero s deadline t))
search-never s deadline (suc fuel) t h e = elim (search-cases s deadline fuel t) [
  | inl (late, f) ↦ (t, arrived, late)
  | inr (inl (early, hit, f)) ↦ absurd (ground arith)
  | inr (inr (v, early, go, f)) ↦
      let a = skip_lem s t v h go in
      let r = search-never s deadline fuel v (Gap-IsTime a.0 h) (sym f ∙ e) in
      (r.0, Gap-trans a.0 r.1, r.2)
]

before-lt : (t u : Time) → before t u ≡ true → instant t < instant u
unfolding before
before-lt t u h = ground arith

-- Every round moves on by a minute at least, so the minutes to the deadline bound the rounds.
search-stuck :
    (s : Spec) (deadline : Time) (fuel : ℕ) (t : Time)
    → IsTime t
    → 0 < fuel
    → instant deadline < instant t + fuel
    → search s deadline fuel t ≢ stuck
search-stuck s deadline zero t h some_fuel room e = omega arith
search-stuck s deadline (suc fuel) t h some_fuel room e = elim (search-cases s deadline fuel t) [
  | inl (late, f) ↦ ground arith
  | inr (inl (early, hit, f)) ↦ ground arith
  | inr (inr (v, early, go, f)) ↦
      let a = skip_lem s t v h go in
      search-stuck s deadline fuel v (Gap-IsTime a.0 h)
        (omega (arith, a.1, before-lt t deadline early)) (omega (arith, a.1)) (sym f ∙ e)
]

before-after :
    (deadline t : Time) (j n : ℕ) (u : Time)
    → IsTime t
    → u ≡ after n t
    → before u deadline ≡ false
    → before (after j t) deadline ≡ true
    → j < n
unfolding before
before-after deadline t j n u h e late early = omega (
  arith,
  instant-after j t h,
  instant-after n t h,
  ap instant e,
  ltb→lt (instant (after j t)) (instant deadline) early,
  not_ltb→le (instant u) (instant deadline) late,
)

pub next-ends : (s : Spec) (t : Time) → IsTime t → next s t ≢ stuck
unfolding next
next-ends s t h = search-stuck s _ _ (tick t) (IsTime-tick t h) (omega arith) (omega arith)

-- The fire `n + 1` minutes after a time is the first.
abbrev pub IsFirst : Spec → Time → ℕ → Type 0
IsFirst s t n =
    (next s t ≡ found (after (suc n) t))
    × (matches s (after (suc n) t) ≡ true)
    × ((j : ℕ) → j < n → matches s (after (suc j) t) ≡ false)

-- No minute after a time matches, up to the end of the search.
abbrev pub HasNone : Spec → Time → Type 0
HasNone s t =
    (next s t ≡ never)
    × ((j : ℕ)
        → before (after (suc j) t) (add_years max_next_search_years (tick t)) ≡ true
        → matches s (after (suc j) t) ≡ false)

next-found : (s : Spec) (t u : Time) → IsTime t → next s t ≡ found u → (n : ℕ) × IsFirst s t n
unfolding next after
next-found s t u h e =
    let r = search-found s _ _ (tick t) u (IsTime-tick t h) e in
    let (n, at, misses) = Gap-after r.0 in
    (n, (e ∙ ap found at, subst (λ v. matches s v ≡ true) at r.1, misses))

next-never : (s : Spec) (t : Time) → IsTime t → next s t ≡ never → HasNone s t
unfolding next after
next-never s t h e =
    let r = search-never s _ _ (tick t) (IsTime-tick t h) e in
    let (n, at, misses) = Gap-after r.1 in
    (e, λ j early. misses j (before-after _ (tick t) j n r.0 (IsTime-tick t h) at r.2 early))

-- The search for the next fire ends, at every valid time: with the first minute strictly after it
-- that the expression admits, or with none, and then no minute after it matches up to five years
-- after the next minute.
pub next_lem : (s : Spec) (t : Time) → IsTime t → ((n : ℕ) × IsFirst s t n) ⊎ HasNone s t
next_lem s t h = go (next s t) refl
  where
    go : (f : Found) → next s t ≡ f → ((n : ℕ) × IsFirst s t n) ⊎ HasNone s t
    go (found u) e = inl (next-found s t u h e)
    go never e = inr (next-never s t h e)
    go stuck e = absurd (next-ends s t h e)
