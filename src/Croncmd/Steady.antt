-- ===== src/Croncmd/Steady.antt =====
-- examples/croncmd/spec.go: the search for the next fire in a location that keeps its offset from
-- UTC, as UTC does and a location with daylight saving does not.
use mathlib.Core.Path.{subst}
use libp2p_kv_raft.Base.{
  ℕ, zero, suc, ◌+◌, ◌%◌, ◌≤◌, ◌<◌, ◌≡◌, arith, ◌⊎◌, inl, inr, Bool-cases, Option, some,
  Option-cases, ltb,
}
use libp2p_kv_raft.Croncmd.Time.{Time, time}
use libp2p_kv_raft.Croncmd.Spec.{Spec}
use libp2p_kv_raft.Croncmd.Schedule.{
  Calendar, month_start, day_start, hour_start, skip_in, search_in, next_fire,
}

some_injective : {m n : ℕ} → ◌≡◌ {A = Option ℕ} (some m) (some n) → m ≡ n
some_injective e = ground arith

abbrev hour_of : Time → Time
hour_of c = time c.year c.month c.day c.hour 0

-- The wall clock of a location without transitions, whose offset is whole minutes: the starts of a
-- minute, an hour, a day and a month are no more than that long ago.
pub record IsSteady (K : Calendar) (loc : K.Location) : Type 0 where
  pub whole_date : (c : Time) → K.date_in loc c % 60 ≡ 0
  pub whole_add_date : (months days t : ℕ) → t % 60 ≡ 0 → K.add_date loc 0 months days t % 60 ≡ 0
  pub minute_lasts : (t : ℕ) → t < K.date_in loc (K.fields_in loc t) + 60
  pub hour_lasts : (t : ℕ) → t < hour_start K loc t + 3600
  pub day_lasts : (t : ℕ) → t < K.add_date loc 0 0 1 (day_start K loc t)
  pub month_lasts : (t : ℕ) → t < K.add_date loc 0 1 0 (month_start K loc t)

module _ (K : Calendar) (loc : K.Location) (steady : IsSteady K loc) where
  open steady use {whole_date, whole_add_date, minute_lasts, hour_lasts, day_lasts, month_lasts}

  -- A whole minute after an instant
  abbrev IsAfter : ℕ → ℕ → Type 0
  IsAfter t u = (t < u) × (u % 60 ≡ 0)

  skip_in-cases :
      (s : Spec) (t u : ℕ)
      → skip_in K s loc t ≡ some u
      → (K.add_date loc 0 1 0 (month_start K loc t) ≡ u)
        ⊎ (K.add_date loc 0 0 1 (day_start K loc t) ≡ u)
        ⊎ (hour_start K loc t + 3600 ≡ u)
        ⊎ (t + 60 ≡ u)
  unfolding skip_in
  skip_in-cases s t u e = ground arith

  skip_in_range : (s : Spec) (t u : ℕ) → t % 60 ≡ 0 → skip_in K s loc t ≡ some u → IsAfter t u
  skip_in_range s t u whole e = elim (skip_in-cases s t u e) [
    | inl at ↦ subst (IsAfter t) at (month_lasts t, whole_add_date 1 0 _ (whole_date _))
    | inr (inl at) ↦ subst (IsAfter t) at (day_lasts t, whole_add_date 0 1 _ (whole_date _))
    | inr (inr (inl at)) ↦
        subst (IsAfter t) at (hour_lasts t, omega (arith, whole_date (hour_of (K.fields_in loc t))))
    | inr (inr (inr at)) ↦ subst (IsAfter t) at (omega arith, omega arith)
  ]

  search_in_range :
      (s : Spec) (deadline fuel t u : ℕ)
      → t % 60 ≡ 0
      → search_in K s loc deadline fuel t ≡ some u
      → (t ≤ u) × (u % 60 ≡ 0)
  unfolding search_in
  search_in_range s deadline zero t u whole e = absurd (ground arith)
  search_in_range s deadline (suc fuel) t u whole e = elim (Bool-cases (ltb t deadline)) [
    | inr late ↦ absurd (ground (arith, rw (late, search_in) at e))
    | inl early ↦ elim (Option-cases (skip_in K s loc t)) [
      | inl stay ↦
          let same : t ≡ u = some_injective (rw (early, stay, search_in) at e) in
          (omega (arith, same), subst (λ n. n % 60 ≡ 0) same whole)
      | inr (v, go) ↦
          let (later, v_whole) = skip_in_range s t v whole go in
          let r = search_in_range s deadline fuel v u v_whole (rw (early, go, search_in) at e) in
          (omega (arith, r.0), r.1)
    ]
  ]

  -- The search finds a later time, at second 0.
  pub next_fire-IsAfter : (s : Spec) (t u : ℕ) → next_fire K s loc t ≡ some u → IsAfter t u
  unfolding next_fire
  next_fire-IsAfter s t u e =
      let r =
        search_in_range s _ _ (K.date_in loc (K.fields_in loc t) + 60) u
          (omega (arith, whole_date (K.fields_in loc t))) e in
      (omega (arith, minute_lasts t, r.0), r.1)
