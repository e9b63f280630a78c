-- ===== src/Croncmd/Utc/Stamps.antt =====
-- A stamp gives its time back, and the calendar of UTC.
use libp2p_kv_raft.Base.{
  ℕ, ◌+◌, ◌*◌, ◌/◌, ◌%◌, ◌<◌, ◌≡◌, refl, ◌∙◌, sym, ap, arith, false, ltb, ltb→lt, inl, inr,
  Bool-cases, Option, none, some, [], ◌∷◌, ◌++◌, Bytes,
}
use libp2p_kv_raft.Croncmd.Text.{contains, is_empty}
use libp2p_kv_raft.Croncmd.Time.{Time, IsTime, instant, time, day_number}
use libp2p_kv_raft.Croncmd.Time.Ticks.{days_in_month_range}
use libp2p_kv_raft.Croncmd.Schedule.{Calendar}
use libp2p_kv_raft.Croncmd.Steady.{IsSteady}
use libp2p_kv_raft.Croncmd.Utc.{civil, added, written, two_digits, stamp, pair, checked, read_stamp}
use libp2p_kv_raft.Croncmd.Utc.Days.{day_of_later, month_of_later}
use libp2p_kv_raft.Croncmd.Utc.Civil.{civil-IsTime, instant-civil}

pair_lem : (n : ℕ) → n < 100 → pair (48 + n / 10 % 10) (48 + n % 10) ≡ some n
pair_lem n h = ground arith

checked_lem : (t : Time) → IsTime t → checked t ≡ some t
checked_lem t h = ground (arith, h.month_range, h.day_range, h.hour_range, h.minute_range)

year_lem : (y : ℕ) → y / 100 * 100 + y % 100 ≡ y
year_lem y = omega arith

read_stamp-stamp : (t : Time) → IsTime t → t.year < 10000 → read_stamp (stamp t) ≡ some t
unfolding read_stamp stamp
read_stamp-stamp t h small =
    rw
      (
        pair_lem (t.year / 100) (omega arith),
        pair_lem (t.year % 100) (omega arith),
        pair_lem t.month (omega (arith, h.month_range)),
        pair_lem t.day (omega (arith, h.day_range, days_in_month_range t.year t.month)),
        pair_lem t.hour (omega (arith, h.hour_range)),
        pair_lem t.minute (omega (arith, h.minute_range)),
        year_lem t.year,
      )
      (checked_lem t h)

contains-two_digits :
    (n : ℕ) (s : Bytes) → contains 47 ((48 + n / 10 % 10) ∷ (48 + n % 10) ∷ s) ≡ contains 47 s
contains-two_digits n s = ground arith

stamp_without_slash : (t : Time) → contains 47 (stamp t) ≡ false
unfolding stamp
stamp_without_slash t =
    contains-two_digits (t.year / 100) (
      two_digits (t.year % 100)
      ++ (two_digits t.month
          ++ (two_digits t.day ++ (84 ∷ two_digits t.hour ++ (two_digits t.minute ++ 90 ∷ [])))))
    ∙ (contains-two_digits (t.year % 100) (
          two_digits t.month
          ++ (two_digits t.day ++ (84 ∷ two_digits t.hour ++ (two_digits t.minute ++ 90 ∷ []))))
        ∙ (contains-two_digits t.month
              (two_digits t.day ++ (84 ∷ two_digits t.hour ++ (two_digits t.minute ++ 90 ∷ [])))
            ∙ (contains-two_digits t.day
                  (84 ∷ two_digits t.hour ++ (two_digits t.minute ++ 90 ∷ []))
                ∙ (contains-two_digits t.hour (two_digits t.minute ++ 90 ∷ [])
                    ∙ contains-two_digits t.minute (90 ∷ [])))))

stamp_is_full : (t : Time) → is_empty (stamp t) ≡ false
unfolding stamp
stamp_is_full t = refl

fifteen : (c : Time) → read_stamp ((48 + c.year / 10000 % 10) ∷ stamp c) ≡ none
unfolding read_stamp stamp
fifteen c = refl

abbrev pub in_seconds : Option Time → Option ℕ
in_seconds none = none
in_seconds (some t) = some (instant t * 60)

some_injective : {m n : ℕ} → ◌≡◌ {A = Option ℕ} (some m) (some n) → m ≡ n
some_injective e = ground arith

-- What is read back is the time that was written.
pub read_stamp-written :
    (c : Time) (u : ℕ)
    → IsTime c
    → in_seconds (read_stamp (written c)) ≡ some u
    → u ≡ instant c * 60
unfolding written
read_stamp-written c u h e = elim (Bool-cases (ltb c.year 10000)) [
  | inl small ↦
      sym (
        some_injective (rw (small, written, read_stamp-stamp c h (ltb→lt c.year 10000 small)) at e))
  | inr large ↦ absurd (ground (arith, rw (large, written, fifteen c) at e))
]

pub written_without_slash : (c : Time) → contains 47 (written c) ≡ false
unfolding written
written_without_slash c = ground (arith, stamp_without_slash c)

pub written_is_full : (c : Time) → is_empty (written c) ≡ false
unfolding written
written_is_full c = ground (arith, stamp_is_full c)

sixty : (n : ℕ) → n * 60 / 60 ≡ n
sixty n = omega arith

-- Marks are formatted like stamps, in whole minutes.
abbrev pub utc_calendar : Calendar
utc_calendar = record {
  Location = Unit {0};
  utc = tt;
  load_location = λ name. none;
  fields_in = λ l t. civil (t / 60);
  date_in = λ l c. instant c * 60;
  add_date =
      λ l years months days t. instant (added years months days (civil (t / 60))) * 60 + t % 60;
  claim_stamp = λ t. written (civil (t / 60));
  parse_stamp = λ b. in_seconds (read_stamp b);
  format_mark = λ t. written (civil (t / 60));
  parse_mark = λ b. in_seconds (read_stamp b);
  parse-stamp = λ t u e.
      read_stamp-written (civil (t / 60)) u (civil-IsTime (t / 60)) e
      ∙ ap (λ n. n * 60) (instant-civil (t / 60));
  stamp_has_no_slash = λ t. written_without_slash (civil (t / 60));
  stamp_is_not_empty = λ t. written_is_full (civil (t / 60));
}

abbrev day_of : Time → Time
day_of c = time c.year c.month c.day 0 0

abbrev month_of : Time → Time
month_of c = time c.year c.month 1 0 0

minute_of : (t : ℕ) → t < instant (civil (t / 60)) * 60 + 60
minute_of t = omega (arith, instant-civil (t / 60))

hour_of : (c : Time) → IsTime c → instant c < instant (time c.year c.month c.day c.hour 0) + 60
unfolding instant day_number
hour_of c h = omega (arith, h.minute_range)

pub utc_IsSteady : (l : Unit {0}) → IsSteady utc_calendar l
utc_IsSteady l = record {
  whole_date = λ c. omega arith;
  whole_add_date = λ months days t whole. omega arith;
  minute_lasts = minute_of;
  hour_lasts = λ t. omega (arith, minute_of t, hour_of (civil (t / 60)) (civil-IsTime (t / 60)));
  day_lasts = λ t.
      rw (sixty (instant (day_of (civil (t / 60)))))
        (omega (arith, minute_of t, day_of_later (civil (t / 60)) (civil-IsTime (t / 60))));
  month_lasts = λ t.
      rw (sixty (instant (month_of (civil (t / 60)))))
        (omega (arith, minute_of t, month_of_later (civil (t / 60)) (civil-IsTime (t / 60))));
}
