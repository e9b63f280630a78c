-- ===== src/Croncmd/Utc.antt =====
-- A calendar for the scheduler of examples/croncmd: UTC in the Gregorian calendar, with the
-- format "20060102T1504Z" of package `time`, which can be read for the years up to 9999, and with
-- marks in the same format.
pub mod Civil
pub mod Days
pub mod Stamps
pub mod Inverse
pub mod Search
use libp2p_kv_raft.Base.{
  ℕ, zero, suc, ◌+◌, ◌-◌, ◌*◌, ◌/◌, ◌%◌, Bool, true, false, ◌&&◌, ltb, leb, ◌==◌, if◌then◌else◌,
  Option, none, some, List, [], ◌∷◌, ◌++◌, Bytes,
}
use libp2p_kv_raft.Croncmd.Time.{
  Time, time, days_in_month, days_of_months, days_before_year, instant,
}

-- The year of a day, counted from the year `y` on, and the day in it from 0.
unfoldable pub year_of : ℕ → ℕ → ℕ → ℕ × ℕ
year_of zero y d = (y, d)
year_of (suc fuel) y d = elim (ltb d (days_of_months y 12)) [
  | true ↦ (y, d)
  | false ↦ year_of fuel (suc y) (d - days_of_months y 12)
]

-- The month of a day of a year, up to the month `m`, and the day of the month.
unfoldable pub month_of : ℕ → ℕ → ℕ → ℕ × ℕ
month_of y zero d = (1, d + 1)
month_of y (suc m) d =
    if leb (days_of_months y m) d then (suc m, d - days_of_months y m + 1) else month_of y m d

-- The time at a minute since the year 0
unfoldable pub civil : ℕ → Time
civil n =
    let (y, d) = year_of (suc (n / 1440)) 0 (n / 1440) in
    let (m, day) = month_of y 12 d in time y m day (n % 1440 / 60) (n % 60)

-- Years, months and days later, with a day that the month may not have
unfoldable pub added : ℕ → ℕ → ℕ → Time → Time
added years months days c =
    time (c.year + years + (c.month - 1 + months) / 12) ((c.month - 1 + months) % 12 + 1)
      (c.day + days) c.hour c.minute

abbrev pub two_digits : ℕ → Bytes
two_digits n = (48 + n / 10 % 10) ∷ (48 + n % 10) ∷ []

unfoldable pub stamp : Time → Bytes
stamp t =
    two_digits (t.year / 100)
    ++ (two_digits (t.year % 100)
        ++ (two_digits t.month
            ++ (two_digits t.day ++ (84 ∷ two_digits t.hour ++ (two_digits t.minute ++ 90 ∷ [])))))

abbrev pub pair : ℕ → ℕ → Option ℕ
pair a b =
    if leb 48 a && leb a 57 && leb 48 b && leb b 57 then some ((a - 48) * 10 + (b - 48)) else none

abbrev pub checked : Time → Option Time
checked t =
    if leb 1 t.month
      && leb t.month 12
      && leb 1 t.day
      && leb t.day (days_in_month t.year t.month)
      && ltb t.hour 24
      && ltb t.minute 60
    then some t
    else none

abbrev pub assembled : Option ℕ → Option ℕ → Option ℕ → Option ℕ → Option ℕ → Option ℕ → Option Time
assembled (some c) (some y) (some m) (some d) (some h) (some i) =
    checked (time (c * 100 + y) m d h i)
assembled _ _ _ _ _ _ = none

-- A year from 10000 on has a digit more.
unfoldable pub written : Time → Bytes
written c = if ltb c.year 10000 then stamp c else (48 + c.year / 10000 % 10) ∷ stamp c

unfoldable pub read_stamp : Bytes → Option Time
read_stamp (a ∷ b ∷ c ∷ d ∷ e ∷ f ∷ g ∷ h ∷ t ∷ i ∷ j ∷ k ∷ l ∷ z ∷ []) =
    if (t == 84) && (z == 90)
    then assembled (pair a b) (pair c d) (pair e f) (pair g h) (pair i j) (pair k l)
    else none
read_stamp _ = none
