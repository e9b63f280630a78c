-- ===== src/Examples/Cron.antt =====
-- Cron expressions and times at concrete inputs.
use libp2p_kv_raft.Base.{ℕ, ◌⊎◌, ◌↔◌, ◌<◌, ◌^◌, ◌-◌, ◌≡◌, refl, arith, [], ◌∷◌, Bytes, true, false}
use libp2p_kv_raft.Outcome.{ok, err, wrapped, range_backwards, minute_field}
use libp2p_kv_raft.Croncmd.Bits.{has_bit}
use libp2p_kv_raft.Croncmd.Time.{
  Time, time, IsTime, weekday, day_number, instant, tick, next_hour, next_day, next_month, before,
  add_years, days_before_year, days_of_months, days_in_month,
}
use libp2p_kv_raft.Croncmd.Spec.{Spec, found, never, next, search, skip, day_matches}
use libp2p_kv_raft.Croncmd.Spec.Parse.{
  set_bits_fuel, set_bits, parse_field, parse_terms, parse_term, parse_range, parse_step,
  parse_value,
}
use libp2p_kv_raft.Croncmd.Text.{trim_space}
use libp2p_kv_raft.Croncmd.Spec.Next.{IsFirst, HasNone, next_lem}
use libp2p_kv_raft.Croncmd.Spec.Overflow.{set_bits-ends}
use libp2p_kv_raft.Croncmd.Spec.Terms.{Steps}
use libp2p_kv_raft.Croncmd.Spec.Masks.{set_bits-overflows, set_bits-exact}
use libp2p_kv_raft.Croncmd.Spec.Parsed.{AreMasks, parse_spec-AreMasks}
use libp2p_kv_raft.Croncmd.Spec.Expression.{parse_spec, parse_fields}

-- "30 9 1 * MON", a union of days
abbrev mondays_and_firsts : Bytes
mondays_and_firsts = 51 ∷ 48 ∷ 32 ∷ 57 ∷ 32 ∷ 49 ∷ 32 ∷ 42 ∷ 32 ∷ 77 ∷ 79 ∷ 78 ∷ []

-- "10-5 * * * *"
abbrev backwards : Bytes
backwards = 49 ∷ 48 ∷ 45 ∷ 53 ∷ 32 ∷ 42 ∷ 32 ∷ 42 ∷ 32 ∷ 42 ∷ 32 ∷ 42 ∷ []

-- "0 0 30 2 *", a day that no year has
abbrev no_such_day : Bytes
no_such_day = 48 ∷ 32 ∷ 48 ∷ 32 ∷ 51 ∷ 48 ∷ 32 ∷ 50 ∷ 32 ∷ 42 ∷ []

backwards_is_refused : parse_spec backwards ≡ err (wrapped minute_field range_backwards)
unfolding parse_spec parse_fields parse_field parse_terms parse_term parse_range parse_step
    parse_value set_bits
backwards_is_refused = refl

-- What "30 9 1 * MON" parses to.
abbrev mondays_spec : Spec
mondays_spec = record {
  text = mondays_and_firsts;
  minute = 2 ^ 30;
  hour = 2 ^ 9;
  dom = 2;
  month = 2 ^ 13 - 2;
  dow = 2;
  dom_restricted = true;
  dow_restricted = true;
}

mondays_parse : parse_spec mondays_and_firsts ≡ ok mondays_spec
unfolding parse_spec parse_fields parse_field parse_terms parse_term parse_range parse_step
    parse_value set_bits
mondays_parse = refl

-- 30 January 2024 is a Tuesday; the next fire is on the first of February, a Thursday.
abbrev tuesday : Time
tuesday = time 2024 1 30 10 0

thursday : weekday (time 2024 2 1 9 30) ≡ 4
unfolding weekday day_number days_before_year days_of_months days_in_month
thursday = refl

mondays_fire : next mondays_spec tuesday ≡ found (time 2024 2 1 9 30)
unfolding next search skip day_matches tick next_hour next_day next_month before add_years instant
    weekday day_number days_before_year days_of_months days_in_month
mondays_fire = refl

tuesday-IsTime : IsTime tuesday
unfolding days_in_month
tuesday-IsTime = record {
  month_range = (omega arith, omega arith);
  day_range = (omega arith, omega arith);
  hour_range = omega arith;
  minute_range = omega arith;
}

next_lem_example : ((n : ℕ) × IsFirst mondays_spec tuesday n) ⊎ HasNone mondays_spec tuesday
next_lem_example = next_lem mondays_spec tuesday tuesday-IsTime

-- "0 0 30 2 *" finds nothing.
no_fire :
    next
      (record mondays_spec {
        minute = 1;
        hour = 1;
        dom = 2 ^ 30;
        month = 4;
        dow = 127;
        dow_restricted = false;
      })
      tuesday
    ≡ never
unfolding next search skip day_matches tick next_hour next_day next_month before add_years instant
    weekday day_number days_before_year days_of_months days_in_month
no_fire = refl

-- "10/9223372036854775807" in the field of the minutes
set_bits-ends_example : (m : ℕ) × (set_bits set_bits_fuel 59 (2 ^ 63 - 1) 10 0 ≡ ok m)
set_bits-ends_example =
    set_bits-ends 59 (2 ^ 63 - 1) 10 0 (omega arith) (omega arith) (omega arith) (omega arith)

overflowing_mask : set_bits set_bits_fuel 59 (2 ^ 63 - 1) 10 0 ≡ ok 1365
unfolding set_bits
overflowing_mask = refl

set_bits-overflows_example : has_bit 1365 8 ≡ true
set_bits-overflows_example =
    set_bits-overflows 10 59 1365 (omega arith) (omega arith) (omega arith) overflowing_mask

-- "5-20/5"
set_bits-exact_example :
    (m : ℕ) × (set_bits set_bits_fuel 20 5 5 0 ≡ ok m)
    × ((i : ℕ) → i < 64 → (has_bit m i ≡ true) ↔ Steps 5 20 5 i)
set_bits-exact_example =
    set_bits-exact 5 20 5 (omega arith) (omega arith) (omega arith) (omega arith)

parse_spec-AreMasks_example :
    AreMasks mondays_spec × (mondays_spec.text ≡ trim_space mondays_and_firsts)
parse_spec-AreMasks_example = parse_spec-AreMasks mondays_and_firsts mondays_spec mondays_parse
