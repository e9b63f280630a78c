-- ===== src/Croncmd/Schedule.antt =====
-- examples/croncmd/croncmd.go and history.go: schedules, fires, and the packages that the
-- scheduler calls.
use libp2p_kv_raft.Base.{
  ℕ, zero, suc, ◌+◌, ◌-◌, ◌*◌, ◌/◌, ◌≡◌, Bool, true, false, not, ltb, if◌then◌else◌, Option, none,
  some, List, [], ◌∷◌, Bytes,
}
use libp2p_kv_raft.Outcome.{
  Result, ok, err, ◌>>=◌, no_schedule_id, slash_in_id, no_command_id, unknown_location,
}
use libp2p_kv_raft.Croncmd.Text.{is_empty, trim_space, contains}
use libp2p_kv_raft.Croncmd.Bits.{has_bit}
use libp2p_kv_raft.Croncmd.Time.{Time, time}
use libp2p_kv_raft.Croncmd.Spec.{Spec, day_matches, max_next_search_years}
use libp2p_kv_raft.Croncmd.Spec.Expression.{parse_spec}

pub record Schedule : Type 0 where
  pub id : Bytes
  pub spec : Bytes
  pub command_id : Bytes
  pub inputs : Bytes
  pub location : Bytes
  pub disabled : Bool
  pub comment : Bytes

pub record Fire : Type 0 where
  pub schedule_id : Bytes
  pub command_id : Bytes
  pub at : ℕ
  pub instance_id : Bytes

-- Package `time`, with instants in seconds: the wall clock of a location, and the two formats in
-- which instants are stored.
pub record Calendar : Type 1 where
  pub Location : Type 0
  pub utc : Location
  pub load_location : Bytes → Option Location
  -- The year, month, day, hour and minute of an instant
  pub fields_in : Location → ℕ → Time
  -- time.Date, at second 0
  pub date_in : Location → Time → ℕ
  -- AddDate(years, months, days)
  pub add_date : Location → (years months days : ℕ) → ℕ → ℕ
  pub claim_stamp : ℕ → Bytes
  pub parse_stamp : Bytes → Option ℕ
  pub format_mark : ℕ → Bytes
  pub parse_mark : Bytes → Option ℕ
  -- A stamp that can be read is the minute of its instant. One of five digits for the year cannot.
  pub parse-stamp : (t u : ℕ) → parse_stamp (claim_stamp t) ≡ some u → u ≡ t / 60 * 60
  -- A stamp has digits and letters only, and is not empty.
  pub stamp_has_no_slash : (t : ℕ) → contains 47 (claim_stamp t) ≡ false
  pub stamp_is_not_empty : (t : ℕ) → is_empty (claim_stamp t) ≡ false

-- encoding/json
pub record Json : Type 0 where
  pub decode_schedule : Bytes → Option Schedule
  pub encode_schedule : Schedule → Option Bytes
  pub decode_fire : Bytes → Option Fire
  pub encode_fire : Fire → Option Bytes

module _ (K : Calendar) where
  open K use {Location, utc, load_location, fields_in, date_in, add_date}

  -- Midnight on the first of the month of an instant, midnight of its day, and the start of its
  -- hour
  abbrev pub month_start : Location → ℕ → ℕ
  month_start loc t = let c = fields_in loc t in date_in loc (time c.year c.month 1 0 0)

  abbrev pub day_start : Location → ℕ → ℕ
  day_start loc t = let c = fields_in loc t in date_in loc (time c.year c.month c.day 0 0)

  abbrev pub hour_start : Location → ℕ → ℕ
  hour_start loc t = let c = fields_in loc t in date_in loc (time c.year c.month c.day c.hour 0)

  -- A round of the loop of `Spec.Next`: where it goes on, or none where it returns this instant.
  unfoldable pub skip_in : Spec → Location → ℕ → Option ℕ
  skip_in s loc next =
      let c = fields_in loc next in
      if not (has_bit s.month c.month)
      then some (add_date loc 0 1 0 (month_start loc next))
      else if not (day_matches s c)
      then some (add_date loc 0 0 1 (day_start loc next))
      else if not (has_bit s.hour c.hour)
      then some (hour_start loc next + 3600)
      else if not (has_bit s.minute c.minute)
      then some (next + 60)
      else none

  -- The loop, with `fuel` rounds left. One that has used them up finds nothing.
  unfoldable pub search_in : Spec → Location → ℕ → ℕ → ℕ → Option ℕ
  search_in s loc deadline zero next = none
  search_in s loc deadline (suc fuel) next = elim (ltb next deadline) [
    | true ↦ elim (skip_in s loc next) [
      | some later ↦ search_in s loc deadline fuel later
      | none ↦ some next
    ]
    | false ↦ none
  ]

  -- `Spec.Next` in a location. Where every round moves on, the seconds to the deadline are enough.
  unfoldable pub next_fire : Spec → Location → ℕ → Option ℕ
  next_fire s loc t =
      let start = date_in loc (fields_in loc t) + 60 in
      let deadline = add_date loc max_next_search_years 0 0 start in
      search_in s loc deadline (suc (deadline - start)) start

  abbrev pub loaded : Option Location → Result Location
  loaded none = err unknown_location
  loaded (some l) = ok l

  -- `location` is the method and the field.
  abbrev pub location_of : Schedule → Result Location
  location_of s =
      if is_empty (trim_space s.location) then ok utc else loaded (load_location s.location)

  unfoldable pub validate : Schedule → Result (Unit {0})
  validate s =
      if is_empty (trim_space s.id)
      then err no_schedule_id
      else if contains 47 s.id
      then err slash_in_id
      else if is_empty (trim_space s.command_id)
      then err no_command_id
      else parse_spec s.spec >>= λ spec. location_of s >>= λ l. ok tt

  unfoldable pub parsed : Schedule → Result (Spec × Location)
  parsed s = parse_spec s.spec >>= λ spec. location_of s >>= λ l. ok (spec, l)

  -- The loop of `NextFires`
  unfoldable pub fires_from : ℕ → Spec → Location → ℕ → List ℕ
  fires_from zero spec loc cursor = []
  fires_from (suc count) spec loc cursor = elim (next_fire spec loc cursor) [
    | none ↦ []
    | some at ↦ at ∷ fires_from count spec loc at
  ]

  unfoldable pub next_fires : Schedule → ℕ → ℕ → Result (List ℕ)
  next_fires s from count = parsed s >>= λ p. ok (fires_from count p.0 p.1 from)
