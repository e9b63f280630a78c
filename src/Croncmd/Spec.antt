-- ===== src/Croncmd/Spec.antt =====
-- examples/croncmd/spec.go: a cron expression, the minutes that it admits, and the search for the
-- next of them in UTC, by the minute. Schedule has the same search in any location.
pub mod Next
pub mod Parse
pub mod Terms
pub mod Overflow
pub mod Values
pub mod Masks
pub mod Expression
pub mod Parsed
use libp2p_kv_raft.Base.{
  ℕ, zero, suc, ◌+◌, ◌-◌, Bool, true, false, not, ◌&&◌, ◌||◌, Option, none, some, if◌then◌else◌,
  Bytes,
}
use libp2p_kv_raft.Croncmd.Bits.{has_bit}
use libp2p_kv_raft.Croncmd.Time.{
  Time, instant, weekday, next_month, next_day, next_hour, tick, add_years, before,
}

pub record Spec : Type 0 where
  pub text : Bytes
  pub minute : ℕ
  pub hour : ℕ
  pub dom : ℕ
  pub month : ℕ
  pub dow : ℕ
  pub dom_restricted : Bool
  pub dow_restricted : Bool

unfoldable pub day_matches : Spec → Time → Bool
day_matches s t =
    let dom_hit = has_bit s.dom t.day in
    let dow_hit = has_bit s.dow (weekday t) in
    if s.dom_restricted && s.dow_restricted
    then dom_hit || dow_hit
    else if s.dom_restricted
    then dom_hit
    else if s.dow_restricted
    then dow_hit
    else true

unfoldable pub matches : Spec → Time → Bool
matches s t =
    has_bit s.month t.month && day_matches s t && has_bit s.hour t.hour && has_bit s.minute t.minute

abbrev pub max_next_search_years : ℕ
max_next_search_years = 5

-- A round of the loop of `Next`: where it goes on, or none where it returns this minute.
unfoldable pub skip : Spec → Time → Option Time
skip s next =
    if not (has_bit s.month next.month)
    then some (next_month next)
    else if not (day_matches s next)
    then some (next_day next)
    else if not (has_bit s.hour next.hour)
    then some (next_hour next)
    else if not (has_bit s.minute next.minute)
    then some (tick next)
    else none

-- What `Next` returns, and `stuck` for a model loop that ran out of fuel.
pub data Found : Type 0 where
  found : Time → Found
  never stuck : Found

unfoldable pub search : Spec → Time → ℕ → Time → Found
search s deadline zero next = stuck
search s deadline (suc fuel) next = elim (before next deadline) [
  | true ↦ elim (skip s next) [ some later ↦ search s deadline fuel later | none ↦ found next ]
  | false ↦ never
]

unfoldable pub next : Spec → Time → Found
next s t =
    let start = tick t in
    let deadline = add_years max_next_search_years start in
    search s deadline (suc (instant deadline - instant start)) start
