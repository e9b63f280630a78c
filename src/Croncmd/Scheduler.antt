-- ===== src/Croncmd/Scheduler.antt =====
-- examples/croncmd/scheduler.go: a pass of a scheduler over the schedules. Times and durations
-- are in seconds; a callback (OnFire, OnSkip, OnError) changes nothing and is left out.
pub mod System
pub mod Safe
pub mod Invariant
pub mod Once
pub mod Alone
pub mod Due
pub mod Pass
use libp2p_kv_raft.Base.{
  ℕ, zero, suc, ◌+◌, ◌-◌, ◌*◌, ◌≤◌, ◌<◌, ◌≡◌, Bool, true, false, ltb, leb, ◌==◌, if◌then◌else◌,
  Option, none, some, List, [], ◌∷◌, ◌++◌, Bytes,
}
use libp2p_kv_raft.Outcome.{Result, ok, err, encode_failed}
use libp2p_kv_raft.Store.Rows.{Table, Kv}
use libp2p_kv_raft.Croncmd.Text.{is_empty}
use libp2p_kv_raft.Croncmd.Spec.{Spec}
use libp2p_kv_raft.Croncmd.Schedule.{Schedule, Fire, Calendar, Json, validate, parsed, next_fire}
use libp2p_kv_raft.Croncmd.Program.{
  Program, done, read_now, get_value, scan, put, delete, claim, submit,
}

-- The fields of a Scheduler; a duration that is not positive is 0 here.
pub record Scheduler : Type 0 where
  pub key_prefix : Bytes
  pub catch_up_field : ℕ
  pub retain_field : ℕ
  pub prune_interval_field : ℕ
  pub retry_failed_submit : Bool

-- "cron/", "schedule/", "watermark/", "claim/"
abbrev pub default_key_prefix : Bytes
default_key_prefix = 99 ∷ 114 ∷ 111 ∷ 110 ∷ 47 ∷ []

abbrev pub schedule_part : Bytes
schedule_part = 115 ∷ 99 ∷ 104 ∷ 101 ∷ 100 ∷ 117 ∷ 108 ∷ 101 ∷ 47 ∷ []

abbrev pub watermark_part : Bytes
watermark_part = 119 ∷ 97 ∷ 116 ∷ 101 ∷ 114 ∷ 109 ∷ 97 ∷ 114 ∷ 107 ∷ 47 ∷ []

abbrev pub claim_part : Bytes
claim_part = 99 ∷ 108 ∷ 97 ∷ 105 ∷ 109 ∷ 47 ∷ []

abbrev pub default_catch_up : ℕ
default_catch_up = 3600

abbrev pub default_retain : ℕ
default_retain = 14 * 24 * 3600

abbrev pub default_prune_interval : ℕ
default_prune_interval = 3600

abbrev pub max_fires_per_schedule_per_tick : ℕ
max_fires_per_schedule_per_tick = 1000

-- The bytes behind the last '/'
unfoldable pub after_last_slash : Bytes → Option Bytes
after_last_slash [] = none
after_last_slash (c ∷ s) = elim (after_last_slash s) [
  | some rest ↦ some rest
  | none ↦ if c == 47 then some s else none
]

module _ (S : Scheduler) where
  abbrev pub prefix : Bytes
  prefix = if is_empty S.key_prefix then default_key_prefix else S.key_prefix

  unfoldable pub catch_up : ℕ
  catch_up = if S.catch_up_field == 0 then default_catch_up else S.catch_up_field

  -- At least twice the catch-up window
  unfoldable pub retain : ℕ
  retain =
      let kept = if S.retain_field == 0 then default_retain else S.retain_field in
      if ltb kept (2 * catch_up) then 2 * catch_up else kept

  abbrev pub prune_interval : ℕ
  prune_interval =
      if S.prune_interval_field == 0 then default_prune_interval else S.prune_interval_field

  abbrev pub watermark_key : Bytes → Bytes
  watermark_key id = prefix ++ (watermark_part ++ id)

module _ (K : Calendar) (J : Json) (S : Scheduler) where
  open K use {Location, claim_stamp, parse_stamp, format_mark, parse_mark}
  open J use {decode_schedule, encode_fire}

  unfoldable pub claim_key : Bytes → ℕ → Bytes
  claim_key id fire = (prefix S ++ (claim_part ++ id)) ++ 47 ∷ claim_stamp fire

  unfoldable pub claim_key_time : Bytes → Option ℕ
  claim_key_time key = elim (after_last_slash key) [
    | none ↦ none
    | some rest ↦ if is_empty rest then none else parse_stamp rest
  ]

  abbrev pub put_watermark : Bytes → ℕ → (Result (Unit {0}) → Program) → Program
  put_watermark id at = put (watermark_key S id) (format_mark at)

  -- What follows a failed submission
  abbrev pub release : Bool → Bytes → Program → Program
  release false key after = after
  release true key after = delete key (λ _. after)

  -- What follows a submission that produced an instance
  abbrev pub record_instance : Option Bytes → Bytes → Program → Program
  record_instance none key after = after
  record_instance (some encoded) key after = put key encoded (λ _. after)

  abbrev pub after_submit :
      Schedule → ℕ → Bytes → (Result (Unit {0}) → Program) → Result Bytes → Program
  after_submit s at key after (err e) = release S.retry_failed_submit key (after (err e))
  after_submit s at key after (ok instance_id) =
      record_instance
        (encode_fire (record {
          schedule_id = s.id;
          command_id = s.command_id;
          at = at;
          instance_id = instance_id;
        }))
        key (after (ok tt))

  abbrev pub dispatch : Schedule → ℕ → Bytes → (Result (Unit {0}) → Program) → Program
  dispatch s at key after = submit key s.command_id s.inputs (after_submit s at key after)

  -- What follows the answer to a claim: one that another scheduler has made is no error.
  abbrev pub after_claim :
      Schedule → ℕ → Bytes → (Result (Unit {0}) → Program) → Result Bool → Program
  after_claim s at key after (err e) = after (err e)
  after_claim s at key after (ok false) = after (ok tt)
  after_claim s at key after (ok true) = dispatch s at key after

  abbrev pub claim_encoded :
      Schedule → ℕ → Bytes → (Result (Unit {0}) → Program) → Option Bytes → Program
  claim_encoded s at key after none = after (err encode_failed)
  claim_encoded s at key after (some encoded) = claim key encoded (after_claim s at key after)

  -- Claim the minute of a schedule, and submit its command if the claim was won.
  unfoldable pub fire : Schedule → ℕ → (Result (Unit {0}) → Program) → Program
  fire s at after = claim_encoded s at (claim_key s.id at) after (
      encode_fire
        (record { schedule_id = s.id; command_id = s.command_id; at = at; instance_id = [] }))

  -- Where the pass over a schedule starts: its mark, if it parses and lies in the past.
  abbrev pub window_from : Option ℕ → ℕ → ℕ
  window_from none now = now
  window_from (some mark) now = if ltb now mark then now else mark

  abbrev pub not_stale : ℕ → ℕ → ℕ
  not_stale from now = if ltb from (now - catch_up S) then now - catch_up S else from

  -- What the loop over the fires of a schedule does at one: end with the mark at the present or
  -- before a fire that failed, or go on, unless this was the last round.
  abbrev pub after_fire : Schedule → ℕ → Bool → Program → Program → Result (Unit {0}) → Program
  after_fire s at last_round go_on after (err e) = put_watermark s.id (at - 60) (λ _. after)
  after_fire s at true go_on after (ok u) = put_watermark s.id at (λ _. after)
  after_fire s at false go_on after (ok u) = go_on

  abbrev pub at_fire : Schedule → ℕ → ℕ → Bool → Program → Program → Bool → Program
  at_fire s now at last_round go_on after true = put_watermark s.id now (λ _. after)
  at_fire s now at last_round go_on after false = fire s at (after_fire s at last_round go_on after)

  -- The loop, with `rounds` of them left
  unfoldable pub run_fires : ℕ → Schedule → Spec → Location → ℕ → ℕ → Program → Program
  run_fires zero s spec loc now cursor after = put_watermark s.id now (λ _. after)
  run_fires (suc rounds) s spec loc now cursor after = elim (next_fire K spec loc cursor) [
    | none ↦ put_watermark s.id now (λ _. after)
    | some at ↦
        at_fire s now at (rounds == 0) (run_fires rounds s spec loc now at after) after (ltb now at)
  ]

  abbrev pub from_mark : Schedule → Spec → Location → ℕ → Program → Result (Option Bytes) → Program
  from_mark s spec loc now after (err e) = after
  from_mark s spec loc now after (ok none) = put_watermark s.id now (λ _. after)
  from_mark s spec loc now after (ok (some value)) =
      run_fires max_fires_per_schedule_per_tick s spec loc now
        (not_stale (window_from (parse_mark value) now) now) after

  abbrev pub run_parsed : Schedule → ℕ → Program → Result (Spec × Location) → Program
  run_parsed s now after (err e) = after
  run_parsed s now after (ok (spec, loc)) =
      get_value (watermark_key S s.id) (from_mark s spec loc now after)

  unfoldable pub run_schedule : Schedule → ℕ → Program → Program
  run_schedule s now after = run_parsed s now after (parsed K s)

  abbrev pub is_old : Option ℕ → ℕ → Bool
  is_old none now = false
  is_old (some at) now = ltb at (now - retain S)

  -- The loop of `pruneClaims` over the claim keys
  abbrev pub prune_key : Bool → Bytes → Program → Program
  prune_key true key after = delete key (λ _. after)
  prune_key false key after = after

  unfoldable pub prune_keys : Table → ℕ → Program → Program
  prune_keys [] now after = after
  prune_keys (pair ∷ rest) now after =
      prune_key (is_old (claim_key_time pair.key) now) pair.key (prune_keys rest now after)

  abbrev pub prune_scanned : ℕ → Program → Result Table → Program
  prune_scanned now after (err e) = after
  prune_scanned now after (ok pairs) = prune_keys pairs now after

  unfoldable pub prune_claims : ℕ → Program → Program
  prune_claims now after = scan (prefix S ++ claim_part) (prune_scanned now after)

  -- The schedules of a catalog that parse and are valid
  abbrev pub decoded : Option Schedule → List Schedule → List Schedule
  decoded none rest = rest
  decoded (some s) rest = elim (validate K s) [ err e ↦ rest | ok u ↦ s ∷ rest ]

  unfoldable pub list_schedules : Table → List Schedule
  list_schedules [] = []
  list_schedules (pair ∷ rest) = decoded (decode_schedule pair.value) (list_schedules rest)

  abbrev pub run_enabled : Schedule → ℕ → Program → Bool → Program
  run_enabled s now after true = after
  run_enabled s now after false = run_schedule s now after

  unfoldable pub run_all : List Schedule → ℕ → Program → Program
  run_all [] now after = after
  run_all (s ∷ rest) now after = run_enabled s now (run_all rest now after) s.disabled

  abbrev pub prune_is_due : Option ℕ → ℕ → Bool
  prune_is_due none now = true
  prune_is_due (some last) now = leb (prune_interval S) (now - last)

  abbrev pub maybe_prune : Bool → ℕ → Option ℕ → Program
  maybe_prune false now last_prune = done last_prune
  maybe_prune true now last_prune = prune_claims now (done (some now))

  abbrev pub run_listed : Option ℕ → Result Table → Program
  run_listed last_prune (err e) = done last_prune
  run_listed last_prune (ok pairs) = read_now λ now.
      run_all (list_schedules pairs) now (maybe_prune (prune_is_due last_prune now) now last_prune)

  unfoldable pub tick : Option ℕ → Program
  tick last_prune = scan (prefix S ++ schedule_part) (run_listed last_prune)
