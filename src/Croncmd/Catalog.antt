-- ===== src/Croncmd/Catalog.antt =====
-- examples/croncmd/croncmd.go: the list of schedules as an operator edits it, as programs over the
-- store. A program goes on with the answer of the operation.
pub mod Changes
pub mod Edits
use libp2p_kv_raft.Base.{Bool, if◌then◌else◌, not, Option, none, some, ◌++◌, Bytes}
use libp2p_kv_raft.Outcome.{Result, ok, err, encode_failed, no_schedule, schedule_not_parsed}
use libp2p_kv_raft.Croncmd.Text.{is_empty}
use libp2p_kv_raft.Croncmd.Schedule.{Schedule, Calendar, Json, validate}
use libp2p_kv_raft.Croncmd.Program.{Program, get_value, put, delete}
use libp2p_kv_raft.Croncmd.Scheduler.{default_key_prefix, schedule_part, watermark_part}

-- The field of a Catalog that is not its store
pub record Catalog : Type 0 where
  pub key_prefix : Bytes

abbrev pub prefix : Catalog → Bytes
prefix C = if is_empty C.key_prefix then default_key_prefix else C.key_prefix

abbrev pub schedule_key : Catalog → Bytes → Bytes
schedule_key C id = prefix C ++ (schedule_part ++ id)

abbrev pub with_enabled : Bool → Schedule → Schedule
with_enabled enabled s = record s { disabled = not enabled }

module _ (K : Calendar) (J : Json) (C : Catalog) where
  open J use {decode_schedule, encode_schedule}

  abbrev pub put_encoded : Option Bytes → Schedule → (Result (Unit {0}) → Program) → Program
  put_encoded none s after = after (err encode_failed)
  put_encoded (some encoded) s after = put (schedule_key C s.id) encoded after

  abbrev pub put_valid : Result (Unit {0}) → Schedule → (Result (Unit {0}) → Program) → Program
  put_valid (err e) s after = after (err e)
  put_valid (ok u) s after = put_encoded (encode_schedule s) s after

  unfoldable pub put_schedule : Schedule → (Result (Unit {0}) → Program) → Program
  put_schedule s after = put_valid (validate K s) s after

  abbrev pub decoded_or_not : Option Schedule → Result Schedule
  decoded_or_not none = err schedule_not_parsed
  decoded_or_not (some s) = ok s

  -- What Get makes of the store's answer
  abbrev pub read_answer : Result (Option Bytes) → Result Schedule
  read_answer (err e) = err e
  read_answer (ok none) = err no_schedule
  read_answer (ok (some value)) = decoded_or_not (decode_schedule value)

  unfoldable pub get_schedule : Bytes → (Result Schedule → Program) → Program
  get_schedule id after = get_value (schedule_key C id) (λ r. after (read_answer r))

  abbrev pub after_delete : Bytes → (Result (Unit {0}) → Program) → Result (Unit {0}) → Program
  after_delete id after (err e) = after (err e)
  after_delete id after (ok u) = delete (prefix C ++ (watermark_part ++ id)) after

  unfoldable pub delete_schedule : Bytes → (Result (Unit {0}) → Program) → Program
  delete_schedule id after = delete (schedule_key C id) (after_delete id after)

  abbrev pub after_get : Bool → (Result (Unit {0}) → Program) → Result Schedule → Program
  after_get enabled after (err e) = after (err e)
  after_get enabled after (ok s) = put_schedule (with_enabled enabled s) after

  unfoldable pub set_enabled : Bytes → Bool → (Result (Unit {0}) → Program) → Program
  set_enabled id enabled after = get_schedule id (after_get enabled after)
