-- ===== src/Examples/Schedulers.antt =====
-- Schedulers at work on a small store, at which the theorems about them are applied.
use libp2p_kv_raft.Base.{
  ℕ, suc, ◌/◌, ◌<◌, ◌⊎◌, ◌+◌, ◌^◌, ◌-◌, ◌*◌, ◌≤◌, ◌≡◌, refl, arith, Bool, true, false, leb, Option,
  none, some, List, [], ◌∷◌, ◌++◌, Bytes, All,
}
use libp2p_kv_raft.Outcome.{ok}
use libp2p_kv_raft.Store.Rows.{Table, Kv, find}
use libp2p_kv_raft.Croncmd.Time.{
  time, instant, weekday, day_number, days_before_year, days_of_months, days_in_month,
}
use libp2p_kv_raft.Store.Rows
use libp2p_kv_raft.Croncmd.Spec.{Spec, matches, day_matches}
use libp2p_kv_raft.Croncmd.Spec.Parse.{
  set_bits, parse_field, parse_terms, parse_term, parse_range, parse_step, parse_value,
}
use libp2p_kv_raft.Croncmd.Spec.Expression.{parse_spec, parse_fields}
use libp2p_kv_raft.Croncmd.Schedule.{
  Schedule, Fire, Json, parsed, validate, fires_from, next_fires, next_fire, search_in, skip_in,
}
use libp2p_kv_raft.Croncmd.Program.{
  Program, done, read_now, get_value, scan, put, delete, claim, submit,
}
use libp2p_kv_raft.Croncmd.Scheduler.{
  Scheduler, tick, watermark_key, prefix, schedule_part, claim_key, run_schedule, list_schedules,
  run_all, run_fires, fire, prune_claims, prune_keys, claim_key_time, retain, catch_up,
  after_last_slash, not_stale, window_from, max_fires_per_schedule_per_tick,
}
use libp2p_kv_raft.Croncmd.Scheduler.System.{
  World, Processes, Call, got, scanned, has_put, deleted, claim_answered, submitted, IsTimely,
  begins, reads, calls, Reach, start, later, update, initial_world, idle, tally,
}
use libp2p_kv_raft.Croncmd.Scheduler.Alone.{run_alone}
use libp2p_kv_raft.Croncmd.Scheduler.Due.{up_to}
use libp2p_kv_raft.Croncmd.Scheduler.Pass.{Submitted, run_schedule-Submitted}
use libp2p_kv_raft.Croncmd.Scheduler.Once.{submitted_once}
use libp2p_kv_raft.Croncmd.Utc.{stamp, written, added, civil, year_of, month_of, read_stamp}
use libp2p_kv_raft.Croncmd.Utc.Search.{next_fire_lem, end_of_search}
use libp2p_kv_raft.Croncmd.Utc.Stamps.{utc_calendar, utc_IsSteady}

-- "30 9 * * *", for the schedule "b" and the command "c"
abbrev half_past_nine : Bytes
half_past_nine = 51 ∷ 48 ∷ 32 ∷ 57 ∷ 32 ∷ 42 ∷ 32 ∷ 42 ∷ 32 ∷ 42 ∷ []

abbrev backup : Schedule
backup = record {
  id = 98 ∷ [];
  spec = half_past_nine;
  command_id = 99 ∷ [];
  inputs = [];
  location = [];
  disabled = false;
  comment = [];
}

abbrev json : Json
json = record {
  decode_schedule = λ b. some backup;
  encode_schedule = λ s. some (1 ∷ []);
  decode_fire = λ b. none;
  encode_fire = λ f. some f.instance_id;
}

abbrev plain_scheduler : Scheduler
plain_scheduler = record {
  key_prefix = [];
  catch_up_field = 0;
  retain_field = 0;
  prune_interval_field = 0;
  retry_failed_submit = false;
}

-- 1 February 2024, 09:00 and 09:31
abbrev nine : Bytes
nine = stamp (time 2024 2 1 9 0)

abbrev present : ℕ
present = instant (time 2024 2 1 9 31) * 60

abbrev catalog : Table
catalog =
    record { key = prefix plain_scheduler ++ (schedule_part ++ 98 ∷ []); value = 1 ∷ [] }
    ∷ record { key = watermark_key plain_scheduler (98 ∷ []); value = nine }
    ∷ []

-- A call that succeeds.
answer : (w : World) (p : Program) → Option ((v : World) × (q : Program) × Call w p v q)
answer w (done last) = none
answer w (read_now f) = none
answer w (get_value k f) = some (w, f (ok (find k w.store)), got)
answer w (scan p f) = some (w, _, scanned)
answer w (put k v f) = some (_, f (ok tt), has_put (ok tt))
answer w (delete k f) = some (_, f (ok tt), deleted (ok tt))
answer w (claim k v f) = some (_, _, claim_answered)
answer w (submit k c i f) = some (_, f (ok (7 ∷ [])), submitted (7 ∷ []))

record Run : Type 0 where
  world : World
  processes : Processes
  reach : Reach utc_calendar json plain_scheduler 0 60 catalog present world processes

-- Two schedulers begin, then one of them makes a call at a time.
abbrev begun : ℕ → Run → Run
begun i r = record {
  world = r.world;
  processes =
      update r.processes i
        (record { now = none; rest = tick utc_calendar json plain_scheduler none });
  reach = later r.reach (begins i none);
}

-- Whether a call is in time
timely : (g : ℕ) (now : Option ℕ) → Option (IsTimely 60 g now)
timely g none = some tt
timely g (some now) = known (leb g (now + 60)) (λ h. ground arith)
  where
    known : (b : Bool) → (b ≡ true → g ≤ now + 60) → Option (g ≤ now + 60)
    known true f = some (f refl)
    known false f = none

made : (r : Run) (i : ℕ) → Option (IsTimely 60 r.world.clock (r.processes i).now) → Run
made r i none = r
made r i (some t) = elim (answer r.world (r.processes i).rest) [
  | none ↦ r
  | some (v, q, c) ↦ record {
    world = v;
    processes = update r.processes i (record { now = (r.processes i).now; rest = q });
    reach = later r.reach (calls i t c);
  }
]

-- A pass that waits for the time reads it; any other makes its call.
turn : (r : Run) (i : ℕ) (p : Program) → (r.processes i).rest ≡ p → Run
turn r i (read_now f) e = record {
  world = r.world;
  processes = update r.processes i (record { now = some r.world.clock; rest = f r.world.clock });
  reach = later r.reach (reads i r.world.clock f e (omega arith));
}
turn r i p e = made r i (timely r.world.clock (r.processes i).now)

call_of : ℕ → Run → Run
call_of i r = turn r i (r.processes i).rest refl

calls_of : List ℕ → Run → Run
calls_of [] r = r
calls_of (i ∷ rest) r = calls_of rest (call_of i r)

abbrev two_schedulers : Run
two_schedulers = begun 1 (
    begun 0 (record {
      world = initial_world utc_calendar json plain_scheduler 0 60 catalog present;
      processes = idle utc_calendar json plain_scheduler 0 60;
      reach = start;
    }))

abbrev raced : Run
raced = calls_of (0 ∷ 1 ∷ 0 ∷ 1 ∷ 0 ∷ 1 ∷ 1 ∷ 0 ∷ 0 ∷ 1 ∷ 1 ∷ 0 ∷ 1 ∷ []) two_schedulers

abbrev fire_key : Bytes
fire_key = claim_key utc_calendar json plain_scheduler (98 ∷ []) (instant (time 2024 2 1 9 30) * 60)

raced_submits : tally false fire_key raced.world.attempts ≡ 1
unfolding tally calls_of call_of turn made timely answer claim_key tick list_schedules validate
    run_all run_schedule parsed run_fires fire prune_claims prune_keys claim_key_time retain
    catch_up after_last_slash parse_spec parse_fields parse_field parse_terms parse_term parse_range
    parse_step parse_value set_bits next_fire search_in skip_in day_matches added instant weekday
    day_number days_before_year days_of_months days_in_month civil year_of month_of stamp written
    read_stamp find Rows.put Rows.remove
raced_submits = refl

submitted_once_example : tally false fire_key raced.world.attempts ≤ 1
unfolding catch_up
submitted_once_example =
    submitted_once utc_calendar json plain_scheduler 0 60 utc_IsSteady (omega arith) raced.reach
      fire_key

abbrev every_day : Spec
every_day = record {
  text = half_past_nine;
  minute = 2 ^ 30;
  hour = 2 ^ 9;
  dom = 2 ^ 32 - 2;
  month = 2 ^ 13 - 2;
  dow = 127;
  dom_restricted = false;
  dow_restricted = false;
}

backup_parses : parsed utc_calendar backup ≡ ok (every_day, tt)
unfolding parsed parse_spec parse_fields parse_field parse_terms parse_term parse_range parse_step
    parse_value set_bits
backup_parses = refl

abbrev quiet : World
quiet = initial_world utc_calendar json plain_scheduler 0 60 catalog present

encodes : (f : Fire) → (b : Bytes) × (json.encode_fire f ≡ some b)
encodes f = (f.instance_id, refl)

abbrev only_fire : List ℕ
only_fire = instant (time 2024 2 1 9 30) * 60 ∷ []

abbrev first_read : ℕ
first_read =
    not_stale utc_calendar json plain_scheduler
      (window_from utc_calendar json plain_scheduler (utc_calendar.parse_mark nine) present) present

abbrev all_listed : List ℕ
all_listed = fires_from utc_calendar max_fires_per_schedule_per_tick every_day tt first_read

backup_lists :
    next_fires utc_calendar backup first_read max_fires_per_schedule_per_tick ≡ ok all_listed
unfolding next_fires
backup_lists = rw backup_parses refl

run_schedule-Submitted_example :
    All
      (Submitted utc_calendar json plain_scheduler encodes (7 ∷ []) backup quiet (
        run_alone
          (7 ∷ [])
          (run_schedule utc_calendar json plain_scheduler backup present (done none))
          quiet))
      only_fire
unfolding up_to fires_from next_fire search_in skip_in day_matches added instant weekday day_number
    days_before_year days_of_months days_in_month civil year_of month_of stamp written read_stamp
    find catch_up
run_schedule-Submitted_example =
    run_schedule-Submitted utc_calendar json plain_scheduler encodes (7 ∷ []) backup every_day tt
      present none nine quiet all_listed backup_parses refl backup_lists

-- From 09:00 on
next_fire_lem_example :
    ((n : ℕ) × (next_fire utc_calendar every_day tt first_read
        ≡ some ((first_read / 60 + suc n) * 60))
      × (matches every_day (civil (first_read / 60 + suc n)) ≡ true)
      × ((j : ℕ) → j < n → matches every_day (civil (first_read / 60 + suc j)) ≡ false))
    ⊎ ((next_fire utc_calendar every_day tt first_read ≡ none)
        × ((j : ℕ)
            → first_read / 60 + suc j < end_of_search (first_read / 60)
            → matches every_day (civil (first_read / 60 + suc j)) ≡ false))
next_fire_lem_example = next_fire_lem every_day first_read
