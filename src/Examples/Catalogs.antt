-- ===== src/Examples/Catalogs.antt =====
-- An operator who edits a catalog, for the theorem about edits of one.
use mathlib.Core.Path.{subst}
use libp2p_kv_raft.Base.{
  ℕ, ◌≡◌, refl, sym, ap, ◌∙◌, arith, Bool, true, false, ◌==◌, Option, none, some, List, [], ◌∷◌,
  Bytes,
}
use libp2p_kv_raft.Outcome.{Result, ok, err, no_schedule}
use libp2p_kv_raft.Store.Rows.{IsSorted, find}
use libp2p_kv_raft.Croncmd.Schedule.{Schedule, Json, validate}
use libp2p_kv_raft.Croncmd.Program.{Program}
use libp2p_kv_raft.Croncmd.Scheduler.System.{World}
use libp2p_kv_raft.Croncmd.Scheduler.Alone.{run_alone}
use libp2p_kv_raft.Croncmd.Spec.Parse.{
  set_bits, parse_field, parse_terms, parse_term, parse_range, parse_step, parse_value,
}
use libp2p_kv_raft.Croncmd.Spec.Expression.{parse_spec, parse_fields}
use libp2p_kv_raft.Croncmd.Catalog.{Catalog, with_enabled, get_schedule}
use libp2p_kv_raft.Croncmd.Catalog.Changes.{
  TextCodec, Edit, put_edit, delete_edit, enable_edit, change, changes, edits_program,
}
use libp2p_kv_raft.Croncmd.Catalog.Edits.{edits-AreChanges}
use libp2p_kv_raft.Croncmd.Utc.Stamps.{utc_calendar}

-- "* * * * *", for the schedule "n" and the command "c"
abbrev nightly : Schedule
nightly = record {
  id = 110 ∷ [];
  spec = 42 ∷ 32 ∷ 42 ∷ 32 ∷ 42 ∷ 32 ∷ 42 ∷ 32 ∷ 42 ∷ [];
  command_id = 99 ∷ [];
  inputs = [];
  location = [];
  disabled = false;
  comment = [];
}

abbrev nightly_with : Bool → Schedule
nightly_with disabled = record nightly { disabled = disabled }

abbrev bit : Bool → ℕ
bit true = 1
bit false = 0

abbrev read_record : Bytes → Option Schedule
read_record [] = none
read_record (c ∷ rest) = some (nightly_with (c == 1))

-- Records of one schedule, enabled or not
abbrev one_schedule : Json
one_schedule = record {
  decode_schedule = read_record;
  encode_schedule = λ s. some (bit s.disabled ∷ []);
  decode_fire = λ b. none;
  encode_fire = λ f. some [];
}

bit_lem : (b : Bool) → (bit b == 1) ≡ b
bit_lem true = refl
bit_lem false = refl

some_injective : {s t : Schedule} → ◌≡◌ {A = Option Schedule} (some s) (some t) → s ≡ t
some_injective e = ground arith

read_again : (b : Bytes) (s : Schedule) → read_record b ≡ some s → s ≡ nightly_with s.disabled
read_again [] s e = absurd (ground arith)
read_again (c ∷ rest) s e = subst (λ t. t ≡ nightly_with t.disabled) (some_injective e) refl

abbrev codec : TextCodec one_schedule
codec = record {
  IsText = λ s. s ≡ nightly_with s.disabled;
  round_trip = λ s text.
      (bit s.disabled ∷ [], refl, ap some (ap nightly_with (bit_lem s.disabled) ∙ sym text));
  decoded-IsText = read_again;
  with_enabled-IsText = λ enabled s text. ap (with_enabled enabled) text;
}

abbrev of_operator : Catalog
of_operator = record { key_prefix = [] }

abbrev empty_world : World
empty_world = record { store = []; clock = 0; attempts = [] }

-- The schedule is added and disabled; then another, which does not exist, is deleted and enabled.
abbrev four_edits : List Edit
four_edits =
    put_edit nightly
    ∷ enable_edit (110 ∷ []) false
    ∷ delete_edit (120 ∷ [])
    ∷ enable_edit (120 ∷ []) true
    ∷ []

abbrev left_book : Bytes → Result Schedule
left_book = (changes utc_calendar four_edits (λ id. err no_schedule)).1

edits-AreChanges_example :
    (v : World) × ((after : List (Result (Unit {0})) → Program)
      → run_alone
          (7 ∷ [])
          (edits_program utc_calendar one_schedule of_operator four_edits after)
          empty_world
        ≡ run_alone (7 ∷ []) (after (ok tt ∷ ok tt ∷ ok tt ∷ err no_schedule ∷ [])) v)
    × IsSorted v.store
    × ((id : Bytes) (after : Result Schedule → Program)
        → run_alone (7 ∷ []) (get_schedule utc_calendar one_schedule of_operator id after) v
          ≡ run_alone (7 ∷ []) (after (left_book id)) v)
unfolding change changes validate parse_spec parse_fields parse_field parse_terms parse_term
    parse_range parse_step parse_value set_bits find
edits-AreChanges_example =
    edits-AreChanges utc_calendar one_schedule of_operator codec (7 ∷ []) four_edits empty_world
      (refl, (tt, (tt, (tt, tt)))) tt

left_disabled : left_book (110 ∷ []) ≡ ok (nightly_with true)
unfolding change changes validate parse_spec parse_fields parse_field parse_terms parse_term
    parse_range parse_step parse_value set_bits
left_disabled = refl
