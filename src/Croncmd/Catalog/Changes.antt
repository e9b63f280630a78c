-- ===== src/Croncmd/Catalog/Changes.antt =====
-- examples/croncmd/croncmd.go: what the edits of a catalog come to, as changes of a book that holds
-- a schedule for every id.
use libp2p_kv_raft.Base.{◌≡◌, Bool, not, if◌then◌else◌, some, List, [], ◌∷◌, Bytes, equal}
use libp2p_kv_raft.Outcome.{Result, ok, err, no_schedule}
use libp2p_kv_raft.Store.Rows.{find}
use libp2p_kv_raft.Croncmd.Schedule.{Schedule, Calendar, Json, validate}
use libp2p_kv_raft.Croncmd.Program.{Program}
use libp2p_kv_raft.Croncmd.Scheduler.System.{World}
use libp2p_kv_raft.Croncmd.Catalog.{
  Catalog, schedule_key, put_schedule, delete_schedule, set_enabled, read_answer, with_enabled,
}

-- encoding/json on schedules whose fields are valid UTF-8, as every field of a decoded one is
pub record TextCodec (J : Json) : Type 1 where
  pub IsText : Schedule → Type 0
  pub round_trip :
      (s : Schedule)
      → IsText s
      → (b : Bytes) × (J.encode_schedule s ≡ some b) × (J.decode_schedule b ≡ some s)
  pub decoded-IsText : (b : Bytes) (s : Schedule) → J.decode_schedule b ≡ some s → IsText s
  pub with_enabled-IsText :
      (enabled : Bool) (s : Schedule) → IsText s → IsText (with_enabled enabled s)

pub data Edit : Type 0 where
  put_edit : Schedule → Edit
  delete_edit : Bytes → Edit
  enable_edit : Bytes → Bool → Edit

-- What Get answers for every id
abbrev pub Book : Type 0
Book = Bytes → Result Schedule

abbrev pub changed : Result (Unit {0}) → Bytes → Result Schedule → Book → Result (Unit {0}) × Book
changed (err e) id entry b = (err e, b)
changed (ok u) id entry b = (ok tt, λ i. if equal i id then entry else b i)

module _ (K : Calendar) where
  abbrev pub enabled_in : Bool → Result Schedule → Book → Result (Unit {0}) × Book
  enabled_in enabled (err e) b = (err e, b)
  enabled_in enabled (ok s) b =
      let t : Schedule = record s { disabled = not enabled } in changed (validate K t) t.id (ok t) b

  -- An edit of a book, and its answer
  unfoldable pub change : Edit → Book → Result (Unit {0}) × Book
  change (put_edit s) b = changed (validate K s) s.id (ok s) b
  change (delete_edit id) b = changed (ok tt) id (err no_schedule) b
  change (enable_edit id enabled) b = enabled_in enabled (b id) b

  unfoldable pub changes : List Edit → Book → List (Result (Unit {0})) × Book
  changes [] b = ([], b)
  changes (e ∷ edits) b = let c = change e b in let d = changes edits c.1 in (c.0 ∷ d.0, d.1)

module _ (K : Calendar) (J : Json) (C : Catalog) where
  abbrev pub book : World → Book
  book w id = read_answer K J C (ok (find (schedule_key C id) w.store))

  abbrev pub edit_program : Edit → (Result (Unit {0}) → Program) → Program
  edit_program (put_edit s) = put_schedule K J C s
  edit_program (delete_edit id) = delete_schedule K J C id
  edit_program (enable_edit id enabled) = set_enabled K J C id enabled

  unfoldable pub edits_program : List Edit → (List (Result (Unit {0})) → Program) → Program
  edits_program [] after = after []
  edits_program (e ∷ edits) after =
      edit_program e (λ r. edits_program edits (λ answers. after (r ∷ answers)))
