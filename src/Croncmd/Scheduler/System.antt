-- ===== src/Croncmd/Scheduler/System.antt =====
-- examples/croncmd: any number of schedulers over one shared store, their calls interleaved in any
-- order. The store is memoryStore of store.go, in which every call is atomic; so is a call of
-- nodeStore, which commits through raft.
use libp2p_kv_raft.Base.{
  ℕ, ◌+◌, ◌≤◌, Bool, true, false, ◌≡◌, not, ◌==◌, if◌then◌else◌, Option, none, some, List, [], ◌∷◌,
  Bytes, equal, has_prefix, ◌||◌, ◌&&◌,
}
use libp2p_kv_raft.Outcome.{Error, Result, ok, err}
use libp2p_kv_raft.Store.Rows.{Table, find}
use libp2p_kv_raft.Store.Rows
use libp2p_kv_raft.Store.Rows.Selection.{select_keys}
use libp2p_kv_raft.Croncmd.Schedule.{Calendar, Json}
use libp2p_kv_raft.Croncmd.Program.{
  Program, done, read_now, get_value, scan, put, delete, claim, submit,
}
use libp2p_kv_raft.Croncmd.Scheduler.{Scheduler, tick}

-- memoryStore.Scan and memoryStore.Claim; its Get, Put and Delete are those of a table.
abbrev pub with_prefix : Bytes → Table → Table
with_prefix p = select_keys (λ k. has_prefix k p)

abbrev pub claimed : Option Bytes → Bytes → Bytes → Table → Bool × Table
claimed (some w) k v t = (false, t)
claimed none k v t = (true, Rows.put k v t)

abbrev pub claim_key_in : Bytes → Bytes → Table → Bool × Table
claim_key_in k v t = claimed (find k t) k v t

-- A submission that was tried: for which fire, and whether it was acknowledged.
pub record Attempt : Type 0 where
  pub fire_key : Bytes
  pub acknowledged : Bool

pub record World : Type 0 where
  pub store : Table
  pub clock : ℕ
  pub attempts : List Attempt

-- A scheduler in the middle of a pass: the time that it has read in it, and what is left.
pub record Process : Type 0 where
  pub now : Option ℕ
  pub rest : Program

abbrev pub with_store : World → Table → World
with_store w t = record w { store = t }

abbrev pub with_attempt : World → Bytes → Bool → World
with_attempt w k b = record w { attempts = record { fire_key = k; acknowledged = b } ∷ w.attempts }

-- One call. It fails with or without having taken effect, or it succeeds.
pub data Call (w : World) : Program → World → Program → Type 0 where
  got :
      {k : Bytes} {f : Result (Option Bytes) → Program}
      → Call w (get_value k f) w (f (ok (find k w.store)))
  get_failed :
      {k : Bytes} {f : Result (Option Bytes) → Program} (e : Error)
      → Call w (get_value k f) w (f (err e))
  scanned :
      {p : Bytes} {f : Result Table → Program}
      → Call w (scan p f) w (f (ok (with_prefix p w.store)))
  scan_failed :
      {p : Bytes} {f : Result Table → Program} (e : Error) → Call w (scan p f) w (f (err e))
  has_put :
      {k v : Bytes} {f : Result (Unit {0}) → Program} (r : Result (Unit {0}))
      → Call w (put k v f) (with_store w (Rows.put k v w.store)) (f r)
  put_failed :
      {k v : Bytes} {f : Result (Unit {0}) → Program} (e : Error) → Call w (put k v f) w (f (err e))
  deleted :
      {k : Bytes} {f : Result (Unit {0}) → Program} (r : Result (Unit {0}))
      → Call w (delete k f) (with_store w (Rows.remove k w.store)) (f r)
  delete_failed :
      {k : Bytes} {f : Result (Unit {0}) → Program} (e : Error) → Call w (delete k f) w (f (err e))
  claim_answered :
      {k v : Bytes} {f : Result Bool → Program}
      → Call w
          (claim k v f)
          (with_store w (claim_key_in k v w.store).1)
          (f (ok (claim_key_in k v w.store).0))
  claim_unanswered :
      {k v : Bytes} {f : Result Bool → Program} (e : Error)
      → Call w (claim k v f) (with_store w (claim_key_in k v w.store).1) (f (err e))
  claim_failed :
      {k v : Bytes} {f : Result Bool → Program} (e : Error) → Call w (claim k v f) w (f (err e))
  submitted :
      {k c i : Bytes} {f : Result Bytes → Program} (instance_id : Bytes)
      → Call w (submit k c i f) (with_attempt w k true) (f (ok instance_id))
  submit_failed :
      {k c i : Bytes} {f : Result Bytes → Program} (e : Error)
      → Call w (submit k c i f) (with_attempt w k false) (f (err e))

abbrev pub Processes : Type 0
Processes = ℕ → Process

abbrev pub update : Processes → ℕ → Process → Processes
update ps i p j = if j == i then p else ps j

-- A clock that is read is ahead of the time by `ahead` at most, and every call of a pass is made
-- within `lag` of the time that it has read, once it has. A scheduler may stop at any point and
-- begin a new pass.
abbrev pub IsTimely : ℕ → ℕ → Option ℕ → Type 0
IsTimely lag g none = Unit
IsTimely lag g (some now) = g ≤ now + lag

module _ (K : Calendar) (J : Json) (S : Scheduler) (ahead lag : ℕ) where
  pub data Step (w : World) (ps : Processes) : World → Processes → Type 0 where
    time_passes : (g : ℕ) → w.clock ≤ g → Step w ps (record w { clock = g }) ps
    begins :
        (i : ℕ) (last_prune : Option ℕ)
        → Step w ps w (update ps i (record { now = none; rest = tick K J S last_prune }))
    reads :
        (i now : ℕ) (f : ℕ → Program)
        → (ps i).rest ≡ read_now f
        → now ≤ w.clock + ahead
        → Step w ps w (update ps i (record { now = some now; rest = f now }))
    calls :
        (i : ℕ) {v : World} {p : Program}
        → IsTimely lag w.clock (ps i).now
        → Call w (ps i).rest v p
        → Step w ps v (update ps i (record { now = (ps i).now; rest = p }))

  -- No scheduler has begun, no claim was made.
  abbrev pub initial_world : Table → ℕ → World
  initial_world t g = record { store = t; clock = g; attempts = [] }

  abbrev pub idle : Processes
  idle i = record { now = none; rest = done none }

  pub data Reach (t : Table) (g : ℕ) : World → Processes → Type 0 where
    start : Reach t g (initial_world t g) idle
    later : {w v : World} {ps qs : Processes} → Reach t g w ps → Step w ps v qs → Reach t g v qs

-- The submissions for a fire that count: where a failed one is retried, only those that were
-- acknowledged.
abbrev pub counts : Bool → Bytes → Attempt → Bool
counts retry k a = equal k a.fire_key && (not retry || a.acknowledged)

unfoldable pub tally : Bool → Bytes → List Attempt → ℕ
tally retry k [] = 0
tally retry k (a ∷ rest) = (if counts retry k a then 1 else 0) + tally retry k rest
