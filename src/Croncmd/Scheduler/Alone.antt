-- ===== src/Croncmd/Scheduler/Alone.antt =====
-- A program that runs by itself: no other scheduler is at work, and no call fails.
use libp2p_kv_raft.Base.{
  ℕ, suc, ◌≤◌, ◌≡◌, arith, Bool, true, false, ◌==◌, List, ◌∷◌, Bytes, equal_refl,
}
use libp2p_kv_raft.Outcome.{ok}
use libp2p_kv_raft.Store.Rows.{find}
use libp2p_kv_raft.Store.Rows
use libp2p_kv_raft.Croncmd.Program.{
  Program, done, read_now, get_value, scan, put, delete, claim, submit,
}
use libp2p_kv_raft.Croncmd.Scheduler.System.{
  Attempt, World, with_store, with_attempt, tally, claim_key_in, with_prefix,
}

-- A program run to its end: every call succeeds, and a submission is answered by an instance id.
unfoldable pub run_alone : Bytes → Program → World → World
run_alone inst (done last) w = w
run_alone inst (read_now f) w = run_alone inst (f w.clock) w
run_alone inst (get_value k f) w = run_alone inst (f (ok (find k w.store))) w
run_alone inst (scan p f) w = run_alone inst (f (ok (with_prefix p w.store))) w
run_alone inst (put k v f) w = run_alone inst (f (ok tt)) (with_store w (Rows.put k v w.store))
run_alone inst (delete k f) w = run_alone inst (f (ok tt)) (with_store w (Rows.remove k w.store))
run_alone inst (claim k v f) w =
    let r = claim_key_in k v w.store in run_alone inst (f (ok r.0)) (with_store w r.1)
run_alone inst (submit k c i f) w = run_alone inst (f (ok inst)) (with_attempt w k true)

pub suc_ne : (n : ℕ) → (suc n == 0) ≡ false
suc_ne n = ground arith

abbrev pub submissions : Bytes → World → ℕ
submissions k w = tally true k w.attempts

tally-more :
    (k j : Bytes) (b : Bool) (list : List Attempt)
    → tally true k list ≤ tally true k (record { fire_key = j; acknowledged = b } ∷ list)
unfolding tally
tally-more k j b list = omega arith

pub tally-hit :
    (k : Bytes) (list : List Attempt)
    → 1 ≤ tally true k (record { fire_key = k; acknowledged = true } ∷ list)
unfolding tally
tally-hit k list = ground (arith, equal_refl k)

-- Nothing takes a submission back.
pub run_alone-submissions :
    (inst k : Bytes) (p : Program) (w : World)
    → submissions k w ≤ submissions k (run_alone inst p w)
unfolding run_alone
run_alone-submissions inst k (done last) w = omega arith
run_alone-submissions inst k (read_now f) w = run_alone-submissions inst k (f _) w
run_alone-submissions inst k (get_value j f) w = run_alone-submissions inst k (f _) w
run_alone-submissions inst k (scan p f) w = run_alone-submissions inst k (f _) w
run_alone-submissions inst k (put j v f) w = run_alone-submissions inst k (f _) _
run_alone-submissions inst k (delete j f) w = run_alone-submissions inst k (f _) _
run_alone-submissions inst k (claim j v f) w = run_alone-submissions inst k (f _) _
run_alone-submissions inst k (submit j c i f) w = omega (
  arith,
  tally-more k j true w.attempts,
  run_alone-submissions inst k (f (ok inst)) (with_attempt w j true),
)
