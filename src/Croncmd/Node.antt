-- ===== src/Croncmd/Node.antt =====
-- examples/croncmd/store.go: the scan of a store that is a node, over a session of shmclient.
use libp2p_kv_raft.Base.{
  ℕ, zero, suc, ◌+◌, ◌%◌, ◌^◌, ◌<◌, ◌≡◌, refl, ap, arith, inl, inr, true, false, not, ◌==◌,
  Bool-cases, some, [], ◌∷◌, Bytes, IsBytes, has_prefix, length, take, set, get_or, if◌then◌else◌,
  All, replicate, blob_lt, blob_lt_trans, blob_lt_irrefl,
}
use libp2p_kv_raft.Outcome.{Result, ok, ◌>>=◌}
use libp2p_kv_raft.Store.Rows.{Table, in_closed}
use libp2p_kv_raft.Store.Rows.Selection.{select_keys}
use libp2p_kv_raft.Store.Prefix.{prefix_upper_bound, prefix_range, upper_bound_loop}
use libp2p_kv_raft.Croncmd.Scheduler.System.{with_prefix}

-- pkg/shmclient: a session is opened once, and reads a range, both ends of it included.
pub record Client : Type 1 where
  pub Session : Type 0
  pub session : Result Session
  pub scan_range : Session → Bytes → Bytes → Result Table

-- The loop `for i := len(end) - 1; i >= 0; i--`, at `i + 1`
unfoldable pub prefix_end_loop : Bytes → ℕ → Bytes
prefix_end_loop end zero = replicate 8 0xFF
prefix_end_loop end (suc i) =
    let rest = prefix_end_loop end i in
    if not (get_or end i 0 == 0xFF)
    then take (suc i) (set end i ((get_or end i 0 + 1) % 2 ^ 8))
    else rest

unfoldable pub prefix_end : Bytes → Bytes
prefix_end p = prefix_end_loop p (length p)

-- The loop over what was found
unfoldable pub only_prefixed : Bytes → Table → Table
only_prefixed p [] = []
only_prefixed p (r ∷ found) =
    let rest = only_prefixed p found in if has_prefix r.key p then r ∷ rest else rest

module _ (N : Client) where
  unfoldable pub node_scan : Bytes → Result Table
  node_scan p = N.session >>= λ sess.
      N.scan_range sess p (prefix_end p) >>= λ found. ok (only_prefixed p found)

get_or-IsBytes : (p : Bytes) (i : ℕ) → IsBytes p → get_or p i 0 < 256
get_or-IsBytes [] i h = omega arith
get_or-IsBytes (c ∷ p) zero h = h.0
get_or-IsBytes (c ∷ p) (suc i) h = get_or-IsBytes p i h.1

loop_agrees :
    (p u : Bytes) (i : ℕ) → IsBytes p → upper_bound_loop p i ≡ some u → prefix_end_loop p i ≡ u
unfolding upper_bound_loop prefix_end_loop
loop_agrees p u zero h e = absurd (ground arith)
loop_agrees p u (suc i) h e = ground (arith, get_or-IsBytes p i h, loop_agrees p u i h)

blob_lt_asym : (a b : Bytes) → blob_lt a b ≡ true → blob_lt b a ≡ false
blob_lt_asym a b h = elim (Bool-cases (blob_lt b a)) [
  | inl back ↦ absurd (ground (arith, blob_lt_trans a b a h back, blob_lt_irrefl a))
  | inr apart ↦ apart
]

-- A key with the prefix lies in the range.
in_range :
    (p u k : Bytes)
    → IsBytes k
    → prefix_upper_bound p ≡ some u
    → has_prefix k p ≡ true
    → in_closed p u k ≡ true
in_range p u k h e pre =
    let below = rw e at (prefix_range p k h) in ground (arith, below, blob_lt_asym k u)

rows_agree :
    (p u : Bytes) (t : Table)
    → All (λ r. IsBytes r.key) t
    → prefix_upper_bound p ≡ some u
    → only_prefixed p (select_keys (in_closed p u) t) ≡ with_prefix p t
unfolding only_prefixed
rows_agree p u [] h e = refl
rows_agree p u (r ∷ t) h e = ground (arith, in_range p u r.key h.0 e, rows_agree p u t h.1 e)

-- The scan of a node whose table is `t` returns what the memory store does, the rows under the prefix, though
-- the range that it reads ends with a key beyond them. Keys are bytes, the session opens and reads
-- the rows between two keys, both included, and the prefix has a byte other than 0xFF.
pub node_scan-with_prefix :
    (N : Client) (sess : N.Session) (p u : Bytes) (t : Table)
    → N.session ≡ ok sess
    → ((lo hi : Bytes) → N.scan_range sess lo hi ≡ ok (select_keys (in_closed lo hi) t))
    → IsBytes p
    → All (λ r. IsBytes r.key) t
    → prefix_upper_bound p ≡ some u
    → node_scan N p ≡ ok (with_prefix p t)
unfolding node_scan prefix_end prefix_upper_bound
node_scan-with_prefix N sess p u t opens reads bytes keys bounded =
    rw (opens, reads, loop_agrees p u (length p) bytes bounded)
      (ap ok (rows_agree p u t keys bounded))
