-- ===== src/Chandata/Stream.antt =====
-- What pkg/chandata relies on of github.com/gofsd/shmring: a ring is a stream of bytes.
use libp2p_kv_raft.Base.{ℕ, ◌≤◌, ◌<◌, ◌≡◌, Option, none, ◌++◌, Bytes, length}
use libp2p_kv_raft.Outcome.{Error, Result, ok}

pub record Ring : Type 1 where
  pub State : Type 0
  -- the bytes that were written and not yet read
  pub pending : State → Bytes
  pub write : Bytes → State → Result (Unit {0}) × State
  -- A read of at most so many bytes returns what it got, with an error or without.
  pub read : ℕ → State → (Bytes × Option Error) × State
  pub write_lem : (b : Bytes) (s s' : State) → write b s ≡ (ok tt, s') → pending s' ≡ pending s ++ b
  pub read_lem :
      (n : ℕ) (s : State)
      → (pending s ≡ (read n s).0.0 ++ pending (read n s).1) × (length (read n s).0.0 ≤ n)
  pub read_some : (n : ℕ) (s : State) → 0 < n → (read n s).0.1 ≡ none → 0 < length (read n s).0.0

-- A ring whose context is never done, and where all that is read has been written.
pub record IsReliable (R : Ring) : Type 0 where
  pub writes : (b : Bytes) (s : R.State) → (s' : R.State) × (R.write b s ≡ (ok tt, s'))
  pub reads : (n : ℕ) (s : R.State) → n ≤ length (R.pending s) → (R.read n s).0.1 ≡ none
