-- ===== src/Croncmd/Program.antt =====
-- A scheduler as a program: what it asks of the shared store and of the submitter, one call after
-- the other. A call may fail, and every continuation says what follows each answer.
use libp2p_kv_raft.Base.{ℕ, Bool, Option, Bytes}
use libp2p_kv_raft.Outcome.{Result}
use libp2p_kv_raft.Store.Rows.{Table}

-- `Store` and `Submitter` of croncmd.go, and the clock. A submission carries the claim key of its fire, so that
-- it can be told for which fire it is. The program ends with the time of the last pruning.
pub data Program : Type 0 where
  done : Option ℕ → Program
  read_now : (ℕ → Program) → Program
  get_value : Bytes → (Result (Option Bytes) → Program) → Program
  scan : Bytes → (Result Table → Program) → Program
  put : Bytes → Bytes → (Result (Unit {0}) → Program) → Program
  delete : Bytes → (Result (Unit {0}) → Program) → Program
  claim : Bytes → Bytes → (Result Bool → Program) → Program
  submit : (fire_key command_id inputs : Bytes) → (Result Bytes → Program) → Program
