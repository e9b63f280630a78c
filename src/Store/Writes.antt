-- ===== src/Store/Writes.antt =====
-- pkg/store/store.go: what changes the store. A statement that fails changes nothing; a statement
-- that succeeds before another fails stays, unless a transaction is rolled back.
use libp2p_kv_raft.Base.{ℕ, zero, suc, [], ◌∷◌, Bytes, length}
use libp2p_kv_raft.Outcome.{Result, ok, err, out_of_fuel, sql}
use libp2p_kv_raft.Exec.{Exec, ◌>>=◌, ◌>>◌, pure, lift}
use libp2p_kv_raft.Store.{read_field}
use libp2p_kv_raft.Store.Sqlite.{Database, Reply, done, failed}

-- The outcome of a statement on a state.
abbrev pub executed : {S : Type 0} → S → Reply S → Result (Unit {0}) × S
executed s (done s') = (ok tt, s')
executed s (failed n) = (err (sql n), s)

module _ (D : Database) where
  open D use {Db}

  unfoldable pub set : Bytes → Bytes → Exec Db (Unit {0})
  set key value s = executed s (D.upsert s key value)

  unfoldable pub del : Bytes → Exec Db (Unit {0})
  del key s = executed s (D.delete_key s key)

  -- `return err` leaves the deferred Rollback to undo what `fn` wrote, and so does a Commit that fails.
  abbrev pub close_tx : Db → Result (Unit {0}) × Db → Result (Unit {0}) × Db
  close_tx s (err e, tx) = (err e, s)
  close_tx s (ok u, tx) = executed s (D.commit s tx)

  abbrev pub open_tx : Exec Db (Unit {0}) → Db → Reply Db → Result (Unit {0}) × Db
  open_tx fn s (failed n) = (err (sql n), s)
  open_tx fn s (done tx) = close_tx s (fn tx)

  unfoldable pub with_tx : Exec Db (Unit {0}) → Exec Db (Unit {0})
  with_tx fn s = open_tx fn s (D.begin s)

  abbrev delete_all : Exec Db (Unit {0})
  delete_all s = executed s (D.delete_all s)

  abbrev pub insert_row : Bytes → Bytes → Exec Db (Unit {0})
  insert_row key value s = executed s (D.insert_row s key value)

  -- The loop of LoadAll. Each round reads four bytes at least, so `length r` rounds are enough.
  unfoldable pub load_loop : ℕ → Bytes → Exec Db (Unit {0})
  load_loop fuel [] = pure tt
  load_loop zero (x ∷ r) = lift (err out_of_fuel)
  load_loop (suc fuel) (x ∷ r) = do
    (key, r') ← lift (read_field (x ∷ r))
    (value, r'') ← lift (read_field r')
    insert_row key value
    load_loop fuel r''

  abbrev pub load_body : Bytes → Exec Db (Unit {0})
  load_body r = do delete_all; load_loop (length r) r

  unfoldable pub load_all : Bytes → Exec Db (Unit {0})
  unfolding load_loop with_tx
  load_all r = with_tx (load_body r)
