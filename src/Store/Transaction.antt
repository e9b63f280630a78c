-- ===== src/Store/Transaction.antt =====
-- Set, Delete and WithTx of pkg/store/store.go: the rows that each outcome leaves.
use libp2p_kv_raft.Base.{◌≡◌, refl, arith, Bytes}
use libp2p_kv_raft.Outcome.{Error, Result, ok, err}
use libp2p_kv_raft.Exec.{Exec}
use libp2p_kv_raft.Exec.Atomic.{IsAtomic}
use libp2p_kv_raft.Store.Writes.{set, del, with_tx, executed, open_tx, close_tx}
use libp2p_kv_raft.Store.Rows.{put, remove}
use libp2p_kv_raft.Store.Sqlite.{Database, Reply, done, failed}

executed_ok :
    {S : Type 0} (s : S) (r : Reply S) (u : Unit {0}) (s' : S)
    → executed s r ≡ (ok u, s')
    → r ≡ done s'
executed_ok s (done t) u s' h = ground arith
executed_ok s (failed n) u s' h = ground arith

executed_err :
    {S : Type 0} (s : S) (r : Reply S) (e : Error) (s' : S) → executed s r ≡ (err e, s') → s' ≡ s
executed_err s (done t) e s' h = ground arith
executed_err s (failed n) e s' h = ground arith

module _ (D : Database) where
  open D use {Db, rows}

  pub set_ok :
      (k v : Bytes) (s : Db) (u : Unit {0}) (s' : Db)
      → set D k v s ≡ (ok u, s')
      → rows s' ≡ put k v (rows s)
  unfolding set
  set_ok k v s u s' h = D.upsert_lem s k v s' (executed_ok s (D.upsert s k v) u s' h)

  pub del_ok :
      (k : Bytes) (s : Db) (u : Unit {0}) (s' : Db)
      → del D k s ≡ (ok u, s')
      → rows s' ≡ remove k (rows s)
  unfolding del
  del_ok k s u s' h = D.delete_key_lem s k s' (executed_ok s (D.delete_key s k) u s' h)

  pub IsAtomic-set : (k v : Bytes) → IsAtomic (set D k v)
  unfolding set
  IsAtomic-set k v = record { unchanged = λ s s' e h. executed_err s (D.upsert s k v) e s' h }

  pub IsAtomic-del : (k : Bytes) → IsAtomic (del D k)
  unfolding del
  IsAtomic-del k = record { unchanged = λ s s' e h. executed_err s (D.delete_key s k) e s' h }

  close_tx_err :
      (s : Db) (r : Result (Unit {0}) × Db) (e : Error) (s' : Db)
      → close_tx D s r ≡ (err e, s')
      → s' ≡ s
  close_tx_err s (ok u, tx) e s' h = executed_err s (D.commit s tx) e s' h
  close_tx_err s (err e', tx) e s' h = ground arith

  open_tx_err :
      (fn : Exec Db (Unit {0})) (s : Db) (r : Reply Db) (e : Error) (s' : Db)
      → open_tx D fn s r ≡ (err e, s')
      → s' ≡ s
  open_tx_err fn s (done tx) e s' h = close_tx_err s (fn tx) e s' h
  open_tx_err fn s (failed n) e s' h = ground arith

  -- Whatever `fn` wrote and however it failed, a transaction that returns an error leaves the store
  -- as it was.
  pub with_tx-IsAtomic : (fn : Exec Db (Unit {0})) → IsAtomic (with_tx D fn)
  unfolding with_tx
  with_tx-IsAtomic fn = record { unchanged = λ s s' e h. open_tx_err fn s (D.begin s) e s' h }

  -- What a transaction that succeeds did: `fn` ran well from the store's rows, and the store has
  -- the rows that it left.
  abbrev pub Committed : Exec Db (Unit {0}) → Db → Db → Type 0
  Committed fn s s' =
      (tx tx' : Db) × (rows tx ≡ rows s) × (fn tx ≡ (ok tt, tx')) × (rows s' ≡ rows tx')

  close_tx_ok :
      (s : Db) (r : Result (Unit {0}) × Db) (s' : Db)
      → close_tx D s r ≡ (ok tt, s')
      → (tx : Db) × (r ≡ (ok tt, tx)) × (rows s' ≡ rows tx)
  close_tx_ok s (ok u, tx) s' h =
      (tx, refl, D.commit_lem s tx s' (executed_ok s (D.commit s tx) tt s' h))
  close_tx_ok s (err e, tx) s' h = absurd (ground arith)

  open_tx_ok :
      (fn : Exec Db (Unit {0})) (s : Db) (r : Reply Db) (s' : Db)
      → ((tx : Db) → r ≡ done tx → rows tx ≡ rows s)
      → open_tx D fn s r ≡ (ok tt, s')
      → Committed fn s s'
  open_tx_ok fn s (done tx) s' law h =
      let (tx', e, p) = close_tx_ok s (fn tx) s' h in (tx, tx', law tx refl, e, p)
  open_tx_ok fn s (failed n) s' law h = absurd (ground arith)

  pub with_tx_ok :
      (fn : Exec Db (Unit {0})) (s s' : Db) → with_tx D fn s ≡ (ok tt, s') → Committed fn s s'
  unfolding with_tx
  with_tx_ok fn s s' h = open_tx_ok fn s (D.begin s) s' (D.begin_lem s) h
