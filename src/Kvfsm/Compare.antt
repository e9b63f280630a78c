-- ===== src/Kvfsm/Compare.antt =====
-- pkg/kvfsm/fsm.go, the case OpTxn of Apply: what is checked before anything is written.
use libp2p_kv_raft.Base.{List, [], ◌∷◌, Bytes, ◌==◌, if◌then◌else◌, equal}
use libp2p_kv_raft.Outcome.{
  Result, ok, err, ◌>>◌, wrapped, txn_read, compare_failed, unknown_op, is_not_found, guard,
}
use libp2p_kv_raft.Store
use libp2p_kv_raft.Store.Sqlite.{Database}
use libp2p_kv_raft.Shmevent.Txn.{TxnOpSpec, valid_txn_op, is_compare, txn_op_compare_absent}

-- The preconditions of a transaction on what a key holds, the error of a read included.
unfoldable pub check_compare : TxnOpSpec → Result Bytes → Result (Unit {0})
check_compare o current =
    if o.op == txn_op_compare_absent
    then elim current [
      | ok v ↦ err compare_failed
      | err e ↦ if is_not_found e then ok tt else err (wrapped txn_read e)
    ]
    else elim current [
      | ok v ↦ if equal v o.value then ok tt else err compare_failed
      | err e ↦ if is_not_found e then err compare_failed else err (wrapped txn_read e)
    ]

unfoldable pub check_kinds : List TxnOpSpec → Result (Unit {0})
check_kinds [] = ok tt
check_kinds (o ∷ ops) = do guard (valid_txn_op o.op) unknown_op; check_kinds ops

module _ (D : Database) where
  open D use {Db}

  -- Every precondition, against the store as it was.
  unfoldable pub check_compares : List TxnOpSpec → Db → Result (Unit {0})
  unfolding check_compare
  check_compares [] s = ok tt
  check_compares (o ∷ ops) s = do
    if is_compare o then check_compare o (Store.get D s o.key) else ok tt
    check_compares ops s
