-- ===== src/Kvfsm/Apply/CompareAndSwap.antt =====
-- pkg/kvfsm/fsm.go, OpTxn, against a specification of transactions on tables.
use libp2p_kv_raft.Base.{
  ◌≡◌, refl, Bool, true, false, ◌&&◌, Option, none, some, List, [], ◌∷◌, arith, Bytes,
  if◌then◌else◌, ◌⊎◌, inl, inr, ◌==◌, equal,
}
use libp2p_kv_raft.Outcome.{Result, ok, err, compare_failed, txn_write}
use libp2p_kv_raft.Exec.{continue}
use libp2p_kv_raft.Store
use libp2p_kv_raft.Store.{or_not_found}
use libp2p_kv_raft.Store.Rows.{Table, find, put, remove}
use libp2p_kv_raft.Store.Writes.{with_tx}
use libp2p_kv_raft.Store.Scan.{get_ok, get_missing}
use libp2p_kv_raft.Store.Effects.{
  Effect, Effect-pure, Effect-set, Effect-del, Effect-seq, Effect-if, Runs-if, Effect-wrap,
  Effect-with_tx, Runs, Runs-pure, Runs-set, Runs-del, Runs-seq, Runs-wrap, Runs-with_tx, get_runs,
}
use libp2p_kv_raft.Store.Sqlite.{Database, IsReliable}
use libp2p_kv_raft.Shmevent.Txn.{TxnOpSpec, is_compare, txn_op_compare_absent, txn_op_set}
use libp2p_kv_raft.Kvfsm.Compare.{check_compare, check_kinds, check_compares}
use libp2p_kv_raft.Kvfsm.Apply

-- Whether a precondition holds of what a key has.
abbrev pub holds_of : TxnOpSpec → Option Bytes → Bool
holds_of o none = o.op == txn_op_compare_absent
holds_of o (some v) = if o.op == txn_op_compare_absent then false else equal v o.value

-- Every precondition holds of the table.
abbrev pub all_hold : List TxnOpSpec → Table → Bool
all_hold [] t = true
all_hold (o ∷ ops) t = (if is_compare o then holds_of o (find o.key t) else true) && all_hold ops t

abbrev pub write_table : TxnOpSpec → Table → Table
write_table o t =
    if is_compare o then t else (if o.op == txn_op_set then put o.key o.value t else remove o.key t)

-- The sets and deletes of the list, in order.
abbrev pub write_all : List TxnOpSpec → Table → Table
write_all [] t = t
write_all (o ∷ ops) t = write_all ops (write_table o t)

module _ (D : Database) where
  open D use {Db, rows}

  Effect-write_op : (o : TxnOpSpec) → Effect D (Apply.write_op D o) (write_table o)
  Effect-write_op o = Effect-if D (is_compare o) (Effect-pure D) (
      Effect-wrap D txn_write
        (Effect-if D (o.op == txn_op_set) (Effect-set D o.key o.value) (Effect-del D o.key)))

  Effect-write_ops : (ops : List TxnOpSpec) → Effect D (Apply.write_ops D ops) (write_all ops)
  unfolding Apply.write_ops
  Effect-write_ops [] = Effect-pure D
  Effect-write_ops (o ∷ ops) = Effect-seq D (Effect-write_op o) (Effect-write_ops ops)

  -- One precondition that passes holds of the rows.
  compare_holds :
      (o : TxnOpSpec) (s : Db)
      → check_compare o (Store.get D s o.key) ≡ ok tt
      → holds_of o (find o.key (rows s)) ≡ true
  unfolding check_compare
  compare_holds o s h = go (Store.get D s o.key) refl h
    where
      go :
          (r : Result Bytes)
          → Store.get D s o.key ≡ r
          → check_compare o r ≡ ok tt
          → holds_of o (find o.key (rows s)) ≡ true
      go (ok v) q h = ground (arith, get_ok D s o.key v q)
      go (err e) q h = ground (arith, get_missing D s o.key e q)

  compares_hold :
      (ops : List TxnOpSpec) (s : Db)
      → check_compares D ops s ≡ ok tt
      → all_hold ops (rows s) ≡ true
  unfolding check_compares
  compares_hold [] s h = refl
  compares_hold (o ∷ ops) s h = ground (arith, compare_holds o s, compares_hold ops s)

  -- Where a transaction succeeds, on any database, every operation is of a known kind, every
  -- precondition held of the rows before it, and the rows after it are those with its sets and
  -- deletes made in order.
  pub committed_txn :
      (ops : List TxnOpSpec) (s s' : Db)
      → Apply.apply_ops D ops s ≡ (ok tt, s')
      → (check_kinds ops ≡ ok tt)
        × (all_hold ops (rows s) ≡ true)
        × (rows s' ≡ write_all ops (rows s))
  unfolding Apply.apply_ops
  committed_txn ops s s' h = kinds (check_kinds ops) refl h
    where
      compares :
          (c : Result (Unit {0}))
          → check_kinds ops ≡ ok tt
          → check_compares D ops s ≡ c
          → continue (c, s) (λ _. with_tx D (Apply.write_ops D ops)) ≡ (ok tt, s')
          → (check_kinds ops ≡ ok tt)
            × (all_hold ops (rows s) ≡ true)
            × (rows s' ≡ write_all ops (rows s))
      compares (ok v) p q h =
          (p, compares_hold ops s q, (Effect-with_tx D (Effect-write_ops ops)).rows_after s s' h)
      compares (err e) p q h = absurd (ground arith)

      kinds :
          (k : Result (Unit {0}))
          → check_kinds ops ≡ k
          → continue
              (k, s)
              (λ _ t. continue (check_compares D ops t, t) (λ _. with_tx D (Apply.write_ops D ops)))
            ≡ (ok tt, s')
          → (check_kinds ops ≡ ok tt)
            × (all_hold ops (rows s) ≡ true)
            × (rows s' ≡ write_all ops (rows s))
      kinds (ok u) p h = compares (check_compares D ops s) p refl h
      kinds (err e) p h = absurd (ground arith)

module _ (D : Database) (R : IsReliable D) where
  open D use {Db, rows}

  -- On a reliable database a precondition is tested on the rows.
  compare_tested :
      (o : TxnOpSpec) (s : Db)
      → check_compare o (Store.get D s o.key)
        ≡ (if holds_of o (find o.key (rows s)) then ok tt else err compare_failed)
  unfolding check_compare
  compare_tested o s = rw (get_runs D R s o.key) (go (find o.key (rows s)))
    where
      go :
          (v : Option Bytes)
          → check_compare o (or_not_found v) ≡ (if holds_of o v then ok tt else err compare_failed)
      go none = ground arith
      go (some v) = ground arith

  compares_tested :
      (ops : List TxnOpSpec) (s : Db)
      → check_compares D ops s ≡ (if all_hold ops (rows s) then ok tt else err compare_failed)
  unfolding check_compares
  compares_tested [] s = refl
  compares_tested (o ∷ ops) s = ground (arith, compare_tested o s, compares_tested ops s)

  Runs-write_op : (o : TxnOpSpec) → Runs D (Apply.write_op D o) (write_table o)
  Runs-write_op o = Runs-if D (is_compare o) (Runs-pure D) (
      Runs-wrap D txn_write
        (Runs-if D (o.op == txn_op_set) (Runs-set D R o.key o.value) (Runs-del D R o.key)))

  Runs-write_ops : (ops : List TxnOpSpec) → Runs D (Apply.write_ops D ops) (write_all ops)
  unfolding Apply.write_ops
  Runs-write_ops [] = Runs-pure D
  Runs-write_ops (o ∷ ops) = Runs-seq D (Runs-write_op o) (Runs-write_ops ops)

  -- On a reliable database a transaction whose operations are of known kinds does what its
  -- specification says: where every precondition holds of the rows it succeeds and leaves the rows
  -- with its writes made in order; where one does not it fails with the compare error and nothing
  -- changes.
  pub compare_and_swap :
      (ops : List TxnOpSpec) (s : Db)
      → check_kinds ops ≡ ok tt
      → ((all_hold ops (rows s) ≡ true)
          × ((s' : Db) × (Apply.apply_ops D ops s ≡ (ok tt, s'))
              × (rows s' ≡ write_all ops (rows s))))
        ⊎ ((all_hold ops (rows s) ≡ false) × (Apply.apply_ops D ops s ≡ (err compare_failed, s)))
  unfolding Apply.apply_ops
  compare_and_swap ops s h = rw h (go (all_hold ops (rows s)) refl (compares_tested ops s))
    where
      go :
          (b : Bool)
          → all_hold ops (rows s) ≡ b
          → check_compares D ops s ≡ (if b then ok tt else err compare_failed)
          → ((all_hold ops (rows s) ≡ true)
              × ((s' : Db) × (continue
                      (check_compares D ops s, s)
                      (λ _. with_tx D (Apply.write_ops D ops))
                    ≡ (ok tt, s'))
                  × (rows s' ≡ write_all ops (rows s))))
            ⊎ ((all_hold ops (rows s) ≡ false)
                × (continue (check_compares D ops s, s) (λ _. with_tx D (Apply.write_ops D ops))
                    ≡ (err compare_failed, s)))
      go true p q = inl (p, rw q ((Runs-with_tx D R (Runs-write_ops ops)).outcome s))
      go false p q = inr (p, rw q refl)
