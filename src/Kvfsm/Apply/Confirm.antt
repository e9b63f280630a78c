-- ===== src/Kvfsm/Apply/Confirm.antt =====
-- pkg/kvfsm/fsm.go, OpConfirm, in terms of the rows.
use libp2p_kv_raft.Base.{ℕ, ◌≡◌, ◌≤◌, Bool, some, [], ◌∷◌, arith, Bytes, IsBytes, length}
use libp2p_kv_raft.Outcome.{wrap-eq-ok, ok, wrap, confirm}
use libp2p_kv_raft.Exec.{read-eq-ok}
use libp2p_kv_raft.Store
use libp2p_kv_raft.Store.Rows.{Table, find, put, remove}
use libp2p_kv_raft.Store.Rows.Selection.{select_keys}
use libp2p_kv_raft.Store.Scan.{get_ok}
use libp2p_kv_raft.Store.Effects.{Effect-set, Effect-del, Effect-seq, Effect-with_tx}
use libp2p_kv_raft.Store.Sqlite.{Database}
use libp2p_kv_raft.Kvfsm.Acl.{system_list_limit, check_system_list_cap}
use libp2p_kv_raft.Kvfsm.Apply.{apply_confirm}
use libp2p_kv_raft.Kvfsm.Apply.ListCap.{list_count, put_within_limit}

-- A delete adds no row to a selection.
count-remove :
    (q : Bytes → Bool) (k : Bytes) (t : Table)
    → length (select_keys q (remove k t)) ≤ length (select_keys q t)
unfolding remove
count-remove q k [] = omega arith
count-remove q k (r ∷ t) = ground (arith, count-remove q k t)

list_count-remove :
    (kind status : ℕ) (k : Bytes) (t : Table)
    → list_count kind status (remove k t) ≤ list_count kind status t
list_count-remove kind status k t = count-remove _ k t

after_remove :
    (kind status : ℕ) (k : Bytes) (t : Table) (limit : ℕ)
    → list_count kind status t ≤ limit
    → list_count kind status (remove k t) ≤ limit
after_remove kind status k t limit h = omega (arith, h, list_count-remove kind status k t)

module _ (D : Database) where
  open D use {Db, rows}

  confirm_parts :
      (key confirmed : Bytes) (s s' : Db)
      → apply_confirm D key confirmed s ≡ (ok tt, s')
      → (v : Bytes) × (find key (rows s) ≡ some v)
        × (check_system_list_cap D s confirmed ≡ ok tt)
        × (rows s' ≡ remove key (put confirmed v (rows s)))
  unfolding apply_confirm
  confirm_parts key confirmed s s' h =
      let (v, p, h1) = read-eq-ok (wrap confirm (Store.get D s key)) s _ h in
      let (u, c, h2) = read-eq-ok (check_system_list_cap D s confirmed) s _ h1 in
      (
        v,
        get_ok D s key v (wrap-eq-ok _ _ _ p),
        c,
        (Effect-with_tx D (Effect-seq D (Effect-set D confirmed v) (Effect-del D key))).rows_after s
            s' h2,
      )

  -- A confirmation that succeeds, on any database, with a confirmed key of bytes, found a pending
  -- record; the rows left are those before with that record under the confirmed key and without the
  -- pending key; and every list of system records that was within its limit is still.
  pub confirm_moves :
      (key confirmed : Bytes) (s s' : Db)
      → IsBytes confirmed
      → apply_confirm D key confirmed s ≡ (ok tt, s')
      → ((v : Bytes) × (find key (rows s) ≡ some v)
          × (rows s' ≡ remove key (put confirmed v (rows s))))
        × ((kind status : ℕ)
            → list_count kind status (rows s) ≤ system_list_limit kind
            → list_count kind status (rows s') ≤ system_list_limit kind)
  confirm_moves key confirmed s s' b h =
      let (v, f, c, q) = confirm_parts key confirmed s s' h in
      (
        (v, f, q),
        λ kind status n. rw q (
            after_remove kind status key (put confirmed v (rows s)) (system_list_limit kind)
              (put_within_limit D confirmed v s kind status b c n)),
      )
