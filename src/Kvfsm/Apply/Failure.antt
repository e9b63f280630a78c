-- ===== src/Kvfsm/Apply/Failure.antt =====
-- pkg/kvfsm/fsm.go: the store after an entry whose result is an error.
use libp2p_kv_raft.Base.{ℕ, ◌≡◌, refl, some, arith, Bytes, if◌then◌else◌, ◌⊎◌, inl, inr, Bool-cases}
use libp2p_kv_raft.Outcome.{Error, Result, ok, err, token_expired, wrap, consume_exec_invite}
use libp2p_kv_raft.Exec.{Exec, ◌>>=◌, pure, lift, continue}
use libp2p_kv_raft.Exec.Atomic.{IsAtomic, atomic_rules}
use libp2p_kv_raft.Store
use libp2p_kv_raft.Store.Rows.{remove}
use libp2p_kv_raft.Store.Writes.{del}
use libp2p_kv_raft.Store.Transaction.{IsAtomic-set, IsAtomic-del, with_tx-IsAtomic, del_ok}
use libp2p_kv_raft.Store.Sqlite.{Database}
use libp2p_kv_raft.Shmevent.Invite.{ExecInvite, decode_exec_invite_record}
use libp2p_kv_raft.Kvfsm.Encoding.{
  Command, decode_command, OpType, op_type, op_set, op_del, op_confirm, op_cascade_delete,
  op_consume_invite, op_consume_exec_invite, op_append_command_request, op_txn, op_unknown,
}
use libp2p_kv_raft.Kvfsm.Cascade.{apply_cascade_delete}
use libp2p_kv_raft.Kvfsm.Apply
use libp2p_kv_raft.Kvfsm.Apply.{ApplyResult, Log}

ruleset store_rules = (atomic_rules, IsAtomic-set, IsAtomic-del, with_tx-IsAtomic)

module _ (D : Database) where
  open D use {Db, rows}

  apply_set-IsAtomic : (key value : Bytes) → IsAtomic (Apply.apply_set D key value)
  unfolding Apply.apply_set
  apply_set-IsAtomic key value = search store_rules

  apply_confirm-IsAtomic : (key confirmed : Bytes) → IsAtomic (Apply.apply_confirm D key confirmed)
  unfolding Apply.apply_confirm
  apply_confirm-IsAtomic key confirmed = search store_rules

  apply_append-IsAtomic :
      (key value : Bytes) → IsAtomic (Apply.apply_append_command_request D key value)
  unfolding Apply.apply_append_command_request
  apply_append-IsAtomic key value = search store_rules depth 9

  apply_txn-IsAtomic : (value : Bytes) → IsAtomic (Apply.apply_txn D value)
  unfolding Apply.apply_txn
  apply_txn-IsAtomic value = search store_rules depth 7

  -- A delete with something behind it that cannot fail.
  del-pure-IsAtomic : (key v : Bytes) → IsAtomic (del D key >>= λ _. pure v)
  del-pure-IsAtomic key v = record { unchanged = λ s s' e h. go s s' e (del D key s) refl h }
    where
      go :
          (s s' : Db) (e : Error) (r : Result (Unit {0}) × Db)
          → del D key s ≡ r
          → continue r (λ _. pure v) ≡ (err e, s')
          → s' ≡ s
      go s s' e (ok u, s1) q h = absurd (ground arith)
      go s s' e (err e', s1) q h = (IsAtomic-del D key).unchanged s s' e (ground arith)

  apply_consume_invite-IsAtomic : (key : Bytes) → IsAtomic (Apply.apply_consume_invite D key)
  unfolding Apply.apply_consume_invite
  apply_consume_invite-IsAtomic key = search (store_rules, del-pure-IsAtomic)

  redeem-IsAtomic :
      (key peer_id v : Bytes) (i : ExecInvite) → IsAtomic (Apply.redeem_invite D key peer_id v i)
  redeem-IsAtomic key peer_id v i = search (store_rules, del-pure-IsAtomic)

  -- What an execution invite's redemption may leave when it fails.
  abbrev Spared : Bytes → Db → Error → Db → Type 0
  Spared key s e s' = (s' ≡ s) ⊎ ((e ≡ token_expired) × (rows s' ≡ remove key (rows s)))

  expire-Spared :
      (key : Bytes) (s s' : Db) (e : Error)
      → Apply.expire_invite D key s ≡ (err e, s')
      → Spared key s e s'
  expire-Spared key s s' e h = go (del D key s) refl h
    where
      go :
          (r : Result (Unit {0}) × Db)
          → del D key s ≡ r
          → continue r (λ _. lift {A = Bytes} (err token_expired)) ≡ (err e, s')
          → Spared key s e s'
      go (ok u, s1) q h = inr (ground arith, ground (arith, del_ok D key s u s1))
      go (err e', s1) q h = inl ((IsAtomic-del D key).unchanged s s' e (ground arith))

  consume_decoded-Spared :
      (now : ℕ) (key peer_id v : Bytes) (i : ExecInvite) (s s' : Db) (e : Error)
      → (if Apply.is_expired i now
            then Apply.expire_invite D key
            else Apply.redeem_invite D key peer_id v i)
          s
        ≡ (err e, s')
      → Spared key s e s'
  consume_decoded-Spared now key peer_id v i s s' e h = elim (Bool-cases (Apply.is_expired i now)) [
    | inl t ↦ expire-Spared key s s' e (rw t at h)
    | inr f ↦ inl ((redeem-IsAtomic key peer_id v i).unchanged s s' e (rw f at h))
  ]

  consume-Spared :
      (now : ℕ) (key peer_id : Bytes) (s s' : Db) (e : Error)
      → Apply.apply_consume_exec_invite D now key peer_id s ≡ (err e, s')
      → Spared key s e s'
  unfolding Apply.apply_consume_exec_invite
  consume-Spared now key peer_id s s' e h = read (wrap consume_exec_invite (Store.get D s key)) h
    where
      decoded :
          (v : Bytes) (r : Result ExecInvite)
          → continue
              (r, s)
              (λ i.
                if Apply.is_expired i now
                then Apply.expire_invite D key
                else Apply.redeem_invite D key peer_id v i)
            ≡ (err e, s')
          → Spared key s e s'
      decoded v (ok i) h = consume_decoded-Spared now key peer_id v i s s' e h
      decoded v (err e') h = inl (ground arith)

      read :
          (r : Result Bytes)
          → continue
              (r, s)
              (λ v. lift (wrap consume_exec_invite (decode_exec_invite_record v)) >>= λ i.
                if Apply.is_expired i now
                then Apply.expire_invite D key
                else Apply.redeem_invite D key peer_id v i)
            ≡ (err e, s')
          → Spared key s e s'
      read (ok v) h = decoded v (wrap consume_exec_invite (decode_exec_invite_record v)) h
      read (err e') h = inl (ground arith)

  settle_err :
      (m : Exec Db (Unit {0})) (s : Db) (e : Error)
      → (Apply.settle D m s).0.error ≡ some e
      → m s ≡ (err e, (Apply.settle D m s).1)
  settle_err m s e h = go (m s) h
    where
      go :
          (r : Result (Unit {0}) × Db)
          → (Apply.settle_outcome D r).0.error ≡ some e
          → r ≡ (err e, (Apply.settle_outcome D r).1)
      go (ok u, s1) h = absurd (ground arith)
      go (err e', s1) h = ground arith

  settle_value_err :
      (m : Exec Db Bytes) (s : Db) (e : Error)
      → (Apply.settle_value D m s).0.error ≡ some e
      → m s ≡ (err e, (Apply.settle_value D m s).1)
  settle_value_err m s e h = go (m s) h
    where
      go :
          (r : Result Bytes × Db)
          → (Apply.value_outcome D r).0.error ≡ some e
          → r ≡ (err e, (Apply.value_outcome D r).1)
      go (ok v, s1) h = absurd (ground arith)
      go (err e', s1) h = ground arith

  -- What one opcode leaves when it fails.
  abbrev OpSpared : OpType → Bytes → Db → Error → Db → Type 0
  OpSpared op key s e s' =
      (s' ≡ s)
      ⊎ ((op ≡ op_consume_exec_invite) × (e ≡ token_expired) × (rows s' ≡ remove key (rows s)))

  settle_spared :
      (m : Exec Db (Unit {0})) (s : Db) (e : Error)
      → IsAtomic m
      → (Apply.settle D m s).0.error ≡ some e
      → (Apply.settle D m s).1 ≡ s
  settle_spared m s e a h = a.unchanged s (Apply.settle D m s).1 e (settle_err m s e h)

  exec_invite-Spared :
      (key : Bytes) (s : Db) (e : Error) (s' : Db)
      → Spared key s e s'
      → OpSpared op_consume_exec_invite key s e s'
  exec_invite-Spared key s e s' (inl same) = inl same
  exec_invite-Spared key s e s' (inr (t, r)) = inr (refl, t, r)

  apply_op_spared :
      (now : ℕ) (op : OpType) (key value : Bytes) (s : Db) (e : Error)
      → (Apply.apply_op D now op key value s).0.error ≡ some e
      → OpSpared op key s e (Apply.apply_op D now op key value s).1
  unfolding Apply.apply_op
  apply_op_spared now op_set key value s e h =
      inl (settle_spared _ s e (apply_set-IsAtomic key value) h)
  apply_op_spared now op_del key value s e h = inl (settle_spared _ s e (IsAtomic-del D key) h)
  apply_op_spared now op_confirm key value s e h =
      inl (settle_spared _ s e (apply_confirm-IsAtomic key value) h)
  apply_op_spared now op_cascade_delete key value s e h =
      inl (settle_spared _ s e (with_tx-IsAtomic D (apply_cascade_delete D key)) h)
  apply_op_spared now op_consume_invite key value s e h = inl (
      (apply_consume_invite-IsAtomic key).unchanged s _ e
        (settle_value_err (Apply.apply_consume_invite D key) s e h))
  apply_op_spared now op_consume_exec_invite key value s e h =
      let m : Exec Db Bytes = Apply.apply_consume_exec_invite D now key value in
      exec_invite-Spared key s e (Apply.settle_value D m s).1
        (consume-Spared now key value s (Apply.settle_value D m s).1 e (settle_value_err m s e h))
  apply_op_spared now op_append_command_request key value s e h =
      inl (settle_spared _ s e (apply_append-IsAtomic key value) h)
  apply_op_spared now op_txn key value s e h =
      inl (settle_spared _ s e (apply_txn-IsAtomic value) h)
  apply_op_spared now (op_unknown n) key value s e h = inl refl

  -- An entry whose result carries an error has left the store as it was, with one exception: the
  -- redemption of an execution invite that fails as expired, after which the rows are the old rows
  -- without the invite's own key.
  pub failed_unchanged :
      (l : Log) (s : Db) (e : Error)
      → (Apply.apply D l s).0.error ≡ some e
      → ((Apply.apply D l s).1 ≡ s)
        ⊎ ((c : Command) × (decode_command l.data_bytes ≡ ok c)
            × (op_type c.op ≡ op_consume_exec_invite)
            × (e ≡ token_expired)
            × (rows (Apply.apply D l s).1 ≡ remove c.key (rows s)))
  unfolding Apply.apply
  failed_unchanged l s e h = go (decode_command l.data_bytes) refl h
    where
      go :
          (r : Result Command)
          → decode_command l.data_bytes ≡ r
          → (Apply.apply_decoded D l.appended_at_unix r s).0.error ≡ some e
          → ((Apply.apply_decoded D l.appended_at_unix r s).1 ≡ s)
            ⊎ ((c : Command) × (decode_command l.data_bytes ≡ ok c)
                × (op_type c.op ≡ op_consume_exec_invite)
                × (e ≡ token_expired)
                × (rows (Apply.apply_decoded D l.appended_at_unix r s).1 ≡ remove c.key (rows s)))
      go (err e') q h = inl refl
      go (ok c) q h = elim (apply_op_spared l.appended_at_unix (op_type c.op) c.key c.value s e h) [
        | inl same ↦ inl same
        | inr (o, t, p) ↦ inr (c, q, o, t, p)
      ]
