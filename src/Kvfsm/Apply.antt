-- ===== src/Kvfsm/Apply.antt =====
-- pkg/kvfsm/fsm.go: `Apply`, one raft log entry on the store.
pub mod Failure
pub mod CompareAndSwap
pub mod ListCap
pub mod Invites
pub mod Requests
pub mod Confirm
use libp2p_kv_raft.Base.{
  ℕ, zero, suc, ◌+◌, ◌≡◌, refl, Bool, true, false, ◌&&◌, not, Option, none, some, List, [], ◌∷◌,
  ◌++◌, Bytes, length, ◌==◌, if◌then◌else◌, leb, equal,
}
use libp2p_kv_raft.Outcome.{
  Error, Result, ok, err, wrap, wrapped, confirm, consume_invite, consume_exec_invite,
  append_request, grant_access, txn_decode, txn_write, token_expired, not_permitted,
  not_request_kind, unknown_kind,
}
use libp2p_kv_raft.Exec.{Exec, ◌>>=◌, ◌>>◌, pure, lift, reads, guarded, wrap_exec}
use libp2p_kv_raft.Store
use libp2p_kv_raft.Store.Writes.{set, del, with_tx, load_all}
use libp2p_kv_raft.Store.Sqlite.{Database}
use libp2p_kv_raft.Logrecord
use libp2p_kv_raft.Shmevent.Catalog.{default_public_command_id}
use libp2p_kv_raft.Shmevent.CommandRequest.{
  decode_command_request_apply_payload, parse_command_request_log_kind,
}
use libp2p_kv_raft.Shmevent.Invite.{ExecInvite, decode_exec_invite_record}
use libp2p_kv_raft.Shmevent.Txn.{TxnOpSpec, decode_txn_payload, is_compare, txn_op_set}
use libp2p_kv_raft.Kvfsm.Encoding.{
  Command, decode_command, OpType, op_type, op_unknown, op_set, op_del, op_confirm,
  op_cascade_delete, op_consume_invite, op_consume_exec_invite, op_append_command_request, op_txn,
}
use libp2p_kv_raft.Kvfsm.Acl.{
  check_system_list_cap, check_group_name_unique, preserve_command_spec, is_permitted_for_command,
}
use libp2p_kv_raft.Kvfsm.Compare.{check_kinds, check_compares}
use libp2p_kv_raft.Shmevent.Catalog.{peer_group_key, reserved_group_channel, reserved_group_relay}
use libp2p_kv_raft.Kvfsm.Cascade.{apply_cascade_delete}

-- Err and Value; a nil error is `none`.
pub record ApplyResult : Type 0 where
  pub error : Option Error
  pub value : Bytes

abbrev pub applied : ApplyResult
applied = record { error = none; value = [] }

abbrev pub failed_with : Error → ApplyResult
failed_with e = record { error = some e; value = [] }

-- A raft log entry: the leader's clock when it was appended, in seconds, and the payload.
pub record Log : Type 0 where
  pub appended_at_unix : ℕ
  pub data_bytes : Bytes

abbrev pub is_expired : ExecInvite → ℕ → Bool
is_expired invite now = not (invite.expires_at_unix == 0) && leb invite.expires_at_unix now

abbrev pub request_command : Option Bytes → Result Bytes
request_command none = err not_request_kind
request_command (some command_id) = ok command_id

module _ (D : Database) where
  open D use {Db}

  abbrev pub settle_outcome : Result (Unit {0}) × Db → ApplyResult × Db
  settle_outcome (ok u, s) = (applied, s)
  settle_outcome (err e, s) = (failed_with e, s)

  -- ApplyResult{Err: …}
  abbrev pub settle : Exec Db (Unit {0}) → Db → ApplyResult × Db
  settle m s = settle_outcome (m s)

  abbrev pub value_outcome : Result Bytes × Db → ApplyResult × Db
  value_outcome (ok v, s) = (record { error = none; value = v }, s)
  value_outcome (err e, s) = (failed_with e, s)

  -- ApplyResult{Value: v} where all went well
  abbrev pub settle_value : Exec Db Bytes → Db → ApplyResult × Db
  settle_value m s = value_outcome (m s)

  unfoldable pub apply_set : Bytes → Bytes → Exec Db (Unit {0})
  apply_set key value = do
    reads (λ s. check_system_list_cap D s key)
    reads (λ s. check_group_name_unique D s key value)
    merged ← reads (λ s. preserve_command_spec D s key value)
    set D key merged

  abbrev pub confirm_writes : Bytes → Bytes → Bytes → Exec Db (Unit {0})
  confirm_writes key confirmed v = do set D confirmed v; del D key

  unfoldable pub apply_confirm : Bytes → Bytes → Exec Db (Unit {0})
  apply_confirm key confirmed = do
    v ← reads (λ s. wrap confirm (Store.get D s key))
    reads (λ s. check_system_list_cap D s confirmed)
    with_tx D (confirm_writes key confirmed v)

  unfoldable pub apply_consume_invite : Bytes → Exec Db Bytes
  apply_consume_invite key = do
    v ← reads (λ s. wrap consume_invite (Store.get D s key))
    del D key
    pure v

  -- An expired invite is deleted, and the entry fails all the same.
  abbrev pub expire_invite : Bytes → Exec Db Bytes
  expire_invite key = do del D key; lift (err token_expired)

  abbrev pub redeem_invite : Bytes → Bytes → Bytes → ExecInvite → Exec Db Bytes
  redeem_invite key peer_id v invite = do
    permitted ←
        reads
          (λ s. wrap consume_exec_invite (is_permitted_for_command D s invite.command_id peer_id))
    guarded permitted not_permitted (do del D key; pure v)

  unfoldable pub apply_consume_exec_invite : ℕ → Bytes → Bytes → Exec Db Bytes
  apply_consume_exec_invite now key peer_id = do
    v ← reads (λ s. wrap consume_exec_invite (Store.get D s key))
    invite ← lift (wrap consume_exec_invite (decode_exec_invite_record v))
    if is_expired invite now then expire_invite key else redeem_invite key peer_id v invite

  abbrev pub add_to_group : Bytes → Bytes → Exec Db (Unit {0})
  add_to_group peer_id group_id = do key ← lift (peer_group_key peer_id group_id); set D key []

  unfoldable pub grant_channel_relay_access : Bytes → Exec Db (Unit {0})
  grant_channel_relay_access peer_id = do
    add_to_group peer_id reserved_group_channel
    add_to_group peer_id reserved_group_relay

  -- The request, and for the default public command the access that comes with it.
  unfoldable pub request_writes : Bytes → Bytes → Bytes → Bytes → Exec Db (Unit {0})
  unfolding grant_channel_relay_access
  request_writes key command_id author record_value = do
    set D key record_value
    if equal command_id default_public_command_id
        then wrap_exec grant_access (grant_channel_relay_access author)
        else pure tt

  unfoldable pub apply_append_command_request : Bytes → Bytes → Exec Db (Unit {0})
  apply_append_command_request key value = do
    (author, record_value) ← lift (wrap append_request (decode_command_request_apply_payload value))
    (kind, unit_id, ts) ← lift (wrap append_request (Logrecord.parse_key key))
    command_id ← lift (request_command (parse_command_request_log_kind kind))
    permitted ← reads (λ s. wrap append_request (is_permitted_for_command D s command_id author))
    guarded permitted not_permitted (do
      reads (λ s. check_system_list_cap D s key)
      with_tx D (request_writes key command_id author record_value))

  abbrev pub write_op : TxnOpSpec → Exec Db (Unit {0})
  write_op o =
      if is_compare o
      then pure tt
      else wrap_exec txn_write (if o.op == txn_op_set then set D o.key o.value else del D o.key)

  unfoldable pub write_ops : List TxnOpSpec → Exec Db (Unit {0})
  write_ops [] = pure tt
  write_ops (o ∷ ops) = do write_op o; write_ops ops

  unfoldable pub apply_ops : List TxnOpSpec → Exec Db (Unit {0})
  apply_ops ops = do lift (check_kinds ops); reads (check_compares D ops); with_tx D (write_ops ops)

  unfoldable pub apply_txn : Bytes → Exec Db (Unit {0})
  unfolding apply_ops
  apply_txn value = do ops ← lift (wrap txn_decode (decode_txn_payload value)); apply_ops ops

  unfoldable pub apply_op : ℕ → OpType → Bytes → Bytes → Db → ApplyResult × Db
  apply_op now op_set key value = settle (apply_set key value)
  apply_op now op_del key value = settle (del D key)
  apply_op now op_confirm key value = settle (apply_confirm key value)
  apply_op now op_cascade_delete key value = settle (with_tx D (apply_cascade_delete D key))
  apply_op now op_consume_invite key value = settle_value (apply_consume_invite key)
  apply_op now op_consume_exec_invite key value =
      settle_value (apply_consume_exec_invite now key value)
  apply_op now op_append_command_request key value = settle (apply_append_command_request key value)
  apply_op now op_txn key value = settle (apply_txn value)
  apply_op now (op_unknown n) key value = settle (lift (err unknown_kind))

  abbrev pub apply_decoded : ℕ → Result Command → Db → ApplyResult × Db
  apply_decoded now (err e) s = (failed_with e, s)
  apply_decoded now (ok c) s = apply_op now (op_type c.op) c.key c.value s

  unfoldable pub apply : Log → Db → ApplyResult × Db
  unfolding apply_op
  apply l s = apply_decoded l.appended_at_unix (decode_command l.data_bytes) s

  -- Restore, and what Persist writes to the sink.
  unfoldable pub restore : Bytes → Exec Db (Unit {0})
  restore rc = load_all D rc

  unfoldable pub persist : Db → Result Bytes
  persist s = Store.dump_all D s
