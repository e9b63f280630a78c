-- ===== src/Kvfsm/Apply/Requests.antt =====
-- pkg/kvfsm/fsm.go, OpAppendCommandRequest: what is checked and what is written.
use libp2p_kv_raft.Base.{
  ◌≡◌, refl, ap, ◌∙◌, Bool, true, false, Option, none, some, [], arith, Bytes, if◌then◌else◌, equal,
}
use libp2p_kv_raft.Outcome.{
  wrap-eq-ok, Error, Result, ok, err, wrap, append_request, grant_access, not_permitted,
}
use libp2p_kv_raft.Exec.{Exec, guarded, continue, read-eq-ok}
use libp2p_kv_raft.Store.Rows.{Table, put}
use libp2p_kv_raft.Store.Writes.{set}
use libp2p_kv_raft.Store.Effects.{
  Effect, Effect-pure, Effect-set, Effect-if, Effect-seq, Effect-wrap, Effect-with_tx,
}
use libp2p_kv_raft.Store.Sqlite.{Database}
use libp2p_kv_raft.Logrecord.{ℤ, parse_key}
use libp2p_kv_raft.Shmevent.Catalog.{
  peer_group_key, default_public_command_id, reserved_group_channel, reserved_group_relay,
}
use libp2p_kv_raft.Shmevent.CommandRequest.{
  decode_command_request_apply_payload, parse_command_request_log_kind,
}
use libp2p_kv_raft.Kvfsm.Acl.{check_system_list_cap, is_permitted_for_command}
use libp2p_kv_raft.Kvfsm.Acl.Access.{member_key}
use libp2p_kv_raft.Kvfsm.Apply

-- The rows with a request in them, and with the author's memberships for the default command.
abbrev pub request_rows : Bytes → Bytes → Bytes → Bytes → Table → Table
request_rows key command_id author value t =
    if equal command_id default_public_command_id
    then put (member_key author reserved_group_relay) []
        (put (member_key author reserved_group_channel) [] (put key value t))
    else put key value t

request_command_ok : (o : Option Bytes) (c : Bytes) → Apply.request_command o ≡ ok c → o ≡ some c
request_command_ok none c h = absurd (ground arith)
request_command_ok (some d) c h = ground arith

module _ (D : Database) where
  open D use {Db, rows}

  Effect-add_to_group :
      (peer_id group_id : Bytes)
      → Effect D (Apply.add_to_group D peer_id group_id) (put (member_key peer_id group_id) [])
  unfolding peer_group_key
  Effect-add_to_group peer_id group_id = record {
    rows_after = λ s s' h. go s s' (peer_group_key peer_id group_id) refl h;
  }
    where
      go :
          (s s' : Db) (r : Result Bytes)
          → peer_group_key peer_id group_id ≡ r
          → continue (r, s) (λ key. set D key []) ≡ (ok tt, s')
          → rows s' ≡ put (member_key peer_id group_id) [] (rows s)
      go s s' (ok key) e h =
          (Effect-set D key []).rows_after s s' h
          ∙ ap (λ (k : Bytes). put k [] (rows s)) (ground (arith, e))
      go s s' (err x) e h = absurd (ground arith)

  Effect-request_writes :
      (key command_id author value : Bytes)
      → Effect D
          (Apply.request_writes D key command_id author value)
          (request_rows key command_id author value)
  unfolding Apply.request_writes Apply.grant_channel_relay_access
  Effect-request_writes key command_id author value = Effect-seq D (Effect-set D key value) (
      Effect-if D (equal command_id default_public_command_id)
        (Effect-wrap D grant_access (
          Effect-seq D (Effect-add_to_group author reserved_group_channel)
            (Effect-add_to_group author reserved_group_relay)))
        (Effect-pure D))

  -- What was seen and done where a request was appended.
  abbrev pub IsAllowedAppend : Bytes → Bytes → Db → Db → Type 0
  IsAllowedAppend key value s s' =
      (author : Bytes) × (record_value : Bytes) × (kind : Bytes) × (unit_id : Bytes) × (ts : ℤ)
      × (command_id : Bytes) × (decode_command_request_apply_payload value
          ≡ ok (author, record_value))
      × (parse_key key ≡ ok (kind, unit_id, ts))
      × (parse_command_request_log_kind kind ≡ some command_id)
      × (is_permitted_for_command D s command_id author ≡ ok true)
      × (check_system_list_cap D s key ≡ ok tt)
      × (rows s' ≡ request_rows key command_id author record_value (rows s))

  guarded_ok :
      (b : Bool) (e : Error) (m : Exec Db (Unit {0})) (s s' : Db)
      → guarded b e m s ≡ (ok tt, s')
      → (b ≡ true) × (m s ≡ (ok tt, s'))
  guarded_ok true e m s s' h = (refl, h)
  guarded_ok false e m s s' h = (absurd (ground arith), absurd (ground arith))

  -- A command request that is appended, on any database, is that of an author who may execute the
  -- command that the key names; the rows are those before with the request and, for the default
  -- public command alone, the author's memberships of the channel and relay groups.
  pub appended_request :
      (key value : Bytes) (s s' : Db)
      → Apply.apply_append_command_request D key value s ≡ (ok tt, s')
      → IsAllowedAppend key value s s'
  unfolding Apply.apply_append_command_request
  appended_request key value s s' h =
      let ((author, record_value), p1, h1) =
        read-eq-ok (wrap append_request (decode_command_request_apply_payload value)) s _ h in
      let ((kind, unit_id, ts), p2, h2) = read-eq-ok (wrap append_request (parse_key key)) s _ h1 in
      let (command_id, p3, h3) =
        read-eq-ok (Apply.request_command (parse_command_request_log_kind kind)) s _ h2 in
      let (permitted, p4, h4) =
        read-eq-ok (wrap append_request (is_permitted_for_command D s command_id author)) s _ h3 in
      let (p5, h5) = guarded_ok permitted not_permitted _ s s' h4 in
      let (u, p6, h6) = read-eq-ok (check_system_list_cap D s key) s _ h5 in
      (
        author,
        record_value,
        kind,
        unit_id,
        ts,
        command_id,
        wrap-eq-ok _ _ _ p1,
        wrap-eq-ok _ _ _ p2,
        request_command_ok _ _ p3,
        wrap-eq-ok _ _ _ p4 ∙ ap (λ (b : Bool). ok b) p5,
        p6,
        (Effect-with_tx D (Effect-request_writes key command_id author record_value)).rows_after s
            s' h6,
      )
