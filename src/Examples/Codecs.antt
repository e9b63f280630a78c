-- ===== src/Examples/Codecs.antt =====
-- The codecs and the key ranges on small inputs, at which their theorems are applied.
use libp2p_kv_raft.Base.{
  ℕ, none, ◌⊎◌, ℕ, ◌≡◌, refl, true, some, List, [], ◌∷◌, arith, Bytes, length, if◌then◌else◌, equal,
  ◌||◌, ◌&&◌, not, ◌==◌, has_prefix, leb, ltb, replicate, put_uint16, put_uint32, put_uint64,
}
use libp2p_kv_raft.Outcome.{ok, err, too_long, ◌>>=◌}
use libp2p_kv_raft.Store.Rows.{in_half_open, in_closed}
use libp2p_kv_raft.Store.Prefix.{prefix_upper_bound, prefix_range}
use libp2p_kv_raft.Shmevent.Txn.{TxnOpSpec, encode_txn_payload, decode_txn_payload}
use libp2p_kv_raft.Shmevent.Txn.RoundTrip.{decode_txn_payload-encode_txn_payload}
use libp2p_kv_raft.Shmevent.Catalog.{
  group_command_key, parse_group_command_key, peer_group_key, parse_peer_group_key,
  encode_station_payload, decode_station_payload,
}
use libp2p_kv_raft.Shmevent.CommandPayload.{
  encode_command_payload_with_spec, decode_command_payload_full,
  encode_command_payload_clearing_spec, decode_command_payload_spec,
}
use libp2p_kv_raft.Shmevent.CommandRequest.{
  encode_command_request_apply_payload, decode_command_request_apply_payload,
}
use libp2p_kv_raft.Shmevent.Invite.{
  ExecInvite, encode_exec_invite_record, decode_exec_invite_record,
}
use libp2p_kv_raft.Shmevent.Invite.RoundTrip.{decode_exec_invite-encode_exec_invite}
use libp2p_kv_raft.Shmevent.RoundTrip.{
  decode_station_payload-encode_station_payload, parse_group_command_key-group_command_key,
  parse_peer_group_key-peer_group_key, decode_command_request-encode_command_request,
  decode_command_payload-encode_command_payload, decode_spec-encode_clearing_spec,
}
use libp2p_kv_raft.Shmevent.ChannelFrame.{
  encode_channel_frame, decode_channel_frame, decode_channel_frame-encode_channel_frame,
}
use libp2p_kv_raft.Shmevent.EventName.{other_event, get_key, event_name, read_name}
use libp2p_kv_raft.Shmevent.EventName.RoundTrip.{event_from_name-event_name}
use libp2p_kv_raft.Logrecord.{pos, negsuc, build_key, parse_key, scan_bounds}
use libp2p_kv_raft.Logrecord.Parse.{parse_key-build_key}
use libp2p_kv_raft.Logrecord.Bounds.{scan_bounds-build_key}
use libp2p_kv_raft.Kvfsm.Encoding.{encode_command, decode_command}
use libp2p_kv_raft.Kvfsm.Encoding.RoundTrip.{decode_command-encode_command}

prefix_range_example :
    in_half_open (7 ∷ 255 ∷ []) (prefix_upper_bound (7 ∷ 255 ∷ [])) (7 ∷ 255 ∷ 3 ∷ [])
    ≡ has_prefix (7 ∷ 255 ∷ 3 ∷ []) (7 ∷ 255 ∷ [])
prefix_range_example =
    prefix_range (7 ∷ 255 ∷ []) (7 ∷ 255 ∷ 3 ∷ []) (omega arith, (omega arith, (omega arith, tt)))

abbrev rnd : Bytes
rnd = 1 ∷ 2 ∷ 3 ∷ 4 ∷ 5 ∷ 6 ∷ 7 ∷ 8 ∷ []

-- The key of a record of kind 65 and unit 66 at time 20.
abbrev log_key : Bytes
log_key = 1 ∷ 0 ∷ 1 ∷ 65 ∷ 0 ∷ 1 ∷ 66 ∷ 0 ∷ 0 ∷ 0 ∷ 0 ∷ 0 ∷ 0 ∷ 0 ∷ 20 ∷ rnd

log_key_built : build_key (65 ∷ []) (66 ∷ []) (pos 20) rnd ≡ ok log_key
unfolding build_key put_uint16 put_uint32 put_uint64
log_key_built = refl

scan_bounds-build_key_example :
    in_closed
      (scan_bounds (65 ∷ []) (66 ∷ []) (pos 10) (pos 30)).0
      (scan_bounds (65 ∷ []) (66 ∷ []) (pos 10) (pos 30)).1
      log_key
    ≡ (equal (65 ∷ []) (65 ∷ []) && (equal (66 ∷ []) (66 ∷ []) && (leb 10 20 && leb 20 30)))
scan_bounds-build_key_example =
    scan_bounds-build_key (65 ∷ []) (66 ∷ []) (65 ∷ []) (66 ∷ []) 10 30 20 rnd log_key (omega arith)
      (omega arith) (omega arith) (omega arith) (omega arith)
      (
        omega arith,
        (
          omega arith,
          (
            omega arith,
            (omega arith, (omega arith, (omega arith, (omega arith, (omega arith, tt))))),
          ),
        ),
      )
      refl log_key_built

parse_key-build_key_example : (build_key (65 ∷ []) (66 ∷ []) (negsuc 3) rnd >>= parse_key) ≡ (
    if leb (length {A = ℕ} (65 ∷ [])) 0xffff && leb (length {A = ℕ} (66 ∷ [])) 0xffff
    then ok (65 ∷ [], 66 ∷ [], negsuc 3)
    else err too_long)
parse_key-build_key_example = parse_key-build_key (65 ∷ []) (66 ∷ []) (negsuc 3) rnd (omega arith)

decode_command-encode_command_example :
    decode_command (encode_command (record { op = 1; key = 107 ∷ []; value = 1 ∷ 2 ∷ [] }))
    ≡ ok (record { op = 1; key = 107 ∷ []; value = 1 ∷ 2 ∷ [] })
decode_command-encode_command_example =
    decode_command-encode_command (record { op = 1; key = 107 ∷ []; value = 1 ∷ 2 ∷ [] })
      (omega arith)

abbrev one_op : List TxnOpSpec
one_op = record { op = 2; key = 107 ∷ []; value = [] } ∷ []

one_op_encoded : encode_txn_payload one_op ≡ ok (0 ∷ 1 ∷ 2 ∷ 0 ∷ 1 ∷ 107 ∷ 0 ∷ 0 ∷ [])
unfolding encode_txn_payload put_uint16
one_op_encoded = refl

decode_txn_payload-encode_txn_payload_example :
    decode_txn_payload (0 ∷ 1 ∷ 2 ∷ 0 ∷ 1 ∷ 107 ∷ 0 ∷ 0 ∷ []) ≡ ok one_op
decode_txn_payload-encode_txn_payload_example =
    decode_txn_payload-encode_txn_payload one_op (0 ∷ 1 ∷ 2 ∷ 0 ∷ 1 ∷ 107 ∷ 0 ∷ 0 ∷ [])
      one_op_encoded

decode_command_payload-encode_command_payload_example :
    (encode_command_payload_with_spec (110 ∷ []) (3 ∷ []) (123 ∷ [])
      >>= decode_command_payload_full)
    ≡ (if leb 0xffff (length {A = ℕ} (110 ∷ []))
          || (not (length {A = ℕ} (123 ∷ []) == 0) && ltb 0xffff (length {A = ℕ} (3 ∷ [])))
        then err too_long
        else ok (110 ∷ [], 3 ∷ [], 123 ∷ []))
decode_command_payload-encode_command_payload_example =
    decode_command_payload-encode_command_payload (110 ∷ []) (3 ∷ []) (123 ∷ [])

decode_spec-encode_clearing_spec_example :
    (encode_command_payload_clearing_spec (110 ∷ []) (3 ∷ []) >>= decode_command_payload_spec) ≡ (
      if leb 0xffff (length {A = ℕ} (110 ∷ [])) || ltb 0xffff (length {A = ℕ} (3 ∷ []))
      then err too_long
      else ok ([], true))
decode_spec-encode_clearing_spec_example = decode_spec-encode_clearing_spec (110 ∷ []) (3 ∷ [])

abbrev timed_invite : ExecInvite
timed_invite = record { command_id = 2 ∷ []; inputs_json = 123 ∷ 125 ∷ []; expires_at_unix = 1000 }

decode_exec_invite-encode_exec_invite_example :
    decode_exec_invite_record (encode_exec_invite_record timed_invite) ≡ ok timed_invite
decode_exec_invite-encode_exec_invite_example =
    decode_exec_invite-encode_exec_invite timed_invite (omega arith) (omega arith)

parse_group_command_key-group_command_key_example :
    (group_command_key (2 ∷ []) (1 ∷ []) >>= parse_group_command_key)
    ≡ (if ltb 0xffff (length {A = ℕ} (2 ∷ [])) then err too_long else ok (2 ∷ [], 1 ∷ []))
parse_group_command_key-group_command_key_example =
    parse_group_command_key-group_command_key (2 ∷ []) (1 ∷ [])

parse_peer_group_key-peer_group_key_example :
    (peer_group_key (3 ∷ []) (1 ∷ []) >>= parse_peer_group_key)
    ≡ (if ltb 0xffff (length {A = ℕ} (3 ∷ [])) then err too_long else ok (3 ∷ [], 1 ∷ []))
parse_peer_group_key-peer_group_key_example = parse_peer_group_key-peer_group_key (3 ∷ []) (1 ∷ [])

decode_station_payload-encode_station_payload_example :
    (encode_station_payload (110 ∷ []) (123 ∷ 125 ∷ []) >>= decode_station_payload) ≡ (
      if ltb 0xffff (length {A = ℕ} (110 ∷ []))
      then err too_long
      else ok (110 ∷ [], 123 ∷ 125 ∷ []))
decode_station_payload-encode_station_payload_example =
    decode_station_payload-encode_station_payload (110 ∷ []) (123 ∷ 125 ∷ [])

decode_command_request-encode_command_request_example :
    (encode_command_request_apply_payload (3 ∷ []) (123 ∷ [])
      >>= decode_command_request_apply_payload)
    ≡ (if ltb 0xffff (length {A = ℕ} (3 ∷ [])) then err too_long else ok (3 ∷ [], 123 ∷ []))
decode_command_request-encode_command_request_example =
    decode_command_request-encode_command_request (3 ∷ []) (123 ∷ [])

decode_channel_frame-encode_channel_frame_example :
    decode_channel_frame (encode_channel_frame 1 99 (replicate 64 5) (7 ∷ []))
    ≡ ok (1, 99, replicate 64 5, 7 ∷ [])
decode_channel_frame-encode_channel_frame_example =
    decode_channel_frame-encode_channel_frame 1 99 (replicate 64 5) (7 ∷ []) (omega arith) refl

event_from_name-event_name_example :
    ((n : ℕ) × (get_key ≡ other_event n) × (event_name get_key ≡ none))
    ⊎ (read_name (event_name get_key) ≡ some get_key)
event_from_name-event_name_example = event_from_name-event_name get_key
