-- ===== src/Shmevent/Invite/RoundTrip.antt =====
-- pkg/shmevent/execinvite.go: an exec invite's record, written and read back.
use libp2p_kv_raft.Base.{
  ◌^◌, ◌≡◌, refl, ◌∷◌, ◌++◌, length, arith, ◌<◌, put_uint16, get_uint16_lem, put_uint64, put_uint32,
  get_uint64_lem,
}
use libp2p_kv_raft.Outcome.{ok}
use libp2p_kv_raft.Shmevent.Invite
use libp2p_kv_raft.Shmevent.Invite.{
  ExecInvite, encode_exec_invite_record, decode_exec_invite_record,
}
use libp2p_kv_raft.Shmevent.Catalog.{length_prefixed}
use libp2p_kv_raft.Shmevent.Framing.{cut_prefixed_lem}

untimed :
    (i : ExecInvite)
    → length i.command_id < 0xffff
    → decode_exec_invite_record (length_prefixed i.command_id i.inputs_json)
      ≡ ok (Invite.exec_invite_of 0 (i.command_id, i.inputs_json))
unfolding decode_exec_invite_record put_uint16
untimed i h =
    rw (cut_prefixed_lem i.command_id i.inputs_json (omega arith))
      (ground (arith, get_uint16_lem (length i.command_id)))

timed :
    (i : ExecInvite)
    → length i.command_id < 2 ^ 16
    → i.expires_at_unix < 2 ^ 64
    → decode_exec_invite_record
        (0xff ∷ 0xff ∷ (put_uint64 i.expires_at_unix ++ length_prefixed i.command_id i.inputs_json))
      ≡ ok (Invite.exec_invite_of i.expires_at_unix (i.command_id, i.inputs_json))
unfolding decode_exec_invite_record put_uint16 put_uint32 put_uint64
timed i h he =
    rw (get_uint64_lem i.expires_at_unix he, cut_prefixed_lem i.command_id i.inputs_json h) refl

-- An exec invite whose command id is shorter than 0xFFFF bytes and whose expiry fits in 64 bits is
-- read back from its record, with its expiry or without one.
pub decode_exec_invite-encode_exec_invite :
    (i : ExecInvite)
    → length i.command_id < 0xffff
    → i.expires_at_unix < 2 ^ 64
    → decode_exec_invite_record (encode_exec_invite_record i) ≡ ok i
unfolding encode_exec_invite_record
decode_exec_invite-encode_exec_invite i h he = ground (arith, untimed i h, timed i)
