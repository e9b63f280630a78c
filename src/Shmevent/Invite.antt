-- ===== src/Shmevent/Invite.antt =====
-- pkg/shmevent/joininvite.go and execinvite.go: the records of one-time invites.
pub mod RoundTrip
use libp2p_kv_raft.Base.{
  ℕ, zero, suc, ◌+◌, ◌≡◌, refl, Bool, true, false, Option, none, some, List, [], ◌∷◌, ◌++◌, Bytes,
  IsBytes, length, ◌==◌, if◌then◌else◌, take, drop, arith, ◌<◌, ltb, leb, put_uint16, get_uint16,
  put_uint64, get_uint64,
}
use libp2p_kv_raft.Outcome.{Error, Result, ok, err, ◌>>=◌, too_short, wrong_kind, truncated}
use libp2p_kv_raft.Shmevent.System.{system_key, kind_join_invite, kind_exec_invite}
use libp2p_kv_raft.Shmevent.Catalog.{length_prefixed, cut_prefixed}

abbrev pub join_invite_status_placeholder : ℕ
join_invite_status_placeholder = 0x00

abbrev pub join_invite_key : Bytes → Bytes
join_invite_key token = system_key kind_join_invite join_invite_status_placeholder token

unfoldable pub encode_join_invite_record : ℕ → Bytes
encode_join_invite_record suffrage = suffrage ∷ []

unfoldable pub decode_join_invite_record : Bytes → Result ℕ
decode_join_invite_record (suffrage ∷ []) = ok suffrage
decode_join_invite_record _ = err wrong_kind

abbrev pub exec_invite_status_placeholder : ℕ
exec_invite_status_placeholder = 0x00

abbrev pub exec_invite_key : Bytes → Bytes
exec_invite_key token = system_key kind_exec_invite exec_invite_status_placeholder token

abbrev pub exec_invite_record_v2_marker : ℕ
exec_invite_record_v2_marker = 0xffff

pub record ExecInvite : Type 0 where
  pub command_id : Bytes
  pub inputs_json : Bytes
  pub expires_at_unix : ℕ

-- Lengths are cut to two bytes as they stand: there is no check.
unfoldable pub encode_exec_invite_record : ExecInvite → Bytes
encode_exec_invite_record i =
    if i.expires_at_unix == 0
    then length_prefixed i.command_id i.inputs_json
    else 0xff ∷ 0xff ∷ (put_uint64 i.expires_at_unix ++ length_prefixed i.command_id i.inputs_json)

abbrev pub exec_invite_of : ℕ → Bytes × Bytes → ExecInvite
exec_invite_of expires (command_id, inputs) = record {
  command_id = command_id;
  inputs_json = inputs;
  expires_at_unix = expires;
}

-- Behind the marker: eight bytes of expiry, then the command id behind its length.
abbrev decode_timed : Bytes → Result ExecInvite
decode_timed (a ∷ b ∷ c ∷ d ∷ e ∷ f ∷ g ∷ h ∷ hi ∷ lo ∷ body) = do
  parts ← cut_prefixed hi lo body
  ok (exec_invite_of (get_uint64 a b c d e f g h) parts)
decode_timed _ = err too_short

unfoldable pub decode_exec_invite_record : Bytes → Result ExecInvite
decode_exec_invite_record (hi ∷ lo ∷ body) =
    if get_uint16 hi lo == exec_invite_record_v2_marker
    then decode_timed body
    else (do parts ← cut_prefixed hi lo body; ok (exec_invite_of 0 parts))
decode_exec_invite_record _ = err too_short
