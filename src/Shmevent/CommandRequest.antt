-- ===== src/Shmevent/CommandRequest.antt =====
-- pkg/shmevent/commandrequest.go: the log kinds of command requests, and their Apply payload.
use libp2p_kv_raft.Base.{
  Option, none, some, [], ◌∷◌, ◌++◌, Bytes, length, if◌then◌else◌, drop, ltb, has_prefix,
}
use libp2p_kv_raft.Outcome.{Result, ok, err, too_short, too_long}
use libp2p_kv_raft.Shmevent.Catalog.{length_prefixed, cut_prefixed}

-- "cmdreq:"
abbrev pub command_request_log_kind_prefix : Bytes
command_request_log_kind_prefix = b'c' ∷ b'm' ∷ b'd' ∷ b'r' ∷ b'e' ∷ b'q' ∷ b':' ∷ []

-- strings.HasPrefix, then strings.TrimPrefix
abbrev pub trim_kind : Bytes → Bytes → Option Bytes
trim_kind prefix kind = if has_prefix kind prefix then some (drop (length prefix) kind) else none

unfoldable pub command_request_log_kind : Bytes → Bytes
command_request_log_kind command_id = command_request_log_kind_prefix ++ command_id

unfoldable pub parse_command_request_log_kind : Bytes → Option Bytes
parse_command_request_log_kind kind = trim_kind command_request_log_kind_prefix kind

-- "cmdexec:"
abbrev pub command_exec_index_kind_prefix : Bytes
command_exec_index_kind_prefix = b'c' ∷ b'm' ∷ b'd' ∷ b'e' ∷ b'x' ∷ b'e' ∷ b'c' ∷ b':' ∷ []

unfoldable pub command_exec_index_kind : Bytes → Bytes
command_exec_index_kind peer_id = command_exec_index_kind_prefix ++ peer_id

unfoldable pub parse_command_exec_index_kind : Bytes → Option Bytes
parse_command_exec_index_kind kind = trim_kind command_exec_index_kind_prefix kind

unfoldable pub encode_command_request_apply_payload : Bytes → Bytes → Result Bytes
encode_command_request_apply_payload author_peer_id record_value =
    if ltb 0xffff (length author_peer_id)
    then err too_long
    else ok (length_prefixed author_peer_id record_value)

unfoldable pub decode_command_request_apply_payload : Bytes → Result (Bytes × Bytes)
decode_command_request_apply_payload (hi ∷ lo ∷ body) = cut_prefixed hi lo body
decode_command_request_apply_payload _ = err too_short
