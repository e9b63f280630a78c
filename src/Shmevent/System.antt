-- ===== src/Shmevent/System.antt =====
-- pkg/shmevent/system.go: the kinds of system records, and their keys.
use Prim.Native.String.{String}
use libp2p_kv_raft.Base.{
  ℕ, ◌+◌, Option, none, some, [], ◌∷◌, ◌++◌, Bytes, length, ◌==◌, if◌then◌else◌, replicate, take,
  get_or,
}
use libp2p_kv_raft.Shmevent.Text.{same_text}
use libp2p_kv_raft.Outcome.{Result, ok, err, wrong_kind}

abbrev pub system_key_prefix : ℕ
system_key_prefix = 0x00

abbrev pub kind_bootstrap_node : ℕ
kind_bootstrap_node = 0x02

abbrev pub kind_cluster_member : ℕ
kind_cluster_member = 0x03

abbrev pub kind_cluster_join : ℕ
kind_cluster_join = 0x05

abbrev pub kind_group : ℕ
kind_group = 0x06

abbrev pub kind_command : ℕ
kind_command = 0x07

abbrev pub kind_group_command : ℕ
kind_group_command = 0x08

abbrev pub kind_peer_group : ℕ
kind_peer_group = 0x09

abbrev pub kind_join_invite : ℕ
kind_join_invite = 0x0a

abbrev pub kind_exec_invite : ℕ
kind_exec_invite = 0x0b

abbrev pub kind_station : ℕ
kind_station = 0x0c

-- KindName, with `none` for the text "unknown(N)".
unfoldable pub kind_name : ℕ → Option String
kind_name k =
    if k == kind_bootstrap_node
    then some "bootstrap"
    else if k == kind_cluster_member
    then some "cluster-member"
    else if k == kind_cluster_join
    then some "cluster-join"
    else if k == kind_group
    then some "group"
    else if k == kind_command
    then some "command"
    else if k == kind_group_command
    then some "group-command"
    else if k == kind_peer_group
    then some "peer-group"
    else if k == kind_join_invite
    then some "join-invite"
    else if k == kind_exec_invite
    then some "exec-invite"
    else if k == kind_station
    then some "station"
    else none

-- KindFromName, the cases of its switch in their order.
unfoldable pub kind_from_name : String → Option ℕ
kind_from_name name =
    if same_text name "bootstrap"
    then some kind_bootstrap_node
    else if same_text name "cluster-member"
    then some kind_cluster_member
    else if same_text name "cluster-join"
    then some kind_cluster_join
    else if same_text name "group"
    then some kind_group
    else if same_text name "command"
    then some kind_command
    else if same_text name "group-command"
    then some kind_group_command
    else if same_text name "peer-group"
    then some kind_peer_group
    else if same_text name "station"
    then some kind_station
    else if same_text name "join-invite"
    then some kind_join_invite
    else if same_text name "exec-invite"
    then some kind_exec_invite
    else none

abbrev pub role_voter : ℕ
role_voter = 0x01

abbrev pub role_learner : ℕ
role_learner = 0x02

abbrev pub role_leader : ℕ
role_leader = 0x03

abbrev pub status_pending : ℕ
status_pending = 0x01

abbrev pub status_confirmed : ℕ
status_confirmed = 0x02

-- SystemKeyPrefix, kind, status, then the id.
abbrev pub system_key : ℕ → ℕ → Bytes → Bytes
system_key kind status peer_id = system_key_prefix ∷ kind ∷ status ∷ peer_id

abbrev pub cluster_member_status_placeholder : ℕ
cluster_member_status_placeholder = 0x00

unfoldable pub cluster_member_key : Bytes → Bytes
cluster_member_key peer_id =
    system_key kind_cluster_member cluster_member_status_placeholder peer_id

-- The prefix, and the prefix with 64 bytes 0xFF behind it.
abbrev pub padded_bounds : Bytes → Bytes × Bytes
padded_bounds prefix = (prefix, prefix ++ replicate 64 0xff)

unfoldable pub cluster_member_key_bounds : Bytes × Bytes
cluster_member_key_bounds =
    padded_bounds (system_key kind_cluster_member cluster_member_status_placeholder [])

abbrev pub public_key_size : ℕ
public_key_size = 32

unfoldable pub encode_cluster_member_payload : Bytes → ℕ → Bytes
encode_cluster_member_payload pub_key role = pub_key ++ role ∷ []

unfoldable pub decode_cluster_member_payload : Bytes → Result (Bytes × ℕ)
decode_cluster_member_payload payload =
    if length payload == public_key_size + 1
    then ok (take public_key_size payload, get_or payload public_key_size 0)
    else err wrong_kind
