-- ===== src/Shmevent/Catalog.antt =====
-- pkg/shmevent/catalog.go: the keys and payloads of the group catalog.
use libp2p_kv_raft.Base.{
  ℕ, Bool, ◌&&◌, ◌||◌, [], ◌∷◌, ◌++◌, Bytes, length, ◌==◌, if◌then◌else◌, take, drop, ltb,
  put_uint16, get_uint16, equal,
}
use libp2p_kv_raft.Outcome.{Result, ok, err, ◌>>=◌, wrong_kind, too_short, too_long, truncated}
use libp2p_kv_raft.Shmevent.System.{
  system_key_prefix, kind_group, kind_command, kind_group_command, kind_peer_group, kind_station,
  system_key, padded_bounds,
}

abbrev pub catalog_status_placeholder : ℕ
catalog_status_placeholder = 0x00

abbrev pub group_key : Bytes → Bytes
group_key id = system_key kind_group catalog_status_placeholder id

abbrev pub command_key : Bytes → Bytes
command_key id = system_key kind_command catalog_status_placeholder id

abbrev pub station_key : Bytes → Bytes
station_key peer_id = system_key kind_station catalog_status_placeholder peer_id

unfoldable pub key_list_bounds : ℕ → Bytes × Bytes
key_list_bounds kind = padded_bounds (system_key kind catalog_status_placeholder [])

abbrev pub group_key_bounds : Bytes × Bytes
group_key_bounds = key_list_bounds kind_group

abbrev pub command_key_bounds : Bytes × Bytes
command_key_bounds = key_list_bounds kind_command

abbrev pub station_key_bounds : Bytes × Bytes
station_key_bounds = key_list_bounds kind_station

-- A two-byte length, the bytes that it counts, and the rest: the shape of three payloads.
abbrev pub length_prefixed : Bytes → Bytes → Bytes
length_prefixed first rest = put_uint16 (length first) ++ (first ++ rest)

-- Its inverse, on what follows the two bytes.
abbrev pub cut_prefixed : ℕ → ℕ → Bytes → Result (Bytes × Bytes)
cut_prefixed hi lo body =
    let n = get_uint16 hi lo in
    if ltb (length body) n then err truncated else ok (take n body, drop n body)

unfoldable pub encode_station_payload : Bytes → Bytes → Result Bytes
encode_station_payload name attrs =
    if ltb 0xffff (length name) then err too_long else ok (length_prefixed name attrs)

unfoldable pub decode_station_payload : Bytes → Result (Bytes × Bytes)
decode_station_payload (hi ∷ lo ∷ body) = cut_prefixed hi lo body
decode_station_payload _ = err too_short

unfoldable pub group_command_key : Bytes → Bytes → Result Bytes
group_command_key command_id group_id =
    if ltb 0xffff (length command_id)
    then err too_long
    else ok (
        system_key kind_group_command catalog_status_placeholder
          (length_prefixed command_id group_id))

unfoldable pub peer_group_key : Bytes → Bytes → Result Bytes
peer_group_key peer_id group_id =
    if ltb 0xffff (length peer_id)
    then err too_long
    else ok
        (system_key kind_peer_group catalog_status_placeholder (length_prefixed peer_id group_id))

unfoldable pub group_command_bounds : Bytes → Result (Bytes × Bytes)
unfolding group_command_key
group_command_bounds command_id = do
  prefix ← group_command_key command_id []
  ok (padded_bounds prefix)

unfoldable pub peer_group_bounds : Bytes → Result (Bytes × Bytes)
unfolding peer_group_key
peer_group_bounds peer_id = do prefix ← peer_group_key peer_id []; ok (padded_bounds prefix)

unfoldable pub parse_group_command_key : Bytes → Result (Bytes × Bytes)
parse_group_command_key (p ∷ k ∷ s ∷ hi ∷ lo ∷ body) =
    if p == system_key_prefix && k == kind_group_command
    then cut_prefixed hi lo body
    else err wrong_kind
parse_group_command_key _ = err wrong_kind

unfoldable pub parse_peer_group_key : Bytes → Result (Bytes × Bytes)
parse_peer_group_key (p ∷ k ∷ s ∷ hi ∷ lo ∷ body) =
    if p == system_key_prefix && k == kind_peer_group
    then cut_prefixed hi lo body
    else err wrong_kind
parse_peer_group_key _ = err wrong_kind

abbrev pub all_group_commands_prefix : Bytes
all_group_commands_prefix = system_key kind_group_command catalog_status_placeholder []

abbrev pub all_peer_groups_prefix : Bytes
all_peer_groups_prefix = system_key kind_peer_group catalog_status_placeholder []

abbrev pub group_private_byte : ℕ
group_private_byte = 0x00

abbrev pub group_public_byte : ℕ
group_public_byte = 0x01

unfoldable pub encode_group_payload : Bytes → Bool → Bytes
encode_group_payload name public = (if public then group_public_byte else group_private_byte) ∷ name

unfoldable pub decode_group_payload : Bytes → Result (Bytes × Bool)
decode_group_payload [] = err too_short
decode_group_payload (flag ∷ name) = ok (name, flag == group_public_byte)

abbrev pub reserved_group_cluster : Bytes
reserved_group_cluster = b'c' ∷ b'l' ∷ b'u' ∷ b's' ∷ b't' ∷ b'e' ∷ b'r' ∷ []

abbrev pub reserved_group_voter : Bytes
reserved_group_voter = b'v' ∷ b'o' ∷ b't' ∷ b'e' ∷ b'r' ∷ []

abbrev pub reserved_group_learner : Bytes
reserved_group_learner = b'l' ∷ b'e' ∷ b'a' ∷ b'r' ∷ b'n' ∷ b'e' ∷ b'r' ∷ []

abbrev pub reserved_group_channel : Bytes
reserved_group_channel = b'c' ∷ b'h' ∷ b'a' ∷ b'n' ∷ b'n' ∷ b'e' ∷ b'l' ∷ []

abbrev pub reserved_group_relay : Bytes
reserved_group_relay = b'r' ∷ b'e' ∷ b'l' ∷ b'a' ∷ b'y' ∷ []

abbrev pub reserved_group_remote : Bytes
reserved_group_remote = b'r' ∷ b'e' ∷ b'm' ∷ b'o' ∷ b't' ∷ b'e' ∷ []

abbrev pub reserved_group_execute : Bytes
reserved_group_execute = b'e' ∷ b'x' ∷ b'e' ∷ b'c' ∷ b'u' ∷ b't' ∷ b'e' ∷ []

unfoldable pub is_reserved_group_id : Bytes → Bool
is_reserved_group_id id =
    equal id reserved_group_cluster
    || (equal id reserved_group_voter
        || (equal id reserved_group_learner
            || (equal id reserved_group_channel
                || (equal id reserved_group_relay
                    || (equal id reserved_group_remote || equal id reserved_group_execute)))))

unfoldable pub is_auto_managed_group_id : Bytes → Bool
is_auto_managed_group_id id =
    equal id reserved_group_cluster
    || (equal id reserved_group_voter || equal id reserved_group_learner)

-- "public-access"
abbrev pub default_public_command_id : Bytes
default_public_command_id =
    b'p' ∷ b'u' ∷ b'b' ∷ b'l' ∷ b'i' ∷ b'c' ∷ b'-' ∷ b'a' ∷ b'c' ∷ b'c' ∷ b'e' ∷ b's' ∷ b's' ∷ []
