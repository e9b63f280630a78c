-- ===== src/Shmevent/EventName.antt =====
-- pkg/shmevent/event.go: the names of the events, for people to read and write.
pub mod RoundTrip
use Prim.Native.String.{String}
use libp2p_kv_raft.Base.{ℕ, Option, none, some, List, [], ◌∷◌, if◌then◌else◌}
use libp2p_kv_raft.Shmevent.Text.{same_text}

-- The variants of the union that have a name, and the discriminants of all others.
pub data EventKind : Type 0 where
  set_key set_field get_key get_field_by_registry get_field_by_key get_public_key : EventKind
  get_private_key bootstrap_or_join_cluster add_learner set execute poll_execute list_range :
      EventKind
  log_append leave exec_invite_redeem join_request_create join_request_cancel recruit : EventKind
  get_own_addr channel_open channel_send channel_poll channel_listen channel_close : EventKind
  channel_close_write channel_data_ready kick txn get_version public_access exec_ticket : EventKind
  join_ticket join_request_ticket dial_submit_command dial_query_command_log error group_put :
      EventKind
  group_delete command_put command_delete station_put station_delete group_command_put : EventKind
  group_command_delete peer_group_put peer_group_delete permit_request permit_confirm : EventKind
  permit_revoke join_invite_create join_invite_revoke exec_invite_create exec_invite_revoke :
      EventKind
  other_event : ℕ → EventKind

-- EventName, with `none` for the text "unknown(N)".
unfoldable pub event_name : EventKind → Option String
event_name set_key = some "set_key"
event_name set_field = some "set_field"
event_name get_key = some "get_key"
event_name get_field_by_registry = some "get_field_by_registry"
event_name get_field_by_key = some "get_field_by_key"
event_name get_public_key = some "get_public_key"
event_name get_private_key = some "get_private_key"
event_name bootstrap_or_join_cluster = some "bootstrap_or_join_cluster"
event_name add_learner = some "add_learner"
event_name set = some "set"
event_name execute = some "execute"
event_name poll_execute = some "poll_execute"
event_name list_range = some "list_range"
event_name log_append = some "log_append"
event_name leave = some "leave"
event_name exec_invite_redeem = some "exec_invite_redeem"
event_name join_request_create = some "join_request_create"
event_name join_request_cancel = some "join_request_cancel"
event_name recruit = some "recruit"
event_name get_own_addr = some "get_own_addr"
event_name channel_open = some "channel_open"
event_name channel_send = some "channel_send"
event_name channel_poll = some "channel_poll"
event_name channel_listen = some "channel_listen"
event_name channel_close = some "channel_close"
event_name channel_close_write = some "channel_close_write"
event_name channel_data_ready = some "channel_data_ready"
event_name kick = some "kick"
event_name txn = some "txn"
event_name get_version = some "get_version"
event_name public_access = some "public_access"
event_name exec_ticket = some "exec_ticket"
event_name join_ticket = some "join_ticket"
event_name join_request_ticket = some "join_request_ticket"
event_name dial_submit_command = some "dial_submit_command"
event_name dial_query_command_log = some "dial_query_command_log"
event_name error = some "error"
event_name group_put = some "group_put"
event_name group_delete = some "group_delete"
event_name command_put = some "command_put"
event_name command_delete = some "command_delete"
event_name station_put = some "station_put"
event_name station_delete = some "station_delete"
event_name group_command_put = some "group_command_put"
event_name group_command_delete = some "group_command_delete"
event_name peer_group_put = some "peer_group_put"
event_name peer_group_delete = some "peer_group_delete"
event_name permit_request = some "permit_request"
event_name permit_confirm = some "permit_confirm"
event_name permit_revoke = some "permit_revoke"
event_name join_invite_create = some "join_invite_create"
event_name join_invite_revoke = some "join_invite_revoke"
event_name exec_invite_create = some "exec_invite_create"
event_name exec_invite_revoke = some "exec_invite_revoke"
event_name (other_event n) = none

-- A case of the switch over names.
pub record NameCase : Type 0 where
  pub text : String
  pub event : EventKind

-- The cases of EventFromName, in their order.
abbrev pub name_cases : List NameCase
name_cases =
    record { text = "set_key"; event = set_key }
    ∷ record { text = "set_field"; event = set_field }
    ∷ record { text = "get_key"; event = get_key }
    ∷ record { text = "get_field_by_registry"; event = get_field_by_registry }
    ∷ record { text = "get_field_by_key"; event = get_field_by_key }
    ∷ record { text = "get_public_key"; event = get_public_key }
    ∷ record { text = "get_private_key"; event = get_private_key }
    ∷ record { text = "bootstrap_or_join_cluster"; event = bootstrap_or_join_cluster }
    ∷ record { text = "add_learner"; event = add_learner }
    ∷ record { text = "set"; event = set }
    ∷ record { text = "execute"; event = execute }
    ∷ record { text = "poll_execute"; event = poll_execute }
    ∷ record { text = "list_range"; event = list_range }
    ∷ record { text = "log_append"; event = log_append }
    ∷ record { text = "leave"; event = leave }
    ∷ record { text = "exec_invite_redeem"; event = exec_invite_redeem }
    ∷ record { text = "join_request_create"; event = join_request_create }
    ∷ record { text = "join_request_cancel"; event = join_request_cancel }
    ∷ record { text = "recruit"; event = recruit }
    ∷ record { text = "get_own_addr"; event = get_own_addr }
    ∷ record { text = "channel_open"; event = channel_open }
    ∷ record { text = "channel_send"; event = channel_send }
    ∷ record { text = "channel_poll"; event = channel_poll }
    ∷ record { text = "channel_listen"; event = channel_listen }
    ∷ record { text = "channel_close"; event = channel_close }
    ∷ record { text = "channel_close_write"; event = channel_close_write }
    ∷ record { text = "channel_data_ready"; event = channel_data_ready }
    ∷ record { text = "kick"; event = kick }
    ∷ record { text = "txn"; event = txn }
    ∷ record { text = "get_version"; event = get_version }
    ∷ record { text = "public_access"; event = public_access }
    ∷ record { text = "exec_ticket"; event = exec_ticket }
    ∷ record { text = "join_ticket"; event = join_ticket }
    ∷ record { text = "join_request_ticket"; event = join_request_ticket }
    ∷ record { text = "dial_submit_command"; event = dial_submit_command }
    ∷ record { text = "dial_query_command_log"; event = dial_query_command_log }
    ∷ record { text = "error"; event = error }
    ∷ record { text = "group_put"; event = group_put }
    ∷ record { text = "group_delete"; event = group_delete }
    ∷ record { text = "command_put"; event = command_put }
    ∷ record { text = "command_delete"; event = command_delete }
    ∷ record { text = "station_put"; event = station_put }
    ∷ record { text = "station_delete"; event = station_delete }
    ∷ record { text = "group_command_put"; event = group_command_put }
    ∷ record { text = "group_command_delete"; event = group_command_delete }
    ∷ record { text = "peer_group_put"; event = peer_group_put }
    ∷ record { text = "peer_group_delete"; event = peer_group_delete }
    ∷ record { text = "permit_request"; event = permit_request }
    ∷ record { text = "permit_confirm"; event = permit_confirm }
    ∷ record { text = "permit_revoke"; event = permit_revoke }
    ∷ record { text = "join_invite_create"; event = join_invite_create }
    ∷ record { text = "join_invite_revoke"; event = join_invite_revoke }
    ∷ record { text = "exec_invite_create"; event = exec_invite_create }
    ∷ record { text = "exec_invite_revoke"; event = exec_invite_revoke }
    ∷ []

-- A switch takes the first case that matches.
unfoldable pub first_case : String → List NameCase → Option EventKind
first_case name [] = none
first_case name (c ∷ cases) = if same_text name c.text then some c.event else first_case name cases

unfoldable pub event_from_name : String → Option EventKind
unfolding first_case
event_from_name name = first_case name name_cases

-- Reading a name, if there is one.
abbrev pub read_name : Option String → Option EventKind
read_name none = none
read_name (some name) = event_from_name name
