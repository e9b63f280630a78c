-- ===== src/Shmevent/EventName/RoundTrip.antt =====
-- pkg/shmevent/event.go: the name of an event, written and read.
use libp2p_kv_raft.Base.{ℕ, ◌≡◌, refl, none, some, ◌⊎◌, inl, inr}
use libp2p_kv_raft.Shmevent.EventName.{
  EventKind, other_event, event_name, event_from_name, read_name, set_key, set_field, get_key,
  get_field_by_registry, get_field_by_key, get_public_key, get_private_key,
  bootstrap_or_join_cluster, add_learner, set, execute, poll_execute, list_range, log_append, leave,
  exec_invite_redeem, join_request_create, join_request_cancel, recruit, get_own_addr, channel_open,
  channel_send, channel_poll, channel_listen, channel_close, channel_close_write,
  channel_data_ready, kick, txn, get_version, public_access, exec_ticket, join_ticket,
  join_request_ticket, dial_submit_command, dial_query_command_log, error, group_put, group_delete,
  command_put, command_delete, station_put, station_delete, group_command_put, group_command_delete,
  peer_group_put, peer_group_delete, permit_request, permit_confirm, permit_revoke,
  join_invite_create, join_invite_revoke, exec_invite_create, exec_invite_revoke,
}

-- The name of an event is read back as that event; the events without a name of their own have none
-- to read.
pub event_from_name-event_name :
    (e : EventKind)
    → ((n : ℕ) × (e ≡ other_event n) × (event_name e ≡ none)) ⊎ (read_name (event_name e) ≡ some e)
unfolding event_name event_from_name
event_from_name-event_name (other_event n) = inl (n, refl, refl)
event_from_name-event_name set_key = inr refl
event_from_name-event_name set_field = inr refl
event_from_name-event_name get_key = inr refl
event_from_name-event_name get_field_by_registry = inr refl
event_from_name-event_name get_field_by_key = inr refl
event_from_name-event_name get_public_key = inr refl
event_from_name-event_name get_private_key = inr refl
event_from_name-event_name bootstrap_or_join_cluster = inr refl
event_from_name-event_name add_learner = inr refl
event_from_name-event_name set = inr refl
event_from_name-event_name execute = inr refl
event_from_name-event_name poll_execute = inr refl
event_from_name-event_name list_range = inr refl
event_from_name-event_name log_append = inr refl
event_from_name-event_name leave = inr refl
event_from_name-event_name exec_invite_redeem = inr refl
event_from_name-event_name join_request_create = inr refl
event_from_name-event_name join_request_cancel = inr refl
event_from_name-event_name recruit = inr refl
event_from_name-event_name get_own_addr = inr refl
event_from_name-event_name channel_open = inr refl
event_from_name-event_name channel_send = inr refl
event_from_name-event_name channel_poll = inr refl
event_from_name-event_name channel_listen = inr refl
event_from_name-event_name channel_close = inr refl
event_from_name-event_name channel_close_write = inr refl
event_from_name-event_name channel_data_ready = inr refl
event_from_name-event_name kick = inr refl
event_from_name-event_name txn = inr refl
event_from_name-event_name get_version = inr refl
event_from_name-event_name public_access = inr refl
event_from_name-event_name exec_ticket = inr refl
event_from_name-event_name join_ticket = inr refl
event_from_name-event_name join_request_ticket = inr refl
event_from_name-event_name dial_submit_command = inr refl
event_from_name-event_name dial_query_command_log = inr refl
event_from_name-event_name error = inr refl
event_from_name-event_name group_put = inr refl
event_from_name-event_name group_delete = inr refl
event_from_name-event_name command_put = inr refl
event_from_name-event_name command_delete = inr refl
event_from_name-event_name station_put = inr refl
event_from_name-event_name station_delete = inr refl
event_from_name-event_name group_command_put = inr refl
event_from_name-event_name group_command_delete = inr refl
event_from_name-event_name peer_group_put = inr refl
event_from_name-event_name peer_group_delete = inr refl
event_from_name-event_name permit_request = inr refl
event_from_name-event_name permit_confirm = inr refl
event_from_name-event_name permit_revoke = inr refl
event_from_name-event_name join_invite_create = inr refl
event_from_name-event_name join_invite_revoke = inr refl
event_from_name-event_name exec_invite_create = inr refl
event_from_name-event_name exec_invite_revoke = inr refl
