-- ===== src/Examples/Rules.antt =====
-- The rules of the catalog and of command requests on small stores, at which their theorems are
-- applied.
use libp2p_kv_raft.Base.{◌≤◌, ℕ}
use libp2p_kv_raft.Store.Writes.{del}
use libp2p_kv_raft.Kvfsm.Acl.{system_list_limit}
use libp2p_kv_raft.Kvfsm.Apply.ListCap.{list_count}
use libp2p_kv_raft.Kvfsm.Apply.Confirm.{confirm_moves}
use libp2p_kv_raft.Store.Rows.{remove}
use libp2p_kv_raft.Store.Memory.{without}
use libp2p_kv_raft.Base.{Bytes, [], arith, equal, false, put_uint16, refl, some, true, ◌∷◌, ◌≡◌}
use libp2p_kv_raft.Outcome.{ok}
use libp2p_kv_raft.Store.Rows.{find, put}
use libp2p_kv_raft.Store
use libp2p_kv_raft.Store.Prefix.{prefix_upper_bound}
use libp2p_kv_raft.Store.Writes.{set, with_tx}
use libp2p_kv_raft.Store.Memory.{Memory, empty, memory, memory_is_reliable, with_row}
use libp2p_kv_raft.Shmevent.Catalog.{
  command_key, decode_group_payload, group_command_key, group_key, parse_group_command_key,
  peer_group_key,
}
use libp2p_kv_raft.Shmevent.CommandPayload.{
  decode_command_payload, decode_command_payload_full, decode_command_payload_spec,
  encode_command_payload_with_spec,
}
use libp2p_kv_raft.Shmevent.CommandRequest.{
  decode_command_request_apply_payload, parse_command_request_log_kind,
}
use libp2p_kv_raft.Logrecord.{parse_key}
use libp2p_kv_raft.Kvfsm.Acl.{
  any_group_admits, check_system_list_cap, is_permitted_for_command, key_shape,
  preserve_command_spec,
}
use libp2p_kv_raft.Kvfsm.Apply
use libp2p_kv_raft.Kvfsm.Apply.{Log}
use libp2p_kv_raft.Examples.{group_4, group_runs, linked}
use libp2p_kv_raft.Kvfsm.Acl.GroupName.{group_name_unique}
use libp2p_kv_raft.Kvfsm.Acl.CommandSpec.{preserve_command_spec_lem}
use libp2p_kv_raft.Kvfsm.Apply.Requests.{IsAllowedAppend, appended_request}

set_name : decode_group_payload (0 ∷ 72 ∷ []) ≡ ok (72 ∷ [], false)
unfolding decode_group_payload
set_name = refl

old_name : decode_group_payload (1 ∷ 71 ∷ []) ≡ ok (71 ∷ [], true)
unfolding decode_group_payload
old_name = refl

old_found : find (group_key (1 ∷ [])) group_4.table ≡ some (1 ∷ 71 ∷ [])
unfolding put find put_uint16
old_found = refl

group_name_unique_example : equal (71 ∷ []) (72 ∷ []) ≡ false
group_name_unique_example =
    group_name_unique memory (4 ∷ []) (0 ∷ 72 ∷ []) (72 ∷ []) false linked group_4 group_runs
      set_name (1 ∷ []) (1 ∷ 71 ∷ []) (71 ∷ []) true (omega arith, tt) (omega arith) refl old_found
      old_name

-- A command 5 with a spec, and a value without one.
abbrev old_command : Bytes
old_command = 255 ∷ 255 ∷ 0 ∷ 1 ∷ 110 ∷ 0 ∷ 1 ∷ 3 ∷ 123 ∷ []

abbrev new_command : Bytes
new_command = 0 ∷ 1 ∷ 111 ∷ 4 ∷ []

abbrev merged_command : Bytes
merged_command = 255 ∷ 255 ∷ 0 ∷ 1 ∷ 111 ∷ 0 ∷ 1 ∷ 4 ∷ 123 ∷ []

abbrev commanded : Memory
commanded = with_row (command_key (5 ∷ [])) old_command empty

command_found : find (command_key (5 ∷ [])) commanded.table ≡ some old_command
unfolding put find
command_found = refl

old_spec : decode_command_payload_spec old_command ≡ ok (123 ∷ [], true)
unfolding decode_command_payload_spec
old_spec = refl

no_spec : decode_command_payload_spec new_command ≡ ok ([], false)
unfolding decode_command_payload_spec
no_spec = refl

merge_runs :
    preserve_command_spec memory commanded (command_key (5 ∷ [])) new_command ≡ ok merged_command
unfolding preserve_command_spec key_shape Store.get decode_command_payload_spec
    decode_command_payload encode_command_payload_with_spec put find put_uint16
merge_runs = refl

preserve_command_spec_lem_example :
    (name : Bytes) × (peer_id : Bytes) × (decode_command_payload new_command ≡ ok (name, peer_id))
    × (decode_command_payload_full merged_command ≡ ok (name, peer_id, 123 ∷ []))
preserve_command_spec_lem_example =
    preserve_command_spec_lem memory memory_is_reliable commanded (5 ∷ []) new_command old_command
      merged_command 123 [] command_found old_spec no_spec merge_runs

-- A request for command 2 by peer 3, and the entry's key and payload.
abbrev request_key : Bytes
request_key =
    1 ∷ 0 ∷ 8 ∷ 99 ∷ 109 ∷ 100 ∷ 114 ∷ 101 ∷ 113 ∷ 58 ∷ 2 ∷ 0 ∷ 0 ∷ 0 ∷ 0 ∷ 0 ∷ 0 ∷ 0 ∷ 0 ∷ 0 ∷ 20
    ∷ []

abbrev requested : Memory
requested = with_row request_key (123 ∷ []) linked

request_runs :
    Apply.apply_append_command_request memory request_key (0 ∷ 1 ∷ 3 ∷ 123 ∷ []) linked
    ≡ (ok tt, requested)
unfolding Apply.apply_append_command_request Apply.request_writes
    decode_command_request_apply_payload parse_key parse_command_request_log_kind
    is_permitted_for_command any_group_admits group_command_key parse_group_command_key
    Store.scan_prefix prefix_upper_bound decode_group_payload Store.get check_system_list_cap
    key_shape with_tx set put find put_uint16 peer_group_key
request_runs = refl

appended_request_example :
    IsAllowedAppend memory request_key (0 ∷ 1 ∷ 3 ∷ 123 ∷ []) linked requested
appended_request_example =
    appended_request memory request_key (0 ∷ 1 ∷ 3 ∷ 123 ∷ []) linked requested request_runs

-- A bootstrap node 9 whose record is pending.
abbrev pending : Memory
pending = with_row (0 ∷ 2 ∷ 1 ∷ 9 ∷ []) (5 ∷ []) empty

abbrev confirmed_node : Memory
confirmed_node = without (0 ∷ 2 ∷ 1 ∷ 9 ∷ []) (with_row (0 ∷ 2 ∷ 2 ∷ 9 ∷ []) (5 ∷ []) pending)

confirm_runs :
    Apply.apply_confirm memory (0 ∷ 2 ∷ 1 ∷ 9 ∷ []) (0 ∷ 2 ∷ 2 ∷ 9 ∷ []) pending
    ≡ (ok tt, confirmed_node)
unfolding Apply.apply_confirm check_system_list_cap key_shape Store.get Store.count_prefix
    prefix_upper_bound system_list_limit with_tx set del put remove find
confirm_runs = refl

confirm_moves_example :
    ((v : Bytes) × (find (0 ∷ 2 ∷ 1 ∷ 9 ∷ []) pending.table ≡ some v)
      × (confirmed_node.table
          ≡ remove (0 ∷ 2 ∷ 1 ∷ 9 ∷ []) (put (0 ∷ 2 ∷ 2 ∷ 9 ∷ []) v pending.table)))
    × ((kind status : ℕ)
        → list_count kind status pending.table ≤ system_list_limit kind
        → list_count kind status confirmed_node.table ≤ system_list_limit kind)
confirm_moves_example =
    confirm_moves memory (0 ∷ 2 ∷ 1 ∷ 9 ∷ []) (0 ∷ 2 ∷ 2 ∷ 9 ∷ []) pending confirmed_node
      (omega arith, (omega arith, (omega arith, (omega arith, tt)))) confirm_runs
