-- ===== src/Examples.antt =====
-- Runs of the code on small stores in memory, at which the theorems are applied.
pub mod Codecs
pub mod Rules
pub mod Invites
mod Cron
mod Chunks
mod Schedulers
mod Catalogs
mod Nodes
use libp2p_kv_raft.Base.{
  ℕ, ◌+◌, ◌^◌, ◌≡◌, ◌≤◌, ◌<◌, refl, Bool, true, false, Option, none, some, List, [], ◌∷◌, ◌++◌,
  arith, Bytes, IsBytes, All, length, ◌⊎◌, inl, inr, ◌↔◌, if◌then◌else◌, equal, ◌||◌, ◌&&◌, not,
  ◌==◌, has_prefix, leb, ltb, replicate, put_uint16,
}
use libp2p_kv_raft.Outcome.{
  Error, Result, ok, err, compare_failed, too_long, token_expired, too_short, list_full, ◌>>=◌,
}
use libp2p_kv_raft.Store.Rows.{Kv, Table, find, put, remove, in_half_open, in_closed}
use libp2p_kv_raft.Store.Rows.Listing.{find-All}
use libp2p_kv_raft.Store
use libp2p_kv_raft.Store.Prefix.{prefix_upper_bound, prefix_range}
use libp2p_kv_raft.Store.Writes.{set, del, with_tx, load_all}
use libp2p_kv_raft.Store.Snapshot.{load_all-dump_all, IsShort}
use libp2p_kv_raft.Store.Memory.{Memory, memory, memory_is_reliable, empty, with_row, without}
use libp2p_kv_raft.Shmevent.Txn.{
  TxnOpSpec, encode_txn_payload, decode_txn_payload, encode_ops, check_ops,
}
use libp2p_kv_raft.Shmevent.Txn.RoundTrip.{decode_txn_payload-encode_txn_payload}
use libp2p_kv_raft.Shmevent.Catalog.{
  key_list_bounds, decode_group_payload, group_key, command_key, group_command_key,
  parse_group_command_key, peer_group_key, parse_peer_group_key, encode_station_payload,
  decode_station_payload,
}
use libp2p_kv_raft.Shmevent.CommandPayload.{
  encode_command_payload_with_spec, decode_command_payload_full,
  encode_command_payload_clearing_spec, decode_command_payload_spec,
}
use libp2p_kv_raft.Shmevent.CommandRequest.{
  encode_command_request_apply_payload, decode_command_request_apply_payload,
}
use libp2p_kv_raft.Shmevent.Invite.{
  ExecInvite, encode_exec_invite_record, decode_exec_invite_record,
}
use libp2p_kv_raft.Shmevent.Invite.RoundTrip.{decode_exec_invite-encode_exec_invite}
use libp2p_kv_raft.Shmevent.RoundTrip.{
  decode_station_payload-encode_station_payload, parse_group_command_key-group_command_key,
  parse_peer_group_key-peer_group_key, decode_command_request-encode_command_request,
  decode_command_payload-encode_command_payload, decode_spec-encode_clearing_spec,
}
use libp2p_kv_raft.Logrecord.{ℤ, pos, negsuc, build_key, parse_key, scan_bounds}
use libp2p_kv_raft.Logrecord.Parse.{parse_key-build_key}
use libp2p_kv_raft.Logrecord.Bounds.{scan_bounds-build_key}
use libp2p_kv_raft.Kvfsm.Encoding.{
  Command, encode_command, decode_command, op_type, op_consume_exec_invite,
}
use libp2p_kv_raft.Kvfsm.Encoding.RoundTrip.{decode_command-encode_command}
use libp2p_kv_raft.Kvfsm.Compare.{check_kinds, check_compares, check_compare}
use libp2p_kv_raft.Kvfsm.Acl.{
  is_permitted_for_command, any_group_admits, check_system_list_cap, check_group_name_unique,
  preserve_command_spec, key_shape, system_list_limit,
}
use libp2p_kv_raft.Kvfsm.Acl.Access.{IsLinkedOpen}
use libp2p_kv_raft.Kvfsm.Acl.Permission.{is_permitted_for_command_iff}
use libp2p_kv_raft.Kvfsm.Cascade.{
  apply_cascade_delete, delete_matches, delete_in_group, delete_relations_by_group_id,
}
use libp2p_kv_raft.Kvfsm.Cascade.Relations.{refers_to_group, cascade_group_lem}
use libp2p_kv_raft.Kvfsm.Cascade.Commands.{links_of, cascade_command_lem}
use libp2p_kv_raft.Kvfsm.Apply
use libp2p_kv_raft.Kvfsm.Apply.{Log}
use libp2p_kv_raft.Kvfsm.Apply.CompareAndSwap.{all_hold, write_all, compare_and_swap, committed_txn}
use libp2p_kv_raft.Kvfsm.Apply.Failure.{failed_unchanged}
use libp2p_kv_raft.Kvfsm.Apply.Invites.{
  IsRedemption, redeemed_exec_invite, exec_invite_once, join_invite_once,
}
use libp2p_kv_raft.Kvfsm.Apply.ListCap.{list_count, apply_set_within_limit}

-- A store with one row, and a transaction that swaps its value.
abbrev pub one_row : Memory
one_row = with_row (107 ∷ []) (1 ∷ []) empty

abbrev swap : List TxnOpSpec
swap =
    record { op = 3; key = 107 ∷ []; value = 1 ∷ [] }
    ∷ record { op = 1; key = 107 ∷ []; value = 2 ∷ [] }
    ∷ []

checked : check_kinds swap ≡ ok tt
unfolding check_kinds
checked = refl

compare_and_swap_example :
    ((all_hold swap one_row.table ≡ true)
      × ((s' : Memory) × (Apply.apply_ops memory swap one_row ≡ (ok tt, s'))
          × (s'.table ≡ write_all swap one_row.table)))
    ⊎ ((all_hold swap one_row.table ≡ false)
        × (Apply.apply_ops memory swap one_row ≡ (err compare_failed, one_row)))
compare_and_swap_example = compare_and_swap memory memory_is_reliable swap one_row checked

abbrev swapped : Memory
swapped = with_row (107 ∷ []) (2 ∷ []) one_row

swap_runs : Apply.apply_ops memory swap one_row ≡ (ok tt, swapped)
unfolding Apply.apply_ops Apply.write_ops check_kinds check_compares check_compare with_tx set del
    Store.get put find
swap_runs = refl

committed_txn_example :
    (check_kinds swap ≡ ok tt)
    × (all_hold swap one_row.table ≡ true)
    × (swapped.table ≡ write_all swap one_row.table)
committed_txn_example = committed_txn memory swap one_row swapped swap_runs

-- An entry too short to decode.
abbrev short_log : Log
short_log = record { appended_at_unix = 0; data_bytes = 1 ∷ [] }

short_log_fails : (Apply.apply memory short_log one_row).0.error ≡ some too_short
unfolding Apply.apply decode_command
short_log_fails = refl

failed_unchanged_example :
    ((Apply.apply memory short_log one_row).1 ≡ one_row)
    ⊎ ((c : Command) × (decode_command (1 ∷ []) ≡ ok c)
        × (op_type c.op ≡ op_consume_exec_invite)
        × (too_short ≡ token_expired)
        × ((Apply.apply memory short_log one_row).1.table ≡ remove c.key one_row.table))
failed_unchanged_example = failed_unchanged memory short_log one_row too_short short_log_fails

-- A command 2 linked to a group 1 that has the Public flag.
abbrev pub linked : Memory
linked =
    with_row (links_of (2 ∷ []) ++ (1 ∷ [])) [] (with_row (group_key (1 ∷ [])) (1 ∷ 71 ∷ []) empty)

linked_bytes : (k v : Bytes) → find k linked.table ≡ some v → IsBytes k
unfolding put find put_uint16
linked_bytes k v e =
    find-All IsBytes linked.table
      (
        (omega arith, (omega arith, (omega arith, (omega arith, tt)))),
        (
          (
            omega arith,
            (
              omega arith,
              (omega arith, (omega arith, (omega arith, (omega arith, (omega arith, tt))))),
            ),
          ),
          tt,
        ),
      )
      k v e

is_permitted_for_command_iff_example :
    (is_permitted_for_command memory linked (2 ∷ []) (3 ∷ []) ≡ ok true)
    ↔ IsLinkedOpen linked.table (2 ∷ []) (3 ∷ [])
is_permitted_for_command_iff_example =
    is_permitted_for_command_iff memory memory_is_reliable linked (2 ∷ []) (3 ∷ []) (omega arith)
      (omega arith) linked_bytes

one_row_IsShort : All IsShort one_row.table
unfolding put
one_row_IsShort = ((omega arith, omega arith), tt)

load_all-dump_all_example :
    (bytes : Bytes) × (Store.dump_all memory one_row ≡ ok bytes)
    × ((s' : Memory) × (load_all memory bytes linked ≡ (ok tt, s')) × (s'.table ≡ one_row.table))
load_all-dump_all_example =
    load_all-dump_all memory memory_is_reliable one_row linked one_row_IsShort

-- The store above without group 1.
abbrev unlinked : Memory
unlinked = without (group_key (1 ∷ [])) (without (links_of (2 ∷ []) ++ (1 ∷ [])) linked)

cascade_runs :
    with_tx memory (apply_cascade_delete memory (group_key (1 ∷ []))) linked ≡ (ok tt, unlinked)
unfolding with_tx apply_cascade_delete key_shape delete_relations_by_group_id delete_in_group
    Store.scan_prefix prefix_upper_bound parse_group_command_key parse_peer_group_key del put remove
    put_uint16
cascade_runs = refl

cascade_group_lem_example : find (links_of (2 ∷ []) ++ (1 ∷ [])) unlinked.table ≡ (
    if equal (links_of (2 ∷ []) ++ (1 ∷ [])) (group_key (1 ∷ []))
      || refers_to_group (1 ∷ []) (links_of (2 ∷ []) ++ (1 ∷ []))
    then none
    else find (links_of (2 ∷ []) ++ (1 ∷ [])) linked.table)
unfolding put_uint16
cascade_group_lem_example =
    cascade_group_lem memory (1 ∷ []) linked unlinked cascade_runs (links_of (2 ∷ []) ++ (1 ∷ [])) (
      omega arith,
      (omega arith, (omega arith, (omega arith, (omega arith, (omega arith, (omega arith, tt)))))),
    )

cascade_command_lem_example :
    (s' : Memory) × (with_tx memory (apply_cascade_delete memory (command_key (2 ∷ []))) linked
      ≡ (ok tt, s'))
    × ((k : Bytes)
        → IsBytes k
        → find k s'.table ≡ (
            if equal k (command_key (2 ∷ [])) || has_prefix k (links_of (2 ∷ []))
            then none
            else find k linked.table))
cascade_command_lem_example =
    cascade_command_lem memory memory_is_reliable (2 ∷ []) linked (omega arith)

-- A second group, 4, put beside group 1.
abbrev pub group_4 : Memory
group_4 = with_row (group_key (4 ∷ [])) (0 ∷ 72 ∷ []) linked

pub group_runs : Apply.apply_set memory (group_key (4 ∷ [])) (0 ∷ 72 ∷ []) linked ≡ (ok tt, group_4)
unfolding Apply.apply_set check_system_list_cap check_group_name_unique preserve_command_spec
    key_shape Store.get Store.count_prefix Store.scan_range prefix_upper_bound system_list_limit
    decode_group_payload set put find put_uint16 key_list_bounds
group_runs = refl

one_group : list_count 6 0 linked.table ≤ system_list_limit 6
unfolding put prefix_upper_bound put_uint16 system_list_limit
one_group = omega arith

apply_set_within_limit_example : list_count 6 0 group_4.table ≤ system_list_limit 6
apply_set_within_limit_example =
    apply_set_within_limit memory (group_key (4 ∷ [])) (0 ∷ 72 ∷ []) linked group_4 6 0
      (omega arith, (omega arith, (omega arith, (omega arith, tt)))) group_runs one_group
