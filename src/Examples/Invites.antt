-- ===== src/Examples/Invites.antt =====
-- The one-time invites on small stores, at which their theorems are applied.
use libp2p_kv_raft.Base.{◌≡◌, refl, some, [], ◌∷◌, Bytes, put_uint16}
use libp2p_kv_raft.Outcome.{ok}
use libp2p_kv_raft.Store.Rows.{find, put, remove}
use libp2p_kv_raft.Store
use libp2p_kv_raft.Store.Prefix.{prefix_upper_bound}
use libp2p_kv_raft.Store.Writes.{del}
use libp2p_kv_raft.Store.Memory.{Memory, memory, empty, with_row, without}
use libp2p_kv_raft.Shmevent.Catalog.{
  decode_group_payload, group_command_key, parse_group_command_key, peer_group_key,
}
use libp2p_kv_raft.Shmevent.Invite.{decode_exec_invite_record}
use libp2p_kv_raft.Kvfsm.Acl.{is_permitted_for_command, any_group_admits}
use libp2p_kv_raft.Kvfsm.Apply
use libp2p_kv_raft.Kvfsm.Apply.{Log}
use libp2p_kv_raft.Kvfsm.Apply.Invites.{
  IsRedemption, redeemed_exec_invite, exec_invite_once, join_invite_once,
}
use libp2p_kv_raft.Examples.{linked, one_row}

-- An invite to execute command 2, without inputs and without an expiry, under key 9.
abbrev invite_value : Bytes
invite_value = 0 ∷ 1 ∷ 2 ∷ []

abbrev invited : Memory
invited = with_row (9 ∷ []) invite_value linked

redeem_runs :
    Apply.apply_consume_exec_invite memory 5 (9 ∷ []) (3 ∷ []) invited
    ≡ (ok invite_value, without (9 ∷ []) invited)
unfolding Apply.apply_consume_exec_invite Store.get decode_exec_invite_record
    is_permitted_for_command any_group_admits group_command_key parse_group_command_key
    Store.scan_prefix prefix_upper_bound decode_group_payload del put remove find put_uint16
    peer_group_key
redeem_runs = refl

redeemed_exec_invite_example :
    IsRedemption memory 5 (9 ∷ []) (3 ∷ []) invite_value invited (without (9 ∷ []) invited)
redeemed_exec_invite_example =
    redeemed_exec_invite memory 5 (9 ∷ []) (3 ∷ []) invite_value invited (without (9 ∷ []) invited)
      redeem_runs

exec_invite_once_example : ¬ (
    Apply.apply_consume_exec_invite memory 6 (9 ∷ []) (4 ∷ []) (without (9 ∷ []) invited)
    ≡ (ok invite_value, empty))
exec_invite_once_example =
    exec_invite_once memory 5 6 (9 ∷ []) (3 ∷ []) (4 ∷ []) invite_value invite_value invited
      (without (9 ∷ []) invited) empty redeem_runs

consume_runs :
    Apply.apply_consume_invite memory (107 ∷ []) one_row ≡ (ok (1 ∷ []), without (107 ∷ []) one_row)
unfolding Apply.apply_consume_invite Store.get del put remove find
consume_runs = refl

join_invite_once_example :
    (find (107 ∷ []) one_row.table ≡ some (1 ∷ []))
    × ((v' : Bytes) (s'' : Memory)
        → ¬ (
            Apply.apply_consume_invite memory (107 ∷ []) (without (107 ∷ []) one_row)
            ≡ (ok v', s'')))
join_invite_once_example =
    join_invite_once memory (107 ∷ []) (1 ∷ []) one_row (without (107 ∷ []) one_row) consume_runs
