-- ===== src/Kvfsm/Acl.antt =====
-- pkg/kvfsm/fsm_acl.go: the checks that Apply makes before it writes, and the access control of
-- commands.
pub mod Access
pub mod Permission
pub mod CommandSpec
pub mod GroupName
use libp2p_kv_raft.Base.{
  ℕ, zero, suc, ◌+◌, ◌≡◌, refl, Bool, true, false, ◌&&◌, not, Option, none, some, List, [], ◌∷◌,
  ◌++◌, Bytes, length, ◌==◌, if◌then◌else◌, take, drop, arith, ltb, leb, equal,
}
use libp2p_kv_raft.Outcome.{
  Error, Result, ok, err, ◌>>=◌, ◌>>◌, wrap, command_spec, list_full, name_taken, is_not_found,
  not_found, guard,
}
use libp2p_kv_raft.Store
use libp2p_kv_raft.Store.Rows.{Kv, Table}
use libp2p_kv_raft.Store.Sqlite.{Database}
use libp2p_kv_raft.Shmevent.System.{
  system_key_prefix, kind_group, kind_command, kind_bootstrap_node, system_key,
}
use libp2p_kv_raft.Shmevent.Catalog.{
  group_key, group_key_bounds, decode_group_payload, group_command_key, parse_group_command_key,
  peer_group_key, reserved_group_channel, reserved_group_relay,
}
use libp2p_kv_raft.Shmevent.CommandPayload.{
  decode_command_payload_spec, decode_command_payload, encode_command_payload_with_spec,
}

abbrev pub max_system_list_entries : ℕ
max_system_list_entries = 65000

-- systemListLimits[kind], or the default
unfoldable pub system_list_limit : ℕ → ℕ
system_list_limit kind =
    if kind == kind_group
    then 200
    else if kind == kind_command
    then 2000
    else if kind == kind_bootstrap_node
    then 50
    else max_system_list_entries

-- A key of three bytes at least that starts with SystemKeyPrefix, taken apart.
pub data KeyShape : Type 0 where
  ordinary : KeyShape
  system : ℕ → ℕ → Bytes → KeyShape

unfoldable pub key_shape : Bytes → KeyShape
key_shape (p ∷ kind ∷ status ∷ id) =
    if p == system_key_prefix then system kind status id else ordinary
key_shape _ = ordinary

-- Whether the key is there; an error that is not ErrNotFound is the caller's.
abbrev pub is_present : Result Bytes → Result Bool
is_present (ok v) = ok true
is_present (err e) = if is_not_found e then ok false else err e

-- The loop over the groups: one other record with the name is an error.
unfoldable pub check_names : Bytes → Bytes → List Kv → Result (Unit {0})
check_names key name [] = ok tt
check_names key name (m ∷ matches) =
    let rest = check_names key name matches in
    if equal m.key key then rest else (do
      (existing_name, public) ← decode_group_payload m.value
      if equal existing_name name then err name_taken else rest)

-- What is stored in place of `value`, given the old record's spec.
abbrev pub merge_spec : Bytes → Result (Bytes × Bool) → Result Bytes
merge_spec value (err e) = ok value
merge_spec value (ok ([], present)) = ok value
merge_spec value (ok (c ∷ old_spec, present)) = do
  (name, peer_id) ← wrap command_spec (decode_command_payload value)
  wrap command_spec (encode_command_payload_with_spec name peer_id (c ∷ old_spec))

abbrev pub merge_existing : Bytes → Result Bytes → Result Bytes
merge_existing value (ok existing) = merge_spec value (decode_command_payload_spec existing)
merge_existing value (err e) = if is_not_found e then ok value else wrap command_spec (err e)

-- Whether a group's record can be read and has the Public flag.
abbrev pub is_public : Result Bytes → Bool
is_public (ok value) = elim (decode_group_payload value) [ ok d ↦ d.1 | err e ↦ false ]
is_public (err e) = false

abbrev pub is_there : Result Bytes → Bool
is_there (ok value) = true
is_there (err e) = false

module _ (D : Database) where
  open D use {Db}

  abbrev pub check_count : Db → ℕ → ℕ → Result (Unit {0})
  check_count s kind status = do
    count ← Store.count_prefix D s (system_key kind status [])
    guard (not (leb (system_list_limit kind) count)) list_full

  abbrev pub check_new : Db → ℕ → ℕ → Bool → Result (Unit {0})
  check_new s kind status true = ok tt
  check_new s kind status false = check_count s kind status

  abbrev pub check_cap_of : Db → Bytes → KeyShape → Result (Unit {0})
  check_cap_of s key ordinary = ok tt
  check_cap_of s key (system kind status id) = do
    present ← is_present (Store.get D s key)
    check_new s kind status present

  unfoldable pub check_system_list_cap : Db → Bytes → Result (Unit {0})
  check_system_list_cap s key = check_cap_of s key (key_shape key)

  abbrev pub check_group_value : Db → Bytes → Bytes → Result (Unit {0})
  check_group_value s key value = do
    (name, public) ← decode_group_payload value
    matches ← Store.scan_range D s group_key_bounds.0 group_key_bounds.1 0
    check_names key name matches

  abbrev pub check_unique_of : Db → Bytes → Bytes → KeyShape → Result (Unit {0})
  check_unique_of s key value ordinary = ok tt
  check_unique_of s key value (system kind status id) =
      if kind == kind_group then check_group_value s key value else ok tt

  unfoldable pub check_group_name_unique : Db → Bytes → Bytes → Result (Unit {0})
  unfolding check_names
  check_group_name_unique s key value = check_unique_of s key value (key_shape key)

  abbrev pub preserve_of : Db → Bytes → Bytes → KeyShape → Result Bytes
  preserve_of s key value ordinary = ok value
  preserve_of s key value (system kind status id) =
      if kind == kind_command
      then (do
        (spec, present) ← wrap command_spec (decode_command_payload_spec value)
        if present then ok value else merge_existing value (Store.get D s key))
      else ok value

  unfoldable pub preserve_command_spec : Db → Bytes → Bytes → Result Bytes
  preserve_command_spec s key value = preserve_of s key value (key_shape key)

  -- One group that the command is linked to: public, or the peer is a member.
  abbrev pub group_admits : Db → Bytes → Bytes → Result Bool
  group_admits s peer_id group_id =
      if is_public (Store.get D s (group_key group_id))
      then ok true
      else (do key ← peer_group_key peer_id group_id; ok (is_there (Store.get D s key)))

  -- The loop over the groups that the command is linked to.
  unfoldable pub any_group_admits : Db → Bytes → List Kv → Result Bool
  any_group_admits s peer_id [] = ok false
  any_group_admits s peer_id (m ∷ matches) =
      let rest = any_group_admits s peer_id matches in
      (do
        (command_id, group_id) ← parse_group_command_key m.key
        admitted ← group_admits s peer_id group_id
        if admitted then ok true else rest)

  unfoldable pub is_permitted_for_command : Db → Bytes → Bytes → Result Bool
  unfolding any_group_admits
  is_permitted_for_command s command_id peer_id = do
    prefix ← group_command_key command_id []
    matches ← Store.scan_prefix D s prefix 0
    any_group_admits s peer_id matches
