-- ===== src/Kvfsm/Cascade.antt =====
-- pkg/kvfsm/fsm_cascade.go: the delete of a Group or Command with every relation record that
-- refers to it.
pub mod Sweep
pub mod Relations
pub mod Commands
use libp2p_kv_raft.Base.{
  ℕ, zero, suc, ◌+◌, ◌≡◌, refl, Bool, true, false, Option, none, some, List, [], ◌∷◌, ◌++◌, Bytes,
  length, ◌==◌, if◌then◌else◌, equal,
}
use libp2p_kv_raft.Outcome.{Error, Result, ok, err, not_system_key, unsupported_kind}
use libp2p_kv_raft.Exec.{Exec, ◌>>=◌, ◌>>◌, pure, lift, reads}
use libp2p_kv_raft.Store.Writes.{del}
use libp2p_kv_raft.Store
use libp2p_kv_raft.Store.Rows.{Kv, Table}
use libp2p_kv_raft.Store.Sqlite.{Database}
use libp2p_kv_raft.Shmevent.System.{kind_group, kind_command}
use libp2p_kv_raft.Shmevent.Catalog.{
  group_command_key, all_group_commands_prefix, all_peer_groups_prefix, parse_group_command_key,
  parse_peer_group_key,
}
use libp2p_kv_raft.Kvfsm.Acl.{KeyShape, ordinary, system, key_shape}

module _ (D : Database) where
  open D use {Db}

  unfoldable pub delete_matches : List Kv → Exec Db (Unit {0})
  delete_matches [] = pure tt
  delete_matches (m ∷ matches) = do del D m.key; delete_matches matches

  -- The loop of deleteRelationsByGroupID.
  unfoldable pub delete_in_group :
      (Bytes → Result (Bytes × Bytes)) → Bytes → List Kv → Exec Db (Unit {0})
  delete_in_group parse group_id [] = pure tt
  delete_in_group parse group_id (m ∷ matches) = do
    (first, match_group_id) ← lift (parse m.key)
    if equal match_group_id group_id then del D m.key else pure tt
    delete_in_group parse group_id matches

  unfoldable pub delete_relations_by_group_id :
      Bytes → Bytes → (Bytes → Result (Bytes × Bytes)) → Exec Db (Unit {0})
  delete_relations_by_group_id prefix group_id parse = do
    matches ← reads (λ s. Store.scan_prefix D s prefix 0)
    delete_in_group parse group_id matches

  abbrev pub cascade_command : Bytes → Bytes → Exec Db (Unit {0})
  cascade_command key command_id = do
    prefix ← lift (group_command_key command_id [])
    matches ← reads (λ s. Store.scan_prefix D s prefix 0)
    delete_matches matches
    del D key

  abbrev pub cascade_group : Bytes → Bytes → Exec Db (Unit {0})
  cascade_group key group_id = do
    delete_relations_by_group_id all_group_commands_prefix group_id parse_group_command_key
    delete_relations_by_group_id all_peer_groups_prefix group_id parse_peer_group_key
    del D key

  abbrev pub cascade_of : Bytes → KeyShape → Exec Db (Unit {0})
  cascade_of key ordinary = lift (err not_system_key)
  cascade_of key (system kind status id) =
      if kind == kind_command
      then cascade_command key id
      else if kind == kind_group
      then cascade_group key id
      else lift (err unsupported_kind)

  unfoldable pub apply_cascade_delete : Bytes → Exec Db (Unit {0})
  apply_cascade_delete key = cascade_of key (key_shape key)
