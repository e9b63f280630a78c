-- ===== src/Kvfsm/Cascade/Relations.antt =====
-- pkg/kvfsm/fsm_cascade.go: the rows that the delete of a Group leaves.
use libp2p_kv_raft.Base.{
  ◌≡◌, refl, sym, ap, ◌∙◌, Bool, true, false, ◌&&◌, ◌||◌, Option, none, List, [], ◌∷◌, arith, Bytes,
  IsBytes, if◌then◌else◌, equal, has_prefix,
}
use libp2p_kv_raft.Outcome.{Result, ok, err}
use libp2p_kv_raft.Exec.{Exec, ◌>>◌, pure, continue}
use libp2p_kv_raft.Store.Rows.{Kv, Table, IsSorted, find, remove}
use libp2p_kv_raft.Store.Rows.Laws.{find-remove}
use libp2p_kv_raft.Store.Writes.{with_tx, del}
use libp2p_kv_raft.Store.Sqlite.{Database}
use libp2p_kv_raft.Store.Effects.{
  Effect, Effect-pure, Effect-del, Effect-if, Effect-seq, Effect-with_tx,
}
use libp2p_kv_raft.Shmevent.Catalog.{
  group_key, all_group_commands_prefix, all_peer_groups_prefix, parse_group_command_key,
  parse_peer_group_key,
}
use libp2p_kv_raft.Kvfsm.Acl.{key_shape}
use libp2p_kv_raft.Kvfsm.Cascade.{
  delete_in_group, delete_relations_by_group_id, apply_cascade_delete,
}
use libp2p_kv_raft.Kvfsm.Cascade.Sweep.{
  remove_where, sweep, sweep-IsSorted, find-sweep, names_group, is_named, Effect-scan,
}

-- The relation records that refer to a group: the links of commands to it, and the memberships.
abbrev pub refers_to_group : Bytes → Bytes → Bool
refers_to_group group_id k =
    (has_prefix k all_group_commands_prefix && names_group parse_group_command_key group_id k)
    || (has_prefix k all_peer_groups_prefix && names_group parse_peer_group_key group_id k)

abbrev group_rows : Bytes → Table → Table
group_rows group_id t = remove (group_key group_id) (
    sweep all_peer_groups_prefix (names_group parse_peer_group_key group_id)
      (sweep all_group_commands_prefix (names_group parse_group_command_key group_id) t))

find-group_rows :
    (group_id k : Bytes) (t : Table)
    → IsSorted t
    → IsBytes k
    → find k (group_rows group_id t)
      ≡ (if equal k (group_key group_id) || refers_to_group group_id k then none else find k t)
find-group_rows group_id k t h b =
    let t1 : Table =
      sweep all_group_commands_prefix (names_group parse_group_command_key group_id) t in
    let h1 : IsSorted t1 =
      sweep-IsSorted all_group_commands_prefix (names_group parse_group_command_key group_id) t h in
    let t2 : Table = sweep all_peer_groups_prefix (names_group parse_peer_group_key group_id) t1 in
    let h2 : IsSorted t2 =
      sweep-IsSorted all_peer_groups_prefix (names_group parse_peer_group_key group_id) t1 h1 in
    find-remove k (group_key group_id) t2 h2
    ∙ (rw
        (
          find-sweep all_peer_groups_prefix (names_group parse_peer_group_key group_id) k t1 h1 b,
          find-sweep all_group_commands_prefix (names_group parse_group_command_key group_id) k t h
              b,
        )
        (go (equal k (group_key group_id))
          (has_prefix k all_group_commands_prefix && names_group parse_group_command_key group_id k)
          (has_prefix k all_peer_groups_prefix && names_group parse_peer_group_key group_id k)
          (find k t)))
  where
    go :
        (a x y : Bool) (o : Option Bytes)
        → (if a then none else (if y then none else (if x then none else o)))
          ≡ (if a || (x || y) then none else o)
    go true x y o = refl
    go false true true o = refl
    go false true false o = refl
    go false false y o = refl

module _ (D : Database) where
  open D use {Db, rows}

  -- One round of the loop, the key parsed, and the rest of it.
  abbrev delete_if_named :
      (Bytes → Result (Bytes × Bytes)) → Bytes → Kv → List Kv → Bytes × Bytes → Exec Db (Unit {0})
  delete_if_named parse group_id m ms (first, match_group_id) = do
    if equal match_group_id group_id then del D m.key else pure tt
    delete_in_group D parse group_id ms

  Effect-delete_in_group :
      (parse : Bytes → Result (Bytes × Bytes)) (group_id : Bytes) (ms : List Kv)
      → Effect D
          (delete_in_group D parse group_id ms)
          (remove_where (names_group parse group_id) ms)
  unfolding delete_in_group
  Effect-delete_in_group parse group_id [] = Effect-pure D
  Effect-delete_in_group parse group_id (m ∷ ms) = record {
    rows_after = λ s s' h. go (Effect-delete_in_group parse group_id ms) s s' (parse m.key) refl h;
  }
    where
      go :
          Effect D
            (delete_in_group D parse group_id ms)
            (remove_where (names_group parse group_id) ms)
          → (s s' : Db) (r : Result (Bytes × Bytes)) → parse m.key ≡ r
          → continue (r, s) (delete_if_named parse group_id m ms) ≡ (ok tt, s')
          → rows s' ≡ remove_where (names_group parse group_id) (m ∷ ms) (rows s)
      go rest s s' (ok d) e h =
          (Effect-seq D (Effect-if D (equal d.1 group_id) (Effect-del D m.key) (Effect-pure D))
              rest).rows_after
            s s' h
          ∙ ap
              (λ (r : Result (Bytes × Bytes)).
                remove_where (names_group parse group_id) ms
                  (if is_named group_id r then remove m.key (rows s) else rows s))
              (sym e)
      go rest s s' (err x) e h = absurd (ground arith)

  Effect-delete_relations :
      (prefix group_id : Bytes) (parse : Bytes → Result (Bytes × Bytes))
      → Effect D
          (delete_relations_by_group_id D prefix group_id parse)
          (sweep prefix (names_group parse group_id))
  unfolding delete_relations_by_group_id
  Effect-delete_relations prefix group_id parse =
      Effect-scan D prefix (Effect-delete_in_group parse group_id)

  Effect-cascade_group :
      (group_id : Bytes)
      → Effect D (apply_cascade_delete D (group_key group_id)) (group_rows group_id)
  unfolding apply_cascade_delete key_shape
  Effect-cascade_group group_id =
      Effect-seq D
        (Effect-delete_relations all_group_commands_prefix group_id parse_group_command_key)
        (Effect-seq D (Effect-delete_relations all_peer_groups_prefix group_id parse_peer_group_key)
          (Effect-del D (group_key group_id)))

  -- Where the cascading delete of a group succeeds, on any database, the group's record and every
  -- relation record that refers to the group are gone, and every other key (of bytes) has
  -- what it had.
  pub cascade_group_lem :
      (group_id : Bytes) (s s' : Db)
      → with_tx D (apply_cascade_delete D (group_key group_id)) s ≡ (ok tt, s')
      → (k : Bytes) → IsBytes k
      → find k (rows s') ≡ (
          if equal k (group_key group_id) || refers_to_group group_id k
          then none
          else find k (rows s))
  cascade_group_lem group_id s s' h k b =
      ap (find k) ((Effect-with_tx D (Effect-cascade_group group_id)).rows_after s s' h)
      ∙ find-group_rows group_id k (rows s) (D.rows_sorted s) b
