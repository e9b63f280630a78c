-- ===== src/Kvfsm/Cascade/Commands.antt =====
-- pkg/kvfsm/fsm_cascade.go: the rows that the delete of a Command leaves.
use libp2p_kv_raft.Base.{
  ◌≡◌, ap, ◌∙◌, true, ◌||◌, none, List, [], ◌∷◌, arith, Bytes, IsBytes, if◌then◌else◌, equal,
  has_prefix, length, ◌≤◌,
}
use libp2p_kv_raft.Outcome.{Result, ok}
use libp2p_kv_raft.Exec.{Exec, ◌>>=◌, reads, continue}
use libp2p_kv_raft.Store
use libp2p_kv_raft.Store.Rows.{Kv, Table, IsSorted, find, remove, in_half_open}
use libp2p_kv_raft.Store.Rows.Laws.{find-remove}
use libp2p_kv_raft.Store.Rows.Selection.{select_keys}
use libp2p_kv_raft.Store.Prefix.{prefix_upper_bound}
use libp2p_kv_raft.Store.Writes.{with_tx}
use libp2p_kv_raft.Store.Sqlite.{Database, IsReliable, Reply, returned}
use libp2p_kv_raft.Store.Effects.{Runs, Runs-pure, Runs-seq, Runs-del, Runs-with_tx}
use libp2p_kv_raft.Shmevent.System.{system_key, kind_group_command}
use libp2p_kv_raft.Shmevent.Catalog.{
  command_key, group_command_key, length_prefixed, catalog_status_placeholder,
}
use libp2p_kv_raft.Kvfsm.Acl.{key_shape}
use libp2p_kv_raft.Kvfsm.Cascade.{delete_matches, apply_cascade_delete}
use libp2p_kv_raft.Kvfsm.Cascade.Sweep.{remove_where, sweep, sweep-IsSorted, find-sweep}

-- The front of the keys that link a command to groups.
abbrev pub links_of : Bytes → Bytes
links_of command_id =
    system_key kind_group_command catalog_status_placeholder (length_prefixed command_id [])

module _ (D : Database) (R : IsReliable D) where
  open D use {Db, rows}

  Runs-delete_matches : (ms : List Kv) → Runs D (delete_matches D ms) (remove_where (λ _. true) ms)
  unfolding delete_matches
  Runs-delete_matches [] = Runs-pure D
  Runs-delete_matches (m ∷ ms) = Runs-seq D (Runs-del D R m.key) (Runs-delete_matches ms)

  pub scan_prefix_runs :
      (s : Db) (prefix : Bytes)
      → Store.scan_prefix D s prefix 0
        ≡ ok (select_keys (in_half_open prefix (prefix_upper_bound prefix)) (rows s))
  unfolding Store.scan_prefix
  scan_prefix_runs s prefix =
      let (t, e) = R.select_half_open_runs s prefix (prefix_upper_bound prefix) 0 in
      ap (λ (r : Reply Table). returned r) e
      ∙ ap (λ (u : Table). ok u) (D.select_half_open_lem s prefix (prefix_upper_bound prefix) 0 t e)

  pub Runs-scan :
      (prefix : Bytes) {m : List Kv → Exec Db (Unit {0})} {f : List Kv → Table → Table}
      → ((ms : List Kv) → Runs D (m ms) (f ms))
      → Runs D
          (reads (λ s. Store.scan_prefix D s prefix 0) >>= m)
          (λ t. f (select_keys (in_half_open prefix (prefix_upper_bound prefix)) t) t)
  Runs-scan prefix {m} {f} a = record {
    outcome = λ s.
        let (s', p, q) =
          (a (select_keys (in_half_open prefix (prefix_upper_bound prefix)) (rows s))).outcome s in
        (s', ap (λ (r : Result (List Kv)). continue (r, s) m) (scan_prefix_runs s prefix) ∙ p, q);
  }

  abbrev command_rows : Bytes → Table → Table
  command_rows command_id t =
      remove (command_key command_id) (sweep (links_of command_id) (λ _. true) t)

  pub links_of_lem :
      (command_id : Bytes)
      → length command_id ≤ 0xffff
      → group_command_key command_id [] ≡ ok (links_of command_id)
  unfolding group_command_key
  links_of_lem command_id h = ground arith

  Runs-cascade_command :
      (command_id : Bytes)
      → length command_id ≤ 0xffff
      → Runs D (apply_cascade_delete D (command_key command_id)) (command_rows command_id)
  unfolding apply_cascade_delete key_shape
  Runs-cascade_command command_id h = rw (links_of_lem command_id h) (
      Runs-scan (links_of command_id)
        {f = λ ms t. remove (command_key command_id) (remove_where (λ _. true) ms t)}
        (λ ms. Runs-seq D (Runs-delete_matches ms) (Runs-del D R (command_key command_id))))

  find-command_rows :
      (command_id k : Bytes) (t : Table)
      → IsSorted t
      → IsBytes k
      → find k (command_rows command_id t) ≡ (
          if equal k (command_key command_id) || has_prefix k (links_of command_id)
          then none
          else find k t)
  find-command_rows command_id k t h b =
      find-remove k (command_key command_id) (sweep (links_of command_id) (λ _. true) t)
        (sweep-IsSorted (links_of command_id) (λ _. true) t h)
      ∙ ground (arith, find-sweep (links_of command_id) (λ _. true) k t h b)

  -- On a reliable database the cascading delete of a command whose id fits in 16 bits succeeds: the
  -- command's record and every key that links it to a group are gone, and every other key (of
  -- bytes) has what it had.
  pub cascade_command_lem :
      (command_id : Bytes) (s : Db)
      → length command_id ≤ 0xffff
      → (s' : Db) × (with_tx D (apply_cascade_delete D (command_key command_id)) s ≡ (ok tt, s'))
        × ((k : Bytes)
            → IsBytes k
            → find k (rows s') ≡ (
                if equal k (command_key command_id) || has_prefix k (links_of command_id)
                then none
                else find k (rows s)))
  cascade_command_lem command_id s h =
      let (s', p, q) = (Runs-with_tx D R (Runs-cascade_command command_id h)).outcome s in
      (s', p, λ k b. ap (find k) q ∙ find-command_rows command_id k (rows s) (D.rows_sorted s) b)
