-- ===== src/Examples/Nodes.antt =====
-- A cron store that is a node, for the theorem about its scan.
use libp2p_kv_raft.Base.{◌≡◌, refl, arith, [], ◌∷◌}
use libp2p_kv_raft.Outcome.{ok}
use libp2p_kv_raft.Store.Rows.{Table, in_closed}
use libp2p_kv_raft.Store.Rows.Selection.{select_keys}
use libp2p_kv_raft.Store.Prefix.{prefix_upper_bound, upper_bound_loop}
use libp2p_kv_raft.Croncmd.Node.{Client, node_scan, node_scan-with_prefix}

-- A key below the prefix "b/", one under it, and "b0", which is the end of the range.
abbrev three_rows : Table
three_rows =
    record { key = 97 ∷ 47 ∷ []; value = 1 ∷ [] }
    ∷ record { key = 98 ∷ 47 ∷ 99 ∷ []; value = 2 ∷ [] }
    ∷ record { key = 98 ∷ 48 ∷ []; value = 3 ∷ [] }
    ∷ []

abbrev local_node : Client
local_node = record {
  Session = Unit {0};
  session = ok tt;
  scan_range = λ sess lo hi. ok (select_keys (in_closed lo hi) three_rows);
}

node_scan-with_prefix_example :
    node_scan local_node (98 ∷ 47 ∷ [])
    ≡ ok (record { key = 98 ∷ 47 ∷ 99 ∷ []; value = 2 ∷ [] } ∷ [])
unfolding prefix_upper_bound upper_bound_loop
node_scan-with_prefix_example =
    node_scan-with_prefix local_node tt (98 ∷ 47 ∷ []) (98 ∷ 48 ∷ []) three_rows refl
      (λ lo hi. refl) (omega arith, (omega arith, tt))
      (
        (omega arith, (omega arith, tt)),
        ((omega arith, (omega arith, (omega arith, tt))), ((omega arith, (omega arith, tt)), tt)),
      )
      refl
