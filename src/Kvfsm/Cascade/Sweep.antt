-- ===== src/Kvfsm/Cascade/Sweep.antt =====
-- What a delete of the rows that a scan returned leaves.
use libp2p_kv_raft.Base.{
  ◌≡◌, refl, ap, ◌∙◌, Bool, true, false, ◌&&◌, Option, none, some, List, [], ◌∷◌, arith, Bytes,
  IsBytes, if◌then◌else◌, equal, equal_iff, has_prefix,
}
use libp2p_kv_raft.Outcome.{Result, ok, err}
use libp2p_kv_raft.Exec.{Exec, ◌>>=◌, reads, continue}
use libp2p_kv_raft.Store
use libp2p_kv_raft.Store.Rows.{Kv, Table, IsSorted, find, remove, in_half_open}
use libp2p_kv_raft.Store.Rows.Laws.{find-remove, remove-IsSorted}
use libp2p_kv_raft.Store.Rows.Selection.{select_keys, find-select_keys}
use libp2p_kv_raft.Store.Prefix.{prefix_upper_bound, prefix_range}
use libp2p_kv_raft.Store.Scan.{scan_prefix_ok}
use libp2p_kv_raft.Store.Sqlite.{Database}
use libp2p_kv_raft.Store.Effects.{Effect, Effect-pure, Effect-del, Effect-seq}
use libp2p_kv_raft.Kvfsm.Cascade.{delete_matches}

-- The rows of a table without those that are listed and pass a test.
abbrev pub remove_where : (Bytes → Bool) → List Kv → Table → Table
remove_where p [] t = t
remove_where p (m ∷ ms) t = remove_where p ms (if p m.key then remove m.key t else t)

abbrev is_some : Option Bytes → Bool
is_some none = false
is_some (some v) = true

if-IsSorted :
    (b : Bool) (k : Bytes) (t : Table) → IsSorted t → IsSorted (if b then remove k t else t)
if-IsSorted true k t h = remove-IsSorted k t h
if-IsSorted false k t h = h

pub remove_where-IsSorted :
    (p : Bytes → Bool) (ms t : Table) → IsSorted t → IsSorted (remove_where p ms t)
remove_where-IsSorted p [] t h = h
remove_where-IsSorted p (m ∷ ms) t h =
    remove_where-IsSorted p ms (if p m.key then remove m.key t else t)
      (if-IsSorted (p m.key) m.key t h)

find-remove_if :
    (p : Bytes → Bool) (j k : Bytes) (t : Table)
    → IsSorted t
    → find j (if p k then remove k t else t) ≡ (if equal j k && p j then none else find j t)
find-remove_if p j k t h = ground (arith, equal_iff j k, find-remove j k t h)

find-remove_where :
    (p : Bytes → Bool) (j : Bytes) (ms t : Table)
    → IsSorted t
    → find j (remove_where p ms t) ≡ (if is_some (find j ms) && p j then none else find j t)
unfolding find
find-remove_where p j [] t h = refl
find-remove_where p j (m ∷ ms) t h =
    find-remove_where p j ms _ (if-IsSorted (p m.key) m.key t h)
    ∙ ground (arith, find-remove_if p j m.key t h)

-- The rows left where those that a scan of a prefix finds are deleted if they pass a test.
abbrev pub sweep : Bytes → (Bytes → Bool) → Table → Table
sweep prefix p t =
    remove_where p (select_keys (in_half_open prefix (prefix_upper_bound prefix)) t) t

pub sweep-IsSorted :
    (prefix : Bytes) (p : Bytes → Bool) (t : Table) → IsSorted t → IsSorted (sweep prefix p t)
sweep-IsSorted prefix p t h =
    remove_where-IsSorted p (select_keys (in_half_open prefix (prefix_upper_bound prefix)) t) t h

pub find-sweep :
    (prefix : Bytes) (p : Bytes → Bool) (j : Bytes) (t : Table)
    → IsSorted t
    → IsBytes j
    → find j (sweep prefix p t) ≡ (if has_prefix j prefix && p j then none else find j t)
find-sweep prefix p j t h b =
    find-remove_where p j (select_keys (in_half_open prefix (prefix_upper_bound prefix)) t) t h
    ∙ (rw
        (
          find-select_keys (in_half_open prefix (prefix_upper_bound prefix)) j t,
          prefix_range prefix j b,
        )
        (go (has_prefix j prefix) (find j t)))
  where
    go :
        (q : Bool) (o : Option Bytes)
        → (if is_some (if q then o else none) && p j then none else o)
          ≡ (if q && p j then none else o)
    go true none = ground arith
    go true (some v) = ground arith
    go false o = ground arith

-- Whether a relation's key names a group.
abbrev pub is_named : Bytes → Result (Bytes × Bytes) → Bool
is_named group_id (ok (first, match_group_id)) = equal match_group_id group_id
is_named group_id (err e) = false

abbrev pub names_group : (Bytes → Result (Bytes × Bytes)) → Bytes → Bytes → Bool
names_group parse group_id k = is_named group_id (parse k)

module _ (D : Database) where
  open D use {Db, rows}

  pub Effect-delete_matches :
      (ms : List Kv) → Effect D (delete_matches D ms) (remove_where (λ _. true) ms)
  unfolding delete_matches
  Effect-delete_matches [] = Effect-pure D
  Effect-delete_matches (m ∷ ms) = Effect-seq D (Effect-del D m.key) (Effect-delete_matches ms)

  pub Effect-scan :
      (prefix : Bytes) {m : List Kv → Exec Db (Unit {0})} {f : List Kv → Table → Table}
      → ((ms : List Kv) → Effect D (m ms) (f ms))
      → Effect D
          (reads (λ s. Store.scan_prefix D s prefix 0) >>= m)
          (λ t. f (select_keys (in_half_open prefix (prefix_upper_bound prefix)) t) t)
  Effect-scan prefix {m} {f} a = record {
    rows_after = λ s s' h. go s s' (Store.scan_prefix D s prefix 0) refl h;
  }
    where
      go :
          (s s' : Db) (r : Result (List Kv))
          → Store.scan_prefix D s prefix 0 ≡ r
          → continue (r, s) m ≡ (ok tt, s')
          → rows s'
            ≡ f (select_keys (in_half_open prefix (prefix_upper_bound prefix)) (rows s)) (rows s)
      go s s' (ok ms) e h =
          (a ms).rows_after s s' h
          ∙ ap (λ (t : Table). f t (rows s)) (scan_prefix_ok D s prefix ms e)
      go s s' (err x) e h = absurd (ground arith)
