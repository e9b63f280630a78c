-- ===== src/Store/Memory.antt =====
-- A database for examples that never fails: rows in memory.
use mathlib.Core.Path.{subst}
use libp2p_kv_raft.Base.{◌≡◌, refl, Option, none, some, [], Bytes, length, arith, ap, sym}
use libp2p_kv_raft.Store.Rows.{Table, IsSorted, find, put, remove, in_half_open, in_closed, limited}
use libp2p_kv_raft.Store.Rows.Listing.{IsSorted-distinct}
use libp2p_kv_raft.Store.Rows.Laws.{put-IsSorted, remove-IsSorted}
use libp2p_kv_raft.Store.Rows.Selection.{select_keys}
use libp2p_kv_raft.Store.Sqlite.{Reply, done, failed, Database, HasDistinctKeys, IsReliable}
use libp2p_kv_raft.Store.Disk.{done_injective}

pub record Memory : Type 0 where
  pub table : Table
  pub sorted : IsSorted table

abbrev pub with_row : Bytes → Bytes → Memory → Memory
with_row k v d = record { table = put k v d.table; sorted = put-IsSorted k v d.table d.sorted }

abbrev pub without : Bytes → Memory → Memory
without k d = record { table = remove k d.table; sorted = remove-IsSorted k d.table d.sorted }

abbrev pub empty : Memory
empty = record { table = []; sorted = tt }

-- An insert of a key that is there fails (SQLITE_CONSTRAINT).
abbrev pub insert_new : Memory → Bytes → Bytes → Option Bytes → Reply Memory
insert_new d k v none = done (with_row k v d)
insert_new d k v (some w) = failed 19

pub insert_new_lem :
    (d : Memory) (k v : Bytes) (o : Option Bytes) (d' : Memory)
    → insert_new d k v o ≡ done d'
    → (o ≡ none) × (d'.table ≡ put k v d.table)
insert_new_lem d k v none d' h = (refl, ap (λ (e : Memory). e.table) (done_injective h))
insert_new_lem d k v (some w) d' h = (absurd (ground arith), absurd (ground arith))

pub listed_distinct : (d : Memory) (t : Table) → done d.table ≡ done t → HasDistinctKeys t
listed_distinct d t h =
    subst HasDistinctKeys (sym (done_injective h)) (IsSorted-distinct d.table d.sorted)

abbrev pub memory : Database
memory = record {
  Db = Memory;
  rows = λ d. d.table;
  rows_sorted = λ d. d.sorted;
  select_value = λ d k. done (find k d.table);
  select_value_lem = λ d k o h. done_injective h;
  upsert = λ d k v. done (with_row k v d);
  upsert_lem = λ d k v d' h. ap (λ (e : Memory). e.table) (done_injective h);
  delete_key = λ d k. done (without k d);
  delete_key_lem = λ d k d' h. ap (λ (e : Memory). e.table) (done_injective h);
  count_rows = λ d lo hi. done (length (select_keys (in_half_open lo hi) d.table));
  count_rows_lem = λ d lo hi n h. done_injective h;
  select_half_open =
      λ d lo hi limit. done (limited limit (select_keys (in_half_open lo hi) d.table));
  select_half_open_lem = λ d lo hi limit t h. done_injective h;
  select_closed = λ d lo hi limit. done (limited limit (select_keys (in_closed lo hi) d.table));
  select_closed_lem = λ d lo hi limit t h. done_injective h;
  select_all = λ d. done d.table;
  select_all_distinct = λ d t h. listed_distinct d t h;
  select_all_lem = λ d t k h. ap (find k) (done_injective h);
  begin = λ d. done d;
  begin_lem = λ d d' h. ap (λ (e : Memory). e.table) (done_injective h);
  commit = λ d t. done t;
  commit_lem = λ d t d' h. ap (λ (e : Memory). e.table) (done_injective h);
  delete_all = λ d. done empty;
  delete_all_lem = λ d d' h. ap (λ (e : Memory). e.table) (done_injective h);
  insert_row = λ d k v. insert_new d k v (find k d.table);
  insert_row_lem = λ d k v d' h. (insert_new_lem d k v (find k d.table) d' h).1;
  insert_row_fresh = λ d k v d' h. (insert_new_lem d k v (find k d.table) d' h).0;
}

abbrev pub memory_is_reliable : IsReliable memory
memory_is_reliable = record {
  select_value_runs = λ d k. (find k d.table, refl);
  upsert_runs = λ d k v. (with_row k v d, refl);
  delete_key_runs = λ d k. (without k d, refl);
  count_rows_runs = λ d lo hi. (length (select_keys (in_half_open lo hi) d.table), refl);
  select_half_open_runs = λ d lo hi n. (limited n (select_keys (in_half_open lo hi) d.table), refl);
  select_closed_runs = λ d lo hi n. (limited n (select_keys (in_closed lo hi) d.table), refl);
  select_all_runs = λ d. (d.table, refl);
  begin_runs = λ d. (d, refl);
  commit_runs = λ d t. (t, refl);
  delete_all_runs = λ d. (empty, refl);
  insert_row_runs = λ d k v h. (with_row k v d, ap (insert_new d k v) h);
}
