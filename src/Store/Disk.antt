-- ===== src/Store/Disk.antt =====
-- A database for examples: rows in memory, and a number of writes after which the disk is full.
use mathlib.Core.Path.{subst}
use libp2p_kv_raft.Base.{
  ℕ, zero, suc, ◌≡◌, refl, Option, none, some, [], Bytes, length, arith, ap, sym,
}
use libp2p_kv_raft.Store.Rows.{Table, IsSorted, find, put, remove, in_half_open, in_closed, limited}
use libp2p_kv_raft.Store.Rows.Listing.{IsSorted-distinct}
use libp2p_kv_raft.Store.Rows.Laws.{put-IsSorted, remove-IsSorted}
use libp2p_kv_raft.Store.Rows.Selection.{select_keys}
use libp2p_kv_raft.Store.Sqlite.{Reply, done, failed, Database, HasDistinctKeys}

pub record Disk : Type 0 where
  pub table : Table
  pub sorted : IsSorted table
  pub writes_left : ℕ

-- A write, unless the disk is full (SQLITE_FULL).
abbrev pub written : (t : Table) → IsSorted t → ℕ → Reply Disk
written t s zero = failed 13
written t s (suc n) = done (record { table = t; sorted = s; writes_left = n })

pub written_lem :
    (t : Table) (s : IsSorted t) (n : ℕ) (d : Disk) → written t s n ≡ done d → d.table ≡ t
written_lem t s zero d h = ground arith
written_lem t s (suc n) d h = ground arith

abbrev pub fresh_insert : Disk → Bytes → Bytes → Option Bytes → Reply Disk
fresh_insert d k v none =
    written (put k v d.table) (put-IsSorted k v d.table d.sorted) d.writes_left
fresh_insert d k v (some w) = failed 19

pub fresh_insert_lem :
    (d : Disk) (k v : Bytes) (o : Option Bytes) (d' : Disk)
    → fresh_insert d k v o ≡ done d'
    → (o ≡ none) × (d'.table ≡ put k v d.table)
fresh_insert_lem d k v none d' h =
    (refl, written_lem _ (put-IsSorted k v d.table d.sorted) d.writes_left d' h)
fresh_insert_lem d k v (some w) d' h = (ground arith, ground arith)

pub done_injective {ℓ} : {A : Type ℓ} {a b : A} → done a ≡ done b → b ≡ a
done_injective h = ground arith

pub done_distinct : (d : Disk) (t : Table) → done d.table ≡ done t → HasDistinctKeys t
done_distinct d t h =
    subst HasDistinctKeys (sym (done_injective h)) (IsSorted-distinct d.table d.sorted)

abbrev pub disk : Database
disk = record {
  Db = Disk;
  rows = λ d. d.table;
  rows_sorted = λ d. d.sorted;
  select_value = λ d k. done (find k d.table);
  select_value_lem = λ d k o h. done_injective h;
  upsert = λ d k v. written (put k v d.table) (put-IsSorted k v d.table d.sorted) d.writes_left;
  upsert_lem = λ d k v d' h. written_lem _ (put-IsSorted k v d.table d.sorted) d.writes_left d' h;
  delete_key = λ d k. written (remove k d.table) (remove-IsSorted k d.table d.sorted) d.writes_left;
  delete_key_lem =
      λ d k d' h. written_lem _ (remove-IsSorted k d.table d.sorted) d.writes_left d' h;
  count_rows = λ d lo hi. done (length (select_keys (in_half_open lo hi) d.table));
  count_rows_lem = λ d lo hi n h. done_injective h;
  select_half_open =
      λ d lo hi limit. done (limited limit (select_keys (in_half_open lo hi) d.table));
  select_half_open_lem = λ d lo hi limit t h. done_injective h;
  select_closed = λ d lo hi limit. done (limited limit (select_keys (in_closed lo hi) d.table));
  select_closed_lem = λ d lo hi limit t h. done_injective h;
  select_all = λ d. done d.table;
  select_all_distinct = λ d t h. done_distinct d t h;
  select_all_lem = λ d t k h. ap (find k) (done_injective h);
  begin = λ d. done d;
  begin_lem = λ d d' h. ap (λ (e : Disk). e.table) (done_injective h);
  commit = λ d t. done t;
  commit_lem = λ d t d' h. ap (λ (e : Disk). e.table) (done_injective h);
  delete_all = λ d. written [] tt d.writes_left;
  delete_all_lem = λ d d' h. written_lem [] tt d.writes_left d' h;
  insert_row = λ d k v. fresh_insert d k v (find k d.table);
  insert_row_lem = λ d k v d' h. (fresh_insert_lem d k v (find k d.table) d' h).1;
  insert_row_fresh = λ d k v d' h. (fresh_insert_lem d k v (find k d.table) d' h).0;
}

-- An empty database with room for so many writes.
abbrev pub blank : ℕ → Disk
blank n = record { table = []; sorted = tt; writes_left = n }
