-- ===== src/Store/Scan.antt =====
-- What the reads of pkg/store/store.go return, in terms of the rows.
use libp2p_kv_raft.Base.{ℕ, ◌≡◌, ap, true, Option, none, some, arith, Bytes, length}
use libp2p_kv_raft.Outcome.{Error, ok, err, ◌>>=◌, is_not_found, err_injective}
use libp2p_kv_raft.Store.{or_not_found, get, count_prefix, scan_range, scan_prefix}
use libp2p_kv_raft.Store.Rows.{Table, find, in_half_open, in_closed}
use libp2p_kv_raft.Store.Rows.Selection.{select_keys}
use libp2p_kv_raft.Store.Prefix.{prefix_upper_bound}
use libp2p_kv_raft.Store.Sqlite.{Database, Reply, done, failed, returned}

pub returned_ok {ℓ} : {A : Type ℓ} (r : Reply A) (a : A) → returned r ≡ ok a → r ≡ done a
returned_ok (done b) a h = ground arith
returned_ok (failed n) a h = ground arith

read_ok :
    (r : Reply (Option Bytes)) (o : Option Bytes) (v : Bytes)
    → ((o' : Option Bytes) → r ≡ done o' → o' ≡ o)
    → (returned r >>= or_not_found) ≡ ok v
    → o ≡ some v
read_ok (done none) o v law h = ground arith
read_ok (done (some w)) o v law h = ground (arith, law (some w))
read_ok (failed n) o v law h = ground arith

read_missing :
    (r : Reply (Option Bytes)) (o : Option Bytes) (e : Error)
    → ((o' : Option Bytes) → r ≡ done o' → o' ≡ o)
    → (returned r >>= or_not_found) ≡ err e
    → is_not_found e ≡ true
    → o ≡ none
read_missing (done none) o e law h n = ground (arith, law none)
read_missing (done (some w)) o e law h n = ground arith
read_missing (failed c) o e law h n = ground (arith, ap is_not_found (err_injective h))

module _ (D : Database) where
  open D use {Db, rows}

  -- A read that succeeds finds the row, and one that finds none is sure of it.
  pub get_ok : (s : Db) (k v : Bytes) → get D s k ≡ ok v → find k (rows s) ≡ some v
  unfolding get
  get_ok s k v h = read_ok (D.select_value s k) _ v (D.select_value_lem s k) h

  pub get_missing :
      (s : Db) (k : Bytes) (e : Error)
      → get D s k ≡ err e
      → is_not_found e ≡ true
      → find k (rows s) ≡ none
  unfolding get
  get_missing s k e h n = read_missing (D.select_value s k) _ e (D.select_value_lem s k) h n

  pub count_prefix_ok :
      (s : Db) (p : Bytes) (n : ℕ)
      → count_prefix D s p ≡ ok n
      → n ≡ length (select_keys (in_half_open p (prefix_upper_bound p)) (rows s))
  unfolding count_prefix
  count_prefix_ok s p n h =
      D.count_rows_lem s p (prefix_upper_bound p) n (returned_ok (D.count_rows s p _) n h)

  pub scan_prefix_ok :
      (s : Db) (p : Bytes) (t : Table)
      → scan_prefix D s p 0 ≡ ok t
      → t ≡ select_keys (in_half_open p (prefix_upper_bound p)) (rows s)
  unfolding scan_prefix
  scan_prefix_ok s p t h =
      D.select_half_open_lem s p (prefix_upper_bound p) 0 t
        (returned_ok (D.select_half_open s p _ 0) t h)

  pub scan_range_ok :
      (s : Db) (lo hi : Bytes) (t : Table)
      → scan_range D s lo hi 0 ≡ ok t
      → t ≡ select_keys (in_closed lo hi) (rows s)
  unfolding scan_range
  scan_range_ok s lo hi t h =
      D.select_closed_lem s lo hi 0 t (returned_ok (D.select_closed s lo hi 0) t h)
