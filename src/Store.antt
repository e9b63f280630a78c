-- ===== src/Store.antt =====
-- pkg/store/store.go: the key/value store over SQLite. A byte slice that is nil and one that is
-- empty are one value here, so `set` need not replace the first by the second.
-- `*Store` and `*Tx` run the same statements (`dbExecer`), so one definition serves both: on a
-- state of the database, or on the state that a transaction sees.
pub mod Rows
pub mod Prefix
pub mod Sqlite
pub mod Disk
pub mod Memory
pub mod Scan
pub mod Writes
pub mod Transaction
pub mod Effects
pub mod Snapshot
use libp2p_kv_raft.Base.{
  ℕ, zero, suc, ◌+◌, ◌-◌, ◌%◌, ◌^◌, ◌*◌, Bool, true, false, Option, none, some, List, [], ◌∷◌, ◌++◌,
  Bytes, length, ltb, if◌then◌else◌, put_uint32, get_uint32, take, drop,
}
use libp2p_kv_raft.Outcome.{
  Error, Result, ok, err, ◌>>=◌, ◌>>◌, not_found, eof, unexpected_eof, out_of_fuel, sql,
}
use Rows.{Kv, Table}
use Prefix.{prefix_upper_bound}
use Sqlite.{Database, Reply, done, failed, returned}

-- What `read_full` returns: the bytes that were asked for, and what is left.
read_full : ℕ → Bytes → Result (Bytes × Bytes)
read_full zero r = ok ([], r)
read_full (suc n) [] = err eof
read_full (suc n) (x ∷ r) =
    if ltb (length (x ∷ r)) (suc n)
    then err unexpected_eof
    else ok (take (suc n) (x ∷ r), drop (suc n) (x ∷ r))

uint32_of : Bytes → ℕ
uint32_of (a ∷ b ∷ c ∷ d ∷ _) = get_uint32 a b c d
uint32_of _ = 0

-- A length, and as many bytes.
unfoldable pub read_field : Bytes → Result (Bytes × Bytes)
unfolding read_full uint32_of
read_field r = do (n, r') ← read_full 4 r; read_full (uint32_of n) r'

-- DumpAll's two writes for one byte slice: putUint32(lenBuf[:], uint32(len(b))) and b.
unfoldable pub field : Bytes → Bytes
field b = put_uint32 (length b % 2 ^ 32) ++ b

unfoldable pub dump_rows : List Kv → Bytes
unfolding field
dump_rows [] = []
dump_rows (r ∷ t) = field r.key ++ (field r.value ++ dump_rows t)

abbrev pub or_not_found : Option Bytes → Result Bytes
or_not_found none = err not_found
or_not_found (some v) = ok v

module _ (D : Database) where
  open D use {Db}

  unfoldable pub get : Db → Bytes → Result Bytes
  get s key = do v ← returned (D.select_value s key); or_not_found v

  unfoldable pub count_prefix : Db → Bytes → Result ℕ
  count_prefix s prefix = returned (D.count_rows s prefix (prefix_upper_bound prefix))

  unfoldable pub scan_range : Db → Bytes → Bytes → ℕ → Result (List Kv)
  scan_range s start end limit = returned (D.select_closed s start end limit)

  unfoldable pub scan_prefix : Db → Bytes → ℕ → Result (List Kv)
  scan_prefix s prefix limit =
      returned (D.select_half_open s prefix (prefix_upper_bound prefix) limit)

  unfoldable pub dump_all : Db → Result Bytes
  dump_all s = do rows ← returned (D.select_all s); ok (dump_rows rows)
