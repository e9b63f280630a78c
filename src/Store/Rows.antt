-- ===== src/Store/Rows.antt =====
-- The table that the SQL statements of pkg/store/store.go speak of,
-- `kv (key BLOB PRIMARY KEY, value BLOB NOT NULL)`: its rows in key order, each key once.
-- The functions below say what the statements return and what they leave, as SQL documents them.
pub mod Laws
pub mod Selection
pub mod Listing
use libp2p_kv_raft.Base.{
  ℕ, zero, suc, ◌≡◌, Bool, true, ◌&&◌, Option, none, some, List, [], ◌∷◌, if◌then◌else◌, Bytes,
  equal, blob_lt, blob_le, take,
}

pub record Kv : Type 0 where
  pub key : Bytes
  pub value : Bytes

abbrev pub Table : Type 0
Table = List Kv

-- SELECT value FROM kv WHERE key = ?
unfoldable pub find : Bytes → Table → Option Bytes
find k [] = none
find k (r ∷ t) = if equal k r.key then some r.value else find k t

-- INSERT … ON CONFLICT(key) DO UPDATE SET value = excluded.value
unfoldable pub put : Bytes → Bytes → Table → Table
put k v [] = record { key = k; value = v } ∷ []
put k v (r ∷ t) =
    if equal k r.key
    then record { key = k; value = v } ∷ t
    else (if blob_lt k r.key then record { key = k; value = v } ∷ r ∷ t else r ∷ put k v t)

-- DELETE FROM kv WHERE key = ?
unfoldable pub remove : Bytes → Table → Table
remove k [] = []
remove k (r ∷ t) = if equal k r.key then t else r ∷ remove k t

-- key >= lo, and key < hi where there is an upper bound
abbrev pub in_half_open : Bytes → Option Bytes → Bytes → Bool
in_half_open lo none k = blob_le lo k
in_half_open lo (some hi) k = blob_le lo k && blob_lt k hi

-- key >= lo AND key <= hi
abbrev pub in_closed : Bytes → Bytes → Bytes → Bool
in_closed lo hi k = blob_le lo k && blob_le k hi

-- LIMIT ?, where the statement has it
abbrev pub limited : ℕ → Table → Table
limited zero t = t
limited (suc n) t = take (suc n) t

-- The rows below a key, and the order of the rows: strictly ascending.
abbrev pub Above : Bytes → Table → Type 0
Above k [] = Unit
Above k (r ∷ t) = (blob_lt k r.key ≡ true) × Above k t

abbrev pub IsSorted : Table → Type 0
IsSorted [] = Unit
IsSorted (r ∷ t) = Above r.key t × IsSorted t
