-- ===== src/Store/Sqlite.antt =====
-- What pkg/store/store.go relies on in SQLite (modernc.org/sqlite behind database/sql): the
-- statements it runs, each of which may fail, and what they do where they succeed. Whether a
-- statement fails is decided by the state of the database, of which only the rows are known.
use libp2p_kv_raft.Base.{ℕ, ◌≡◌, Option, none, [], ◌∷◌, Bytes, length}
use libp2p_kv_raft.Outcome.{sql, Result, ok, err}
use libp2p_kv_raft.Store.Rows.{Table, IsSorted, find, put, remove, in_half_open, in_closed, limited}
use libp2p_kv_raft.Store.Rows.Selection.{select_keys}

-- A statement's result, or the driver's error code.
pub data Reply {ℓ} (A : Type ℓ) : Type ℓ where
  done : A → Reply A
  failed : ℕ → Reply A

-- No key stands twice, in rows of whatever order.
abbrev pub HasNoKey : Bytes → Table → Type 0
HasNoKey k t = find k t ≡ none

abbrev pub HasDistinctKeys : Table → Type 0
HasDistinctKeys [] = Unit
HasDistinctKeys (r ∷ t) = HasNoKey r.key t × HasDistinctKeys t

pub record Database : Type 1 where
  pub Db : Type 0
  pub rows : Db → Table
  pub rows_sorted : (d : Db) → IsSorted (rows d)
  -- SELECT value FROM kv WHERE key = ?, with `none` for sql.ErrNoRows
  pub select_value : Db → Bytes → Reply (Option Bytes)
  pub select_value_lem :
      (d : Db) (k : Bytes) (o : Option Bytes) → select_value d k ≡ done o → o ≡ find k (rows d)
  -- INSERT … ON CONFLICT(key) DO UPDATE SET value = excluded.value
  pub upsert : Db → Bytes → Bytes → Reply Db
  pub upsert_lem :
      (d : Db) (k v : Bytes) (d' : Db) → upsert d k v ≡ done d' → rows d' ≡ put k v (rows d)
  -- DELETE FROM kv WHERE key = ?
  pub delete_key : Db → Bytes → Reply Db
  pub delete_key_lem :
      (d : Db) (k : Bytes) (d' : Db) → delete_key d k ≡ done d' → rows d' ≡ remove k (rows d)
  -- SELECT COUNT(*) FROM kv WHERE key >= ? [AND key < ?]
  pub count_rows : Db → Bytes → Option Bytes → Reply ℕ
  pub count_rows_lem :
      (d : Db) (lo : Bytes) (hi : Option Bytes) (n : ℕ)
      → count_rows d lo hi ≡ done n
      → n ≡ length (select_keys (in_half_open lo hi) (rows d))
  -- SELECT key, value FROM kv WHERE key >= ? [AND key < ?] ORDER BY key [LIMIT ?]
  pub select_half_open : Db → Bytes → Option Bytes → ℕ → Reply Table
  pub select_half_open_lem :
      (d : Db) (lo : Bytes) (hi : Option Bytes) (limit : ℕ) (t : Table)
      → select_half_open d lo hi limit ≡ done t
      → t ≡ limited limit (select_keys (in_half_open lo hi) (rows d))
  -- SELECT key, value FROM kv WHERE key >= ? AND key <= ? ORDER BY key [LIMIT ?]
  pub select_closed : Db → Bytes → Bytes → ℕ → Reply Table
  pub select_closed_lem :
      (d : Db) (lo hi : Bytes) (limit : ℕ) (t : Table)
      → select_closed d lo hi limit ≡ done t
      → t ≡ limited limit (select_keys (in_closed lo hi) (rows d))
  -- SELECT key, value FROM kv: every row once, in an order that is not specified
  pub select_all : Db → Reply Table
  pub select_all_distinct : (d : Db) (t : Table) → select_all d ≡ done t → HasDistinctKeys t
  pub select_all_lem :
      (d : Db) (t : Table) (k : Bytes) → select_all d ≡ done t → find k t ≡ find k (rows d)
  -- BEGIN: the state that the statements of the transaction see
  pub begin : Db → Reply Db
  pub begin_lem : (d d' : Db) → begin d ≡ done d' → rows d' ≡ rows d
  -- COMMIT of a transaction that began at the first state and stands at the second
  pub commit : Db → Db → Reply Db
  pub commit_lem : (d t d' : Db) → commit d t ≡ done d' → rows d' ≡ rows t
  -- DELETE FROM kv
  pub delete_all : Db → Reply Db
  pub delete_all_lem : (d d' : Db) → delete_all d ≡ done d' → rows d' ≡ []
  -- INSERT INTO kv(key, value) VALUES(?, ?), which the primary key holds to new keys
  pub insert_row : Db → Bytes → Bytes → Reply Db
  pub insert_row_lem :
      (d : Db) (k v : Bytes) (d' : Db) → insert_row d k v ≡ done d' → rows d' ≡ put k v (rows d)
  pub insert_row_fresh :
      (d : Db) (k v : Bytes) (d' : Db) → insert_row d k v ≡ done d' → HasNoKey k (rows d)

abbrev pub HasReply {ℓ} : {A : Type ℓ} → Reply A → Type ℓ
HasReply {A = A} r = (a : A) × (r ≡ done a)

-- A database on which no statement fails, but the insertion of a key that is there.
pub record IsReliable (D : Database) : Type 0 where
  pub select_value_runs : (d : D.Db) (k : Bytes) → HasReply (D.select_value d k)
  pub upsert_runs : (d : D.Db) (k v : Bytes) → HasReply (D.upsert d k v)
  pub delete_key_runs : (d : D.Db) (k : Bytes) → HasReply (D.delete_key d k)
  pub count_rows_runs :
      (d : D.Db) (lo : Bytes) (hi : Option Bytes) → HasReply (D.count_rows d lo hi)
  pub select_half_open_runs :
      (d : D.Db) (lo : Bytes) (hi : Option Bytes) (n : ℕ) → HasReply (D.select_half_open d lo hi n)
  pub select_closed_runs : (d : D.Db) (lo hi : Bytes) (n : ℕ) → HasReply (D.select_closed d lo hi n)
  pub select_all_runs : (d : D.Db) → HasReply (D.select_all d)
  pub begin_runs : (d : D.Db) → HasReply (D.begin d)
  pub commit_runs : (d t : D.Db) → HasReply (D.commit d t)
  pub delete_all_runs : (d : D.Db) → HasReply (D.delete_all d)
  pub insert_row_runs :
      (d : D.Db) (k v : Bytes) → HasNoKey k (D.rows d) → HasReply (D.insert_row d k v)

-- A driver's error is passed on as it is.
abbrev pub returned {ℓ} : {A : Type ℓ} → Reply A → Result A
returned (done a) = ok a
returned (failed n) = err (sql n)
