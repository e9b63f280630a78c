-- ===== src/Store/Rows/Listing.antt =====
-- The rows of a table one by one: what holds of each of them.
use mathlib.Core.Path.{subst}
use libp2p_kv_raft.Base.{
  ◌≡◌, Bool, true, some, [], ◌∷◌, All, arith, Bytes, equal_iff, equal_refl, Bool-cases, inl, inr,
  sym, equal, equal→eq,
}
use libp2p_kv_raft.Store.Rows.{Kv, Table, IsSorted, find}
use libp2p_kv_raft.Store.Rows.Laws.{find-Above}
use libp2p_kv_raft.Store.Rows.Selection.{select_keys}
use libp2p_kv_raft.Store.Sqlite.{HasNoKey, HasDistinctKeys}

pub IsSorted-distinct : (t : Table) → IsSorted t → HasDistinctKeys t
IsSorted-distinct [] s = tt
IsSorted-distinct (r ∷ t) s = (find-Above r.key t s.0, IsSorted-distinct t s.1)

find_self : (r : Kv) (t : Table) → find r.key (r ∷ t) ≡ some r.value
unfolding find
find_self r t = ground (arith, equal_refl r.key)

find_later :
    (k v : Bytes) (r : Kv) (t : Table)
    → HasNoKey r.key t
    → find k t ≡ some v
    → find k (r ∷ t) ≡ some v
unfolding find
find_later k v r t n e = ground (arith, equal_iff k r.key)

-- What holds of whatever is found holds of each row.
pub All-find {ℓ} :
    (P : Bytes → Bytes → Type ℓ) (t : Table)
    → HasDistinctKeys t
    → ((k v : Bytes) → find k t ≡ some v → P k v)
    → All (λ r. P r.key r.value) t
All-find P [] d h = tt
All-find P (r ∷ t) d h =
    (h r.key r.value (find_self r t), All-find P t d.1 (λ k v e. h k v (find_later k v r t d.0 e)))

-- A row that is selected passes the test, and has what the table's rows have.
pub All-select_keys {ℓ} :
    (P : Kv → Type ℓ) (q : Bytes → Bool) (t : Table)
    → All P t
    → All (λ r. (q r.key ≡ true) × P r) (select_keys q t)
All-select_keys P q [] h = tt
All-select_keys P q (r ∷ t) h = elim (Bool-cases (q r.key)) [
  | inl e ↦ rw e ((e, h.0), All-select_keys P q t h.1)
  | inr e ↦ rw e (All-select_keys P q t h.1)
]

-- What holds of the key of each row holds of a key that is found.
pub find-All {ℓ} :
    (P : Bytes → Type ℓ) (t : Table)
    → All (λ r. P r.key) t
    → (k v : Bytes) → find k t ≡ some v
    → P k
unfolding find
find-All P [] h k v e = absurd (ground arith)
find-All P (r ∷ t) h k v e = elim (Bool-cases (equal k r.key)) [
  | inl q ↦ subst P (sym (equal→eq k r.key q)) h.0
  | inr q ↦ find-All P t h.1 k v (ground arith)
]
