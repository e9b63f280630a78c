-- ===== src/Store/Rows/Selection.antt =====
-- Rows selected by a test of their keys, rows listed, and tables with the same rows.
use libp2p_kv_raft.Base.{
  ◌≡◌, refl, sym, Bool, false, none, some, [], ◌∷◌, arith, if◌then◌else◌, Bytes, equal_refl,
  equal_iff, blob_lt, select, blob_lt_total, inl, inr, Bool-cases,
}
use libp2p_kv_raft.Store.Rows.{Kv, Table, find, Above, IsSorted}
use libp2p_kv_raft.Store.Rows.Laws.{find-Above, Above-trans}

-- The rows whose keys pass a test.
abbrev pub select_keys : (Bytes → Bool) → Table → Table
select_keys p = select (λ r. p r.key)

Above-select_keys :
    (p : Bytes → Bool) (a : Bytes) (t : Table) → Above a t → Above a (select_keys p t)
Above-select_keys p a [] s = tt
Above-select_keys p a (r ∷ t) s = elim (Bool-cases (p r.key)) [
  | inl e ↦ rw e (s.0, Above-select_keys p a t s.1)
  | inr e ↦ rw e (Above-select_keys p a t s.1)
]

pub select_keys-IsSorted : (p : Bytes → Bool) (t : Table) → IsSorted t → IsSorted (select_keys p t)
select_keys-IsSorted p [] s = tt
select_keys-IsSorted p (r ∷ t) s = elim (Bool-cases (p r.key)) [
  | inl e ↦ rw e (Above-select_keys p r.key t s.0, select_keys-IsSorted p t s.1)
  | inr e ↦ rw e (select_keys-IsSorted p t s.1)
]

-- A selection holds a key exactly if the table does and the key passes the test.
pub find-select_keys :
    (p : Bytes → Bool) (k : Bytes) (t : Table)
    → find k (select_keys p t) ≡ (if p k then find k t else none)
unfolding find
find-select_keys p k [] = ground arith
find-select_keys p k (r ∷ t) = ground (arith, equal_iff k r.key, find-select_keys p k t)

-- Tests that agree on every key select the same rows.
pub select_keys_ext :
    (p q : Bytes → Bool)
    → ((k : Bytes) → p k ≡ q k)
    → (t : Table) → select_keys p t ≡ select_keys q t
select_keys_ext p q h [] = refl
select_keys_ext p q h (r ∷ t) = ground (arith, h r.key, select_keys_ext p q h t)

find_head : (r : Kv) (t : Table) → find r.key (r ∷ t) ≡ some r.value
unfolding find
find_head r t = ground (arith, equal_refl r.key)

find_nil : (k : Bytes) → find k [] ≡ none
unfolding find
find_nil k = refl

-- A table that holds a key has no first row above it.
head-not-above :
    (r q : Kv) (t u : Table)
    → IsSorted (q ∷ u)
    → find r.key (r ∷ t) ≡ find r.key (q ∷ u)
    → blob_lt r.key q.key ≡ false
head-not-above r q t u v h = elim (Bool-cases (blob_lt r.key q.key)) [
  | inr l ↦ l
  | inl l ↦ cc (find_head r t, h, find-Above r.key (q ∷ u) (l, Above-trans r.key q.key u l v.0))
]

head_key :
    (r q : Kv) (t u : Table)
    → IsSorted (r ∷ t)
    → IsSorted (q ∷ u)
    → ((k : Bytes) → find k (r ∷ t) ≡ find k (q ∷ u))
    → r.key ≡ q.key
head_key r q t u s v h =
    blob_lt_total r.key q.key (head-not-above r q t u v (h r.key))
      (head-not-above q r u t s (sym (h q.key)))

tail_find :
    (r q : Kv) (t u : Table) (k : Bytes)
    → IsSorted (r ∷ t)
    → IsSorted (q ∷ u)
    → r.key ≡ q.key
    → find k (r ∷ t) ≡ find k (q ∷ u)
    → find k t ≡ find k u
unfolding find
tail_find r q t u k s v e h =
    ground
      (arith, equal_iff k r.key, equal_iff k q.key, find-Above r.key t s.0, find-Above q.key u v.0)

head_value :
    (r q : Kv) (t u : Table)
    → r.key ≡ q.key
    → find r.key (r ∷ t) ≡ find r.key (q ∷ u)
    → r.value ≡ q.value
unfolding find
head_value r q t u e h = ground (arith, equal_iff r.key q.key, equal_refl r.key)

head_eq : (r q : Kv) → r.key ≡ q.key → r.value ≡ q.value → r ≡ q
head_eq r q e f = ground arith

-- Two tables in key order with the same rows are one table.
pub table_ext :
    (t u : Table) → IsSorted t → IsSorted u → ((k : Bytes) → find k t ≡ find k u) → t ≡ u
table_ext [] [] s v h = refl
table_ext [] (q ∷ u) s v h = cc (h q.key, find_head q u, find_nil q.key)
table_ext (r ∷ t) [] s v h = cc (h r.key, find_head r t, find_nil r.key)
table_ext (r ∷ t) (q ∷ u) s v h =
    let e : r.key ≡ q.key = head_key r q t u s v h in
    cc (
      head_eq r q e (head_value r q t u e (h r.key)),
      table_ext t u s.1 v.1 (λ k. tail_find r q t u k s v e (h k)),
    )
