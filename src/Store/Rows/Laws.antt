-- ===== src/Store/Rows/Laws.antt =====
-- Lookup after a write or a delete, and the order of the rows.
use libp2p_kv_raft.Base.{
  ◌≡◌, refl, true, false, none, some, [], ◌∷◌, arith, if◌then◌else◌, Bytes, equal, equal→eq,
  equal_iff, blob_lt, blob_lt_irrefl, blob_lt_trans, blob_lt_total, inl, inr, Bool-cases,
}
use libp2p_kv_raft.Store.Rows.{Table, find, put, remove, Above, IsSorted}

-- equal, as a test, of two keys in either order
pub equal_comm : (a b : Bytes) → equal a b ≡ equal b a
equal_comm [] [] = refl
equal_comm [] (y ∷ ys) = refl
equal_comm (x ∷ xs) [] = refl
equal_comm (x ∷ xs) (y ∷ ys) = ground (arith, equal_comm xs ys)

pub find-put :
    (j k v : Bytes) (t : Table) → find j (put k v t) ≡ (if equal j k then some v else find j t)
unfolding find put
find-put j k v [] = refl
find-put j k v (r ∷ t) =
    ground (arith, equal_iff j k, equal_iff k r.key, equal_iff j r.key, find-put j k v t)

pub find-remove_ne : (j k : Bytes) (t : Table) → equal j k ≡ false → find j (remove k t) ≡ find j t
unfolding find remove
find-remove_ne j k [] h = refl
find-remove_ne j k (r ∷ t) h =
    ground (arith, equal_iff j k, equal_iff k r.key, equal_iff j r.key, find-remove_ne j k t)

pub find-Above : (k : Bytes) (t : Table) → Above k t → find k t ≡ none
unfolding find
find-Above k [] h = refl
find-Above k (r ∷ t) h = ground (arith, equal_iff k r.key, blob_lt_irrefl k, find-Above k t)

pub find-remove_self : (k : Bytes) (t : Table) → IsSorted t → find k (remove k t) ≡ none
unfolding find remove
find-remove_self k [] h = refl
find-remove_self k (r ∷ t) h =
    ground (arith, equal_iff k r.key, find-Above r.key t, find-remove_self k t)

pub find-remove :
    (j k : Bytes) (t : Table)
    → IsSorted t
    → find j (remove k t) ≡ (if equal j k then none else find j t)
find-remove j k t h = ground (arith, equal_iff j k, find-remove_self k t, find-remove_ne j k t)

pub Above-trans : (a b : Bytes) (t : Table) → blob_lt a b ≡ true → Above b t → Above a t
Above-trans a b [] h s = tt
Above-trans a b (r ∷ t) h s = (blob_lt_trans a b r.key h s.0, Above-trans a b t h s.1)

Above-put : (a k v : Bytes) (t : Table) → blob_lt a k ≡ true → Above a t → Above a (put k v t)
unfolding put
Above-put a k v [] h s = (h, tt)
Above-put a k v (r ∷ t) h s = elim (Bool-cases (equal k r.key)) [
  | inl e ↦ rw e (h, s.1)
  | inr e ↦ rw e (elim (Bool-cases (blob_lt k r.key)) [
    | inl l ↦ rw l (h, s)
    | inr l ↦ rw l (s.0, Above-put a k v t h s.1)
  ])
]

Above-remove : (a k : Bytes) (t : Table) → Above a t → Above a (remove k t)
unfolding remove
Above-remove a k [] s = tt
Above-remove a k (r ∷ t) s = elim (Bool-cases (equal k r.key)) [
  | inl e ↦ rw e s.1
  | inr e ↦ rw e (s.0, Above-remove a k t s.1)
]

-- A key that is neither equal to another nor below it is above it.
pub blob_lt_of_ne : (a b : Bytes) → equal a b ≡ false → blob_lt a b ≡ false → blob_lt b a ≡ true
blob_lt_of_ne a b e l = elim (Bool-cases (blob_lt b a)) [
  | inl h ↦ h
  | inr h ↦ ground (arith, equal_iff a b, blob_lt_total a b l h)
]

pub put-IsSorted : (k v : Bytes) (t : Table) → IsSorted t → IsSorted (put k v t)
unfolding put
put-IsSorted k v [] s = (tt, tt)
put-IsSorted k v (r ∷ t) s = elim (Bool-cases (equal k r.key)) [
  | inl e ↦ rw (e, equal→eq k r.key e) s
  | inr e ↦ rw e (elim (Bool-cases (blob_lt k r.key)) [
    | inl l ↦ rw l ((l, Above-trans k r.key t l s.0), s)
    | inr l ↦ rw l (Above-put r.key k v t (blob_lt_of_ne k r.key e l) s.0, put-IsSorted k v t s.1)
  ])
]

pub remove-IsSorted : (k : Bytes) (t : Table) → IsSorted t → IsSorted (remove k t)
unfolding remove
remove-IsSorted k [] s = tt
remove-IsSorted k (r ∷ t) s = elim (Bool-cases (equal k r.key)) [
  | inl e ↦ rw e s.1
  | inr e ↦ rw e (Above-remove r.key k t s.0, remove-IsSorted k t s.1)
]
