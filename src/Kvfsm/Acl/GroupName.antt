-- ===== src/Kvfsm/Acl/GroupName.antt =====
-- pkg/kvfsm/fsm_acl.go, checkGroupNameUnique, in terms of the rows.
use libp2p_kv_raft.Base.{
  ℕ, zero, suc, ◌≡◌, ◌≤◌, refl, sym, ap, ◌∙◌, Bool, true, false, some, List, [], ◌∷◌, arith, Bytes,
  IsBytes, length, replicate, if◌then◌else◌, equal, equal→eq, blob_lt, Bool-cases, inl, inr,
}
use libp2p_kv_raft.Outcome.{Result, ok, err, ◌>>=◌, >>=-eq-ok, name_taken}
use libp2p_kv_raft.Store
use libp2p_kv_raft.Store.Rows.{Kv, find, in_closed}
use libp2p_kv_raft.Store.Rows.Selection.{find-select_keys}
use libp2p_kv_raft.Store.Rows.Laws.{find-put}
use libp2p_kv_raft.Store.Scan.{scan_range_ok}
use libp2p_kv_raft.Store.Sqlite.{Database}
use libp2p_kv_raft.Shmevent.System.{kind_group}
use libp2p_kv_raft.Shmevent.Catalog.{group_key, key_list_bounds, decode_group_payload}
use libp2p_kv_raft.Kvfsm.Acl.{check_names, check_group_name_unique, key_shape}
use libp2p_kv_raft.Kvfsm.Apply.{apply_set}
use libp2p_kv_raft.Kvfsm.Apply.ListCap.{apply_set_ok}

names_differ :
    (key name : Bytes) (ms : List Kv) (k v other : Bytes) (public : Bool)
    → check_names key name ms ≡ ok tt
    → find k ms ≡ some v
    → equal k key ≡ false
    → decode_group_payload v ≡ ok (other, public)
    → equal other name ≡ false
unfolding check_names find
names_differ key name [] k v other public h f n d = absurd (ground arith)
names_differ key name (m ∷ ms) k v other public h f n d = elim (Bool-cases (equal k m.key)) [
  | inl e ↦ ground (arith, equal→eq k m.key e)
  | inr e ↦
      names_differ key name ms k v other public
        (later (equal m.key key) (decode_group_payload m.value) h) (ground arith) n d
]
  where
    later :
        (b : Bool) (r : Result (Bytes × Bool))
        → (if b
            then check_names key name ms
            else (r >>= λ d. if equal d.0 name then err name_taken else check_names key name ms))
          ≡ ok tt
        → check_names key name ms ≡ ok tt
    later true r h = h
    later false (ok d) h = ground arith
    later false (err e) h = absurd (ground arith)

short_padding :
    (r : Bytes) (n : ℕ) → IsBytes r → length r ≤ n → blob_lt (replicate n 0xff) r ≡ false
short_padding [] zero b h = refl
short_padding [] (suc n) b h = refl
short_padding (x ∷ r) zero b h = absurd (omega arith)
short_padding (x ∷ r) (suc n) b h = ground (arith, short_padding r n b.1)

nothing_below : (r : Bytes) → blob_lt r [] ≡ false
nothing_below [] = refl
nothing_below (x ∷ r) = refl

-- The range that is scanned has the groups whose ids have 64 bytes at most.
groups_in_range :
    (id : Bytes)
    → IsBytes id
    → length id ≤ 64
    → in_closed (key_list_bounds kind_group).0 (key_list_bounds kind_group).1 (group_key id) ≡ true
unfolding key_list_bounds
groups_in_range id b h = rw (nothing_below id, short_padding id 64 b h) refl

module _ (D : Database) where
  open D use {Db, rows}

  names_checked :
      (s : Db) (id value name : Bytes) (public : Bool)
      → check_group_name_unique D s (group_key id) value ≡ ok tt
      → decode_group_payload value ≡ ok (name, public)
      → (ms : List Kv) × (Store.scan_range D s
            (key_list_bounds kind_group).0
            (key_list_bounds kind_group).1
            0
          ≡ ok ms)
        × (check_names (group_key id) name ms ≡ ok tt)
  unfolding check_group_name_unique key_shape
  names_checked s id value name public h d =
      let (e, p, q) = >>=-eq-ok (decode_group_payload value) _ h in
      let (ms, p2, q2) = >>=-eq-ok (Store.scan_range D s _ _ 0) _ q in
      let same : e.0 ≡ name = ground arith in
      (ms, p2, ap (λ (n : Bytes). check_names (group_key id) n ms) (sym same) ∙ q2)

  -- Where a group is set, on any database, no other group with an id of 64 bytes at most has a
  -- record with its name.
  pub group_name_unique :
      (id value name : Bytes) (public : Bool) (s s' : Db)
      → apply_set D (group_key id) value s ≡ (ok tt, s')
      → decode_group_payload value ≡ ok (name, public)
      → (id' value' name' : Bytes) (public' : Bool) → IsBytes id'
      → length id' ≤ 64
      → equal id' id ≡ false
      → find (group_key id') (rows s') ≡ some value'
      → decode_group_payload value' ≡ ok (name', public')
      → equal name' name ≡ false
  group_name_unique id value name public s s' h d id' value' name' public' b l n f d' =
      let (m, c, u, p, q) = apply_set_ok D (group_key id) value s s' h in
      let (ms, e, r) = names_checked s id value name public u d in
      let older : find (group_key id') (rows s) ≡ some value' =
        sym (
          ap (find (group_key id')) q
          ∙ (find-put (group_key id') (group_key id) m (rows s) ∙ rw n refl))
        ∙ f in
      names_differ (group_key id) name ms (group_key id') value' name' public' r
        (ap (find (group_key id')) (scan_range_ok D s _ _ ms e)
          ∙ (find-select_keys _ (group_key id') (rows s) ∙ rw (groups_in_range id' b l) older))
        n d'
