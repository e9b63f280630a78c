-- ===== src/Kvfsm/Apply/ListCap.antt =====
-- pkg/kvfsm/fsm_acl.go, checkSystemListCap: the lists of system records and their limits.
use libp2p_kv_raft.Base.{
  ℕ, suc, ◌≡◌, ◌≤◌, ◌<◌, refl, sym, ap, ◌∙◌, Bool, true, false, ◌&&◌, Option, none, some, [], ◌∷◌,
  arith, Bytes, IsBytes, length, ◌⊎◌, inl, inr, Bool-cases, equal, equal→eq, blob_lt, has_prefix,
}
use libp2p_kv_raft.Outcome.{Result, ok, err, ◌>>=◌ as bind, is_not_found, >>=-eq-ok}
use libp2p_kv_raft.Exec.{read-eq-ok}
use libp2p_kv_raft.Store
use libp2p_kv_raft.Store.Rows.{Table, IsSorted, find, put, in_half_open}
use libp2p_kv_raft.Store.Rows.Laws.{find-Above, Above-trans}
use libp2p_kv_raft.Store.Rows.Selection.{select_keys}
use libp2p_kv_raft.Store.Prefix.{prefix_upper_bound, prefix_range}
use libp2p_kv_raft.Store.Transaction.{set_ok}
use libp2p_kv_raft.Store.Scan.{get_ok, count_prefix_ok}
use libp2p_kv_raft.Store.Sqlite.{Database}
use libp2p_kv_raft.Shmevent.System.{system_key}
use libp2p_kv_raft.Kvfsm.Acl.{
  KeyShape, ordinary, system, key_shape, system_list_limit, check_system_list_cap, is_present,
  check_group_name_unique, preserve_command_spec,
}
use libp2p_kv_raft.Kvfsm.Acl
use libp2p_kv_raft.Kvfsm.Apply.{apply_set}

abbrev is_new : Option Bytes → Bool
is_new none = true
is_new (some v) = false

abbrev grown : Bool → ℕ → ℕ
grown true n = suc n
grown false n = n

-- A put adds one row to a selection where the key is selected and new, and none otherwise.
count-put :
    (q : Bytes → Bool) (k v : Bytes) (t : Table)
    → IsSorted t
    → length (select_keys q (put k v t))
      ≡ grown (q k && is_new (find k t)) (length (select_keys q t))
unfolding put find
count-put q k v [] s = ground arith
count-put q k v (r ∷ t) s = elim (Bool-cases (equal k r.key)) [
  | inl e ↦ rw e (ground (arith, equal→eq k r.key e))
  | inr e ↦ rw e (elim (Bool-cases (blob_lt k r.key)) [
    | inl l ↦ rw (l, find-Above k t (Above-trans k r.key t l s.0)) (ground arith)
    | inr l ↦ rw l (ground (arith, count-put q k v t s.1))
  ])
]

-- The rows of one list.
abbrev pub list_count : ℕ → ℕ → Table → ℕ
list_count kind status t = length (
    select_keys
      (in_half_open (system_key kind status []) (prefix_upper_bound (system_key kind status []))) t)

-- A key that begins with a list's prefix has the list's shape.
shape_of_prefix :
    (kind status : ℕ) (k : Bytes)
    → has_prefix k (system_key kind status []) ≡ true
    → (id : Bytes) × (key_shape k ≡ system kind status id)
unfolding key_shape
shape_of_prefix kind status [] h = absurd (ground arith)
shape_of_prefix kind status (a ∷ []) h = absurd (ground arith)
shape_of_prefix kind status (a ∷ b ∷ []) h = absurd (ground arith)
shape_of_prefix kind status (a ∷ b ∷ c ∷ id) h = (id, ground arith)

module _ (D : Database) where
  open D use {Db, rows}

  counted :
      (s : Db) (key : Bytes) (kind status : ℕ)
      → Acl.check_count D s kind status ≡ ok tt
      → list_count kind status (rows s) < system_list_limit kind
  counted s key kind status h =
      let (n, p, q) = >>=-eq-ok (Store.count_prefix D s (system_key kind status [])) _ h in
      ground (arith, count_prefix_ok D s (system_key kind status []) n p)

  -- Where the check of a system key passes, the key is there or its list has room.
  checked :
      (s : Db) (key : Bytes) (kind status : ℕ) (id : Bytes)
      → key_shape key ≡ system kind status id
      → check_system_list_cap D s key ≡ ok tt
      → (is_new (find key (rows s)) ≡ false)
        ⊎ (list_count kind status (rows s) < system_list_limit kind)
  unfolding check_system_list_cap
  checked s key kind status id e h =
      go (Store.get D s key) refl (ap (Acl.check_cap_of D s key) (sym e) ∙ h)
    where
      go :
          (r : Result Bytes)
          → Store.get D s key ≡ r
          → bind (is_present r) (λ present. Acl.check_new D s kind status present) ≡ ok tt
          → (is_new (find key (rows s)) ≡ false)
            ⊎ (list_count kind status (rows s) < system_list_limit kind)
      go (ok v) q h = inl (rw (get_ok D s key v q) refl)
      go (err x) q h = elim (Bool-cases (is_not_found x)) [
        | inl n ↦ inr (counted s key kind status (ground arith))
        | inr n ↦ absurd (ground arith)
      ]

  -- What passes when a set succeeds.
  pub apply_set_ok :
      (key value : Bytes) (s s' : Db)
      → apply_set D key value s ≡ (ok tt, s')
      → (merged : Bytes) × (check_system_list_cap D s key ≡ ok tt)
        × (check_group_name_unique D s key value ≡ ok tt)
        × (preserve_command_spec D s key value ≡ ok merged)
        × (rows s' ≡ put key merged (rows s))
  unfolding apply_set
  apply_set_ok key value s s' h =
      let (u, p, h1) = read-eq-ok (check_system_list_cap D s key) s _ h in
      let (u', p', h2) = read-eq-ok (check_group_name_unique D s key value) s _ h1 in
      let (m, p'', h3) = read-eq-ok (preserve_command_spec D s key value) s _ h2 in
      (m, p, p', p'', set_ok D key m s tt s' h3)

  -- A put of a key that passes the check keeps a list within its limit.
  pub put_within_limit :
      (key m : Bytes) (s : Db) (kind status : ℕ)
      → IsBytes key
      → check_system_list_cap D s key ≡ ok tt
      → list_count kind status (rows s) ≤ system_list_limit kind
      → list_count kind status (put key m (rows s)) ≤ system_list_limit kind
  put_within_limit key m s kind status b c n =
      let e : list_count kind status (put key m (rows s))
          ≡ grown (has_prefix key (system_key kind status []) && is_new (find key (rows s)))
              (list_count kind status (rows s)) =
        count-put _ key m (rows s) (D.rows_sorted s)
        ∙ ap
            (λ (x : Bool).
              grown (x && is_new (find key (rows s))) (list_count kind status (rows s)))
            (prefix_range (system_key kind status []) key b) in
      rw e (go (Bool-cases (has_prefix key (system_key kind status []))))
    where
      go :
          ((has_prefix key (system_key kind status []) ≡ true)
            ⊎ (has_prefix key (system_key kind status []) ≡ false))
          → grown
              (has_prefix key (system_key kind status []) && is_new (find key (rows s)))
              (list_count kind status (rows s))
            ≤ system_list_limit kind
      go (inl t) =
          let (id, e) = shape_of_prefix kind status key t in
          elim (checked s key kind status id e c) [
            | inl old ↦ rw (t, old) n
            | inr room ↦ ground arith
          ]
      go (inr f) = rw f n

  -- A set of a key of bytes that succeeds, on any database, keeps every list of system records that
  -- is within its limit within it.
  pub apply_set_within_limit :
      (key value : Bytes) (s s' : Db) (kind status : ℕ)
      → IsBytes key
      → apply_set D key value s ≡ (ok tt, s')
      → list_count kind status (rows s) ≤ system_list_limit kind
      → list_count kind status (rows s') ≤ system_list_limit kind
  apply_set_within_limit key value s s' kind status b h n =
      let (m, c, u, p, q) = apply_set_ok key value s s' h in
      rw q (put_within_limit key m s kind status b c n)
