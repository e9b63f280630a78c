-- ===== src/Kvfsm/Acl/Permission.antt =====
-- pkg/kvfsm/fsm_acl.go, IsPermittedForCommand, against the rows that it stands on.

use libp2p_kv_raft.Base.{
  ◌≡◌, ◌≤◌, refl, sym, ap, ◌∙◌, true, some, List, [], ◌∷◌, ◌++◌, All, arith, Bytes, IsBytes, length,
  if◌then◌else◌, Bool-cases, inl, inr, ◌↔◌, equal, equal→eq, has_prefix→append, has_prefix-append,
  append_assoc, put_uint16,
}
use libp2p_kv_raft.Outcome.{ok}
use libp2p_kv_raft.Store.Rows.{Kv, Table, find, in_half_open}
use libp2p_kv_raft.Store.Rows.Selection.{select_keys, find-select_keys}
use libp2p_kv_raft.Store.Rows.Listing.{IsSorted-distinct, All-find, All-select_keys}
use libp2p_kv_raft.Store.Prefix.{prefix_upper_bound, prefix_range}
use libp2p_kv_raft.Store.Effects.{get_runs}
use libp2p_kv_raft.Store.Sqlite.{Database, IsReliable}
use libp2p_kv_raft.Shmevent.Catalog.{group_key, peer_group_key, parse_group_command_key}
use libp2p_kv_raft.Shmevent.Framing.{cut_prefixed_lem}
use libp2p_kv_raft.Kvfsm.Acl.{group_admits, any_group_admits, is_permitted_for_command}
use libp2p_kv_raft.Kvfsm.Cascade.Commands.{links_of, links_of_lem, scan_prefix_runs}
use libp2p_kv_raft.Kvfsm.Acl.Access.{
  member_key, IsLinkedOpen, admits, admits_sound, admits_complete,
}

parse_link :
    (command_id group_id : Bytes)
    → length command_id ≤ 0xffff
    → parse_group_command_key (links_of command_id ++ group_id) ≡ ok (command_id, group_id)
unfolding parse_group_command_key put_uint16
parse_link command_id group_id h =
    rw (append_assoc command_id [] group_id) (cut_prefixed_lem command_id group_id (omega arith))

module _ (D : Database) (R : IsReliable D) where
  open D use {Db, rows}

  group_admits_runs :
      (s : Db) (peer_id group_id : Bytes)
      → length peer_id ≤ 0xffff
      → group_admits D s peer_id group_id ≡ ok (admits (rows s) peer_id group_id)
  unfolding peer_group_key
  group_admits_runs s peer_id group_id h =
      ground
        (arith, get_runs D R s (group_key group_id), get_runs D R s (member_key peer_id group_id))

  -- A row that the scan of a command's links returns.
  abbrev IsLink : Db → Bytes → Kv → Type 0
  IsLink s command_id m =
      ((group_id : Bytes) × (m.key ≡ links_of command_id ++ group_id))
      × (find m.key (rows s) ≡ some m.value)

  links_are_links :
      (s : Db) (command_id : Bytes)
      → ((k v : Bytes) → find k (rows s) ≡ some v → IsBytes k)
      → All (IsLink s command_id) (
          select_keys
            (in_half_open (links_of command_id) (prefix_upper_bound (links_of command_id)))
            (rows s))
  links_are_links s command_id b =
      All-map
        (select_keys (in_half_open (links_of command_id) (prefix_upper_bound (links_of command_id)))
          (rows s))
        (All-select_keys (λ m. IsBytes m.key × (find m.key (rows s) ≡ some m.value)) _ (rows s)
          (All-find (λ k v. IsBytes k × (find k (rows s) ≡ some v)) (rows s)
            (IsSorted-distinct (rows s) (D.rows_sorted s)) (λ k v e. (b k v e, e))))
    where
      All-map :
          (t : Table)
          → All
              (λ m.
                (in_half_open (links_of command_id) (prefix_upper_bound (links_of command_id)) m.key
                  ≡ true)
                × (IsBytes m.key × (find m.key (rows s) ≡ some m.value)))
              t
          → All (IsLink s command_id) t
      All-map [] h = tt
      All-map (m ∷ t) h = (
        (
          has_prefix→append m.key (links_of command_id)
              (sym (prefix_range (links_of command_id) m.key h.0.1.0) ∙ h.0.0),
          h.0.1.1,
        ),
        All-map t h.1,
      )

  round :
      (s : Db) (command_id peer_id group_id : Bytes) (m : Kv) (ms : List Kv)
      → length command_id ≤ 0xffff
      → length peer_id ≤ 0xffff
      → m.key ≡ links_of command_id ++ group_id
      → any_group_admits D s peer_id (m ∷ ms)
        ≡ (if admits (rows s) peer_id group_id then ok true else any_group_admits D s peer_id ms)
  unfolding any_group_admits
  round s command_id peer_id group_id m ms hc hp e =
      rw (e, parse_link command_id group_id hc) (rw (group_admits_runs s peer_id group_id hp) refl)

  any_sound :
      (s : Db) (command_id peer_id : Bytes) (ms : List Kv)
      → length command_id ≤ 0xffff
      → length peer_id ≤ 0xffff
      → All (IsLink s command_id) ms
      → any_group_admits D s peer_id ms ≡ ok true
      → IsLinkedOpen (rows s) command_id peer_id
  unfolding any_group_admits
  any_sound s command_id peer_id [] hc hp l h = absurd (ground arith)
  any_sound s command_id peer_id (m ∷ ms) hc hp (((group_id, e), f), l) h =
      elim (Bool-cases (admits (rows s) peer_id group_id)) [
        | inl a ↦ (
          group_id,
          m.value,
          ap (λ k. find k (rows s)) (sym e) ∙ f,
          admits_sound (rows s) peer_id group_id a,
        )
        | inr a ↦
            any_sound s command_id peer_id ms hc hp l
              (ground (arith, round s command_id peer_id group_id m ms hc hp e))
      ]

  any_complete :
      (s : Db) (command_id peer_id group_id v : Bytes) (ms : List Kv)
      → length command_id ≤ 0xffff
      → length peer_id ≤ 0xffff
      → All (IsLink s command_id) ms
      → find (links_of command_id ++ group_id) ms ≡ some v
      → admits (rows s) peer_id group_id ≡ true
      → any_group_admits D s peer_id ms ≡ ok true
  unfolding find
  any_complete s command_id peer_id group_id v [] hc hp l f a = absurd (ground arith)
  any_complete s command_id peer_id group_id v (m ∷ ms) hc hp (((g, e), q), l) f a =
      elim (Bool-cases (equal (links_of command_id ++ group_id) m.key)) [
        | inl x ↦
            round s command_id peer_id group_id m ms hc hp (sym (equal→eq _ m.key x)) ∙ rw a refl
        | inr x ↦
            round s command_id peer_id g m ms hc hp e
            ∙ ground (arith, any_complete s command_id peer_id group_id v ms hc hp l)
      ]

  permitted_lem :
      (s : Db) (command_id peer_id : Bytes)
      → length command_id ≤ 0xffff
      → is_permitted_for_command D s command_id peer_id
        ≡ any_group_admits D s peer_id (
            select_keys
              (in_half_open (links_of command_id) (prefix_upper_bound (links_of command_id)))
              (rows s))
  unfolding is_permitted_for_command
  permitted_lem s command_id peer_id h =
      rw (links_of_lem D R command_id h) (rw (scan_prefix_runs D R s (links_of command_id)) refl)

  -- On a reliable database whose keys are strings of bytes, for ids that fit in 16 bits, a peer may
  -- execute a command exactly if a group that the command is linked to has the Public flag or has
  -- the peer as a member.
  pub is_permitted_for_command_iff :
      (s : Db) (command_id peer_id : Bytes)
      → length command_id ≤ 0xffff
      → length peer_id ≤ 0xffff
      → ((k v : Bytes) → find k (rows s) ≡ some v → IsBytes k)
      → (is_permitted_for_command D s command_id peer_id ≡ ok true)
        ↔ IsLinkedOpen (rows s) command_id peer_id
  is_permitted_for_command_iff s command_id peer_id hc hp b = (
    λ h.
        any_sound s command_id peer_id _ hc hp (links_are_links s command_id b)
          (sym (permitted_lem s command_id peer_id hc) ∙ h),
    λ (group_id, v, f, o).
        permitted_lem s command_id peer_id hc
        ∙ any_complete s command_id peer_id group_id v _ hc hp (links_are_links s command_id b)
            (found group_id v f) (admits_complete (rows s) peer_id group_id o),
  )
    where
      found :
          (group_id v : Bytes)
          → find (links_of command_id ++ group_id) (rows s) ≡ some v
          → find (links_of command_id ++ group_id) (
              select_keys
                (in_half_open (links_of command_id) (prefix_upper_bound (links_of command_id)))
                (rows s))
            ≡ some v
      found group_id v f =
          find-select_keys _ (links_of command_id ++ group_id) (rows s)
          ∙ (rw
              (
                prefix_range (links_of command_id) (links_of command_id ++ group_id) (b _ v f),
                has_prefix-append (links_of command_id) group_id,
              )
              f)
