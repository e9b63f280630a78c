-- ===== src/Kvfsm/Acl/Access.antt =====
-- pkg/kvfsm/fsm_acl.go: which groups are open to a peer, as a property of a table.
use libp2p_kv_raft.Base.{
  ◌≡◌, refl, ap, ◌∙◌, Bool, true, false, ◌||◌, Option, none, some, ◌++◌, arith, Bytes, Bool-cases,
  ◌⊎◌, inl, inr,
}
use libp2p_kv_raft.Outcome.{Result, ok, err}
use libp2p_kv_raft.Store.{or_not_found}
use libp2p_kv_raft.Store.Rows.{Table, find}
use libp2p_kv_raft.Shmevent.System.{system_key, kind_peer_group}
use libp2p_kv_raft.Shmevent.Catalog.{
  group_key, decode_group_payload, length_prefixed, catalog_status_placeholder,
}
use libp2p_kv_raft.Kvfsm.Acl.{is_public, is_there}
use libp2p_kv_raft.Kvfsm.Cascade.Commands.{links_of}

-- The key of a peer's membership of a group.
abbrev pub member_key : Bytes → Bytes → Bytes
member_key peer_id group_id =
    system_key kind_peer_group catalog_status_placeholder (length_prefixed peer_id group_id)

-- A group is open to a peer: its record has the Public flag, or the peer is a member.
abbrev pub IsOpenTo : Table → Bytes → Bytes → Type 0
IsOpenTo t peer_id group_id =
    ((payload : Bytes) × (name : Bytes) × (find (group_key group_id) t ≡ some payload)
      × (decode_group_payload payload ≡ ok (name, true)))
    ⊎ ((v : Bytes) × (find (member_key peer_id group_id) t ≡ some v))

-- A command is linked to a group that is open to the peer.
abbrev pub IsLinkedOpen : Table → Bytes → Bytes → Type 0
IsLinkedOpen t command_id peer_id =
    (group_id : Bytes) × (v : Bytes) × (find (links_of command_id ++ group_id) t ≡ some v)
    × IsOpenTo t peer_id group_id

-- The test of one group, on the rows.
abbrev pub admits : Table → Bytes → Bytes → Bool
admits t peer_id group_id =
    is_public (or_not_found (find (group_key group_id) t))
    || is_there (or_not_found (find (member_key peer_id group_id) t))

public_iff :
    (o : Option Bytes)
    → is_public (or_not_found o) ≡ true
    → (payload : Bytes) × (name : Bytes) × (o ≡ some payload)
      × (decode_group_payload payload ≡ ok (name, true))
public_iff none h = absurd (ground arith)
public_iff (some payload) h = go (decode_group_payload payload) refl h
  where
    go :
        (r : Result (Bytes × Bool))
        → decode_group_payload payload ≡ r
        → (elim r [ ok d ↦ d.1 | err e ↦ false ]) ≡ true
        → (payload' : Bytes) × (name : Bytes) × (some payload ≡ some payload')
          × (decode_group_payload payload' ≡ ok (name, true))
    go (ok d) e h = (payload, d.0, refl, e ∙ ground arith)
    go (err x) e h = absurd (ground arith)

there_iff : (o : Option Bytes) → is_there (or_not_found o) ≡ true → (v : Bytes) × (o ≡ some v)
there_iff none h = absurd (ground arith)
there_iff (some v) h = (v, refl)

pub admits_sound :
    (t : Table) (peer_id group_id : Bytes)
    → admits t peer_id group_id ≡ true
    → IsOpenTo t peer_id group_id
admits_sound t peer_id group_id h =
    elim (Bool-cases (is_public (or_not_found (find (group_key group_id) t)))) [
      | inl p ↦ inl (public_iff (find (group_key group_id) t) p)
      | inr p ↦ inr (there_iff (find (member_key peer_id group_id) t) (ground arith))
    ]

flag_lem :
    (payload name : Bytes)
    → decode_group_payload payload ≡ ok (name, true)
    → is_public (ok payload) ≡ true
flag_lem payload name d =
    ap (λ (r : Result (Bytes × Bool)). elim r [ ok d ↦ d.1 | err e ↦ false ]) d

pub admits_complete :
    (t : Table) (peer_id group_id : Bytes)
    → IsOpenTo t peer_id group_id
    → admits t peer_id group_id ≡ true
admits_complete t peer_id group_id (inl (payload, name, e, d)) =
    rw (e, flag_lem payload name d) refl
admits_complete t peer_id group_id (inr (v, e)) =
    rw e (go (is_public (or_not_found (find (group_key group_id) t))))
  where
    go : (b : Bool) → (b || true) ≡ true
    go true = refl
    go false = refl
