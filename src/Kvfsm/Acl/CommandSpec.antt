-- ===== src/Kvfsm/Acl/CommandSpec.antt =====
-- pkg/kvfsm/fsm_acl.go, preserveCommandSpec, in terms of the rows.
use libp2p_kv_raft.Base.{
  ℕ, ◌≡◌, refl, sym, ap, ◌∙◌, Bool, true, false, ◌||◌, ◌&&◌, not, some, [], ◌∷◌, arith, Bytes,
  length, if◌then◌else◌, leb, ltb, ◌==◌,
}
use libp2p_kv_raft.Outcome.{wrap-eq-ok, Result, ok, wrap, command_spec, ◌>>=◌, >>=-eq-ok}
use libp2p_kv_raft.Store
use libp2p_kv_raft.Store.{or_not_found}
use libp2p_kv_raft.Store.Rows.{find}
use libp2p_kv_raft.Store.Effects.{get_runs}
use libp2p_kv_raft.Store.Sqlite.{Database, IsReliable}
use libp2p_kv_raft.Shmevent.Catalog.{command_key}
use libp2p_kv_raft.Shmevent.CommandPayload.{
  decode_command_payload, decode_command_payload_spec, decode_command_payload_full,
  encode_command_payload_with_spec, check_command_name_len,
}
use libp2p_kv_raft.Shmevent.RoundTrip.{decode_command_payload-encode_command_payload}
use libp2p_kv_raft.Kvfsm.Acl
use libp2p_kv_raft.Kvfsm.Acl.{preserve_command_spec, key_shape}

fits :
    (name peer_id merged : Bytes) (c : ℕ) (spec : Bytes)
    → encode_command_payload_with_spec name peer_id (c ∷ spec) ≡ ok merged
    → (leb 0xffff (length name) || (not (length (c ∷ spec) == 0) && ltb 0xffff (length peer_id)))
      ≡ false
unfolding encode_command_payload_with_spec check_command_name_len
fits name peer_id merged c spec h = ground arith

-- What is encoded can be decoded.
encoded_full :
    (name peer_id merged : Bytes) (c : ℕ) (spec : Bytes)
    → encode_command_payload_with_spec name peer_id (c ∷ spec) ≡ ok merged
    → decode_command_payload_full merged ≡ ok (name, peer_id, c ∷ spec)
encoded_full name peer_id merged c spec h =
    ap (λ (r : Result Bytes). r >>= decode_command_payload_full) (sym h)
    ∙ (decode_command_payload-encode_command_payload name peer_id (c ∷ spec)
        ∙ rw (fits name peer_id merged c spec h) refl)

merged_lem :
    (value merged : Bytes) (c : ℕ) (spec : Bytes) (present : Bool)
    → Acl.merge_spec value (ok (c ∷ spec, present)) ≡ ok merged
    → (name : Bytes) × (peer_id : Bytes) × (decode_command_payload value ≡ ok (name, peer_id))
      × (decode_command_payload_full merged ≡ ok (name, peer_id, c ∷ spec))
merged_lem value merged c spec present h =
    let ((name, peer_id), p, q) =
      >>=-eq-ok (wrap command_spec (decode_command_payload value)) _ h in
    (
      name,
      peer_id,
      wrap-eq-ok _ _ _ p,
      encoded_full name peer_id merged c spec (wrap-eq-ok _ _ _ q),
    )

module _ (D : Database) (R : IsReliable D) where
  open D use {Db, rows}

  -- On a reliable database, where a command's record has a spec that is not empty, a value without
  -- the field that is written under its key is stored with that spec: the payload to store has the
  -- value's name and peer, and the old spec. (A value that cannot be merged is refused.)
  pub preserve_command_spec_lem :
      (s : Db) (id value existing merged : Bytes) (c : ℕ) (spec : Bytes)
      → find (command_key id) (rows s) ≡ some existing
      → decode_command_payload_spec existing ≡ ok (c ∷ spec, true)
      → decode_command_payload_spec value ≡ ok ([], false)
      → preserve_command_spec D s (command_key id) value ≡ ok merged
      → (name : Bytes) × (peer_id : Bytes) × (decode_command_payload value ≡ ok (name, peer_id))
        × (decode_command_payload_full merged ≡ ok (name, peer_id, c ∷ spec))
  unfolding preserve_command_spec key_shape
  preserve_command_spec_lem s id value existing merged c spec f old new h =
      merged_lem value merged c spec true (
        ap (Acl.merge_spec value) (sym old)
        ∙ (ap (Acl.merge_existing value) (sym (get_runs D R s (command_key id) ∙ ap or_not_found f))
            ∙ (sym (
                  ap
                    (λ (r : Result (Bytes × Bool)). wrap command_spec r >>= λ d.
                      if d.1
                      then ok value
                      else Acl.merge_existing value (Store.get D s (command_key id)))
                    new)
                ∙ h)))
