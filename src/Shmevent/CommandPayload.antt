-- ===== src/Shmevent/CommandPayload.antt =====
-- pkg/shmevent/catalog.go: a Command record's value, in its two formats.
use libp2p_kv_raft.Base.{
  ℕ, ◌+◌, ◌-◌, Bool, true, false, not, [], ◌∷◌, Bytes, length, ◌==◌, if◌then◌else◌, take, drop, ltb,
  leb, get_uint16,
}
use libp2p_kv_raft.Outcome.{Result, ok, err, ◌>>=◌, ◌>>◌, guard, too_short, too_long, truncated}
use libp2p_kv_raft.Shmevent.Catalog.{length_prefixed, cut_prefixed}

abbrev pub command_payload_v2_sentinel : ℕ
command_payload_v2_sentinel = 0xffff

unfoldable pub check_command_name_len : Bytes → Result (Unit {0})
check_command_name_len name =
    if leb command_payload_v2_sentinel (length name) then err too_long else ok tt

unfoldable pub encode_command_payload : Bytes → Bytes → Result Bytes
unfolding check_command_name_len
encode_command_payload name peer_id = do
  check_command_name_len name
  ok (length_prefixed name peer_id)

-- The v2 layout: two bytes 0xFF, the name and the peer id behind their lengths, and the spec.
abbrev pub v2_layout : Bytes → Bytes → Bytes → Bytes
v2_layout name peer_id spec = 0xff ∷ 0xff ∷ length_prefixed name (length_prefixed peer_id spec)

abbrev pub encode_v2 : Bytes → Bytes → Bytes → Result Bytes
encode_v2 name peer_id spec = do
  check_command_name_len name
  guard (not (ltb 0xffff (length peer_id))) too_long
  ok (v2_layout name peer_id spec)

unfoldable pub encode_command_payload_with_spec : Bytes → Bytes → Bytes → Result Bytes
unfolding encode_command_payload check_command_name_len
encode_command_payload_with_spec name peer_id [] = encode_command_payload name peer_id
encode_command_payload_with_spec name peer_id (c ∷ spec) = encode_v2 name peer_id (c ∷ spec)

unfoldable pub encode_command_payload_clearing_spec : Bytes → Bytes → Result Bytes
unfolding encode_command_payload_with_spec
encode_command_payload_clearing_spec name peer_id = do
  payload ← encode_command_payload_with_spec name peer_id (0 ∷ [])
  ok (take (length payload - 1) payload)

unfoldable pub command_put_payload_has_spec : Bytes → Bool
command_put_payload_has_spec (hi ∷ lo ∷ _) = get_uint16 hi lo == command_payload_v2_sentinel
command_put_payload_has_spec _ = false

-- A v2 body, behind the two bytes of the marker: `off+nameLen+2 > len(payload)` leaves room for
-- the peer id's length, `off+peerLen > len(payload)` for the peer id.
abbrev pub cut_peer : Bytes → Bytes → Result (Bytes × Bytes × Bytes)
cut_peer name (hi ∷ lo ∷ body) = do
  (peer_id, spec) ← cut_prefixed hi lo body
  ok (name, peer_id, spec)
cut_peer name _ = err truncated

abbrev pub decode_v2 : Bytes → Result (Bytes × Bytes × Bytes)
decode_v2 (hi ∷ lo ∷ body) =
    let n = get_uint16 hi lo in
    if ltb (length body) (n + 2) then err truncated else cut_peer (take n body) (drop n body)
decode_v2 _ = err truncated

unfoldable pub decode_command_payload_full : Bytes → Result (Bytes × Bytes × Bytes)
decode_command_payload_full (hi ∷ lo ∷ body) =
    if get_uint16 hi lo == command_payload_v2_sentinel
    then decode_v2 body
    else (do (name, peer_id) ← cut_prefixed hi lo body; ok (name, peer_id, []))
decode_command_payload_full _ = err too_short

unfoldable pub decode_command_payload : Bytes → Result (Bytes × Bytes)
unfolding decode_command_payload_full
decode_command_payload payload = do
  (name, peer_id, spec) ← decode_command_payload_full payload
  ok (name, peer_id)

-- The spec, and whether the payload has the field at all.
unfoldable pub decode_command_payload_spec : Bytes → Result (Bytes × Bool)
unfolding decode_command_payload_full
decode_command_payload_spec (hi ∷ lo ∷ body) =
    if get_uint16 hi lo == command_payload_v2_sentinel
    then (do (name, peer_id, spec) ← decode_command_payload_full (hi ∷ lo ∷ body); ok (spec, true))
    else ok ([], false)
decode_command_payload_spec _ = err too_short
