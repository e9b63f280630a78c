-- ===== src/Shmevent/RoundTrip.antt =====
-- The keys and payloads of pkg/shmevent, written and read back.
use libp2p_kv_raft.Base.{
  ℕ, ◌+◌, ◌-◌, ◌^◌, ◌≡◌, ◌||◌, ◌&&◌, not, refl, Bool, true, false, [], ◌∷◌, ◌++◌, Bytes, length,
  ◌==◌, if◌then◌else◌, take, arith, ◌<◌, ltb, leb, put_uint16, get_uint16_lem, length-append,
  take-append, drop-append, append_assoc,
}
use libp2p_kv_raft.Outcome.{ok, err, ◌>>=◌, too_long}
use libp2p_kv_raft.Shmevent.Catalog.{
  length_prefixed, encode_station_payload, decode_station_payload, group_command_key,
  parse_group_command_key, peer_group_key, parse_peer_group_key, encode_group_payload,
  decode_group_payload,
}
use libp2p_kv_raft.Shmevent.CommandPayload.{
  encode_command_payload_with_spec, decode_command_payload_full, decode_command_payload_spec,
  encode_command_payload_clearing_spec, encode_command_payload, check_command_name_len, v2_layout,
}
use libp2p_kv_raft.Shmevent.CommandPayload
use libp2p_kv_raft.Shmevent.Framing.{cut_prefixed_lem}
use libp2p_kv_raft.Shmevent.CommandRequest.{
  encode_command_request_apply_payload, decode_command_request_apply_payload,
}

-- A station's payload is read back, and a name that does not fit in 16 bits is refused.
pub decode_station_payload-encode_station_payload :
    (name attrs : Bytes)
    → (encode_station_payload name attrs >>= decode_station_payload)
      ≡ (if ltb 0xffff (length name) then err too_long else ok (name, attrs))
unfolding encode_station_payload decode_station_payload put_uint16
decode_station_payload-encode_station_payload name attrs =
    ground (arith, cut_prefixed_lem name attrs)

-- The key that links a command to a group is taken apart into the two ids, and a command id that
-- does not fit in 16 bits is refused.
pub parse_group_command_key-group_command_key :
    (command_id group_id : Bytes)
    → (group_command_key command_id group_id >>= parse_group_command_key)
      ≡ (if ltb 0xffff (length command_id) then err too_long else ok (command_id, group_id))
unfolding group_command_key parse_group_command_key put_uint16
parse_group_command_key-group_command_key command_id group_id =
    ground (arith, cut_prefixed_lem command_id group_id)

-- The key of a peer's membership of a group is taken apart into the two ids, and a peer id that
-- does not fit in 16 bits is refused.
pub parse_peer_group_key-peer_group_key :
    (peer_id group_id : Bytes)
    → (peer_group_key peer_id group_id >>= parse_peer_group_key)
      ≡ (if ltb 0xffff (length peer_id) then err too_long else ok (peer_id, group_id))
unfolding peer_group_key parse_peer_group_key put_uint16
parse_peer_group_key-peer_group_key peer_id group_id =
    ground (arith, cut_prefixed_lem peer_id group_id)

-- The author and the record of a command request are read back, and an author that does not fit in
-- 16 bits is refused.
pub decode_command_request-encode_command_request :
    (author value : Bytes)
    → (encode_command_request_apply_payload author value >>= decode_command_request_apply_payload)
      ≡ (if ltb 0xffff (length author) then err too_long else ok (author, value))
unfolding encode_command_request_apply_payload decode_command_request_apply_payload put_uint16
decode_command_request-encode_command_request author value =
    ground (arith, cut_prefixed_lem author value)

-- A group's payload gives back its name and its flag.
pub decode_group_payload-encode_group_payload :
    (name : Bytes) (public : Bool)
    → decode_group_payload (encode_group_payload name public) ≡ ok (name, public)
unfolding decode_group_payload encode_group_payload
decode_group_payload-encode_group_payload name true = refl
decode_group_payload-encode_group_payload name false = refl

full_v1 :
    (name peer_id : Bytes)
    → length name < 0xffff
    → decode_command_payload_full (length_prefixed name peer_id) ≡ ok (name, peer_id, [])
unfolding decode_command_payload_full put_uint16
full_v1 name peer_id h =
    rw (get_uint16_lem (length name) (omega arith), take-append, drop-append, length-append)
      (ground arith)

cut_peer_lem :
    (name peer_id spec : Bytes)
    → length peer_id < 2 ^ 16
    → CommandPayload.cut_peer name (length_prefixed peer_id spec) ≡ ok (name, peer_id, spec)
unfolding put_uint16
cut_peer_lem name peer_id spec h = rw (cut_prefixed_lem peer_id spec h) refl

full_v2 :
    (name peer_id spec : Bytes)
    → length name < 0xffff
    → length peer_id < 2 ^ 16
    → decode_command_payload_full (v2_layout name peer_id spec) ≡ ok (name, peer_id, spec)
unfolding decode_command_payload_full put_uint16
full_v2 name peer_id spec h hp =
    rw
      (
        get_uint16_lem (length name) (omega arith),
        take-append,
        drop-append,
        cut_peer_lem name peer_id spec hp,
        length-append,
      )
      (ground arith)

-- A command's payload gives back its name, its peer and its spec (empty in the layout without
-- one); a name of 0xFFFF bytes or more is refused, and so is a peer id above that next to a spec.
pub decode_command_payload-encode_command_payload :
    (name peer_id spec : Bytes)
    → (encode_command_payload_with_spec name peer_id spec >>= decode_command_payload_full) ≡ (
        if leb 0xffff (length name) || (not (length spec == 0) && ltb 0xffff (length peer_id))
        then err too_long
        else ok (name, peer_id, spec))
unfolding encode_command_payload_with_spec encode_command_payload check_command_name_len
decode_command_payload-encode_command_payload name peer_id [] = ground (arith, full_v1 name peer_id)
decode_command_payload-encode_command_payload name peer_id (c ∷ spec) =
    ground (arith, full_v2 name peer_id (c ∷ spec))

take_but_last : (xs : Bytes) (x : ℕ) → take (length (xs ++ x ∷ []) - 1) (xs ++ x ∷ []) ≡ xs
take_but_last xs x = rw (length-append xs (x ∷ [])) (go (length xs) refl)
  where
    go : (n : ℕ) → n ≡ length xs → take (n + 1 - 1) (xs ++ x ∷ []) ≡ xs
    go n e = ground (arith, take-append xs (x ∷ []))

v2_append :
    (name peer_id a b : Bytes) → v2_layout name peer_id (a ++ b) ≡ v2_layout name peer_id a ++ b
unfolding put_uint16
v2_append name peer_id a b = simp (append_assoc)

spec_v2 :
    (name peer_id spec : Bytes)
    → length name < 0xffff
    → length peer_id < 2 ^ 16
    → decode_command_payload_spec (v2_layout name peer_id spec) ≡ ok (spec, true)
unfolding decode_command_payload_spec
spec_v2 name peer_id spec h hp = rw (full_v2 name peer_id spec h hp) refl

-- The payload that clears a spec is read back as an empty spec that is there, which a payload in
-- the layout without a spec never is; the same inputs are refused.
pub decode_spec-encode_clearing_spec :
    (name peer_id : Bytes)
    → (encode_command_payload_clearing_spec name peer_id >>= decode_command_payload_spec) ≡ (
        if leb 0xffff (length name) || ltb 0xffff (length peer_id)
        then err too_long
        else ok ([], true))
unfolding encode_command_payload_clearing_spec encode_command_payload_with_spec
    check_command_name_len
decode_spec-encode_clearing_spec name peer_id = ground (
  arith,
  spec_v2 name peer_id [],
  v2_append name peer_id [] (0 ∷ []),
  take_but_last (v2_layout name peer_id []) 0,
)
