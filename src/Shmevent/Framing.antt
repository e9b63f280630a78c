-- ===== src/Shmevent/Framing.antt =====
-- The frame that the payloads of pkg/shmevent/catalog.go share: a length in two bytes, the bytes
-- that it counts, and the rest.
use libp2p_kv_raft.Base.{
  ◌^◌, ◌/◌, ◌%◌, ◌≡◌, Bytes, ◌++◌, length, ◌<◌, arith, get_uint16_lem, length-append, take-append,
  drop-append,
}
use libp2p_kv_raft.Outcome.{ok}
use libp2p_kv_raft.Shmevent.Catalog.{cut_prefixed}

-- Cutting a frame gives back its parts.
pub cut_prefixed_lem :
    (first rest : Bytes)
    → length first < 2 ^ 16
    → cut_prefixed (length first / 256 % 256) (length first % 256) (first ++ rest)
      ≡ ok (first, rest)
cut_prefixed_lem first rest h =
    rw (get_uint16_lem (length first) h, take-append, drop-append, length-append) (ground arith)
