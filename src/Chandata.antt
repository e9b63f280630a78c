-- ===== src/Chandata.antt =====
-- pkg/chandata/chandata.go: chunks with a purpose, framed in the byte stream of a ring.
pub mod Stream
pub mod RoundTrip
use libp2p_kv_raft.Base.{
  ℕ, zero, suc, ◌+◌, ◌-◌, ◌*◌, Bool, true, false, ◌&&◌, leb, ltb, ◌==◌, if◌then◌else◌, Option, none,
  some, List, [], ◌∷◌, ◌++◌, Bytes, length, put_uint32, get_uint32,
}
use libp2p_kv_raft.Outcome.{
  Error, Result, ok, err, eof, out_of_fuel, chunk_too_large, oversized_chunk, chunk_header,
  chunk_payload,
}
use libp2p_kv_raft.Exec.{Exec, ◌>>=◌, ◌>>◌, pure, guarded, wrap_exec}
use libp2p_kv_raft.Chandata.Stream.{Ring}

abbrev pub max_chunk_size : ℕ
max_chunk_size = 256 * 1024

abbrev pub chunk_header_size : ℕ
chunk_header_size = 5

abbrev pub is_eof : Error → Bool
is_eof eof = true
is_eof _ = false

module _ (R : Ring) where
  open R use {State, write, read}

  abbrev pub write_payload : Bytes → Exec State (Unit {0})
  write_payload [] = pure tt
  write_payload (b ∷ chunk) = wrap_exec chunk_payload (write (b ∷ chunk))

  unfoldable pub write_chunk : ℕ → Bytes → Exec State (Unit {0})
  write_chunk purpose chunk =
      guarded (leb (length chunk) max_chunk_size) chunk_too_large (
        wrap_exec chunk_header (write (purpose ∷ put_uint32 (length chunk))) >> write_payload chunk)

  -- A round of the loop of `readFullContext`, with `left` bytes to go: an end of the stream that
  -- comes with the last bytes is no error.
  abbrev pub after_read :
      ℕ
      → Bytes
      → (ℕ → Bytes → Exec State Bytes)
      → (Bytes × Option Error) × State
      → Result Bytes × State
  after_read left buf go_on ((part, none), s) = go_on (left - length part) (buf ++ part) s
  after_read left buf go_on ((part, some e), s) =
      if is_eof e && (length part == left) then (ok (buf ++ part), s) else (err e, s)

  unfoldable pub read_full : ℕ → ℕ → Bytes → Exec State Bytes
  read_full zero left buf s = (err out_of_fuel, s)
  read_full (suc fuel) left buf s = elim (left == 0) [
    | true ↦ (ok buf, s)
    | false ↦ after_read left buf (read_full fuel) (read left s)
  ]

  abbrev pub read_full_context : ℕ → Exec State Bytes
  read_full_context n = read_full (suc n) n []

  abbrev pub read_payload : ℕ → ℕ → Exec State (ℕ × Bytes)
  read_payload purpose n =
      if ltb max_chunk_size n
      then (λ s. (err oversized_chunk, s))
      else if n == 0
      then pure (purpose, [])
      else read_full_context n >>= λ chunk. pure (purpose, chunk)

  abbrev pub read_header : Bytes → Exec State (ℕ × Bytes)
  read_header (purpose ∷ a ∷ b ∷ c ∷ d ∷ []) = read_payload purpose (get_uint32 a b c d)
  read_header _ = λ s. (err out_of_fuel, s)

  unfoldable pub read_chunk : Exec State (ℕ × Bytes)
  read_chunk = read_full_context chunk_header_size >>= read_header

  -- A caller that writes one chunk after the other, and one that reads as many.
  abbrev pub write_chunks : List (ℕ × Bytes) → Exec State (Unit {0})
  write_chunks [] = pure tt
  write_chunks ((purpose, chunk) ∷ rest) = write_chunk purpose chunk >> write_chunks rest

  abbrev pub read_chunks : ℕ → Exec State (List (ℕ × Bytes))
  read_chunks zero = pure []
  read_chunks (suc n) = read_chunk >>= λ c. read_chunks n >>= λ rest. pure (c ∷ rest)
