-- ===== src/Shmevent/ChannelFrame.antt =====
-- pkg/shmevent/channelframe.go: a channel's frame on the wire: purpose, checksum, signature, chunk.
use libp2p_kv_raft.Base.{
  ℕ, ◌+◌, ◌^◌, ◌<◌, ◌≡◌, ◌∷◌, ◌++◌, arith, Bytes, length, take, drop, replicate, ltb, if◌then◌else◌,
  put_uint32, get_uint32, get_uint32_lem, length-append, take-append, drop-append,
}
use libp2p_kv_raft.Outcome.{Result, ok, err, too_short}

abbrev pub signature_size : ℕ
signature_size = 64

abbrev pub channel_frame_header_size : ℕ
channel_frame_header_size = 1 + 4 + signature_size

-- `copy` takes as much of the signature as there is room for, over bytes that are zero.
abbrev pub padded_signature : Bytes → Bytes
padded_signature sig = take signature_size (sig ++ replicate signature_size 0)

unfoldable pub encode_channel_frame : ℕ → ℕ → Bytes → Bytes → Bytes
encode_channel_frame purpose crc sig chunk =
    purpose ∷ (put_uint32 crc ++ (padded_signature sig ++ chunk))

abbrev pub cut_signature : ℕ → ℕ → Bytes → Result (ℕ × ℕ × Bytes × Bytes)
cut_signature purpose crc rest =
    if ltb (length rest) signature_size
    then err too_short
    else ok (purpose, crc, take signature_size rest, drop signature_size rest)

unfoldable pub decode_channel_frame : Bytes → Result (ℕ × ℕ × Bytes × Bytes)
decode_channel_frame (purpose ∷ a ∷ b ∷ c ∷ d ∷ rest) =
    cut_signature purpose (get_uint32 a b c d) rest
decode_channel_frame _ = err too_short

cut_signature_lem :
    (purpose crc : ℕ) (sig chunk : Bytes) (n : ℕ)
    → length sig ≡ n
    → ◌≡◌ {A = Result (ℕ × ℕ × Bytes × Bytes)}
        (if ltb (length (sig ++ chunk)) n
          then err too_short
          else ok (purpose, crc, take n (sig ++ chunk), drop n (sig ++ chunk)))
        (ok (purpose, crc, sig, chunk))
cut_signature_lem purpose crc sig chunk n e =
    ground (arith, length-append sig chunk, take-append sig chunk, drop-append sig chunk)

padded_lem : (sig : Bytes) (n : ℕ) (pad : Bytes) → length sig ≡ n → take n (sig ++ pad) ≡ sig
padded_lem sig n pad e = ground (arith, take-append sig pad)

-- A frame whose checksum fits in 32 bits and whose signature has 64 bytes is taken apart into what
-- it was made of.
pub decode_channel_frame-encode_channel_frame :
    (purpose crc : ℕ) (sig chunk : Bytes)
    → crc < 2 ^ 32
    → length sig ≡ 64
    → decode_channel_frame (encode_channel_frame purpose crc sig chunk)
      ≡ ok (purpose, crc, sig, chunk)
unfolding decode_channel_frame encode_channel_frame put_uint32
decode_channel_frame-encode_channel_frame purpose crc sig chunk hc hs =
    rw (get_uint32_lem crc hc, padded_lem sig 64 (replicate 64 0) hs)
      (cut_signature_lem purpose crc sig chunk 64 hs)
