-- ===== src/Kvfsm/Encoding/RoundTrip.antt =====
-- The payload of a raft log entry, written and read back.
use libp2p_kv_raft.Base.{
  ℕ, ◌+◌, ◌%◌, ◌^◌, ◌≡◌, refl, ap, ◌∙◌, [], ◌∷◌, ◌++◌, Bytes, length, if◌then◌else◌, take, drop,
  arith, ◌<◌, ltb, put_uint32, get_uint32_lem, length-append, take-append, drop-append,
}
use libp2p_kv_raft.Outcome.{ok, err, truncated}
use libp2p_kv_raft.Kvfsm.Encoding
use libp2p_kv_raft.Kvfsm.Encoding.{Command, encode_command, decode_command}

decode_key :
    (op n : ℕ) (rest : Bytes)
    → n < 2 ^ 32
    → decode_command (op ∷ (put_uint32 n ++ rest)) ≡ (
        if ltb (length rest % 2 ^ 32) n
        then err truncated
        else Encoding.decode_value op (take n rest) (drop n rest))
unfolding decode_command put_uint32
decode_key op n rest h = rw (get_uint32_lem n h) refl

decode_value_lem :
    (op n : ℕ) (key rest : Bytes)
    → n < 2 ^ 32
    → Encoding.decode_value op key (put_uint32 n ++ rest) ≡ (
        if ltb (length rest % 2 ^ 32) n
        then err truncated
        else ok (record { op = op; key = key; value = take n rest }))
unfolding put_uint32
decode_value_lem op n key rest h = rw (get_uint32_lem n h) refl

length-put_uint32 : (n : ℕ) → length (put_uint32 n) ≡ 4
unfolding put_uint32
length-put_uint32 n = refl

take_all : (xs : Bytes) → take (length xs) xs ≡ xs
take_all [] = refl
take_all (x ∷ xs) = ap (λ t. x ∷ t) (take_all xs)

-- What is encoded is decoded again, where the key and the value fit in 32 bits together.
pub decode_command-encode_command :
    (c : Command)
    → length c.key + 4 + length c.value < 2 ^ 32
    → decode_command (encode_command c) ≡ ok c
unfolding encode_command
decode_command-encode_command c h =
    let kn : length c.key % 2 ^ 32 ≡ length c.key = omega arith in
    let vn : length c.value % 2 ^ 32 ≡ length c.value = omega arith in
    rw (kn, vn)
      (decode_key c.op (length c.key) (c.key ++ (put_uint32 (length c.value) ++ c.value))
          (omega arith)
        ∙ (rw
            (
              take-append,
              drop-append,
              decode_value_lem c.op (length c.value) c.key c.value (omega arith),
              take_all,
              length-append,
              length-append,
              length-put_uint32,
            )
            (ground arith)))
