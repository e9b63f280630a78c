-- ===== src/Shmevent/Txn/RoundTrip.antt =====
-- pkg/shmevent/txn.go: a transaction's payload, written and read back.
use libp2p_kv_raft.Base.{
  ℕ, ◌+◌, ◌^◌, ◌≡◌, refl, sym, ap, ◌∙◌, true, false, List, [], ◌∷◌, ◌++◌, Bytes, length,
  if◌then◌else◌, take, drop, arith, ◌<◌, ltb, leb, put_uint16, get_uint16_lem, length-append,
  take-append, drop-append, append_assoc, append-nil, Bool-cases, ◌⊎◌, inl, inr,
}
use libp2p_kv_raft.Outcome.{Result, ok, err, ◌>>=◌, ◌>>◌, too_many, truncated, guard, >>=-eq-ok}
use libp2p_kv_raft.Shmevent.Txn
use libp2p_kv_raft.Shmevent.Txn.{
  TxnOpSpec, check_ops, encode_op, encode_ops, encode_txn_payload, decode_op, decode_ops,
  decode_txn_payload,
}

decode_value_lem :
    (op : ℕ) (key value rest : Bytes)
    → length value < 2 ^ 16
    → Txn.decode_value op key (put_uint16 (length value) ++ (value ++ rest))
      ≡ ok (record { op = op; key = key; value = value }, rest)
unfolding put_uint16
decode_value_lem op key value rest h =
    rw (get_uint16_lem (length value) h, take-append, drop-append, length-append) (ground arith)

length-put_uint16 : (n : ℕ) → length (put_uint16 n) ≡ 2
unfolding put_uint16
length-put_uint16 n = refl

decode_op_split :
    (op n : ℕ) (body : Bytes)
    → n < 2 ^ 16
    → decode_op (op ∷ (put_uint16 n ++ body)) ≡ (
        if ltb (length body) (n + 2)
        then err truncated
        else Txn.decode_value op (take n body) (drop n body))
unfolding decode_op put_uint16
decode_op_split op n body h = rw (get_uint16_lem n h) refl

encode_op_append :
    (o : TxnOpSpec) (rest : Bytes)
    → encode_op o ++ rest
      ≡ o.op
        ∷ (put_uint16 (length o.key)
            ++ (o.key ++ (put_uint16 (length o.value) ++ (o.value ++ rest))))
encode_op_append o rest = simp (append_assoc)

decode_op-encode_op :
    (o : TxnOpSpec) (rest : Bytes)
    → length o.key < 2 ^ 16
    → length o.value < 2 ^ 16
    → decode_op (encode_op o ++ rest) ≡ ok (o, rest)
decode_op-encode_op o rest hk hv =
    rw
      (
        encode_op_append o rest,
        decode_op_split o.op (length o.key) _ hk,
        take-append,
        drop-append,
        decode_value_lem o.op o.key o.value rest hv,
        length-append,
        length-append,
        length-put_uint16,
      )
      (ground arith)

-- What the checks let through fits in the two bytes of its lengths.
check_op_fits :
    (o : TxnOpSpec) → Txn.check_op o ≡ ok tt → (length o.key < 2 ^ 16) × (length o.value < 2 ^ 16)
check_op_fits o h = (ground arith, ground arith)

check_ops_inv :
    (o : TxnOpSpec) (ops : List TxnOpSpec)
    → check_ops (o ∷ ops) ≡ ok tt
    → (Txn.check_op o ≡ ok tt) × (check_ops ops ≡ ok tt)
unfolding check_ops
check_ops_inv o ops h = let (u, p, q) = >>=-eq-ok (Txn.check_op o) (λ _. check_ops ops) h in (p, q)

decode_ops-encode_ops :
    (ops : List TxnOpSpec) (rest : Bytes)
    → check_ops ops ≡ ok tt
    → decode_ops (length ops) (encode_ops ops ++ rest) ≡ ok (ops, rest)
unfolding decode_ops encode_ops
decode_ops-encode_ops [] rest h = refl
decode_ops-encode_ops (o ∷ ops) rest h =
    let (p, q) = check_ops_inv o ops h in
    let (hk, hv) = check_op_fits o p in
    rw
      (
        append_assoc,
        decode_op-encode_op o (encode_ops ops ++ rest) hk hv,
        decode_ops-encode_ops ops rest q,
      )
      refl

decode_txn_body :
    (n : ℕ) (body : Bytes)
    → n < 2 ^ 16
    → decode_txn_payload (put_uint16 n ++ body) ≡ (decode_ops n body >>= Txn.no_trailing)
unfolding decode_txn_payload put_uint16
decode_txn_body n body h = rw (get_uint16_lem n h) refl

decode_checked :
    (ops : List TxnOpSpec)
    → length ops < 2 ^ 16
    → check_ops ops ≡ ok tt
    → decode_txn_payload (put_uint16 (length ops) ++ encode_ops ops) ≡ ok ops
decode_checked ops h c =
    let e : decode_ops (length ops) (encode_ops ops) ≡ ok (ops, []) =
      ap (decode_ops (length ops)) (sym (append-nil (encode_ops ops)))
      ∙ decode_ops-encode_ops ops [] c in
    rw (decode_txn_body (length ops) (encode_ops ops) h, e) refl

-- A transaction's payload that the encoder makes is decoded to the same operations.
pub decode_txn_payload-encode_txn_payload :
    (ops : List TxnOpSpec) (payload : Bytes)
    → encode_txn_payload ops ≡ ok payload
    → decode_txn_payload payload ≡ ok ops
unfolding encode_txn_payload
decode_txn_payload-encode_txn_payload ops payload h =
    go (Bool-cases (leb (length ops) 0xffff)) (check_ops ops) refl h
  where
    go :
        ((leb (length ops) 0xffff ≡ true) ⊎ (leb (length ops) 0xffff ≡ false))
        → (c : Result (Unit {0})) → check_ops ops ≡ c
        → (guard (leb (length ops) 0xffff) too_many
            >> (c >> ok (put_uint16 (length ops) ++ encode_ops ops)))
          ≡ ok payload
        → decode_txn_payload payload ≡ ok ops
    go (inl e) (ok u) p h = ground (arith, decode_checked ops)
    go (inl e) (err x) p h = ground arith
    go (inr e) c p h = ground arith
