-- ===== src/Shmevent/Txn.antt =====
-- pkg/shmevent/txn.go: the operations of a transaction, and their payload in a raft log entry.
pub mod RoundTrip
use libp2p_kv_raft.Base.{
  ℕ, zero, suc, ◌+◌, ◌≡◌, refl, Bool, true, false, ◌&&◌, ◌||◌, not, Option, none, some, List, [],
  ◌∷◌, ◌++◌, Bytes, IsBytes, length, ◌==◌, if◌then◌else◌, take, drop, arith, ◌<◌, ltb, leb,
  put_uint16, get_uint16, equal, has_prefix,
}
use libp2p_kv_raft.Outcome.{
  Error, Result, ok, err, ◌>>=◌, ◌>>◌, guard, too_short, too_long, too_many, truncated, empty_key,
  unknown_op, trailing_bytes, no_ops, bad_token,
}

abbrev pub txn_op_set : ℕ
txn_op_set = 1

abbrev pub txn_op_delete : ℕ
txn_op_delete = 2

abbrev pub txn_op_compare : ℕ
txn_op_compare = 3

abbrev pub txn_op_compare_absent : ℕ
txn_op_compare_absent = 4

pub record TxnOpSpec : Type 0 where
  pub op : ℕ
  pub key : Bytes
  pub value : Bytes

abbrev pub is_compare : TxnOpSpec → Bool
is_compare o = o.op == txn_op_compare || o.op == txn_op_compare_absent

abbrev pub valid_txn_op : ℕ → Bool
valid_txn_op op =
    op == txn_op_set
    || (op == txn_op_delete || (op == txn_op_compare || op == txn_op_compare_absent))

-- The checks of EncodeTxnPayload on one operation, in their order.
abbrev check_op : TxnOpSpec → Result (Unit {0})
check_op o = do
  guard (not (length o.key == 0)) empty_key
  guard (leb (length o.key) 0xffff) too_long
  guard (leb (length o.value) 0xffff) too_long
  guard (valid_txn_op o.op) unknown_op

unfoldable pub check_ops : List TxnOpSpec → Result (Unit {0})
check_ops [] = ok tt
check_ops (o ∷ ops) = do check_op o; check_ops ops

abbrev pub encode_op : TxnOpSpec → Bytes
encode_op o =
    o.op ∷ (put_uint16 (length o.key) ++ (o.key ++ (put_uint16 (length o.value) ++ o.value)))

unfoldable pub encode_ops : List TxnOpSpec → Bytes
encode_ops [] = []
encode_ops (o ∷ ops) = encode_op o ++ encode_ops ops

unfoldable pub encode_txn_payload : List TxnOpSpec → Result Bytes
unfolding check_ops encode_ops
encode_txn_payload ops = do
  guard (leb (length ops) 0xffff) too_many
  check_ops ops
  ok (put_uint16 (length ops) ++ encode_ops ops)

-- Reading an operation's value, and the key with the two bytes of the value's length behind it.
abbrev decode_value : ℕ → Bytes → Bytes → Result (TxnOpSpec × Bytes)
decode_value op key (hi ∷ lo ∷ body) =
    let n = get_uint16 hi lo in
    if ltb (length body) n
    then err truncated
    else ok (record { op = op; key = key; value = take n body }, drop n body)
decode_value op key _ = err truncated

unfoldable pub decode_op : Bytes → Result (TxnOpSpec × Bytes)
decode_op (op ∷ hi ∷ lo ∷ body) =
    let n = get_uint16 hi lo in
    if ltb (length body) (n + 2) then err truncated else decode_value op (take n body) (drop n body)
decode_op _ = err truncated

-- The loop over `count` operations: `rest` is payload[off:].
unfoldable pub decode_ops : ℕ → Bytes → Result (List TxnOpSpec × Bytes)
unfolding decode_op
decode_ops zero rest = ok ([], rest)
decode_ops (suc count) rest = do
  (o, rest') ← decode_op rest
  (ops, rest'') ← decode_ops count rest'
  ok (o ∷ ops, rest'')

abbrev pub no_trailing : List TxnOpSpec × Bytes → Result (List TxnOpSpec)
no_trailing (ops, []) = ok ops
no_trailing (ops, x ∷ rest) = err trailing_bytes

unfoldable pub decode_txn_payload : Bytes → Result (List TxnOpSpec)
unfolding decode_ops
decode_txn_payload (hi ∷ lo ∷ body) = do
  decoded ← decode_ops (get_uint16 hi lo) body
  no_trailing decoded
decode_txn_payload _ = err too_short

-- strings.CutPrefix
abbrev pub cut_prefix : Bytes → Bytes → Option Bytes
cut_prefix s [] = some s
cut_prefix [] (y ∷ p) = none
cut_prefix (x ∷ s) (y ∷ p) = if x == y then cut_prefix s p else none

-- strings.Cut(s, "=")
abbrev pub cut_equals : Bytes → Option (Bytes × Bytes)
cut_equals [] = none
cut_equals (x ∷ s) =
    let rest = cut_equals s in
    if x == b'=' then some ([], s) else elim rest [ none ↦ none | some (k, v) ↦ some (x ∷ k, v) ]

-- "del:", "ifabsent:", "if:"
abbrev pub del_prefix : Bytes
del_prefix = b'd' ∷ b'e' ∷ b'l' ∷ b':' ∷ []

abbrev pub if_absent_prefix : Bytes
if_absent_prefix = b'i' ∷ b'f' ∷ b'a' ∷ b'b' ∷ b's' ∷ b'e' ∷ b'n' ∷ b't' ∷ b':' ∷ []

abbrev pub if_prefix : Bytes
if_prefix = b'i' ∷ b'f' ∷ b':' ∷ []

-- A token that names a key alone.
abbrev key_only : ℕ → Bytes → Result TxnOpSpec
key_only op [] = err bad_token
key_only op (c ∷ key) = ok (record { op = op; key = c ∷ key; value = [] })

-- A token `<key>=<value>`.
abbrev key_value : ℕ → Option (Bytes × Bytes) → Result TxnOpSpec
key_value op none = err bad_token
key_value op (some ([], value)) = err bad_token
key_value op (some (c ∷ key, value)) = ok (record { op = op; key = c ∷ key; value = value })

abbrev parse_if : Bytes → Option Bytes → Result TxnOpSpec
parse_if token (some rest) = key_value txn_op_compare (cut_equals rest)
parse_if token none = key_value txn_op_set (cut_equals token)

abbrev parse_if_absent : Bytes → Option Bytes → Result TxnOpSpec
parse_if_absent token (some key) = key_only txn_op_compare_absent key
parse_if_absent token none = parse_if token (cut_prefix token if_prefix)

abbrev parse_del : Bytes → Option Bytes → Result TxnOpSpec
parse_del token (some key) = key_only txn_op_delete key
parse_del token none = parse_if_absent token (cut_prefix token if_absent_prefix)

unfoldable pub parse_token : Bytes → Result TxnOpSpec
parse_token token = parse_del token (cut_prefix token del_prefix)

unfoldable pub parse_tokens : List Bytes → Result (List TxnOpSpec)
unfolding parse_token
parse_tokens [] = ok []
parse_tokens (t ∷ tokens) = do o ← parse_token t; ops ← parse_tokens tokens; ok (o ∷ ops)

-- ParseTxnOpsString on the fields that strings.Fields cuts at white space.
unfoldable pub parse_txn_ops : List Bytes → Result (List TxnOpSpec)
unfolding parse_tokens
parse_txn_ops [] = err no_ops
parse_txn_ops (t ∷ tokens) = parse_tokens (t ∷ tokens)
