-- ===== src/Kvfsm/Encoding.antt =====
-- pkg/kvfsm/fsm_encoding.go: the payload of a raft log entry.
pub mod RoundTrip
use libp2p_kv_raft.Base.{
  ℕ, zero, suc, ◌+◌, ◌-◌, ◌%◌, ◌^◌, ◌≡◌, refl, Bool, true, false, Option, none, some, List, [], ◌∷◌,
  ◌++◌, Bytes, IsBytes, length, ◌==◌, if◌then◌else◌, take, drop, arith, ◌<◌, ltb, leb, put_uint32,
  get_uint32,
}
use libp2p_kv_raft.Outcome.{Error, Result, ok, err, ◌>>=◌, too_short, truncated}

-- The cases of Apply's switch.
pub data OpType : Type 0 where
  op_set op_del op_confirm op_cascade_delete : OpType
  op_consume_invite op_consume_exec_invite op_append_command_request op_txn : OpType
  op_unknown : ℕ → OpType

unfoldable pub op_type : ℕ → OpType
op_type n =
    if n == 1
    then op_set
    else if n == 2
    then op_del
    else if n == 3
    then op_confirm
    else if n == 4
    then op_cascade_delete
    else if n == 5
    then op_consume_invite
    else if n == 6
    then op_consume_exec_invite
    else if n == 7
    then op_append_command_request
    else if n == 8
    then op_txn
    else op_unknown n

-- The byte of an operation that is defined.
abbrev pub op_byte : OpType → ℕ
op_byte op_set = 1
op_byte op_del = 2
op_byte op_confirm = 3
op_byte op_cascade_delete = 4
op_byte op_consume_invite = 5
op_byte op_consume_exec_invite = 6
op_byte op_append_command_request = 7
op_byte op_txn = 8
op_byte (op_unknown n) = n

pub record Command : Type 0 where
  pub op : ℕ
  pub key : Bytes
  pub value : Bytes

unfoldable pub encode_command : Command → Bytes
encode_command c =
    c.op
    ∷ (put_uint32 (length c.key % 2 ^ 32)
        ++ (c.key ++ (put_uint32 (length c.value % 2 ^ 32) ++ c.value)))

-- `uint32(len(data[off:]))` wraps.
abbrev uint32_len : Bytes → ℕ
uint32_len rest = length rest % 2 ^ 32

abbrev decode_value : ℕ → Bytes → Bytes → Result Command
decode_value op key (a ∷ b ∷ c ∷ d ∷ rest) =
    let vlen = get_uint32 a b c d in
    if ltb (uint32_len rest) vlen
    then err truncated
    else ok (record { op = op; key = key; value = take vlen rest })
decode_value op key _ = err truncated

unfoldable pub decode_command : Bytes → Result Command
decode_command (op ∷ a ∷ b ∷ c ∷ d ∷ rest) =
    let klen = get_uint32 a b c d in
    if ltb (uint32_len rest) klen
    then err truncated
    else decode_value op (take klen rest) (drop klen rest)
decode_command _ = err too_short
