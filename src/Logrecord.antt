-- ===== src/Logrecord.antt =====
-- pkg/logrecord/key.go: the keys of log records. A time is its nanoseconds since the Unix epoch, an
-- int64 as UnixNano returns it.
pub mod Bounds
pub mod Parse
use libp2p_kv_raft.Base.{
  ℕ, zero, suc, ◌+◌, ◌-◌, ◌%◌, ◌^◌, ◌≡◌, refl, Bool, true, false, Option, none, some, List, [], ◌∷◌,
  ◌++◌, Bytes, IsBytes, length, ◌==◌, if◌then◌else◌, take, drop, arith, ◌<◌, ltb, leb, put_uint16,
  get_uint16, put_uint64, get_uint64, replicate,
}
use libp2p_kv_raft.Outcome.{
  Error, Result, ok, err, ◌>>=◌, ◌>>◌, guard, too_short, too_long, wrong_kind, truncated,
}

-- `negsuc n` is -(n + 1).
pub data ℤ : Type 0 where
  pos : ℕ → ℤ
  negsuc : ℕ → ℤ

-- uint64(t) and int64(n)
abbrev pub to_uint64 : ℤ → ℕ
to_uint64 (pos n) = n % 2 ^ 64
to_uint64 (negsuc n) = 2 ^ 64 - 1 - n % 2 ^ 64

abbrev pub to_int64 : ℕ → ℤ
to_int64 n = if ltb n (2 ^ 63) then pos n else negsuc (2 ^ 64 - 1 - n)

abbrev pub log_key_prefix : ℕ
log_key_prefix = 0x01

abbrev pub max_field_len : ℕ
max_field_len = 0xffff

abbrev pub rand_size : ℕ
rand_size = 8

unfoldable pub kind_unit_prefix : Bytes → Bytes → Bytes
kind_unit_prefix kind unit_id =
    log_key_prefix
    ∷ (put_uint16 (length kind) ++ (kind ++ (put_uint16 (length unit_id) ++ unit_id)))

-- `rnd` has RandSize bytes.
unfoldable pub build_key : Bytes → Bytes → ℤ → Bytes → Result Bytes
build_key kind unit_id ts rnd = do
  guard (leb (length kind) max_field_len) too_long
  guard (leb (length unit_id) max_field_len) too_long
  ok (
      log_key_prefix
      ∷ (put_uint16 (length kind)
          ++ (kind
              ++ (put_uint16 (length unit_id) ++ (unit_id ++ (put_uint64 (to_uint64 ts) ++ rnd))))))

abbrev parse_time : Bytes → Bytes → Bytes → Result (Bytes × Bytes × ℤ)
parse_time kind unit_id (a ∷ b ∷ c ∷ d ∷ e ∷ f ∷ g ∷ h ∷ _) =
    ok (kind, unit_id, to_int64 (get_uint64 a b c d e f g h))
parse_time kind unit_id _ = err truncated

abbrev parse_unit : Bytes → Bytes → Result (Bytes × Bytes × ℤ)
parse_unit kind (hi ∷ lo ∷ body) =
    let n = get_uint16 hi lo in
    if ltb (length body) n then err truncated else parse_time kind (take n body) (drop n body)
parse_unit kind _ = err truncated

abbrev parse_kind : Bytes → Result (Bytes × Bytes × ℤ)
parse_kind (hi ∷ lo ∷ body) =
    let n = get_uint16 hi lo in
    if ltb (length body) n then err truncated else parse_unit (take n body) (drop n body)
parse_kind _ = err truncated

unfoldable pub parse_key : Bytes → Result (Bytes × Bytes × ℤ)
parse_key [] = err wrong_kind
parse_key (p ∷ rest) = if p == log_key_prefix then parse_kind rest else err wrong_kind

abbrev pub non_negative_unix_nano : ℤ → ℕ
non_negative_unix_nano (pos n) = n
non_negative_unix_nano (negsuc n) = 0

unfoldable pub scan_bounds : Bytes → Bytes → ℤ → ℤ → Bytes × Bytes
unfolding kind_unit_prefix
scan_bounds kind unit_id start end = (
  kind_unit_prefix kind unit_id ++ put_uint64 (non_negative_unix_nano start),
  kind_unit_prefix kind unit_id
      ++ (put_uint64 (non_negative_unix_nano end) ++ replicate rand_size 0xff),
)

unfoldable pub kind_prefix : Bytes → Bytes
kind_prefix kind = log_key_prefix ∷ (put_uint16 (length kind) ++ kind)

abbrev pub all_prefix : Bytes
all_prefix = log_key_prefix ∷ []
