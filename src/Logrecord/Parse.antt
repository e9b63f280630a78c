-- ===== src/Logrecord/Parse.antt =====
-- pkg/logrecord/key.go: a log record's key, built and parsed.
use libp2p_kv_raft.Base.{
  ℕ, ◌^◌, ◌≡◌, ◌&&◌, refl, ◌++◌, Bytes, length, if◌then◌else◌, arith, ◌<◌, leb, put_uint16,
  get_uint16_lem, put_uint64, put_uint32, get_uint64_lem, length-append, take-append, drop-append,
}
use libp2p_kv_raft.Outcome.{ok, err, ◌>>=◌, too_long}
use libp2p_kv_raft.Logrecord
use libp2p_kv_raft.Logrecord.{ℤ, pos, negsuc, to_uint64, to_int64, build_key, parse_key}

-- The range of int64.
abbrev pub IsInt64 : ℤ → Type 0
IsInt64 (pos n) = n < 2 ^ 63
IsInt64 (negsuc n) = n < 2 ^ 63

to_int64-to_uint64 : (t : ℤ) → IsInt64 t → to_int64 (to_uint64 t) ≡ t
to_int64-to_uint64 (pos n) h = ground arith
to_int64-to_uint64 (negsuc n) h = ground arith

to_uint64_bound : (t : ℤ) → to_uint64 t < 2 ^ 64
to_uint64_bound (pos n) = omega arith
to_uint64_bound (negsuc n) = omega arith

time_lem :
    (kind unit_id : Bytes) (n : ℕ) (rnd : Bytes)
    → n < 2 ^ 64
    → Logrecord.parse_time kind unit_id (put_uint64 n ++ rnd) ≡ ok (kind, unit_id, to_int64 n)
unfolding put_uint64 put_uint32
time_lem kind unit_id n rnd h = rw (get_uint64_lem n h) refl

unit_lem :
    (kind unit_id : Bytes) (n : ℕ) (rnd : Bytes)
    → length unit_id < 2 ^ 16
    → n < 2 ^ 64
    → Logrecord.parse_unit kind (put_uint16 (length unit_id) ++ (unit_id ++ (put_uint64 n ++ rnd)))
      ≡ ok (kind, unit_id, to_int64 n)
unfolding put_uint16
unit_lem kind unit_id n rnd h hn =
    rw
      (
        get_uint16_lem (length unit_id) h,
        take-append,
        drop-append,
        time_lem kind unit_id n rnd hn,
        length-append,
      )
      (ground arith)

kind_lem :
    (kind unit_id : Bytes) (n : ℕ) (rnd : Bytes)
    → length kind < 2 ^ 16
    → length unit_id < 2 ^ 16
    → n < 2 ^ 64
    → Logrecord.parse_kind (
        put_uint16 (length kind)
        ++ (kind ++ (put_uint16 (length unit_id) ++ (unit_id ++ (put_uint64 n ++ rnd)))))
      ≡ ok (kind, unit_id, to_int64 n)
unfolding put_uint16
kind_lem kind unit_id n rnd h hu hn =
    rw (get_uint16_lem (length kind) h, take-append, drop-append)
      (rw (unit_lem kind unit_id n rnd hu hn, length-append) (ground arith))

-- A log record's key gives back its kind, its unit and its time, which is any int64, before 1970
-- too; a kind or unit that does not fit in 16 bits is refused.
pub parse_key-build_key :
    (kind unit_id : Bytes) (ts : ℤ) (rnd : Bytes)
    → IsInt64 ts
    → (build_key kind unit_id ts rnd >>= parse_key) ≡ (
        if leb (length kind) 0xffff && leb (length unit_id) 0xffff
        then ok (kind, unit_id, ts)
        else err too_long)
unfolding build_key parse_key
parse_key-build_key kind unit_id ts rnd h =
    ground
      (arith, kind_lem kind unit_id (to_uint64 ts) rnd, to_uint64_bound ts, to_int64-to_uint64 ts h)
