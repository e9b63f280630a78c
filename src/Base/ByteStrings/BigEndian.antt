-- ===== src/Base/ByteStrings/BigEndian.antt =====
-- Big-endian integers of two, four and eight bytes (encoding/binary.BigEndian).
use Prim.Native.Nat.{ℕ, ◌+◌, ◌*◌, ◌/◌, ◌%◌, ◌^◌, ◌<◌}
use mathlib.Core.Path.{◌≡◌, ◌∙◌}
use mathlib.Core.Bool.{Bool}
use mathlib.Core.List.{[], ◌∷◌, ◌++◌, append_assoc}
use native.Mathlib.Omega.{arith}
use libp2p_kv_raft.Base.Tests.{ltb, ◌==◌, if◌then◌else◌}
use libp2p_kv_raft.Base.ByteStrings.Order.{Bytes, blob_lt}

-- byte(n >> 8), byte(n)
unfoldable pub put_uint16 : ℕ → Bytes
put_uint16 n = (n / 256 % 256) ∷ (n % 256) ∷ []

abbrev pub get_uint16 : ℕ → ℕ → ℕ
get_uint16 a b = a * 256 + b

pub get_uint16_lem : (n : ℕ) → n < 2 ^ 16 → get_uint16 (n / 256 % 256) (n % 256) ≡ n
get_uint16_lem n h = omega arith

pub put_uint16_lem : (a b : ℕ) → a < 256 → b < 256 → put_uint16 (get_uint16 a b) ≡ a ∷ b ∷ []
unfolding put_uint16
put_uint16_lem a b ha hb = ground arith

unfoldable pub put_uint32 : ℕ → Bytes
put_uint32 n = (n / 2 ^ 24 % 256) ∷ (n / 2 ^ 16 % 256) ∷ (n / 2 ^ 8 % 256) ∷ (n % 256) ∷ []

abbrev pub get_uint32 : ℕ → ℕ → ℕ → ℕ → ℕ
get_uint32 a b c d = a * 2 ^ 24 + b * 2 ^ 16 + c * 2 ^ 8 + d

pub get_uint32_lem :
    (n : ℕ)
    → n < 2 ^ 32
    → get_uint32 (n / 2 ^ 24 % 256) (n / 2 ^ 16 % 256) (n / 2 ^ 8 % 256) (n % 256) ≡ n
get_uint32_lem n h = omega arith

pub put_uint32_lem :
    (a b c d : ℕ)
    → a < 256
    → b < 256
    → c < 256
    → d < 256
    → put_uint32 (get_uint32 a b c d) ≡ a ∷ b ∷ c ∷ d ∷ []
unfolding put_uint32
put_uint32_lem a b c d ha hb hc hd = ground arith

-- A number written in base m has the order of its two digits.
abbrev lex : ℕ → ℕ → ℕ → Bool → Bool
lex m a b rest =
    if a / m == b / m
    then (if a % m == b % m then rest else ltb (a % m) (b % m))
    else ltb (a / m) (b / m)

lex_256 : (a b : ℕ) (rest : Bool) → lex 256 a b rest ≡ (if a == b then rest else ltb a b)
lex_256 a b rest = ground arith

lex_65536 : (a b : ℕ) (rest : Bool) → lex 65536 a b rest ≡ (if a == b then rest else ltb a b)
lex_65536 a b rest = ground arith

lex_4294967296 :
    (a b : ℕ) (rest : Bool) → lex 4294967296 a b rest ≡ (if a == b then rest else ltb a b)
lex_4294967296 a b rest = ground arith

pub blob_lt-put_uint16 :
    (a b : ℕ) (x y : Bytes)
    → a < 2 ^ 16
    → b < 2 ^ 16
    → blob_lt (put_uint16 a ++ x) (put_uint16 b ++ y) ≡ (if a == b then blob_lt x y else ltb a b)
unfolding put_uint16
blob_lt-put_uint16 a b x y ha hb = ground (arith, lex_256 a b (blob_lt x y))

put_uint32_halves :
    (n : ℕ) → n < 2 ^ 32 → put_uint32 n ≡ put_uint16 (n / 65536) ++ put_uint16 (n % 65536)
unfolding put_uint16 put_uint32
put_uint32_halves n h = ground arith

-- The order of the encodings is the order of the numbers.
pub blob_lt-put_uint32 :
    (a b : ℕ) (x y : Bytes)
    → a < 2 ^ 32
    → b < 2 ^ 32
    → blob_lt (put_uint32 a ++ x) (put_uint32 b ++ y) ≡ (if a == b then blob_lt x y else ltb a b)
blob_lt-put_uint32 a b x y ha hb =
    rw (put_uint32_halves a ha, put_uint32_halves b hb, append_assoc, append_assoc)
      (blob_lt-put_uint16 (a / 65536) (b / 65536) (put_uint16 (a % 65536) ++ x)
          (put_uint16 (b % 65536) ++ y) (omega arith) (omega arith)
        ∙ rw (blob_lt-put_uint16 (a % 65536) (b % 65536) x y (omega arith) (omega arith))
            (lex_65536 a b (blob_lt x y)))

-- A uint64 as two halves of 32 bits.
unfoldable pub put_uint64 : ℕ → Bytes
put_uint64 n = put_uint32 (n / 4294967296 % 4294967296) ++ put_uint32 (n % 4294967296)

pub blob_lt-put_uint64 :
    (a b : ℕ) (x y : Bytes)
    → a < 2 ^ 64
    → b < 2 ^ 64
    → blob_lt (put_uint64 a ++ x) (put_uint64 b ++ y) ≡ (if a == b then blob_lt x y else ltb a b)
unfolding put_uint64
blob_lt-put_uint64 a b x y ha hb =
    rw (append_assoc, append_assoc)
      (blob_lt-put_uint32 (a / 4294967296 % 4294967296) (b / 4294967296 % 4294967296)
          (put_uint32 (a % 4294967296) ++ x) (put_uint32 (b % 4294967296) ++ y) (omega arith)
          (omega arith)
        ∙ rw (blob_lt-put_uint32 (a % 4294967296) (b % 4294967296) x y (omega arith) (omega arith))
            (ground (arith, lex_4294967296 a b (blob_lt x y))))

abbrev pub get_uint64 : ℕ → ℕ → ℕ → ℕ → ℕ → ℕ → ℕ → ℕ → ℕ
get_uint64 a b c d e f g h = get_uint32 a b c d * 4294967296 + get_uint32 e f g h

pub get_uint64_lem :
    (n : ℕ)
    → n < 2 ^ 64
    → get_uint32
            (n / 4294967296 % 4294967296 / 2 ^ 24 % 256)
            (n / 4294967296 % 4294967296 / 2 ^ 16 % 256)
            (n / 4294967296 % 4294967296 / 2 ^ 8 % 256)
            (n / 4294967296 % 4294967296 % 256)
          * 4294967296
        + get_uint32
            (n % 4294967296 / 2 ^ 24 % 256)
            (n % 4294967296 / 2 ^ 16 % 256)
            (n % 4294967296 / 2 ^ 8 % 256)
            (n % 4294967296 % 256)
      ≡ n
get_uint64_lem n h =
    rw
      (
        get_uint32_lem (n / 4294967296 % 4294967296) (omega arith),
        get_uint32_lem (n % 4294967296) (omega arith),
      )
      (omega arith)
