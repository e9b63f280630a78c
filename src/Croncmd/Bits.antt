-- ===== src/Croncmd/Bits.antt =====
-- Bit masks in 64-bit words.

use libp2p_kv_raft.Base.{
  ℕ, zero, suc, ◌+◌, ◌*◌, ◌/◌, ◌%◌, ◌^◌, ◌<◌, Bool, true, false, ◌||◌, ◌==◌, if◌then◌else◌, ◌≡◌,
  refl, arith, ◌∙◌,
}

-- mask&(1<<i) != 0, for i below the width of the word
abbrev pub has_bit : ℕ → ℕ → Bool
has_bit mask zero = mask % 2 == 1
has_bit mask (suc i) = has_bit (mask / 2) i

-- mask | other, on the lowest `width` bits
abbrev pub bit_or : ℕ → ℕ → ℕ → ℕ
bit_or zero mask other = 0
bit_or (suc width) mask other =
    (if (mask % 2 == 1) || (other % 2 == 1) then 1 else 0) + 2 * bit_or width (mask / 2) (other / 2)

half : (b : Bool) (q : ℕ) → ((if b then 1 else 0) + 2 * q) / 2 ≡ q
half true q = omega arith
half false q = omega arith

pub has_bit-bit_or :
    (width mask other i : ℕ)
    → i < width
    → has_bit (bit_or width mask other) i ≡ (has_bit mask i || has_bit other i)
has_bit-bit_or zero mask other i h = absurd (omega arith)
has_bit-bit_or (suc width) mask other zero h = ground arith
has_bit-bit_or (suc width) mask other (suc i) h =
    rw (half ((mask % 2 == 1) || (other % 2 == 1)) (bit_or width (mask / 2) (other / 2)))
      (has_bit-bit_or width (mask / 2) (other / 2) i (omega arith))

pub has_bit-zero : (i : ℕ) → has_bit 0 i ≡ false
has_bit-zero zero = refl
has_bit-zero (suc i) = has_bit-zero i

half_pow : (v : ℕ) → 2 ^ suc v / 2 ≡ 2 ^ v
half_pow v = omega arith

pub has_bit-pow : (v i : ℕ) → has_bit (2 ^ v) i ≡ (v == i)
has_bit-pow zero zero = refl
has_bit-pow zero (suc i) = has_bit-zero i ∙ ground arith
has_bit-pow (suc v) zero = ground arith
has_bit-pow (suc v) (suc i) = rw (half_pow v) (has_bit-pow v i ∙ ground arith)
