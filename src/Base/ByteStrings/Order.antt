-- ===== src/Base/ByteStrings/Order.antt =====
-- Byte strings, Go's `bytes.Equal` and `bytes.HasPrefix`, and the order of SQLite BLOBs (memcmp,
-- the shorter of two that agree first).
use Prim.Native.Nat.{ℕ, ◌<◌}
use mathlib.Core.Path.{◌≡◌, refl}
use mathlib.Core.Logic.{◌↔◌}
use mathlib.Core.Bool.{Bool, true, false, not, ◌&&◌}
use mathlib.Core.List.{List, [], ◌∷◌, ◌++◌}
use native.Mathlib.Omega.{arith}
use libp2p_kv_raft.Base.Tests.{ltb, ◌==◌, if◌then◌else◌}
use libp2p_kv_raft.Base.Lists.{length, All}

abbrev pub Bytes : Type 0
Bytes = List ℕ

abbrev pub IsBytes : Bytes → Type 0
IsBytes = All (λ x. x < 256)

-- bytes.Equal
abbrev pub equal : Bytes → Bytes → Bool
equal [] [] = true
equal [] (y ∷ ys) = false
equal (x ∷ xs) [] = false
equal (x ∷ xs) (y ∷ ys) = x == y && equal xs ys

-- bytes.HasPrefix(b, p)
abbrev pub has_prefix : Bytes → Bytes → Bool
has_prefix b [] = true
has_prefix [] (y ∷ ys) = false
has_prefix (x ∷ xs) (y ∷ ys) = x == y && has_prefix xs ys

-- a < b as BLOBs
abbrev pub blob_lt : Bytes → Bytes → Bool
blob_lt [] [] = false
blob_lt [] (y ∷ ys) = true
blob_lt (x ∷ xs) [] = false
blob_lt (x ∷ xs) (y ∷ ys) = if x == y then blob_lt xs ys else ltb x y

-- a ≤ b as BLOBs
abbrev pub blob_le : Bytes → Bytes → Bool
blob_le a b = not (blob_lt b a)

pub equal→eq : (a b : Bytes) → equal a b ≡ true → a ≡ b
equal→eq [] [] h = refl
equal→eq [] (y ∷ ys) h = ground arith
equal→eq (x ∷ xs) [] h = ground arith
equal→eq (x ∷ xs) (y ∷ ys) h = ground (arith, equal→eq xs ys)

pub equal_refl : (a : Bytes) → equal a a ≡ true
equal_refl [] = refl
equal_refl (x ∷ xs) = ground (arith, equal_refl xs)

pub equal_iff : (a b : Bytes) → (equal a b ≡ true) ↔ (a ≡ b)
equal_iff a b = (equal→eq a b, λ e. ground (arith, equal_refl a))

pub blob_lt_irrefl : (a : Bytes) → blob_lt a a ≡ false
blob_lt_irrefl [] = refl
blob_lt_irrefl (x ∷ xs) = ground (arith, blob_lt_irrefl xs)

pub blob_lt_trans : (a b c : Bytes) → blob_lt a b ≡ true → blob_lt b c ≡ true → blob_lt a c ≡ true
blob_lt_trans [] [] c p q = ground arith
blob_lt_trans [] (y ∷ ys) [] p q = ground arith
blob_lt_trans [] (y ∷ ys) (z ∷ zs) p q = refl
blob_lt_trans (x ∷ xs) [] c p q = ground arith
blob_lt_trans (x ∷ xs) (y ∷ ys) [] p q = ground arith
blob_lt_trans (x ∷ xs) (y ∷ ys) (z ∷ zs) p q = ground (arith, blob_lt_trans xs ys zs)

-- The order is total: of two strings one is smaller, or they are equal.
pub blob_lt_total : (a b : Bytes) → blob_lt a b ≡ false → blob_lt b a ≡ false → a ≡ b
blob_lt_total [] [] p q = refl
blob_lt_total [] (y ∷ ys) p q = ground arith
blob_lt_total (x ∷ xs) [] p q = ground arith
blob_lt_total (x ∷ xs) (y ∷ ys) p q = ground (arith, blob_lt_total xs ys)

-- A common front does not matter to the order.
pub blob_lt-append : (p a b : Bytes) → blob_lt (p ++ a) (p ++ b) ≡ blob_lt a b
blob_lt-append [] a b = refl
blob_lt-append (x ∷ p) a b = ground (arith, blob_lt-append p a b)

pub has_prefix-append : (p a : Bytes) → has_prefix (p ++ a) p ≡ true
has_prefix-append [] a = refl
has_prefix-append (x ∷ p) a = ground (arith, has_prefix-append p a)

pub has_prefix→append : (b p : Bytes) → has_prefix b p ≡ true → (rest : Bytes) × (b ≡ p ++ rest)
has_prefix→append b [] h = (b, refl)
has_prefix→append [] (y ∷ ys) h = absurd (ground arith)
has_prefix→append (x ∷ xs) (y ∷ ys) h =
    let (rest, e) = has_prefix→append xs ys (ground arith) in (rest, ground arith)

-- Behind two fronts of one length the rest only matters where the fronts are equal.
pub blob_lt-same_length :
    (a b x y : Bytes)
    → length a ≡ length b
    → blob_lt (a ++ x) (b ++ y) ≡ (if equal a b then blob_lt x y else blob_lt a b)
blob_lt-same_length [] [] x y h = refl
blob_lt-same_length [] (d ∷ b) x y h = ground arith
blob_lt-same_length (c ∷ a) [] x y h = ground arith
blob_lt-same_length (c ∷ a) (d ∷ b) x y h = ground (arith, blob_lt-same_length a b x y)

pub ruleset byte_laws = (equal_iff, equal_refl, blob_lt_irrefl)
