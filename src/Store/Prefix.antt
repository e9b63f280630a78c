-- ===== src/Store/Prefix.antt =====
-- `prefixUpperBound` of pkg/store/store.go: the end of the range of the keys that begin with a
-- prefix.
use libp2p_kv_raft.Base.{
  ℕ, zero, suc, ◌+◌, ◌<◌, ◌≡◌, refl, false, Option, none, some, [], ◌∷◌, arith, if◌then◌else◌,
  Bytes, IsBytes, has_prefix, length, take, set, get_or, ltb,
}
use libp2p_kv_raft.Store.Rows.{in_half_open}

-- The loop `for i := len(upper) - 1; i >= 0; i--`, at `i + 1`. Below 0xFF the increment does not wrap.
unfoldable pub upper_bound_loop : Bytes → ℕ → Option Bytes
upper_bound_loop upper zero = none
upper_bound_loop upper (suc i) =
    let c = get_or upper i 0 in
    if ltb c 0xFF then some (take (suc i) (set upper i (c + 1))) else upper_bound_loop upper i

unfoldable pub prefix_upper_bound : Bytes → Option Bytes
unfolding upper_bound_loop
prefix_upper_bound p = upper_bound_loop p (length p)

-- The same by recursion on the prefix: what the rest gives, or the first byte incremented.
upper_bound_cons : ℕ → Option Bytes → Option Bytes
upper_bound_cons x none = if ltb x 0xFF then some ((x + 1) ∷ []) else none
upper_bound_cons x (some u) = some (x ∷ u)

upper_bound_loop-cons :
    (x : ℕ) (xs : Bytes) (i : ℕ)
    → upper_bound_loop (x ∷ xs) (suc i) ≡ upper_bound_cons x (upper_bound_loop xs i)
unfolding upper_bound_loop upper_bound_cons
upper_bound_loop-cons x xs zero = refl
upper_bound_loop-cons x xs (suc i) = ground (arith, upper_bound_loop-cons x xs i)

cons_range :
    (x y : ℕ) (xs ys : Bytes) (u : Option Bytes)
    → y < 256
    → in_half_open xs u ys ≡ has_prefix ys xs
    → in_half_open (x ∷ xs) (upper_bound_cons x u) (y ∷ ys) ≡ has_prefix (y ∷ ys) (x ∷ xs)
unfolding upper_bound_cons
cons_range x y xs [] none hy ih = ground arith
cons_range x y xs (z ∷ ys) none hy ih = ground arith
cons_range x y xs ys (some u) hy ih = ground arith

empty_key : (x : ℕ) (p : Bytes) (u : Option Bytes) → in_half_open (x ∷ p) u [] ≡ false
empty_key x p none = refl
empty_key x p (some u) = refl

loop_range :
    (p k : Bytes) → IsBytes k → in_half_open p (upper_bound_loop p (length p)) k ≡ has_prefix k p
loop_range [] [] h = unfold upper_bound_loop in refl
loop_range [] (y ∷ k) h = unfold upper_bound_loop in refl
loop_range (x ∷ p) [] h = empty_key x p (upper_bound_loop (x ∷ p) (suc (length p)))
loop_range (x ∷ p) (y ∷ k) h =
    rw upper_bound_loop-cons (cons_range x y p k _ h.0 (loop_range p k h.1))

-- A key of bytes lies between a prefix and its upper bound (or above the prefix, where there is no bound)
-- exactly if it begins with the prefix.
pub prefix_range :
    (p k : Bytes) → IsBytes k → in_half_open p (prefix_upper_bound p) k ≡ has_prefix k p
unfolding prefix_upper_bound
prefix_range p k h = loop_range p k h
