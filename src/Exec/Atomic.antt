-- ===== src/Exec/Atomic.antt =====
-- Calls that leave the state as it was when they fail.
use libp2p_kv_raft.Base.{◌≡◌, Bool, true, false, arith}
use libp2p_kv_raft.Outcome.{Error, Result, ok, err}
use libp2p_kv_raft.Exec.{Exec, ◌>>=◌, continue, lift, reads, guarded}

pub record IsAtomic {ℓ} {S A : Type ℓ} (m : Exec S A) : Type ℓ where
  pub unchanged : (s s' : S) (e : Error) → m s ≡ (err e, s') → s' ≡ s

module _ {ℓ} {S A : Type ℓ} where
  pub IsAtomic-lift : (r : Result A) → IsAtomic {S = S} (lift r)
  IsAtomic-lift r = record { unchanged = λ s s' e h. ground arith }

  pub IsAtomic-reads : (f : S → Result A) → IsAtomic (reads f)
  IsAtomic-reads f = record { unchanged = λ s s' e h. ground arith }

  pub IsAtomic-guarded :
      (b : Bool) (e : Error) (m : Exec S A) → IsAtomic m → IsAtomic (guarded b e m)
  IsAtomic-guarded true e m a = a
  IsAtomic-guarded false e m a = record { unchanged = λ s s' e' h. ground arith }

module _ {ℓ} {S A B : Type ℓ} where
  -- What only reads may stand before what is atomic.
  pub IsAtomic-reads_bind :
      (f : S → Result A) (k : A → Exec S B) → ((a : A) → IsAtomic (k a)) → IsAtomic (reads f >>= k)
  IsAtomic-reads_bind f k h = record { unchanged = λ s s' e p. go s s' e (f s) p }
    where
      go : (s s' : S) (e : Error) (r : Result A) → continue (r, s) k ≡ (err e, s') → s' ≡ s
      go s s' e (ok a) p = (h a).unchanged s s' e p
      go s s' e (err e') p = ground arith

  pub IsAtomic-lift_bind :
      (r : Result A) (k : A → Exec S B) → ((a : A) → IsAtomic (k a)) → IsAtomic (lift r >>= k)
  IsAtomic-lift_bind r k h = IsAtomic-reads_bind (λ s. r) k h

pub ruleset atomic_rules =
    (IsAtomic-lift, IsAtomic-reads, IsAtomic-guarded, IsAtomic-reads_bind, IsAtomic-lift_bind)
