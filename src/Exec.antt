-- ===== src/Exec.antt =====
-- Calls that change a state and may fail. What was written before an error stays written, so the
-- state comes back beside the error too.
pub mod Atomic
use libp2p_kv_raft.Base.{◌≡◌, refl, Bool, true, false, arith, ◌⊎◌, inl, inr}
use libp2p_kv_raft.Outcome.{Error, Result, ok, err, Context, wrapped}

abbrev pub Exec {ℓ} : Type ℓ → Type ℓ → Type ℓ
Exec S A = S → Result A × S

module _ {ℓ} {S A B : Type ℓ} where
  abbrev pub continue : Result A × S → (A → Exec S B) → Result B × S
  continue (ok a, s) f = f a s
  continue (err e, s) f = (err e, s)

  infixl 5 ◌>>=◌ ◌>>◌
  abbrev pub ◌>>=◌ : Exec S A → (A → Exec S B) → Exec S B
  ◌>>=◌ m f s = continue (m s) f

  abbrev pub ◌>>◌ : Exec S A → Exec S B → Exec S B
  m >> k = m >>= λ _. k

  -- Inversion of a run that succeeds.
  pub continue-eq-ok :
      (r : Result A × S) (f : A → Exec S B) {b : B} {s' : S}
      → continue r f ≡ (ok b, s')
      → (a : A) × (s1 : S) × (r ≡ (ok a, s1)) × (f a s1 ≡ (ok b, s'))
  continue-eq-ok (ok a, s1) f h = (a, s1, refl, h)
  continue-eq-ok (err e, s1) f {b} h = absurd (ground arith)

  -- The same for a first part that only reads.
  pub read-eq-ok :
      (r : Result A) (s : S) (f : A → Exec S B) {b : B} {s' : S}
      → continue (r, s) f ≡ (ok b, s')
      → (a : A) × (r ≡ ok a) × (f a s ≡ (ok b, s'))
  read-eq-ok (ok a) s f h = (a, refl, h)
  read-eq-ok (err e) s f h = absurd (ground arith)

module _ {ℓ} {S A : Type ℓ} where
  abbrev pub pure : A → Exec S A
  pure a s = (ok a, s)

  -- A call that depends on no state, or only reads it.
  abbrev pub lift : Result A → Exec S A
  lift r s = (r, s)

  abbrev pub reads : (S → Result A) → Exec S A
  reads f s = (f s, s)

  abbrev pub guarded : Bool → Error → Exec S A → Exec S A
  guarded true e m = m
  guarded false e m = λ s. (err e, s)

  abbrev pub wrap_result : Context → Result A × S → Result A × S
  wrap_result c (ok a, s) = (ok a, s)
  wrap_result c (err e, s) = (err (wrapped c e), s)

  -- fmt.Errorf("…: %w", err) around the error of a call
  abbrev pub wrap_exec : Context → Exec S A → Exec S A
  wrap_exec c m s = wrap_result c (m s)
