-- ===== src/Croncmd/Spec/Terms.antt =====
-- examples/croncmd/spec.go: the bits that a term of a field sets.
use mathlib.Core.Path.{subst}
use libp2p_kv_raft.Base.{
  ℕ, zero, suc, ◌+◌, ◌%◌, ◌^◌, ◌≤◌, ◌<◌, ◌≡◌, ◌⊎◌, inl, inr, refl, sym, ◌∙◌, arith, Bool, true,
  false, ◌||◌, ◌==◌, ==_refl, ltb, Bool-cases,
}
use libp2p_kv_raft.Outcome.{Result, ok, err, out_of_fuel}
use libp2p_kv_raft.Croncmd.Bits.{has_bit, bit_or, has_bit-bit_or, has_bit-zero, has_bit-pow}
use libp2p_kv_raft.Croncmd.Spec.Parse.{one_shifted, at_most, set_bits}

-- A round of the loop.
pub set_bits-cases :
    (fuel hi step v mask : ℕ)
    → ((at_most v hi ≡ true)
        × (set_bits (suc fuel) hi step v mask
            ≡ set_bits fuel hi step ((v + step) % 2 ^ 64) (bit_or 64 mask (one_shifted v))))
      ⊎ ((at_most v hi ≡ false) × (set_bits (suc fuel) hi step v mask ≡ ok mask))
unfolding set_bits
set_bits-cases fuel hi step v mask = elim (Bool-cases (at_most v hi)) [
  | inl more ↦ inl (more, rw (more, set_bits) refl)
  | inr done ↦ inr (done, rw (done, set_bits) refl)
]

pub set_bits-zero : (hi step v mask : ℕ) → set_bits 0 hi step v mask ≡ err out_of_fuel
unfolding set_bits
set_bits-zero hi step v mask = refl

has_bit-one_shifted : (v i : ℕ) → i < 64 → has_bit (one_shifted v) i ≡ (v == i)
has_bit-one_shifted v i h = elim (Bool-cases (ltb v 64)) [
  | inl lt ↦ rw lt (has_bit-pow v i)
  | inr ge ↦ rw ge (has_bit-zero i ∙ ground arith)
]

ok_lem : {r : Result ℕ} {m n : ℕ} → r ≡ ok m → r ≡ ok n → m ≡ n
ok_lem e f = ground arith

-- The bits after `mask |= 1 << uint(v)`
has_bit-or_shifted :
    (mask v i : ℕ)
    → i < 64
    → has_bit (bit_or 64 mask (one_shifted v)) i ≡ (has_bit mask i || (v == i))
has_bit-or_shifted mask v i h =
    has_bit-bit_or 64 mask (one_shifted v) i h ∙ rw (has_bit-one_shifted v i h) refl

or_eq-true : (b : Bool) (v i : ℕ) → (b || (v == i)) ≡ true → (b ≡ true) ⊎ (v ≡ i)
or_eq-true true v i h = inl refl
or_eq-true false v i h = inr (ground arith)

or_shifted-inv :
    (mask v i : ℕ)
    → i < 64
    → has_bit (bit_or 64 mask (one_shifted v)) i ≡ true
    → (has_bit mask i ≡ true) ⊎ (v ≡ i)
or_shifted-inv mask v i h b =
    or_eq-true (has_bit mask i) v i (sym (has_bit-or_shifted mask v i h) ∙ b)

pub or_shifted-sets : (mask v : ℕ) → v < 64 → has_bit (bit_or 64 mask (one_shifted v)) v ≡ true
or_shifted-sets mask v h = has_bit-or_shifted mask v v h ∙ rw (==_refl v) (or-true (has_bit mask v))
  where
    or-true : (b : Bool) → (b || true) ≡ true
    or-true true = refl
    or-true false = refl

at_most→le : (v hi : ℕ) → v < 64 → at_most v hi ≡ true → v ≤ hi
at_most→le v hi h more = ground arith

-- The bits that the loop has set stay.
pub set_bits-keeps :
    (fuel hi step v mask m i : ℕ)
    → i < 64
    → set_bits fuel hi step v mask ≡ ok m
    → has_bit mask i ≡ true
    → has_bit m i ≡ true
set_bits-keeps zero hi step v mask m i h e b = absurd (ground (arith, set_bits-zero hi step v mask))
set_bits-keeps (suc fuel) hi step v mask m i h e b = elim (set_bits-cases fuel hi step v mask) [
  | inl (more, f) ↦
      set_bits-keeps fuel hi step _ _ m i h (sym f ∙ e) (rw (has_bit-or_shifted mask v i h, b) refl)
  | inr (done, f) ↦ subst (λ n. has_bit n i ≡ true) (ok_lem f e) b
]

-- The loop sets no bit above the last value.
pub set_bits-at_most :
    (fuel hi step v mask m i : ℕ)
    → i < 64
    → set_bits fuel hi step v mask ≡ ok m
    → has_bit m i ≡ true
    → (has_bit mask i ≡ true) ⊎ (i ≤ hi)
set_bits-at_most zero hi step v mask m i h e b =
    absurd (ground (arith, set_bits-zero hi step v mask))
set_bits-at_most (suc fuel) hi step v mask m i h e b = elim (set_bits-cases fuel hi step v mask) [
  | inl (more, f) ↦ elim (set_bits-at_most fuel hi step _ _ m i h (sym f ∙ e) b) [
    | inr le ↦ inr le
    | inl set ↦ elim (or_shifted-inv mask v i h set) [
      | inl old ↦ inl old
      | inr eq ↦ inr (omega (arith, at_most→le v hi (omega arith) more))
    ]
  ]
  | inr (done, f) ↦ inl (subst (λ n. has_bit n i ≡ true) (ok_lem e f) b)
]

-- What the loop means to admit: the first value and every step-th one from there, to the last.
pub data Steps (step hi : ℕ) : ℕ → ℕ → Type 0 where
  first : {v : ℕ} → v ≤ hi → Steps step hi v v
  further : {v i : ℕ} → v ≤ hi → Steps step hi (v + step) i → Steps step hi v i

module _ (hi step : ℕ) (small : hi < 64) (pos : 1 ≤ step) (fits : hi + step < 2 ^ 63) where
  no_wrap : (v : ℕ) → v ≤ hi → (v + step) % 2 ^ 64 ≡ v + step
  no_wrap v le = omega arith

  -- Where the last value and the step add up without overflow, the loop ends in time.
  pub set_bits-small :
      (fuel v mask : ℕ)
      → 0 < fuel
      → hi + 2 ≤ fuel + v
      → v ≤ hi + step
      → (m : ℕ) × (set_bits fuel hi step v mask ≡ ok m)
  set_bits-small zero v mask some_fuel room range = absurd (omega arith)
  set_bits-small (suc fuel) v mask some_fuel room range =
      elim (set_bits-cases fuel hi step v mask) [
        | inl (more, f) ↦
            let le : v ≤ hi = ground arith in
            let r =
              set_bits-small fuel ((v + step) % 2 ^ 64) (bit_or 64 mask (one_shifted v))
                (omega arith) (omega (arith, no_wrap v le)) (omega (arith, no_wrap v le)) in
            (r.0, f ∙ r.1)
        | inr (done, f) ↦ (mask, f)
      ]

  pub set_bits_sound :
      (fuel v mask m i : ℕ)
      → i < 64
      → v ≤ hi + step
      → set_bits fuel hi step v mask ≡ ok m
      → has_bit m i ≡ true
      → (has_bit mask i ≡ true) ⊎ Steps step hi v i
  set_bits_sound zero v mask m i h range e b = absurd (ground (arith, set_bits-zero hi step v mask))
  set_bits_sound (suc fuel) v mask m i h range e b = elim (set_bits-cases fuel hi step v mask) [
    | inr (done, f) ↦ inl (subst (λ n. has_bit n i ≡ true) (ok_lem e f) b)
    | inl (more, f) ↦
        let le : v ≤ hi = ground arith in
        elim (set_bits_sound fuel ((v + step) % 2 ^ 64) _ m i h (omega (arith, no_wrap v le))
          (sym f ∙ e) b) [
            | inr steps ↦ inr (further le (subst (λ w. Steps step hi w i) (no_wrap v le) steps))
            | inl set ↦ elim (or_shifted-inv mask v i h set) [
              | inl old ↦ inl old
              | inr eq ↦ inr (subst (Steps step hi v) eq (first le))
            ]
          ]
  ]

  pub set_bits_complete :
      (fuel v mask m i : ℕ)
      → i < 64
      → set_bits fuel hi step v mask ≡ ok m
      → Steps step hi v i
      → has_bit m i ≡ true
  set_bits_complete zero v mask m i h e steps =
      absurd (ground (arith, set_bits-zero hi step v mask))
  set_bits_complete (suc fuel) v mask m i h e (first le) =
      elim (set_bits-cases fuel hi step v mask) [
        | inr (done, f) ↦ absurd (ground arith)
        | inl (more, f) ↦
            set_bits-keeps fuel hi step _ _ m i h (sym f ∙ e) (or_shifted-sets mask v h)
      ]
  set_bits_complete (suc fuel) v mask m i h e (further le steps) =
      elim (set_bits-cases fuel hi step v mask) [
        | inr (done, f) ↦ absurd (ground arith)
        | inl (more, f) ↦
            set_bits_complete fuel _ _ m i h (sym f ∙ e)
              (subst (λ w. Steps step hi w i) (sym (no_wrap v le)) steps)
      ]
