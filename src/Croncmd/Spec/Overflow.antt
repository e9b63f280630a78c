-- ===== src/Croncmd/Spec/Overflow.antt =====
-- examples/croncmd/spec.go: the loop over the values of a term, with a step that overflows too.
use libp2p_kv_raft.Base.{
  ℕ, zero, suc, ◌+◌, ◌%◌, ◌^◌, ◌≤◌, ◌<◌, ◌≡◌, inl, inr, ◌∙◌, arith, ltb, ltb→lt, not_ltb→le,
  Bool-cases,
}
use libp2p_kv_raft.Outcome.{ok}
use libp2p_kv_raft.Croncmd.Bits.{bit_or}
use libp2p_kv_raft.Croncmd.Spec.Parse.{one_shifted, set_bits, set_bits_fuel}
use libp2p_kv_raft.Croncmd.Spec.Terms.{set_bits-cases, set_bits-small}

module _ (hi step : ℕ) (small : hi < 60) (big : 2 ^ 63 ≤ hi + step) (fits : step < 2 ^ 63) where
  abbrev Ends : ℕ → ℕ → ℕ → Type 0
  Ends fuel v mask = (m : ℕ) × (set_bits fuel hi step v mask ≡ ok m)

  -- A round, given that the rest ends.
  round :
      (fuel v mask : ℕ)
      → Ends fuel ((v + step) % 2 ^ 64) (bit_or 64 mask (one_shifted v))
      → Ends (suc fuel) v mask
  round fuel v mask rest = elim (set_bits-cases fuel hi step v mask) [
    | inl (more, f) ↦ (rest.0, f ∙ rest.1)
    | inr (done, f) ↦ (mask, f)
  ]

  -- A positive value past the last one ends the loop.
  stop : (fuel v mask : ℕ) → hi < v → v < 2 ^ 63 → Ends (suc fuel) v mask
  stop fuel v mask lo le = elim (set_bits-cases fuel hi step v mask) [
    | inl (more, f) ↦ absurd (ground arith)
    | inr (done, f) ↦ (mask, f)
  ]

  third :
      (fuel v mask : ℕ)
      → v ≤ hi
      → v + step + step < 2 ^ 64
      → 2 ^ 63 ≤ v + step
      → v + 3 ≤ suc (suc (suc fuel))
      → Ends fuel ((((v + step) % 2 ^ 64 + step) % 2 ^ 64 + step) % 2 ^ 64) mask
  third zero v mask le lt ge room = absurd (omega arith)
  third (suc fuel) v mask le lt ge room = stop fuel _ _ (omega arith) (omega arith)

  -- Two rounds that wrap around lead to a smaller value, or a third one past the last value.
  set_bits-big : (fuel v mask : ℕ) → v + 3 ≤ fuel → v ≤ hi → Ends fuel v mask
  set_bits-big (suc (suc (suc fuel))) v mask room le =
      round (suc (suc fuel)) v mask (elim (Bool-cases (ltb (v + step) (2 ^ 63))) [
        | inl lt ↦
            let small_sum = ltb→lt (v + step) (2 ^ 63) lt in
            stop (suc fuel) _ _ (omega arith) (omega arith)
        | inr ge ↦
            let large_sum = not_ltb→le (v + step) (2 ^ 63) ge in
            round (suc fuel) _ _ (elim (Bool-cases (ltb (v + step + step) (2 ^ 64))) [
              | inl lt ↦
                  round fuel _ _
                    (third fuel v _ le (ltb→lt (v + step + step) (2 ^ 64) lt) large_sum room)
              | inr ge2 ↦
                  let two = not_ltb→le (v + step + step) (2 ^ 64) ge2 in
                  set_bits-big (suc fuel) _ _ (omega arith) (omega arith)
            ])
      ])
  set_bits-big (suc (suc zero)) v mask room le = absurd (omega arith)
  set_bits-big (suc zero) v mask room le = absurd (omega arith)
  set_bits-big zero v mask room le = absurd (omega arith)

-- With the fuel given, the loop over the values of a term ends for every step of 64 bits.
pub set_bits-ends :
    (hi step v mask : ℕ)
    → hi < 60
    → 1 ≤ step
    → step < 2 ^ 63
    → v ≤ hi
    → (m : ℕ) × (set_bits set_bits_fuel hi step v mask ≡ ok m)
set_bits-ends hi step v mask small pos fits le = elim (Bool-cases (ltb (hi + step) (2 ^ 63))) [
  | inl lt ↦
      set_bits-small hi step (omega arith) pos (ground arith) set_bits_fuel v mask (omega arith)
        (omega arith) (omega arith)
  | inr ge ↦ set_bits-big hi step small (ground arith) fits set_bits_fuel v mask (omega arith) le
]
