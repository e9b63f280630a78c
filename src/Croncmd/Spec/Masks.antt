-- ===== src/Croncmd/Spec/Masks.antt =====
-- examples/croncmd/spec.go: the masks of parsed terms and fields.
use mathlib.Core.Path.{subst}
use libp2p_kv_raft.Base.{
  ℕ, zero, suc, ◌+◌, ◌-◌, ◌%◌, ◌^◌, ◌≤◌, ◌<◌, ◌≡◌, ◌≢◌, ◌↔◌, inl, inr, sym, ◌∙◌, arith, true, false,
  Bool, ◌||◌, ◌++◌, refl, Bool-cases, List, [], ◌∷◌, Option, Bytes, ◌==◌,
}
use libp2p_kv_raft.Outcome.{ok, >>=-eq-ok, else-eq-ok, empty_term, empty_field}
use libp2p_kv_raft.Croncmd.Bits.{has_bit, bit_or, has_bit-bit_or, has_bit-zero}
use libp2p_kv_raft.Croncmd.Text.{is_empty, trim_space, cut, split, split_from}
use libp2p_kv_raft.Croncmd.Spec.Parse.{
  Names, set_bits, set_bits_fuel, parse_step, parse_range, parse_term, parse_terms, some_bit,
  parse_field,
}
use libp2p_kv_raft.Croncmd.Spec.Terms.{
  Steps, set_bits-cases, set_bits-zero, set_bits-keeps, set_bits-at_most, or_shifted-sets,
  set_bits-small, set_bits_sound, set_bits_complete,
}
use libp2p_kv_raft.Croncmd.Spec.Values.{AreNames, parse_range_range}

no_bit : (i : ℕ) → has_bit 0 i ≢ true
no_bit i h = ground (arith, has_bit-zero i)

-- A term whose last value and step add up without overflow sets the bits of its first value and of
-- every step-th value from there to the last, and no other.
pub set_bits-exact :
    (lo hi step : ℕ)
    → lo ≤ hi
    → hi < 60
    → 1 ≤ step
    → hi + step < 2 ^ 63
    → (m : ℕ) × (set_bits set_bits_fuel hi step lo 0 ≡ ok m)
      × ((i : ℕ) → i < 64 → (has_bit m i ≡ true) ↔ Steps step hi lo i)
set_bits-exact lo hi step le small pos fits =
    let (m, e) =
      set_bits-small hi step (omega arith) pos fits set_bits_fuel lo 0 (omega arith) (omega arith)
        (omega arith) in
    (
      m,
      e,
      λ i h. (
        λ b.
            elim (set_bits_sound hi step (omega arith) pos fits set_bits_fuel lo 0 m i h
              (omega arith) e b) [ inl none_set ↦ absurd (no_bit i none_set) | inr steps ↦ steps ],
        set_bits_complete hi step (omega arith) pos fits set_bits_fuel lo 0 m i h e,
      ),
    )

-- The first value of a term is set.
set_bits-first :
    (fuel hi step v mask m : ℕ)
    → v ≤ hi
    → hi < 60
    → set_bits fuel hi step v mask ≡ ok m
    → has_bit m v ≡ true
set_bits-first zero hi step v mask m le small e =
    absurd (ground (arith, set_bits-zero hi step v mask))
set_bits-first (suc fuel) hi step v mask m le small e = elim (set_bits-cases fuel hi step v mask) [
  | inl (more, f) ↦
      set_bits-keeps fuel hi step _ _ m v (omega arith) (sym f ∙ e)
        (or_shifted-sets mask v (omega arith))
  | inr (done, f) ↦ absurd (ground arith)
]

second_round :
    (lo hi mask m : ℕ)
    → 2 ≤ lo
    → lo ≤ hi
    → hi < 60
    → set_bits 63 hi (2 ^ 63 - 1) ((lo + (2 ^ 63 - 1)) % 2 ^ 64) mask ≡ ok m
    → has_bit m (lo - 2) ≡ true
second_round lo hi mask m two le small e =
    elim (set_bits-cases 62 hi (2 ^ 63 - 1) ((lo + (2 ^ 63 - 1)) % 2 ^ 64) mask) [
      | inr (done, f) ↦ absurd (ground arith)
      | inl (more, f) ↦
          subst (λ v. has_bit m v ≡ true) back
            (set_bits-first 62 hi (2 ^ 63 - 1) _ _ m (omega arith) small (sym f ∙ e))
    ]
  where
    back : ((lo + (2 ^ 63 - 1)) % 2 ^ 64 + (2 ^ 63 - 1)) % 2 ^ 64 ≡ lo - 2
    back = omega arith

-- The loop with the step 2 ^ 63 - 1, the largest int, from a first value of at least 2 to a last
-- below 60: the mask that it returns has the bit two below the first value, since the sum of value
-- and step overflows twice.
pub set_bits-overflows :
    (lo hi m : ℕ)
    → 2 ≤ lo
    → lo ≤ hi
    → hi < 60
    → set_bits set_bits_fuel hi (2 ^ 63 - 1) lo 0 ≡ ok m
    → has_bit m (lo - 2) ≡ true
set_bits-overflows lo hi m two le small e = elim (set_bits-cases 63 hi (2 ^ 63 - 1) lo 0) [
  | inr (done, f) ↦ absurd (ground arith)
  | inl (more, f) ↦ second_round lo hi _ m two le small (sym f ∙ e)
]

-- The mask of a field from `min` to `max`: no bit above, and one in the range at least.
pub record IsMask (min max mask : ℕ) : Type 0 where
  pub above : (i : ℕ) → i < 64 → has_bit mask i ≡ true → i ≤ max
  pub inside : (i : ℕ) × (min ≤ i) × (i ≤ max) × (has_bit mask i ≡ true)

some_bit-eq-ok : (mask m : ℕ) → some_bit mask ≡ ok m → mask ≡ m
some_bit-eq-ok mask m e = ground arith

module _ (min max : ℕ) (names : Option Names) (h : min ≤ max) (small : max < 60)
    (hn : AreNames min max names) where
  parse_term-IsMask :
      (term : Bytes) (mask : ℕ) → parse_term term min max names ≡ ok mask → IsMask min max mask
  unfolding parse_term
  parse_term-IsMask term mask e =
      let parts = cut 47 term in
      let (full, e0) = else-eq-ok (is_empty term) empty_term _ e in
      let (step, es, e1) = >>=-eq-ok (parse_step parts.1 parts.2) _ e0 in
      let (range, er, e2) =
        >>=-eq-ok (parse_range (trim_space parts.0) parts.2 min max names) _ e1 in
      let (ge, le, top) =
        parse_range_range min max names h hn (trim_space parts.0) parts.2 range.0 range.1 er in
      record {
        above = λ i hi b.
            elim (set_bits-at_most set_bits_fuel range.1 step range.0 0 mask i hi e2 b) [
              | inl none_set ↦ absurd (no_bit i none_set)
              | inr low ↦ omega arith
            ];
        inside = (
          range.0,
          ge,
          omega arith,
          set_bits-first set_bits_fuel range.1 step range.0 0 mask le (omega arith) e2,
        );
      }

  -- The terms of a field, one after the other.
  abbrev Below : ℕ → Type 0
  Below mask = (i : ℕ) → i < 64 → has_bit mask i ≡ true → i ≤ max

  Below-bit_or : (a b : ℕ) → Below a → Below b → Below (bit_or 64 a b)
  Below-bit_or a b ha hb i hi e =
      either (has_bit a i) (has_bit b i) (sym (has_bit-bit_or 64 a b i hi) ∙ e) (ha i hi) (hb i hi)
    where
      either :
          (p q : Bool) → (p || q) ≡ true → (p ≡ true → i ≤ max) → (q ≡ true → i ≤ max) → i ≤ max
      either true q e f g = f refl
      either false q e f g = g e

  parse_terms-Below :
      (terms : List Bytes) (mask m : ℕ)
      → Below mask
      → parse_terms terms min max names mask ≡ ok m
      → Below m
  unfolding parse_terms
  parse_terms-Below [] mask m below e = subst Below (ground arith) below
  parse_terms-Below (term ∷ rest) mask m below e =
      let (t, et, e1) = >>=-eq-ok (parse_term (trim_space term) min max names) _ e in
      parse_terms-Below rest (bit_or 64 mask t) m
        (Below-bit_or mask t below (parse_term-IsMask (trim_space term) t et).above) e1

  parse_terms-keeps :
      (terms : List Bytes) (mask m i : ℕ)
      → i < 64
      → parse_terms terms min max names mask ≡ ok m
      → has_bit mask i ≡ true
      → has_bit m i ≡ true
  unfolding parse_terms
  parse_terms-keeps [] mask m i hi e b = subst (λ n. has_bit n i ≡ true) (ground arith) b
  parse_terms-keeps (term ∷ rest) mask m i hi e b =
      let (t, et, e1) = >>=-eq-ok (parse_term (trim_space term) min max names) _ e in
      parse_terms-keeps rest (bit_or 64 mask t) m i hi e1
        (has_bit-bit_or 64 mask t i hi ∙ rw b refl)

  parse_terms-IsMask :
      (term : Bytes) (rest : List Bytes) (mask : ℕ)
      → parse_terms (term ∷ rest) min max names 0 ≡ ok mask
      → IsMask min max mask
  unfolding parse_terms
  parse_terms-IsMask term rest mask e =
      let (t, et, e1) = >>=-eq-ok (parse_term (trim_space term) min max names) _ e in
      let (i, ge, le, b) = (parse_term-IsMask (trim_space term) t et).inside in
      record {
        above = parse_terms-Below (term ∷ rest) 0 mask (λ j hj b. absurd (no_bit j b)) e;
        inside = (
          i,
          ge,
          le,
          parse_terms-keeps rest (bit_or 64 0 t) mask i (omega arith) e1
              (has_bit-bit_or 64 0 t i (omega arith) ∙ rw (has_bit-zero i) b),
        );
      }

  split-IsMask :
      (part s : Bytes) (mask : ℕ)
      → parse_terms (split_from 44 part s) min max names 0 ≡ ok mask
      → IsMask min max mask
  split-IsMask part [] mask e = parse_terms-IsMask part [] mask e
  split-IsMask part (c ∷ s) mask e = elim (Bool-cases (c == 44)) [
    | inl comma ↦ parse_terms-IsMask part (split 44 s) mask (rw comma at e)
    | inr other ↦ split-IsMask (part ++ c ∷ []) s mask (rw other at e)
  ]

-- A field that parses has a mask without bits above the field's largest value, and with one bit
-- at least from its smallest to its largest value, if its names stand for such values.
pub parse_field-IsMask :
    (field : Bytes) (min max : ℕ) (names : Option Names) (mask : ℕ)
    → min ≤ max
    → max < 60
    → AreNames min max names
    → parse_field field min max names ≡ ok mask
    → IsMask min max mask
unfolding parse_field
parse_field-IsMask field min max names mask h small hn e =
    let (full, e0) = else-eq-ok (is_empty (trim_space field)) empty_field _ e in
    let (m, em, e1) = >>=-eq-ok (parse_terms (split 44 (trim_space field)) min max names 0) _ e0 in
    subst (IsMask min max) (some_bit-eq-ok m mask e1)
      (split-IsMask min max names h small hn [] (trim_space field) m em)
