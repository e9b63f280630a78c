-- ===== src/Croncmd/Spec/Values.antt =====
-- examples/croncmd/spec.go: the values, steps and ranges that a term can have.
use libp2p_kv_raft.Base.{
  ℕ, zero, suc, ◌^◌, ◌≤◌, ◌<◌, ◌≡◌, inl, inr, refl, arith, true, false, Bool, ltb, Bool-cases,
  Option, none, some, Bytes, [], ◌∷◌, All, equal,
}
use libp2p_kv_raft.Outcome.{ok, ◌>>=◌, >>=-eq-ok, else-eq-ok, empty_value, range_backwards}
use libp2p_kv_raft.Logrecord.{ℤ, pos, negsuc}
use libp2p_kv_raft.Croncmd.Text.{
  is_empty, trim_space, cut, contains, to_lower, digits, plus, minus, atoi,
}
use libp2p_kv_raft.Croncmd.Spec.Parse.{
  Names, lookup_name, named, name_or_number, number, parse_value, parse_step, parse_range,
  checked_step, check_range, from_value,
}

-- Every name of a field stands for a value of the field.
abbrev pub AreNames : ℕ → ℕ → Option Names → Type 0
AreNames min max none = Unit {0}
AreNames min max (some names) = All (λ (entry : Bytes × ℕ). (min ≤ entry.1) × (entry.1 ≤ max)) names

lookup_name_range :
    (names : Names) (key : Bytes) (v min max : ℕ)
    → AreNames min max (some names)
    → lookup_name names key ≡ some v
    → (min ≤ v) × (v ≤ max)
lookup_name_range [] key v min max h e = absurd (ground arith)
lookup_name_range ((name, value) ∷ rest) key v min max h e = elim (Bool-cases (equal name key)) [
  | inl hit ↦ ground arith
  | inr miss ↦ lookup_name_range rest key v min max h.1 (ground arith)
]

named_range :
    (names : Option Names) (text : Bytes) (v min max : ℕ)
    → AreNames min max names
    → named names text ≡ some v
    → (min ≤ v) × (v ≤ max)
named_range none text v min max h e = absurd (ground arith)
named_range (some names) text v min max h e = lookup_name_range names (to_lower text) v min max h e

number_range :
    (min max : ℕ) (names : Option Names) (z : Option ℤ) (v : ℕ)
    → number min max names z ≡ ok v
    → (min ≤ v) × (v ≤ max)
number_range min max names none v e = absurd (ground arith)
number_range min max names (some (negsuc n)) v e = absurd (ground arith)
number_range min max names (some (pos n)) v e = ground arith

name_or_number_range :
    (min max : ℕ) (names : Option Names) (text : Bytes) (o : Option ℕ) (v : ℕ)
    → ((w : ℕ) → o ≡ some w → (min ≤ w) × (w ≤ max))
    → name_or_number min max names text o ≡ ok v
    → (min ≤ v) × (v ≤ max)
name_or_number_range min max names text none v h e = number_range min max names (atoi text) v e
name_or_number_range min max names text (some w) v h e = h v (ground arith)

-- A value that is parsed, a name or a number, lies in the range of its field.
parse_value_range :
    (text : Bytes) (min max : ℕ) (names : Option Names) (v : ℕ)
    → AreNames min max names
    → parse_value text min max names ≡ ok v
    → (min ≤ v) × (v ≤ max)
unfolding parse_value
parse_value_range source min max names v h e =
    let text = trim_space source in
    name_or_number_range min max names text (named names text) v
      (λ w. named_range names text w min max h) (else-eq-ok (is_empty text) empty_value _ e).1

plus_range : (o : Option ℕ) (n : ℕ) → plus o ≡ some (pos n) → n < 2 ^ 63
plus_range none n e = absurd (ground arith)
plus_range (some m) n e = ground arith

minus_range : (o : Option ℕ) (n : ℕ) → minus o ≡ some (pos n) → n < 2 ^ 63
minus_range none n e = absurd (ground arith)
minus_range (some zero) n e = ground arith
minus_range (some (suc m)) n e = ground arith

atoi_range : (s : Bytes) (n : ℕ) → atoi s ≡ some (pos n) → n < 2 ^ 63
atoi_range [] n e = absurd (ground arith)
atoi_range (c ∷ s) n e =
    ground (arith, plus_range (digits s) n, minus_range (digits s) n, plus_range (digits (c ∷ s)) n)

checked_step_range :
    (o : Option ℤ) (n : ℕ)
    → ((m : ℕ) → o ≡ some (pos m) → m < 2 ^ 63)
    → checked_step o ≡ ok n
    → (1 ≤ n) × (n < 2 ^ 63)
checked_step_range none n h e = absurd (ground arith)
checked_step_range (some (negsuc m)) n h e = absurd (ground arith)
checked_step_range (some (pos m)) n h e = ground (arith, h m refl)

-- A step is positive, and an int.
pub parse_step_range :
    (text : Bytes) (has_step : Bool) (n : ℕ)
    → parse_step text has_step ≡ ok n
    → (1 ≤ n) × (n < 2 ^ 63)
unfolding parse_step
parse_step_range text true n e =
    checked_step_range (atoi (trim_space text)) n (λ m. atoi_range (trim_space text) m) e
parse_step_range text false n e = ground arith

module _ (min max : ℕ) (names : Option Names) (h : min ≤ max) (hn : AreNames min max names) where
  abbrev pub InRange : ℕ → ℕ → Type 0
  InRange lo hi = (min ≤ lo) × (lo ≤ hi) × (hi ≤ max)

  two_values_range :
      (low high : Bytes) (lo hi : ℕ)
      → (parse_value low min max names >>= λ a.
          parse_value high min max names >>= λ b. check_range a b)
        ≡ ok (lo, hi)
      → InRange lo hi
  two_values_range low high lo hi e =
      let (a, ea, e1) = >>=-eq-ok (parse_value low min max names) _ e in
      let (b, eb, e2) = >>=-eq-ok (parse_value high min max names) _ e1 in
      let e3 = (else-eq-ok (ltb b a) range_backwards (ok (a, b)) e2) in
      ground (
        arith,
        parse_value_range low min max names a hn ea,
        parse_value_range high min max names b hn eb,
      )

  one_value_range :
      (text : Bytes) (has_step : Bool) (lo hi : ℕ)
      → (parse_value text min max names >>= λ v. from_value has_step max v) ≡ ok (lo, hi)
      → InRange lo hi
  one_value_range text has_step lo hi e =
      let (v, ev, e1) = >>=-eq-ok (parse_value text min max names) _ e in
      ground (arith, parse_value_range text min max names v hn ev)

  -- The first and the last value of a term lie in the range of its field, in this order.
  pub parse_range_range :
      (text : Bytes) (has_step : Bool) (lo hi : ℕ)
      → parse_range text has_step min max names ≡ ok (lo, hi)
      → InRange lo hi
  unfolding parse_range
  parse_range_range text has_step lo hi e = elim (Bool-cases (equal text (42 ∷ []))) [
    | inl star ↦ ground arith
    | inr word ↦ elim (Bool-cases (contains 45 text)) [
      | inl dash ↦ two_values_range (cut 45 text).0 (cut 45 text).1 lo hi (rw (word, dash) at e)
      | inr plain ↦ one_value_range text has_step lo hi (rw (word, plain) at e)
    ]
  ]
