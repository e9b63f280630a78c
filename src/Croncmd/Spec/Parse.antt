-- ===== src/Croncmd/Spec/Parse.antt =====
-- examples/croncmd/spec.go: a cron expression is parsed into masks.
use libp2p_kv_raft.Base.{
  ℕ, zero, suc, ◌+◌, ◌%◌, ◌^◌, Bool, true, false, ◌&&◌, ◌||◌, leb, ltb, ◌==◌, if◌then◌else◌, List,
  [], ◌∷◌, Option, none, some, Bytes, equal,
}
use libp2p_kv_raft.Outcome.{
  Result, ok, err, ◌>>=◌, out_of_fuel, empty_field, matches_nothing, empty_term, step_not_number,
  step_too_small, range_backwards, empty_value, not_a_value, out_of_range,
}
use libp2p_kv_raft.Logrecord.{ℤ, pos, negsuc}
use libp2p_kv_raft.Croncmd.Bits.{bit_or}
use libp2p_kv_raft.Croncmd.Text.{is_empty, trim_space, cut, split, contains, to_lower, atoi}

-- The smallest and the largest value of a field.
abbrev pub dow_max : ℕ
dow_max = 6

abbrev pub Names : Type 0
Names = List (Bytes × ℕ)

abbrev pub month_names : Names
month_names =
    (106 ∷ 97 ∷ 110 ∷ [], 1)
    ∷ (102 ∷ 101 ∷ 98 ∷ [], 2)
    ∷ (109 ∷ 97 ∷ 114 ∷ [], 3)
    ∷ (97 ∷ 112 ∷ 114 ∷ [], 4)
    ∷ (109 ∷ 97 ∷ 121 ∷ [], 5)
    ∷ (106 ∷ 117 ∷ 110 ∷ [], 6)
    ∷ (106 ∷ 117 ∷ 108 ∷ [], 7)
    ∷ (97 ∷ 117 ∷ 103 ∷ [], 8)
    ∷ (115 ∷ 101 ∷ 112 ∷ [], 9)
    ∷ (111 ∷ 99 ∷ 116 ∷ [], 10)
    ∷ (110 ∷ 111 ∷ 118 ∷ [], 11)
    ∷ (100 ∷ 101 ∷ 99 ∷ [], 12)
    ∷ []

abbrev pub dow_names : Names
dow_names =
    (115 ∷ 117 ∷ 110 ∷ [], 0)
    ∷ (109 ∷ 111 ∷ 110 ∷ [], 1)
    ∷ (116 ∷ 117 ∷ 101 ∷ [], 2)
    ∷ (119 ∷ 101 ∷ 100 ∷ [], 3)
    ∷ (116 ∷ 104 ∷ 117 ∷ [], 4)
    ∷ (102 ∷ 114 ∷ 105 ∷ [], 5)
    ∷ (115 ∷ 97 ∷ 116 ∷ [], 6)
    ∷ []

abbrev pub lookup_name {ℓ} : {A : Type ℓ} → List (Bytes × A) → Bytes → Option A
lookup_name [] key = none
lookup_name ((name, value) ∷ rest) key = if equal name key then some value else lookup_name rest key

-- names[strings.ToLower(text)] of a field that has names
abbrev pub named : Option Names → Bytes → Option ℕ
named none text = none
named (some names) text = lookup_name names (to_lower text)

abbrev pub has_names : Option Names → Bool
has_names none = false
has_names (some names) = true

abbrev pub bounded : ℕ → ℕ → ℕ → Result ℕ
bounded min max value = if ltb value min || ltb max value then err out_of_range else ok value

-- Sunday is written 7 too; the bounds are never negative.
abbrev pub number : ℕ → ℕ → Option Names → Option ℤ → Result ℕ
number min max names none = err not_a_value
number min max names (some (negsuc n)) = err out_of_range
number min max names (some (pos n)) =
    if has_names names && (max == dow_max) && (n == 7) then bounded min max 0 else bounded min max n

abbrev pub name_or_number : ℕ → ℕ → Option Names → Bytes → Option ℕ → Result ℕ
name_or_number min max names text (some value) = ok value
name_or_number min max names text none = number min max names (atoi text)

unfoldable pub parse_value : Bytes → ℕ → ℕ → Option Names → Result ℕ
parse_value source min max names =
    let text = trim_space source in
    if is_empty text then err empty_value else name_or_number min max names text (named names text)

-- The step behind the '/' of a term, 1 where there is none.
abbrev pub checked_step : Option ℤ → Result ℕ
checked_step none = err step_not_number
checked_step (some (negsuc n)) = err step_too_small
checked_step (some (pos n)) = if ltb n 1 then err step_too_small else ok n

unfoldable pub parse_step : Bytes → Bool → Result ℕ
parse_step text has_step = if has_step then checked_step (atoi (trim_space text)) else ok 1

abbrev pub check_range : ℕ → ℕ → Result (ℕ × ℕ)
check_range lo hi = if ltb hi lo then err range_backwards else ok (lo, hi)

abbrev pub from_value : Bool → ℕ → ℕ → Result (ℕ × ℕ)
from_value has_step max value = ok (value, if has_step then max else value)

-- The first and the last value of a term: "*", "lo-hi", or a value, which with a step runs to the
-- end of the field.
unfoldable pub parse_range : Bytes → Bool → ℕ → ℕ → Option Names → Result (ℕ × ℕ)
parse_range range_part has_step min max names =
    if equal range_part (42 ∷ [])
    then ok (min, max)
    else if contains 45 range_part
    then (let parts = cut 45 range_part in
        parse_value parts.0 min max names >>= λ lo.
        parse_value parts.1 min max names >>= λ hi. check_range lo hi)
    else parse_value range_part min max names >>= λ value. from_value has_step max value

-- 1 << uint(v) in 64 bits
abbrev pub one_shifted : ℕ → ℕ
one_shifted v = if ltb v 64 then 2 ^ v else 0

-- v <= hi of int: a word from 2 ^ 63 on is negative.
abbrev pub at_most : ℕ → ℕ → Bool
at_most v hi = leb v hi || leb (2 ^ 63) v

-- The loop that sets the bits of a term. `v += step` wraps around.
unfoldable pub set_bits : ℕ → ℕ → ℕ → ℕ → ℕ → Result ℕ
set_bits zero hi step v mask = err out_of_fuel
set_bits (suc fuel) hi step v mask = elim (at_most v hi) [
  | true ↦ set_bits fuel hi step ((v + step) % 2 ^ 64) (bit_or 64 mask (one_shifted v))
  | false ↦ ok mask
]

abbrev pub set_bits_fuel : ℕ
set_bits_fuel = 64

unfoldable pub parse_term : Bytes → ℕ → ℕ → Option Names → Result ℕ
parse_term term min max names =
    let parts = cut 47 term in
    if is_empty term
    then err empty_term
    else parse_step parts.1 parts.2 >>= λ step.
        parse_range (trim_space parts.0) parts.2 min max names >>= λ range.
        set_bits set_bits_fuel range.1 step range.0 0

-- The loop over the terms of a field.
unfoldable pub parse_terms : List Bytes → ℕ → ℕ → Option Names → ℕ → Result ℕ
parse_terms [] min max names mask = ok mask
parse_terms (term ∷ rest) min max names mask =
    parse_term (trim_space term) min max names >>= λ term_mask.
    parse_terms rest min max names (bit_or 64 mask term_mask)

abbrev pub some_bit : ℕ → Result ℕ
some_bit mask = if mask == 0 then err matches_nothing else ok mask

unfoldable pub parse_field : Bytes → ℕ → ℕ → Option Names → Result ℕ
parse_field source min max names =
    let field = trim_space source in
    if is_empty field
    then err empty_field
    else parse_terms (split 44 field) min max names 0 >>= some_bit
