-- ===== src/Croncmd/Text.antt =====
-- What spec.go takes from `strings` and `strconv`, on ASCII text: a byte is a character.
use libp2p_kv_raft.Base.{
  ℕ, zero, suc, ◌+◌, ◌-◌, ◌*◌, ◌^◌, Bool, true, false, ◌&&◌, ◌||◌, leb, ltb, ◌==◌, if◌then◌else◌,
  List, [], ◌∷◌, ◌++◌, Option, none, some, Bytes,
}
use libp2p_kv_raft.Logrecord.{ℤ, pos, negsuc}

-- ' ', or one of \t \n \v \f \r
abbrev pub is_space : ℕ → Bool
is_space c = (c == 32) || (leb 9 c && leb c 13)

abbrev pub is_empty : Bytes → Bool
is_empty [] = true
is_empty (c ∷ s) = false

-- strings.TrimSpace
abbrev pub trim_left : Bytes → Bytes
trim_left [] = []
trim_left (c ∷ s) = if is_space c then trim_left s else c ∷ s

abbrev pub trim_right : Bytes → Bytes
trim_right [] = []
trim_right (c ∷ s) = let rest = trim_right s in if is_space c && is_empty rest then [] else c ∷ rest

abbrev pub trim_space : Bytes → Bytes
trim_space s = trim_right (trim_left s)

-- strings.Fields: the word that has begun, and what is left of the text
abbrev pub end_word : Bytes → List Bytes → List Bytes
end_word [] words = words
end_word (c ∷ s) words = (c ∷ s) ∷ words

abbrev pub fields_from : Bytes → Bytes → List Bytes
fields_from word [] = end_word word []
fields_from word (c ∷ s) =
    if is_space c then end_word word (fields_from [] s) else fields_from (word ++ c ∷ []) s

abbrev pub fields : Bytes → List Bytes
fields = fields_from []

-- strings.Cut at the first `sep`
abbrev pub cut : ℕ → Bytes → Bytes × Bytes × Bool
cut sep [] = ([], [], false)
cut sep (c ∷ s) = let r = cut sep s in if c == sep then ([], s, true) else (c ∷ r.0, r.1, r.2)

-- strings.Split at every `sep`; there is at least one part.
abbrev pub split_from : ℕ → Bytes → Bytes → List Bytes
split_from sep part [] = part ∷ []
split_from sep part (c ∷ s) =
    if c == sep then part ∷ split_from sep [] s else split_from sep (part ++ c ∷ []) s

abbrev pub split : ℕ → Bytes → List Bytes
split sep = split_from sep []

-- strings.Contains for one character
abbrev pub contains : ℕ → Bytes → Bool
contains sep [] = false
contains sep (c ∷ s) = (c == sep) || contains sep s

-- strings.ToLower
abbrev pub to_lower : Bytes → Bytes
to_lower [] = []
to_lower (c ∷ s) = (if leb 65 c && leb c 90 then c + 32 else c) ∷ to_lower s

abbrev pub digits_from : ℕ → Bytes → Option ℕ
digits_from n [] = some n
digits_from n (c ∷ s) = if leb 48 c && leb c 57 then digits_from (n * 10 + (c - 48)) s else none

abbrev pub digits : Bytes → Option ℕ
digits [] = none
digits (c ∷ s) = digits_from 0 (c ∷ s)

abbrev pub plus : Option ℕ → Option ℤ
plus none = none
plus (some n) = if ltb n (2 ^ 63) then some (pos n) else none

abbrev pub minus : Option ℕ → Option ℤ
minus none = none
minus (some zero) = some (pos 0)
minus (some (suc n)) = if ltb n (2 ^ 63) then some (negsuc n) else none

-- strconv.Atoi, where int has 64 bits
abbrev pub atoi : Bytes → Option ℤ
atoi [] = none
atoi (c ∷ s) =
    if c == 43 then plus (digits s) else if c == 45 then minus (digits s) else plus (digits (c ∷ s))
