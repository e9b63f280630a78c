-- ===== src/Outcome.antt =====
-- Go's errors as values, shared by all packages. A constructor stands for one error message; the
-- parts of a message that are only formatted are left out. `wrapped` is `fmt.Errorf("…: %w", err)`,
-- which `errors.Is` looks through.
use libp2p_kv_raft.Base.{ℕ, ◌≡◌, refl, Bool, true, false, arith, if◌then◌else◌}

pub data Context : Type 0 where
  confirm consume_invite consume_exec_invite append_request grant_access txn_decode txn_read :
      Context
  txn_write command_spec : Context
  -- examples/croncmd: the field of an expression
  minute_field hour_field dom_field month_field dow_field : Context
  -- pkg/chandata
  chunk_header chunk_payload : Context

pub data Error : Type 0 where
  -- pkg/store
  not_found : Error
  eof unexpected_eof out_of_fuel : Error
  -- what a statement of the database driver returns
  sql : ℕ → Error
  -- pkg/shmevent and pkg/logrecord: an input that does not parse, or does not fit
  too_short truncated wrong_kind trailing_bytes : Error
  too_long empty_key unknown_op too_many : Error
  no_ops bad_token : Error
  -- pkg/kvfsm
  list_full name_taken not_system_key unsupported_kind : Error
  token_expired not_permitted not_request_kind compare_failed unknown_kind : Error
  -- examples/croncmd: an expression that does not parse
  empty_expression unknown_shortcut wrong_field_count empty_field : Error
  matches_nothing empty_term step_not_number step_too_small : Error
  range_backwards empty_value not_a_value out_of_range : Error
  no_schedule_id slash_in_id no_command_id unknown_location encode_failed : Error
  no_schedule schedule_not_parsed : Error
  -- pkg/chandata
  chunk_too_large oversized_chunk : Error
  wrapped : Context → Error → Error

pub data Result {ℓ} (A : Type ℓ) : Type ℓ where
  ok : A → Result A
  err : Error → Result A

-- fmt.Errorf("…: %w", err) around whatever error the call returned
abbrev pub wrap {ℓ} : {A : Type ℓ} → Context → Result A → Result A
wrap c (ok a) = ok a
wrap c (err e) = err (wrapped c e)

-- errors.Is(err, store.ErrNotFound)
abbrev pub is_not_found : Error → Bool
is_not_found not_found = true
is_not_found (wrapped c e) = is_not_found e
is_not_found _ = false

-- A test that Go answers with `return err` where it fails.
abbrev pub guard : Bool → Error → Result (Unit {0})
guard passes failure = if passes then ok tt else err failure

-- Go on with the value, or return the error: `if err != nil { return err }`.
infixl 5 ◌>>=◌ ◌>>◌
abbrev pub ◌>>=◌ {ℓ κ} : {V : Type ℓ} {W : Type κ} → Result V → (V → Result W) → Result W
err failure >>= rest = err failure
ok value >>= rest = rest value

abbrev pub ◌>>◌ {ℓ} : {W : Type ℓ} → Result (Unit {0}) → Result W → Result W
step >> rest = step >>= λ _. rest

pub >>=-eq-ok {ℓ κ} :
    {V : Type ℓ} {W : Type κ} (first : Result V) (rest : V → Result W) {w : W}
    → (first >>= rest) ≡ ok w
    → (v : V) × (first ≡ ok v) × (rest v ≡ ok w)
>>=-eq-ok (err failure) rest h = absurd (ground arith)
>>=-eq-ok (ok v) rest h = (v, refl, h)

pub wrap-eq-ok {ℓ} : {V : Type ℓ} (c : Context) (r : Result V) (v : V) → wrap c r ≡ ok v → r ≡ ok v
wrap-eq-ok c (ok w) v h = h
wrap-eq-ok c (err failure) v h = absurd (ground arith)

pub err_injective {ℓ} : {A : Type ℓ} {e f : Error} → ◌≡◌ {A = Result A} (err e) (err f) → e ≡ f
err_injective h = ground arith

-- A test that ends in an error where it holds: a result is the rest's.
pub else-eq-ok {ℓ} :
    {V : Type ℓ} (b : Bool) (failure : Error) (rest : Result V) {v : V}
    → (if b then err failure else rest) ≡ ok v
    → (b ≡ false) × (rest ≡ ok v)
else-eq-ok true failure rest h = absurd (ground arith)
else-eq-ok false failure rest h = (refl, h)
