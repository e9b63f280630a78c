-- ===== src/Croncmd/Spec/Expression.antt =====
-- examples/croncmd/spec.go: the five fields of a cron expression, and the shortcuts.
use libp2p_kv_raft.Base.{
  Bool, not, if◌then◌else◌, List, [], ◌∷◌, Option, none, some, Bytes, equal, has_prefix,
}
use libp2p_kv_raft.Outcome.{
  Result, ok, err, wrap, ◌>>=◌, empty_expression, unknown_shortcut, wrong_field_count, minute_field,
  hour_field, dom_field, month_field, dow_field,
}
use libp2p_kv_raft.Croncmd.Text.{is_empty, trim_space, fields, to_lower}
use libp2p_kv_raft.Croncmd.Spec.{Spec}
use libp2p_kv_raft.Croncmd.Spec.Parse.{month_names, dow_names, lookup_name, parse_field}

-- "0 0 1 1 *"
abbrev every_year : Bytes
every_year = 48 ∷ 32 ∷ 48 ∷ 32 ∷ 49 ∷ 32 ∷ 49 ∷ 32 ∷ 42 ∷ []

-- "0 0 1 * *"
abbrev every_month : Bytes
every_month = 48 ∷ 32 ∷ 48 ∷ 32 ∷ 49 ∷ 32 ∷ 42 ∷ 32 ∷ 42 ∷ []

-- "0 0 * * 0"
abbrev every_week : Bytes
every_week = 48 ∷ 32 ∷ 48 ∷ 32 ∷ 42 ∷ 32 ∷ 42 ∷ 32 ∷ 48 ∷ []

-- "0 0 * * *"
abbrev every_day : Bytes
every_day = 48 ∷ 32 ∷ 48 ∷ 32 ∷ 42 ∷ 32 ∷ 42 ∷ 32 ∷ 42 ∷ []

-- "0 * * * *"
abbrev every_hour : Bytes
every_hour = 48 ∷ 32 ∷ 42 ∷ 32 ∷ 42 ∷ 32 ∷ 42 ∷ 32 ∷ 42 ∷ []

-- The shortcuts with their expansions.
abbrev pub shortcuts : List (Bytes × Bytes)
shortcuts =
    -- @yearly
    (64 ∷ 121 ∷ 101 ∷ 97 ∷ 114 ∷ 108 ∷ 121 ∷ [], every_year)
    ∷  -- @annually
        (64 ∷ 97 ∷ 110 ∷ 110 ∷ 117 ∷ 97 ∷ 108 ∷ 108 ∷ 121 ∷ [], every_year)
    ∷  -- @monthly
        (64 ∷ 109 ∷ 111 ∷ 110 ∷ 116 ∷ 104 ∷ 108 ∷ 121 ∷ [], every_month)
    ∷  -- @weekly
        (64 ∷ 119 ∷ 101 ∷ 101 ∷ 107 ∷ 108 ∷ 121 ∷ [], every_week)
    ∷  -- @daily
        (64 ∷ 100 ∷ 97 ∷ 105 ∷ 108 ∷ 121 ∷ [], every_day)
    ∷  -- @midnight
        (64 ∷ 109 ∷ 105 ∷ 100 ∷ 110 ∷ 105 ∷ 103 ∷ 104 ∷ 116 ∷ [], every_day)
    ∷  -- @hourly
        (64 ∷ 104 ∷ 111 ∷ 117 ∷ 114 ∷ 108 ∷ 121 ∷ [], every_hour)
    ∷ []

abbrev pub expansion : Option Bytes → Result Bytes
expansion none = err unknown_shortcut
expansion (some text) = ok text

abbrev pub expand : Bytes → Result Bytes
expand text =
    if has_prefix text (64 ∷ []) then expansion (lookup_name shortcuts (to_lower text)) else ok text

-- Whether a field was written as anything but "*"
abbrev pub is_restricted : Bytes → Bool
is_restricted field = not (equal (trim_space field) (42 ∷ []))

unfoldable pub parse_fields : Bytes → List Bytes → Result Spec
parse_fields text (f0 ∷ f1 ∷ f2 ∷ f3 ∷ f4 ∷ []) =
    wrap minute_field (parse_field f0 0 59 none) >>= λ minute.
    wrap hour_field (parse_field f1 0 23 none) >>= λ hour.
    wrap dom_field (parse_field f2 1 31 none) >>= λ dom.
    wrap month_field (parse_field f3 1 12 (some month_names)) >>= λ month.
    wrap dow_field (parse_field f4 0 6 (some dow_names)) >>= λ dow. ok (record {
      text = text;
      minute = minute;
      hour = hour;
      dom = dom;
      month = month;
      dow = dow;
      dom_restricted = is_restricted f2;
      dow_restricted = is_restricted f4;
    })
parse_fields text _ = err wrong_field_count

unfoldable pub parse_spec : Bytes → Result Spec
parse_spec expr =
    let text = trim_space expr in
    if is_empty text
    then err empty_expression
    else expand text >>= λ expanded. parse_fields text (fields expanded)
