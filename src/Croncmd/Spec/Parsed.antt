-- ===== src/Croncmd/Spec/Parsed.antt =====
-- examples/croncmd/spec.go: what a parsed expression is.
use mathlib.Core.Path.{subst}
use libp2p_kv_raft.Base.{ℕ, ◌≤◌, ◌<◌, ◌≡◌, refl, arith, List, [], ◌∷◌, Option, none, some, Bytes}
use libp2p_kv_raft.Outcome.{
  Context, Result, ok, wrap, wrap-eq-ok, >>=-eq-ok, else-eq-ok, empty_expression, minute_field,
  hour_field, dom_field, month_field, dow_field,
}
use libp2p_kv_raft.Croncmd.Text.{is_empty, trim_space, fields}
use libp2p_kv_raft.Croncmd.Spec.{Spec}
use libp2p_kv_raft.Croncmd.Spec.Parse.{Names, month_names, dow_names, parse_field}
use libp2p_kv_raft.Croncmd.Spec.Masks.{IsMask, parse_field-IsMask}
use libp2p_kv_raft.Croncmd.Spec.Values.{AreNames}
use libp2p_kv_raft.Croncmd.Spec.Expression.{expand, parse_fields, parse_spec}

ok_injective : {s p : Spec} → ◌≡◌ {A = Result Spec} (ok s) (ok p) → s ≡ p
ok_injective e = ground arith

months_AreNames : AreNames 1 12 (some month_names)
months_AreNames = ground arith

days_AreNames : AreNames 0 6 (some dow_names)
days_AreNames = ground arith

wrapped-IsMask :
    (c : Context) (field : Bytes) (min max : ℕ) (names : Option Names) (mask : ℕ)
    → min ≤ max
    → max < 60
    → AreNames min max names
    → wrap c (parse_field field min max names) ≡ ok mask
    → IsMask min max mask
wrapped-IsMask c field min max names mask h small hn e =
    parse_field-IsMask field min max names mask h small hn (wrap-eq-ok c _ mask e)

-- The masks of the five fields, each in the range of its field.
pub record AreMasks (s : Spec) : Type 0 where
  pub minute : IsMask 0 59 s.minute
  pub hour : IsMask 0 23 s.hour
  pub dom : IsMask 1 31 s.dom
  pub month : IsMask 1 12 s.month
  pub dow : IsMask 0 6 s.dow

parse_fields-AreMasks :
    (text : Bytes) (words : List Bytes) (s : Spec)
    → parse_fields text words ≡ ok s
    → AreMasks s × (s.text ≡ text)
unfolding parse_fields
parse_fields-AreMasks text (f0 ∷ f1 ∷ f2 ∷ f3 ∷ f4 ∷ []) s e =
    let (minute, h0, e0) = >>=-eq-ok (wrap minute_field (parse_field f0 0 59 none)) _ e in
    let (hour, h1, e1) = >>=-eq-ok (wrap hour_field (parse_field f1 0 23 none)) _ e0 in
    let (dom, h2, e2) = >>=-eq-ok (wrap dom_field (parse_field f2 1 31 none)) _ e1 in
    let (month, h3, e3) =
      >>=-eq-ok (wrap month_field (parse_field f3 1 12 (some month_names))) _ e2 in
    let (dow, h4, e4) = >>=-eq-ok (wrap dow_field (parse_field f4 0 6 (some dow_names))) _ e3 in
    subst (λ p. AreMasks p × (p.text ≡ text)) (ok_injective e4)
      (
        record {
          minute = wrapped-IsMask _ f0 0 59 none minute (omega arith) (omega arith) tt h0;
          hour = wrapped-IsMask _ f1 0 23 none hour (omega arith) (omega arith) tt h1;
          dom = wrapped-IsMask _ f2 1 31 none dom (omega arith) (omega arith) tt h2;
          month =
              wrapped-IsMask _ f3 1 12 (some month_names) month (omega arith) (omega arith)
                months_AreNames h3;
          dow =
              wrapped-IsMask _ f4 0 6 (some dow_names) dow (omega arith) (omega arith) days_AreNames
                h4;
        },
        refl,
      )
parse_fields-AreMasks text _ s e = absurd (ground arith)

-- An expression that parses keeps its text, without the white space around it, and each of its
-- masks has no bit above its field's largest value and one at least in the field's range.
pub parse_spec-AreMasks :
    (expr : Bytes) (s : Spec) → parse_spec expr ≡ ok s → AreMasks s × (s.text ≡ trim_space expr)
unfolding parse_spec
parse_spec-AreMasks expr s e =
    let (full, e0) = else-eq-ok (is_empty (trim_space expr)) empty_expression _ e in
    let (text, et, e1) = >>=-eq-ok (expand (trim_space expr)) _ e0 in
    parse_fields-AreMasks (trim_space expr) (fields text) s e1
